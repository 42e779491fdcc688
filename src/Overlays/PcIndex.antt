-- ===== src/Overlays/PcIndex.antt =====
-- librecomp/src/overlays.cpp: the index from host addresses to sections, and the order in which the
-- sections were loaded.
pub mod Lookup
pub mod Nearest
use n64modern_runtime.Base.{
  ℕ, ◌-◌, Bool, true, false, not, Option, none, some, List, [], ◌∷◌, ◌++◌, ltb, leb, ◌==◌,
  if◌then◌else◌,
}

pub record PcRange : Type 0 where
  pub host_pc : ℕ
  pub section_index : ℕ

-- `pc_to_section_sorted` and `pc_index_dirty`.
pub record PcIndex : Type 0 where
  pub ranges : List PcRange
  pub dirty : Bool

unfoldable pub pc_index_register : (func section_index : ℕ) → PcIndex → PcIndex
pc_index_register func section_index p = if func == 0 then p else record {
  ranges = p.ranges ++ record { host_pc = func; section_index = section_index } ∷ [];
  dirty = true;
}

-- `std::sort` by host address, which promises no order of equal ones: here by insertion.
abbrev pub insert_range : PcRange → List PcRange → List PcRange
insert_range r [] = r ∷ []
insert_range r (q ∷ l) =
    let rest = insert_range r l in if leb r.host_pc q.host_pc then r ∷ q ∷ l else q ∷ rest

abbrev pub sort_ranges : List PcRange → List PcRange
sort_ranges [] = []
sort_ranges (r ∷ l) = insert_range r (sort_ranges l)

unfoldable pub pc_index_rebuild_if_dirty : PcIndex → PcIndex
pc_index_rebuild_if_dirty p =
    if not p.dirty then p else record { ranges = sort_ranges p.ranges; dirty = false }

-- The element before `upper_bound`: the last one that starts at or before `pc`.
abbrev pub before_upper_bound : (pc : ℕ) → List PcRange → Option PcRange → Option PcRange
before_upper_bound pc [] best = best
before_upper_bound pc (r ∷ l) best =
    let later = before_upper_bound pc l (some r) in if ltb pc r.host_pc then best else later

-- `none` stands for `size_t(-1)`.
abbrev pub within_window : (pc : ℕ) → Option PcRange → Option ℕ
within_window pc none = none
within_window pc (some r) = if ltb 0x10000 (pc - r.host_pc) then none else some r.section_index

unfoldable pub pc_index_lookup : (pc : ℕ) → PcIndex → Option ℕ
unfolding pc_index_rebuild_if_dirty
pc_index_lookup pc p =
    within_window pc (before_upper_bound pc (pc_index_rebuild_if_dirty p).ranges none)
