-- ===== src/Overlays/PcIndex/Lookup.antt =====
-- The lookup of a host address in the index: the nearest start, within the window.
use n64modern_runtime.Base.{
  ℕ, ◌-◌, ◌≤◌, ◌<◌, ◌≡◌, refl, Bool, true, false, not, Option, none, some, List, arith, ltb, ◌==◌,
  ltb→lt, ltb-false, if_cases, All, All-map, IsIn,
}
use mathlib.Core.Option.{some-injective}
use n64modern_runtime.Overlays.PcIndex.{
  PcRange, PcIndex, pc_index_register, pc_index_rebuild_if_dirty, before_upper_bound, within_window,
  pc_index_lookup,
}
use n64modern_runtime.Overlays.PcIndex.Nearest.{
  IsSorted, IsIndexed, sort_ranges-IsSorted, sort_ranges-IsIn, sort_ranges-All, IsNearest,
  bound_some, bound_none,
}

pub pc_index_register-IsIndexed :
    (func i : ℕ) (p : PcIndex) → IsIndexed p → IsIndexed (pc_index_register func i p)
unfolding pc_index_register
pc_index_register-IsIndexed func i p h =
    if_cases IsIndexed (func == 0) (λ _. h) (λ _ e. absurd (ground (arith, e)))

not-true : (b : Bool) → not b ≡ true → b ≡ false
not-true false e = refl
not-true true e = absurd (ground (arith, e))

module _ (p : PcIndex) where
  rebuild-IsSorted : IsIndexed p → IsSorted (pc_index_rebuild_if_dirty p).ranges
  unfolding pc_index_rebuild_if_dirty
  rebuild-IsSorted h =
      if_cases (λ (z : PcIndex). IsSorted z.ranges) (not p.dirty) (λ e. h (not-true p.dirty e))
        (λ _. sort_ranges-IsSorted p.ranges)

  rebuild-IsIn : (r : PcRange) → IsIn r (pc_index_rebuild_if_dirty p).ranges → IsIn r p.ranges
  unfolding pc_index_rebuild_if_dirty
  rebuild-IsIn r =
      if_cases (λ (z : PcIndex). IsIn r z.ranges → IsIn r p.ranges) (not p.dirty) (λ _ h. h)
        (λ _. sort_ranges-IsIn r p.ranges)

  rebuild-All : (P : PcRange → Type 0) → All P (pc_index_rebuild_if_dirty p).ranges → All P p.ranges
  unfolding pc_index_rebuild_if_dirty
  rebuild-All P =
      if_cases (λ (z : PcIndex). All P z.ranges → All P p.ranges) (not p.dirty) (λ _ h. h)
        (λ _. sort_ranges-All P p.ranges)

-- The function that a return address is taken to be in.
abbrev pub IsCaller : (pc i : ℕ) → PcRange → List PcRange → Type 0
IsCaller pc i r l = (r.section_index ≡ i) × (pc - r.host_pc ≤ 0x10000) × IsIn r l × IsNearest pc r l

-- A function starts at or before the address, and the window reaches it.
abbrev pub IsOutOfReach : (pc : ℕ) → PcRange → Type 0
IsOutOfReach pc q = q.host_pc ≤ pc → 0x10000 < pc - q.host_pc

module _ (pc : ℕ) (l : List PcRange) (sorted : IsSorted l) where
  window_some :
      (i : ℕ) (o : Option PcRange)
      → before_upper_bound pc l none ≡ o
      → within_window pc o ≡ some i
      → (r : PcRange) × IsCaller pc i r l
  window_some i none e = λ h. absurd (ground (arith, h))
  window_some i (some r) e =
      if_cases (λ (z : Option ℕ). z ≡ some i → (x : PcRange) × IsCaller pc i x l)
        (ltb 0x10000 (pc - r.host_pc)) (λ _ h. absurd (ground (arith, h)))
        (λ k h. (
          r,
          (
            some-injective r.section_index i h,
            ltb-false 0x10000 (pc - r.host_pc) k,
            (bound_some pc r l sorted e).0,
            (bound_some pc r l sorted e).1,
          ),
        ))

  window_none :
      (o : Option PcRange)
      → before_upper_bound pc l none ≡ o
      → within_window pc o ≡ none
      → All (IsOutOfReach pc) l
  window_none none e =
      λ _. All-map l (λ q k m. absurd (omega (arith, k, m))) (bound_none pc l sorted e)
  window_none (some r) e =
      if_cases (λ (z : Option ℕ). z ≡ none → All (IsOutOfReach pc) l) (ltb 0x10000 (pc - r.host_pc))
        (λ k _.
          let lt = ltb→lt 0x10000 (pc - r.host_pc) k in
          All-map l (λ q f m. omega (arith, lt, f m, m)) (bound_some pc r l sorted e).1.1)
        (λ _ h. absurd (ground (arith, h)))

pc_index_lookup-IsCaller :
    (pc i : ℕ) (p : PcIndex)
    → IsIndexed p
    → pc_index_lookup pc p ≡ some i
    → (r : PcRange) × IsCaller pc i r p.ranges
unfolding pc_index_lookup
pc_index_lookup-IsCaller pc i p h e =
    let sorted = rebuild-IsSorted p h in
    let (r, (same, near, m, (le, all))) =
      window_some pc (pc_index_rebuild_if_dirty p).ranges sorted i _ refl e in
    (r, (same, near, rebuild-IsIn p r m, (le, rebuild-All p _ all)))

pc_index_lookup-none :
    (pc : ℕ) (p : PcIndex)
    → IsIndexed p
    → pc_index_lookup pc p ≡ none
    → All (IsOutOfReach pc) p.ranges
unfolding pc_index_lookup
pc_index_lookup-none pc p h e =
    rebuild-All p (IsOutOfReach pc)
      (window_none pc (pc_index_rebuild_if_dirty p).ranges (rebuild-IsSorted p h) _ refl e)

-- An answer of the lookup: a function in reach of which no other one is nearer, or none in reach.
abbrev pub IsAnswer : (pc : ℕ) → Option ℕ → List PcRange → Type 0
IsAnswer pc none l = All (IsOutOfReach pc) l
IsAnswer pc (some i) l = (r : PcRange) × IsCaller pc i r l

answered :
    (pc : ℕ) (p : PcIndex) (o : Option ℕ)
    → IsIndexed p
    → pc_index_lookup pc p ≡ o
    → IsAnswer pc o p.ranges
answered pc p none h e = pc_index_lookup-none pc p h e
answered pc p (some i) h e = pc_index_lookup-IsCaller pc i p h e

-- In an index that is sorted unless it is marked dirty, a lookup finds the section of a registered
-- function that starts at most 64 KiB before the address, with no registered function between the
-- two; it finds nothing only when every registered function that starts at or before the address
-- starts more than 64 KiB before it.
pub pc_index_lookup-IsAnswer :
    (pc : ℕ) (p : PcIndex) → IsIndexed p → IsAnswer pc (pc_index_lookup pc p) p.ranges
pc_index_lookup-IsAnswer pc p h = answered pc p (pc_index_lookup pc p) h refl
