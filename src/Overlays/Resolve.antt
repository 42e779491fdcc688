-- ===== src/Overlays/Resolve.antt =====
-- librecomp/src/overlays.cpp: the memory address of a fragment's link-time address, when several
-- variants of the fragment are loaded.
pub mod Variants
pub mod Pattern
use n64modern_runtime.Base.{
  ℕ, ◌+◌, ◌-◌, ◌*◌, ◌/◌, ◌%◌, ◌^◌, Bool, true, false, not, ◌&&◌, ◌||◌, Option, none, some, List, [],
  ◌∷◌, ltb, leb, ◌==◌, if◌then◌else◌, update,
}
use n64modern_runtime.Base.Bits.{u32}
use n64modern_runtime.Base.Int.{ℤ, ◌+ℤ◌, ◌-ℤ◌, ltb_ℤ, pos, negsuc}
use n64modern_runtime.Overlays.{SectionTableEntry, LoadedSection, in_range}
use n64modern_runtime.Overlays.Loader.{Loader, find_section}
use n64modern_runtime.Overlays.PcIndex.{pc_index_lookup}
use n64modern_runtime.Overlays.Fragments.{
  synthetic_bucket_count, is_synthetic_addr, synthetic_bucket_idx,
}
use n64modern_runtime.Overlays.Fragments.Register.{SyntheticFragmentSlot, Fragments}

abbrev pub bucket_of : ℕ → ℕ
bucket_of link_vaddr = link_vaddr / 2 ^ 20 * 2 ^ 20

abbrev pub offset_of : ℕ → ℕ
offset_of link_vaddr = link_vaddr % 2 ^ 20

abbrev pub is_fragment_vaddr : ℕ → Bool
is_fragment_vaddr v = leb 0x81000000 v && ltb v 0x90000000

-- A candidate so far: its measure and its address.
abbrev pub Best : Type 0
Best = ℕ × ℕ

module _ (sections : ℕ → SectionTableEntry) where
  -- A variant of the bucket whose size covers the offset.
  abbrev pub covers : (bucket offset : ℕ) → LoadedSection → Bool
  covers bucket offset ls =
      let sec = sections ls.section_table_index in (sec.ram_addr == bucket) && ltb offset sec.size

  -- From the back: the smallest one, of equal ones the last.
  unfoldable pub smallest : (bucket offset : ℕ) → List LoadedSection → Best
  smallest bucket offset [] = (2 ^ 32 - 1, 0)
  smallest bucket offset (ls ∷ l) =
      let best = smallest bucket offset l in
      let size = (sections ls.section_table_index).size in
      if covers bucket offset ls
      then if ltb size best.0 then (size, u32 (ls.loaded_ram_addr + offset)) else best
      else best

  unfoldable pub recomp_lookup_fragment_offset : (link_vaddr : ℕ) → List LoadedSection → ℕ
  unfolding smallest
  recomp_lookup_fragment_offset v l =
      if is_fragment_vaddr v then (smallest (bucket_of v) (offset_of v) l).1 else 0

  -- From the front: the one with the last load before the caller's.
  unfoldable pub latest_before :
      (order : ℕ → ℕ) (caller_order bucket offset : ℕ) → List LoadedSection → Best → Best
  latest_before order caller_order bucket offset [] best = best
  latest_before order caller_order bucket offset (ls ∷ l) best =
      let o = order ls.section_table_index in
      latest_before order caller_order bucket offset l (
        if covers bucket offset ls
        then if (o == 0) || leb caller_order o
          then best
          else if ltb best.0 o
          then (o, u32 (ls.loaded_ram_addr + offset))
          else best
        else best)

  unfoldable pub before_caller : (caller_order v : ℕ) → Loader → ℕ
  unfolding latest_before
  before_caller caller_order v s =
      if caller_order == 0
      then 0
      else (latest_before s.section_load_order caller_order (bucket_of v) (offset_of v)
          s.loaded_sections (0, 0)).1

  abbrev pub own_variant : (offset : ℕ) → Option LoadedSection → (otherwise : ℕ) → ℕ
  own_variant offset none otherwise = otherwise
  own_variant offset (some ls) otherwise = u32 (ls.loaded_ram_addr + offset)

  unfoldable pub resolve_caller : (v : ℕ) → Option ℕ → Loader → ℕ
  unfolding before_caller find_section
  resolve_caller v none s = 0
  resolve_caller v (some caller) s =
      let sec = sections caller in
      let earlier = before_caller (s.section_load_order caller) v s in
      if (sec.ram_addr == bucket_of v) && ltb (offset_of v) sec.size
      then own_variant (offset_of v) (find_section caller s.loaded_sections) earlier
      else earlier

  unfoldable pub recomp_resolve_fragment_via_caller_pc : (link_vaddr caller_pc : ℕ) → Loader → ℕ
  unfolding resolve_caller pc_index_lookup
  recomp_resolve_fragment_via_caller_pc v pc s =
      if is_fragment_vaddr v then resolve_caller v (pc_index_lookup pc s.pc_index) s else 0

  unfoldable pub recomp_addr_in_loaded_variant : (bucket addr : ℕ) → List LoadedSection → Bool
  recomp_addr_in_loaded_variant bucket addr [] = false
  recomp_addr_in_loaded_variant bucket addr (ls ∷ l) =
      let rest = recomp_addr_in_loaded_variant bucket addr l in
      let sec = sections ls.section_table_index in
      if not (sec.ram_addr == bucket)
      then rest
      else if in_range addr ls.loaded_ram_addr sec.size
      then true
      else rest

  -- The first loaded section that the data lies in decides.
  unfoldable pub around_data : (bucket offset data_ctx_addr : ℕ) → List LoadedSection → ℕ
  around_data bucket offset ctx [] = 0
  around_data bucket offset ctx (ls ∷ l) =
      let rest = around_data bucket offset ctx l in
      let sec = sections ls.section_table_index in
      if not (in_range ctx ls.loaded_ram_addr sec.size)
      then rest
      else if covers bucket offset ls
      then u32 (ls.loaded_ram_addr + offset)
      else 0

  unfoldable pub recomp_resolve_via_data_context :
      (link_vaddr data_ctx_addr : ℕ) → List LoadedSection → ℕ
  unfolding around_data
  recomp_resolve_via_data_context v ctx l =
      if is_fragment_vaddr v && not (ctx == 0)
      then around_data (bucket_of v) (offset_of v) ctx l
      else 0

-- `s_fragment_input_stack` and `s_fragment_input_sp`.
pub record InputStack : Type 0 where
  pub slots : ℕ → ℕ
  pub sp : ℤ

abbrev pub input_stack_depth : ℤ
input_stack_depth = pos 16

-- `none` stands for a write in front of the array.
abbrev pub store_input : (input : ℕ) → ℤ → (ℕ → ℕ) → Option (ℕ → ℕ)
store_input input (pos i) slots =
    some (if ltb_ℤ (pos i) input_stack_depth then update slots i input else slots)
store_input input (negsuc i) slots = none

abbrev pub pushed : ℤ → Option (ℕ → ℕ) → Option InputStack
pushed sp none = none
pushed sp (some slots) = some (record { slots = slots; sp = sp })

unfoldable pub librecomp_fragment_input_push : (input : ℕ) → InputStack → Option InputStack
unfolding ◌+ℤ◌
librecomp_fragment_input_push input s = pushed (s.sp +ℤ pos 1) (store_input input s.sp s.slots)

abbrev pub slot_or_first : ℤ → ℕ
slot_or_first (pos i) = if ltb_ℤ (pos i) input_stack_depth then i else 0
slot_or_first (negsuc i) = 0

unfoldable pub librecomp_fragment_input_pop : InputStack → ℕ × InputStack
unfolding ◌-ℤ◌
librecomp_fragment_input_pop s =
    let sp = s.sp -ℤ pos 1 in (s.slots (slot_or_first sp), record s { sp = sp })

-- An address of the pool, an empty slot or an offset outside of the variant: `none` is the abort.
abbrev pub slot_address : (offset : ℕ) → Option SyntheticFragmentSlot → Option ℕ
slot_address offset none = none
slot_address offset (some slot) =
    if leb slot.size offset then none else some (u32 (slot.runtime_base + offset))

unfoldable pub recomp_resolve_synthetic_fragment :
    (addr : ℕ) → (ℕ → Option SyntheticFragmentSlot) → Option ℕ
recomp_resolve_synthetic_fragment addr table =
    if is_synthetic_addr addr
    then if ltb (synthetic_bucket_idx addr) synthetic_bucket_count
      then slot_address (offset_of addr) (table (synthetic_bucket_idx addr))
      else none
    else some 0

abbrev pub or_game_result : (game_result resolved : ℕ) → ℕ
or_game_result game_result resolved = if resolved == 0 then game_result else resolved

module _ (sections : ℕ → SectionTableEntry) where
  unfoldable pub resolve_pattern : (input game_result data_ctx_addr : ℕ) → List LoadedSection → ℕ
  unfolding recomp_addr_in_loaded_variant recomp_resolve_via_data_context
  resolve_pattern input game_result ctx l =
      if not (bucket_of input == 0x8FF00000)
      then game_result
      else if not (is_fragment_vaddr input)
      then game_result
      else if recomp_addr_in_loaded_variant sections (bucket_of input) game_result l
      then game_result
      else or_game_result game_result (recomp_resolve_via_data_context sections input ctx l)

  unfoldable pub resolve_input :
      (input game_result data_ctx_addr : ℕ) → Option ℕ → List LoadedSection → Option ℕ
  unfolding resolve_pattern
  resolve_input input game_result ctx none l = none
  resolve_input input game_result ctx (some synth) l =
      some (if not (synth == 0) then synth else resolve_pattern input game_result ctx l)

  unfoldable pub librecomp_fragment_resolve_exit :
      (game_result data_ctx_addr : ℕ) → InputStack → Fragments → Option ℕ × InputStack
  unfolding librecomp_fragment_input_pop recomp_resolve_synthetic_fragment resolve_input
  librecomp_fragment_resolve_exit game_result ctx s t =
      let (input, popped) = librecomp_fragment_input_pop s in
      (
        resolve_input input game_result ctx (recomp_resolve_synthetic_fragment input t.synthetic)
            t.loader.loaded_sections,
        popped,
      )
