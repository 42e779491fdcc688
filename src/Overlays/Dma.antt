-- ===== src/Overlays/Dma.antt =====
-- librecomp/src/overlays.cpp: the sections that a read of the ROM brings in, those it overwrites,
-- and those that the game unloads by their addresses.
use n64modern_runtime.Base.{
  ℕ, zero, suc, ◌+◌, ◌-◌, ◌^◌, Bool, not, ◌&&◌, ◌||◌, Option, none, some, List, [], ◌∷◌, ◌++◌, ltb,
  leb, ◌==◌, if◌then◌else◌, length,
}
use n64modern_runtime.Base.Bits.{u32}
use n64modern_runtime.Overlays.{SectionTableEntry, LoadedSection}
use n64modern_runtime.Overlays.Loader.{
  Loader, secaddr_set, find_section, forget_functions, load_overlay,
  unload_overlay_by_section_index,
}

-- Of 64 bits: the ends do not wrap around.
unfoldable pub runtime_ranges_overlap : (a_base a_size b_base b_size : ℕ) → Bool
runtime_ranges_overlap a_base a_size b_base b_size =
    ltb a_base (b_base + b_size) && ltb b_base (a_base + a_size)

-- The first index that a test does not hold at: the bound of a table that the test partitions.
unfoldable pub bound : (ℕ → Bool) → (start count : ℕ) → ℕ
bound below start zero = start
bound below start (suc n) =
    let rest = bound below (suc start) n in if below start then rest else start

-- `a > b` of two `int32_t`.
abbrev pub signed_gt : (a b : ℕ) → Bool
signed_gt a b = ltb (u32 (b + 2 ^ 31)) (u32 (a + 2 ^ 31))

module _ (sections : ℕ → SectionTableEntry) where
  -- The first loaded section, but this one, that overlaps it at its new address.
  unfoldable pub overlapping : (section_index implied_base : ℕ) → List LoadedSection → Option ℕ
  unfolding runtime_ranges_overlap
  overlapping i base [] = none
  overlapping i base (ls ∷ l) =
      let rest = overlapping i base l in
      let old = sections ls.section_table_index in
      if ls.section_table_index == i
      then rest
      else if not (runtime_ranges_overlap base (sections i).size ls.loaded_ram_addr old.size)
      then rest
      else some ls.section_table_index

-- The `while (evicted)` of the rounds.
abbrev pub evict_or_stop : Option ℕ → (ℕ → Loader) → Loader → Loader
evict_or_stop none again s = s
evict_or_stop (some k) again s = again k

module _ (sections : ℕ → SectionTableEntry) (unreg : Bool) where
  -- A round unloads a section, so that as many rounds as there are sections are enough.
  unfoldable pub evict_rounds : (fuel section_index implied_base : ℕ) → Loader → Loader
  unfolding overlapping unload_overlay_by_section_index
  evict_rounds zero i base s = s
  evict_rounds (suc n) i base s =
      evict_or_stop (overlapping sections i base s.loaded_sections)
        (λ k. evict_rounds n i base (unload_overlay_by_section_index sections unreg k s)) s

  unfoldable pub evict_overlapping_sections : (section_index implied_base : ℕ) → Loader → Loader
  unfolding evict_rounds
  evict_overlapping_sections i base s = evict_rounds (suc (length s.loaded_sections)) i base s

  unfoldable pub register_found :
      (section_index implied_base : ℕ) → Option LoadedSection → Loader → Loader
  unfolding load_overlay unload_overlay_by_section_index
  register_found i base none s = load_overlay sections i base s
  register_found i base (some ls) s =
      if not (ls.loaded_ram_addr == base)
      then load_overlay sections i base (unload_overlay_by_section_index sections unreg i s)
      else s

  unfoldable pub register_if_new : (section_index implied_base : ℕ) → Loader → Loader
  unfolding evict_overlapping_sections register_found
  register_if_new i base s =
      let s₁ = evict_overlapping_sections i base s in
      register_found i base (find_section i s₁.loaded_sections) s₁

  -- `rom_addr - rom + ram_addr`
  abbrev pub base_of : (rom ram_addr section_index : ℕ) → ℕ
  base_of rom ram_addr i = u32 ((sections i).rom_addr + (2 ^ 32 - rom) + ram_addr)

  -- The sections from `lower` to `upper_a` that fit in the read.
  unfoldable pub register_wholly_inside : (rom ram_addr size start count : ℕ) → Loader → Loader
  unfolding register_if_new
  register_wholly_inside rom ram_addr size start zero s = s
  register_wholly_inside rom ram_addr size start (suc n) s =
      let end_rom = u32 ((sections start).rom_addr + (sections start).size) in
      register_wholly_inside rom ram_addr size (suc start) n (
        if ltb (u32 (rom + size)) end_rom
        then s
        else register_if_new start (base_of rom ram_addr start) s)

  -- A read that begins inside of the section before `lower`.
  unfoldable pub register_containing : (rom ram_addr lower : ℕ) → Loader → Loader
  unfolding register_if_new
  register_containing rom ram_addr zero s = s
  register_containing rom ram_addr (suc i) s =
      let candidate = sections i in
      if leb candidate.rom_addr rom && ltb rom (u32 (candidate.rom_addr + candidate.size))
      then register_if_new i (u32 (ram_addr + (2 ^ 32 - (rom - candidate.rom_addr)))) s
      else s

  -- `ram_addr` to its end and a loaded section have an address in common, or touch.
  abbrev pub is_unloaded : (ram_addr size : ℕ) → LoadedSection → Bool
  is_unloaded ram_addr size ls =
      ltb ram_addr (u32 (ls.loaded_ram_addr + (sections ls.section_table_index).size))
      && leb ls.loaded_ram_addr (u32 (ram_addr + size))

  abbrev pub is_partial : (ram_addr size : ℕ) → LoadedSection → Bool
  is_partial ram_addr size ls =
      signed_gt ram_addr ls.loaded_ram_addr
      || ltb (u32 (ram_addr + size))
          (u32 (ls.loaded_ram_addr + (sections ls.section_table_index).size))

  unfoldable pub forget_loaded : LoadedSection → Loader → Loader
  unfolding forget_functions
  forget_loaded ls s =
      let section = sections ls.section_table_index in
      record s {
        func_map = forget_functions unreg section ls.loaded_ram_addr s.func_map;
        section_addresses = secaddr_set section.index section.ram_addr s.section_addresses;
      }

  -- The walk over the loaded sections, with those kept so far; `none` is the exit of the process.
  unfoldable pub unload_walk :
      (ram_addr size : ℕ) (kept to_visit : List LoadedSection) → Loader → Option Loader
  unfolding forget_loaded
  unload_walk ram_addr size kept [] s = some (record s { loaded_sections = kept })
  unload_walk ram_addr size kept (ls ∷ l) s =
      let dropped = unload_walk ram_addr size kept l (forget_loaded ls s) in
      let passed = unload_walk ram_addr size (kept ++ ls ∷ []) l s in
      if is_unloaded ram_addr size ls
      then if is_partial ram_addr size ls then none else dropped
      else passed

  unfoldable pub unload_overlays : (ram_addr size : ℕ) → Loader → Option Loader
  unfolding unload_walk
  unload_overlays ram_addr size s = unload_walk ram_addr size [] s.loaded_sections s

module _ (sections : ℕ → SectionTableEntry) (num_code_sections : ℕ) (unreg : Bool) where
  -- A read of the first part of a section.
  unfoldable pub register_first_chunk : (rom ram_addr size lower : ℕ) → Loader → Loader
  unfolding register_if_new
  register_first_chunk rom ram_addr size lower s =
      let sec = sections lower in
      if not (lower == num_code_sections) && (sec.rom_addr == rom)
      then if ltb (u32 (rom + size)) (u32 (sec.rom_addr + sec.size))
        then register_if_new sections unreg lower (base_of sections unreg rom ram_addr lower) s
        else s
      else s

  unfoldable pub load_overlays : (rom ram_addr size : ℕ) → Loader → Loader
  unfolding bound register_wholly_inside register_containing register_first_chunk
  load_overlays rom ram_addr size s =
      let lower = bound (λ i. ltb (sections i).rom_addr rom) 0 num_code_sections in
      let upper_a = bound (λ i. leb (sections i).rom_addr (u32 (rom + size))) 0 num_code_sections in
      register_first_chunk rom ram_addr size lower (
        register_containing sections unreg rom ram_addr lower
          (register_wholly_inside sections unreg rom ram_addr size lower (upper_a - lower) s))
