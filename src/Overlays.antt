-- ===== src/Overlays.antt =====
-- librecomp/src/overlays.cpp: addresses of sections as the linker gave them, and where the sections
-- are loaded.
pub mod Aliases
pub mod Loader
pub mod Dma
pub mod PcIndex
pub mod Apart
pub mod Evict
pub mod Residency
pub mod Reads
pub mod Addresses
pub mod Places
pub mod Dispatch
pub mod Unload
pub mod Trampolines
pub mod Adjacent
pub mod Fragments
pub mod Resolve
pub mod Functions
pub mod Translate
use n64modern_runtime.Base.{
  ℕ, ◌+◌, ◌-◌, ◌*◌, ◌/◌, ◌%◌, ◌^◌, Bool, false, not, ◌&&◌, Option, none, some, List, [], ◌∷◌, ltb,
  leb, ◌==◌, if◌then◌else◌,
}
use n64modern_runtime.Base.Bits.{u32}

-- The target of a J or JAL, or 0; the delay slot's address gives the high bits.
unfoldable pub decode_jal_target : (instr pc_delay_slot : ℕ) → ℕ
decode_jal_target instr pc_delay_slot =
    let opcode = instr / 2 ^ 26 % 64 in
    if not (opcode == 0x02) && not (opcode == 0x03)
    then 0
    else pc_delay_slot / 2 ^ 28 * 2 ^ 28 + instr % 2 ^ 26 * 4

-- A function of a section; `func` is the host's pointer, 0 for a null one.
pub record FuncEntry : Type 0 where
  pub func : ℕ
  pub offset : ℕ
  pub rom_size : ℕ

-- `SectionTableEntry` less its relocations, which the recompiled code reads.
pub record SectionTableEntry : Type 0 where
  pub rom_addr : ℕ
  pub ram_addr : ℕ
  pub size : ℕ
  pub funcs : List FuncEntry
  pub index : ℕ
  pub content_hash : ℕ
  pub original_pattern_id : ℕ

-- An entry of `loaded_sections`. Addresses are the 32-bit numbers of `int32_t` values.
pub record LoadedSection : Type 0 where
  pub loaded_ram_addr : ℕ
  pub section_table_index : ℕ

unfoldable pub section_original_fragment_base : SectionTableEntry → Option ℕ
section_original_fragment_base sec =
    if sec.original_pattern_id == 0xFFFFFFFF
    then none
    else some (2 ^ 31 + (sec.original_pattern_id + 0x10) % 256 * 2 ^ 20)

-- `x >= base && x < base + size`, of 32 bits.
abbrev pub in_range : (x base size : ℕ) → Bool
in_range x base size = leb base x && ltb x (u32 (base + size))

abbrev pub in_original : (x : ℕ) → SectionTableEntry → Option ℕ → Bool
in_original x sec none = false
in_original x sec (some base) = in_range x base sec.size

abbrev pub base_or_zero : Option ℕ → ℕ
base_or_zero none = 0
base_or_zero (some base) = base

-- The parameter is the table `sections_info.code_sections`.
module _ (sections : ℕ → SectionTableEntry) where
  unfoldable pub translate_link_time_to_runtime : List LoadedSection → (link_time : ℕ) → ℕ
  translate_link_time_to_runtime [] x = 0
  translate_link_time_to_runtime (ls ∷ rest) x =
      let others = translate_link_time_to_runtime rest x in
      let sec = sections ls.section_table_index in
      let original = section_original_fragment_base sec in
      if in_range x ls.loaded_ram_addr sec.size
      then x
      else if in_range x sec.ram_addr sec.size
      then u32 (ls.loaded_ram_addr + (x - sec.ram_addr))
      else if in_original x sec original
      then u32 (ls.loaded_ram_addr + (x - base_or_zero original))
      else others
