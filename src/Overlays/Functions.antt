-- ===== src/Overlays/Functions.antt =====
-- librecomp/src/overlays.cpp: functions found by their section.
pub mod Loaded
use n64modern_runtime.Base.{
  ℕ, ◌+◌, ◌-◌, ◌^◌, Bool, ◌&&◌, Option, none, some, List, [], ◌∷◌, ltb, leb, ◌==◌, if◌then◌else◌,
}
use n64modern_runtime.Base.Bits.{u32}
use n64modern_runtime.Overlays.{FuncEntry, SectionTableEntry}

-- The first function at an offset.
unfoldable pub find_func : (function_offset : ℕ) → List FuncEntry → Option FuncEntry
find_func offset [] = none
find_func offset (f ∷ l) =
    let rest = find_func offset l in if f.offset == offset then some f else rest

abbrev pub is_manual_patch_symbol : (vram : ℕ) → Bool
is_manual_patch_symbol vram = leb 0x8F000000 vram && ltb vram 0x90000000

-- A null pointer for what is not found.
abbrev pub or_null : Option ℕ → ℕ
or_null none = 0
or_null (some f) = f

-- The tables: `sections_info`, `code_sections_by_rom` and `manual_patch_symbols_by_vram`; the index
-- `N64Recomp::SectionAbsolute` is the recompiler's.
module _ (sections : ℕ → SectionTableEntry) (num_code_sections : ℕ)
    (code_sections_by_rom : ℕ → Option ℕ) (manual_patch_symbols : ℕ → Option ℕ)
    (section_absolute : ℕ) where
  unfoldable pub get_func_entry_by_section_index_function_offset :
      (code_section_index function_offset : ℕ) → Option FuncEntry
  unfolding find_func
  get_func_entry_by_section_index_function_offset i offset =
      if leb num_code_sections i
      then none
      else if leb (sections i).size offset
      then none
      else find_func offset (sections i).funcs

  unfoldable pub func_of_entry : (code_section_index function_offset : ℕ) → Option FuncEntry → ℕ
  func_of_entry i offset (some f) = f.func
  func_of_entry i offset none =
      if (i == section_absolute) && is_manual_patch_symbol offset
      then or_null (manual_patch_symbols offset)
      else 0

  unfoldable pub get_func_by_section_index_function_offset :
      (code_section_index function_offset : ℕ) → ℕ
  unfolding get_func_entry_by_section_index_function_offset func_of_entry
  get_func_by_section_index_function_offset i offset =
      func_of_entry i offset (get_func_entry_by_section_index_function_offset i offset)

  unfoldable pub func_of_section : (function_vram : ℕ) → Option ℕ → ℕ
  unfolding get_func_by_section_index_function_offset
  func_of_section vram none = 0
  func_of_section vram (some i) =
      get_func_by_section_index_function_offset i (u32 (vram + (2 ^ 32 - (sections i).ram_addr)))

  unfoldable pub get_func_by_section_rom_function_vram : (section_rom function_vram : ℕ) → ℕ
  unfolding func_of_section
  get_func_by_section_rom_function_vram rom vram = func_of_section vram (code_sections_by_rom rom)
