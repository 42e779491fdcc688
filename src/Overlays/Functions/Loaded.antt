-- ===== src/Overlays/Functions/Loaded.antt =====
-- The functions that the tables name are those that calls find once their section is loaded.
use n64modern_runtime.Base.{
  ℕ, ◌+◌, ◌-◌, ◌^◌, ◌<◌, ◌≡◌, refl, sym, ap, ◌∙◌, ◌≢◌, Bool, true, false, ◌&&◌, ◌||◌, Option, none,
  some, List, [], ◌∷◌, arith, leb, ◌==◌, if◌then◌else◌, ==_iff, ==_apart, if_cases, All,
}
use mathlib.Core.Option.{some-injective}
use mathlib.Core.Path.{subst}
use n64modern_runtime.Base.Bits.{u32}
use n64modern_runtime.Overlays.Dispatch.{LeadsTo, load_overlay-LeadsTo}
use n64modern_runtime.Overlays.Places.{IsPlaced, AreLaidOut}
use n64modern_runtime.Overlays.Loader.{Loader, load_overlay}
use n64modern_runtime.Overlays.{FuncEntry, SectionTableEntry}
use n64modern_runtime.Overlays.Aliases.{is_alias}
use n64modern_runtime.Overlays.Functions.{
  find_func, is_manual_patch_symbol, or_null, get_func_entry_by_section_index_function_offset,
  func_of_entry, get_func_by_section_index_function_offset, func_of_section,
  get_func_by_section_rom_function_vram,
}

-- What holds of all functions holds of the one that is found, which is at the offset.
found_func :
    (P : FuncEntry → Type 0) (offset : ℕ) (l : List FuncEntry) (f : FuncEntry)
    → All P l
    → find_func offset l ≡ some f
    → P f × (f.offset ≡ offset)
unfolding find_func
found_func P offset [] f h = λ e. absurd (ground (arith, e))
found_func P offset (g ∷ l) f (h, hs) =
    if_cases (λ (z : Option FuncEntry). z ≡ some f → P f × (f.offset ≡ offset)) (g.offset == offset)
      (λ q e.
        let same = some-injective g f e in
        subst (λ (x : FuncEntry). P x × (x.offset ≡ offset)) same (h, (==_iff g.offset offset).0 q))
      (λ _. found_func P offset l f hs)

link_alias :
    (section : SectionTableEntry) (ram vram offset : ℕ)
    → vram < 2 ^ 32
    → section.ram_addr < 2 ^ 32
    → offset ≡ u32 (vram + (2 ^ 32 - section.ram_addr))
    → is_alias section ram offset vram ≡ true
link_alias section ram vram offset hv hr e =
    second (u32 (ram + offset) == vram) (u32 (section.ram_addr + offset) == vram) _
      ((==_iff (u32 (section.ram_addr + offset)) vram).1 (omega (arith, e)))
  where
    second : (a b c : Bool) → b ≡ true → (a || (b || c)) ≡ true
    second true b c h = refl
    second false true c h = refl
    second false false c h = absurd (ground (arith, h))

module _ (sections : ℕ → SectionTableEntry) (num_code_sections : ℕ) (by_rom : ℕ → Option ℕ)
    (symbols : ℕ → Option ℕ) (section_absolute i : ℕ) where
  entry_found :
      (offset g : ℕ) (o : Option FuncEntry)
      → i ≢ section_absolute
      → g ≢ 0
      → func_of_entry sections num_code_sections by_rom symbols section_absolute i offset o ≡ g
      → (f : FuncEntry) × (o ≡ some f) × (f.func ≡ g)
  unfolding func_of_entry
  entry_found offset g none apart some_func h = absurd (some_func (sym h ∙ nothing))
    where
      nothing :
          (if (i == section_absolute) && is_manual_patch_symbol offset
            then or_null (symbols offset)
            else 0)
          ≡ 0
      nothing = rw (==_apart i section_absolute apart) refl
  entry_found offset g (some f) apart some_func h = (f, refl, h)

  in_table :
      (offset : ℕ) (f : FuncEntry)
      → get_func_entry_by_section_index_function_offset sections num_code_sections by_rom symbols
          section_absolute i offset
        ≡ some f
      → find_func offset (sections i).funcs ≡ some f
  unfolding get_func_entry_by_section_index_function_offset
  in_table offset f =
      let P : Option FuncEntry → Type 0 =
        λ z. z ≡ some f → find_func offset (sections i).funcs ≡ some f in
      if_cases P (leb num_code_sections i) (λ _ e. absurd (ground (arith, e)))
        (λ _.
          if_cases P (leb (sections i).size offset) (λ _ e. absurd (ground (arith, e))) (λ _ e. e))

  -- A function that is found by the ROM address of its section and its link-time address is the one
  -- that a call at that address finds once the section is loaded, when the places of the section do
  -- not run into each other, its functions are at different offsets inside of it, and it is not the
  -- section of absolute symbols.
  pub get_func_by_section_rom_function_vram-load_overlay :
      (rom vram g ram : ℕ) (s : Loader)
      → IsPlaced (sections i) ram
      → AreLaidOut (sections i).size (sections i).funcs
      → i ≢ section_absolute
      → by_rom rom ≡ some i
      → vram < 2 ^ 32
      → (sections i).ram_addr < 2 ^ 32
      → g ≢ 0
      → get_func_by_section_rom_function_vram sections num_code_sections by_rom symbols
          section_absolute rom vram
        ≡ g
      → (load_overlay sections i ram s).func_map vram ≡ some g
  unfolding get_func_by_section_rom_function_vram func_of_section
      get_func_by_section_index_function_offset
  get_func_by_section_rom_function_vram-load_overlay rom vram g ram s placed laid apart here hv hr
        some_func h =
      let offset = u32 (vram + (2 ^ 32 - (sections i).ram_addr)) in
      let named =
        sym (
          ap (func_of_section sections num_code_sections by_rom symbols section_absolute vram) here)
        ∙ h in
      let (f, e, same) = entry_found offset g _ apart some_func named in
      let (leads, at) =
        found_func (LeadsTo (sections i) ram (load_overlay sections i ram s).func_map) offset
          (sections i).funcs f (load_overlay-LeadsTo sections i ram s placed laid)
          (in_table offset f e) in
      leads (λ z. some_func (sym same ∙ z)) vram
        (link_alias (sections i) ram vram f.offset hv hr at)
      ∙ ap some same
