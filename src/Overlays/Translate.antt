-- ===== src/Overlays/Translate.antt =====
-- A translated address lies in a loaded section.
use n64modern_runtime.Base.{
  ℕ, ◌+◌, ◌-◌, ◌^◌, ◌≤◌, ◌<◌, ◌≡◌, refl, ◌⊎◌, inl, inr, true, Option, none, some, List, [], ◌∷◌,
  arith, if_cases, All,
}
use n64modern_runtime.Base.Bits.{u32}
use n64modern_runtime.Overlays.{
  SectionTableEntry, LoadedSection, section_original_fragment_base, in_range, in_original,
  base_or_zero, translate_link_time_to_runtime,
}

abbrev pub IsInside : (ℕ → SectionTableEntry) → ℕ → LoadedSection → Type 0
IsInside sections r ls =
    (ls.loaded_ram_addr ≤ r) × (r < ls.loaded_ram_addr + (sections ls.section_table_index).size)

-- One of the sections holds the address.
abbrev pub IsCovered : (ℕ → SectionTableEntry) → ℕ → List LoadedSection → Type 0
IsCovered sections r [] = ⊥
IsCovered sections r (ls ∷ rest) = IsInside sections r ls ⊎ IsCovered sections r rest

-- No section wraps around the address space.
abbrev pub FitsAddresses : (ℕ → SectionTableEntry) → LoadedSection → Type 0
FitsAddresses sections ls = ls.loaded_ram_addr + (sections ls.section_table_index).size < 2 ^ 32

range_offset : (x base size : ℕ) → in_range x base size ≡ true → (base ≤ x) × (x - base < size)
range_offset x base size h = ground arith

original_offset :
    (x : ℕ) (sec : SectionTableEntry) (o : Option ℕ)
    → in_original x sec o ≡ true
    → x - base_or_zero o < sec.size
original_offset x sec none h = absurd (ground arith)
original_offset x sec (some base) h = (range_offset x base sec.size h).1

moved :
    (loaded size k : ℕ)
    → loaded + size < 2 ^ 32
    → k < size
    → (loaded ≤ u32 (loaded + k)) × (u32 (loaded + k) < loaded + size)
moved loaded size k fits h = (omega arith, omega arith)

-- When no loaded section wraps around the 32-bit address space, the translation of a link-time
-- address is 0 or an address inside of one of the loaded sections, as it is loaded.
pub translate_link_time_to_runtime-IsCovered :
    (sections : ℕ → SectionTableEntry) (l : List LoadedSection) (x : ℕ)
    → All (FitsAddresses sections) l
    → (translate_link_time_to_runtime sections l x ≡ 0)
      ⊎ IsCovered sections (translate_link_time_to_runtime sections l x) l
unfolding translate_link_time_to_runtime
translate_link_time_to_runtime-IsCovered sections [] x h = inl refl
translate_link_time_to_runtime-IsCovered sections (ls ∷ rest) x (fits, h) =
    let sec = sections ls.section_table_index in
    let Q : ℕ → Type 0 = λ r. (r ≡ 0) ⊎ (IsInside sections r ls ⊎ IsCovered sections r rest) in
    if_cases Q (in_range x ls.loaded_ram_addr sec.size)
      (λ e.
        let (low, high) = range_offset x ls.loaded_ram_addr sec.size e in
        inr (inl (low, omega (arith, low, high))))
      λ _.
        if_cases Q (in_range x sec.ram_addr sec.size)
          (λ e. inr (
            inl (
              moved ls.loaded_ram_addr sec.size (x - sec.ram_addr) fits
                (range_offset x sec.ram_addr sec.size e).1)))
          λ _.
            if_cases Q (in_original x sec (section_original_fragment_base sec))
              (λ e.
                inr (inl (moved ls.loaded_ram_addr sec.size _ fits (original_offset x sec _ e))))
              λ _. elim (translate_link_time_to_runtime-IsCovered sections rest x h) [
                | inl z ↦ inl z
                | inr c ↦ inr (inr c)
              ]
