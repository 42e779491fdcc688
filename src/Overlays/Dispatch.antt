-- ===== src/Overlays/Dispatch.antt =====
-- What calls find in `func_map` when a section is loaded, and when it is unloaded.
use n64modern_runtime.Base.{
  ℕ, ◌+◌, ◌^◌, ◌<◌, ◌≡◌, refl, ap, ◌∙◌, ◌≢◌, inl, inr, Bool, true, false, ◌&&◌, Option, none, some,
  List, [], ◌∷◌, arith, ltb, leb, ◌==◌, if◌then◌else◌, Bool-cases, if_cases, All, All-map,
}
use n64modern_runtime.Base.Bits.{u32}
use native.Mathlib.Nat.{mod-eq_of_lt}
use n64modern_runtime.Overlays.{FuncEntry, SectionTableEntry}
use n64modern_runtime.Overlays.Aliases.{
  FuncMap, frag_range_erase, is_alias, install_section_func_aliases-lookup,
  install_section_func_aliases-frame, erase_section_func_aliases-lookup,
  erase_section_func_aliases-frame, erase_section_func_aliases-keeps_none,
}
use n64modern_runtime.Overlays.Places.{IsPlaced, AreLaidOut, alias_offset}
use n64modern_runtime.Overlays.Loader.{
  Loader, install_all, erase_all, record_load_order, forget_functions, load_overlay,
}

-- Every alias of the functions that are not null leads to them.
abbrev pub LeadsTo : SectionTableEntry → (ram : ℕ) → FuncMap → FuncEntry → Type 0
LeadsTo section ram m f =
    f.func ≢ 0 → (a : ℕ) → is_alias section ram f.offset a ≡ true → m a ≡ some f.func

abbrev pub LeadsNowhere : SectionTableEntry → (ram : ℕ) → FuncMap → FuncEntry → Type 0
LeadsNowhere section ram m f =
    f.func ≢ 0 → (a : ℕ) → is_alias section ram f.offset a ≡ true → m a ≡ none

-- An address that no function of the section has.
abbrev pub IsElsewhere : SectionTableEntry → (ram a : ℕ) → Type 0
IsElsewhere section ram a = All (λ f. is_alias section ram f.offset a ≡ false) section.funcs

module _ (section : SectionTableEntry) (ram : ℕ) where
  pub install_all-frame :
      (l : List FuncEntry) (m : FuncMap) (a : ℕ)
      → All (λ f. is_alias section ram f.offset a ≡ false) l
      → install_all section ram l m a ≡ m a
  install_all-frame [] m a h = refl
  install_all-frame (f ∷ l) m a (h, hs) =
      install_all-frame l _ a hs ∙ install_section_func_aliases-frame section ram f m a h

  erase_all-frame :
      (l : List FuncEntry) (m : FuncMap) (a : ℕ)
      → All (λ f. is_alias section ram f.offset a ≡ false) l
      → erase_all section ram l m a ≡ m a
  erase_all-frame [] m a h = refl
  erase_all-frame (f ∷ l) m a (h, hs) =
      erase_all-frame l _ a hs ∙ erase_section_func_aliases-frame section ram f m a h

  erase_all-keeps_none :
      (l : List FuncEntry) (m : FuncMap) (a : ℕ) → m a ≡ none → erase_all section ram l m a ≡ none
  erase_all-keeps_none [] m a h = h
  erase_all-keeps_none (f ∷ l) m a h =
      erase_all-keeps_none l _ a (erase_section_func_aliases-keeps_none section ram f m a h)

  erase_all-LeadsNowhere :
      (l : List FuncEntry) (m : FuncMap)
      → All (LeadsNowhere section ram (erase_all section ram l m)) l
  erase_all-LeadsNowhere [] m = tt
  erase_all-LeadsNowhere (f ∷ l) m = (
    λ nonnull a h.
        erase_all-keeps_none l _ a
          (rw (erase_section_func_aliases-lookup section ram f m a nonnull, h) refl),
    erase_all-LeadsNowhere l _,
  )

  -- The functions behind one do not take its aliases.
  others_elsewhere :
      (f : FuncEntry) (l : List FuncEntry) (a : ℕ)
      → IsPlaced section ram
      → f.offset < section.size
      → All (λ g. f.offset ≢ g.offset) l
      → AreLaidOut section.size l
      → is_alias section ram f.offset a ≡ true
      → All (λ g. is_alias section ram g.offset a ≡ false) l
  others_elsewhere f [] a placed small apart laid h = tt
  others_elsewhere f (g ∷ l) a placed small (ne, apart) (gs, _, laid) h = (
    elim (Bool-cases (is_alias section ram g.offset a)) [
      | inl e ↦ absurd (ne (alias_offset section ram f.offset g.offset a placed small gs h e))
      | inr e ↦ e
    ],
    others_elsewhere f l a placed small apart laid h,
  )

  install_all-LeadsTo :
      (l : List FuncEntry) (m : FuncMap)
      → IsPlaced section ram
      → AreLaidOut section.size l
      → All (LeadsTo section ram (install_all section ram l m)) l
  install_all-LeadsTo [] m placed laid = tt
  install_all-LeadsTo (f ∷ l) m placed (small, apart, laid) = (
    λ nonnull a h.
        install_all-frame l _ a (others_elsewhere f l a placed small apart laid h)
        ∙ rw (install_section_func_aliases-lookup section ram f m a nonnull, h) refl,
    install_all-LeadsTo l _ placed laid,
  )

-- When the places of a section do not run into each other and its functions are at different
-- offsets inside of it, a call at any address of any of its functions finds that function once the
-- section is loaded.
pub load_overlay-LeadsTo :
    (sections : ℕ → SectionTableEntry) (i ram : ℕ) (s : Loader)
    → IsPlaced (sections i) ram
    → AreLaidOut (sections i).size (sections i).funcs
    → All (LeadsTo (sections i) ram (load_overlay sections i ram s).func_map) (sections i).funcs
unfolding load_overlay record_load_order
load_overlay-LeadsTo sections i ram s =
    install_all-LeadsTo (sections i) ram (sections i).funcs s.func_map

frag_range_erase-keeps_none :
    (base size : ℕ) (m : FuncMap) (a : ℕ) → m a ≡ none → frag_range_erase base size m a ≡ none
unfolding frag_range_erase
frag_range_erase-keeps_none base size m a h =
    if_cases (λ (z : FuncMap). z a ≡ none) (size == 0) (λ _. h)
      (λ _.
        if_cases (λ (z : Option ℕ). z ≡ none) (leb base a && ltb a (u32 (base + size))) (λ _. refl)
          (λ _. h))

pub forget_functions-LeadsNowhere :
    (unreg : Bool) (section : SectionTableEntry) (ram : ℕ) (m : FuncMap)
    → All (LeadsNowhere section ram (forget_functions unreg section ram m)) section.funcs
unfolding forget_functions
forget_functions-LeadsNowhere false section ram m =
    erase_all-LeadsNowhere section ram section.funcs m
forget_functions-LeadsNowhere true section ram m =
    All-map section.funcs
      (λ f h nonnull a at_alias.
        frag_range_erase-keeps_none ram section.size _ a (h nonnull a at_alias))
      (erase_all-LeadsNowhere section ram section.funcs m)

-- The addresses of a section's memory.
abbrev pub is_inside : (ram size a : ℕ) → Bool
is_inside ram size a = leb ram a && ltb a (ram + size)

not_inside : (base size a : ℕ) → (size == 0) ≡ true → is_inside base size a ≡ false
not_inside base size a h = ground arith

frag_range_erase-lookup :
    (base size : ℕ) (m : FuncMap) (a : ℕ)
    → base + size < 2 ^ 32
    → frag_range_erase base size m a ≡ (if is_inside base size a then none else m a)
unfolding frag_range_erase
frag_range_erase-lookup base size m a fits =
    if_cases (λ (z : FuncMap). z a ≡ (if is_inside base size a then none else m a)) (size == 0)
      (λ e. rw (not_inside base size a e) refl)
      (λ _. ap (λ (e : ℕ). if leb base a && ltb a e then none else m a) (mod-eq_of_lt fits))

pub forget_functions-inside :
    (section : SectionTableEntry) (ram : ℕ) (m : FuncMap) (a : ℕ)
    → ram + section.size < 2 ^ 32
    → is_inside ram section.size a ≡ true
    → forget_functions true section ram m a ≡ none
unfolding forget_functions
forget_functions-inside section ram m a fits h =
    rw (frag_range_erase-lookup ram section.size (erase_all section ram section.funcs m) a fits, h)
      refl

pub forget_functions-frame :
    (unreg : Bool) (section : SectionTableEntry) (ram : ℕ) (m : FuncMap) (a : ℕ)
    → ram + section.size < 2 ^ 32
    → IsElsewhere section ram a
    → is_inside ram section.size a ≡ false
    → forget_functions unreg section ram m a ≡ m a
unfolding forget_functions
forget_functions-frame false section ram m a fits h outside =
    erase_all-frame section ram section.funcs m a h
forget_functions-frame true section ram m a fits h outside =
    rw
      (
        frag_range_erase-lookup ram section.size (erase_all section ram section.funcs m) a fits,
        outside,
      )
      (erase_all-frame section ram section.funcs m a h)
