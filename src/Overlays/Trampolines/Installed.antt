-- ===== src/Overlays/Trampolines/Installed.antt =====
-- A trampoline leads to the function of its target, and no jump slot is lost.
use n64modern_runtime.Base.{
  ℕ, ◌+◌, ◌-◌, ◌^◌, ◌≡◌, refl, sym, ap, ◌∙◌, ◌⊎◌, inl, inr, not, ◌&&◌, Option, none, some, List, [],
  ◌∷◌, arith, ◌==◌, ==_iff, if_cases, update,
}
use mathlib.Core.Option.{some-injective}
use mathlib.Core.Path.{subst}
use n64modern_runtime.Base.Bits.{u32}
use n64modern_runtime.Overlays.Dma.{signed_gt}
use n64modern_runtime.Overlays.{
  SectionTableEntry, LoadedSection, section_original_fragment_base, translate_link_time_to_runtime,
}
use n64modern_runtime.Overlays.Aliases.{FuncMap, at_original}
use n64modern_runtime.Overlays.Trampolines.{
  install_link_aliases, install_found, try_install_trampoline,
}

-- Nothing but the function changes in the map.
abbrev pub AddsOnly : ℕ → FuncMap → FuncMap → Type 0
AddsOnly f m m' = (a : ℕ) → (m' a ≡ m a) ⊎ (m' a ≡ some f)

update-AddsOnly : (f b : ℕ) (m n : FuncMap) → AddsOnly f m n → AddsOnly f m (update n b (some f))
update-AddsOnly f b m n h a =
    if_cases (λ (z : Option ℕ). (z ≡ m a) ⊎ (z ≡ some f)) (b == a) (λ _. inr refl) (λ _. h a)

AddsOnly-trans : (f : ℕ) (m n r : FuncMap) → AddsOnly f m n → AddsOnly f n r → AddsOnly f m r
AddsOnly-trans f m n r h k a = elim (k a) [
  | inl q ↦ elim (h a) [ inl p ↦ inl (q ∙ p) | inr p ↦ inr (q ∙ p) ]
  | inr q ↦ inr q
]

at_original-AddsOnly :
    (f off : ℕ) (m n : FuncMap) (o : Option ℕ)
    → AddsOnly f m n
    → AddsOnly f m (at_original o off (some f) n)
at_original-AddsOnly f off m n none h = h
at_original-AddsOnly f off m n (some base) h = update-AddsOnly f _ m n h

module _ (sections : ℕ → SectionTableEntry) (loaded : List LoadedSection) where
  install_link_aliases-AddsOnly :
      (addr f : ℕ) (l : List LoadedSection) (m : FuncMap)
      → AddsOnly f m (install_link_aliases sections loaded addr (some f) l m)
  unfolding install_link_aliases
  install_link_aliases-AddsOnly addr f [] m = λ a. inl refl
  install_link_aliases-AddsOnly addr f (ls ∷ l) m =
      let sec = sections ls.section_table_index in
      let off = u32 (addr + (2 ^ 32 - ls.loaded_ram_addr)) in
      let link_time_vram = u32 (sec.ram_addr + off) in
      if_cases (AddsOnly f m)
        (not (signed_gt ls.loaded_ram_addr addr)
          && signed_gt (u32 (ls.loaded_ram_addr + sec.size)) addr)
        (λ _.
          if_cases (AddsOnly f m) (not (link_time_vram == addr))
            (λ _.
              at_original-AddsOnly f off m _ (section_original_fragment_base sec)
                (update-AddsOnly f link_time_vram m m (λ a. inl refl)))
            (λ _ a. inl refl))
        (λ _. install_link_aliases-AddsOnly addr f l m)

  -- Both ways to keep the function of an address end with the function.
  adds_self : (f a : ℕ) (m m' : FuncMap) → AddsOnly f m m' → m a ≡ some f → m' a ≡ some f
  adds_self f a m m' h e = elim (h a) [ inl q ↦ q ∙ e | inr q ↦ q ]

  -- What an attempt means when it succeeds: the target has a function, the trampoline leads to it,
  -- and whatever else changes leads to it too.
  abbrev pub IsInstalled : (addr target : ℕ) → FuncMap → FuncMap → Type 0
  IsInstalled addr target m m' =
      (f : ℕ) × (m (translate_link_time_to_runtime sections loaded target) ≡ some f)
      × (m' addr ≡ some f)
      × AddsOnly f m m'

  install_found-IsInstalled :
      (addr target : ℕ) (m m' : FuncMap) (o : Option ℕ)
      → m (translate_link_time_to_runtime sections loaded target) ≡ o
      → install_found sections loaded addr o m ≡ some m'
      → IsInstalled addr target m m'
  unfolding install_found
  install_found-IsInstalled addr target m m' none e h = absurd (ground (arith, h))
  install_found-IsInstalled addr target m m' (some f) e h =
      let n = update m addr (some f) in
      let result = install_link_aliases sections loaded addr (some f) loaded n in
      let same : result ≡ m' = some-injective result m' h in
      (
        f,
        e,
        ap (λ (z : FuncMap). z addr) (sym same)
            ∙ adds_self f addr n result (install_link_aliases-AddsOnly addr f loaded n)
                (rw ((==_iff addr addr).1 refl) refl),
        subst (AddsOnly f m) same (
            AddsOnly-trans f m n result (update-AddsOnly f addr m m (λ a. inl refl))
              (install_link_aliases-AddsOnly addr f loaded n)),
      )

  -- An attempt that succeeds leads the trampoline to the function that the target had, and every
  -- other address keeps what it had or leads to that function too.
  pub try_install_trampoline-IsInstalled :
      (addr target : ℕ) (m m' : FuncMap)
      → try_install_trampoline sections loaded addr target m ≡ some m'
      → IsInstalled addr target m m'
  unfolding try_install_trampoline
  try_install_trampoline-IsInstalled addr target m m' =
      let r = translate_link_time_to_runtime sections loaded target in
      if_cases (λ (z : Option FuncMap). z ≡ some m' → IsInstalled addr target m m') (r == 0)
        (λ _ h. absurd (ground (arith, h)))
        (λ _. install_found-IsInstalled addr target m m' (m r) refl)
