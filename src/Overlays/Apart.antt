-- ===== src/Overlays/Apart.antt =====
-- The loaded sections have different indices, and the memory of no two of them overlaps.
use n64modern_runtime.Base.{
  ℕ, ◌≡◌, refl, sym, ap, ◌∙◌, ◌≢◌, inl, inr, Bool, false, Option, none, some, List, [], ◌∷◌, ◌++◌,
  arith, ◌==◌, if◌then◌else◌, ==_iff, ==_false, ==_apart, Bool-cases, if_cases, All, All-map,
  All-append,
}
use n64modern_runtime.Overlays.{SectionTableEntry, LoadedSection}
use n64modern_runtime.Overlays.Loader.{
  Loader, find_section, erase_found, unload_found, unload_overlay_by_section_index,
}
use n64modern_runtime.Overlays.Dma.{runtime_ranges_overlap}

module _ (sections : ℕ → SectionTableEntry) where
  abbrev pub AreClear : LoadedSection → LoadedSection → Type 0
  AreClear a b =
      (a.section_table_index ≢ b.section_table_index)
      × (runtime_ranges_overlap a.loaded_ram_addr (sections a.section_table_index).size
            b.loaded_ram_addr (sections b.section_table_index).size
          ≡ false)

  abbrev pub AreSeparate : List LoadedSection → Type 0
  AreSeparate [] = Unit
  AreSeparate (a ∷ l) = All (AreClear a) l × AreSeparate l

pub runtime_ranges_overlap_comm :
    (a s b t : ℕ) → runtime_ranges_overlap a s b t ≡ false → runtime_ranges_overlap b t a s ≡ false
unfolding runtime_ranges_overlap
runtime_ranges_overlap_comm a s b t h = ground arith

pub All-erase_found {κ} :
    (P : LoadedSection → Type κ) (i : ℕ) (l : List LoadedSection)
    → All P l
    → All P (erase_found i l)
unfolding erase_found
All-erase_found P i [] h = tt
All-erase_found P i (ls ∷ l) (h, hs) =
    if_cases (All P) (ls.section_table_index == i) (λ _. hs) (λ _. (h, All-erase_found P i l hs))

pub erase_found-AreSeparate :
    (sections : ℕ → SectionTableEntry) (i : ℕ) (l : List LoadedSection)
    → AreSeparate sections l
    → AreSeparate sections (erase_found i l)
unfolding erase_found
erase_found-AreSeparate sections i [] h = tt
erase_found-AreSeparate sections i (ls ∷ l) (h, hs) =
    if_cases (AreSeparate sections) (ls.section_table_index == i) (λ _. hs)
      (λ _. (All-erase_found (AreClear sections ls) i l h, erase_found-AreSeparate sections i l hs))

pub append-AreSeparate :
    (sections : ℕ → SectionTableEntry) (l : List LoadedSection) (x : LoadedSection)
    → AreSeparate sections l
    → All (λ b. AreClear sections b x) l
    → AreSeparate sections (l ++ x ∷ [])
append-AreSeparate sections [] x h c = (tt, tt)
append-AreSeparate sections (ls ∷ l) x (h, hs) (c, cs) =
    (All-append (AreClear sections ls) l (x ∷ []) h (c, tt), append-AreSeparate sections l x hs cs)

-- No entry has the index.
abbrev pub Lacks : ℕ → List LoadedSection → Type 0
Lacks i = All (λ ls. ls.section_table_index ≢ i)

pub find_section-Lacks : (i : ℕ) (l : List LoadedSection) → find_section i l ≡ none → Lacks i l
unfolding find_section
find_section-Lacks i [] h = tt
find_section-Lacks i (ls ∷ l) h = elim (Bool-cases (ls.section_table_index == i)) [
  | inl e ↦ absurd (ground (arith, h, e))
  | inr e ↦ (==_false ls.section_table_index i e, find_section-Lacks i l (ground (arith, h, e)))
]

pub Lacks-find_section : (i : ℕ) (l : List LoadedSection) → Lacks i l → find_section i l ≡ none
unfolding find_section
Lacks-find_section i [] h = refl
Lacks-find_section i (ls ∷ l) (h, hs) =
    rw (==_apart ls.section_table_index i h) (Lacks-find_section i l hs)

-- Without its only entry the index is lacking.
pub erase_found-Lacks :
    (sections : ℕ → SectionTableEntry) (i : ℕ) (l : List LoadedSection)
    → AreSeparate sections l
    → Lacks i (erase_found i l)
unfolding erase_found
erase_found-Lacks sections i [] h = tt
erase_found-Lacks sections i (ls ∷ l) (h, hs) =
    if_cases (Lacks i) (ls.section_table_index == i)
      (λ e. All-map l (λ b c q. c.0 ((==_iff ls.section_table_index i).0 e ∙ sym q)) h)
      (λ e. (==_false ls.section_table_index i e, erase_found-Lacks sections i l hs))

-- What is left of other indices by an erasure.
pub find_section-erase_found :
    (i j : ℕ) (l : List LoadedSection) → j ≢ i → find_section j (erase_found i l) ≡ find_section j l
unfolding find_section erase_found
find_section-erase_found i j [] h = refl
find_section-erase_found i j (ls ∷ l) h = elim (Bool-cases (ls.section_table_index == i)) [
  | inl e ↦
      rw
        (
          e,
          ==_apart ls.section_table_index j
              (λ q. h (sym q ∙ (==_iff ls.section_table_index i).0 e)),
        )
        refl
  | inr e ↦ rw e (
      ap (λ (z : Option LoadedSection). if ls.section_table_index == j then some ls else z)
        (find_section-erase_found i j l h))
]

pub find_section-append_ne :
    (i : ℕ) (l : List LoadedSection) (x : LoadedSection)
    → x.section_table_index ≢ i
    → find_section i (l ++ x ∷ []) ≡ find_section i l
unfolding find_section
find_section-append_ne i [] x h = rw (==_apart x.section_table_index i h) refl
find_section-append_ne i (ls ∷ l) x h =
    ap (λ (z : Option LoadedSection). if ls.section_table_index == i then some ls else z)
      (find_section-append_ne i l x h)

pub find_section-append_self :
    (l : List LoadedSection) (x : LoadedSection)
    → Lacks x.section_table_index l
    → find_section x.section_table_index (l ++ x ∷ []) ≡ some x
unfolding find_section
find_section-append_self [] x h =
    rw ((==_iff x.section_table_index x.section_table_index).1 refl) refl
find_section-append_self (ls ∷ l) x (h, hs) =
    rw (==_apart ls.section_table_index x.section_table_index h) (find_section-append_self l x hs)

pub erase_found-missing :
    (i : ℕ) (l : List LoadedSection) → find_section i l ≡ none → erase_found i l ≡ l
unfolding find_section erase_found
erase_found-missing i [] h = refl
erase_found-missing i (ls ∷ l) h = elim (Bool-cases (ls.section_table_index == i)) [
  | inl e ↦ absurd (ground (arith, h, e))
  | inr e ↦ rw e (ap (λ z. ls ∷ z) (erase_found-missing i l (ground (arith, h, e))))
]

-- What unloading leaves loaded.
unload_found-loaded :
    (sections : ℕ → SectionTableEntry) (unreg : Bool) (i : ℕ) (s : Loader)
    (o : Option LoadedSection)
    → find_section i s.loaded_sections ≡ o
    → (unload_found sections unreg i o s).loaded_sections ≡ erase_found i s.loaded_sections
unfolding unload_found
unload_found-loaded sections unreg i s none h = sym (erase_found-missing i s.loaded_sections h)
unload_found-loaded sections unreg i s (some ls) h = refl

pub unload_overlay_by_section_index-loaded :
    (sections : ℕ → SectionTableEntry) (unreg : Bool) (i : ℕ) (s : Loader)
    → (unload_overlay_by_section_index sections unreg i s).loaded_sections
      ≡ erase_found i s.loaded_sections
unfolding unload_overlay_by_section_index
unload_overlay_by_section_index-loaded sections unreg i s =
    unload_found-loaded sections unreg i s _ refl

pub find_section-index :
    (i : ℕ) (l : List LoadedSection) (ls : LoadedSection)
    → find_section i l ≡ some ls
    → ls.section_table_index ≡ i
unfolding find_section
find_section-index i [] ls h = absurd (ground (arith, h))
find_section-index i (x ∷ l) ls h = elim (Bool-cases (x.section_table_index == i)) [
  | inl e ↦ ground (arith, h, e, ==_iff x.section_table_index i)
  | inr e ↦ find_section-index i l ls (ground (arith, h, e))
]

pub erase_found-append_self :
    (l : List LoadedSection) (x : LoadedSection)
    → Lacks x.section_table_index l
    → erase_found x.section_table_index (l ++ x ∷ []) ≡ l
unfolding erase_found
erase_found-append_self [] x h =
    rw ((==_iff x.section_table_index x.section_table_index).1 refl) refl
erase_found-append_self (ls ∷ l) x (h, hs) =
    rw (==_apart ls.section_table_index x.section_table_index h)
      (ap (λ z. ls ∷ z) (erase_found-append_self l x hs))
