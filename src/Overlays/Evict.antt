-- ===== src/Overlays/Evict.antt =====
-- The rounds that unload what a section overlaps come to an end, and what they leave.
use n64modern_runtime.Base.{
  ℕ, zero, suc, ◌+◌, ◌<◌, ◌≡◌, ◌≢◌, inl, inr, Bool, false, Option, none, some, List, [], ◌∷◌, arith,
  ◌==◌, ==_iff, Bool-cases, Option-cases, length, All,
}
use n64modern_runtime.Overlays.Apart.{unload_overlay_by_section_index-loaded}
use n64modern_runtime.Overlays.{SectionTableEntry, LoadedSection}
use n64modern_runtime.Overlays.Loader.{Loader, erase_found, unload_overlay_by_section_index}
use n64modern_runtime.Overlays.Dma.{
  runtime_ranges_overlap, overlapping, evict_or_stop, evict_rounds, evict_overlapping_sections,
}

-- Does the section, at its address, meet what is loaded?
abbrev pub IsClearOf : (ℕ → SectionTableEntry) → (i base : ℕ) → LoadedSection → Type 0
IsClearOf sections i base ls =
    ls.section_table_index ≢ i
    → runtime_ranges_overlap base (sections i).size ls.loaded_ram_addr
        (sections ls.section_table_index).size
      ≡ false

module _ (sections : ℕ → SectionTableEntry) (i base : ℕ) where
  overlapping-IsClearOf :
      (l : List LoadedSection)
      → overlapping sections i base l ≡ none
      → All (IsClearOf sections i base) l
  unfolding overlapping
  overlapping-IsClearOf [] h = tt
  overlapping-IsClearOf (ls ∷ l) h =
      let old = sections ls.section_table_index in
      elim (Bool-cases (ls.section_table_index == i)) [
        | inl e ↦ (
          λ n. absurd (n ((==_iff ls.section_table_index i).0 e)),
          overlapping-IsClearOf l (ground (arith, h, e)),
        )
        | inr e ↦
            elim (Bool-cases
              (runtime_ranges_overlap base (sections i).size ls.loaded_ram_addr old.size)) [
                | inl o ↦ absurd (ground (arith, h, e, o))
                | inr o ↦ (λ _. o, overlapping-IsClearOf l (ground (arith, h, e, o)))
              ]
      ]

  -- The index that is found is loaded, so that one entry fewer is left.
  length-erase_overlapping :
      (l : List LoadedSection) (k : ℕ)
      → overlapping sections i base l ≡ some k
      → length (erase_found k l) + 1 ≡ length l
  unfolding overlapping erase_found
  length-erase_overlapping [] k h = absurd (ground (arith, h))
  length-erase_overlapping (ls ∷ l) k h = elim (Bool-cases (ls.section_table_index == k)) [
    | inl e ↦ rw e (omega arith)
    | inr e ↦ rw e (omega (arith, length-erase_overlapping l k (ground (arith, h, e))))
  ]

stop_or_again :
    (P : Loader → Type 0) (o : Option ℕ) (again : ℕ → Loader) (s : Loader)
    → P s
    → ((k : ℕ) → P (again k))
    → P (evict_or_stop o again s)
stop_or_again P none again s h step = h
stop_or_again P (some k) again s h step = step k

module _ (sections : ℕ → SectionTableEntry) (unreg : Bool) (i base : ℕ) where
  -- An invariant of unloading is one of the rounds.
  pub evict_rounds_keep :
      (P : Loader → Type 0)
      → ((k : ℕ) (s : Loader) → P s → P (unload_overlay_by_section_index sections unreg k s))
      → (n : ℕ) (s : Loader) → P s
      → P (evict_rounds sections unreg n i base s)
  unfolding evict_rounds
  evict_rounds_keep P step zero s h = h
  evict_rounds_keep P step (suc n) s h =
      stop_or_again P (overlapping sections i base s.loaded_sections) _ s h
        (λ k. evict_rounds_keep P step n _ (step k s h))

  evict_rounds_done :
      (n : ℕ) (s : Loader)
      → length s.loaded_sections < n
      → overlapping sections i base (evict_rounds sections unreg n i base s).loaded_sections ≡ none
  unfolding evict_rounds
  evict_rounds_done zero s h = absurd (omega (arith, h))
  evict_rounds_done (suc n) s h =
      elim (Option-cases (overlapping sections i base s.loaded_sections)) [
        | inl e ↦ rw e e
        | inr (k, e) ↦ rw e (
            evict_rounds_done n (unload_overlay_by_section_index sections unreg k s) (
              rw (unload_overlay_by_section_index-loaded sections unreg k s)
                (omega (arith, length-erase_overlapping sections i base s.loaded_sections k e))))
      ]

  -- After the rounds nothing that is loaded overlaps the section at its new address, but the section
  -- itself.
  pub evict_overlapping_sections-IsClearOf :
      (s : Loader)
      → All
          (IsClearOf sections i base)
          (evict_overlapping_sections sections unreg i base s).loaded_sections
  unfolding evict_overlapping_sections
  evict_overlapping_sections-IsClearOf s =
      overlapping-IsClearOf sections i base _
        (evict_rounds_done (suc (length s.loaded_sections)) s (omega arith))

  pub evict_overlapping_sections_keep :
      (P : Loader → Type 0)
      → ((k : ℕ) (s : Loader) → P s → P (unload_overlay_by_section_index sections unreg k s))
      → (s : Loader) → P s
      → P (evict_overlapping_sections sections unreg i base s)
  unfolding evict_overlapping_sections
  evict_overlapping_sections_keep P step s =
      evict_rounds_keep P step (suc (length s.loaded_sections)) s
