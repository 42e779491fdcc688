-- ===== src/Overlays/Residency.antt =====
-- Reads of the ROM keep the loaded sections apart, and leave the section they register where it is.
use n64modern_runtime.Base.{
  ℕ, ◌≡◌, refl, ap₂, ◌∙◌, Bool, not, Option, none, some, List, [], ◌∷◌, arith, ◌==◌, if_cases, All,
}
use n64modern_runtime.Overlays.{SectionTableEntry, LoadedSection}
use n64modern_runtime.Overlays.Loader.{
  Loader, find_section, load_overlay, unload_overlay_by_section_index,
}
use n64modern_runtime.Overlays.Dma.{evict_overlapping_sections, register_found, register_if_new}
use n64modern_runtime.Overlays.Apart.{
  AreClear, AreSeparate, runtime_ranges_overlap_comm, All-erase_found, erase_found-AreSeparate,
  append-AreSeparate, Lacks, find_section-Lacks, erase_found-Lacks, find_section-append_self,
  unload_overlay_by_section_index-loaded, find_section-index,
}
use n64modern_runtime.Overlays.Evict.{
  IsClearOf, evict_overlapping_sections-IsClearOf, evict_overlapping_sections_keep,
}

module _ (sections : ℕ → SectionTableEntry) (unreg : Bool) where
  abbrev pub IsSeparate : Loader → Type 0
  IsSeparate s = AreSeparate sections s.loaded_sections

  pub unload_overlay_by_section_index-IsSeparate :
      (i : ℕ) (s : Loader)
      → IsSeparate s
      → IsSeparate (unload_overlay_by_section_index sections unreg i s)
  unload_overlay_by_section_index-IsSeparate i s h =
      rw (unload_overlay_by_section_index-loaded sections unreg i s)
        (erase_found-AreSeparate sections i s.loaded_sections h)

  module _ (i base : ℕ) where
    clear_behind :
        (l : List LoadedSection)
        → Lacks i l
        → All (IsClearOf sections i base) l
        → All
            (λ b. AreClear sections b (record { loaded_ram_addr = base; section_table_index = i }))
            l
    clear_behind [] h c = tt
    clear_behind (ls ∷ l) (h, hs) (c, cs) =
        ((h, runtime_ranges_overlap_comm base _ ls.loaded_ram_addr _ (c h)), clear_behind l hs cs)

    pub load_overlay-IsSeparate :
        (s : Loader)
        → Lacks i s.loaded_sections
        → All (IsClearOf sections i base) s.loaded_sections
        → IsSeparate s
        → IsSeparate (load_overlay sections i base s)
    unfolding load_overlay
    load_overlay-IsSeparate s h c a =
        append-AreSeparate sections s.loaded_sections _ a (clear_behind s.loaded_sections h c)

    load_overlay-find :
        (s : Loader)
        → Lacks i s.loaded_sections
        → find_section i (load_overlay sections i base s).loaded_sections
          ≡ some (record { loaded_ram_addr = base; section_table_index = i })
    unfolding load_overlay
    load_overlay-find s h = find_section-append_self s.loaded_sections _ h

    pub unload_Lacks :
        (s : Loader)
        → IsSeparate s
        → Lacks i (unload_overlay_by_section_index sections unreg i s).loaded_sections
    unload_Lacks s a =
        rw (unload_overlay_by_section_index-loaded sections unreg i s)
          (erase_found-Lacks sections i s.loaded_sections a)

    pub register_found-IsSeparate :
        (s : Loader) (o : Option LoadedSection)
        → find_section i s.loaded_sections ≡ o
        → All (IsClearOf sections i base) s.loaded_sections
        → IsSeparate s
        → IsSeparate (register_found sections unreg i base o s)
    unfolding register_found
    register_found-IsSeparate s none e c a =
        load_overlay-IsSeparate s (find_section-Lacks i s.loaded_sections e) c a
    register_found-IsSeparate s (some ls) e c a =
        if_cases IsSeparate (not (ls.loaded_ram_addr == base))
          (λ _.
            load_overlay-IsSeparate (unload_overlay_by_section_index sections unreg i s)
              (unload_Lacks s a)
              (rw (unload_overlay_by_section_index-loaded sections unreg i s)
                (All-erase_found (IsClearOf sections i base) i s.loaded_sections c))
              (unload_overlay_by_section_index-IsSeparate i s a))
          (λ _. a)

    -- Registering a section keeps the loaded sections apart.
    pub register_if_new-IsSeparate :
        (s : Loader) → IsSeparate s → IsSeparate (register_if_new sections unreg i base s)
    unfolding register_if_new
    register_if_new-IsSeparate s a =
        register_found-IsSeparate (evict_overlapping_sections sections unreg i base s) _ refl
          (evict_overlapping_sections-IsClearOf sections unreg i base s)
          (evict_overlapping_sections_keep sections unreg i base IsSeparate
            unload_overlay_by_section_index-IsSeparate s a)

    register_found-find :
        (s : Loader) (o : Option LoadedSection)
        → find_section i s.loaded_sections ≡ o
        → IsSeparate s
        → find_section i (register_found sections unreg i base o s).loaded_sections
          ≡ some (record { loaded_ram_addr = base; section_table_index = i })
    unfolding register_found
    register_found-find s none e a = load_overlay-find s (find_section-Lacks i s.loaded_sections e)
    register_found-find s (some ls) e a =
        if_cases
          (λ (z : Loader).
            find_section i z.loaded_sections
            ≡ some (record { loaded_ram_addr = base; section_table_index = i }))
          (not (ls.loaded_ram_addr == base))
          (λ _.
            load_overlay-find (unload_overlay_by_section_index sections unreg i s)
              (unload_Lacks s a))
          (λ h.
            e
            ∙ ap₂ (λ (r k : ℕ). some (record { loaded_ram_addr = r; section_table_index = k }))
                (ground (arith, h)) (find_section-index i s.loaded_sections ls e))

    -- Where no two loaded sections overlap, a section that a read registers is loaded at the address
    -- that the read implies, whether it was loaded there, elsewhere or not at all.
    pub register_if_new-find :
        (s : Loader)
        → IsSeparate s
        → find_section i (register_if_new sections unreg i base s).loaded_sections
          ≡ some (record { loaded_ram_addr = base; section_table_index = i })
    unfolding register_if_new
    register_if_new-find s a =
        register_found-find (evict_overlapping_sections sections unreg i base s) _ refl (
          evict_overlapping_sections_keep sections unreg i base IsSeparate
            unload_overlay_by_section_index-IsSeparate s a)
