-- ===== src/Overlays/Unload.antt =====
-- Unloading a section forgets it, and only it.
use n64modern_runtime.Base.{
  ℕ, ◌+◌, ◌^◌, ◌<◌, ◌≡◌, ap, ◌∙◌, Bool, true, false, Option, none, some, All,
}
use n64modern_runtime.Overlays.{SectionTableEntry, LoadedSection}
use n64modern_runtime.Overlays.Aliases.{FuncMap}
use n64modern_runtime.Overlays.Loader.{
  Loader, find_section, erase_found, record_load_order, forget_functions, load_overlay,
  unload_found, unload_overlay_by_section_index,
}
use n64modern_runtime.Overlays.Apart.{
  Lacks, find_section-append_self, unload_overlay_by_section_index-loaded, erase_found-append_self,
}
use n64modern_runtime.Overlays.Dispatch.{
  LeadsNowhere, IsElsewhere, install_all-frame, forget_functions-LeadsNowhere, is_inside,
  forget_functions-inside, forget_functions-frame,
}

module _ (sections : ℕ → SectionTableEntry) (unreg : Bool) (i : ℕ) (s : Loader) where
  unload_found_lem :
      (ls : LoadedSection)
      → find_section i s.loaded_sections ≡ some ls
      → (unload_overlay_by_section_index sections unreg i s).func_map
        ≡ forget_functions unreg (sections i) ls.loaded_ram_addr s.func_map
  unfolding unload_overlay_by_section_index unload_found
  unload_found_lem ls h =
      ap (λ (o : Option LoadedSection). (unload_found sections unreg i o s).func_map) h

  -- After a loaded section is unloaded, no address of any of its functions finds a function.
  pub unload_overlay_by_section_index-LeadsNowhere :
      (ls : LoadedSection)
      → find_section i s.loaded_sections ≡ some ls
      → All
          (LeadsNowhere
            (sections i)
            ls.loaded_ram_addr
            (unload_overlay_by_section_index sections unreg i s).func_map)
          (sections i).funcs
  unload_overlay_by_section_index-LeadsNowhere ls h =
      rw (unload_found_lem ls h)
        (forget_functions-LeadsNowhere unreg (sections i) ls.loaded_ram_addr s.func_map)

module _ (sections : ℕ → SectionTableEntry) (i ram : ℕ) (s : Loader) where
  found_loaded :
      Lacks i s.loaded_sections
      → find_section i (load_overlay sections i ram s).loaded_sections
        ≡ some (record { loaded_ram_addr = ram; section_table_index = i })
  unfolding load_overlay record_load_order
  found_loaded h = find_section-append_self s.loaded_sections _ h

  erased_loaded :
      Lacks i s.loaded_sections
      → erase_found i (load_overlay sections i ram s).loaded_sections ≡ s.loaded_sections
  unfolding load_overlay record_load_order
  erased_loaded h = erase_found-append_self s.loaded_sections _ h

  func_map_frame :
      (a : ℕ)
      → IsElsewhere (sections i) ram a
      → (load_overlay sections i ram s).func_map a ≡ s.func_map a
  unfolding load_overlay record_load_order
  func_map_frame a h = install_all-frame (sections i) ram (sections i).funcs s.func_map a h

  -- Loading a section that is not loaded and unloading it again gives back the loaded sections, and
  -- what is found at every address that no function of the section has and that is outside of the
  -- memory it was loaded to; in that memory, which ends below 2^32, nothing is found any more when
  -- the removal of the range is on.
  pub unload-load_overlay :
      (unreg : Bool)
      → Lacks i s.loaded_sections
      → ram + (sections i).size < 2 ^ 32
      → ((unload_overlay_by_section_index sections unreg i
            (load_overlay sections i ram s)).loaded_sections
          ≡ s.loaded_sections)
        × ((a : ℕ)
            → IsElsewhere (sections i) ram a
            → is_inside ram (sections i).size a ≡ false
            → (unload_overlay_by_section_index sections unreg i
                  (load_overlay sections i ram s)).func_map
                a
              ≡ s.func_map a)
        × ((a : ℕ)
            → unreg ≡ true
            → is_inside ram (sections i).size a ≡ true
            → (unload_overlay_by_section_index sections unreg i
                  (load_overlay sections i ram s)).func_map
                a
              ≡ none)
  unload-load_overlay unreg h fits =
      let t = load_overlay sections i ram s in
      (
        unload_overlay_by_section_index-loaded sections unreg i t ∙ erased_loaded h,
        (λ a other outside.
            ap (λ (m : FuncMap). m a) (unload_found_lem sections unreg i t _ (found_loaded h))
            ∙ forget_functions-frame unreg (sections i) ram t.func_map a fits other outside
            ∙ func_map_frame a other),
        λ a on inside.
            ap (λ (m : FuncMap). m a) (unload_found_lem sections unreg i t _ (found_loaded h))
            ∙ ap (λ (b : Bool). forget_functions b (sections i) ram t.func_map a) on
            ∙ forget_functions-inside (sections i) ram t.func_map a fits inside,
      )
