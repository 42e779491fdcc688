-- ===== src/Overlays/Addresses.antt =====
-- The table of section addresses, which relocated code reads, follows what is loaded.
use n64modern_runtime.Base.{
  ℕ, ◌+◌, ◌-◌, ◌^◌, ◌≡◌, refl, sym, ap, ◌∙◌, ◌≢◌, inl, inr, Bool, not, Option, none, some, arith,
  ◌==◌, ==_iff, ==_false, ==_apart, Bool-cases, if_cases,
}
use mathlib.Core.Path.{subst}
use n64modern_runtime.Base.Bits.{u32, low_bits}
use n64modern_runtime.Overlays.Evict.{
  evict_overlapping_sections-IsClearOf, evict_overlapping_sections_keep,
}
use n64modern_runtime.Overlays.Reads.{load_overlays_keep}
use n64modern_runtime.Overlays.Dma.{
  evict_overlapping_sections, register_found, register_if_new, load_overlays,
}
use n64modern_runtime.Overlays.{SectionTableEntry, LoadedSection}
use n64modern_runtime.Overlays.Loader.{
  Loader, secaddr_set, find_section, record_load_order, load_overlay, unload_found,
  unload_overlay_by_section_index,
}
use n64modern_runtime.Overlays.Apart.{
  Lacks, find_section-Lacks, Lacks-find_section, erase_found-Lacks, find_section-erase_found,
  find_section-append_ne, find_section-append_self,
}
use n64modern_runtime.Overlays.Residency.{
  IsSeparate, unload_overlay_by_section_index-IsSeparate, unload_Lacks, register_found-IsSeparate,
}

abbrev pub IsAligned : ℕ → Type 0
IsAligned a = low_bits a 2 ≡ 0

-- Where a section is: at the address of its entry, or where the linker put it.
abbrev pub address_of : SectionTableEntry → Option LoadedSection → ℕ
address_of section none = section.ram_addr
address_of section (some ls) = ls.loaded_ram_addr

abbrev pub TracksLoaded : (ℕ → SectionTableEntry) → Loader → Type 0
TracksLoaded sections s =
    (j : ℕ)
    → s.section_addresses (sections j).index
      ≡ address_of (sections j) (find_section j s.loaded_sections)

-- What the generated table gives: an entry of the address table for each section, and aligned
-- link-time addresses.
abbrev pub HasOwnEntries : (ℕ → SectionTableEntry) → Type 0
HasOwnEntries sections = (i j : ℕ) → (sections i).index ≡ (sections j).index → i ≡ j

abbrev pub HasAlignedLinks : (ℕ → SectionTableEntry) → Type 0
HasAlignedLinks sections = (i : ℕ) → IsAligned (sections i).ram_addr

base_of-IsAligned :
    (start rom ram_addr : ℕ)
    → IsAligned start
    → IsAligned rom
    → IsAligned ram_addr
    → IsAligned (u32 (start + (2 ^ 32 - rom) + ram_addr))
base_of-IsAligned start rom ram_addr h k l = omega arith

chunk_base-IsAligned :
    (start rom ram_addr : ℕ)
    → IsAligned start
    → IsAligned rom
    → IsAligned ram_addr
    → IsAligned (u32 (ram_addr + (2 ^ 32 - (rom - start))))
chunk_base-IsAligned start rom ram_addr h k l = omega arith

secaddr_set_self :
    (index value : ℕ) (addresses : ℕ → ℕ)
    → IsAligned value
    → secaddr_set index value addresses index ≡ value
unfolding secaddr_set
secaddr_set_self index value addresses h =
    rw ((==_iff (low_bits value 2) 0).1 h, (==_iff index index).1 refl) refl

secaddr_set_ne :
    (index value : ℕ) (addresses : ℕ → ℕ) (other : ℕ)
    → index ≢ other
    → secaddr_set index value addresses other ≡ addresses other
unfolding secaddr_set
secaddr_set_ne index value addresses other h =
    if_cases (λ (z : ℕ → ℕ). z other ≡ addresses other) (not (low_bits value 2 == 0)) (λ _. refl)
      (λ _. rw (==_apart index other h) refl)

module _ (sections : ℕ → SectionTableEntry) (own : HasOwnEntries sections)
    (links : HasAlignedLinks sections) (unreg : Bool) where
  abbrev pub IsConsistent : Loader → Type 0
  IsConsistent s = IsSeparate sections unreg s × TracksLoaded sections s

  module _ (i base : ℕ) where
    -- An address written for one section, and nothing changed for another.
    module _ (s t : Loader) (value : ℕ)
        (written : t.section_addresses
          ≡ secaddr_set (sections i).index value s.section_addresses) where
      others_tracked :
          (j : ℕ)
          → i ≢ j
          → t.section_addresses (sections j).index ≡ s.section_addresses (sections j).index
      others_tracked j h =
          ap (λ (z : ℕ → ℕ). z (sections j).index) written
          ∙ secaddr_set_ne (sections i).index value s.section_addresses (sections j).index
              (λ e. h (own i j e))

      written-TracksLoaded :
          IsAligned value
          → value ≡ address_of (sections i) (find_section i t.loaded_sections)
          → ((j : ℕ) → i ≢ j → find_section j t.loaded_sections ≡ find_section j s.loaded_sections)
          → TracksLoaded sections s
          → TracksLoaded sections t
      written-TracksLoaded al here others h j = elim (Bool-cases (i == j)) [
        | inl e ↦
            subst
              (λ k.
                t.section_addresses (sections k).index
                ≡ address_of (sections k) (find_section k t.loaded_sections))
              ((==_iff i j).0 e)
              (ap (λ (z : ℕ → ℕ). z (sections i).index) written
                ∙ secaddr_set_self (sections i).index value s.section_addresses al
                ∙ here)
        | inr e ↦
            others_tracked j (==_false i j e)
            ∙ h j
            ∙ ap (address_of (sections j)) (sym (others j (==_false i j e)))
      ]

    load_overlay-TracksLoaded :
        (s : Loader)
        → IsAligned base
        → Lacks i s.loaded_sections
        → TracksLoaded sections s
        → TracksLoaded sections (load_overlay sections i base s)
    unfolding load_overlay record_load_order
    load_overlay-TracksLoaded s al none_yet h =
        let x : LoadedSection = record { loaded_ram_addr = base; section_table_index = i } in
        written-TracksLoaded s (load_overlay sections i base s) base refl al
          (ap (address_of (sections i))
            (sym (find_section-append_self s.loaded_sections x none_yet)))
          (λ j n. find_section-append_ne j s.loaded_sections x n) h

    unload_found-TracksLoaded :
        (s : Loader) (o : Option LoadedSection)
        → IsConsistent s
        → TracksLoaded sections (unload_found sections unreg i o s)
    unfolding unload_found
    unload_found-TracksLoaded s none (a, h) = h
    unload_found-TracksLoaded s (some ls) (a, h) =
        let gone = erase_found-Lacks sections i s.loaded_sections a in
        written-TracksLoaded s (unload_found sections unreg i (some ls) s) (sections i).ram_addr
          refl (links i) (ap (address_of (sections i)) (sym (Lacks-find_section i _ gone)))
          (λ j n. find_section-erase_found i j s.loaded_sections (λ e. n (sym e))) h

    unload_overlay_by_section_index-IsConsistent :
        (s : Loader)
        → IsConsistent s
        → IsConsistent (unload_overlay_by_section_index sections unreg i s)
    unfolding unload_overlay_by_section_index
    unload_overlay_by_section_index-IsConsistent s h = (
      unload_overlay_by_section_index-IsSeparate sections unreg i s h.0,
      unload_found-TracksLoaded s (find_section i s.loaded_sections) h,
    )

    register_found-TracksLoaded :
        (s : Loader) (o : Option LoadedSection)
        → find_section i s.loaded_sections ≡ o
        → IsAligned base
        → IsConsistent s
        → TracksLoaded sections (register_found sections unreg i base o s)
    unfolding register_found
    register_found-TracksLoaded s none e al (a, h) =
        load_overlay-TracksLoaded s al (find_section-Lacks i s.loaded_sections e) h
    register_found-TracksLoaded s (some ls) e al (a, h) =
        if_cases (TracksLoaded sections) (not (ls.loaded_ram_addr == base))
          (λ _.
            load_overlay-TracksLoaded (unload_overlay_by_section_index sections unreg i s) al
              (unload_Lacks sections unreg i base s a)
              (unload_overlay_by_section_index-IsConsistent s (a, h)).1)
          (λ _. h)

module _ (sections : ℕ → SectionTableEntry) (own : HasOwnEntries sections)
    (links : HasAlignedLinks sections) (unreg : Bool) where
  register_if_new-IsConsistent :
      (i base : ℕ) (s : Loader)
      → IsAligned base
      → IsConsistent sections own links unreg s
      → IsConsistent sections own links unreg (register_if_new sections unreg i base s)
  unfolding register_if_new
  register_if_new-IsConsistent i base s al h =
      let s₁ = evict_overlapping_sections sections unreg i base s in
      let h₁ =
        evict_overlapping_sections_keep sections unreg i base
          (IsConsistent sections own links unreg)
          (λ k. unload_overlay_by_section_index-IsConsistent sections own links unreg k base) s h in
      (
        register_found-IsSeparate sections unreg i base s₁ _ refl
            (evict_overlapping_sections-IsClearOf sections unreg i base s) h₁.0,
        register_found-TracksLoaded sections own links unreg i base s₁ _ refl al h₁,
      )

  -- When all addresses are multiples of 4 and every section has its own entry of the address table,
  -- a read of the ROM keeps that the loaded sections are apart and that the table has the address
  -- of each loaded section, and the link-time address of each other one.
  pub load_overlays-IsConsistent :
      (num_code_sections rom ram_addr size : ℕ) (s : Loader)
      → ((i : ℕ) → IsAligned (sections i).rom_addr)
      → IsAligned rom
      → IsAligned ram_addr
      → IsConsistent sections own links unreg s
      → IsConsistent sections own links unreg
          (load_overlays sections num_code_sections unreg rom ram_addr size s)
  load_overlays-IsConsistent num_code_sections rom ram_addr size s table hrom hram h =
      load_overlays_keep sections num_code_sections unreg (IsConsistent sections own links unreg)
        IsAligned register_if_new-IsConsistent rom ram_addr
        (λ i. base_of-IsAligned (sections i).rom_addr rom ram_addr (table i) hrom hram) size s
        (λ i. chunk_base-IsAligned (sections i).rom_addr rom ram_addr (table i) hrom hram) h
