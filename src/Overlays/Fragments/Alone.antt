-- ===== src/Overlays/Fragments/Alone.antt =====
-- After a fragment is put at an address, no other section is loaded there.
use n64modern_runtime.Base.{ℕ, ◌≡◌, Bool, true, Option, some, List, All}
use n64modern_runtime.Overlays.{SectionTableEntry, LoadedSection}
use n64modern_runtime.Overlays.Loader.{Loader, find_section}
use n64modern_runtime.Overlays.Fragments.Register.{Fragments}

-- A section at the address is the one that is skipped.
abbrev pub IsSkippedAt : (fragment_ptr : ℕ) → (ℕ → Bool) → LoadedSection → Type 0
IsSkippedAt ptr skipped ls = ls.loaded_ram_addr ≡ ptr → skipped ls.section_table_index ≡ true

module _ (sections : ℕ → SectionTableEntry) (unreg : Bool) (ptr : ℕ) where
  -- The section that was found is loaded at the address, and no other one is.
  abbrev pub OccupiesAlone : Option ℕ → List LoadedSection → Type 0
  OccupiesAlone found l =
      All (λ ls. ls.loaded_ram_addr ≡ ptr → found ≡ some ls.section_table_index) l
      × ((i : ℕ)
          → found ≡ some i
          → find_section i l ≡ some (record { loaded_ram_addr = ptr; section_table_index = i }))

  abbrev pub IsBoundAlone : Option ℕ → Option Fragments → Type 0
  IsBoundAlone found r =
      (t : Fragments) × (r ≡ some t) × OccupiesAlone found t.loader.loaded_sections
