-- ===== src/Overlays/Adjacent.antt =====
-- What unloading does with a section that begins where the unloaded region ends.
use n64modern_runtime.Base.{
  ℕ, ◌+◌, ◌^◌, ◌≤◌, ◌<◌, ◌≡◌, refl, inl, inr, Bool, true, Option, none, List, [], ◌∷◌, ◌++◌, arith,
  if_cases, IsIn,
}
use mathlib.Core.Path.{subst}
use n64modern_runtime.Overlays.{SectionTableEntry, LoadedSection}
use n64modern_runtime.Overlays.Loader.{Loader}
use n64modern_runtime.Overlays.Dma.{is_unloaded, is_partial, unload_walk, unload_overlays}

module _ (sections : ℕ → SectionTableEntry) (unreg : Bool) (ram_addr size : ℕ) where
  -- A section with memory directly behind the region; all addresses are above 2^31, as those of the
  -- cached segment are, and below 2^32.
  abbrev pub IsAdjacent : LoadedSection → Type 0
  IsAdjacent ls =
      let extent = (sections ls.section_table_index).size in
      (2 ^ 31 ≤ ram_addr)
      × (ls.loaded_ram_addr ≡ ram_addr + size)
      × (0 < extent)
      × (ls.loaded_ram_addr + extent < 2 ^ 32)

  taken : (ls : LoadedSection) → IsAdjacent ls → is_unloaded sections unreg ram_addr size ls ≡ true
  taken ls (a, b, c, d) = ground arith

  refused : (ls : LoadedSection) → IsAdjacent ls → is_partial sections unreg ram_addr size ls ≡ true
  refused ls (a, b, c, d) = ground arith

  unload_walk-adjacent :
      (ls : LoadedSection) (kept l : List LoadedSection) (s : Loader)
      → IsAdjacent ls
      → IsIn ls l
      → unload_walk sections unreg ram_addr size kept l s ≡ none
  unfolding unload_walk
  unload_walk-adjacent ls kept [] s h k = elim k [ ]
  unload_walk-adjacent ls kept (x ∷ l) s h (inl e) =
      let hx = subst IsAdjacent e h in rw (taken x hx, refused x hx) refl
  unload_walk-adjacent ls kept (x ∷ l) s h (inr k) =
      if_cases (λ (z : Option Loader). z ≡ none) (is_unloaded sections unreg ram_addr size x)
        (λ _.
          if_cases (λ (z : Option Loader). z ≡ none) (is_partial sections unreg ram_addr size x)
            (λ _. refl) (λ _. unload_walk-adjacent ls kept l _ h k))
        (λ _. unload_walk-adjacent ls (kept ++ x ∷ []) l s h k)

  -- Unloading a region ends the process when a section of positive size is loaded directly behind
  -- the region, although the two have no address in common.
  pub unload_overlays-adjacent :
      (ls : LoadedSection) (s : Loader)
      → IsAdjacent ls
      → IsIn ls s.loaded_sections
      → unload_overlays sections unreg ram_addr size s ≡ none
  unfolding unload_overlays
  unload_overlays-adjacent ls s = unload_walk-adjacent ls [] s.loaded_sections s
