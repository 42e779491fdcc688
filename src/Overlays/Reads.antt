-- ===== src/Overlays/Reads.antt =====
-- A read of the ROM is a sequence of registrations, whose invariants it keeps.
use n64modern_runtime.Base.{ℕ, zero, suc, ◌+◌, ◌-◌, ◌^◌, Bool, not, ◌&&◌, ltb, leb, ◌==◌, if_cases}
use n64modern_runtime.Base.Bits.{u32}
use n64modern_runtime.Overlays.{SectionTableEntry}
use n64modern_runtime.Overlays.Loader.{Loader}
use n64modern_runtime.Overlays.Dma.{
  bound, register_if_new, base_of, register_wholly_inside, register_containing,
  register_first_chunk, load_overlays,
}
use n64modern_runtime.Overlays.Residency.{IsSeparate, register_if_new-IsSeparate}

-- Every step of a read of the ROM registers a section, at one of two addresses.
module _ (sections : ℕ → SectionTableEntry) (num_code_sections : ℕ) (unreg : Bool)
    (P : Loader → Type 0) (IsBase : ℕ → Type 0)
    (keep : (i base : ℕ) (s : Loader)
      → IsBase base
      → P s
      → P (register_if_new sections unreg i base s))
    (rom ram_addr : ℕ) (whole : (i : ℕ) → IsBase (base_of sections unreg rom ram_addr i)) where
  register_wholly_inside_keep :
      (size start count : ℕ) (s : Loader)
      → P s
      → P (register_wholly_inside sections unreg rom ram_addr size start count s)
  unfolding register_wholly_inside
  register_wholly_inside_keep size start zero s h = h
  register_wholly_inside_keep size start (suc n) s h =
      register_wholly_inside_keep size (suc start) n _
        (if_cases P _ (λ _. h) (λ _. keep start _ s (whole start) h))

  register_containing_keep :
      (lower : ℕ) (s : Loader)
      → ((i : ℕ) → IsBase (u32 (ram_addr + (2 ^ 32 - (rom - (sections i).rom_addr)))))
      → P s
      → P (register_containing sections unreg rom ram_addr lower s)
  unfolding register_containing
  register_containing_keep zero s chunk h = h
  register_containing_keep (suc i) s chunk h = if_cases P _ (λ _. keep i _ s (chunk i) h) (λ _. h)

  register_first_chunk_keep :
      (size lower : ℕ) (s : Loader)
      → P s
      → P (register_first_chunk sections num_code_sections unreg rom ram_addr size lower s)
  unfolding register_first_chunk
  register_first_chunk_keep size lower s h =
      let sec = sections lower in
      if_cases P (not (lower == num_code_sections) && (sec.rom_addr == rom))
        (λ _.
          if_cases P (ltb (u32 (rom + size)) (u32 (sec.rom_addr + sec.size)))
            (λ _. keep lower _ s (whole lower) h) (λ _. h))
        (λ _. h)

  pub load_overlays_keep :
      (size : ℕ) (s : Loader)
      → ((i : ℕ) → IsBase (u32 (ram_addr + (2 ^ 32 - (rom - (sections i).rom_addr)))))
      → P s
      → P (load_overlays sections num_code_sections unreg rom ram_addr size s)
  unfolding load_overlays
  load_overlays_keep size s chunk h =
      let lower = bound (λ i. ltb (sections i).rom_addr rom) 0 num_code_sections in
      let upper_a = bound (λ i. leb (sections i).rom_addr (u32 (rom + size))) 0 num_code_sections in
      register_first_chunk_keep size lower _ (
        register_containing_keep lower _ chunk
          (register_wholly_inside_keep size lower (upper_a - lower) s h))

-- When the loaded sections have different indices and no two of them overlap, the same holds after
-- any read of the ROM, whatever table of sections the program has.
pub load_overlays-IsSeparate :
    (sections : ℕ → SectionTableEntry) (num_code_sections : ℕ) (unreg : Bool)
    (rom ram_addr size : ℕ) (s : Loader)
    → IsSeparate sections unreg s
    → IsSeparate sections unreg (load_overlays sections num_code_sections unreg rom ram_addr size s)
load_overlays-IsSeparate sections num_code_sections unreg rom ram_addr size s h =
    load_overlays_keep sections num_code_sections unreg (IsSeparate sections unreg) (λ _. Unit)
      (λ i base s' _ h'. register_if_new-IsSeparate sections unreg i base s' h') rom ram_addr
      (λ _. tt) size s (λ _. tt) h
