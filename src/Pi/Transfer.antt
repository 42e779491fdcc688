-- ===== src/Pi/Transfer.antt =====
-- Transfers between the guest's memory and SRAM.
use n64modern_runtime.Base.{
  ℕ, ◌+◌, ◌-◌, ◌≤◌, ◌<◌, ◌≡◌, refl, sym, ap, ◌∙◌, inl, true, false, some, List, [], ◌∷◌, ◌++◌,
  arith, leb, length, All,
}
use n64modern_runtime.Base.Guest.{GuestMemory, load_bytes, store_bytes}
use n64modern_runtime.Save.Bytes.{save_write_ptr_stores}
use n64modern_runtime.Save.Memory.{IsByte, load_bytes-store, length-load_bytes}
use n64modern_runtime.Save.{Save, read_at, in_buffer, save_write_ptr, save_write, save_read, sram}
use n64modern_runtime.Pi.Registers.{sram_base, flash_region_contains}
use n64modern_runtime.Pi.{
  rom_base, Completion, Pi, dma_complete, read_save, dma_read, dma_write, do_dma, done,
}

abbrev pub completion : ℕ → ℕ → ℕ → Completion
completion mq phys n = record { queue = mq; phys = phys; size = n }

not_rom : (o : ℕ) → o < 0x0800_0000 → leb rom_base (sram_base + o) ≡ false
not_rom o h = ground arith

is_sram : (o : ℕ) → leb sram_base (sram_base + o) ≡ true
is_sram o = ground arith

same_offset : (o : ℕ) → sram_base + o - sram_base ≡ o
same_offset o = omega arith

inside : (s : Save) (o n : ℕ) → o + n ≤ length s.save_buffer → in_buffer s o n ≡ true
inside s o n h = ground arith

module _ (G : GuestMemory) where
  sram_write :
      (p : Pi G.Mem) (mq src o size : ℕ) (s : Save)
      → o < 0x0800_0000
      → save_write G p.flash.save p.mem src o size ≡ some s
      → dma_write G sram p mq src (sram_base + o) size
        ≡ done (
            dma_complete
              (record p { flash = record (p.flash) { save = s } })
              mq
              (sram_base + o)
              size)
  unfolding dma_write flash_region_contains
  sram_write p mq src o size s h e = rw (not_rom o h, is_sram o, same_offset o, e) refl

  sram_read :
      (p : Pi G.Mem) (mq dst o size : ℕ) (m : G.Mem)
      → o < 0x0800_0000
      → save_read G p.flash.save p.mem dst o size ≡ some m
      → dma_read G sram p mq dst (sram_base + o) size
        ≡ done (dma_complete (record p { mem = m }) mq (sram_base + o) size)
  unfolding dma_read read_save flash_region_contains
  sram_read p mq dst o size m h e = rw (not_rom o h, is_sram o, read_save, same_offset o, e) refl

  -- With the save type SRAM, `size` bytes moved from the guest's memory at `src` to the SRAM at `o`,
  -- inside of the save buffer, and then back to `dst`: both transfers complete, the bytes at `dst`
  -- are then those that were at `src`, and a completion message was sent to the request's queue for
  -- each, by a send that a full queue refuses.
  pub do_dma-do_dma :
      (p : Pi G.Mem) (mq src dst o size : ℕ)
      → o < 0x0800_0000
      → o + size ≤ length p.flash.save.save_buffer
      → All IsByte (load_bytes G p.mem src size)
      → (p₁ : Pi G.Mem) × (p₂ : Pi G.Mem) × (do_dma G sram p mq src (sram_base + o) size 1
          ≡ done p₁)
        × (do_dma G sram p₁ mq dst (sram_base + o) size 0 ≡ done p₂)
        × (load_bytes G p₂.mem dst size ≡ load_bytes G p.mem src size)
        × (p₂.completions
            ≡ (p.completions ++ completion mq (sram_base + o) size ∷ [])
              ++ completion mq (sram_base + o) size ∷ [])
  unfolding do_dma dma_complete save_write save_read
  do_dma-do_dma p mq src dst o size h fits bytes = (
    dma_complete stored mq (sram_base + o) size,
    dma_complete
        (record (dma_complete stored mq (sram_base + o) size) {
          mem = store_bytes G p.mem dst (read_at w.0.save_buffer o size);
        })
        mq (sram_base + o) size,
    sram_write p mq src o size w.0 h (rw (inside p.flash.save o size fits) w.1),
    sram_read (dma_complete stored mq (sram_base + o) size) mq dst o size
        (store_bytes G p.mem dst (read_at w.0.save_buffer o size)) h
        (rw (inside w.0 o size (omega (arith, w.3, fits))) refl),
    ap (λ l. load_bytes G (store_bytes G p.mem dst l) dst size) same
        ∙ ap (λ n. load_bytes G (store_bytes G p.mem dst bs) dst n) (sym len)
        ∙ load_bytes-store G p.mem dst bs bytes,
    refl,
  )
    where
      bs : List ℕ
      bs = load_bytes G p.mem src size

      len : length bs ≡ size
      len = length-load_bytes G p.mem src size

      w :
          (s' : Save) × (save_write_ptr p.flash.save bs o ≡ some s')
          × (s'.writes ≡ p.flash.save.writes + 1)
          × (length s'.save_buffer ≡ length p.flash.save.save_buffer)
          × (read_at s'.save_buffer o (length bs) ≡ bs)
          × (read_at s'.save_buffer 0 0 ≡ read_at p.flash.save.save_buffer 0 0)
      w = save_write_ptr_stores p.flash.save bs o 0 0 (omega (arith, len, fits)) (inl (omega arith))

      stored : Pi G.Mem
      stored = record p { flash = record (p.flash) { save = w.0 } }

      same : read_at w.0.save_buffer o size ≡ bs
      same = ap (λ n. read_at w.0.save_buffer o n) (sym len) ∙ w.4
