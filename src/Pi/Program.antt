-- ===== src/Pi/Program.antt =====
-- Programming and erasing the FlashRAM by its command register.
use n64modern_runtime.Base.{
  ℕ, ◌+◌, ◌*◌, ◌/◌, ◌%◌, ◌^◌, ◌≤◌, ◌<◌, ◌≡◌, refl, sym, ap, ◌∙◌, ◌⊎◌, true, some, List, arith, leb,
  length, replicate, length-replicate,
}
use mathlib.Core.Path.{subst}
use mathlib.Core.Option
use n64modern_runtime.Save.{SaveType, flashram_allowed, read_at, save_write_ptr, save_clear}
use n64modern_runtime.Save.Bytes.{save_write_ptr_stores}
use n64modern_runtime.Pi.Registers.{
  flash_size, flash_page_size, flash_sector_size, FlashRam, sram_base, done_with,
  flash_program_page, flash_erase_sector, execute_erase, command, write_io, status, sector_erase,
}

-- The buffers have the device's sizes.
pub record IsFlash (f : FlashRam) : Type 0 where
  pub chip : length f.save.save_buffer ≡ flash_size
  pub page : length f.write_buffer ≡ flash_page_size

-- The chip after a write of `bytes` at `offset`; the `n` bytes from `o` on are others.
pub record Wrote (f : FlashRam) (offset : ℕ) (bytes : List ℕ) (st o n : ℕ) (f' : FlashRam)
    : Type 0 where
  pub mode_is : f'.mode ≡ status
  pub status_is : f'.flash_status ≡ st
  pub stored : read_at f'.save.save_buffer offset (length bytes) ≡ bytes
  pub others : read_at f'.save.save_buffer o n ≡ read_at f.save.save_buffer o n
  pub is_flash : IsFlash f'

abbrev pub Apart : ℕ → ℕ → ℕ → ℕ → Type 0
Apart offset size o n = (o + n ≤ offset) ⊎ (offset + size ≤ o)

written :
    (f : FlashRam) (offset : ℕ) (bytes : List ℕ) (st o n : ℕ)
    → IsFlash f
    → offset + length bytes ≤ flash_size
    → Apart offset (length bytes) o n
    → (f' : FlashRam) × (Option.map (done_with f st) (save_write_ptr f.save bytes offset) ≡ some f')
      × Wrote f offset bytes st o n f'
written f offset bytes st o n i h apart =
    let w = save_write_ptr_stores f.save bytes offset o n (omega (arith, i.chip, h)) apart in
    (
      done_with f st w.0,
      ap (λ r. Option.map (done_with f st) r) w.1,
      record {
        mode_is = refl;
        status_is = refl;
        stored = w.4;
        others = w.5;
        is_flash = record { chip = w.3 ∙ i.chip; page = i.page };
      },
    )

write_io-command :
    (t : SaveType) (f : FlashRam) (d : ℕ)
    → flashram_allowed t ≡ true
    → write_io t f (sram_base + 0x10000) d ≡ command f d
unfolding write_io
write_io-command t f d ok = rw (ok) refl

-- The operation and the page of a command word.
word_op : (op page : ℕ) → page < 0x10000 → (op * 2 ^ 24 + page) / 2 ^ 24 ≡ op
word_op op page h = omega arith

word_page : (op page : ℕ) → page < 0x10000 → (op * 2 ^ 24 + page) % 0x10000 ≡ page
word_page op page h = omega arith

command_program :
    (f : FlashRam) (page : ℕ)
    → page < 0x10000
    → command f (0xA5 * 2 ^ 24 + page) ≡ flash_program_page f page
unfolding command
command_program f page h = rw (word_op 0xA5 page h, word_page 0xA5 page h) refl

-- The page-program command 0xA5 for a page of the chip: it succeeds, the page reads as the write
-- buffer and a range outside of it as before, the status is 0x04, and the mode shows it.
pub write_io-flash_program_page :
    (t : SaveType) (f : FlashRam) (page o n : ℕ)
    → flashram_allowed t ≡ true
    → IsFlash f
    → page < 1024
    → Apart (page * flash_page_size) flash_page_size o n
    → (f' : FlashRam) × (write_io t f (sram_base + 0x10000) (0xA5 * 2 ^ 24 + page) ≡ some f')
      × Wrote f (page * flash_page_size) f.write_buffer 0x04 o n f'
unfolding flash_program_page
write_io-flash_program_page t f page o n ok i h apart =
    let w =
      written f (page * flash_page_size) f.write_buffer 0x04 o n i (omega (arith, i.page))
        (subst (λ k. Apart (page * flash_page_size) k o n) (sym i.page) apart) in
    (
      w.0,
      write_io-command t f (0xA5 * 2 ^ 24 + page) ok
          ∙ command_program f page (omega arith)
          ∙ rw (in_chip page h) w.1,
      w.2,
    )
  where
    in_chip : (p : ℕ) → p < 1024 → leb (p * flash_page_size + flash_page_size) flash_size ≡ true
    in_chip p q = ground arith

command_sector :
    (f : FlashRam) (page : ℕ)
    → page < 0x10000
    → command f (0x4B * 2 ^ 24 + page)
      ≡ some (record f { pending_erase_page = page; mode = sector_erase })
unfolding command
command_sector f page h = rw (word_op 0x4B page h, word_page 0x4B page h) refl

command_execute : (f : FlashRam) (d : ℕ) → d / 2 ^ 24 ≡ 0x78 → command f d ≡ execute_erase f.mode f
unfolding command
command_execute f d h = rw (h) refl

-- Erasing a sector: the command 0x4B with any page of the chip, then 0x78. Both succeed, the whole
-- sector of that page reads 0xFF and a range outside of it as before, the status is 0x08, and the
-- mode shows it.
pub write_io-flash_erase_sector :
    (t : SaveType) (f : FlashRam) (page d o n : ℕ)
    → flashram_allowed t ≡ true
    → IsFlash f
    → page < 1024
    → d / 2 ^ 24 ≡ 0x78
    → Apart (page / 128 * 128 * flash_page_size) flash_sector_size o n
    → (f₁ : FlashRam) × (f' : FlashRam) × (write_io t f (sram_base + 0x10000) (0x4B * 2 ^ 24 + page)
        ≡ some f₁)
      × (write_io t f₁ (sram_base + 0x10000) d ≡ some f')
      × Wrote f (page / 128 * 128 * flash_page_size) (replicate flash_sector_size 0xFF) 0x08 o n f'
unfolding execute_erase flash_erase_sector save_clear
write_io-flash_erase_sector t f page d o n ok i h e apart =
    let f₁ : FlashRam = record f { pending_erase_page = page; mode = sector_erase } in
    let w =
      written f₁ (page / 128 * 128 * flash_page_size) (replicate flash_sector_size 0xFF) 0x08 o n
        (record { chip = i.chip; page = i.page })
        (omega (arith, length-replicate {A = ℕ} flash_sector_size 0xFF))
        (subst (λ k. Apart (page / 128 * 128 * flash_page_size) k o n)
          (sym (length-replicate {A = ℕ} flash_sector_size 0xFF)) apart) in
    (
      f₁,
      w.0,
      write_io-command t f (0x4B * 2 ^ 24 + page) ok ∙ command_sector f page (omega arith),
      write_io-command t f₁ d ok ∙ command_execute f₁ d e ∙ rw (in_chip page h) w.1,
      record {
        mode_is = w.2.mode_is;
        status_is = w.2.status_is;
        stored = w.2.stored;
        others = w.2.others;
        is_flash = w.2.is_flash;
      },
    )
  where
    in_chip :
        (p : ℕ)
        → p < 1024
        → leb (p / 128 * 128 * flash_page_size + flash_sector_size) flash_size ≡ true
    in_chip p q = ground arith
