-- ===== src/GbCart/Cart.antt =====
-- The cartridge's registers stay in range, and the battery RAM of a ROM-only cartridge.
use n64modern_runtime.Base.{
  ℕ, ◌+◌, ◌-◌, ◌*◌, ◌/◌, ◌%◌, ◌≤◌, ◌<◌, ◌≡◌, ap, ◌∙◌, Bool, true, false, not, ◌&&◌, List, [], ◌∷◌,
  arith, ltb, leb, ◌==◌, if◌then◌else◌, leb→le, if_cases, length, get_or,
}
use n64modern_runtime.GbCart.{
  Cartridge, is_rom_only, is_mbc1, is_mbc5, selected_ram_offset, is_ram_address, read, write_ram,
  write_rom_bank, write_ram_bank, write,
}

-- The registers hold what their bits can hold.
pub record InRange (c : Cartridge) : Type 0 where
  pub rom_bank_low : 0 < c.rom_bank_low × c.rom_bank_low < 128
  pub bank_high : c.bank_high < 4
  pub ram_bank : c.ram_bank < 16
  pub mbc1_mode : c.mbc1_mode < 2
  pub mbc5_rom_bank : c.mbc5_rom_bank < 512

write_ram-InRange : (c : Cartridge) (i v : ℕ) → InRange c → InRange (write_ram c i v)
unfolding write_ram
write_ram-InRange c i v h =
    if_cases InRange (ltb i (length c.ram) && not (get_or c.ram i 0 == v))
      (λ e. record {
        rom_bank_low = h.rom_bank_low;
        bank_high = h.bank_high;
        ram_bank = h.ram_bank;
        mbc1_mode = h.mbc1_mode;
        mbc5_rom_bank = h.mbc5_rom_bank;
      })
      (λ e. h)

set_low :
    (c : Cartridge) (b : ℕ) → InRange c → 0 < b → b < 128 → InRange (record c { rom_bank_low = b })
set_low c b h p q = record {
  rom_bank_low = (p, q);
  bank_high = h.bank_high;
  ram_bank = h.ram_bank;
  mbc1_mode = h.mbc1_mode;
  mbc5_rom_bank = h.mbc5_rom_bank;
}

set_mbc5 : (c : Cartridge) (b : ℕ) → InRange c → b < 512 → InRange (record c { mbc5_rom_bank = b })
set_mbc5 c b h p = record {
  rom_bank_low = h.rom_bank_low;
  bank_high = h.bank_high;
  ram_bank = h.ram_bank;
  mbc1_mode = h.mbc1_mode;
  mbc5_rom_bank = p;
}

set_banks :
    (c : Cartridge) (hi r : ℕ)
    → InRange c
    → hi < 4
    → r < 16
    → InRange (record c { bank_high = hi; ram_bank = r })
set_banks c hi r h p q = record {
  rom_bank_low = h.rom_bank_low;
  bank_high = p;
  ram_bank = q;
  mbc1_mode = h.mbc1_mode;
  mbc5_rom_bank = h.mbc5_rom_bank;
}

write_rom_bank-InRange :
    (c : Cartridge) (a v : ℕ) → v < 256 → InRange c → InRange (write_rom_bank c a v)
unfolding write_rom_bank
write_rom_bank-InRange c a v hv h =
    if_cases InRange (is_mbc1 c.mbc)
      (λ e. set_low c (if v % 32 == 0 then 1 else v % 32) h (ground arith) (ground arith))
      (λ e.
        if_cases InRange (is_mbc5 c.mbc)
          (λ e₁.
            if_cases InRange (ltb a 0x3000)
              (λ e₂. set_mbc5 c (0x100 * (c.mbc5_rom_bank / 0x100 % 2) + v) h (omega arith))
              (λ e₂. set_mbc5 c (c.mbc5_rom_bank % 0x100 + 0x100 * (v % 2)) h (omega arith)))
          (λ e₁. set_low c (if v % 128 == 0 then 1 else v % 128) h (ground arith) (ground arith)))

write_ram_bank-InRange : (c : Cartridge) (v : ℕ) → InRange c → InRange (write_ram_bank c v)
unfolding write_ram_bank
write_ram_bank-InRange c v h =
    if_cases InRange (is_mbc1 c.mbc)
      (λ e. set_banks c (v % 4) (v % 4) h (omega arith) (omega arith))
      (λ e.
        if_cases InRange (is_mbc5 c.mbc)
          (λ e₁. set_banks c c.bank_high (v % 16) h h.bank_high (omega arith))
          (λ e₁.
            if_cases InRange (leb v 3)
              (λ e₂. set_banks c c.bank_high v h h.bank_high (omega (arith, leb→le v 3 e₂)))
              (λ e₂. h)))

set_flags :
    (c : Cartridge) (on : Bool) (m : ℕ)
    → InRange c
    → m < 2
    → InRange (record c { ram_enabled = on; mbc1_mode = m })
set_flags c on m h p = record {
  rom_bank_low = h.rom_bank_low;
  bank_high = h.bank_high;
  ram_bank = h.ram_bank;
  mbc1_mode = p;
  mbc5_rom_bank = h.mbc5_rom_bank;
}

-- A write of a byte to any address keeps the bank registers in range: the low ROM bank from 1 to
-- 127, the high bits below 4, the RAM bank below 16, the mode 0 or 1, the 9-bit bank below 512.
pub write-InRange : (c : Cartridge) (a v : ℕ) → v < 256 → InRange c → InRange (write c a v)
unfolding write
write-InRange c a v hv h =
    if_cases InRange (is_rom_only c.mbc)
      (λ e.
        if_cases InRange (is_ram_address a) (λ e₁. write_ram-InRange c (a - 0xA000) v h) (λ e₁. h))
      (λ e.
        if_cases InRange (ltb a 0x2000)
          (λ e₁. set_flags c (v % 16 == 0x0A) c.mbc1_mode h h.mbc1_mode)
          (λ e₁.
            if_cases InRange (ltb a 0x4000) (λ e₂. write_rom_bank-InRange c a v hv h)
              (λ e₂.
                if_cases InRange (ltb a 0x6000) (λ e₃. write_ram_bank-InRange c v h)
                  (λ e₃.
                    if_cases InRange (ltb a 0x8000)
                      (λ e₄.
                        if_cases InRange (is_mbc1 c.mbc)
                          (λ e₅. set_flags c c.ram_enabled (v % 2) h (omega arith)) (λ e₅. h))
                      (λ e₄.
                        if_cases InRange (is_ram_address a && c.ram_enabled)
                          (λ e₅. write_ram-InRange c (selected_ram_offset c a) v h) (λ e₅. h))))))

write_ram-enabled : (c : Cartridge) (i v : ℕ) → (write_ram c i v).ram_enabled ≡ c.ram_enabled
unfolding write_ram
write_ram-enabled c i v = ground arith

write_ram-mbc : (c : Cartridge) (i v : ℕ) → (write_ram c i v).mbc ≡ c.mbc
unfolding write_ram
write_ram-mbc c i v = ground arith

-- The writes of a list, one after the other: pairs of an address and a byte.
unfoldable pub write_all : Cartridge → List (ℕ × ℕ) → Cartridge
write_all c [] = c
write_all c (w ∷ ws) = write_all (write c w.0 w.1) ws

abbrev Silent : Cartridge → Type 0
Silent c = (is_rom_only c.mbc ≡ true) × (c.ram_enabled ≡ false)

write-Silent : (c : Cartridge) (a v : ℕ) → Silent c → Silent (write c a v)
unfolding write
write-Silent c a v s = rw (s.0) (
    if_cases Silent (is_ram_address a)
      (λ e. (
        ap is_rom_only (write_ram-mbc c (a - 0xA000) v) ∙ s.0,
        write_ram-enabled c (a - 0xA000) v ∙ s.1,
      ))
      (λ e. s))

read-Silent : (c : Cartridge) (a : ℕ) → c.ram_enabled ≡ false → 0x8000 ≤ a → read c a ≡ 0xFF
unfolding read
read-Silent c a off h = rw (off) (ground arith)

-- Whatever is written to a ROM-only cartridge whose RAM is not enabled, as `load` leaves it, every
-- address from 0x8000 on reads 0xFF: its battery RAM is never read back.
pub rom_only_unreadable :
    (c : Cartridge) (ws : List (ℕ × ℕ)) (a : ℕ)
    → is_rom_only c.mbc ≡ true
    → c.ram_enabled ≡ false
    → 0x8000 ≤ a
    → read (write_all c ws) a ≡ 0xFF
unfolding write_all
rom_only_unreadable c [] a m off h = read-Silent c a off h
rom_only_unreadable c (w ∷ ws) a m off h =
    let s = write-Silent c w.0 w.1 (m, off) in rom_only_unreadable (write c w.0 w.1) ws a s.0 s.1 h
