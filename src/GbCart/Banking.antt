-- ===== src/GbCart/Banking.antt =====
-- The selection of a ROM bank by writes, and what the switchable window at 0x4000 shows then.
use n64modern_runtime.Base.{
  ℕ, ◌+◌, ◌-◌, ◌*◌, ◌/◌, ◌%◌, ◌<◌, ◌≡◌, refl, arith, ◌==◌, if◌then◌else◌, lt→ltb, le→ltb_false,
  ==_apart, length,
}
use n64modern_runtime.GbCart.{
  Mbc, Cartridge, rom_index, selected_switchable_rom_bank, rom_byte, read, write_rom_bank,
  write_ram_bank, write, mbc5, mbc3, mbc1,
}

-- The controllers that select banks.
pub data Controller : Type 0 where
  one three five : Controller

abbrev pub mbc_of : Controller → Mbc
mbc_of one = mbc1
mbc_of three = mbc3
mbc_of five = mbc5

-- The writes with which a game selects a bank: its low and its high part.
abbrev pub select_bank : Controller → Cartridge → (low high : ℕ) → Cartridge
select_bank one c low high = write (write c 0x2000 low) 0x4000 high
select_bank three c low high = write c 0x2000 low
select_bank five c low high = write (write c 0x2000 low) 0x3000 high

abbrev one_for_zero : ℕ → ℕ
one_for_zero b = if b == 0 then 1 else b

-- The bank that these writes ask for: the low part has 5, 7 or 8 bits, the high part 2, none or 1.
abbrev pub asked_bank : Controller → (low high : ℕ) → ℕ
asked_bank one low high = one_for_zero (low % 32) + 32 * (high % 4)
asked_bank three low high = one_for_zero (low % 128)
asked_bank five low high = low + 0x100 * (high % 2)

abbrev pub rom_banks : Cartridge → ℕ
rom_banks c = (length c.rom + 0x3FFF) / 0x4000

plus_minus : (x : ℕ) → 0x4000 + x - 0x4000 ≡ x
plus_minus x = omega arith

read_window :
    (c : Cartridge) (x : ℕ)
    → x < 0x4000
    → read c (0x4000 + x) ≡ rom_byte c (rom_index c (selected_switchable_rom_bank c) x)
unfolding read
read_window c x h =
    rw
      (
        le→ltb_false (0x4000 + x) 0x4000 (omega arith),
        lt→ltb (0x4000 + x) 0x8000 (omega (arith, h)),
        plus_minus x,
      )
      refl

rom_index_lem :
    (c : Cartridge) (b x : ℕ) → 0 < length c.rom → rom_index c b x ≡ b % rom_banks c * 0x4000 + x
unfolding rom_index
rom_index_lem c b x h = rw (==_apart (length c.rom) 0 (omega (arith, h))) refl

mbc1_bank :
    (low high : ℕ)
    → let b = one_for_zero (low % 32) % 32 + 32 * (high % 4 % 4) in
      (if b % 32 == 0 then b + 1 else b) ≡ one_for_zero (low % 32) + 32 * (high % 4)
mbc1_bank low high = ground arith

mbc3_bank :
    (low : ℕ)
    → let b = one_for_zero (low % 128) % 128 in (if b == 0 then 1 else b) ≡ one_for_zero (low % 128)
mbc3_bank low = ground arith

mbc5_bank :
    (old low high : ℕ)
    → low < 256
    → (0x100 * (old / 0x100 % 2) + low) % 0x100 + 0x100 * (high % 2) ≡ low + 0x100 * (high % 2)
mbc5_bank old low high h = omega (arith, h)

-- The registers hold the bank, and the ROM is as it was.
abbrev Selects : Cartridge → ℕ → Cartridge → Type 0
Selects c b c' =
    (selected_switchable_rom_bank c' ≡ b)
    × (c'.rom ≡ c.rom)
    × (c'.rom_open_bus_start ≡ c.rom_open_bus_start)

select_bank-Selects :
    (k : Controller) (c : Cartridge) (low high : ℕ)
    → c.mbc ≡ mbc_of k
    → low < 256
    → Selects c (asked_bank k low high) (select_bank k c low high)
unfolding write write_rom_bank write_ram_bank selected_switchable_rom_bank
select_bank-Selects one c low high e h = rw (e) (mbc1_bank low high, refl, refl)
select_bank-Selects three c low high e h = rw (e) (mbc3_bank low, refl, refl)
select_bank-Selects five c low high e h = rw (e) (mbc5_bank c.mbc5_rom_bank low high h, refl, refl)

shows :
    (c c' : Cartridge) (b x : ℕ)
    → Selects c b c'
    → 0 < length c.rom
    → x < 0x4000
    → read c' (0x4000 + x) ≡ rom_byte c (b % rom_banks c * 0x4000 + x)
unfolding rom_byte
shows c c' b x (is_b, same, same_start) h lt =
    rw (read_window c' x lt, is_b, rom_index_lem c' b x (rw (same) h), same, same_start) refl

-- On a cartridge with a ROM and an MBC1, MBC3 or MBC5, whatever its registers hold, the writes that
-- select a bank make the switchable window show that bank modulo the number of banks of the ROM, byte
-- by byte: a low part of zero stands for one on an MBC1 and an MBC3, and not on an MBC5.
pub read-select_bank :
    (k : Controller) (c : Cartridge) (low high x : ℕ)
    → c.mbc ≡ mbc_of k
    → 0 < length c.rom
    → low < 256
    → x < 0x4000
    → read (select_bank k c low high) (0x4000 + x)
      ≡ rom_byte c (asked_bank k low high % rom_banks c * 0x4000 + x)
read-select_bank k c low high x e h hl lt =
    shows c (select_bank k c low high) (asked_bank k low high) x
      (select_bank-Selects k c low high e hl) h lt
