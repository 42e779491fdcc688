-- ===== src/GbCart.antt =====
-- librecomp/src/gbcart.cpp, `Cartridge`: a Game Boy cartridge (memory bank controller, ROM, battery
-- RAM) behind a Transfer Pak. A file is the list of its bytes, a path a number, with 0 for the
-- empty path; reading a missing file gives no bytes. Bytes are numbers below 256.
pub mod Cart
pub mod Banking
pub mod Port
pub mod Blocks
pub mod Reset
use n64modern_runtime.Base.{
  ℕ, ◌+◌, ◌-◌, ◌*◌, ◌/◌, ◌%◌, Bool, true, false, not, ◌&&◌, ◌||◌, List, [], ◌∷◌, ◌++◌, ltb, leb,
  ◌==◌, if◌then◌else◌, length, set, update, get_or, replicate,
}

pub data Mbc : Type 0 where
  rom_only mbc1 mbc3 mbc5 unsupported : Mbc

unfoldable pub header_ram_size : ℕ → ℕ
header_ram_size code =
    if code == 1
    then 2 * 1024
    else if code == 2
    then 8 * 1024
    else if code == 3
    then 32 * 1024
    else if code == 4
    then 128 * 1024
    else if code == 5
    then 64 * 1024
    else 0

pub record Cartridge : Type 0 where
  pub save_path : ℕ
  pub rom : List ℕ
  pub ram : List ℕ
  pub rom_open_bus_start : ℕ
  pub mbc : Mbc
  pub ram_enabled : Bool
  pub dirty : Bool
  pub rom_bank_low : ℕ
  pub bank_high : ℕ
  pub ram_bank : ℕ
  pub mbc1_mode : ℕ
  pub mbc5_rom_bank : ℕ

-- `Cartridge{}`
abbrev pub no_cartridge : Cartridge
no_cartridge = record {
  save_path = 0;
  rom = [];
  ram = [];
  rom_open_bus_start = 0;
  mbc = unsupported;
  ram_enabled = false;
  dirty = false;
  rom_bank_low = 1;
  bank_high = 0;
  ram_bank = 0;
  mbc1_mode = 0;
  mbc5_rom_bank = 1;
}

-- One past the last byte that is not zero: `rom.rend() - last_programmed`.
unfoldable pub programmed : List ℕ → ℕ
programmed [] = 0
programmed (b ∷ bytes) =
    let n = programmed bytes in if n == 0 then if b == 0 then 0 else 1 else n + 1

-- A whole bank or more of zeroes at the end is open bus, unless the ROM is all zeroes.
unfoldable pub open_bus_start : List ℕ → ℕ
open_bus_start rom =
    let start = programmed rom in
    if not (start == 0) && leb 0x4000 (length rom - start) then start else length rom

abbrev in_range : ℕ → ℕ → ℕ → Bool
in_range low high n = leb low n && leb n high

unfoldable pub mbc_of_type : ℕ → Mbc
mbc_of_type type =
    if type == 0x00 || type == 0x08 || type == 0x09
    then rom_only
    else if in_range 0x01 0x03 type
    then mbc1
    else if in_range 0x0F 0x13 type
    then mbc3
    else if in_range 0x19 0x1E type
    then mbc5
    else unsupported

-- `ram.resize(n, 0xFF)` of a shorter RAM.
abbrev padded : List ℕ → ℕ → List ℕ
padded ram n = if ltb (length ram) n then ram ++ replicate (n - length ram) 0xFF else ram

abbrev is_unsupported : Mbc → Bool
is_unsupported unsupported = true
is_unsupported m = false

abbrev pub is_rom_only : Mbc → Bool
is_rom_only rom_only = true
is_rom_only m = false

abbrev pub is_mbc1 : Mbc → Bool
is_mbc1 mbc1 = true
is_mbc1 m = false

abbrev pub is_mbc5 : Mbc → Bool
is_mbc5 mbc5 = true
is_mbc5 m = false

-- `Cartridge::load` on a fresh cartridge: whether the ROM is usable, and the cartridge.
unfoldable pub load : (ℕ → List ℕ) → ℕ → ℕ → Bool × Cartridge
load files configured_rom configured_save =
    let rom = files configured_rom in
    let m = mbc_of_type (get_or rom 0x147 0) in
    let saved = if configured_save == 0 then [] else files configured_save in
    let small = record no_cartridge {
      save_path = configured_save;
      rom = rom;
      rom_open_bus_start = length rom;
    } in
    let known = record small { rom_open_bus_start = open_bus_start rom; mbc = m } in
    if ltb (length rom) 0x150
    then (false, small)
    else if is_unsupported m
    then (false, known)
    else (true, record known { ram = padded saved (header_ram_size (get_or rom 0x149 0)) })

unfoldable pub rom_index : Cartridge → ℕ → ℕ → ℕ
rom_index c bank address_in_bank =
    let size = length c.rom in
    let banks = (size + 0x3FFF) / 0x4000 in
    if size == 0 then 0 else (bank % banks) * 0x4000 + address_in_bank

unfoldable pub selected_switchable_rom_bank : Cartridge → ℕ
selected_switchable_rom_bank c =
    let bank₁ = c.rom_bank_low % 32 + 32 * (c.bank_high % 4) in
    let bank = c.rom_bank_low % 128 in
    if is_mbc5 c.mbc
    then c.mbc5_rom_bank
    else if is_mbc1 c.mbc
    then if bank₁ % 32 == 0 then bank₁ + 1 else bank₁
    else if bank == 0
    then 1
    else bank

unfoldable pub selected_ram_offset : Cartridge → ℕ → ℕ
selected_ram_offset c address =
    let selected_bank = if is_mbc1 c.mbc && c.mbc1_mode == 0 then 0 else c.ram_bank % 4 in
    selected_bank * 0x2000 + (address - 0xA000)

-- A byte of the ROM file, with open bus from `rom_open_bus_start` on.
unfoldable pub rom_byte : Cartridge → ℕ → ℕ
rom_byte c index = if leb c.rom_open_bus_start index then 0xFF else get_or c.rom index 0xFF

abbrev pub is_ram_address : ℕ → Bool
is_ram_address address = leb 0xA000 address && ltb address 0xC000

unfoldable pub read : Cartridge → ℕ → ℕ
read c address =
    let bank = if is_mbc1 c.mbc && not (c.mbc1_mode == 0) then 32 * (c.bank_high % 4) else 0 in
    if ltb address 0x4000
    then rom_byte c (rom_index c bank address)
    else if ltb address 0x8000
    then rom_byte c (rom_index c (selected_switchable_rom_bank c) (address - 0x4000))
    else if is_ram_address address && c.ram_enabled
    then get_or c.ram (selected_ram_offset c address) 0xFF
    else 0xFF

-- `if (index < ram.size() && ram[index] != value)`
unfoldable pub write_ram : Cartridge → ℕ → ℕ → Cartridge
write_ram c index value =
    if ltb index (length c.ram) && not (get_or c.ram index 0 == value)
    then record c { ram = set c.ram index value; dirty = true }
    else c

abbrev nonzero_bank : ℕ → ℕ
nonzero_bank b = if b == 0 then 1 else b

-- A write to 0x2000-0x3FFF; `|` joins disjoint bits.
unfoldable pub write_rom_bank : Cartridge → ℕ → ℕ → Cartridge
write_rom_bank c address value =
    if is_mbc1 c.mbc
    then record c { rom_bank_low = nonzero_bank (value % 32) }
    else if is_mbc5 c.mbc
    then if ltb address 0x3000
      then record c { mbc5_rom_bank = 0x100 * (c.mbc5_rom_bank / 0x100 % 2) + value }
      else record c { mbc5_rom_bank = c.mbc5_rom_bank % 0x100 + 0x100 * (value % 2) }
    else record c { rom_bank_low = nonzero_bank (value % 128) }

-- A write to 0x4000-0x5FFF.
unfoldable pub write_ram_bank : Cartridge → ℕ → Cartridge
write_ram_bank c value =
    if is_mbc1 c.mbc
    then record c { bank_high = value % 4; ram_bank = value % 4 }
    else if is_mbc5 c.mbc
    then record c { ram_bank = value % 16 }
    else if leb value 3
    then record c { ram_bank = value }
    else c

unfoldable pub write : Cartridge → ℕ → ℕ → Cartridge
write c address value =
    if is_rom_only c.mbc
    then if is_ram_address address then write_ram c (address - 0xA000) value else c
    else if ltb address 0x2000
    then record c { ram_enabled = value % 16 == 0x0A }
    else if ltb address 0x4000
    then write_rom_bank c address value
    else if ltb address 0x6000
    then write_ram_bank c value
    else if ltb address 0x8000
    then if is_mbc1 c.mbc then record c { mbc1_mode = value % 2 } else c
    else if is_ram_address address && c.ram_enabled
    then write_ram c (selected_ram_offset c address) value
    else c

-- The cartridge and the files afterwards. `writable`: the stream opens and the write succeeds; a
-- write that fails half-way is not modelled.
unfoldable pub flush_save : (ℕ → Bool) → Cartridge → (ℕ → List ℕ) → Cartridge × (ℕ → List ℕ)
flush_save writable c files =
    if not c.dirty || c.save_path == 0
    then (c, files)
    else if writable c.save_path
    then (record c { dirty = false }, update files c.save_path c.ram)
    else (c, files)
