-- ===== src/Pi/Registers.antt =====
-- librecomp/src/pi.cpp: the FlashRAM behind the cartridge's save region, as games reach it by raw
-- PI transfers and register writes.
use n64modern_runtime.Base.{
  ℕ, ◌+◌, ◌-◌, ◌*◌, ◌/◌, ◌%◌, ◌^◌, min, Bool, ◌&&◌, Option, some, List, ◌++◌, leb, ◌==◌,
  if◌then◌else◌, length, take, replicate,
}
use mathlib.Core.Option
use n64modern_runtime.Save.{SaveType, flashram_allowed, Save, save_write_ptr, save_clear}

abbrev pub flash_size : ℕ
flash_size = 0x20000

abbrev pub flash_page_size : ℕ
flash_page_size = 128

abbrev pub flash_pages_per_sector : ℕ
flash_pages_per_sector = 128

abbrev pub flash_sector_size : ℕ
flash_sector_size = flash_page_size * flash_pages_per_sector

abbrev pub flash_id_type : ℕ
flash_id_type = 0x11118001

abbrev pub flash_id_maker : ℕ
flash_id_maker = 0x00C2001D

pub data FlashMode : Type 0 where
  read_array status id_mode page_program sector_erase chip_erase : FlashMode

pub record FlashRam : Type 0 where
  pub mode : FlashMode
  pub flash_status : ℕ
  pub pending_erase_page : ℕ
  pub write_buffer : List ℕ
  pub save : Save

abbrev pub sram_base : ℕ
sram_base = 0x0800_0000

unfoldable pub flash_region_contains : SaveType → ℕ → ℕ → Bool
flash_region_contains t physical_addr size =
    let offset = physical_addr - sram_base in
    flashram_allowed t
    && leb sram_base physical_addr
    && leb offset flash_size
    && leb size (flash_size - offset)

-- After a command: the status, and the mode that shows it.
abbrev pub done_with : FlashRam → ℕ → Save → FlashRam
done_with f st s = record f { mode = status; flash_status = st; save = s }

unfoldable pub flash_program_page : FlashRam → ℕ → Option FlashRam
flash_program_page f page_num =
    let offset = page_num * flash_page_size in
    if leb (offset + flash_page_size) flash_size
    then Option.map (done_with f 0x04) (save_write_ptr f.save f.write_buffer offset)
    else some (done_with f 0 f.save)

unfoldable pub flash_erase_sector : FlashRam → ℕ → Option FlashRam
flash_erase_sector f page_num =
    let sector_page = page_num / flash_pages_per_sector * flash_pages_per_sector in
    let offset = sector_page * flash_page_size in
    if leb (offset + flash_sector_size) flash_size
    then Option.map (done_with f 0x08) (save_clear f.save offset flash_sector_size 0xFF)
    else some (done_with f 0 f.save)

unfoldable pub flash_erase_chip : FlashRam → Option FlashRam
flash_erase_chip f = Option.map (done_with f 0x08) (save_clear f.save 0 flash_size 0xFF)

-- `flash_cmd_execute_erase`: what it does depends on the erase that was set up.
unfoldable pub execute_erase : FlashMode → FlashRam → Option FlashRam
execute_erase chip_erase f = flash_erase_chip f
execute_erase sector_erase f = flash_erase_sector f f.pending_erase_page
execute_erase m f = some f

-- A write to the command register; `none` where the save assertion fails.
unfoldable pub command : FlashRam → ℕ → Option FlashRam
command f data_ =
    let op = data_ / 2 ^ 24 in
    let page = data_ % 0x10000 in
    if op == 0x3C
    then some (record f { mode = chip_erase })
    else if op == 0x4B
    then some (record f { pending_erase_page = page; mode = sector_erase })
    else if op == 0x78
    then execute_erase f.mode f
    else if op == 0xA5
    then flash_program_page f page
    else if op == 0xB4
    then some (record f { mode = page_program })
    else if op == 0xD2
    then some (record f { mode = status })
    else if op == 0xE1
    then some (record f { mode = id_mode })
    else if op == 0xF0
    then some (record f { mode = read_array })
    else some f

-- `copy_size` bytes of the transfer, then 0xFF up to a page.
unfoldable pub fill_write_buffer : FlashRam → List ℕ → FlashRam
fill_write_buffer f bytes =
    let n = min (length bytes) flash_page_size in
    record f { write_buffer = take n bytes ++ replicate (flash_page_size - n) 0xFF }

-- `osEPiWriteIo`: only the flash's registers take a write.
unfoldable pub write_io : SaveType → FlashRam → ℕ → ℕ → Option FlashRam
write_io t f physical_addr data_ =
    if flashram_allowed t && physical_addr == sram_base + 0x10000
    then command f data_
    else if flashram_allowed t && physical_addr == sram_base && data_ == 0
    then some (record f { flash_status = 0; mode = read_array })
    else some f
