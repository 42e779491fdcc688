-- ===== src/Tests/Cartridges.antt =====
-- The Transfer Pak's theorems at concrete inputs.
use n64modern_runtime.Base.{
  ℕ, ◌+◌, ◌*◌, ◌%◌, ◌≡◌, refl, true, some, List, [], ◌∷◌, ◌++◌, arith, ◌==◌, if◌then◌else◌, length,
  replicate,
}
use n64modern_runtime.GbCart.Banking.{select_bank, rom_banks, read-select_bank, one}
use n64modern_runtime.GbCart
use n64modern_runtime.GbCart.{
  Cartridge, no_cartridge, rom_index, selected_switchable_rom_bank, rom_byte, read, write_ram,
  write_rom_bank, write_ram_bank, mbc1, rom_only,
}
use n64modern_runtime.GbCart.Cart.{InRange, write-InRange, write_all}
use n64modern_runtime.GbCart.Port.{Port, empty_port}
use n64modern_runtime.GbCart.Blocks.{RingEntry, Paks, Environment}
use n64modern_runtime.Joybus.{Run, frame_at, reads_to, step_frame, step, run, run_joybus, overrun}
use n64modern_runtime.Joybus.Frames.{block_of, run_joybus_ends}

abbrev small_mbc1 : Cartridge
small_mbc1 = record no_cartridge { ram = 0xFF ∷ 0xFF ∷ []; mbc = mbc1 }

abbrev small_rom_only : Cartridge
small_rom_only = record no_cartridge { ram = 0x11 ∷ 0x22 ∷ []; mbc = rom_only }

small_mbc1-InRange : InRange small_mbc1
small_mbc1-InRange = record {
  rom_bank_low = (omega arith, omega arith);
  bank_high = omega arith;
  ram_bank = omega arith;
  mbc1_mode = omega arith;
  mbc5_rom_bank = omega arith;
}

-- A write of bank 0 selects bank 1.
bank_zero : (GbCart.write small_mbc1 0x2000 0x20).rom_bank_low ≡ 1
unfolding GbCart.write write_rom_bank
bank_zero = refl

write-InRange_example : InRange (GbCart.write small_mbc1 0x2000 0x20)
write-InRange_example = write-InRange small_mbc1 0x2000 0x20 (omega arith) small_mbc1-InRange

-- A ROM of one bank: every bank that is selected is bank 0.
abbrev three_bytes : Cartridge
three_bytes = record small_mbc1 { rom = 0x11 ∷ 0x22 ∷ 0x33 ∷ []; rom_open_bus_start = 3 }

read-select_bank_example :
    read (select_bank one three_bytes 0 1) 0x4001
    ≡ rom_byte three_bytes (0x21 % rom_banks three_bytes * 0x4000 + 1)
read-select_bank_example =
    read-select_bank one three_bytes 0 1 1 refl (omega arith) (omega arith) (omega arith)

second_byte : read (select_bank one three_bytes 0 1) 0x4001 ≡ 0x22
unfolding GbCart.write write_rom_bank write_ram_bank read selected_switchable_rom_bank rom_index
    rom_byte
second_byte = refl

-- What the unreadable byte is.
rom_only_holds : (write_all small_rom_only ((0xA000, 0x55) ∷ [])).ram ≡ 0x55 ∷ 0x22 ∷ []
unfolding write_all GbCart.write write_ram
rom_only_holds = refl

abbrev powered : Port
powered = record empty_port { configured = true; pak_enabled = true; cart = small_mbc1 }

abbrev leaving : Port
leaving = record powered { reset_state = 2 }

abbrev no_entry : RingEntry
no_entry = record {
  seq = 0;
  tstamp_us = 0;
  thread_ptr = 0;
  block_addr = 0;
  rom_bank = 0;
  port = 0;
  kind = 0;
  addr_bank = 0;
  flags = 0;
  ram_bank = 0;
  mbc1_mode = 0;
  b0 = 0;
}

abbrev one_pak : Paks
one_pak = record {
  ports = λ i. if i == 0 then powered else empty_port;
  ring = λ i. no_entry;
  ring_seq = 0;
  files = λ i. [];
}

abbrev quiet : Environment
quiet = record { writable = λ i. true; this_thread = 0; now_us = 0 }

abbrev info_block : List ℕ
info_block = 0xFF ∷ 0x01 ∷ 0x03 ∷ 0x00 ∷ 0x00 ∷ 0x00 ∷ 0x00 ∷ 0xFE ∷ replicate 56 0

run_joybus_ends_example :
    (r : Run) × (run_joybus quiet one_pak info_block ≡ some r)
    × (length (block_of r) ≡ length info_block)
run_joybus_ends_example = run_joybus_ends quiet one_pak info_block

abbrev short_block : List ℕ
short_block = replicate 62 0xFF ++ 0x40 ∷ 0x00 ∷ []

-- A frame without bytes to send at the end of the block: its command byte is past the block.
overrun_at_end :
    run_joybus quiet one_pak short_block
    ≡ some (overrun (record { blk = short_block; paks = one_pak; chan = 0; p = 62 }))
unfolding run step step_frame frame_at reads_to
overrun_at_end = refl
