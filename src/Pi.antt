-- ===== src/Pi.antt =====
-- librecomp/src/pi.cpp: transfers and register reads of the parallel interface. The completion
-- messages of transfers, `osSendMesg` of 0 without blocking, are kept as a list of the calls, by
-- queue: what a send does, and that a full queue refuses it, which the code only traces, is
-- MesgQueue's. The overlays that the recompiler loads for a ROM read as a list of requests.
pub mod Registers
pub mod Program
pub mod Transfer
use n64modern_runtime.Base.{
  ℕ, ◌+◌, ◌-◌, ◌%◌, ◌^◌, min, ◌&&◌, ◌||◌, Option, none, some, List, [], ◌∷◌, ◌++◌, ltb, leb, ◌==◌,
  if◌then◌else◌, length, update, replicate,
}
use n64modern_runtime.Base.Guest.{GuestMemory, load_bytes, store_bytes}
use n64modern_runtime.Save.{SaveType, sram_allowed, read_at, save_write, save_read}
use Registers.{
  FlashRam, FlashMode, flash_region_contains, sram_base, flash_id_type, flash_id_maker,
  fill_write_buffer, status, id_mode, page_program, flash_page_size,
}

abbrev pub rom_base : ℕ
rom_base = 0x1000_0000

abbrev pub drive_base : ℕ
drive_base = 0x0600_0000

-- `addr & 0x1FFFFFFF`
abbrev pub k1_to_phys : ℕ → ℕ
k1_to_phys addr = addr % 2 ^ 29

pub record Completion : Type 0 where
  pub queue : ℕ
  pub phys : ℕ
  pub size : ℕ

pub record Overlay : Type 0 where
  pub rom_offset : ℕ
  pub ram : ℕ
  pub size : ℕ

pub record PiFillEvent : Type 0 where
  pub seq : ℕ
  pub ms : ℕ
  pub dram : ℕ
  pub rom : ℕ
  pub size : ℕ

pub record Pi (M : Type 0) : Type 0 where
  pub mem : M
  pub rom : List ℕ
  pub flash : FlashRam
  pub fills : ℕ → PiFillEvent
  pub fill_seq : ℕ
  pub overlays : List Overlay
  pub completions : List Completion
  pub now_ms : ℕ

-- `failed_assertion`: an assertion, of alignment or of the save buffer, does not hold.
-- `rom_write`: the exception of a transfer to the ROM.
pub data Result (M : Type 0) : Type 0 where
  done : Pi M → Result M
  failed_assertion : Result M
  rom_write : Result M

unfoldable pub record_pi_fill : {M : Type 0} → Pi M → ℕ → ℕ → ℕ → Pi M
record_pi_fill p dram rom_addr size =
    let ev : PiFillEvent = record {
      seq = p.fill_seq;
      ms = p.now_ms;
      dram = dram;
      rom = rom_addr;
      size = size;
    } in
    record p {
      fills = update p.fills (p.fill_seq % 262144) ev;
      fill_seq = (p.fill_seq + 1) % 2 ^ 64;
    }

unfoldable pub dma_complete : {M : Type 0} → Pi M → ℕ → ℕ → ℕ → Pi M
dma_complete p mq physical_addr size =
    let c : Completion = record { queue = mq; phys = physical_addr; size = size } in
    record p { completions = p.completions ++ c ∷ [] }

-- The bytes of a ROM read: zeroes where it passes the end of the ROM.
unfoldable pub rom_bytes : List ℕ → ℕ → ℕ → List ℕ
rom_bytes rom rom_off num_bytes =
    if leb (length rom) rom_off || ltb (length rom) (rom_off + num_bytes)
    then replicate num_bytes 0
    else read_at rom rom_off num_bytes

-- What the flash's identification puts into a transfer after its two words.
abbrev zero_tail : ℕ → List ℕ
zero_tail size = replicate (size - 8) 0

module _ (G : GuestMemory) where
  unfoldable pub do_rom_read : Pi G.Mem → ℕ → ℕ → ℕ → Option (Pi G.Mem)
  do_rom_read p ram_address physical_addr num_bytes =
      let bytes = rom_bytes p.rom (physical_addr - rom_base) num_bytes in
      if physical_addr % 2 == 0 && ram_address % 8 == 0
      then some (record p { mem = store_bytes G p.mem ram_address bytes })
      else none

  -- `mirror_rom_to_kseg1` in terms of guest bytes: byte i of the ROM at address 0xB0000000 + i.
  unfoldable pub mirror_rom_to_kseg1 : Pi G.Mem → Pi G.Mem
  mirror_rom_to_kseg1 p = record p { mem = store_bytes G p.mem 0xB000_0000 p.rom }

  unfoldable pub read_flash_id : G.Mem → ℕ → ℕ → G.Mem
  read_flash_id m a size =
      let m₁ = if leb 4 size then G.set_mem_w m a flash_id_type else m in
      let m₂ = if leb 8 size then G.set_mem_w m₁ (a + 4) flash_id_maker else m₁ in
      store_bytes G m₂ (a + 8) (zero_tail size)

  unfoldable pub read_save : Pi G.Mem → ℕ → ℕ → ℕ → ℕ → Result G.Mem
  read_save p mq a phys size = elim (save_read G p.flash.save p.mem a (phys - sram_base) size) [
    | none ↦ failed_assertion
    | some m ↦ done (dma_complete (record p { mem = m }) mq phys size)
  ]

  read_flash : FlashMode → Pi G.Mem → ℕ → ℕ → ℕ → ℕ → Result G.Mem
  read_flash id_mode p mq a phys size =
      done (dma_complete (record p { mem = read_flash_id p.mem a size }) mq phys size)
  read_flash m p mq a phys size = read_save p mq a phys size

  -- `do_dma` with direction 0: from the device into memory.
  unfoldable pub dma_read : SaveType → Pi G.Mem → ℕ → ℕ → ℕ → ℕ → Result G.Mem
  unfolding read_flash
  dma_read t p mq a phys size =
      let o : Overlay = record { rom_offset = phys - rom_base; ram = a; size = size } in
      if leb rom_base phys
      then elim (do_rom_read p a phys size) [
        | none ↦ failed_assertion
        | some p₁ ↦
            (let p₂ = record_pi_fill p₁ (k1_to_phys a) phys size in
              done (dma_complete (record p₂ { overlays = p.overlays ++ o ∷ [] }) mq phys size))
      ]
      else if flash_region_contains t phys size
      then read_flash p.flash.mode p mq a phys size
      else if leb sram_base phys
      then if sram_allowed t
        then read_save p mq a phys size
        else (let m = store_bytes G p.mem a (replicate size 0xFF) in
            done (dma_complete (record p { mem = m }) mq phys size))
      else if leb drive_base phys
      then done (dma_complete p mq phys size)
      else done p

  write_flash : FlashMode → Pi G.Mem → ℕ → ℕ → Pi G.Mem
  write_flash page_program p a size = record p {
    flash = fill_write_buffer p.flash (load_bytes G p.mem a (min size flash_page_size));
  }
  write_flash m p a size = p

  -- `do_dma` with another direction: from memory to the device.
  unfoldable pub dma_write : SaveType → Pi G.Mem → ℕ → ℕ → ℕ → ℕ → Result G.Mem
  unfolding write_flash
  dma_write t p mq a phys size =
      if leb rom_base phys
      then rom_write
      else if flash_region_contains t phys size
      then done (dma_complete (write_flash p.flash.mode p a size) mq phys size)
      else if leb sram_base phys
      then if sram_allowed t
        then elim (save_write G p.flash.save p.mem a (phys - sram_base) size) [
          | none ↦ failed_assertion
          | some s ↦
              (let f = p.flash in
                done (dma_complete (record p { flash = record f { save = s } }) mq phys size))
        ]
        else done (dma_complete p mq phys size)
      else if leb drive_base phys
      then done (dma_complete p mq phys size)
      else done p

  unfoldable pub do_dma : SaveType → Pi G.Mem → ℕ → ℕ → ℕ → ℕ → ℕ → Result G.Mem
  do_dma t p mq a phys size direction =
      if direction == 0 then dma_read t p mq a phys size else dma_write t p mq a phys size

  -- The word at the source, copied byte by byte; `none` where an assertion fails or the source
  -- lies past the end of the ROM.
  unfoldable pub do_rom_pio : Pi G.Mem → ℕ → ℕ → Option (Pi G.Mem)
  do_rom_pio p ram_address physical_addr =
      let off = physical_addr - rom_base in
      let bytes = read_at p.rom off 4 in
      if physical_addr % 4 == 0 && ram_address % 4 == 0 && leb (off + 4) (length p.rom)
      then some (record p { mem = store_bytes G p.mem ram_address bytes })
      else none

  -- The word that the flash answers outside of the array modes.
  flash_word : FlashMode → FlashRam → ℕ
  flash_word status f = f.flash_status
  flash_word id_mode f = flash_id_type
  flash_word m f = 0

  -- `osEPiReadIo` from the physical address.
  unfoldable pub read_io : SaveType → Pi G.Mem → ℕ → ℕ → Option (Pi G.Mem)
  unfolding flash_word
  read_io t p a phys =
      if leb rom_base phys
      then do_rom_pio p a phys
      else if flash_region_contains t phys 4
      then some (record p { mem = G.set_mem_w p.mem a (flash_word p.flash.mode p.flash) })
      else if leb 0x0500_0000 phys && ltb phys 0x0600_0000
      then some (record p { mem = G.set_mem_w p.mem a 0x0080_0000 })
      else some (record p { mem = G.set_mem_w p.mem a 0 })
