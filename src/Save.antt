-- ===== src/Save.antt =====
-- librecomp/src/pi.cpp, `save_context`, and the save types of librecomp/src/recomp.cpp: the buffer
-- that backs every kind of save. Flushing it to the file is the saving thread's work and is not
-- modelled: `writes` counts the signals that it gets. Bytes are unsigned here.
pub mod Bytes
pub mod Memory
use n64modern_runtime.Base.{
  ℕ, zero, suc, ◌+◌, Bool, true, false, Option, none, some, List, [], ◌∷◌, leb, if◌then◌else◌,
  length, set, get_or, take, replicate,
}
use n64modern_runtime.Base.Guest.{GuestMemory, load_bytes, store_bytes}

pub data SaveType : Type 0 where
  no_save eep4k eep16k sram flashram allow_all : SaveType

abbrev pub eeprom_allowed : SaveType → Bool
eeprom_allowed eep4k = true
eeprom_allowed eep16k = true
eeprom_allowed allow_all = true
eeprom_allowed t = false

abbrev pub sram_allowed : SaveType → Bool
sram_allowed sram = true
sram_allowed allow_all = true
sram_allowed t = false

abbrev pub flashram_allowed : SaveType → Bool
flashram_allowed flashram = true
flashram_allowed allow_all = true
flashram_allowed t = false

abbrev pub get_save_size : SaveType → ℕ
get_save_size allow_all = 0x20000
get_save_size flashram = 0x20000
get_save_size sram = 0x8000
get_save_size eep16k = 0x800
get_save_size eep4k = 0x200
get_save_size no_save = 0

pub record Save : Type 0 where
  pub save_buffer : List ℕ
  pub writes : ℕ

-- `memcpy` into the buffer, and out of it.
unfoldable pub write_at : List ℕ → ℕ → List ℕ → List ℕ
write_at buffer offset [] = buffer
write_at buffer offset (v ∷ vs) = write_at (set buffer offset v) (offset + 1) vs

unfoldable pub read_at : List ℕ → ℕ → ℕ → List ℕ
read_at buffer offset zero = []
read_at buffer offset (suc n) = get_or buffer offset 0 ∷ read_at buffer (offset + 1) n

-- The assertion of the save calls. Where its 32-bit sum wraps round it passes, and the access
-- leaves the buffer: that is out of bounds here too.
abbrev pub in_buffer : Save → ℕ → ℕ → Bool
in_buffer s offset count = leb (offset + count) (length s.save_buffer)

-- The bytes `in`; `none` where the assertion fails.
unfoldable pub save_write_ptr : Save → List ℕ → ℕ → Option Save
save_write_ptr s bytes offset =
    if in_buffer s offset (length bytes)
    then some (record { save_buffer = write_at s.save_buffer offset bytes; writes = s.writes + 1 })
    else none

unfoldable pub save_clear : Save → ℕ → ℕ → ℕ → Option Save
save_clear s start size value = save_write_ptr s (replicate size value) start

abbrev blank_value : SaveType → ℕ
blank_value flashram = 0xFF
blank_value t = 0

-- `read_save_file`, with the file's bytes, none of them if it cannot be opened.
unfoldable pub read_save_file : SaveType → Save → List ℕ → Save
read_save_file t s file =
    let size = length s.save_buffer in
    record s { save_buffer = write_at (replicate size (blank_value t)) 0 (take size file) }

module _ (G : GuestMemory) where
  unfoldable pub save_write : Save → G.Mem → ℕ → ℕ → ℕ → Option Save
  save_write s m rdram_address offset count =
      if in_buffer s offset count
      then save_write_ptr s (load_bytes G m rdram_address count) offset
      else none

  unfoldable pub save_read : Save → G.Mem → ℕ → ℕ → ℕ → Option G.Mem
  save_read s m rdram_address offset count =
      if in_buffer s offset count
      then some (store_bytes G m rdram_address (read_at s.save_buffer offset count))
      else none
