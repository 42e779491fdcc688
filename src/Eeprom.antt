-- ===== src/Eeprom.antt =====
-- librecomp/src/eep.cpp: the EEPROM calls. A block index is a byte, so the offset needs no
-- wrap-around; a byte count is an `int32_t` that is not negative here.
pub mod RoundTrip
use n64modern_runtime.Base.{ℕ, ◌*◌, ◌%◌, Option, none, some, ◌==◌, if◌then◌else◌}
use n64modern_runtime.Base.Bits.{u8}
use n64modern_runtime.Base.Guest.{GuestMemory}
use n64modern_runtime.Save.{
  SaveType, eeprom_allowed, Save, save_write, save_read, eep4k, eep16k, allow_all,
}

abbrev pub eeprom_block_size : ℕ
eeprom_block_size = 8

-- `quits`: the message box and the exit; otherwise r2 is 0.
pub data Result (A : Type 0) : Type 0 where
  returns : A → Result A
  quits : Result A
  failed_assertion : Result A

abbrev from_option : {A : Type 0} → Option A → Result A
from_option none = failed_assertion
from_option (some a) = returns a

abbrev pub require_eeprom_save : {A : Type 0} → SaveType → Result A → Result A
require_eeprom_save t r = if eeprom_allowed t then r else quits

abbrev pub eeprom_byte_offset : ℕ → ℕ
eeprom_byte_offset block_index = u8 block_index * eeprom_block_size

-- The EEPROM's type in r2.
abbrev pub os_eeprom_probe : SaveType → ℕ
os_eeprom_probe allow_all = 0x02
os_eeprom_probe eep16k = 0x02
os_eeprom_probe eep4k = 0x01
os_eeprom_probe t = 0x00

module _ (G : GuestMemory) where
  unfoldable pub os_eeprom_long_write : SaveType → Save → G.Mem → ℕ → ℕ → ℕ → Result Save
  os_eeprom_long_write t s m block_index buffer nbytes =
      let r = from_option (save_write G s m buffer (eeprom_byte_offset block_index) nbytes) in
      require_eeprom_save t (if nbytes % eeprom_block_size == 0 then r else failed_assertion)

  unfoldable pub os_eeprom_write : SaveType → Save → G.Mem → ℕ → ℕ → Result Save
  os_eeprom_write t s m block_index buffer =
      require_eeprom_save t
        (from_option (save_write G s m buffer (eeprom_byte_offset block_index) eeprom_block_size))

  unfoldable pub os_eeprom_long_read : SaveType → Save → G.Mem → ℕ → ℕ → ℕ → Result G.Mem
  os_eeprom_long_read t s m block_index buffer nbytes =
      let r = from_option (save_read G s m buffer (eeprom_byte_offset block_index) nbytes) in
      require_eeprom_save t (if nbytes % eeprom_block_size == 0 then r else failed_assertion)

  unfoldable pub os_eeprom_read : SaveType → Save → G.Mem → ℕ → ℕ → Result G.Mem
  os_eeprom_read t s m block_index buffer =
      require_eeprom_save t
        (from_option (save_read G s m buffer (eeprom_byte_offset block_index) eeprom_block_size))
