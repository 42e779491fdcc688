-- ===== src/Flash.antt =====
-- librecomp/src/flash.cpp: the high-level FlashRAM calls. Each of them ends the program when the
-- save type has no FlashRAM (`require_flashram_save`). The completion messages, `osSendMesg` of 0
-- without blocking, are kept as the list of the queues that they went to.
use n64modern_runtime.Base.{ℕ, ◌*◌, Option, none, some, List, [], ◌∷◌, ◌++◌, leb, if◌then◌else◌}
use n64modern_runtime.Base.Bits.{u32}
use n64modern_runtime.Base.Guest.{GuestMemory, load_bytes}
use n64modern_runtime.Base.Int.{ℤ, pos, negsuc}
use n64modern_runtime.Save.{SaveType, flashram_allowed, Save, save_write_ptr, save_clear, save_read}

abbrev pub page_size : ℕ
page_size = 128

abbrev pub page_count : ℕ
page_count = 1024

-- `ultramodern::save_size`
abbrev pub save_size : ℕ
save_size = 0x20000

pub record Flash (M : Type 0) : Type 0 where
  pub mem : M
  pub save : Save
  pub write_buffer : List ℕ
  pub completed : List ℕ

-- `quits`: the message box and the exit. `failed_assertion`: an access outside of the save buffer,
-- or a call that the runtime does not have. `value` is the register r2.
pub data Result (M : Type 0) : Type 0 where
  returns : ℤ → Flash M → Result M
  quits : Result M
  failed_assertion : Result M

abbrev pub require_flashram_save : {M : Type 0} → SaveType → Result M → Result M
require_flashram_save t r = if flashram_allowed t then r else quits

abbrev with_save : {M : Type 0} → Flash M → Option Save → Result M
with_save f none = failed_assertion
with_save f (some s) = returns (pos 0) (record f { save = s })

abbrev complete : {M : Type 0} → Flash M → ℕ → Flash M
complete f mq = record f { completed = f.completed ++ mq ∷ [] }

unfoldable pub os_flash_all_erase : {M : Type 0} → SaveType → Flash M → Result M
os_flash_all_erase t f = require_flashram_save t (with_save f (save_clear f.save 0 save_size 0xFF))

-- `page_num` is a 32-bit register; -1 refuses it.
unfoldable pub flash_erase_page : {M : Type 0} → Flash M → ℕ → Result M
flash_erase_page f page_num =
    if leb page_count page_num
    then returns (negsuc 0) f
    else with_save f (save_clear f.save (page_num * page_size) page_size 0xFF)

unfoldable pub os_flash_sector_erase : {M : Type 0} → SaveType → Flash M → ℕ → Result M
os_flash_sector_erase t f page_num = require_flashram_save t (flash_erase_page f page_num)

-- The product is of 32-bit unsigned numbers.
unfoldable pub os_flash_write_array : {M : Type 0} → SaveType → Flash M → ℕ → Result M
os_flash_write_array t f page_num =
    require_flashram_save t
      (with_save f (save_write_ptr f.save f.write_buffer (u32 (page_num * page_size))))

module _ (G : GuestMemory) where
  unfoldable pub os_flash_write_buffer : SaveType → Flash G.Mem → ℕ → ℕ → Result G.Mem
  os_flash_write_buffer t f dram mq =
      let filled = record f { write_buffer = load_bytes G f.mem dram page_size } in
      require_flashram_save t (returns (pos 0) (complete filled mq))

  unfoldable pub os_flash_read_array : SaveType → Flash G.Mem → ℕ → ℕ → ℕ → ℕ → Result G.Mem
  os_flash_read_array t f page_num dram n_pages mq =
      let offset = u32 (page_num * page_size) in
      let count = u32 (n_pages * page_size) in
      require_flashram_save t (elim (save_read G f.save f.mem dram offset count) [
        | none ↦ failed_assertion
        | some m ↦ returns (pos 0) (complete (record f { mem = m }) mq)
      ])

  unfoldable pub os_flash_read_status : SaveType → Flash G.Mem → ℕ → ℤ → Result G.Mem
  os_flash_read_status t f flash_status r2 =
      require_flashram_save t (returns r2 (record f { mem = G.set_mem_b f.mem flash_status 0 }))

  unfoldable pub os_flash_read_id : SaveType → Flash G.Mem → ℕ → ℕ → ℤ → Result G.Mem
  os_flash_read_id t f flash_type flash_maker r2 =
      let m = G.set_mem_w f.mem flash_type 0x11118001 in
      require_flashram_save t (returns r2 (record f { mem = G.set_mem_w m flash_maker 0x00C2001D }))
