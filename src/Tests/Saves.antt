-- ===== src/Tests/Saves.antt =====
-- The theorems on saves at concrete inputs.
use n64modern_runtime.Base.{
  ℕ, ◌+◌, ◌<◌, ◌≡◌, refl, ◌≢◌, List, [], ◌∷◌, ◌++◌, arith, length, All, replicate, length-replicate,
}
use n64modern_runtime.Base.Guest.{flat_memory, load_bytes}
use n64modern_runtime.MathRoutines.{join64}
use n64modern_runtime.Save.{Save, sram, eep4k}
use n64modern_runtime.Pi.Program.{IsFlash}
use n64modern_runtime.Pi.Registers.{flash_size, flash_page_size, FlashRam, sram_base, read_array}
use n64modern_runtime.Eeprom.{os_eeprom_write, os_eeprom_read, returns}
use n64modern_runtime.Save.Memory.{IsByte}
use n64modern_runtime.Pi.{PiFillEvent, Pi, do_dma, done}
use n64modern_runtime.Pi.Transfer.{completion, do_dma-do_dma}
use n64modern_runtime.Eeprom.RoundTrip.{os_eeprom_read-write}

abbrev small_save : Save
small_save = record { save_buffer = replicate 16 0; writes = 0 }

seven : 7 < 256
seven = omega arith

sevens : All IsByte (load_bytes flat_memory (λ a. 7) 100 8)
unfolding load_bytes
sevens = (seven, (seven, (seven, (seven, (seven, (seven, (seven, (seven, tt))))))))

os_eeprom_write-read_example :
    (s' : Save) × (m' : ℕ → ℕ) × (os_eeprom_write flat_memory eep4k small_save (λ a. 7) 1 100
      ≡ returns s')
    × (os_eeprom_read flat_memory eep4k s' (λ a. 7) 1 200 ≡ returns m')
    × (load_bytes flat_memory m' 200 8 ≡ load_bytes flat_memory (λ a. 7) 100 8)
    × (length s'.save_buffer ≡ length small_save.save_buffer)
os_eeprom_write-read_example =
    os_eeprom_read-write flat_memory eep4k small_save (λ a. 7) 1 100 200 refl (omega arith) sevens

abbrev blank_page : List ℕ
blank_page = replicate flash_page_size 0x33

abbrev chip : FlashRam
chip = record {
  mode = read_array;
  flash_status = 0;
  pending_erase_page = 0;
  write_buffer = blank_page;
  save = record { save_buffer = replicate flash_size 0; writes = 0 };
}

chip-IsFlash : IsFlash chip
chip-IsFlash = record {
  chip = length-replicate {A = ℕ} flash_size 0;
  page = length-replicate {A = ℕ} flash_page_size 0x33;
}

ten : join64 0 10 ≢ 0
unfolding join64
ten = omega arith

abbrev no_fill : PiFillEvent
no_fill = record { seq = 0; ms = 0; dram = 0; rom = 0; size = 0 }

abbrev small_pi : Pi (ℕ → ℕ)
small_pi = record {
  mem = λ a. 7;
  rom = [];
  flash = record chip { save = small_save };
  fills = λ i. no_fill;
  fill_seq = 0;
  overlays = [];
  completions = [];
  now_ms = 0;
}

do_dma-do_dma_example :
    (p₁ : Pi (ℕ → ℕ)) × (p₂ : Pi (ℕ → ℕ)) × (do_dma flat_memory sram small_pi 5 100
        (sram_base + 4)
        8
        1
      ≡ done p₁)
    × (do_dma flat_memory sram p₁ 5 200 (sram_base + 4) 8 0 ≡ done p₂)
    × (load_bytes flat_memory p₂.mem 200 8 ≡ load_bytes flat_memory (λ a. 7) 100 8)
    × (p₂.completions
        ≡ ([] ++ completion 5 (sram_base + 4) 8 ∷ []) ++ completion 5 (sram_base + 4) 8 ∷ [])
do_dma-do_dma_example =
    do_dma-do_dma flat_memory small_pi 5 100 200 4 8 (omega arith) (omega arith) sevens
