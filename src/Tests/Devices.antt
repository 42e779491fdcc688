-- ===== src/Tests/Devices.antt =====
-- The theorems on section addresses and on ROM files, and the RSP status register, at concrete
-- inputs.
use n64modern_runtime.Base.{
  ℕ, ◌+◌, ◌*◌, ◌≡◌, refl, Bool, true, false, ◌||◌, some, List, [], ◌∷◌, ◌==◌,
}
use n64modern_runtime.Overlays.{
  SectionTableEntry, LoadedSection, section_original_fragment_base, translate_link_time_to_runtime,
}
use n64modern_runtime.Rsp.Status.{settle, written}
use n64modern_runtime.Rom.{GameEntry, byteswap_data, select_rom}
use n64modern_runtime.Rom.Order.{
  start_bytes, select_rom-byteswap_data, IsNotYet, select_rom-IsNotYet, swap4,
}

-- Halted, with signal 3 set; the write clears the halt, clears signal 3 and sets signal 0.
abbrev halted : ℕ → Bool
halted i = (i == 0) || (i == 10)

abbrev resume : ℕ → Bool
resume i = (i == 0) || ((i == 15) || (i == 10))

signals_after :
    (written halted resume 10 ≡ false)
    × (written halted resume 7 ≡ true)
    × (written halted resume 0 ≡ false)
unfolding written settle
signals_after = (refl, refl, refl)

-- The section i is linked 16 MiB apart from its neighbours.
abbrev linked : ℕ → SectionTableEntry
linked i = record {
  rom_addr = 0x1000;
  ram_addr = 0x84000000 + i * 0x1000000;
  size = 0x1000;
  funcs = [];
  index = i;
  content_hash = 0;
  original_pattern_id = 0xFFFFFFFF;
}

abbrev one_section : List LoadedSection
one_section = record { loaded_ram_addr = 0x80200000; section_table_index = 0 } ∷ []

translated : translate_link_time_to_runtime linked one_section 0x84000010 ≡ 0x80200010
unfolding translate_link_time_to_runtime section_original_fragment_base
translated = refl

-- One word behind the first one.
abbrev small_rom : List ℕ
small_rom = 1 ∷ 2 ∷ 3 ∷ 4 ∷ []

abbrev some_game : GameEntry
some_game = record { rom_hash = 7; internal_name = 65 ∷ []; is_enabled = true }

select_rom-byteswap_data_example :
    select_rom (λ l h. true) (some some_game) (byteswap_data 3 (start_bytes small_rom))
    ≡ select_rom (λ l h. true) (some some_game) (start_bytes small_rom)
select_rom-byteswap_data_example =
    select_rom-byteswap_data (λ l h. true) (some some_game) swap4 small_rom tt

select_rom-IsNotYet_example :
    ¬ (IsNotYet (select_rom (λ l h. false) (some some_game) (start_bytes small_rom)))
select_rom-IsNotYet_example =
    select_rom-IsNotYet (λ l h. false) (some some_game) (start_bytes small_rom)
