-- ===== src/Tests/Sections.antt =====
-- The theorems on the loading of sections at concrete inputs.
use n64modern_runtime.Base.{
  ℕ, ◌+◌, ◌*◌, ◌≡◌, refl, inl, inr, true, false, Option, none, some, List, [], ◌∷◌, arith, ◌==◌,
  if◌then◌else◌, Bool-cases, All,
}
use n64modern_runtime.Overlays.Functions.Loaded.{get_func_by_section_rom_function_vram-load_overlay}
use n64modern_runtime.Overlays.Functions.{
  find_func, get_func_entry_by_section_index_function_offset, func_of_entry,
  get_func_by_section_index_function_offset, func_of_section, get_func_by_section_rom_function_vram,
}
use n64modern_runtime.Overlays.Adjacent.{unload_overlays-adjacent}
use n64modern_runtime.Overlays.Unload.{unload-load_overlay}
use n64modern_runtime.Overlays.PcIndex.Lookup.{IsAnswer, pc_index_lookup-IsAnswer}
use n64modern_runtime.Overlays.PcIndex.{PcIndex, pc_index_rebuild_if_dirty, pc_index_lookup}
use n64modern_runtime.Overlays.{
  FuncEntry, SectionTableEntry, LoadedSection, section_original_fragment_base,
}
use n64modern_runtime.Overlays.Loader.{
  Loader, find_section, erase_found, record_load_order, load_overlay, unload_found,
  unload_overlay_by_section_index,
}
use n64modern_runtime.Overlays.Dma.{
  runtime_ranges_overlap, bound, overlapping, evict_rounds, evict_overlapping_sections,
  register_found, register_if_new, register_wholly_inside, register_containing, unload_overlays,
  register_first_chunk, load_overlays,
}
use n64modern_runtime.Overlays.Evict.{IsClearOf, evict_overlapping_sections-IsClearOf}
use n64modern_runtime.Overlays.Residency.{IsSeparate}
use n64modern_runtime.Overlays.Reads.{load_overlays-IsSeparate}
use n64modern_runtime.Overlays.Addresses.{
  IsAligned, TracksLoaded, HasAlignedLinks, IsConsistent, load_overlays-IsConsistent,
}
use n64modern_runtime.Overlays.Places.{IsPlaced}
use n64modern_runtime.Overlays.Dispatch.{LeadsTo, IsElsewhere, load_overlay-LeadsTo, is_inside}

-- Sections of 2 KiB, 4 KiB apart in the ROM, with two functions each.
abbrev pub two_funcs : List FuncEntry
two_funcs =
    record { func = 11; offset = 0x100; rom_size = 0x40 }
    ∷ record { func = 12; offset = 0x200; rom_size = 0x80 }
    ∷ []

abbrev pub table : ℕ → SectionTableEntry
table i = record {
  rom_addr = 0x1000 + 0x1000 * i;
  ram_addr = 0x84000000 + 0x100000 * i;
  size = 0x800;
  funcs = two_funcs;
  index = i;
  content_hash = 0;
  original_pattern_id = 0xFFFFFFFF;
}

table_links : HasAlignedLinks table
table_links i = omega arith

table_roms : (i : ℕ) → IsAligned (table i).rom_addr
table_roms i = omega arith

abbrev pub loaded_at : ℕ → ℕ → LoadedSection
loaded_at ram i = record { loaded_ram_addr = ram; section_table_index = i }

-- Section 5 is loaded.
abbrev pub five_loaded : Loader
five_loaded = record {
  func_map = λ a. none;
  loaded_sections = loaded_at 0x80200000 5 ∷ [];
  section_addresses = λ i. if 5 == i then 0x80200000 else 0x84000000 + 0x100000 * i;
  section_load_order = λ i. 0;
  next_load_order = 1;
  pc_index = record { ranges = []; dirty = false };
}

five_tracked : TracksLoaded table five_loaded
unfolding find_section
five_tracked j = elim (Bool-cases (5 == j)) [ inl e ↦ rw e refl | inr e ↦ rw e refl ]

-- A read that brings section 2 to where section 5 is.
load_overlays-IsSeparate_example :
    IsSeparate table true (load_overlays table 8 true 0x3000 0x80200000 0x1000 five_loaded)
load_overlays-IsSeparate_example =
    load_overlays-IsSeparate table 8 true 0x3000 0x80200000 0x1000 five_loaded (tt, tt)

load_overlays-IsConsistent_example :
    IsConsistent table
      (λ i j h. h)
      table_links
      true
      (load_overlays table 8 true 0x3000 0x80200000 0x1000 five_loaded)
load_overlays-IsConsistent_example =
    load_overlays-IsConsistent table (λ i j h. h) table_links true 8 0x3000 0x80200000 0x1000
      five_loaded table_roms refl refl ((tt, tt), five_tracked)

evict_overlapping_sections-IsClearOf_example :
    All
      (IsClearOf table 2 0x80200400)
      (evict_overlapping_sections table true 2 0x80200400 five_loaded).loaded_sections
evict_overlapping_sections-IsClearOf_example =
    evict_overlapping_sections-IsClearOf table true 2 0x80200400 five_loaded

only_two :
    (load_overlays table 8 true 0x3000 0x80200000 0x1000 five_loaded).loaded_sections
    ≡ loaded_at 0x80200000 2 ∷ []
unfolding load_overlays register_first_chunk register_containing register_wholly_inside
    register_if_new evict_overlapping_sections evict_rounds register_found bound overlapping
    runtime_ranges_overlap load_overlay record_load_order unload_overlay_by_section_index
    unload_found find_section erase_found
only_two = refl

two-IsPlaced : IsPlaced (table 2) 0x80300000
unfolding section_original_fragment_base
two-IsPlaced = (omega arith, omega arith, inr (inl (omega arith)), tt)

load_overlay-LeadsTo_example :
    All
      (LeadsTo (table 2) 0x80300000 (load_overlay table 2 0x80300000 five_loaded).func_map)
      two_funcs
load_overlay-LeadsTo_example =
    load_overlay-LeadsTo table 2 0x80300000 five_loaded two-IsPlaced (omega arith)

unload-load_overlay_example :
    ((unload_overlay_by_section_index table true 2
        (load_overlay table 2 0x80300000 five_loaded)).loaded_sections
      ≡ five_loaded.loaded_sections)
    × ((a : ℕ)
        → IsElsewhere (table 2) 0x80300000 a
        → is_inside 0x80300000 0x800 a ≡ false
        → (unload_overlay_by_section_index table true 2
              (load_overlay table 2 0x80300000 five_loaded)).func_map
            a
          ≡ five_loaded.func_map a)
    × ((a : ℕ)
        → true ≡ true
        → is_inside 0x80300000 0x800 a ≡ true
        → (unload_overlay_by_section_index table true 2
              (load_overlay table 2 0x80300000 five_loaded)).func_map
            a
          ≡ none)
unload-load_overlay_example =
    unload-load_overlay table 2 0x80300000 five_loaded true (omega arith, tt) (omega arith)

unload_overlays-adjacent_example : unload_overlays table true 0x801FF000 0x1000 five_loaded ≡ none
unload_overlays-adjacent_example =
    unload_overlays-adjacent table true 0x801FF000 0x1000 (loaded_at 0x80200000 5) five_loaded
      (omega arith, refl, omega arith, omega arith) (inl refl)

abbrev two_ranges : PcIndex
two_ranges = record {
  ranges =
      record { host_pc = 0x9000; section_index = 4 }
      ∷ record { host_pc = 0x5000; section_index = 3 }
      ∷ [];
  dirty = true;
}

found_three : pc_index_lookup 0x5010 two_ranges ≡ some 3
unfolding pc_index_lookup pc_index_rebuild_if_dirty
found_three = refl

pc_index_lookup-IsAnswer_example :
    IsAnswer 0x5010 (pc_index_lookup 0x5010 two_ranges) two_ranges.ranges
pc_index_lookup-IsAnswer_example =
    pc_index_lookup-IsAnswer 0x5010 two_ranges (λ e. absurd (ground (arith, e)))

abbrev by_rom : ℕ → Option ℕ
by_rom rom = if rom == 0x3000 then some 2 else none

named_eleven :
    get_func_by_section_rom_function_vram table 8 by_rom (λ a. none) 100 0x3000 0x84200100 ≡ 11
unfolding get_func_by_section_rom_function_vram func_of_section
    get_func_by_section_index_function_offset get_func_entry_by_section_index_function_offset
    func_of_entry find_func
named_eleven = refl

get_func_by_section_rom_function_vram-load_overlay_example :
    (load_overlay table 2 0x80300000 five_loaded).func_map 0x84200100 ≡ some 11
get_func_by_section_rom_function_vram-load_overlay_example =
    get_func_by_section_rom_function_vram-load_overlay table 8 by_rom (λ a. none) 100 2 0x3000
      0x84200100 11 0x80300000 five_loaded two-IsPlaced (omega arith)
      (λ e. absurd (ground (arith, e))) refl (omega arith) (omega arith)
      (λ e. absurd (ground (arith, e))) named_eleven
