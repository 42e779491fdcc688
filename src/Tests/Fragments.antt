-- ===== src/Tests/Fragments.antt =====
-- The theorems on trampolines and fragments at concrete inputs.
use n64modern_runtime.Base.{
  ℕ, ◌+◌, ◌*◌, ◌≡◌, refl, inl, true, none, some, List, [], ◌∷◌, arith, ◌==◌, if◌then◌else◌, update,
}
use n64modern_runtime.Base.Int.{pos}
use n64modern_runtime.Overlays.{
  decode_jal_target, SectionTableEntry, LoadedSection, section_original_fragment_base,
  translate_link_time_to_runtime,
}
use n64modern_runtime.Overlays.Aliases.{FuncMap}
use n64modern_runtime.Overlays.Trampolines.{
  Scan, read_rdram_u32_be, func_entry_may_be_fragment_jump_slot, slot_target,
  func_entry_is_live_fragment_jump_slot, first_offset, has_magic, install_link_aliases,
  install_found, try_install_trampoline, scan_loaded_fragment_trampolines,
}
use n64modern_runtime.Overlays.Trampolines.Installed.{
  IsInstalled, try_install_trampoline-IsInstalled,
}
use n64modern_runtime.Overlays.Trampolines.Settled.{IsSettled}
use n64modern_runtime.Overlays.Trampolines.Scanned.{
  IsJumpSlot, slot_trampoline, scan_loaded_fragment_trampolines-settles,
}
use n64modern_runtime.Overlays.Fragments.{
  header_word, has_fragment_magic, frag_size_in_ram, header_link_vram, is_candidate, indices,
  find_first, extent_ok, candidates, by_content, among_candidates, by_header, by_size, found_index,
}
use n64modern_runtime.Overlays.Fragments.Register.{Fragments}
use n64modern_runtime.Overlays.Resolve.{
  smallest, recomp_lookup_fragment_offset, InputStack, librecomp_fragment_input_push,
  librecomp_fragment_input_pop, resolve_pattern,
}
use n64modern_runtime.Overlays.Resolve.Variants.{
  IsLookedUp, recomp_lookup_fragment_offset-IsSmallest, pop-push,
}
use n64modern_runtime.Overlays.Resolve.Pattern.{IsResolution, resolve_pattern-IsResolution}
use n64modern_runtime.Tests.Sections.{table, loaded_at, five_loaded}

-- A fragment at 0x80200000, whose first slot jumps to its own function at 0x200.
abbrev fragment_rdram : ℕ → ℕ
fragment_rdram a =
    if a == 0x20000B
    then 0x46
    else if a == 0x20000A
    then 0x52
    else if a == 0x200009
    then 0x41
    else if a == 0x200008
    then 0x47
    else if a == 0x20000F
    then 0x4D
    else if a == 0x20000E
    then 0x45
    else if a == 0x20000D
    then 0x4E
    else if a == 0x20000C
    then 0x54
    else if a == 0x200023
    then 0x09
    else if a == 0x200022
    then 0x14
    else if a == 0x200021
    then 0x00
    else if a == 0x200020
    then 0x80
    else 0

abbrev scanned : Scan
scanned = record { func_map = λ a. none; pending = [] }

five_slot : IsJumpSlot table five_loaded.loaded_sections fragment_rdram 0 (loaded_at 0x80200000 5)
unfolding has_magic read_rdram_u32_be slot_target decode_jal_target first_offset
    func_entry_is_live_fragment_jump_slot func_entry_may_be_fragment_jump_slot
    section_original_fragment_base
five_slot = (refl, omega arith, cc)

scan_loaded_fragment_trampolines-settles_example :
    IsSettled
      (slot_trampoline table five_loaded.loaded_sections fragment_rdram 0 (loaded_at 0x80200000 5))
      (scan_loaded_fragment_trampolines table five_loaded.loaded_sections fragment_rdram 0x6000
        0x800 scanned)
scan_loaded_fragment_trampolines-settles_example =
    scan_loaded_fragment_trampolines-settles table five_loaded.loaded_sections fragment_rdram 0x6000
      0x800 0 (loaded_at 0x80200000 5) scanned (inl refl) refl five_slot

-- A trampoline at 0x80200020 to the function at 0x100 of section 5.
abbrev one_func : FuncMap
one_func a = if 0x80200100 == a then some 11 else none

installs :
    try_install_trampoline table five_loaded.loaded_sections 0x80200020 0x84500100 one_func
    ≡ some (
        install_link_aliases table five_loaded.loaded_sections 0x80200020
          (some 11)
          five_loaded.loaded_sections
          (update one_func 0x80200020 (some 11)))
unfolding try_install_trampoline install_found translate_link_time_to_runtime
    section_original_fragment_base
installs = refl

try_install_trampoline-IsInstalled_example :
    IsInstalled table five_loaded.loaded_sections 0x80200020 0x84500100 one_func (
      install_link_aliases table five_loaded.loaded_sections 0x80200020
        (some 11)
        five_loaded.loaded_sections
        (update one_func 0x80200020 (some 11)))
try_install_trampoline-IsInstalled_example =
    try_install_trampoline-IsInstalled table five_loaded.loaded_sections 0x80200020 0x84500100
      one_func
      (install_link_aliases table five_loaded.loaded_sections 0x80200020 (some 11)
        five_loaded.loaded_sections (update one_func 0x80200020 (some 11)))
      installs

abbrev five_fragments : Fragments
five_fragments = record {
  loader = five_loaded;
  pending = [];
  live_range = λ i. none;
  synthetic = λ i. none;
  id_to_section = λ i. none;
}

-- The fragment with the id 0x32 is section 2, put where section 5 is.
two_found : found_index table 8 true (λ a. 0) 0x32 0x80200000 ≡ some 2
unfolding found_index candidates among_candidates by_header by_size by_content extent_ok
    frag_size_in_ram has_fragment_magic header_word read_rdram_u32_be indices is_candidate
    find_first header_link_vram
two_found = refl

-- Two variants of a bucket, of 0x400 and of 0x800 bytes.
abbrev variants : ℕ → SectionTableEntry
variants i = record {
  rom_addr = 0;
  ram_addr = 0x8FF00000;
  size = 0x400 + 0x400 * i;
  funcs = [];
  index = i;
  content_hash = 0;
  original_pattern_id = 0xFFFFFFFF;
}

abbrev both_variants : List LoadedSection
both_variants = loaded_at 0x80100000 1 ∷ loaded_at 0x80200000 0 ∷ []

recomp_lookup_fragment_offset-IsSmallest_example :
    IsLookedUp variants 0x8FF00010
      (recomp_lookup_fragment_offset variants 0x8FF00010 both_variants)
      both_variants
recomp_lookup_fragment_offset-IsSmallest_example =
    recomp_lookup_fragment_offset-IsSmallest variants 0x8FF00010 both_variants
      (omega arith, (omega arith, tt))

smaller_found : recomp_lookup_fragment_offset variants 0x8FF00010 both_variants ≡ 0x80200010
unfolding recomp_lookup_fragment_offset smallest
smaller_found = refl

resolve_pattern-IsResolution_example :
    IsResolution variants 0x8FF00010 0x80000000 0x80100020
      (resolve_pattern variants 0x8FF00010 0x80000000 0x80100020 both_variants)
      both_variants
resolve_pattern-IsResolution_example =
    resolve_pattern-IsResolution variants 0x8FF00010 0x80000000 0x80100020 both_variants

pop-push_example :
    (t : InputStack) × (librecomp_fragment_input_push 0x8FF00010
        (record { slots = λ i. 0; sp = pos 3 })
      ≡ some t)
    × ((librecomp_fragment_input_pop t).0 ≡ 0x8FF00010)
    × ((librecomp_fragment_input_pop t).1.sp ≡ pos 3)
pop-push_example = pop-push 0x8FF00010 3 (λ i. 0) (omega arith)
