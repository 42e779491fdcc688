-- ===== src/Overlays/Trampolines.antt =====
-- librecomp/src/overlays.cpp: the jump slots at the start of a fragment, which lead to functions of
-- other sections.
pub mod Installed
pub mod Scanned
pub mod Settled
use n64modern_runtime.Base.{
  ℕ, zero, suc, ◌+◌, ◌-◌, ◌*◌, ◌/◌, ◌%◌, ◌^◌, Bool, not, ◌&&◌, Option, none, some, List, [], ◌∷◌,
  ◌++◌, ltb, leb, ◌==◌, if◌then◌else◌, update,
}
use n64modern_runtime.Base.Bits.{u8, u32, low_bits}
use n64modern_runtime.Overlays.{
  decode_jal_target, FuncEntry, SectionTableEntry, LoadedSection, section_original_fragment_base,
  translate_link_time_to_runtime,
}
use n64modern_runtime.Overlays.Aliases.{FuncMap, at_original}
use n64modern_runtime.Overlays.Dma.{signed_gt}

pub record PendingTrampoline : Type 0 where
  pub trampoline_runtime_addr : ℕ
  pub link_time_target : ℕ

-- The function map and `pending_trampolines`; the scan changes nothing else.
pub record Scan : Type 0 where
  pub func_map : FuncMap
  pub pending : List PendingTrampoline

-- `x ^ 3`
abbrev pub xor3 : ℕ → ℕ
xor3 x = x / 4 * 4 + (3 - x % 4)

-- The memory holds the bytes of a word in the order of the host.
unfoldable pub read_rdram_u32_be : (rdram : ℕ → ℕ) (vaddr : ℕ) → ℕ
read_rdram_u32_be rdram vaddr =
    let paddr = vaddr % 2 ^ 29 in
    let byte : ℕ → ℕ = λ i. u8 (rdram (xor3 (paddr + i))) in
    byte 0 * 2 ^ 24 + byte 1 * 2 ^ 16 + byte 2 * 2 ^ 8 + byte 3

unfoldable pub func_entry_may_be_fragment_jump_slot : FuncEntry → Bool
func_entry_may_be_fragment_jump_slot f =
    leb 0x20 f.offset && ((low_bits f.offset 3 == 0) && (f.rom_size == 8))

-- The jump of a slot: its target, or 0 when the slot is none.
unfoldable pub slot_target : (rdram : ℕ → ℕ) (runtime_base decode_base slot_off : ℕ) → ℕ
unfolding read_rdram_u32_be decode_jal_target
slot_target rdram runtime_base decode_base slot_off =
    let instr = read_rdram_u32_be rdram (u32 (runtime_base + slot_off)) in
    let delay = read_rdram_u32_be rdram (u32 (runtime_base + slot_off + 4)) in
    if not (delay == 0) then 0 else decode_jal_target instr (u32 (decode_base + slot_off + 4))

-- A function of the table that is only a jump of the fragment: `J` alone, not `JAL`.
unfoldable pub func_entry_is_live_fragment_jump_slot :
    (rdram : ℕ → ℕ) → SectionTableEntry → (runtime_base : ℕ) → FuncEntry → Bool
unfolding read_rdram_u32_be func_entry_may_be_fragment_jump_slot decode_jal_target
func_entry_is_live_fragment_jump_slot rdram section runtime_base f =
    let instr = read_rdram_u32_be rdram (u32 (runtime_base + f.offset)) in
    let delay = read_rdram_u32_be rdram (u32 (runtime_base + f.offset + 4)) in
    let target = decode_jal_target instr (u32 (section.ram_addr + f.offset + 4)) in
    func_entry_may_be_fragment_jump_slot f
    && ((delay == 0) && ((instr / 2 ^ 26 % 64 == 0x02) && not (target == 0)))

-- The smallest offset, but 0, of the functions that a test does not pass over.
unfoldable pub first_offset : (FuncEntry → Bool) → List FuncEntry → (least : ℕ) → ℕ
first_offset passed [] least = least
first_offset passed (f ∷ l) least =
    first_offset passed l
      (if passed f then least else if ltb 0 f.offset && ltb f.offset least then f.offset else least)

-- "FRAGMENT" behind the first two words.
unfoldable pub has_magic : (rdram : ℕ → ℕ) (runtime_base : ℕ) → Bool
unfolding read_rdram_u32_be
has_magic rdram runtime_base =
    (read_rdram_u32_be rdram (u32 (runtime_base + 8)) == 0x46524147)
    && (read_rdram_u32_be rdram (u32 (runtime_base + 12)) == 0x4D454E54)

abbrev pub base_or : ℕ → Option ℕ → ℕ
base_or ram_addr none = ram_addr
base_or ram_addr (some base) = base

module _ (sections : ℕ → SectionTableEntry) (loaded_sections : List LoadedSection) where
  -- The link-time names of a trampoline, by the first section whose memory it lies in; the
  -- comparisons are of `int32_t`.
  unfoldable pub install_link_aliases :
      (addr : ℕ) → Option ℕ → List LoadedSection → FuncMap → FuncMap
  unfolding section_original_fragment_base
  install_link_aliases addr f [] m = m
  install_link_aliases addr f (ls ∷ l) m =
      let rest = install_link_aliases addr f l m in
      let sec = sections ls.section_table_index in
      let off = u32 (addr + (2 ^ 32 - ls.loaded_ram_addr)) in
      let link_time_vram = u32 (sec.ram_addr + off) in
      if not (signed_gt ls.loaded_ram_addr addr)
        && signed_gt (u32 (ls.loaded_ram_addr + sec.size)) addr
      then if not (link_time_vram == addr)
        then at_original (section_original_fragment_base sec) off f (update m link_time_vram f)
        else m
      else rest

  unfoldable pub install_found : (addr : ℕ) → Option ℕ → FuncMap → Option FuncMap
  unfolding install_link_aliases
  install_found addr none m = none
  install_found addr (some f) m =
      some (install_link_aliases addr (some f) loaded_sections (update m addr (some f)))

  -- `none` stands for `false`, which leaves the map as it is.
  unfoldable pub try_install_trampoline : (addr link_time_target : ℕ) → FuncMap → Option FuncMap
  unfolding install_found translate_link_time_to_runtime
  try_install_trampoline addr link_time_target m =
      let runtime_target =
        translate_link_time_to_runtime sections loaded_sections link_time_target in
      if runtime_target == 0 then none else install_found addr (m runtime_target) m

  abbrev pub or_keep : PendingTrampoline → Option FuncMap → Scan → Scan
  or_keep t none s = record s { pending = s.pending ++ t ∷ [] }
  or_keep t (some m) s = record s { func_map = m }

  -- An attempt: installed, or at the end of the pending ones.
  unfoldable pub attempt : PendingTrampoline → Scan → Scan
  unfolding try_install_trampoline
  attempt t s =
      or_keep t (try_install_trampoline t.trampoline_runtime_addr t.link_time_target s.func_map) s

  -- The walk erases what it installs and leaves the others in their order.
  unfoldable pub retry_each : List PendingTrampoline → Scan → Scan
  unfolding attempt
  retry_each [] s = s
  retry_each (t ∷ l) s = retry_each l (attempt t s)

  unfoldable pub retry_pending_trampolines : Scan → Scan
  unfolding retry_each
  retry_pending_trampolines s = retry_each s.pending (record s { pending = [] })

  unfoldable pub scan_slots :
      (rdram : ℕ → ℕ) (runtime_base decode_base slot_off count : ℕ) → Scan → Scan
  unfolding attempt slot_target
  scan_slots rdram base decode slot_off zero s = s
  scan_slots rdram base decode slot_off (suc n) s =
      let target = slot_target rdram base decode slot_off in
      let t : PendingTrampoline = record {
        trampoline_runtime_addr = u32 (base + slot_off);
        link_time_target = target;
      } in
      scan_slots rdram base decode (slot_off + 8) n (if target == 0 then s else attempt t s)

  unfoldable pub scan_fragment_section_trampolines :
      (rdram : ℕ → ℕ) (section_index runtime_base : ℕ) → Scan → Scan
  unfolding scan_slots has_magic first_offset func_entry_is_live_fragment_jump_slot
      section_original_fragment_base
  scan_fragment_section_trampolines rdram i base s =
      let section = sections i in
      let first =
        first_offset (func_entry_is_live_fragment_jump_slot rdram section base) section.funcs
          section.size in
      let decode = base_or section.ram_addr (section_original_fragment_base section) in
      if not (has_magic rdram base)
      then s
      else scan_slots rdram base decode 0x20 ((first - 0x20) / 8) s

  -- The sections that overlap a read of the ROM.
  unfoldable pub scan_loaded : (rdram : ℕ → ℕ) (rom size : ℕ) → List LoadedSection → Scan → Scan
  unfolding scan_fragment_section_trampolines
  scan_loaded rdram rom size [] s = s
  scan_loaded rdram rom size (ls ∷ l) s =
      let sec = sections ls.section_table_index in
      scan_loaded rdram rom size l (
        if ltb sec.rom_addr (u32 (rom + size)) && ltb rom (u32 (sec.rom_addr + sec.size))
        then scan_fragment_section_trampolines rdram ls.section_table_index ls.loaded_ram_addr s
        else s)

  unfoldable pub scan_loaded_fragment_trampolines : (rdram : ℕ → ℕ) (rom size : ℕ) → Scan → Scan
  unfolding scan_loaded retry_pending_trampolines
  scan_loaded_fragment_trampolines rdram rom size s =
      retry_pending_trampolines (scan_loaded rdram rom size loaded_sections s)
