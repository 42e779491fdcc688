-- ===== src/Overlays/Trampolines/Scanned.antt =====
-- The jump slots of the fragments that a read of the ROM brings in.
use n64modern_runtime.Base.{
  ℕ, ◌+◌, ◌-◌, ◌*◌, ◌/◌, ◌<◌, ◌≡◌, refl, ◌≢◌, inl, inr, Bool, true, not, ◌&&◌, List, [], ◌∷◌, arith,
  ltb, if_cases, IsIn,
}
use mathlib.Core.Path.{subst}
use n64modern_runtime.Base.Bits.{u32}
use n64modern_runtime.Overlays.{SectionTableEntry, LoadedSection, section_original_fragment_base}
use n64modern_runtime.Overlays.Trampolines.{
  PendingTrampoline, Scan, slot_target, func_entry_is_live_fragment_jump_slot, first_offset,
  has_magic, base_or, scan_fragment_section_trampolines, scan_loaded,
  scan_loaded_fragment_trampolines,
}
use n64modern_runtime.Overlays.Trampolines.Settled.{
  IsSettled, retry_pending_trampolines-IsSettled, scan_slots-IsSettled, trampoline_at,
  scan_slots-settles,
}

module _ (sections : ℕ → SectionTableEntry) (loaded : List LoadedSection) where
  -- The number of slots, and the base of their jumps.
  abbrev pub slot_count : (rdram : ℕ → ℕ) → SectionTableEntry → (base : ℕ) → ℕ
  slot_count rdram section base =
      (first_offset (func_entry_is_live_fragment_jump_slot rdram section base) section.funcs
          section.size
        - 0x20)
      / 8

  abbrev pub decode_base : SectionTableEntry → ℕ
  decode_base section = base_or section.ram_addr (section_original_fragment_base section)

  scan_fragment_section_trampolines-IsSettled :
      (rdram : ℕ → ℕ) (t : PendingTrampoline) (i base : ℕ) (s : Scan)
      → IsSettled t s
      → IsSettled t (scan_fragment_section_trampolines sections loaded rdram i base s)
  unfolding scan_fragment_section_trampolines
  scan_fragment_section_trampolines-IsSettled rdram t i base s h =
      if_cases (IsSettled t) (not (has_magic rdram base)) (λ _. h)
        (λ _.
          scan_slots-IsSettled sections loaded rdram t base (decode_base (sections i)) 0x20
            (slot_count rdram (sections i) base) s h)

  scan_fragment_section_trampolines-settles :
      (rdram : ℕ → ℕ) (i base k : ℕ) (s : Scan)
      → has_magic rdram base ≡ true
      → k < slot_count rdram (sections i) base
      → slot_target rdram base (decode_base (sections i)) (0x20 + 8 * k) ≢ 0
      → IsSettled
          (trampoline_at sections loaded rdram base (decode_base (sections i)) (0x20 + 8 * k))
          (scan_fragment_section_trampolines sections loaded rdram i base s)
  unfolding scan_fragment_section_trampolines
  scan_fragment_section_trampolines-settles rdram i base k s magic h jumps =
      if_cases
        (IsSettled
          (trampoline_at sections loaded rdram base (decode_base (sections i)) (0x20 + 8 * k)))
        (not (has_magic rdram base)) (λ e. absurd (ground (arith, e, magic)))
        (λ _.
          scan_slots-settles sections loaded rdram base (decode_base (sections i)) 0x20
            (slot_count rdram (sections i) base) k (0x20 + 8 * k) s refl h jumps)

  -- The sections that the scan looks at.
  abbrev pub is_read : (rom size : ℕ) → LoadedSection → Bool
  is_read rom size ls =
      let sec = sections ls.section_table_index in
      ltb sec.rom_addr (u32 (rom + size)) && ltb rom (u32 (sec.rom_addr + sec.size))

  scan_loaded-IsSettled :
      (rdram : ℕ → ℕ) (t : PendingTrampoline) (rom size : ℕ) (l : List LoadedSection) (s : Scan)
      → IsSettled t s
      → IsSettled t (scan_loaded sections loaded rdram rom size l s)
  unfolding scan_loaded
  scan_loaded-IsSettled rdram t rom size [] s h = h
  scan_loaded-IsSettled rdram t rom size (ls ∷ l) s h = scan_loaded-IsSettled rdram t rom size l _ (
      if_cases (IsSettled t) (is_read rom size ls)
        (λ _. scan_fragment_section_trampolines-IsSettled rdram t _ ls.loaded_ram_addr s h)
        (λ _. h))

  -- The jump slot with the number k of a loaded fragment.
  abbrev pub IsJumpSlot : (rdram : ℕ → ℕ) (k : ℕ) → LoadedSection → Type 0
  IsJumpSlot rdram k ls =
      let section = sections ls.section_table_index in
      (has_magic rdram ls.loaded_ram_addr ≡ true)
      × (k < slot_count rdram section ls.loaded_ram_addr)
      × (slot_target rdram ls.loaded_ram_addr (decode_base section) (0x20 + 8 * k) ≢ 0)

  abbrev pub slot_trampoline : (rdram : ℕ → ℕ) (k : ℕ) → LoadedSection → PendingTrampoline
  slot_trampoline rdram k ls =
      trampoline_at sections loaded rdram ls.loaded_ram_addr
        (decode_base (sections ls.section_table_index)) (0x20 + 8 * k)

  first_loaded :
      (rdram : ℕ → ℕ) (rom size k : ℕ) (ls : LoadedSection) (l : List LoadedSection) (s : Scan)
      → is_read rom size ls ≡ true
      → IsJumpSlot rdram k ls
      → IsSettled
          (slot_trampoline rdram k ls)
          (scan_loaded sections loaded rdram rom size (ls ∷ l) s)
  unfolding scan_loaded
  first_loaded rdram rom size k ls l s read (magic, small, jumps) =
      let t = slot_trampoline rdram k ls in
      scan_loaded-IsSettled rdram t rom size l _ (
        if_cases (IsSettled t) (is_read rom size ls)
          (λ _.
            scan_fragment_section_trampolines-settles rdram ls.section_table_index
              ls.loaded_ram_addr k s magic small jumps)
          (λ e. absurd (ground (arith, e, read))))

  scan_loaded-settles :
      (rdram : ℕ → ℕ) (rom size k : ℕ) (ls : LoadedSection) (l : List LoadedSection) (s : Scan)
      → is_read rom size ls ≡ true
      → IsJumpSlot rdram k ls
      → IsIn ls l
      → IsSettled (slot_trampoline rdram k ls) (scan_loaded sections loaded rdram rom size l s)
  unfolding scan_loaded
  scan_loaded-settles rdram rom size k ls [] s read slot h = elim h [ ]
  scan_loaded-settles rdram rom size k ls (x ∷ l) s read slot (inl e) =
      subst
        (λ (z : LoadedSection).
          IsSettled (slot_trampoline rdram k ls)
            (scan_loaded sections loaded rdram rom size (z ∷ l) s))
        e (first_loaded rdram rom size k ls l s read slot)
  scan_loaded-settles rdram rom size k ls (x ∷ l) s read slot (inr h) =
      scan_loaded-settles rdram rom size k ls l _ read slot h

  -- After a read of the ROM, every jump slot of every loaded fragment that the read overlaps leads
  -- to a function, or is pending for the sections to come.
  pub scan_loaded_fragment_trampolines-settles :
      (rdram : ℕ → ℕ) (rom size k : ℕ) (ls : LoadedSection) (s : Scan)
      → IsIn ls loaded
      → is_read rom size ls ≡ true
      → IsJumpSlot rdram k ls
      → IsSettled
          (slot_trampoline rdram k ls)
          (scan_loaded_fragment_trampolines sections loaded rdram rom size s)
  unfolding scan_loaded_fragment_trampolines
  scan_loaded_fragment_trampolines-settles rdram rom size k ls s here read slot =
      retry_pending_trampolines-IsSettled sections loaded (slot_trampoline rdram k ls) _
        (scan_loaded-settles rdram rom size k ls loaded s read slot here)

  -- A trampoline that leads to a function or is pending is so after every later read.
  pub scan_loaded_fragment_trampolines-IsSettled :
      (rdram : ℕ → ℕ) (rom size : ℕ) (t : PendingTrampoline) (s : Scan)
      → IsSettled t s
      → IsSettled t (scan_loaded_fragment_trampolines sections loaded rdram rom size s)
  unfolding scan_loaded_fragment_trampolines
  scan_loaded_fragment_trampolines-IsSettled rdram rom size t s h =
      retry_pending_trampolines-IsSettled sections loaded t _
        (scan_loaded-IsSettled rdram t rom size loaded s h)
