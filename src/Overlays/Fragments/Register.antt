-- ===== src/Overlays/Fragments/Register.antt =====
-- librecomp/src/overlays.cpp: binding a fragment to its section, or leaving it to the interpreter.
use n64modern_runtime.Base.{
  ℕ, zero, suc, ◌+◌, ◌-◌, ◌/◌, Bool, false, not, ◌&&◌, ◌||◌, Option, none, some, List, [], ◌∷◌,
  ◌++◌, ltb, ◌==◌, if◌then◌else◌, update,
}
use n64modern_runtime.Base.Bits.{u32}
use n64modern_runtime.Overlays.{FuncEntry, SectionTableEntry, LoadedSection}
use n64modern_runtime.Overlays.Aliases.{
  FuncMap, erase_section_func_aliases, erase_fragment_slot_aliases, frag_range_erase,
}
use n64modern_runtime.Overlays.Loader.{
  Loader, secaddr_set, install_all, register_all, record_load_order,
  unload_overlay_by_section_index,
}
use n64modern_runtime.Overlays.Trampolines.{
  PendingTrampoline, Scan, func_entry_may_be_fragment_jump_slot, first_offset,
  retry_pending_trampolines, scan_fragment_section_trampolines,
}
use n64modern_runtime.Overlays.Fragments.{
  synthetic_bucket_count, is_synthetic_addr, synthetic_bucket_idx, frag_size_in_ram, found_index,
}

pub record SyntheticFragmentSlot : Type 0 where
  pub runtime_base : ℕ
  pub size : ℕ
  pub section_index : ℕ

-- The variables of the loader, `pending_trampolines`, `s_frag_live_range`,
-- `recomp_synthetic_fragments` and `runtime_fragment_id_to_section`. The registry of instances,
-- which only crash reports read, is left out.
pub record Fragments : Type 0 where
  pub loader : Loader
  pub pending : List PendingTrampoline
  pub live_range : ℕ → Option (ℕ × ℕ)
  pub synthetic : ℕ → Option SyntheticFragmentSlot
  pub id_to_section : ℕ → Option ℕ

-- The aliases of a function, and its link-time address once more.
unfoldable pub evict_func : SectionTableEntry → (fragment_ptr : ℕ) → FuncEntry → FuncMap → FuncMap
unfolding erase_section_func_aliases
evict_func old ptr f m =
    let erased = erase_section_func_aliases old ptr f m in
    if f.func == 0
    then m
    else if not (old.ram_addr == ptr)
    then update erased (u32 (old.ram_addr + f.offset)) none
    else erased

unfoldable pub evict_funcs :
    SectionTableEntry → (fragment_ptr : ℕ) → List FuncEntry → FuncMap → FuncMap
unfolding evict_func
evict_funcs old ptr [] m = m
evict_funcs old ptr (f ∷ l) m = evict_funcs old ptr l (evict_func old ptr f m)

unfoldable pub evict_slots :
    SectionTableEntry → (fragment_ptr slot_off count : ℕ) → FuncMap → FuncMap
unfolding erase_fragment_slot_aliases
evict_slots old ptr off zero m = m
evict_slots old ptr off (suc n) m =
    let erased = erase_fragment_slot_aliases old ptr off m in
    evict_slots old ptr (off + 8) n
      (if not (old.ram_addr == ptr) then update erased (u32 (old.ram_addr + off)) none else erased)

module _ (sections : ℕ → SectionTableEntry) (unreg : Bool) (fragment_ptr : ℕ) where
  -- What goes with an evicted section, less its entry in the list.
  unfoldable pub forget_evicted : SectionTableEntry → Loader → Loader
  unfolding evict_funcs evict_slots first_offset func_entry_may_be_fragment_jump_slot
  forget_evicted old s =
      let first = first_offset func_entry_may_be_fragment_jump_slot old.funcs old.size in
      record s {
        func_map =
            evict_slots old fragment_ptr 0x20 ((first - 0x20) / 8)
              (evict_funcs old fragment_ptr old.funcs s.func_map);
        section_addresses = secaddr_set old.index old.ram_addr s.section_addresses;
      }

  -- The walk over the loaded sections, with those kept so far; it evicts the sections at this
  -- address, but the one to skip.
  unfoldable pub evict_walk :
      (is_skipped : ℕ → Bool) (kept to_visit : List LoadedSection) → Loader → Loader
  unfolding forget_evicted
  evict_walk skipped kept [] s = record s { loaded_sections = kept }
  evict_walk skipped kept (ls ∷ l) s =
      let gone = evict_walk skipped kept l (forget_evicted (sections ls.section_table_index) s) in
      let passed = evict_walk skipped (kept ++ ls ∷ []) l s in
      if not (ls.loaded_ram_addr == fragment_ptr) || skipped ls.section_table_index
      then passed
      else gone

  unfoldable pub evict_prior_at_base : (is_skipped : ℕ → Bool) → Loader → Loader
  unfolding evict_walk
  evict_prior_at_base skipped s = evict_walk skipped [] s.loaded_sections s

  -- The range where the fragment with this id was last, when it was elsewhere.
  unfoldable pub supersede : Option (ℕ × ℕ) → Loader → Loader
  unfolding frag_range_erase
  supersede none s = s
  supersede (some (base, size)) s =
      if unreg && not (base == fragment_ptr)
      then record s { func_map = frag_range_erase base size s.func_map }
      else s

  unfoldable pub leave_unregistered : (id known_size : ℕ) → Fragments → Fragments
  unfolding evict_prior_at_base supersede
  leave_unregistered id known_size t = record t {
    loader = supersede (t.live_range id) (evict_prior_at_base (λ i. false) t.loader);
    live_range =
        if known_size == 0
        then t.live_range
        else update t.live_range id (some (fragment_ptr, known_size));
  }

  -- The entry of the section moves, or is added.
  unfoldable pub move_entry : (section_index : ℕ) → List LoadedSection → List LoadedSection
  move_entry i [] = record { loaded_ram_addr = fragment_ptr; section_table_index = i } ∷ []
  move_entry i (ls ∷ l) =
      let rest = move_entry i l in
      if ls.section_table_index == i
      then record ls { loaded_ram_addr = fragment_ptr } ∷ l
      else ls ∷ rest

  -- The synthetic address of the section is that of a slot; `none` is the abort of the process.
  unfoldable pub set_synthetic :
      (section_index : ℕ)
      → (ℕ → Option SyntheticFragmentSlot)
      → Option (ℕ → Option SyntheticFragmentSlot)
  set_synthetic i table =
      let section = sections i in
      let slot = synthetic_bucket_idx section.ram_addr in
      let entry : SyntheticFragmentSlot = record {
        runtime_base = fragment_ptr;
        size = section.size;
        section_index = i;
      } in
      if is_synthetic_addr section.ram_addr
      then if ltb slot synthetic_bucket_count then some (update table slot (some entry)) else none
      else some table

  unfoldable pub install_fragment : (section_index : ℕ) → Loader → Loader
  unfolding record_load_order move_entry
  install_fragment i s =
      let section = sections i in
      record_load_order i (record s {
        func_map = install_all section fragment_ptr section.funcs s.func_map;
        loaded_sections = move_entry i s.loaded_sections;
        section_addresses = secaddr_set section.index fragment_ptr s.section_addresses;
        pc_index = register_all i section.funcs s.pc_index;
      })

  -- The trampolines of the new fragment and those that wait.
  unfoldable pub scan_bound :
      (rdram : ℕ → ℕ) (section_index : ℕ) → Loader → List PendingTrampoline → Scan
  unfolding scan_fragment_section_trampolines retry_pending_trampolines
  scan_bound rdram i s pending = retry_pending_trampolines sections s.loaded_sections (
      scan_fragment_section_trampolines sections s.loaded_sections rdram i fragment_ptr
        (record { func_map = s.func_map; pending = pending }))

  unfoldable pub with_synthetic :
      Fragments → Option (ℕ → Option SyntheticFragmentSlot) → Option Fragments
  with_synthetic t none = none
  with_synthetic t (some table) = some (record t { synthetic = table })

  -- Everything but the synthetic slot.
  unfoldable pub bound_fragment : (rdram : ℕ → ℕ) (id section_index : ℕ) → Fragments → Fragments
  unfolding evict_prior_at_base supersede install_fragment scan_bound
  bound_fragment rdram id i t =
      let evicted = evict_prior_at_base (λ j. j == i) t.loader in
      let installed = install_fragment i (supersede (t.live_range id) evicted) in
      let scanned = scan_bound rdram i installed t.pending in
      record t {
        loader = record installed { func_map = scanned.func_map };
        pending = scanned.pending;
        live_range = update t.live_range id (some (fragment_ptr, (sections i).size));
        id_to_section = update t.id_to_section id (some i);
      }

  unfoldable pub bind_fragment :
      (rdram : ℕ → ℕ) (id section_index : ℕ) → Fragments → Option Fragments
  unfolding set_synthetic bound_fragment with_synthetic
  bind_fragment rdram id i t =
      with_synthetic (bound_fragment rdram id i t) (set_synthetic i t.synthetic)

  unfoldable pub bind_or_leave : (rdram : ℕ → ℕ) (id : ℕ) → Option ℕ → Fragments → Option Fragments
  unfolding leave_unregistered bind_fragment frag_size_in_ram
  bind_or_leave rdram id none t =
      some (leave_unregistered id (frag_size_in_ram rdram fragment_ptr) t)
  bind_or_leave rdram id (some i) t = bind_fragment rdram id i t

unfoldable pub register_runtime_fragment :
    (sections : ℕ → SectionTableEntry) (num_code_sections : ℕ) (unreg size_filter_on : Bool)
    (rdram : ℕ → ℕ) (id fragment_ptr : ℕ)
    → Fragments
    → Option Fragments
unfolding bind_or_leave found_index
register_runtime_fragment sections n unreg size_filter_on rdram id ptr t =
    if ptr == 0
    then some t
    else bind_or_leave sections unreg ptr rdram id
        (found_index sections n size_filter_on rdram id ptr) t

-- The section that the id was last bound to goes.
unfoldable pub unregister_runtime_fragment :
    (sections : ℕ → SectionTableEntry) (unreg : Bool) (id : ℕ) → Fragments → Fragments
unfolding unload_overlay_by_section_index
unregister_runtime_fragment sections unreg id t = elim (t.id_to_section id) [
  | none ↦ t
  | some i ↦ record t { loader = unload_overlay_by_section_index sections unreg i t.loader }
]
