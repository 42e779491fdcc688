-- ===== src/Overlays/Loader.antt =====
-- librecomp/src/overlays.cpp: which sections are loaded, at what address, and the functions found
-- through them.
use n64modern_runtime.Base.{
  ℕ, ◌+◌, Bool, not, Option, none, some, List, [], ◌∷◌, ◌++◌, ◌==◌, if◌then◌else◌, update,
}
use n64modern_runtime.Base.Bits.{u32, low_bits}
use n64modern_runtime.Overlays.{FuncEntry, SectionTableEntry, LoadedSection}
use n64modern_runtime.Overlays.Aliases.{
  FuncMap, install_section_func_aliases, erase_section_func_aliases, frag_range_erase,
}
use n64modern_runtime.Overlays.PcIndex.{PcIndex, pc_index_register}

-- The file's variables. Vectors that grow with zeros and tables are functions.
pub record Loader : Type 0 where
  pub func_map : FuncMap
  pub loaded_sections : List LoadedSection
  pub section_addresses : ℕ → ℕ
  pub section_load_order : ℕ → ℕ
  pub next_load_order : ℕ
  pub pc_index : PcIndex

-- The guard drops a misaligned address.
unfoldable pub secaddr_set : (index value : ℕ) → (ℕ → ℕ) → ℕ → ℕ
secaddr_set index value addresses =
    if not (low_bits value 2 == 0) then addresses else update addresses index value

-- `std::find_if` by the index, and the vector less the entry it finds.
unfoldable pub find_section : (section_index : ℕ) → List LoadedSection → Option LoadedSection
find_section i [] = none
find_section i (ls ∷ l) =
    let rest = find_section i l in if ls.section_table_index == i then some ls else rest

unfoldable pub erase_found : (section_index : ℕ) → List LoadedSection → List LoadedSection
erase_found i [] = []
erase_found i (ls ∷ l) =
    let rest = erase_found i l in if ls.section_table_index == i then l else ls ∷ rest

abbrev pub install_all : SectionTableEntry → (ram : ℕ) → List FuncEntry → FuncMap → FuncMap
install_all section ram [] m = m
install_all section ram (f ∷ l) m =
    install_all section ram l (install_section_func_aliases section ram f m)

abbrev pub erase_all : SectionTableEntry → (ram : ℕ) → List FuncEntry → FuncMap → FuncMap
erase_all section ram [] m = m
erase_all section ram (f ∷ l) m =
    erase_all section ram l (erase_section_func_aliases section ram f m)

abbrev pub register_all : (section_index : ℕ) → List FuncEntry → PcIndex → PcIndex
register_all i [] p = p
register_all i (f ∷ l) p = register_all i l (pc_index_register f.func i p)

unfoldable pub add_loaded_function : (ram func : ℕ) → Loader → Loader
add_loaded_function ram func s = record s { func_map = update s.func_map ram (some func) }

unfoldable pub record_load_order : (section_index : ℕ) → Loader → Loader
record_load_order i s = record s {
  section_load_order = update s.section_load_order i s.next_load_order;
  next_load_order = s.next_load_order + 1;
}

-- The functions of a section that goes from an address, and its whole extent when
-- `frag_unreg_enabled()`, which reads the environment, is on.
unfoldable pub forget_functions : (unreg : Bool) → SectionTableEntry → (ram : ℕ) → FuncMap → FuncMap
forget_functions unreg section ram m =
    let rest = erase_all section ram section.funcs m in
    if unreg then frag_range_erase ram section.size rest else rest

-- The table `sections_info.code_sections`.
module _ (sections : ℕ → SectionTableEntry) where
  unfoldable pub load_overlay : (section_table_index ram : ℕ) → Loader → Loader
  unfolding record_load_order
  load_overlay i ram s =
      let section = sections i in
      let loaded : LoadedSection = record { loaded_ram_addr = ram; section_table_index = i } in
      record_load_order i (record s {
        func_map = install_all section ram section.funcs s.func_map;
        loaded_sections = s.loaded_sections ++ loaded ∷ [];
        section_addresses = secaddr_set section.index ram s.section_addresses;
        pc_index = register_all i section.funcs s.pc_index;
      })

module _ (sections : ℕ → SectionTableEntry) (unreg : Bool) where
  unfoldable pub unload_found : (section_table_index : ℕ) → Option LoadedSection → Loader → Loader
  unload_found i none s = s
  unload_found i (some ls) s =
      let section = sections i in
      record s {
        func_map = forget_functions unreg section ls.loaded_ram_addr s.func_map;
        section_addresses = secaddr_set section.index section.ram_addr s.section_addresses;
        loaded_sections = erase_found i s.loaded_sections;
      }

  unfoldable pub unload_overlay_by_section_index : (section_table_index : ℕ) → Loader → Loader
  unload_overlay_by_section_index i s = unload_found i (find_section i s.loaded_sections) s

-- The table `overlays_info` as well.
module _ (sections : ℕ → SectionTableEntry) (overlay_table : ℕ → ℕ) (unreg : Bool) where
  unfoldable pub unload_overlay_by_id : (id : ℕ) → Loader → Loader
  unfolding unload_overlay_by_section_index
  unload_overlay_by_id id s = unload_overlay_by_section_index sections unreg (overlay_table id) s

  unfoldable pub load_overlay_by_id : (id ram_addr : ℕ) → Loader → Loader
  unfolding load_overlay unload_overlay_by_id
  load_overlay_by_id id ram_addr s =
      let i = overlay_table id in
      let prev_address = s.section_addresses (sections i).index in
      if prev_address == (sections i).ram_addr
      then load_overlay sections i ram_addr s
      else load_overlay sections i (u32 (prev_address + ram_addr)) (unload_overlay_by_id id s)
