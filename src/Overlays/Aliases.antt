-- ===== src/Overlays/Aliases.antt =====
-- librecomp/src/overlays.cpp: `func_map` and the addresses under which it holds a section's
-- functions.
use n64modern_runtime.Base.{
  ℕ, ◌+◌, ◌≡◌, refl, ap, ◌∙◌, ◌≢◌, Bool, false, ◌&&◌, ◌||◌, Option, none, some, arith, ltb, leb,
  ◌==◌, if◌then◌else◌, ==_iff, ==_apart, if_cases, update,
}
use n64modern_runtime.Base.Bits.{u32}
use n64modern_runtime.Overlays.{FuncEntry, SectionTableEntry, section_original_fragment_base}

-- `func_map`: a host pointer for a guest address. Nothing but the removal of a range, which does not
-- depend on the order, walks over it.
abbrev pub FuncMap : Type 0
FuncMap = ℕ → Option ℕ

abbrev pub at_original : Option ℕ → (offset : ℕ) → Option ℕ → FuncMap → FuncMap
at_original none offset v m = m
at_original (some base) offset v m = update m (u32 (base + offset)) v

-- Sets, or with `none` erases, what stands at a section's offset: at its runtime address, at its
-- link-time address when that is another one, and at its address in the original fragment.
unfoldable pub set_slot_aliases :
    SectionTableEntry → (runtime_base offset : ℕ) → Option ℕ → FuncMap → FuncMap
set_slot_aliases section runtime_base offset v m =
    let at_base = update m (u32 (runtime_base + offset)) v in
    let at_link =
      if section.ram_addr == runtime_base
      then at_base
      else update at_base (u32 (section.ram_addr + offset)) v in
    at_original (section_original_fragment_base section) offset v at_link

unfoldable pub install_section_func_aliases :
    SectionTableEntry → (runtime_base : ℕ) → FuncEntry → FuncMap → FuncMap
install_section_func_aliases section runtime_base f m =
    if f.func == 0 then m else set_slot_aliases section runtime_base f.offset (some f.func) m

unfoldable pub erase_section_func_aliases :
    SectionTableEntry → (runtime_base : ℕ) → FuncEntry → FuncMap → FuncMap
erase_section_func_aliases section runtime_base f m =
    if f.func == 0 then m else set_slot_aliases section runtime_base f.offset none m

unfoldable pub erase_fragment_slot_aliases :
    SectionTableEntry → (runtime_base offset : ℕ) → FuncMap → FuncMap
erase_fragment_slot_aliases section runtime_base offset m =
    set_slot_aliases section runtime_base offset none m

-- The end wraps around, as `base + size` does.
unfoldable pub frag_range_erase : (base size : ℕ) → FuncMap → FuncMap
frag_range_erase base size m =
    if size == 0 then m else λ a. if leb base a && ltb a (u32 (base + size)) then none else m a

abbrev pub original_alias : Option ℕ → (offset a : ℕ) → Bool
original_alias none offset a = false
original_alias (some base) offset a = u32 (base + offset) == a

-- The addresses of a section's offset.
abbrev pub is_alias : SectionTableEntry → (runtime_base offset a : ℕ) → Bool
is_alias section runtime_base offset a =
    (u32 (runtime_base + offset) == a)
    || ((u32 (section.ram_addr + offset) == a)
        || original_alias (section_original_fragment_base section) offset a)

original_lookup :
    (o : Option ℕ) (offset : ℕ) (v : Option ℕ) (m : FuncMap) (a : ℕ)
    → at_original o offset v m a ≡ (if original_alias o offset a then v else m a)
original_lookup none offset v m a = refl
original_lookup (some base) offset v m a = refl

decide_apart :
    (here there original : Bool) (v w : Option ℕ)
    → (if original then v else if there then v else if here then v else w)
      ≡ (if here || (there || original) then v else w)
decide_apart here there original v w = ground arith

decide_same :
    (here there original : Bool) (v w : Option ℕ)
    → there ≡ here
    → (if original then v else if here then v else w)
      ≡ (if here || (there || original) then v else w)
decide_same here there original v w e = ground (arith, e)

-- What is found at an address once an offset's aliases are set: the value, or what was there.
pub set_slot_aliases-lookup :
    (section : SectionTableEntry) (runtime_base offset : ℕ) (v : Option ℕ) (m : FuncMap) (a : ℕ)
    → set_slot_aliases section runtime_base offset v m a
      ≡ (if is_alias section runtime_base offset a then v else m a)
unfolding set_slot_aliases
set_slot_aliases-lookup section runtime_base offset v m a =
    let original = original_alias (section_original_fragment_base section) offset a in
    let here = u32 (runtime_base + offset) == a in
    original_lookup (section_original_fragment_base section) offset v _ a
    ∙ if_cases
        (λ (z : FuncMap).
          (if original then v else z a)
          ≡ (if is_alias section runtime_base offset a then v else m a))
        (section.ram_addr == runtime_base)
        (λ e.
          decide_same here _ original v (m a)
            (ap (λ (r : ℕ). u32 (r + offset) == a) ((==_iff section.ram_addr runtime_base).0 e)))
        (λ _. decide_apart here (u32 (section.ram_addr + offset) == a) original v (m a))

-- A function's aliases lead to it, and every other address to what it led to before.
pub install_section_func_aliases-lookup :
    (section : SectionTableEntry) (runtime_base : ℕ) (f : FuncEntry) (m : FuncMap) (a : ℕ)
    → f.func ≢ 0
    → install_section_func_aliases section runtime_base f m a
      ≡ (if is_alias section runtime_base f.offset a then some f.func else m a)
unfolding install_section_func_aliases
install_section_func_aliases-lookup section runtime_base f m a h =
    rw (==_apart f.func 0 h) (set_slot_aliases-lookup section runtime_base f.offset _ m a)

-- A null function changes nothing, wherever it would stand.
pub install_section_func_aliases-frame :
    (section : SectionTableEntry) (runtime_base : ℕ) (f : FuncEntry) (m : FuncMap) (a : ℕ)
    → is_alias section runtime_base f.offset a ≡ false
    → install_section_func_aliases section runtime_base f m a ≡ m a
unfolding install_section_func_aliases
install_section_func_aliases-frame section runtime_base f m a h =
    if_cases (λ (z : FuncMap). z a ≡ m a) (f.func == 0) (λ _. refl)
      (λ _. rw (set_slot_aliases-lookup section runtime_base f.offset _ m a, h) refl)

pub erase_section_func_aliases-lookup :
    (section : SectionTableEntry) (runtime_base : ℕ) (f : FuncEntry) (m : FuncMap) (a : ℕ)
    → f.func ≢ 0
    → erase_section_func_aliases section runtime_base f m a
      ≡ (if is_alias section runtime_base f.offset a then none else m a)
unfolding erase_section_func_aliases
erase_section_func_aliases-lookup section runtime_base f m a h =
    rw (==_apart f.func 0 h) (set_slot_aliases-lookup section runtime_base f.offset _ m a)

pub erase_section_func_aliases-frame :
    (section : SectionTableEntry) (runtime_base : ℕ) (f : FuncEntry) (m : FuncMap) (a : ℕ)
    → is_alias section runtime_base f.offset a ≡ false
    → erase_section_func_aliases section runtime_base f m a ≡ m a
unfolding erase_section_func_aliases
erase_section_func_aliases-frame section runtime_base f m a h =
    if_cases (λ (z : FuncMap). z a ≡ m a) (f.func == 0) (λ _. refl)
      (λ _. rw (set_slot_aliases-lookup section runtime_base f.offset _ m a, h) refl)

-- What an address with nothing found at it keeps.
pub erase_section_func_aliases-keeps_none :
    (section : SectionTableEntry) (runtime_base : ℕ) (f : FuncEntry) (m : FuncMap) (a : ℕ)
    → m a ≡ none
    → erase_section_func_aliases section runtime_base f m a ≡ none
unfolding erase_section_func_aliases
erase_section_func_aliases-keeps_none section runtime_base f m a h =
    if_cases (λ (z : FuncMap). z a ≡ none) (f.func == 0) (λ _. h)
      (λ _.
        rw (set_slot_aliases-lookup section runtime_base f.offset _ m a, h)
          (if_cases (λ (z : Option ℕ). z ≡ none) (is_alias section runtime_base f.offset a)
            (λ _. refl) (λ _. refl)))
