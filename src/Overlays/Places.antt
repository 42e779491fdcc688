-- ===== src/Overlays/Places.antt =====
-- The addresses at which the functions of a loaded section can be called.
use n64modern_runtime.Base.{
  ℕ, ◌+◌, ◌^◌, ◌≤◌, ◌<◌, ◌≡◌, refl, sym, ◌≢◌, ◌⊎◌, inl, inr, Bool, true, false, ◌||◌, Option, none,
  some, List, [], ◌∷◌, arith, ◌==◌, ==_iff, All,
}
use n64modern_runtime.Base.Bits.{u32}
use n64modern_runtime.Overlays.{FuncEntry, SectionTableEntry, section_original_fragment_base}
use n64modern_runtime.Overlays.Aliases.{original_alias, is_alias}

abbrev pub HasRoom : (size base : ℕ) → Type 0
HasRoom size base = base + size ≤ 2 ^ 32

-- Two places of a section are the same place, or have no address in common.
abbrev pub AreSameOrApart : (size b c : ℕ) → Type 0
AreSameOrApart size b c = (b ≡ c) ⊎ ((b + size ≤ c) ⊎ (c + size ≤ b))

abbrev pub IsOriginalPlaced : (size ram link : ℕ) → Option ℕ → Type 0
IsOriginalPlaced size ram link none = Unit
IsOriginalPlaced size ram link (some base) =
    HasRoom size base × AreSameOrApart size ram base × AreSameOrApart size link base

-- The places where a section loaded at an address can be called.
abbrev pub IsPlaced : SectionTableEntry → (ram : ℕ) → Type 0
IsPlaced section ram =
    HasRoom section.size ram
    × HasRoom section.size section.ram_addr
    × AreSameOrApart section.size ram section.ram_addr
    × IsOriginalPlaced section.size ram section.ram_addr (section_original_fragment_base section)

-- Functions at different offsets inside of the section.
abbrev pub AreLaidOut : (size : ℕ) → List FuncEntry → Type 0
AreLaidOut size [] = Unit
AreLaidOut size (f ∷ l) = (f.offset < size) × All (λ g. f.offset ≢ g.offset) l × AreLaidOut size l

same_place :
    (size b c x y a : ℕ)
    → AreSameOrApart size b c
    → HasRoom size b
    → HasRoom size c
    → x < size
    → y < size
    → (u32 (b + x) == a) ≡ true
    → (u32 (c + y) == a) ≡ true
    → x ≡ y
same_place size b c x y a apart hb hc hx hy p q =
    let p' = (==_iff (u32 (b + x)) a).0 p in
    let q' = (==_iff (u32 (c + y)) a).0 q in omega (arith, apart, p', q')

turn : (size b c : ℕ) → AreSameOrApart size b c → AreSameOrApart size c b
turn size b c (inl e) = inl (sym e)
turn size b c (inr (inl h)) = inr (inr h)
turn size b c (inr (inr h)) = inr (inl h)

or_cases : (b c : Bool) → (b || c) ≡ true → (b ≡ true) ⊎ (c ≡ true)
or_cases true c h = inl refl
or_cases false c h = inr h

-- Of the first two places.
near_offset :
    (size ram link x y a : ℕ)
    → HasRoom size ram
    → HasRoom size link
    → AreSameOrApart size ram link
    → x < size
    → y < size
    → ((u32 (ram + x) == a) || (u32 (link + x) == a)) ≡ true
    → ((u32 (ram + y) == a) || (u32 (link + y) == a)) ≡ true
    → x ≡ y
near_offset size ram link x y a hr hl apart hx hy p q =
    elim (or_cases (u32 (ram + x) == a) (u32 (link + x) == a) p) [
      | inl p₁ ↦ elim (or_cases (u32 (ram + y) == a) (u32 (link + y) == a) q) [
        | inl q₁ ↦ same_place size ram ram x y a (inl refl) hr hr hx hy p₁ q₁
        | inr q₂ ↦ same_place size ram link x y a apart hr hl hx hy p₁ q₂
      ]
      | inr p₂ ↦ elim (or_cases (u32 (ram + y) == a) (u32 (link + y) == a) q) [
        | inl q₁ ↦ same_place size link ram x y a (turn size ram link apart) hl hr hx hy p₂ q₁
        | inr q₂ ↦ same_place size link link x y a (inl refl) hl hl hx hy p₂ q₂
      ]
    ]

without_third : (b c : Bool) → (b || (c || false)) ≡ true → (b || c) ≡ true
without_third true c h = refl
without_third false true h = refl
without_third false false h = h

split_third : (b c d : Bool) → (b || (c || d)) ≡ true → ((b || c) ≡ true) ⊎ (d ≡ true)
split_third true c d h = inl refl
split_third false true d h = inl refl
split_third false false d h = inr h

far_offset :
    (size ram link base x y a : ℕ)
    → HasRoom size ram
    → HasRoom size link
    → HasRoom size base
    → AreSameOrApart size ram base
    → AreSameOrApart size link base
    → x < size
    → y < size
    → ((u32 (ram + x) == a) || (u32 (link + x) == a)) ≡ true
    → (u32 (base + y) == a) ≡ true
    → x ≡ y
far_offset size ram link base x y a hr hl hb rb lb hx hy p q =
    elim (or_cases (u32 (ram + x) == a) (u32 (link + x) == a) p) [
      | inl p₁ ↦ same_place size ram base x y a rb hr hb hx hy p₁ q
      | inr p₂ ↦ same_place size link base x y a lb hl hb hx hy p₂ q
    ]

all_offset :
    (size ram link x y a : ℕ) (o : Option ℕ)
    → HasRoom size ram
    → HasRoom size link
    → AreSameOrApart size ram link
    → IsOriginalPlaced size ram link o
    → x < size
    → y < size
    → ((u32 (ram + x) == a) || ((u32 (link + x) == a) || original_alias o x a)) ≡ true
    → ((u32 (ram + y) == a) || ((u32 (link + y) == a) || original_alias o y a)) ≡ true
    → x ≡ y
all_offset size ram link x y a none hr hl apart placed hx hy p q =
    near_offset size ram link x y a hr hl apart hx hy
      (without_third (u32 (ram + x) == a) (u32 (link + x) == a) p)
      (without_third (u32 (ram + y) == a) (u32 (link + y) == a) q)
all_offset size ram link x y a (some base) hr hl apart (hb, rb, lb) hx hy p q =
    elim (split_third (u32 (ram + x) == a) (u32 (link + x) == a) (u32 (base + x) == a) p) [
      | inl p₁ ↦
          elim (split_third (u32 (ram + y) == a) (u32 (link + y) == a) (u32 (base + y) == a) q) [
            | inl q₁ ↦ near_offset size ram link x y a hr hl apart hx hy p₁ q₁
            | inr q₂ ↦ far_offset size ram link base x y a hr hl hb rb lb hx hy p₁ q₂
          ]
      | inr p₂ ↦
          elim (split_third (u32 (ram + y) == a) (u32 (link + y) == a) (u32 (base + y) == a) q) [
            | inl q₁ ↦ sym (far_offset size ram link base y x a hr hl hb rb lb hy hx q₁ p₂)
            | inr q₂ ↦ same_place size base base x y a (inl refl) hb hb hx hy p₂ q₂
          ]
    ]

-- An address is an alias of one offset.
pub alias_offset :
    (section : SectionTableEntry) (ram x y a : ℕ)
    → IsPlaced section ram
    → x < section.size
    → y < section.size
    → is_alias section ram x a ≡ true
    → is_alias section ram y a ≡ true
    → x ≡ y
alias_offset section ram x y a (hr, hl, apart, placed) hx hy p q =
    all_offset section.size ram section.ram_addr x y a (section_original_fragment_base section) hr
      hl apart placed hx hy p q
