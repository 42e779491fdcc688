-- ===== src/Overlays/Resolve/Pattern.antt =====
-- The resolution of an address of the pattern bucket by the data that the caller works on.
use n64modern_runtime.Base.{
  ℕ, ◌+◌, ◌≡◌, refl, ◌≢◌, ◌⊎◌, inl, inr, Bool, true, false, not, ◌&&◌, List, [], ◌∷◌, arith, ◌==◌,
  lt→ltb, le→leb, ==_iff, ==_false, if_cases, All, IsIn,
}
use mathlib.Core.Path.{subst}
use n64modern_runtime.Base.Bits.{u32}
use n64modern_runtime.Overlays.{SectionTableEntry, LoadedSection, in_range}
use n64modern_runtime.Overlays.Resolve.{
  bucket_of, offset_of, is_fragment_vaddr, covers, recomp_addr_in_loaded_variant, around_data,
  recomp_resolve_via_data_context, or_game_result, resolve_pattern,
}

of_pattern : (v : ℕ) → (bucket_of v == 0x8FF00000) ≡ true → is_fragment_vaddr v ≡ true
of_pattern v h =
    let e = (==_iff (bucket_of v) 0x8FF00000).0 h in
    rw (le→leb 0x81000000 v (omega (arith, e)), lt→ltb v 0x90000000 (omega (arith, e))) refl

not-false : (b : Bool) → not b ≡ false → b ≡ true
not-false b h = ground (arith, h)

not-true : (b : Bool) → not b ≡ true → b ≡ false
not-true b h = ground (arith, h)

and-true : (a b : Bool) → a ≡ true → b ≡ true → (a && b) ≡ true
and-true a b h k = ground (arith, h, k)

and-false_left : (a b : Bool) → a ≡ false → (a && b) ≡ false
and-false_left a b h = ground (arith, h)

and-false_right : (a b : Bool) → b ≡ false → (a && b) ≡ false
and-false_right a b h = ground (arith, h)

module _ (sections : ℕ → SectionTableEntry) where
  -- The memory of a loaded section has the address `a`.
  abbrev pub has : (a : ℕ) → LoadedSection → Bool
  has a ls = in_range a ls.loaded_ram_addr (sections ls.section_table_index).size

  -- A variant of the bucket the memory of which has the address `a`.
  abbrev pub is_variant_with : (bucket a : ℕ) → LoadedSection → Bool
  is_variant_with bucket a ls = ((sections ls.section_table_index).ram_addr == bucket) && has a ls

  -- The first of the loaded sections that has the address `a`.
  abbrev pub IsFirstWith : (a : ℕ) → LoadedSection → List LoadedSection → Type 0
  IsFirstWith a x [] = ⊥
  IsFirstWith a x (y ∷ l) = ((has a y ≡ true) × (y ≡ x)) ⊎ ((has a y ≡ false) × IsFirstWith a x l)

  abbrev pub IsAround : (bucket offset ctx r : ℕ) → List LoadedSection → Type 0
  IsAround bucket offset ctx r l =
      (ls : LoadedSection) × IsFirstWith ctx ls l
      × (covers sections bucket offset ls ≡ true)
      × (r ≡ u32 (ls.loaded_ram_addr + offset))

  -- Why the data gives no address.
  abbrev pub IsUnknown : (bucket offset ctx : ℕ) → List LoadedSection → Type 0
  IsUnknown bucket offset ctx l =
      All (λ ls. has ctx ls ≡ false) l
      ⊎ ((ls : LoadedSection) × IsFirstWith ctx ls l × (covers sections bucket offset ls ≡ false))

  abbrev IsAnswer : (bucket offset ctx r : ℕ) → List LoadedSection → Type 0
  IsAnswer bucket offset ctx r l =
      IsAround bucket offset ctx r l ⊎ ((r ≡ 0) × IsUnknown bucket offset ctx l)

  behind :
      (bucket offset ctx r : ℕ) (x : LoadedSection) (l : List LoadedSection)
      → has ctx x ≡ false
      → IsAnswer bucket offset ctx r l
      → IsAnswer bucket offset ctx r (x ∷ l)
  behind bucket offset ctx r x l n (inl (ls, f, c, h)) = inl (ls, inr (n, f), c, h)
  behind bucket offset ctx r x l n (inr (e, inl none_has)) = inr (e, inl (n, none_has))
  behind bucket offset ctx r x l n (inr (e, inr (ls, f, h))) = inr (e, inr (ls, inr (n, f), h))

  around_data-IsAnswer :
      (bucket offset ctx : ℕ) (l : List LoadedSection)
      → IsAnswer bucket offset ctx (around_data sections bucket offset ctx l) l
  unfolding around_data
  around_data-IsAnswer bucket offset ctx [] = inr (refl, inl tt)
  around_data-IsAnswer bucket offset ctx (ls ∷ l) =
      let P : ℕ → Type 0 = λ z. IsAnswer bucket offset ctx z (ls ∷ l) in
      if_cases P (not (has ctx ls))
        (λ n.
          behind bucket offset ctx _ ls l (not-true (has ctx ls) n)
            (around_data-IsAnswer bucket offset ctx l))
        (λ n.
          let first = inl (not-false (has ctx ls) n, refl) in
          if_cases P (covers sections bucket offset ls) (λ c. inl (ls, first, c, refl))
            (λ c. inr (refl, inr (ls, first, c))))

  -- A loaded variant of the bucket has the address.
  abbrev pub IsInVariant : (bucket a : ℕ) → List LoadedSection → Type 0
  IsInVariant bucket a l = (ls : LoadedSection) × IsIn ls l × (is_variant_with bucket a ls ≡ true)

  abbrev pub IsInNoVariant : (bucket a : ℕ) → List LoadedSection → Type 0
  IsInNoVariant bucket a l = All (λ ls. is_variant_with bucket a ls ≡ false) l

  later :
      (bucket a : ℕ) (x : LoadedSection) (l : List LoadedSection)
      → IsInVariant bucket a l
      → IsInVariant bucket a (x ∷ l)
  later bucket a x l (ls, m, h) = (ls, inr m, h)

  in_variant :
      (bucket a : ℕ) (l : List LoadedSection)
      → recomp_addr_in_loaded_variant sections bucket a l ≡ true
      → IsInVariant bucket a l
  unfolding recomp_addr_in_loaded_variant
  in_variant bucket a [] = λ e. absurd (ground (arith, e))
  in_variant bucket a (ls ∷ l) =
      let P : Bool → Type 0 = λ z. z ≡ true → IsInVariant bucket a (ls ∷ l) in
      let rest : recomp_addr_in_loaded_variant sections bucket a l ≡ true
          → IsInVariant bucket a (ls ∷ l) =
        λ k. later bucket a ls l (in_variant bucket a l k) in
      let same = (sections ls.section_table_index).ram_addr == bucket in
      if_cases P (not same) (λ _. rest)
        (λ n.
          if_cases P (has a ls) (λ h _. (ls, inl refl, and-true same _ (not-false same n) h))
            (λ _. rest))

  in_no_variant :
      (bucket a : ℕ) (l : List LoadedSection)
      → recomp_addr_in_loaded_variant sections bucket a l ≡ false
      → IsInNoVariant bucket a l
  unfolding recomp_addr_in_loaded_variant
  in_no_variant bucket a [] = λ _. tt
  in_no_variant bucket a (ls ∷ l) =
      let P : Bool → Type 0 = λ z. z ≡ false → IsInNoVariant bucket a (ls ∷ l) in
      let same = (sections ls.section_table_index).ram_addr == bucket in
      if_cases P (not same)
        (λ n k. (and-false_left same (has a ls) (not-true same n), in_no_variant bucket a l k))
        (λ _.
          if_cases P (has a ls) (λ _ e. absurd (ground (arith, e)))
            (λ h k. (and-false_right same (has a ls) h, in_no_variant bucket a l k)))

  -- Why the game's own answer stands: the input is not in the pattern bucket, the answer lies in a
  -- loaded variant of it, there is no data, or the data gives no address or the null address.
  abbrev pub Keeps : (input game_result ctx : ℕ) → List LoadedSection → Type 0
  Keeps input game_result ctx l =
      (bucket_of input ≢ 0x8FF00000)
      ⊎ IsInVariant (bucket_of input) game_result l
      ⊎ (ctx ≡ 0)
      ⊎ IsUnknown (bucket_of input) (offset_of input) ctx l
      ⊎ IsAround (bucket_of input) (offset_of input) ctx 0 l

  -- The resolution `r` of an input.
  abbrev pub IsResolution : (input game_result ctx r : ℕ) → List LoadedSection → Type 0
  IsResolution input game_result ctx r l =
      ((r ≡ game_result) × Keeps input game_result ctx l)
      ⊎ ((bucket_of input ≡ 0x8FF00000)
          × IsInNoVariant (bucket_of input) game_result l
          × (ctx ≢ 0)
          × (r ≢ 0)
          × IsAround (bucket_of input) (offset_of input) ctx r l)

  module _ (input game_result ctx : ℕ) (l : List LoadedSection)
      (pattern_bucket : bucket_of input ≡ 0x8FF00000)
      (outside : IsInNoVariant (bucket_of input) game_result l) where
    resolved :
        (r : ℕ)
        → ctx ≢ 0
        → IsAnswer (bucket_of input) (offset_of input) ctx r l
        → IsResolution input game_result ctx (or_game_result game_result r) l
    resolved r nz (inl found) =
        if_cases (λ (z : ℕ). IsResolution input game_result ctx z l) (r == 0)
          (λ e. inl (
            refl,
            inr (
                inr (
                  inr (
                    inr (
                      subst (λ (z : ℕ). IsAround (bucket_of input) (offset_of input) ctx z l)
                        ((==_iff r 0).0 e) found)))),
          ))
          (λ e. inr (pattern_bucket, outside, nz, ==_false r 0 e, found))
    resolved r nz (inr (is_zero, unknown)) =
        rw ((==_iff r 0).1 is_zero) (inl (refl, inr (inr (inr (inl unknown)))))

    by_data :
        IsResolution input game_result ctx
          (or_game_result game_result (recomp_resolve_via_data_context sections input ctx l))
          l
    unfolding recomp_resolve_via_data_context
    by_data = rw (of_pattern input ((==_iff _ _).1 pattern_bucket)) (
        if_cases (λ (z : ℕ). IsResolution input game_result ctx (or_game_result game_result z) l)
          (not (ctx == 0))
          (λ n.
            resolved _ (==_false ctx 0 (not-true (ctx == 0) n))
              (around_data-IsAnswer (bucket_of input) (offset_of input) ctx l))
          (λ n. inl (refl, inr (inr (inl ((==_iff ctx 0).0 (not-false (ctx == 0) n)))))))

  -- An input in the pattern bucket 0x8FF00000, when the game's own answer lies in no loaded variant
  -- of the bucket, is resolved to its offset in the first loaded section that has the data, if that
  -- section is a variant that covers the offset. In all other cases the game's own answer stands: an
  -- input of another bucket, an answer that lies in a loaded variant, no data, data in no loaded
  -- section or in one that is no variant for the input, or the null address as the result.
  pub resolve_pattern-IsResolution :
      (input game_result ctx : ℕ) (l : List LoadedSection)
      → IsResolution input game_result ctx (resolve_pattern sections input game_result ctx l) l
  unfolding resolve_pattern
  resolve_pattern-IsResolution input game_result ctx l =
      let bucket = bucket_of input in
      let P : ℕ → Type 0 = λ z. IsResolution input game_result ctx z l in
      if_cases P (not (bucket == 0x8FF00000))
        (λ n. inl (refl, inl (==_false bucket 0x8FF00000 (not-true (bucket == 0x8FF00000) n))))
        (λ n.
          let at_pattern = not-false (bucket == 0x8FF00000) n in
          if_cases P (not (is_fragment_vaddr input))
            (λ k.
              absurd
                (ground (arith, of_pattern input at_pattern, not-true (is_fragment_vaddr input) k)))
            (λ _.
              if_cases P (recomp_addr_in_loaded_variant sections bucket game_result l)
                (λ h. inl (refl, inr (inl (in_variant bucket game_result l h))))
                (λ h.
                  by_data input game_result ctx l ((==_iff bucket 0x8FF00000).0 at_pattern)
                    (in_no_variant bucket game_result l h))))
