-- ===== src/Overlays/Resolve/Variants.antt =====
-- What the resolvers of fragment addresses return.
use n64modern_runtime.Base.{
  ℕ, ◌+◌, ◌-◌, ◌^◌, ◌≤◌, ◌<◌, ◌≡◌, refl, ap, ◌∙◌, ◌⊎◌, inl, inr, true, false, ◌||◌, none, some,
  List, [], ◌∷◌, arith, ltb, leb, ◌==◌, if◌then◌else◌, ltb→lt, lt→ltb, ==_iff, ltb-false,
  Bool-cases, if_cases, All, All-map, update, IsIn,
}
use n64modern_runtime.Base.Bits.{u32}
use n64modern_runtime.Base.Int.{ℤ, ◌+ℤ◌, ◌-ℤ◌, ltb_ℤ, pos-add, pos-sub, pos}
use n64modern_runtime.Overlays.{SectionTableEntry, LoadedSection}
use n64modern_runtime.Overlays.Resolve.{
  bucket_of, offset_of, is_fragment_vaddr, Best, covers, smallest, recomp_lookup_fragment_offset,
  latest_before, InputStack, input_stack_depth, librecomp_fragment_input_push, slot_or_first,
  librecomp_fragment_input_pop,
}

ap_le : {a b n : ℕ} → a ≡ b → a ≤ n → b ≤ n
ap_le e h = omega (arith, e, h)

module _ (sections : ℕ → SectionTableEntry) where
  -- The address of the offset in a loaded variant of the bucket that covers it.
  abbrev pub IsVariantAddress : (bucket offset r : ℕ) → List LoadedSection → Type 0
  IsVariantAddress bucket offset r l =
      (ls : LoadedSection) × IsIn ls l
      × (covers sections bucket offset ls ≡ true)
      × (r ≡ u32 (ls.loaded_ram_addr + offset))

  abbrev pub IsResolved : (bucket offset r : ℕ) → List LoadedSection → Type 0
  IsResolved bucket offset r l = (r ≡ 0) ⊎ IsVariantAddress bucket offset r l

  IsResolved-behind :
      (bucket offset r : ℕ) (x : LoadedSection) (l : List LoadedSection)
      → IsResolved bucket offset r l
      → IsResolved bucket offset r (x ∷ l)
  IsResolved-behind bucket offset r x l (inl e) = inl e
  IsResolved-behind bucket offset r x l (inr (ls, m, c, h)) = inr (ls, inr m, c, h)

  -- The best candidate is the start, or a variant that covers the offset.
  abbrev pub IsStartOrVariant : (bucket offset : ℕ) → Best → List LoadedSection → Type 0
  IsStartOrVariant bucket offset best l =
      (best ≡ (2 ^ 32 - 1, 0))
      ⊎ ((ls : LoadedSection) × IsIn ls l
          × (covers sections bucket offset ls ≡ true)
          × (best ≡ ((sections ls.section_table_index).size, u32 (ls.loaded_ram_addr + offset))))

  IsStartOrVariant-behind :
      (bucket offset : ℕ) (best : Best) (x : LoadedSection) (l : List LoadedSection)
      → IsStartOrVariant bucket offset best l
      → IsStartOrVariant bucket offset best (x ∷ l)
  IsStartOrVariant-behind bucket offset best x l (inl e) = inl e
  IsStartOrVariant-behind bucket offset best x l (inr (ls, m, c, h)) = inr (ls, inr m, c, h)

  -- The measure is at most the size of every variant that covers the offset.
  abbrev pub IsSmallest : (bucket offset : ℕ) → Best → List LoadedSection → Type 0
  IsSmallest bucket offset best l =
      All
        (λ ls.
          covers sections bucket offset ls ≡ true → best.0 ≤ (sections ls.section_table_index).size)
        l
      × IsStartOrVariant bucket offset best l

  smallest-IsSmallest :
      (bucket offset : ℕ) (l : List LoadedSection)
      → IsSmallest bucket offset (smallest sections bucket offset l) l
  unfolding smallest
  smallest-IsSmallest bucket offset [] = (tt, inl refl)
  smallest-IsSmallest bucket offset (ls ∷ l) =
      let (least, found) = smallest-IsSmallest bucket offset l in
      let best = smallest sections bucket offset l in
      let size = (sections ls.section_table_index).size in
      let later = IsStartOrVariant-behind bucket offset best ls l found in
      if_cases (λ (z : Best). IsSmallest bucket offset z (ls ∷ l))
        (covers sections bucket offset ls)
        (λ c.
          if_cases (λ (z : Best). IsSmallest bucket offset z (ls ∷ l)) (ltb size best.0)
            (λ s.
              let lt = ltb→lt size best.0 s in
              (
                ((λ _. omega arith), All-map l (λ x h k. omega (arith, h k, lt)) least),
                inr (ls, inl refl, c, refl),
              ))
            (λ s. (((λ _. ltb-false size best.0 s), least), later)))
        (λ c. (((λ k. absurd (ground (arith, c, k))), least), later))

  -- The address of the offset in a loaded variant that covers it, of those the smallest.
  abbrev pub IsSmallestAddress : (bucket offset r : ℕ) → List LoadedSection → Type 0
  IsSmallestAddress bucket offset r l =
      (ls : LoadedSection) × IsIn ls l
      × (covers sections bucket offset ls ≡ true)
      × (r ≡ u32 (ls.loaded_ram_addr + offset))
      × All
          (λ x.
            covers sections bucket offset x ≡ true
            → (sections ls.section_table_index).size ≤ (sections x.section_table_index).size)
          l

  abbrev pub HasNoVariant : (bucket offset : ℕ) → List LoadedSection → Type 0
  HasNoVariant bucket offset l = All (λ ls. covers sections bucket offset ls ≡ false) l

  -- What a lookup by the link-time address `v` returns.
  abbrev pub IsLookedUp : (v r : ℕ) → List LoadedSection → Type 0
  IsLookedUp v r l =
      ((is_fragment_vaddr v ≡ true) × IsSmallestAddress (bucket_of v) (offset_of v) r l)
      ⊎ ((r ≡ 0) × ((is_fragment_vaddr v ≡ false) ⊎ HasNoVariant (bucket_of v) (offset_of v) l))

  -- A size that is less than the one that the search starts with.
  abbrev pub IsBounded : LoadedSection → Type 0
  IsBounded ls = (sections ls.section_table_index).size < 2 ^ 32 - 1

  none_covers :
      (bucket offset n : ℕ) (l : List LoadedSection)
      → n ≡ 2 ^ 32 - 1
      → All
          (λ ls.
            covers sections bucket offset ls ≡ true → n ≤ (sections ls.section_table_index).size)
          l
      → All IsBounded l
      → HasNoVariant bucket offset l
  none_covers bucket offset n [] e h small = tt
  none_covers bucket offset n (ls ∷ l) e (h, hs) (lt, small) = (
    elim (Bool-cases (covers sections bucket offset ls)) [
      | inl c ↦ absurd (omega (arith, e, lt, h c))
      | inr c ↦ c
    ],
    none_covers bucket offset n l e hs small,
  )

  smallest_found :
      (bucket offset : ℕ) (best : Best) (l : List LoadedSection)
      → IsSmallest bucket offset best l
      → All IsBounded l
      → IsSmallestAddress bucket offset best.1 l ⊎ ((best.1 ≡ 0) × HasNoVariant bucket offset l)
  smallest_found bucket offset best l (least, inl e) small = inr (
    ap (λ (b : Best). b.1) e,
    none_covers bucket offset best.0 l (ap (λ (b : Best). b.0) e) least small,
  )
  smallest_found bucket offset best l (least, inr (ls, m, c, e)) small = inl (
    ls,
    m,
    c,
    ap (λ (b : Best). b.1) e,
    All-map l (λ x h k. ap_le (ap (λ (b : Best). b.0) e) (h k)) least,
  )

  -- When every loaded section is smaller than 2^32 - 1 bytes, a lookup by a link-time address of a
  -- fragment finds the address in a loaded variant of the bucket that covers the offset, the size of
  -- which is at most that of every other such variant; it returns 0 only for an address that is no
  -- fragment's, or when no loaded variant of the bucket covers the offset.
  pub recomp_lookup_fragment_offset-IsSmallest :
      (v : ℕ) (l : List LoadedSection)
      → All IsBounded l
      → IsLookedUp v (recomp_lookup_fragment_offset sections v l) l
  unfolding recomp_lookup_fragment_offset
  recomp_lookup_fragment_offset-IsSmallest v l small =
      if_cases (λ (z : ℕ). IsLookedUp v z l) (is_fragment_vaddr v)
        (λ f.
          elim (smallest_found (bucket_of v) (offset_of v) _ l
            (smallest-IsSmallest (bucket_of v) (offset_of v) l) small) [
              | inl found ↦ inl (f, found)
              | inr (is_zero, missing) ↦ inr (is_zero, inr missing)
            ])
        (λ f. inr (refl, inl f))

  -- The resolver by the caller.
  latest_before-IsResolved :
      (order : ℕ → ℕ) (caller_order bucket offset : ℕ) (l whole : List LoadedSection) (best : Best)
      → ((x : LoadedSection) → IsIn x l → IsIn x whole)
      → IsResolved bucket offset best.1 whole
      → IsResolved bucket offset
          (latest_before sections order caller_order bucket offset l best).1
          whole
  unfolding latest_before
  latest_before-IsResolved order co bucket offset [] whole best sub h = h
  latest_before-IsResolved order co bucket offset (ls ∷ l) whole best within h =
      let o = order ls.section_table_index in
      let P : Best → Type 0 = λ z. IsResolved bucket offset z.1 whole in
      latest_before-IsResolved order co bucket offset l whole _ (λ x m. within x (inr m))
        (if_cases P (covers sections bucket offset ls)
          (λ c.
            if_cases P ((o == 0) || leb co o) (λ _. h)
              (λ _.
                if_cases P (ltb best.0 o) (λ _. inr (ls, within ls (inl refl), c, refl)) (λ _. h)))
          (λ _. h))

there_and_back : (i : ℕ) → (pos i +ℤ pos 1) -ℤ pos 1 ≡ pos i
there_and_back i = rw (pos-add i 1) (pos-sub (i + 1) 1 (omega arith) ∙ ap pos (omega arith))

stored :
    (input i : ℕ) (slots : ℕ → ℕ)
    → i < 16
    → (if ltb_ℤ (pos i) input_stack_depth then update slots i input else slots)
        (slot_or_first (pos i))
      ≡ input
stored input i slots h = rw (lt→ltb (i + 0) (16 + 0) (omega (arith, h)), (==_iff i i).1 refl) refl

-- With room on the stack an input that is pushed is what the next pop returns, and the stack is then
-- as high as before.
pub pop-push :
    (input i : ℕ) (slots : ℕ → ℕ)
    → i < 16
    → (t : InputStack) × (librecomp_fragment_input_push input (record { slots = slots; sp = pos i })
        ≡ some t)
      × ((librecomp_fragment_input_pop t).0 ≡ input)
      × ((librecomp_fragment_input_pop t).1.sp ≡ pos i)
unfolding librecomp_fragment_input_push librecomp_fragment_input_pop
pop-push input i slots h =
    let slots' : ℕ → ℕ = if ltb_ℤ (pos i) input_stack_depth then update slots i input else slots in
    let back = there_and_back i in
    (
      record { slots = slots'; sp = pos i +ℤ pos 1 },
      refl,
      ap (λ (z : ℤ). slots' (slot_or_first z)) back ∙ stored input i slots h,
      back,
    )

-- After a pop from an empty stack the next push writes in front of the array.
pub push-pop_empty :
    (input : ℕ) (slots : ℕ → ℕ)
    → librecomp_fragment_input_push input
        (librecomp_fragment_input_pop (record { slots = slots; sp = pos 0 })).1
      ≡ none
unfolding librecomp_fragment_input_push librecomp_fragment_input_pop ◌-ℤ◌
push-pop_empty input slots = refl
