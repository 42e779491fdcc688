-- ===== src/Mods/Order/Moved.antt =====
-- Where set_mod_index puts a mod, in the view of all games.
use n64modern_runtime.Base.{
  ℕ, zero, suc, ◌+◌, ◌-◌, ◌≤◌, ◌<◌, ◌≡◌, refl, ap, ◌∙◌, ◌≢◌, inl, inr, Bool, true, false, Option,
  some, List, [], ◌∷◌, ◌++◌, arith, ◌==◌, if◌then◌else◌, ==_iff, ==_false, ==_apart, Bool-cases,
  length, All,
}
use mathlib.Core.List.{append-nil, append_assoc}
use n64modern_runtime.Mods.Order.{
  Scan, scan_at, passed_over, behind_it, scan_entry, scan, append_if_missing, set_mod_index,
}
use mathlib.Core.Option

-- The order without the mod, and the mod put in at a position, or at the end when that is past it.
unfoldable pub remove : ℕ → List ℕ → List ℕ
remove a [] = []
remove a (b ∷ l) = let rest = remove a l in if a == b then l else b ∷ rest

unfoldable pub insert_at : ℕ → ℕ → List ℕ → List ℕ
insert_at k a [] = a ∷ []
insert_at k a (b ∷ l) = let rest = insert_at (k - 1) a l in if k == 0 then a ∷ b ∷ l else b ∷ rest

snoc_append : (kept : List ℕ) (e : ℕ) (l : List ℕ) → (kept ++ e ∷ []) ++ l ≡ kept ++ e ∷ l
snoc_append kept e l = append_assoc kept (e ∷ []) l

passed_append : (kept l : List ℕ) → (kept ++ passed_over l) ++ behind_it l ≡ kept ++ l
passed_append kept [] = append-nil (kept ++ [])
passed_append kept (e ∷ l) = append_assoc kept (e ∷ []) l

-- Every mod is visible.
abbrev pub all_games : ℕ → Bool
all_games e = true

module _ (mod_index index : ℕ) where
  abbrev step_scan : ℕ → Scan → Option (List ℕ × Bool)
  step_scan = scan all_games mod_index index

  -- Both done: the loop stops.
  scan_done :
      (f : ℕ) (kept rest : List ℕ) (v : ℕ)
      → 0 < f
      → step_scan f (scan_at kept rest v true true) ≡ some (kept ++ rest, true)
  unfolding scan scan_entry
  scan_done zero kept rest v h = absurd (omega arith)
  scan_done (suc f) kept [] v h = refl
  scan_done (suc f) kept (e ∷ rest) v h = refl

  -- Inserted, and the old entry still to be found.
  scan_inserted :
      (f : ℕ) (kept rest : List ℕ) (v : ℕ)
      → length rest + 1 < f
      → index < v
      → step_scan f (scan_at kept rest v true false) ≡ some (kept ++ remove mod_index rest, true)
  unfolding scan scan_entry remove
  scan_inserted zero kept rest v h l = absurd (omega arith)
  scan_inserted (suc f) kept [] v h l = refl
  scan_inserted (suc f) kept (e ∷ rest) v h l =
      rw (==_apart index v (omega (arith, l))) (elim (Bool-cases (mod_index == e)) [
        | inl q ↦ rw q (
            scan_done f (kept ++ passed_over rest) (behind_it rest) (suc v) (omega arith)
            ∙ ap (λ (z : List ℕ). some (z, true)) (passed_append kept rest))
        | inr q ↦ rw q (
            scan_inserted f (kept ++ e ∷ []) rest (suc v) (omega arith) (omega arith)
            ∙ ap (λ (z : List ℕ). some (z, true)) (snoc_append kept e (remove mod_index rest)))
      ])

  abbrev end_of : Option (List ℕ × Bool) → Option (List ℕ)
  end_of o = Option.map (append_if_missing all_games mod_index index) o

  -- Erased, and the new slot still to be found.
  scan_erased :
      (f : ℕ) (kept rest : List ℕ) (v : ℕ)
      → length rest + 1 < f
      → v ≤ index
      → All (λ e. mod_index ≢ e) rest
      → end_of (step_scan f (scan_at kept rest v false true))
        ≡ some (kept ++ insert_at (index - v) mod_index rest)
  unfolding scan scan_entry insert_at
  scan_erased zero kept rest v h l once = absurd (omega arith)
  scan_erased (suc f) kept [] v h l once =
      ap (λ (z : List ℕ). some (z ++ mod_index ∷ [])) (append-nil kept)
  scan_erased (suc f) kept (e ∷ rest) v h l (ne, once) = elim (Bool-cases (index == v)) [
    | inl q ↦
        let here = (==_iff index v).0 q in
        let none_left : index - v ≡ 0 = omega (arith, here) in
        rw (q, none_left)
          (ap end_of (scan_done f (kept ++ mod_index ∷ []) (e ∷ rest) (suc v) (omega arith))
            ∙ ap (λ (z : List ℕ). some z) (snoc_append kept mod_index (e ∷ rest)))
    | inr q ↦
        let later = ==_false index v q in
        let one_less : index - v - 1 ≡ index - suc v = omega arith in
        rw (q, ==_apart mod_index e ne, ==_apart (index - v) 0 (omega (arith, later, l)), one_less)
          (scan_erased f (kept ++ e ∷ []) rest (suc v) (omega arith) (omega (arith, later, l)) once
            ∙ ap (λ (z : List ℕ). some z)
                (snoc_append kept e (insert_at (index - suc v) mod_index rest)))
  ]

  insert_at_first : (l : List ℕ) → insert_at 0 mod_index l ≡ mod_index ∷ l
  unfolding insert_at
  insert_at_first [] = refl
  insert_at_first (e ∷ l) = refl

  insert_at_end : (k : ℕ) → insert_at k mod_index [] ≡ mod_index ∷ []
  unfolding insert_at
  insert_at_end k = refl

  insert_at_later :
      (k e : ℕ) (l : List ℕ)
      → k ≢ 0
      → insert_at k mod_index (e ∷ l) ≡ e ∷ insert_at (k - 1) mod_index l
  unfolding insert_at
  insert_at_later k e l h = rw (==_apart k 0 h) refl

  behind_it-All :
      (rest : List ℕ) → All (λ e. mod_index ≢ e) rest → All (λ e. mod_index ≢ e) (behind_it rest)
  behind_it-All [] h = tt
  behind_it-All (e ∷ l) h = h.1

  length-behind_it : (rest : List ℕ) → length (behind_it rest) ≤ length rest
  length-behind_it [] = omega arith
  length-behind_it (e ∷ l) = omega arith

  -- The entry that is passed over stands before the slot.
  past_one :
      (kept rest : List ℕ) (v : ℕ)
      → v < index
      → (kept ++ passed_over rest) ++ insert_at (index - suc v) mod_index (behind_it rest)
        ≡ kept ++ insert_at (index - v) mod_index rest
  unfolding insert_at
  past_one kept [] v l = ap (λ (z : List ℕ). z ++ mod_index ∷ []) (append-nil kept)
  past_one kept (e ∷ rest) v l =
      let one_less : index - v - 1 ≡ index - suc v = omega arith in
      rw (==_apart (index - v) 0 (omega (arith, l)), one_less)
        (snoc_append kept e (insert_at (index - suc v) mod_index rest))

  scan_neither :
      (f : ℕ) (kept rest : List ℕ) (v : ℕ)
      → length rest + 2 < f
      → v ≤ index
      → All (λ e. mod_index ≢ e) (remove mod_index rest)
      → end_of (step_scan f (scan_at kept rest v false false))
        ≡ some (kept ++ insert_at (index - v) mod_index (remove mod_index rest))
  unfolding scan scan_entry remove
  scan_neither zero kept rest v h l once = absurd (omega arith)
  scan_neither (suc f) kept [] v h l once =
      rw (insert_at_end (index - v))
        (ap (λ (z : List ℕ). some (z ++ mod_index ∷ [])) (append-nil kept))
  scan_neither (suc f) kept (e ∷ rest) v h l once = elim (Bool-cases (index == v)) [
    | inl q ↦
        let here = (==_iff index v).0 q in
        let none_left : index - v ≡ 0 = omega (arith, here) in
        rw (q, none_left, insert_at_first (remove mod_index (e ∷ rest)))
          (ap end_of (
              scan_inserted f (kept ++ mod_index ∷ []) (e ∷ rest) (suc v) (omega arith)
                (omega (arith, here)))
            ∙ ap (λ (z : List ℕ). some z)
                (snoc_append kept mod_index (remove mod_index (e ∷ rest))))
    | inr q ↦
        let later = ==_false index v q in
        elim (Bool-cases (mod_index == e)) [
          | inl same ↦
              rw (q, same)
                (scan_erased f (kept ++ passed_over rest) (behind_it rest) (suc v)
                    (omega (arith, length-behind_it rest)) (omega (arith, later, l))
                    (behind_it-All rest (rw same at once))
                  ∙ ap (λ (z : List ℕ). some z) (past_one kept rest v (omega (arith, later, l))))
          | inr other ↦
              let one_less : index - v - 1 ≡ index - suc v = omega arith in
              rw
                (
                  q,
                  other,
                  insert_at_later (index - v) e (remove mod_index rest) (omega (arith, later, l)),
                  one_less,
                )
                (scan_neither f (kept ++ e ∷ []) rest (suc v) (omega arith)
                    (omega (arith, later, l)) (rw other at once).1
                  ∙ ap (λ (z : List ℕ). some z)
                      (snoc_append kept e
                        (insert_at (index - suc v) mod_index (remove mod_index rest))))
        ]
  ]

  -- In the view of all games, a mod that occurs at most once in the order is moved to the requested
  -- position of the order without it, or to the end when that position is past it; the other mods
  -- keep their order, and the loop ends within its fuel.
  pub set_mod_index-moves :
      (order : List ℕ)
      → All (λ e. mod_index ≢ e) (remove mod_index order)
      → set_mod_index all_games mod_index index order
        ≡ some (insert_at index mod_index (remove mod_index order))
  unfolding set_mod_index
  set_mod_index-moves order once =
      let whole : index - 0 ≡ index = omega arith in
      scan_neither (length order + 3) [] order 0 (omega arith) (omega arith) once
      ∙ ap (λ (k : ℕ). some (insert_at k mod_index (remove mod_index order))) whole
