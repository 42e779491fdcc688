-- ===== src/EventRing/Recent.antt =====
-- What `*_recent_copy` returns, against the whole history of the recorded events.
use n64modern_runtime.Base.{
  ℕ, zero, suc, ◌+◌, ◌-◌, ◌%◌, ◌^◌, ◌≤◌, ◌<◌, min, ◌≡◌, refl, sym, ap, ap₂, ◌∙◌, inl, inr, false,
  some, List, [], ◌∷◌, ◌++◌, arith, ◌==◌, ==_iff, ==_false, ==_apart, Bool-cases, length, get_elem?,
  length-append, drop,
}
use mathlib.Core.List.{append-nil, append_assoc}
use n64modern_runtime.EventRing.{Ring, ring_cap, push, copy_from, recent_copy}

module _ {ℓ} {A : Type ℓ} where
  -- The ring keeps the newest `ring_cap` events of a history, each in the slot of its number.
  pub record Holds (r : Ring A) (history : List A) : Type ℓ where
    pub counted : r.next_seq ≡ length history
    pub kept :
        (i : ℕ)
        → i < length history
        → length history ≤ i + ring_cap
        → get_elem? history i ≡ some (r.slot (i % ring_cap))

  -- One `record` after another.
  pub push_all : Ring A → List A → Ring A
  push_all r [] = r
  push_all r (e ∷ es) = push_all (push r e) es

  get_elem?-append_left :
      (xs ys : List A) (i : ℕ) → i < length xs → get_elem? (xs ++ ys) i ≡ get_elem? xs i
  get_elem?-append_left [] ys i h = absurd (omega arith)
  get_elem?-append_left (x ∷ xs) ys zero h = refl
  get_elem?-append_left (x ∷ xs) ys (suc i) h = get_elem?-append_left xs ys i (omega arith)

  get_elem?-append_end : (xs : List A) (e : A) → get_elem? (xs ++ e ∷ []) (length xs) ≡ some e
  get_elem?-append_end [] e = refl
  get_elem?-append_end (x ∷ xs) e = get_elem?-append_end xs e

  push-kept :
      (r : Ring A) (history : List A) (e : A)
      → Holds r history
      → (i : ℕ) → i < length (history ++ e ∷ [])
      → length (history ++ e ∷ []) ≤ i + ring_cap
      → get_elem? (history ++ e ∷ []) i ≡ some ((push r e).slot (i % ring_cap))
  unfolding push
  push-kept r history e v i p q = elim (Bool-cases (i == length history)) [
    | inl same ↦
        let at : i ≡ length history = (==_iff _ _).0 same in
        rw (at, get_elem?-append_end history e, v.counted, (==_iff n n).1 refl)
    | inr other ↦
        let below : i < length history =
          omega (arith, length-append history (e ∷ []), ==_false i (length history) other) in
        rw (
          get_elem?-append_left history (e ∷ []) i below,
          v.kept i below (omega (arith, length-append history (e ∷ []))),
          ==_apart (r.next_seq % ring_cap) (i % ring_cap)
              (omega (arith, length-append history (e ∷ []), v.counted)),
        )
  ]
    where
      n : ℕ
      n = length history % ring_cap

  push-Holds :
      (r : Ring A) (history : List A) (e : A)
      → length history + 1 < 2 ^ 64
      → Holds r history
      → Holds (push r e) (history ++ e ∷ [])
  unfolding push
  push-Holds r history e h v = record {
    counted = omega (arith, v.counted, length-append history (e ∷ []));
    kept = push-kept r history e v;
  }

  push_all-Holds :
      (r : Ring A) (history es : List A)
      → length history + length es < 2 ^ 64
      → Holds r history
      → Holds (push_all r es) (history ++ es)
  unfolding push_all
  push_all-Holds r history [] h v = rw append-nil v
  push_all-Holds r history (e ∷ es) h v = rw (append_assoc history (e ∷ []) es) at (
      push_all-Holds (push r e) (history ++ e ∷ []) es
        (omega (arith, length-append history (e ∷ []))) (push-Holds r history e (omega arith) v))

  drop-cons :
      (xs : List A) (i : ℕ) (x : A) → get_elem? xs i ≡ some x → drop i xs ≡ x ∷ drop (suc i) xs
  drop-cons [] i x h = cc
  drop-cons (y ∷ xs) zero x h = cc
  drop-cons (y ∷ xs) (suc i) x h = drop-cons xs i x h

  drop_all : (xs : List A) (i : ℕ) → length xs ≤ i → drop i xs ≡ []
  drop_all [] zero h = refl
  drop_all [] (suc i) h = refl
  drop_all (x ∷ xs) zero h = absurd (omega arith)
  drop_all (x ∷ xs) (suc i) h = drop_all xs i (omega arith)

  copy_from-drop :
      (r : Ring A) (history : List A) (start i n : ℕ)
      → Holds r history
      → start + i + n ≡ length history
      → i + n ≤ ring_cap
      → copy_from r (start % ring_cap) i n ≡ drop (start + i) history
  unfolding copy_from
  copy_from-drop r history start i zero v e h = sym (drop_all history (start + i) (omega arith))
  copy_from-drop r history start i (suc n) v e h =
      rw
        (
          drop-cons history (start + i) _ (v.kept (start + i) (omega arith) (omega arith)),
          copy_from-drop r history start (i + 1) n v (omega arith) (omega arith),
        )
        (ap₂ (λ (a : ℕ) (b : ℕ). r.slot a ∷ drop b history) wraps moves)
    where
      wraps : (start % ring_cap + i) % ring_cap ≡ (start + i) % ring_cap
      wraps = omega arith

      moves : start + (i + 1) ≡ suc (start + i)
      moves = omega arith

  -- Of a history of fewer than 2^64 events recorded into a fresh ring, `recent_copy` with room for
  -- `room > 0` returns exactly the newest min(room, RING_CAP) of them (all, if there are fewer),
  -- oldest first, with their number and the number of events ever recorded.
  pub recent_copy-push_all :
      (r : Ring A) (history : List A) (room : ℕ)
      → r.next_seq ≡ 0
      → length history < 2 ^ 64
      → 0 < room
      → let want = min room (min (length history) ring_cap) in
        recent_copy (push_all r history) false room
        ≡ (drop (length history - want) history, want, length history)
  unfolding recent_copy
  recent_copy-push_all r history room fresh h p =
      let v =
        push_all-Holds r [] history (omega arith)
          (record { counted = fresh; kept = λ i p q. absurd (omega arith) }) in
      rw (v.counted, ==_apart room 0 (omega arith))
        (ap (λ xs. (xs, want, length history))
          (copy_from-drop (push_all r history) history (length history - want) 0 want v
              (omega arith) (omega arith)
            ∙ ap (λ k. drop k history) (omega arith)))
    where
      want : ℕ
      want = min room (min (length history) ring_cap)
