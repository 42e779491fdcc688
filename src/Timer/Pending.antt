-- ===== src/Timer/Pending.antt =====
-- The set of pending timers stays ordered by deadline.
use n64modern_runtime.Base.{
  ℕ, ◌≤◌, ◌≡◌, refl, sym, ◌∙◌, ◌≢◌, true, false, List, [], ◌∷◌, arith, ltb, ◌==◌, if◌then◌else◌,
  ==_apart, if_cases, All, All-map,
}
use n64modern_runtime.Timer.{
  OsTimer, TimerCommand, store, by_deadline, insert, erase, apply_command, drain, block,
  timer_cancel, timer_insert,
}

-- Every member comes before all that follow it.
abbrev pub IsOrdered : (ℕ → OsTimer) → List ℕ → Type 0
IsOrdered t [] = Unit
IsOrdered t (a ∷ l) = All (λ b. by_deadline t a b ≡ true) l × IsOrdered t l

pub before_trans :
    (x y z a b c : ℕ)
    → (if x == y then ltb a b else ltb x y) ≡ true
    → (if y == z then ltb b c else ltb y z) ≡ true
    → (if x == z then ltb a c else ltb x z) ≡ true
before_trans x y z a b c p q = ground arith

before_apart :
    (x y a b : ℕ)
    → (if x == y then ltb a b else ltb x y) ≡ true
    → (if y == x then ltb b a else ltb y x) ≡ false
before_apart x y a b p = ground arith

pub before_total :
    (x y a b : ℕ)
    → (if x == y then ltb a b else ltb x y) ≡ false
    → (if y == x then ltb b a else ltb y x) ≡ false
    → a ≡ b
before_total x y a b p q = ground arith

pub before_le : (x y a b : ℕ) → (if x == y then ltb a b else ltb x y) ≡ true → x ≤ y
before_le x y a b p = ground arith

module _ (t : ℕ → OsTimer) where
  abbrev time : ℕ → ℕ
  time a = (t a).timestamp

  pub before_irrefl : (a : ℕ) → by_deadline t a a ≡ false
  before_irrefl a = ground arith

  pub before_ne : (a b : ℕ) → by_deadline t a b ≡ true → b ≢ a
  before_ne a b h e = let q = sym (rw e at h) ∙ before_irrefl a in cc

  insert-All : (P : ℕ → Type 0) (a : ℕ) (l : List ℕ) → P a → All P l → All P (insert t a l)
  unfolding insert
  insert-All P a [] p h = (p, tt)
  insert-All P a (b ∷ l) p (pb, h) =
      if_cases (All P) (by_deadline t a b) (λ _. (p, (pb, h)))
        λ _. if_cases (All P) (by_deadline t b a) (λ _. (pb, insert-All P a l p h)) (λ _. (pb, h))

  pub insert-IsOrdered : (a : ℕ) (l : List ℕ) → IsOrdered t l → IsOrdered t (insert t a l)
  unfolding insert
  insert-IsOrdered a [] h = (tt, tt)
  insert-IsOrdered a (b ∷ l) (hb, h) =
      if_cases (IsOrdered t) (by_deadline t a b)
        (λ ab. (
          (ab, All-map l (λ c bc. before_trans (time a) (time b) (time c) a b c ab bc) hb),
          (hb, h),
        ))
        λ _.
          if_cases (IsOrdered t) (by_deadline t b a)
            (λ ba. (insert-All _ a l ba hb, insert-IsOrdered a l h)) (λ _. (hb, h))

  erase-All : (P : ℕ → Type 0) (a : ℕ) (l : List ℕ) → All P l → All P (erase t a l)
  unfolding erase
  erase-All P a [] h = tt
  erase-All P a (b ∷ l) (pb, h) =
      if_cases (All P) (by_deadline t a b) (λ _. (pb, h))
        λ _. if_cases (All P) (by_deadline t b a) (λ _. (pb, erase-All P a l h)) (λ _. h)

  pub erase-IsOrdered : (a : ℕ) (l : List ℕ) → IsOrdered t l → IsOrdered t (erase t a l)
  unfolding erase
  erase-IsOrdered a [] h = tt
  erase-IsOrdered a (b ∷ l) (hb, h) =
      if_cases (IsOrdered t) (by_deadline t a b) (λ _. (hb, h))
        λ _.
          if_cases (IsOrdered t) (by_deadline t b a)
            (λ _. (erase-All _ a l hb, erase-IsOrdered a l h)) (λ _. h)

  pub apply_command-IsOrdered :
      (c : TimerCommand) (l : List ℕ) → IsOrdered t l → IsOrdered t (apply_command t c l)
  unfolding apply_command
  apply_command-IsOrdered (timer_insert a) l h = insert-IsOrdered a l h
  apply_command-IsOrdered (timer_cancel a) l h = erase-IsOrdered a l h

  pub drain-IsOrdered :
      (cs : List TimerCommand) (l : List ℕ) → IsOrdered t l → IsOrdered t (drain t cs l)
  unfolding drain
  drain-IsOrdered [] l h = h
  drain-IsOrdered (c ∷ cs) l h = drain-IsOrdered cs _ (apply_command-IsOrdered c l h)

  pub block-IsOrdered :
      (cs : List TimerCommand) (l : List ℕ) → IsOrdered t l → IsOrdered t (block t cs l).1
  unfolding block
  block-IsOrdered [] l h = h
  block-IsOrdered (c ∷ cs) [] h = block-IsOrdered cs _ (apply_command-IsOrdered c [] h)
  block-IsOrdered (c ∷ cs) (a ∷ l) h = h

  -- The first member can be taken out and put back.
  pub erase_first : (a : ℕ) (l : List ℕ) → erase t a (a ∷ l) ≡ l
  unfolding erase
  erase_first a l = rw before_irrefl refl

  pub insert_first : (a : ℕ) (l : List ℕ) → IsOrdered t (a ∷ l) → insert t a l ≡ a ∷ l
  unfolding insert
  insert_first a [] h = refl
  insert_first a (b ∷ l) ((ab, hb), h) = rw ab refl

-- Another deadline for a timer that is no member leaves the order.
store_other : (t : ℕ → OsTimer) (a : ℕ) (v : OsTimer) (b : ℕ) → b ≢ a → store t a v b ≡ t b
store_other t a v b h = rw (==_apart b a h) refl

store-All :
    (t : ℕ → OsTimer) (a : ℕ) (v : OsTimer) (b : ℕ) (l : List ℕ)
    → b ≢ a
    → All (λ c. c ≢ a) l
    → All (λ c. by_deadline t b c ≡ true) l
    → All (λ c. by_deadline (store t a v) b c ≡ true) l
store-All t a v b [] n m h = tt
store-All t a v b (c ∷ l) n (k, m) (bc, h) =
    (rw (==_apart b a n, ==_apart c a k) bc, store-All t a v b l n m h)

pub store-IsOrdered :
    (t : ℕ → OsTimer) (a : ℕ) (v : OsTimer) (l : List ℕ)
    → All (λ c. c ≢ a) l
    → IsOrdered t l
    → IsOrdered (store t a v) l
store-IsOrdered t a v [] m h = tt
store-IsOrdered t a v (b ∷ l) (n, m) (hb, h) =
    (store-All t a v b l n m hb, store-IsOrdered t a v l m h)
