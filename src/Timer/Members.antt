-- ===== src/Timer/Members.antt =====
-- Which timers are pending, as a set: the order by deadline forgotten.
use n64modern_runtime.Base.{
  ℕ, ◌≡◌, refl, sym, ap, ◌∙◌, ◌≢◌, inl, inr, Bool, true, false, ◌||◌, List, [], ◌∷◌, ◌==◌,
  if◌then◌else◌, ==_iff, ==_apart, Bool-cases, if_cases, All, All-map,
}
use n64modern_runtime.Timer.Pending.{
  IsOrdered, before_trans, before_total, before_ne, insert-IsOrdered, erase-IsOrdered,
}
use n64modern_runtime.Timer.{
  OsTimer, TimerCommand, by_deadline, insert, erase, apply_command, drain, timer_insert,
  timer_cancel,
}

-- Whether an address is a member.
unfoldable pub holds : ℕ → List ℕ → Bool
holds a [] = false
holds a (b ∷ l) = (a == b) || holds a l

-- Whether a timer is active after some commands, from whether it was before: the last command for
-- it decides.
unfoldable pub active : ℕ → List TimerCommand → Bool → Bool
active a [] was = was
active a (timer_insert b ∷ cs) was = active a cs (if a == b then true else was)
active a (timer_cancel b ∷ cs) was = active a cs (if a == b then false else was)

or_swap : (x y z : Bool) → (x || (y || z)) ≡ (y || (x || z))
or_swap true true z = refl
or_swap true false z = refl
or_swap false y z = refl

or_self : (x z : Bool) → (x || z) ≡ (x || (x || z))
or_self true z = refl
or_self false z = refl

or_if : (x z : Bool) → (x || z) ≡ (if x then true else z)
or_if true z = refl
or_if false z = refl

module _ (t : ℕ → OsTimer) where
  abbrev time : ℕ → ℕ
  time a = (t a).timestamp

  same_timer : (a b : ℕ) → by_deadline t a b ≡ false → by_deadline t b a ≡ false → a ≡ b
  same_timer a b p q = before_total (time a) (time b) a b p q

  pub holds-insert : (b a : ℕ) (l : List ℕ) → holds b (insert t a l) ≡ ((b == a) || holds b l)
  unfolding holds insert
  holds-insert b a [] = refl
  holds-insert b a (c ∷ l) =
      let P : List ℕ → Type 0 = λ x. holds b x ≡ ((b == a) || ((b == c) || holds b l)) in
      if_cases P (by_deadline t a c) (λ _. refl)
        λ nac.
          if_cases P (by_deadline t c a)
            (λ _.
              ap (λ z. (b == c) || z) (holds-insert b a l) ∙ or_swap (b == c) (b == a) (holds b l))
            (λ nca. rw (same_timer a c nac nca) (or_self (b == c) (holds b l)))

  pub not_held : (a : ℕ) (l : List ℕ) → All (λ c. by_deadline t a c ≡ true) l → holds a l ≡ false
  unfolding holds
  not_held a [] h = refl
  not_held a (c ∷ l) (ac, h) = rw (==_apart a c (λ e. before_ne t a c ac (sym e))) (not_held a l h)

  -- `a` is none of a list, so that taking it out of the set changes nothing.
  without :
      (b a : ℕ) (l : List ℕ) → holds a l ≡ false → holds b l ≡ (if b == a then false else holds b l)
  without b a l h = elim (Bool-cases (b == a)) [
    | inl e ↦ rw (e, (==_iff b a).0 e) h
    | inr n ↦ rw n refl
  ]

  keep_first :
      (b a c : ℕ) (x : Bool)
      → c ≢ a
      → ((b == c) || (if b == a then false else x)) ≡ (if b == a then false else (b == c) || x)
  keep_first b a c x h = elim (Bool-cases (b == a)) [
    | inl e ↦ rw (e, (==_iff b a).0 e, ==_apart a c (λ q. h (sym q))) refl
    | inr n ↦ rw n refl
  ]

  drop_first :
      (b a : ℕ) (l : List ℕ)
      → holds a l ≡ false
      → holds b l ≡ (if b == a then false else (b == a) || holds b l)
  drop_first b a l h = elim (Bool-cases (b == a)) [
    | inl e ↦ rw (e, (==_iff b a).0 e) h
    | inr n ↦ rw n refl
  ]

  holds-erase :
      (b a : ℕ) (l : List ℕ)
      → IsOrdered t l
      → holds b (erase t a l) ≡ (if b == a then false else holds b l)
  unfolding holds erase
  holds-erase b a [] h = without b a [] refl
  holds-erase b a (c ∷ l) (hc, h) =
      let P : List ℕ → Type 0 =
        λ x. holds b x ≡ (if b == a then false else (b == c) || holds b l) in
      if_cases P (by_deadline t a c)
        (λ ac. without b a (c ∷ l) (
          not_held a (c ∷ l)
            (ac, All-map l (λ d cd. before_trans (time a) (time c) (time d) a c d ac cd) hc)))
        λ nac.
          if_cases P (by_deadline t c a)
            (λ ca.
              ap (λ z. (b == c) || z) (holds-erase b a l h)
              ∙ keep_first b a c (holds b l) (λ e. before_ne t c a ca (sym e)))
            (λ nca. rw (same_timer a c nac nca) (drop_first b c l (not_held c l hc)))

  -- From a set of pending timers that is ordered by deadline, the timer thread's drain of the waiting
  -- commands makes a timer pending just when the last command for it was an insertion, or there was
  -- none and it was pending before.
  pub drain-holds :
      (a : ℕ) (cs : List TimerCommand) (l : List ℕ)
      → IsOrdered t l
      → holds a (drain t cs l) ≡ active a cs (holds a l)
  unfolding drain active apply_command
  drain-holds a [] l h = refl
  drain-holds a (timer_insert b ∷ cs) l h =
      drain-holds a cs _ (insert-IsOrdered t b l h)
      ∙ ap (active a cs) (holds-insert a b l ∙ or_if (a == b) (holds a l))
  drain-holds a (timer_cancel b ∷ cs) l h =
      drain-holds a cs _ (erase-IsOrdered t b l h) ∙ ap (active a cs) (holds-erase a b l h)
