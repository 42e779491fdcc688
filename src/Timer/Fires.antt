-- ===== src/Timer/Fires.antt =====
-- A timer that fires.
use n64modern_runtime.Base.{
  ℕ, ◌≤◌, ◌≡◌, refl, ◌∙◌, inl, inr, Bool, true, false, not, ◌||◌, List, [], ◌∷◌, ◌==◌,
  if◌then◌else◌, ==_iff, Bool-cases, if_cases, All, All-map,
}
use n64modern_runtime.Timer.Members.{holds, holds-insert, not_held}
use n64modern_runtime.Timer.Pending.{IsOrdered, before_le, erase_first}
use n64modern_runtime.Timer.{
  OsTimer, Timers, drain, block, fire, wait, wait_for_first, timer_round, fired,
}

module _ (t : ℕ → OsTimer) (a : ℕ) (l : List ℕ) (h : IsOrdered t (a ∷ l)) where
  not_later : All (λ b. (t a).timestamp ≤ (t b).timestamp) l
  not_later = All-map l (λ b ab. before_le (t a).timestamp (t b).timestamp a b ab) h.0

  once : (b : ℕ) → holds b l ≡ (if b == a then false else holds b l)
  once b = elim (Bool-cases (b == a)) [
    | inl e ↦ rw (e, (==_iff b a).0 e) (not_held t a l h.0)
    | inr n ↦ rw n refl
  ]

or_if : (x y : Bool) → (x || y) ≡ (if x then true else y)
or_if true y = refl
or_if false y = refl

-- The two ways in which a timer can fire.
either_way :
    {S : Type 0} (z : Bool) (x y : Timers S) (b a : ℕ) (old : Bool)
    → holds b x.pending ≡ (if b == a then false else old)
    → holds b y.pending ≡ (if b == a then true else old)
    → holds b (if z then x else y).pending ≡ (if b == a then not z else old)
either_way true x y b a old p q = p
either_way false x y b a old p q = q

module _ {S : Type 0} (os_send_mesg : S → (mq msg : ℕ) → S) where
  fire-holds :
      (s : Timers S) (a later : ℕ) (l : List ℕ)
      → IsOrdered s.timers (a ∷ l)
      → (b : ℕ)
      → holds b (fire os_send_mesg s a later l).pending
        ≡ (if b == a then not ((s.timers a).interval == 0) else holds b l)
  unfolding fire
  fire-holds s a later l h b =
      either_way ((s.timers a).interval == 0) _ _ b a (holds b l) (once s.timers a l h b)
        (holds-insert _ b a l ∙ or_if (b == a) (holds b l))

  fire-os :
      (s : Timers S) (a later : ℕ) (l : List ℕ)
      → ((fire os_send_mesg s a later l).os ≡ os_send_mesg s.os (s.timers a).mq (s.timers a).msg)
        × ((fire os_send_mesg s a later l).commands ≡ s.commands)
  unfolding fire
  fire-os s a later l =
      let P : Timers S → Type 0 = λ x.
        (x.os ≡ os_send_mesg s.os (s.timers a).mq (s.timers a).msg) × (x.commands ≡ s.commands) in
      if_cases P ((s.timers a).interval == 0) (λ _. (refl, refl)) (λ _. (refl, refl))

  -- When no command comes during the wait, and the pending timers are ordered by deadline with `a`
  -- first once the waiting commands are drained, a round fires `a`: its message is sent to its queue,
  -- no other pending timer has an earlier deadline, the others stay pending, and `a` stays pending
  -- just when it has an interval.
  pub timer_round-fires :
      (s : Timers S) (now later a : ℕ) (l : List ℕ)
      → drain s.timers s.commands s.pending ≡ a ∷ l
      → IsOrdered s.timers (a ∷ l)
      → (s' : Timers S) × (timer_round os_send_mesg s now later [] ≡ fired s')
        × (s'.os ≡ os_send_mesg s.os (s.timers a).mq (s.timers a).msg)
        × (s'.commands ≡ [])
        × All (λ b. (s.timers a).timestamp ≤ (s.timers b).timestamp) l
        × ((b : ℕ)
            → holds b s'.pending ≡ (if b == a then not ((s.timers a).interval == 0) else holds b l))
  unfolding timer_round block wait_for_first wait
  timer_round-fires s now later a l e h = (
    fire os_send_mesg drained a later l,
    rw (e, erase_first s.timers a l) refl,
    (fire-os drained a later l).0,
    (fire-os drained a later l).1,
    not_later s.timers a l h,
    fire-holds drained a later l h,
  )
    where
      drained : Timers S
      drained = record s { commands = [] }
