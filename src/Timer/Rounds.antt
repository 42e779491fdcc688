-- ===== src/Timer/Rounds.antt =====
-- Rounds of the timer thread, and what its commands mean for the set of pending timers.
use n64modern_runtime.Base.{
  ℕ, ◌*◌, ◌≤◌, ◌≡◌, refl, List, [], ◌∷◌, leb, ◌==◌, le→leb, if_cases, All-map,
}
use n64modern_runtime.Timer.Pending.{
  IsOrdered, before_ne, insert-IsOrdered, apply_command-IsOrdered, drain-IsOrdered, block-IsOrdered,
  erase_first, insert_first, store-IsOrdered,
}
use n64modern_runtime.Timer.{
  ticks_to_duration, TimerCommand, Timers, apply_command, TimerRound, fire, wait, wait_for_first,
  timer_round, fired, preempted, blocked,
}

-- The pending timers of what a round leaves.
abbrev pub InTimerRound : {S : Type 0} → (Timers S → Type 0) → TimerRound S → Type 0
InTimerRound P (blocked s) = P s
InTimerRound P (preempted s) = P s
InTimerRound P (fired s) = P s

abbrev pub PendingIsOrdered : {S : Type 0} → Timers S → Type 0
PendingIsOrdered s = IsOrdered s.timers s.pending

module _ {S : Type 0} (os_send_mesg : S → (mq msg : ℕ) → S) where
  fire-IsOrdered :
      (s : Timers S) (a later : ℕ) (rest : List ℕ)
      → IsOrdered s.timers (a ∷ rest)
      → PendingIsOrdered (fire os_send_mesg s a later rest)
  unfolding fire
  fire-IsOrdered s a later rest (h, r) =
      if_cases PendingIsOrdered ((s.timers a).interval == 0) (λ _. r)
        (λ _.
          insert-IsOrdered _ a rest
            (store-IsOrdered s.timers a _ rest (All-map rest (λ b. before_ne s.timers a b) h) r))

  wait-IsOrdered :
      (s : Timers S) (a now later : ℕ) (rest : List ℕ) (cs : List TimerCommand)
      → IsOrdered s.timers (a ∷ rest)
      → InTimerRound PendingIsOrdered (wait os_send_mesg s a now later rest cs)
  unfolding wait
  wait-IsOrdered s a now later rest [] h = fire-IsOrdered _ a later rest h
  wait-IsOrdered s a now later rest (c ∷ cs) h =
      if_cases (InTimerRound PendingIsOrdered)
        (leb now (ticks_to_duration (s.timers a).timestamp * 1000))
        (λ _. apply_command-IsOrdered s.timers c _ (insert-IsOrdered s.timers a rest h.1))
        (λ _. fire-IsOrdered _ a later rest h)

  wait_for_first-IsOrdered :
      (s : Timers S) (now later : ℕ) (q : List TimerCommand × List ℕ)
      → IsOrdered s.timers q.1
      → InTimerRound PendingIsOrdered (wait_for_first os_send_mesg s now later q)
  unfolding wait_for_first
  wait_for_first-IsOrdered s now later (cs, []) h = tt
  wait_for_first-IsOrdered s now later (cs, a ∷ l) h =
      wait-IsOrdered s a now later _ cs (rw (erase_first s.timers a l) h)

  -- If the pending timers are ordered by deadline and address, without repetition, then they are so
  -- after every round of the timer thread, whatever commands wait or arrive, whether it blocks, is
  -- preempted, or fires a timer and arms it again with a new deadline.
  pub timer_round-IsOrdered :
      (s : Timers S) (now later : ℕ) (arriving : List TimerCommand)
      → IsOrdered s.timers s.pending
      → InTimerRound PendingIsOrdered (timer_round os_send_mesg s now later arriving)
  unfolding timer_round
  timer_round-IsOrdered s now later arriving h =
      wait_for_first-IsOrdered s now later _
        (block-IsOrdered s.timers arriving _ (drain-IsOrdered s.timers s.commands s.pending h))

  -- A command that comes before the deadline of the first pending timer has the effect that it has
  -- on the set from which that timer was never taken out.
  pub wait-preempted :
      (s : Timers S) (a now later : ℕ) (l : List ℕ) (c : TimerCommand) (cs : List TimerCommand)
      → IsOrdered s.timers (a ∷ l)
      → now ≤ ticks_to_duration (s.timers a).timestamp * 1000
      → wait_for_first os_send_mesg s now later (c ∷ cs, a ∷ l)
        ≡ preempted (record s { pending = apply_command s.timers c (a ∷ l); commands = cs })
  unfolding wait_for_first wait
  wait-preempted s a now later l c cs h early =
      rw
        (
          erase_first s.timers a l,
          le→leb now (ticks_to_duration (s.timers a).timestamp * 1000) early,
          insert_first s.timers a l h,
        )
        refl
