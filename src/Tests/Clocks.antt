-- ===== src/Tests/Clocks.antt =====
-- The theorems on timers at concrete inputs.
use n64modern_runtime.Base.{
  ℕ, ◌*◌, ◌≤◌, ◌≡◌, refl, true, List, [], ◌∷◌, arith, ◌==◌, if◌then◌else◌, All,
}
use n64modern_runtime.Timer.Fires.{timer_round-fires}
use n64modern_runtime.Timer.Members.{holds, active, drain-holds}
use n64modern_runtime.Timer.Rounds.{InTimerRound, PendingIsOrdered, timer_round-IsOrdered}
use n64modern_runtime.Timer.Pending.{IsOrdered}
use n64modern_runtime.Timer.{
  ticks_to_duration, OsTimer, TimerCommand, Timers, insert, apply_command, drain, timer_round,
  timer_cancel, timer_insert, fired,
}

-- Timers at the addresses 8 (one-shot, deadline 500) and 16 (periodic, deadline 300).
abbrev two_timers : ℕ → OsTimer
two_timers a =
    if a == 8
    then record { interval = 0; timestamp = 500; mq = 1; msg = 11 }
    else record { interval = 1000; timestamp = 300; mq = 2; msg = 22 }

-- The runtime is the list of the messages sent, newest first.
abbrev send : List (ℕ × ℕ) → (mq msg : ℕ) → List (ℕ × ℕ)
send sent mq msg = (mq, msg) ∷ sent

abbrev started : List ℕ → List TimerCommand → Timers (List (ℕ × ℕ))
started pending commands = record {
  timers = two_timers;
  pending = pending;
  commands = commands;
  ostime_offset = 0;
  os = [];
}

in_order : IsOrdered two_timers (16 ∷ 8 ∷ [])
in_order = ((refl, tt), (tt, tt))

timer_round-IsOrdered_example :
    InTimerRound PendingIsOrdered (timer_round send (started (16 ∷ 8 ∷ []) []) 0 9000 [])
timer_round-IsOrdered_example =
    timer_round-IsOrdered send (started (16 ∷ 8 ∷ []) []) 0 9000 [] in_order

timer_round-fires_example :
    (s' : Timers (List (ℕ × ℕ))) × (timer_round send
        (started (8 ∷ []) (timer_insert 16 ∷ []))
        0
        9000
        []
      ≡ fired s')
    × (s'.os ≡ (2, 22) ∷ [])
    × (s'.commands ≡ [])
    × All (λ b. 300 ≤ (two_timers b).timestamp) (8 ∷ [])
    × ((b : ℕ) → holds b s'.pending ≡ (if b == 16 then true else holds b (8 ∷ [])))
unfolding drain apply_command insert
timer_round-fires_example =
    timer_round-fires send (started (8 ∷ []) (timer_insert 16 ∷ [])) 0 9000 16 (8 ∷ []) refl
      in_order

drain-holds_example :
    holds 8 (drain two_timers (timer_cancel 8 ∷ timer_insert 16 ∷ []) (16 ∷ 8 ∷ []))
    ≡ active 8 (timer_cancel 8 ∷ timer_insert 16 ∷ []) (holds 8 (16 ∷ 8 ∷ []))
drain-holds_example =
    drain-holds two_timers 8 (timer_cancel 8 ∷ timer_insert 16 ∷ []) (16 ∷ 8 ∷ []) in_order

early : 4000 ≤ ticks_to_duration 300 * 1000
unfolding ticks_to_duration
early = omega arith
