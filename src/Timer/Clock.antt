-- ===== src/Timer/Clock.antt =====
-- The clock of the game: setting it and reading it, and its unit.
use n64modern_runtime.Base.{ℕ, ◌+◌, ◌-◌, ◌*◌, ◌/◌, ◌%◌, ◌≤◌, ◌<◌, ◌≡◌, arith}
use n64modern_runtime.Timer.{
  two_64, duration_to_ticks, ticks_to_duration, time_now, Timers, os_get_time, os_set_time,
}

duration_bound : (micros : ℕ) → duration_to_ticks micros < two_64
unfolding duration_to_ticks
duration_bound micros = omega arith

time_bound : (now : ℕ) → time_now now < two_64
unfolding time_now
time_bound now = duration_bound (now / 1000)

set_and_read :
    (a b t : ℕ)
    → a ≤ b
    → b < two_64
    → t < two_64
    → (b + (two_64 - (a + (two_64 - t)) % two_64)) % two_64 ≡ (t + (b - a)) % two_64
set_and_read a b t h bb tt = omega arith

-- A game that sets the time and reads it later, when the counter has not gone back, reads the time
-- it set plus the counter's ticks in between, modulo 2^64, whatever the offset was before.
pub os_get_time-os_set_time :
    {S : Type 0} (s : Timers S) (now later t : ℕ)
    → t < two_64
    → time_now now ≤ time_now later
    → os_get_time (os_set_time s now t) later ≡ (t + (time_now later - time_now now)) % two_64
unfolding os_get_time os_set_time
os_get_time-os_set_time s now later t small h =
    set_and_read (time_now now) (time_now later) t h (time_bound later) small

-- A deadline of `ticks`, turned into microseconds and back, comes out no later, and less than 48
-- ticks early, as long as the products stay within 64 bits.
pub duration_to_ticks-ticks_to_duration :
    (ticks : ℕ)
    → ticks * 1000 < two_64
    → (duration_to_ticks (ticks_to_duration ticks) ≤ ticks)
      × (ticks < duration_to_ticks (ticks_to_duration ticks) + 48)
unfolding duration_to_ticks ticks_to_duration
duration_to_ticks-ticks_to_duration ticks h = (omega arith, omega arith)
