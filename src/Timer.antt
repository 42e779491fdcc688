-- ===== src/Timer.antt =====
-- ultramodern/src/timer.cpp: the OS clock and the timers. The timers live in guest memory, here a
-- function of their addresses, and the timer thread keeps the addresses of the active ones in a
-- `std::set` ordered by deadline, here an ordered list.
pub mod Pending
pub mod Fires
pub mod Clock
pub mod Members
pub mod Rounds
use n64modern_runtime.Base.{
  ℕ, ◌+◌, ◌-◌, ◌*◌, ◌/◌, ◌%◌, ◌^◌, Bool, List, [], ◌∷◌, ◌++◌, ltb, leb, ◌==◌, if◌then◌else◌,
}
use n64modern_runtime.Base.Bits.{u32}

-- N64 counter ticks per millisecond; the speed multiplier is 1.
abbrev pub counter_per_ms : ℕ
counter_per_ms = 46875

abbrev pub two_64 : ℕ
two_64 = 2 ^ 64

unfoldable pub duration_to_ticks : (micros : ℕ) → ℕ
duration_to_ticks micros = micros * counter_per_ms % two_64 / 1000

unfoldable pub ticks_to_duration : (ticks : ℕ) → ℕ
ticks_to_duration ticks = ticks * 1000 % two_64 / counter_per_ms

-- `now` is the clock: nanoseconds since `start_time`.
unfoldable pub time_now : (now : ℕ) → ℕ
time_now now = duration_to_ticks (now / 1000)

unfoldable pub os_get_count : (now : ℕ) → ℕ
os_get_count now = u32 (time_now now)

pub record OsTimer : Type 0 where
  pub interval : ℕ
  pub timestamp : ℕ
  pub mq : ℕ
  pub msg : ℕ

pub data TimerCommand : Type 0 where
  timer_insert : (timer : ℕ) → TimerCommand
  timer_cancel : (timer : ℕ) → TimerCommand

-- `os` is the rest of the runtime, which `osSendMesg` changes.
pub record Timers (S : Type 0) : Type 0 where
  pub timers : ℕ → OsTimer
  pub pending : List ℕ
  pub commands : List TimerCommand
  pub ostime_offset : ℕ
  pub os : S

abbrev pub store : (ℕ → OsTimer) → ℕ → OsTimer → ℕ → OsTimer
store t a v b = if b == a then v else t b

-- The order of the set: the deadline, then the address.
abbrev pub by_deadline : (ℕ → OsTimer) → ℕ → ℕ → Bool
by_deadline t a b =
    let x = (t a).timestamp in let y = (t b).timestamp in if x == y then ltb a b else ltb x y

-- `pending.insert(a)` and `pending.erase(a)`: neither moves past a member that `a` comes before.
unfoldable pub insert : (ℕ → OsTimer) → ℕ → List ℕ → List ℕ
insert t a [] = a ∷ []
insert t a (b ∷ l) =
    let rest = insert t a l in
    if by_deadline t a b then a ∷ b ∷ l else if by_deadline t b a then b ∷ rest else b ∷ l

unfoldable pub erase : (ℕ → OsTimer) → ℕ → List ℕ → List ℕ
erase t a [] = []
erase t a (b ∷ l) =
    let rest = erase t a l in
    if by_deadline t a b then b ∷ l else if by_deadline t b a then b ∷ rest else l

unfoldable pub apply_command : (ℕ → OsTimer) → TimerCommand → List ℕ → List ℕ
apply_command t (timer_insert a) l = insert t a l
apply_command t (timer_cancel a) l = erase t a l

-- The first loop of a round: all commands that wait already.
unfoldable pub drain : (ℕ → OsTimer) → List TimerCommand → List ℕ → List ℕ
drain t [] l = l
drain t (c ∷ cs) l = drain t cs (apply_command t c l)

-- The second: commands as they come, until a timer is pending. What is left of them stays queued.
unfoldable pub block : (ℕ → OsTimer) → List TimerCommand → List ℕ → List TimerCommand × List ℕ
block t [] l = ([], l)
block t (c ∷ cs) [] = block t cs (apply_command t c [])
block t (c ∷ cs) (a ∷ l) = (c ∷ cs, a ∷ l)

-- How a round of the timer thread ends: it still waits for a timer, a command came before the
-- deadline, or the timer has fired.
pub data TimerRound (S : Type 0) : Type 0 where
  blocked preempted fired : Timers S → TimerRound S

module _ {S : Type 0} (os_send_mesg : S → (mq msg : ℕ) → S) where
  -- The deadline of `a` has passed; `later` is the clock then. A periodic timer is armed again.
  unfoldable pub fire : Timers S → (a later : ℕ) → List ℕ → Timers S
  fire s a later rest =
      let next = s.timers a in
      let sent = os_send_mesg s.os next.mq next.msg in
      let rearmed = record next { timestamp = (next.interval + time_now later) % two_64 } in
      let timers' = store s.timers a rearmed in
      if next.interval == 0
      then record s { pending = rest; os = sent }
      else record s { timers = timers'; pending = insert timers' a rest; os = sent }

  -- A round once the first pending timer is known and taken out: `now` is the clock before the wait,
  -- and the commands are those that come before it ends.
  unfoldable pub wait : Timers S → (a now later : ℕ) → List ℕ → List TimerCommand → TimerRound S
  wait s a now later rest [] = fired (fire (record s { commands = [] }) a later rest)
  wait s a now later rest (c ∷ cs) =
      if leb now (ticks_to_duration (s.timers a).timestamp * 1000)
      then preempted
          (record s { pending = apply_command s.timers c (insert s.timers a rest); commands = cs })
      else fired (fire (record s { commands = c ∷ cs }) a later rest)

  unfoldable pub wait_for_first :
      Timers S → (now later : ℕ) → List TimerCommand × List ℕ → TimerRound S
  wait_for_first s now later (cs, []) = blocked (record s { pending = []; commands = cs })
  wait_for_first s now later (cs, a ∷ l) = wait s a now later (erase s.timers a (a ∷ l)) cs

  -- A round of the loop of `timer_thread`; `arriving` are the commands that come while it waits.
  unfoldable pub timer_round :
      Timers S → (now later : ℕ) → (arriving : List TimerCommand) → TimerRound S
  timer_round s now later arriving =
      wait_for_first s now later (block s.timers arriving (drain s.timers s.commands s.pending))

module _ {S : Type 0} where
  unfoldable pub os_get_time : Timers S → (now : ℕ) → ℕ
  os_get_time s now = (time_now now + (two_64 - s.ostime_offset)) % two_64

  unfoldable pub os_set_time : Timers S → (now t : ℕ) → Timers S
  os_set_time s now t = record s { ostime_offset = (time_now now + (two_64 - t)) % two_64 }

  unfoldable pub os_set_timer : Timers S → (now t countdown interval mq msg : ℕ) → ℕ × Timers S
  os_set_timer s now t countdown interval mq msg = (
    0,
    record s {
      timers = store s.timers t record {
        interval = interval;
        timestamp = ((if countdown == 0 then interval else countdown) + time_now now) % two_64;
        mq = mq;
        msg = msg;
      };
      commands = s.commands ++ timer_insert t ∷ [];
    },
  )

  unfoldable pub os_stop_timer : Timers S → (t : ℕ) → ℕ × Timers S
  os_stop_timer s t = (0, record s { commands = s.commands ++ timer_cancel t ∷ [] })
