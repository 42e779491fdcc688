-- ===== src/Tests/Threads.antt =====
-- The scheduler's theorems at concrete inputs.
use n64modern_runtime.Base.{
  ℕ, ◌+◌, ◌≡◌, refl, ◌≢◌, inr, true, false, [], ◌∷◌, arith, ◌==◌, if◌then◌else◌,
}
use n64modern_runtime.Base.Int.{ℤ, pos}
use n64modern_runtime.Scheduling.Swap.{IsReady, Runs}
use n64modern_runtime.Scheduling.Priority.{Settled, check_running_queue-Runs}
use n64modern_runtime.Scheduling.Change.{os_set_thread_pri_faults}
use n64modern_runtime.ThreadQueue.Pop.{thread_queue_pop-Holds}
use n64modern_runtime.ThreadQueue.Place.{place, priorities, Descending, place-Descending}
use n64modern_runtime.ThreadQueue.Insert.{thread_queue_insert-Holds}
use n64modern_runtime.ThreadQueue.Remove.{IsQueue, thread_queue_remove_found}
use n64modern_runtime.Scheduling.{check_running_queue, os_set_thread_pri, null_queue, failed}
use n64modern_runtime.ThreadQueue.{
  OsThread, Kernel, running_queue, valid_thread_ptr, thread_queue_insert, thread_queue_pop,
  thread_queue_remove, queued,
}
use n64modern_runtime.ThreadQueue.Log.{Event, Row, SchedLog}
use n64modern_runtime.ThreadQueue.Chain.{IsThread, NotIn, Holds}

abbrev no_sched_event : Event
no_sched_event = record {
  seq = 0;
  ms = 0;
  op = 0;
  queue = 0;
  thread = 0;
  current_thread = 0;
  head_after = 0;
  next_after = 0;
  thread_id = 0;
  current_thread_id = 0;
  priority = pos 0;
}

abbrev no_row : Row
no_row = record {
  valid = false;
  id = 0;
  thread = 0;
  priority = pos 0;
  last_op = 0;
  last_queue = 0;
  last_head_after = 0;
  last_ms = 0;
  last_mq = 0;
  last_mq_ms = 0;
  count = 0;
}

abbrev pub no_log : SchedLog
no_log = record {
  ring = record { next_seq = 0; slot = λ i. no_sched_event };
  thread_states = λ i. no_row;
}

abbrev thread_at : ℕ → ℤ → ℕ → OsThread
thread_at next_ pri q = record {
  next = next_;
  priority = pri;
  queue = q;
  state = queued;
  id = 1;
  context = 1;
  sp = 0;
}

abbrev pub thread_a : ℕ
thread_a = 0x8000_0100

abbrev pub thread_b : ℕ
thread_b = 0x8000_0200

abbrev pub thread_c : ℕ
thread_c = 0x8000_0300

-- Two threads, of priorities 20 and 10, in the queue `q`, and a third one of priority 15.
abbrev pub two_in : ℕ → Kernel
two_in q = record {
  thread = λ t.
      if t == thread_a
      then thread_at thread_b (pos 20) q
      else if t == thread_b
      then thread_at 0 (pos 10) q
      else thread_at 0 (pos 15) 0;
  head = λ p. if p == q then thread_a else 0;
  self = thread_c;
  now = 0;
  log = no_log;
}

abbrev pub mail : ℕ
mail = 0x8000_1000

apart : thread_a ≢ thread_b
apart = omega arith

two_in-Holds : Holds (two_in running_queue) running_queue (thread_a ∷ thread_b ∷ [])
unfolding valid_thread_ptr
two_in-Holds = record {
  chain = (refl, refl, (refl, refl, refl));
  distinct = ((apart, tt), (tt, tt));
}

pub mail-Holds : Holds (two_in mail) mail (thread_a ∷ thread_b ∷ [])
unfolding valid_thread_ptr
mail-Holds = record { chain = (refl, refl, (refl, refl, refl)); distinct = ((apart, tt), (tt, tt)) }

pub senders-Holds : Holds (two_in (mail + 4)) (mail + 4) (thread_a ∷ thread_b ∷ [])
unfolding valid_thread_ptr
senders-Holds = record {
  chain = (refl, refl, (refl, refl, refl));
  distinct = ((apart, tt), (tt, tt));
}

c-IsThread : IsThread thread_c
unfolding valid_thread_ptr
c-IsThread = refl

a-IsThread : IsThread thread_a
unfolding valid_thread_ptr
a-IsThread = refl

mail-IsQueue : IsQueue mail
unfolding valid_thread_ptr
mail-IsQueue = inr refl

c-NotIn : NotIn thread_c (thread_a ∷ thread_b ∷ [])
c-NotIn = (omega arith, (omega arith, tt))

two_in-IsReady : IsReady (two_in running_queue) (thread_a ∷ thread_b ∷ [])
two_in-IsReady = record {
  holds = two_in-Holds;
  sorted = ((omega arith, tt), (tt, tt));
  self_valid = c-IsThread;
  self_out = c-NotIn;
  alive = (omega arith, (omega arith, tt));
  self_alive = omega arith;
  small = omega arith;
}

check_running_queue-Runs_example :
    Runs
      (check_running_queue (two_in running_queue))
      (Settled (two_in running_queue) (thread_a ∷ thread_b ∷ []))
check_running_queue-Runs_example =
    check_running_queue-Runs (two_in running_queue) (thread_a ∷ thread_b ∷ []) two_in-IsReady

thread_queue_insert-Holds_example :
    Holds
      (thread_queue_insert (two_in mail) mail thread_c)
      mail
      (place (priorities (two_in mail)) thread_c (thread_a ∷ thread_b ∷ []))
thread_queue_insert-Holds_example =
    thread_queue_insert-Holds (two_in mail) mail thread_c (thread_a ∷ thread_b ∷ []) mail-Holds
      (omega arith) c-IsThread c-NotIn

between :
    place (priorities (two_in mail)) thread_c (thread_a ∷ thread_b ∷ [])
    ≡ thread_a ∷ thread_c ∷ thread_b ∷ []
unfolding place
between = refl

thread_queue_pop-Holds_example :
    let (popped, k') = thread_queue_pop (two_in mail) mail in
    (popped ≡ thread_a) × ((k'.thread thread_a).queue ≡ 0) × Holds k' mail (thread_b ∷ [])
thread_queue_pop-Holds_example =
    thread_queue_pop-Holds (two_in mail) mail thread_a (thread_b ∷ []) mail-Holds

thread_queue_remove_found_example :
    let (done, k') = thread_queue_remove (two_in mail) mail thread_b in
    (done ≡ true) × ((k'.thread thread_b).queue ≡ 0) × Holds k' mail (thread_a ∷ [])
thread_queue_remove_found_example =
    thread_queue_remove_found (two_in mail) mail thread_b (thread_a ∷ []) [] mail-IsQueue mail-Holds
      (omega arith)

os_set_thread_pri_faults_example :
    (k' : Kernel) × (os_set_thread_pri (two_in mail) thread_a (pos 30) ≡ failed null_queue k')
    × Holds k' mail (thread_b ∷ [])
os_set_thread_pri_faults_example =
    os_set_thread_pri_faults (two_in mail) mail thread_a (pos 30) [] (thread_b ∷ []) mail-IsQueue
      (λ e. absurd (omega (arith, e))) (λ e. absurd (omega (arith, e))) refl
      (λ e. absurd (ground (arith, e))) refl mail-Holds (omega arith)

place-Descending_example :
    Descending
      (priorities (two_in mail))
      (place (priorities (two_in mail)) thread_c (thread_a ∷ thread_b ∷ []))
place-Descending_example =
    place-Descending (priorities (two_in mail)) thread_c (thread_a ∷ thread_b ∷ [])
      ((omega arith, tt), (tt, tt))
