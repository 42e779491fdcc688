-- ===== src/Scheduling.antt =====
-- ultramodern/src/scheduling.cpp and threads.cpp: which guest thread runs.
--
-- Exactly one host thread of the game runs at a time: an operation that signals another thread's
-- context and waits for its own hands the processor over. The model follows the baton: such an
-- operation ends in the state in which the other thread has just woken up (`switched`).
pub mod Agree
pub mod Swap
pub mod Priority
pub mod Change
use n64modern_runtime.Base.{
  ℕ, ◌+◌, ◌-◌, ◌%◌, ◌^◌, Bool, true, false, not, ◌&&◌, ◌==◌, if◌then◌else◌, update,
}
use n64modern_runtime.Base.Int.{ℤ, ltb_ℤ, leb_ℤ}
use n64modern_runtime.ThreadQueue.{
  ThreadState, OsThread, Kernel, running_queue, trace, thread_queue_insert, thread_queue_pop,
  thread_queue_remove, thread_queue_empty, thread_queue_peek, running, stopped, queued,
}

pub data Failure : Type 0 where
  -- `std::runtime_error("No runnable threads remain!")`
  no_runnable_threads : Failure
  -- a signal through a null context
  null_context : Failure
  -- an access through a queue pointer that is null: it lies 2 GiB above the start of the guest's
  -- memory, the first GiB of which can be read (librecomp/include/librecomp/addresses.hpp)
  null_queue : Failure
  -- `assert(false)`
  assertion : Failure
  -- `thread_terminated`, thrown by a thread that destroys itself
  terminated : Failure

pub data Outcome : Type 0 where
  -- the calling thread goes on
  returned : Kernel → Outcome
  -- another thread runs, and the caller waits for its context to be signalled
  switched : Kernel → Outcome
  failed : Failure → Kernel → Outcome

-- `scheduler_trace_mark`, with `queue_head_or_zero`.
unfoldable pub mark : Kernel → ℕ → ℕ → ℕ → Kernel
mark k op q t = trace k op q t (if q == 0 then 0 else k.head q)

unfoldable pub set_state : Kernel → ℕ → ThreadState → Kernel
set_state k t s = record k { thread = update k.thread t (record (k.thread t) { state = s }) }

unfoldable pub schedule_running_thread : Kernel → ℕ → Kernel
schedule_running_thread k t =
    set_state (thread_queue_insert (mark k 100 running_queue t) running_queue t) t queued

-- What the woken thread `t` does in `wait_for_resumed` before it goes on; its context is the one
-- that was signalled.
unfoldable pub wake : Kernel → ℕ → Kernel
wake k t = set_state (mark (record k { self = t }) 121 0 t) t running

-- `context->running.signal()`, then the caller's `wait_for_resumed` up to its wait.
unfoldable pub hand_over : Kernel → ℕ → Outcome
hand_over k t =
    if (k.thread t).context == 0
    then failed null_context k
    else switched (wake (mark k 120 0 k.self) t)

-- `resume_thread_and_wait`
unfoldable pub resume_thread_and_wait : Kernel → ℕ → Outcome
resume_thread_and_wait k t = hand_over (mark (mark k 112 running_queue k.self) 122 0 0) t

unfoldable pub swap_to_thread : Kernel → ℕ → Outcome
swap_to_thread k to =
    let k1 = thread_queue_insert (mark k 110 running_queue to) running_queue k.self in
    let k2 = set_state (mark k1 111 running_queue k.self) k.self queued in
    resume_thread_and_wait (mark k2 112 running_queue to) to

unfoldable pub check_running_queue : Kernel → Outcome
check_running_queue k =
    if thread_queue_empty k running_queue
    then returned (mark k 101 running_queue 0)
    else (let next = thread_queue_peek k running_queue in
        let k1 = mark k 102 running_queue next in
        if ltb_ℤ (k.thread k.self).priority (k.thread next).priority
        then swap_to_thread (thread_queue_pop (mark k1 104 running_queue next) running_queue).1 next
        else returned (mark k1 103 running_queue next))

-- `run_next_thread_and_wait`: the caller is in some other queue already.
unfoldable pub run_next_thread_and_wait : Kernel → Outcome
run_next_thread_and_wait k =
    let k1 = mark (mark k 126 running_queue k.self) 123 running_queue 0 in
    if thread_queue_empty k1 running_queue
    then failed no_runnable_threads (mark k1 124 running_queue 0)
    else (let (to_run, k2) = thread_queue_pop k1 running_queue in
        hand_over (mark k2 125 running_queue to_run) to_run)

-- `t == NULLPTR ? thread_self : t`
abbrev pub or_self : Kernel → ℕ → ℕ
or_self k t = if t == 0 then k.self else t

-- `thread_self` is null outside the game's threads: the initial start wakes the thread directly.
unfoldable pub os_start_thread : Kernel → ℕ → Outcome
os_start_thread k t =
    if not (k.self == 0)
    then check_running_queue (schedule_running_thread k t)
    else if (k.thread t).context == 0
    then failed null_context (mark (set_state k t queued) 122 0 0)
    else returned (mark (set_state k t queued) 122 0 0)

-- The new host thread's context, `ctx`, is the caller's choice of a fresh pointer.
unfoldable pub os_create_thread : Kernel → ℕ → ℕ → ℕ → ℤ → ℕ → Kernel
os_create_thread k t id sp pri ctx =
    let new : OsThread = record {
      next = 0;
      priority = pri;
      queue = 0;
      state = stopped;
      id = id;
      context = ctx;
      sp = (sp + 2 ^ 32 - 0x10) % 2 ^ 32;
    } in
    record k { thread = update k.thread t new }

unfoldable pub os_stop_thread : Kernel → ℕ → Outcome
os_stop_thread k t =
    if or_self k t == k.self then run_next_thread_and_wait k else failed assertion k

abbrev pub is_stopped : ThreadState → Bool
is_stopped stopped = true
is_stopped _ = false

-- Another thread is taken out of its queue, and its context cleared and signalled: it wakes only
-- to unwind.
unfoldable pub os_destroy_thread : Kernel → ℕ → Outcome
os_destroy_thread k t' =
    let t = or_self k t' in
    let k1 =
      if is_stopped (k.thread t).state then k else (thread_queue_remove k (k.thread t).queue t).1 in
    if t == k.self
    then failed terminated k
    else returned (record k1 { thread = update k1.thread t (record (k1.thread t) { context = 0 }) })

-- `t->priority = pri`
unfoldable pub set_priority : Kernel → ℕ → ℤ → Kernel
set_priority k t pri = record k {
  thread = update k.thread t (record (k.thread t) { priority = pri });
}

-- The re-insertion: both calls read `t->queue`, the second after the first has run. The removal
-- refuses a null queue, the insertion goes through it.
unfoldable pub requeue : Kernel → ℕ → Bool × Kernel
requeue k t =
    let k1 = (thread_queue_remove k (k.thread t).queue t).1 in
    if (k1.thread t).queue == 0
    then (false, k1)
    else (true, thread_queue_insert k1 (k1.thread t).queue t)

abbrev pub checked : Bool × Kernel → Outcome
checked (true, k) = check_running_queue k
checked (false, k) = failed null_queue k

unfoldable pub os_set_thread_pri : Kernel → ℕ → ℤ → Outcome
os_set_thread_pri k t' pri =
    let t = or_self k t' in
    let k1 = set_priority k t pri in
    if leb_ℤ (k.thread t).priority pri && leb_ℤ pri (k.thread t).priority
    then returned k
    else if not (t == k.self) && not (is_stopped (k.thread t).state)
    then checked (requeue k1 t)
    else check_running_queue k1

unfoldable pub os_get_thread_pri : Kernel → ℕ → ℤ
os_get_thread_pri k t = (k.thread (or_self k t)).priority

unfoldable pub os_get_thread_id : Kernel → ℕ → ℕ
os_get_thread_id k t = (k.thread (or_self k t)).id
