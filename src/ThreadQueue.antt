-- ===== src/ThreadQueue.antt =====
-- ultramodern/src/threadqueue.cpp: the intrusive priority queues of guest threads, with the event
-- ring and the per-thread table that record every operation on them.
--
-- The guest's OSThread records are a store `thread` by guest address, and the cells that hold the
-- head of a queue (the members blocked_on_recv and blocked_on_send of a message queue, and the
-- host's running_queue_impl) a store `head` by the queue's address: a record and a cell that
-- overlap in guest memory are not modelled.
pub mod Log
pub mod Chain
pub mod Place
pub mod Splice
pub mod Insert
pub mod Pop
pub mod Remove
use n64modern_runtime.Base.{
  ℕ, zero, suc, ◌%◌, Bool, true, false, not, ◌&&◌, ltb, leb, ◌==◌, if◌then◌else◌, update,
}
use n64modern_runtime.Base.Int.{ℤ, ltb_ℤ}
use Log.{SchedLog, record_event, op_insert, op_pop, op_remove, op_remove_miss}

pub data ThreadState : Type 0 where
  stopped queued running blocked : ThreadState

-- `OSThread`; a null `context` is 0.
pub record OsThread : Type 0 where
  pub next : ℕ
  pub priority : ℤ
  pub queue : ℕ
  pub state : ThreadState
  pub id : ℕ
  pub context : ℕ
  pub sp : ℕ

-- What the scheduler's operations work on; `self` is `thread_self` of the host thread that runs,
-- `now` the reading of the steady clock in milliseconds.
pub record Kernel : Type 0 where
  pub thread : ℕ → OsThread
  pub head : ℕ → ℕ
  pub self : ℕ
  pub now : ℕ
  pub log : SchedLog

-- `(PTR(PTR(OSThread)))-1`
abbrev pub running_queue : ℕ
running_queue = 0xFFFF_FFFF

abbrev pub guard_limit : ℕ
guard_limit = 0x40000

unfoldable pub valid_thread_ptr : ℕ → Bool
valid_thread_ptr v = leb 0x8000_0000 v && ltb v 0x8080_0000 && (v % 4 == 0)

-- `PTR(OSThread)* link`: the head cell of a queue, or the member `next` of a thread.
pub data Link : Type 0 where
  at_head : ℕ → Link
  at_next : ℕ → Link

unfoldable pub read_link : Kernel → Link → ℕ
read_link k (at_head q) = k.head q
read_link k (at_next t) = (k.thread t).next

unfoldable pub write_link : Kernel → Link → ℕ → Kernel
write_link k (at_head q) v = record k { head = update k.head q v }
write_link k (at_next t) v = record k {
  thread = update k.thread t (record (k.thread t) { next = v });
}

-- `sched_log::record`, with the members of the two threads that it reads.
unfoldable pub trace : Kernel → ℕ → ℕ → ℕ → ℕ → Kernel
trace k op q t head_after = record k {
  log =
      record_event k.log k.now op q t k.self head_after (k.thread t).next (k.thread t).id
        (k.thread t).priority (k.thread k.self).id;
}

-- The walk of `thread_queue_insert`: `fuel` is what is left of the guard's 0x40000 rounds.
unfoldable pub seek : ℕ → Kernel → Link → ℤ → Link
seek zero k l p = l
seek (suc fuel) k l p =
    let t = read_link k l in
    let rest = seek fuel k (at_next t) p in
    if not (t == 0) && valid_thread_ptr t && ltb_ℤ p (k.thread t).priority then rest else l

-- `if (*link != NULLPTR && !valid_thread_ptr(*link)) *link = NULLPTR;`
unfoldable pub sever : Kernel → Link → Kernel
sever k l =
    let t = read_link k l in
    if not (t == 0) && not (valid_thread_ptr t) then write_link k l 0 else k

unfoldable pub state_in : ℕ → ThreadState → ThreadState
state_in q old = if q == running_queue then queued else if q == 0 then old else blocked

-- `added->next = *link`, the new thread's queue and its state.
unfoldable pub enrol : Kernel → Link → ℕ → ℕ → Kernel
enrol k l q added =
    let old = k.thread added in
    let new = record old { next = read_link k l; queue = q; state = state_in q old.state } in
    record k { thread = update k.thread added new }

-- The splice at the link: the new thread's members, then `*link = added_`.
unfoldable pub splice : Kernel → Link → ℕ → ℕ → Kernel
splice k l q added = write_link (enrol k l q added) l added

unfoldable pub thread_queue_insert : Kernel → ℕ → ℕ → Kernel
thread_queue_insert k q added =
    let l = seek guard_limit k (at_head q) (k.thread added).priority in
    let k' = splice (sever k l) l q added in trace k' op_insert q added (k'.head q)

-- The popped pointer (0 for none) and the state after.
unfoldable pub thread_queue_pop : Kernel → ℕ → ℕ × Kernel
thread_queue_pop k q =
    let popped = k.head q in
    if valid_thread_ptr popped
    then (let t = k.thread popped in
        let k' = record k {
          head = update k.head q t.next;
          thread = update k.thread popped (record t { queue = 0 });
        } in
        (popped, trace k' op_pop q popped (k'.head q)))
    else (0, record k { head = update k.head q 0 })

-- What the scan of `thread_queue_remove` ends in.
pub data Scan : Type 0 where
  -- the end of the list, not found
  missed : Scan
  -- a pointer that is no thread's, or the guard, at this link
  broken : Link → Scan
  found : Link → Scan

unfoldable pub scan : ℕ → Kernel → Link → ℕ → Scan
scan zero k l t = if read_link k l == 0 then missed else broken l
scan (suc fuel) k l t =
    let cur = read_link k l in
    let rest = scan fuel k (at_next cur) t in
    if cur == 0
    then missed
    else if not (valid_thread_ptr cur)
    then broken l
    else if cur == t
    then found l
    else rest

unfoldable pub remove_at : Kernel → ℕ → ℕ → Scan → Bool × Kernel
remove_at k q t missed = (false, trace k op_remove_miss q t (k.head q))
remove_at k q t (broken l) = (false, trace (write_link k l 0) op_remove_miss q t 0)
remove_at k q t (found l) =
    let k' = write_link k l (k.thread t).next in
    let k'' = record k' { thread = update k'.thread t (record (k'.thread t) { queue = 0 }) } in
    (true, trace k'' op_remove q t (k''.head q))

unfoldable pub thread_queue_remove : Kernel → ℕ → ℕ → Bool × Kernel
thread_queue_remove k q t =
    if not (q == running_queue) && not (valid_thread_ptr q)
    then (false, trace k op_remove_miss q t 0)
    else remove_at k q t (scan guard_limit k (at_head q) t)

unfoldable pub thread_queue_empty : Kernel → ℕ → Bool
thread_queue_empty k q = k.head q == 0

unfoldable pub thread_queue_peek : Kernel → ℕ → ℕ
thread_queue_peek k q = k.head q
