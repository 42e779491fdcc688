-- ===== src/MesgQueue.antt =====
-- ultramodern/src/mesgqueue.cpp: the guest's message queues, their circular buffers, and the
-- threads that wait on them.
--
-- The members blocked_on_recv and blocked_on_send of the queue at `mq` are the queue heads `mq` and
-- `mq + 4` of the scheduler's state; its other members are a store `mq`, and the guest words that
-- hold messages a store `word` by address. Overlaps of the three stores are not modelled.
pub mod Log
pub mod Buffer
pub mod Send
pub mod Recv
pub mod Wake
pub mod External
use n64modern_runtime.Base.{
  ℕ, ◌+◌, ◌-◌, ◌*◌, ◌%◌, ◌^◌, Bool, true, false, not, ◌&&◌, List, ltb, leb, ◌==◌, if◌then◌else◌,
  update,
}
use n64modern_runtime.Base.Bits.{u16}
use n64modern_runtime.Base.Int.{ℤ, pos_part, neg_part, ◌+ℤ◌, ◌-ℤ◌, ◌%ℤ◌, ltb_ℤ, leb_ℤ, pos, negsuc}
use Log.{MesgLog, record_event, op_recv_block, op_do_send_block, op_do_send_drop}
use n64modern_runtime.ThreadQueue.{
  Kernel, thread_queue_insert, thread_queue_pop, thread_queue_empty,
}
use n64modern_runtime.Scheduling.{
  Failure, schedule_running_thread, run_next_thread_and_wait, switched, failed, returned,
}

pub record MesgQueue : Type 0 where
  pub valid_count : ℤ
  pub first : ℤ
  pub msg_count : ℤ
  pub msg : ℕ

pub record QueuedMessage : Type 0 where
  pub mq : ℕ
  pub mesg : ℕ
  pub jam : Bool
  pub coalescible : Bool

-- `external` is `external_messages` in order of arrival, `pending` and `requeues` the counters
-- g_external_pending and g_external_requeues.
pub record System : Type 0 where
  pub kernel : Kernel
  pub mq : ℕ → MesgQueue
  pub word : ℕ → ℕ
  pub external : List QueuedMessage
  pub pending : ℕ
  pub requeues : ℕ
  pub log : MesgLog

-- The end of a send or a receive. `parked`: the caller is in the queue's wait list, another thread
-- runs, and the caller goes on with `send_wait` or `recv_wait` when it is woken.
pub data Result : Type 0 where
  done : Bool → System → Result
  parked : System → Result
  faulted : Failure → System → Result
  -- the remainder by a message count of zero
  division_by_zero : System → Result

-- `uint16_t(mq->validCount)`
abbrev pub u16_ℤ : ℤ → ℕ
u16_ℤ (pos n) = u16 n
u16_ℤ (negsuc n) = 2 ^ 16 - 1 - n % 2 ^ 16

-- `mesg_log::record`; without the guest memory (`rdram` null) there is no current thread.
unfoldable pub note : System → Bool → ℕ → ℕ → ℕ → ℕ → ℕ → Bool → Bool → System
note s rdram op mq msg before after block game =
    let k = s.kernel in
    let t = if rdram then k.self else 0 in
    record s { log = record_event s.log k.now t (k.thread t).id op mq msg before after block game }

unfoldable pub os_create_mesg_queue : System → ℕ → ℕ → ℤ → System
os_create_mesg_queue s mq msg count =
    let k = s.kernel in
    let q : MesgQueue = record {
      valid_count = pos 0;
      first = pos 0;
      msg_count = count;
      msg = msg;
    } in
    record s {
      kernel = record k { head = update (update k.head mq 0) (mq + 4) 0 };
      mq = update s.mq mq q;
    }

abbrev pub mq_is_empty : MesgQueue → Bool
mq_is_empty q = leb_ℤ q.valid_count (pos 0) && leb_ℤ (pos 0) q.valid_count

abbrev pub mq_is_full : MesgQueue → Bool
mq_is_full q = leb_ℤ q.msg_count q.valid_count

abbrev pub in_kseg0 : ℕ → Bool
in_kseg0 a = leb 0x8000_0000 a && ltb a 0x8080_0000

-- None of the four guards of `do_send` fails.
abbrev pub is_sane : ℕ → MesgQueue → Bool
is_sane mq q =
    in_kseg0 mq
    && in_kseg0 q.msg
    && (ltb_ℤ (pos 0) q.msg_count && leb_ℤ q.msg_count (pos 0x10000))
    && (leb_ℤ (pos 0) q.first
        && ltb_ℤ q.first q.msg_count
        && leb_ℤ (pos 0) q.valid_count
        && leb_ℤ q.valid_count q.msg_count)

-- `&TO_PTR(OSMesg, mq->msg)[i]`
unfoldable pub slot_address : ℕ → ℤ → ℕ
slot_address base i = base + 4 * pos_part i - 4 * neg_part i

-- "Wake the first one waiting on this queue", if there is one.
unfoldable pub wake_waiter : System → ℕ → System
wake_waiter s blocked_queue =
    let (t, k) = thread_queue_pop s.kernel blocked_queue in
    if thread_queue_empty s.kernel blocked_queue
    then s
    else record s { kernel = schedule_running_thread k t }

unfoldable pub put : System → ℕ → ℕ → Bool → System
put s mq msg jam =
    let q = s.mq mq in
    let front = (q.first +ℤ q.msg_count -ℤ pos 1) %ℤ q.msg_count in
    let last = (q.first +ℤ q.valid_count) %ℤ q.msg_count in
    let q' = record q {
      first = if jam then front else q.first;
      valid_count = q.valid_count +ℤ pos 1;
    } in
    record s {
      mq = update s.mq mq q';
      word = update s.word (slot_address q.msg (if jam then front else last)) msg;
    }

-- The message goes into the buffer, and the first thread that waits to receive is made runnable.
unfoldable pub deliver : System → ℕ → ℕ → Bool → System
deliver s mq msg jam = wake_waiter (put s mq msg jam) mq

-- Parking in the wait list `blocked_queue` until another thread has run.
unfoldable pub park : System → ℕ → Result
park s blocked_queue =
    let k = thread_queue_insert s.kernel blocked_queue s.kernel.self in
    elim (run_next_thread_and_wait k) [
      | returned k' ↦ parked (record s { kernel = k' })
      | switched k' ↦ parked (record s { kernel = k' })
      | failed f k' ↦ faulted f (record s { kernel = k' })
    ]

-- `while (MQ_IS_FULL(mq))` and what follows: a woken sender comes back to this test.
unfoldable pub send_wait : System → ℕ → ℕ → Bool → Result
send_wait s mq msg jam =
    let n = u16_ℤ (s.mq mq).valid_count in
    if mq_is_full (s.mq mq)
    then park (note s true op_do_send_block mq msg n n true true) (mq + 4)
    else done true (deliver s mq msg jam)

unfoldable pub send_no_wait : System → ℕ → ℕ → Bool → Result
send_no_wait s mq msg jam =
    let n = u16_ℤ (s.mq mq).valid_count in
    if mq_is_full (s.mq mq)
    then done false (note s true op_do_send_drop mq msg n n false true)
    else done true (deliver s mq msg jam)

unfoldable pub do_send : System → ℕ → ℕ → Bool → Bool → Result
do_send s mq msg jam block =
    if not (is_sane mq (s.mq mq))
    then done false s
    else if block
    then send_wait s mq msg jam
    else send_no_wait s mq msg jam

-- `*msg_ = buffer[first]`, unless `msg_` is null; then the slot is given up.
unfoldable pub take_front : System → ℕ → ℕ → System
take_front s mq msg_ptr =
    let q = s.mq mq in
    let q' = record q {
      first = (q.first +ℤ pos 1) %ℤ q.msg_count;
      valid_count = q.valid_count -ℤ pos 1;
    } in
    record s {
      mq = update s.mq mq q';
      word =
          if msg_ptr == 0
          then s.word
          else update s.word msg_ptr (s.word (slot_address q.msg q.first));
    }

abbrev pub is_zero_ℤ : ℤ → Bool
is_zero_ℤ a = leb_ℤ a (pos 0) && leb_ℤ (pos 0) a

-- The message leaves the buffer, and the first thread that waits to send is made runnable.
unfoldable pub collect : System → ℕ → ℕ → Result
collect s mq msg_ptr =
    if is_zero_ℤ (s.mq mq).msg_count
    then division_by_zero s
    else done true (wake_waiter (take_front s mq msg_ptr) (mq + 4))

unfoldable pub recv_wait : System → ℕ → ℕ → Result
recv_wait s mq msg_ptr =
    let n = u16_ℤ (s.mq mq).valid_count in
    if mq_is_empty (s.mq mq)
    then park (note s true op_recv_block mq 0 n n true true) mq
    else collect s mq msg_ptr

unfoldable pub do_recv : System → ℕ → ℕ → Bool → Result
do_recv s mq msg_ptr block =
    if block
    then recv_wait s mq msg_ptr
    else if mq_is_empty (s.mq mq)
    then done false s
    else collect s mq msg_ptr
