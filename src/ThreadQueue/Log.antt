-- ===== src/ThreadQueue/Log.antt =====
-- `namespace sched_log`: the scheduler's event ring and the table that keeps each thread's last
-- event and last message-queue block for good.
use n64modern_runtime.Base.{
  ℕ, zero, suc, ◌+◌, ◌-◌, ◌*◌, ◌%◌, ◌^◌, Bool, true, false, not, ◌&&◌, List, [], ◌∷◌, ltb, ◌==◌,
  if◌then◌else◌, update,
}
use n64modern_runtime.Base.Bits.{u16}
use n64modern_runtime.Base.Int.{ℤ, pos_part, neg_part, pos, negsuc}
use n64modern_runtime.EventRing.{Ring, push}

abbrev pub op_insert : ℕ
op_insert = 1

abbrev pub op_pop : ℕ
op_pop = 2

abbrev pub op_remove : ℕ
op_remove = 3

abbrev pub op_remove_miss : ℕ
op_remove_miss = 4

pub record Event : Type 0 where
  pub seq : ℕ
  pub ms : ℕ
  pub op : ℕ
  pub queue : ℕ
  pub thread : ℕ
  pub current_thread : ℕ
  pub head_after : ℕ
  pub next_after : ℕ
  pub thread_id : ℕ
  pub current_thread_id : ℕ
  pub priority : ℤ

-- The table's row, `sched_log::ThreadState`.
pub record Row : Type 0 where
  pub valid : Bool
  pub id : ℕ
  pub thread : ℕ
  pub priority : ℤ
  pub last_op : ℕ
  pub last_queue : ℕ
  pub last_head_after : ℕ
  pub last_ms : ℕ
  pub last_mq : ℕ
  pub last_mq_ms : ℕ
  pub count : ℕ

abbrev pub max_tid : ℕ
max_tid = 1024

pub record SchedLog : Type 0 where
  pub ring : Ring Event
  pub thread_states : ℕ → Row

-- `static_cast<int16_t>`
abbrev pub s16 : ℤ → ℤ
s16 p =
    let w = (pos_part p + (2 ^ 16 - 1) * neg_part p) % 2 ^ 16 in
    if ltb w (2 ^ 15) then pos w else negsuc (2 ^ 16 - 1 - w)

-- `thread_id()` and `thread_priority()` are 0 at a null pointer.
abbrev pub or_null : ℕ → ℕ → ℕ
or_null t v = if t == 0 then 0 else v

-- The row after an event.
unfoldable pub row_after : Row → Event → Row
row_after ts e =
    let is_mq = e.op == op_insert && not (e.queue == 0xFFFF_FFFF) && not (e.queue == 0) in
    record ts {
      valid = true;
      id = e.thread_id;
      thread = e.thread;
      priority = e.priority;
      last_op = e.op;
      last_queue = e.queue;
      last_head_after = e.head_after;
      last_ms = e.ms;
      last_mq = if is_mq then e.queue else ts.last_mq;
      last_mq_ms = if is_mq then e.ms else ts.last_mq_ms;
      count = (ts.count + 1) % 2 ^ 64;
    }

unfoldable pub record_in_table : (ℕ → Row) → Event → ℕ → Row
record_in_table rows e =
    if ltb e.thread_id max_tid && not (e.thread_id == 0 && e.thread == 0)
    then update rows e.thread_id (row_after (rows e.thread_id) e)
    else rows

-- `record`: the thread's members `next`, `id` and `priority`, and the current thread's id, are
-- handed in; ids are cast to 16 bits, the priority to a signed 16-bit value.
unfoldable pub record_event : SchedLog → ℕ → ℕ → ℕ → ℕ → ℕ → ℕ → ℕ → ℕ → ℤ → ℕ → SchedLog
record_event l ms op queue thread current head_after next id priority current_id =
    let e : Event = record {
      seq = l.ring.next_seq;
      ms = ms;
      op = op;
      queue = queue;
      thread = thread;
      current_thread = current;
      head_after = head_after;
      next_after = or_null thread next;
      thread_id = or_null thread (u16 id);
      current_thread_id = or_null current (u16 current_id);
      priority = if thread == 0 then pos 0 else s16 priority;
    } in
    record { ring = push l.ring e; thread_states = record_in_table l.thread_states e }

-- `ultramodern_sched_thread_states_copy`: the valid rows from index `i` on, at most `room`.
unfoldable pub copy_rows : (ℕ → Row) → ℕ → ℕ → ℕ → List Row
copy_rows rows i zero room = []
copy_rows rows i (suc n) zero = []
copy_rows rows i (suc n) (suc room) = elim (rows i).valid [
  | true ↦ rows i ∷ copy_rows rows (i + 1) n room
  | false ↦ copy_rows rows (i + 1) n (suc room)
]

unfoldable pub thread_states_copy : SchedLog → Bool → ℕ → List Row
thread_states_copy l out_null room =
    if out_null then [] else copy_rows l.thread_states 0 max_tid room
