-- ===== src/MesgQueue/Log.antt =====
-- `namespace mesg_log`: the message-queue event ring and the table that keeps the last 64 events
-- of every queue.
use n64modern_runtime.Base.{
  ℕ, zero, suc, ◌+◌, ◌/◌, ◌%◌, ◌^◌, Bool, true, false, not, ◌||◌, List, [], ◌∷◌, ◌==◌,
  if◌then◌else◌, update,
}
use n64modern_runtime.Base.Bits.{u16}
use n64modern_runtime.EventRing.{Ring, push}

abbrev pub op_send_game : ℕ
op_send_game = 1

abbrev pub op_send_external : ℕ
op_send_external = 2

abbrev pub op_recv_enter : ℕ
op_recv_enter = 3

abbrev pub op_recv_block : ℕ
op_recv_block = 4

abbrev pub op_recv_return_ok : ℕ
op_recv_return_ok = 5

abbrev pub op_ext_deq_ok : ℕ
op_ext_deq_ok = 6

abbrev pub op_ext_deq_full : ℕ
op_ext_deq_full = 7

abbrev pub op_do_send_block : ℕ
op_do_send_block = 8

abbrev pub op_ext_deq_drop : ℕ
op_ext_deq_drop = 9

abbrev pub op_do_send_drop : ℕ
op_do_send_drop = 10

pub record Event : Type 0 where
  pub seq : ℕ
  pub ms : ℕ
  pub mq : ℕ
  pub msg : ℕ
  pub thread : ℕ
  pub thread_id : ℕ
  pub valid_before : ℕ
  pub valid_after : ℕ
  pub op : ℕ
  pub block : Bool
  pub game_thread : Bool

abbrev pub qevents : ℕ
qevents = 64

abbrev pub qcap : ℕ
qcap = 1024

-- A queue of 0 marks an empty slot.
pub record QState : Type 0 where
  pub queue : ℕ
  pub count : ℕ
  pub last : ℕ → Event

unfoldable pub qstate_add : QState → ℕ → Event → QState
qstate_add q mq e = record {
  queue = mq;
  count = (q.count + 1) % 2 ^ 32;
  last = update q.last (q.count % qevents) e;
}

-- The linear probe from the slot `(h + probe) % QCAP` on, with `n` probes left.
unfoldable pub probe_from : (ℕ → QState) → ℕ → Event → ℕ → ℕ → ℕ → ℕ → QState
probe_from t mq e h probe zero = t
probe_from t mq e h probe (suc n) =
    let i = (h + probe) % qcap in
    let rest = probe_from t mq e h (probe + 1) n in
    if (t i).queue == 0 || (t i).queue == mq then update t i (qstate_add (t i) mq e) else rest

unfoldable pub qstate_push : (ℕ → QState) → ℕ → Event → ℕ → QState
qstate_push t mq e = if mq == 0 then t else probe_from t mq e ((mq / 8) % qcap) 0 qcap

-- The rows of `ultramodern_mesg_qstates_copy`, from index `i` on, at most `room`.
unfoldable pub copy_qstates : (ℕ → QState) → ℕ → ℕ → ℕ → List QState
copy_qstates t i zero room = []
copy_qstates t i (suc n) zero = []
copy_qstates t i (suc n) (suc room) = elim (not ((t i).queue == 0)) [
  | true ↦ t i ∷ copy_qstates t (i + 1) n room
  | false ↦ copy_qstates t (i + 1) n (suc room)
]

unfoldable pub qstates_copy : (ℕ → QState) → Bool → ℕ → List QState
qstates_copy t out_null room = if out_null then [] else copy_qstates t 0 qcap room

pub record MesgLog : Type 0 where
  pub ring : Ring Event
  pub qstates : ℕ → QState

-- `record`: `thread` and `thread_id` are those of the current thread (0 outside the game's).
unfoldable pub record_event : MesgLog → ℕ → ℕ → ℕ → ℕ → ℕ → ℕ → ℕ → ℕ → Bool → Bool → MesgLog
record_event l ms thread id op mq msg before after block game =
    let e : Event = record {
      seq = l.ring.next_seq;
      ms = ms;
      mq = mq;
      msg = msg;
      thread = thread;
      thread_id = if thread == 0 then 0 else u16 id;
      valid_before = before;
      valid_after = after;
      op = op;
      block = block;
      game_thread = game;
    } in
    record { ring = push l.ring e; qstates = qstate_push l.qstates mq e }
