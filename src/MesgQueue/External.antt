-- ===== src/MesgQueue/External.antt =====
-- ultramodern/src/mesgqueue.cpp: the queue of messages that other host threads post, its drain on
-- the game thread, and the library calls. The concurrent queue is a list in order of arrival: a
-- producer's enqueue is one step of the sequence.
pub mod Drain
pub mod Wait
use n64modern_runtime.Base.{
  ℕ, ◌+◌, ◌-◌, ◌%◌, ◌^◌, Bool, true, false, not, List, [], ◌∷◌, ◌++◌, ◌==◌, if◌then◌else◌,
}
use n64modern_runtime.Base.Bits.{u32}
use n64modern_runtime.Base.Int.{ℤ, pos, negsuc}
use n64modern_runtime.MesgQueue.{
  QueuedMessage, System, Result, u16_ℤ, note, do_send, do_recv, parked, faulted, division_by_zero,
  done,
}
use n64modern_runtime.MesgQueue.Log.{
  op_send_game, op_send_external, op_recv_enter, op_recv_return_ok, op_ext_deq_ok, op_ext_deq_full,
  op_ext_deq_drop,
}
use n64modern_runtime.Scheduling.{check_running_queue, switched, failed, returned}

abbrev and_then : Result → (Bool → System → Result) → Result
and_then (done ok s) f = f ok s
and_then (parked s) f = parked s
and_then (faulted e s) f = faulted e s
and_then (division_by_zero s) f = division_by_zero s

unfoldable pub enqueue_external_tagged : System → ℕ → ℕ → Bool → Bool → System
enqueue_external_tagged s mq msg jam coalescible =
    let m : QueuedMessage = record { mq = mq; mesg = msg; jam = jam; coalescible = coalescible } in
    note (record s { external = s.external ++ m ∷ []; pending = u32 (s.pending + 1) }) false
      op_send_external mq msg 0 0 false false

abbrev pub enqueue_external_message : System → ℕ → ℕ → Bool → System
enqueue_external_message s mq msg jam = enqueue_external_tagged s mq msg jam false

-- `game_thread` is `ultramodern::is_game_thread()`; the call's own result is always 0.
abbrev pub post_rcp_event : System → Bool → ℕ → ℕ → Bool → Result
post_rcp_event s game_thread mq msg coalescible =
    if game_thread
    then do_send s mq msg false false
    else done true (enqueue_external_tagged s mq msg false coalescible)

-- `try_dequeue` of the first message, with `rest` behind it.
abbrev pub dequeued : System → List QueuedMessage → System
dequeued s rest = record s { external = rest; pending = u32 (s.pending + (2 ^ 32 - 1)) }

-- A message that does not fit goes to the tail of the queue again.
abbrev pub requeued : System → QueuedMessage → System
requeued s m = record s {
  external = s.external ++ m ∷ [];
  pending = u32 (s.pending + 1);
  requeues = (s.requeues + 1) % 2 ^ 64;
}

abbrev pub valid_u16 : System → ℕ → ℕ
valid_u16 s mq = u16_ℤ (s.mq mq).valid_count

unfoldable pub drain : System → List QueuedMessage → Result
drain s [] = done true (record s { external = [] })
drain s (m ∷ rest) =
    let s₁ = dequeued s rest in
    let vb = valid_u16 s₁ m.mq in
    elim (do_send s₁ m.mq m.mesg m.jam false) [
      | done true s₂ ↦
          drain (note s₂ true op_ext_deq_ok m.mq m.mesg vb (valid_u16 s₂ m.mq) false true) rest
      | done false s₂ ↦ elim m.coalescible [
        | true ↦ drain (note s₂ true op_ext_deq_drop m.mq m.mesg vb vb false true) rest
        | false ↦ done true (requeued (note s₂ true op_ext_deq_full m.mq m.mesg vb vb false true) m)
      ]
      | parked s₂ ↦ parked s₂
      | faulted e s₂ ↦ faulted e s₂
      | division_by_zero s₂ ↦ division_by_zero s₂
    ]

abbrev pub dequeue_external_messages : System → Result
dequeue_external_messages s = drain s s.external

-- What follows a successful dequeue in the waits: the outcome of the send is not looked at. With
-- an empty queue the caller sleeps until a message comes or, with a timeout, nothing happens.
unfoldable pub wait_for_external_message : System → Result
wait_for_external_message s = elim s.external [
  | [] ↦ done false s
  | m ∷ rest ↦ do_send (dequeued s rest) m.mq m.mesg m.jam false
]

abbrev pub external_message_pending : System → Bool
external_message_pending s = not (s.pending == 0)

-- A call of the guest: its return value, or `waits` when the caller is parked inside of it.
-- `switches`: a thread of higher priority runs before the caller goes on with the value.
pub data Call : Type 0 where
  returns : ℤ → System → Call
  switches : ℤ → System → Call
  waits : System → Call
  crashes : System → Call

-- `check_running_queue`, then the return value.
unfoldable pub finish : Bool → System → Call
finish ok s =
    let value = if ok then pos 0 else negsuc 0 in
    elim (check_running_queue s.kernel) [
      | returned k ↦ returns value (record s { kernel = k })
      | switched k ↦ switches value (record s { kernel = k })
      | failed e k ↦ crashes (record s { kernel = k })
    ]

-- The rest of a call after its send or receive: also what a parked caller goes on with.
abbrev pub and_finish : Result → (Bool → System → System) → Call
and_finish (done ok s) f = finish ok (f ok s)
and_finish (parked s) f = waits s
and_finish (faulted e s) f = crashes s
and_finish (division_by_zero s) f = crashes s

unfoldable pub os_send_mesg : System → Bool → ℕ → ℕ → Bool → Call
os_send_mesg s game_thread mq msg block =
    if not game_thread
    then returns (pos 0) (enqueue_external_message s mq msg false)
    else elim (dequeue_external_messages s) [
      | done _ s₁ ↦
          and_finish (do_send s₁ mq msg false block) (λ ok s₂.
            note s₂ true op_send_game mq msg (valid_u16 s₁ mq) (valid_u16 s₂ mq) block true)
      | parked s₁ ↦ waits s₁
      | faulted e s₁ ↦ crashes s₁
      | division_by_zero s₁ ↦ crashes s₁
    ]

unfoldable pub os_jam_mesg : System → Bool → ℕ → ℕ → Bool → Call
os_jam_mesg s game_thread mq msg block =
    if not game_thread
    then returns (pos 0) (enqueue_external_message s mq msg true)
    else and_finish (and_then (dequeue_external_messages s) (λ ok s₁. do_send s₁ mq msg true block))
        (λ ok s₂. s₂)

-- The assertion that the caller is a game thread is a condition of the callers here.
unfoldable pub os_recv_mesg : System → ℕ → ℕ → Bool → Call
os_recv_mesg s mq msg_ptr block =
    let vb = valid_u16 s mq in
    let entered = note s true op_recv_enter mq 0 vb vb block true in
    and_finish (and_then (dequeue_external_messages entered) (λ ok s₁. do_recv s₁ mq msg_ptr block))
      (λ ok s₂.
        let got = if msg_ptr == 0 then 0 else s₂.word msg_ptr in
        if ok then note s₂ true op_recv_return_ok mq got vb (valid_u16 s₂ mq) block true else s₂)
