-- ===== src/MesgQueue/Send.antt =====
-- `do_send` against a bounded queue of messages.
use n64modern_runtime.Base.{
  ℕ, suc, ◌+◌, ◌-◌, ◌*◌, ◌%◌, ◌<◌, ◌≡◌, refl, Bool, true, false, List, [], ◌∷◌, ◌++◌, arith,
  if◌then◌else◌, ==_iff,
}
use n64modern_runtime.Base.Int.{◌+ℤ◌, ◌-ℤ◌, ◌%ℤ◌, pos-add, pos-sub, pos-rem, pos}
use native.Mathlib.Nat.{mod-lt}
use n64modern_runtime.MesgQueue.{
  System, u16_ℤ, note, in_kseg0, is_sane, slot_address, wake_waiter, put, deliver, send_wait,
  send_no_wait, do_send, done,
}
use n64modern_runtime.MesgQueue.Log.{op_do_send_drop}
use n64modern_runtime.MesgQueue.Buffer.{Shape, index, messages, messages_append, messages_prepend}

pub slot_pos : (base i : ℕ) → slot_address base (pos i) ≡ base + 4 * i
unfolding slot_address
slot_pos base i = omega arith

last_index : (f n c : ℕ) → (pos f +ℤ pos n) %ℤ pos c ≡ pos (index c f n)
last_index f n c = rw (pos-add) (pos-rem (f + n) c)

front_index : (f c : ℕ) → 0 < c → (pos f +ℤ pos c -ℤ pos 1) %ℤ pos c ≡ pos ((f + c - 1) % c)
front_index f c h = rw (pos-add, pos-sub (f + c) 1 (omega arith)) (pos-rem (f + c - 1) c)

-- A normal send leaves the old messages in order and the new one behind them.
put-appends :
    (s : System) (mq m f n c : ℕ)
    → Shape (s.mq mq) f n c
    → n < c
    → let s' = put s mq m false in
      Shape (s'.mq mq) f (n + 1) c
      × (messages s'.word (s'.mq mq) f (suc n) c ≡ messages s.word (s.mq mq) f n c ++ m ∷ [])
unfolding put
put-appends s mq m f n c v room =
    rw
      (
        (==_iff mq mq).1 refl,
        v.first_is,
        v.count_is,
        v.size_is,
        last_index f n c,
        slot_pos,
        pos-add n 1,
      )
      (
        record {
          first_is = refl;
          count_is = refl;
          size_is = refl;
          first_in = v.first_in;
          count_in = omega arith;
          size_in = v.size_in;
        },
        messages_append s.word (s.mq mq).msg c f n m v.first_in room,
      )

-- A jam puts the new message in front of the old ones.
put-prepends :
    (s : System) (mq m f n c : ℕ)
    → Shape (s.mq mq) f n c
    → n < c
    → let s' = put s mq m true in
      let f' = (f + c - 1) % c in
      Shape (s'.mq mq) f' (n + 1) c
      × (messages s'.word (s'.mq mq) f' (suc n) c ≡ m ∷ messages s.word (s.mq mq) f n c)
unfolding put
put-prepends s mq m f n c v room =
    rw
      (
        (==_iff mq mq).1 refl,
        v.first_is,
        v.count_is,
        v.size_is,
        front_index f c (omega arith),
        slot_pos,
        pos-add n 1,
      )
      (
        record {
          first_is = refl;
          count_is = refl;
          size_is = refl;
          first_in = mod-lt (f + c - 1) (omega arith);
          count_in = omega arith;
          size_in = v.size_in;
        },
        messages_prepend s.word (s.mq mq).msg c f n m v.first_in room,
      )

-- Waking a waiter leaves the queues' members and the guest words alone.
pub wake_waiter-mq : (s : System) (b : ℕ) → (wake_waiter s b).mq ≡ s.mq
unfolding wake_waiter
wake_waiter-mq s b = ground arith

pub wake_waiter-word : (s : System) (b : ℕ) → (wake_waiter s b).word ≡ s.word
unfolding wake_waiter
wake_waiter-word s b = ground arith

-- The queue and its buffer lie in the guest's memory.
pub record InRam (s : System) (mq : ℕ) : Type 0 where
  pub queue : in_kseg0 mq ≡ true
  pub buffer : in_kseg0 (s.mq mq).msg ≡ true

put-msg : (s : System) (mq m : ℕ) (jam : Bool) → ((put s mq m jam).mq mq).msg ≡ (s.mq mq).msg
unfolding put
put-msg s mq m jam = rw ((==_iff mq mq).1 refl) refl

deliver-InRam : (s : System) (mq m : ℕ) (jam : Bool) → InRam s mq → InRam (deliver s mq m jam) mq
unfolding deliver
deliver-InRam s mq m jam i = record {
  queue = i.queue;
  buffer = rw (wake_waiter-mq, put-msg s mq m jam) i.buffer;
}

Shape-sane :
    (s : System) (mq f n c : ℕ) → InRam s mq → Shape (s.mq mq) f n c → is_sane mq (s.mq mq) ≡ true
Shape-sane s mq f n c i v =
    rw (i.queue, i.buffer, v.first_is, v.count_is, v.size_is)
      (ground (arith, v.first_in, v.count_in, v.size_in))

pub do_send_room :
    (s : System) (mq m f n c : ℕ) (jam block : Bool)
    → InRam s mq
    → Shape (s.mq mq) f n c
    → n < c
    → do_send s mq m jam block ≡ done true (deliver s mq m jam)
unfolding do_send send_wait send_no_wait
do_send_room s mq m f n c jam block i v room =
    rw (Shape-sane s mq f n c i v, v.count_is, v.size_is) (ground arith)

-- What a send or a jam makes of the list of messages.
abbrev pub sent : Bool → ℕ → List ℕ → List ℕ
sent jam m l = if jam then m ∷ l else l ++ m ∷ []

abbrev pub start_after : Bool → ℕ → ℕ → ℕ
start_after jam f c = if jam then (f + c - 1) % c else f

-- A send, blocking or not, to a queue with room succeeds: the message is the new last one (for a
-- jam the new first one), and the other messages stay in their order.
pub do_send-delivers :
    (s : System) (mq m f n c : ℕ) (jam block : Bool)
    → InRam s mq
    → Shape (s.mq mq) f n c
    → n < c
    → (s' : System) × (do_send s mq m jam block ≡ done true s')
      × Shape (s'.mq mq) (start_after jam f c) (n + 1) c
      × (messages s'.word (s'.mq mq) (start_after jam f c) (suc n) c
          ≡ sent jam m (messages s.word (s.mq mq) f n c))
      × InRam s' mq
unfolding deliver
do_send-delivers s mq m f n c true block i v room =
    let p = put-prepends s mq m f n c v room in
    (
      deliver s mq m true,
      do_send_room s mq m f n c true block i v room,
      rw (wake_waiter-mq) p.0,
      rw (wake_waiter-mq, wake_waiter-word) p.1,
      deliver-InRam s mq m true i,
    )
do_send-delivers s mq m f n c false block i v room =
    let p = put-appends s mq m f n c v room in
    (
      deliver s mq m false,
      do_send_room s mq m f n c false block i v room,
      rw (wake_waiter-mq) p.0,
      rw (wake_waiter-mq, wake_waiter-word) p.1,
      deliver-InRam s mq m false i,
    )

-- A non-blocking send to a full queue fails and leaves the queues, the guest's words and the
-- threads as they were.
pub do_send-full :
    (s : System) (mq m f c : ℕ) (jam : Bool)
    → InRam s mq
    → Shape (s.mq mq) f c c
    → (s' : System) × (do_send s mq m jam false ≡ done false s')
      × (s'.mq ≡ s.mq)
      × (s'.word ≡ s.word)
      × (s'.kernel ≡ s.kernel)
      × (s'.external ≡ s.external)
unfolding do_send send_no_wait note
do_send-full s mq m f c jam i v =
    let n = u16_ℤ (s.mq mq).valid_count in
    (
      note s true op_do_send_drop mq m n n false true,
      rw (Shape-sane s mq f c c i v, v.count_is, v.size_is) (ground arith),
      refl,
      refl,
      refl,
      refl,
    )
