-- ===== src/MesgQueue/Recv.antt =====
-- `do_recv` against a bounded queue of messages.
use n64modern_runtime.Base.{
  ℕ, suc, ◌+◌, ◌*◌, ◌%◌, ◌<◌, ◌≡◌, refl, sym, ap, ap₂, ◌∙◌, ◌≢◌, inl, inr, Bool, true, false, List,
  [], ◌∷◌, arith, ltb, if◌then◌else◌, ltb→lt, ==_iff, ltb-false, ==_apart, Bool-cases, length,
  length-append, update, get_or, drop,
}
use mathlib.Core.Path.{subst}
use n64modern_runtime.Base.Int.{pos-add, pos-sub, pos-rem, pos}
use native.Mathlib.Nat.{mod-lt}
use n64modern_runtime.MesgQueue.{
  MesgQueue, System, mq_is_empty, wake_waiter, do_send, take_front, is_zero_ℤ, collect, recv_wait,
  do_recv, done,
}
use n64modern_runtime.MesgQueue.Send.{
  slot_pos, wake_waiter-mq, wake_waiter-word, InRam, sent, start_after, do_send-delivers,
  do_send-full,
}
use n64modern_runtime.MesgQueue.Buffer.{
  Shape, index, index_lem, messages_from, messages, messages_from-out, messages_from-next,
}

-- The pointer that receives the message is no slot of the queue's buffer.
abbrev pub OutOfBuffer : System → ℕ → ℕ → ℕ → Type 0
OutOfBuffer s mq c a = (i : ℕ) → i < c → a ≢ (s.mq mq).msg + 4 * i

take_front-Shape :
    (s : System) (mq p f n c : ℕ)
    → Shape (s.mq mq) f (suc n) c
    → Shape ((take_front s mq p).mq mq) ((f + 1) % c) n c
unfolding take_front
take_front-Shape s mq p f n c v =
    rw
      (
        (==_iff mq mq).1 refl,
        v.first_is,
        v.count_is,
        v.size_is,
        pos-add f 1,
        pos-rem,
        pos-sub (suc n) 1 (omega arith),
      )
      (record {
        first_is = refl;
        count_is = ap pos (omega arith);
        size_is = refl;
        first_in = mod-lt (f + 1) (omega arith);
        count_in = omega arith;
        size_in = v.size_in;
      })

take_front-word :
    (s : System) (mq p f n c : ℕ)
    → Shape (s.mq mq) f (suc n) c
    → p ≢ 0
    → (take_front s mq p).word ≡ update s.word p (s.word ((s.mq mq).msg + 4 * f))
unfolding take_front
take_front-word s mq p f n c v nz = rw (v.first_is, slot_pos, ==_apart p 0 nz) refl

take_front-msg : (s : System) (mq p : ℕ) → ((take_front s mq p).mq mq).msg ≡ (s.mq mq).msg
unfolding take_front
take_front-msg s mq p = rw ((==_iff mq mq).1 refl) refl

-- The first message goes to the receiver, and the others stay in their order.
take_front-takes :
    (s : System) (mq p f n c : ℕ)
    → Shape (s.mq mq) f (suc n) c
    → p ≢ 0
    → OutOfBuffer s mq c p
    → let s' = take_front s mq p in
      messages s.word (s.mq mq) f (suc n) c
      ≡ s'.word p ∷ messages s'.word (s'.mq mq) ((f + 1) % c) n c
unfolding messages_from
take_front-takes s mq p f n c v nz out =
    rw (take_front-word s mq p f n c v nz, take_front-msg s mq p, (==_iff p p).1 refl)
      (ap₂ (λ (x : ℕ) (l : List ℕ). x ∷ l) head tail)
  where
    w' : ℕ → ℕ
    w' = update s.word p (s.word ((s.mq mq).msg + 4 * f))

    head : s.word ((s.mq mq).msg + 4 * index c f 0) ≡ s.word ((s.mq mq).msg + 4 * f)
    head =
        ap (λ i. s.word ((s.mq mq).msg + 4 * i)) {x = index c f 0} {y = f}
          (index_lem c f 0 v.first_in (omega arith) ∙ ground (arith, v.first_in))

    tail :
        messages_from s.word (s.mq mq).msg c f 1 n
        ≡ messages_from w' (s.mq mq).msg c ((f + 1) % c) 0 n
    tail =
        sym (
          messages_from-out s.word (s.mq mq).msg c f 1 n p (s.word ((s.mq mq).msg + 4 * f))
            (λ j a b. out (index c f j) (mod-lt (f + j) (omega (arith, v.first_in)))))
        ∙ sym (messages_from-next w' (s.mq mq).msg c f 0 n)

-- The queue at `mq` holds the messages `l`, oldest first, in a buffer of `c` slots.
pub record Represents (s : System) (mq c : ℕ) (l : List ℕ) : Type 0 where
  pub first : ℕ
  pub shape : Shape (s.mq mq) first (length l) c
  pub contents : messages s.word (s.mq mq) first (length l) c ≡ l
  pub in_ram : InRam s mq

length-sent : (jam : Bool) (m : ℕ) (l : List ℕ) → length (sent jam m l) ≡ suc (length l)
length-sent true m l = refl
length-sent false m l = length-append l (m ∷ []) ∙ omega arith

is_empty_false : (q : MesgQueue) (f n c : ℕ) → Shape q f (suc n) c → mq_is_empty q ≡ false
is_empty_false q f n c v = rw (v.count_is) (ground arith)

is_empty_true : (q : MesgQueue) (f c : ℕ) → Shape q f 0 c → mq_is_empty q ≡ true
is_empty_true q f c v = rw (v.count_is) refl

size_nonzero : (q : MesgQueue) (f n c : ℕ) → Shape q f n c → is_zero_ℤ q.msg_count ≡ false
size_nonzero q f n c v = rw (v.size_is) (ground (arith, v.first_in))

-- A receive from an empty queue without blocking fails and changes nothing.
do_recv_empty :
    (s : System) (mq c p : ℕ) → Represents s mq c [] → do_recv s mq p false ≡ done false s
unfolding do_recv
do_recv_empty s mq c p r = rw (is_empty_true (s.mq mq) r.first c r.shape) refl

pub do_recv_full :
    (s : System) (mq p f n c : ℕ) (block : Bool)
    → Shape (s.mq mq) f (suc n) c
    → do_recv s mq p block ≡ done true (wake_waiter (take_front s mq p) (mq + 4))
unfolding do_recv recv_wait collect
do_recv_full s mq p f n c true v =
    rw (is_empty_false (s.mq mq) f n c v, size_nonzero (s.mq mq) f (suc n) c v) refl
do_recv_full s mq p f n c false v =
    rw (is_empty_false (s.mq mq) f n c v, size_nonzero (s.mq mq) f (suc n) c v) refl

-- A receive, blocking or not, from a queue that holds `m` and then `l` succeeds: `m` is stored at
-- the receiver's pointer, which is not null and no slot of the buffer, and the queue holds `l`.
pub do_recv_takes :
    (s : System) (mq c p m : ℕ) (l : List ℕ) (block : Bool)
    → Represents s mq c (m ∷ l)
    → p ≢ 0
    → OutOfBuffer s mq c p
    → (s' : System) × (do_recv s mq p block ≡ done true s') × (s'.word p ≡ m) × Represents s' mq c l
do_recv_takes s mq c p m l block r nz out = (
  wake_waiter t (mq + 4),
  do_recv_full s mq p r.first (length l) c block r.shape,
  rw (wake_waiter-word) (ap (λ x. get_or x 0 0) parts),
  record {
    first = (r.first + 1) % c;
    shape = rw (wake_waiter-mq) (take_front-Shape s mq p r.first (length l) c r.shape);
    contents = rw (wake_waiter-mq, wake_waiter-word) (ap (λ x. drop 1 x) parts);
    in_ram = record {
      queue = r.in_ram.queue;
      buffer = rw (wake_waiter-mq, take_front-msg s mq p) r.in_ram.buffer;
    };
  },
)
  where
    t : System
    t = take_front s mq p

    parts : t.word p ∷ messages t.word (t.mq mq) ((r.first + 1) % c) (length l) c ≡ m ∷ l
    parts = sym (take_front-takes s mq p r.first (length l) c r.shape nz out) ∙ r.contents

made :
    (s : System) (mq f n c : ℕ) (l : List ℕ)
    → n ≡ length l
    → Shape (s.mq mq) f n c
    → messages s.word (s.mq mq) f n c ≡ l
    → InRam s mq
    → Represents s mq c l
made s mq f n c l e v q i = record {
  first = f;
  shape = subst (λ k. Shape (s.mq mq) f k c) e v;
  contents = subst (λ k. messages s.word (s.mq mq) f k c ≡ l) e q;
  in_ram = i;
}

-- A non-blocking send or jam to a queue that holds `l` in `c` slots. With room it succeeds, and
-- the queue holds `l` with the message behind it, or in front of it for a jam; without room it
-- fails and the queue holds `l` as before.
pub do_send_puts :
    (s : System) (mq c m : ℕ) (l : List ℕ) (jam : Bool)
    → Represents s mq c l
    → (s' : System) × (do_send s mq m jam false ≡ done (ltb (length l) c) s')
      × Represents s' mq c (if ltb (length l) c then sent jam m l else l)
do_send_puts s mq c m l jam r = elim (Bool-cases (ltb (length l) c)) [
  | inl e ↦
      let d =
        do_send-delivers s mq m r.first (length l) c jam false r.in_ram r.shape
          (ltb→lt (length l) c e) in
      (
        d.0,
        rw (e) d.1,
        rw (e) (
            made d.0 mq (start_after jam r.first c) (length l + 1) c (sent jam m l)
              (omega (arith, length-sent jam m l)) d.2
              (ap (λ n. messages d.0.word (d.0.mq mq) (start_after jam r.first c) n c)
                  {x = length l + 1} {y = suc (length l)} (omega arith)
                ∙ d.3
                ∙ ap (λ x. sent jam m x) r.contents)
              d.4),
      )
  | inr e ↦
      let full : length l ≡ c = omega (arith, ltb-false (length l) c e, r.shape.count_in) in
      let d =
        do_send-full s mq m r.first c jam r.in_ram
          (subst (λ n. Shape (s.mq mq) r.first n c) full r.shape) in
      (
        d.0,
        rw (e) d.1,
        rw (e) (
            made d.0 mq r.first (length l) c l refl (rw (d.2) r.shape) (rw (d.2, d.3) r.contents)
              (record { queue = r.in_ram.queue; buffer = rw (d.2) r.in_ram.buffer })),
      )
]
