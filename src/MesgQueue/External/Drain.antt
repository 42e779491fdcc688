-- ===== src/MesgQueue/External/Drain.antt =====
-- What a drain of the external queue does with the messages: none of the reliable ones is lost.
use n64modern_runtime.Base.{
  ℕ, ◌%◌, ◌^◌, ◌≡◌, refl, sym, ap, ◌∙◌, inl, inr, Bool, true, false, List, [], ◌∷◌, ◌++◌, arith,
  if◌then◌else◌, Bool-cases, length, length-append,
}
use mathlib.Core.List.{Perm}
use n64modern_runtime.MesgQueue.{
  QueuedMessage, System, Result, u16_ℤ, note, mq_is_full, is_sane, wake_waiter, put, deliver,
  send_no_wait, do_send, done,
}
use n64modern_runtime.MesgQueue.Log.{
  op_ext_deq_ok, op_ext_deq_full, op_ext_deq_drop, op_do_send_drop,
}
use n64modern_runtime.MesgQueue.External.{dequeued, requeued, valid_u16, drain}
use mathlib.Core.List.Perm

-- The messages that must not be dropped.
unfoldable pub reliable : List QueuedMessage → List QueuedMessage
reliable [] = []
reliable (m ∷ ms) = if m.coalescible then reliable ms else m ∷ reliable ms

-- The counter agrees with the queue.
abbrev pub Counted : System → Type 0
Counted s = s.pending ≡ length s.external % 2 ^ 32

abbrev attempt : System → QueuedMessage → List QueuedMessage → Result
attempt s m rest = do_send (dequeued s rest) m.mq m.mesg m.jam false

abbrev seen : System → QueuedMessage → ℕ → ℕ → System → System
seen s m op after s₂ = note s₂ true op m.mq m.mesg (valid_u16 s m.mq) after false true

-- `Drained s l d s'`: a drain of `l` from `s` sends the messages `d`, in this order, each of them
-- by a non-blocking send that succeeds, and ends in `s'`. What is neither sent nor left failed in
-- a send and is coalescible.
pub data Drained : System → List QueuedMessage → List QueuedMessage → System → Type 0 where
  emptied : (s : System) → Drained s [] [] (record s { external = [] })
  sent_on :
      (s : System) (m : QueuedMessage) (rest d : List QueuedMessage) (s₂ s' : System)
      → attempt s m rest ≡ done true s₂
      → Drained (seen s m op_ext_deq_ok (valid_u16 s₂ m.mq) s₂) rest d s'
      → Drained s (m ∷ rest) (m ∷ d) s'
  dropped :
      (s : System) (m : QueuedMessage) (rest d : List QueuedMessage) (s₂ s' : System)
      → attempt s m rest ≡ done false s₂
      → m.coalescible ≡ true
      → Drained (seen s m op_ext_deq_drop (valid_u16 s m.mq) s₂) rest d s'
      → Drained s (m ∷ rest) d s'
  put_back :
      (s : System) (m : QueuedMessage) (rest : List QueuedMessage) (s₂ : System)
      → attempt s m rest ≡ done false s₂
      → m.coalescible ≡ false
      → Drained s (m ∷ rest) [] (requeued (seen s m op_ext_deq_full (valid_u16 s m.mq) s₂) m)

wake_waiter-external : (s : System) (b : ℕ) → (wake_waiter s b).external ≡ s.external
unfolding wake_waiter
wake_waiter-external s b = ground arith

wake_waiter-pending : (s : System) (b : ℕ) → (wake_waiter s b).pending ≡ s.pending
unfolding wake_waiter
wake_waiter-pending s b = ground arith

-- A non-blocking send comes back, and leaves the external queue alone.
do_send-returns :
    (s : System) (mq m : ℕ) (jam : Bool)
    → (b : Bool) × (s₂ : System) × (do_send s mq m jam false ≡ done b s₂)
      × (s₂.external ≡ s.external)
      × (s₂.pending ≡ s.pending)
unfolding do_send send_no_wait deliver put note
do_send-returns s mq m jam = elim (Bool-cases (is_sane mq (s.mq mq))) [
  | inr e ↦ (false, s, rw (e) refl, refl, refl)
  | inl e ↦ elim (Bool-cases (mq_is_full (s.mq mq))) [
    | inl e₁ ↦
        let n = u16_ℤ (s.mq mq).valid_count in
        (false, note s true op_do_send_drop mq m n n false true, rw (e, e₁) refl, refl, refl)
    | inr e₁ ↦ (
      true,
      deliver s mq m jam,
      rw (e, e₁) refl,
      wake_waiter-external (put s mq m jam) mq,
      wake_waiter-pending (put s mq m jam) mq,
    )
  ]
]

-- What the theorem below states of a drain of `l`.
abbrev Accounted : System → List QueuedMessage → Type 0
Accounted s l =
    (d : List QueuedMessage) × (s' : System) × (drain s l ≡ done true s')
    × Drained s l d s'
    × Perm (reliable l) (reliable d ++ reliable s'.external)
    × Counted s'

drain_sent :
    (s : System) (m : QueuedMessage) (rest : List QueuedMessage) (s₂ : System)
    → attempt s m rest ≡ done true s₂
    → drain s (m ∷ rest) ≡ drain (seen s m op_ext_deq_ok (valid_u16 s₂ m.mq) s₂) rest
unfolding drain
drain_sent s m rest s₂ eq = rw (eq, drain) refl

drain_failed :
    (s : System) (m : QueuedMessage) (rest : List QueuedMessage) (c : Bool) (s₂ : System)
    → attempt s m rest ≡ done false s₂
    → m.coalescible ≡ c
    → drain s (m ∷ rest) ≡ (
        if c
        then drain (seen s m op_ext_deq_drop (valid_u16 s m.mq) s₂) rest
        else done true (requeued (seen s m op_ext_deq_full (valid_u16 s m.mq) s₂) m))
unfolding drain
drain_failed s m rest c s₂ eq e =
    rw (eq, drain)
      (ap
          (λ (b : Bool). elim b as (λ x. Result) [
            | true ↦ drain (seen s m op_ext_deq_drop (valid_u16 s m.mq) s₂) rest
            | false ↦ done true (requeued (seen s m op_ext_deq_full (valid_u16 s m.mq) s₂) m)
          ])
          e
        ∙ branch c)
  where
    branch :
        (b : Bool)
        → elim b as (λ x. Result) [
          | true ↦ drain (seen s m op_ext_deq_drop (valid_u16 s m.mq) s₂) rest
          | false ↦ done true (requeued (seen s m op_ext_deq_full (valid_u16 s m.mq) s₂) m)
        ]
          ≡ (if b
              then drain (seen s m op_ext_deq_drop (valid_u16 s m.mq) s₂) rest
              else done true (requeued (seen s m op_ext_deq_full (valid_u16 s m.mq) s₂) m))
    branch true = refl
    branch false = refl

reliable_none : reliable [] ≡ []
unfolding reliable
reliable_none = refl

reliable_keep :
    (m : QueuedMessage) (l : List QueuedMessage)
    → m.coalescible ≡ false
    → reliable (m ∷ l) ≡ m ∷ reliable l
unfolding reliable
reliable_keep m l e = ap (λ b. if b then reliable l else m ∷ reliable l) e

reliable_skip :
    (m : QueuedMessage) (l : List QueuedMessage)
    → m.coalescible ≡ true
    → reliable (m ∷ l) ≡ reliable l
unfolding reliable
reliable_skip m l e = ap (λ b. if b then reliable l else m ∷ reliable l) e

reliable_last :
    (m : QueuedMessage) (l : List QueuedMessage)
    → m.coalescible ≡ false
    → reliable (l ++ m ∷ []) ≡ reliable l ++ m ∷ []
unfolding reliable
reliable_last m [] e = reliable_keep m [] e
reliable_last m (x ∷ l) e = elim (Bool-cases x.coalescible) [
  | inl c ↦
      reliable_skip x (l ++ m ∷ []) c
      ∙ reliable_last m l e
      ∙ ap (λ r. r ++ m ∷ []) (sym (reliable_skip x l c))
  | inr c ↦
      reliable_keep x (l ++ m ∷ []) c
      ∙ ap (λ r. x ∷ r) (reliable_last m l e)
      ∙ ap (λ r. r ++ m ∷ []) (sym (reliable_keep x l c))
]

last_first : (m : QueuedMessage) (l : List QueuedMessage) → Perm (m ∷ l) (l ++ m ∷ [])
last_first m [] = Perm.refl (m ∷ [])
last_first m (x ∷ l) = Perm.trans (Perm.swap x m l) (Perm.cons x (last_first m l))

-- One message on: the case of its send, and the drain of the rest.
account :
    (s : System) (m : QueuedMessage) (rest : List QueuedMessage) (b : Bool) (s₂ : System)
    → attempt s m rest ≡ done b s₂
    → s₂.external ≡ rest
    → s₂.pending ≡ length rest % 2 ^ 32
    → ((s' : System) → s'.external ≡ rest → s'.pending ≡ length rest % 2 ^ 32 → Accounted s' rest)
    → Accounted s (m ∷ rest)
unfolding note
account s m rest true s₂ eq x p ih =
    let r = ih (seen s m op_ext_deq_ok (valid_u16 s₂ m.mq) s₂) x p in
    (
      m ∷ r.0,
      r.1,
      drain_sent s m rest s₂ eq ∙ r.2,
      sent_on s m rest r.0 s₂ r.1 eq r.3,
      elim (Bool-cases m.coalescible) [
        | inl e ↦ rw (reliable_skip m rest e, reliable_skip m r.0 e) r.4
        | inr e ↦ rw (reliable_keep m rest e, reliable_keep m r.0 e) (Perm.cons m r.4)
      ],
      r.5,
    )
account s m rest false s₂ eq x p ih = elim (Bool-cases m.coalescible) [
  | inl e ↦
      let r = ih (seen s m op_ext_deq_drop (valid_u16 s m.mq) s₂) x p in
      (
        r.0,
        r.1,
        drain_failed s m rest true s₂ eq e ∙ r.2,
        dropped s m rest r.0 s₂ r.1 eq e r.3,
        rw (reliable_skip m rest e) r.4,
        r.5,
      )
  | inr e ↦ (
    [],
    requeued (seen s m op_ext_deq_full (valid_u16 s m.mq) s₂) m,
    drain_failed s m rest false s₂ eq e,
    put_back s m rest s₂ eq e,
    rw (x, reliable_keep m rest e, reliable_none, reliable_last m rest e)
        (last_first m (reliable rest)),
    rw (x) (omega (arith, p, length-append rest (m ∷ []))),
  )
]

-- Draining a queue whose counter is right comes to its end. Every reliable message of the queue
-- is then either sent by a send that succeeded, or still in the queue, none twice and none lost;
-- only coalescible messages are dropped, and the counter is right again.
pub drain_accounts :
    (s : System) (l : List QueuedMessage)
    → s.external ≡ l
    → s.pending ≡ length l % 2 ^ 32
    → Accounted s l
unfolding drain reliable
drain_accounts s [] e p = ([], record s { external = [] }, refl, emptied s, Perm.refl [], p)
drain_accounts s (m ∷ rest) e p =
    let a = do_send-returns (dequeued s rest) m.mq m.mesg m.jam in
    account s m rest a.0 a.1 a.2 a.3 (a.4 ∙ omega (arith, p)) (λ s' x q. drain_accounts s' rest x q)
