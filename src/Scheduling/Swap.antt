-- ===== src/Scheduling/Swap.antt =====
-- `swap_to_thread`: the caller goes back into the running queue, and the target runs.
use n64modern_runtime.Base.{
  ℕ, suc, ◌≤◌, ◌≡◌, refl, sym, ◌∙◌, ◌≢◌, inl, inr, List, [], ◌∷◌, arith, ==_apart, Bool-cases,
  length, All, All-map,
}
use mathlib.Core.List.{Perm}
use mathlib.Core.Path.{fun_ext}
use n64modern_runtime.Base.Int.{ℤ, ◌≤ℤ◌, ltb_ℤ}
use n64modern_runtime.ThreadQueue.{
  Kernel, running_queue, guard_limit, trace, thread_queue_insert, queued, running,
}
use n64modern_runtime.ThreadQueue.Chain.{IsThread, NotIn, Holds}
use n64modern_runtime.ThreadQueue.Place.{place, priorities, Descending, place-All, place-Descending}
use n64modern_runtime.ThreadQueue.Insert.{thread_queue_insert-Holds}
use n64modern_runtime.Scheduling.{
  Outcome, mark, set_state, wake, hand_over, resume_thread_and_wait, swap_to_thread, switched,
  failed, returned,
}
use n64modern_runtime.Scheduling.Agree.{
  KeepsRank, Agrees, KeepsRank-trans, Agrees-trans, mark-Agrees, set_state-Agrees, Agrees-Holds,
  insert-KeepsRank,
}
use mathlib.Core.List.Perm

-- The running thread and the runnable ones: sorted, distinct, and all with a live context.
pub record IsReady (k : Kernel) (ts : List ℕ) : Type 0 where
  pub holds : Holds k running_queue ts
  pub sorted : Descending (priorities k) ts
  pub self_valid : IsThread k.self
  pub self_out : NotIn k.self ts
  pub alive : All (λ t. (k.thread t).context ≢ 0) ts
  pub self_alive : (k.thread k.self).context ≢ 0
  pub small : length ts ≤ guard_limit

abbrev pub IsHighest : Kernel → List ℕ → Type 0
IsHighest k ts = All (λ t. priorities k t ≤ℤ priorities k k.self) ts

-- The outcome is a running thread, in a state with the property.
abbrev pub Runs : Outcome → (Kernel → Type 0) → Type 0
Runs (returned k) P = P k
Runs (switched k) P = P k
Runs (failed f k) P = ⊥

pub Agrees-IsReady : {k k' : Kernel} (ts : List ℕ) → Agrees k k' → IsReady k ts → IsReady k' ts
Agrees-IsReady {k} {k'} ts a r = record {
  holds = Agrees-Holds running_queue ts a r.holds;
  sorted = rw (fun_ext a.rank.priority) r.sorted;
  self_valid = rw a.rank.self r.self_valid;
  self_out = rw a.rank.self r.self_out;
  alive = All-map ts (λ t h. rw (a.rank.context t) h) r.alive;
  self_alive = rw (a.rank.self, a.rank.context k.self) r.self_alive;
  small = r.small;
}

pub place-perm : (prio : ℕ → ℤ) (a : ℕ) (ts : List ℕ) → Perm (place prio a ts) (a ∷ ts)
unfolding place
place-perm prio a [] = Perm.refl (a ∷ [])
place-perm prio a (t ∷ ts) = elim (Bool-cases (ltb_ℤ (prio a) (prio t))) [
  | inl e ↦ rw e (Perm.trans (Perm.cons t (place-perm prio a ts)) (Perm.swap a t ts))
  | inr e ↦ rw e (Perm.refl (a ∷ t ∷ ts))
]

length-place : (prio : ℕ → ℤ) (a : ℕ) (ts : List ℕ) → length (place prio a ts) ≡ suc (length ts)
unfolding place
length-place prio a [] = refl
length-place prio a (t ∷ ts) = ground (arith, length-place prio a ts)

-- Where the switch from `self` to `t` leads.
pub record Swapped (k k' : Kernel) (t : ℕ) (ts : List ℕ) : Type 0 where
  pub now_running : k'.self ≡ t
  pub is_ready : IsReady k' (place (priorities k) k.self ts)
  pub rank : (u : ℕ) → priorities k' u ≡ priorities k u

hand_over-Runs :
    (k : Kernel) (t : ℕ) (P : Kernel → Type 0)
    → (k.thread t).context ≢ 0
    → P (wake (mark k 120 0 k.self) t)
    → Runs (hand_over k t) P
unfolding hand_over
hand_over-Runs k t P alive p = rw (==_apart (k.thread t).context 0 alive) p

insert_ready :
    (k : Kernel) (ts : List ℕ)
    → IsReady k ts
    → Holds
        (thread_queue_insert k running_queue k.self)
        running_queue
        (place (priorities k) k.self ts)
insert_ready k ts r =
    thread_queue_insert-Holds k running_queue k.self ts r.holds r.small r.self_valid r.self_out

-- Once the running thread is back in the queue, the target takes over.
wake-IsReady :
    (k k' : Kernel) (t : ℕ) (ts : List ℕ)
    → IsReady k ts
    → suc (length ts) ≤ guard_limit
    → IsThread t
    → t ≢ k.self
    → NotIn t ts
    → (k.thread t).context ≢ 0
    → KeepsRank k k'
    → Holds k' running_queue (place (priorities k) k.self ts)
    → IsReady (record k' { self = t }) (place (priorities k) k.self ts)
wake-IsReady k k' t ts r small vt ne out alive keep h = record {
  holds = record { chain = h.chain; distinct = h.distinct };
  sorted = rw (fun_ext keep.priority) (place-Descending (priorities k) k.self ts r.sorted);
  self_valid = vt;
  self_out = place-All (λ u. t ≢ u) (priorities k) k.self ts ne out;
  alive =
      All-map (place (priorities k) k.self ts) (λ u c. rw (keep.context u) c)
        (place-All (λ u. (k.thread u).context ≢ 0) (priorities k) k.self ts r.self_alive r.alive);
  self_alive = rw (keep.context t) alive;
  small = rw (length-place (priorities k) k.self ts) small;
}

wake-Agrees : (k : Kernel) (t : ℕ) → Agrees (record k { self = t }) (wake k t)
unfolding wake
wake-Agrees k t =
    let k0 : Kernel = record k { self = t } in
    Agrees-trans (mark-Agrees k0 121 0 t) (set_state-Agrees (mark k0 121 0 t) t running)

-- From the re-inserted caller to the signal: log entries and a state.
before_signal : Kernel → ℕ → ℕ → Kernel
before_signal k self to =
    let k2 = set_state (mark k 111 running_queue self) self queued in
    let k3 = mark k2 112 running_queue to in mark (mark k3 112 running_queue k3.self) 122 0 0

before_signal-Agrees : (k : Kernel) (self to : ℕ) → Agrees k (before_signal k self to)
unfolding before_signal
before_signal-Agrees k self to =
    let k1 = mark k 111 running_queue self in
    let k2 = set_state k1 self queued in
    let k3 = mark k2 112 running_queue to in
    let k4 = mark k3 112 running_queue k3.self in
    Agrees-trans (mark-Agrees k 111 running_queue self) (
      Agrees-trans (set_state-Agrees k1 self queued) (
        Agrees-trans (mark-Agrees k2 112 running_queue to)
          (Agrees-trans (mark-Agrees k3 112 running_queue k3.self) (mark-Agrees k4 122 0 0))))

pub swap_to_thread-Runs :
    (k : Kernel) (t : ℕ) (ts : List ℕ)
    → IsReady k ts
    → suc (length ts) ≤ guard_limit
    → IsThread t
    → t ≢ k.self
    → NotIn t ts
    → (k.thread t).context ≢ 0
    → Runs (swap_to_thread k t) (λ k'. Swapped k k' t ts)
unfolding swap_to_thread resume_thread_and_wait before_signal mark trace
swap_to_thread-Runs k t ts r small vt ne out alive =
    hand_over-Runs kC t (λ k'. Swapped k k' t ts) (rw (to_c.context t) alive)
      (record {
        now_running = after.rank.self;
        is_ready = Agrees-IsReady L after ready;
        rank = λ u. after.rank.priority u ∙ keep.priority u;
      })
  where
    L : List ℕ
    L = place (priorities k) k.self ts

    kA : Kernel
    kA = mark k 110 running_queue t

    a : Agrees k kA
    a = mark-Agrees k 110 running_queue t

    kB : Kernel
    kB = thread_queue_insert kA running_queue k.self

    b : Holds kB running_queue L
    b =
        rw (sym (a.rank.self), sym (fun_ext a.rank.priority))
          (insert_ready kA ts (Agrees-IsReady ts a r))

    kC : Kernel
    kC = before_signal kB k.self t

    c : Agrees kB kC
    c = before_signal-Agrees kB k.self t

    to_c : KeepsRank k kC
    to_c =
        KeepsRank-trans a.rank (KeepsRank-trans (insert-KeepsRank kA running_queue k.self) c.rank)

    kD : Kernel
    kD = mark kC 120 0 kC.self

    d : Agrees kC kD
    d = mark-Agrees kC 120 0 kC.self

    keep : KeepsRank k kD
    keep = KeepsRank-trans to_c d.rank

    ready : IsReady (record kD { self = t }) L
    ready =
        wake-IsReady k kD t ts r small vt ne out alive keep
          (Agrees-Holds running_queue L (Agrees-trans c d) b)

    after : Agrees (record kD { self = t }) (wake kD t)
    after = wake-Agrees kD t
