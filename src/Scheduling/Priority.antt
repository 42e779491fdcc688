-- ===== src/Scheduling/Priority.antt =====
-- The scheduler's promise: after `check_running_queue` no runnable thread outranks the running one.
use n64modern_runtime.Base.{
  ℕ, ◌≡◌, sym, ap, ◌∙◌, ◌≢◌, inl, inr, true, false, List, [], ◌∷◌, arith, ==_apart, Bool-cases,
  All-map,
}
use mathlib.Core.List.{Perm}
use mathlib.Core.Path.{fun_ext}
use n64modern_runtime.Base.Int.{◌≤ℤ◌, ltb_ℤ, ltb_ℤ-false, ltb_ℤ-true, ≤ℤ_cong}
use n64modern_runtime.ThreadQueue.{
  Kernel, running_queue, thread_queue_pop, thread_queue_empty, thread_queue_peek,
}
use n64modern_runtime.ThreadQueue.Chain.{IsThread-ne-zero}
use n64modern_runtime.ThreadQueue.Place.{place, priorities, place-All, All-le}
use n64modern_runtime.ThreadQueue.Pop.{thread_queue_pop-Holds}
use n64modern_runtime.Scheduling.{
  Outcome, mark, swap_to_thread, check_running_queue, switched, returned, failed,
}
use n64modern_runtime.Scheduling.Agree.{
  KeepsRank, Agrees, KeepsRank-trans, Agrees-trans, mark-Agrees, pop-KeepsRank,
}
use n64modern_runtime.Scheduling.Swap.{
  IsReady, IsHighest, Runs, Agrees-IsReady, place-perm, Swapped, swap_to_thread-Runs,
}
use mathlib.Core.List.Perm

Runs-map : (o : Outcome) (P Q : Kernel → Type 0) → ((k : Kernel) → P k → Q k) → Runs o P → Runs o Q
Runs-map (returned k) P Q f p = f k p
Runs-map (switched k) P Q f p = f k p
Runs-map (failed e k) P Q f p = p

-- A state in which no runnable thread outranks the running one, with the same threads as `k`.
pub record Settled (k : Kernel) (ts : List ℕ) (k' : Kernel) : Type 0 where
  pub runnable : List ℕ
  pub is_ready : IsReady k' runnable
  pub highest : IsHighest k' runnable
  pub same_threads : Perm (k'.self ∷ runnable) (k.self ∷ ts)

Agrees-IsHighest : {k k' : Kernel} (ts : List ℕ) → Agrees k k' → IsHighest k ts → IsHighest k' ts
Agrees-IsHighest {k} {k'} ts a h =
    All-map ts (λ u p. rw (a.rank.self, a.rank.priority u, a.rank.priority k.self) p) h

Settled-stays :
    (k k' : Kernel) (ts : List ℕ) → Agrees k k' → IsReady k ts → IsHighest k ts → Settled k ts k'
Settled-stays k k' ts a r h = record {
  runnable = ts;
  is_ready = Agrees-IsReady ts a r;
  highest = Agrees-IsHighest ts a h;
  same_threads = rw a.rank.self (Perm.refl (k.self ∷ ts));
}

pop-IsReady :
    (k : Kernel) (t : ℕ) (ts : List ℕ)
    → IsReady k (t ∷ ts)
    → IsReady (thread_queue_pop k running_queue).1 ts
pop-IsReady k t ts r = record {
  holds = (thread_queue_pop-Holds k running_queue t ts r.holds).2;
  sorted = rw (fun_ext keep.priority) r.sorted.1;
  self_valid = rw keep.self r.self_valid;
  self_out = rw keep.self r.self_out.1;
  alive = All-map ts (λ u h. rw (keep.context u) h) r.alive.1;
  self_alive = rw (keep.self, keep.context k.self) r.self_alive;
  small = omega (arith, r.small);
}
  where
    keep : KeepsRank k (thread_queue_pop k running_queue).1
    keep = pop-KeepsRank k running_queue

Swapped-Settled :
    (k kP k' : Kernel) (t : ℕ) (ts : List ℕ)
    → IsReady k (t ∷ ts)
    → ltb_ℤ (k.thread k.self).priority (k.thread t).priority ≡ true
    → KeepsRank k kP
    → Swapped kP k' t ts
    → Settled k (t ∷ ts) k'
Swapped-Settled k kP k' t ts r over keep s = record {
  runnable = place (priorities kP) kP.self ts;
  is_ready = s.is_ready;
  highest =
      All-map (place (priorities kP) kP.self ts)
        (λ u p.
          ≤ℤ_cong (priorities k u) (priorities k' u) (priorities k t) (priorities k' k'.self)
            (s.rank u ∙ keep.priority u)
            (ap (priorities k') s.now_running ∙ s.rank t ∙ keep.priority t) p)
        (place-All (λ u. priorities k u ≤ℤ priorities k t) (priorities kP) kP.self ts
          (rw keep.self (ltb_ℤ-true (priorities k k.self) (priorities k t) over)) r.sorted.0);
  same_threads =
      rw (s.now_running, keep.self)
        (Perm.trans (Perm.cons t (place-perm (priorities kP) k.self ts)) (Perm.swap k.self t ts));
}

check_swaps :
    (k : Kernel) (t : ℕ)
    → k.head running_queue ≡ t
    → t ≢ 0
    → ltb_ℤ (k.thread k.self).priority (k.thread t).priority ≡ true
    → check_running_queue k
      ≡ swap_to_thread
          (thread_queue_pop (mark (mark k 102 running_queue t) 104 running_queue t) running_queue).1
          t
unfolding check_running_queue thread_queue_empty thread_queue_peek
check_swaps k t h live over = rw (h, ==_apart t 0 live, over)

check_stays :
    (k : Kernel) (t : ℕ)
    → k.head running_queue ≡ t
    → t ≢ 0
    → ltb_ℤ (k.thread k.self).priority (k.thread t).priority ≡ false
    → check_running_queue k ≡ returned (mark (mark k 102 running_queue t) 103 running_queue t)
unfolding check_running_queue thread_queue_empty thread_queue_peek
check_stays k t h live under = rw (h, ==_apart t 0 live, under)

-- From a sorted queue of runnable threads with live contexts, `check_running_queue` never fails: it
-- ends with a thread running that no runnable thread outranks, the queue sorted again, and running
-- and runnable threads together the same as before.
pub check_running_queue-Runs :
    (k : Kernel) (ts : List ℕ) → IsReady k ts → Runs (check_running_queue k) (Settled k ts)
unfolding check_running_queue thread_queue_empty thread_queue_peek
check_running_queue-Runs k [] r =
    rw (r.holds.chain) (Settled-stays k _ [] (mark-Agrees k 101 running_queue 0) r tt)
check_running_queue-Runs k (t ∷ ts) r =
    elim (Bool-cases (ltb_ℤ (k.thread k.self).priority (k.thread t).priority)) [
      | inl over ↦ rw (check_swaps k t r.holds.chain.0 live over) (
          Runs-map (swap_to_thread kP t) (λ k'. Swapped kP k' t ts) (Settled k (t ∷ ts))
            (λ k'. Swapped-Settled k kP k' t ts r over keep)
            (swap_to_thread-Runs kP t ts ready r.small r.holds.chain.1
              (rw keep.self (λ e. r.self_out.0 (sym e))) r.holds.distinct.0
              (rw (keep.context t) r.alive.0)))
      | inr under ↦ rw (check_stays k t r.holds.chain.0 live under) (
          Settled-stays k _ (t ∷ ts)
            (Agrees-trans (mark-Agrees k 102 running_queue t)
              (mark-Agrees (mark k 102 running_queue t) 103 running_queue t))
            r
            (let le = ltb_ℤ-false (priorities k k.self) (priorities k t) under in
              (le, All-le (priorities k) (priorities k t) (priorities k k.self) ts le r.sorted.0)))
    ]
  where
    live : t ≢ 0
    live = IsThread-ne-zero t r.holds.chain.1

    k1 : Kernel
    k1 = mark k 102 running_queue t

    k2 : Kernel
    k2 = mark k1 104 running_queue t

    marked : Agrees k k2
    marked = Agrees-trans (mark-Agrees k 102 running_queue t) (mark-Agrees k1 104 running_queue t)

    kP : Kernel
    kP = (thread_queue_pop k2 running_queue).1

    keep : KeepsRank k kP
    keep = KeepsRank-trans marked.rank (pop-KeepsRank k2 running_queue)

    ready : IsReady kP ts
    ready = pop-IsReady k2 t ts (Agrees-IsReady (t ∷ ts) marked r)
