-- ===== src/Scheduling/Change.antt =====
-- `osSetThreadPri` on a thread that is in a queue: what the re-insertion goes through.
use n64modern_runtime.Base.{
  ℕ, ◌≤◌, ◌≡◌, refl, ap, ◌∙◌, ◌≢◌, inl, inr, Bool, true, false, ◌&&◌, List, [], ◌∷◌, ◌++◌, arith,
  ==_apart, Bool-cases, length, All,
}
use n64modern_runtime.Base.Int.{ℤ, leb_ℤ, pos, negsuc}
use n64modern_runtime.ThreadQueue.{Kernel, guard_limit}
use n64modern_runtime.ThreadQueue.Chain.{Holds, Chain-ext}
use n64modern_runtime.ThreadQueue.Remove.{IsQueue, thread_queue_remove_found}
use n64modern_runtime.Scheduling.{
  is_stopped, set_priority, requeue, checked, os_set_thread_pri, null_queue, failed,
}
use n64modern_runtime.Scheduling.Agree.{touched}

leb_ℤ_antisym : (a b : ℤ) → leb_ℤ a b ≡ true → leb_ℤ b a ≡ true → a ≡ b
leb_ℤ_antisym (pos a) (pos b) h k = ap pos (ground (arith, h, k))
leb_ℤ_antisym (pos a) (negsuc b) h k = absurd (ground (arith, h, k))
leb_ℤ_antisym (negsuc a) (pos b) h k = absurd (ground (arith, h, k))
leb_ℤ_antisym (negsuc a) (negsuc b) h k = ap negsuc (ground (arith, h, k))

changes : (a b : ℤ) → a ≢ b → (leb_ℤ a b && leb_ℤ b a) ≡ false
changes a b n = elim (Bool-cases (leb_ℤ a b)) [
  | inl e ↦ elim (Bool-cases (leb_ℤ b a)) [
    | inl e' ↦ absurd (n (leb_ℤ_antisym a b e e'))
    | inr e' ↦ rw (e, e') refl
  ]
  | inr e ↦ rw e refl
]

module _ (k : Kernel) (t : ℕ) (pri : ℤ) where
  set_priority_links :
      (u : ℕ)
      → (((set_priority k t pri).thread u).next ≡ (k.thread u).next)
        × (((set_priority k t pri).thread u).queue ≡ (k.thread u).queue)
  unfolding set_priority
  set_priority_links u = (
    touched (λ x. x.next) k.thread t u (record (k.thread t) { priority = pri }) refl,
    touched (λ x. x.queue) k.thread t u (record (k.thread t) { priority = pri }) refl,
  )

  set_priority-head : (q : ℕ) → (set_priority k t pri).head q ≡ k.head q
  unfolding set_priority
  set_priority-head q = refl

  every : (us : List ℕ) → All (λ u. ((set_priority k t pri).thread u).next ≡ (k.thread u).next) us
  every [] = tt
  every (u ∷ us) = ((set_priority_links u).0, every us)

  set_priority-Holds : (q : ℕ) (ts : List ℕ) → Holds k q ts → Holds (set_priority k t pri) q ts
  set_priority-Holds q ts h = record {
    chain =
        rw (set_priority-head q)
          (Chain-ext k.thread (set_priority k t pri).thread (k.head q) ts (every ts) h.chain);
    distinct = h.distinct;
  }

-- The removal has cleared the member `queue` that the insertion reads.
requeue_faults :
    (k : Kernel) (q t : ℕ) (us vs : List ℕ)
    → IsQueue q
    → (k.thread t).queue ≡ q
    → Holds k q (us ++ t ∷ vs)
    → length (us ++ t ∷ vs) ≤ guard_limit
    → ((requeue k t).0 ≡ false) × Holds (requeue k t).1 q (us ++ vs)
unfolding requeue
requeue_faults k q t us vs iq e h le =
    let r = thread_queue_remove_found k q t us vs iq h le in rw (e, r.1) (refl, r.2)

checked-false : (r : Bool × Kernel) → r.0 ≡ false → checked r ≡ failed null_queue r.1
checked-false (true, k) e = absurd (ground (arith, e))
checked-false (false, k) e = refl

-- A change of the priority of another thread that waits in a queue or is ready to run never
-- succeeds: the thread is taken out of its queue, which clears its member `queue`, and the
-- re-insertion goes through that member, which is null, and faults. The others are left in the
-- queue.
pub os_set_thread_pri_faults :
    (k : Kernel) (q t : ℕ) (pri : ℤ) (us vs : List ℕ)
    → IsQueue q
    → t ≢ 0
    → t ≢ k.self
    → is_stopped (k.thread t).state ≡ false
    → (k.thread t).priority ≢ pri
    → (k.thread t).queue ≡ q
    → Holds k q (us ++ t ∷ vs)
    → length (us ++ t ∷ vs) ≤ guard_limit
    → (k' : Kernel) × (os_set_thread_pri k t pri ≡ failed null_queue k') × Holds k' q (us ++ vs)
unfolding os_set_thread_pri
os_set_thread_pri_faults k q t pri us vs iq nz other live new e h le =
    let k1 = set_priority k t pri in
    let (faults, rest) =
      requeue_faults k1 q t us vs iq ((set_priority_links k t pri t).1 ∙ e)
        (set_priority-Holds k t pri q _ h) le in
    (
      (requeue k1 t).1,
      rw (==_apart t 0 nz, changes (k.thread t).priority pri new, ==_apart t k.self other, live)
          (checked-false (requeue k1 t) faults),
      rest,
    )
