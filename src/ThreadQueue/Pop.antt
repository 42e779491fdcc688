-- ===== src/ThreadQueue/Pop.antt =====
-- `thread_queue_pop` against the list of threads that the queue holds.
use n64modern_runtime.Base.{ℕ, ◌≡◌, refl, ◌⊎◌, inl, inr, List, ◌∷◌, ==_iff, Bool-cases, update}
use n64modern_runtime.ThreadQueue.Chain.{IsThread, Chain, Holds, Chain-touch}
use n64modern_runtime.ThreadQueue.{OsThread, Kernel, valid_thread_ptr, trace, thread_queue_pop}

-- Popping a queue that holds threads returns the first one, which is then in no queue, and leaves
-- the others.
pub thread_queue_pop-Holds :
    (k : Kernel) (q t : ℕ) (ts : List ℕ)
    → Holds k q (t ∷ ts)
    → let (popped, k') = thread_queue_pop k q in
      (popped ≡ t) × ((k'.thread t).queue ≡ 0) × Holds k' q ts
unfolding thread_queue_pop trace
thread_queue_pop-Holds k q t ts h =
    rw (h.chain.0, h.chain.1, (==_iff t t).1 refl)
      (refl, refl, record { chain = rest; distinct = h.distinct.1 })
  where
    t' : OsThread
    t' = record (k.thread t) { queue = 0 }

    rest : Chain (update k.thread t t') (update k.head q (k.thread t).next q) ts
    rest = rw ((==_iff q q).1 refl) (Chain-touch k.thread (k.thread t).next ts t t' refl h.chain.2)

-- Whatever the memory holds, what is popped is null or a valid thread pointer.
pub thread_queue_pop-IsThread :
    (k : Kernel) (q : ℕ) → ((thread_queue_pop k q).0 ≡ 0) ⊎ IsThread (thread_queue_pop k q).0
unfolding thread_queue_pop
thread_queue_pop-IsThread k q = elim (Bool-cases (valid_thread_ptr (k.head q))) [
  | inl e ↦ inr (rw (e) e)
  | inr e ↦ inl (rw e)
]
