-- ===== src/Scheduling/Agree.antt =====
-- Changes of the scheduler's state that touch no queue: the event log, and a thread's `state`.
use n64modern_runtime.Base.{
  ℕ, ◌≡◌, refl, ap, ◌∙◌, inl, inr, not, ◌&&◌, List, [], ◌∷◌, ◌==◌, ==_iff, Bool-cases, All, update,
}
use n64modern_runtime.ThreadQueue.{
  ThreadState, OsThread, Kernel, guard_limit, valid_thread_ptr, Link, read_link, write_link, trace,
  seek, sever, enrol, splice, thread_queue_insert, thread_queue_pop, at_head, at_next,
}
use n64modern_runtime.ThreadQueue.Log.{op_insert}
use n64modern_runtime.ThreadQueue.Chain.{Holds, Chain-ext}
use n64modern_runtime.Scheduling.{mark, set_state}

-- Priority and context of every thread are kept, and the running thread.
pub record KeepsRank (k k' : Kernel) : Type 0 where
  pub priority : (u : ℕ) → (k'.thread u).priority ≡ (k.thread u).priority
  pub context : (u : ℕ) → (k'.thread u).context ≡ (k.thread u).context
  pub self : k'.self ≡ k.self

-- So are all links.
pub record Agrees (k k' : Kernel) : Type 0 where
  pub rank : KeepsRank k k'
  pub next : (u : ℕ) → (k'.thread u).next ≡ (k.thread u).next
  pub head : (q : ℕ) → k'.head q ≡ k.head q

pub KeepsRank-trans : {k k' k'' : Kernel} → KeepsRank k k' → KeepsRank k' k'' → KeepsRank k k''
KeepsRank-trans a b = record {
  priority = λ u. b.priority u ∙ a.priority u;
  context = λ u. b.context u ∙ a.context u;
  self = b.self ∙ a.self;
}

pub Agrees-trans : {k k' k'' : Kernel} → Agrees k k' → Agrees k' k'' → Agrees k k''
Agrees-trans a b = record {
  rank = KeepsRank-trans a.rank b.rank;
  next = λ u. b.next u ∙ a.next u;
  head = λ q. b.head q ∙ a.head q;
}

pub mark-Agrees : (k : Kernel) (op q t : ℕ) → Agrees k (mark k op q t)
unfolding mark trace
mark-Agrees k op q t = record {
  rank = record { priority = λ u. refl; context = λ u. refl; self = refl };
  next = λ u. refl;
  head = λ q. refl;
}

pub touched {ℓ} :
    {A : Type ℓ} (f : OsThread → A) (th : ℕ → OsThread) (t u : ℕ) (x : OsThread)
    → f x ≡ f (th t)
    → f (update th t x u) ≡ f (th u)
touched f th t u x e = elim (Bool-cases (t == u)) [
  | inl same ↦ rw same (e ∙ ap (λ v. f (th v)) ((==_iff t u).0 same))
  | inr other ↦ rw other
]

pub set_state-Agrees : (k : Kernel) (t : ℕ) (s : ThreadState) → Agrees k (set_state k t s)
unfolding set_state
set_state-Agrees k t s = record {
  rank = record {
    priority = λ u. touched (λ x. x.priority) k.thread t u (record (k.thread t) { state = s }) refl;
    context = λ u. touched (λ x. x.context) k.thread t u (record (k.thread t) { state = s }) refl;
    self = refl;
  };
  next = λ u. touched (λ x. x.next) k.thread t u (record (k.thread t) { state = s }) refl;
  head = λ q. refl;
}

pub Agrees-Holds :
    {k k' : Kernel} (q : ℕ) (ts : List ℕ) → Agrees k k' → Holds k q ts → Holds k' q ts
Agrees-Holds {k} {k'} q ts a h = record {
  chain = rw (a.head q) (Chain-ext k.thread k'.thread (k.head q) ts (every ts) h.chain);
  distinct = h.distinct;
}
  where
    every : (us : List ℕ) → All (λ t. (k'.thread t).next ≡ (k.thread t).next) us
    every = elim [ [] ↦ tt | u ∷ (us → ih) ↦ (a.next u, ih) ]

write_link-KeepsRank : (k : Kernel) (l : Link) (v : ℕ) → KeepsRank k (write_link k l v)
unfolding write_link
write_link-KeepsRank k (at_head q) v = record {
  priority = λ u. refl;
  context = λ u. refl;
  self = refl;
}
write_link-KeepsRank k (at_next t) v = record {
  priority = λ u. touched (λ x. x.priority) k.thread t u (record (k.thread t) { next = v }) refl;
  context = λ u. touched (λ x. x.context) k.thread t u (record (k.thread t) { next = v }) refl;
  self = refl;
}

sever-KeepsRank : (k : Kernel) (l : Link) → KeepsRank k (sever k l)
unfolding sever
sever-KeepsRank k l =
    elim (Bool-cases (not (read_link k l == 0) && not (valid_thread_ptr (read_link k l)))) [
      | inl e ↦ rw e (write_link-KeepsRank k l 0)
      | inr e ↦ rw e (record { priority = λ u. refl; context = λ u. refl; self = refl })
    ]

enrol-KeepsRank : (k : Kernel) (l : Link) (q a : ℕ) → KeepsRank k (enrol k l q a)
unfolding enrol
enrol-KeepsRank k l q a = record {
  priority = λ u. touched (λ x. x.priority) k.thread a u _ refl;
  context = λ u. touched (λ x. x.context) k.thread a u _ refl;
  self = refl;
}

trace-KeepsRank : (k : Kernel) (op q t h : ℕ) → KeepsRank k (trace k op q t h)
unfolding trace
trace-KeepsRank k op q t h = record { priority = λ u. refl; context = λ u. refl; self = refl }

-- An insertion changes no thread's priority or context.
pub insert-KeepsRank : (k : Kernel) (q a : ℕ) → KeepsRank k (thread_queue_insert k q a)
unfolding thread_queue_insert splice
insert-KeepsRank k q a =
    let l = seek guard_limit k (at_head q) (k.thread a).priority in
    KeepsRank-trans
      (KeepsRank-trans (sever-KeepsRank k l) (
        KeepsRank-trans (enrol-KeepsRank (sever k l) l q a)
          (write_link-KeepsRank (enrol (sever k l) l q a) l a)))
      (trace-KeepsRank _ op_insert q a _)

-- A popped thread's priority and context stay, and so do all others'.
pub pop-KeepsRank : (k : Kernel) (q : ℕ) → KeepsRank k (thread_queue_pop k q).1
unfolding thread_queue_pop trace
pop-KeepsRank k q = elim (Bool-cases (valid_thread_ptr (k.head q))) [
  | inl e ↦ rw e (record {
    priority = λ u. touched (λ x. x.priority) k.thread (k.head q) u t' refl;
    context = λ u. touched (λ x. x.context) k.thread (k.head q) u t' refl;
    self = refl;
  })
  | inr e ↦ rw e (record { priority = λ u. refl; context = λ u. refl; self = refl })
]
  where
    t' : OsThread
    t' = record (k.thread (k.head q)) { queue = 0 }
