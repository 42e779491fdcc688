-- ===== src/ThreadQueue/Remove.antt =====
-- `thread_queue_remove` against the list of threads that the queue holds.
use n64modern_runtime.Base.{
  ℕ, zero, suc, ◌≤◌, ◌≡◌, refl, sym, ◌∙◌, ◌≢◌, ◌⊎◌, inl, inr, true, false, List, [], ◌∷◌, ◌++◌,
  arith, ==_iff, ==_apart, length, All-append_left, All-append_right, All-append, update,
}
use n64modern_runtime.ThreadQueue.Chain.{
  Chain, NotIn, Distinct, Holds, IsThread-ne-zero, Chain-touch, LinkOut, LinkOut-tail,
  LinkOut-append_left, LinkOut-ne, read-write_self, read-write_ne, Chain-write,
}
use n64modern_runtime.ThreadQueue.{
  Kernel, running_queue, guard_limit, valid_thread_ptr, Link, read_link, write_link, trace, scan,
  remove_at, thread_queue_remove, at_next, at_head, missed, found,
}

-- The link that leads past the threads `us`, from the link `l` on.
link_after : Link → List ℕ → Link
link_after l [] = l
link_after l (u ∷ us) = link_after (at_next u) us

link_after-ne :
    (l : Link) (u : ℕ) (us : List ℕ) → LinkOut l (u ∷ us) → l ≢ link_after (at_next u) us
unfolding link_after
link_after-ne l u [] o = LinkOut-ne l u o
link_after-ne l u (v ∷ us) o = link_after-ne l v us (LinkOut-tail l u (v ∷ us) o)

scan-missed :
    (n : ℕ) (k : Kernel) (l : Link) (t : ℕ) (ts : List ℕ)
    → length ts ≤ n
    → NotIn t ts
    → Chain k.thread (read_link k l) ts
    → scan n k l t ≡ missed
unfolding scan
scan-missed zero k l t [] le out c = rw c
scan-missed (suc n) k l t [] le out c = rw c
scan-missed zero k l t (u ∷ ts) le out c = absurd (omega arith)
scan-missed (suc n) k l t (u ∷ ts) le out c =
    rw (c.0, c.1, ==_apart u 0 (IsThread-ne-zero u c.1), ==_apart u t (λ e. out.0 (sym e)))
      (scan-missed n k (at_next u) t ts (omega arith) out.1 (unfold read_link in c.2))

scan-found :
    (n : ℕ) (k : Kernel) (l : Link) (t : ℕ) (us vs : List ℕ)
    → length (us ++ t ∷ vs) ≤ n
    → NotIn t us
    → Chain k.thread (read_link k l) (us ++ t ∷ vs)
    → scan n k l t ≡ found (link_after l us)
unfolding scan link_after
scan-found zero k l t [] vs le out c = absurd (omega arith)
scan-found zero k l t (u ∷ us) vs le out c = absurd (omega arith)
scan-found (suc n) k l t [] vs le out c =
    rw (c.0, c.1, ==_apart t 0 (IsThread-ne-zero t c.1), (==_iff t t).1 refl)
scan-found (suc n) k l t (u ∷ us) vs le out c =
    rw (c.0, c.1, ==_apart u 0 (IsThread-ne-zero u c.1), ==_apart u t (λ e. out.0 (sym e)))
      (scan-found n k (at_next u) t us vs (omega arith) out.1 (unfold read_link in c.2))

unlink-Chain :
    (k : Kernel) (l : Link) (t : ℕ) (us vs : List ℕ)
    → LinkOut l (us ++ t ∷ vs)
    → Distinct (us ++ t ∷ vs)
    → Chain k.thread (read_link k l) (us ++ t ∷ vs)
    → let k' = write_link k (link_after l us) (k.thread t).next in
      Chain k'.thread (read_link k' l) (us ++ vs)
unfolding link_after read_link
unlink-Chain k l t [] vs o d c =
    rw (read-write_self k l (k.thread t).next)
      (Chain-write k l (k.thread t).next (k.thread t).next vs (LinkOut-tail l t vs o) c.2)
unlink-Chain k l t (u ∷ us) vs o d c = (
  read-write_ne k (link_after (at_next u) us) l (k.thread t).next (link_after-ne l u us apart)
      ∙ c.0,
  c.1,
  unlink-Chain k (at_next u) t us vs d.0 d.1 c.2,
)
  where
    apart : LinkOut l (u ∷ us)
    apart = LinkOut-append_left l (u ∷ us) (t ∷ vs) o

pub Distinct-drop :
    (t : ℕ) (us vs : List ℕ) → Distinct (us ++ t ∷ vs) → NotIn t (us ++ vs) × Distinct (us ++ vs)
Distinct-drop t [] vs d = d
Distinct-drop t (u ∷ us) vs d =
    let rest = Distinct-drop t us vs d.1 in
    let right = All-append_right (λ v. u ≢ v) us (t ∷ vs) d.0 in
    (
      (λ e. right.0 (sym e), rest.0),
      (
        All-append (λ v. u ≢ v) us vs (All-append_left (λ v. u ≢ v) us (t ∷ vs) d.0) right.1,
        rest.1,
      ),
    )

-- A queue is addressed by the running queue's sentinel or by a valid address.
abbrev pub IsQueue : ℕ → Type 0
IsQueue q = (q ≡ running_queue) ⊎ (valid_thread_ptr q ≡ true)

remove_scans :
    (k : Kernel) (q t : ℕ)
    → IsQueue q
    → thread_queue_remove k q t ≡ remove_at k q t (scan guard_limit k (at_head q) t)
unfolding thread_queue_remove
remove_scans k q t (inl e) = rw ((==_iff q running_queue).1 e)
remove_scans k q t (inr e) = rw e (ground arith)

-- Removing a thread that the queue holds reports success, takes exactly that thread out, keeps the
-- order of the others, and leaves the thread in no queue.
pub thread_queue_remove_found :
    (k : Kernel) (q t : ℕ) (us vs : List ℕ)
    → IsQueue q
    → Holds k q (us ++ t ∷ vs)
    → length (us ++ t ∷ vs) ≤ guard_limit
    → let (done, k') = thread_queue_remove k q t in
      (done ≡ true) × ((k'.thread t).queue ≡ 0) × Holds k' q (us ++ vs)
unfolding remove_at trace read_link
thread_queue_remove_found k q t us vs iq h le =
    rw
      (
        remove_scans k q t iq,
        scan-found guard_limit k (at_head q) t us vs le (All-append_left (λ u. t ≢ u) us vs parts.0)
            h.chain,
        (==_iff t t).1 refl,
      )
      (refl, refl, record { chain = touched; distinct = parts.1 })
  where
    parts : NotIn t (us ++ vs) × Distinct (us ++ vs)
    parts = Distinct-drop t us vs h.distinct

    k' : Kernel
    k' = write_link k (link_after (at_head q) us) (k.thread t).next

    touched : Chain (update k'.thread t (record (k'.thread t) { queue = 0 })) (k'.head q) (us ++ vs)
    touched =
        Chain-touch k'.thread (k'.head q) (us ++ vs) t _ refl
          (unlink-Chain k (at_head q) t us vs tt h.distinct h.chain)

-- Removing a thread that the queue does not hold reports so, and the queue holds what it held.
pub thread_queue_remove_missed :
    (k : Kernel) (q t : ℕ) (ts : List ℕ)
    → IsQueue q
    → Holds k q ts
    → length ts ≤ guard_limit
    → NotIn t ts
    → let (done, k') = thread_queue_remove k q t in (done ≡ false) × Holds k' q ts
unfolding remove_at trace read_link
thread_queue_remove_missed k q t ts iq h le out =
    rw (remove_scans k q t iq, scan-missed guard_limit k (at_head q) t ts le out h.chain)
      (refl, record { chain = h.chain; distinct = h.distinct })

link_after-ne-head : (u q : ℕ) (us : List ℕ) → at_head q ≢ link_after (at_next u) us
unfolding link_after
link_after-ne-head u q [] e = cc
link_after-ne-head u q (v ∷ us) e = link_after-ne-head v q us e

link_after-ne-other : (q q' : ℕ) (us : List ℕ) → q' ≢ q → at_head q' ≢ link_after (at_head q) us
unfolding link_after
link_after-ne-other q q' [] ne e = ne (cc)
link_after-ne-other q q' (u ∷ us) ne e = link_after-ne-head u q' us e

-- The heads of the other queues stay.
pub thread_queue_remove-head :
    (k : Kernel) (q t : ℕ) (us vs : List ℕ) (q' : ℕ)
    → IsQueue q
    → Holds k q (us ++ t ∷ vs)
    → length (us ++ t ∷ vs) ≤ guard_limit
    → q' ≢ q
    → (thread_queue_remove k q t).1.head q' ≡ k.head q'
unfolding remove_at trace read_link
thread_queue_remove-head k q t us vs q' iq h le ne =
    rw
      (
        remove_scans k q t iq,
        scan-found guard_limit k (at_head q) t us vs le
            (All-append_left (λ u. t ≢ u) us vs (Distinct-drop t us vs h.distinct).0) h.chain,
      )
      (read-write_ne k (link_after (at_head q) us) (at_head q') (k.thread t).next
        (link_after-ne-other q q' us ne))
