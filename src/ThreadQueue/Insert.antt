-- ===== src/ThreadQueue/Insert.antt =====
-- `thread_queue_insert` against sorted insertion into the list of threads that the queue holds.
use n64modern_runtime.Base.{
  ℕ, zero, suc, ◌≤◌, ◌≡◌, refl, sym, ap, ◌∙◌, ◌≢◌, inl, inr, true, false, List, [], ◌∷◌, arith,
  ==_apart, Bool-cases, length, All, All-map,
}
use n64modern_runtime.Base.Int.{ℤ, ltb_ℤ}
use n64modern_runtime.ThreadQueue.Chain.{
  IsThread, Chain, NotIn, Distinct, Holds, IsThread-ne-zero, Chain-ext, LinkOut, LinkOut-cons,
  LinkOut-head, LinkOut-tail, LinkOut-ne,
}
use n64modern_runtime.ThreadQueue.{
  Kernel, guard_limit, Link, read_link, trace, seek, sever, splice, thread_queue_insert, at_next,
  at_head,
}
use n64modern_runtime.ThreadQueue.Place.{place, priorities, place-Distinct}
use n64modern_runtime.ThreadQueue.Splice.{
  at_head-injective, splice_reads, splice-Chain, sever_valid, sever_null,
}

record Placed (k k' : Kernel) (l : Link) (a : ℕ) (ts : List ℕ) : Type 0 where
  chain : Chain k'.thread (read_link k' l) (place (priorities k) a ts)
  frame : (l' : Link) → l' ≢ l → LinkOut l' (a ∷ ts) → read_link k' l' ≡ read_link k l'

insert_at : ℕ → Kernel → Link → ℕ → ℕ → Kernel
insert_at n k l q a = let m = seek n k l (k.thread a).priority in splice (sever k m) m q a

insert_here :
    (k : Kernel) (l : Link) (q a : ℕ) (ts : List ℕ)
    → IsThread a
    → LinkOut l (a ∷ ts)
    → NotIn a ts
    → Chain k.thread (read_link k l) ts
    → place (priorities k) a ts ≡ a ∷ ts
    → Placed k (splice k l q a) l a ts
insert_here k l q a ts va o out c e = record {
  chain = rw e (splice-Chain k l q a ts va o out c);
  frame = λ l' ne o'. splice_reads k l l' q a ne (LinkOut-head l' a ts o');
}

seek_null : (n : ℕ) (k : Kernel) (l : Link) (p : ℤ) → read_link k l ≡ 0 → seek n k l p ≡ l
unfolding seek
seek_null zero k l p z = refl
seek_null (suc n) k l p z = rw (z)

seek_over :
    (n : ℕ) (k : Kernel) (l : Link) (p : ℤ)
    → IsThread (read_link k l)
    → ltb_ℤ p (k.thread (read_link k l)).priority ≡ true
    → seek (suc n) k l p ≡ seek n k (at_next (read_link k l)) p
unfolding seek
seek_over n k l p v over =
    rw (v, over, ==_apart (read_link k l) 0 (IsThread-ne-zero (read_link k l) v))

seek_under :
    (n : ℕ) (k : Kernel) (l : Link) (p : ℤ)
    → ltb_ℤ p (k.thread (read_link k l)).priority ≡ false
    → seek n k l p ≡ l
unfolding seek
seek_under zero k l p under = refl
seek_under (suc n) k l p under = ground arith

NotIn-next : (t : ℕ) (l : Link) (ts : List ℕ) → l ≢ at_next t → LinkOut l ts → LinkOut l (t ∷ ts)
NotIn-next t (at_head q) ts ne o = tt
NotIn-next t (at_next u) ts ne o = (λ e. ne (ap at_next e), o)

-- One more thread in front, which outranks the new one.
cons-Placed :
    (k k' : Kernel) (l : Link) (a t : ℕ) (ts : List ℕ)
    → read_link k l ≡ t
    → IsThread t
    → LinkOut l (a ∷ t ∷ ts)
    → ltb_ℤ (k.thread a).priority (k.thread t).priority ≡ true
    → Placed k k' (at_next t) a ts
    → Placed k k' l a (t ∷ ts)
unfolding place read_link
cons-Placed k k' l a t ts e v o over r = record {
  chain = rw over (r.frame l (LinkOut-ne l t (LinkOut-head l t ts rest)) skip ∙ e, v, r.chain);
  frame = λ l' ne o'.
      r.frame l' (LinkOut-ne l' t (LinkOut-head l' t ts (LinkOut-tail l' a (t ∷ ts) o'))) (
        LinkOut-cons l' a ts (LinkOut-head l' a (t ∷ ts) o')
          (LinkOut-tail l' t ts (LinkOut-tail l' a (t ∷ ts) o')));
}
  where
    rest : LinkOut l (t ∷ ts)
    rest = LinkOut-tail l a (t ∷ ts) o

    skip : LinkOut l (a ∷ ts)
    skip = LinkOut-cons l a ts (LinkOut-head l a (t ∷ ts) o) (LinkOut-tail l t ts rest)

insert_at_over :
    (n : ℕ) (k : Kernel) (l : Link) (q a : ℕ)
    → IsThread (read_link k l)
    → ltb_ℤ (k.thread a).priority (k.thread (read_link k l)).priority ≡ true
    → insert_at (suc n) k l q a ≡ insert_at n k (at_next (read_link k l)) q a
unfolding insert_at
insert_at_over n k l q a v over = rw (seek_over n k l (k.thread a).priority v over)

insert_at_under :
    (n : ℕ) (k : Kernel) (l : Link) (q a : ℕ)
    → IsThread (read_link k l)
    → ltb_ℤ (k.thread a).priority (k.thread (read_link k l)).priority ≡ false
    → insert_at n k l q a ≡ splice k l q a
unfolding insert_at
insert_at_under n k l q a v under =
    rw (seek_under n k l (k.thread a).priority under, sever_valid k l v)

insert_at_null :
    (n : ℕ) (k : Kernel) (l : Link) (q a : ℕ)
    → read_link k l ≡ 0
    → insert_at n k l q a ≡ splice k l q a
unfolding insert_at
insert_at_null n k l q a z = rw (seek_null n k l (k.thread a).priority z, sever_null k l z)

insert_at-Placed :
    (n : ℕ) (k : Kernel) (l : Link) (q a : ℕ) (ts : List ℕ)
    → length ts ≤ n
    → IsThread a
    → LinkOut l (a ∷ ts)
    → NotIn a ts
    → Distinct ts
    → Chain k.thread (read_link k l) ts
    → Placed k (insert_at n k l q a) l a ts
unfolding place read_link
insert_at-Placed n k l q a [] le va o out d c =
    rw (insert_at_null n k l q a c) (insert_here k l q a [] va o out c refl)
insert_at-Placed zero k l q a (t ∷ ts) le va o out d c = absurd (omega arith)
insert_at-Placed (suc n) k l q a (t ∷ ts) le va o out d c =
    elim (Bool-cases (ltb_ℤ (k.thread a).priority (k.thread t).priority)) [
      | inl over ↦
          rw (insert_at_over n k l q a (rw c.0 c.1) (rw c.0 over), c.0)
            (cons-Placed k (insert_at n k (at_next t) q a) l a t ts c.0 c.1 o over (
              insert_at-Placed n k (at_next t) q a ts (omega arith) va (λ e. out.0 (sym e), d.0)
                out.1 d.1 c.2))
      | inr under ↦
          rw (insert_at_under (suc n) k l q a (rw c.0 c.1) (rw c.0 under))
            (insert_here k l q a (t ∷ ts) va o out c (rw under))
    ]

-- Inserting a valid thread that the queue does not hold, into a queue of at most 0x40000 threads,
-- leaves the queue holding the same threads with the new one in front of the first that does not
-- outrank it.
pub thread_queue_insert-Holds :
    (k : Kernel) (q a : ℕ) (ts : List ℕ)
    → Holds k q ts
    → length ts ≤ guard_limit
    → IsThread a
    → NotIn a ts
    → Holds (thread_queue_insert k q a) q (place (priorities k) a ts)
unfolding thread_queue_insert trace insert_at read_link
thread_queue_insert-Holds k q a ts h le va out = record {
  chain = (insert_at-Placed guard_limit k (at_head q) q a ts le va tt out h.distinct h.chain).chain;
  distinct = place-Distinct (priorities k) a ts out h.distinct;
}

-- Every queue that shares no thread with this one, nor holds the new thread, is left as it was.
pub thread_queue_insert_others :
    (k : Kernel) (q a q' : ℕ) (ts us : List ℕ)
    → Holds k q ts
    → length ts ≤ guard_limit
    → IsThread a
    → NotIn a ts
    → q' ≢ q
    → All (λ u. NotIn u (a ∷ ts)) us
    → Holds k q' us
    → Holds (thread_queue_insert k q a) q' us
unfolding thread_queue_insert trace insert_at read_link
thread_queue_insert_others k q a q' ts us h le va out ne apart g = record {
  chain = rw (p.frame (at_head q') (λ e. ne (at_head-injective e)) tt) (
      Chain-ext k.thread (insert_at guard_limit k (at_head q) q a).thread (k.head q') us
        (All-map us same apart) g.chain);
  distinct = g.distinct;
}
  where
    p : Placed k (insert_at guard_limit k (at_head q) q a) (at_head q) a ts
    p = insert_at-Placed guard_limit k (at_head q) q a ts le va tt out h.distinct h.chain

    same :
        (u : ℕ)
        → NotIn u (a ∷ ts)
        → ((insert_at guard_limit k (at_head q) q a).thread u).next ≡ (k.thread u).next
    same u o = p.frame (at_next u) (λ e. cc) o
