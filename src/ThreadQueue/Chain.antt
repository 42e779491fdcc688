-- ===== src/ThreadQueue/Chain.antt =====
-- The list of threads that a queue holds, and what a change of the store does to it.
use n64modern_runtime.Base.{
  ℕ, ◌≡◌, refl, ap, ◌∙◌, ◌≢◌, inl, inr, true, List, [], ◌∷◌, ◌++◌, arith, ◌==◌, ==_iff, ==_apart,
  Bool-cases, All, All-append_left, update,
}
use n64modern_runtime.ThreadQueue.{
  Kernel, OsThread, Link, at_head, at_next, read_link, write_link, valid_thread_ptr,
}

abbrev pub IsThread : ℕ → Type 0
IsThread t = valid_thread_ptr t ≡ true

-- From the pointer `p` the members `next` run through exactly these valid threads to null.
abbrev pub Chain : (ℕ → OsThread) → ℕ → List ℕ → Type 0
Chain th p [] = p ≡ 0
Chain th p (t ∷ ts) = (p ≡ t) × IsThread t × Chain th (th t).next ts

abbrev pub NotIn : ℕ → List ℕ → Type 0
NotIn a ts = All (λ t. a ≢ t) ts

abbrev pub Distinct : List ℕ → Type 0
Distinct [] = Unit {0}
Distinct (t ∷ ts) = NotIn t ts × Distinct ts

-- The queue `q` holds these threads, none twice.
pub record Holds (k : Kernel) (q : ℕ) (ts : List ℕ) : Type 0 where
  pub chain : Chain k.thread (k.head q) ts
  pub distinct : Distinct ts

pub IsThread-ne-zero : (t : ℕ) → IsThread t → t ≢ 0
unfolding valid_thread_ptr
IsThread-ne-zero t h = ground arith

-- A chain depends on the members `next` of its threads alone.
pub Chain-ext :
    (th th' : ℕ → OsThread) (p : ℕ) (ts : List ℕ)
    → All (λ t. (th' t).next ≡ (th t).next) ts
    → Chain th p ts
    → Chain th' p ts
Chain-ext th th' p [] same c = c
Chain-ext th th' p (t ∷ ts) same c =
    (c.0, c.1, rw same.0 (Chain-ext th th' (th t).next ts same.1 c.2))

-- A thread outside the chain may change.
pub Chain-update :
    (th : ℕ → OsThread) (p : ℕ) (ts : List ℕ) (a : ℕ) (x : OsThread)
    → NotIn a ts
    → Chain th p ts
    → Chain (update th a x) p ts
Chain-update th p [] a x out c = c
Chain-update th p (t ∷ ts) a x out c =
    (c.0, c.1, rw (==_apart a t out.0) (Chain-update th (th t).next ts a x out.1 c.2))

-- So may any member but `next`.
pub Chain-touch :
    (th : ℕ → OsThread) (p : ℕ) (ts : List ℕ) (a : ℕ) (x : OsThread)
    → x.next ≡ (th a).next
    → Chain th p ts
    → Chain (update th a x) p ts
Chain-touch th p [] a x same c = c
Chain-touch th p (t ∷ ts) a x same c =
    (c.0, c.1, rw here (Chain-touch th (th t).next ts a x same c.2))
  where
    here : (update th a x t).next ≡ (th t).next
    here = elim (Bool-cases (a == t)) [
      | inl e ↦ rw e (same ∙ ap (λ u. (th u).next) ((==_iff a t).0 e))
      | inr e ↦ rw e
    ]

-- The link is not the member `next` of a thread of the list.
abbrev pub LinkOut : Link → List ℕ → Type 0
LinkOut (at_head q) ts = Unit {0}
LinkOut (at_next u) ts = NotIn u ts

pub LinkOut-cons :
    (l : Link) (a : ℕ) (ts : List ℕ) → LinkOut l (a ∷ []) → LinkOut l ts → LinkOut l (a ∷ ts)
LinkOut-cons (at_head q) a ts h o = tt
LinkOut-cons (at_next u) a ts h o = (h.0, o)

pub LinkOut-head : (l : Link) (a : ℕ) (ts : List ℕ) → LinkOut l (a ∷ ts) → LinkOut l (a ∷ [])
LinkOut-head (at_head q) a ts o = tt
LinkOut-head (at_next u) a ts o = (o.0, tt)

pub LinkOut-tail : (l : Link) (a : ℕ) (ts : List ℕ) → LinkOut l (a ∷ ts) → LinkOut l ts
LinkOut-tail (at_head q) a ts o = tt
LinkOut-tail (at_next u) a ts o = o.1

pub LinkOut-append_left : (l : Link) (xs ys : List ℕ) → LinkOut l (xs ++ ys) → LinkOut l xs
LinkOut-append_left (at_head q) xs ys o = tt
LinkOut-append_left (at_next u) xs ys o = All-append_left (λ t. u ≢ t) xs ys o

pub LinkOut-ne : (l : Link) (a : ℕ) → LinkOut l (a ∷ []) → l ≢ at_next a
LinkOut-ne (at_head q) a o e = cc
LinkOut-ne (at_next u) a o e = o.0 (ground arith)

pub read-write_self : (k : Kernel) (l : Link) (v : ℕ) → read_link (write_link k l v) l ≡ v
unfolding read_link write_link
read-write_self k (at_head q) v = ground arith
read-write_self k (at_next u) v = ground arith

pub read-write_ne :
    (k : Kernel) (l l' : Link) (v : ℕ) → l' ≢ l → read_link (write_link k l v) l' ≡ read_link k l'
unfolding read_link write_link
read-write_ne k (at_head q) (at_head q') v ne = rw (==_apart q q' (λ e. ne (cc)))
read-write_ne k (at_head q) (at_next u') v ne = refl
read-write_ne k (at_next u) (at_head q') v ne = refl
read-write_ne k (at_next u) (at_next u') v ne = rw (==_apart u u' (λ e. ne (cc)), read_link)

pub Chain-write :
    (k : Kernel) (l : Link) (v p : ℕ) (ts : List ℕ)
    → LinkOut l ts
    → Chain k.thread p ts
    → Chain (write_link k l v).thread p ts
unfolding write_link
Chain-write k (at_head q) v p ts o c = c
Chain-write k (at_next u) v p ts o c = Chain-update k.thread p ts u _ o c
