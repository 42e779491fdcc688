-- ===== src/ThreadQueue/Splice.antt =====
-- `thread_queue_insert` at the link where its walk ends: the splice and what it leaves alone.
use n64modern_runtime.Base.{ℕ, ◌≡◌, refl, sym, ◌∙◌, ◌≢◌, List, [], ◌∷◌, arith, ==_iff, ==_apart}
use n64modern_runtime.ThreadQueue.Chain.{
  IsThread, Chain, NotIn, Chain-update, LinkOut, LinkOut-head, LinkOut-tail, LinkOut-ne,
  read-write_self, read-write_ne, Chain-write,
}
use n64modern_runtime.ThreadQueue.{
  Kernel, Link, read_link, write_link, sever, enrol, splice, at_head, at_next,
}

pub at_head-injective : {q q' : ℕ} → at_head q ≡ at_head q' → q ≡ q'
at_head-injective e = cc

enrol_reads :
    (k : Kernel) (l l' : Link) (q a : ℕ)
    → LinkOut l' (a ∷ [])
    → read_link (enrol k l q a) l' ≡ read_link k l'
unfolding enrol read_link
enrol_reads k l (at_head q') q a o = refl
enrol_reads k l (at_next u) q a o = rw (==_apart a u (λ e. o.0 (sym e)), read_link)

enrol_next :
    (k : Kernel) (l : Link) (q a : ℕ) → read_link (enrol k l q a) (at_next a) ≡ read_link k l
unfolding enrol read_link
enrol_next k l q a = rw ((==_iff a a).1 refl, read_link)

-- Away from the new thread and the link, the splice changes no cell.
pub splice_reads :
    (k : Kernel) (l l' : Link) (q a : ℕ)
    → l' ≢ l
    → LinkOut l' (a ∷ [])
    → read_link (splice k l q a) l' ≡ read_link k l'
unfolding splice
splice_reads k l l' q a ne o = read-write_ne (enrol k l q a) l l' a ne ∙ enrol_reads k l l' q a o

enrol-Chain :
    (k : Kernel) (l : Link) (q a p : ℕ) (ts : List ℕ)
    → NotIn a ts
    → Chain k.thread p ts
    → Chain (enrol k l q a).thread p ts
unfolding enrol
enrol-Chain k l q a p ts out c = Chain-update k.thread p ts a _ out c

-- The link leads to the new thread, and that one to what the link led to.
pub splice-Chain :
    (k : Kernel) (l : Link) (q a : ℕ) (ts : List ℕ)
    → IsThread a
    → LinkOut l (a ∷ ts)
    → NotIn a ts
    → Chain k.thread (read_link k l) ts
    → Chain (splice k l q a).thread (read_link (splice k l q a) l) (a ∷ ts)
unfolding splice read_link write_link
splice-Chain k l q a ts va o out c = (
  read-write_self (enrol k l q a) l a,
  va,
  rw (next_of_new) (
      Chain-write (enrol k l q a) l a (read_link k l) ts (LinkOut-tail l a ts o)
        (enrol-Chain k l q a (read_link k l) ts out c)),
)
  where
    next_of_new : ((write_link (enrol k l q a) l a).thread a).next ≡ read_link k l
    next_of_new =
        read-write_ne (enrol k l q a) l (at_next a) a
          (λ e. LinkOut-ne l a (LinkOut-head l a ts o) (sym e))
        ∙ enrol_next k l q a

pub sever_valid : (k : Kernel) (l : Link) → IsThread (read_link k l) → sever k l ≡ k
unfolding sever
sever_valid k l v = rw v (ground arith)

pub sever_null : (k : Kernel) (l : Link) → read_link k l ≡ 0 → sever k l ≡ k
unfolding sever
sever_null k l z = ground arith
