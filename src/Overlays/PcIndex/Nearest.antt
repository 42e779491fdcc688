-- ===== src/Overlays/PcIndex/Nearest.antt =====
-- What a lookup of a host address finds.
use n64modern_runtime.Base.{
  ℕ, ◌≤◌, ◌<◌, ◌≡◌, sym, ap, ◌≢◌, ◌⊎◌, inl, inr, false, Option, none, some, List, [], ◌∷◌, arith,
  ltb, leb, ltb→lt, leb→le, ltb-false, if_cases, All, All-map, IsIn,
}
use mathlib.Core.Option.{some-injective}
use n64modern_runtime.Overlays.PcIndex.{
  PcRange, PcIndex, insert_range, sort_ranges, before_upper_bound,
}

abbrev pub IsSorted : List PcRange → Type 0
IsSorted [] = Unit
IsSorted (r ∷ l) = All (λ q. r.host_pc ≤ q.host_pc) l × IsSorted l

-- The vector is sorted unless it is marked.
abbrev pub IsIndexed : PcIndex → Type 0
IsIndexed p = p.dirty ≡ false → IsSorted p.ranges

insert_range-All :
    (P : PcRange → Type 0) (r : PcRange) (l : List PcRange)
    → P r
    → All P l
    → All P (insert_range r l)
insert_range-All P r [] h hs = (h, tt)
insert_range-All P r (q ∷ l) h (hq, hs) =
    if_cases (All P) (leb r.host_pc q.host_pc) (λ _. (h, (hq, hs)))
      (λ _. (hq, insert_range-All P r l h hs))

below-All :
    (r q : PcRange) (l : List PcRange)
    → r.host_pc ≤ q.host_pc
    → All (λ x. q.host_pc ≤ x.host_pc) l
    → All (λ x. r.host_pc ≤ x.host_pc) l
below-All r q l h = All-map l (λ x k. omega (arith, h, k))

insert_range-IsSorted : (r : PcRange) (l : List PcRange) → IsSorted l → IsSorted (insert_range r l)
insert_range-IsSorted r [] h = (tt, tt)
insert_range-IsSorted r (q ∷ l) (h, hs) =
    if_cases IsSorted (leb r.host_pc q.host_pc)
      (λ e. let le = leb→le r.host_pc q.host_pc e in ((le, below-All r q l le h), (h, hs)))
      (λ e. (
        insert_range-All (λ x. q.host_pc ≤ x.host_pc) r l (ground (arith, e)) h,
        insert_range-IsSorted r l hs,
      ))

pub sort_ranges-IsSorted : (l : List PcRange) → IsSorted (sort_ranges l)
sort_ranges-IsSorted [] = tt
sort_ranges-IsSorted (r ∷ l) = insert_range-IsSorted r (sort_ranges l) (sort_ranges-IsSorted l)

-- Sorting neither adds nor loses an entry.
behind :
    (x r q : PcRange) (l : List PcRange)
    → IsIn x (q ∷ insert_range r l)
    → (IsIn x (insert_range r l) → IsIn x (r ∷ l))
    → IsIn x (r ∷ q ∷ l)
behind x r q l (inl e) f = inr (inl e)
behind x r q l (inr h) f = elim (f h) [ inl e ↦ inl e | inr k ↦ inr (inr k) ]

insert_range-IsIn : (x r : PcRange) (l : List PcRange) → IsIn x (insert_range r l) → IsIn x (r ∷ l)
insert_range-IsIn x r [] = λ h. h
insert_range-IsIn x r (q ∷ l) =
    if_cases (λ (z : List PcRange). IsIn x z → IsIn x (r ∷ q ∷ l)) (leb r.host_pc q.host_pc)
      (λ _ h. h) (λ _ h. behind x r q l h (insert_range-IsIn x r l))

insert_range-All_back :
    (P : PcRange → Type 0) (r : PcRange) (l : List PcRange)
    → All P (insert_range r l)
    → P r × All P l
insert_range-All_back P r [] = λ h. h
insert_range-All_back P r (q ∷ l) =
    if_cases (λ (z : List PcRange). All P z → P r × All P (q ∷ l)) (leb r.host_pc q.host_pc)
      (λ _ h. h) (λ _ h. let (hr, hs) = insert_range-All_back P r l h.1 in (hr, (h.0, hs)))

pub sort_ranges-IsIn : (x : PcRange) (l : List PcRange) → IsIn x (sort_ranges l) → IsIn x l
sort_ranges-IsIn x [] h = h
sort_ranges-IsIn x (r ∷ l) h = elim (insert_range-IsIn x r (sort_ranges l) h) [
  | inl e ↦ inl e
  | inr k ↦ inr (sort_ranges-IsIn x l k)
]

pub sort_ranges-All : (P : PcRange → Type 0) (l : List PcRange) → All P (sort_ranges l) → All P l
sort_ranges-All P [] h = h
sort_ranges-All P (r ∷ l) h =
    let (hr, hs) = insert_range-All_back P r (sort_ranges l) h in (hr, sort_ranges-All P l hs)

-- The entry that is found is the best so far or in the list, it starts at or before the address, and
-- no other such entry starts later.
abbrev pub IsNearest : (pc : ℕ) → PcRange → List PcRange → Type 0
IsNearest pc r l = (r.host_pc ≤ pc) × All (λ q. q.host_pc ≤ pc → q.host_pc ≤ r.host_pc) l

All-later :
    (pc : ℕ) (x : PcRange) (l : List PcRange)
    → pc < x.host_pc
    → All (λ q. x.host_pc ≤ q.host_pc) l
    → All (λ q. pc < q.host_pc) l
All-later pc x l h = All-map l (λ q k. omega (arith, h, k))

stop_here :
    (pc : ℕ) (b r : PcRange) (l : List PcRange)
    → b ≡ r
    → b.host_pc ≤ pc
    → All (λ q. pc < q.host_pc) l
    → ((r ≡ b) ⊎ IsIn r l) × IsNearest pc r (b ∷ l)
stop_here pc b r l e h later =
    let same = ap (λ (z : PcRange). z.host_pc) e in
    (
      inl (sym e),
      (
        omega (arith, same, h),
        ((λ _. omega (arith, same)), All-map l (λ q k m. absurd (omega (arith, k, m))) later),
      ),
    )

before_upper_bound-IsNearest :
    (pc : ℕ) (b r : PcRange) (l : List PcRange)
    → IsSorted (b ∷ l)
    → b.host_pc ≤ pc
    → before_upper_bound pc l (some b) ≡ some r
    → ((r ≡ b) ⊎ IsIn r l) × IsNearest pc r (b ∷ l)
before_upper_bound-IsNearest pc b r [] sorted h =
    λ e. stop_here pc b r [] (some-injective b r e) h tt
before_upper_bound-IsNearest pc b r (x ∷ l) (below, sorted) h =
    if_cases
      (λ (o : Option PcRange). o ≡ some r → ((r ≡ b) ⊎ IsIn r (x ∷ l)) × IsNearest pc r (b ∷ x ∷ l))
      (ltb pc x.host_pc)
      (λ k e.
        let lt = ltb→lt pc x.host_pc k in
        stop_here pc b r (x ∷ l) (some-injective b r e) h (lt, All-later pc x l lt sorted.0))
      (λ k e.
        let le = ltb-false pc x.host_pc k in
        let (m, (least, (fx, fs))) = before_upper_bound-IsNearest pc x r l sorted le e in
        (inr m, (least, ((λ _. omega (arith, below.0, fx le)), (fx, fs)))))

never_none : (pc : ℕ) (b : PcRange) (l : List PcRange) → before_upper_bound pc l (some b) ≢ none
never_none pc b [] = λ e. absurd (ground (arith, e))
never_none pc b (x ∷ l) =
    if_cases (λ (o : Option PcRange). o ≢ none) (ltb pc x.host_pc)
      (λ _ e. absurd (ground (arith, e))) (λ _. never_none pc x l)

-- The whole list, with no best entry to begin with.
pub bound_some :
    (pc : ℕ) (r : PcRange) (l : List PcRange)
    → IsSorted l
    → before_upper_bound pc l none ≡ some r
    → IsIn r l × IsNearest pc r l
bound_some pc r [] sorted = λ e. absurd (ground (arith, e))
bound_some pc r (x ∷ l) sorted =
    if_cases (λ (o : Option PcRange). o ≡ some r → IsIn r (x ∷ l) × IsNearest pc r (x ∷ l))
      (ltb pc x.host_pc) (λ _ e. absurd (ground (arith, e)))
      (λ k. before_upper_bound-IsNearest pc x r l sorted (ltb-false pc x.host_pc k))

pub bound_none :
    (pc : ℕ) (l : List PcRange)
    → IsSorted l
    → before_upper_bound pc l none ≡ none
    → All (λ q. pc < q.host_pc) l
bound_none pc [] sorted = λ _. tt
bound_none pc (x ∷ l) sorted =
    if_cases (λ (o : Option PcRange). o ≡ none → All (λ q. pc < q.host_pc) (x ∷ l))
      (ltb pc x.host_pc)
      (λ k _. let lt = ltb→lt pc x.host_pc k in (lt, All-later pc x l lt sorted.0))
      (λ _ e. absurd (never_none pc x l e))
