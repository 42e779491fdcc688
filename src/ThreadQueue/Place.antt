-- ===== src/ThreadQueue/Place.antt =====
-- Sorted insertion into a list of threads: the specification of the queues' order.
use n64modern_runtime.Base.{ℕ, sym, ◌≢◌, inl, inr, List, [], ◌∷◌, if◌then◌else◌, Bool-cases, All}
use n64modern_runtime.Base.Int.{ℤ, ◌≤ℤ◌, ltb_ℤ, ≤ℤ_trans, ltb_ℤ-false, ltb_ℤ-true}
use n64modern_runtime.ThreadQueue.{Kernel}
use n64modern_runtime.ThreadQueue.Chain.{NotIn, Distinct}

-- The specification: in front of the first thread that does not outrank the new one.
unfoldable pub place : (ℕ → ℤ) → ℕ → List ℕ → List ℕ
place prio a [] = a ∷ []
place prio a (t ∷ ts) = if ltb_ℤ (prio a) (prio t) then t ∷ place prio a ts else a ∷ t ∷ ts

abbrev pub priorities : Kernel → ℕ → ℤ
priorities k t = (k.thread t).priority

-- No thread of the list outranks the first one, and so on down.
abbrev pub Descending : (ℕ → ℤ) → List ℕ → Type 0
Descending prio [] = Unit {0}
Descending prio (t ∷ ts) = All (λ u. prio u ≤ℤ prio t) ts × Descending prio ts

pub place-All :
    (P : ℕ → Type 0) (prio : ℕ → ℤ) (a : ℕ) (ts : List ℕ) → P a → All P ts → All P (place prio a ts)
unfolding place
place-All P prio a [] h hs = (h, tt)
place-All P prio a (t ∷ ts) h hs = elim (Bool-cases (ltb_ℤ (prio a) (prio t))) [
  | inl e ↦ rw e (hs.0, place-All P prio a ts h hs.1)
  | inr e ↦ rw e (h, hs)
]

pub place-Distinct :
    (prio : ℕ → ℤ) (a : ℕ) (ts : List ℕ) → NotIn a ts → Distinct ts → Distinct (place prio a ts)
unfolding place
place-Distinct prio a [] out d = (tt, tt)
place-Distinct prio a (t ∷ ts) out d = elim (Bool-cases (ltb_ℤ (prio a) (prio t))) [
  | inl e ↦ rw e (
    place-All (λ u. t ≢ u) prio a ts (λ e'. out.0 (sym e')) d.0,
    place-Distinct prio a ts out.1 d.1,
  )
  | inr e ↦ rw e (out, d)
]

pub All-le :
    (prio : ℕ → ℤ) (x y : ℤ) (ts : List ℕ)
    → x ≤ℤ y
    → All (λ u. prio u ≤ℤ x) ts
    → All (λ u. prio u ≤ℤ y) ts
All-le prio x y [] h hs = tt
All-le prio x y (t ∷ ts) h hs = (≤ℤ_trans (prio t) x y hs.0 h, All-le prio x y ts h hs.1)

-- Sorted insertion keeps a list of threads sorted by descending priority.
pub place-Descending :
    (prio : ℕ → ℤ) (a : ℕ) (ts : List ℕ) → Descending prio ts → Descending prio (place prio a ts)
unfolding place
place-Descending prio a [] d = (tt, tt)
place-Descending prio a (t ∷ ts) d = elim (Bool-cases (ltb_ℤ (prio a) (prio t))) [
  | inl e ↦ rw e (
    place-All (λ u. prio u ≤ℤ prio t) prio a ts (ltb_ℤ-true (prio a) (prio t) e) d.0,
    place-Descending prio a ts d.1,
  )
  | inr e ↦
      let le = ltb_ℤ-false (prio a) (prio t) e in
      rw e ((le, All-le prio (prio t) (prio a) ts le d.0), d)
]
