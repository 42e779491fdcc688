-- ===== src/Rsp/Status.antt =====
-- What each bit of the RSP's status register is after a write.
use n64modern_runtime.Base.{
  ℕ, zero, suc, ◌+◌, ◌-◌, ◌*◌, ◌≤◌, ◌<◌, ◌≡◌, refl, sym, ap, ◌∙◌, ◌≢◌, ◌⊎◌, inl, inr, Bool, true,
  false, not, ◌&&◌, arith, ltb, leb, ◌==◌, if◌then◌else◌, ==_iff, ==_false, ==_apart, Bool-cases,
  if_cases,
}
use mathlib.Core.Path.{subst}
use native.Mathlib.Nat.{le_refl}
use n64modern_runtime.Rsp.{assign, same, apply_pair, apply_signals, apply_sp_status_write}

-- A pair of a clear bit and a set bit: both or neither leave the old value.
unfoldable pub settle : (clear mark old : Bool) → Bool
settle true true old = old
settle true false old = false
settle false true old = true
settle false false old = old

-- The status that a write leaves, bit by bit.
unfoldable pub written : (status value : ℕ → Bool) → ℕ → Bool
written status value i =
    if i == 0
    then settle (value 0) (value 1) (status i)
    else if i == 1
    then status i && not (value 2)
    else if i == 5
    then settle (value 5) (value 6) (status i)
    else if i == 6
    then settle (value 7) (value 8) (status i)
    else if leb 7 i && ltb i 15
    then settle (value (9 + (i - 7) * 2)) (value (10 + (i - 7) * 2)) (status i)
    else status i

pair_bit :
    (c s : Bool) (r : ℕ) (status : ℕ → Bool) (i : ℕ)
    → (if same c s then status else if s then assign status r true else assign status r false) i
      ≡ (if i == r then settle c s (status i) else status i)
unfolding settle
pair_bit true true r status i = if_cases (λ x. status i ≡ x) (i == r) (λ _. refl) (λ _. refl)
pair_bit true false r status i = refl
pair_bit false true r status i = refl
pair_bit false false r status i = if_cases (λ x. status i ≡ x) (i == r) (λ _. refl) (λ _. refl)

apply_pair_bit :
    (value : ℕ → Bool) (c s r : ℕ) (status : ℕ → Bool) (i : ℕ)
    → apply_pair value c s r status i
      ≡ (if i == r then settle (value c) (value s) (status i) else status i)
unfolding apply_pair
apply_pair_bit value c s r status i = pair_bit (value c) (value s) r status i

-- A signal is changed by its own round only.
signals_other :
    (value : ℕ → Bool) (n : ℕ) (status : ℕ → Bool) (i : ℕ)
    → (i < 7) ⊎ (7 + n ≤ i)
    → apply_signals value n status i ≡ status i
unfolding apply_signals
signals_other value zero status i h = refl
signals_other value (suc n) status i h =
    let apart : i ≢ 7 + n = λ e. elim h [
      | inl low ↦ absurd (omega (arith, e, low))
      | inr high ↦ absurd (omega (arith, e, high))
    ] in
    let outside : (i < 7) ⊎ (7 + n ≤ i) = elim h [
      | inl low ↦ inl low
      | inr high ↦ inr (omega (arith, high))
    ] in
    rw
      (
        apply_pair_bit value (9 + n * 2) (10 + n * 2) (7 + n) (apply_signals value n status) i,
        ==_apart i (7 + n) apart,
      )
      (signals_other value n status i outside)

signals_own :
    (value : ℕ → Bool) (n k : ℕ) (status : ℕ → Bool)
    → k < n
    → apply_signals value n status (7 + k)
      ≡ settle (value (9 + k * 2)) (value (10 + k * 2)) (status (7 + k))
unfolding apply_signals
signals_own value zero k status h = absurd (omega arith)
signals_own value (suc n) k status h =
    rw
      (apply_pair_bit value (9 + n * 2) (10 + n * 2) (7 + n) (apply_signals value n status) (7 + k))
      (elim (Bool-cases (k == n)) [
        | inl e ↦
            let last = (==_iff k n).0 e in
            rw (last, (==_iff (7 + n) (7 + n)).1 refl)
              (ap (settle (value (9 + n * 2)) (value (10 + n * 2)))
                (signals_other value n status (7 + n) (inr (le_refl (7 + n)))))
        | inr e ↦
            let other = ==_false k n e in
            rw (==_apart (7 + k) (7 + n) (λ q. other (omega (arith, q))))
              (signals_own value n k status (omega (arith, other)))
      ])

-- The bits below the signals.
head : (status value : ℕ → Bool) → ℕ → Bool
head status value =
    let halt = apply_pair value 0 1 0 status in
    let broke = if value 2 then assign halt 1 false else halt in
    apply_pair value 7 8 6 (apply_pair value 5 6 5 broke)

cleared : (c x : Bool) → (if c then false else x) ≡ (if c then x && false else x)
cleared true true = refl
cleared true false = refl
cleared false x = refl

kept : (c x : Bool) → x ≡ (if c then x && true else x)
kept true true = refl
kept true false = refl
kept false x = refl

broke_bit :
    (b : Bool) (word : ℕ → Bool) (i : ℕ)
    → (if b then assign word 1 false else word) i ≡ (if i == 1 then word i && not b else word i)
broke_bit true word i = cleared (i == 1) (word i)
broke_bit false word i = kept (i == 1) (word i)

head_at :
    (status value : ℕ → Bool) (i : ℕ)
    → head status value i ≡ (
        let zeroth = if i == 0 then settle (value 0) (value 1) (status i) else status i in
        let first = if i == 1 then zeroth && not (value 2) else zeroth in
        let fifth = if i == 5 then settle (value 5) (value 6) first else first in
        if i == 6 then settle (value 7) (value 8) fifth else fifth)
unfolding head
head_at status value i =
    rw
      (
        apply_pair_bit value 7 8 6 _ i,
        apply_pair_bit value 5 6 5 _ i,
        broke_bit (value 2) _ i,
        apply_pair_bit value 0 1 0 status i,
      )
      refl

nested :
    (i : ℕ) (f6 f5 f1 f0 : Bool → Bool) (x : Bool)
    → (let zeroth = if i == 0 then f0 x else x in
        let first = if i == 1 then f1 zeroth else zeroth in
        let fifth = if i == 5 then f5 first else first in if i == 6 then f6 fifth else fifth)
      ≡ (if i == 0
          then f0 x
          else if i == 1
          then f1 x
          else if i == 5
          then f5 x
          else if i == 6
          then f6 x
          else x)
nested i f6 f5 f1 f0 x = ground arith

head_bit :
    (status value : ℕ → Bool) (i : ℕ)
    → head status value i ≡ (
        if i == 0
        then settle (value 0) (value 1) (status i)
        else if i == 1
        then status i && not (value 2)
        else if i == 5
        then settle (value 5) (value 6) (status i)
        else if i == 6
        then settle (value 7) (value 8) (status i)
        else status i)
head_bit status value i =
    head_at status value i
    ∙ nested i (settle (value 7) (value 8)) (settle (value 5) (value 6)) (λ x. x && not (value 2))
        (settle (value 0) (value 1)) (status i)

signal_bit :
    (status value : ℕ → Bool) (k : ℕ)
    → k < 8
    → apply_signals value 8 (head status value) (7 + k)
      ≡ settle (value (9 + k * 2)) (value (10 + k * 2)) (status (7 + k))
signal_bit status value k h =
    signals_own value 8 k (head status value) h
    ∙ ap (settle (value (9 + k * 2)) (value (10 + k * 2))) (head_bit status value (7 + k) ∙ high)
  where
    high :
        (if 7 + k == 0
          then settle (value 0) (value 1) (status (7 + k))
          else if 7 + k == 1
          then status (7 + k) && not (value 2)
          else if 7 + k == 5
          then settle (value 5) (value 6) (status (7 + k))
          else if 7 + k == 6
          then settle (value 7) (value 8) (status (7 + k))
          else status (7 + k))
        ≡ status (7 + k)
    high =
        rw
          (
            ==_apart (7 + k) 0 (omega arith),
            ==_apart (7 + k) 1 (omega arith),
            ==_apart (7 + k) 5 (omega arith),
            ==_apart (7 + k) 6 (omega arith),
          )
          refl

not_between : (i : ℕ) → (leb 7 i && ltb i 15) ≡ false → (i < 7) ⊎ (15 ≤ i)
not_between i h = ground arith

between : (i : ℕ) → (leb 7 i && ltb i 15) ≡ true → (7 ≤ i) × (i < 15)
between i h = ground arith

-- A write to the status register of the RSP leaves each bit as its clear and set bits say: bits 0, 5
-- and 6 by the pairs 0 and 1, 5 and 6, 7 and 8 of the value written, the eight signals 7 to 14 by
-- the pairs from 9 on, where both or neither change nothing; bit 1 can only be cleared, by bit 2; and
-- every other bit stays.
pub apply_sp_status_write-written :
    (status value : ℕ → Bool) (i : ℕ)
    → apply_sp_status_write status value i ≡ written status value i
unfolding apply_sp_status_write written head
apply_sp_status_write-written status value i = elim (Bool-cases (leb 7 i && ltb i 15)) [
  | inr outside ↦ rw outside (
      signals_other value 8 (head status value) i (not_between i outside) ∙ head_bit status value i)
  | inl inside ↦
      let (low, high) = between i inside in
      let at : i ≡ 7 + (i - 7) = omega (arith, low) in
      rw
        (
          inside,
          ==_apart i 0 (omega (arith, low)),
          ==_apart i 1 (omega (arith, low)),
          ==_apart i 5 (omega (arith, low)),
          ==_apart i 6 (omega (arith, low)),
        )
        (subst
          (λ j.
            apply_signals value 8 (head status value) j
            ≡ settle (value (9 + (i - 7) * 2)) (value (10 + (i - 7) * 2)) (status j))
          (sym at) (signal_bit status value (i - 7) (omega (arith, low, high))))
]
