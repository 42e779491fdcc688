-- ===== src/Base/Digits.antt =====
-- Bounds of the bitwise operations: what fits `k` bits before fits `k` bits after.
use Prim.Native.Nat.{max, digits, differ, bit_and-bitwise, bit_or-bitwise, bit_xor-bitwise}
use n64modern_runtime.Base.{
  ℕ, zero, suc, ◌/◌, ◌%◌, ◌^◌, ◌≤◌, ◌<◌, min, bit_and, bit_or, bit_xor, arith,
}
use native.Mathlib.Nat.{pow-suc, le_refl}

module _ (z : ℕ → ℕ) (f : ℕ → ℕ → ℕ) (z_le : (b : ℕ) → z b ≤ b)
    (f_le : (x y : ℕ) → x < 2 → y < 2 → f x y < 2) where
  digits_bound : (k n a b : ℕ) → a < 2 ^ k → b < 2 ^ k → digits z f n a b < 2 ^ k
  digits_bound k zero a b p q = omega (arith, z_le b)
  digits_bound k (suc n) zero b p q = omega (arith, z_le b)
  digits_bound zero (suc n) (suc a) b p q = absurd (omega arith)
  digits_bound (suc k) (suc n) (suc a) b p q = omega (
    arith,
    pow-suc 2 k,
    digits_bound k n (suc a / 2) (b / 2) (omega (arith, pow-suc 2 k)) (omega (arith, pow-suc 2 k)),
    f_le (suc a % 2) (b % 2) (omega arith) (omega arith),
  )

differ_le : (x y : ℕ) → x < 2 → y < 2 → differ x y < 2
differ_le zero y p q = q
differ_le (suc zero) zero p q = p
differ_le (suc zero) (suc y) p q = omega arith
differ_le (suc (suc x)) y p q = absurd (omega arith)

pub bit_and_bound : (k a b : ℕ) → a < 2 ^ k → b < 2 ^ k → bit_and a b < 2 ^ k
bit_and_bound k a b p q =
    simp bit_and-bitwise
      (digits_bound (λ y. 0) min (λ y. omega arith) (λ x y p q. ground arith) k a a b p q)

pub bit_or_bound : (k a b : ℕ) → a < 2 ^ k → b < 2 ^ k → bit_or a b < 2 ^ k
bit_or_bound k a b p q =
    simp bit_or-bitwise
      (digits_bound (λ y. y) max (λ y. le_refl y) (λ x y p q. ground arith) k a a b p q)

pub bit_xor_bound : (k a b : ℕ) → a < 2 ^ k → b < 2 ^ k → bit_xor a b < 2 ^ k
bit_xor_bound k a b p q =
    simp bit_xor-bitwise (digits_bound (λ y. y) differ (λ y. le_refl y) differ_le k a a b p q)
