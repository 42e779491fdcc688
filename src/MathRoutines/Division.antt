-- ===== src/MathRoutines/Division.antt =====
-- Quotient and remainder of the 64-bit helpers belong together.
use n64modern_runtime.Base.{ℕ, ◌+◌, ◌*◌, ◌/◌, ◌%◌, ◌^◌, ◌<◌, ◌≡◌, refl, ◌≢◌, some, arith, ==_apart}
use native.Mathlib.Nat.{mod-lt, div-le_self, div-add-mod'}
use n64modern_runtime.MathRoutines.{sign_extend, join64, return64, udivdi3, umoddi3}

low_sign_extend : (x : ℕ) → sign_extend x % 2 ^ 32 ≡ x % 2 ^ 32
low_sign_extend x = ground arith

high_part : (h : ℕ) → h * 2 ^ 32 % 2 ^ 64 ≡ h % 2 ^ 32 * 2 ^ 32
high_part h = omega arith

-- The two registers of a result, joined as an argument, are the 64-bit value again.
join64-return64 : (v : ℕ) → v < 2 ^ 64 → join64 (return64 v).0 (return64 v).1 ≡ v
unfolding join64 return64
join64-return64 v h =
    rw (high_part (sign_extend (v / 2 ^ 32)), low_sign_extend (v / 2 ^ 32), low_sign_extend v)
      (omega arith)

join64_bound : (hi lo : ℕ) → join64 hi lo < 2 ^ 64
unfolding join64
join64_bound hi lo = rw (high_part hi) (omega arith)

-- For a divisor that is not zero, both helpers return; the quotient times the divisor plus the
-- remainder is the dividend, and the remainder is less than the divisor, where a register pair
-- stands for the 64-bit value that `join64` makes of it.
pub udivdi3-umoddi3 :
    (a b c d : ℕ)
    → join64 c d ≢ 0
    → (q : ℕ × ℕ) × (r : ℕ × ℕ) × (udivdi3 a b c d ≡ some q)
      × (umoddi3 a b c d ≡ some r)
      × (join64 q.0 q.1 * join64 c d + join64 r.0 r.1 ≡ join64 a b)
      × (join64 r.0 r.1 < join64 c d)
unfolding udivdi3 umoddi3
udivdi3-umoddi3 a b c d nz = (
  return64 (x / y),
  return64 (x % y),
  rw (==_apart y 0 nz) refl,
  rw (==_apart y 0 nz) refl,
  rw (join64-return64 (x / y) small_q, join64-return64 (x % y) small_r) (div-add-mod' x y),
  rw (join64-return64 (x % y) small_r) less,
)
  where
    x : ℕ
    x = join64 a b

    y : ℕ
    y = join64 c d

    less : x % y < y
    less = mod-lt x (omega (arith, nz))

    small_q : x / y < 2 ^ 64
    small_q = omega (arith, join64_bound a b, div-le_self x y)

    small_r : x % y < 2 ^ 64
    small_r = omega (arith, less, join64_bound c d)
