-- ===== src/MipsInterp/Division.antt =====
-- DIVU and MULTU of the interpreter belong together.
use n64modern_runtime.Base.{ℕ, ◌+◌, ◌*◌, ◌/◌, ◌%◌, ◌^◌, ◌<◌, ◌≡◌, refl, ◌≢◌, arith, ==_apart}
use n64modern_runtime.Base.Bits.{u32}
use native.Mathlib.Nat.{mod-lt, div-le_self, div-add-mod'}
use n64modern_runtime.MipsInterp.Alu.{multu_value, divu_value, quotient}
use n64modern_runtime.MipsInterp.Words.{sx32}

u32-sx32 : (n : ℕ) → u32 (sx32 n) ≡ u32 n
u32-sx32 n = ground arith

low-sx32 : (n : ℕ) → n < 2 ^ 32 → u32 (sx32 n) ≡ n
low-sx32 n h = ground arith

-- For words `a` and `b`, `q` the quotient and `r` the remainder of a division by `b`.
multiplied_back :
    (a b q r : ℕ)
    → a < 2 ^ 32
    → q * b + r ≡ a
    → (u32 (sx32 (q * b)) + r ≡ a) × (sx32 (q * b / 2 ^ 32) ≡ 0)
multiplied_back a b q r h e =
    let small : q * b / 2 ^ 32 ≡ 0 = omega (arith, e) in
    (rw (low-sx32 (q * b) (omega (arith, e))) e, rw small refl)

-- DIVU by a divisor whose low word is not zero writes a quotient and a remainder below the divisor;
-- MULTU of that quotient by the divisor gives a high word of zero and a low word that, with the
-- remainder added, is the dividend's low word.
pub divu_value-multu_value :
    (s t : ℕ)
    → u32 t ≢ 0
    → (hi : ℕ) × (lo : ℕ) × (divu_value s t ≡ quotient hi lo)
      × (u32 (multu_value lo t).1 + u32 hi ≡ u32 s)
      × ((multu_value lo t).0 ≡ 0)
      × (u32 hi < u32 t)
unfolding divu_value
divu_value-multu_value s t nz = (
  sx32 (a % b),
  sx32 (a / b),
  rw (==_apart b 0 nz) refl,
  rw (low-sx32 (a / b) small_q, low-sx32 (a % b) small_r) back.0,
  rw (low-sx32 (a / b) small_q) back.1,
  rw (low-sx32 (a % b) small_r) less,
)
  where
    a : ℕ
    a = u32 s

    b : ℕ
    b = u32 t

    less : a % b < b
    less = mod-lt a (omega (arith, nz))

    small_q : a / b < 2 ^ 32
    small_q = omega (arith, div-le_self a b)

    small_r : a % b < 2 ^ 32
    small_r = omega (arith, less)

    back : (u32 (sx32 (a / b * b)) + a % b ≡ a) × (sx32 (a / b * b / 2 ^ 32) ≡ 0)
    back = multiplied_back a b (a / b) (a % b) (omega arith) (div-add-mod' a b)
