-- ===== src/MipsInterp/Run.antt =====
-- librecomp/src/mips_interp.cpp: `interpret` and `recomp_interpret_function`. The code that is
-- interpreted need not stop, so the loop runs on fuel: a round, or a call from it, spends one unit.
use n64modern_runtime.Base.{ℕ, zero, suc, true, false, ltb, if◌then◌else◌}
use n64modern_runtime.Base.Bits.{u32}
use n64modern_runtime.MipsInterp.Machine.{Platform, Machine}
use n64modern_runtime.MipsInterp.Control.{
  Runtime, Round, one_round, return_true, return_false, continue_at, call_at, meaningless,
}

abbrev pub max_interp_depth : ℕ
max_interp_depth = 256

pub data Outcome {ℓ} (A : Type ℓ) : Type ℓ where
  returned failed : A → Outcome A
  undefined_behaviour out_of_fuel : Outcome A

-- What is left of a round once a call in it has ended.
abbrev pub after_call {ℓ} : {A : Type ℓ} → Outcome A → (A → Outcome A) → Outcome A
after_call (returned m) k = k m
after_call (failed m) k = failed m
after_call undefined_behaviour k = undefined_behaviour
after_call out_of_fuel k = out_of_fuel

-- The rest of the loop after a round, where `loop` is the loop with one unit of fuel less.
unfoldable pub after_round :
    {P : Platform} (loop : (depth return_target pc : ℕ) → Machine P → Outcome (Machine P))
    (depth return_target : ℕ)
    → Round (Machine P)
    → Outcome (Machine P)
after_round loop depth return_target (continue_at pc m) = loop depth return_target pc m
after_round loop depth return_target (return_true m) = returned m
after_round loop depth return_target (return_false m) = failed m
after_round loop depth return_target meaningless = undefined_behaviour
after_round loop depth return_target (call_at target resume m) =
    if ltb max_interp_depth (suc depth)
    then failed m
    else after_call (loop (suc depth) (u32 (m.r 31)) target m) (loop depth return_target resume)

module _ {P : Platform} (X : Runtime P) where
  -- The loop, in the frame that a return to `return_target` leaves.
  unfoldable pub run : (fuel depth return_target pc : ℕ) → Machine P → Outcome (Machine P)
  run zero depth return_target pc m = out_of_fuel
  run (suc fuel) depth return_target pc m =
      after_round (run fuel) depth return_target (one_round X m return_target pc)

  unfoldable pub interpret : (fuel : ℕ) → Machine P → (start_pc depth : ℕ) → Outcome (Machine P)
  interpret fuel m start_pc depth = elim (ltb max_interp_depth depth) [
    | true ↦ failed m
    | false ↦ run fuel depth (u32 (m.r 31)) start_pc m
  ]

  unfoldable pub recomp_interpret_function :
      (fuel : ℕ) → Machine P → (start_pc : ℕ) → Outcome (Machine P)
  recomp_interpret_function fuel m start_pc = interpret fuel m start_pc 0
