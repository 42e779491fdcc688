-- ===== src/MipsInterp/Fuel.antt =====
-- The fuel of the interpreter's loop decides only whether there is an outcome, not which.
use n64modern_runtime.Base.{
  ℕ, zero, suc, ◌≤◌, ◌≡◌, sym, ◌≢◌, Bool, true, false, arith, ltb, if◌then◌else◌,
}
use n64modern_runtime.Base.Bits.{u32}
use n64modern_runtime.MipsInterp.Machine.{Platform, Machine}
use n64modern_runtime.MipsInterp.Control.{
  Runtime, Round, one_round, call_at, return_false, continue_at, meaningless, return_true,
}
use n64modern_runtime.MipsInterp.Run.{
  max_interp_depth, Outcome, after_call, after_round, run, interpret, recomp_interpret_function,
  failed, out_of_fuel, returned, undefined_behaviour,
}

-- The right outcome is the left one, unless the left one ran out of fuel.
infix 50 ◌⊑◌
pub data ◌⊑◌ {ℓ} {A : Type ℓ} : Outcome A → Outcome A → Type ℓ where
  below : {o : Outcome A} → out_of_fuel ⊑ o
  same : {o : Outcome A} → o ⊑ o

after_call-⊑ {ℓ} :
    {A : Type ℓ} {o o' : Outcome A} {k k' : A → Outcome A}
    → o ⊑ o'
    → ((m : A) → k m ⊑ k' m)
    → after_call o k ⊑ after_call o' k'
after_call-⊑ below h = below
after_call-⊑ (same {o = returned m}) h = h m
after_call-⊑ (same {o = failed m}) h = same
after_call-⊑ (same {o = undefined_behaviour}) h = same
after_call-⊑ (same {o = out_of_fuel}) h = same

if-⊑ {ℓ} :
    {A : Type ℓ} (b : Bool) (o : Outcome A) {p p' : Outcome A}
    → p ⊑ p'
    → (if b then o else p) ⊑ (if b then o else p')
if-⊑ true o h = same
if-⊑ false o h = h

⊑-settled {ℓ} : {A : Type ℓ} {o o' r : Outcome A} → o ⊑ o' → o ≡ r → r ≢ out_of_fuel → o' ≡ r
⊑-settled below e n = absurd (n (sym e))
⊑-settled same e n = e

abbrev Loop : Platform → Type 0
Loop P = (depth return_target pc : ℕ) → Machine P → Outcome (Machine P)

module _ {P : Platform} where
  after_round-⊑ :
      (loop loop' : Loop P) (d t : ℕ) (o : Round (Machine P))
      → ((d t pc : ℕ) (m : Machine P) → loop d t pc m ⊑ loop' d t pc m)
      → after_round loop d t o ⊑ after_round loop' d t o
  unfolding after_round
  after_round-⊑ loop loop' d t (continue_at pc m) h = h d t pc m
  after_round-⊑ loop loop' d t (return_true m) h = same
  after_round-⊑ loop loop' d t (return_false m) h = same
  after_round-⊑ loop loop' d t meaningless h = same
  after_round-⊑ loop loop' d t (call_at target resume m) h =
      if-⊑ (ltb max_interp_depth (suc d)) (failed m)
        (after_call-⊑ (h (suc d) (u32 (m.r 31)) target m) (h d t resume))

  module _ (X : Runtime P) where
    pub run-⊑ :
        (f g : ℕ) → f ≤ g → (d t pc : ℕ) (m : Machine P) → run X f d t pc m ⊑ run X g d t pc m
    unfolding run
    run-⊑ zero g h d t pc m = below
    run-⊑ (suc f) zero h d t pc m = absurd (omega arith)
    run-⊑ (suc f) (suc g) h d t pc m =
        after_round-⊑ (run X f) (run X g) d t (one_round X m t pc) (run-⊑ f g (omega arith))

    pub run_mono :
        (f g d t pc : ℕ) (m : Machine P) {o : Outcome (Machine P)}
        → f ≤ g
        → run X f d t pc m ≡ o
        → o ≢ out_of_fuel
        → run X g d t pc m ≡ o
    run_mono f g d t pc m h e n = ⊑-settled (run-⊑ f g h d t pc m) e n

    -- If the interpreter, entered at any address with some fuel, ends with true, with false or at an
    -- instruction without meaning, then it ends so, with the same machine, for every greater fuel.
    pub recomp_interpret_function-fuel :
        (f g start_pc : ℕ) (m : Machine P) (o : Outcome (Machine P))
        → f ≤ g
        → recomp_interpret_function X f m start_pc ≡ o
        → o ≢ out_of_fuel
        → recomp_interpret_function X g m start_pc ≡ o
    unfolding recomp_interpret_function interpret
    recomp_interpret_function-fuel f g start_pc m o h e n =
        run_mono f g 0 (u32 (m.r 31)) start_pc m h e n
