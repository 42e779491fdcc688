-- ===== src/MipsInterp/Relation.antt =====
-- What the interpreter does, as a relation without fuel, and its agreement with the loop.
use n64modern_runtime.Base.{
  ℕ, zero, suc, ◌+◌, ◌≤◌, ◌<◌, ◌≡◌, refl, sym, ◌∙◌, ◌≢◌, ◌↔◌, inl, inr, arith, ltb, ltb→lt, lt→ltb,
  ltb-false, le→ltb_false, Bool-cases,
}
use n64modern_runtime.Base.Bits.{u32}
use n64modern_runtime.MipsInterp.Machine.{Platform, Machine}
use n64modern_runtime.MipsInterp.Control.{
  Runtime, Round, one_round, continue_at, meaningless, return_true, return_false, call_at,
}
use n64modern_runtime.MipsInterp.Fuel.{run_mono}
use n64modern_runtime.MipsInterp.Run.{
  max_interp_depth, Outcome, after_call, after_round, run, failed, out_of_fuel, undefined_behaviour,
  returned,
}

module _ {P : Platform} (X : Runtime P) where
  -- From an address, in a frame of a depth and a return target, the interpreter ends so.
  pub data Interprets : (d t pc : ℕ) → Machine P → Outcome (Machine P) → Type 0 where
    goes_on :
        {d t pc : ℕ} {m : Machine P} {pc' : ℕ} {m' : Machine P} {o : Outcome (Machine P)}
        → one_round X m t pc ≡ continue_at pc' m'
        → Interprets d t pc' m' o
        → Interprets d t pc m o
    returns :
        {d t pc : ℕ} {m : Machine P} {m' : Machine P}
        → one_round X m t pc ≡ return_true m'
        → Interprets d t pc m (returned m')
    fails :
        {d t pc : ℕ} {m : Machine P} {m' : Machine P}
        → one_round X m t pc ≡ return_false m'
        → Interprets d t pc m (failed m')
    has_no_meaning :
        {d t pc : ℕ} {m : Machine P}
        → one_round X m t pc ≡ meaningless
        → Interprets d t pc m undefined_behaviour
    too_deep :
        {d t pc : ℕ} {m : Machine P} {target resume : ℕ} {m' : Machine P}
        → one_round X m t pc ≡ call_at target resume m'
        → max_interp_depth ≤ d
        → Interprets d t pc m (failed m')
    calls :
        {d t pc : ℕ} {m : Machine P} {target resume : ℕ} {m' m'' : Machine P}
        {o : Outcome (Machine P)}
        → one_round X m t pc ≡ call_at target resume m'
        → d < max_interp_depth
        → Interprets (suc d) (u32 (m'.r 31)) target m' (returned m'')
        → Interprets d t resume m'' o
        → Interprets d t pc m o
    callee_fails :
        {d t pc : ℕ} {m : Machine P} {target resume : ℕ} {m' m'' : Machine P}
        → one_round X m t pc ≡ call_at target resume m'
        → d < max_interp_depth
        → Interprets (suc d) (u32 (m'.r 31)) target m' (failed m'')
        → Interprets d t pc m (failed m'')
    callee_has_no_meaning :
        {d t pc : ℕ} {m : Machine P} {target resume : ℕ} {m' : Machine P}
        → one_round X m t pc ≡ call_at target resume m'
        → d < max_interp_depth
        → Interprets (suc d) (u32 (m'.r 31)) target m' undefined_behaviour
        → Interprets d t pc m undefined_behaviour

  abbrev Sound : ℕ → Type 0
  Sound f =
      (d t pc : ℕ) (m : Machine P) (o : Outcome (Machine P))
      → run X f d t pc m ≡ o
      → o ≢ out_of_fuel
      → Interprets d t pc m o

  module _ (f : ℕ) {d t pc : ℕ} {m : Machine P} {o : Outcome (Machine P)} (ih : Sound f)
      (n : o ≢ out_of_fuel) where
    call_sound :
        {target resume : ℕ} {m' : Machine P} (inner : Outcome (Machine P))
        → one_round X m t pc ≡ call_at target resume m'
        → d < max_interp_depth
        → run X f (suc d) (u32 (m'.r 31)) target m' ≡ inner
        → after_call inner (run X f d t resume) ≡ o
        → Interprets d t pc m o
    call_sound (returned m'') h l c e = calls h l (ih _ _ _ _ _ c (λ q. cc)) (ih _ _ _ _ _ e n)
    call_sound (failed m'') h l c e = rw (← e) (callee_fails h l (ih _ _ _ _ _ c (λ q. cc)))
    call_sound undefined_behaviour h l c e =
        rw (← e) (callee_has_no_meaning h l (ih _ _ _ _ _ c (λ q. cc)))
    call_sound out_of_fuel h l c e = absurd (n (sym e))

    round_sound :
        (r : Round (Machine P))
        → one_round X m t pc ≡ r
        → after_round (run X f) d t r ≡ o
        → Interprets d t pc m o
    unfolding after_round
    round_sound (continue_at pc' m') h e = goes_on h (ih _ _ _ _ _ e n)
    round_sound (return_true m') h e = rw (← e) (returns h)
    round_sound (return_false m') h e = rw (← e) (fails h)
    round_sound meaningless h e = rw (← e) (has_no_meaning h)
    round_sound (call_at target resume m') h e = elim (Bool-cases (ltb max_interp_depth (suc d))) [
      | inl deep ↦ rw (← (rw deep at e)) (too_deep h (omega (arith, ltb→lt _ _ deep)))
      | inr ok ↦
          call_sound (run X f (suc d) (u32 (m'.r 31)) target m') h (omega (arith, ltb-false _ _ ok))
            refl (rw ok at e)
    ]

  run-Sound : (f : ℕ) → Sound f
  unfolding run
  run-Sound zero d t pc m o e n = absurd (n (sym e))
  run-Sound (suc f) d t pc m o e n = round_sound f (run-Sound f) n (one_round X m t pc) refl e

  module _ (f d t pc : ℕ) (m : Machine P) where
    run_next :
        {pc' : ℕ} {m' : Machine P} {o : Outcome (Machine P)}
        → one_round X m t pc ≡ continue_at pc' m'
        → run X f d t pc' m' ≡ o
        → run X (suc f) d t pc m ≡ o
    unfolding run after_round
    run_next h e = rw h e

    run_deep :
        {target resume : ℕ} {m' : Machine P}
        → one_round X m t pc ≡ call_at target resume m'
        → max_interp_depth ≤ d
        → run X (suc f) d t pc m ≡ failed m'
    unfolding run after_round
    run_deep h l = rw (h, lt→ltb max_interp_depth (suc d) (omega (arith, l))) refl

    run_call :
        {target resume : ℕ} {m' : Machine P} (inner : Outcome (Machine P))
        → one_round X m t pc ≡ call_at target resume m'
        → d < max_interp_depth
        → run X f (suc d) (u32 (m'.r 31)) target m' ≡ inner
        → run X (suc f) d t pc m ≡ after_call inner (run X f d t resume)
    unfolding run after_round
    run_call inner h l e = rw (h, le→ltb_false max_interp_depth (suc d) (omega (arith, l)), e) refl

  ends :
      {d t pc : ℕ} {m : Machine P} {o : Outcome (Machine P)}
      → Interprets d t pc m o
      → o ≢ out_of_fuel
  ends (goes_on h i) e = ends i e
  ends (returns h) e = cc
  ends (fails h) e = cc
  ends (has_no_meaning h) e = cc
  ends (too_deep h l) e = cc
  ends (calls h l i j) e = ends j e
  ends (callee_fails h l i) e = cc
  ends (callee_has_no_meaning h l i) e = cc

  run_complete :
      {d t pc : ℕ} {m : Machine P} {o : Outcome (Machine P)}
      → Interprets d t pc m o
      → (f : ℕ) × (run X f d t pc m ≡ o)
  unfolding run after_round
  run_complete (goes_on h i) = let (f, e) = run_complete i in (suc f, run_next f _ _ _ _ h e)
  run_complete (returns h) = (1, rw h refl)
  run_complete (fails h) = (1, rw h refl)
  run_complete (has_no_meaning h) = (1, rw h refl)
  run_complete (too_deep h l) = (1, run_deep 0 _ _ _ _ h l)
  run_complete (calls {m'' = m''} h l i j) =
      let (f, e) = run_complete i in
      let (g, p) = run_complete j in
      let inner = run_mono X f (f + g) _ _ _ _ (omega arith) e (ends i) in
      let rest = run_mono X g (f + g) _ _ _ _ (omega arith) p (ends j) in
      (suc (f + g), run_call (f + g) _ _ _ _ (returned m'') h l inner ∙ rest)
  run_complete (callee_fails {m'' = m''} h l i) =
      let (f, e) = run_complete i in (suc f, run_call f _ _ _ _ (failed m'') h l e)
  run_complete (callee_has_no_meaning h l i) =
      let (f, e) = run_complete i in (suc f, run_call f _ _ _ _ undefined_behaviour h l e)

  -- The loop of `interpret`, at any depth and return target, ends with an outcome for some fuel just
  -- when the relation gives that outcome: an aligned instruction is executed and the loop goes on,
  -- returns or fails, and a linking jump into code that is not recompiled interprets the callee one
  -- frame deeper, resumes where it returns, fails where it fails, and fails past 256 frames.
  pub run_iff_Interprets :
      (d t pc : ℕ) (m : Machine P) (o : Outcome (Machine P))
      → o ≢ out_of_fuel
      → ((f : ℕ) × (run X f d t pc m ≡ o)) ↔ Interprets d t pc m o
  run_iff_Interprets d t pc m o n = ((λ (f, e). run-Sound f d t pc m o e n), run_complete)
