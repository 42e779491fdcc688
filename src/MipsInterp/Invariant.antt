-- ===== src/MipsInterp/Invariant.antt =====
-- The invariant of the machine, through an instruction, a round and the interpreter's loop.
use n64modern_runtime.Base.{
  ℕ, ◌≡◌, sym, Option, none, some, arith, ◌==◌, ==_false, ==_apart, if_cases,
}
use n64modern_runtime.MipsInterp.Machine.{Platform, Machine, update, set_r, set_u32l, set_u64}
use n64modern_runtime.MipsInterp.Exec.{Executed, executed, unimplemented, undefined}
use n64modern_runtime.MipsInterp.Control.{
  Round, meaningless, return_true, return_false, continue_at, call_at,
}
use n64modern_runtime.MipsInterp.Run.{Outcome, undefined_behaviour, out_of_fuel, returned, failed}
use n64modern_runtime.MipsInterp.Bounds.{Fits}

-- Every register has 64 bits, and register 0 is zero.
pub record IsWellFormed {P : Platform} (m : Machine P) : Type 0 where
  pub zero_register : m.r 0 ≡ 0
  pub r_fits : (i : ℕ) → Fits (m.r i)
  pub f_fits : (i : ℕ) → Fits (m.f i)
  pub hi_fits : Fits m.hi
  pub lo_fits : Fits m.lo

-- The predicate on what an instruction, a round or the loop gives, where it gives a machine.
module _ {A : Type 0} (W : A → Type 0) where
  abbrev pub InExecuted : Executed A → Type 0
  InExecuted (executed m) = W m
  InExecuted unimplemented = Unit
  InExecuted undefined = Unit

  abbrev pub InRound : Round A → Type 0
  InRound (continue_at pc m) = W m
  InRound (return_true m) = W m
  InRound (return_false m) = W m
  InRound meaningless = Unit
  InRound (call_at target resume m) = W m

  abbrev pub InOutcome : Outcome A → Type 0
  InOutcome (returned m) = W m
  InOutcome (failed m) = W m
  InOutcome undefined_behaviour = Unit
  InOutcome out_of_fuel = Unit

  abbrev pub InOption : Option A → Type 0
  InOption (some m) = W m
  InOption none = Unit

update-Fits :
    (g : ℕ → ℕ) (i v : ℕ) → ((k : ℕ) → Fits (g k)) → Fits v → (k : ℕ) → Fits (update g i v k)
update-Fits g i v h p k = if_cases Fits (k == i) (λ _. p) (λ _. h k)

module _ {P : Platform} where
  abbrev pub Wf : Machine P → Type 0
  Wf m = IsWellFormed m

  pub set_r-Wf : (m : Machine P) (i v : ℕ) → Fits v → Wf m → Wf (set_r m i v)
  unfolding set_r
  set_r-Wf m i v p w =
      if_cases Wf (i == 0) (λ _. w)
        (λ ne. record {
          zero_register = rw (==_apart 0 i (λ e. ==_false i 0 ne (sym e))) w.zero_register;
          r_fits = update-Fits m.r i v w.r_fits p;
          f_fits = w.f_fits;
          hi_fits = w.hi_fits;
          lo_fits = w.lo_fits;
        })

  set_f-Wf : (m : Machine P) (i v : ℕ) → Fits v → Wf m → Wf (record m { f = update m.f i v })
  set_f-Wf m i v p w = record {
    zero_register = w.zero_register;
    r_fits = w.r_fits;
    f_fits = update-Fits m.f i v w.f_fits p;
    hi_fits = w.hi_fits;
    lo_fits = w.lo_fits;
  }

  pub set_u32l-Wf : (m : Machine P) (i v : ℕ) → Wf m → Wf (set_u32l m i v)
  unfolding set_u32l
  set_u32l-Wf m i v w = set_f-Wf m i _ (omega (arith, w.f_fits i)) w

  pub set_u64-Wf : (m : Machine P) (i v : ℕ) → Wf m → Wf (set_u64 m i v)
  unfolding set_u64
  set_u64-Wf m i v w = set_f-Wf m i _ (omega arith) w

  -- What stands beside the registers may change.
  pub beside-Wf :
      (m : Machine P) (c : ℕ → ℕ) (mem : P.Mem) (host : P.Host)
      → Wf m
      → Wf (record m { cop0 = c; mem = mem; host = host })
  beside-Wf m c mem host w = record {
    zero_register = w.zero_register;
    r_fits = w.r_fits;
    f_fits = w.f_fits;
    hi_fits = w.hi_fits;
    lo_fits = w.lo_fits;
  }

  pub hi_lo-Wf :
      (m : Machine P) (hi lo : ℕ) → Fits hi → Fits lo → Wf m → Wf (record m { hi = hi; lo = lo })
  hi_lo-Wf m hi lo p q w = record {
    zero_register = w.zero_register;
    r_fits = w.r_fits;
    f_fits = w.f_fits;
    hi_fits = p;
    lo_fits = q;
  }
