-- ===== src/MipsInterp/KeptLoop.antt =====
-- The whole interpreter keeps the machine well formed, given that the recompiled functions do.
use n64modern_runtime.Base.{
  ℕ, zero, suc, ◌+◌, ◌%◌, ◌≡◌, refl, Bool, not, ◌&&◌, ◌||◌, Option, none, some, ltb, ◌==◌,
  if◌then◌else◌, if_cases,
}
use n64modern_runtime.Base.Bits.{u32}
use n64modern_runtime.MipsInterp.Kept.{exec_noncontrol-IsWellFormed}
use n64modern_runtime.MipsInterp.Invariant.{
  IsWellFormed, InExecuted, InRound, InOutcome, Wf, set_r-Wf, beside-Wf,
}
use n64modern_runtime.MipsInterp.Bounds.{sx32-Fits}
use n64modern_runtime.MipsInterp.Run.{
  max_interp_depth, Outcome, after_call, after_round, run, interpret, recomp_interpret_function,
  undefined_behaviour, out_of_fuel, returned, failed,
}
use n64modern_runtime.MipsInterp.Control.{
  Runtime, Round, Branch, is_branch, ifetch, after, delay_slot, call_native, transfer_to, jump,
  jump_register, take_branch, branch_case, bc1, one_round, meaningless, continue_at, call_at,
  return_true, return_false,
}
use n64modern_runtime.MipsInterp.Exec.{Executed, undefined, unimplemented, executed}
use n64modern_runtime.MipsInterp.Machine.{Platform, Machine, set_r}
use n64modern_runtime.MipsInterp.Opcodes.{op_field, rs_field, rd_field, fn_field}
use n64modern_runtime.MipsInterp.Words.{sx32}

module _ {P : Platform} (X : Runtime P)
    (natives : (h : P.Host) (a : ℕ) (nf : Machine P → Machine P)
      → X.lookup_function_or_null h a ≡ some nf
      → (m : Machine P) → IsWellFormed m
      → IsWellFormed (nf m)) where
  after-Wf :
      (m : Machine P) (o : Executed (Machine P)) (k : Machine P → Round (Machine P))
      → Wf m
      → InExecuted Wf o
      → ((m' : Machine P) → Wf m' → InRound Wf (k m'))
      → InRound Wf (after X m o k)
  after-Wf m (executed m') k w w' h = h m' w'
  after-Wf m unimplemented k w w' h = w
  after-Wf m undefined k w w' h = tt

  delay_slot-Wf :
      (m : Machine P) (pc : ℕ) (k : Machine P → Round (Machine P))
      → Wf m
      → ((m' : Machine P) → Wf m' → InRound Wf (k m'))
      → InRound Wf (delay_slot X m pc k)
  unfolding delay_slot
  delay_slot-Wf m pc k w h = after-Wf m _ k w (exec_noncontrol-IsWellFormed m _ w) h

  call_native-Wf :
      (nf : Machine P → Machine P) (m : Machine P)
      → ((m : Machine P) → Wf m → Wf (nf m))
      → Wf m
      → Wf (call_native X nf m)
  unfolding call_native
  call_native-Wf nf m h w =
      h _ (if_cases Wf (X.shadow_diff_active m.host) (λ _. beside-Wf m m.cop0 m.mem _ w) (λ _. w))

  transfer-Wf :
      (o : Option (Machine P → Machine P)) (link : Bool) (target resume : ℕ) (m : Machine P)
      → X.lookup_function_or_null m.host target ≡ o
      → Wf m
      → InRound Wf (transfer_to X o link target resume m)
  unfolding transfer_to
  transfer-Wf (some nf) link target resume m e w =
      let called = call_native-Wf nf m (natives m.host target nf e) w in
      if_cases (InRound Wf) link (λ _. called) (λ _. called)
  transfer-Wf none link target resume m e w =
      let noted = beside-Wf m m.cop0 m.mem (X.capture_interp_target m.host target) w in
      if_cases (InRound Wf) link (λ _. noted) (λ _. noted)

  linked-Wf : (b : Bool) (m : Machine P) (i v : ℕ) → Wf m → Wf (if b then set_r m i (sx32 v) else m)
  linked-Wf b m i v w = if_cases Wf b (λ _. set_r-Wf m i _ (sx32-Fits v) w) (λ _. w)

  take_branch-Wf :
      (b : Branch) (m : Machine P) (pc target : ℕ) → Wf m → InRound Wf (take_branch X b m pc target)
  unfolding take_branch
  take_branch-Wf b m pc target w =
      let w' = linked-Wf b.link m 31 (pc + 8) w in
      if_cases (InRound Wf) b.likely
        (λ _. if_cases (InRound Wf) b.taken (λ _. delay_slot-Wf _ pc _ w' (λ m' h. h)) (λ _. w'))
        (λ _. delay_slot-Wf _ pc _ w' (λ m' h. h))

  branch_case-Wf :
      (o : Option Branch) (m : Machine P) (pc target : ℕ)
      → Wf m
      → InRound Wf (branch_case X o m pc target)
  unfolding branch_case
  branch_case-Wf (some b) m pc target w = take_branch-Wf b m pc target w
  branch_case-Wf none m pc target w = w

  jump-Wf : (m : Machine P) (pc insn : ℕ) → Wf m → InRound Wf (jump X m pc insn)
  unfolding jump
  jump-Wf m pc insn w =
      delay_slot-Wf _ pc _ (linked-Wf _ m 31 (pc + 8) w) (λ m' h. transfer-Wf _ _ _ _ m' refl h)

  jump_register-Wf :
      (m : Machine P) (t pc insn : ℕ) → Wf m → InRound Wf (jump_register X m t pc insn)
  unfolding jump_register
  jump_register-Wf m t pc insn w =
      delay_slot-Wf _ pc _ (linked-Wf _ m (rd_field insn) (pc + 8) w) (λ m' h.
        if_cases (InRound Wf) (not (fn_field insn == 0x09) && (u32 (m.r (rs_field insn)) == t))
          (λ _. h) (λ _. transfer-Wf _ _ _ _ m' refl h))

  one_round-Wf : (m : Machine P) (t pc : ℕ) → Wf m → InRound Wf (one_round X m t pc)
  unfolding one_round
  one_round-Wf m t pc w =
      let Q = InRound Wf in
      let insn = ifetch X m pc in
      let op = op_field insn in
      if_cases Q (not (pc % 4 == 0)) (λ _. w)
        λ _.
          if_cases Q ((op == 0x02) || (op == 0x03)) (λ _. jump-Wf m pc insn w)
            λ _.
              if_cases Q ((op == 0x00) && ((fn_field insn == 0x08) || (fn_field insn == 0x09)))
                (λ _. jump_register-Wf m t pc insn w)
                λ _.
                  if_cases Q (is_branch op) (λ _. branch_case-Wf _ m pc _ w)
                    λ _.
                      if_cases Q ((op == 0x11) && (rs_field insn == 0x08))
                        (λ _. take_branch-Wf (bc1 X m insn) m pc _ w)
                        λ _. after-Wf m _ _ w (exec_noncontrol-IsWellFormed m insn w) (λ m' h. h)

  after_call-Wf :
      (o : Outcome (Machine P)) (k : Machine P → Outcome (Machine P))
      → InOutcome Wf o
      → ((m : Machine P) → Wf m → InOutcome Wf (k m))
      → InOutcome Wf (after_call o k)
  after_call-Wf (returned m) k w h = h m w
  after_call-Wf (failed m) k w h = w
  after_call-Wf undefined_behaviour k w h = tt
  after_call-Wf out_of_fuel k w h = tt

  after_round-Wf :
      (f d t : ℕ) (o : Round (Machine P))
      → ((d t pc : ℕ) (m : Machine P) → Wf m → InOutcome Wf (run X f d t pc m))
      → InRound Wf o
      → InOutcome Wf (after_round (run X f) d t o)
  unfolding after_round
  after_round-Wf f d t (continue_at pc m) ih w = ih d t pc m w
  after_round-Wf f d t (return_true m) ih w = w
  after_round-Wf f d t (return_false m) ih w = w
  after_round-Wf f d t meaningless ih w = tt
  after_round-Wf f d t (call_at target resume m) ih w =
      if_cases (InOutcome Wf) (ltb max_interp_depth (suc d)) (λ _. w)
        (λ _.
          after_call-Wf _ (run X f d t resume) (ih (suc d) (u32 (m.r 31)) target m w)
            (ih d t resume))

  run-Wf : (f d t pc : ℕ) (m : Machine P) → Wf m → InOutcome Wf (run X f d t pc m)
  unfolding run
  run-Wf zero d t pc m w = tt
  run-Wf (suc f) d t pc m w = after_round-Wf f d t _ (run-Wf f) (one_round-Wf m t pc w)

  -- If every recompiled function keeps a machine well formed (register 0 is zero, every register
  -- fits 64 bits), then so does the interpreter, whether it returns true or false.
  pub recomp_interpret_function-IsWellFormed :
      (f start_pc : ℕ) (m : Machine P)
      → IsWellFormed m
      → InOutcome IsWellFormed (recomp_interpret_function X f m start_pc)
  unfolding recomp_interpret_function interpret
  recomp_interpret_function-IsWellFormed f start_pc m w = run-Wf f 0 (u32 (m.r 31)) start_pc m w
