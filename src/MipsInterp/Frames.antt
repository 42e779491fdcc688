-- ===== src/MipsInterp/Frames.antt =====
-- Functions that the interpreter enters and leaves: a run of rounds that ends in `jr`, and the call
-- of one by `jal`.
use n64modern_runtime.Base.{
  ℕ, zero, suc, ◌+◌, ◌-◌, ◌%◌, ◌<◌, ◌≡◌, refl, ap, ◌∙◌, none, arith, ==_iff, le→ltb_false,
}
use n64modern_runtime.Base.Bits.{u32}
use n64modern_runtime.MipsInterp.Words.{sx32}
use Prim.Native.Nat.add
use n64modern_runtime.MipsInterp.Run.{
  max_interp_depth, after_round, run, interpret, recomp_interpret_function, returned,
}
use n64modern_runtime.MipsInterp.Control.{
  Runtime, jump_target, ifetch, delay_slot, transfer_to, jump, jump_register, one_round,
  continue_at, return_true, call_at,
}
use n64modern_runtime.MipsInterp.Exec.{exec_noncontrol, executed}
use n64modern_runtime.MipsInterp.Machine.{Platform, Machine, set_r}
use n64modern_runtime.MipsInterp.Opcodes.{op_field, rs_field, fn_field}

module _ {P : Platform} (X : Runtime P) where
  -- `n` rounds of the loop, each of which goes on.
  pub data Steps (t : ℕ) : ℕ → ℕ → Machine P → ℕ → Machine P → Type 0 where
    no_step : {pc : ℕ} {m : Machine P} → Steps t zero pc m pc m
    step :
        {n pc pc' pc'' : ℕ} {m m' m'' : Machine P}
        → one_round X m t pc ≡ continue_at pc' m'
        → Steps t n pc' m' pc'' m''
        → Steps t (suc n) pc m pc'' m''

  -- A `jr` to the address `t`, and its delay slot, which leaves `result`.
  pub record ReturnsTo (t pc : ℕ) (m result : Machine P) : Type 0 where
    pub is_aligned : pc % 4 ≡ 0
    pub is_special : op_field (ifetch X m pc) ≡ 0x00
    pub is_jr : fn_field (ifetch X m pc) ≡ 0x08
    pub target : u32 (m.r (rs_field (ifetch X m pc))) ≡ t
    pub slot : exec_noncontrol m (ifetch X m (u32 (pc + 4))) ≡ executed result

  one_round-ReturnsTo :
      (t pc : ℕ) (m result : Machine P)
      → ReturnsTo t pc m result
      → one_round X m t pc ≡ return_true result
  unfolding one_round jump_register delay_slot
  one_round-ReturnsTo t pc m result h =
      rw (h.is_aligned, h.is_special, h.is_jr, h.slot, h.target, (==_iff t t).1 refl) refl

  run_steps :
      (f d t n : ℕ) {pc pc' : ℕ} {m m' : Machine P}
      → Steps t n pc m pc' m'
      → run X (n + f) d t pc m ≡ run X f d t pc' m'
  unfolding run after_round
  run_steps f d t zero no_step = rw add.zero refl
  run_steps f d t (suc n) (step h s) = rw (add.suc, h) (run_steps f d t n s)

  run_leaf :
      (f d t n : ℕ) {pc end : ℕ} {m m' result : Machine P}
      → Steps t n pc m end m'
      → ReturnsTo t end m' result
      → run X (n + suc f) d t pc m ≡ returned result
  unfolding run after_round
  run_leaf f d t n {end = end} {m' = m'} {result = result} s h =
      run_steps (suc f) d t n s ∙ rw (one_round-ReturnsTo t end m' result h) refl

  -- Interpretation of a function that runs `n` rounds and then returns by JR to the address that
  -- register 31 had on entry ends with true, in the machine that the delay slot of the JR leaves,
  -- with any fuel above `n`.
  pub recomp_interpret_function-leaf :
      (f n start end : ℕ) (m m' result : Machine P)
      → Steps (u32 (m.r 31)) n start m end m'
      → ReturnsTo (u32 (m.r 31)) end m' result
      → n < f
      → recomp_interpret_function X f m start ≡ returned result
  unfolding recomp_interpret_function interpret
  recomp_interpret_function-leaf f n start end m m' result s h l =
      ap (λ k. run X k 0 (u32 (m.r 31)) start m) (omega (arith, l))
      ∙ run_leaf (f - n - 1) 0 (u32 (m.r 31)) n s h

  -- `jal` at `pc`: its delay slot leaves `called` with the return address in register 31, and the
  -- target is not recompiled.
  pub record CallsAt (pc : ℕ) (m called : Machine P) : Type 0 where
    pub is_aligned : pc % 4 ≡ 0
    pub is_jal : op_field (ifetch X m pc) ≡ 0x03
    pub slot :
        exec_noncontrol
          (set_r m 31 (sx32 (pc + 8)))
          (ifetch X (set_r m 31 (sx32 (pc + 8))) (u32 (pc + 4)))
        ≡ executed called
    pub not_recompiled :
        X.lookup_function_or_null called.host (jump_target pc (ifetch X m pc)) ≡ none

  abbrev pub noted : Machine P → ℕ → Machine P
  noted m target = record m { host = X.capture_interp_target m.host target }

  one_round-CallsAt :
      (t pc : ℕ) (m called : Machine P)
      → CallsAt pc m called
      → one_round X m t pc
        ≡ call_at
            (jump_target pc (ifetch X m pc))
            (u32 (pc + 8))
            (noted called (jump_target pc (ifetch X m pc)))
  unfolding one_round jump delay_slot transfer_to
  one_round-CallsAt t pc m called h = rw (h.is_aligned, h.is_jal, h.slot, h.not_recompiled) refl

  -- A JAL below the depth limit into code that is not recompiled, whose target is noted, runs `n`
  -- rounds and returns by JR to the address that register 31 holds on entry: the loop goes on after
  -- the delay slot of the JAL in the machine that the callee leaves, with the frame, the depth and
  -- the return target of the caller.
  pub run-jal :
      (f d t n pc end : ℕ) (m called m' result : Machine P)
      → d < max_interp_depth
      → CallsAt pc m called
      → Steps
          (u32 (called.r 31))
          n
          (jump_target pc (ifetch X m pc))
          (noted called (jump_target pc (ifetch X m pc)))
          end
          m'
      → ReturnsTo (u32 (called.r 31)) end m' result
      → run X (suc (n + suc f)) d t pc m ≡ run X (n + suc f) d t (u32 (pc + 8)) result
  unfolding run after_round
  run-jal f d t n pc end m called m' result l c s h =
      rw
        (
          one_round-CallsAt t pc m called c,
          le→ltb_false max_interp_depth (suc d) (omega (arith, l)),
          run_leaf f (suc d) (u32 (called.r 31)) n s h,
        )
        refl
