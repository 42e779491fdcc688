-- ===== src/MipsInterp/Delays.antt =====
-- Branches and their delay slots in one round of the interpreter's loop.
use n64modern_runtime.Base.{
  ℕ, ◌+◌, ◌%◌, ◌≡◌, refl, ◌⊎◌, inl, inr, Bool, true, false, not, ◌&&◌, ◌||◌, none, some, arith,
  ◌==◌, ==_iff,
}
use n64modern_runtime.Base.Bits.{u32}
use n64modern_runtime.MipsInterp.Cop1.{exec_cop1}
use n64modern_runtime.MipsInterp.Control.{
  Runtime, Round, Branch, is_branch, branch_of, branch_target, ifetch, delay_slot, take_branch,
  branch_case, one_round, return_false,
}
use n64modern_runtime.MipsInterp.Exec.{
  special_case, exec_opcode, opcode_case, exec_noncontrol, unimplemented,
}
use n64modern_runtime.MipsInterp.Machine.{Platform, Machine}
use n64modern_runtime.MipsInterp.Opcodes.{
  op_field, rs_field, rt_field, fn_field, case_of, special_cases, opcode_cases, special, cop_1,
}

-- The instructions that the loop handles itself: jumps and branches.
unfoldable pub is_control : ℕ → Bool
is_control insn =
    let op = op_field insn in
    ((op == 0x02) || (op == 0x03))
    || (((op == 0x00) && ((fn_field insn == 0x08) || (fn_field insn == 0x09)))
        || (is_branch op || ((op == 0x11) && (rs_field insn == 0x08))))

control_opcode : (op : ℕ) → is_branch op ≡ true → case_of op opcode_cases ≡ none
unfolding case_of
control_opcode op h = ground arith

branch_is_no_jump : (op : ℕ) → is_branch op ≡ true → ((op == 0x02) || (op == 0x03)) ≡ false
branch_is_no_jump op h = ground arith

branch_is_no_special : (op : ℕ) (b : Bool) → is_branch op ≡ true → ((op == 0x00) && b) ≡ false
branch_is_no_special op b h = ground arith

no_jump_opcode : (op : ℕ) → ((op == 0x02) || (op == 0x03)) ≡ true → case_of op opcode_cases ≡ none
unfolding case_of
no_jump_opcode op h = ground arith

special_opcode : (op : ℕ) → (op == 0x00) ≡ true → case_of op opcode_cases ≡ some special
unfolding case_of
special_opcode op h = ground arith

no_jump_function : (n : ℕ) → ((n == 0x08) || (n == 0x09)) ≡ true → case_of n special_cases ≡ none
unfolding case_of
no_jump_function n h = ground arith

cop1_opcode : (op : ℕ) → (op == 0x11) ≡ true → case_of op opcode_cases ≡ some cop_1
unfolding case_of
cop1_opcode op h = ground arith

or_cases : (a b : Bool) → (a || b) ≡ true → (a ≡ true) ⊎ (b ≡ true)
or_cases true b h = inl refl
or_cases false b h = inr h

and_true : (a b : Bool) → (a && b) ≡ true → (a ≡ true) × (b ≡ true)
and_true true b h = (refl, h)
and_true false b h = absurd (ground arith)

module _ {P : Platform} where
  bc1_refused :
      (m : Machine P) (insn : ℕ) → (rs_field insn == 0x08) ≡ true → exec_cop1 m insn ≡ none
  unfolding exec_cop1
  bc1_refused m insn h = rw ((==_iff _ _).0 h) refl

  case_refused :
      (m : Machine P) (insn : ℕ)
      → case_of (op_field insn) opcode_cases ≡ none
      → exec_noncontrol m insn ≡ unimplemented
  unfolding exec_noncontrol opcode_case
  case_refused m insn h = rw h refl

  special_refused :
      (m : Machine P) (insn : ℕ)
      → ((op_field insn == 0x00) && ((fn_field insn == 0x08) || (fn_field insn == 0x09))) ≡ true
      → exec_noncontrol m insn ≡ unimplemented
  unfolding exec_noncontrol opcode_case exec_opcode special_case
  special_refused m insn h =
      let (zero_op, jump_fn) = and_true (op_field insn == 0x00) _ h in
      rw (special_opcode _ zero_op, no_jump_function _ jump_fn) refl

  cop1_refused :
      (m : Machine P) (insn : ℕ)
      → ((op_field insn == 0x11) && (rs_field insn == 0x08)) ≡ true
      → exec_noncontrol m insn ≡ unimplemented
  unfolding exec_noncontrol opcode_case exec_opcode
  cop1_refused m insn h =
      let (cop1_op, branch_fmt) = and_true (op_field insn == 0x11) _ h in
      rw (cop1_opcode _ cop1_op, bc1_refused m insn branch_fmt) refl

  -- The function for single instructions refuses every jump and branch, which the loop handles
  -- itself, in any machine: J, JAL, JR, JALR, the branches on registers and BC1.
  pub exec_noncontrol-is_control :
      (m : Machine P) (insn : ℕ) → is_control insn ≡ true → exec_noncontrol m insn ≡ unimplemented
  unfolding is_control
  exec_noncontrol-is_control m insn h =
      elim (or_cases ((op_field insn == 0x02) || (op_field insn == 0x03)) _ h) [
        | inl j ↦ case_refused m insn (no_jump_opcode _ j)
        | inr h ↦
            elim (or_cases
              ((op_field insn == 0x00) && ((fn_field insn == 0x08) || (fn_field insn == 0x09))) _
              h) [
                | inl r ↦ special_refused m insn r
                | inr h ↦ elim (or_cases (is_branch (op_field insn)) _ h) [
                  | inl b ↦ case_refused m insn (control_opcode _ b)
                  | inr c ↦ cop1_refused m insn c
                ]
              ]
      ]

module _ {P : Platform} (X : Runtime P) where
  aligned : (pc : ℕ) → pc % 4 ≡ 0 → not (pc % 4 == 0) ≡ false
  aligned pc h = rw h refl

  pub branch_round :
      (t pc : ℕ) (m : Machine P) (b : Branch)
      → pc % 4 ≡ 0
      → is_branch (op_field (ifetch X m pc)) ≡ true
      → branch_of
          (op_field (ifetch X m pc))
          (rt_field (ifetch X m pc))
          (m.r (rs_field (ifetch X m pc)))
          (m.r (rt_field (ifetch X m pc)))
        ≡ some b
      → one_round X m t pc ≡ take_branch X b m pc (branch_target pc (ifetch X m pc))
  unfolding one_round branch_case
  branch_round t pc m b al is e =
      rw (aligned pc al, branch_is_no_jump _ is, branch_is_no_special _ _ is, is, e) refl

  -- A jump or a branch in the delay slot of a branch that runs it, or of J, JAL, JR or JALR, makes
  -- the loop return false, and the rest of the jump is not executed.
  pub delay_slot-is_control :
      (m : Machine P) (pc : ℕ) (k : Machine P → Round (Machine P))
      → is_control (ifetch X m (u32 (pc + 4))) ≡ true
      → delay_slot X m pc k ≡ return_false m
  unfolding delay_slot
  delay_slot-is_control m pc k h = rw (exec_noncontrol-is_control m _ h) refl
