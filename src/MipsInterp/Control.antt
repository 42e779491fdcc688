-- ===== src/MipsInterp/Control.antt =====
-- librecomp/src/mips_interp.cpp: one round of the loop of `interpret`, with the jumps and branches
-- and their delay slots. The function map and the capture of missed targets belong to
-- librecomp/src/overlays.cpp, which enters as an interface.
use n64modern_runtime.Base.{
  ℕ, ◌+◌, ◌*◌, ◌/◌, ◌%◌, ◌^◌, Bool, true, false, not, ◌&&◌, ◌||◌, Option, none, some, leb, ◌==◌,
  if◌then◌else◌,
}
use n64modern_runtime.Base.Bits.{u32, bit}
use n64modern_runtime.Base.Int.{ltb_ℤ, pos}
use n64modern_runtime.MipsInterp.Words.{sx16, sx32, s64}
use n64modern_runtime.MipsInterp.Opcodes.{op_field, rs_field, rt_field, rd_field, fn_field}
use n64modern_runtime.MipsInterp.Machine.{Platform, Machine, set_r}
use n64modern_runtime.MipsInterp.Exec.{
  Executed, exec_noncontrol, executed, unimplemented, undefined,
}

pub record Runtime (P : Platform) : Type 0 where
  -- `recomp_lookup_function_or_null`: a recompiled function changes the machine and the host.
  pub lookup_function_or_null : P.Host → ℕ → Option (Machine P → Machine P)
  pub shadow_diff_active : P.Host → Bool
  pub shadow_diff_note_native_call : P.Host → P.Host
  pub capture_interp_target : P.Host → ℕ → P.Host

-- How a round ends: the loop goes on at an address, `interpret` returns true or false, C++ gives
-- the instruction no meaning, or the function at `target` is interpreted and, if it returns true,
-- the loop goes on at `resume`.
pub data Round {ℓ} (A : Type ℓ) : Type ℓ where
  continue_at : (pc : ℕ) → A → Round A
  return_true return_false : A → Round A
  meaningless : Round A
  call_at : (target resume : ℕ) → A → Round A

-- What a branch instruction asks for.
pub record Branch : Type 0 where
  pub taken : Bool
  pub likely : Bool
  pub link : Bool

abbrev pub branch : (taken likely link : Bool) → Branch
branch taken likely link = record { taken = taken; likely = likely; link = link }

abbrev pub is_branch : ℕ → Bool
is_branch op = (op == 0x01) || (leb 0x04 op && leb op 0x07) || (leb 0x14 op && leb op 0x17)

abbrev pub negative : ℕ → Bool
negative v = ltb_ℤ (s64 v) (pos 0)

abbrev pub positive : ℕ → Bool
positive v = ltb_ℤ (pos 0) (s64 v)

-- `a` and `b` are `R[rs]` and `R[rt]`, `kind` is the field `rt`. `none`: a REGIMM branch without a case.
unfoldable pub branch_of : (op kind a b : ℕ) → Option Branch
branch_of op kind a b =
    if op == 0x01
    then (if kind == 0x00
        then some (branch (negative a) false false)
        else if kind == 0x01
        then some (branch (not (negative a)) false false)
        else if kind == 0x02
        then some (branch (negative a) true false)
        else if kind == 0x03
        then some (branch (not (negative a)) true false)
        else if kind == 0x10
        then some (branch (negative a) false true)
        else if kind == 0x11
        then some (branch (not (negative a)) false true)
        else none)
    else if op == 0x04
    then some (branch (a == b) false false)
    else if op == 0x05
    then some (branch (not (a == b)) false false)
    else if op == 0x06
    then some (branch (not (positive a)) false false)
    else if op == 0x07
    then some (branch (positive a) false false)
    else if op == 0x14
    then some (branch (a == b) true false)
    else if op == 0x15
    then some (branch (not (a == b)) true false)
    else if op == 0x16
    then some (branch (not (positive a)) true false)
    else some (branch (positive a) true false)

abbrev pub jump_target : (pc insn : ℕ) → ℕ
jump_target pc insn = u32 (pc + 4) / 2 ^ 28 * 2 ^ 28 + insn % 2 ^ 26 * 4

abbrev pub branch_target : (pc insn : ℕ) → ℕ
branch_target pc insn = u32 (pc + 4 + u32 (sx16 insn * 4))

module _ {P : Platform} (X : Runtime P) where
  unfoldable pub ifetch : Machine P → ℕ → ℕ
  ifetch m pc = u32 (P.mem_wu m.mem 0 (sx32 pc))

  abbrev pub after :
      Machine P → Executed (Machine P) → (Machine P → Round (Machine P)) → Round (Machine P)
  after m (executed m') k = k m'
  after m unimplemented k = return_false m
  after m undefined k = meaningless

  -- The instruction after a jump or a branch, which runs before control moves.
  unfoldable pub delay_slot : Machine P → ℕ → (Machine P → Round (Machine P)) → Round (Machine P)
  delay_slot m pc k = after m (exec_noncontrol m (ifetch m (u32 (pc + 4)))) k

  unfoldable pub call_native : (Machine P → Machine P) → Machine P → Machine P
  call_native nf m = nf (
      if X.shadow_diff_active m.host
      then record m { host = X.shadow_diff_note_native_call m.host }
      else m)

  -- A target: a recompiled function is called, any other is noted and interpreted, in a frame of
  -- its own where the jump links.
  unfoldable pub transfer_to :
      Option (Machine P → Machine P)
      → (link : Bool) → (target resume : ℕ) → Machine P
      → Round (Machine P)
  transfer_to (some nf) link target resume m =
      if link then continue_at resume (call_native nf m) else return_true (call_native nf m)
  transfer_to none link target resume m =
      let noted = record m { host = X.capture_interp_target m.host target } in
      if link then call_at target resume noted else continue_at target noted

  abbrev pub transfer : (link : Bool) → (target resume : ℕ) → Machine P → Round (Machine P)
  transfer link target resume m =
      transfer_to (X.lookup_function_or_null m.host target) link target resume m

  -- `j` and `jal`
  unfoldable pub jump : Machine P → (pc insn : ℕ) → Round (Machine P)
  jump m pc insn =
      let links = op_field insn == 0x03 in
      let m' = if links then set_r m 31 (sx32 (pc + 8)) else m in
      delay_slot m' pc (transfer links (jump_target pc insn) (u32 (pc + 8)))

  -- `jr` and `jalr`
  unfoldable pub jump_register : Machine P → (return_target pc insn : ℕ) → Round (Machine P)
  jump_register m return_target pc insn =
      let links = fn_field insn == 0x09 in
      let target = u32 (m.r (rs_field insn)) in
      let m' = if links then set_r m (rd_field insn) (sx32 (pc + 8)) else m in
      delay_slot m' pc (λ after_slot.
        if not links && (target == return_target)
        then return_true after_slot
        else transfer links target (u32 (pc + 8)) after_slot)

  -- A branch: the delay slot of a likely one runs only when the branch is taken.
  unfoldable pub take_branch : Branch → Machine P → (pc target : ℕ) → Round (Machine P)
  take_branch b m pc target =
      let m' = if b.link then set_r m 31 (sx32 (pc + 8)) else m in
      let skip = u32 (pc + 8) in
      if b.likely
      then (if b.taken then delay_slot m' pc (continue_at target) else continue_at skip m')
      else delay_slot m' pc (continue_at (if b.taken then target else skip))

  unfoldable pub branch_case : Option Branch → Machine P → (pc target : ℕ) → Round (Machine P)
  branch_case (some b) m pc target = take_branch b m pc target
  branch_case none m pc target = return_false m

  unfoldable pub bc1 : Machine P → ℕ → Branch
  bc1 m insn =
      let cond = bit (m.cop0 1) 23 in
      branch (if bit insn 16 then cond else not cond) (bit insn 17) false

  unfoldable pub one_round : Machine P → (return_target pc : ℕ) → Round (Machine P)
  one_round m return_target pc =
      let insn = ifetch m pc in
      let op = op_field insn in
      let target = branch_target pc insn in
      if not (pc % 4 == 0)
      then return_false m
      else if (op == 0x02) || (op == 0x03)
      then jump m pc insn
      else if (op == 0x00) && ((fn_field insn == 0x08) || (fn_field insn == 0x09))
      then jump_register m return_target pc insn
      else if is_branch op
      then branch_case (branch_of op (rt_field insn) (m.r (rs_field insn)) (m.r (rt_field insn))) m
          pc target
      else if (op == 0x11) && (rs_field insn == 0x08)
      then take_branch (bc1 m insn) m pc target
      else after m (exec_noncontrol m insn) (continue_at (u32 (pc + 4)))
