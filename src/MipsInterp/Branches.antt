-- ===== src/MipsInterp/Branches.antt =====
-- The branch instructions by their encoding, apart from the switch that decodes them.
use n64modern_runtime.Base.{
  ℕ, ◌+◌, ◌-◌, ◌*◌, ◌%◌, ◌^◌, ◌<◌, ◌≡◌, refl, ap, ◌∙◌, inl, inr, Bool, true, false, not, ◌&&◌, some,
  arith, ltb, leb, ◌==◌, if◌then◌else◌, ltb→lt, ltb-false, Bool-cases,
}
use n64modern_runtime.Base.Bits.{u32}
use n64modern_runtime.Base.Int.{ℤ, ltb_ℤ, leb_ℤ, pos}
use n64modern_runtime.MipsInterp.Machine.{Platform, Machine, set_r}
use n64modern_runtime.MipsInterp.Exec.{exec_noncontrol}
use n64modern_runtime.MipsInterp.Delays.{branch_round}
use n64modern_runtime.MipsInterp.Control.{
  Runtime, Round, branch, is_branch, branch_of, branch_target, ifetch, after, delay_slot,
  take_branch, one_round, continue_at,
}
use n64modern_runtime.MipsInterp.Words.{sx32, s64}
use n64modern_runtime.MipsInterp.Opcodes.{op_field, rs_field, rt_field}

pub data BranchOp : Type 0 where
  bltz bgez bltzl bgezl bltzal bgezal beq bne blez bgtz beql bnel blezl bgtzl : BranchOp

-- The opcode, and the field `rt`: REGIMM branches have their function there, BLEZ and BGTZ zero.
abbrev pub opcode_of : BranchOp → ℕ
opcode_of beq = 4
opcode_of bne = 5
opcode_of blez = 6
opcode_of bgtz = 7
opcode_of beql = 20
opcode_of bnel = 21
opcode_of blezl = 22
opcode_of bgtzl = 23
opcode_of _ = 1

abbrev pub second_field : BranchOp → (rt : ℕ) → ℕ
second_field bltz rt = 0
second_field bgez rt = 1
second_field bltzl rt = 2
second_field bgezl rt = 3
second_field bltzal rt = 16
second_field bgezal rt = 17
second_field beq rt = rt
second_field bne rt = rt
second_field beql rt = rt
second_field bnel rt = rt
second_field _ rt = 0

abbrev word_of : (opcode rs second offset : ℕ) → ℕ
word_of opcode rs second offset = opcode * 2 ^ 26 + rs * 2 ^ 21 + second * 2 ^ 16 + offset

abbrev pub encoded : BranchOp → (rs rt offset : ℕ) → ℕ
encoded op rs rt offset = word_of (opcode_of op) rs (second_field op rt) offset

-- Whether the branch is taken, of two registers: the order is that of the signed values.
abbrev pub holds : BranchOp → (a b : ℕ) → Bool
holds bltz a b = ltb_ℤ (s64 a) (pos 0)
holds bltzl a b = ltb_ℤ (s64 a) (pos 0)
holds bltzal a b = ltb_ℤ (s64 a) (pos 0)
holds bgez a b = leb_ℤ (pos 0) (s64 a)
holds bgezl a b = leb_ℤ (pos 0) (s64 a)
holds bgezal a b = leb_ℤ (pos 0) (s64 a)
holds beq a b = a == b
holds beql a b = a == b
holds bne a b = not (a == b)
holds bnel a b = not (a == b)
holds blez a b = leb_ℤ (s64 a) (pos 0)
holds blezl a b = leb_ℤ (s64 a) (pos 0)
holds bgtz a b = ltb_ℤ (pos 0) (s64 a)
holds bgtzl a b = ltb_ℤ (pos 0) (s64 a)

abbrev pub is_likely : BranchOp → Bool
is_likely bltzl = true
is_likely bgezl = true
is_likely beql = true
is_likely bnel = true
is_likely blezl = true
is_likely bgtzl = true
is_likely _ = false

abbrev pub links : BranchOp → Bool
links bltzal = true
links bgezal = true
links _ = false

-- The signed 16-bit offset counts instructions from the delay slot.
abbrev pub destination : (pc offset : ℕ) → ℕ
destination pc offset =
    if ltb offset 0x8000
    then (pc + 4 + offset * 4) % 2 ^ 32
    else (pc + 4 + 2 ^ 32 - (0x10000 - offset) * 4) % 2 ^ 32

op_field-word_of :
    (op rs x i : ℕ) → rs < 32 → x < 32 → i < 2 ^ 16 → op_field (word_of op rs x i) ≡ op
op_field-word_of op rs x i h k l = omega (arith, h, k, l)

rs_field-word_of :
    (op rs x i : ℕ) → rs < 32 → x < 32 → i < 2 ^ 16 → rs_field (word_of op rs x i) ≡ rs
rs_field-word_of op rs x i h k l = omega (arith, h, k, l)

rt_field-word_of : (op rs x i : ℕ) → x < 32 → i < 2 ^ 16 → rt_field (word_of op rs x i) ≡ x
rt_field-word_of op rs x i k l = omega (arith, k, l)

offset-word_of : (op rs x i : ℕ) → i < 2 ^ 16 → word_of op rs x i % 2 ^ 16 ≡ i
offset-word_of op rs x i l = omega (arith, l)

second_field_bounds : (op : BranchOp) (rt : ℕ) → rt < 32 → second_field op rt < 32
second_field_bounds beq rt h = h
second_field_bounds bne rt h = h
second_field_bounds beql rt h = h
second_field_bounds bnel rt h = h
second_field_bounds bltzal rt h = omega arith
second_field_bounds bgezal rt h = omega arith
second_field_bounds _ rt h = omega arith

branch_target_lem : (pc insn : ℕ) → branch_target pc insn ≡ destination pc (insn % 2 ^ 16)
branch_target_lem pc insn = elim (Bool-cases (ltb (insn % 2 ^ 16) 0x8000)) [
  | inl e ↦ rw (e) (omega (arith, ltb→lt (insn % 2 ^ 16) 0x8000 e))
  | inr e ↦ rw (e) (omega (arith, ltb-false (insn % 2 ^ 16) 0x8000 e))
]

opcode_of-is_branch : (op : BranchOp) → is_branch (opcode_of op) ≡ true
opcode_of-is_branch beq = refl
opcode_of-is_branch _ = refl

not-ltb : (x y : ℕ) → not (ltb x y) ≡ leb y x
not-ltb x y = ground arith

not_negative : (z : ℤ) → not (ltb_ℤ z (pos 0)) ≡ leb_ℤ (pos 0) z
not_negative z = not-ltb _ _

not_positive : (z : ℤ) → not (ltb_ℤ (pos 0) z) ≡ leb_ℤ z (pos 0)
not_positive z = not-ltb _ _

-- The switch decodes every encoding.
branch_of-encoded :
    (op : BranchOp) (rt a b : ℕ)
    → branch_of (opcode_of op) (second_field op rt) a b
      ≡ some (branch (holds op a b) (is_likely op) (links op))
unfolding branch_of
branch_of-encoded bgez rt a b = rw (not_negative (s64 a)) refl
branch_of-encoded bgezl rt a b = rw (not_negative (s64 a)) refl
branch_of-encoded bgezal rt a b = rw (not_negative (s64 a)) refl
branch_of-encoded blez rt a b = rw (not_positive (s64 a)) refl
branch_of-encoded blezl rt a b = rw (not_positive (s64 a)) refl
branch_of-encoded _ rt a b = refl

module _ {P : Platform} (X : Runtime P) where
  -- The machine after the branch itself: a linking one puts the address behind its delay slot into
  -- register 31, whether it is taken or not.
  abbrev pub after_branch : BranchOp → Machine P → ℕ → Machine P
  after_branch op m pc = if links op then set_r m 31 (sx32 (pc + 8)) else m

  -- The round: the delay slot, then the destination or the instruction behind the delay slot.
  abbrev pub branched :
      BranchOp → (is_taken : Bool) → (pc offset : ℕ) → Machine P → Round (Machine P)
  branched op is_taken pc offset m =
      let next = if is_taken then destination pc offset else u32 (pc + 8) in
      if is_likely op && not is_taken
      then continue_at next m
      else after X m (exec_noncontrol m (ifetch X m (u32 (pc + 4)))) (continue_at next)

  branch_parts :
      (taken likely link : Bool) (pc target : ℕ) (m : Machine P)
      → let m' = if link then set_r m 31 (sx32 (pc + 8)) else m in
        let next = if taken then target else u32 (pc + 8) in
        take_branch X (branch taken likely link) m pc target ≡ (
          if likely && not taken
          then continue_at next m'
          else after X m' (exec_noncontrol m' (ifetch X m' (u32 (pc + 4)))) (continue_at next))
  unfolding take_branch delay_slot
  branch_parts true true link pc target m = refl
  branch_parts true false link pc target m = refl
  branch_parts false true link pc target m = refl
  branch_parts false false link pc target m = refl

  -- At an aligned address that holds the encoding of a branch on registers (BLTZ, BGEZ, BEQ, BNE,
  -- BLEZ, BGTZ, their likely and their linking forms), with two registers and a 16-bit offset, the
  -- loop goes on at the destination when the signed values of the registers fulfil the condition of
  -- that branch, and 8 bytes on otherwise; the destination is the signed offset in words from the
  -- delay slot. The delay slot runs first, in a machine that has the return address for a linking
  -- branch, and the round ends as the slot does when that is no instruction to execute. A likely
  -- branch that is not taken skips the delay slot, whatever stands there.
  pub one_round-branch :
      (op : BranchOp) (t pc rs rt offset : ℕ) (m : Machine P)
      → rs < 32
      → rt < 32
      → offset < 2 ^ 16
      → pc % 4 ≡ 0
      → ifetch X m pc ≡ encoded op rs rt offset
      → one_round X m t pc
        ≡ branched op
            (holds op (m.r rs) (m.r (second_field op rt)))
            pc
            offset
            (after_branch op m pc)
  one_round-branch op t pc rs rt offset m hs ht ho al e =
      let second = second_field op rt in
      let hx = second_field_bounds op rt ht in
      let word = ifetch X m pc in
      let is_op = ap op_field e ∙ op_field-word_of (opcode_of op) rs second offset hs hx ho in
      let is_rs = ap rs_field e ∙ rs_field-word_of (opcode_of op) rs second offset hs hx ho in
      let is_rt = ap rt_field e ∙ rt_field-word_of (opcode_of op) rs second offset hx ho in
      let is_offset =
        ap (λ (z : ℕ). z % 2 ^ 16) e ∙ offset-word_of (opcode_of op) rs second offset ho in
      let taken = holds op (m.r rs) (m.r second) in
      branch_round X t pc m (branch taken (is_likely op) (links op)) al
        (rw (is_op) (opcode_of-is_branch op))
        (rw (is_op, is_rt, is_rs) (branch_of-encoded op rt (m.r rs) (m.r second)))
      ∙ ap (λ (z : ℕ). take_branch X (branch taken (is_likely op) (links op)) m pc z)
          (branch_target_lem pc word ∙ ap (destination pc) is_offset)
      ∙ branch_parts taken (is_likely op) (links op) pc (destination pc offset) m
