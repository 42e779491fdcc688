-- ===== src/Tests/Interpreter.antt =====
-- The theorems on the interpreter of MIPS code at concrete programs.
use n64modern_runtime.Base.{
  ℕ, ◌+◌, ◌≡◌, refl, ◌↔◌, false, ◌||◌, none, some, List, [], ◌∷◌, arith, ltb, ◌==◌, if◌then◌else◌,
}
use n64modern_runtime.MipsInterp.Branches.{branched, one_round-branch, bnel}
use n64modern_runtime.MipsInterp.KeptLoop.{recomp_interpret_function-IsWellFormed}
use n64modern_runtime.MipsInterp.Relation.{Interprets, run_iff_Interprets}
use n64modern_runtime.MipsInterp.Frames.{Steps, ReturnsTo, no_step, step}
use n64modern_runtime.MipsInterp.Invariant.{IsWellFormed, InOutcome}
use n64modern_runtime.MipsInterp.Run.{run, recomp_interpret_function, returned}
use n64modern_runtime.MipsInterp.Control.{Runtime, ifetch, one_round}
use n64modern_runtime.MipsInterp.Exec.{exec_opcode, opcode_case, exec_noncontrol}
use n64modern_runtime.MipsInterp.Machine.{Platform, Machine, update, set_r}
use n64modern_runtime.MipsInterp.Alu.{imm_value}
use n64modern_runtime.MipsInterp.Opcodes.{case_of}

-- A memory of words by address; the floats' operations are not reached.
abbrev words : Platform
words = record {
  Mem = ℕ → ℕ;
  Host = List ℕ;
  mem_b = λ m o a. m (o + a);
  mem_h = λ m o a. m (o + a);
  mem_w = λ m o a. m (o + a);
  mem_bu = λ m o a. m (o + a);
  mem_hu = λ m o a. m (o + a);
  mem_wu = λ m o a. m (o + a);
  load_doubleword = λ m a o. m (o + a);
  set_mem_b = λ m o a v. update m (o + a) v;
  set_mem_h = λ m o a v. update m (o + a) v;
  set_mem_w = λ m o a v. update m (o + a) v;
  set_doubleword = λ m o a v. update m (o + a) v;
  do_lwl = λ m old o a. old;
  do_lwr = λ m old o a. m (o + a);
  do_ldl = λ m old o a. old;
  do_ldr = λ m old o a. m (o + a);
  do_swl = λ m o a v. m;
  do_swr = λ m o a v. update m (o + a) v;
  do_sdl = λ m o a v. m;
  do_sdr = λ m o a v. update m (o + a) v;
  binary_s = λ o x y. x;
  binary_d = λ o x y. x;
  unary_s = λ o x. x;
  unary_d = λ o x. x;
  rounding_s = λ o x. x;
  rounding_d = λ o x. x;
  widen = λ x. x;
  narrow = λ x. x;
  int_to_s = λ x. x;
  int_to_d = λ x. x;
  to_int = λ x. x;
  less = ltb;
  equal = λ x y. x == y;
}

-- No function is recompiled; the host is the list of the targets that were noted.
abbrev nothing_native : Runtime words
nothing_native = record {
  lookup_function_or_null = λ h a. none;
  shadow_diff_active = λ h. false;
  shadow_diff_note_native_call = λ h. h;
  capture_interp_target = λ h a. a ∷ h;
}

-- 0x1000: addiu $2, $0, 5; jr $ra; addiu $2, $2, 1
-- 0x2000: jal 0x1000; nop
-- 0x3000: bnel $0, $0, 3
-- 0x4000: jr $ra; jr $ra
abbrev program : ℕ → ℕ
program a =
    if a == 0x1000
    then 0x24020005
    else if a == 0x1004
    then 0x03E00008
    else if a == 0x1008
    then 0x24420001
    else if a == 0x2000
    then 0x0C000400
    else if a == 0x3000
    then 0x54000003
    else if (a == 0x4000) || (a == 0x4004)
    then 0x03E00008
    else 0

abbrev at_entry : Machine words
at_entry = record {
  r = λ i. if i == 31 then 0x9000 else 0;
  f = λ i. 0;
  cop0 = λ i. 0;
  hi = 0;
  lo = 0;
  mem = program;
  host = [];
}

at_entry-IsWellFormed : IsWellFormed at_entry
at_entry-IsWellFormed = record {
  zero_register = refl;
  r_fits = λ i. ground arith;
  f_fits = λ i. omega arith;
  hi_fits = omega arith;
  lo_fits = omega arith;
}

abbrev in_the_middle : Machine words → Machine words
in_the_middle m = set_r m 2 5

abbrev at_the_end : Machine words → Machine words
at_the_end m = set_r (set_r m 2 5) 2 6

add_steps : Steps nothing_native 0x9000 1 0x1000 at_entry 0x1004 (in_the_middle at_entry)
unfolding one_round exec_noncontrol opcode_case exec_opcode imm_value case_of ifetch set_r
add_steps = step refl no_step

add_returns : ReturnsTo nothing_native 0x9000 0x1004 (in_the_middle at_entry) (at_the_end at_entry)
unfolding exec_noncontrol opcode_case exec_opcode imm_value case_of ifetch set_r
add_returns = record {
  is_aligned = refl;
  is_special = refl;
  is_jr = refl;
  target = refl;
  slot = refl;
}

run_iff_Interprets_example :
    ((f : ℕ) × (run nothing_native f 0 0x9000 0x1000 at_entry ≡ returned (at_the_end at_entry)))
    ↔ Interprets nothing_native 0 0x9000 0x1000 at_entry (returned (at_the_end at_entry))
run_iff_Interprets_example =
    run_iff_Interprets nothing_native 0 0x9000 0x1000 at_entry (returned (at_the_end at_entry))
      (λ e. cc)

no_natives :
    (h : List ℕ) (a : ℕ) (nf : Machine words → Machine words)
    → nothing_native.lookup_function_or_null h a ≡ some nf
    → (m : Machine words) → IsWellFormed m
    → IsWellFormed (nf m)
no_natives h a nf e = absurd (ground arith)

recomp_interpret_function-IsWellFormed_example :
    InOutcome IsWellFormed (recomp_interpret_function nothing_native 5 at_entry 0x1000)
recomp_interpret_function-IsWellFormed_example =
    recomp_interpret_function-IsWellFormed nothing_native no_natives 5 0x1000 at_entry
      at_entry-IsWellFormed

one_round-branch_example :
    one_round nothing_native at_entry 0x9000 0x3000
    ≡ branched nothing_native bnel false 0x3000 3 at_entry
unfolding ifetch
one_round-branch_example =
    one_round-branch nothing_native bnel 0x9000 0x3000 0 0 3 at_entry (omega arith) (omega arith)
      (omega arith) refl refl

-- After the `jal` and its delay slot.
abbrev called : Machine words
called = set_r at_entry 31 0x2008
