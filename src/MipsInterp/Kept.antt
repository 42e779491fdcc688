-- ===== src/MipsInterp/Kept.antt =====
-- Every instruction that `exec_noncontrol` implements keeps the machine well formed.
use n64modern_runtime.Base.{ℕ, Bool, ◌||◌, Option, none, some, arith, leb, ◌==◌, if_cases}
use n64modern_runtime.MipsInterp.Invariant.{
  IsWellFormed, InExecuted, InOption, Wf, set_r-Wf, set_u32l-Wf, set_u64-Wf, beside-Wf, hi_lo-Wf,
}
use n64modern_runtime.MipsInterp.Bounds.{
  sx32-Fits, alu_value-Fits, imm_value-Fits, load_value-Fits, QuotientFits, div_value-QuotientFits,
  divu_value-QuotientFits,
}
use n64modern_runtime.MipsInterp.Exec.{
  from_option, divide, exec_special, special_case, exec_opcode, opcode_case, exec_noncontrol,
}
use n64modern_runtime.MipsInterp.Cop1.{
  FloatFunction, float_cases, float_function, compare_function, compute_case, exec_cop1, cvt_w,
  cvt_d, cvt_s, binary, unary, rounded, mov,
}
use n64modern_runtime.MipsInterp.Alu.{
  Quotient, div_value, divu_value, untouched, quotient, undefined_quotient,
}
use n64modern_runtime.MipsInterp.Machine.{Platform, Machine}
use n64modern_runtime.MipsInterp.Opcodes.{
  op_field, rs_field, rt_field, rd_field, fn_field, Special, Opcode, case_of, opcode_cases,
  special_function, mtlo, multu, div, divu, movz, mthi, mult, alu, movn, nothing, cop_0, cache,
  store, lwc1, swc1, ldc1, sdc1, cop_1, load, special, sc, immediate,
}

module _ {P : Platform} where
  quotient-Wf : (m : Machine P) (q : Quotient) → QuotientFits q → Wf m → InExecuted Wf (divide m q)
  quotient-Wf m untouched h w = w
  quotient-Wf m undefined_quotient h w = tt
  quotient-Wf m (quotient hi lo) (p, q) w = hi_lo-Wf m hi lo p q w

  exec_special-Wf :
      (o : Special) (m : Machine P) (rd sa s t : ℕ)
      → Wf m
      → InExecuted Wf (exec_special o m rd sa s t)
  unfolding exec_special
  exec_special-Wf (alu o) m rd sa s t w =
      set_r-Wf m rd _
        (alu_value-Fits o sa (m.r s) (m.r t) m.hi m.lo (w.r_fits s) (w.r_fits t) w.hi_fits
          w.lo_fits)
        w
  exec_special-Wf mthi m rd sa s t w = hi_lo-Wf m (m.r s) m.lo (w.r_fits s) w.lo_fits w
  exec_special-Wf mtlo m rd sa s t w = hi_lo-Wf m m.hi (m.r s) w.hi_fits (w.r_fits s) w
  exec_special-Wf mult m rd sa s t w = hi_lo-Wf m _ _ (sx32-Fits _) (sx32-Fits _) w
  exec_special-Wf multu m rd sa s t w = hi_lo-Wf m _ _ (sx32-Fits _) (sx32-Fits _) w
  exec_special-Wf div m rd sa s t w =
      quotient-Wf m (div_value (m.r s) (m.r t)) (div_value-QuotientFits (m.r s) (m.r t)) w
  exec_special-Wf divu m rd sa s t w =
      quotient-Wf m (divu_value (m.r s) (m.r t)) (divu_value-QuotientFits (m.r s) (m.r t)) w
  exec_special-Wf movn m rd sa s t w =
      if_cases Wf (m.r t == 0) (λ _. w) (λ _. set_r-Wf m rd (m.r s) (w.r_fits s) w)
  exec_special-Wf movz m rd sa s t w =
      if_cases Wf (m.r t == 0) (λ _. set_r-Wf m rd (m.r s) (w.r_fits s) w) (λ _. w)
  exec_special-Wf nothing m rd sa s t w = w

  float_function-Wf :
      (o : FloatFunction) (m : Machine P) (dbl from_w : Bool) (ft fs fd : ℕ)
      → Wf m
      → Wf (float_function o m dbl from_w ft fs fd)
  unfolding float_function
  float_function-Wf (binary o) m dbl from_w ft fs fd w =
      if_cases Wf dbl (λ _. set_u64-Wf m fd _ w) (λ _. set_u32l-Wf m fd _ w)
  float_function-Wf (unary o) m dbl from_w ft fs fd w =
      if_cases Wf dbl (λ _. set_u64-Wf m fd _ w) (λ _. set_u32l-Wf m fd _ w)
  float_function-Wf (rounded o) m dbl from_w ft fs fd w = set_u32l-Wf m fd _ w
  float_function-Wf mov m dbl from_w ft fs fd w =
      if_cases Wf dbl (λ _. set_u64-Wf m fd _ w) (λ _. set_u32l-Wf m fd _ w)
  float_function-Wf cvt_s m dbl from_w ft fs fd w = set_u32l-Wf m fd _ w
  float_function-Wf cvt_d m dbl from_w ft fs fd w = set_u64-Wf m fd _ w
  float_function-Wf cvt_w m dbl from_w ft fs fd w = set_u32l-Wf m fd _ w

  compute-Wf :
      (o : Option FloatFunction) (m : Machine P) (fmt insn : ℕ)
      → Wf m
      → InOption Wf (compute_case o m fmt insn)
  unfolding compute_case compare_function
  compute-Wf (some o) m fmt insn w = float_function-Wf o m _ _ _ _ _ w
  compute-Wf none m fmt insn w =
      if_cases (InOption Wf) (leb 0x30 (fn_field insn)) (λ _. beside-Wf m _ m.mem m.host w)
        (λ _. tt)

  exec_cop1-Wf : (m : Machine P) (insn : ℕ) → Wf m → InOption Wf (exec_cop1 m insn)
  unfolding exec_cop1
  exec_cop1-Wf m insn w =
      let Q = InOption Wf in
      let fmt = rs_field insn in
      let rt = rt_field insn in
      let fs = rd_field insn in
      if_cases Q (fmt == 0x00) (λ _. set_r-Wf m rt _ (sx32-Fits _) w)
        λ _.
          if_cases Q (fmt == 0x01) (λ _. set_r-Wf m rt _ (w.f_fits fs) w)
            λ _.
              if_cases Q (fmt == 0x02) (λ _. set_r-Wf m rt _ (sx32-Fits _) w)
                λ _.
                  if_cases Q (fmt == 0x04) (λ _. set_u32l-Wf m fs _ w)
                    λ _.
                      if_cases Q (fmt == 0x05) (λ _. set_u64-Wf m fs _ w)
                        λ _.
                          if_cases Q (fmt == 0x06) (λ _. w)
                            λ _.
                              if_cases Q
                                ((fmt == 0x10) || (fmt == 0x11) || (fmt == 0x14) || (fmt == 0x15))
                                (λ _. compute-Wf (case_of (fn_field insn) float_cases) m fmt insn w)
                                (λ _. tt)

  special_case-Wf :
      (o : Option Special) (m : Machine P) (insn : ℕ) → Wf m → InExecuted Wf (special_case o m insn)
  unfolding special_case
  special_case-Wf (some o) m insn w = exec_special-Wf o m _ _ _ _ w
  special_case-Wf none m insn w = tt

  from_option-Wf : (o : Option (Machine P)) → InOption Wf o → InExecuted Wf (from_option o)
  from_option-Wf (some m) w = w
  from_option-Wf none w = tt

  exec_opcode-Wf :
      (o : Opcode) (m : Machine P) (insn : ℕ) → Wf m → InExecuted Wf (exec_opcode o m insn)
  unfolding exec_opcode
  exec_opcode-Wf special m insn w = special_case-Wf (special_function insn) m insn w
  exec_opcode-Wf (immediate o) m insn w =
      set_r-Wf m _ _ (imm_value-Fits o _ insn (w.r_fits (rs_field insn))) w
  exec_opcode-Wf (load o) m insn w = set_r-Wf m _ _ (load_value-Fits P o m.mem _ _ _) w
  exec_opcode-Wf (store o) m insn w = beside-Wf m m.cop0 _ m.host w
  exec_opcode-Wf sc m insn w =
      set_r-Wf _ (rt_field insn) 1 (omega arith) (beside-Wf m m.cop0 _ m.host w)
  exec_opcode-Wf lwc1 m insn w = set_u32l-Wf m _ _ w
  exec_opcode-Wf ldc1 m insn w = set_u64-Wf m _ _ w
  exec_opcode-Wf swc1 m insn w = beside-Wf m m.cop0 _ m.host w
  exec_opcode-Wf sdc1 m insn w = beside-Wf m m.cop0 _ m.host w
  exec_opcode-Wf cop_1 m insn w = from_option-Wf (exec_cop1 m insn) (exec_cop1-Wf m insn w)
  exec_opcode-Wf cache m insn w = w
  exec_opcode-Wf cop_0 m insn w = w

  opcode_case-Wf :
      (o : Option Opcode) (m : Machine P) (insn : ℕ) → Wf m → InExecuted Wf (opcode_case o m insn)
  unfolding opcode_case
  opcode_case-Wf (some o) m insn w = exec_opcode-Wf o m insn w
  opcode_case-Wf none m insn w = tt

  -- An instruction that is no branch and no jump, executed in a well-formed machine, leaves a
  -- well-formed machine: register 0 is zero, and every register fits 64 bits.
  pub exec_noncontrol-IsWellFormed :
      (m : Machine P) (insn : ℕ) → IsWellFormed m → InExecuted IsWellFormed (exec_noncontrol m insn)
  unfolding exec_noncontrol
  exec_noncontrol-IsWellFormed m insn w =
      opcode_case-Wf (case_of (op_field insn) opcode_cases) m insn w
