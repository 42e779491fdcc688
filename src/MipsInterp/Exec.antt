-- ===== src/MipsInterp/Exec.antt =====
-- librecomp/src/mips_interp.cpp: `exec_noncontrol`, one instruction that is no branch and no jump.
use n64modern_runtime.Base.{ℕ, Option, none, some, ◌==◌, if◌then◌else◌}
use n64modern_runtime.Base.Bits.{u8, u16, u32}
use n64modern_runtime.MipsInterp.Words.{u64, sx8, sx16, sx32}
use n64modern_runtime.MipsInterp.Opcodes.{
  op_field, rs_field, rt_field, rd_field, sa_field, Special, Load, Store, Opcode, case_of,
  opcode_cases, special_function, multu, div, divu, nothing, movz, alu, movn, mult, mtlo, mthi, lwl,
  lwu, lwr, ldl, ld, ldr, lw, ll, lhu, lh, lb, lbu, sw, sh, swl, sd, swr, sdr, sb, sdl, load,
  immediate, cop_1, special, lwc1, cache, store, swc1, sdc1, sc, ldc1, cop_0,
}
use n64modern_runtime.MipsInterp.Machine.{Platform, Machine, set_r, u32l, set_u32l, set_u64}
use n64modern_runtime.MipsInterp.Alu.{
  alu_value, mult_value, multu_value, Quotient, div_value, divu_value, imm_value, quotient,
  untouched, undefined_quotient,
}
use n64modern_runtime.MipsInterp.Cop1.{exec_cop1}

-- `unimplemented` is the `false` that the function returns with the machine as it was;
-- `undefined`: C++ gives the instruction no meaning.
pub data Executed {ℓ} (A : Type ℓ) : Type ℓ where
  executed : A → Executed A
  unimplemented undefined : Executed A

module _ (P : Platform) where
  -- `a` is the address register's value, `old` the target's, `o` the offset `simm`.
  unfoldable pub load_value : Load → P.Mem → (old o a : ℕ) → ℕ
  load_value lb mem old o a = sx8 (P.mem_b mem o a)
  load_value lh mem old o a = sx16 (P.mem_h mem o a)
  load_value lw mem old o a = sx32 (P.mem_w mem o a)
  load_value lbu mem old o a = u8 (P.mem_bu mem o a)
  load_value lhu mem old o a = u16 (P.mem_hu mem o a)
  load_value lwu mem old o a = u32 (P.mem_wu mem o a)
  load_value ld mem old o a = u64 (P.load_doubleword mem a o)
  load_value lwl mem old o a = u64 (P.do_lwl mem old o a)
  load_value lwr mem old o a = u64 (P.do_lwr mem old o a)
  load_value ldl mem old o a = u64 (P.do_ldl mem old o a)
  load_value ldr mem old o a = u64 (P.do_ldr mem old o a)
  load_value ll mem old o a = sx32 (P.mem_w mem o a)

  unfoldable pub store_value : Store → P.Mem → (v o a : ℕ) → P.Mem
  store_value sb mem v o a = P.set_mem_b mem o a (u8 v)
  store_value sh mem v o a = P.set_mem_h mem o a (u16 v)
  store_value sw mem v o a = P.set_mem_w mem o a (u32 v)
  store_value sd mem v o a = P.set_doubleword mem o a v
  store_value swl mem v o a = P.do_swl mem o a v
  store_value swr mem v o a = P.do_swr mem o a v
  store_value sdl mem v o a = P.do_sdl mem o a v
  store_value sdr mem v o a = P.do_sdr mem o a v

module _ {P : Platform} where
  abbrev pub from_option : Option (Machine P) → Executed (Machine P)
  from_option (some m) = executed m
  from_option none = unimplemented

  abbrev pub set_hi_lo : Machine P → ℕ × ℕ → Machine P
  set_hi_lo m (hi, lo) = record m { hi = hi; lo = lo }

  abbrev pub divide : Machine P → Quotient → Executed (Machine P)
  divide m untouched = executed m
  divide m undefined_quotient = undefined
  divide m (quotient hi lo) = executed (set_hi_lo m (hi, lo))

  -- A SPECIAL function, by its fields: `s` and `t` are numbers of registers.
  unfoldable pub exec_special : Special → Machine P → (rd sa s t : ℕ) → Executed (Machine P)
  exec_special (alu o) m rd sa s t =
      executed (set_r m rd (alu_value o sa (m.r s) (m.r t) m.hi m.lo))
  exec_special mthi m rd sa s t = executed (record m { hi = m.r s })
  exec_special mtlo m rd sa s t = executed (record m { lo = m.r s })
  exec_special mult m rd sa s t = executed (set_hi_lo m (mult_value (m.r s) (m.r t)))
  exec_special multu m rd sa s t = executed (set_hi_lo m (multu_value (m.r s) (m.r t)))
  exec_special div m rd sa s t = divide m (div_value (m.r s) (m.r t))
  exec_special divu m rd sa s t = divide m (divu_value (m.r s) (m.r t))
  exec_special movn m rd sa s t = executed (if m.r t == 0 then m else set_r m rd (m.r s))
  exec_special movz m rd sa s t = executed (if m.r t == 0 then set_r m rd (m.r s) else m)
  exec_special nothing m rd sa s t = executed m

  unfoldable pub special_case : Option Special → Machine P → ℕ → Executed (Machine P)
  special_case (some o) m insn =
      exec_special o m (rd_field insn) (sa_field insn) (rs_field insn) (rt_field insn)
  special_case none m insn = unimplemented

  unfoldable pub exec_opcode : Opcode → Machine P → ℕ → Executed (Machine P)
  exec_opcode special m insn = special_case (special_function insn) m insn
  exec_opcode (immediate o) m insn =
      executed (set_r m (rt_field insn) (imm_value o (m.r (rs_field insn)) insn))
  exec_opcode (load o) m insn =
      let rt = rt_field insn in
      executed (set_r m rt (load_value P o m.mem (m.r rt) (sx16 insn) (m.r (rs_field insn))))
  exec_opcode (store o) m insn = executed (record m {
    mem = store_value P o m.mem (m.r (rt_field insn)) (sx16 insn) (m.r (rs_field insn));
  })
  exec_opcode sc m insn =
      let rt = rt_field insn in
      let a = m.r (rs_field insn) in
      executed (set_r (record m { mem = P.set_mem_w m.mem (sx16 insn) a (u32 (m.r rt)) }) rt 1)
  exec_opcode lwc1 m insn =
      executed (set_u32l m (rt_field insn) (P.mem_wu m.mem (sx16 insn) (m.r (rs_field insn))))
  exec_opcode ldc1 m insn =
      executed
        (set_u64 m (rt_field insn) (P.load_doubleword m.mem (m.r (rs_field insn)) (sx16 insn)))
  exec_opcode swc1 m insn =
      let v = u32l m (rt_field insn) in
      executed (record m { mem = P.set_mem_w m.mem (sx16 insn) (m.r (rs_field insn)) v })
  exec_opcode sdc1 m insn =
      let v = m.f (rt_field insn) in
      executed (record m { mem = P.set_doubleword m.mem (sx16 insn) (m.r (rs_field insn)) v })
  exec_opcode cop_1 m insn = from_option (exec_cop1 m insn)
  exec_opcode cache m insn = executed m
  exec_opcode cop_0 m insn = executed m

  unfoldable pub opcode_case : Option Opcode → Machine P → ℕ → Executed (Machine P)
  opcode_case (some o) m insn = exec_opcode o m insn
  opcode_case none m insn = unimplemented

  unfoldable pub exec_noncontrol : Machine P → ℕ → Executed (Machine P)
  exec_noncontrol m insn = opcode_case (case_of (op_field insn) opcode_cases) m insn
