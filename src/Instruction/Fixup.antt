-- ===== src/Instruction/Fixup.antt =====
-- `fixupInstruction` of src/gtirb_pprinter/PrettyPrinter.cpp, run twice.
use gtirb_pprinter.Prelude.{
  ℕ, zero, suc, ◌==◌, if◌then◌else◌, Bool, true, false, not, ◌&&◌, ◌||◌, List, [], ◌∷◌, ◌≡◌, inl,
  inr, refl, ap, arith, Bool-cases,
}
use gtirb_pprinter.Prelude.Int.{to_int32_idem}
use gtirb_pprinter.Capstone.{Capstone, Insn, X86Op}
use gtirb_pprinter.Instruction.{
  modify, is_movs, is_stos, fix_movs, fix_stos, fix_imul, fix_endbr64, fix_fxch, fix_comisd,
  sign_extend, first_from_second, half_size, fixup_instruction,
}

modify_twice :
    (f : X86Op → X86Op)
    → ((o : X86Op) → f (f o) ≡ f o)
    → (i : ℕ) (os : List X86Op) → modify f i (modify f i os) ≡ modify f i os
modify_twice f h i [] = refl
modify_twice f h zero (o ∷ os) = rw (h o) refl
modify_twice f h (suc i) (o ∷ os) = ap (λ r. o ∷ r) (modify_twice f h i os)

half_size_twice : (cs : Capstone) (o : X86Op) → half_size cs (half_size cs o) ≡ half_size cs o
half_size_twice cs o = ground arith

sign_extend_twice :
    (cs : Capstone) (o : X86Op) → sign_extend cs (sign_extend cs o) ≡ sign_extend cs o
sign_extend_twice cs o = rw (to_int32_idem o.imm) refl

-- the fixes of the operands, by which of them apply
settle : Capstone → Bool → Bool → Bool → Bool → Bool → ℕ → List X86Op → ℕ × List X86Op
settle cs movs stos imul fxch comisd n os =
    let n1 = if movs then 0 else n in
    let n2 = if stos then 1 else n1 in
    let os1 = if imul && n2 == 3 then modify (sign_extend cs) 2 os else os in
    let swap = fxch && n2 == 2 in
    let n3 = if swap then 1 else n2 in
    let os2 = if swap then first_from_second cs os1 else os1 in
    (n3, if comisd && n3 == 2 then modify (half_size cs) 1 os2 else os2)

settle_twice :
    (cs : Capstone) (movs stos imul fxch comisd : Bool) (n : ℕ) (os : List X86Op)
    → settle cs movs stos imul fxch comisd
        (settle cs movs stos imul fxch comisd n os).0
        (settle cs movs stos imul fxch comisd n os).1
      ≡ settle cs movs stos imul fxch comisd n os
unfolding settle
settle_twice cs movs stos imul fxch comisd n os = ground (
  arith,
  modify_twice (sign_extend cs) (sign_extend_twice cs) 2 os,
  modify_twice (half_size cs) (half_size_twice cs) 1 os,
)

settled : Capstone → Insn → Insn
settled cs i =
    let r =
      settle cs (is_movs cs i.id && not (i.first_group == cs.grp_sse2)) (is_stos cs i.id)
        (i.id == cs.imul) (i.id == cs.fxch) (i.id == cs.comisd) i.x86.op_count i.x86.operands in
    record i { x86 = record i.x86 { op_count = r.0; operands = r.1 } }

other_id :
    (cs : Capstone) (i : Insn)
    → (i.id == cs.endbr64) ≡ false
    → fixup_instruction cs i ≡ settled cs i
unfolding settled settle fixup_instruction fix_movs fix_stos fix_imul fix_endbr64 fix_fxch
    fix_comisd
other_id cs i h = ground (arith, h)

settled_twice : (cs : Capstone) (i : Insn) → settled cs (settled cs i) ≡ settled cs i
unfolding settled
settled_twice cs i =
    ap (λ r. record i { x86 = record i.x86 { op_count = r.0; operands = r.1 } })
      (settle_twice cs (is_movs cs i.id && not (i.first_group == cs.grp_sse2)) (is_stos cs i.id)
        (i.id == cs.imul) (i.id == cs.fxch) (i.id == cs.comisd) i.x86.op_count i.x86.operands)

settled_id : (cs : Capstone) (i : Insn) → (settled cs i).id ≡ i.id
unfolding settled
settled_id cs i = refl

-- whether some fix is meant for the instruction of this number
abbrev pub has_fix : Capstone → ℕ → Bool
has_fix cs id =
    is_movs cs id
    || is_stos cs id
    || id == cs.imul
    || id == cs.endbr64
    || id == cs.fxch
    || id == cs.comisd

no_fix : (cs : Capstone) (i : Insn) → has_fix cs i.id ≡ false → fixup_instruction cs i ≡ i
unfolding fixup_instruction fix_movs fix_stos fix_imul fix_endbr64 fix_fxch fix_comisd
no_fix cs i h = ground (arith, h)

becomes_nop :
    (cs : Capstone) (i : Insn) → (i.id == cs.endbr64) ≡ true → (fixup_instruction cs i).id ≡ cs.nop
unfolding fixup_instruction fix_movs fix_stos fix_imul fix_endbr64 fix_fxch fix_comisd
becomes_nop cs i h = ground (arith, h)

-- If Capstone's number for NOP is not the number of an instruction with a fix, then an instruction that
-- has been fixed up is not changed by fixing it up again.
fixup_instruction_idem :
    (cs : Capstone) (i : Insn)
    → has_fix cs cs.nop ≡ false
    → fixup_instruction cs (fixup_instruction cs i) ≡ fixup_instruction cs i
fixup_instruction_idem cs i h = elim (Bool-cases (i.id == cs.endbr64)) [
  | inl e ↦ no_fix cs (fixup_instruction cs i) (rw (becomes_nop cs i e) h)
  | inr e ↦
      rw (other_id cs i e, other_id cs (settled cs i) (rw (settled_id cs i) e)) (settled_twice cs i)
]

module _ (cs : Capstone) (i : Insn) where
  address-fix_movs : (fix_movs cs i).address ≡ i.address
  unfolding fix_movs
  address-fix_movs = ground arith

  address-fix_stos : (fix_stos cs i).address ≡ i.address
  unfolding fix_stos
  address-fix_stos = ground arith

  address-fix_imul : (fix_imul cs i).address ≡ i.address
  unfolding fix_imul
  address-fix_imul = ground arith

  address-fix_endbr64 : (fix_endbr64 cs i).address ≡ i.address
  unfolding fix_endbr64
  address-fix_endbr64 = ground arith

  address-fix_fxch : (fix_fxch cs i).address ≡ i.address
  unfolding fix_fxch
  address-fix_fxch = ground arith

  address-fix_comisd : (fix_comisd cs i).address ≡ i.address
  unfolding fix_comisd
  address-fix_comisd = ground arith

pub address-fixup_instruction :
    (cs : Capstone) (i : Insn) → (fixup_instruction cs i).address ≡ i.address
unfolding fixup_instruction
address-fixup_instruction cs i =
    rw
      (
        address-fix_comisd cs,
        address-fix_fxch cs,
        address-fix_endbr64 cs,
        address-fix_imul cs,
        address-fix_stos cs,
        address-fix_movs cs,
      )
      refl
