-- ===== src/Instruction/Decoded.antt =====
-- The operand array of an instruction and its count under `fixupInstruction` of
-- src/gtirb_pprinter/PrettyPrinter.cpp.
use gtirb_pprinter.Prelude.{
  ℕ, zero, suc, ◌==◌, false, ◌&&◌, List, [], ◌∷◌, ◌≡◌, ◌≢◌, ◌⊎◌, inl, inr, refl, arith, Bool-cases,
}
use gtirb_pprinter.Capstone.{Capstone, X86Op, X86OpType, Insn}
use gtirb_pprinter.Instruction.{
  modify, is_stos, fix_movs, fix_stos, fix_imul, fix_endbr64, fix_fxch, fix_comisd, sign_extend,
  first_from_second, half_size, fixup_instruction,
}

-- the first `n` operands are there, and their types are known
abbrev pub HasOperands : ℕ → List X86Op → Type 0
HasOperands zero os = Unit
HasOperands (suc n) [] = ⊥
HasOperands (suc n) (o ∷ os) = (o.kind ≢ X86OpType.invalid) × HasOperands n os

-- a change of the operands that keeps their types
abbrev KeepsKind : (X86Op → X86Op) → Type 0
KeepsKind f = (o : X86Op) → (f o).kind ≡ o.kind

modify-HasOperands :
    (f : X86Op → X86Op) (index n : ℕ) (os : List X86Op)
    → KeepsKind f
    → HasOperands n os
    → HasOperands n (modify f index os)
modify-HasOperands f index zero os k h = tt
modify-HasOperands f index (suc n) [] k h = h
modify-HasOperands f zero (suc n) (o ∷ os) k (h, hs) = (ground (arith, k o), hs)
modify-HasOperands f (suc index) (suc n) (o ∷ os) k (h, hs) =
    (h, modify-HasOperands f index n os k hs)

half_size-KeepsKind : (cs : Capstone) → KeepsKind (half_size cs)
half_size-KeepsKind cs o = ground arith

first-HasOperands :
    (cs : Capstone) (os : List X86Op) → HasOperands 2 os → HasOperands 1 (first_from_second cs os)
first-HasOperands cs [] h = h
first-HasOperands cs (o ∷ []) (h, hs) = absurd hs
first-HasOperands cs (o ∷ q ∷ os) (h, (k, _)) = (k, tt)

-- The count does not go beyond the array, and no operand that it counts is of an invalid type.
abbrev pub IsX86 : Insn → Type 0
IsX86 i = HasOperands i.x86.op_count i.x86.operands

module _ (cs : Capstone) where
  movs : (i : Insn) → IsX86 i → IsX86 (fix_movs cs i)
  unfolding fix_movs
  movs i h = ground arith

  stos :
      (i : Insn)
      → IsX86 i
      → (is_stos cs i.id ≡ false) ⊎ HasOperands 1 i.x86.operands
      → IsX86 (fix_stos cs (fix_movs cs i))
  unfolding fix_stos fix_movs
  stos i h (inl n) = ground arith
  stos i h (inr n) = ground arith

  imul : (i : Insn) → IsX86 i → IsX86 (fix_imul cs i)
  unfolding fix_imul
  imul i h =
      ground
        (arith, modify-HasOperands (sign_extend cs) 2 i.x86.op_count i.x86.operands (λ o. refl) h)

  endbr64 : (i : Insn) → IsX86 i → IsX86 (fix_endbr64 cs i)
  unfolding fix_endbr64
  endbr64 i h = ground arith

  fxch : (i : Insn) → IsX86 i → IsX86 (fix_fxch cs i)
  unfolding fix_fxch
  fxch i h = elim (Bool-cases (i.id == cs.fxch && i.x86.op_count == 2)) [
    | inr e ↦ rw (e, fix_fxch) h
    | inl e ↦
        let n : i.x86.op_count ≡ 2 = ground arith in
        rw (e, fix_fxch) (first-HasOperands cs i.x86.operands (rw n at h))
  ]

  comisd : (i : Insn) → IsX86 i → IsX86 (fix_comisd cs i)
  unfolding fix_comisd
  comisd i h = ground (
    arith,
    modify-HasOperands (half_size cs) 1 i.x86.op_count i.x86.operands (half_size-KeepsKind cs) h,
  )

  -- `fixupInstruction` keeps the operand count within the array and keeps invalid operands out, if an
  -- instruction of the STOS family has at least one operand.
  pub fixup_instruction-IsX86 :
      (i : Insn)
      → IsX86 i
      → (is_stos cs i.id ≡ false) ⊎ HasOperands 1 i.x86.operands
      → IsX86 (fixup_instruction cs i)
  unfolding fixup_instruction
  fixup_instruction-IsX86 i h s =
      let j = fix_stos cs (fix_movs cs i) in
      comisd (fix_fxch cs (fix_endbr64 cs (fix_imul cs j)))
        (fxch (fix_endbr64 cs (fix_imul cs j)) (endbr64 (fix_imul cs j) (imul j (stos i h s))))

  pub fixup_instruction-arm64 : (i : Insn) → (fixup_instruction cs i).arm64 ≡ i.arm64
  unfolding fixup_instruction fix_movs fix_stos fix_imul fix_endbr64 fix_fxch fix_comisd
  fixup_instruction-arm64 i = ground arith
