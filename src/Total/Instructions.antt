-- ===== src/Total/Instructions.antt =====
-- Instructions after `fixupInstruction`.
use gtirb_pprinter.Prelude.{
  ℕ, zero, suc, ◌+◌, ◌≤◌, ◌<◌, ltb, some, List, [], ◌∷◌, get_elem?, ◌≡◌, ◌≢◌, inl, inr, refl, arith,
  Bool-cases,
}
use gtirb_pprinter.Prelude.Result.{Output, Writes}
use gtirb_pprinter.Prelude.Number.{add64}
use gtirb_pprinter.Capstone.{X86Op, X86OpType, Arm64Op, Insn}
use gtirb_pprinter.Gtirb.{Offset}
use gtirb_pprinter.Printer.{Printer, Arch, intel, att, aarch64}
use gtirb_pprinter.Operands.{operand_list}
use gtirb_pprinter.Instruction.{
  fixup_instruction, intel_operand, att_operand, operand_by, print_operand, print_operand_list,
  operand_count, print_instruction, symbolic_at, memory_symbolic,
}
use gtirb_pprinter.Instruction.Decoded.{
  HasOperands, IsX86, fixup_instruction-IsX86, fixup_instruction-arm64,
}
use gtirb_pprinter.Total.{HasArm64Operands, IsArm64Kind, IsDecoded, HasPrefixes, IsPrintable}
use gtirb_pprinter.Total.Names.{definitions-Writes, print_cfi_directives-Writes}
use gtirb_pprinter.Total.Operands.{
  IsSymbolic, head_of-IsSymbolic, Intel_immediate-Writes, Intel_indirect-Writes,
  Att_immediate-Writes, Att_indirect-Writes, AArch64_operand-Writes,
}

operand_at :
    (n k : ℕ) (os : List X86Op)
    → HasOperands n os
    → k < n
    → (o : X86Op) × (get_elem? os k ≡ some o) × (o.kind ≢ X86OpType.invalid)
operand_at zero k os h lt = absurd (omega arith)
operand_at (suc n) k [] h lt = absurd h
operand_at (suc n) zero (o ∷ os) (h, hs) lt = (o, refl, h)
operand_at (suc n) (suc k) (o ∷ os) (h, hs) lt = operand_at n k os hs (omega arith)

arm64_operand_at :
    (n k : ℕ) (os : List Arm64Op)
    → HasArm64Operands n os
    → k < n
    → (o : Arm64Op) × (get_elem? os k ≡ some o) × IsArm64Kind o o.kind
arm64_operand_at zero k os h lt = absurd (omega arith)
arm64_operand_at (suc n) k [] h lt = absurd h
arm64_operand_at (suc n) zero (o ∷ os) (h, hs) lt = (o, refl, h)
arm64_operand_at (suc n) (suc k) (o ∷ os) (h, hs) lt = arm64_operand_at n k os hs (omega arith)

operand_list-Writes :
    (print : ℕ → Output) (i n : ℕ)
    → ((k : ℕ) → i ≤ k → k < i + n → Writes (print k))
    → Writes (operand_list print i n)
unfolding operand_list
operand_list-Writes print i zero h = tt
operand_list-Writes print i (suc n) h = ground (
  arith,
  h i (omega arith) (omega arith),
  operand_list-Writes print (i + 1) n (λ k le lt. h k (omega arith) (omega arith)),
)

module _ (p : Printer) (w : IsPrintable p) where
  symbolic_at-IsSymbolic : (i : Insn) (offset : ℕ) → IsSymbolic p (symbolic_at p i offset)
  symbolic_at-IsSymbolic i offset =
      head_of-IsSymbolic p (p.module_.find_symbolic_expressions_at (add64 i.address offset))
        (w.expressions (add64 i.address offset))

  memory-IsSymbolic : (i : Insn) → IsSymbolic p (memory_symbolic p i)
  memory-IsSymbolic i = elim (Bool-cases (ltb 0 i.x86.disp_offset)) [
    | inl e ↦ rw e (symbolic_at-IsSymbolic i i.x86.disp_offset)
    | inr e ↦ rw e tt
  ]

  intel_operand-Writes :
      (i : Insn) (o : X86Op) (k : X86OpType)
      → k ≢ X86OpType.invalid
      → Writes (intel_operand p i o k)
  unfolding intel_operand
  intel_operand-Writes i o X86OpType.reg h = tt
  intel_operand-Writes i o X86OpType.imm h =
      Intel_immediate-Writes p (symbolic_at p i i.x86.imm_offset) i o
        (symbolic_at-IsSymbolic i i.x86.imm_offset)
  intel_operand-Writes i o X86OpType.mem h =
      Intel_indirect-Writes p (memory_symbolic p i) i o (memory-IsSymbolic i)
  intel_operand-Writes i o X86OpType.invalid h = absurd (h refl)

  att_operand-Writes :
      (i : Insn) (o : X86Op) (k : X86OpType) → k ≢ X86OpType.invalid → Writes (att_operand p i o k)
  unfolding att_operand
  att_operand-Writes i o X86OpType.reg h = tt
  att_operand-Writes i o X86OpType.imm h =
      Att_immediate-Writes p (symbolic_at p i i.x86.imm_offset) i o
        (symbolic_at-IsSymbolic i i.x86.imm_offset)
  att_operand-Writes i o X86OpType.mem h =
      Att_indirect-Writes p (memory_symbolic p i) i o (memory-IsSymbolic i)
  att_operand-Writes i o X86OpType.invalid h = absurd (h refl)

  -- the operands of an instruction as it is printed
  abbrev HasAll : Arch → Insn → Type 0
  HasAll aarch64 i = HasArm64Operands i.arm64.op_count i.arm64.operands
  HasAll _ i = IsX86 i

  operand_by-Writes :
      (a : Arch) (i : Insn) (k : ℕ)
      → HasPrefixes p a
      → HasAll a i
      → k < operand_count a i
      → Writes (operand_by a p i k)
  unfolding operand_by
  operand_by-Writes intel i k x h lt =
      let (o, e, valid) = operand_at i.x86.op_count k i.x86.operands h lt in
      rw (e, operand_by) (intel_operand-Writes i o o.kind valid)
  operand_by-Writes att i k x h lt =
      let (o, e, valid) = operand_at i.x86.op_count k i.x86.operands h lt in
      rw (e, operand_by) (att_operand-Writes i o o.kind valid)
  operand_by-Writes aarch64 i k x h lt =
      let (o, e, valid) = arm64_operand_at i.arm64.op_count k i.arm64.operands h lt in
      rw (e, operand_by) (AArch64_operand-Writes p i k o w x valid)

  print_operand_list-Writes : (i : Insn) → HasAll p.arch i → Writes (print_operand_list p i)
  unfolding print_operand_list print_operand
  print_operand_list-Writes i h =
      operand_list-Writes (print_operand p i) 0 (operand_count p.arch i)
        (λ k le lt. operand_by-Writes p.arch i k w.prefixes h (omega arith))

  print_instruction-Writes :
      (i : Insn) (o : Offset) → HasAll p.arch i → Writes (print_instruction p i o)
  unfolding print_instruction
  print_instruction-Writes i o h = ground (
    arith,
    definitions-Writes p i.address w,
    print_cfi_directives-Writes p o w,
    print_operand_list-Writes i h,
  )

  fixup-HasAll :
      (a : Arch) (i : Insn) → IsDecoded p.handle a i → HasAll a (fixup_instruction p.handle i)
  fixup-HasAll intel i (h, s) = fixup_instruction-IsX86 p.handle i h s
  fixup-HasAll att i (h, s) = fixup_instruction-IsX86 p.handle i h s
  fixup-HasAll aarch64 i h = rw (fixup_instruction-arm64 p.handle i) h

  pub fixed_up-Writes :
      (i : Insn) (o : Offset)
      → IsDecoded p.handle p.arch i
      → Writes (print_instruction p (fixup_instruction p.handle i) o)
  fixed_up-Writes i o h =
      print_instruction-Writes (fixup_instruction p.handle i) o (fixup-HasAll p.arch i h)
