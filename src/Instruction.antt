-- ===== src/Instruction.antt =====
-- Instructions: `fixupInstruction`, `printInstruction`, `printOperandList` and `printOperand` of
-- src/gtirb_pprinter/PrettyPrinter.cpp, with the overrides chosen by the printer's class.
pub mod Decoded
pub mod Fixup
use gtirb_pprinter.Prelude.{
  ℕ, zero, suc, ◌+◌, ◌-◌, ltb, ◌==◌, if◌then◌else◌, Bool, true, false, not, ◌&&◌, ◌||◌, Text, codes,
  Option, none, some, List, [], ◌∷◌, ◌++◌, head_of, get_elem?,
}
use gtirb_pprinter.Prelude.Number.{hex, add64}
use gtirb_pprinter.Prelude.Int.{ℤ, to_int32}
use gtirb_pprinter.Prelude.Result.{Output, ok, fault, exit_one, null, ◌⊹◌, ◌>>=◌, nothing, deref}
use gtirb_pprinter.Gtirb.{Offset, SymbolicExpression}
use gtirb_pprinter.Capstone.{Capstone, X86Op, X86OpType, Insn}
use gtirb_pprinter.Syntax.{tab, nop}
use gtirb_pprinter.StringUtils.{ascii_str_tolower}
use gtirb_pprinter.Printer.{Printer, Arch, intel, att, aarch64}
use gtirb_pprinter.Symbols.{print_symbol_definitions_at_address}
use gtirb_pprinter.Directives.{print_comments, print_cfi_directives}
use gtirb_pprinter.Operands.{get_register_name, operand_list}
use gtirb_pprinter.Intel
use gtirb_pprinter.Att
use gtirb_pprinter.AArch64

abbrev pub with_count : ℕ → Insn → Insn
with_count n i = record i { x86 = record i.x86 { op_count = n } }

-- a write to element `i` of the operand array
abbrev pub modify : (X86Op → X86Op) → ℕ → List X86Op → List X86Op
modify f i [] = []
modify f zero (o ∷ os) = f o ∷ os
modify f (suc i) (o ∷ os) = o ∷ modify f i os

abbrev pub with_operands : (List X86Op → List X86Op) → Insn → Insn
with_operands f i = record i { x86 = record i.x86 { operands = f i.x86.operands } }

module _ (cs : Capstone) where
  unfoldable pub is_movs : ℕ → Bool
  is_movs id = id == cs.movsb || id == cs.movsw || id == cs.movsd || id == cs.movsq

  unfoldable pub is_stos : ℕ → Bool
  is_stos id = id == cs.stosb || id == cs.stosw || id == cs.stosd || id == cs.stosq

  pub fix_movs : Insn → Insn
  fix_movs i = if is_movs i.id && not (i.first_group == cs.grp_sse2) then with_count 0 i else i

  pub fix_stos : Insn → Insn
  fix_stos i = if is_stos i.id then with_count 1 i else i

  abbrev pub sign_extend : X86Op → X86Op
  sign_extend o = record o { imm = to_int32 o.imm }

  pub fix_imul : Insn → Insn
  fix_imul i =
      if i.id == cs.imul && i.x86.op_count == 3 then with_operands (modify sign_extend 2) i else i

  pub fix_endbr64 : Insn → Insn
  fix_endbr64 i = if i.id == cs.endbr64 then record i { id = cs.nop } else i

  -- `operands[0] = operands[1]`
  abbrev pub first_from_second : List X86Op → List X86Op
  first_from_second (o ∷ q ∷ os) = q ∷ q ∷ os
  first_from_second os = os

  pub fix_fxch : Insn → Insn
  fix_fxch i =
      if i.id == cs.fxch && i.x86.op_count == 2
      then with_count 1 (with_operands first_from_second i)
      else i

  abbrev pub is_mem : X86OpType → Bool
  is_mem X86OpType.mem = true
  is_mem _ = false

  abbrev pub half_size : X86Op → X86Op
  half_size o = if is_mem o.kind && o.size == 16 then record o { size = 8 } else o

  pub fix_comisd : Insn → Insn
  fix_comisd i =
      if i.id == cs.comisd && i.x86.op_count == 2 then with_operands (modify half_size 1) i else i

  unfoldable pub fixup_instruction : Insn → Insn
  unfolding fix_movs fix_stos fix_imul fix_endbr64 fix_fxch fix_comisd is_movs is_stos
  fixup_instruction i = fix_comisd (fix_fxch (fix_endbr64 (fix_imul (fix_stos (fix_movs i)))))

-- the symbolic expression at an offset of the instruction
abbrev pub symbolic_at : Printer → Insn → ℕ → Option SymbolicExpression
symbolic_at p i offset = head_of (p.module_.find_symbolic_expressions_at (add64 i.address offset))

abbrev pub memory_symbolic : Printer → Insn → Option SymbolicExpression
memory_symbolic p i = if ltb 0 i.x86.disp_offset then symbolic_at p i i.x86.disp_offset else none

-- `printOperand` with the overrides of the Intel and the AT&T printer
unfoldable pub intel_operand : Printer → Insn → X86Op → X86OpType → Output
intel_operand p i op X86OpType.reg = ok (Intel.print_op_regdirect p op.reg)
intel_operand p i op X86OpType.imm =
    Intel.print_op_immediate p (symbolic_at p i i.x86.imm_offset) i op
intel_operand p i op X86OpType.mem = Intel.print_op_indirect p (memory_symbolic p i) i op
intel_operand p i op X86OpType.invalid = fault exit_one

unfoldable pub att_operand : Printer → Insn → X86Op → X86OpType → Output
att_operand p i op X86OpType.reg = ok (Att.print_op_regdirect p i op.reg)
att_operand p i op X86OpType.imm = Att.print_op_immediate p (symbolic_at p i i.x86.imm_offset) i op
att_operand p i op X86OpType.mem = Att.print_op_indirect p (memory_symbolic p i) i op
att_operand p i op X86OpType.invalid = fault exit_one

unfoldable pub operand_by : Arch → Printer → Insn → ℕ → Output
unfolding intel_operand att_operand
operand_by intel p i index = do
  op ← deref (get_elem? i.x86.operands index)
  intel_operand p i op op.kind
operand_by att p i index = do
  op ← deref (get_elem? i.x86.operands index)
  att_operand p i op op.kind
operand_by aarch64 p i index = do
  op ← deref (get_elem? i.arm64.operands index)
  AArch64.print_operand p i index op

unfoldable pub print_operand : Printer → Insn → ℕ → Output
unfolding operand_by
print_operand p i index = operand_by p.arch p i index

abbrev pub operand_count : Arch → Insn → ℕ
operand_count aarch64 i = i.arm64.op_count
operand_count _ i = i.x86.op_count

unfoldable pub print_operand_list : Printer → Insn → Output
print_operand_list p i = operand_list (print_operand p i) 0 (operand_count p.arch i)

unfoldable pub print_ea : Printer → ℕ → Text
print_ea p ea = tab ++ (if p.policy.debug then hex ea ++ codes ": " else [])

-- the NOPs after the first one, one for each further byte
pub nops : Printer → ℕ → ℕ → Text
nops p ea zero = []
nops p ea (suc n) =
    codes "\n" ++ (print_ea p (add64 ea 1) ++ (codes "  " ++ (nop ++ nops p (add64 ea 1) n)))

pub is_nop : Printer → ℕ → Bool
is_nop p id = id == p.handle.nop || id == p.handle.arm64_nop

unfoldable pub print_instruction : Printer → Insn → Offset → Output
unfolding nops is_nop
print_instruction p i offset =
    print_symbol_definitions_at_address p i.address
    ⊹ ok (print_comments p offset i.size)
    ⊹ print_cfi_directives p offset
    ⊹ ok (print_ea p i.address)
    ⊹ (if is_nop p i.id
        then ok (codes "  " ++ (nop ++ nops p i.address (i.size - 1)))
        else ok (codes "  " ++ (ascii_str_tolower i.mnemonic ++ codes " "))
          ⊹ print_operand_list p i)
