-- ===== src/AArch64.antt =====
-- src/gtirb_pprinter/AArch64PrettyPrinter.cpp: the header, the operands and their parts.
pub mod RawValue
pub mod Keywords
pub mod Names
pub mod RawOperand
use gtirb_pprinter.Prelude.{
  ℕ, suc, ◌+◌, ◌==◌, if◌then◌else◌, Bool, true, false, not, ◌&&◌, ◌||◌, Text, codes, Option, none,
  some, List, [], ◌∷◌, ◌++◌, head_of,
}
use gtirb_pprinter.Prelude.Number.{dec}
use gtirb_pprinter.Prelude.Int.{ℤ, dec_int, is_zero}
use gtirb_pprinter.Prelude.Result.{
  Result, Output, ok, fault, exit_one, null, ◌⊹◌, ◌>>=◌, nothing, deref, each,
}
use gtirb_pprinter.Gtirb.{Symbol, SymbolicExpression, OperandInfo}
use gtirb_pprinter.Capstone.{
  Arm64Op, Arm64OpType, Arm64Shifter, sft_invalid, Arm64Extender, ext_invalid, Insn,
}
use gtirb_pprinter.Printer.{Printer}
use gtirb_pprinter.Sections.{print_bar}
use gtirb_pprinter.Symbols.{get_symbolic_immediate, print_sym_addr_const}
use gtirb_pprinter.Operands.{get_register_name}
use gtirb_pprinter.Intel.{nop_lines}
use Keywords.{print_barrier, print_prefetch, print_shift, print_extender}
use RawValue.{raw_value}

unfoldable pub print_header : Text
print_header = print_bar true ++ (print_bar true ++ (codes "\n" ++ nop_lines))

matching_prefix : ℕ → ℕ → ℕ × OperandInfo → Text
matching_prefix address index (a, info) =
    if (a == address) && (index == info.index) then info.prefix else []

prefixes : ℕ → ℕ → List (ℕ × OperandInfo) → Text
unfolding matching_prefix
prefixes address index [] = []
prefixes address index (e ∷ t) = matching_prefix address index e ++ prefixes address index t

-- `*symbolicOperandInfo` is read without a test that the table is there.
unfoldable pub print_prefix : Printer → Insn → ℕ → Output
unfolding prefixes
print_prefix p inst index = do
  t ← deref p.module_.symbolic_operand_info
  ok (prefixes inst.address index t)

-- a shift that is there and not by zero
has_shift : Arm64Op → Bool
has_shift op = elim op.shift_type [ sft_invalid ↦ false | _ ↦ not (op.shift_value == 0) ]

pub shift_text : Arm64Op → Text
unfolding has_shift
shift_text op = if has_shift op then codes "," ++ print_shift op.shift_type op.shift_value else []

unfoldable pub immediate : Printer → Insn → ℕ → Bool → Option (Symbol × ℤ) → Arm64Op → Output
immediate p inst index jump (some (s, o)) op =
    ok (if jump then [] else codes " ")
    ⊹ print_prefix p inst index
    ⊹ print_sym_addr_const p s o (not jump)
immediate p inst index jump none op = ok (codes "#" ++ (dec_int op.imm ++ shift_text op))

unfoldable pub print_op_immediate :
    Printer → Option SymbolicExpression → Insn → ℕ → Arm64Op → Output
unfolding immediate shift_text
print_op_immediate p symbolic inst index op =
    immediate p inst index (p.handle.in_group inst p.handle.arm64_grp_jump)
      (get_symbolic_immediate symbolic) op

abbrev absent : Printer → ℕ → Bool
absent p reg = reg == p.handle.reg_invalid

unfoldable pub displacement : Printer → Insn → ℕ → Option (Symbol × ℤ) → ℤ → Output
displacement p inst index (some (s, o)) disp =
    print_prefix p inst index ⊹ print_sym_addr_const p s o false
displacement p inst index none disp = ok (codes "#" ++ dec_int disp)

-- the constant displacement and the comma before it
unfoldable pub displacement_part : Printer → Option SymbolicExpression → Insn → ℕ → Arm64Op → Output
unfolding displacement
displacement_part p symbolic inst index op =
    if is_zero op.mem.disp
    then nothing
    else ok (if absent p op.mem.base then [] else codes ",")
      ⊹ displacement p inst index (get_symbolic_immediate symbolic) op.mem.disp

pub index_part : Printer → Arm64Op → Text
index_part p op =
    if absent p op.mem.index
    then []
    else (if absent p op.mem.base && is_zero op.mem.disp then [] else codes ",")
      ++ get_register_name p op.mem.index

unfoldable pub print_op_indirect : Printer → Option SymbolicExpression → Insn → ℕ → Arm64Op → Output
unfolding displacement_part index_part shift_text
print_op_indirect p symbolic inst index op =
    ok (codes "[" ++ (if absent p op.mem.base then [] else get_register_name p op.mem.base))
    ⊹ displacement_part p symbolic inst index op
    ⊹ ok (
        index_part p op
        ++ (shift_text op
            ++ (codes "]"
                ++ (if inst.arm64.writeback && (suc index == inst.arm64.op_count)
                    then codes "!"
                    else []))))

-- the symbolic expression of the last operand
unfoldable pub final_symbolic : Printer → Insn → ℕ → Option SymbolicExpression
final_symbolic p inst index =
    if suc index == inst.arm64.op_count
    then head_of (p.module_.find_symbolic_expressions_at inst.address)
    else none

pub register_operand : Printer → Arm64Op → Arm64Extender → Text
register_operand p op ext_invalid = get_register_name p op.reg
register_operand p op ext =
    get_register_name p op.reg ++ (codes ", " ++ print_extender ext op.shift_type op.shift_value)

unfoldable pub operand_of_kind : Printer → Insn → ℕ → Arm64Op → Arm64OpType → Output
unfolding final_symbolic register_operand
operand_of_kind p inst index op Arm64OpType.reg = ok (register_operand p op op.ext)
operand_of_kind p inst index op Arm64OpType.imm =
    print_op_immediate p (final_symbolic p inst index) inst index op
operand_of_kind p inst index op Arm64OpType.mem =
    print_op_indirect p (final_symbolic p inst index) inst index op
operand_of_kind p inst index op Arm64OpType.fp = ok (codes "#" ++ op.fp)
operand_of_kind p inst index op Arm64OpType.cimm = ok (raw_value inst.op_str index)
operand_of_kind p inst index op Arm64OpType.reg_mrs = ok (raw_value inst.op_str index)
operand_of_kind p inst index op Arm64OpType.reg_msr = ok (raw_value inst.op_str index)
operand_of_kind p inst index op Arm64OpType.pstate = ok (raw_value inst.op_str index)
operand_of_kind p inst index op Arm64OpType.sys = ok (raw_value inst.op_str index)
operand_of_kind p inst index op Arm64OpType.prefetch = print_prefetch op.prefetch
operand_of_kind p inst index op Arm64OpType.barrier = print_barrier op.barrier
operand_of_kind p inst index op Arm64OpType.invalid = fault exit_one

unfoldable pub print_operand : Printer → Insn → ℕ → Arm64Op → Output
unfolding operand_of_kind
print_operand p inst index op = operand_of_kind p inst index op op.kind
