-- ===== src/Att.antt =====
-- src/gtirb_pprinter/AttPrettyPrinter.cpp: the operands. The header is empty.
pub mod Memory
pub mod Parts
pub mod Reading
use gtirb_pprinter.Prelude.{
  ℕ, ◌==◌, if◌then◌else◌, Bool, false, not, ◌&&◌, ◌||◌, Text, codes, Option, none, some, [], ◌++◌,
}
use gtirb_pprinter.Prelude.Number.{dec}
use gtirb_pprinter.Prelude.Int.{ℤ, dec_int, hex_int, is_zero}
use gtirb_pprinter.Prelude.Result.{Output, ok, ◌⊹◌}
use gtirb_pprinter.Gtirb.{Symbol, SymbolicExpression}
use gtirb_pprinter.Capstone.{X86Op, X86Mem, Insn}
use gtirb_pprinter.Printer.{Printer}
use gtirb_pprinter.Symbols.{get_symbolic_immediate, print_sym_addr_const}
use gtirb_pprinter.Operands.{get_register_name, show_hex}

-- a call or a jump
abbrev pub is_branch : Printer → Insn → Bool
is_branch p inst =
    p.handle.in_group inst p.handle.grp_call || p.handle.in_group inst p.handle.grp_jump

unfoldable pub print_op_regdirect : Printer → Insn → ℕ → Text
print_op_regdirect p inst reg =
    (if is_branch p inst then codes "*" else []) ++ get_register_name p reg

unfoldable pub immediate : Printer → Bool → Option (Symbol × ℤ) → ℤ → Output
immediate p branch (some (s, o)) imm = print_sym_addr_const p s o (not branch)
immediate p branch none imm = ok (if branch then show_hex imm else dec_int imm)

unfoldable pub print_op_immediate : Printer → Option SymbolicExpression → Insn → X86Op → Output
unfolding immediate
print_op_immediate p symbolic inst op =
    ok (if is_branch p inst then [] else codes "$")
    ⊹ immediate p (is_branch p inst) (get_symbolic_immediate symbolic) op.imm

abbrev pub has : Printer → ℕ → Bool
has p reg = not (reg == p.handle.reg_invalid)

pub numeric : Printer → X86Mem → Text
numeric p m =
    if not (has p m.segment) && (not (has p m.base) && not (has p m.index))
    then codes "0x" ++ hex_int m.disp
    else if not (is_zero m.disp) || has p m.segment
    then dec_int m.disp
    else []

unfoldable pub displacement : Printer → Option (Symbol × ℤ) → X86Mem → Output
displacement p (some (s, o)) m = print_sym_addr_const p s o false
displacement p none m = ok (numeric p m)

base_index : Printer → X86Mem → Text
base_index p m =
    if has p m.base || has p m.index
    then codes "("
      ++ ((if has p m.base then get_register_name p m.base else [])
          ++ ((if has p m.index
                then codes ","
                  ++ (get_register_name p m.index
                      ++ (if m.scale == 1 then [] else codes "," ++ dec m.scale))
                else [])
              ++ codes ")"))
    else []

unfoldable pub print_op_indirect : Printer → Option SymbolicExpression → Insn → X86Op → Output
unfolding displacement base_index numeric
print_op_indirect p symbolic inst op =
    ok (
      (if is_branch p inst then codes "*" else [])
      ++ (if has p op.mem.segment then get_register_name p op.mem.segment ++ codes ":" else []))
    ⊹ displacement p (get_symbolic_immediate symbolic) op.mem
    ⊹ ok (base_index p op.mem)
