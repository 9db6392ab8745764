-- ===== src/Intel.antt =====
-- src/gtirb_pprinter/IntelPrettyPrinter.cpp: the header and the operands.
pub mod Address
pub mod Memory
use gtirb_pprinter.Prelude.{
  ℕ, ◌*◌, ◌==◌, if◌then◌else◌, Bool, true, false, not, ◌&&◌, Text, codes, Option, none, some, [],
  ◌∷◌, ◌++◌, replicate, concat_map,
}
use gtirb_pprinter.Prelude.Number.{dec}
use gtirb_pprinter.Prelude.Int.{ℤ, dec_int}
use gtirb_pprinter.Prelude.Result.{Output, ok, ◌⊹◌}
use gtirb_pprinter.Gtirb.{Symbol, SymbolicExpression}
use gtirb_pprinter.Capstone.{X86Op, X86Mem, Insn}
use gtirb_pprinter.Syntax.{nop, offset_directive, get_size_name}
use gtirb_pprinter.Sections.{print_bar}
use gtirb_pprinter.Printer.{Printer}
use gtirb_pprinter.Symbols.{get_symbolic_immediate, print_sym_addr_const, print_addend}
use gtirb_pprinter.Operands.{get_register_name}

abbrev pub nop_lines : Text
nop_lines = concat_map (λ l. l) (replicate 8 (nop ++ codes "\n"))

unfoldable pub print_header : Text
print_header =
    print_bar true
    ++ (codes ".intel_syntax noprefix\n" ++ (print_bar true ++ (codes "\n" ++ nop_lines)))

unfoldable pub print_op_regdirect : Printer → ℕ → Text
print_op_regdirect p reg = get_register_name p reg

-- neither a call nor a jump: the operand is a value
abbrev pub is_value : Printer → Insn → Bool
is_value p inst =
    not (p.handle.in_group inst p.handle.grp_call) && not (p.handle.in_group inst p.handle.grp_jump)

unfoldable pub immediate : Printer → Bool → Option (Symbol × ℤ) → ℤ → Output
immediate p value (some (s, o)) imm =
    ok (if value then offset_directive ++ codes " " else []) ⊹ print_sym_addr_const p s o value
immediate p value none imm = ok (dec_int imm)

unfoldable pub print_op_immediate : Printer → Option SymbolicExpression → Insn → X86Op → Output
unfolding immediate
print_op_immediate p symbolic inst op =
    immediate p (is_value p inst) (get_symbolic_immediate symbolic) op.imm

size_prefix : ℕ → Text
size_prefix size = elim (get_size_name (size * 8)) [ none ↦ [] | some name ↦ name ++ codes " PTR " ]

-- is the register absent?
abbrev pub absent : Printer → ℕ → Bool
absent p reg = reg == p.handle.reg_invalid

pub index_text : Printer → X86Mem → Text
index_text p m =
    if absent p m.index
    then []
    else (if absent p m.base then [] else codes "+")
      ++ (get_register_name p m.index ++ (b'*' ∷ dec m.scale))

unfoldable pub displacement : Printer → Bool → Option (Symbol × ℤ) → ℤ → Output
displacement p first (some (s, o)) disp = ok (codes "+") ⊹ print_sym_addr_const p s o false
displacement p first none disp = ok (print_addend disp first)

unfoldable pub print_op_indirect : Printer → Option SymbolicExpression → Insn → X86Op → Output
unfolding size_prefix index_text displacement
print_op_indirect p symbolic inst op =
    ok (
      size_prefix op.size
      ++ ((if absent p op.mem.segment then [] else get_register_name p op.mem.segment ++ codes ":")
          ++ (codes "["
              ++ ((if absent p op.mem.base then [] else get_register_name p op.mem.base)
                  ++ index_text p op.mem))))
    ⊹ displacement p (absent p op.mem.base && absent p op.mem.index)
        (get_symbolic_immediate symbolic) op.mem.disp
    ⊹ ok (codes "]")
