-- ===== src/Examples/Operands.antt =====
-- Runs of the theorems on memory operands.
use gtirb_pprinter.Prelude.{
  ℕ, ◌-◌, ◌==◌, false, Text, codes, none, some, ◌≡◌, refl, arith, inl, inr, Bool-cases,
}
use gtirb_pprinter.Prelude.Int.{pos, negsuc}
use gtirb_pprinter.Prelude.Number.{u64_mod}
use gtirb_pprinter.Prelude.Result.{ok}
use gtirb_pprinter.Capstone.{X86Op, X86OpType}
use gtirb_pprinter.Printer.{Printer, att}
use gtirb_pprinter.StringUtils.{ascii_str_tolower, ascii_str_toupper}
use gtirb_pprinter.Symbols.{get_symbolic_immediate}
use gtirb_pprinter.Operands.{get_register_name}
use gtirb_pprinter.Att
use gtirb_pprinter.Att.Reading.{read_operand}
use gtirb_pprinter.Att.Parts.{IsName}
use gtirb_pprinter.Att.Memory.{print_op_indirect-read}
use gtirb_pprinter.Intel
use gtirb_pprinter.Intel.Address.{IsRegister, address}
use gtirb_pprinter.Intel.Memory.{print_op_indirect-address}
use gtirb_pprinter.Examples.{printer, exchange}

abbrev att_printer : Printer
att_printer = record printer { arch = att }

register_names : (r : ℕ) → IsName (get_register_name att_printer r)
unfolding get_register_name ascii_str_tolower ascii_str_toupper
register_names r = elim (Bool-cases (r == 0)) [
  | inl e ↦ rw e (omega arith)
  | inr e ↦ rw e (omega arith)
]

abbrev memory_operand : X86Op
memory_operand = record {
  kind = X86OpType.mem;
  reg = 0;
  imm = pos 0;
  size = 8;
  mem = record { segment = 0; base = 5; index = 6; scale = 4; disp = negsuc 7 };
}

print_op_indirect-read_example :
    (t : Text) × (Att.print_op_indirect att_printer none exchange memory_operand ≡ ok t)
    × (read_operand t ≡ record {
      starred = false;
      segment = none;
      offset = u64_mod - 8;
      inside = some (codes "%rax", some (codes "%rax", 4));
    })
unfolding get_register_name ascii_str_tolower ascii_str_toupper get_symbolic_immediate
print_op_indirect-read_example =
    print_op_indirect-read att_printer memory_operand.mem (register_names 0) (register_names 5)
      (register_names 6) none exchange memory_operand refl refl

intel_names : (r : ℕ) → Intel.absent printer r ≡ false → IsRegister (get_register_name printer r)
unfolding get_register_name ascii_str_toupper
intel_names r h = rw h (omega arith)

abbrev registers : Text → ℕ
registers name = 1000

-- RAX+RAX*4-8
print_op_indirect-address_example :
    (t : Text) × (Intel.print_op_indirect printer none exchange memory_operand ≡ ok t)
    × (address registers t ≡ 4992)
unfolding get_symbolic_immediate
print_op_indirect-address_example =
    print_op_indirect-address printer intel_names none exchange memory_operand registers refl
