-- ===== src/Examples/Printing.antt =====
-- Runs of the theorems on a whole listing and on decoded instructions.
use gtirb_pprinter.Prelude.{
  ℕ, ◌==◌, if◌then◌else◌, Text, codes, List, [], ◌∷◌, All, ◌≡◌, refl, arith, inl, inr, Bool-cases,
}
use gtirb_pprinter.Prelude.Int.{pos}
use gtirb_pprinter.Prelude.Result.{ok}
use gtirb_pprinter.Capstone.{Capstone}
use gtirb_pprinter.Gtirb.{Module, SymbolicExpression, sym_addr_const}
use gtirb_pprinter.Printer.{Printer, is_ambiguous_symbol, get_container_section}
use gtirb_pprinter.Instruction.{fixup_instruction, is_stos}
use gtirb_pprinter.Instruction.Decoded.{IsX86, fixup_instruction-IsX86}
use gtirb_pprinter.Blocks.{print}
use gtirb_pprinter.Total.{IsReferable, IsPrintable}
use gtirb_pprinter.Total.Printing.{print_total}
use gtirb_pprinter.Examples.{capstone, sample, policy, printer, main_symbol, exchange, text_section}

-- `exchange` at 8; the data block at 4 refers to `main`
abbrev pub decoder : Capstone
decoder = record capstone { disasm = λ bytes size addr. if addr == 8 then exchange ∷ [] else [] }

abbrev pub reference : ℕ → List SymbolicExpression
reference a = if a == 4 then sym_addr_const main_symbol (pos 2) ∷ [] else []

abbrev pub referring : Module
referring = record sample { find_symbolic_expressions_at = reference }

abbrev pub referrer : Printer
referrer = record printer {
  handle = decoder;
  policy = record policy { array_sections = codes ".text" ∷ [] };
  module_ = referring;
}

main_symbol-IsReferable : IsReferable referrer main_symbol
unfolding is_ambiguous_symbol
main_symbol-IsReferable = (inl refl, inl refl)

named_at : (a : ℕ) → All (λ s. IsReferable referrer s) (if a == 8 then main_symbol ∷ [] else [])
named_at a = elim (Bool-cases (a == 8)) [
  | inl e ↦ rw e (main_symbol-IsReferable, tt)
  | inr e ↦ rw e tt
]

exchange-IsX86 : IsX86 exchange
exchange-IsX86 = (λ h. cc, (λ h. cc, tt))

referrer-IsPrintable : IsPrintable referrer
unfolding is_ambiguous_symbol get_container_section is_stos
referrer-IsPrintable = record {
  named = λ a. elim (Bool-cases (a == 8)) [ inl e ↦ rw e (inl refl, tt) | inr e ↦ rw e tt ];
  expressions = λ a. elim (Bool-cases (a == 4)) [
    | inl e ↦ rw e (main_symbol-IsReferable, tt)
    | inr e ↦ rw e tt
  ];
  nodes = λ u s h. ground (arith, h);
  prefixes = tt;
  decoded = (((exchange-IsX86, inl refl), tt), (tt, (tt, tt)));
  placed = ((text_section, refl, inr (8, refl)), ((text_section, refl, inr tt), tt));
}

print_total_example : (t : Text) × (print referrer ≡ ok t)
print_total_example = print_total referrer referrer-IsPrintable

fixup_instruction-IsX86_example : IsX86 (fixup_instruction capstone exchange)
unfolding is_stos
fixup_instruction-IsX86_example =
    fixup_instruction-IsX86 capstone exchange exchange-IsX86 (inl refl)
