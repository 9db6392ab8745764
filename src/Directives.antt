-- ===== src/Directives.antt =====
-- Comments and CFI directives: src/gtirb_pprinter/PrettyPrinter.cpp.
pub mod Comments
use gtirb_pprinter.Prelude.{
  ℕ, ◌-◌, ltb, ◌==◌, if◌then◌else◌, Bool, true, ◌&&◌, ◌||◌, Text, codes, none, some, List, [], ◌∷◌,
  ◌++◌, is_empty,
}
use gtirb_pprinter.Prelude.Number.{dec, add64}
use gtirb_pprinter.Prelude.Int.{ℤ, dec_int}
use gtirb_pprinter.Prelude.Result.{Output, ok, ◌⊹◌, each, nothing}
use gtirb_pprinter.Gtirb.{Offset, CfiDirective}
use gtirb_pprinter.Syntax.{comment}
use gtirb_pprinter.Printer.{Printer}
use gtirb_pprinter.Symbols.{print_symbol_reference}

-- the order of `gtirb::Offset`
abbrev pub offset_lt : Offset → Offset → Bool
offset_lt a b =
    ltb a.element b.element || (a.element == b.element && ltb a.displacement b.displacement)

abbrev pub same_offset : Offset → Offset → Bool
same_offset a b = a.element == b.element && a.displacement == b.displacement

unfoldable pub lower_bound : Offset → List (Offset × Text) → List (Offset × Text)
lower_bound o [] = []
lower_bound o ((k, c) ∷ t) =
    let rest = lower_bound o t in if offset_lt k o then rest else (k, c) ∷ t

pub comment_line : Offset → Offset × Text → Text
comment_line o (k, c) =
    comment
    ++ ((if ltb o.displacement k.displacement
          then b'+' ∷ dec (k.displacement - o.displacement) ++ codes ":"
          else [])
        ++ (b' ' ∷ c ++ codes "\n"))

-- the loop of `printComments`, which stops at the first key that is not below the end
unfoldable pub comment_lines : Offset → Offset → List (Offset × Text) → Text
unfolding comment_line
comment_lines o end [] = []
comment_lines o end ((k, c) ∷ t) =
    let rest = comment_lines o end t in
    if offset_lt k end then comment_line o (k, c) ++ rest else []

unfoldable pub print_comments : Printer → Offset → ℕ → Text
unfolding comment_lines lower_bound
print_comments p o range =
    if p.policy.debug
    then elim p.module_.comments [
      | none ↦ []
      | some t ↦
          comment_lines o (record o { displacement = add64 o.displacement range }) (lower_bound o t)
    ]
    else []

-- operands separated by commas
operand_text : List ℤ → Text
operand_text [] = []
operand_text (i ∷ []) = dec_int i
operand_text (i ∷ j ∷ is) = dec_int i ++ (codes ", " ++ operand_text (j ∷ is))

unfoldable pub cfi_line : Printer → CfiDirective → Output
unfolding operand_text
cfi_line p d =
    ok (d.directive ++ codes " ")
    ⊹ ok (operand_text d.operands)
    ⊹ elim (p.module_.symbol_node d.symbol) [
      | none ↦ nothing
      | some s ↦
          ok (if is_empty d.operands then [] else codes ", ") ⊹ print_symbol_reference p s true
    ]
    ⊹ ok (codes "\n")

abbrev pub find_offset : Offset → List (Offset × List CfiDirective) → List CfiDirective
find_offset o [] = []
find_offset o ((k, ds) ∷ t) = if same_offset k o then ds else find_offset o t

unfoldable pub print_cfi_directives : Printer → Offset → Output
unfolding cfi_line
print_cfi_directives p o = elim p.module_.cfi_directives [
  | none ↦ nothing
  | some t ↦ each (cfi_line p) (find_offset o t)
]
