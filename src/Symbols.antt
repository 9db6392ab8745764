-- ===== src/Symbols.antt =====
-- Names of symbols and references to them: src/gtirb_pprinter/PrettyPrinter.cpp and, for the
-- forwarded name without an ending, src/gtirb_pprinter/AArch64PrettyPrinter.cpp.
pub mod Labels
use gtirb_pprinter.Prelude.{
  ℕ, ltb, leb, ◌==◌, if◌then◌else◌, Bool, true, false, not, ◌&&◌, ◌||◌, Text, codes, eq_text,
  Option, none, some, List, [], ◌∷◌, ◌++◌, head_of,
}
use gtirb_pprinter.Prelude.Number.{hex, dec}
use gtirb_pprinter.Prelude.Int.{ℤ, pos, negsuc, is_zero, is_negative, dec_int}
use gtirb_pprinter.Prelude.Result.{
  Result, Output, ok, fault, null, bad_cast, deref, ◌⊹◌, ◌>>=◌, each, nothing,
}
use gtirb_pprinter.Gtirb.{
  Symbol, Section, SymbolicExpression, sym_addr_const, sym_addr_addr, other_expression,
}
use gtirb_pprinter.Syntax.{format_symbol_name}
use gtirb_pprinter.Printer.{Arch, intel, att, aarch64, Printer, is_ambiguous_symbol, skip_ea}

-- ".L_" and the address in hexadecimal
unfoldable pub get_symbol_name : ℕ → Text
get_symbol_name x = codes ".L_" ++ hex x

section_ending : Bool → Option Section → Text
section_ending in_data none = []
section_ending in_data (some s) =
    if not in_data && (eq_text s.name (codes ".plt") || eq_text s.name (codes ".plt.got"))
    then codes "@PLT"
    else if eq_text s.name (codes ".got") || eq_text s.name (codes ".got.plt")
    then codes "@GOTPCREL"
    else []

unfoldable pub get_forwarded_symbol_ending : Printer → Symbol → Bool → Text
unfolding section_ending
get_forwarded_symbol_ending p s in_data = elim s.address [
  | none ↦ []
  | some addr ↦ section_ending in_data (head_of (p.module_.find_sections_on addr))
]

abbrev pub find_entry {ℓ} : {A : Type ℓ} → ℕ → List (ℕ × A) → Option A
find_entry u [] = none
find_entry u ((v, a) ∷ t) = if v == u then some a else find_entry u t

abbrev pub find_in {ℓ} : {A : Type ℓ} → ℕ → Option (List (ℕ × A)) → Option A
find_in u none = none
find_in u (some t) = find_entry u t

-- AArch64 prints no ending.
abbrev pub ending_for : Arch → Printer → Symbol → Bool → Text
ending_for aarch64 p s in_data = []
ending_for _ p s in_data = get_forwarded_symbol_ending p s in_data

-- `none` is a symbol that is not forwarded; the destination has to be a symbol.
unfoldable pub get_forwarded_symbol_name : Printer → Symbol → Bool → Result (Option Text)
get_forwarded_symbol_name p s in_data = elim (find_in s.uuid p.module_.symbol_forwarding) [
  | none ↦ ok none
  | some dest ↦ elim (p.module_.symbol_node dest) [
    | none ↦ fault bad_cast
    | some d ↦ ok (some (d.name ++ ending_for p.arch p s in_data))
  ]
]

-- a symbol that is not forwarded and whose address is not skipped
unfoldable pub print_symbol_name : Printer → Symbol → Output
print_symbol_name p s =
    if is_ambiguous_symbol p s.name
    then (do a ← deref s.address; ok (get_symbol_name a))
    else ok (format_symbol_name s.name)

abbrev pub skipped_address : Printer → Option ℕ → Option ℕ
skipped_address p none = none
skipped_address p (some a) = if skip_ea p a then some a else none

unfoldable pub print_symbol_reference : Printer → Symbol → Bool → Output
print_symbol_reference p s in_data = do
  forwarded ← get_forwarded_symbol_name p s in_data
  elim forwarded [
    | some name ↦ ok name
    | none ↦ elim (skipped_address p s.address) [
      | some a ↦ ok (dec a)
      | none ↦ print_symbol_name p s
    ]
  ]

unfoldable pub print_symbol_definitions_at_address : Printer → ℕ → Output
print_symbol_definitions_at_address p ea =
    each (λ (s : Symbol). print_symbol_name p s ⊹ ok (codes ":\n")) (p.module_.find_symbols_at ea)

unfoldable pub print_addend : ℤ → Bool → Text
print_addend number first =
    if is_negative number || first
    then dec_int number
    else if is_zero number
    then []
    else b'+' ∷ dec_int number

-- `printSymbolicExpression` of `SymAddrConst` and of `SymAddrAddr`
unfoldable pub print_sym_addr_const : Printer → Symbol → ℤ → Bool → Output
print_sym_addr_const p s offset in_data =
    print_symbol_reference p s in_data ⊹ ok (print_addend offset false)

unfoldable pub print_sym_addr_addr : Printer → Symbol → Symbol → Bool → Output
print_sym_addr_addr p s t in_data =
    print_symbol_reference p s in_data ⊹ ok (codes "-") ⊹ print_symbol_reference p t in_data

-- the `SymAddrConst` of an operand, if it is one
unfoldable pub get_symbolic_immediate : Option SymbolicExpression → Option (Symbol × ℤ)
get_symbolic_immediate none = none
get_symbolic_immediate (some (sym_addr_const s o)) = some (s, o)
get_symbolic_immediate (some (sym_addr_addr s t)) = none
get_symbolic_immediate (some other_expression) = none
