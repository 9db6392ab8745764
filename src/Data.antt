-- ===== src/Data.antt =====
-- Data blocks: src/gtirb_pprinter/PrettyPrinter.cpp, and `shouldExcludeDataElement` of
-- src/gtirb_pprinter/ElfPrettyPrinter.cpp.
pub mod Strings
pub mod Bytes
use gtirb_pprinter.Prelude.{
  ℕ, ◌+◌, ltb, ◌==◌, if◌then◌else◌, Bool, true, false, ◌&&◌, Text, codes, eq_text, contains, Option,
  none, some, List, [], ◌∷◌, ◌++◌, is_empty, head_of, concat_map,
}
use gtirb_pprinter.Prelude.Number.{dec, hex}
use gtirb_pprinter.Prelude.Result.{Result, Output, ok, ◌⊹◌, ◌>>=◌, each, nothing, deref}
use gtirb_pprinter.Gtirb.{
  Section, DataBlock, SymbolicExpression, sym_addr_const, sym_addr_addr, other_expression,
}
use gtirb_pprinter.Syntax.{tab, byte_data, word_data, long_data, quad_data, string_directive}
use gtirb_pprinter.Printer.{Printer, get_container_section, skip_ea}
use gtirb_pprinter.Symbols.{
  find_in, print_sym_addr_const, print_sym_addr_addr, print_symbol_definitions_at_address,
  get_symbolic_immediate,
}
use gtirb_pprinter.Sections.{print_byte}
use gtirb_pprinter.Directives.{print_comments}

-- `boost::replace_all_copy` of a text of one byte
abbrev pub replace_all : ℕ → Text → Text → Text
replace_all c by [] = []
replace_all c by (d ∷ s) = (if d == c then by else d ∷ []) ++ replace_all c by s

unfoldable pub clean_byte : ℕ → Text
clean_byte b = replace_all b'\'' (codes "\\'") (
    replace_all 7 (codes "\\a") (
      replace_all 13 (codes "\\r") (
        replace_all 8 (codes "\\b") (
          replace_all 11 (codes "\\v") (
            replace_all 9 (codes "\\t") (
              replace_all 10 (codes "\\n")
                (replace_all b'"' (codes "\\\"") (replace_all b'\\' (codes "\\\\") (b ∷ [])))))))))

-- the loop over the bytes: zero bytes are left out
unfoldable pub string_body : List ℕ → Text
string_body [] = []
string_body (b ∷ bs) = (if b == 0 then [] else clean_byte b) ++ string_body bs

unfoldable pub print_string : DataBlock → Text
print_string d = string_directive ++ (codes " \"" ++ (string_body d.bytes ++ codes "\""))

-- the directive by size; nothing for another size
size_directive : ℕ → Text
size_directive size =
    if size == 1
    then byte_data
    else if size == 2
    then word_data
    else if size == 4
    then long_data
    else if size == 8
    then quad_data
    else []

unfoldable pub print_data_block_type : Printer → DataBlock → Text
unfolding size_directive
print_data_block_type p d = elim (find_in d.uuid p.module_.encodings) [
  | some encoding ↦ b'.' ∷ encoding
  | none ↦ size_directive d.size
]

unfoldable pub symbolic_value : Printer → SymbolicExpression → Output
symbolic_value p (sym_addr_const s o) = print_sym_addr_const p s o true
symbolic_value p (sym_addr_addr s t) = print_sym_addr_addr p s t true
symbolic_value p other_expression = nothing

unfoldable pub print_symbolic_data : Printer → SymbolicExpression → DataBlock → Output
unfolding symbolic_value
print_symbolic_data p e d = ok (print_data_block_type p d ++ codes " ") ⊹ symbolic_value p e

abbrev pub is_string : Option Text → Bool
is_string none = false
is_string (some encoding) = eq_text encoding (codes "string")

unfoldable pub print_non_zero_data_block : Printer → DataBlock → Output
print_non_zero_data_block p d = elim (head_of (p.module_.find_symbolic_expressions_at d.address)) [
  | some e ↦ ok tab ⊹ print_symbolic_data p e d ⊹ ok (codes "\n")
  | none ↦
      if is_string (find_in d.uuid p.module_.encodings)
      then ok (tab ++ (print_string d ++ codes "\n"))
      else ok (concat_map (λ b. tab ++ print_byte b) d.bytes)
]

unfoldable pub print_zero_data_block : DataBlock → Text
print_zero_data_block d = tab ++ (codes " .zero " ++ (dec d.size ++ codes "\n"))

abbrev pub all_zero : List ℕ → Bool
all_zero [] = true
all_zero (b ∷ bs) = b == 0 && all_zero bs

-- a reference to something skipped, in a section of arrays
unfoldable pub excluded_target : Printer → Option SymbolicExpression → Result Bool
excluded_target p (some (sym_addr_const s o)) = do a ← deref s.address; ok (skip_ea p a)
excluded_target p _ = ok false

unfoldable pub should_exclude_data_element : Printer → Section → DataBlock → Result Bool
unfolding excluded_target
should_exclude_data_element p s d =
    if contains s.name p.policy.array_sections
    then excluded_target p (head_of (p.module_.find_symbolic_expressions_at d.address))
    else ok false

-- what is printed of a block that is not excluded
unfoldable pub data_content : Printer → DataBlock → Output
data_content p d =
    if all_zero d.bytes && is_empty (p.module_.find_symbolic_expressions_at d.address)
    then ok (print_zero_data_block d)
    else print_non_zero_data_block p d

unfoldable pub print_data_block : Printer → DataBlock → Output
unfolding data_content
print_data_block p d =
    if skip_ea p d.address
    then nothing
    else ok (print_comments p (record { element = d.uuid; displacement = 0 }) d.size)
      ⊹ print_symbol_definitions_at_address p d.address
      ⊹ ok (if p.policy.debug then hex d.address ++ codes ":" else [])
      ⊹ (do
        section ← deref (get_container_section p d.address)
        excluded ← should_exclude_data_element p section d
        if excluded then nothing else data_content p d)
