-- ===== src/Blocks/Document.antt =====
-- The listing of `print` of src/gtirb_pprinter/PrettyPrinter.cpp as a document: which lines it has and
-- in which order, apart from how each of them is written.
pub mod Refinement
pub mod Sites
pub mod Labels
pub mod Lines
pub mod Regions
pub mod Ending
pub mod Entering
pub mod Location
pub mod Placing
pub mod Switching
pub mod Written
use gtirb_pprinter.Prelude.{
  ℕ, ◌-◌, ltb, if◌then◌else◌, Bool, Text, codes, Option, none, some, List, [], ◌∷◌, ◌++◌, contains,
  head_of,
}
use gtirb_pprinter.Prelude.Number.{hex, add64}
use gtirb_pprinter.Prelude.Result.{Output, ok, ◌⊹◌, ◌>>=◌, nothing, deref}
use gtirb_pprinter.Gtirb.{Offset, Section, DataBlock}
use gtirb_pprinter.Capstone.{Insn}
use gtirb_pprinter.Syntax.{nop}
use gtirb_pprinter.StringUtils.{ascii_str_tolower}
use gtirb_pprinter.Printer.{Printer, skip_ea, get_container_section}
use gtirb_pprinter.Symbols.{print_symbol_definitions_at_address}
use gtirb_pprinter.Sections.{section_header, print_section_footer, print_function_header}
use gtirb_pprinter.Directives.{print_comments, print_cfi_directives}
use gtirb_pprinter.Data.{should_exclude_data_element, data_content}
use gtirb_pprinter.Instruction.{fixup_instruction, is_nop, nops, print_ea, print_operand_list}
use gtirb_pprinter.Blocks.{Item, code, datum, item_address, print_overlap_warning, header, listing}
use gtirb_pprinter.Blocks.Overlap.{item_end, kept, end_of}

-- `definitions` are the labels of the symbols at an address, `footer` is between the address where the last
-- element ends and the next one, `opening` is the header of a section at its start, `notes` are the comments
-- for a number of bytes.
pub data Line : Type 0 where
  prologue : Line
  definitions : ℕ → Line
  overlap : ℕ → Line
  footer : Option ℕ → ℕ → Line
  opening : Section → ℕ → Line
  function : ℕ → Line
  notes : Offset → ℕ → Line
  cfi : Offset → Line
  instruction : Insn → Line
  content : DataBlock → Line

unfoldable pub instruction_line : Printer → Insn → Output
instruction_line p i =
    ok (print_ea p i.address)
    ⊹ (if is_nop p i.id
        then ok (codes "  " ++ (nop ++ nops p i.address (i.size - 1)))
        else ok (codes "  " ++ (ascii_str_tolower i.mnemonic ++ codes " "))
          ⊹ print_operand_list p i)
    ⊹ ok (codes "\n")

unfoldable pub content_line : Printer → DataBlock → Output
content_line p d = ok (if p.policy.debug then hex d.address ++ codes ":" else []) ⊹ (do
  section ← deref (get_container_section p d.address)
  excluded ← should_exclude_data_element p section d
  if excluded then nothing else data_content p d)

abbrev pub render : Printer → Line → Output
render p prologue = ok (header p.arch)
render p (definitions a) = print_symbol_definitions_at_address p a
render p (overlap a) = ok (print_overlap_warning a)
render p (footer next last) = ok (print_section_footer p next last)
render p (opening s a) = ok (section_header p s a)
render p (function a) = ok (print_function_header p a ++ codes "\n")
render p (notes o size) = ok (print_comments p o size)
render p (cfi o) = print_cfi_directives p o
render p (instruction i) = instruction_line p i
render p (content d) = content_line p d

abbrev pub instruction_lines : Printer → List Insn → Offset → List Line
instruction_lines p [] o = cfi o ∷ []
instruction_lines p (i ∷ is) o =
    let j = fixup_instruction p.handle i in
    definitions j.address
    ∷ notes o j.size
    ∷ cfi o
    ∷ instruction j
    ∷ instruction_lines p is (record o { displacement = add64 o.displacement i.size })

unfoldable pub item_lines : Printer → Item → List Line
item_lines p (code b) =
    if skip_ea p b.address
    then []
    else function b.address
      ∷ instruction_lines p (p.handle.disasm b.raw_bytes b.size b.address)
          (record { element = b.uuid; displacement = 0 })
item_lines p (datum d) =
    if skip_ea p d.address
    then []
    else notes (record { element = d.uuid; displacement = 0 }) d.size
      ∷ definitions d.address
      ∷ content d
      ∷ []

abbrev pub gap_lines : Bool → ℕ → List Line
gap_lines has_gap last = if has_gap then definitions last ∷ [] else []

-- the section whose header is written at an address
unfoldable pub opened : Printer → ℕ → Option Section
opened p a = elim (head_of (p.module_.find_sections_at a)) [
  | none ↦ none
  | some s ↦ if contains s.name p.policy.skip_sections then none else some s
]

abbrev pub opening_lines : ℕ → Option Section → List Line
opening_lines a none = []
opening_lines a (some s) = opening s a ∷ []

unfoldable pub listing_lines : Printer → ℕ → List Item → List Line
unfolding item_lines
listing_lines p last [] = []
listing_lines p last (i ∷ is) =
    let skipping = listing_lines p last is in
    let keeping = listing_lines p (item_end i) is in
    if ltb (item_address i) last
    then overlap (item_address i) ∷ skipping
    else gap_lines (ltb last (item_address i)) last
      ++ (footer (some (item_address i)) last
          ∷ (opening_lines (item_address i) (opened p (item_address i))
              ++ (item_lines p i ++ keeping)))

abbrev pub final_address : Printer → ℕ
final_address p = let is = listing p.module_ in end_of 0 (kept 0 is)

unfoldable pub document : Printer → List Line
unfolding listing_lines
document p =
    prologue
    ∷ (listing_lines p 0 (listing p.module_)
        ++ (definitions (final_address p) ∷ footer none (final_address p) ∷ []))
