-- ===== src/Blocks.antt =====
-- The blocks of a module in address order: `print`, `printBlockOrWarning`,
-- `printDataBlockOrWarning` and `printBlock` of src/gtirb_pprinter/PrettyPrinter.cpp.
pub mod Document
pub mod Order
pub mod Overlap
pub mod Sorting
use gtirb_pprinter.Prelude.{
  ℕ, zero, suc, ◌+◌, ltb, leb, ◌==◌, if◌then◌else◌, Bool, true, false, not, Text, codes, Option,
  none, some, List, [], ◌∷◌, ◌++◌, is_empty, map,
}
use gtirb_pprinter.Prelude.Number.{hex, add64}
use gtirb_pprinter.Prelude.Result.{Output, ok, ◌⊹◌, nothing}
use gtirb_pprinter.Gtirb.{Offset, CodeBlock, DataBlock, Module}
use gtirb_pprinter.Capstone.{Insn}
use gtirb_pprinter.Syntax.{comment}
use gtirb_pprinter.Printer.{Printer, Arch, intel, att, aarch64, skip_ea}
use gtirb_pprinter.Symbols.{print_symbol_definitions_at_address}
use gtirb_pprinter.Sections.{print_section_header, print_section_footer, print_function_header}
use gtirb_pprinter.Directives.{print_cfi_directives}
use gtirb_pprinter.Data.{print_data_block}
use gtirb_pprinter.Instruction.{fixup_instruction, print_instruction}
use gtirb_pprinter.Intel
use gtirb_pprinter.AArch64

-- No newline ends the warning.
unfoldable pub print_overlap_warning : ℕ → Text
print_overlap_warning addr =
    comment ++ (codes " WARNING: found overlapping element at address " ++ (hex addr ++ codes ": "))

-- the instructions of a block, with their offsets in it
unfoldable pub print_instructions : Printer → List Insn → Offset → Output
print_instructions p [] o = print_cfi_directives p o
print_instructions p (i ∷ is) o =
    print_instruction p (fixup_instruction p.handle i) o
    ⊹ ok (codes "\n")
    ⊹ print_instructions p is (record o { displacement = add64 o.displacement i.size })

unfoldable pub print_block : Printer → CodeBlock → Output
unfolding print_instructions
print_block p b =
    if skip_ea p b.address
    then nothing
    else ok (print_function_header p b.address ++ codes "\n")
      ⊹ print_instructions p (p.handle.disasm b.raw_bytes b.size b.address)
          (record { element = b.uuid; displacement = 0 })

-- what stands between the element that ends at `last` and the one at `next`
unfoldable pub between : Printer → ℕ → ℕ → Output
between p next last =
    (if ltb last next then print_symbol_definitions_at_address p last else nothing)
    ⊹ ok (print_section_footer p (some next) last ++ print_section_header p next)

-- the text and the new `last`
unfoldable pub print_block_or_warning : Printer → CodeBlock → ℕ → Output × ℕ
unfolding between
print_block_or_warning p b last =
    if ltb b.address last
    then (ok (print_overlap_warning b.address), last)
    else (between p b.address last ⊹ print_block p b, add64 b.address b.size)

unfoldable pub print_data_block_or_warning : Printer → DataBlock → ℕ → Output × ℕ
unfolding between
print_data_block_or_warning p d last =
    if ltb d.address last
    then (ok (print_overlap_warning d.address), last)
    else (between p d.address last ⊹ print_data_block p d, add64 d.address d.size)

-- an element of the listing
pub data Item : Type 0 where
  code : CodeBlock → Item
  datum : DataBlock → Item

abbrev pub item_address : Item → ℕ
item_address (code b) = b.address
item_address (datum d) = d.address

abbrev pub item_size : Item → ℕ
item_size (code b) = b.size
item_size (datum d) = d.size

unfoldable pub print_item : Printer → Item → ℕ → Output × ℕ
print_item p (code b) last = print_block_or_warning p b last
print_item p (datum d) last = print_data_block_or_warning p d last

-- `std::sort` by address, as an insertion sort: blocks of equal address keep their order, which
-- the library leaves open.
pub insert_block : CodeBlock → List CodeBlock → List CodeBlock
insert_block b [] = b ∷ []
insert_block b (c ∷ cs) =
    let rest = insert_block b cs in if leb b.address c.address then b ∷ c ∷ cs else c ∷ rest

pub sort_blocks : List CodeBlock → List CodeBlock
unfolding insert_block
sort_blocks [] = []
sort_blocks (b ∷ bs) = insert_block b (sort_blocks bs)

-- the blocks of the control-flow graph that belong to the module
pub own_blocks : ℕ → List CodeBlock → List CodeBlock
own_blocks m [] = []
own_blocks m (b ∷ bs) = let rest = own_blocks m bs in if b.owner == m then b ∷ rest else rest

-- the order in which the three loops of `print` visit the two sequences
pub interleave : List CodeBlock → List DataBlock → List Item
interleave [] ds = map datum ds
interleave (b ∷ bs) [] = code b ∷ map code bs
interleave (b ∷ bs) (d ∷ ds) =
    let first_code = interleave bs (d ∷ ds) in
    let first_data = interleave (b ∷ bs) ds in
    if leb b.address d.address then code b ∷ first_code else datum d ∷ first_data

unfoldable pub listing : Module → List Item
unfolding interleave sort_blocks own_blocks
listing m = interleave (sort_blocks (own_blocks m.uuid m.cfg_blocks)) m.data_blocks

unfoldable pub print_items : Printer → List Item → ℕ → Output × ℕ
print_items p [] last = (nothing, last)
print_items p (i ∷ is) last =
    let (t, next) = print_item p i last in let (ts, end) = print_items p is next in (t ⊹ ts, end)

abbrev header : Arch → Text
header intel = Intel.print_header
header att = []
header aarch64 = AArch64.print_header

-- `PrettyPrinterBase::print`; the footer is empty
unfoldable pub print : Printer → Output
unfolding print_items
print p =
    let (t, last) = print_items p (listing p.module_) 0 in
    ok (header p.arch)
    ⊹ t
    ⊹ print_symbol_definitions_at_address p last
    ⊹ ok (print_section_footer p none last)
