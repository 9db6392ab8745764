-- ===== src/Blocks/Document/Written.antt =====
-- The document of `print` of src/gtirb_pprinter/PrettyPrinter.cpp as full lines.
use gtirb_pprinter.Prelude.{
  ℕ, ltb, Bool, true, false, Option, none, some, List, [], ◌∷◌, ◌≡◌, refl, inl, inr, arith,
  Bool-cases, All, All-append,
}
use gtirb_pprinter.Prelude.Result.{each}
use gtirb_pprinter.Prelude.Number.{add64}
use gtirb_pprinter.Gtirb.{Section, Offset}
use gtirb_pprinter.Capstone.{Insn}
use gtirb_pprinter.Printer.{Printer, skip_ea}
use gtirb_pprinter.Sections.{print_function_header}
use gtirb_pprinter.Instruction.{fixup_instruction}
use gtirb_pprinter.Blocks.{Item, code, datum, item_address, listing, print}
use gtirb_pprinter.Blocks.Overlap.{item_end, Spaced}
use gtirb_pprinter.Blocks.Document.Refinement.{print-document}
use gtirb_pprinter.Blocks.Document.Ending.{newline, WritesEnd-WritesFull}
use gtirb_pprinter.Blocks.Document.{
  render, instruction_line, instruction_lines, item_lines, gap_lines, opened, opening_lines,
  listing_lines, document, final_address,
}
use gtirb_pprinter.Blocks.Document.Lines.{
  definitions-WritesFull, instruction_line-WritesEnd, cfi-WritesFull, section_header-HasEnd,
  print_section_footer-IsFull, print_comments-IsFull, content_line-WritesFull, header-IsFull,
  IsWritten,
}

module _ (p : Printer) (g : p.policy.debug ≡ false) where
  instruction_lines-IsWritten :
      (is : List Insn) (o : Offset) → All (IsWritten p) (instruction_lines p is o)
  instruction_lines-IsWritten [] o = (cfi-WritesFull p o _ refl, tt)
  instruction_lines-IsWritten (i ∷ is) o =
      let j = fixup_instruction p.handle i in
      (
        definitions-WritesFull p j.address,
        (
          print_comments-IsFull p g o j.size,
          (
            cfi-WritesFull p o _ refl,
            (
              WritesEnd-WritesFull (instruction_line p j) (instruction_line-WritesEnd p j),
              instruction_lines-IsWritten is
                  (record o { displacement = add64 o.displacement i.size }),
            ),
          ),
        ),
      )

  item_lines-IsWritten : (i : Item) → All (IsWritten p) (item_lines p i)
  unfolding item_lines
  item_lines-IsWritten (code b) = elim (Bool-cases (skip_ea p b.address)) [
    | inl e ↦ rw (e, item_lines) tt
    | inr e ↦
        rw (e, item_lines)
          (
            inr (newline (print_function_header p b.address)),
            instruction_lines-IsWritten (p.handle.disasm b.raw_bytes b.size b.address)
                (record { element = b.uuid; displacement = 0 }),
          )
  ]
  item_lines-IsWritten (datum d) = elim (Bool-cases (skip_ea p d.address)) [
    | inl e ↦ rw (e, item_lines) tt
    | inr e ↦
        rw (e, item_lines)
          (
            print_comments-IsFull p g (record { element = d.uuid; displacement = 0 }) d.size,
            (definitions-WritesFull p d.address, (content_line-WritesFull p g d, tt)),
          )
  ]

  opening_lines-IsWritten : (a : ℕ) (s : Option Section) → All (IsWritten p) (opening_lines a s)
  opening_lines-IsWritten a none = tt
  opening_lines-IsWritten a (some s) = (inr (section_header-HasEnd p s a), tt)

  gap_lines-IsWritten : (c : Bool) (last : ℕ) → All (IsWritten p) (gap_lines c last)
  gap_lines-IsWritten true last = (definitions-WritesFull p last, tt)
  gap_lines-IsWritten false last = tt

  listing_lines-IsWritten :
      (last : ℕ) (is : List Item) → Spaced last is → All (IsWritten p) (listing_lines p last is)
  unfolding listing_lines
  listing_lines-IsWritten last [] h = tt
  listing_lines-IsWritten last (i ∷ is) (h, hs) =
      let a = item_address i in
      let no_overlap : ltb a last ≡ false = ground (arith, h) in
      rw (no_overlap, listing_lines)
        (All-append (IsWritten p) (gap_lines (ltb last a) last) _
          (gap_lines-IsWritten (ltb last a) last)
          (
            print_section_footer-IsFull p (some a) last _ refl,
            All-append (IsWritten p) (opening_lines a (opened p a)) _
                (opening_lines-IsWritten a (opened p a))
                (All-append (IsWritten p) (item_lines p i) _ (item_lines-IsWritten i)
                  (listing_lines-IsWritten (item_end i) is hs)),
          ))

-- Outside the debug mode, where every element that `print` visits starts where the one before it ends or
-- later: `print` writes the lines of the document in turn, and what is written for each of these lines, if
-- no fault ends it, is nothing or ends with the end of a line.
pub print-IsWritten :
    (p : Printer)
    → p.policy.debug ≡ false
    → Spaced 0 (listing p.module_)
    → (print p ≡ each (render p) (document p)) × All (IsWritten p) (document p)
unfolding document
print-IsWritten p g h = (
  print-document p,
  (
    header-IsFull p.arch,
    All-append (IsWritten p) (listing_lines p 0 (listing p.module_)) _
        (listing_lines-IsWritten p g 0 (listing p.module_) h)
        (
          definitions-WritesFull p (final_address p),
          (print_section_footer-IsFull p none (final_address p) _ refl, tt),
        ),
  ),
)
