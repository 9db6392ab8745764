-- ===== src/Blocks/Document/Refinement.antt =====
-- `print` of src/gtirb_pprinter/PrettyPrinter.cpp against the document.
use gtirb_pprinter.Prelude.{
  ℕ, ltb, Option, none, some, head_of, contains, List, [], ◌∷◌, append-nil, ◌≡◌, refl, sym, inl,
  inr, Bool-cases,
}
use gtirb_pprinter.Prelude.Number.{add64}
use gtirb_pprinter.Prelude.Result.{ok, ◌⊹◌, each, ⊹_assoc, ⊹-nothing, each-append}
use gtirb_pprinter.Gtirb.{Offset, Section}
use gtirb_pprinter.Capstone.{Insn}
use gtirb_pprinter.Printer.{Printer, skip_ea}
use gtirb_pprinter.Sections.{print_section_header, print_section_footer}
use gtirb_pprinter.Data.{print_data_block}
use gtirb_pprinter.Instruction.{print_instruction}
use gtirb_pprinter.Blocks.{
  Item, code, datum, item_address, print_instructions, print_block, between, print, listing,
}
use gtirb_pprinter.Blocks.Overlap.{body, item_end, marked_text, print_items-kept}
use gtirb_pprinter.Blocks.Document.{
  render, instruction_line, content_line, instruction_lines, item_lines, gap_lines, listing_lines,
  opened, opening_lines, document,
}

module _ (p : Printer) where
  print_instructions-lines :
      (is : List Insn) (o : Offset)
      → print_instructions p is o ≡ each (render p) (instruction_lines p is o)
  unfolding print_instructions print_instruction instruction_line
  print_instructions-lines [] o = sym (⊹-nothing _)
  print_instructions-lines (i ∷ is) o =
      rw (print_instructions-lines is (record o { displacement = add64 o.displacement i.size }))
        (simp ⊹_assoc)

  body-lines : (i : Item) → body p i ≡ each (render p) (item_lines p i)
  unfolding item_lines print_block print_data_block content_line
  body-lines (code b) = elim (Bool-cases (skip_ea p b.address)) [
    | inl e ↦ rw (e, item_lines, print_block) refl
    | inr e ↦ rw (e, item_lines, print_block, print_instructions-lines) refl
  ]
  body-lines (datum d) = elim (Bool-cases (skip_ea p d.address)) [
    | inl e ↦ rw (e, item_lines, print_data_block) refl
    | inr e ↦ rw (e, item_lines, print_data_block, ⊹-nothing) refl
  ]

  header_lines :
      (a : ℕ) (s : Option Section)
      → head_of (p.module_.find_sections_at a) ≡ s
      → each (render p) (opening_lines a (opened p a)) ≡ ok (print_section_header p a)
  unfolding opened print_section_header
  header_lines a none e = rw (e, opened, print_section_header) refl
  header_lines a (some s) e = elim (Bool-cases (contains s.name p.policy.skip_sections)) [
    | inl c ↦ rw (e, c, opened, print_section_header) refl
    | inr c ↦ rw (e, c, opened, print_section_header) (simp append-nil)
  ]

  between-lines :
      (next last : ℕ)
      → between p next last ≡ (
          each (render p) (gap_lines (ltb last next) last)
          ⊹ ok (print_section_footer p (some next) last)
          ⊹ each (render p) (opening_lines next (opened p next)))
  unfolding between
  between-lines next last = elim (Bool-cases (ltb last next)) [
    | inl e ↦ rw (e, header_lines next _ refl) (simp ⊹-nothing)
    | inr e ↦ rw (e, header_lines next _ refl) refl
  ]

  marked_text-lines :
      (last : ℕ) (is : List Item)
      → marked_text p last is ≡ each (render p) (listing_lines p last is)
  unfolding marked_text listing_lines
  marked_text-lines last [] = refl
  marked_text-lines last (i ∷ is) = elim (Bool-cases (ltb (item_address i) last)) [
    | inl e ↦ rw (e, marked_text, listing_lines, marked_text-lines last is) refl
    | inr e ↦
        rw
          (
            e,
            marked_text,
            listing_lines,
            marked_text-lines (item_end i) is,
            body-lines i,
            between-lines,
          )
          (simp (each-append, ⊹_assoc))
  ]

-- The text of `print`, or the fault that ends it, is that of the lines of the document, each
-- rendered in turn.
pub print-document : (p : Printer) → print p ≡ each (render p) (document p)
unfolding print document
print-document p =
    let is = listing p.module_ in
    rw
      (
        print_items-kept p 0 is,
        marked_text-lines p 0 is,
        each-append (render p) (listing_lines p 0 is),
      )
      (simp append-nil)
