-- ===== src/Blocks/Document/Lines.antt =====
-- Where the lines of the document of `print` of src/gtirb_pprinter/PrettyPrinter.cpp end.
use gtirb_pprinter.Prelude.{
  ℕ, Bool, true, false, Text, codes, Option, none, some, List, ◌++◌, ◌≡◌, ◌&&◌, is_empty, head_of,
  refl, inl, inr, Bool-cases,
}
use gtirb_pprinter.Prelude.Result.{ok, ◌⊹◌, deref, nothing}
use gtirb_pprinter.Prelude.Number.{hex}
use gtirb_pprinter.Gtirb.{Section, SymbolicExpression, Offset, CfiDirective, DataBlock}
use gtirb_pprinter.Capstone.{Insn}
use gtirb_pprinter.Printer.{Printer, Arch, intel, att, aarch64, get_container_section}
use gtirb_pprinter.Syntax.{align_directive, tab}
use gtirb_pprinter.Symbols.{find_in, print_symbol_name, print_symbol_definitions_at_address}
use gtirb_pprinter.Sections.{
  print_bar, print_alignment, section_line, section_header, print_section_footer, print_byte,
  address_before,
}
use gtirb_pprinter.Directives.{print_cfi_directives, cfi_line, find_offset, print_comments}
use gtirb_pprinter.Data.{
  print_zero_data_block, data_content, print_non_zero_data_block, print_symbolic_data, is_string,
  all_zero, should_exclude_data_element,
}
use gtirb_pprinter.Blocks.{header}
use gtirb_pprinter.Intel
use gtirb_pprinter.AArch64
use gtirb_pprinter.Blocks.Document.Ending.{
  HasEnd, IsFull, newline, after, if-IsFull, concat_map-IsFull, WritesFull, WritesEnd, ⊹-WritesEnd,
  WritesEnd-WritesFull, each-WritesFull, if-WritesFull, bind-WritesFull, bare-WritesFull, ends_line,
  ends_line-HasEnd, closing_line, ends_newline, empty, if-HasEnd,
}
use gtirb_pprinter.Blocks.Document.{Line, render, instruction_line, content_line}

directive : (s : Text) → IsFull (align_directive ++ (s ++ codes "\n"))
directive s = inr (after align_directive (s ++ codes "\n") (newline s))

module _ (p : Printer) where
  pub definitions-WritesFull : (a : ℕ) → WritesFull (print_symbol_definitions_at_address p a)
  unfolding print_symbol_definitions_at_address
  definitions-WritesFull a =
      each-WritesFull _ (p.module_.find_symbols_at a)
        (λ s. ⊹-WritesEnd (print_symbol_name p s) (ok (codes ":\n")) (codes ":", refl))

  pub instruction_line-WritesEnd : (i : Insn) → WritesEnd (instruction_line p i)
  unfolding instruction_line
  instruction_line-WritesEnd i = search (⊹-WritesEnd, closing_line)

  cfi_line-WritesEnd : (d : CfiDirective) → WritesEnd (cfi_line p d)
  unfolding cfi_line
  cfi_line-WritesEnd d = search (⊹-WritesEnd, closing_line)

  pub cfi-WritesFull :
      (o : Offset) (t : Option (List (Offset × List CfiDirective)))
      → p.module_.cfi_directives ≡ t
      → WritesFull (print_cfi_directives p o)
  unfolding print_cfi_directives
  cfi-WritesFull o none e = rw (e, print_cfi_directives) (inl refl)
  cfi-WritesFull o (some t) e =
      rw (e, print_cfi_directives)
        (each-WritesFull (cfi_line p) (find_offset o t) cfi_line-WritesEnd)

print_bar-HasEnd : (b : Bool) → HasEnd (print_bar b)
unfolding print_bar
print_bar-HasEnd true =
    after (codes "#") (codes "===================================\n")
      (codes "===================================", refl)
print_bar-HasEnd false =
    after (codes "#") (codes "-----------------------------------\n")
      (codes "-----------------------------------", refl)

print_alignment-IsFull : (a : ℕ) → IsFull (print_alignment a)
unfolding print_alignment
print_alignment-IsFull a =
    search
      (
        if-IsFull,
        directive (codes " 16"),
        directive (codes " 8"),
        directive (codes " 4"),
        directive (codes " 2"),
        empty,
      )
      depth 12

section_line-HasEnd : (p : Printer) (s : Section) → HasEnd (section_line p s)
unfolding section_line
section_line-HasEnd p s = search (if-HasEnd, after, newline) depth 12

pub section_header-HasEnd : (p : Printer) (s : Section) (a : ℕ) → HasEnd (section_header p s a)
unfolding section_header
section_header-HasEnd p s a = search (after, ends_newline) depth 12

pub print_section_footer-IsFull :
    (p : Printer) (next : Option ℕ) (last : ℕ) (s : Option Section)
    → get_container_section p (address_before last) ≡ s
    → IsFull (print_section_footer p next last)
unfolding print_section_footer
print_section_footer-IsFull p next last none e = rw (e, print_section_footer) empty
print_section_footer-IsFull p next last (some s) e =
    rw (e, print_section_footer) (search (if-IsFull, empty, inr, after, print_bar-HasEnd) depth 12)

print_zero_data_block-HasEnd : (d : DataBlock) → HasEnd (print_zero_data_block d)
unfolding print_zero_data_block
print_zero_data_block-HasEnd d = search (after, ends_newline) depth 12

print_byte-HasEnd : (b : ℕ) → HasEnd (print_byte b)
unfolding print_byte
print_byte-HasEnd b = search (after, ends_newline) depth 12

module _ (p : Printer) (g : p.policy.debug ≡ false) where
  pub print_comments-IsFull : (o : Offset) (n : ℕ) → IsFull (print_comments p o n)
  unfolding print_comments
  print_comments-IsFull o n = rw (g, print_comments) empty

  non_zero-WritesFull :
      (d : DataBlock) (e : Option SymbolicExpression)
      → head_of (p.module_.find_symbolic_expressions_at d.address) ≡ e
      → WritesFull (print_non_zero_data_block p d)
  unfolding print_non_zero_data_block
  non_zero-WritesFull d (some e) h =
      rw (h, print_non_zero_data_block)
        (WritesEnd-WritesFull (ok tab ⊹ print_symbolic_data p e d ⊹ ok (codes "\n"))
          (search (⊹-WritesEnd, closing_line)))
  non_zero-WritesFull d none h =
      elim (Bool-cases (is_string (find_in d.uuid p.module_.encodings))) [
        | inl e ↦ rw (h, e, print_non_zero_data_block) (inr (search (after, newline) depth 12))
        | inr e ↦
            rw (h, e, print_non_zero_data_block)
              (concat_map-IsFull (λ b. tab ++ print_byte b) d.bytes
                (λ b. inr (after tab (print_byte b) (print_byte-HasEnd b))))
      ]

  data_content-WritesFull : (d : DataBlock) → WritesFull (data_content p d)
  unfolding data_content
  data_content-WritesFull d =
      if-WritesFull
        (all_zero d.bytes && is_empty (p.module_.find_symbolic_expressions_at d.address))
        (ok (print_zero_data_block d)) (print_non_zero_data_block p d)
        (inr (print_zero_data_block-HasEnd d)) (non_zero-WritesFull d _ refl)

  pub content_line-WritesFull : (d : DataBlock) → WritesFull (content_line p d)
  unfolding content_line
  content_line-WritesFull d = bare-WritesFull p.policy.debug (hex d.address ++ codes ":") _ g (
      bind-WritesFull (deref (get_container_section p d.address)) _ (λ s.
        bind-WritesFull (should_exclude_data_element p s d) _
          (λ b. if-WritesFull b nothing (data_content p d) empty (data_content-WritesFull d))))

pub header-IsFull : (a : Arch) → IsFull (header a)
unfolding Intel.print_header AArch64.print_header print_bar ends_line
header-IsFull intel = inr (ends_line-HasEnd Intel.print_header refl)
header-IsFull att = empty
header-IsFull aarch64 = inr (ends_line-HasEnd AArch64.print_header refl)

abbrev pub IsWritten : Printer → Line → Type 0
IsWritten p l = WritesFull (render p l)
