-- ===== src/Examples/Listing.antt =====
-- Runs of the theorems on blocks, sections, functions, symbols and instructions.
use gtirb_pprinter.Prelude.{
  false, Text, none, List, [], ◌∷◌, ◌++◌, map, ◌≡◌, ◌⊎◌, inl, refl, arith, subst,
}
use mathlib.Core.List.{Perm}
use gtirb_pprinter.Gtirb.{CodeBlock}
use gtirb_pprinter.Prelude.Result.{ok}
use gtirb_pprinter.Printer.{
  intel, create, is_function_entry, get_container_function_name, get_container_section, skip_ea,
  is_in_skipped_section, is_in_skipped_function, before_upper_bound, get_function_name,
  is_ambiguous_symbol,
}
use gtirb_pprinter.Printer.Functions.{ContainerName, get_container_function_name-create}
use gtirb_pprinter.Symbols.{print_symbol_reference, print_symbol_definitions_at_address}
use gtirb_pprinter.Symbols.Labels.{Defines, print_symbol_reference-defined}
use gtirb_pprinter.Sections.{print_section_footer}
use gtirb_pprinter.Sections.Switching.{Closes, footer_text, print_section_footer_lem}
use gtirb_pprinter.Blocks.{code, datum, listing, print_items, own_blocks}
use gtirb_pprinter.Blocks.Order.{Owned, listing-Perm, listing-own_blocks}
use gtirb_pprinter.Blocks.Sorting.{listing-Strict}
use gtirb_pprinter.Blocks.Overlap.{end_of, kept, marked_text, Apart, print_items-Apart}
use gtirb_pprinter.Examples.{
  capstone, sample, policy, printer, late_block, early_block, foreign_block, table_data,
  hidden_data, main_symbol,
}

sample-listing :
    listing sample ≡ code early_block ∷ datum table_data ∷ code late_block ∷ datum hidden_data ∷ []
unfolding listing
sample-listing = refl

listing-Perm_example :
    (bs : List CodeBlock) × Owned 1 (late_block ∷ foreign_block ∷ early_block ∷ []) bs
    × Perm (listing sample) (map code bs ++ map datum (table_data ∷ hidden_data ∷ []))
listing-Perm_example = listing-Perm sample

listing-Strict_example :
    listing sample ≡ code early_block ∷ datum table_data ∷ code late_block ∷ datum hidden_data ∷ []
listing-Strict_example =
    listing-Strict sample
      (code early_block ∷ datum table_data ∷ code late_block ∷ datum hidden_data ∷ [])
      ((omega arith, tt), (tt, tt))
      (subst
        (λ l. Perm l (
          map code (own_blocks 1 (late_block ∷ foreign_block ∷ early_block ∷ []))
          ++ map datum (table_data ∷ hidden_data ∷ [])))
        sample-listing (listing-own_blocks sample))
      (omega arith)

print_items-Apart_example :
    (print_items printer (code late_block ∷ datum hidden_data ∷ []) 0 ≡ (
      marked_text printer 0 (code late_block ∷ datum hidden_data ∷ []),
      end_of 0 (kept 0 (code late_block ∷ datum hidden_data ∷ [])),
    ))
    × Apart (kept 0 (code late_block ∷ datum hidden_data ∷ []))
print_items-Apart_example =
    print_items-Apart printer 0 (code late_block ∷ datum hidden_data ∷ [])
      (omega arith, (omega arith, tt))

get_container_function_name-create_example :
    ContainerName
      (create intel capstone sample policy)
      9
      (get_container_function_name (create intel capstone sample policy) 9)
get_container_function_name-create_example =
    get_container_function_name-create intel capstone sample policy 9

not_skipped : skip_ea printer 8 ≡ false
unfolding skip_ea is_in_skipped_section get_container_section is_in_skipped_function
    get_container_function_name before_upper_bound get_function_name is_function_entry
    is_ambiguous_symbol
not_skipped = refl

print_symbol_reference-defined_example :
    (t : Text) × (print_symbol_reference printer main_symbol false ≡ ok t)
    × Defines t (print_symbol_definitions_at_address printer 8)
print_symbol_reference-defined_example =
    print_symbol_reference-defined printer main_symbol 8 false refl refl not_skipped (refl, tt)
      (inl refl)

print_section_footer_lem_example :
    ((print_section_footer printer none 8 ≡ footer_text) × Closes printer none 7)
    ⊎ ((print_section_footer printer none 8 ≡ []) × (Closes printer none 7 → ⊥))
print_section_footer_lem_example = print_section_footer_lem printer none 7 8 (omega arith) refl
