-- ===== src/Examples/Documents.antt =====
-- Runs of the theorems on the document of a listing and on the header of a function.
use gtirb_pprinter.Prelude.{
  ℕ, ◌+◌, ◌≤◌, ◌<◌, ltb, if◌then◌else◌, true, false, codes, Option, none, some, [], ◌∷◌, All, ◌≡◌,
  ◌↔◌, refl, arith, inl, inr,
}
use gtirb_pprinter.Prelude.Result.{ok, each}
use gtirb_pprinter.Gtirb.{Section}
use gtirb_pprinter.Printer.{
  Printer, is_function_entry, get_container_function_name, get_container_section, skip_ea,
  is_in_skipped_section, is_in_skipped_function, before_upper_bound, get_function_name,
  is_ambiguous_symbol,
}
use gtirb_pprinter.Syntax.{is_adapted}
use gtirb_pprinter.Symbols.{print_symbol_reference}
use gtirb_pprinter.Sections.{print_function_header}
use gtirb_pprinter.Sections.Functions.{declaration, Contains, print_function_header_lem}
use gtirb_pprinter.Blocks.{print, listing}
use gtirb_pprinter.Blocks.Overlap.{Spaced}
use gtirb_pprinter.Blocks.Document.{render, document}
use gtirb_pprinter.Blocks.Document.Sites.{sites, IsRegular}
use gtirb_pprinter.Blocks.Document.Labels.{count, Holder, print-once, print-defines}
use gtirb_pprinter.Blocks.Document.Regions.{Region, sections_on, sections_at, IsMap, IsOpened}
use gtirb_pprinter.Blocks.Document.Switching.{Switched, print-Switched}
use gtirb_pprinter.Examples.{printer, main_symbol, text_section, table_data}
use gtirb_pprinter.Examples.Printing.{referrer, referring}

regular : All (IsRegular referrer) (listing referring)
unfolding listing
regular = omega arith

-- the same without the data inside the last block
abbrev apart : Printer
apart = record referrer { module_ = record referring { data_blocks = table_data ∷ [] } }

-- the instruction of the block at 8
not_skipped : skip_ea apart 8 ≡ false
unfolding skip_ea is_in_skipped_section get_container_section is_in_skipped_function
    get_container_function_name before_upper_bound get_function_name is_function_entry
    is_ambiguous_symbol
not_skipped = refl

apart-IsRegular : All (IsRegular apart) (listing apart.module_)
unfolding listing
apart-IsRegular = omega arith

apart-Spaced : Spaced 0 (listing apart.module_)
unfolding listing
apart-Spaced = omega arith

holder : Holder apart 8 (listing apart.module_)
unfolding listing
holder = inr (inr (inl (not_skipped, inl refl)))

print-once_example :
    (print referrer ≡ each (render referrer) (document referrer))
    × (count 5 (sites (document referrer)) ≤ 1)
print-once_example = print-once referrer 5 regular

print-defines_example :
    (print apart ≡ each (render apart) (document apart)) × (count 8 (sites (document apart)) ≡ 1)
print-defines_example = print-defines apart 8 apart-IsRegular apart-Spaced holder

-- the section of the first 8 bytes, and the one of the next 16
abbrev fini_section : Section
fini_section = record { uuid = 62; name = codes ".fini" }

abbrev low : Region
low = record { first = 0; size = 8; section = text_section }

abbrev high : Region
high = record { first = 8; size = 16; section = fini_section }

abbrev region : ℕ → Option Region
region a = if ltb a 8 then some low else if ltb a 24 then some high else none

abbrev switching : Printer
switching = record referrer {
  module_ = record referring {
    data_blocks = table_data ∷ [];
    find_sections_on = λ a. sections_on (region a);
    find_sections_at = λ a. sections_at a (region a);
  };
}

region-inside : (a : ℕ) (r : Region) → region a ≡ some r → (r.first ≤ a) × (a < r.first + r.size)
region-inside a r h = ground (arith, h)

region-filled :
    (a b : ℕ) (r : Region)
    → region a ≡ some r
    → r.first ≤ b
    → b < r.first + r.size
    → region b ≡ some r
region-filled a b r h k l = ground (arith, h, k, l)

switching-IsMap : IsMap switching region
switching-IsMap = record {
  on = λ a. refl;
  start = λ a. refl;
  inside = region-inside;
  filled = region-filled;
}

starts : (q r : Region) → some q ≡ some r → q.first ≡ r.first
starts q r e = ground (arith, e)

switching-IsOpened : All (IsOpened region (listing switching.module_)) (listing switching.module_)
unfolding listing
switching-IsOpened = (
  λ r e. inl (starts low r e),
  (λ r e. inl (starts low r e), (λ r e. inr (inr (inl (starts high r e))), tt)),
)

print-Switched_example :
    (print switching ≡ each (render switching) (document switching))
    × Switched switching none (document switching)
unfolding listing
print-Switched_example =
    print-Switched switching region switching-IsMap refl (omega arith) (omega arith)
      ((low, refl, omega arith), ((low, refl, omega arith), ((high, refl, omega arith), tt)))
      switching-IsOpened

main-IsEntry : is_function_entry printer 8 ≡ true
unfolding is_function_entry
main-IsEntry = refl

main-unambiguous : is_ambiguous_symbol printer main_symbol.name ≡ false
unfolding is_ambiguous_symbol
main-unambiguous = refl

main-shown : skip_ea printer 8 ≡ false
unfolding skip_ea is_in_skipped_section get_container_section is_in_skipped_function
    get_container_function_name before_upper_bound get_function_name is_function_entry
    is_ambiguous_symbol
main-shown = refl

print_function_header_lem_example :
    Contains (declaration (codes "main")) (print_function_header printer 8)
    × ((print_symbol_reference printer main_symbol false ≡ ok (codes "main"))
        ↔ (is_adapted (codes "main") ≡ false))
print_function_header_lem_example =
    print_function_header_lem printer 8 main_symbol false main-IsEntry refl main-unambiguous refl
      refl refl main-shown
