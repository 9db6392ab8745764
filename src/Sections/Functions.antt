-- ===== src/Sections/Functions.antt =====
-- The header of a function in src/gtirb_pprinter/ElfPrettyPrinter.cpp, and the name under which the rest of the
-- listing of src/gtirb_pprinter/PrettyPrinter.cpp refers to the function.
use gtirb_pprinter.Prelude.{
  ℕ, true, false, Bool, Text, codes, none, some, ◌++◌, head_of, is_empty, append_assoc, ◌≡◌, ◌↔◌,
  refl, ap, inl, inr, arith, Bool-cases, length, length-append,
}
use gtirb_pprinter.Prelude.Result.{ok}
use gtirb_pprinter.Gtirb.{Symbol}
use gtirb_pprinter.Syntax.{comment, is_adapted, format_symbol_name}
use gtirb_pprinter.Printer.{
  Printer, is_function_entry, is_ambiguous_symbol, get_function_name, skip_ea,
}
use gtirb_pprinter.Symbols.{print_symbol_name, print_symbol_reference, find_in}
use gtirb_pprinter.Symbols.Labels.{not_forwarded}
use gtirb_pprinter.Sections.{print_bar, print_alignment, function_header, print_function_header}

-- the lines that make the name global, make it a function and define it
abbrev pub declaration : Text → Text
declaration name =
    codes ".globl "
    ++ (name ++ (codes "\n.type " ++ (name ++ (codes ", @function\n" ++ (name ++ codes ":\n")))))

abbrev pub Contains : Text → Text → Type 0
Contains t s = (pre : Text) × (post : Text) × (s ≡ pre ++ (t ++ post))

function_header-Contains :
    (name : Text) (x : ℕ) → Contains (declaration name) (function_header name x)
unfolding function_header
function_header-Contains name x = (
  comment ++ (codes " BEGIN - Function Header\n" ++ (print_bar false ++ print_alignment x)),
  print_bar false ++ (comment ++ codes " END   - Function Header\n"),
  simp append_assoc,
)

named :
    (p : Printer) (x : ℕ) (s : Symbol)
    → is_function_entry p x ≡ true
    → head_of (p.module_.find_symbols_at x) ≡ some s
    → is_ambiguous_symbol p s.name ≡ false
    → get_function_name p x ≡ s.name
unfolding get_function_name
named p x s e h a = rw (e, h, get_function_name) (rw a refl)

renamed_differs : (n : Text) → n ++ codes "_renamed" ≡ n → ⊥
renamed_differs n h = omega (arith, length-append n (codes "_renamed"), ap length h)

format_symbol_name-same : (n : Text) → (format_symbol_name n ≡ n) ↔ (is_adapted n ≡ false)
unfolding format_symbol_name
format_symbol_name-same n = elim (Bool-cases (is_adapted n)) [
  | inl e ↦ rw e ((λ h. absurd (renamed_differs n h)), (λ h. cc))
  | inr e ↦ rw e ((λ h. refl), (λ h. refl))
]

ok-same : (n t : Text) → (ok t ≡ ok n) ↔ (t ≡ n)
ok-same n t = ((λ h. cc), (λ h. ap ok h))

print_symbol_name-format :
    (p : Printer) (s : Symbol)
    → is_ambiguous_symbol p s.name ≡ false
    → print_symbol_name p s ≡ ok (format_symbol_name s.name)
unfolding print_symbol_name
print_symbol_name-format p s a = rw a refl

-- A symbol that is not forwarded, at an address that is not skipped, is referenced by its own name.
print_symbol_reference-name :
    (p : Printer) (s : Symbol) (in_data : Bool) (x : ℕ)
    → find_in s.uuid p.module_.symbol_forwarding ≡ none
    → s.address ≡ some x
    → skip_ea p x ≡ false
    → print_symbol_reference p s in_data ≡ print_symbol_name p s
unfolding print_symbol_reference
print_symbol_reference-name p s in_data x f h k = ground (arith, not_forwarded p s in_data f, h, k)

-- At a function's entry with a first symbol whose name is not empty and not ambiguous, the header declares
-- the plain name of that symbol as a global label and as a function. If the symbol is at this address, is
-- not forwarded, and the address is not skipped, then each reference to the symbol, of code or of data, is
-- this same name exactly when it is not one of the names to avoid.
pub print_function_header_lem :
    (p : Printer) (x : ℕ) (s : Symbol) (in_data : Bool)
    → is_function_entry p x ≡ true
    → head_of (p.module_.find_symbols_at x) ≡ some s
    → is_ambiguous_symbol p s.name ≡ false
    → is_empty s.name ≡ false
    → s.address ≡ some x
    → find_in s.uuid p.module_.symbol_forwarding ≡ none
    → skip_ea p x ≡ false
    → Contains (declaration s.name) (print_function_header p x)
      × ((print_symbol_reference p s in_data ≡ ok s.name) ↔ (is_adapted s.name ≡ false))
unfolding print_function_header
print_function_header_lem p x s in_data e h a n at f k =
    let same = format_symbol_name-same s.name in
    let plain = ok-same s.name (format_symbol_name s.name) in
    (
      rw (named p x s e h a, n) (function_header-Contains s.name x),
      rw (print_symbol_reference-name p s in_data x f at k, print_symbol_name-format p s a)
          (
            (λ (k : ok (format_symbol_name s.name) ≡ ok s.name). same.0 (plain.0 k)),
            (λ k. plain.1 (same.1 k)),
          ),
    )
