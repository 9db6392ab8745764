-- ===== src/Symbols/Labels.antt =====
-- Labels made of addresses, and references to symbols.
use gtirb_pprinter.Prelude.{
  ℕ, if◌then◌else◌, Bool, false, Text, codes, none, some, List, [], ◌∷◌, ◌++◌, ◌≡◌, ◌⊎◌, inl, inr,
  refl, arith, All, append_assoc, append-nil, sym,
}
use mathlib.Core.List.{append_cancel_left}
use gtirb_pprinter.Prelude.Number.{hex, hex-injective}
use gtirb_pprinter.Prelude.Result.{Output, ok, ◌⊹◌, each}
use gtirb_pprinter.Gtirb.{Symbol}
use gtirb_pprinter.Syntax.{format_symbol_name}
use gtirb_pprinter.Printer.{Printer, is_ambiguous_symbol, skip_ea}
use gtirb_pprinter.Symbols.{
  get_symbol_name, print_symbol_name, print_symbol_reference, print_symbol_definitions_at_address,
  find_in, get_forwarded_symbol_name,
}

-- Two addresses have the same label only if they are equal.
pub get_symbol_name-injective : (a b : ℕ) → get_symbol_name a ≡ get_symbol_name b → a ≡ b
unfolding get_symbol_name
get_symbol_name-injective a b h =
    hex-injective a b (append_cancel_left (codes ".L_") (hex a) (hex b) h)

-- the label of a symbol at `a`
abbrev pub label : Printer → ℕ → Symbol → Text
label p a s = if is_ambiguous_symbol p s.name then get_symbol_name a else format_symbol_name s.name

abbrev pub In : Symbol → List Symbol → Type 0
In s [] = ⊥
In s (t ∷ ts) = (s ≡ t) ⊎ In s ts

print_symbol_name-label :
    (p : Printer) (a : ℕ) (s : Symbol)
    → s.address ≡ some a
    → print_symbol_name p s ≡ ok (label p a s)
unfolding print_symbol_name
print_symbol_name-label p a s h = ground arith

definition_line : Printer → Symbol → Output
definition_line p s = print_symbol_name p s ⊹ ok (codes ":\n")

-- where a line starts
abbrev pub IsLineStart : Text → Type 0
IsLineStart pre = (pre ≡ []) ⊎ ((s : Text) × (pre ≡ s ++ codes "\n"))

-- The text is a label, with a colon and the end of a line after it, and nothing before it in its line.
abbrev pub Defines : Text → Output → Type 0
Defines t m =
    (pre : Text) × (post : Text) × IsLineStart pre × (m ≡ ok (pre ++ (t ++ (codes ":\n" ++ post))))

line_start : (l pre : Text) → IsLineStart pre → IsLineStart ((l ++ codes ":\n") ++ pre)
line_start l pre (inl e) =
    inr (l ++ codes ":", rw (e, append-nil) (sym (append_assoc l (codes ":") (codes "\n"))))
line_start l pre (inr (s, e)) = inr ((l ++ codes ":\n") ++ s, rw e (simp append_assoc))

definitions_total :
    (p : Printer) (a : ℕ) (ss : List Symbol)
    → All (λ (s : Symbol). s.address ≡ some a) ss
    → (t : Text) × (each (definition_line p) ss ≡ ok t)
unfolding definition_line
definitions_total p a [] h = ([], refl)
definitions_total p a (s ∷ ss) (h, hs) =
    let (t, e) = definitions_total p a ss hs in
    ((label p a s ++ codes ":\n") ++ t, rw (print_symbol_name-label p a s h, e) refl)

definitions_hold :
    (p : Printer) (a : ℕ) (s : Symbol) (ss : List Symbol)
    → All (λ (t : Symbol). t.address ≡ some a) ss
    → In s ss
    → Defines (label p a s) (each (definition_line p) ss)
unfolding definition_line
definitions_hold p a s [] h i = absurd i
definitions_hold p a s (t ∷ ts) (h, hs) (inl e) =
    let (rest, r) = definitions_total p a ts hs in
    ([], rest, inl refl, rw (e, print_symbol_name-label p a t h, r) (simp append_assoc))
definitions_hold p a s (t ∷ ts) (h, hs) (inr i) =
    let (pre, post, l, e) = definitions_hold p a s ts hs i in
    (
      (label p a t ++ codes ":\n") ++ pre,
      post,
      line_start (label p a t) pre l,
      rw (print_symbol_name-label p a t h, e) (simp append_assoc),
    )

pub not_forwarded :
    (p : Printer) (s : Symbol) (in_data : Bool)
    → find_in s.uuid p.module_.symbol_forwarding ≡ none
    → get_forwarded_symbol_name p s in_data ≡ ok none
unfolding get_forwarded_symbol_name
not_forwarded p s in_data f = rw (f, get_forwarded_symbol_name) refl

-- A reference to a symbol that is not forwarded and whose address is not skipped is printed as the
-- label that a line of its own defines, from its start to a colon at its end, where the symbols at
-- its address are printed, provided that these have that address.
pub print_symbol_reference-defined :
    (p : Printer) (s : Symbol) (a : ℕ) (in_data : Bool)
    → find_in s.uuid p.module_.symbol_forwarding ≡ none
    → s.address ≡ some a
    → skip_ea p a ≡ false
    → All (λ (t : Symbol). t.address ≡ some a) (p.module_.find_symbols_at a)
    → In s (p.module_.find_symbols_at a)
    → (t : Text) × (print_symbol_reference p s in_data ≡ ok t)
      × Defines t (print_symbol_definitions_at_address p a)
unfolding print_symbol_reference print_symbol_definitions_at_address
print_symbol_reference-defined p s a in_data f h k at i = (
  label p a s,
  ground (arith, not_forwarded p s in_data f, print_symbol_name-label p a s h),
  unfold definition_line in definitions_hold p a s (p.module_.find_symbols_at a) at i,
)
