-- ===== src/Total/Names.antt =====
-- Symbols, symbolic expressions, CFI directives.
use gtirb_pprinter.Prelude.{
  ℕ, Bool, true, Text, codes, Option, none, some, List, [], ◌∷◌, ◌++◌, All, ◌≡◌, inl, inr, refl,
  arith, Option-cases,
}
use gtirb_pprinter.Prelude.Int.{ℤ}
use gtirb_pprinter.Prelude.Result.{ok, Writes, ⊹-Writes, each, each-Writes}
use gtirb_pprinter.Gtirb.{Symbol, Offset, CfiDirective}
use gtirb_pprinter.Printer.{Printer}
use gtirb_pprinter.Symbols.{
  ending_for, print_symbol_name, print_symbol_reference, print_symbol_definitions_at_address,
  get_forwarded_symbol_name, print_sym_addr_const, print_sym_addr_addr,
}
use gtirb_pprinter.Directives.{cfi_line, print_cfi_directives, find_offset}
use gtirb_pprinter.Total.{IsNamed, IsForwarded, IsReferable, IsPrintable}

pub print_symbol_name-Writes :
    (p : Printer) (s : Symbol) → IsNamed p s → Writes (print_symbol_name p s)
unfolding print_symbol_name
print_symbol_name-Writes p s (inl h) = ground (arith, h)
print_symbol_name-Writes p s (inr (a, h)) = ground (arith, h)

forwarded :
    (p : Printer) (s : Symbol) (in_data : Bool)
    → IsForwarded p s
    → (r : Option Text) × (get_forwarded_symbol_name p s in_data ≡ ok r)
unfolding get_forwarded_symbol_name
forwarded p s in_data (inl h) = (none, rw (h, get_forwarded_symbol_name) refl)
forwarded p s in_data (inr (u, d, h, n)) =
    (some (d.name ++ ending_for p.arch p s in_data), rw (h, n, get_forwarded_symbol_name) refl)

reference :
    (p : Printer) (s : Symbol) (in_data : Bool) (r : Option Text)
    → get_forwarded_symbol_name p s in_data ≡ ok r
    → IsNamed p s
    → Writes (print_symbol_reference p s in_data)
unfolding print_symbol_reference
reference p s in_data r e h = ground (arith, e, print_symbol_name-Writes p s h)

pub print_symbol_reference-Writes :
    (p : Printer) (s : Symbol) (in_data : Bool)
    → IsReferable p s
    → Writes (print_symbol_reference p s in_data)
print_symbol_reference-Writes p s in_data (n, f) =
    let (r, e) = forwarded p s in_data f in reference p s in_data r e n

All-map {ℓ κ μ} :
    {A : Type ℓ} (P : A → Type κ) (Q : A → Type μ) (xs : List A)
    → ((a : A) → P a → Q a)
    → All P xs
    → All Q xs
All-map P Q [] f h = tt
All-map P Q (x ∷ xs) f (h, hs) = (f x h, All-map P Q xs f hs)

pub definitions-Writes :
    (p : Printer) (a : ℕ) → IsPrintable p → Writes (print_symbol_definitions_at_address p a)
unfolding print_symbol_definitions_at_address
definitions-Writes p a h = each-Writes _ (p.module_.find_symbols_at a) (
    All-map (IsNamed p) _ (p.module_.find_symbols_at a)
      (λ s n. ⊹-Writes (print_symbol_name p s) _ (print_symbol_name-Writes p s n) tt) (h.named a))

pub print_sym_addr_const-Writes :
    (p : Printer) (s : Symbol) (o : ℤ) (in_data : Bool)
    → IsReferable p s
    → Writes (print_sym_addr_const p s o in_data)
unfolding print_sym_addr_const
print_sym_addr_const-Writes p s o in_data h =
    ⊹-Writes (print_symbol_reference p s in_data) _ (print_symbol_reference-Writes p s in_data h) tt

pub print_sym_addr_addr-Writes :
    (p : Printer) (s t : Symbol) (in_data : Bool)
    → IsReferable p s
    → IsReferable p t
    → Writes (print_sym_addr_addr p s t in_data)
unfolding print_sym_addr_addr
print_sym_addr_addr-Writes p s t in_data h k =
    ⊹-Writes (print_symbol_reference p s in_data) _ (print_symbol_reference-Writes p s in_data h)
      (⊹-Writes (ok (codes "-")) _ tt (print_symbol_reference-Writes p t in_data k))

cfi_line-Writes : (p : Printer) (d : CfiDirective) → IsPrintable p → Writes (cfi_line p d)
unfolding cfi_line
cfi_line-Writes p d h = elim (Option-cases (p.module_.symbol_node d.symbol)) [
  | inl e ↦ rw (e, cfi_line) tt
  | inr (s, e) ↦ ground (arith, e, print_symbol_reference-Writes p s true (h.nodes d.symbol s e))
]

directives-Writes :
    (p : Printer) (ds : List CfiDirective) → IsPrintable p → Writes (each (cfi_line p) ds)
directives-Writes p ds h = each-Writes (cfi_line p) ds (go ds)
  where
    go : (es : List CfiDirective) → All (λ d. Writes (cfi_line p d)) es
    go [] = tt
    go (d ∷ es) = (cfi_line-Writes p d h, go es)

pub print_cfi_directives-Writes :
    (p : Printer) (o : Offset) → IsPrintable p → Writes (print_cfi_directives p o)
unfolding print_cfi_directives
print_cfi_directives-Writes p o h = elim (Option-cases p.module_.cfi_directives) [
  | inl e ↦ ground (arith, e)
  | inr (t, e) ↦ ground (arith, e, directives-Writes p (find_offset o t) h)
]
