-- ===== src/Blocks/Overlap.antt =====
-- Overlapping blocks in `print` of src/gtirb_pprinter/PrettyPrinter.cpp: which elements are printed, and
-- which are only reported.
use gtirb_pprinter.Prelude.{
  ℕ, ◌≤◌, ◌<◌, ◌+◌, ltb, if◌then◌else◌, true, false, List, [], ◌∷◌, ◌≡◌, ◌∙◌, ap, inl, inr, refl,
  arith, Bool-cases, All,
}
use gtirb_pprinter.Prelude.Number.{add64, u64_mod}
use gtirb_pprinter.Prelude.Result.{Output, ok, ◌⊹◌, nothing}
use gtirb_pprinter.Printer.{Printer}
use gtirb_pprinter.Data.{print_data_block}
use gtirb_pprinter.Blocks.{
  Item, code, datum, item_address, item_size, between, print_block, print_block_or_warning,
  print_data_block_or_warning, print_item, print_items, print_overlap_warning,
}

-- the text of the element alone
abbrev pub body : Printer → Item → Output
body p (code b) = print_block p b
body p (datum d) = print_data_block p d

abbrev pub item_end : Item → ℕ
item_end i = add64 (item_address i) (item_size i)

-- each element starts at `last` or later, and where the one before it ends or later
abbrev pub Spaced : ℕ → List Item → Type 0
Spaced last [] = Unit
Spaced last (i ∷ is) = (last ≤ item_address i) × Spaced (item_end i) is

-- the elements with what stands between them, without any warning
abbrev pub plain_text : Printer → ℕ → List Item → Output
plain_text p last [] = nothing
plain_text p last (i ∷ is) =
    (between p (item_address i) last ⊹ body p i) ⊹ plain_text p (item_end i) is

abbrev pub end_of : ℕ → List Item → ℕ
end_of last [] = last
end_of last (i ∷ is) = end_of (item_end i) is

print_item-apart :
    (p : Printer) (i : Item) (last : ℕ)
    → ltb (item_address i) last ≡ false
    → print_item p i last ≡ (between p (item_address i) last ⊹ body p i, item_end i)
unfolding print_item print_block_or_warning print_data_block_or_warning
print_item-apart p (code b) last h = rw h refl
print_item-apart p (datum d) last h = rw h refl

print_item-overlap :
    (p : Printer) (i : Item) (last : ℕ)
    → ltb (item_address i) last ≡ true
    → print_item p i last ≡ (ok (print_overlap_warning (item_address i)), last)
unfolding print_item print_block_or_warning print_data_block_or_warning
print_item-overlap p (code b) last h = rw h refl
print_item-overlap p (datum d) last h = rw h refl

-- If each element starts where the one before it ends or later, then all elements are printed in
-- order, without a warning, and the final address is the end of the last element.
pub print_items-Spaced :
    (p : Printer) (last : ℕ) (is : List Item)
    → Spaced last is
    → print_items p is last ≡ (plain_text p last is, end_of last is)
unfolding print_items
print_items-Spaced p last [] h = refl
print_items-Spaced p last (i ∷ is) (h, hs) =
    rw (print_item-apart p i last (ground (arith, h)), print_items-Spaced p (item_end i) is hs) refl

-- the elements that start at `last` or later, where `last` is the end of the one kept before
unfoldable pub kept : ℕ → List Item → List Item
kept last [] = []
kept last (i ∷ is) =
    let skipping = kept last is in
    let keeping = kept (item_end i) is in
    if ltb (item_address i) last then skipping else i ∷ keeping

pub kept-overlap :
    (last : ℕ) (i : Item) (is : List Item)
    → ltb (item_address i) last ≡ true
    → kept last (i ∷ is) ≡ kept last is
unfolding kept
kept-overlap last i is e = rw e refl

pub kept-apart :
    (last : ℕ) (i : Item) (is : List Item)
    → ltb (item_address i) last ≡ false
    → kept last (i ∷ is) ≡ i ∷ kept (item_end i) is
unfolding kept
kept-apart last i is e = rw e refl

kept_none : (last : ℕ) → kept last [] ≡ []
unfolding kept
kept_none last = refl

pub kept-Spaced : (last : ℕ) (is : List Item) → Spaced last is → kept last is ≡ is
kept-Spaced last [] h = kept_none last
kept-Spaced last (i ∷ is) (h, hs) =
    kept-apart last i is (ground (arith, h)) ∙ ap (λ ks. i ∷ ks) (kept-Spaced (item_end i) is hs)

-- the printed elements, and a warning for each of the others
unfoldable pub marked_text : Printer → ℕ → List Item → Output
marked_text p last [] = nothing
marked_text p last (i ∷ is) =
    let skipping = marked_text p last is in
    let keeping = marked_text p (item_end i) is in
    if ltb (item_address i) last
    then ok (print_overlap_warning (item_address i)) ⊹ skipping
    else (between p (item_address i) last ⊹ body p i) ⊹ keeping

-- no address in the list is below `n`
abbrev pub From : ℕ → List Item → Type 0
From n is = All (λ (i : Item). n ≤ item_address i) is

abbrev pub NoWrap : Item → Type 0
NoWrap i = item_address i + item_size i < u64_mod

-- each element ends where any element after it starts, or before
abbrev pub Apart : List Item → Type 0
Apart [] = Unit
Apart (i ∷ is) = From (item_address i + item_size i) is × Apart is

From-weaken : (m n : ℕ) (is : List Item) → m ≤ n → From n is → From m is
From-weaken m n [] h f = tt
From-weaken m n (i ∷ is) h (f, fs) = (omega (arith, h, f), From-weaken m n is h fs)

pub NoWrap-end : (i : Item) → NoWrap i → item_end i ≡ item_address i + item_size i
NoWrap-end i h = omega (arith, h)

pub kept-From : (last : ℕ) (is : List Item) → All NoWrap is → From last (kept last is)
unfolding kept
kept-From last [] h = tt
kept-From last (i ∷ is) (h, hs) = elim (Bool-cases (ltb (item_address i) last)) [
  | inl e ↦ rw (e, kept) (kept-From last is hs)
  | inr e ↦
      rw (e, kept)
        (
          ground (arith, e),
          From-weaken last (item_end i) (kept (item_end i) is) (ground (arith, e, h))
              (kept-From (item_end i) is hs),
        )
]

kept-Apart : (last : ℕ) (is : List Item) → All NoWrap is → Apart (kept last is)
unfolding kept
kept-Apart last [] h = tt
kept-Apart last (i ∷ is) (h, hs) = elim (Bool-cases (ltb (item_address i) last)) [
  | inl e ↦ rw (e, kept) (kept-Apart last is hs)
  | inr e ↦
      rw (e, kept)
        (
          From-weaken (item_address i + item_size i) (item_end i) (kept (item_end i) is)
              (omega (arith, h)) (kept-From (item_end i) is hs),
          kept-Apart (item_end i) is hs,
        )
]

pub print_items-kept :
    (p : Printer) (last : ℕ) (is : List Item)
    → print_items p is last ≡ (marked_text p last is, end_of last (kept last is))
unfolding print_items marked_text kept
print_items-kept p last [] = refl
print_items-kept p last (i ∷ is) = elim (Bool-cases (ltb (item_address i) last)) [
  | inl e ↦
      rw (print_item-overlap p i last e, print_items-kept p last is, e, marked_text, kept) refl
  | inr e ↦
      rw (print_item-apart p i last e, print_items-kept p (item_end i) is, e, marked_text, kept)
        refl
]

-- Whatever the elements are, as long as none of them ends beyond the 64-bit addresses: the output
-- has the elements of `kept` and a warning for each other one, and no two elements of `kept`
-- overlap.
pub print_items-Apart :
    (p : Printer) (last : ℕ) (is : List Item)
    → All NoWrap is
    → (print_items p is last ≡ (marked_text p last is, end_of last (kept last is)))
      × Apart (kept last is)
print_items-Apart p last is h = (print_items-kept p last is, kept-Apart last is h)
