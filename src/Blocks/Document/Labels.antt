-- ===== src/Blocks/Document/Labels.antt =====
-- How often the document of `print` of src/gtirb_pprinter/PrettyPrinter.cpp defines the labels at an address.
use gtirb_pprinter.Prelude.{
  ℕ, suc, ◌+◌, ◌≤◌, ◌<◌, ltb, ◌==◌, if◌then◌else◌, false, none, some, List, [], ◌∷◌, ◌++◌, ◌≡◌, ◌⊎◌,
  refl, inl, inr, arith, Bool-cases, subst, sym, All,
}
use gtirb_pprinter.Prelude.Number.{add64}
use gtirb_pprinter.Prelude.Result.{each}
use gtirb_pprinter.Gtirb.{Offset}
use gtirb_pprinter.Capstone.{Insn}
use gtirb_pprinter.Printer.{Printer, skip_ea}
use gtirb_pprinter.Instruction.Fixup.{address-fixup_instruction}
use gtirb_pprinter.Blocks.{Item, code, datum, item_address, listing, print}
use gtirb_pprinter.Blocks.Overlap.{item_end, kept, kept-overlap, kept-apart, kept-Spaced, Spaced}
use gtirb_pprinter.Blocks.Document.{
  Line, prologue, definitions, overlap, footer, opening, function, notes, cfi, instruction, content,
  opened, opening_lines, instruction_lines, item_lines, gap_lines, listing_lines, document,
  final_address, render,
}
use gtirb_pprinter.Blocks.Document.Refinement.{print-document}
use gtirb_pprinter.Blocks.Document.Sites.{sites, Rising, IsRegular, document-Rising}

abbrev pub count : ℕ → List ℕ → ℕ
count a [] = 0
count a (n ∷ ns) = (if n == a then 1 else 0) + count a ns

-- One of the instructions is at the address.
abbrev pub Starts : ℕ → List Insn → Type 0
Starts a [] = ⊥
Starts a (i ∷ is) = (i.address ≡ a) ⊎ Starts a is

-- The element is not skipped, and has an instruction or is a data block at the address.
abbrev pub Holds : Printer → ℕ → Item → Type 0
Holds p a (code b) =
    (skip_ea p b.address ≡ false) × Starts a (p.handle.disasm b.raw_bytes b.size b.address)
Holds p a (datum d) = (skip_ea p d.address ≡ false) × (d.address ≡ a)

abbrev pub Holder : Printer → ℕ → List Item → Type 0
Holder p a [] = ⊥
Holder p a (i ∷ is) = Holds p a i ⊎ Holder p a is

Rising-count_zero : (a n : ℕ) (ns : List ℕ) → a < n → Rising n ns → count a ns ≡ 0
Rising-count_zero a n [] h r = refl
Rising-count_zero a n (m ∷ ns) h (r, rs) =
    ground (arith, Rising-count_zero a (suc m) ns (omega (arith, h, r)) rs)

Rising-count : (a n : ℕ) (ns : List ℕ) → Rising n ns → count a ns ≤ 1
Rising-count a n [] r = omega arith
Rising-count a n (m ∷ ns) (r, rs) =
    ground (arith, Rising-count_zero a (suc m) ns, Rising-count a (suc m) ns rs)

module _ (a : ℕ) where
  abbrev marks : List Line → ℕ
  marks ls = count a (sites ls)

  marks-append : (xs ys : List Line) → marks (xs ++ ys) ≡ marks xs + marks ys
  marks-append [] ys = omega arith
  marks-append (definitions b ∷ xs) ys = omega (arith, marks-append xs ys)
  marks-append (prologue ∷ xs) ys = marks-append xs ys
  marks-append (overlap b ∷ xs) ys = marks-append xs ys
  marks-append (footer b c ∷ xs) ys = marks-append xs ys
  marks-append (opening s b ∷ xs) ys = marks-append xs ys
  marks-append (function b ∷ xs) ys = marks-append xs ys
  marks-append (notes o n ∷ xs) ys = marks-append xs ys
  marks-append (cfi o ∷ xs) ys = marks-append xs ys
  marks-append (instruction i ∷ xs) ys = marks-append xs ys
  marks-append (content d ∷ xs) ys = marks-append xs ys

  module _ (p : Printer) where
    instruction_lines-marks :
        (is : List Insn) (o : Offset) → Starts a is → 1 ≤ marks (instruction_lines p is o)
    instruction_lines-marks [] o h = absurd h
    instruction_lines-marks (i ∷ is) o h = rw (address-fixup_instruction p.handle i) (
        ground (
          arith,
          h,
          instruction_lines-marks is (record o { displacement = add64 o.displacement i.size }),
        ))

    item_lines-marks : (i : Item) → Holds p a i → 1 ≤ marks (item_lines p i)
    unfolding item_lines
    item_lines-marks (code b) (s, h) =
        rw (s, item_lines)
          (instruction_lines-marks (p.handle.disasm b.raw_bytes b.size b.address)
            (record { element = b.uuid; displacement = 0 }) h)
    item_lines-marks (datum d) (s, h) = rw (s, item_lines) (ground (arith, h))

    listing_lines-marks :
        (last : ℕ) (is : List Item)
        → Holder p a (kept last is)
        → 1 ≤ marks (listing_lines p last is)
    unfolding listing_lines kept
    listing_lines-marks last [] h = absurd h
    listing_lines-marks last (i ∷ is) h = elim (Bool-cases (ltb (item_address i) last)) [
      | inl e ↦
          rw (e, listing_lines)
            (listing_lines-marks last is (subst (Holder p a) (kept-overlap last i is e) h))
      | inr e ↦
          rw (e, listing_lines)
            (ground (
              arith,
              marks-append (gap_lines (ltb last (item_address i)) last) (
                  footer (some (item_address i)) last
                  ∷ (opening_lines (item_address i) (opened p (item_address i))
                      ++ (item_lines p i ++ listing_lines p (item_end i) is))),
              marks-append (opening_lines (item_address i) (opened p (item_address i)))
                  (item_lines p i ++ listing_lines p (item_end i) is),
              marks-append (item_lines p i) (listing_lines p (item_end i) is),
              item_lines-marks i,
              listing_lines-marks (item_end i) is,
              subst (Holder p a) (kept-apart last i is e) h,
            ))
    ]

module _ (p : Printer) (a : ℕ) (r : All (IsRegular p) (listing p.module_)) where
  once : count a (sites (document p)) ≤ 1
  once = Rising-count a 0 (sites (document p)) (document-Rising p r)

  defines : Holder p a (kept 0 (listing p.module_)) → count a (sites (document p)) ≡ 1
  unfolding document
  defines h =
      let lines = listing_lines p 0 (listing p.module_) in
      omega (
        arith,
        once,
        marks-append a lines (definitions (final_address p) ∷ footer none (final_address p) ∷ []),
        listing_lines-marks a p 0 (listing p.module_) h,
      )

-- Let every element that `print` visits have a byte and end at a 64-bit address, and let the instructions
-- that Capstone decodes of a code block be at ascending addresses inside it. Then `print` writes the lines
-- of the document in turn, and the document has the labels of the symbols at any one address at most once.
-- The name that a function's header writes is not among these.
pub print-once :
    (p : Printer) (a : ℕ)
    → All (IsRegular p) (listing p.module_)
    → (print p ≡ each (render p) (document p)) × (count a (sites (document p)) ≤ 1)
print-once p a r = (print-document p, once p a r)

-- Let every element that `print` visits have a byte, end at a 64-bit address and start where the one before
-- it ends or later, and let the instructions that Capstone decodes of a code block be at ascending addresses
-- inside it. Let one of these instructions or a data block be at an address, in a block that is not skipped.
-- Then `print` writes the lines of the document in turn, and the document has the labels of the symbols at
-- that address exactly once. The name that a function's header writes is not among these.
pub print-defines :
    (p : Printer) (a : ℕ)
    → All (IsRegular p) (listing p.module_)
    → Spaced 0 (listing p.module_)
    → Holder p a (listing p.module_)
    → (print p ≡ each (render p) (document p)) × (count a (sites (document p)) ≡ 1)
print-defines p a r s h = (
  print-document p,
  defines p a r (subst (Holder p a) (sym (kept-Spaced 0 (listing p.module_) s)) h),
)
