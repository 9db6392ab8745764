-- ===== src/Blocks/Document/Sites.antt =====
-- The addresses at which the document of `print` of src/gtirb_pprinter/PrettyPrinter.cpp defines labels.
use gtirb_pprinter.Prelude.{
  ℕ, suc, ◌+◌, ◌≤◌, ◌<◌, ltb, Option, none, some, List, [], ◌∷◌, ◌++◌, inl, inr, arith, Bool-cases,
  append_assoc, subst, All,
}
use gtirb_pprinter.Prelude.Number.{add64}
use gtirb_pprinter.Gtirb.{Offset, Section}
use gtirb_pprinter.Capstone.{Insn}
use gtirb_pprinter.Printer.{Printer, skip_ea}
use gtirb_pprinter.Instruction.Fixup.{address-fixup_instruction}
use gtirb_pprinter.Blocks.{Item, code, datum, item_address, item_size, listing}
use gtirb_pprinter.Blocks.Overlap.{
  item_end, kept, end_of, NoWrap, NoWrap-end, kept-overlap, kept-apart,
}
use gtirb_pprinter.Blocks.Document.{
  Line, definitions, footer, instruction_lines, opened, opening_lines, item_lines, gap_lines,
  listing_lines, document, final_address,
}

abbrev pub sites : List Line → List ℕ
sites [] = []
sites (definitions a ∷ ls) = a ∷ sites ls
sites (_ ∷ ls) = sites ls

-- each address is above those before it, and the first is `n` or above it
abbrev pub Rising : ℕ → List ℕ → Type 0
Rising n [] = Unit
Rising n (a ∷ ns) = (n ≤ a) × Rising (suc a) ns

-- Capstone's instructions are at ascending addresses between `from` and `to`.
abbrev pub Decodes : ℕ → ℕ → List Insn → Type 0
Decodes from to [] = Unit
Decodes from to (i ∷ is) = (from ≤ i.address) × (i.address < to) × Decodes (suc i.address) to is

abbrev pub IsInside : Printer → Item → Type 0
IsInside p (code b) =
    Decodes b.address (b.address + b.size) (p.handle.disasm b.raw_bytes b.size b.address)
IsInside p (datum d) = Unit

-- an element that has a byte, ends at a 64-bit address, and whose instructions are inside it
abbrev pub IsRegular : Printer → Item → Type 0
IsRegular p i = NoWrap i × (0 < item_size i) × IsInside p i

Rising-weaken : (m n : ℕ) (ns : List ℕ) → m ≤ n → Rising n ns → Rising m ns
Rising-weaken m n [] h r = tt
Rising-weaken m n (a ∷ ns) h (r, rs) = (omega (arith, h, r), rs)

module _ (p : Printer) where
  instruction_lines-Rising :
      (from to : ℕ) (is : List Insn) (o : Offset) (ls : List Line)
      → Decodes from to is
      → from ≤ to
      → Rising to (sites ls)
      → Rising from (sites (instruction_lines p is o ++ ls))
  instruction_lines-Rising from to [] o ls d h r = Rising-weaken from to (sites ls) h r
  instruction_lines-Rising from to (i ∷ is) o ls (l, u, d) h r =
      rw (address-fixup_instruction p.handle i) (
        l,
        instruction_lines-Rising (suc i.address) to is
            (record o { displacement = add64 o.displacement i.size }) ls d (omega (arith, u)) r,
      )

  item_lines-Rising :
      (i : Item) (ls : List Line)
      → IsRegular p i
      → Rising (item_address i + item_size i) (sites ls)
      → Rising (item_address i) (sites (item_lines p i ++ ls))
  unfolding item_lines
  item_lines-Rising (code b) ls (w, z, d) r = elim (Bool-cases (skip_ea p b.address)) [
    | inl e ↦
        rw (e, item_lines) (Rising-weaken b.address (b.address + b.size) (sites ls) (omega arith) r)
    | inr e ↦
        rw (e, item_lines)
          (instruction_lines-Rising b.address (b.address + b.size)
            (p.handle.disasm b.raw_bytes b.size b.address)
            (record { element = b.uuid; displacement = 0 }) ls d (omega arith) r)
  ]
  item_lines-Rising (datum d) ls (w, z, u) r = elim (Bool-cases (skip_ea p d.address)) [
    | inl e ↦
        rw (e, item_lines) (Rising-weaken d.address (d.address + d.size) (sites ls) (omega arith) r)
    | inr e ↦
        rw (e, item_lines)
          (
            omega arith,
            Rising-weaken (suc d.address) (d.address + d.size) (sites ls) (omega (arith, z)) r,
          )
  ]

  gap_lines-Rising :
      (last next : ℕ) (ls : List Line)
      → last ≤ next
      → Rising next (sites ls)
      → Rising last (sites (gap_lines (ltb last next) last ++ ls))
  gap_lines-Rising last next ls h r = elim (Bool-cases (ltb last next)) [
    | inl e ↦ rw e (omega arith, Rising-weaken (suc last) next (sites ls) (ground (arith, e)) r)
    | inr e ↦ rw e (Rising-weaken last next (sites ls) h r)
  ]

  opening_lines-Rising :
      (n a : ℕ) (s : Option Section) (ls : List Line)
      → Rising n (sites ls)
      → Rising n (sites (opening_lines a s ++ ls))
  opening_lines-Rising n a none ls r = r
  opening_lines-Rising n a (some s) ls r = r

  listing_lines-Rising :
      (last : ℕ) (is : List Item) (ls : List Line)
      → All (IsRegular p) is
      → Rising (end_of last (kept last is)) (sites ls)
      → Rising last (sites (listing_lines p last is ++ ls))
  unfolding listing_lines kept
  listing_lines-Rising last [] ls h r = r
  listing_lines-Rising last (i ∷ is) ls (h, hs) r =
      let ends = λ (ks : List Item). Rising (end_of last ks) (sites ls) in
      let after = listing_lines p (item_end i) is ++ ls in
      elim (Bool-cases (ltb (item_address i) last)) [
        | inl e ↦
            rw (e, listing_lines)
              (listing_lines-Rising last is ls hs (subst ends (kept-overlap last i is e) r))
        | inr e ↦
            rw
              (
                e,
                listing_lines,
                append_assoc,
                append_assoc (opening_lines (item_address i) (opened p (item_address i))),
                append_assoc (item_lines p i),
              )
              (gap_lines-Rising last (item_address i)
                (footer (some (item_address i)) last
                  ∷ (opening_lines (item_address i) (opened p (item_address i))
                      ++ (item_lines p i ++ after)))
                (ground (arith, e))
                (opening_lines-Rising (item_address i) (item_address i) (opened p (item_address i))
                  (item_lines p i ++ after)
                  (item_lines-Rising i after h (
                    subst (λ n. Rising n (sites after)) (NoWrap-end i h.0)
                      (listing_lines-Rising (item_end i) is ls hs
                        (subst ends (kept-apart last i is e) r))))))
      ]

-- no address of a label comes twice in the document
pub document-Rising :
    (p : Printer) → All (IsRegular p) (listing p.module_) → Rising 0 (sites (document p))
unfolding document
document-Rising p h =
    listing_lines-Rising p 0 (listing p.module_)
      (definitions (final_address p) ∷ footer none (final_address p) ∷ []) h (omega arith, tt)
