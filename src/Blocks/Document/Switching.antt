-- ===== src/Blocks/Document/Switching.antt =====
-- The section that is current at each line of the document of `print` of
-- src/gtirb_pprinter/PrettyPrinter.cpp.
use gtirb_pprinter.Prelude.{
  ℕ, suc, ◌+◌, ◌≤◌, ltb, false, Option, none, some, List, [], ◌∷◌, ◌++◌, append_assoc, ◌≡◌, sym,
  ◌∙◌, subst, inl, inr, arith, Bool-cases, All,
}
use gtirb_pprinter.Prelude.Number.{add64}
use gtirb_pprinter.Prelude.Result.{each}
use gtirb_pprinter.Gtirb.{Section, Offset}
use gtirb_pprinter.Capstone.{Insn}
use gtirb_pprinter.Printer.{Printer, skip_ea, get_container_section}
use gtirb_pprinter.Instruction.Fixup.{address-fixup_instruction}
use gtirb_pprinter.Blocks.{Item, code, datum, item_address, item_size, listing, print}
use gtirb_pprinter.Blocks.Overlap.{
  item_end, kept, NoWrap, kept-From, kept-overlap, kept-apart, kept-Spaced, Spaced,
}
use gtirb_pprinter.Blocks.Document.{
  Line, opening, instruction, content, definitions, footer, instruction_lines, item_lines,
  gap_lines, opened, opening_lines, listing_lines, document, final_address, render,
}
use gtirb_pprinter.Blocks.Document.Refinement.{print-document}
use gtirb_pprinter.Blocks.Document.Sites.{Decodes, IsRegular}
use gtirb_pprinter.Blocks.Document.Entering.{
  IsKnown, section_after, current_at, IsKnown-rest, IsOpened-IsKnown,
}
use gtirb_pprinter.Blocks.Document.Regions.{
  Region, IsMap, IsWithin, IsOpened, IsCurrent, next_section, container, skip_ea-current,
}

-- With a section current before the lines, each instruction and each data block among them comes while
-- the section that contains it is current; the header of a section makes it current.
abbrev pub Switched : Printer → Option Section → List Line → Type 0
Switched p current [] = Unit
Switched p current (opening s a ∷ ls) = Switched p (some s) ls
Switched p current (instruction i ∷ ls) =
    (current ≡ get_container_section p i.address) × Switched p current ls
Switched p current (content d ∷ ls) =
    (current ≡ get_container_section p d.address) × Switched p current ls
Switched p current (_ ∷ ls) = Switched p current ls

IsRegular-NoWrap : (p : Printer) (is : List Item) → All (IsRegular p) is → All NoWrap is
IsRegular-NoWrap p [] h = tt
IsRegular-NoWrap p (i ∷ is) (h, hs) = (h.0, IsRegular-NoWrap p is hs)

module _ (p : Printer) where
  opening_lines-Switched :
      (a : ℕ) (s current : Option Section) (ls : List Line)
      → Switched p (next_section s current) ls
      → Switched p current (opening_lines a s ++ ls)
  opening_lines-Switched a none current ls h = h
  opening_lines-Switched a (some s) current ls h = h

  gap_lines-Switched :
      (last next : ℕ) (current : Option Section) (ls : List Line)
      → Switched p current ls
      → Switched p current (gap_lines (ltb last next) last ++ ls)
  gap_lines-Switched last next current ls h = elim (Bool-cases (ltb last next)) [
    | inl e ↦ rw e h
    | inr e ↦ rw e h
  ]

module _ (p : Printer) (region : ℕ → Option Region) (m : IsMap p region) where
  instruction_lines-Switched :
      (a from to : ℕ) (r : Region) (is : List Insn) (o : Offset) (ls : List Line)
      → region a ≡ some r
      → r.first ≤ from
      → to ≤ r.first + r.size
      → Decodes from to is
      → Switched p (some r.section) ls
      → Switched p (some r.section) (instruction_lines p is o ++ ls)
  instruction_lines-Switched a from to r [] o ls e f t d s = s
  instruction_lines-Switched a from to r (i ∷ is) o ls e f t (l, u, d) s =
      rw (address-fixup_instruction p.handle i) (
        sym (
            container p region m i.address r
              (m.filled a i.address r e (omega (arith, f, l)) (omega (arith, t, u)))),
        instruction_lines-Switched a (suc i.address) to r is
            (record o { displacement = add64 o.displacement i.size }) ls e (omega (arith, f, l)) t d
            s,
      )

  item_lines-Switched :
      (i : Item) (r : Region) (current : Option Section) (ls : List Line)
      → p.policy.debug ≡ false
      → IsRegular p i
      → region (item_address i) ≡ some r
      → item_address i + item_size i ≤ r.first + r.size
      → IsCurrent p current r
      → Switched p current ls
      → Switched p current (item_lines p i ++ ls)
  unfolding item_lines
  item_lines-Switched (code b) r current ls g (w, z, d) e h c s =
      elim (Bool-cases (skip_ea p b.address)) [
        | inl k ↦ rw (k, item_lines) s
        | inr k ↦
            let q = skip_ea-current p region m b.address r current g e k c in
            rw (k, item_lines, q)
              (instruction_lines-Switched b.address b.address (b.address + b.size) r
                (p.handle.disasm b.raw_bytes b.size b.address)
                (record { element = b.uuid; displacement = 0 }) ls e ((m.inside b.address r e).0) h
                d (subst (λ t. Switched p t ls) q s))
      ]
  item_lines-Switched (datum d) r current ls g w e h c s = elim (Bool-cases (skip_ea p d.address)) [
    | inl k ↦ rw (k, item_lines) s
    | inr k ↦
        rw (k, item_lines)
          (
            skip_ea-current p region m d.address r current g e k c
                ∙ sym (container p region m d.address r e),
            s,
          )
  ]

  listing_lines-Switched :
      (last : ℕ) (is : List Item) (current : Option Section) (ls : List Line)
      → p.policy.debug ≡ false
      → All (IsRegular p) is
      → All (IsWithin region) is
      → All (IsKnown p region m current last (kept last is)) (kept last is)
      → ((c : Option Section) → Switched p c ls)
      → Switched p current (listing_lines p last is ++ ls)
  unfolding listing_lines
  listing_lines-Switched last [] current ls g h w k s = s current
  listing_lines-Switched last (i ∷ is) current ls g (h, hs) (w, ws) k s =
      elim (Bool-cases (ltb (item_address i) last)) [
        | inl e ↦
            rw (e, listing_lines)
              (listing_lines-Switched last is current ls g hs ws
                (subst (λ ks. All (IsKnown p region m current last ks) ks)
                  (kept-overlap last i is e) k)
                s)
        | inr e ↦
            let ks = kept (item_end i) is in
            let known =
              subst (λ xs. All (IsKnown p region m current last xs) xs) (kept-apart last i is e)
                k in
            let from = kept-From (item_end i) is (IsRegular-NoWrap p is hs) in
            let after = listing_lines p (item_end i) is ++ ls in
            let next = section_after p region m current i in
            rw
              (
                e,
                listing_lines,
                append_assoc,
                append_assoc (opening_lines (item_address i) (opened p (item_address i))),
                append_assoc (item_lines p i),
              )
              (gap_lines-Switched p last (item_address i) current _ (
                opening_lines-Switched p (item_address i) (opened p (item_address i)) current
                  (item_lines p i ++ after)
                  (item_lines-Switched i w.0 next after g h (w.1) (w.2)
                    (current_at p region m current last i ks h.0 h.1 known.0 from
                      (ground (arith, e)) w.0 w.1)
                    (listing_lines-Switched (item_end i) is next ls g hs ws
                      (IsKnown-rest p region m current last i ks h.0 h.1 known.0 from
                        (ground (arith, e)) known.1)
                      s))))
      ]

-- Outside the debug mode, let every element that `print` visits have a byte, end at a 64-bit address, start
-- where the one before it ends or later, and lie in one section. Let the instructions that Capstone decodes
-- of a code block be at ascending addresses inside it, and let an element be at the first address of each
-- section that has any. Then `print` writes the lines of the document in turn, and each instruction and each
-- data block stands where the last header of a section before it is that of the section that contains its
-- address.
pub print-Switched :
    (p : Printer) (region : ℕ → Option Region)
    → IsMap p region
    → p.policy.debug ≡ false
    → All (IsRegular p) (listing p.module_)
    → Spaced 0 (listing p.module_)
    → All (IsWithin region) (listing p.module_)
    → All (IsOpened region (listing p.module_)) (listing p.module_)
    → (print p ≡ each (render p) (document p)) × Switched p none (document p)
unfolding document
print-Switched p region m g h s w o =
    let is = listing p.module_ in
    let opens = subst (λ ks. All (IsOpened region ks) ks) (sym (kept-Spaced 0 is s)) o in
    (
      print-document p,
      listing_lines-Switched p region m 0 is none
          (definitions (final_address p) ∷ footer none (final_address p) ∷ []) g h w
          (IsOpened-IsKnown p region m (kept 0 is) (kept 0 is) opens none) (λ c. tt),
    )
