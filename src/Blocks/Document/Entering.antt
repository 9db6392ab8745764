-- ===== src/Blocks/Document/Entering.antt =====
-- The headers of sections while `print` of src/gtirb_pprinter/PrettyPrinter.cpp visits the elements.
use gtirb_pprinter.Prelude.{
  ℕ, ◌≤◌, ◌<◌, Option, some, List, [], ◌∷◌, ◌≡◌, ◌⊎◌, inl, inr, arith, All,
}
use gtirb_pprinter.Gtirb.{Section}
use gtirb_pprinter.Printer.{Printer}
use gtirb_pprinter.Blocks.{Item, item_address, item_size}
use gtirb_pprinter.Blocks.Overlap.{item_end, From, NoWrap}
use gtirb_pprinter.Blocks.Document.{opened}
use gtirb_pprinter.Blocks.Document.Regions.{
  Region, IsMap, HasAddress, IsOpened, IsCurrent, next_section, opened-IsCurrent,
}

HasAddress-From : (a n : ℕ) (is : List Item) → HasAddress a is → From n is → n ≤ a
HasAddress-From a n [] h f = absurd h
HasAddress-From a n (i ∷ is) (inl e) (f, fs) = omega (arith, e, f)
HasAddress-From a n (i ∷ is) (inr h) (f, fs) = HasAddress-From a n is h fs

module _ (p : Printer) (region : ℕ → Option Region) (m : IsMap p region) where
  -- The section of the element is still to be opened by one of the elements, or it starts at `last` or
  -- before and is the current one.
  abbrev pub IsKnown : Option Section → ℕ → List Item → Item → Type 0
  IsKnown current last is j =
      (r : Region)
      → region (item_address j) ≡ some r
      → HasAddress r.first is ⊎ ((r.first ≤ last) × IsCurrent p current r)

  abbrev pub section_after : Option Section → Item → Option Section
  section_after current i = next_section (opened p (item_address i)) current

  module _ (current : Option Section) (last : ℕ) (i : Item) (is : List Item) (w : NoWrap i)
      (z : 0 < item_size i) (k : IsKnown current last (i ∷ is) i) (f : From (item_end i) is)
      (b : last ≤ item_address i) where
    pub current_at :
        (r : Region) → region (item_address i) ≡ some r → IsCurrent p (section_after current i) r
    current_at r e = opened-IsCurrent p region m (item_address i) r current e (elim (k r e) [
      | inl h ↦ elim h [
        | inl q ↦ inl q
        | inr t ↦ absurd (
            omega (
              arith,
              w,
              z,
              (m.inside (item_address i) r e).0,
              HasAddress-From r.first (item_end i) is t f,
            ))
      ]
      | inr h ↦ inr h.1
    ])

    here :
        (j : Item) (r : Region)
        → item_end i ≤ item_address j
        → region (item_address j) ≡ some r
        → r.first ≤ item_address i
        → (r.first ≤ item_end i) × IsCurrent p (section_after current i) r
    here j r l e h =
        let n = m.inside (item_address j) r e in
        (
          omega (arith, w, h),
          current_at r
              (m.filled (item_address j) (item_address i) r e h (omega (arith, w, z, l, n))),
        )

    IsKnown-after :
        (j : Item)
        → IsKnown current last (i ∷ is) j
        → item_end i ≤ item_address j
        → IsKnown (section_after current i) (item_end i) is j
    IsKnown-after j kj l r e = elim (kj r e) [
      | inl h ↦ elim h [ inl q ↦ inr (here j r l e (omega (arith, q))) | inr t ↦ inl t ]
      | inr h ↦ inr (here j r l e (omega (arith, b, h.0)))
    ]

    All-after :
        (js : List Item)
        → All (IsKnown current last (i ∷ is)) js
        → From (item_end i) js
        → All (IsKnown (section_after current i) (item_end i) is) js
    All-after [] h g = tt
    All-after (j ∷ js) (h, hs) (g, gs) = (IsKnown-after j h g, All-after js hs gs)

    pub IsKnown-rest :
        All (IsKnown current last (i ∷ is)) is
        → All (IsKnown (section_after current i) (item_end i) is) is
    IsKnown-rest h = All-after is h f

  pub IsOpened-IsKnown :
      (is js : List Item)
      → All (IsOpened region is) js
      → (c : Option Section) → All (IsKnown c 0 is) js
  IsOpened-IsKnown is [] h c = tt
  IsOpened-IsKnown is (j ∷ js) (h, hs) c = (λ r e. inl (h r e), IsOpened-IsKnown is js hs c)
