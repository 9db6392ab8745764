-- ===== src/Blocks/Order.antt =====
-- The order in which `print` of src/gtirb_pprinter/PrettyPrinter.cpp visits the blocks of a module.
use gtirb_pprinter.Prelude.{
  ℕ, ◌≤◌, leb, ◌==◌, leb→le, false, List, [], ◌∷◌, ◌++◌, map, append-nil, ◌≡◌, ◌≢◌, inl, inr, arith,
  Bool-cases, All,
}
use mathlib.Core.List.{Perm, perm_middle}
use mathlib.Core.List.Perm
use gtirb_pprinter.Gtirb.{CodeBlock, DataBlock, Module}
use gtirb_pprinter.Blocks.{
  Item, code, datum, item_address, insert_block, sort_blocks, own_blocks, interleave, listing,
}

insert_block-Perm :
    (b : CodeBlock) (bs : List CodeBlock)
    → Perm (map code (insert_block b bs)) (code b ∷ map code bs)
unfolding insert_block
insert_block-Perm b [] = Perm.refl (code b ∷ [])
insert_block-Perm b (c ∷ cs) = elim (Bool-cases (leb b.address c.address)) [
  | inl e ↦ rw (e, insert_block) (Perm.refl (code b ∷ code c ∷ map code cs))
  | inr e ↦
      rw (e, insert_block)
        (Perm.trans (Perm.cons (code c) (insert_block-Perm b cs))
          (Perm.swap (code b) (code c) (map code cs)))
]

sort_blocks-Perm : (bs : List CodeBlock) → Perm (map code (sort_blocks bs)) (map code bs)
unfolding sort_blocks
sort_blocks-Perm [] = Perm.refl []
sort_blocks-Perm (b ∷ bs) =
    Perm.trans (insert_block-Perm b (sort_blocks bs)) (Perm.cons (code b) (sort_blocks-Perm bs))

interleave-Perm :
    (bs : List CodeBlock) (ds : List DataBlock)
    → Perm (interleave bs ds) (map code bs ++ map datum ds)
unfolding interleave
interleave-Perm [] ds = Perm.refl (map datum ds)
interleave-Perm (b ∷ bs) [] = rw append-nil (Perm.refl (code b ∷ map code bs))
interleave-Perm (b ∷ bs) (d ∷ ds) = elim (Bool-cases (leb b.address d.address)) [
  | inl e ↦ rw (e, interleave) (Perm.cons (code b) (interleave-Perm bs (d ∷ ds)))
  | inr e ↦
      rw (e, interleave)
        (Perm.trans (Perm.cons (datum d) (interleave-Perm (b ∷ bs) ds))
          (Perm.symm (perm_middle {a = datum d} (code b ∷ map code bs) (map datum ds))))
]

pub listing-own_blocks :
    (m : Module)
    → Perm (listing m) (map code (own_blocks m.uuid m.cfg_blocks) ++ map datum m.data_blocks)
unfolding listing
listing-own_blocks m =
    Perm.trans (interleave-Perm (sort_blocks (own_blocks m.uuid m.cfg_blocks)) m.data_blocks) (
      Perm.append_right (map datum m.data_blocks)
        (sort_blocks-Perm (own_blocks m.uuid m.cfg_blocks)))

-- The second list has those blocks of the first that the module owns, and no others.
pub data Owned (m : ℕ) : List CodeBlock → List CodeBlock → Type 0 where
  no_block : Owned m [] []
  own_block :
      {b : CodeBlock} {bs cs : List CodeBlock}
      → b.owner ≡ m
      → Owned m bs cs
      → Owned m (b ∷ bs) (b ∷ cs)
  other_block :
      {b : CodeBlock} {bs cs : List CodeBlock} → b.owner ≢ m → Owned m bs cs → Owned m (b ∷ bs) cs

own_blocks-Owned : (m : ℕ) (bs : List CodeBlock) → Owned m bs (own_blocks m bs)
unfolding own_blocks
own_blocks-Owned m [] = no_block
own_blocks-Owned m (b ∷ bs) = elim (Bool-cases (b.owner == m)) [
  | inl e ↦ rw (e, own_blocks) (own_block (ground (arith, e)) (own_blocks-Owned m bs))
  | inr e ↦ rw (e, own_blocks) (other_block (λ h. ground (arith, e, h)) (own_blocks-Owned m bs))
]

-- The blocks that are visited are those code blocks of the control-flow graph whose section is the module's, and
-- all data blocks of the module, each as often as it occurs there.
pub listing-Perm :
    (m : Module)
    → (bs : List CodeBlock) × Owned m.uuid m.cfg_blocks bs
      × Perm (listing m) (map code bs ++ map datum m.data_blocks)
listing-Perm m =
    (own_blocks m.uuid m.cfg_blocks, own_blocks-Owned m.uuid m.cfg_blocks, listing-own_blocks m)

-- no address in the list is below `n`
abbrev pub From : ℕ → List Item → Type 0
From n is = All (λ (i : Item). n ≤ item_address i) is

-- each address is at most those after it
abbrev pub Ascending : List Item → Type 0
Ascending [] = Unit
Ascending (i ∷ is) = From (item_address i) is × Ascending is

From-weaken : (m n : ℕ) (is : List Item) → m ≤ n → From n is → From m is
From-weaken m n [] h f = tt
From-weaken m n (i ∷ is) h (f, fs) = (omega (arith, h, f), From-weaken m n is h fs)

insert_block-All :
    (P : Item → Type 0) (b : CodeBlock) (bs : List CodeBlock)
    → P (code b)
    → All P (map code bs)
    → All P (map code (insert_block b bs))
unfolding insert_block
insert_block-All P b [] h f = (h, tt)
insert_block-All P b (c ∷ cs) h (f, fs) = elim (Bool-cases (leb b.address c.address)) [
  | inl e ↦ rw (e, insert_block) (h, (f, fs))
  | inr e ↦ rw (e, insert_block) (f, insert_block-All P b cs h fs)
]

insert_block-Ascending :
    (b : CodeBlock) (bs : List CodeBlock)
    → Ascending (map code bs)
    → Ascending (map code (insert_block b bs))
unfolding insert_block
insert_block-Ascending b [] h = (tt, tt)
insert_block-Ascending b (c ∷ cs) (f, h) = elim (Bool-cases (leb b.address c.address)) [
  | inl e ↦
      let le = leb→le b.address c.address e in
      rw (e, insert_block) ((le, From-weaken b.address c.address (map code cs) le f), (f, h))
  | inr e ↦
      rw (e, insert_block)
        (
          insert_block-All (λ (i : Item). c.address ≤ item_address i) b cs (ground (arith, e)) f,
          insert_block-Ascending b cs h,
        )
]

sort_blocks-Ascending : (bs : List CodeBlock) → Ascending (map code (sort_blocks bs))
unfolding sort_blocks
sort_blocks-Ascending [] = tt
sort_blocks-Ascending (b ∷ bs) =
    insert_block-Ascending b (sort_blocks bs) (sort_blocks-Ascending bs)

interleave-All :
    (P : Item → Type 0) (bs : List CodeBlock) (ds : List DataBlock)
    → All P (map code bs)
    → All P (map datum ds)
    → All P (interleave bs ds)
unfolding interleave
interleave-All P [] ds f g = g
interleave-All P (b ∷ bs) [] f g = f
interleave-All P (b ∷ bs) (d ∷ ds) (f, fs) (g, gs) = elim (Bool-cases (leb b.address d.address)) [
  | inl e ↦ rw (e, interleave) (f, interleave-All P bs (d ∷ ds) fs (g, gs))
  | inr e ↦ rw (e, interleave) (g, interleave-All P (b ∷ bs) ds (f, fs) gs)
]

sort_blocks-All :
    (P : Item → Type 0) (bs : List CodeBlock)
    → All P (map code bs)
    → All P (map code (sort_blocks bs))
unfolding sort_blocks
sort_blocks-All P [] h = tt
sort_blocks-All P (b ∷ bs) (h, hs) =
    insert_block-All P b (sort_blocks bs) h (sort_blocks-All P bs hs)

own_blocks-All :
    (P : Item → Type 0) (m : ℕ) (bs : List CodeBlock)
    → All P (map code bs)
    → All P (map code (own_blocks m bs))
unfolding own_blocks
own_blocks-All P m [] h = tt
own_blocks-All P m (b ∷ bs) (h, hs) = elim (Bool-cases (b.owner == m)) [
  | inl e ↦ rw (e, own_blocks) (h, own_blocks-All P m bs hs)
  | inr e ↦ rw (e, own_blocks) (own_blocks-All P m bs hs)
]

-- What holds of all code blocks of the control-flow graph and of all data blocks holds of what `print`
-- visits.
pub listing-All :
    (P : Item → Type 0) (m : Module)
    → All P (map code m.cfg_blocks)
    → All P (map datum m.data_blocks)
    → All P (listing m)
unfolding listing
listing-All P m h k =
    interleave-All P (sort_blocks (own_blocks m.uuid m.cfg_blocks)) m.data_blocks
      (sort_blocks-All P (own_blocks m.uuid m.cfg_blocks) (own_blocks-All P m.uuid m.cfg_blocks h))
      k

interleave-Ascending :
    (bs : List CodeBlock) (ds : List DataBlock)
    → Ascending (map code bs)
    → Ascending (map datum ds)
    → Ascending (interleave bs ds)
unfolding interleave
interleave-Ascending [] ds f g = g
interleave-Ascending (b ∷ bs) [] f g = f
interleave-Ascending (b ∷ bs) (d ∷ ds) (f, fs) (g, gs) =
    elim (Bool-cases (leb b.address d.address)) [
      | inl e ↦
          let le = leb→le b.address d.address e in
          rw (e, interleave)
            (
              interleave-All (λ (i : Item). b.address ≤ item_address i) bs (d ∷ ds) f
                  (le, From-weaken b.address d.address (map datum ds) le g),
              interleave-Ascending bs (d ∷ ds) fs (g, gs),
            )
      | inr e ↦
          let le = above b.address d.address e in
          rw (e, interleave)
            (
              interleave-All (λ (i : Item). d.address ≤ item_address i) (b ∷ bs) ds
                  (le, From-weaken d.address b.address (map code bs) le f) g,
              interleave-Ascending (b ∷ bs) ds (f, fs) gs,
            )
    ]
  where
    above : (m n : ℕ) → leb m n ≡ false → n ≤ m
    above m n h = ground arith

-- If the data blocks of a module come in the order of their addresses, then `print` visits all blocks,
-- code and data, in the order of their addresses.
pub listing-Ascending : (m : Module) → Ascending (map datum m.data_blocks) → Ascending (listing m)
unfolding listing
listing-Ascending m h =
    interleave-Ascending (sort_blocks (own_blocks m.uuid m.cfg_blocks)) m.data_blocks
      (sort_blocks-Ascending (own_blocks m.uuid m.cfg_blocks)) h
