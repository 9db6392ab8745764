-- ===== src/Blocks/Sorting.antt =====
-- The blocks in the order of their addresses: `print` of src/gtirb_pprinter/PrettyPrinter.cpp sorts with
-- `std::sort`, which leaves the order of equal addresses open.
use gtirb_pprinter.Prelude.{
  ◌≤◌, ◌<◌, List, [], ◌∷◌, ◌++◌, All, map, ◌≡◌, inl, inr, refl, sym, arith,
}
use mathlib.Core.Logic.{∥∥₁_elim}
use mathlib.Core.HLevel.{⊥_prop}
use mathlib.Core.List.{Perm, Memᴰ, mem-cons_self}
use mathlib.Core.List.Perm
use mathlib.Core.Path.{ap₂}
use gtirb_pprinter.Gtirb.{Module}
use gtirb_pprinter.Blocks.{Item, code, datum, item_address, own_blocks, listing}
use gtirb_pprinter.Blocks.Order.{Ascending, From, listing-own_blocks, listing-Ascending}

abbrev After : Item → List Item → Type 0
After i is = All (λ (j : Item). item_address i < item_address j) is

-- the addresses ascend, and no two are equal
abbrev pub Strict : List Item → Type 0
Strict [] = Unit
Strict (i ∷ is) = After i is × Strict is

All-member : (P : Item → Type 0) (i : Item) (is : List Item) → All P is → Memᴰ i is → P i
All-member P i [] h m = elim m [ ]
All-member P i (j ∷ is) (h, hs) (Memᴰ.head e) = rw e h
All-member P i (j ∷ is) (h, hs) (Memᴰ.tail m) = All-member P i is hs m

items_set : IsSet (List Item)
items_set = hlevel

-- Each of two heads cannot stand behind the other.
crossed :
    (x y : Item) (xs ys xs' ys' : List Item)
    → From (item_address x) xs
    → After y ys
    → Perm xs (y ∷ xs')
    → Perm ys (x ∷ ys')
    → ⊥
crossed x y xs ys xs' ys' w s p q =
    ∥∥₁_elim (Perm.subset (Perm.symm p) y mem-cons_self) ⊥_prop (λ m.
      ∥∥₁_elim (Perm.subset (Perm.symm q) x mem-cons_self) ⊥_prop (λ n. omega (
        arith,
        All-member (λ (i : Item). item_address x ≤ item_address i) y xs w m,
        All-member (λ (i : Item). item_address y < item_address i) x ys s n,
      )))

Perm-Strict : (xs ys : List Item) → Perm xs ys → Ascending xs → Strict ys → xs ≡ ys
Perm-Strict [] [] p w s = refl
Perm-Strict [] (y ∷ ys) p w s = sym (Perm.eq-nil (Perm.symm p))
Perm-Strict (x ∷ xs) [] p w s = Perm.eq-nil p
Perm-Strict (x ∷ xs) (y ∷ ys) p (w, ws) (s, ss) =
    ∥∥₁_elim (Perm.cons-cons_cases p) (items_set (x ∷ xs) (y ∷ ys)) (λ c. elim c [
      | inl e ↦ ap₂ (λ (i : Item) (is : List Item). i ∷ is) e.0 (Perm-Strict xs ys e.1 ws ss)
      | inr e ↦ absurd (crossed x y xs ys e.0 e.0 w s e.1 e.2)
    ])

-- If the data blocks of a module come in the order of their addresses, and its blocks can be listed with
-- addresses that ascend and are all different, then this is the one order in which `print` visits them,
-- however the sort treats blocks of equal addresses.
pub listing-Strict :
    (m : Module) (is : List Item)
    → Ascending (map datum m.data_blocks)
    → Perm is (map code (own_blocks m.uuid m.cfg_blocks) ++ map datum m.data_blocks)
    → Strict is
    → listing m ≡ is
listing-Strict m is h p s =
    Perm-Strict (listing m) is (Perm.trans (listing-own_blocks m) (Perm.symm p))
      (listing-Ascending m h) s
