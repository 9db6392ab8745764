-- ===== src/Layout/Addresses.antt =====
-- The addresses that `layoutModule` assigns, and that `removeModuleLayout` takes away.
use gtirb_pprinter.Prelude.{
  ℕ, ◌+◌, ◌≤◌, ◌<◌, Bool, true, false, none, some, List, [], ◌∷◌, ◌++◌, All, All-append, ◌≡◌, refl,
  sym, ◌∙◌, ap, arith, subst,
}
use mathlib.Core.Path.{ap₂}
use gtirb_pprinter.Prelude.Number.{u64_mod, add64}
use gtirb_pprinter.Layout.Ir.{ByteInterval, Section, Cfg}
use gtirb_pprinter.Layout.{
  find_and_merge_bis, assign, layout_sections, layout_module, clear, remove_module_layout,
}
use gtirb_pprinter.Layout.Intervals.{Distinct, total_size}
use gtirb_pprinter.Layout.Merge.{find_and_merge_bis_total, find_and_merge_bis-total_size}

-- each interval begins where the one before it ends, the first one at `a`
abbrev pub Packed : ℕ → List ByteInterval → Type 0
Packed a [] = Unit
Packed a (bi ∷ bis) = (bi.address ≡ some a) × Packed (a + bi.size) bis

abbrev pub all_intervals : List Section → List ByteInterval
all_intervals [] = []
all_intervals (s ∷ ss) = s.byte_intervals ++ all_intervals ss

abbrev pub DistinctIn : List Section → Type 0
DistinctIn = All (λ (s : Section). Distinct s.byte_intervals)

total_size-append :
    (xs ys : List ByteInterval) → total_size (xs ++ ys) ≡ total_size xs + total_size ys
total_size-append [] ys = omega arith
total_size-append (x ∷ xs) ys = omega (arith, total_size-append xs ys)

Packed-append :
    (a : ℕ) (xs ys : List ByteInterval)
    → Packed a xs
    → Packed (a + total_size xs) ys
    → Packed a (xs ++ ys)
Packed-append a [] ys p q = let e : a + 0 ≡ a = omega arith in rw e at q
Packed-append a (x ∷ xs) ys (p, ps) q =
    let e : a + (x.size + total_size xs) ≡ a + x.size + total_size xs = omega arith in
    (p, Packed-append (a + x.size) xs ys ps (rw e at q))

assign-Packed :
    (a : ℕ) (bis : List ByteInterval)
    → a + total_size bis < u64_mod
    → Packed a (assign a bis).0
      × ((assign a bis).1 ≡ a + total_size bis)
      × (total_size (assign a bis).0 ≡ total_size bis)
unfolding assign
assign-Packed a [] h = (tt, omega arith, refl)
assign-Packed a (bi ∷ bis) h =
    let e : add64 a bi.size ≡ a + bi.size = omega arith in
    let (p, q, r) = assign-Packed (a + bi.size) bis (omega arith) in
    rw e ((refl, p), q ∙ omega arith, omega (arith, r))

module _ (cfg : Cfg) (a : ℕ) (s : Section) (ss : List Section) (bis : List ByteInterval) where
  section_total :
      (ok : Bool)
      → find_and_merge_bis cfg s.byte_intervals ≡ some (bis, ok)
      → (r : List Section × Bool) × (layout_sections cfg (assign a bis).1 ss ≡ some r)
      → (r : List Section × Bool) × (layout_sections cfg a (s ∷ ss) ≡ some r)
  unfolding layout_sections
  section_total false e t =
      ((record s { byte_intervals = bis } ∷ ss, false), rw (e, layout_sections))
  section_total true e ((rest, ok), q) =
      ((record s { byte_intervals = (assign a bis).0 } ∷ rest, ok), rw (e, q, layout_sections))

  section_laid :
      (ok : Bool) (ss' rest : List Section) (ok' : Bool)
      → find_and_merge_bis cfg s.byte_intervals ≡ some (bis, ok)
      → layout_sections cfg (assign a bis).1 ss ≡ some (rest, ok')
      → layout_sections cfg a (s ∷ ss) ≡ some (ss', true)
      → (ok ≡ true) × (ok' ≡ true) × (ss' ≡ record s { byte_intervals = (assign a bis).0 } ∷ rest)
  unfolding layout_sections
  section_laid false ss' rest ok' e q h = ground arith
  section_laid true ss' rest ok' e q h = ground arith

layout_sections_total :
    (cfg : Cfg) (a : ℕ) (ss : List Section)
    → (r : List Section × Bool) × (layout_sections cfg a ss ≡ some r)
layout_sections_total cfg a [] = (([], true), unfold layout_sections in refl)
layout_sections_total cfg a (s ∷ ss) =
    let ((bis, ok), e) = find_and_merge_bis_total cfg s.byte_intervals in
    section_total cfg a s ss bis ok e (layout_sections_total cfg (assign a bis).1 ss)

-- `layoutModule` returns on every module.
pub layout_module_total :
    (cfg : Cfg) (ss : List Section) → (r : List Section × Bool) × (layout_module cfg ss ≡ some r)
unfolding layout_module
layout_module_total cfg ss = layout_sections_total cfg 0 ss

-- how a successful `layoutModule` treats its first section
abbrev FirstLaid : Cfg → ℕ → Section → List Section → List Section → Type 0
FirstLaid cfg a s ss ss' =
    (bis : List ByteInterval) × (rest : List Section) × (find_and_merge_bis cfg s.byte_intervals
      ≡ some (bis, true))
    × (layout_sections cfg (assign a bis).1 ss ≡ some (rest, true))
    × (ss' ≡ record s { byte_intervals = (assign a bis).0 } ∷ rest)

FirstLaid-from :
    (cfg : Cfg) (a : ℕ) (s : Section) (ss ss' : List Section) (m : List ByteInterval × Bool)
    → find_and_merge_bis cfg s.byte_intervals ≡ some m
    → (l : List Section × Bool) → layout_sections cfg (assign a m.0).1 ss ≡ some l
    → layout_sections cfg a (s ∷ ss) ≡ some (ss', true)
    → FirstLaid cfg a s ss ss'
FirstLaid-from cfg a s ss ss' (bis, ok) e (rest, ok') q h =
    let (k, k', r) = section_laid cfg a s ss bis ok ss' rest ok' e q h in
    (bis, rest, rw k at e, rw k' at q, r)

layout_sections_cons :
    (cfg : Cfg) (a : ℕ) (s : Section) (ss ss' : List Section)
    → layout_sections cfg a (s ∷ ss) ≡ some (ss', true)
    → FirstLaid cfg a s ss ss'
layout_sections_cons cfg a s ss ss' h =
    let (m, e) = find_and_merge_bis_total cfg s.byte_intervals in
    let (l, q) = layout_sections_total cfg (assign a m.0).1 ss in
    FirstLaid-from cfg a s ss ss' m e l q h

layout_sections-Packed :
    (cfg : Cfg) (a : ℕ) (ss ss' : List Section)
    → DistinctIn ss
    → a + total_size (all_intervals ss) < u64_mod
    → layout_sections cfg a ss ≡ some (ss', true)
    → Packed a (all_intervals ss')
      × (total_size (all_intervals ss') ≡ total_size (all_intervals ss))
layout_sections-Packed cfg a [] ss' d h e =
    let q : [] ≡ ss' = unfold layout_sections in ground arith in
    subst (λ l. Packed a (all_intervals l) × (total_size (all_intervals l) ≡ 0)) q (tt, refl)
layout_sections-Packed cfg a (s ∷ ss) ss' (d, ds) h e =
    let (bis, rest, m, l, r) = layout_sections_cons cfg a s ss ss' e in
    let split = total_size-append s.byte_intervals (all_intervals ss) in
    let (_, same) =
      find_and_merge_bis-total_size cfg s.byte_intervals bis true d (omega (arith, split)) m in
    let (p, next, size) = assign-Packed a bis (omega (arith, split, same)) in
    let (ps, sizes) =
      layout_sections-Packed cfg (assign a bis).1 ss rest ds (omega (arith, split, same, next)) l in
    let laid = (assign a bis).0 in
    subst
      (λ t.
        Packed a (all_intervals t)
        × (total_size (all_intervals t) ≡ total_size (s.byte_intervals ++ all_intervals ss)))
      (sym r)
      (
        Packed-append a laid (all_intervals rest) p
            (subst (λ n. Packed n (all_intervals rest)) (next ∙ ap (λ n. a + n) (sym size)) ps),
        omega (arith, split, same, size, sizes, total_size-append laid (all_intervals rest)),
      )

-- `x` has an address, `y` has one, and `x` ends before `y` begins
abbrev pub Before : ByteInterval → ByteInterval → Type 0
Before x y = (a : ℕ) × (b : ℕ) × (x.address ≡ some a) × (y.address ≡ some b) × (a + x.size ≤ b)

abbrev pub InOrder : List ByteInterval → Type 0
InOrder [] = Unit
InOrder (x ∷ xs) = All (Before x) xs × InOrder xs

Packed-Before :
    (x : ByteInterval) (a b : ℕ) (xs : List ByteInterval)
    → x.address ≡ some a
    → a + x.size ≤ b
    → Packed b xs
    → All (Before x) xs
Packed-Before x a b [] e h p = tt
Packed-Before x a b (y ∷ ys) e h (p, ps) =
    ((a, b, e, p, h), Packed-Before x a (b + y.size) ys e (omega arith) ps)

Packed-InOrder : (a : ℕ) (xs : List ByteInterval) → Packed a xs → InOrder xs
Packed-InOrder a [] p = tt
Packed-InOrder a (x ∷ xs) (p, ps) =
    (Packed-Before x a (a + x.size) xs p (omega arith) ps, Packed-InOrder (a + x.size) xs ps)

-- Where the UUIDs of each section are distinct and the module is smaller than 2 ^ 64, a successful
-- `layoutModule` packs all intervals from address 0 on with no gap, none overlaps a later one, and
-- the total size is what it was.
pub layout_module-Packed :
    (cfg : Cfg) (ss ss' : List Section)
    → DistinctIn ss
    → total_size (all_intervals ss) < u64_mod
    → layout_module cfg ss ≡ some (ss', true)
    → Packed 0 (all_intervals ss')
      × InOrder (all_intervals ss')
      × (total_size (all_intervals ss') ≡ total_size (all_intervals ss))
unfolding layout_module
layout_module-Packed cfg ss ss' d h e =
    let (p, s) = layout_sections-Packed cfg 0 ss ss' d (omega arith) e in
    (p, Packed-InOrder 0 (all_intervals ss') p, s)

-- nothing to merge in any section
abbrev pub NothingToMerge : Cfg → List Section → Type 0
NothingToMerge cfg =
    All (λ (s : Section). find_and_merge_bis cfg s.byte_intervals ≡ some (s.byte_intervals, true))

clear-assign : (a : ℕ) (bis : List ByteInterval) → clear (assign a bis).0 ≡ clear bis
unfolding clear assign
clear-assign a [] = refl
clear-assign a (bi ∷ bis) =
    ap (◌∷◌ (record bi { address = none })) (clear-assign (add64 a bi.size) bis)

cleared : List Section → List Section
unfolding remove_module_layout
cleared ss = (remove_module_layout ss).0

layout_sections_undone :
    (cfg : Cfg) (a : ℕ) (ss ss' : List Section)
    → NothingToMerge cfg ss
    → layout_sections cfg a ss ≡ some (ss', true)
    → cleared ss' ≡ cleared ss
unfolding cleared
layout_sections_undone cfg a [] ss' n h =
    let q : [] ≡ ss' = unfold layout_sections in ground arith in subst (λ l. cleared l ≡ []) q refl
layout_sections_undone cfg a (s ∷ ss) ss' (n, ns) h =
    let (bis, rest, m, l, r) = layout_sections_cons cfg a s ss ss' h in
    let same : bis ≡ s.byte_intervals = ground arith in
    let ih = layout_sections_undone cfg (assign a bis).1 ss rest ns l in
    rw r (
      ap₂ (λ (b : List ByteInterval) (t : List Section). (record s { byte_intervals = b }) ∷ t)
        (clear-assign a bis ∙ ap clear same) ih)

-- Where no section has anything to merge, removing the layout that `layoutModule` made gives what
-- removing it from the module before gives: only addresses were written.
pub remove_module_layout-layout_module :
    (cfg : Cfg) (ss ss' : List Section)
    → NothingToMerge cfg ss
    → layout_module cfg ss ≡ some (ss', true)
    → (remove_module_layout ss').0 ≡ (remove_module_layout ss).0
unfolding layout_module
remove_module_layout-layout_module cfg ss ss' n h =
    unfold cleared in layout_sections_undone cfg 0 ss ss' n h

-- no interval has an address
abbrev pub Unplaced : List ByteInterval → Type 0
Unplaced = All (λ (bi : ByteInterval). bi.address ≡ none)

clear-Unplaced : (bis : List ByteInterval) → Unplaced (clear bis)
unfolding clear
clear-Unplaced [] = tt
clear-Unplaced (bi ∷ bis) = (refl, clear-Unplaced bis)

pub remove_module_layout-Unplaced :
    (ss : List Section)
    → ((remove_module_layout ss).1 ≡ true) × Unplaced (all_intervals (remove_module_layout ss).0)
unfolding remove_module_layout
remove_module_layout-Unplaced [] = (refl, tt)
remove_module_layout-Unplaced (s ∷ ss) = (
  refl,
  All-append (λ (bi : ByteInterval). bi.address ≡ none) (clear s.byte_intervals)
      (all_intervals (remove_module_layout ss).0) (clear-Unplaced s.byte_intervals)
      ((remove_module_layout-Unplaced ss).1),
)
