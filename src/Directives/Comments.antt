-- ===== src/Directives/Comments.antt =====
-- Which comments `printComments` of src/gtirb_pprinter/PrettyPrinter.cpp prints.
use gtirb_pprinter.Prelude.{
  ℕ, ◌+◌, ◌<◌, ltb, leb, ◌==◌, if◌then◌else◌, Bool, true, false, ◌&&◌, Text, some, List, [], ◌∷◌,
  ◌≡◌, refl, ap, ◌∙◌, arith, All, Bool-cases, inl, inr, concat_map,
}
use gtirb_pprinter.Prelude.Number.{add64, u64_mod}
use gtirb_pprinter.Gtirb.{Offset}
use gtirb_pprinter.Printer.{Printer}
use gtirb_pprinter.Directives.{offset_lt, lower_bound, comment_line, comment_lines, print_comments}

abbrev pub Entry : Type 0
Entry = Offset × Text

-- the entries of a map come in the order of their keys
abbrev pub Sorted : List Entry → Type 0
Sorted [] = Unit
Sorted (e ∷ t) = All (λ (d : Entry). offset_lt e.0 d.0 ≡ true) t × Sorted t

-- whether an offset lies in the range of the element that starts at `o`
abbrev pub in_range : Offset → ℕ → Offset → Bool
in_range o range k =
    k.element == o.element
    && (leb o.displacement k.displacement && ltb k.displacement (o.displacement + range))

pub pick : Offset → ℕ → List Entry → List Entry
pick o range [] = []
pick o range (e ∷ t) = let rest = pick o range t in if in_range o range e.0 then e ∷ rest else rest

abbrev end_of : Offset → ℕ → Offset
end_of o range = record o { displacement = o.displacement + range }

abbrev NotBelow : Offset → List Entry → Type 0
NotBelow o t = All (λ (d : Entry). offset_lt d.0 o ≡ false) t

later : (k d o : Offset) → offset_lt k d ≡ true → offset_lt k o ≡ false → offset_lt d o ≡ false
later k d o h n = ground (arith, h, n)

NotBelow-later :
    (k o : Offset) (t : List Entry)
    → All (λ (d : Entry). offset_lt k d.0 ≡ true) t
    → offset_lt k o ≡ false
    → NotBelow o t
NotBelow-later k o [] h n = tt
NotBelow-later k o (d ∷ t) (h, hs) n = (later k d.0 o h n, NotBelow-later k o t hs n)

beyond :
    (o k : Offset) (range : ℕ) → offset_lt k (end_of o range) ≡ false → in_range o range k ≡ false
beyond o k range h = ground (arith, h)

before_start : (o k : Offset) (range : ℕ) → offset_lt k o ≡ true → in_range o range k ≡ false
before_start o k range h = ground (arith, h)

between :
    (o k : Offset) (range : ℕ)
    → offset_lt k o ≡ false
    → offset_lt k (end_of o range) ≡ true
    → in_range o range k ≡ true
between o k range h n = ground (arith, h, n)

pick-beyond :
    (o : Offset) (range : ℕ) (t : List Entry) → NotBelow (end_of o range) t → pick o range t ≡ []
unfolding pick
pick-beyond o range [] h = refl
pick-beyond o range (e ∷ t) (h, hs) = rw (beyond o e.0 range h, pick) (pick-beyond o range t hs)

comment_lines-pick :
    (o : Offset) (range : ℕ) (t : List Entry)
    → Sorted t
    → NotBelow o t
    → comment_lines o (end_of o range) t ≡ concat_map (comment_line o) (pick o range t)
unfolding comment_lines pick
comment_lines-pick o range [] s h = refl
comment_lines-pick o range (e ∷ t) (s, ss) (h, hs) =
    elim (Bool-cases (offset_lt e.0 (end_of o range))) [
      | inl y ↦
          rw (y, comment_lines, between o e.0 range h y, pick, comment_lines-pick o range t ss hs)
            refl
      | inr n ↦
          rw
            (
              n,
              comment_lines,
              beyond o e.0 range n,
              pick,
              pick-beyond o range t (NotBelow-later e.0 (end_of o range) t s n),
            )
            refl
    ]

lower_bound-pick :
    (o : Offset) (range : ℕ) (t : List Entry)
    → Sorted t
    → comment_lines o (end_of o range) (lower_bound o t)
      ≡ concat_map (comment_line o) (pick o range t)
unfolding lower_bound pick
lower_bound-pick o range [] s = unfold comment_lines in refl
lower_bound-pick o range (e ∷ t) (s, ss) = elim (Bool-cases (offset_lt e.0 o)) [
  | inl y ↦ rw (y, lower_bound, before_start o e.0 range y, pick) (lower_bound-pick o range t ss)
  | inr n ↦
      rw (n, lower_bound)
        (comment_lines-pick o range (e ∷ t) (s, ss) (n, NotBelow-later e.0 o t s n))
]

printed :
    (p : Printer) (o : Offset) (range : ℕ) (t : List Entry)
    → p.policy.debug ≡ true
    → p.module_.comments ≡ some t
    → print_comments p o range
      ≡ comment_lines o (record o { displacement = add64 o.displacement range }) (lower_bound o t)
unfolding print_comments
printed p o range t d c = ground (arith, d, c)

no_wrap : (a b : ℕ) → a + b < u64_mod → add64 a b ≡ a + b
no_wrap a b h = omega (arith, h)

-- In debug mode, where the table of comments is present and its keys come in order, and the range does not go
-- beyond the 64-bit displacements: the comments that are printed are those of the same element with
-- a displacement in the range, in order.
pub print_comments_lem :
    (p : Printer) (o : Offset) (range : ℕ) (t : List Entry)
    → p.policy.debug ≡ true
    → p.module_.comments ≡ some t
    → Sorted t
    → o.displacement + range < u64_mod
    → print_comments p o range ≡ concat_map (comment_line o) (pick o range t)
print_comments_lem p o range t d c s h =
    printed p o range t d c
    ∙ ap (λ x. comment_lines o (record o { displacement = x }) (lower_bound o t))
        (no_wrap o.displacement range h)
    ∙ lower_bound-pick o range t s
