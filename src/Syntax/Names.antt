-- ===== src/Syntax/Names.antt =====
-- Symbol names that the assembler would read as register or operator names.
use mathlib.Core.List.{append_cancel_right}
use gtirb_pprinter.Prelude.{
  ◌<◌, Text, codes, eq_text, contains, List, [], ◌∷◌, ◌++◌, true, false, ◌≡◌, ◌⊎◌, inl, inr, refl,
  sym, ◌∙◌, arith, Bool-cases, length, length-append, All,
}
use gtirb_pprinter.Syntax.{adapt, is_adapted, format_symbol_name}

eq_text-length : (s t : Text) → length t < length s → eq_text s t ≡ false
eq_text-length [] t h = absurd (omega arith)
eq_text-length (c ∷ s) [] h = refl
eq_text-length (c ∷ s) (d ∷ t) h = ground (arith, eq_text-length s t)

-- a text longer than every one of a set is not in it
contains-length :
    (s : Text) (ts : List Text) → All (λ (t : Text). length t < length s) ts → contains s ts ≡ false
contains-length s [] h = refl
contains-length s (t ∷ ts) (h, hs) = ground (arith, eq_text-length s t h, contains-length s ts hs)

renamed_free : (x : Text) → is_adapted (x ++ codes "_renamed") ≡ false
unfolding is_adapted
renamed_free x =
    contains-length (x ++ codes "_renamed") adapt
      (omega (arith, length-append x (codes "_renamed")))

format_adapted : (x : Text) → is_adapted x ≡ true → format_symbol_name x ≡ x ++ codes "_renamed"
unfolding format_symbol_name
format_adapted x e = rw e refl

format_other : (x : Text) → is_adapted x ≡ false → format_symbol_name x ≡ x
unfolding format_symbol_name
format_other x e = rw e refl

-- A formatted symbol name is never one of the names to avoid, every other name is printed as it
-- is, and formatting twice changes nothing more.
format_symbol_name_lem :
    (x : Text)
    → (is_adapted (format_symbol_name x) ≡ false)
      × (is_adapted x ≡ false → format_symbol_name x ≡ x)
      × (format_symbol_name (format_symbol_name x) ≡ format_symbol_name x)
format_symbol_name_lem x = elim (Bool-cases (is_adapted x)) [
  | inl e ↦
      rw (format_adapted x e)
        (renamed_free x, (λ h. cc), format_other (x ++ codes "_renamed") (renamed_free x))
  | inr e ↦ rw (format_other x e) (e, (λ h. refl), format_other x e)
]

-- Two names are printed alike only if they are equal, or one is a name to avoid and the other is
-- its renamed form.
pub format_symbol_name_collision :
    (x y : Text)
    → format_symbol_name x ≡ format_symbol_name y
    → (x ≡ y)
      ⊎ ((is_adapted x ≡ true) × (y ≡ x ++ codes "_renamed"))
      ⊎ ((is_adapted y ≡ true) × (x ≡ y ++ codes "_renamed"))
format_symbol_name_collision x y h = elim (Bool-cases (is_adapted x)) [
  | inl e ↦ elim (Bool-cases (is_adapted y)) [
    | inl d ↦ inl (
        append_cancel_right x y (codes "_renamed")
          (sym (format_adapted x e) ∙ h ∙ format_adapted y d))
    | inr d ↦ inr (inl (e, sym (sym (format_adapted x e) ∙ h ∙ format_other y d)))
  ]
  | inr e ↦ elim (Bool-cases (is_adapted y)) [
    | inl d ↦ inr (inr (d, sym (format_other x e) ∙ h ∙ format_adapted y d))
    | inr d ↦ inl (sym (format_other x e) ∙ h ∙ format_other y d)
  ]
]
