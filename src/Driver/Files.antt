-- ===== src/Driver/Files.antt =====
-- The names of the assembly files: `getAsmFileName` of src/gtirb_pprinter/driver/pretty_printer.cpp.
use gtirb_pprinter.Prelude.{
  ℕ, suc, ◌==◌, if◌then◌else◌, Bool, true, false, Text, none, some, [], ◌∷◌, ◌++◌, ◌≡◌, ◌⊎◌, refl,
  sym, ap, ◌∙◌, inl, inr, arith, Bool-cases,
}
use mathlib.Core.List.{append_cancel_left, append_cancel_right}
use gtirb_pprinter.Prelude.Number.{dec, dec-injective}
use gtirb_pprinter.Prelude.Result.{Result, ok, fault, out_of_range}
use gtirb_pprinter.Driver.{split_last_dot, get_asm_file_name}

abbrev pub has_dot : Text → Bool
has_dot [] = false
has_dot (c ∷ s) = if c == b'.' then true else has_dot s

-- how a name is cut: at its last dot, if it has one
split_last_dot_lem :
    (s : Text)
    → ((split_last_dot s ≡ none) × (has_dot s ≡ false))
      ⊎ ((a : Text) × (b : Text) × (split_last_dot s ≡ some (a, b'.' ∷ b))
          × (s ≡ a ++ (b'.' ∷ b))
          × (has_dot b ≡ false))
unfolding split_last_dot
split_last_dot_lem [] = inl (refl, refl)
split_last_dot_lem (c ∷ s) = elim (split_last_dot_lem s) [
  | inr (a, b, e, q, l) ↦ inr (c ∷ a, b, rw e refl, ap (λ u. c ∷ u) q, l)
  | inl (e, l) ↦ elim (Bool-cases (c == b'.')) [
    | inl d ↦ inr ([], s, rw (e, d) (ground (arith, d)), ground (arith, d), l)
    | inr d ↦ inl (rw (e, d) refl, rw (d, has_dot) l)
  ]
]

-- what the file of a module other than the first is called
abbrev pub Numbered : Text → ℕ → Result Text → Type 0
Numbered filename i r =
    ((has_dot filename ≡ false) × (r ≡ fault out_of_range))
    ⊎ ((stem : Text) × (extension : Text) × (filename ≡ stem ++ (b'.' ∷ extension))
        × (has_dot extension ≡ false)
        × (r ≡ ok (stem ++ (dec i ++ (b'.' ∷ extension)))))

no_dot :
    (f : Text) (i : ℕ) → split_last_dot f ≡ none → get_asm_file_name f (suc i) ≡ fault out_of_range
unfolding get_asm_file_name
no_dot f i e = rw (e, get_asm_file_name) refl

at_dot :
    (f : Text) (i : ℕ) (a b : Text)
    → split_last_dot f ≡ some (a, b)
    → get_asm_file_name f (suc i) ≡ ok (a ++ (dec (suc i) ++ b))
unfolding get_asm_file_name
at_dot f i a b e = rw (e, get_asm_file_name) refl

-- For every module but the first, the number of the module stands before the last dot of the file's
-- name, and for a name without a dot no name results: `insert` throws.
pub get_asm_file_name_lem :
    (filename : Text) (i : ℕ) → Numbered filename (suc i) (get_asm_file_name filename (suc i))
get_asm_file_name_lem filename i = elim (split_last_dot_lem filename) [
  | inl (e, l) ↦ inl (l, no_dot filename i e)
  | inr (a, b, e, q, l) ↦ inr (a, b, q, l, at_dot filename i a (b'.' ∷ b) e)
]

ok_injective : (s t : Text) → ok s ≡ ok t → s ≡ t
ok_injective s t h = cc

-- Two modules other than the first whose files get the same name are the same module.
pub get_asm_file_name-injective :
    (filename name : Text) (i j : ℕ)
    → get_asm_file_name filename (suc i) ≡ ok name
    → get_asm_file_name filename (suc j) ≡ ok name
    → i ≡ j
get_asm_file_name-injective filename name i j h k = elim (split_last_dot_lem filename) [
  | inl (e, l) ↦ absurd (ground (arith, no_dot filename i e, h))
  | inr (a, b, e, q, l) ↦
      let same =
        ok_injective (a ++ (dec (suc i) ++ (b'.' ∷ b))) (a ++ (dec (suc j) ++ (b'.' ∷ b)))
          (sym (at_dot filename i a (b'.' ∷ b) e) ∙ h ∙ sym k ∙ at_dot filename j a (b'.' ∷ b) e) in
      let numbers =
        append_cancel_right (dec (suc i)) (dec (suc j)) (b'.' ∷ b)
          (append_cancel_left a (dec (suc i) ++ (b'.' ∷ b)) (dec (suc j) ++ (b'.' ∷ b)) same) in
      omega (arith, dec-injective (suc i) (suc j) numbers)
]
