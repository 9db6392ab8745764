-- ===== src/Sections/Alignment.antt =====
-- The alignment directive.
use gtirb_pprinter.Prelude.{
  ℕ, ◌*◌, ◌%◌, ◌<◌, ◌≤◌, ◌==◌, if◌then◌else◌, Text, codes, [], ◌∷◌, ◌++◌, ◌≡◌, ◌≢◌, inl, inr, refl,
  arith, Bool-cases, ◌^◌,
}
use gtirb_pprinter.Prelude.Number.{dec}
use gtirb_pprinter.Syntax.{align_directive}
use gtirb_pprinter.Sections.{print_alignment}

-- the directive for an alignment; 1 needs none
abbrev pub align_line : ℕ → Text
align_line a = if a == 1 then [] else align_directive ++ (b' ' ∷ dec a ++ codes "\n")

-- The alignment that is printed for an address is a power of two up to 16 that divides it, and the
-- greatest such power.
print_alignment_lem :
    (x : ℕ)
    → (a : ℕ) × (k : ℕ) × (a ≡ 2 ^ k)
      × (k ≤ 4)
      × (x % a ≡ 0)
      × (k < 4 → x % (2 * a) ≢ 0)
      × (print_alignment x ≡ align_line a)
unfolding print_alignment dec
print_alignment_lem x = elim (Bool-cases (x % 16 == 0)) [
  | inl e ↦ (16, 4, refl, omega arith, ground arith, (λ h. absurd (omega arith)), rw e refl)
  | inr e ↦ elim (Bool-cases (x % 8 == 0)) [
    | inl f ↦ (8, 3, refl, omega arith, ground arith, (λ h. ground arith), rw (e, f) refl)
    | inr f ↦ elim (Bool-cases (x % 4 == 0)) [
      | inl g ↦ (4, 2, refl, omega arith, ground arith, (λ h. ground arith), rw (e, f, g) refl)
      | inr g ↦ elim (Bool-cases (x % 2 == 0)) [
        | inl h ↦ (2, 1, refl, omega arith, ground arith, (λ l. ground arith), rw (e, f, g, h) refl)
        | inr h ↦ (1, 0, refl, omega arith, omega arith, (λ l. ground arith), rw (e, f, g, h) refl)
      ]
    ]
  ]
]
