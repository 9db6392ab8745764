-- ===== src/Sections/Switching.antt =====
-- When the printer of src/gtirb_pprinter/PrettyPrinter.cpp closes a section.
use gtirb_pprinter.Prelude.{
  ℕ, ◌+◌, ◌%◌, ◌<◌, head_of, subst, if◌then◌else◌, true, false, Text, codes, contains, Option, none,
  some, [], ◌++◌, ◌≡◌, ◌≢◌, ◌⊎◌, inl, inr, refl, ap, sym, ◌∙◌, arith, Bool-cases, Option-cases,
}
use gtirb_pprinter.Prelude.Number.{u64_mod}
use gtirb_pprinter.Gtirb.{Section}
use gtirb_pprinter.Printer.{Printer, get_container_section}
use gtirb_pprinter.Sections.{
  print_section_footer, print_bar, address_before, same_section, container_at,
}

-- the next address, if there is one, lies in no section or in one other than `s`
abbrev pub Elsewhere : Printer → Option ℕ → Section → Type 0
Elsewhere p none s = Unit
Elsewhere p (some a) s =
    (head_of (p.module_.find_sections_on a) ≡ none)
    ⊎ ((t : Section) × (head_of (p.module_.find_sections_on a) ≡ some t) × (t.uuid ≢ s.uuid))

-- the byte at `b` lies in a section that is not skipped, and the next address lies elsewhere
abbrev pub Closes : Printer → Option ℕ → ℕ → Type 0
Closes p next b =
    (s : Section) × (head_of (p.module_.find_sections_on b) ≡ some s)
    × (contains s.name p.policy.skip_sections ≡ false)
    × Elsewhere p next s

-- the same in the words of the code
abbrev Ends : Printer → Option ℕ → ℕ → Type 0
Ends p next last =
    (s : Section) × (get_container_section p (address_before last) ≡ some s)
    × (contains s.name p.policy.skip_sections ≡ false)
    × ((t : Section) → container_at p next ≡ some t → t.uuid ≢ s.uuid)

pub footer_text : Text
footer_text = print_bar true ++ (codes "\n" ++ print_bar true)

no_section :
    (p : Printer) (next : Option ℕ) (last : ℕ)
    → get_container_section p (address_before last) ≡ none
    → print_section_footer p next last ≡ []
unfolding print_section_footer
no_section p next last e = rw (e, print_section_footer) refl

in_section :
    (p : Printer) (next : Option ℕ) (last : ℕ) (s : Section)
    → get_container_section p (address_before last) ≡ some s
    → print_section_footer p next last ≡ (
        if contains s.name p.policy.skip_sections
        then []
        else if same_section (container_at p next) s
        then []
        else footer_text)
unfolding print_section_footer footer_text
in_section p next last s e = rw (e, print_section_footer) refl

same_uuid :
    (o : Option Section) (s : Section)
    → same_section o s ≡ false
    → (t : Section) → o ≡ some t
    → t.uuid ≢ s.uuid
same_uuid o s h t e q = ground (arith, h, e, q)

same_uuid_conv :
    (o : Option Section) (s : Section)
    → same_section o s ≡ true
    → (t : Section) × (o ≡ some t) × (t.uuid ≡ s.uuid)
same_uuid_conv none s h = absurd (ground (arith, h))
same_uuid_conv (some t) s h = (t, refl, ground (arith, h))

section_injective : (s t : Section) → some s ≡ some t → s ≡ t
section_injective s t h = cc

not_apart :
    (here there : Option Section) (s u : Section)
    → here ≡ some s
    → there ≡ some u
    → u.uuid ≡ s.uuid
    → (t : Section) → here ≡ some t
    → ((v : Section) → there ≡ some v → v.uuid ≢ t.uuid)
    → ⊥
not_apart here there s u e o same t h apart =
    apart u o (same ∙ ap (λ (x : Section). x.uuid) (section_injective s t (sym e ∙ h)))

footer-Ends :
    (p : Printer) (next : Option ℕ) (last : ℕ)
    → ((print_section_footer p next last ≡ footer_text) × Ends p next last)
      ⊎ ((print_section_footer p next last ≡ []) × (Ends p next last → ⊥))
footer-Ends p next last = elim (Option-cases (get_container_section p (address_before last))) [
  | inl e ↦ inr (no_section p next last e, λ w. ground (arith, e, w.1))
  | inr (s, e) ↦ elim (Bool-cases (contains s.name p.policy.skip_sections)) [
    | inl k ↦ inr (rw (in_section p next last s e, k) refl, λ w. ground (arith, e, w.1, w.2, k))
    | inr k ↦ elim (Bool-cases (same_section (container_at p next) s)) [
      | inr d ↦ inl (
        rw (in_section p next last s e, k, d) refl,
        (s, e, k, same_uuid (container_at p next) s d),
      )
      | inl d ↦
          let (u, o, same) = same_uuid_conv (container_at p next) s d in
          inr (
            rw (in_section p next last s e, k, d) refl,
            λ w.
                not_apart (get_container_section p (address_before last)) (container_at p next) s u
                  e o same w.0 w.1 w.3,
          )
    ]
  ]
]

container_at-Elsewhere :
    (p : Printer) (next : Option ℕ) (s : Section)
    → ((t : Section) → container_at p next ≡ some t → t.uuid ≢ s.uuid)
    → Elsewhere p next s
unfolding get_container_section
container_at-Elsewhere p none s h = tt
container_at-Elsewhere p (some a) s h =
    elim (Option-cases (head_of (p.module_.find_sections_on a))) [
      | inl e ↦ inl e
      | inr (t, e) ↦ inr (t, e, h t e)
    ]

Elsewhere-container_at :
    (p : Printer) (next : Option ℕ) (s : Section)
    → Elsewhere p next s
    → (t : Section) → container_at p next ≡ some t
    → t.uuid ≢ s.uuid
unfolding get_container_section
Elsewhere-container_at p none s h t e k = absurd (ground (arith, e))
Elsewhere-container_at p (some a) s (inl n) t e k = absurd (ground (arith, n, e))
Elsewhere-container_at p (some a) s (inr (u, q, d)) t e k =
    d (ap (λ (x : Section). x.uuid) (section_injective u t (sym q ∙ e)) ∙ k)

before_last : (b last : ℕ) → b < u64_mod → (b + 1) % u64_mod ≡ last → address_before last ≡ b
before_last b last h e = omega (arith, h, e)

-- Let `b` be the address whose successor modulo 2 ^ 64 is `last`. The footer after `last` is the two bars when
-- `b` lies in a section that is not skipped and the next address, if there is one, lies in no section
-- or in one with another UUID; in every other case the footer is empty.
pub print_section_footer_lem :
    (p : Printer) (next : Option ℕ) (b last : ℕ)
    → b < u64_mod
    → (b + 1) % u64_mod ≡ last
    → ((print_section_footer p next last ≡ footer_text) × Closes p next b)
      ⊎ ((print_section_footer p next last ≡ []) × (Closes p next b → ⊥))
unfolding get_container_section
print_section_footer_lem p next b last h k =
    let q = before_last b last h k in
    elim (footer-Ends p next last) [
      | inl (f, (s, e, c, d)) ↦ inl (
        f,
        (
          s,
          subst (λ x. head_of (p.module_.find_sections_on x) ≡ some s) q e,
          c,
          container_at-Elsewhere p next s d,
        ),
      )
      | inr (f, n) ↦ inr (
        f,
        λ (s, e, c, d). n (
          s,
          subst (λ x. head_of (p.module_.find_sections_on x) ≡ some s) (sym q) e,
          c,
          Elsewhere-container_at p next s d,
        ),
      )
    ]
