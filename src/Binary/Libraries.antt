-- ===== src/Binary/Libraries.antt =====
-- Names of the form lib*.so* and symbolic links in src/gtirb_pprinter/ElfBinaryPrinter.cpp.
use gtirb_pprinter.Prelude.{
  ℕ, zero, suc, ◌<◌, ==_refl, Bool, true, false, Text, codes, Option, none, some, [], ◌∷◌, ◌++◌,
  ◌≡◌, refl, ap, inl, inr, arith, Bool-cases, Option-cases, subst, ◌∙◌, ◌⊎◌,
}
use gtirb_pprinter.Binary.{
  strip, one_line, before_last_so, get_infix_library_name, FileSystem, resolve,
}

strip_sound : (t s r : Text) → strip t s ≡ some r → s ≡ t ++ r
strip_sound [] s r h = ground (arith, h)
strip_sound (c ∷ t) [] r h = ground (arith, h)
strip_sound (c ∷ t) (d ∷ s) r h = ground (arith, strip_sound t s r)

strip-append : (t r : Text) → strip t (t ++ r) ≡ some r
strip-append [] r = refl
strip-append (c ∷ t) r = rw (==_refl c) (strip-append t r)

-- whether ".so" stands somewhere in the text
abbrev pub has_so : Text → Bool
has_so [] = false
has_so (c ∷ s) = elim (strip (codes ".so") (c ∷ s)) [ some r ↦ true | none ↦ has_so s ]

abbrev rest_of : Text → Text
rest_of [] = []
rest_of (c ∷ s) = s

before_last_so_lem :
    (s : Text)
    → ((before_last_so s ≡ none) × (has_so s ≡ false))
      ⊎ ((t : Text) × (r : Text) × (before_last_so s ≡ some t)
          × (s ≡ t ++ (codes ".so" ++ r))
          × (has_so (codes "so" ++ r) ≡ false))
unfolding before_last_so
before_last_so_lem [] = inl (refl, refl)
before_last_so_lem (c ∷ s) = elim (before_last_so_lem s) [
  | inr (t, r, e, q, l) ↦ inr (c ∷ t, r, rw e refl, ap (λ u. c ∷ u) q, l)
  | inl (e, l) ↦ elim (Option-cases (strip (codes ".so") (c ∷ s))) [
    | inl n ↦ inl (rw (e, n) refl, rw (n, has_so) l)
    | inr (r, h) ↦
        let q = strip_sound (codes ".so") (c ∷ s) r h in
        inr ([], r, rw (e, h) refl, q, subst (λ u. has_so u ≡ false) (ap rest_of q) l)
  ]
]

-- the chain of links from a path, followed `n` times
abbrev pub follow : FileSystem → ℕ → Text → Text
follow fs zero path = path
follow fs (suc n) path = follow fs n (fs.read_symlink path)

-- the first `n` paths of the chain are links
abbrev pub Links : FileSystem → ℕ → Text → Type 0
Links fs zero path = Unit
Links fs (suc n) path = (fs.is_symlink path ≡ true) × Links fs n (fs.read_symlink path)

-- If following the links `n` times ends at a path that is not a link, then the loop ends there
-- with any fuel above `n`.
resolve_total :
    (fs : FileSystem) (n fuel : ℕ) (path : Text)
    → Links fs n path
    → fs.is_symlink (follow fs n path) ≡ false
    → n < fuel
    → resolve fs fuel path ≡ some (follow fs n path)
unfolding resolve
resolve_total fs n zero path l h lt = absurd (omega (arith, lt))
resolve_total fs zero (suc f) path l h lt = rw (h, resolve) refl
resolve_total fs (suc n) (suc f) path (l, ls) h lt =
    rw (l, resolve) (resolve_total fs n f (fs.read_symlink path) ls h (omega (arith, lt)))

matching :
    (library rest : Text)
    → strip (codes "lib") library ≡ some rest
    → one_line library ≡ true
    → get_infix_library_name library ≡ before_last_so rest
unfolding get_infix_library_name
matching library rest e o = rw (e, o) refl

not_lib :
    (library : Text) → strip (codes "lib") library ≡ none → get_infix_library_name library ≡ none
unfolding get_infix_library_name
not_lib library e = rw e refl

not_one_line : (library : Text) → one_line library ≡ false → get_infix_library_name library ≡ none
unfolding get_infix_library_name
not_one_line library o = elim (Option-cases (strip (codes "lib") library)) [
  | inl e ↦ rw e refl
  | inr (rest, e) ↦ rw (e, o) refl
]

-- what the name of a library gives, or that it does not match
abbrev pub Match : Text → Option Text → Type 0
Match library none =
    (strip (codes "lib") library ≡ none)
    ⊎ ((one_line library ≡ false)
        ⊎ ((rest : Text) × (library ≡ codes "lib" ++ rest) × (has_so rest ≡ false)))
Match library (some i) =
    (r : Text) × (library ≡ codes "lib" ++ (i ++ (codes ".so" ++ r)))
    × (has_so (codes "so" ++ r) ≡ false)

-- A name gives the text between "lib" and the last ".so" of the rest, and gives none only if it does not
-- start with "lib", is not one line, or has no ".so" after "lib".
get_infix_library_name_lem : (library : Text) → Match library (get_infix_library_name library)
get_infix_library_name_lem library = elim (Option-cases (strip (codes "lib") library)) [
  | inl e ↦ rw (not_lib library e) (inl e)
  | inr (rest, e) ↦ elim (Bool-cases (one_line library)) [
    | inr o ↦ rw (not_one_line library o) (inr (inl o))
    | inl o ↦ elim (before_last_so_lem rest) [
      | inl (n, l) ↦
          rw (matching library rest e o, n)
            (inr (inr (rest, strip_sound (codes "lib") library rest e, l)))
      | inr (t, r, b, q, l) ↦
          rw (matching library rest e o, b)
            (r, strip_sound (codes "lib") library rest e ∙ ap (λ u. codes "lib" ++ u) q, l)
    ]
  ]
]
