-- ===== src/Layout/Slices.antt =====
-- Slices of byte lists, and membership in appended and mapped lists.
use gtirb_pprinter.Prelude.{
  ℕ, zero, suc, ◌+◌, ◌≤◌, List, [], ◌∷◌, ◌++◌, map, length, ◌≡◌, refl, ap, ◌⊎◌, inl, inr, arith,
}
use gtirb_pprinter.Layout.{take_bytes, drop_bytes}
use gtirb_pprinter.Layout.Scan.{In}

pub take_bytes-append :
    (n : ℕ) (xs ys : List ℕ) → n ≤ length xs → take_bytes n (xs ++ ys) ≡ take_bytes n xs
take_bytes-append zero xs ys h = refl
take_bytes-append (suc n) [] ys h = absurd (omega arith)
take_bytes-append (suc n) (x ∷ xs) ys h = ap (◌∷◌ x) (take_bytes-append n xs ys (omega arith))

pub take_all : (n : ℕ) (xs : List ℕ) → length xs ≤ n → take_bytes n xs ≡ xs
take_all zero [] h = refl
take_all zero (x ∷ xs) h = absurd (omega arith)
take_all (suc n) [] h = refl
take_all (suc n) (x ∷ xs) h = ap (◌∷◌ x) (take_all n xs (omega arith))

pub drop_all : (n : ℕ) (xs : List ℕ) → length xs ≤ n → drop_bytes n xs ≡ []
drop_all zero [] h = refl
drop_all zero (x ∷ xs) h = absurd (omega arith)
drop_all (suc n) [] h = refl
drop_all (suc n) (x ∷ xs) h = drop_all n xs (omega arith)

-- a slice inside `xs` does not see what follows
pub slice_inside :
    (off n : ℕ) (xs ys : List ℕ)
    → off + n ≤ length xs
    → take_bytes n (drop_bytes off (xs ++ ys)) ≡ take_bytes n (drop_bytes off xs)
slice_inside zero n xs ys h = take_bytes-append n xs ys (omega arith)
slice_inside (suc off) n [] ys h = absurd (omega arith)
slice_inside (suc off) n (x ∷ xs) ys h = slice_inside off n xs ys (omega arith)

pub drop_bytes-append :
    (k off : ℕ) (xs ys : List ℕ)
    → length xs ≡ k
    → drop_bytes (k + off) (xs ++ ys) ≡ drop_bytes off ys
drop_bytes-append k off [] ys h = let e : k + off ≡ off = omega arith in rw e refl
drop_bytes-append zero off (x ∷ xs) ys h = absurd (omega arith)
drop_bytes-append (suc k) off (x ∷ xs) ys h =
    let e : suc k + off ≡ suc (k + off) = omega arith in
    rw e (drop_bytes-append k off xs ys (omega arith))

module _ {A : Type 0} where
  pub In-append_left : (a : A) (xs ys : List A) → In a xs → In a (xs ++ ys)
  In-append_left a [] ys i = absurd i
  In-append_left a (x ∷ xs) ys (inl e) = inl e
  In-append_left a (x ∷ xs) ys (inr i) = inr (In-append_left a xs ys i)

  pub In-append_right : (a : A) (xs ys : List A) → In a ys → In a (xs ++ ys)
  In-append_right a [] ys i = i
  In-append_right a (x ∷ xs) ys i = inr (In-append_right a xs ys i)

  pub In-append : (a : A) (xs ys : List A) → In a (xs ++ ys) → In a xs ⊎ In a ys
  In-append a [] ys i = inr i
  In-append a (x ∷ xs) ys (inl e) = inl (inl e)
  In-append a (x ∷ xs) ys (inr i) = elim (In-append a xs ys i) [
    | inl j ↦ inl (inr j)
    | inr j ↦ inr j
  ]

  pub In-map : (f : A → A) (a : A) (xs : List A) → In a xs → In (f a) (map f xs)
  In-map f a [] i = absurd i
  In-map f a (x ∷ xs) (inl e) = inl (ap f e)
  In-map f a (x ∷ xs) (inr i) = inr (In-map f a xs i)

  pub In-map_inv :
      (f : A → A) (b : A) (xs : List A) → In b (map f xs) → (a : A) × In a xs × (b ≡ f a)
  In-map_inv f b [] i = absurd i
  In-map_inv f b (x ∷ xs) (inl e) = (x, inl refl, e)
  In-map_inv f b (x ∷ xs) (inr i) = let (a, j, e) = In-map_inv f b xs i in (a, inr j, e)

-- two lists, each with a mapped one behind it
module _ {A : Type 0} (f : A → A) (xs ys zs ws : List A) where
  abbrev both : List A
  both = (xs ++ map f ys) ++ (zs ++ map f ws)

  pub In-both_inv : (b : A) → In b both → In b (xs ++ zs) ⊎ ((c : A) × In c (ys ++ ws) × (b ≡ f c))
  In-both_inv b i = elim (In-append b (xs ++ map f ys) (zs ++ map f ws) i) [
    | inl j ↦ elim (In-append b xs (map f ys) j) [
      | inl k ↦ inl (In-append_left b xs zs k)
      | inr k ↦ let (c, l, e) = In-map_inv f b ys k in inr (c, In-append_left c ys ws l, e)
    ]
    | inr j ↦ elim (In-append b zs (map f ws) j) [
      | inl k ↦ inl (In-append_right b xs zs k)
      | inr k ↦ let (c, l, e) = In-map_inv f b ws k in inr (c, In-append_right c ys ws l, e)
    ]
  ]

  pub In-both_first : (b : A) → In b (xs ++ zs) → In b both
  In-both_first b i = elim (In-append b xs zs i) [
    | inl j ↦ In-append_left b (xs ++ map f ys) _ (In-append_left b xs (map f ys) j)
    | inr j ↦ In-append_right b (xs ++ map f ys) _ (In-append_left b zs (map f ws) j)
  ]

  pub In-both_second : (c : A) → In c (ys ++ ws) → In (f c) both
  In-both_second c i = elim (In-append c ys ws i) [
    | inl j ↦
        In-append_left (f c) (xs ++ map f ys) _
          (In-append_right (f c) xs (map f ys) (In-map f c ys j))
    | inr j ↦
        In-append_right (f c) (xs ++ map f ys) _
          (In-append_right (f c) zs (map f ws) (In-map f c ws j))
  ]
