-- ===== src/Blocks/Document/Ending.antt =====
-- Texts and outputs that end where a line ends, for src/gtirb_pprinter/PrettyPrinter.cpp.
use gtirb_pprinter.Prelude.{
  ◌==◌, if◌then◌else◌, Bool, true, false, Text, codes, is_empty, List, [], ◌∷◌, ◌++◌, concat_map,
  append_assoc, append-nil, ◌≡◌, ◌⊎◌, refl, ap, inl, inr, arith,
}
use gtirb_pprinter.Prelude.Result.{Result, Output, ok, fault, ◌⊹◌, ◌>>=◌, each}

-- The text ends a line.
abbrev pub HasEnd : Text → Type 0
HasEnd t = (s : Text) × (t ≡ s ++ codes "\n")

abbrev pub IsFull : Text → Type 0
IsFull t = (t ≡ []) ⊎ HasEnd t

pub newline : (s : Text) → HasEnd (s ++ codes "\n")
newline s = (s, refl)

pub after : (s t : Text) → HasEnd t → HasEnd (s ++ t)
after s t (r, e) = (s ++ r, rw (e, append_assoc) refl)

pub append-HasEnd : (s t : Text) → HasEnd s → IsFull t → HasEnd (s ++ t)
append-HasEnd s t h (inl e) = rw (e, append-nil) h
append-HasEnd s t h (inr e) = after s t e

pub append-IsFull : (s t : Text) → IsFull s → IsFull t → IsFull (s ++ t)
append-IsFull s t (inl e) h = rw e h
append-IsFull s t (inr e) h = inr (append-HasEnd s t e h)

pub if-IsFull : (c : Bool) (s t : Text) → IsFull s → IsFull t → IsFull (if c then s else t)
if-IsFull true s t h k = h
if-IsFull false s t h k = k

pub concat_map-IsFull {ℓ} :
    {A : Type ℓ} (f : A → Text) (xs : List A) → ((x : A) → IsFull (f x)) → IsFull (concat_map f xs)
concat_map-IsFull f [] h = inl refl
concat_map-IsFull f (x ∷ xs) h =
    append-IsFull (f x) (concat_map f xs) (h x) (concat_map-IsFull f xs h)

-- What is written, if no fault ends it, ends a line.
abbrev pub WritesFull : Output → Type 0
WritesFull (ok t) = IsFull t
WritesFull (fault e) = Unit

abbrev pub WritesEnd : Output → Type 0
WritesEnd (ok t) = HasEnd t
WritesEnd (fault e) = Unit

pub ⊹-WritesFull : (a b : Output) → WritesFull a → WritesFull b → WritesFull (a ⊹ b)
⊹-WritesFull (ok s) (ok t) h k = append-IsFull s t h k
⊹-WritesFull (ok s) (fault e) h k = tt
⊹-WritesFull (fault e) b h k = tt

pub ⊹-WritesEnd : (a b : Output) → WritesEnd b → WritesEnd (a ⊹ b)
⊹-WritesEnd (ok s) (ok t) h = after s t h
⊹-WritesEnd (ok s) (fault e) h = tt
⊹-WritesEnd (fault e) b h = tt

pub WritesEnd-WritesFull : (a : Output) → WritesEnd a → WritesFull a
WritesEnd-WritesFull (ok s) h = inr h
WritesEnd-WritesFull (fault e) h = tt

pub each-WritesFull {ℓ} :
    {A : Type ℓ} (f : A → Output) (xs : List A)
    → ((x : A) → WritesEnd (f x))
    → WritesFull (each f xs)
each-WritesFull f [] h = inl refl
each-WritesFull f (x ∷ xs) h =
    ⊹-WritesFull (f x) (each f xs) (WritesEnd-WritesFull (f x) (h x)) (each-WritesFull f xs h)

pub if-WritesFull :
    (c : Bool) (a b : Output) → WritesFull a → WritesFull b → WritesFull (if c then a else b)
if-WritesFull true a b h k = h
if-WritesFull false a b h k = k

pub bind-WritesFull {ℓ} :
    {A : Type ℓ} (r : Result A) (f : A → Output)
    → ((a : A) → WritesFull (f a))
    → WritesFull (r >>= f)
bind-WritesFull (ok a) f h = h a
bind-WritesFull (fault e) f h = tt

pub bare-WritesFull :
    (b : Bool) (s : Text) (m : Output)
    → b ≡ false
    → WritesFull m
    → WritesFull (ok (if b then s else []) ⊹ m)
bare-WritesFull true s m e h = cc
bare-WritesFull false s (ok t) e h = h
bare-WritesFull false s (fault f) e h = h

unfoldable pub ends_line : Text → Bool
ends_line [] = false
ends_line (c ∷ s) = let rest = ends_line s in if is_empty s then c == 10 else rest

pub ends_line-HasEnd : (t : Text) → ends_line t ≡ true → HasEnd t
unfolding ends_line
ends_line-HasEnd [] h = cc
ends_line-HasEnd (c ∷ []) h = ([], ground (arith, h))
ends_line-HasEnd (c ∷ d ∷ s) h =
    let (r, e) = ends_line-HasEnd (d ∷ s) h in (c ∷ r, ap (λ t. c ∷ t) e)

pub closing_line : WritesEnd (ok (codes "\n"))
closing_line = newline []

pub ends_newline : HasEnd (codes "\n")
ends_newline = newline []

pub empty : IsFull []
empty = inl refl

pub if-HasEnd : (c : Bool) (s t : Text) → HasEnd s → HasEnd t → HasEnd (if c then s else t)
if-HasEnd true s t h k = h
if-HasEnd false s t h k = k
