-- ===== src/Prelude/Result.antt =====
-- What a printer writes, or how it ends. Output is the text that is appended to the stream.
use mathlib.Core.Path.{◌≡◌, refl, sym}
use mathlib.Core.List.{List, [], ◌∷◌, ◌++◌, append-nil, append_assoc}
use mathlib.Core.Option.{Option, none, some}
use mathlib.Core.Bool.{Bool, true, false}
use mathlib.Core.Logic.{◌⊎◌, inl, inr}
use package.gtirb_pprinter.Prelude.Tests.{if◌then◌else◌}
use package.gtirb_pprinter.Prelude.Lists.{All}
use package.gtirb_pprinter.Prelude.Strings.{Text}

-- `null` is a dereference of an empty optional or a null pointer, `bad_cast` a failed `cast<>`,
-- `exit_one` is `exit(1)`, `out_of_range` the exception of `at` and `insert`.
pub data Fault : Type 0 where
  null bad_cast exit_one out_of_range : Fault

pub data Result {ℓ} (A : Type ℓ) : Type ℓ where
  ok : A → Result A
  fault : Fault → Result A

infixl 5 ◌>>=◌
abbrev pub ◌>>=◌ {ℓ κ} : {A : Type ℓ} {B : Type κ} → Result A → (A → Result B) → Result B
ok a >>= f = f a
fault e >>= f = fault e

abbrev pub Output : Type 0
Output = Result Text

abbrev pub before : Text → Output → Output
before s (ok t) = ok (s ++ t)
before s (fault e) = fault e

-- first the one, then the other
infixr 55 ◌⊹◌
abbrev pub ◌⊹◌ : Output → Output → Output
ok s ⊹ m = before s m
fault e ⊹ m = fault e

abbrev pub nothing : Output
nothing = ok []

abbrev pub deref {ℓ} : {A : Type ℓ} → Option A → Result A
deref none = fault null
deref (some a) = ok a

-- every element in turn
abbrev pub each {ℓ} : {A : Type ℓ} → (A → Output) → List A → Output
each f [] = nothing
each f (x ∷ xs) = f x ⊹ each f xs

pub ⊹-nothing : (m : Output) → (m ⊹ nothing) ≡ m
⊹-nothing (ok s) = rw append-nil
⊹-nothing (fault e) = refl

pub ⊹_assoc : (a b c : Output) → ((a ⊹ b) ⊹ c) ≡ (a ⊹ (b ⊹ c))
⊹_assoc (ok s) (ok t) (ok u) = rw append_assoc
⊹_assoc (ok s) (ok t) (fault e) = refl
⊹_assoc (ok s) (fault e) c = refl
⊹_assoc (fault e) b c = refl

nothing-⊹ : (m : Output) → (nothing ⊹ m) ≡ m
nothing-⊹ (ok s) = refl
nothing-⊹ (fault e) = refl

pub each-append {ℓ} :
    {A : Type ℓ} (f : A → Output) (xs ys : List A) → each f (xs ++ ys) ≡ (each f xs ⊹ each f ys)
each-append f [] ys = sym (nothing-⊹ (each f ys))
each-append f (x ∷ xs) ys = rw (each-append f xs ys, ⊹_assoc) refl

pub Output-cases : (m : Output) → ((t : Text) × (m ≡ ok t)) ⊎ ((e : Fault) × (m ≡ fault e))
Output-cases (ok t) = inl (t, refl)
Output-cases (fault e) = inr (e, refl)

-- A text is written, and no fault ends the program.
abbrev pub Writes : Output → Type 0
Writes (ok t) = Unit
Writes (fault e) = ⊥

pub Writes-text : (m : Output) → Writes m → (t : Text) × (m ≡ ok t)
Writes-text (ok t) h = (t, refl)
Writes-text (fault e) h = absurd h

pub ⊹-Writes : (a b : Output) → Writes a → Writes b → Writes (a ⊹ b)
⊹-Writes (ok s) (ok t) h k = tt
⊹-Writes (ok s) (fault e) h k = absurd k
⊹-Writes (fault e) b h k = absurd h

pub if-Writes : (c : Bool) (a b : Output) → Writes a → Writes b → Writes (if c then a else b)
if-Writes true a b h k = h
if-Writes false a b h k = k

pub each-Writes {ℓ} :
    {A : Type ℓ} (f : A → Output) (xs : List A) → All (λ x. Writes (f x)) xs → Writes (each f xs)
each-Writes f [] h = tt
each-Writes f (x ∷ xs) (h, hs) = ⊹-Writes (f x) (each f xs) h (each-Writes f xs hs)
