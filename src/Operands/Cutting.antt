-- ===== src/Operands/Cutting.antt =====
-- Readers for operands that src/gtirb_pprinter writes: texts that are cut at a character.
use gtirb_pprinter.Prelude.{
  ℕ, ◌==◌, if◌then◌else◌, true, false, Text, Option, none, some, [], ◌∷◌, ◌++◌, ◌≡◌, ◌≢◌, ◌⊎◌, ◌<◌,
  refl, arith,
}
use gtirb_pprinter.Prelude.Number.{AllDigits, AllDecimal}

-- the text before the first `c`, and what follows it
abbrev pub cut : ℕ → Text → Text × Option Text
cut c [] = ([], none)
cut c (d ∷ s) =
    let (before, after) = cut c s in if d == c then ([], some s) else (d ∷ before, after)

abbrev pub Lacks : ℕ → Text → Type 0
Lacks c [] = Unit
Lacks c (d ∷ s) = (d ≢ c) × Lacks c s

pub cut-Lacks : (c : ℕ) (s : Text) → Lacks c s → cut c s ≡ (s, none)
cut-Lacks c [] h = refl
cut-Lacks c (d ∷ s) (h, hs) =
    let n : (d == c) ≡ false = ground arith in rw (n, cut-Lacks c s hs) refl

pub cut_at : (c : ℕ) (s r : Text) → Lacks c s → cut c (s ++ (c ∷ r)) ≡ (s, some r)
cut_at c [] r h = let e : (c == c) ≡ true = ground arith in rw e refl
cut_at c (d ∷ s) r (h, hs) = let n : (d == c) ≡ false = ground arith in rw (n, cut_at c s r hs) refl

pub Lacks-append : (c : ℕ) (s r : Text) → Lacks c s → Lacks c r → Lacks c (s ++ r)
Lacks-append c [] r h k = k
Lacks-append c (d ∷ s) r (h, hs) k = (h, Lacks-append c s r hs k)

-- a character that ends or starts a part of an operand
abbrev pub IsMark : ℕ → Type 0
IsMark c = (c < 48) ⊎ (c ≡ 58)

pub digits-Lacks : (c : ℕ) (s : Text) → IsMark c → AllDigits s → Lacks c s
digits-Lacks c [] m h = tt
digits-Lacks c (d ∷ s) m ((a, b, e), hs) = (ground (arith, a, e, m), digits-Lacks c s m hs)

pub decimal-Lacks : (c : ℕ) (s : Text) → 57 < c → AllDecimal s → Lacks c s
decimal-Lacks c [] m h = tt
decimal-Lacks c (d ∷ s) m (a, b, hs) = (omega (arith, b, m), decimal-Lacks c s m hs)
