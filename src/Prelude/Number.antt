-- ===== src/Prelude/Number.antt =====
-- Numbers as `operator<<` writes them: decimal, and hexadecimal without a base prefix. Each round
-- divides by the base, so `suc n` rounds are enough for `n`.
use Prim.Native.Nat.{ℕ, zero, suc, ◌+◌, ◌-◌, ◌*◌, ◌/◌, ◌%◌, ◌^◌, ◌<◌}
use mathlib.Core.Path.{◌≡◌, sym, ◌∙◌, ap}
use mathlib.Core.List.{[], ◌∷◌}
use mathlib.Core.Logic.{◌≢◌, inl, inr}
use native.Mathlib.Omega.{arith}
use package.gtirb_pprinter.Prelude.Tests.{ltb, ◌==◌, if◌then◌else◌, Bool-cases}
use package.gtirb_pprinter.Prelude.Strings.{Text}

pub digit : ℕ → ℕ
digit d = if ltb d 10 then b'0' + d else b'a' + (d - 10)

pub undigit : ℕ → ℕ
undigit c = if ltb c b'a' then c - b'0' else c - b'a' + 10

undigit-digit : (d : ℕ) → d < 16 → undigit (digit d) ≡ d
unfolding undigit digit
undigit-digit d h = ground arith

-- the digits of `n` before `out`
pub dec_digits : ℕ → ℕ → Text → Text
dec_digits zero n out = out
dec_digits (suc f) n out =
    let rest = dec_digits f (n / 10) (digit (n % 10) ∷ out) in if n == 0 then out else rest

pub hex_digits : ℕ → ℕ → Text → Text
hex_digits zero n out = out
hex_digits (suc f) n out =
    let rest = hex_digits f (n / 16) (digit (n % 16) ∷ out) in if n == 0 then out else rest

-- `os << n`
unfoldable pub dec : ℕ → Text
unfolding dec_digits digit
dec n = if n == 0 then b'0' ∷ [] else dec_digits (suc n) n []

-- `os << std::hex << n`
unfoldable pub hex : ℕ → Text
unfolding hex_digits digit
hex n = if n == 0 then b'0' ∷ [] else hex_digits (suc n) n []

-- the numbers that digits spell behind `n`
abbrev pub dec_value : ℕ → Text → ℕ
dec_value n [] = n
dec_value n (c ∷ s) = dec_value (n * 10 + undigit c) s

abbrev pub hex_value : ℕ → Text → ℕ
hex_value n [] = n
hex_value n (c ∷ s) = hex_value (n * 16 + undigit c) s

hex_value-hex_digits :
    (f n : ℕ) (out : Text) → n < f → hex_value 0 (hex_digits f n out) ≡ hex_value n out
unfolding hex_digits
hex_value-hex_digits zero n out h = absurd (omega arith)
hex_value-hex_digits (suc f) n out h = ground (
  arith,
  hex_value-hex_digits f (n / 16) (digit (n % 16) ∷ out),
  undigit-digit (n % 16),
  ap (λ m. hex_value m out) (last n),
)
  where
    last : (n : ℕ) → n / 16 * 16 + n % 16 ≡ n
    last n = omega arith

dec_value-dec_digits :
    (f n : ℕ) (out : Text) → n < f → dec_value 0 (dec_digits f n out) ≡ dec_value n out
unfolding dec_digits
dec_value-dec_digits zero n out h = absurd (omega arith)
dec_value-dec_digits (suc f) n out h = ground (
  arith,
  dec_value-dec_digits f (n / 10) (digit (n % 10) ∷ out),
  undigit-digit (n % 10),
  ap (λ m. dec_value m out) (last n),
)
  where
    last : (n : ℕ) → n / 10 * 10 + n % 10 ≡ n
    last n = omega arith

-- every character is a digit of base 16
abbrev pub IsDigit : ℕ → Type 0
IsDigit c = (47 < c) × (c < 103) × (c ≢ 58)

abbrev pub AllDigits : Text → Type 0
AllDigits [] = Unit
AllDigits (c ∷ s) = IsDigit c × AllDigits s

digit-IsDigit : (d : ℕ) → d < 16 → IsDigit (digit d)
unfolding digit
digit-IsDigit d h = ground arith

hex_digits-AllDigits : (f n : ℕ) (out : Text) → AllDigits out → AllDigits (hex_digits f n out)
unfolding hex_digits
hex_digits-AllDigits zero n out h = h
hex_digits-AllDigits (suc f) n out h = elim (Bool-cases (n == 0)) [
  | inl e ↦ rw (e, hex_digits) h
  | inr e ↦
      rw (e, hex_digits)
        (hex_digits-AllDigits f (n / 16) (digit (n % 16) ∷ out)
          (digit-IsDigit (n % 16) (omega arith), h))
]

-- every character is a digit of base 10
abbrev pub AllDecimal : Text → Type 0
AllDecimal [] = Unit
AllDecimal (c ∷ s) = (47 < c) × (c < 58) × AllDecimal s

digit-decimal : (d : ℕ) → d < 10 → (47 < digit d) × (digit d < 58)
unfolding digit
digit-decimal d h = ground arith

dec_digits-AllDecimal : (f n : ℕ) (out : Text) → AllDecimal out → AllDecimal (dec_digits f n out)
unfolding dec_digits
dec_digits-AllDecimal zero n out h = h
dec_digits-AllDecimal (suc f) n out h = elim (Bool-cases (n == 0)) [
  | inl e ↦ rw (e, dec_digits) h
  | inr e ↦
      let (a, b) = digit-decimal (n % 10) (omega arith) in
      rw (e, dec_digits) (dec_digits-AllDecimal f (n / 10) (digit (n % 10) ∷ out) (a, b, h))
]

AllDecimal-AllDigits : (s : Text) → AllDecimal s → AllDigits s
AllDecimal-AllDigits [] h = tt
AllDecimal-AllDigits (c ∷ s) (a, b, h) =
    ((a, omega (arith, b), λ e. absurd (omega (arith, b, e))), AllDecimal-AllDigits s h)

pub hex-AllDigits : (n : ℕ) → AllDigits (hex n)
unfolding hex
hex-AllDigits n = elim (Bool-cases (n == 0)) [
  | inl e ↦ rw (e, hex) (omega arith)
  | inr e ↦
      rw (e, hex)
        (hex_digits-AllDigits n (n / 16) (digit (n % 16) ∷ [])
          (digit-IsDigit (n % 16) (omega arith), tt))
]

pub dec-AllDecimal : (n : ℕ) → AllDecimal (dec n)
unfolding dec
dec-AllDecimal n = elim (Bool-cases (n == 0)) [
  | inl e ↦ rw (e, dec) (omega arith)
  | inr e ↦
      let (a, b) = digit-decimal (n % 10) (omega arith) in
      rw (e, dec) (dec_digits-AllDecimal n (n / 10) (digit (n % 10) ∷ []) (a, b, tt))
]

pub dec-AllDigits : (n : ℕ) → AllDigits (dec n)
dec-AllDigits n = AllDecimal-AllDigits (dec n) (dec-AllDecimal n)

-- A printed number is read back.
pub hex_value-hex : (n : ℕ) → hex_value 0 (hex n) ≡ n
unfolding hex undigit
hex_value-hex n = ground (arith, hex_value-hex_digits (suc n) n [])

pub dec_value-dec : (n : ℕ) → dec_value 0 (dec n) ≡ n
unfolding dec undigit
dec_value-dec n = ground (arith, dec_value-dec_digits (suc n) n [])

pub hex-injective : (m n : ℕ) → hex m ≡ hex n → m ≡ n
hex-injective m n h = sym (hex_value-hex m) ∙ ap (hex_value 0) h ∙ hex_value-hex n

pub dec-injective : (m n : ℕ) → dec m ≡ dec n → m ≡ n
dec-injective m n h = sym (dec_value-dec m) ∙ ap (dec_value 0) h ∙ dec_value-dec n

-- 2 ^ 64, the modulus of `uint64_t` and of `gtirb::Addr`
abbrev pub u64_mod : ℕ
u64_mod = 2 ^ 64

-- `a + b` in `uint64_t`
abbrev pub add64 : ℕ → ℕ → ℕ
add64 a b = (a + b) % u64_mod
