-- ===== src/StringUtils.antt =====
-- src/gtirb_pprinter/string_utils.cpp, with `std::tolower` and `std::toupper` in the "C" locale.
use gtirb_pprinter.Prelude.{
  ℕ, ◌+◌, ◌-◌, leb, if◌then◌else◌, ◌&&◌, Text, [], ◌∷◌, map, ◌≡◌, refl, arith,
}

to_lower : ℕ → ℕ
to_lower c = if leb b'A' c && leb c b'Z' then c + 32 else c

to_upper : ℕ → ℕ
to_upper c = if leb b'a' c && leb c b'z' then c - 32 else c

unfoldable pub ascii_str_tolower : Text → Text
unfolding to_lower
ascii_str_tolower s = map to_lower s

unfoldable pub ascii_str_toupper : Text → Text
unfolding to_upper
ascii_str_toupper s = map to_upper s

lower-upper : (c : ℕ) → to_lower (to_upper c) ≡ to_lower c
unfolding to_lower to_upper
lower-upper c = ground arith

upper-lower : (c : ℕ) → to_upper (to_lower c) ≡ to_upper c
unfolding to_lower to_upper
upper-lower c = ground arith

-- Lowering after raising is lowering, and raising after lowering is raising, for every string.
pub tolower-toupper :
    (s : Text)
    → (ascii_str_tolower (ascii_str_toupper s) ≡ ascii_str_tolower s)
      × (ascii_str_toupper (ascii_str_tolower s) ≡ ascii_str_toupper s)
unfolding ascii_str_tolower ascii_str_toupper
tolower-toupper [] = (refl, refl)
tolower-toupper (c ∷ s) =
    let (p, q) = tolower-toupper s in
    (ground (arith, lower-upper c, p), ground (arith, upper-lower c, q))
