-- ===== src/AArch64/RawValue.antt =====
-- `printOpRawValue` of src/gtirb_pprinter/AArch64PrettyPrinter.cpp: the text of one operand, cut
-- out of the operand string that Capstone gives. The string ends where the C string does.
use gtirb_pprinter.Prelude.{
  ℕ, ◌+◌, ◌==◌, if◌then◌else◌, Bool, true, false, not, ◌&&◌, ◌||◌, Text, [], ◌∷◌,
}

-- `isspace` in the "C" locale
abbrev pub is_space : ℕ → Bool
is_space c = c == b' ' || c == 9 || c == 10 || c == 11 || c == 12 || c == 13

-- is the position after `c` inside brackets?
abbrev pub next_block : Bool → ℕ → Bool
next_block blk c = if c == b'[' then true else if c == b']' then false else blk

-- does `c` separate two operands?
abbrev pub separates : Bool → ℕ → Bool
separates blk c = not blk && c == b','

-- The first loop: what is left of the string at the operand, and whether that is inside brackets.
unfoldable pub seek : ℕ → ℕ → Bool → Text → Text × Bool
seek index curr blk [] = ([], blk)
seek index curr blk (c ∷ s) =
    let rest = seek index (if separates blk c then curr + 1 else curr) (next_block blk c) s in
    if curr == index then (c ∷ s, blk) else rest

-- the second loop: the text up to the end of the operand
unfoldable pub until_end : Bool → Text → Text
until_end blk [] = []
until_end blk (c ∷ s) =
    let rest = until_end (next_block blk c) s in if separates blk c then [] else c ∷ rest

unfoldable pub skip_space : Text → Text
skip_space [] = []
skip_space (c ∷ s) = let rest = skip_space s in if is_space c then rest else c ∷ s

unfoldable pub raw_value : Text → ℕ → Text
unfolding seek until_end skip_space
raw_value op_str index = let (s, blk) = seek index 0 false op_str in skip_space (until_end blk s)
