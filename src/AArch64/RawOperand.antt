-- ===== src/AArch64/RawOperand.antt =====
-- Operand strings as Capstone prints them, joined by a comma and a space, for `printOpRawValue` of
-- src/gtirb_pprinter/AArch64PrettyPrinter.cpp.
use gtirb_pprinter.Prelude.{
  ℕ, zero, suc, ◌+◌, ◌==◌, Bool, true, false, not, ◌&&◌, Text, codes, some, List, [], ◌∷◌, ◌++◌,
  get_elem?, ◌≡◌, refl, arith, All, Bool-cases, inl, inr,
}
use gtirb_pprinter.AArch64.RawValue.{next_block, separates, seek, until_end, skip_space, raw_value}

-- whether a text has no comma outside brackets and leaves no bracket open
abbrev pub is_operand : Bool → Text → Bool
is_operand blk [] = not blk
is_operand blk (c ∷ s) = not (separates blk c) && is_operand (next_block blk c) s

abbrev pub tail_of : List Text → Text
tail_of [] = []
tail_of (o ∷ os) = codes ", " ++ (o ++ tail_of os)

-- the operands as Capstone joins them
abbrev pub joined : List Text → Text
joined [] = []
joined (o ∷ os) = o ++ tail_of os

until_end-operand :
    (blk : Bool) (o : Text) (os : List Text)
    → is_operand blk o ≡ true
    → until_end blk (o ++ tail_of os) ≡ o
unfolding until_end
until_end-operand true [] os h = ground (arith, h)
until_end-operand false [] [] h = refl
until_end-operand false [] (q ∷ os) h = refl
until_end-operand blk (c ∷ s) os h = elim (Bool-cases (separates blk c)) [
  | inl e ↦ ground (arith, e, h)
  | inr e ↦ rw (e, until_end, until_end-operand (next_block blk c) s os (ground (arith, e, h))) refl
]

-- an operand before the one sought is passed over
seek-operand :
    (index curr : ℕ) (blk : Bool) (o : Text) (os : List Text)
    → (curr == index) ≡ false
    → is_operand blk o ≡ true
    → seek index curr blk (o ++ tail_of os) ≡ seek index curr false (tail_of os)
unfolding seek
seek-operand index curr true [] os n h = ground (arith, h)
seek-operand index curr false [] os n h = refl
seek-operand index curr blk (c ∷ s) os n h = elim (Bool-cases (separates blk c)) [
  | inl e ↦ ground (arith, e, h)
  | inr e ↦
      rw (n, e, seek, seek-operand index curr (next_block blk c) s os n (ground (arith, e, h))) refl
]

-- the text that is cut out at a position
cut : Text × Bool → Text
cut r = skip_space (until_end r.1 r.0)

seek_comma :
    (index curr : ℕ) (s : Text)
    → (curr == index) ≡ false
    → seek index curr false (b',' ∷ s) ≡ seek index (curr + 1) false s
unfolding seek
seek_comma index curr s n = rw (n, seek) refl

seek_space :
    (index curr : ℕ) (s : Text)
    → (curr == index) ≡ false
    → seek index curr false (b' ' ∷ s) ≡ seek index curr false s
unfolding seek
seek_space index curr s n = rw (n, seek) refl

seek_here :
    (curr index c : ℕ) (s : Text)
    → (curr == index) ≡ true
    → seek index curr false (c ∷ s) ≡ (c ∷ s, false)
unfolding seek
seek_here curr index c s e = rw (e, seek) refl

same_operand : {o q : Text} → some q ≡ some o → q ≡ o
same_operand h = ground (arith, h)

until_end_space : (s : Text) → until_end false (b' ' ∷ s) ≡ b' ' ∷ until_end false s
unfolding until_end
until_end_space s = refl

skip_space_space : (s : Text) → skip_space (b' ' ∷ s) ≡ skip_space s
unfolding skip_space
skip_space_space s = refl

cut-tail_of :
    (index n curr : ℕ) (os : List Text) (o : Text)
    → index ≡ curr + suc n
    → All (λ q. is_operand false q ≡ true) os
    → get_elem? os n ≡ some o
    → cut (seek index curr false (tail_of os)) ≡ skip_space o
unfolding cut
cut-tail_of index n curr [] o d h g = ground (arith, g)
cut-tail_of index zero curr (q ∷ os) o d (h, hs) g =
    rw
      (
        seek_comma index curr (b' ' ∷ q ++ tail_of os) (ground (arith, d)),
        seek_here (curr + 1) index b' ' (q ++ tail_of os) (ground (arith, d)),
        until_end_space,
        until_end-operand false q os h,
        skip_space_space,
        same_operand g,
      )
      refl
cut-tail_of index (suc n) curr (q ∷ os) o d (h, hs) g =
    rw
      (
        seek_comma index curr (b' ' ∷ q ++ tail_of os) (ground (arith, d)),
        seek_space index (curr + 1) (q ++ tail_of os) (ground (arith, d)),
        seek-operand index (curr + 1) false q os (ground (arith, d)) h,
      )
      (cut-tail_of index n (curr + 1) os o (omega (arith, d)) hs g)

seek_first : (s : Text) → seek 0 0 false s ≡ (s, false)
seek_first [] = unfold seek in refl
seek_first (c ∷ s) = seek_here 0 0 c s refl

raw_value-cut : (s : Text) (index : ℕ) → raw_value s index ≡ cut (seek index 0 false s)
unfolding raw_value cut
raw_value-cut s index = refl

not_first : (n : ℕ) → (0 == suc n) ≡ false
not_first n = ground arith

-- If the operand string is a sequence of operands joined by ", ", where no operand has a comma outside
-- brackets or leaves a bracket open, and there is an operand at the index, then `printOpRawValue`
-- cuts out that operand, less the space that it starts with.
pub raw_value-joined :
    (os : List Text) (index : ℕ) (o : Text)
    → All (λ q. is_operand false q ≡ true) os
    → get_elem? os index ≡ some o
    → raw_value (joined os) index ≡ skip_space o
unfolding cut
raw_value-joined [] index o h g = ground (arith, g)
raw_value-joined (q ∷ os) zero o (h, hs) g =
    rw (raw_value-cut, seek_first, until_end-operand false q os h, same_operand g) refl
raw_value-joined (q ∷ os) (suc n) o (h, hs) g =
    rw (raw_value-cut, seek-operand (suc n) 0 false q os (not_first n) h)
      (cut-tail_of (suc n) n 0 os o (omega arith) hs g)
