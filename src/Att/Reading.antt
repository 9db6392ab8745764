-- ===== src/Att/Reading.antt =====
-- A reader for the memory operands that src/gtirb_pprinter/AttPrettyPrinter.cpp writes.
use gtirb_pprinter.Prelude.{
  ℕ, ◌-◌, ◌%◌, suc, ◌==◌, if◌then◌else◌, Bool, true, false, Text, codes, Option, none, some, [],
  ◌∷◌,
}
use gtirb_pprinter.Prelude.Number.{u64_mod, hex_value, dec_value}
use gtirb_pprinter.Binary.{strip}
use gtirb_pprinter.Operands.Cutting.{cut}

abbrev pub read_scale : Option Text → ℕ
read_scale none = 1
read_scale (some t) = dec_value 0 t

abbrev pub read_index : Option Text → Option (Text × ℕ)
read_index none = none
read_index (some t) = some ((cut b',' t).0, read_scale ((cut b',' t).1))

-- what stands between the parentheses: the base, empty if there is none, and the index with its scale
abbrev pub Inside : Type 0
Inside = Text × Option (Text × ℕ)

abbrev pub read_body : Text → Inside
read_body t = ((cut b',' t).0, read_index ((cut b',' t).1))

abbrev pub read_inside : Option Text → Option Inside
read_inside none = none
read_inside (some t) = some (read_body ((cut b')' t).0))

-- the 64 bits of a number in decimal, with a sign, or in hexadecimal
abbrev pub read_signed : Text → ℕ
read_signed [] = 0
read_signed (c ∷ s) =
    if c == b'-'
    then u64_mod - suc ((dec_value 0 s - 1) % u64_mod)
    else dec_value 0 (c ∷ s) % u64_mod

abbrev pub read_displacement : Text → Option Text → ℕ
read_displacement t (some digits) = hex_value 0 digits
read_displacement t none = read_signed t

abbrev pub read_number : Text → ℕ
read_number t = read_displacement t (strip (codes "0x") t)

pub record Operand : Type 0 where
  pub starred : Bool
  pub segment : Option Text
  pub offset : ℕ
  pub inside : Option Inside

abbrev pub read_front : Bool → Text × Option Text → Option Inside → Operand
read_front b (t, none) i = record {
  starred = b;
  segment = none;
  offset = read_number t;
  inside = i;
}
read_front b (s, some t) i = record {
  starred = b;
  segment = some s;
  offset = read_number t;
  inside = i;
}

abbrev pub read_rest : Bool → Text → Operand
read_rest b t = read_front b (cut b':' ((cut b'(' t).0)) (read_inside ((cut b'(' t).1))

-- A reader of memory operands.
abbrev pub read_operand : Text → Operand
read_operand [] = read_rest false []
read_operand (c ∷ s) = if c == b'*' then read_rest true s else read_rest false (c ∷ s)
