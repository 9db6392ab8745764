-- ===== src/Data/Bytes.antt =====
-- A reader for the directives of plain data: what `printNonZeroDataBlock` and `printZeroDataBlock` of
-- src/gtirb_pprinter/PrettyPrinter.cpp write for bytes.
use gtirb_pprinter.Prelude.{
  ℕ, ◌<◌, zero, suc, ◌==◌, if◌then◌else◌, true, false, Text, codes, Option, none, some, List, [],
  ◌∷◌, ◌++◌, length, concat_map, ◌≡◌, refl, sym, ap, ◌∙◌, arith, append_assoc, append-nil,
  Bool-cases, inl, inr,
}
use gtirb_pprinter.Prelude.Number.{
  dec, hex, hex_value, dec_value, hex_value-hex, dec_value-dec, AllDigits, hex-AllDigits,
  dec-AllDigits,
}
use gtirb_pprinter.Prelude.Result.{ok}
use gtirb_pprinter.Gtirb.{DataBlock}
use gtirb_pprinter.Syntax.{tab}
use gtirb_pprinter.Printer.{Printer}
use gtirb_pprinter.Symbols.{find_in}
use gtirb_pprinter.Sections.{print_byte}
use gtirb_pprinter.Binary.{strip}
use gtirb_pprinter.Data.{
  is_string, all_zero, print_zero_data_block, print_non_zero_data_block, data_content,
}

abbrev add_to_line : ℕ → List Text → List Text
add_to_line c [] = (c ∷ []) ∷ []
add_to_line c (l ∷ ls) = (c ∷ l) ∷ ls

-- the lines of a text
abbrev pub lines : Text → List Text
lines [] = []
lines (c ∷ s) = let rest = lines s in if c == 10 then [] ∷ rest else add_to_line c rest

abbrev pub zeros : ℕ → List ℕ
zeros zero = []
zeros (suc n) = 0 ∷ zeros n

abbrev read_zeros : Option Text → Option (List ℕ)
read_zeros none = none
read_zeros (some digits) = some (zeros (dec_value 0 digits))

abbrev read_byte : Option Text → Text → Option (List ℕ)
read_byte (some digits) l = some (hex_value 0 digits ∷ [])
read_byte none l = read_zeros (strip (tab ++ codes " .zero ") l)

-- what an assembler makes of a line: one byte, or zeros
abbrev pub assemble_line : Text → Option (List ℕ)
assemble_line l = read_byte (strip (tab ++ codes ".byte 0x") l) l

abbrev append_some : Option (List ℕ) → Option (List ℕ) → Option (List ℕ)
append_some none r = none
append_some (some bs) none = none
append_some (some bs) (some cs) = some (bs ++ cs)

abbrev pub assemble_lines : List Text → Option (List ℕ)
assemble_lines [] = some []
assemble_lines (l ∷ ls) = append_some (assemble_line l) (assemble_lines ls)

abbrev pub assemble : Text → Option (List ℕ)
assemble s = assemble_lines (lines s)

-- no line ends among the characters
abbrev OneLine : Text → Type 0
OneLine [] = Unit
OneLine (c ∷ s) = (10 < c) × OneLine s

digits-OneLine : (s : Text) → AllDigits s → OneLine s
digits-OneLine [] h = tt
digits-OneLine (c ∷ s) ((a, _, _), hs) = (omega (arith, a), digits-OneLine s hs)

lines_first : (l s : Text) → OneLine l → lines (l ++ (10 ∷ s)) ≡ l ∷ lines s
lines_first [] s h = refl
lines_first (c ∷ l) s (h, hs) =
    let n : (c == 10) ≡ false = ground arith in rw (n, lines_first l s hs) refl

OneLine-append : (l s : Text) → OneLine l → OneLine s → OneLine (l ++ s)
OneLine-append [] s h k = k
OneLine-append (c ∷ l) s (h, hs) k = (h, OneLine-append l s hs k)

assemble_first :
    (l s : Text) (bs : List ℕ)
    → OneLine l
    → assemble_line l ≡ some bs
    → assemble (l ++ (10 ∷ s)) ≡ append_some (some bs) (assemble s)
assemble_first l s bs h e =
    ap assemble_lines (lines_first l s h) ∙ ap (λ r. append_some r (assemble s)) e

byte_line :
    (b : ℕ) (s : Text)
    → assemble ((tab ++ print_byte b) ++ s) ≡ append_some (some (b ∷ [])) (assemble s)
unfolding print_byte
byte_line b s =
    let prefix = tab ++ codes ".byte 0x" in
    rw append_assoc (
      assemble_first (prefix ++ hex b) s (b ∷ [])
        (OneLine-append prefix (hex b) (omega arith) (digits-OneLine (hex b) (hex-AllDigits b)))
        (ap (λ v. some (v ∷ [])) (hex_value-hex b)))

byte_lines : (bs : List ℕ) → assemble (concat_map (λ b. tab ++ print_byte b) bs) ≡ some bs
byte_lines [] = refl
byte_lines (b ∷ bs) =
    byte_line b (concat_map (λ c. tab ++ print_byte c) bs)
    ∙ ap (append_some (some (b ∷ []))) (byte_lines bs)

zero_line : (d : DataBlock) → assemble (print_zero_data_block d) ≡ some (zeros d.size)
unfolding print_zero_data_block
zero_line d =
    let prefix = tab ++ codes " .zero " in
    assemble_first (prefix ++ dec d.size) [] (zeros d.size)
      (OneLine-append prefix (dec d.size) (omega arith)
        (digits-OneLine (dec d.size) (dec-AllDigits d.size)))
      (ap (λ v. some (zeros v)) (dec_value-dec d.size))
    ∙ ap some (append-nil (zeros d.size))

all_zero-zeros : (bs : List ℕ) → all_zero bs ≡ true → zeros (length bs) ≡ bs
all_zero-zeros [] h = refl
all_zero-zeros (b ∷ bs) h = ground (arith, all_zero-zeros bs)

-- What is printed of a data block without a symbolic expression at its address and without the encoding
-- "string" is the text of directives that assemble to the bytes of the block, all of them zero or not, if the
-- size of the block is the number of its bytes.
pub assemble-data_content :
    (p : Printer) (d : DataBlock)
    → p.module_.find_symbolic_expressions_at d.address ≡ []
    → is_string (find_in d.uuid p.module_.encodings) ≡ false
    → length d.bytes ≡ d.size
    → (t : Text) × (data_content p d ≡ ok t) × (assemble t ≡ some d.bytes)
unfolding data_content print_non_zero_data_block
assemble-data_content p d e n l = elim (Bool-cases (all_zero d.bytes)) [
  | inl z ↦ (
    print_zero_data_block d,
    rw (z, e, data_content) refl,
    zero_line d ∙ ap some (ap zeros (sym l) ∙ all_zero-zeros d.bytes z),
  )
  | inr z ↦ (
    concat_map (λ b. tab ++ print_byte b) d.bytes,
    rw (z, e, n, data_content, print_non_zero_data_block) refl,
    byte_lines d.bytes,
  )
]
