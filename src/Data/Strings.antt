-- ===== src/Data/Strings.antt =====
-- A reader for the literals that `printString` of src/gtirb_pprinter/PrettyPrinter.cpp writes.
use gtirb_pprinter.Prelude.{
  ℕ, ◌==◌, if◌then◌else◌, Bool, true, false, ◌||◌, ◌&&◌, leb, Text, codes, Option, none, some, List,
  [], ◌∷◌, is_empty,
}

abbrev is_decimal : ℕ → Bool
is_decimal c = leb b'0' c && leb c b'9'

-- The byte that an escape stands for to the GNU assembler: \b, \f, \n, \r and \t are control characters, a
-- digit or an x begins a number, which is not read here, and any other character stands for itself.
abbrev pub escaped : ℕ → Option ℕ
escaped c =
    if c == b'b'
    then some 8
    else if c == b'f'
    then some 12
    else if c == b'n'
    then some 10
    else if c == b'r'
    then some 13
    else if c == b't'
    then some 9
    else if is_decimal c || (c == b'x' || c == b'X')
    then none
    else some c

abbrev pub then_read : Option ℕ → Option (List ℕ) → Option (List ℕ)
then_read (some b) (some bs) = some (b ∷ bs)
then_read (some b) none = none
then_read none r = none

-- A reader of string literals as the GNU assembler reads them, up to the closing quote that ends the text. The flag says that a
-- backslash has been read.
pub read_string : Bool → Text → Option (List ℕ)
read_string pending [] = none
read_string true (c ∷ s) = then_read (escaped c) (read_string false s)
read_string false (c ∷ s) =
    let escape = read_string true s in
    let plain = then_read (some c) (read_string false s) in
    if c == b'\\'
    then escape
    else if c == b'"'
    then (if is_empty s then some [] else none)
    else plain

abbrev pub nonzero : List ℕ → List ℕ
nonzero [] = []
nonzero (b ∷ bs) = if b == 0 then nonzero bs else b ∷ nonzero bs

-- what the assembler makes of a byte: \a is the letter a, and \v the letter v
abbrev pub misread : ℕ → ℕ
misread b = if b == 7 then b'a' else if b == 11 then b'v' else b

-- the table that the chain of replacements amounts to
escape_table : ℕ → Text
escape_table b =
    if b == b'\\'
    then codes "\\\\"
    else if b == b'"'
    then codes "\\\""
    else if b == 10
    then codes "\\n"
    else if b == 9
    then codes "\\t"
    else if b == 11
    then codes "\\v"
    else if b == 8
    then codes "\\b"
    else if b == 13
    then codes "\\r"
    else if b == 7
    then codes "\\a"
    else if b == b'\''
    then codes "\\'"
    else b ∷ []
