-- ===== src/Syntax.antt =====
-- src/gtirb_pprinter/Syntax.cpp, include/gtirb_pprinter/Syntax.hpp, and the directives of
-- `ElfSyntax` and `IntelSyntax`.
pub mod Names
use gtirb_pprinter.Prelude.{
  ℕ, ◌==◌, if◌then◌else◌, Text, codes, contains, Bool, Option, none, some, List, [], ◌∷◌, ◌++◌,
}

abbrev pub tab : Text
tab = codes "          "

abbrev pub nop : Text
nop = codes "nop"

abbrev pub zero_byte : Text
zero_byte = codes ".byte 0x00"

abbrev pub text_section : Text
text_section = codes ".text"

abbrev pub data_section : Text
data_section = codes ".data"

abbrev pub bss_section : Text
bss_section = codes ".bss"

-- `ElfSyntax`
abbrev pub comment : Text
comment = codes "#"

abbrev pub string_directive : Text
string_directive = codes ".string"

abbrev pub byte_data : Text
byte_data = codes ".byte"

abbrev pub long_data : Text
long_data = codes ".long"

abbrev pub quad_data : Text
quad_data = codes ".quad"

abbrev pub word_data : Text
word_data = codes ".word"

abbrev pub text_directive : Text
text_directive = codes ".text"

abbrev pub data_directive : Text
data_directive = codes ".data"

abbrev pub bss_directive : Text
bss_directive = codes ".bss"

abbrev pub section_directive : Text
section_directive = codes ".section"

abbrev pub global_directive : Text
global_directive = codes ".globl"

abbrev pub align_directive : Text
align_directive = codes ".align"

abbrev pub type_directive : Text
type_directive = codes ".type"

-- `IntelSyntax`
abbrev pub offset_directive : Text
offset_directive = codes "OFFSET"

unfoldable pub get_size_name : ℕ → Option Text
get_size_name bits =
    if bits == 256
    then some (codes "YMMWORD")
    else if bits == 128
    then some (codes "XMMWORD")
    else if bits == 80
    then some (codes "TBYTE")
    else if bits == 64
    then some (codes "QWORD")
    else if bits == 32
    then some (codes "DWORD")
    else if bits == 16
    then some (codes "WORD")
    else if bits == 8
    then some (codes "BYTE")
    else none

abbrev pub format_section_name : Text → Text
format_section_name x = x

abbrev pub format_function_name : Text → Text
format_function_name x = x

abbrev pub adapt : List Text
adapt =
    codes "FS"
    ∷ codes "MOD"
    ∷ codes "DIV"
    ∷ codes "NOT"
    ∷ codes "mod"
    ∷ codes "div"
    ∷ codes "not"
    ∷ codes "and"
    ∷ codes "or"
    ∷ codes "shr"
    ∷ codes "Si"
    ∷ []

-- `std::find` over `adapt`
unfoldable pub is_adapted : Text → Bool
is_adapted x = contains x adapt

unfoldable pub avoid_reg_name_conflicts : Text → Text
avoid_reg_name_conflicts x = if is_adapted x then x ++ codes "_renamed" else x

unfoldable pub format_symbol_name : Text → Text
unfolding avoid_reg_name_conflicts
format_symbol_name x = avoid_reg_name_conflicts x
