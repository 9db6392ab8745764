-- ===== src/Operands.antt =====
-- What the operand printers share: register names, the array of operands, separated lists
-- (src/gtirb_pprinter/PrettyPrinter.cpp, AttPrettyPrinter.cpp and AArch64PrettyPrinter.cpp there).
pub mod Cutting
use gtirb_pprinter.Prelude.{ℕ, zero, suc, ◌+◌, ◌==◌, if◌then◌else◌, Text, codes, [], ◌∷◌, ◌++◌}
use gtirb_pprinter.Prelude.Result.{Output, ok, ◌⊹◌, nothing}
use gtirb_pprinter.Prelude.Int.{ℤ, to_u64, hex_int}
use gtirb_pprinter.Capstone.{Capstone}
use gtirb_pprinter.StringUtils.{ascii_str_tolower, ascii_str_toupper}
use gtirb_pprinter.Printer.{Printer, Arch, intel, att, aarch64}

abbrev raw_name : Capstone → ℕ → Text
raw_name cs reg = if reg == cs.reg_invalid then [] else cs.reg_name reg

abbrev register_name : Arch → Capstone → ℕ → Text
register_name intel cs reg = ascii_str_toupper (raw_name cs reg)
register_name att cs reg = b'%' ∷ ascii_str_tolower (ascii_str_toupper (raw_name cs reg))
register_name aarch64 cs reg = raw_name cs reg

unfoldable pub get_register_name : Printer → ℕ → Text
get_register_name p reg = register_name p.arch p.handle reg

-- the loop of `printOperandList` from operand `i` on, with `n` operands to go
unfoldable pub operand_list : (ℕ → Output) → ℕ → ℕ → Output
operand_list print i zero = nothing
operand_list print i (suc n) =
    ok (if i == 0 then [] else codes ",") ⊹ print i ⊹ operand_list print (i + 1) n

-- an integer under `std::setbase(16) << std::showbase`
unfoldable pub show_hex : ℤ → Text
show_hex i = if to_u64 i == 0 then codes "0" else codes "0x" ++ hex_int i
