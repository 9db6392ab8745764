-- ===== src/Sections.antt =====
-- Section headers and footers, alignment, function headers: src/gtirb_pprinter/PrettyPrinter.cpp
-- with the overrides of src/gtirb_pprinter/ElfPrettyPrinter.cpp. The ELF constants are those of
-- <elf.h>.
pub mod Alignment
pub mod Functions
pub mod Switching
use gtirb_pprinter.Prelude.{
  ℕ, ◌+◌, ◌-◌, ◌/◌, ◌%◌, ltb, ◌==◌, if◌then◌else◌, Bool, true, false, not, ◌&&◌, Text, codes,
  eq_text, contains, Option, none, some, List, [], ◌∷◌, ◌++◌, head_of, is_empty,
}
use gtirb_pprinter.Prelude.Number.{hex, u64_mod}
use gtirb_pprinter.Gtirb.{Section, SectionProperties}
use gtirb_pprinter.Syntax.{
  comment, text_section, data_section, bss_section, text_directive, data_directive, bss_directive,
  section_directive, global_directive, align_directive, type_directive, byte_data,
  format_section_name, format_function_name,
}
use gtirb_pprinter.Printer.{Printer, get_container_section, get_function_name}
use gtirb_pprinter.Symbols.{find_in}

unfoldable pub print_bar : Bool → Text
print_bar true = comment ++ codes "===================================\n"
print_bar false = comment ++ codes "-----------------------------------\n"

unfoldable pub print_alignment : ℕ → Text
print_alignment x =
    if x % 16 == 0
    then align_directive ++ codes " 16\n"
    else if x % 8 == 0
    then align_directive ++ codes " 8\n"
    else if x % 4 == 0
    then align_directive ++ codes " 4\n"
    else if x % 2 == 0
    then align_directive ++ codes " 2\n"
    else []

-- `flags & 2 ^ k`
abbrev has_flag : ℕ → ℕ → Bool
has_flag flags unit = flags / unit % 2 == 1

abbrev pub shf_write : ℕ
shf_write = 1

abbrev pub shf_alloc : ℕ
shf_alloc = 2

abbrev pub shf_execinstr : ℕ
shf_execinstr = 4

abbrev pub sht_progbits : ℕ
sht_progbits = 1

abbrev pub sht_nobits : ℕ
sht_nobits = 8

properties_text : SectionProperties → Text
properties_text q =
    codes " ,\""
    ++ (if has_flag q.flags shf_write then codes "w" else [])
    ++ ((if has_flag q.flags shf_alloc then codes "a" else [])
        ++ ((if has_flag q.flags shf_execinstr then codes "x" else [])
            ++ (codes "\""
                ++ ((if q.kind == sht_progbits then codes ",@progbits" else [])
                    ++ (if q.kind == sht_nobits then codes ",@nobits" else [])))))

unfoldable pub print_section_properties : Printer → Section → Text
unfolding properties_text
print_section_properties p s = elim (find_in s.uuid p.module_.elf_section_properties) [
  | none ↦ []
  | some q ↦ properties_text q
]

unfoldable pub print_section_header_directive : Section → Text
print_section_header_directive s = section_directive ++ (b' ' ∷ format_section_name s.name)

-- the line that opens a section
unfoldable pub section_line : Printer → Section → Text
section_line p s =
    if eq_text s.name text_section
    then text_directive ++ codes "\n"
    else if eq_text s.name data_section
    then data_directive ++ codes "\n"
    else if eq_text s.name bss_section
    then bss_directive ++ codes "\n"
    else print_section_header_directive s ++ (print_section_properties p s ++ codes "\n")

unfoldable pub section_header : Printer → Section → ℕ → Text
unfolding section_line
section_header p s addr =
    codes "\n"
    ++ (print_bar true
        ++ (section_line p s
            ++ ((if contains s.name p.policy.array_sections then [] else print_alignment addr)
                ++ (print_bar true ++ codes "\n"))))

unfoldable pub print_section_header : Printer → ℕ → Text
unfolding section_header
print_section_header p addr = elim (head_of (p.module_.find_sections_at addr)) [
  | none ↦ []
  | some s ↦ if contains s.name p.policy.skip_sections then [] else section_header p s addr
]

-- the address before `last`, in 64 bits
abbrev pub address_before : ℕ → ℕ
address_before last = (last + (u64_mod - 1)) % u64_mod

-- `next_section && next_section == prev_section`
abbrev pub same_section : Option Section → Section → Bool
same_section none s = false
same_section (some t) s = t.uuid == s.uuid

abbrev pub container_at : Printer → Option ℕ → Option Section
container_at p none = none
container_at p (some a) = get_container_section p a

-- `ElfPrettyPrinter` has no footer directive.
unfoldable pub print_section_footer : Printer → Option ℕ → ℕ → Text
print_section_footer p addr last = elim (get_container_section p (address_before last)) [
  | none ↦ []
  | some prev ↦
      if contains prev.name p.policy.skip_sections
      then []
      else if same_section (container_at p addr) prev
      then []
      else print_bar true ++ (codes "\n" ++ print_bar true)
]

function_header : Text → ℕ → Text
function_header name addr =
    comment
    ++ (codes " BEGIN - Function Header\n"
        ++ (print_bar false
            ++ (print_alignment addr
                ++ (global_directive
                    ++ (b' ' ∷ name
                        ++ (codes "\n"
                            ++ (type_directive
                                ++ (b' ' ∷ name
                                    ++ (codes ", @function\n"
                                        ++ (name
                                            ++ (codes ":\n"
                                                ++ (print_bar false
                                                    ++ (comment
                                                        ++ codes
                                                            " END   - Function Header\n")))))))))))))

unfoldable pub print_function_header : Printer → ℕ → Text
unfolding function_header
print_function_header p addr =
    let name = format_function_name (get_function_name p addr) in
    if is_empty name then [] else function_header name addr

unfoldable pub print_byte : ℕ → Text
print_byte b = byte_data ++ (codes " 0x" ++ (hex b ++ codes "\n"))
