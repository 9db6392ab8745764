-- ===== src/Examples.antt =====
-- A small module and the printers for it, on which the theorems about src/gtirb_pprinter are run.
mod Documents
mod Driving
mod Layouts
mod Listing
mod Operands
mod Placing
mod Printing
mod Programs
mod Registrations
mod Tables
mod Texts
use gtirb_pprinter.Prelude.{
  ℕ, ◌==◌, if◌then◌else◌, Bool, true, false, Text, codes, Option, none, some, List, [], ◌∷◌,
}
use gtirb_pprinter.Prelude.Int.{pos}
use gtirb_pprinter.Capstone.{Capstone, Insn, X86Op, X86OpType}
use gtirb_pprinter.Gtirb.{Symbol, Section, CodeBlock, DataBlock, Module, elf}
use gtirb_pprinter.Printer.{Printer, PrintingPolicy, intel, create}

abbrev pub capstone : Capstone
capstone = record {
  movsb = 1;
  movsw = 2;
  movsd = 3;
  movsq = 4;
  stosb = 5;
  stosw = 6;
  stosd = 7;
  stosq = 8;
  imul = 9;
  endbr64 = 10;
  nop = 11;
  fxch = 12;
  comisd = 13;
  arm64_nop = 14;
  grp_sse2 = 1;
  grp_call = 2;
  grp_jump = 3;
  arm64_grp_jump = 4;
  reg_invalid = 0;
  reg_name = λ r. codes "RAX";
  in_group = λ i g. i.first_group == g;
  disasm = λ bytes size addr. [];
}

-- a block of two bytes at 8 and one of four bytes at 0; data at 4, and at 9 inside the first
abbrev pub late_block : CodeBlock
late_block = record { uuid = 31; address = 8; size = 2; raw_bytes = 0x90 ∷ 0xc3 ∷ []; owner = 1 }

abbrev pub early_block : CodeBlock
early_block = record { uuid = 32; address = 0; size = 4; raw_bytes = []; owner = 1 }

abbrev pub foreign_block : CodeBlock
foreign_block = record { uuid = 33; address = 2; size = 4; raw_bytes = []; owner = 2 }

abbrev pub table_data : DataBlock
table_data = record { uuid = 41; address = 4; size = 4; bytes = b'"' ∷ b'\\' ∷ 10 ∷ 0 ∷ [] }

abbrev pub hidden_data : DataBlock
hidden_data = record { uuid = 42; address = 9; size = 4; bytes = [] }

abbrev pub main_symbol : Symbol
main_symbol = record { uuid = 51; name = codes "main"; address = some 8 }

abbrev pub text_section : Section
text_section = record { uuid = 61; name = codes ".text" }

abbrev pub sample : Module
sample = record {
  uuid = 1;
  file_format = elf;
  cfg_blocks = late_block ∷ foreign_block ∷ early_block ∷ [];
  data_blocks = table_data ∷ hidden_data ∷ [];
  find_sections_on = λ a. text_section ∷ [];
  find_sections_at = λ a. if a == 0 then text_section ∷ [] else [];
  find_symbols_at = λ a. if a == 8 then main_symbol ∷ [] else [];
  find_symbols_named = λ n. main_symbol ∷ [];
  find_symbolic_expressions_at = λ a. [];
  find_data_blocks_on = λ a. [];
  symbol_node = λ u. none;
  code_block_node =
      λ u. if u == 31 then some late_block else if u == 32 then some early_block else none;
  comments = none;
  function_entries = some ((71, 31 ∷ []) ∷ []);
  function_blocks = none;
  symbol_forwarding = none;
  symbolic_operand_info = none;
  encodings = none;
  elf_section_properties = none;
  cfi_directives = none;
  libraries = none;
  library_paths = none;
}

abbrev pub policy : PrintingPolicy
policy = record {
  skip_sections = codes ".plt" ∷ [];
  skip_functions = codes "_start" ∷ [];
  array_sections = [];
  debug = false;
}

abbrev pub printer : Printer
printer = record {
  arch = intel;
  handle = capstone;
  policy = policy;
  module_ = sample;
  function_entry = 8 ∷ [];
  function_last_block = [];
}

abbrev pub float_operand : ℕ → X86Op
float_operand r = record {
  kind = X86OpType.reg;
  reg = r;
  imm = pos 0;
  size = 10;
  mem = record { segment = 0; base = 0; index = 0; scale = 1; disp = pos 0 };
}

-- `fxch` with its implicit operand
abbrev pub exchange : Insn
exchange = record {
  id = 12;
  address = 8;
  size = 2;
  mnemonic = codes "FXCH";
  op_str = [];
  first_group = 0;
  x86 = record {
    operands = float_operand 3 ∷ float_operand 4 ∷ [];
    op_count = 2;
    imm_offset = 0;
    disp_offset = 0;
  };
  arm64 = record { operands = []; op_count = 0; writeback = false };
}
