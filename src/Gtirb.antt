-- ===== src/Gtirb.antt =====
-- What the printers of src/gtirb_pprinter read of a GTIRB module. GTIRB is not in the repository:
-- a module is the answers to the queries that the code makes (`findSections...`, `findSymbols`,
-- `findSymbolicExpressionsAt`, `findDataBlocksOn`, look-up of a node by its UUID), and its AuxData
-- tables, `none` for one that is absent. A `std::map` is the list of its entries in key order.
-- The tables are those of include/gtirb_pprinter/AuxDataSchema.hpp. Every block has an address,
-- since the drivers lay out what has none.
use gtirb_pprinter.Prelude.{ℕ, Text, Option, List}
use gtirb_pprinter.Prelude.Int.{ℤ}

pub record Symbol : Type 0 where
  pub uuid : ℕ
  pub name : Text
  pub address : Option ℕ

pub record Section : Type 0 where
  pub uuid : ℕ
  pub name : Text

pub data SymbolicExpression : Type 0 where
  sym_addr_const : Symbol → ℤ → SymbolicExpression
  sym_addr_addr : Symbol → Symbol → SymbolicExpression
  other_expression : SymbolicExpression

-- a code block; `owner` is the module that its section belongs to
pub record CodeBlock : Type 0 where
  pub uuid : ℕ
  pub address : ℕ
  pub size : ℕ
  pub raw_bytes : List ℕ
  pub owner : ℕ

pub record DataBlock : Type 0 where
  pub uuid : ℕ
  pub address : ℕ
  pub size : ℕ
  pub bytes : List ℕ

pub record Offset : Type 0 where
  pub element : ℕ
  pub displacement : ℕ

-- directive, operands and the UUID of a symbol
pub record CfiDirective : Type 0 where
  pub directive : Text
  pub operands : List ℤ
  pub symbol : ℕ

pub record SectionProperties : Type 0 where
  pub kind : ℕ
  pub flags : ℕ

-- index of the operand and the prefix to print
pub record OperandInfo : Type 0 where
  pub index : ℕ
  pub prefix : Text

pub data FileFormat : Type 0 where
  undefined coff elf pe ida_pro_db32 ida_pro_db64 xcoff macho raw : FileFormat

pub record Module : Type 0 where
  pub uuid : ℕ
  pub file_format : FileFormat
  pub cfg_blocks : List CodeBlock
  pub data_blocks : List DataBlock
  pub find_sections_on : ℕ → List Section
  pub find_sections_at : ℕ → List Section
  pub find_symbols_at : ℕ → List Symbol
  pub find_symbols_named : Text → List Symbol
  pub find_symbolic_expressions_at : ℕ → List SymbolicExpression
  pub find_data_blocks_on : ℕ → List DataBlock
  pub symbol_node : ℕ → Option Symbol
  pub code_block_node : ℕ → Option CodeBlock
  pub comments : Option (List (Offset × Text))
  pub function_entries : Option (List (ℕ × List ℕ))
  pub function_blocks : Option (List (ℕ × List ℕ))
  pub symbol_forwarding : Option (List (ℕ × ℕ))
  pub symbolic_operand_info : Option (List (ℕ × OperandInfo))
  pub encodings : Option (List (ℕ × Text))
  pub elf_section_properties : Option (List (ℕ × SectionProperties))
  pub cfi_directives : Option (List (Offset × List CfiDirective))
  pub libraries : Option (List Text)
  pub library_paths : Option (List Text)
