-- ===== src/Total.antt =====
-- The conditions that `PrettyPrinterBase::print` of src/gtirb_pprinter/PrettyPrinter.cpp relies on and does not
-- test: optionals and tables that it dereferences, casts, and operands that end the program.
mod Names
mod Operands
mod Instructions
mod Blocks
pub mod Printing
use gtirb_pprinter.Prelude.{
  ℕ, zero, suc, Bool, true, false, Option, none, some, List, [], ◌∷◌, All, contains, head_of, ◌≡◌,
  ◌≢◌, ◌⊎◌,
}
use gtirb_pprinter.Capstone.{
  X86Op, X86OpType, Arm64Op, Arm64OpType, Arm64Barrier, Arm64Prefetch, barrier_invalid,
  prefetch_invalid, Insn, Capstone,
}
use gtirb_pprinter.Gtirb.{
  Symbol, Section, SymbolicExpression, sym_addr_const, sym_addr_addr, other_expression, CodeBlock,
  DataBlock, OperandInfo,
}
use gtirb_pprinter.Printer.{
  Printer, Arch, intel, att, aarch64, is_ambiguous_symbol, get_container_section,
}
use gtirb_pprinter.Symbols.{find_in}
use gtirb_pprinter.Instruction.{is_stos}
use gtirb_pprinter.Instruction.Decoded.{HasOperands, IsX86}

-- Ambiguous names are printed as addresses.
abbrev pub IsNamed : Printer → Symbol → Type 0
IsNamed p s = (is_ambiguous_symbol p s.name ≡ false) ⊎ ((a : ℕ) × (s.address ≡ some a))

-- A forwarded symbol stands for a symbol.
abbrev pub IsForwarded : Printer → Symbol → Type 0
IsForwarded p s =
    (find_in s.uuid p.module_.symbol_forwarding ≡ none)
    ⊎ ((u : ℕ) × (d : Symbol) × (find_in s.uuid p.module_.symbol_forwarding ≡ some u)
        × (p.module_.symbol_node u ≡ some d))

abbrev pub IsReferable : Printer → Symbol → Type 0
IsReferable p s = IsNamed p s × IsForwarded p s

abbrev pub IsExpression : Printer → SymbolicExpression → Type 0
IsExpression p (sym_addr_const s o) = IsReferable p s
IsExpression p (sym_addr_addr s t) = IsReferable p s × IsReferable p t
IsExpression p other_expression = Unit

abbrev pub IsArm64Kind : Arm64Op → Arm64OpType → Type 0
IsArm64Kind o Arm64OpType.invalid = ⊥
IsArm64Kind o Arm64OpType.prefetch = o.prefetch ≢ prefetch_invalid
IsArm64Kind o Arm64OpType.barrier = o.barrier ≢ barrier_invalid
IsArm64Kind o _ = Unit

abbrev pub HasArm64Operands : ℕ → List Arm64Op → Type 0
HasArm64Operands zero os = Unit
HasArm64Operands (suc n) [] = ⊥
HasArm64Operands (suc n) (o ∷ os) = IsArm64Kind o o.kind × HasArm64Operands n os

-- What Capstone gives: its operand count is that of the array, and STOS has an operand.
abbrev pub IsDecoded : Capstone → Arch → Insn → Type 0
IsDecoded cs aarch64 i = HasArm64Operands i.arm64.op_count i.arm64.operands
IsDecoded cs _ i = IsX86 i × ((is_stos cs i.id ≡ false) ⊎ HasOperands 1 i.x86.operands)

-- The operands of AArch64 read the table of prefixes without a test.
abbrev pub HasPrefixes : Printer → Arch → Type 0
HasPrefixes p aarch64 = (t : List (ℕ × OperandInfo)) × (p.module_.symbolic_operand_info ≡ some t)
HasPrefixes p _ = Unit

abbrev pub IsTarget : Option SymbolicExpression → Type 0
IsTarget (some (sym_addr_const s o)) = (a : ℕ) × (s.address ≡ some a)
IsTarget _ = Unit

-- A data block lies in a section, and what an array refers to has an address.
abbrev pub IsPlaced : Printer → DataBlock → Type 0
IsPlaced p d =
    (s : Section) × (get_container_section p d.address ≡ some s)
    × ((contains s.name p.policy.array_sections ≡ false)
        ⊎ IsTarget (head_of (p.module_.find_symbolic_expressions_at d.address)))

pub record IsPrintable (p : Printer) : Type 0 where
  pub named : (a : ℕ) → All (IsNamed p) (p.module_.find_symbols_at a)
  pub expressions : (a : ℕ) → All (IsExpression p) (p.module_.find_symbolic_expressions_at a)
  pub nodes : (u : ℕ) (s : Symbol) → p.module_.symbol_node u ≡ some s → IsReferable p s
  pub prefixes : HasPrefixes p p.arch
  pub decoded :
      All
        (λ (b : CodeBlock).
          All (IsDecoded p.handle p.arch) (p.handle.disasm b.raw_bytes b.size b.address))
        p.module_.cfg_blocks
  pub placed : All (IsPlaced p) p.module_.data_blocks
