-- ===== src/Total/Operands.antt =====
-- The operands of the three syntaxes.
use gtirb_pprinter.Prelude.{
  ℕ, Bool, false, not, ◌&&◌, Option, none, some, List, [], ◌∷◌, All, head_of, ◌≢◌, arith,
}
use gtirb_pprinter.Prelude.Int.{ℤ}
use gtirb_pprinter.Prelude.Result.{Writes}
use gtirb_pprinter.Capstone.{
  X86Op, X86Mem, Arm64Op, Arm64OpType, Arm64Barrier, Arm64Prefetch, barrier_invalid,
  prefetch_invalid, Insn,
}
use gtirb_pprinter.Gtirb.{
  Symbol, SymbolicExpression, sym_addr_const, sym_addr_addr, other_expression,
}
use gtirb_pprinter.Printer.{Printer, aarch64}
use gtirb_pprinter.Symbols.{get_symbolic_immediate}
use gtirb_pprinter.AArch64.Keywords.{print_barrier, print_prefetch}
use gtirb_pprinter.Intel
use gtirb_pprinter.Att
use gtirb_pprinter.AArch64
use gtirb_pprinter.Total.{IsReferable, IsExpression, IsPrintable, IsArm64Kind, HasPrefixes}
use gtirb_pprinter.Total.Names.{print_sym_addr_const-Writes}

-- an expression that may be absent
abbrev pub IsSymbolic : Printer → Option SymbolicExpression → Type 0
IsSymbolic p none = Unit
IsSymbolic p (some e) = IsExpression p e

pub head_of-IsSymbolic :
    (p : Printer) (es : List SymbolicExpression)
    → All (IsExpression p) es
    → IsSymbolic p (head_of es)
head_of-IsSymbolic p [] h = tt
head_of-IsSymbolic p (e ∷ es) (h, hs) = h

abbrev pub IsImmediate : Printer → Option (Symbol × ℤ) → Type 0
IsImmediate p none = Unit
IsImmediate p (some (s, o)) = IsReferable p s

get_symbolic_immediate-IsImmediate :
    (p : Printer) (e : Option SymbolicExpression)
    → IsSymbolic p e
    → IsImmediate p (get_symbolic_immediate e)
unfolding get_symbolic_immediate
get_symbolic_immediate-IsImmediate p none h = tt
get_symbolic_immediate-IsImmediate p (some (sym_addr_const s o)) h = h
get_symbolic_immediate-IsImmediate p (some (sym_addr_addr s t)) h = tt
get_symbolic_immediate-IsImmediate p (some other_expression) h = tt

module _ (p : Printer) where
  intel_immediate :
      (value : Bool) (e : Option (Symbol × ℤ)) (imm : ℤ)
      → IsImmediate p e
      → Writes (Intel.immediate p value e imm)
  unfolding Intel.immediate
  intel_immediate value none imm h = tt
  intel_immediate value (some (s, o)) imm h =
      ground (arith, print_sym_addr_const-Writes p s o value h)

  intel_displacement :
      (first : Bool) (e : Option (Symbol × ℤ)) (disp : ℤ)
      → IsImmediate p e
      → Writes (Intel.displacement p first e disp)
  unfolding Intel.displacement
  intel_displacement first none disp h = tt
  intel_displacement first (some (s, o)) disp h =
      ground (arith, print_sym_addr_const-Writes p s o false h)

  pub Intel_immediate-Writes :
      (e : Option SymbolicExpression) (i : Insn) (o : X86Op)
      → IsSymbolic p e
      → Writes (Intel.print_op_immediate p e i o)
  unfolding Intel.print_op_immediate
  Intel_immediate-Writes e i o h =
      intel_immediate (Intel.is_value p i) (get_symbolic_immediate e) o.imm
        (get_symbolic_immediate-IsImmediate p e h)

  pub Intel_indirect-Writes :
      (e : Option SymbolicExpression) (i : Insn) (o : X86Op)
      → IsSymbolic p e
      → Writes (Intel.print_op_indirect p e i o)
  unfolding Intel.print_op_indirect
  Intel_indirect-Writes e i o h = ground (
    arith,
    intel_displacement (Intel.absent p o.mem.base && Intel.absent p o.mem.index)
        (get_symbolic_immediate e) o.mem.disp (get_symbolic_immediate-IsImmediate p e h),
  )

  att_immediate :
      (branch : Bool) (e : Option (Symbol × ℤ)) (imm : ℤ)
      → IsImmediate p e
      → Writes (Att.immediate p branch e imm)
  unfolding Att.immediate
  att_immediate branch none imm h = tt
  att_immediate branch (some (s, o)) imm h = print_sym_addr_const-Writes p s o (not branch) h

  att_displacement :
      (e : Option (Symbol × ℤ)) (m : X86Mem) → IsImmediate p e → Writes (Att.displacement p e m)
  unfolding Att.displacement
  att_displacement none m h = tt
  att_displacement (some (s, o)) m h = print_sym_addr_const-Writes p s o false h

  pub Att_immediate-Writes :
      (e : Option SymbolicExpression) (i : Insn) (o : X86Op)
      → IsSymbolic p e
      → Writes (Att.print_op_immediate p e i o)
  unfolding Att.print_op_immediate
  Att_immediate-Writes e i o h = ground (
    arith,
    att_immediate (Att.is_branch p i) (get_symbolic_immediate e) o.imm
        (get_symbolic_immediate-IsImmediate p e h),
  )

  pub Att_indirect-Writes :
      (e : Option SymbolicExpression) (i : Insn) (o : X86Op)
      → IsSymbolic p e
      → Writes (Att.print_op_indirect p e i o)
  unfolding Att.print_op_indirect
  Att_indirect-Writes e i o h = ground (
    arith,
    att_displacement (get_symbolic_immediate e) o.mem (get_symbolic_immediate-IsImmediate p e h),
  )

  prefix-Writes :
      (i : Insn) (index : ℕ) → HasPrefixes p aarch64 → Writes (AArch64.print_prefix p i index)
  unfolding AArch64.print_prefix
  prefix-Writes i index (t, e) = ground (arith, e)

  arm64_immediate :
      (i : Insn) (index : ℕ) (jump : Bool) (e : Option (Symbol × ℤ)) (o : Arm64Op)
      → HasPrefixes p aarch64
      → IsImmediate p e
      → Writes (AArch64.immediate p i index jump e o)
  unfolding AArch64.immediate
  arm64_immediate i index jump none o x h = tt
  arm64_immediate i index jump (some (s, n)) o x h =
      ground (arith, prefix-Writes i index x, print_sym_addr_const-Writes p s n (not jump) h)

  arm64_displacement :
      (i : Insn) (index : ℕ) (e : Option (Symbol × ℤ)) (disp : ℤ)
      → HasPrefixes p aarch64
      → IsImmediate p e
      → Writes (AArch64.displacement p i index e disp)
  unfolding AArch64.displacement
  arm64_displacement i index none disp x h = tt
  arm64_displacement i index (some (s, n)) disp x h =
      ground (arith, prefix-Writes i index x, print_sym_addr_const-Writes p s n false h)

  AArch64_immediate-Writes :
      (e : Option SymbolicExpression) (i : Insn) (index : ℕ) (o : Arm64Op)
      → HasPrefixes p aarch64
      → IsSymbolic p e
      → Writes (AArch64.print_op_immediate p e i index o)
  unfolding AArch64.print_op_immediate
  AArch64_immediate-Writes e i index o x h =
      arm64_immediate i index (p.handle.in_group i p.handle.arm64_grp_jump)
        (get_symbolic_immediate e) o x (get_symbolic_immediate-IsImmediate p e h)

  displacement_part-Writes :
      (e : Option SymbolicExpression) (i : Insn) (index : ℕ) (o : Arm64Op)
      → HasPrefixes p aarch64
      → IsSymbolic p e
      → Writes (AArch64.displacement_part p e i index o)
  unfolding AArch64.displacement_part
  displacement_part-Writes e i index o x h = ground (
    arith,
    arm64_displacement i index (get_symbolic_immediate e) o.mem.disp x
        (get_symbolic_immediate-IsImmediate p e h),
  )

  AArch64_indirect-Writes :
      (e : Option SymbolicExpression) (i : Insn) (index : ℕ) (o : Arm64Op)
      → HasPrefixes p aarch64
      → IsSymbolic p e
      → Writes (AArch64.print_op_indirect p e i index o)
  unfolding AArch64.print_op_indirect
  AArch64_indirect-Writes e i index o x h = ground (arith, displacement_part-Writes e i index o x h)

  prefetch-Writes : (k : Arm64Prefetch) → k ≢ prefetch_invalid → Writes (print_prefetch k)
  unfolding print_prefetch
  prefetch-Writes k h = ground arith

  barrier-Writes : (k : Arm64Barrier) → k ≢ barrier_invalid → Writes (print_barrier k)
  unfolding print_barrier
  barrier-Writes k h = ground arith

  final-IsSymbolic :
      (i : Insn) (index : ℕ) → IsPrintable p → IsSymbolic p (AArch64.final_symbolic p i index)
  unfolding AArch64.final_symbolic
  final-IsSymbolic i index h = ground (
    arith,
    head_of-IsSymbolic p (p.module_.find_symbolic_expressions_at i.address)
        (h.expressions i.address),
  )

  operand_of_kind-Writes :
      (i : Insn) (index : ℕ) (o : Arm64Op) (k : Arm64OpType)
      → IsPrintable p
      → HasPrefixes p aarch64
      → IsArm64Kind o k
      → Writes (AArch64.operand_of_kind p i index o k)
  unfolding AArch64.operand_of_kind
  operand_of_kind-Writes i index o Arm64OpType.reg w x h = tt
  operand_of_kind-Writes i index o Arm64OpType.imm w x h =
      AArch64_immediate-Writes (AArch64.final_symbolic p i index) i index o x
        (final-IsSymbolic i index w)
  operand_of_kind-Writes i index o Arm64OpType.mem w x h =
      AArch64_indirect-Writes (AArch64.final_symbolic p i index) i index o x
        (final-IsSymbolic i index w)
  operand_of_kind-Writes i index o Arm64OpType.fp w x h = tt
  operand_of_kind-Writes i index o Arm64OpType.cimm w x h = tt
  operand_of_kind-Writes i index o Arm64OpType.reg_mrs w x h = tt
  operand_of_kind-Writes i index o Arm64OpType.reg_msr w x h = tt
  operand_of_kind-Writes i index o Arm64OpType.pstate w x h = tt
  operand_of_kind-Writes i index o Arm64OpType.sys w x h = tt
  operand_of_kind-Writes i index o Arm64OpType.prefetch w x h = prefetch-Writes o.prefetch h
  operand_of_kind-Writes i index o Arm64OpType.barrier w x h = barrier-Writes o.barrier h
  operand_of_kind-Writes i index o Arm64OpType.invalid w x h = absurd h

  pub AArch64_operand-Writes :
      (i : Insn) (index : ℕ) (o : Arm64Op)
      → IsPrintable p
      → HasPrefixes p aarch64
      → IsArm64Kind o o.kind
      → Writes (AArch64.print_operand p i index o)
  unfolding AArch64.print_operand
  AArch64_operand-Writes i index o w x h = operand_of_kind-Writes i index o o.kind w x h
