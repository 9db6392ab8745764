-- ===== src/Total/Blocks.antt =====
-- Data blocks, code blocks and what stands between them.
use gtirb_pprinter.Prelude.{
  ℕ, Bool, true, false, Option, none, some, List, [], ◌∷◌, All, contains, head_of, ◌≡◌, ◌⊎◌, inl,
  inr, refl, arith, Bool-cases,
}
use gtirb_pprinter.Prelude.Result.{ok, Writes}
use gtirb_pprinter.Prelude.Number.{add64}
use gtirb_pprinter.Gtirb.{
  Section, SymbolicExpression, sym_addr_const, sym_addr_addr, other_expression, CodeBlock,
  DataBlock, Offset,
}
use gtirb_pprinter.Capstone.{Insn}
use gtirb_pprinter.Printer.{Printer, skip_ea}
use gtirb_pprinter.Data.{
  symbolic_value, print_symbolic_data, print_non_zero_data_block, excluded_target,
  should_exclude_data_element, data_content, print_data_block,
}
use gtirb_pprinter.Blocks.{
  print_instructions, print_block, between, print_block_or_warning, print_data_block_or_warning,
  Item, code, datum, print_item,
}
use gtirb_pprinter.Total.{IsExpression, IsTarget, IsPlaced, IsDecoded, IsPrintable}
use gtirb_pprinter.Total.Names.{
  definitions-Writes, print_cfi_directives-Writes, print_sym_addr_const-Writes,
  print_sym_addr_addr-Writes,
}
use gtirb_pprinter.Total.Operands.{IsSymbolic, head_of-IsSymbolic}
use gtirb_pprinter.Total.Instructions.{fixed_up-Writes}

module _ (p : Printer) (w : IsPrintable p) where
  symbolic_value-Writes : (e : SymbolicExpression) → IsExpression p e → Writes (symbolic_value p e)
  unfolding symbolic_value
  symbolic_value-Writes (sym_addr_const s o) h = print_sym_addr_const-Writes p s o true h
  symbolic_value-Writes (sym_addr_addr s t) (h, k) = print_sym_addr_addr-Writes p s t true h k
  symbolic_value-Writes other_expression h = tt

  non_zero-Writes :
      (d : DataBlock) (e : Option SymbolicExpression)
      → head_of (p.module_.find_symbolic_expressions_at d.address) ≡ e
      → IsSymbolic p e
      → Writes (print_non_zero_data_block p d)
  unfolding print_non_zero_data_block print_symbolic_data
  non_zero-Writes d none e h = rw (e, print_non_zero_data_block) (ground (arith, e))
  non_zero-Writes d (some s) e h =
      rw (e, print_non_zero_data_block) (ground (arith, e, symbolic_value-Writes s h))

  data_content-Writes : (d : DataBlock) → Writes (data_content p d)
  unfolding data_content
  data_content-Writes d = ground (
    arith,
    non_zero-Writes d _ refl (
        head_of-IsSymbolic p (p.module_.find_symbolic_expressions_at d.address)
          (w.expressions d.address)),
  )

  target : (t : Option SymbolicExpression) → IsTarget t → (b : Bool) × (excluded_target p t ≡ ok b)
  unfolding excluded_target
  target none h = (false, refl)
  target (some (sym_addr_const s o)) (a, h) = (skip_ea p a, rw (h, excluded_target) refl)
  target (some (sym_addr_addr s t)) h = (false, refl)
  target (some other_expression) h = (false, refl)

  excluded :
      (d : DataBlock) (s : Section)
      → (contains s.name p.policy.array_sections ≡ false)
        ⊎ IsTarget (head_of (p.module_.find_symbolic_expressions_at d.address))
      → (b : Bool) × (should_exclude_data_element p s d ≡ ok b)
  unfolding should_exclude_data_element
  excluded d s (inl h) = (false, rw (h, should_exclude_data_element) refl)
  excluded d s (inr h) =
      let (b, e) = target _ h in
      elim (Bool-cases (contains s.name p.policy.array_sections)) [
        | inl c ↦ (b, rw (c, should_exclude_data_element) e)
        | inr c ↦ (false, rw (c, should_exclude_data_element) refl)
      ]

  print_data_block-Writes : (d : DataBlock) → IsPlaced p d → Writes (print_data_block p d)
  unfolding print_data_block
  print_data_block-Writes d (s, c, t) =
      let (b, e) = excluded d s t in
      ground (arith, c, e, definitions-Writes p d.address w, data_content-Writes d)

  print_instructions-Writes :
      (is : List Insn) (o : Offset)
      → All (IsDecoded p.handle p.arch) is
      → Writes (print_instructions p is o)
  unfolding print_instructions
  print_instructions-Writes [] o h = print_cfi_directives-Writes p o w
  print_instructions-Writes (i ∷ is) o (h, hs) = ground (
    arith,
    fixed_up-Writes p w i o h,
    print_instructions-Writes is (record o { displacement = add64 o.displacement i.size }) hs,
  )

  abbrev pub IsReady : Item → Type 0
  IsReady (code b) = All (IsDecoded p.handle p.arch) (p.handle.disasm b.raw_bytes b.size b.address)
  IsReady (datum d) = IsPlaced p d

  print_block-Writes : (b : CodeBlock) → IsReady (code b) → Writes (print_block p b)
  unfolding print_block
  print_block-Writes b h = ground (
    arith,
    print_instructions-Writes (p.handle.disasm b.raw_bytes b.size b.address)
        (record { element = b.uuid; displacement = 0 }) h,
  )

  between-Writes : (next last : ℕ) → Writes (between p next last)
  unfolding between
  between-Writes next last = ground (arith, definitions-Writes p last w)

  pub print_item-Writes : (i : Item) (last : ℕ) → IsReady i → Writes ((print_item p i last).0)
  unfolding print_item print_block_or_warning print_data_block_or_warning
  print_item-Writes (code b) last h =
      ground (arith, between-Writes b.address last, print_block-Writes b h)
  print_item-Writes (datum d) last h =
      ground (arith, between-Writes d.address last, print_data_block-Writes d h)
