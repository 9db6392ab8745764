-- ===== src/Intel/Memory.antt =====
-- The memory operands of src/gtirb_pprinter/IntelPrettyPrinter.cpp.
use gtirb_pprinter.Prelude.{
  ℕ, suc, ◌==◌, if◌then◌else◌, Bool, true, false, ◌&&◌, Text, codes, Option, none, [], ◌∷◌, ◌++◌,
  ◌≡◌, arith, ap, ◌∙◌, append_assoc, Bool-cases, inl, inr,
}
use gtirb_pprinter.Prelude.Number.{dec, dec-AllDecimal}
use gtirb_pprinter.Prelude.Int.{ℤ, pos, negsuc, dec_int}
use gtirb_pprinter.Prelude.Result.{ok}
use gtirb_pprinter.Gtirb.{SymbolicExpression}
use gtirb_pprinter.Capstone.{X86Op, X86Mem, Insn}
use gtirb_pprinter.Syntax.{get_size_name}
use gtirb_pprinter.Printer.{Printer}
use gtirb_pprinter.Symbols.{get_symbolic_immediate, print_addend}
use gtirb_pprinter.Operands.{get_register_name}
use gtirb_pprinter.Operands.Cutting.{Lacks, cut_at, Lacks-append, decimal-Lacks}
use gtirb_pprinter.Intel.{absent, size_prefix, index_text, displacement, print_op_indirect}
use gtirb_pprinter.Intel.Address.{
  IsRegister, terms, total, address, after_bracket, body_text, effective, body_text-effective,
}

size_prefix-Lacks : (size : ℕ) → Lacks b'[' (size_prefix size)
unfolding size_prefix get_size_name
size_prefix-Lacks size = ground arith

dec-Lacks : (n : ℕ) → Lacks b']' (dec n)
dec-Lacks n = decimal-Lacks b']' (dec n) (omega arith) (dec-AllDecimal n)

print_addend-Lacks : (i : ℤ) (first : Bool) → Lacks b']' (print_addend i first)
unfolding print_addend dec_int
print_addend-Lacks (pos n) true = dec-Lacks n
print_addend-Lacks (pos n) false = elim (Bool-cases (n == 0)) [
  | inl e ↦ rw (e, print_addend) tt
  | inr e ↦ rw (e, print_addend) (omega arith, dec-Lacks n)
]
print_addend-Lacks (negsuc n) first = (omega arith, dec-Lacks (suc n))

-- an operand cut at its brackets
address_between :
    (env : Text → ℕ) (before body : Text)
    → Lacks b'[' before
    → Lacks b']' body
    → address env (before ++ (b'[' ∷ (body ++ codes "]"))) ≡ total env (terms body)
address_between env before body h k =
    ap (λ (c : Text × Option Text). total env (terms (after_bracket c.1)))
      (cut_at b'[' before (body ++ codes "]") h)
    ∙ ap (λ (c : Text × Option Text). total env (terms c.0)) (cut_at b']' body [] k)

-- what is written before the bracket
abbrev prefix_text : Printer → X86Op → Text
prefix_text p op =
    size_prefix op.size
    ++ (if absent p op.mem.segment then [] else get_register_name p op.mem.segment ++ codes ":")

module _ (p : Printer)
    (names : (r : ℕ) → absent p r ≡ false → IsRegister (get_register_name p r)) where
  name-Lacks : (r : ℕ) → Lacks b']' (if absent p r then [] else get_register_name p r)
  name-Lacks r = elim (Bool-cases (absent p r)) [
    | inl e ↦ rw e tt
    | inr e ↦ let (_, _, _, _, _, h) = names r e in rw e h
  ]

  index_text-Lacks : (m : X86Mem) → Lacks b']' (index_text p m)
  unfolding index_text
  index_text-Lacks m = elim (Bool-cases (absent p m.index)) [
    | inl e ↦ rw e tt
    | inr e ↦
        let (_, _, _, _, _, h) = names m.index e in
        let rest =
          Lacks-append b']' (get_register_name p m.index) (b'*' ∷ dec m.scale) h
            (omega arith, dec-Lacks m.scale) in
        elim (Bool-cases (absent p m.base)) [
          | inl b ↦ rw (e, b) rest
          | inr b ↦ rw (e, b) (omega arith, rest)
        ]
  ]

  body_text-Lacks : (m : X86Mem) → Lacks b']' (body_text p m)
  body_text-Lacks m =
      let base = if absent p m.base then [] else get_register_name p m.base in
      Lacks-append b']' (base ++ index_text p m)
        (print_addend m.disp (absent p m.base && absent p m.index))
        (Lacks-append b']' base (index_text p m) (name-Lacks m.base) (index_text-Lacks m))
        (print_addend-Lacks m.disp (absent p m.base && absent p m.index))

  prefix_text-Lacks : (op : X86Op) → Lacks b'[' (prefix_text p op)
  prefix_text-Lacks op = elim (Bool-cases (absent p op.mem.segment)) [
    | inl e ↦ rw e (Lacks-append b'[' (size_prefix op.size) [] (size_prefix-Lacks op.size) tt)
    | inr e ↦
        let (_, _, _, _, h, _) = names op.mem.segment e in
        rw e (
          Lacks-append b'[' (size_prefix op.size) (get_register_name p op.mem.segment ++ codes ":")
            (size_prefix-Lacks op.size)
            (Lacks-append b'[' (get_register_name p op.mem.segment) (codes ":") h
              (omega arith, tt)))
  ]

  -- A memory operand without a symbolic displacement is written as a text whose brackets hold an expression
  -- for its address: whatever the values of the registers, it is the sum of the base, of the index times the scale
  -- and of the displacement, modulo 2 ^ 64, where what is absent is left out. The names of registers are not empty, begin
  -- with no digit, and hold none of the characters + - * [ and ].
  pub print_op_indirect-address :
      (symbolic : Option SymbolicExpression) (inst : Insn) (op : X86Op) (env : Text → ℕ)
      → get_symbolic_immediate symbolic ≡ none
      → (t : Text) × (print_op_indirect p symbolic inst op ≡ ok t)
        × (address env t ≡ effective p env op.mem)
  unfolding print_op_indirect displacement
  print_op_indirect-address symbolic inst op env h = (
    prefix_text p op ++ (b'[' ∷ (body_text p op.mem ++ codes "]")),
    rw h (ap ok (simp append_assoc)),
    address_between env (prefix_text p op) (body_text p op.mem) (prefix_text-Lacks op)
          (body_text-Lacks op.mem)
        ∙ body_text-effective p names env op.mem,
  )
