-- ===== src/Att/Memory.antt =====
-- The memory operands of src/gtirb_pprinter/AttPrettyPrinter.cpp.
use gtirb_pprinter.Prelude.{
  ℕ, if◌then◌else◌, ◌||◌, Text, codes, Option, none, some, [], ◌++◌, ◌≡◌, refl, arith, ap,
  append_assoc, Bool-cases, inl, inr,
}
use gtirb_pprinter.Prelude.Int.{to_u64}
use gtirb_pprinter.Prelude.Result.{ok}
use gtirb_pprinter.Gtirb.{SymbolicExpression}
use gtirb_pprinter.Capstone.{X86Op, X86Mem, Insn}
use gtirb_pprinter.Printer.{Printer}
use gtirb_pprinter.Symbols.{get_symbolic_immediate}
use gtirb_pprinter.Operands.{get_register_name}
use gtirb_pprinter.Att.{is_branch, has, numeric, displacement, base_index, print_op_indirect}
use gtirb_pprinter.Operands.Cutting.{Lacks}
use gtirb_pprinter.Att.Reading.{Inside, read_operand}
use gtirb_pprinter.Att.Parts.{
  IsName, IsInside, LacksIn, name_of, segment_text, inside_text, read_operand-parts,
}

-- what an operand says of its base, index and scale
abbrev pub inside_of : Printer → X86Mem → Option Inside
inside_of p m =
    if has p m.base || has p m.index
    then some (
      if has p m.base then get_register_name p m.base else [],
      if has p m.index then some (get_register_name p m.index, m.scale) else none,
    )
    else none

base_index-inside_text : (p : Printer) (m : X86Mem) → base_index p m ≡ inside_text (inside_of p m)
unfolding base_index inside_text
base_index-inside_text p m = elim (Bool-cases (has p m.base)) [
  | inl b ↦ elim (Bool-cases (has p m.index)) [
    | inl i ↦ rw (b, i) (simp append_assoc)
    | inr i ↦ rw (b, i) (simp append_assoc)
  ]
  | inr b ↦ elim (Bool-cases (has p m.index)) [
    | inl i ↦ rw (b, i) (simp append_assoc)
    | inr i ↦ rw (b, i) refl
  ]
]

segment-segment_text :
    (p : Printer) (r : ℕ)
    → (if has p r then get_register_name p r ++ codes ":" else []) ≡ segment_text (name_of p r)
segment-segment_text p r = ground arith

name_of-LacksIn :
    (p : Printer) (c : ℕ) (r : ℕ) → Lacks c (get_register_name p r) → LacksIn c (name_of p r)
name_of-LacksIn p c r h = elim (Bool-cases (has p r)) [ inl e ↦ rw e h | inr e ↦ rw e tt ]

module _ (p : Printer) (m : X86Mem) (segment : IsName (get_register_name p m.segment))
    (base : IsName (get_register_name p m.base))
    (index : IsName (get_register_name p m.index)) where
  inside_of-IsInside : IsInside (inside_of p m)
  inside_of-IsInside =
      let (_, close, comma, _, _) = base in
      let (_, close', comma', _, _) = index in
      elim (Bool-cases (has p m.base)) [
        | inl b ↦ elim (Bool-cases (has p m.index)) [
          | inl i ↦ rw (b, i) (comma, close, comma', close')
          | inr i ↦ rw (b, i) (comma, close)
        ]
        | inr b ↦ elim (Bool-cases (has p m.index)) [
          | inl i ↦ rw (b, i) (tt, tt, comma', close')
          | inr i ↦ rw (b, i) tt
        ]
      ]

  -- A memory operand without a symbolic displacement is written as a text from which its parts are read back:
  -- whether a call or a jump goes through it, the name of the segment, the 64 bits of the displacement, the
  -- name of the base, and the name of the index with its scale. The names of the operand's own
  -- segment, base and index hold none of the characters ( ) , : and *.
  pub print_op_indirect-read :
      (symbolic : Option SymbolicExpression) (inst : Insn) (op : X86Op)
      → op.mem ≡ m
      → get_symbolic_immediate symbolic ≡ none
      → (t : Text) × (print_op_indirect p symbolic inst op ≡ ok t)
        × (read_operand t ≡ record {
          starred = is_branch p inst;
          segment = name_of p m.segment;
          offset = to_u64 m.disp;
          inside = inside_of p m;
        })
  unfolding print_op_indirect displacement
  print_op_indirect-read symbolic inst op same h =
      let star = if is_branch p inst then codes "*" else [] in
      let (paren, _, _, colon, asterisk) = segment in
      (
        star
            ++ ((segment_text (name_of p m.segment) ++ numeric p m) ++ inside_text (inside_of p m)),
        rw (same, h, segment-segment_text p m.segment, base_index-inside_text p m)
            (ap ok (simp append_assoc)),
        read_operand-parts (is_branch p inst) (name_of p m.segment) p m (inside_of p m)
            (name_of-LacksIn p b':' m.segment colon) (name_of-LacksIn p b'(' m.segment paren)
            (name_of-LacksIn p b'*' m.segment asterisk) inside_of-IsInside,
      )
