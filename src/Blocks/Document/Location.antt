-- ===== src/Blocks/Document/Location.antt =====
-- The location counter of an assembler that reads the document of `print` of
-- src/gtirb_pprinter/PrettyPrinter.cpp.
use gtirb_pprinter.Prelude.{
  ℕ, ◌+◌, ◌-◌, ◌*◌, ◌/◌, ◌%◌, ◌==◌, if◌then◌else◌, false, Option, none, some, List, [], ◌∷◌,
  is_empty, ◌≡◌, refl, inl, inr, arith, Bool-cases, Text, eq_text, subst, contains, map, ◌⊎◌, ◌^◌,
  true,
}
use gtirb_pprinter.Prelude.Number.{dec}
use gtirb_pprinter.Gtirb.{Section}
use gtirb_pprinter.Capstone.{Insn}
use gtirb_pprinter.Printer.{Arch, intel, att, aarch64, Printer, skip_ea}
use gtirb_pprinter.Instruction.{fixup_instruction}
use gtirb_pprinter.Sections.{print_alignment, print_function_header}
use gtirb_pprinter.Sections.Alignment.{align_line}
use gtirb_pprinter.Blocks.{Item, code, datum, item_address}
use gtirb_pprinter.Blocks.Overlap.{item_end}
use gtirb_pprinter.Blocks.Document.{
  Line, definitions, opening, function, instruction, content, opened,
}

-- the number of bytes that have been made in a section that starts at `base`
pub record Place : Type 0 where
  pub base : ℕ
  pub offset : ℕ

-- the sections that have been opened, each with its place, the current one first
abbrev pub Places : Type 0
Places = List (Text × Place)

abbrev pub place_of : Text → Places → Option Place
place_of n [] = none
place_of n ((m, q) ∷ st) = if eq_text n m then some q else place_of n st

abbrev pub names_of : Places → List Text
names_of = map (λ (e : Text × Place). e.0)

pub place_of-new :
    (n : Text) (st : Places) → contains n (names_of st) ≡ false → place_of n st ≡ none
place_of-new n [] h = refl
place_of-new n ((m, q) ∷ st) h = ground (arith, place_of-new n st, h)

-- The bytes that the GNU assembler takes from the number of an `.align`: as many as it says on x86, and on
-- AArch64 the power of two that it is the exponent of.
abbrev pub boundary : Arch → ℕ → ℕ
boundary intel n = n
boundary att n = n
boundary aarch64 n = 2 ^ n

-- what the assembler reads of an alignment directive
abbrev pub read_alignment : Arch → Text → ℕ
read_alignment arch t =
    if eq_text t (align_line 16)
    then boundary arch 16
    else if eq_text t (align_line 8)
    then boundary arch 8
    else if eq_text t (align_line 4)
    then boundary arch 4
    else if eq_text t (align_line 2)
    then boundary arch 2
    else 1

-- the alignment that is written for an address
unfoldable pub alignment : Arch → ℕ → ℕ
alignment arch a = read_alignment arch (print_alignment a)

-- what `.align` does to an offset in a section
abbrev pub round_up : ℕ → ℕ → ℕ
round_up n offset = (offset + (n - 1)) / n * n

power : Arch → ℕ → ℕ
power arch a =
    if a % 16 == 0
    then boundary arch 16
    else if a % 8 == 0
    then boundary arch 8
    else if a % 4 == 0
    then boundary arch 4
    else if a % 2 == 0
    then boundary arch 2
    else 1

alignment-power : (arch : Arch) (a : ℕ) → alignment arch a ≡ power arch a
unfolding alignment power print_alignment dec
alignment-power arch a = elim (Bool-cases (a % 16 == 0)) [
  | inl e ↦ rw e refl
  | inr e ↦ elim (Bool-cases (a % 8 == 0)) [
    | inl f ↦ rw (e, f) refl
    | inr f ↦ elim (Bool-cases (a % 4 == 0)) [
      | inl g ↦ rw (e, f, g) refl
      | inr g ↦ elim (Bool-cases (a % 2 == 0)) [
        | inl h ↦ rw (e, f, g, h) refl
        | inr h ↦ rw (e, f, g, h) refl
      ]
    ]
  ]
]

round_up-power :
    (arch : Arch) (a base offset : ℕ)
    → base % power arch a ≡ 0
    → a % power arch a ≡ 0
    → base + offset ≡ a
    → round_up (power arch a) offset ≡ offset
unfolding power
round_up-power intel a base offset h g e = ground (arith, h, e)
round_up-power att a base offset h g e = ground (arith, h, e)
round_up-power aarch64 a base offset h g e = ground (arith, h, g, e)

-- From a base that is a multiple of the alignment no filling is needed up to an address that is one.
pub round_up-alignment :
    (arch : Arch) (a base offset : ℕ)
    → base % alignment arch a ≡ 0
    → a % alignment arch a ≡ 0
    → base + offset ≡ a
    → round_up (alignment arch a) offset ≡ offset
round_up-alignment arch a base offset h g e =
    let q = alignment-power arch a in
    rw q (
      round_up-power arch a base offset (subst (λ n. base % n ≡ 0) q h) (subst (λ n. a % n ≡ 0) q g)
        e)

module _ (p : Printer) (size : Line → ℕ) where
  -- A new section starts at its address; one that was opened before goes on where it was left, filled up for
  -- the alignment in its header.
  abbrev pub entered : Section → ℕ → Option Place → Place
  entered s a none = record { base = a; offset = 0 }
  entered s a (some q) =
      if contains s.name p.policy.array_sections
      then q
      else record q { offset = round_up (alignment p.arch a) q.offset }

  -- The assembler makes `size` bytes of an instruction or of data, and fills up for an alignment.
  abbrev pub advance : Line → Places → Places
  advance (opening s a) st = (s.name, entered s a (place_of s.name st)) ∷ st
  advance (function a) ((n, q) ∷ st) =
      (
        n,
        if is_empty (print_function_header p a)
            then q
            else record q { offset = round_up (alignment p.arch a) q.offset },
      )
      ∷ st
  advance (instruction i) ((n, q) ∷ st) =
      (n, record q { offset = q.offset + size (instruction i) }) ∷ st
  advance (content d) ((n, q) ∷ st) = (n, record q { offset = q.offset + size (content d) }) ∷ st
  advance _ st = st

  -- Labels before the first section have no place.
  abbrev pub Stands : Line → Places → Type 0
  Stands (definitions a) [] = Unit
  Stands (definitions a) ((n, q) ∷ st) = q.base + q.offset ≡ a
  Stands (instruction i) [] = ⊥
  Stands (instruction i) ((n, q) ∷ st) = q.base + q.offset ≡ i.address
  Stands (content d) [] = ⊥
  Stands (content d) ((n, q) ∷ st) = q.base + q.offset ≡ d.address
  Stands _ _ = Unit

  -- The labels, instructions and data among the lines come at their addresses.
  abbrev pub IsPlaced : Places → List Line → Type 0
  IsPlaced st [] = Unit
  IsPlaced st (l ∷ ls) = Stands l st × IsPlaced (advance l st) ls

  -- The instructions fill the range, each made of as many bytes as it has.
  abbrev pub Tiles : ℕ → ℕ → List Insn → Type 0
  Tiles from to [] = from ≡ to
  Tiles from to (i ∷ is) =
      (i.address ≡ from)
      × (size (instruction (fixup_instruction p.handle i)) ≡ i.size)
      × Tiles (from + i.size) to is

  -- The element is not skipped, and its lines make its bytes.
  abbrev pub IsWhole : Item → Type 0
  IsWhole (code b) =
      (skip_ea p b.address ≡ false)
      × Tiles b.address (b.address + b.size) (p.handle.disasm b.raw_bytes b.size b.address)
  IsWhole (datum d) = (skip_ea p d.address ≡ false) × (size (content d) ≡ d.size)

  -- Where the header of a function is written, the block and its section start at multiples of the
  -- alignment that the assembler takes from it.
  abbrev pub IsAligned : ℕ → Item → Type 0
  IsAligned base (code b) =
      (is_empty (print_function_header p b.address) ≡ true)
      ⊎ ((base % alignment p.arch b.address ≡ 0) × (b.address % alignment p.arch b.address ≡ 0))
  IsAligned base (datum d) = Unit

  -- Each element is where the header of a section is written that was not opened before, or in the section
  -- of the one before and where that one ends; `base` is where the current section starts.
  pub data Follows : Option ℕ → List Text → ℕ → List Item → Type 0 where
    last_one : {base : Option ℕ} {seen : List Text} {last : ℕ} → Follows base seen last []
    next_to :
        {base last : ℕ} {seen : List Text} {i : Item} {is : List Item}
        → item_address i ≡ last
        → opened p (item_address i) ≡ none
        → IsAligned base i
        → Follows (some base) seen (item_end i) is
        → Follows (some base) seen last (i ∷ is)
    at_start :
        {base : Option ℕ} {seen : List Text} {last : ℕ} {i : Item} {is : List Item} {s : Section}
        → opened p (item_address i) ≡ some s
        → contains s.name seen ≡ false
        → IsAligned (item_address i) i
        → Follows (some (item_address i)) (s.name ∷ seen) (item_end i) is
        → Follows base seen last (i ∷ is)
