-- ===== src/Blocks/Document/Placing.antt =====
-- Labels, instructions and data at their addresses, when an assembler reads what `print` of
-- src/gtirb_pprinter/PrettyPrinter.cpp writes.
use gtirb_pprinter.Prelude.{ℕ, ◌+◌, Text, Option, none, some, List, [], ◌∷◌, ◌≡◌, All}
use gtirb_pprinter.Printer.{Printer}
use gtirb_pprinter.Blocks.{Item}
use gtirb_pprinter.Blocks.Overlap.{end_of}
use gtirb_pprinter.Blocks.Document.{Line}
use gtirb_pprinter.Blocks.Document.Location.{Places, names_of, IsPlaced, IsWhole, Follows}

module _ (p : Printer) (size : Line → ℕ) where
  -- The current section started at `base`, the next byte would be at `last`, and `seen` are the sections so far.
  abbrev IsAt : Option ℕ → List Text → ℕ → Places → Type 0
  IsAt none seen last [] = names_of [] ≡ seen
  IsAt (some b) seen last ((m, q) ∷ st) =
      (q.base ≡ b) × (q.base + q.offset ≡ last) × (names_of ((m, q) ∷ st) ≡ seen)
  IsAt _ _ _ _ = ⊥

  -- the section `m` with its next byte at an offset
  abbrev made : Text → Places → ℕ → ℕ → Places
  made m st b o = (m, record { base = b; offset = o }) ∷ st

  -- what the lines of the kept elements and those after them need
  abbrev IsLaid : Option ℕ → List Text → ℕ → List Line → List Item → Type 0
  IsLaid base seen last ls ks =
      All (IsWhole p size) ks
      × Follows p size base seen last ks
      × ((b : Option ℕ) (names : List Text) (q : Places)
          → IsAt b names (end_of last ks) q
          → IsPlaced p size q ls)
