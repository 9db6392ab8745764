-- ===== src/Examples/Placing.antt =====
-- Runs of the theorems on the addresses and on the lines of what is printed.
use gtirb_pprinter.Prelude.{ℕ, ◌==◌, if◌then◌else◌, codes, List, [], ◌∷◌, All, ◌≡◌, refl, arith}
use gtirb_pprinter.Prelude.Result.{each}
use gtirb_pprinter.Gtirb.{Section, DataBlock}
use gtirb_pprinter.Printer.{Printer}
use gtirb_pprinter.Blocks.{print, listing}
use gtirb_pprinter.Blocks.Document.{Line, instruction, content, document, render}
use gtirb_pprinter.Blocks.Document.Lines.{IsWritten}
use gtirb_pprinter.Blocks.Document.Written.{print-IsWritten}
use gtirb_pprinter.Examples.{late_block, table_data, text_section}
use gtirb_pprinter.Examples.Printing.{referrer, referring}

-- data at 4 in its section, an instruction at 8 in the next one, and data after it at 10
abbrev data_section : Section
data_section = record { uuid = 63; name = codes ".data" }

abbrev tail_data : DataBlock
tail_data = record { uuid = 43; address = 10; size = 2; bytes = 1 ∷ 2 ∷ [] }

abbrev headers : ℕ → List Section
headers a = if a == 4 then data_section ∷ [] else if a == 8 then text_section ∷ [] else []

abbrev placing : Printer
placing = record referrer {
  module_ = record referring {
    cfg_blocks = late_block ∷ [];
    data_blocks = table_data ∷ tail_data ∷ [];
    find_sections_at = headers;
  };
}

abbrev made : Line → ℕ
made (instruction i) = i.size
made (content d) = d.size
made _ = 0

print-IsWritten_example :
    (print placing ≡ each (render placing) (document placing))
    × All (IsWritten placing) (document placing)
unfolding listing
print-IsWritten_example = print-IsWritten placing refl (omega arith)
