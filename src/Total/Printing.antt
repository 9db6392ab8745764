-- ===== src/Total/Printing.antt =====
-- `PrettyPrinterBase::print` of src/gtirb_pprinter/PrettyPrinter.cpp as a whole.
use gtirb_pprinter.Prelude.{ℕ, Text, List, [], ◌∷◌, All, map, ◌≡◌, arith}
use gtirb_pprinter.Prelude.Result.{ok, Writes, ⊹-Writes, Writes-text}
use gtirb_pprinter.Gtirb.{CodeBlock, DataBlock}
use gtirb_pprinter.Printer.{Printer}
use gtirb_pprinter.Blocks.{Item, code, datum, print_item, print_items, print, listing}
use gtirb_pprinter.Blocks.Order.{listing-All}
use gtirb_pprinter.Total.{IsDecoded, IsPlaced, IsPrintable}
use gtirb_pprinter.Total.Names.{definitions-Writes}
use gtirb_pprinter.Total.Blocks.{IsReady, print_item-Writes}

module _ (p : Printer) (w : IsPrintable p) where
  print_items-Writes :
      (is : List Item) (last : ℕ) → All (IsReady p w) is → Writes ((print_items p is last).0)
  unfolding print_items
  print_items-Writes [] last h = tt
  print_items-Writes (i ∷ is) last (h, hs) =
      ⊹-Writes ((print_item p i last).0) ((print_items p is ((print_item p i last).1)).0)
        (print_item-Writes p w i last h) (print_items-Writes is ((print_item p i last).1) hs)

  codes-IsReady :
      (bs : List CodeBlock)
      → All
          (λ (b : CodeBlock).
            All (IsDecoded p.handle p.arch) (p.handle.disasm b.raw_bytes b.size b.address))
          bs
      → All (IsReady p w) (map code bs)
  codes-IsReady [] h = tt
  codes-IsReady (b ∷ bs) (h, hs) = (h, codes-IsReady bs hs)

  data-IsReady : (ds : List DataBlock) → All (IsPlaced p) ds → All (IsReady p w) (map datum ds)
  data-IsReady [] h = tt
  data-IsReady (d ∷ ds) (h, hs) = (h, data-IsReady ds hs)

  print-Writes : Writes (print p)
  unfolding print
  print-Writes = ground (
    arith,
    print_items-Writes (listing p.module_) 0 (
        listing-All (IsReady p w) p.module_ (codes-IsReady p.module_.cfg_blocks w.decoded)
          (data-IsReady p.module_.data_blocks w.placed)),
    definitions-Writes p ((print_items p (listing p.module_) 0).1) w,
  )

-- `print` writes a text and ends with no fault, if the printer's module is printable. That is: a symbol at
-- an address, in a symbolic expression or found by its UUID has an address if its name is ambiguous, and
-- one in an expression or found by its UUID that is forwarded is forwarded to a symbol. For AArch64 the
-- table of operand prefixes is there. The operands that Capstone counts are in its array and of valid
-- types, for AArch64 with valid barriers and prefetch operations, and STOS has an operand. Each data block
-- lies in a section, and what an entry of an array of functions refers to has an address.
pub print_total : (p : Printer) → IsPrintable p → (t : Text) × (print p ≡ ok t)
print_total p w = Writes-text (print p) (print-Writes p w)
