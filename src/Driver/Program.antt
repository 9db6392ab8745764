-- ===== src/Driver/Program.antt =====
-- `main` of src/gtirb_pprinter/driver/pretty_printer.cpp, with the loading and the layout of the IR.
use gtirb_pprinter.Prelude.{Text, codes, Option, none, some, List, ◌∷◌, ◌≡◌, ap, sym, subst, ◌∙◌}
use gtirb_pprinter.Prelude.Result.{Fault, null, ok}
use gtirb_pprinter.Capstone.{Capstone}
use gtirb_pprinter.Gtirb.{Module}
use gtirb_pprinter.Layout.Ir.{Section}
use gtirb_pprinter.Printer.{Printer, Arch, create}
use gtirb_pprinter.Blocks.{print}
use gtirb_pprinter.Registry.{
  Registry, PrettyPrinter, empty, register_all, configure, default_printing_policy,
}
use gtirb_pprinter.Registry.Defaults.{Among, syntax_of}
use gtirb_pprinter.Total.{IsPrintable}
use gtirb_pprinter.Total.Printing.{print_total}
use gtirb_pprinter.Loading.{
  Ir, World, Library, Loaded, not_found, null_pointer, loaded, load, lay_out_missing, views,
}
use gtirb_pprinter.Driver.{
  Options, Paths, module_at, Outcome, exit_failure, standard_output, configured, run,
}
use gtirb_pprinter.Driver.Runs.{run-register_all}

-- what boost makes of the command line: an exception, the request for help, or the options, with the input
pub data CommandLine : Type 0 where
  malformed : CommandLine
  help : CommandLine
  options : Option Text → Options → CommandLine

pub data Ended : Type 0 where
  aborted : Fault → Ended
  ended : Outcome → Ended

pub record Surroundings : Type 0 where
  pub world : World
  pub library : Library
  pub registry : Registry
  pub capstone : Capstone
  pub fresh : PrettyPrinter
  pub paths : Paths

abbrev pub with_loaded : Surroundings → Options → Loaded → Option Ended
with_loaded s o not_found = some (ended exit_failure)
with_loaded s o null_pointer = some (aborted null)
with_loaded s o (loaded ir) = elim (lay_out_missing s.library ir.graph ir.modules) [
  | none ↦ none
  | some laid ↦
      some (ended (run s.paths s.fresh s.registry s.capstone o (views s.library ir.graph laid)))
]

-- `none` is fuel that ran out.
unfoldable pub main : Surroundings → CommandLine → Option Ended
main s malformed = some (ended exit_failure)
main s help = some (ended exit_failure)
main s (options input o) = with_loaded s o (load s.world input)

-- the printer of class `a` for a module, under the policy that the options leave
abbrev pub printer_for : Surroundings → Options → Arch → Module → Module → Printer
printer_for s o a first n =
    create a s.capstone n
      (configure (configured s.fresh s.registry o first) (default_printing_policy a))

-- In whatever order the classes were registered: with an IR that is loaded and laid out, the format "elf", the syntax of
-- a registered class and no output file, `main` writes a text to the standard output, which is the listing of the
-- chosen module by a printer of this class, if that module is printable.
pub main-listing :
    (s : Surroundings) (o : Options) (input : Option Text) (order : List Arch) (a : Arch) (ir : Ir)
    (laid : List (List Section)) (m n : Module) (ms : List Module)
    → s.registry ≡ register_all order empty
    → Among a order
    → load s.world input ≡ loaded ir
    → lay_out_missing s.library ir.graph ir.modules ≡ some laid
    → views s.library ir.graph laid ≡ m ∷ ms
    → o.format ≡ some (codes "elf")
    → o.syntax ≡ some (syntax_of a)
    → o.asm ≡ none
    → module_at (m ∷ ms) o.module_index ≡ some n
    → IsPrintable (printer_for s o a m n)
    → (t : Text) × (print (printer_for s o a m n) ≡ ok t)
      × (main s (options input o) ≡ some (ended (standard_output (ok t))))
unfolding main
main-listing s o input order a ir laid m n ms r i l e v hf hs ha hn p =
    let (t, q) = print_total (printer_for s o a m n) p in
    let shown =
      subst
        (λ (x : Registry).
          run s.paths s.fresh x s.capstone o (m ∷ ms)
          ≡ standard_output (
              print (
                create a s.capstone n
                  (configure (configured s.fresh x o m) (default_printing_policy a)))))
        (sym r) (run-register_all s.paths s.fresh order s.capstone o m n ms a i hf hs ha hn) in
    (
      t,
      q,
      rw (l, main)
          (rw (e, v, with_loaded)
            (ap (λ (x : Outcome). some (ended x)) (shown ∙ ap standard_output q))),
    )
