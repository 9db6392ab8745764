-- ===== src/BinaryDriver.antt =====
-- src/gtirb_pprinter/driver/binary_printer.cpp: `main`.
pub mod Failures
pub mod Runs
use gtirb_pprinter.Prelude.{
  ℕ, ◌+◌, Bool, true, false, if◌then◌else◌, Text, Option, none, some, List, [], ◌∷◌,
}
use gtirb_pprinter.Prelude.Int.{pos}
use gtirb_pprinter.Prelude.Result.{Fault, null}
use gtirb_pprinter.Capstone.{Capstone}
use gtirb_pprinter.Gtirb.{Module}
use gtirb_pprinter.Loading.{
  Ir, World, Library, Loaded, not_found, null_pointer, loaded, load, lay_out_missing, views,
}
use gtirb_pprinter.Registry.{Registry, PrettyPrinter, get_registered_targets}
use gtirb_pprinter.Registry
use gtirb_pprinter.Binary.{TempFile, Store, Toolchain, Call, Linked, crashed, returned, link}
use gtirb_pprinter.Driver.{Options, choose_target, mem_target, configured}

-- the options; a list is empty if its option is not given
pub record BinaryOptions : Type 0 where
  pub ir : Option Text
  pub binary : Option Text
  pub syntax : Option Text
  pub keep_functions : List Text
  pub skip_functions : List Text
  pub compiler_args : List Text
  pub library_paths : List Text

pub data CommandLine : Type 0 where
  malformed : CommandLine
  help : CommandLine
  options : BinaryOptions → CommandLine

-- How `main` ends: with a fault, with EXIT_FAILURE, or with EXIT_SUCCESS and what `link` did, if it was called.
pub data Ended : Type 0 where
  aborted : Fault → Ended
  failed : Ended
  finished : Option Linked → Ended

-- What is around `main`: the compiler, the temporary files that `mkstemps` makes, by their number, and the
-- temporary directory.
pub record Surroundings : Type 0 where
  pub world : World
  pub library : Library
  pub registry : Registry
  pub capstone : Capstone
  pub fresh : PrettyPrinter
  pub tools : Toolchain
  pub temp_file : ℕ → TempFile
  pub files : Store

-- The options as those of the other driver: there is no format, and no option `debug` is declared, so that its
-- count is 0.
abbrev pub printer_options : BinaryOptions → Options
printer_options o = record {
  format = none;
  syntax = o.syntax;
  debug = false;
  keep_functions = o.keep_functions;
  skip_functions = o.skip_functions;
  asm = none;
  module_index = pos 0;
}

-- the temporary file of each module
unfoldable pub with_temps : (ℕ → TempFile) → ℕ → List Module → List (TempFile × Module)
with_temps temp i [] = []
with_temps temp i (m ∷ ms) = (temp i, m) ∷ with_temps temp (i + 1) ms

-- The status of `link` is not looked at.
abbrev pub after_link : Option Linked → Option Ended
after_link none = none
after_link (some (crashed e)) = some (aborted e)
after_link (some (returned s c files)) = some (finished (some (returned s c files)))

unfoldable pub link_binary :
    Surroundings → BinaryOptions → PrettyPrinter → List Module → Option Ended
link_binary s o pp ms = elim o.binary [
  | none ↦ some (finished none)
  | some path ↦ after_link (
      link s.tools (Registry.print s.registry s.capstone pp) path o.compiler_args o.library_paths
        (with_temps s.temp_file 0 ms) s.files)
]

-- `main` from the choice of the target on
unfoldable pub print_binary : Surroundings → BinaryOptions → List Module → Option Ended
print_binary s o [] = some failed
print_binary s o (m ∷ ms) =
    if mem_target (choose_target s.registry (printer_options o) m)
      (get_registered_targets s.registry)
    then link_binary s o (configured s.fresh s.registry (printer_options o) m) (m ∷ ms)
    else some failed

abbrev pub with_loaded : Surroundings → BinaryOptions → Loaded → Option Ended
with_loaded s o not_found = some failed
with_loaded s o null_pointer = some (aborted null)
with_loaded s o (loaded ir) = elim (lay_out_missing s.library ir.graph ir.modules) [
  | none ↦ none
  | some laid ↦ print_binary s o (views s.library ir.graph laid)
]

-- `none` is fuel that ran out.
unfoldable pub main : Surroundings → CommandLine → Option Ended
main s malformed = some failed
main s help = some failed
main s (options o) = with_loaded s o (load s.world o.ir)
