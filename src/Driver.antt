-- ===== src/Driver.antt =====
-- src/gtirb_pprinter/driver/pretty_printer.cpp: names of output files, the choice of the target,
-- of the functions to skip and of the module to print.
pub mod Failures
pub mod Files
pub mod Runs
pub mod Program
use gtirb_pprinter.Prelude.{
  ℕ, zero, suc, ◌+◌, ◌==◌, if◌then◌else◌, Bool, true, false, not, ◌&&◌, ◌||◌, Text, codes, Option,
  none, some, List, [], ◌∷◌, ◌++◌, get_elem?, is_empty, length,
}
use gtirb_pprinter.Prelude.Number.{dec}
use gtirb_pprinter.Prelude.Int.{ℤ, pos, negsuc}
use gtirb_pprinter.Prelude.Result.{Result, Output, Fault, ok, fault, out_of_range, ◌>>=◌}
use gtirb_pprinter.Capstone.{Capstone}
use gtirb_pprinter.Gtirb.{Module}
use gtirb_pprinter.Registry.{
  Registry, Target, PrettyPrinter, eq_target, get_registered_targets, get_module_file_format,
  get_default_syntax, value_or_empty, set_target, set_debug, keep_function, skip_function,
}
use gtirb_pprinter.Registry

-- `rfind('.')`: the text before the last dot, and the dot with what follows
unfoldable pub split_last_dot : Text → Option (Text × Text)
split_last_dot [] = none
split_last_dot (c ∷ s) = elim (split_last_dot s) [
  | some (a, b) ↦ some (c ∷ a, b)
  | none ↦ if c == b'.' then some ([], c ∷ s) else none
]

-- `getAsmFileName` on the last component of the path. Without a dot the number is appended, and
-- then inserted at `npos`, which throws.
unfoldable pub get_asm_file_name : Text → ℕ → Result Text
unfolding split_last_dot
get_asm_file_name filename zero = ok filename
get_asm_file_name filename (suc i) = elim (split_last_dot filename) [
  | none ↦ fault out_of_range
  | some (stem, extension) ↦ ok (stem ++ (dec (suc i) ++ extension))
]

-- The paths of the file system: what `fs::path` and opening a file answer.
pub record Paths : Type 0 where
  pub can_open : Text → Bool
  pub has_filename : Text → Bool
  pub filename : Text → Text
  pub replace_filename : Text → Text → Text

-- the options of the command line that reach the printer
pub record Options : Type 0 where
  pub format : Option Text
  pub syntax : Option Text
  pub debug : Bool
  pub keep_functions : List Text
  pub skip_functions : List Text
  pub asm : Option Text
  pub module_index : ℤ

abbrev pub or_else : Option Text → Text → Text
or_else none d = d
or_else (some s) d = s

unfoldable pub choose_target : Registry → Options → Module → Target
choose_target r o m =
    let f = or_else o.format (get_module_file_format m.file_format) in
    (f, or_else o.syntax (value_or_empty (get_default_syntax r f)))

abbrev pub mem_target : Target → List Target → Bool
mem_target t [] = false
mem_target t (u ∷ us) = eq_target u t || mem_target t us

pub keep_all : List Text → PrettyPrinter → PrettyPrinter
keep_all [] pp = pp
keep_all (f ∷ fs) pp = keep_all fs (keep_function f pp)

pub skip_all : List Text → PrettyPrinter → PrettyPrinter
skip_all [] pp = pp
skip_all (f ∷ fs) pp = skip_all fs (skip_function f pp)

-- the printer as `main` configures it; `fresh` is what the default constructor leaves
unfoldable pub configured : PrettyPrinter → Registry → Options → Module → PrettyPrinter
unfolding keep_all skip_all
configured fresh r o m =
    skip_all o.skip_functions
      (keep_all o.keep_functions (set_target (choose_target r o m) (set_debug o.debug fresh)))

-- The files that are written, in order, and the fault that ended the loop, if any: that of a name
-- or of a printer. A file that cannot be opened is reported and left out; what a printer wrote
-- before it failed is not modelled.
abbrev pub Files : Type 0
Files = List (Text × Text) × Option Fault

abbrev and_file : Text × Text → Files → Files
and_file f (fs, e) = (f ∷ fs, e)

abbrev with_text : Text → Output → Files → Files
with_text name (fault e) rest = ([], some e)
with_text name (ok text) rest = and_file (name, text) rest

abbrev with_name : (Text → Bool) → Result Text → Output → Files → Files
with_name can_open (fault e) text rest = ([], some e)
with_name can_open (ok name) text rest = if can_open name then with_text name text rest else rest

-- `getAsmFileName` on a whole path
unfoldable pub asm_path : Paths → Text → ℕ → Result Text
asm_path paths path zero = ok path
asm_path paths path (suc i) = do
  name ← get_asm_file_name (paths.filename path) (suc i)
  ok (paths.replace_filename path name)

pub print_files : Paths → Registry → Capstone → PrettyPrinter → Text → ℕ → List Module → Files
unfolding asm_path
print_files paths r cs pp path i [] = ([], none)
print_files paths r cs pp path i (m ∷ ms) =
    with_name paths.can_open (asm_path paths path i) (Registry.print r cs pp m)
      (print_files paths r cs pp path (i + 1) ms)

-- the module whose number is the option's, which is an `int`
abbrev pub module_at : List Module → ℤ → Option Module
module_at ms (pos n) = get_elem? ms n
module_at ms (negsuc n) = none

-- what `main` ends with: a failure, the standard output, or files
pub data Outcome : Type 0 where
  exit_failure : Outcome
  standard_output : Output → Outcome
  files : Files → Outcome

pub output_of : Paths → Registry → Capstone → PrettyPrinter → Options → List Module → Outcome
unfolding print_files
output_of paths r cs pp o ms = elim o.asm [
  | some path ↦
      if paths.has_filename path then files (print_files paths r cs pp path 0 ms) else exit_failure
  | none ↦ elim (module_at ms o.module_index) [
    | none ↦ exit_failure
    | some m ↦ standard_output (Registry.print r cs pp m)
  ]
]

-- `main` after the IR is loaded and laid out
unfoldable pub run : Paths → PrettyPrinter → Registry → Capstone → Options → List Module → Outcome
unfolding output_of
run paths fresh r cs o [] = exit_failure
run paths fresh r cs o (m ∷ ms) =
    if mem_target (choose_target r o m) (get_registered_targets r)
    then output_of paths r cs (configured fresh r o m) o (m ∷ ms)
    else exit_failure
