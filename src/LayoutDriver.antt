-- ===== src/LayoutDriver.antt =====
-- src/gtirb_layout/driver/gtirb_layout.cpp: `main`.
pub mod Runs
use gtirb_pprinter.Prelude.{
  Bool, true, false, if◌then◌else◌, Text, codes, eq_text, Option, none, some, List, [], ◌∷◌,
}
use gtirb_pprinter.Prelude.Result.{Fault, null}
use gtirb_pprinter.Layout.Ir.{Section, Cfg}
use gtirb_pprinter.Layout.{layout_module, remove_module_layout}
use gtirb_pprinter.Loading.{Ir, World, Loaded, not_found, null_pointer, loaded, load}

-- the options, once both files are given
pub record LayoutOptions : Type 0 where
  pub input : Text
  pub output : Text
  pub remove_layout : Bool

-- what boost makes of the command line: an exception, the request for help, or the options
pub data CommandLine : Type 0 where
  malformed : CommandLine
  help : CommandLine
  options : LayoutOptions → CommandLine

pub data Destination : Type 0 where
  standard_output : Destination
  file : Text → Destination

-- How `main` ends: with a fault, or with a status, `true` for EXIT_SUCCESS, and the IR that
-- was saved, if one was.
pub data Ended : Type 0 where
  crashed : Fault → Ended
  exited : Bool → Option (Destination × Ir) → Ended

abbrev pub is_dash : Text → Bool
is_dash path = eq_text path (codes "-")

-- the loop that lays the modules out, up to the first that fails
unfoldable pub layout_all : Cfg → List (List Section) → Option (List (List Section) × Bool)
layout_all cfg [] = some ([], true)
layout_all cfg (m ∷ ms) = elim (layout_module cfg m) [
  | none ↦ none
  | some (m', false) ↦ some (m' ∷ ms, false)
  | some (m', true) ↦ elim (layout_all cfg ms) [
    | none ↦ none
    | some (rest, ok) ↦ some (m' ∷ rest, ok)
  ]
]

-- the loop that removes the layouts, up to the first that fails
unfoldable pub remove_all : List (List Section) → List (List Section) × Bool
remove_all [] = ([], true)
remove_all (m ∷ ms) =
    let (m', ok) = remove_module_layout m in
    let (rest, all_ok) = remove_all ms in if ok then (m' ∷ rest, all_ok) else (m' ∷ ms, false)

unfoldable pub change_modules : LayoutOptions → Ir → Option (List (List Section) × Bool)
change_modules o ir =
    if o.remove_layout then some (remove_all ir.modules) else layout_all ir.graph ir.modules

abbrev pub destination : Text → Destination
destination path = if is_dash path then standard_output else file path

-- whether the stream is good after the IR is saved to it
abbrev pub is_good : World → Text → Bool
is_good w path = if is_dash path then w.output_is_good else w.can_write path

unfoldable pub save : World → Text → Ir → Ended
save w path ir = exited (is_good w path) (some (destination path, ir))

abbrev pub save_changed : World → Text → Ir → Option (List (List Section) × Bool) → Option Ended
save_changed w path ir none = none
save_changed w path ir (some (ms, false)) = some (exited false none)
save_changed w path ir (some (ms, true)) = some (save w path (record ir { modules = ms }))

abbrev pub with_loaded : World → LayoutOptions → Loaded → Option Ended
with_loaded w o not_found = some (exited false none)
with_loaded w o null_pointer = some (crashed null)
with_loaded w o (loaded ir) = save_changed w o.output ir (change_modules o ir)

-- the input that the option names
abbrev pub input_of : LayoutOptions → Option Text
input_of o = if is_dash o.input then none else some o.input

-- `none` is fuel that ran out.
unfoldable pub main : World → CommandLine → Option Ended
main w malformed = some (exited false none)
main w help = some (exited false none)
main w (options o) = with_loaded w o (load w (input_of o))
