-- ===== src/Loading.antt =====
-- The IR in the three drivers: src/gtirb_pprinter/driver/pretty_printer.cpp,
-- src/gtirb_pprinter/driver/binary_printer.cpp and src/gtirb_layout/driver/gtirb_layout.cpp read it, and the
-- printers lay out the modules that have no address. An IR is its modules, each the list of its sections, and
-- the graph that they share.
pub mod Layouts
use gtirb_pprinter.Prelude.{
  ℕ, Bool, true, false, if◌then◌else◌, Text, Option, none, some, List, [], ◌∷◌, map,
}
use gtirb_pprinter.Gtirb.{Module}
use gtirb_pprinter.Layout.Ir.{Section, Cfg}
use gtirb_pprinter.Layout.{layout_module}

pub record Ir : Type 0 where
  pub modules : List (List Section)
  pub graph : Cfg

-- What is around the drivers: the files, the standard input, and the state of the streams that are written.
-- `IR::load` returns a pointer, null for `none`.
pub record World : Type 0 where
  pub exists : Text → Bool
  pub load_file : Text → Option Ir
  pub load_input : Option Ir
  pub can_write : Text → Bool
  pub output_is_good : Bool

-- What GTIRB says of a module: its address, and the answers to the printer's queries.
pub record Library : Type 0 where
  pub get_address : List Section → Option ℕ
  pub view : Cfg → List Section → Module

pub data Loaded : Type 0 where
  not_found : Loaded
  null_pointer : Loaded
  loaded : Ir → Loaded

abbrev pub from_pointer : Option Ir → Loaded
from_pointer none = null_pointer
from_pointer (some ir) = loaded ir

-- `none` is the standard input.
unfoldable pub load : World → Option Text → Loaded
load w none = from_pointer w.load_input
load w (some path) = if w.exists path then from_pointer (w.load_file path) else not_found

-- The loop over the modules. The result of `layoutModule` is not looked at: a module that could not be laid out
-- stays as it was left. `none` is fuel that ran out.
unfoldable pub lay_out_missing : Library → Cfg → List (List Section) → Option (List (List Section))
lay_out_missing l cfg [] = some []
lay_out_missing l cfg (m ∷ ms) =
    let rest = lay_out_missing l cfg ms in
    elim rest [
      | none ↦ none
      | some laid ↦ elim (l.get_address m) [
        | some a ↦ some (m ∷ laid)
        | none ↦ elim (layout_module cfg m) [ none ↦ none | some (m', ok) ↦ some (m' ∷ laid) ]
      ]
    ]

-- the modules as the printer sees them
abbrev pub views : Library → Cfg → List (List Section) → List Module
views l cfg = map (l.view cfg)
