-- ===== src/Examples/Layouts.antt =====
-- Runs of the theorems on loading and on src/gtirb_layout/driver/gtirb_layout.cpp.
use gtirb_pprinter.Prelude.{true, false, codes, none, some, List, [], ◌∷◌, ◌≡◌, refl, arith}
use gtirb_pprinter.Layout.Ir.{Section, Cfg}
use gtirb_pprinter.Loading.{Ir, World, Library, loaded, load, lay_out_missing}
use gtirb_pprinter.Loading.Layouts.{Pairwise, IsSmall, IsPrepared, lay_out_missing_lem}
use gtirb_pprinter.LayoutDriver.{LayoutOptions, Ended, options, main}
use gtirb_pprinter.LayoutDriver.Runs.{RunEnds, main_lem}
use gtirb_pprinter.Examples.{sample}

-- a module with an interval of three bytes that has no address; to the printer it is the sample
abbrev pub one_module : List Section
one_module =
    record {
      uuid = 5;
      byte_intervals =
          record {
            uuid = 1;
            address = none;
            size = 3;
            bytes = 1 ∷ 2 ∷ 3 ∷ [];
            code_blocks = [];
            data_blocks = [];
            symbolic_expressions = [];
          }
          ∷ [];
    }
    ∷ []

abbrev pub no_graph : Cfg
no_graph = record { vertices = []; out_edges = λ v. [] }

abbrev pub one_ir : Ir
one_ir = record { modules = one_module ∷ []; graph = no_graph }

abbrev pub world : World
world = record {
  exists = λ path. true;
  load_file = λ path. some one_ir;
  load_input = some one_ir;
  can_write = λ path. true;
  output_is_good = true;
}

abbrev pub library : Library
library = record { get_address = λ m. some 0; view = λ cfg m. sample }

abbrev unplaced_library : Library
unplaced_library = record { get_address = λ m. none; view = λ cfg m. sample }

pub loads : load world (some (codes "in.gtirb")) ≡ loaded one_ir
unfolding load
loads = refl

one_module-IsSmall : IsSmall one_module
one_module-IsSmall = omega arith

lay_out_missing_lem_example :
    (laid : List (List Section)) × (lay_out_missing unplaced_library no_graph (one_module ∷ [])
      ≡ some laid)
    × Pairwise (IsPrepared unplaced_library no_graph) (one_module ∷ []) laid
lay_out_missing_lem_example =
    lay_out_missing_lem unplaced_library no_graph (one_module ∷ []) (one_module-IsSmall, tt)

abbrev layout_options : LayoutOptions
layout_options = record { input = codes "in.gtirb"; output = codes "-"; remove_layout = false }

main_lem_example :
    (e : Ended) × (main world (options layout_options) ≡ some e) × RunEnds world layout_options e
main_lem_example = main_lem world layout_options (rw loads (one_module-IsSmall, tt))
