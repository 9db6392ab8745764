-- ===== src/Examples/Programs.antt =====
-- Runs of the theorems on the three programs and on the linker.
use gtirb_pprinter.Prelude.{
  ℕ, ◌==◌, Bool, true, false, All, Text, codes, none, some, List, [], ◌∷◌, ◌≡◌, ◌↔◌, refl, arith,
  inl, inr, Bool-cases,
}
use gtirb_pprinter.Prelude.Int.{pos}
use gtirb_pprinter.Prelude.Result.{Output, ok}
use gtirb_pprinter.Gtirb.{Module}
use gtirb_pprinter.Printer.{intel, create, is_ambiguous_symbol, get_container_section}
use gtirb_pprinter.Blocks.{print}
use gtirb_pprinter.Registry.{empty, register_all}
use gtirb_pprinter.Instruction.{is_stos}
use gtirb_pprinter.Total.{IsPrintable}
use gtirb_pprinter.Loading.{load, lay_out_missing}
use gtirb_pprinter.Binary.{
  Store, TempFile, Toolchain, Call, returned, names_of, files_of, modules_of, build_compiler_args,
  link, create_files, remove_files, erase_file, write_file, write_modules,
}
use gtirb_pprinter.Binary.Linking.{IsPrinted, IsLeft, link-IsLeft, link-IsPrinted}
use gtirb_pprinter.BinaryDriver
use gtirb_pprinter.BinaryDriver.Failures.{Fails, main-failed}
use gtirb_pprinter.BinaryDriver.Runs.{IsOrdinary, HoldsListing, printer_for, main-runs}
use gtirb_pprinter.Driver.{Options, standard_output}
use gtirb_pprinter.Driver.Program
use gtirb_pprinter.Driver.Program.{main-listing}
use gtirb_pprinter.Examples.Layouts.{world, library, one_module, one_ir, no_graph, loads}
use gtirb_pprinter.Examples.{capstone, sample, text_section}

abbrev tools : Toolchain
tools = record {
  file_system = record {
    append = λ a b. a;
    is_symlink = λ path. false;
    read_symlink = λ path. path;
    is_regular_file = λ path. true;
  };
  link_fuel = 1;
  compiler = codes "gcc";
  system = λ call. 0;
  writes = λ call. (codes "out", codes "ELF") ∷ call.seen;
}

abbrev temp : ℕ → TempFile
temp k = record { name = b't' ∷ k ∷ []; is_open = true }

abbrev entries : List (TempFile × Module)
entries = (temp 0, sample) ∷ (temp 1, sample) ∷ []

abbrev assembly : Module → Output
assembly m = ok (codes "nop")

abbrev other_file : Store
other_file = (codes "keep", codes "x") ∷ []

abbrev both_written : Store
both_written = (b't' ∷ 1 ∷ [], codes "nop") ∷ (b't' ∷ 0 ∷ [], codes "nop") ∷ other_file

-- the directory at the end, with the file that the compiler made
abbrev with_output : Store
with_output = (codes "out", codes "ELF") ∷ other_file

abbrev arguments : List Text
arguments = codes "-o" ∷ codes "out" ∷ (b't' ∷ 0 ∷ []) ∷ (b't' ∷ 1 ∷ []) ∷ []

abbrev gcc_call : Call
gcc_call = record { compiler = codes "gcc"; arguments = arguments; seen = both_written }

linked :
    link tools assembly (codes "out") [] [] entries other_file
    ≡ some (returned (pos 0) (some gcc_call) with_output)
unfolding link create_files write_modules write_file erase_file remove_files build_compiler_args
linked = refl

link-IsLeft_example :
    IsLeft tools (files_of entries) other_file (codes "out") (some gcc_call) with_output
link-IsLeft_example =
    link-IsLeft tools (codes "out") [] [] entries assembly other_file with_output (pos 0)
      (some gcc_call) (codes "out") linked

link-IsPrinted_example :
    All (IsPrinted assembly both_written) entries
    × (◌≡◌ {A = Bool} false false)
    × (pos 0 ≡ pos (tools.system gcc_call))
    × (gcc_call.compiler ≡ tools.compiler)
    × (build_compiler_args tools.file_system 1
          (codes "out")
          (names_of entries)
          []
          []
          (modules_of entries)
        ≡ some arguments)
link-IsPrinted_example =
    link-IsPrinted tools (codes "out") [] [] entries assembly other_file with_output (pos 0)
      gcc_call (refl, (refl, tt)) linked

abbrev surroundings : BinaryDriver.Surroundings
surroundings = record {
  world = world;
  library = library;
  registry = register_all (intel ∷ []) empty;
  capstone = capstone;
  fresh = record { skip_funcs = []; keep_funcs = []; format = []; syntax = []; debug = false };
  tools = tools;
  temp_file = temp;
  files = other_file;
}

abbrev binary_options : BinaryDriver.BinaryOptions
binary_options = record {
  ir = some (codes "in.gtirb");
  binary = some (codes "out");
  syntax = some (codes "intel");
  keep_functions = [];
  skip_functions = [];
  compiler_args = [];
  library_paths = [];
}

laid_out : lay_out_missing library no_graph (one_module ∷ []) ≡ some (one_module ∷ [])
unfolding lay_out_missing
laid_out = refl

main-failed_example :
    (BinaryDriver.main surroundings (BinaryDriver.options binary_options)
      ≡ some BinaryDriver.failed)
    ↔ Fails surroundings binary_options (load world (some (codes "in.gtirb"))) (one_module ∷ [])
main-failed_example = main-failed surroundings binary_options (one_module ∷ []) (rw loads laid_out)

ordinary : IsOrdinary surroundings binary_options (intel ∷ []) intel sample
ordinary = record { registry = refl; among = inl refl; format = refl; syntax = refl }

sample-IsPrintable : IsPrintable (printer_for surroundings binary_options intel sample sample)
unfolding is_ambiguous_symbol get_container_section is_stos printer_for create
sample-IsPrintable = record {
  named = λ a. elim (Bool-cases (a == 8)) [ inl e ↦ rw e (inl refl, tt) | inr e ↦ rw e tt ];
  expressions = λ a. tt;
  nodes = λ u s h. ground (arith, h);
  prefixes = tt;
  decoded = (tt, (tt, (tt, tt)));
  placed = ((text_section, refl, inr tt), ((text_section, refl, inr tt), tt));
}

built :
    build_compiler_args tools.file_system 1
      (codes "out")
      (names_of ((temp 0, sample) ∷ []))
      []
      []
      (modules_of ((temp 0, sample) ∷ []))
    ≡ some (codes "-o" ∷ codes "out" ∷ (b't' ∷ 0 ∷ []) ∷ [])
unfolding build_compiler_args
built = refl

main-runs_example :
    (call : Call) × (after : Store) × (BinaryDriver.main surroundings
        (BinaryDriver.options binary_options)
      ≡ some (BinaryDriver.finished (some (returned (pos 0) (some call) after))))
    × (call.arguments ≡ codes "-o" ∷ codes "out" ∷ (b't' ∷ 0 ∷ []) ∷ [])
    × All
        (HoldsListing surroundings binary_options (intel ∷ []) intel sample ordinary call.seen)
        (BinaryDriver.with_temps temp 0 (sample ∷ []))
unfolding BinaryDriver.with_temps
main-runs_example =
    main-runs surroundings binary_options (intel ∷ []) intel sample ordinary one_ir []
      (one_module ∷ []) (codes "out") (codes "-o" ∷ codes "out" ∷ (b't' ∷ 0 ∷ []) ∷ []) loads
      laid_out refl refl (sample-IsPrintable, tt) (λ k. refl) (refl, tt) refl built

abbrev listing_surroundings : Program.Surroundings
listing_surroundings = record {
  world = world;
  library = library;
  registry = register_all (intel ∷ []) empty;
  capstone = capstone;
  fresh = record { skip_funcs = []; keep_funcs = []; format = []; syntax = []; debug = false };
  paths = record {
    can_open = λ f. true;
    has_filename = λ f. true;
    filename = λ f. f;
    replace_filename = λ f name. name;
  };
}

abbrev listing_options : Options
listing_options = record {
  format = some (codes "elf");
  syntax = some (codes "intel");
  debug = false;
  keep_functions = [];
  skip_functions = codes "main" ∷ [];
  asm = none;
  module_index = pos 0;
}

listing-IsPrintable :
    IsPrintable (Program.printer_for listing_surroundings listing_options intel sample sample)
unfolding is_ambiguous_symbol get_container_section is_stos create
listing-IsPrintable = record {
  named = λ a. elim (Bool-cases (a == 8)) [ inl e ↦ rw e (inl refl, tt) | inr e ↦ rw e tt ];
  expressions = λ a. tt;
  nodes = λ u s h. ground (arith, h);
  prefixes = tt;
  decoded = (tt, (tt, (tt, tt)));
  placed = ((text_section, refl, inr tt), ((text_section, refl, inr tt), tt));
}

main-listing_example :
    (t : Text) × (print
        (Program.printer_for listing_surroundings listing_options intel sample sample)
      ≡ ok t)
    × (Program.main listing_surroundings (Program.options (some (codes "in.gtirb")) listing_options)
        ≡ some (Program.ended (standard_output (ok t))))
main-listing_example =
    main-listing listing_surroundings listing_options (some (codes "in.gtirb")) (intel ∷ []) intel
      one_ir (one_module ∷ []) sample sample [] refl (inl refl) loads laid_out refl refl refl refl
      refl listing-IsPrintable
