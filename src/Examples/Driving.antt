-- ===== src/Examples/Driving.antt =====
-- Runs of the theorems on the drivers, the search for libraries and comments.
use gtirb_pprinter.Prelude.{
  ℕ, ◌==◌, true, false, not, Bool, Text, codes, eq_text, some, [], ◌∷◌, ◌++◌, ◌≡◌, refl, arith,
  concat_map,
}
use gtirb_pprinter.Prelude.Int.{negsuc}
use gtirb_pprinter.Gtirb.{Offset}
use gtirb_pprinter.Printer.{Printer}
use gtirb_pprinter.Directives.{comment_line, print_comments}
use gtirb_pprinter.Directives.Comments.{pick, print_comments_lem}
use gtirb_pprinter.Registry.{PrettyPrinter}
use gtirb_pprinter.Binary.{FileSystem, find_library}
use gtirb_pprinter.Binary.Search.{Search, here, via, find_library_lem}
use gtirb_pprinter.Driver.{Options, Paths}
use gtirb_pprinter.Examples.{sample, printer, policy}

abbrev fresh : PrettyPrinter
fresh = record { skip_funcs = []; keep_funcs = []; format = []; syntax = []; debug = false }

abbrev options : Options
options = record {
  format = some (codes "elf");
  syntax = some (codes "att");
  debug = false;
  keep_functions = codes "_start" ∷ [];
  skip_functions = codes "main" ∷ [];
  asm = some (codes "out/");
  module_index = negsuc 0;
}

-- whether a path ends in a file's name: it is not empty and does not end in a slash
abbrev ends_in_name : Text → Bool
ends_in_name [] = false
ends_in_name (c ∷ []) = not (c == b'/')
ends_in_name (c ∷ d ∷ s) = ends_in_name (d ∷ s)

abbrev paths : Paths
paths = record {
  can_open = λ f. true;
  has_filename = ends_in_name;
  filename = λ f. f;
  replace_filename = λ f name. name;
}

-- only /b has the library, and there it is a link to a file
abbrev files : FileSystem
files = record {
  append = λ a b. a ++ (b'/' ∷ b);
  is_symlink = λ path. eq_text path (codes "b/libx.so");
  read_symlink = λ path. codes "c/libx.so.1";
  is_regular_file = λ path. eq_text path (codes "c/libx.so.1");
}

find_library_lem_example :
    Search files
      (codes "libx.so")
      (codes "a" ∷ codes "b" ∷ [])
      (find_library files 2 (codes "libx.so") (codes "a" ∷ codes "b" ∷ []))
find_library_lem_example = find_library_lem files 2 (codes "libx.so") (codes "a" ∷ codes "b" ∷ []) (
  (0, codes "a/libx.so", here refl, omega arith),
  ((1, codes "c/libx.so.1", via refl (here refl), omega arith), tt),
)

abbrev at : ℕ → Offset
at d = record { element = 31; displacement = d }

abbrev commented : Printer
commented = record printer {
  policy = record policy { debug = true };
  module_ = record sample {
    comments = some ((at 0, codes "start") ∷ (at 1, codes "ret") ∷ (at 9, codes "far") ∷ []);
  };
}

print_comments_lem_example :
    print_comments commented (at 1) 4
    ≡ concat_map
        (comment_line (at 1))
        (pick (at 1) 4 ((at 0, codes "start") ∷ (at 1, codes "ret") ∷ (at 9, codes "far") ∷ []))
print_comments_lem_example =
    print_comments_lem commented (at 1) 4
      ((at 0, codes "start") ∷ (at 1, codes "ret") ∷ (at 9, codes "far") ∷ []) refl refl
      ((refl, (refl, tt)), ((refl, tt), (tt, tt))) (omega arith)
