-- ===== src/BinaryDriver/Runs.antt =====
-- A run of src/gtirb_pprinter/driver/binary_printer.cpp from the IR to the compiler.
use gtirb_pprinter.Prelude.{
  ℕ, ◌+◌, true, false, All, Text, codes, some, List, [], ◌∷◌, is_empty, ◌≡◌, refl, sym, ap, ◌∙◌,
}
use gtirb_pprinter.Prelude.Int.{pos}
use gtirb_pprinter.Prelude.Result.{ok}
use gtirb_pprinter.Gtirb.{Module, elf}
use gtirb_pprinter.Layout.Ir.{Section}
use gtirb_pprinter.Printer.{Printer, Arch, create}
use gtirb_pprinter.Blocks
use gtirb_pprinter.Registry.{
  PrettyPrinter, find_factory, empty, register_all, configure, default_printing_policy,
  get_module_file_format, get_registered_targets,
}
use gtirb_pprinter.Registry
use gtirb_pprinter.Registry.Defaults.{Among, syntax_of, target_of, register_all_lem}
use gtirb_pprinter.Total.{IsPrintable}
use gtirb_pprinter.Total.Printing.{print_total}
use gtirb_pprinter.Loading.{Ir, loaded, load, lay_out_missing, views}
use gtirb_pprinter.Binary.{
  Store, TempFile, Call, Linked, returned, names_of, modules_of, build_compiler_args, link,
}
use gtirb_pprinter.Binary.Store.{lookup}
use gtirb_pprinter.Binary.Linking.{DistinctNames, IsPrinted, link-IsPrinted, link-runs}
use gtirb_pprinter.Driver.{choose_target, mem_target, configured}
use gtirb_pprinter.Driver.Runs.{registered, configured-target_for, print-slot}
use gtirb_pprinter.BinaryDriver.{
  BinaryOptions, options, finished, Surroundings, printer_options, with_temps, after_link,
  with_loaded, link_binary, print_binary, main,
}

-- the printer of class `a` for a module, under the policy that the options leave
unfoldable pub printer_for : Surroundings → BinaryOptions → Arch → Module → Module → Printer
printer_for s o a first n = create a s.capstone n (
    configure (configured s.fresh s.registry (printer_options o) first) (default_printing_policy a))

-- A run whose classes are registered in some order, with the syntax of one of them, on ELF modules.
pub record IsOrdinary (s : Surroundings) (o : BinaryOptions) (order : List Arch) (a : Arch)
    (m : Module) : Type 0 where
  pub registry : s.registry ≡ register_all order empty
  pub among : Among a order
  pub format : m.file_format ≡ elf
  pub syntax : o.syntax ≡ some (syntax_of a)

module _ (s : Surroundings) (o : BinaryOptions) (order : List Arch) (a : Arch) (m : Module)
    (w : IsOrdinary s o order a m) where
  abbrev pp : PrettyPrinter
  pp = configured s.fresh s.registry (printer_options o) m

  slot : find_factory (target_of a) s.registry.factories ≡ some (some a)
  slot = rw w.registry ((register_all_lem order).0 a w.among)

  chosen_target : choose_target s.registry (printer_options o) m ≡ target_of a
  unfolding choose_target get_module_file_format
  chosen_target = rw (w.format, w.syntax) refl

  is_registered :
      mem_target
        (choose_target s.registry (printer_options o) m)
        (get_registered_targets s.registry)
      ≡ true
  is_registered = rw chosen_target (registered s.registry (target_of a) (some a) slot)

  print-printer_for :
      (n : Module)
      → Registry.print s.registry s.capstone pp n ≡ Blocks.print (printer_for s o a m n)
  unfolding printer_for
  print-printer_for n =
      print-slot s.registry s.capstone pp n (target_of a) a
        (configured-target_for s.fresh s.registry (printer_options o) m n b'e' (codes "lf")
          (syntax_of a) chosen_target)
        slot

  -- the temporary file holds the listing of the module
  abbrev pub HoldsListing : Store → TempFile × Module → Type 0
  HoldsListing files (t, n) =
      (text : Text) × (Blocks.print (printer_for s o a m n) ≡ ok text)
      × (lookup t.name files ≡ some text)

  listings :
      (files : Store) (es : List (TempFile × Module))
      → All (IsPrinted (Registry.print s.registry s.capstone pp) files) es
      → All (HoldsListing files) es
  listings files [] h = tt
  listings files ((t, n) ∷ es) ((_, (text, e, l)), hs) =
      ((text, sym (print-printer_for n) ∙ e, l), listings files es hs)

  printed :
      (temp : ℕ → TempFile) (i : ℕ) (ns : List Module)
      → ((k : ℕ) → (temp k).is_open ≡ true)
      → All (λ (n : Module). IsPrintable (printer_for s o a m n)) ns
      → All
          (λ (e : TempFile × Module).
            (e.0.is_open ≡ true)
            × ((text : Text) × (Registry.print s.registry s.capstone pp e.1 ≡ ok text)))
          (with_temps temp i ns)
  unfolding with_temps
  printed temp i [] h p = tt
  printed temp i (n ∷ ns) h (p, ps) =
      let (text, e) = print_total (printer_for s o a m n) p in
      ((h i, (text, print-printer_for n ∙ e)), printed temp (i + 1) ns h ps)

  linked :
      (path : Text) (ms : List Module) (r : Linked)
      → o.binary ≡ some path
      → after_link (
          link s.tools
            (Registry.print s.registry s.capstone pp)
            path
            o.compiler_args
            o.library_paths
            (with_temps s.temp_file 0 (m ∷ ms))
            s.files)
        ≡ some (finished (some r))
      → print_binary s o (m ∷ ms) ≡ some (finished (some r))
  unfolding print_binary link_binary
  linked path ms r b h = rw (is_registered, b, print_binary) h

  loaded-print_binary :
      (ir : Ir) (ms : List Module) (laid : List (List Section))
      → load s.world o.ir ≡ loaded ir
      → lay_out_missing s.library ir.graph ir.modules ≡ some laid
      → views s.library ir.graph laid ≡ ms
      → main s (options o) ≡ print_binary s o ms
  unfolding main
  loaded-print_binary ir ms laid l t v = rw (l, main) (rw (t, v, with_loaded) refl)

  -- A run with an output file, on a first module in ELF and with the syntax of a class that is registered, ends in
  -- success after one call of the compiler, with the arguments that were built; then every temporary
  -- file holds the listing of its module, printed by a printer of that class. For this the IR is loaded
  -- and laid out and has a module, every module is printable, all temporary files open and have different
  -- names, the compiler is found, and its arguments can be built.
  pub main-runs :
      (ir : Ir) (ms : List Module) (laid : List (List Section)) (path : Text) (args : List Text)
      → load s.world o.ir ≡ loaded ir
      → lay_out_missing s.library ir.graph ir.modules ≡ some laid
      → views s.library ir.graph laid ≡ m ∷ ms
      → o.binary ≡ some path
      → All (λ (n : Module). IsPrintable (printer_for s o a m n)) (m ∷ ms)
      → ((k : ℕ) → (s.temp_file k).is_open ≡ true)
      → DistinctNames (with_temps s.temp_file 0 (m ∷ ms))
      → is_empty s.tools.compiler ≡ false
      → build_compiler_args s.tools.file_system s.tools.link_fuel path
          (names_of (with_temps s.temp_file 0 (m ∷ ms)))
          o.compiler_args
          o.library_paths
          (modules_of (with_temps s.temp_file 0 (m ∷ ms)))
        ≡ some args
      → (call : Call) × (after : Store) × (main s (options o)
          ≡ some (finished (some (returned (pos (s.tools.system call)) (some call) after))))
        × (call.arguments ≡ args)
        × All (HoldsListing call.seen) (with_temps s.temp_file 0 (m ∷ ms))
  main-runs ir ms laid path args l t v b p opens d c q =
      let es = with_temps s.temp_file 0 (m ∷ ms) in
      let print = Registry.print s.registry s.capstone pp in
      let (call, after, e, _, same) =
        link-runs s.tools path o.compiler_args o.library_paths es print s.files args
          (printed s.temp_file 0 (m ∷ ms) opens p) c q in
      let seen =
        link-IsPrinted s.tools path o.compiler_args o.library_paths es print s.files after
          (pos (s.tools.system call)) call d e in
      let end = returned (pos (s.tools.system call)) (some call) after in
      (
        call,
        after,
        loaded-print_binary ir (m ∷ ms) laid l t v ∙ linked path ms end b (ap after_link e),
        same,
        listings call.seen es seen.0,
      )
