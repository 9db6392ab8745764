-- ===== src/Examples/Registrations.antt =====
-- Runs of the theorems on registrations, targets and the functions to skip.
use gtirb_pprinter.Prelude.{true, false, codes, contains, some, List, [], ◌∷◌, ◌≡◌, refl}
use gtirb_pprinter.Prelude.Result.{fault, null}
use gtirb_pprinter.Printer.{Arch, intel, att, aarch64}
use gtirb_pprinter.Registry.{
  PrettyPrinter, empty, register_all, register_printer, get_default_syntax, target_for, configure,
  print,
}
use gtirb_pprinter.Registry.Defaults.{Among, factory_for, register_all_lem}
use gtirb_pprinter.Registry.Moved.{register_printer-print}
use gtirb_pprinter.Registry.Policy.{Request, skip, keep, perform, configure_lem}
use gtirb_pprinter.Examples.{capstone, sample, policy}

register_all_lem_example :
    ((a : Arch)
      → Among a (att ∷ aarch64 ∷ intel ∷ [])
      → factory_for a (register_all (att ∷ aarch64 ∷ intel ∷ []) empty) ≡ some (some a))
    × (get_default_syntax (register_all (att ∷ aarch64 ∷ intel ∷ []) empty) (codes "elf")
        ≡ some (codes "intel"))
register_all_lem_example = register_all_lem (att ∷ aarch64 ∷ intel ∷ [])

abbrev chosen : PrettyPrinter
chosen = record {
  skip_funcs = [];
  keep_funcs = [];
  format = codes "elf";
  syntax = codes "masm";
  debug = false;
}

chosen_target :
    target_for
      (register_printer (codes "elf" ∷ []) (codes "intel" ∷ codes "masm" ∷ []) intel true empty)
      chosen
      sample
    ≡ (codes "elf", codes "masm")
unfolding target_for
chosen_target = refl

register_printer-print_example :
    print
      (register_printer (codes "elf" ∷ []) (codes "intel" ∷ codes "masm" ∷ []) intel true empty)
      capstone
      chosen
      sample
    ≡ fault null
register_printer-print_example =
    register_printer-print (codes "elf") (codes "intel") (codes "masm") intel true empty capstone
      chosen sample chosen_target

-- main is to be kept before it is to be skipped, helper is to be skipped
abbrev requests : List Request
requests = keep (codes "main") ∷ skip (codes "helper") ∷ skip (codes "main") ∷ []

configure_lem_example :
    contains (codes "main") (configure (perform requests chosen) policy).skip_functions ≡ false
configure_lem_example = configure_lem requests chosen policy (codes "main")
