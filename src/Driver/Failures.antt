-- ===== src/Driver/Failures.antt =====
-- When src/gtirb_pprinter/driver/pretty_printer.cpp ends with a failure.
use gtirb_pprinter.Prelude.{false, Text, none, some, List, [], ◌∷◌, length, ◌≤◌, ◌≡◌, ◌⊎◌}
use gtirb_pprinter.Prelude.Int.{ℤ, pos, negsuc}
use gtirb_pprinter.Capstone.{Capstone}
use gtirb_pprinter.Gtirb.{Module}
use gtirb_pprinter.Registry.{Registry, get_registered_targets}
use gtirb_pprinter.Driver.{Options, Paths, choose_target, mem_target}

-- no module has this number
abbrev pub Beyond : ℤ → List Module → Type 0
Beyond (pos n) ms = length ms ≤ n
Beyond (negsuc n) ms = Unit

-- A path that has no file's name is given, or none is and no module has the number.
abbrev pub NoOutput : Paths → Options → List Module → Type 0
NoOutput paths o ms =
    ((path : Text) × (o.asm ≡ some path) × (paths.has_filename path ≡ false))
    ⊎ ((o.asm ≡ none) × Beyond o.module_index ms)

-- no modules, a target that is not registered, or no output
abbrev pub Fails : Paths → Registry → Options → List Module → Type 0
Fails paths r o [] = Unit
Fails paths r o (m ∷ ms) =
    (mem_target (choose_target r o m) (get_registered_targets r) ≡ false)
    ⊎ NoOutput paths o (m ∷ ms)
