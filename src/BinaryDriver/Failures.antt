-- ===== src/BinaryDriver/Failures.antt =====
-- When src/gtirb_pprinter/driver/binary_printer.cpp ends with a failure.
use gtirb_pprinter.Prelude.{
  false, Option, none, some, List, [], ◌∷◌, ◌≡◌, ◌↔◌, inl, inr, refl, arith, Bool-cases,
  Option-cases,
}
use gtirb_pprinter.Gtirb.{Module}
use gtirb_pprinter.Layout.Ir.{Section}
use gtirb_pprinter.Loading.{Loaded, not_found, null_pointer, loaded, load, lay_out_missing, views}
use gtirb_pprinter.Registry.{get_registered_targets}
use gtirb_pprinter.Registry
use gtirb_pprinter.Binary.{Linked, crashed, returned}
use gtirb_pprinter.Driver.{choose_target, mem_target}
use gtirb_pprinter.BinaryDriver.{
  BinaryOptions, options, failed, Surroundings, printer_options, after_link, link_binary,
  print_binary, with_loaded, main,
}

after_link-finished : (r : Option Linked) → after_link r ≡ some failed → ⊥
after_link-finished none h = ground (arith, h)
after_link-finished (some (crashed e)) h = ground (arith, h)
after_link-finished (some (returned s c f)) h = ground (arith, h)

link_binary-finished :
    (s : Surroundings) (o : BinaryOptions) (pp : Registry.PrettyPrinter) (ms : List Module)
    → link_binary s o pp ms ≡ some failed
    → ⊥
unfolding link_binary
link_binary-finished s o pp ms h = elim (Option-cases o.binary) [
  | inl e ↦ ground (arith, h, e)
  | inr (path, e) ↦ after_link-finished _ (rw (e, link_binary) at h)
]

-- no modules, or the first has a target that is not registered
abbrev pub Unprintable : Surroundings → BinaryOptions → List Module → Type 0
Unprintable s o [] = Unit
Unprintable s o (m ∷ ms) =
    mem_target (choose_target s.registry (printer_options o) m) (get_registered_targets s.registry)
    ≡ false

print_binary-failed :
    (s : Surroundings) (o : BinaryOptions) (ms : List Module)
    → (print_binary s o ms ≡ some failed) ↔ Unprintable s o ms
unfolding print_binary
print_binary-failed s o [] = ((λ h. tt), (λ h. refl))
print_binary-failed s o (m ∷ ms) =
    elim (Bool-cases (
      mem_target (choose_target s.registry (printer_options o) m)
        (get_registered_targets s.registry))) [
          | inr e ↦ rw (e, print_binary) ((λ h. refl), (λ h. refl))
          | inl e ↦
              rw (e, print_binary)
                (
                  (λ h. absurd (link_binary-finished s o _ (m ∷ ms) h)),
                  (λ h. absurd (ground (arith, h))),
                )
        ]

-- Why a run fails: the input is not there, the IR has no modules, or the target is not registered.
abbrev pub Fails : Surroundings → BinaryOptions → Loaded → List (List Section) → Type 0
Fails s o not_found laid = Unit
Fails s o null_pointer laid = ⊥
Fails s o (loaded ir) laid = Unprintable s o (views s.library ir.graph laid)

-- the layout of the modules that are loaded
abbrev pub LaidOut : Surroundings → Loaded → List (List Section) → Type 0
LaidOut s (loaded ir) laid = lay_out_missing s.library ir.graph ir.modules ≡ some laid
LaidOut s _ laid = Unit

with_loaded-failed :
    (s : Surroundings) (o : BinaryOptions) (r : Loaded) (laid : List (List Section))
    → LaidOut s r laid
    → (with_loaded s o r ≡ some failed) ↔ Fails s o r laid
with_loaded-failed s o not_found laid h = ((λ q. tt), (λ q. refl))
with_loaded-failed s o null_pointer laid h = ((λ q. ground (arith, q)), (λ q. absurd q))
with_loaded-failed s o (loaded ir) laid h =
    rw (h, with_loaded) (print_binary-failed s o (views s.library ir.graph laid))

-- With the modules laid out as `laid`, a run with its options fails exactly when the input file is not there,
-- the IR has no modules, or the target of the first module is not registered: that no compiler is found, that
-- a temporary file does not open, or that the compiler fails, is no failure of the run.
pub main-failed :
    (s : Surroundings) (o : BinaryOptions) (laid : List (List Section))
    → LaidOut s (load s.world o.ir) laid
    → (main s (options o) ≡ some failed) ↔ Fails s o (load s.world o.ir) laid
unfolding main
main-failed s o laid h = with_loaded-failed s o (load s.world o.ir) laid h
