-- ===== src/Driver/Runs.antt =====
-- A run of src/gtirb_pprinter/driver/pretty_printer.cpp with a registered target, down to the printer that is
-- created.
use gtirb_pprinter.Prelude.{
  ℕ, true, Text, codes, Option, none, some, List, [], ◌∷◌, map, ◌≡◌, refl, sym, ap, subst, ◌∙◌,
  arith, inl, inr, Bool-cases,
}
use gtirb_pprinter.Capstone.{Capstone}
use gtirb_pprinter.Gtirb.{Module}
use gtirb_pprinter.Printer.{Arch, create}
use gtirb_pprinter.Blocks
use gtirb_pprinter.Registry.{
  Registry, Target, PrettyPrinter, eq_target, find_factory, get_registered_targets, empty,
  register_all, configure, default_printing_policy, target_for, factory_at, keep_function,
  skip_function, set_target, set_debug,
}
use gtirb_pprinter.Registry
use gtirb_pprinter.Registry.Defaults.{Among, syntax_of, target_of, register_all_lem}
use gtirb_pprinter.Registry.Moved.{factory_at-slot}
use gtirb_pprinter.Driver.{
  Options, Paths, module_at, choose_target, mem_target, keep_all, skip_all, configured,
  standard_output, output_of, run,
}

mem_target-find_factory :
    (t : Target) (fs : List (Target × Option Arch)) (slot : Option Arch)
    → find_factory t fs ≡ some slot
    → mem_target t (map (λ (e : Target × Option Arch). e.0) fs) ≡ true
mem_target-find_factory t [] slot h = ground (arith, h)
mem_target-find_factory t ((u, f) ∷ fs) slot h = elim (Bool-cases (eq_target u t)) [
  | inl e ↦ rw e refl
  | inr e ↦ rw e (mem_target-find_factory t fs slot (rw e at h))
]

pub registered :
    (r : Registry) (t : Target) (slot : Option Arch)
    → find_factory t r.factories ≡ some slot
    → mem_target t (get_registered_targets r) ≡ true
unfolding get_registered_targets
registered r t slot h = mem_target-find_factory t r.factories slot h

keep_all-target :
    (fs : List Text) (pp : PrettyPrinter)
    → ((keep_all fs pp).format ≡ pp.format) × ((keep_all fs pp).syntax ≡ pp.syntax)
unfolding keep_all keep_function
keep_all-target [] pp = (refl, refl)
keep_all-target (f ∷ fs) pp = keep_all-target fs (keep_function f pp)

skip_all-target :
    (fs : List Text) (pp : PrettyPrinter)
    → ((skip_all fs pp).format ≡ pp.format) × ((skip_all fs pp).syntax ≡ pp.syntax)
unfolding skip_all skip_function
skip_all-target [] pp = (refl, refl)
skip_all-target (f ∷ fs) pp = skip_all-target fs (skip_function f pp)

target_for-set :
    (r : Registry) (pp : PrettyPrinter) (m : Module) (c : ℕ) (f s : Text)
    → pp.format ≡ c ∷ f
    → pp.syntax ≡ s
    → target_for r pp m ≡ (c ∷ f, s)
unfolding target_for
target_for-set r pp m c f s hf hs = rw (hf, hs) refl

pub print-slot :
    (r : Registry) (cs : Capstone) (pp : PrettyPrinter) (m : Module) (t : Target) (a : Arch)
    → target_for r pp m ≡ t
    → find_factory t r.factories ≡ some (some a)
    → Registry.print r cs pp m
      ≡ Blocks.print (create a cs m (configure pp (default_printing_policy a)))
unfolding Registry.print
print-slot r cs pp m t a ht hf = rw (ht, factory_at-slot r t (some a) hf) refl

output_of-standard :
    (paths : Paths) (r : Registry) (cs : Capstone) (pp : PrettyPrinter) (o : Options)
    (ms : List Module) (n : Module)
    → o.asm ≡ none
    → module_at ms o.module_index ≡ some n
    → output_of paths r cs pp o ms ≡ standard_output (Registry.print r cs pp n)
unfolding output_of
output_of-standard paths r cs pp o ms n ha hn = ground (arith, ha, hn)

run-registered :
    (paths : Paths) (fresh : PrettyPrinter) (r : Registry) (cs : Capstone) (o : Options)
    (m : Module) (ms : List Module)
    → mem_target (choose_target r o m) (get_registered_targets r) ≡ true
    → run paths fresh r cs o (m ∷ ms) ≡ output_of paths r cs (configured fresh r o m) o (m ∷ ms)
unfolding run
run-registered paths fresh r cs o m ms h = rw (h, run) refl

chosen :
    (r : Registry) (o : Options) (m : Module) (f s : Text)
    → o.format ≡ some f
    → o.syntax ≡ some s
    → choose_target r o m ≡ (f, s)
unfolding choose_target
chosen r o m f s hf hs = rw (hf, hs) refl

pub configured-target_for :
    (fresh : PrettyPrinter) (r : Registry) (o : Options) (m n : Module) (c : ℕ) (f s : Text)
    → choose_target r o m ≡ (c ∷ f, s)
    → target_for r (configured fresh r o m) n ≡ (c ∷ f, s)
unfolding configured set_target
configured-target_for fresh r o m n c f s h =
    let pp = set_target (choose_target r o m) (set_debug o.debug fresh) in
    let kept = keep_all-target o.keep_functions pp in
    let skipped = skip_all-target o.skip_functions (keep_all o.keep_functions pp) in
    target_for-set r (configured fresh r o m) n c f s
      (skipped.0 ∙ kept.0 ∙ ap (λ (t : Target). t.0) h)
      (skipped.1 ∙ kept.1 ∙ ap (λ (t : Target). t.1) h)

-- In whatever order the classes were registered: a run with the format "elf" and the syntax of a registered
-- class, without an output file and with the index of a module of the IR, prints that module with a
-- printer of this class, under the class's policy with the user's functions to keep and to skip.
pub run-register_all :
    (paths : Paths) (fresh : PrettyPrinter) (order : List Arch) (cs : Capstone) (o : Options)
    (m n : Module) (ms : List Module) (a : Arch)
    → Among a order
    → o.format ≡ some (codes "elf")
    → o.syntax ≡ some (syntax_of a)
    → o.asm ≡ none
    → module_at (m ∷ ms) o.module_index ≡ some n
    → run paths fresh (register_all order empty) cs o (m ∷ ms)
      ≡ standard_output (
          Blocks.print (
            create a cs n (
              configure
                (configured fresh (register_all order empty) o m)
                (default_printing_policy a))))
run-register_all paths fresh order cs o m n ms a i hf hs ha hn =
    let r = register_all order empty in
    let t = chosen r o m (codes "elf") (syntax_of a) hf hs in
    let slot = (register_all_lem order).0 a i in
    run-registered paths fresh r cs o m ms (
      subst (λ u. mem_target u (get_registered_targets r) ≡ true) (sym t)
        (registered r (target_of a) (some a) slot))
    ∙ output_of-standard paths r cs (configured fresh r o m) o (m ∷ ms) n ha hn
    ∙ ap standard_output (
        print-slot r cs (configured fresh r o m) n (target_of a) a
          (configured-target_for fresh r o m n b'e' (codes "lf") (syntax_of a) t) slot)
