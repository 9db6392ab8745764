-- ===== src/Registry/Moved.antt =====
-- The loops of `registerPrinter` in src/gtirb_pprinter/PrettyPrinter.cpp: which entries hold the
-- factory that is moved into them.
use gtirb_pprinter.Prelude.{
  Bool, true, false, Text, eq_text_refl, Option, none, some, List, [], ◌∷◌, ◌++◌, map, ◌≡◌, refl,
}
use gtirb_pprinter.Prelude.Result.{fault, null, ok}
use gtirb_pprinter.Capstone.{Capstone}
use gtirb_pprinter.Gtirb.{Module}
use gtirb_pprinter.Printer.{Arch}
use gtirb_pprinter.Registry.{
  Registry, Target, find_factory, register_printer, register_one, register_syntaxes,
  register_formats, PrettyPrinter, print, target_for, factory_at, set_default_syntax,
}

-- the entries that a registration makes, first one first: only the first has the factory
abbrev pub moved : Option Arch → List Target → List (Target × Option Arch)
moved f [] = []
moved f (t ∷ ts) = (t, f) ∷ moved none ts

abbrev pub onto {ℓ} : {A : Type ℓ} → List A → List A → List A
onto [] r = r
onto (e ∷ es) r = onto es (e ∷ r)

abbrev pub targets_of : List Text → List Text → List Target
targets_of [] ss = []
targets_of (g ∷ gs) ss = map (λ s. (g, s)) ss ++ targets_of gs ss

abbrev pub left_over : Option Arch → List Target → Option Arch
left_over f [] = f
left_over f (t ∷ ts) = none

moved-append :
    (f : Option Arch) (ts us : List Target)
    → moved f (ts ++ us) ≡ moved f ts ++ moved (left_over f ts) us
moved-append f [] us = refl
moved-append f (t ∷ []) us = refl
moved-append f (t ∷ u ∷ ts) us = rw (moved-append none (u ∷ ts) us) refl

onto-append {ℓ} : {A : Type ℓ} (es ds r : List A) → onto (es ++ ds) r ≡ onto ds (onto es r)
onto-append [] ds r = refl
onto-append (e ∷ es) ds r = onto-append es ds (e ∷ r)

left_over-none : (ts : List Target) → left_over none ts ≡ none
left_over-none [] = refl
left_over-none (t ∷ ts) = refl

left_over-append :
    (f : Option Arch) (ts us : List Target) → left_over f (ts ++ us) ≡ left_over (left_over f ts) us
left_over-append f [] us = refl
left_over-append f (t ∷ ts) [] = refl
left_over-append f (t ∷ ts) (u ∷ us) = refl

register_one-factories :
    (g s : Text) (d : Bool) (f : Option Arch) (r : Registry)
    → (register_one g s d f r).0.factories ≡ ((g, s), f) ∷ r.factories
unfolding register_one set_default_syntax
register_one-factories g s true f r = refl
register_one-factories g s false f r = refl

register_one-left :
    (g s : Text) (d : Bool) (f : Option Arch) (r : Registry) → (register_one g s d f r).1 ≡ none
unfolding register_one
register_one-left g s d f r = refl

abbrev with_format : Text → List Text → List Target
with_format g ss = map (λ s. (g, s)) ss

register_syntaxes-factories :
    (g : Text) (ss : List Text) (d : Bool) (f : Option Arch) (r : Registry)
    → ((register_syntaxes g ss d f r).0.factories ≡ onto (moved f (with_format g ss)) r.factories)
      × ((register_syntaxes g ss d f r).1 ≡ left_over f (with_format g ss))
unfolding register_syntaxes
register_syntaxes-factories g [] d f r = (refl, refl)
register_syntaxes-factories g (s ∷ ss) d f r =
    let (factories, left) = register_syntaxes-factories g ss d none (register_one g s d f r).0 in
    (
      rw (register_one-left g s d f r, factories, register_one-factories g s d f r) refl,
      rw (register_one-left g s d f r, left) (left_over-none (with_format g ss)),
    )

register_formats-factories :
    (gs ss : List Text) (d : Bool) (f : Option Arch) (r : Registry)
    → (register_formats gs ss d f r).0.factories ≡ onto (moved f (targets_of gs ss)) r.factories
unfolding register_formats
register_formats-factories [] ss d f r = refl
register_formats-factories (g ∷ gs) ss d f r =
    let (factories, left) = register_syntaxes-factories g ss d f r in
    rw (moved-append, onto-append, ← left, ← factories)
      (register_formats-factories gs ss d (register_syntaxes g ss d f r).1
        (register_syntaxes g ss d f r).0)

-- A registration adds an entry for each format with each syntax, in order and before the older
-- entries, and only the first of them holds the factory: in all others the pointer is empty.
pub register_printer_lem :
    (formats syntaxes : List Text) (a : Arch) (is_default : Bool) (r : Registry)
    → (register_printer formats syntaxes a is_default r).factories
      ≡ onto (moved (some a) (targets_of formats syntaxes)) r.factories
unfolding register_printer
register_printer_lem formats syntaxes a is_default r =
    register_formats-factories formats syntaxes is_default (some a) r

empty_slot :
    (g s t : Text) (a : Arch) (is_default : Bool) (r : Registry)
    → find_factory (g, t) (register_printer (g ∷ []) (s ∷ t ∷ []) a is_default r).factories
      ≡ some none
empty_slot g s t a d r =
    rw (register_printer_lem (g ∷ []) (s ∷ t ∷ []) a d r, eq_text_refl g, eq_text_refl t) refl

pub factory_at-slot :
    (r : Registry) (t : Target) (f : Option Arch)
    → find_factory t r.factories ≡ some f
    → factory_at r t ≡ ok f
unfolding factory_at
factory_at-slot r t f h = rw (h, factory_at) refl

-- When a class is registered for one format, not empty, and two syntaxes, a module that is printed with the
-- second syntax is a dereference of the empty pointer.
pub register_printer-print :
    (g s t : Text) (a : Arch) (is_default : Bool) (r : Registry) (cs : Capstone)
    (pp : PrettyPrinter) (m : Module)
    → target_for (register_printer (g ∷ []) (s ∷ t ∷ []) a is_default r) pp m ≡ (g, t)
    → print (register_printer (g ∷ []) (s ∷ t ∷ []) a is_default r) cs pp m ≡ fault null
unfolding print
register_printer-print g s t a d r cs pp m h =
    rw
      (
        h,
        factory_at-slot (register_printer (g ∷ []) (s ∷ t ∷ []) a d r) (g, t) none
            (empty_slot g s t a d r),
      )
      refl
