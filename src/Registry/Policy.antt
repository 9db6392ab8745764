-- ===== src/Registry/Policy.antt =====
-- The functions to skip: `skipFunction`, `keepFunction` and `print` of
-- src/gtirb_pprinter/PrettyPrinter.cpp.
use gtirb_pprinter.Prelude.{
  Bool, false, not, ◌&&◌, ◌||◌, Text, eq_text, eq_text_refl, eq_text_sound, contains, List, [], ◌∷◌,
  ◌≡◌, inl, inr, refl, arith, Bool-cases,
}
use gtirb_pprinter.Printer.{PrintingPolicy, insert_name}
use gtirb_pprinter.Registry.{
  PrettyPrinter, configure, insert_all, erase, erase_all, skip_function, keep_function,
}

eq_text_sym : (s t : Text) → eq_text s t ≡ eq_text t s
eq_text_sym [] [] = refl
eq_text_sym [] (d ∷ t) = refl
eq_text_sym (c ∷ s) [] = refl
eq_text_sym (c ∷ s) (d ∷ t) = ground (arith, eq_text_sym s t)

contains-insert_name :
    (f g : Text) (s : List Text) → contains f (insert_name g s) ≡ (eq_text f g || contains f s)
contains-insert_name f g s = elim (Bool-cases (contains g s)) [
  | inl e ↦ rw e (elim (Bool-cases (eq_text f g)) [
    | inl q ↦ rw (q, eq_text_sound f g q, e) refl
    | inr q ↦ rw q refl
  ])
  | inr e ↦ rw e refl
]

contains-insert_all :
    (f : Text) (gs s : List Text) → contains f (insert_all gs s) ≡ (contains f gs || contains f s)
unfolding insert_all
contains-insert_all f [] s = refl
contains-insert_all f (g ∷ gs) s =
    ground (arith, contains-insert_all f gs (insert_name g s), contains-insert_name f g s)

contains-erase :
    (f g : Text) (s : List Text) → contains f (erase g s) ≡ (contains f s && not (eq_text f g))
unfolding erase
contains-erase f g [] = refl
contains-erase f g (h ∷ hs) = elim (Bool-cases (eq_text h g)) [
  | inl e ↦ rw (e, erase, eq_text_sound h g e) (ground (arith, contains-erase f g hs))
  | inr e ↦ elim (Bool-cases (eq_text f h)) [
    | inl q ↦ rw (e, erase, eq_text_sound f h q, e) (ground (arith, eq_text_refl h))
    | inr q ↦ rw (e, erase, q) (ground (arith, contains-erase f g hs))
  ]
]

contains-erase_all :
    (f : Text) (gs s : List Text)
    → contains f (erase_all gs s) ≡ (contains f s && not (contains f gs))
unfolding erase_all
contains-erase_all f [] s = ground arith
contains-erase_all f (g ∷ gs) s =
    ground (arith, contains-erase_all f gs (erase g s), contains-erase f g s)

-- what the user asks of the class `PrettyPrinter`, one call each
pub data Request : Type 0 where
  skip : Text → Request
  keep : Text → Request

abbrev pub perform : List Request → PrettyPrinter → PrettyPrinter
perform [] pp = pp
perform (skip f ∷ rs) pp = perform rs (skip_function f pp)
perform (keep f ∷ rs) pp = perform rs (keep_function f pp)

-- whether one of the requests is to skip the function
abbrev pub asks_skip : Text → List Request → Bool
asks_skip f [] = false
asks_skip f (skip g ∷ rs) = eq_text f g || asks_skip f rs
asks_skip f (keep g ∷ rs) = asks_skip f rs

-- whether one of the requests is to keep the function
abbrev pub asks_keep : Text → List Request → Bool
asks_keep f [] = false
asks_keep f (skip g ∷ rs) = asks_keep f rs
asks_keep f (keep g ∷ rs) = eq_text f g || asks_keep f rs

skip_funcs-perform :
    (f : Text) (rs : List Request) (pp : PrettyPrinter)
    → contains f (perform rs pp).skip_funcs ≡ (asks_skip f rs || contains f pp.skip_funcs)
unfolding skip_function keep_function
skip_funcs-perform f [] pp = refl
skip_funcs-perform f (skip g ∷ rs) pp =
    ground
      (arith, skip_funcs-perform f rs (skip_function g pp), contains-insert_name f g pp.skip_funcs)
skip_funcs-perform f (keep g ∷ rs) pp = skip_funcs-perform f rs (keep_function g pp)

keep_funcs-perform :
    (f : Text) (rs : List Request) (pp : PrettyPrinter)
    → contains f (perform rs pp).keep_funcs ≡ (asks_keep f rs || contains f pp.keep_funcs)
unfolding skip_function keep_function
keep_funcs-perform f [] pp = refl
keep_funcs-perform f (skip g ∷ rs) pp = keep_funcs-perform f rs (skip_function g pp)
keep_funcs-perform f (keep g ∷ rs) pp =
    ground
      (arith, keep_funcs-perform f rs (keep_function g pp), contains-insert_name f g pp.keep_funcs)

-- After any sequence of requests to skip and to keep functions, a function is in the set of those to skip
-- exactly when the default of the format, the printer before the requests or one of the requests
-- names it to be skipped, and neither the printer before nor one of the requests names it to be
-- kept: keeping wins, in whatever order the two were asked for.
pub configure_lem :
    (rs : List Request) (pp : PrettyPrinter) (policy : PrintingPolicy) (f : Text)
    → contains f (configure (perform rs pp) policy).skip_functions ≡ (
        (asks_skip f rs || contains f pp.skip_funcs || contains f policy.skip_functions)
        && not (asks_keep f rs || contains f pp.keep_funcs))
unfolding configure
configure_lem rs pp policy f =
    let q = perform rs pp in
    ground (
      arith,
      contains-erase_all f q.keep_funcs (insert_all q.skip_funcs policy.skip_functions),
      contains-insert_all f q.skip_funcs policy.skip_functions,
      skip_funcs-perform f rs pp,
      keep_funcs-perform f rs pp,
    )
