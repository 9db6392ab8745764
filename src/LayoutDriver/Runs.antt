-- ===== src/LayoutDriver/Runs.antt =====
-- How a run of src/gtirb_layout/driver/gtirb_layout.cpp ends, and what it saves.
use gtirb_pprinter.Prelude.{
  Bool, true, false, All, if◌then◌else◌, none, some, List, [], ◌∷◌, ◌≡◌, ◌⊎◌, inl, inr, refl, ap,
  Bool-cases,
}
use gtirb_pprinter.Prelude.Result.{null}
use gtirb_pprinter.Layout.Ir.{Section, Cfg}
use gtirb_pprinter.Layout.{layout_module, remove_module_layout}
use gtirb_pprinter.Layout.Addresses.{
  layout_module_total, all_intervals, Unplaced, remove_module_layout-Unplaced,
}
use gtirb_pprinter.Loading.{Ir, World, Loaded, not_found, null_pointer, loaded, load}
use gtirb_pprinter.Loading.Layouts.{Pairwise, IsSmall, IsLaid, Outcome, layout_module-Outcome}
use gtirb_pprinter.LayoutDriver.{
  LayoutOptions, options, Ended, crashed, exited, layout_all, remove_all, change_modules,
  destination, is_good, save, save_changed, with_loaded, input_of, main,
}

-- a module with its layout removed: no interval has an address
abbrev pub IsBare : List Section → List Section → Type 0
IsBare m m' = (m' ≡ (remove_module_layout m).0) × Unplaced (all_intervals m')

-- a module laid out, from address 0 on and without overlap
abbrev pub IsDone : Cfg → List Section → List Section → Type 0
IsDone cfg m m' = (layout_module cfg m ≡ some (m', true)) × IsLaid m'

abbrev pub CannotLayOut : Cfg → List Section → Type 0
CannotLayOut cfg m = (m' : List Section) × (layout_module cfg m ≡ some (m', false))

-- some module cannot be laid out
abbrev pub Fails : Cfg → List (List Section) → Type 0
Fails cfg [] = ⊥
Fails cfg (m ∷ ms) = CannotLayOut cfg m ⊎ Fails cfg ms

-- what the loop that lays the modules out leaves
abbrev LaidAll : Cfg → List (List Section) → List (List Section) → Bool → Type 0
LaidAll cfg ms ms' ok = ((ok ≡ true) × Pairwise (IsDone cfg) ms ms') ⊎ ((ok ≡ false) × Fails cfg ms)

LaidAll-step :
    (cfg : Cfg) (m m' : List Section) (ms rest : List (List Section)) (ok : Bool)
    → IsDone cfg m m'
    → LaidAll cfg ms rest ok
    → LaidAll cfg (m ∷ ms) (m' ∷ rest) ok
LaidAll-step cfg m m' ms rest ok d (inl (e, p)) = inl (e, (d, p))
LaidAll-step cfg m m' ms rest ok d (inr (e, f)) = inr (e, inr f)

abbrev LoopEnds : Cfg → List (List Section) → Type 0
LoopEnds cfg ms =
    (ms' : List (List Section)) × (ok : Bool) × (layout_all cfg ms ≡ some (ms', ok))
    × LaidAll cfg ms ms' ok

layout_all-cons :
    (cfg : Cfg) (m m' : List Section) (ms : List (List Section))
    → Outcome cfg m m'
    → LoopEnds cfg ms
    → LoopEnds cfg (m ∷ ms)
unfolding layout_all
layout_all-cons cfg m m' ms (inl (e, d)) (rest, ok, q, p) =
    (m' ∷ rest, ok, rw (e, q, layout_all) refl, LaidAll-step cfg m m' ms rest ok (e, d) p)
layout_all-cons cfg m m' ms (inr e) r =
    (m' ∷ ms, false, rw (e, layout_all) refl, inr (refl, inl (m', e)))

layout_all_lem : (cfg : Cfg) (ms : List (List Section)) → All IsSmall ms → LoopEnds cfg ms
unfolding layout_all
layout_all_lem cfg [] h = ([], true, refl, inl (refl, tt))
layout_all_lem cfg (m ∷ ms) (s, ss) =
    let ((m', ok), e) = layout_module_total cfg m in
    layout_all-cons cfg m m' ms (layout_module-Outcome cfg m m' ok s e) (layout_all_lem cfg ms ss)

remove_all_lem :
    (ms : List (List Section)) → ((remove_all ms).1 ≡ true) × Pairwise IsBare ms ((remove_all ms).0)
unfolding remove_all
remove_all_lem [] = (refl, tt)
remove_all_lem (m ∷ ms) =
    let (e, p) = remove_all_lem ms in
    let (ok, bare) = remove_module_layout-Unplaced m in rw (ok, remove_all) (e, ((refl, bare), p))

-- what is done to the modules, unless it fails
abbrev pub Changed : LayoutOptions → Ir → Ir → Type 0
Changed o ir ir' =
    (ir'.graph ≡ ir.graph)
    × (if o.remove_layout
        then Pairwise IsBare ir.modules ir'.modules
        else Pairwise (IsDone ir.graph) ir.modules ir'.modules)

-- how a run ends
abbrev pub RunEnds : World → LayoutOptions → Ended → Type 0
RunEnds w o e =
    ((load w (input_of o) ≡ not_found) × (e ≡ exited false none))
    ⊎ (((load w (input_of o) ≡ null_pointer) × (e ≡ crashed null))
        ⊎ ((ir : Ir) × (load w (input_of o) ≡ loaded ir)
            × (((o.remove_layout ≡ false) × Fails ir.graph ir.modules × (e ≡ exited false none))
                ⊎ ((ir' : Ir) × Changed o ir ir'
                    × (e ≡ exited (is_good w o.output) (some (destination o.output, ir')))))))

-- a run after the IR is loaded
abbrev AfterLoad : World → LayoutOptions → Ir → Type 0
AfterLoad w o ir =
    (e : Ended) × (save_changed w o.output ir (change_modules o ir) ≡ some e) × RunEnds w o e

removed :
    (w : World) (o : LayoutOptions) (ir : Ir)
    → load w (input_of o) ≡ loaded ir
    → o.remove_layout ≡ true
    → AfterLoad w o ir
unfolding change_modules save
removed w o ir l r =
    let (ok, p) = remove_all_lem ir.modules in
    let ms = (remove_all ir.modules).0 in
    let e : change_modules o ir ≡ some (ms, true) =
      rw (r, change_modules) (ap (λ b. some (ms, b)) ok) in
    (
      exited (is_good w o.output) (some (destination o.output, record ir { modules = ms })),
      rw e refl,
      inr (inr (ir, l, inr (record ir { modules = ms }, (refl, rw r p), refl))),
    )

laid_out :
    (w : World) (o : LayoutOptions) (ir : Ir)
    → load w (input_of o) ≡ loaded ir
    → o.remove_layout ≡ false
    → LoopEnds ir.graph ir.modules
    → AfterLoad w o ir
unfolding change_modules save
laid_out w o ir l r (ms, ok, e, inr (q, f)) =
    (exited false none, rw (r, e, q, change_modules) refl, inr (inr (ir, l, inl (r, f, refl))))
laid_out w o ir l r (ms, ok, e, inl (q, p)) = (
  exited (is_good w o.output) (some (destination o.output, record ir { modules = ms })),
  rw (r, e, q, change_modules) refl,
  inr (inr (ir, l, inr (record ir { modules = ms }, (refl, rw r p), refl))),
)

after_load :
    (w : World) (o : LayoutOptions) (ir : Ir)
    → All IsSmall ir.modules
    → load w (input_of o) ≡ loaded ir
    → AfterLoad w o ir
after_load w o ir s l = elim (Bool-cases o.remove_layout) [
  | inl r ↦ removed w o ir l r
  | inr r ↦ laid_out w o ir l r (layout_all_lem ir.graph ir.modules s)
]

-- every module that is loaded is small
abbrev pub LoadsSmall : Loaded → Type 0
LoadsSmall (loaded ir) = All IsSmall ir.modules
LoadsSmall _ = Unit

with_loaded_lem :
    (w : World) (o : LayoutOptions) (r : Loaded)
    → load w (input_of o) ≡ r
    → LoadsSmall r
    → (e : Ended) × (with_loaded w o r ≡ some e) × RunEnds w o e
with_loaded_lem w o not_found l s = (exited false none, refl, inl (l, refl))
with_loaded_lem w o null_pointer l s = (crashed null, refl, inr (inl (l, refl)))
with_loaded_lem w o (loaded ir) l s = after_load w o ir s l

-- A run of `main` with its options ends, in one of four ways: with a failure, and nothing saved, if the input file is not
-- there; with a null dereference if it cannot be loaded; with a failure, and nothing saved, if some module
-- cannot be laid out; or with the status of the output stream, after saving the same graph with every
-- module laid out from address 0 on without overlap, or, with `--remove`, every module without addresses.
-- The modules that are loaded have distinct UUIDs in each section and are smaller than 2 ^ 64.
pub main_lem :
    (w : World) (o : LayoutOptions)
    → LoadsSmall (load w (input_of o))
    → (e : Ended) × (main w (options o) ≡ some e) × RunEnds w o e
unfolding main
main_lem w o s = with_loaded_lem w o (load w (input_of o)) refl s
