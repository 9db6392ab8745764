-- ===== src/Loading/Layouts.antt =====
-- The modules after the loop that lays out those without an address.
use gtirb_pprinter.Prelude.{
  ℕ, ◌<◌, All, Bool, true, false, none, some, List, [], ◌∷◌, ◌≡◌, ◌⊎◌, inl, inr, refl, Option-cases,
}
use gtirb_pprinter.Prelude.Number.{u64_mod}
use gtirb_pprinter.Layout.Ir.{Section, Cfg}
use gtirb_pprinter.Layout.{layout_module}
use gtirb_pprinter.Layout.Intervals.{total_size}
use gtirb_pprinter.Layout.Addresses.{
  Packed, InOrder, DistinctIn, all_intervals, layout_module_total, layout_module-Packed,
}
use gtirb_pprinter.Loading.{Library, lay_out_missing}

abbrev pub Pairwise {ℓ} : {A : Type ℓ} → (A → A → Type 0) → List A → List A → Type 0
Pairwise P [] [] = Unit
Pairwise P [] (y ∷ ys) = ⊥
Pairwise P (x ∷ xs) [] = ⊥
Pairwise P (x ∷ xs) (y ∷ ys) = P x y × Pairwise P xs ys

-- A module whose UUIDs are distinct in each section and that is smaller than 2 ^ 64.
abbrev pub IsSmall : List Section → Type 0
IsSmall m = DistinctIn m × (total_size (all_intervals m) < u64_mod)

-- A module from address 0 on, with no gap and no overlap.
abbrev pub IsLaid : List Section → Type 0
IsLaid m = Packed 0 (all_intervals m) × InOrder (all_intervals m)

-- how `layoutModule` leaves a module: laid out, or failed
abbrev pub Outcome : Cfg → List Section → List Section → Type 0
Outcome cfg m m' =
    ((layout_module cfg m ≡ some (m', true)) × IsLaid m') ⊎ (layout_module cfg m ≡ some (m', false))

pub layout_module-Outcome :
    (cfg : Cfg) (m m' : List Section) (ok : Bool)
    → IsSmall m
    → layout_module cfg m ≡ some (m', ok)
    → Outcome cfg m m'
layout_module-Outcome cfg m m' false s e = inr e
layout_module-Outcome cfg m m' true (d, h) e =
    let (p, o, _) = layout_module-Packed cfg m m' d h e in inl (e, (p, o))

abbrev pub IsPrepared : Library → Cfg → List Section → List Section → Type 0
IsPrepared l cfg m m' =
    ((a : ℕ) × (l.get_address m ≡ some a) × (m' ≡ m))
    ⊎ ((l.get_address m ≡ none) × Outcome cfg m m')

-- The loop of the printers' drivers returns, and afterwards every module either had an address and is what it
-- was, or had none and is packed from address 0 on without overlap, or had none and could not be laid out. The UUIDs
-- of each section are distinct, and each module is smaller than 2 ^ 64.
pub lay_out_missing_lem :
    (l : Library) (cfg : Cfg) (ms : List (List Section))
    → All IsSmall ms
    → (laid : List (List Section)) × (lay_out_missing l cfg ms ≡ some laid)
      × Pairwise (IsPrepared l cfg) ms laid
unfolding lay_out_missing
lay_out_missing_lem l cfg [] h = ([], refl, tt)
lay_out_missing_lem l cfg (m ∷ ms) (s, ss) =
    let (laid, e, p) = lay_out_missing_lem l cfg ms ss in
    elim (Option-cases (l.get_address m)) [
      | inr (a, q) ↦ (m ∷ laid, rw (e, q, lay_out_missing) refl, (inl (a, q, refl), p))
      | inl q ↦
          let ((m', ok), r) = layout_module_total cfg m in
          (
            m' ∷ laid,
            rw (e, q, r, lay_out_missing) refl,
            (inr (q, layout_module-Outcome cfg m m' ok s r), p),
          )
    ]
