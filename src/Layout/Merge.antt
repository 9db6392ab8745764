-- ===== src/Layout/Merge.antt =====
-- The recursion of `findAndMergeBIs`, one merge after the other.
use gtirb_pprinter.Prelude.{
  ℕ, zero, suc, ◌<◌, Bool, true, false, some, List, length, ◌≡◌, refl, sym, ◌∙◌, ◌⊎◌, inl, inr,
  arith, subst,
}
use mathlib.Core.Bool.{false≢true}
use gtirb_pprinter.Prelude.Number.{u64_mod}
use gtirb_pprinter.Layout.Ir.{ByteInterval, Cfg}
use gtirb_pprinter.Layout.{
  Outcome, settled, refused, merges, scan, merge_intervals, replace, remove, find_and_merge,
  find_and_merge_bis,
}
use gtirb_pprinter.Layout.Scan.{In, CanMerge, IsSettled, scan-CanMerge, scan-settled, scan_stays}
use gtirb_pprinter.Layout.Intervals.{
  Distinct, total_size, length-replace, Distinct-replace, Distinct-remove, In-replace,
  length-remove, total_size-replace, total_size-remove, sizes_fit,
}

abbrev pub after_merge : ByteInterval → ByteInterval → List ByteInterval → List ByteInterval
after_merge s t bis = remove t.uuid (replace (merge_intervals s t) bis)

pub Outcome-cases :
    (o : Outcome)
    → (o ≡ settled) ⊎ (o ≡ refused) ⊎ ((s : ByteInterval) × (t : ByteInterval) × (o ≡ merges s t))
Outcome-cases settled = inl refl
Outcome-cases refused = inr (inl refl)
Outcome-cases (merges s t) = inr (inr (s, t, refl))

module _ (s t : ByteInterval) (bis : List ByteInterval) (c : CanMerge bis s t) where
  pub target_stays : In t (replace (merge_intervals s t) bis)
  unfolding merge_intervals
  target_stays = In-replace (merge_intervals s t) t bis (λ e. c.differ (sym e)) c.target_in

  length-after_merge : suc (length (after_merge s t bis)) ≡ length bis
  length-after_merge =
      length-remove t (replace (merge_intervals s t) bis) target_stays
      ∙ length-replace (merge_intervals s t) bis

  pub Distinct-after_merge : Distinct bis → Distinct (after_merge s t bis)
  Distinct-after_merge d =
      Distinct-remove t.uuid (replace (merge_intervals s t) bis)
        (Distinct-replace (merge_intervals s t) bis d)

  pub total_size-after_merge :
      In s bis
      → Distinct bis
      → total_size bis < u64_mod
      → total_size (after_merge s t bis) ≡ total_size bis
  unfolding merge_intervals
  total_size-after_merge i d fits = omega (
    arith,
    total_size-replace s (merge_intervals s t) bis refl d i,
    total_size-remove t (replace (merge_intervals s t) bis)
        (Distinct-replace (merge_intervals s t) bis d) target_stays,
    sizes_fit s t bis d i c.target_in c.differ,
  )

-- Fuel beyond the number of intervals is never used up.
find_and_merge_fuel :
    (f : ℕ) (cfg : Cfg) (bis : List ByteInterval)
    → length bis < f
    → (r : List ByteInterval × Bool) × (find_and_merge f cfg bis ≡ some r)
unfolding find_and_merge
find_and_merge_fuel zero cfg bis h = absurd (omega arith)
find_and_merge_fuel (suc f) cfg bis h = elim (Outcome-cases (scan cfg bis bis)) [
  | inl e ↦ ((bis, true), rw (e, find_and_merge))
  | inr (inl e) ↦ ((bis, false), rw (e, find_and_merge))
  | inr (inr (s, t, e)) ↦
      let (i, c) = scan-CanMerge cfg bis s t bis e in
      rw (e, find_and_merge)
        (find_and_merge_fuel f cfg (after_merge s t bis)
          (omega (arith, length-after_merge s t bis c)))
]

module _ (f : ℕ) (cfg : Cfg) (bis : List ByteInterval) (r : List ByteInterval × Bool) where
  stops_settled :
      scan cfg bis bis ≡ settled
      → find_and_merge (suc f) cfg bis ≡ some r
      → (bis ≡ r.0) × (r.1 ≡ true)
  unfolding find_and_merge
  stops_settled e h = ground arith

  stops_refused :
      scan cfg bis bis ≡ refused
      → find_and_merge (suc f) cfg bis ≡ some r
      → (bis ≡ r.0) × (r.1 ≡ false)
  unfolding find_and_merge
  stops_refused e h = ground arith

-- What every merge keeps holds of the intervals that are left.
pub find_and_merge_inv :
    (P : List ByteInterval → Type 0) (cfg : Cfg)
    → ((bis : List ByteInterval) (s t : ByteInterval)
        → In s bis
        → CanMerge bis s t
        → P bis
        → P (after_merge s t bis))
    → (f : ℕ) (bis : List ByteInterval) (r : List ByteInterval × Bool)
    → find_and_merge f cfg bis ≡ some r
    → P bis
    → P r.0
unfolding find_and_merge
find_and_merge_inv P cfg step zero bis r h p = absurd (cc)
find_and_merge_inv P cfg step (suc f) bis r h p = elim (Outcome-cases (scan cfg bis bis)) [
  | inl e ↦ subst P (stops_settled f cfg bis r e h).0 p
  | inr (inl e) ↦ subst P (stops_refused f cfg bis r e h).0 p
  | inr (inr (s, t, e)) ↦
      let (i, c) = scan-CanMerge cfg bis s t bis e in
      find_and_merge_inv P cfg step f (after_merge s t bis) r (rw (e, find_and_merge) at h)
        (step bis s t i c p)
]

-- A true result means that the last search found nothing.
find_and_merge-settled :
    (cfg : Cfg) (f : ℕ) (bis bis' : List ByteInterval)
    → find_and_merge f cfg bis ≡ some (bis', true)
    → scan cfg bis' bis' ≡ settled
unfolding find_and_merge
find_and_merge-settled cfg zero bis bis' h = absurd (cc)
find_and_merge-settled cfg (suc f) bis bis' h = elim (Outcome-cases (scan cfg bis bis)) [
  | inl e ↦ subst (λ b. scan cfg b b ≡ settled) (stops_settled f cfg bis (bis', true) e h).0 e
  | inr (inl e) ↦ absurd (false≢true (sym (stops_refused f cfg bis (bis', true) e h).1))
  | inr (inr (s, t, e)) ↦
      find_and_merge-settled cfg f (after_merge s t bis) bis' (rw (e, find_and_merge) at h)
]

module _ (cfg : Cfg) (bis : List ByteInterval) where
  -- `findAndMergeBIs` returns on every section: one round more than it has intervals is enough.
  pub find_and_merge_bis_total :
      (r : List ByteInterval × Bool) × (find_and_merge_bis cfg bis ≡ some r)
  unfolding find_and_merge_bis
  find_and_merge_bis_total = find_and_merge_fuel (suc (length bis)) cfg bis (omega arith)

  -- Merging keeps the UUIDs of the intervals distinct and the size of the section, if that is
  -- below 2 ^ 64, also where it returns false half way.
  pub find_and_merge_bis-total_size :
      (bis' : List ByteInterval) (ok : Bool)
      → Distinct bis
      → total_size bis < u64_mod
      → find_and_merge_bis cfg bis ≡ some (bis', ok)
      → Distinct bis' × (total_size bis' ≡ total_size bis)
  unfolding find_and_merge_bis
  find_and_merge_bis-total_size bis' ok d fits h =
      find_and_merge_inv (λ b. Distinct b × (total_size b ≡ total_size bis)) cfg
        (λ b s t i c p. (
          Distinct-after_merge s t b c p.0,
          total_size-after_merge s t b c i p.0 (rw p.1 fits) ∙ p.1,
        ))
        (suc (length bis)) bis (bis', ok) h (d, refl)

  -- `findAndMergeBIs` returns true without a merge exactly when every fall-through edge out of the
  -- first code block of an interval goes to a code block of that interval, whatever the edges out
  -- of its last code block are; and any section that it returns true for has come to that state.
  pub find_and_merge_bis-IsSettled :
      (IsSettled cfg bis → find_and_merge_bis cfg bis ≡ some (bis, true))
      × ((bis' : List ByteInterval)
          → find_and_merge_bis cfg bis ≡ some (bis', true)
          → IsSettled cfg bis')
  unfolding find_and_merge_bis find_and_merge
  find_and_merge_bis-IsSettled = (
    λ h. rw (scan_stays cfg bis bis h, find_and_merge),
    λ bis' h bi i.
        scan-settled cfg bis' bis' (find_and_merge-settled cfg (suc (length bis)) bis bis' h) bi i,
  )
