-- ===== src/Layout/Located.antt =====
-- The bytes that a block covers, before and after `findAndMergeBIs`.
use gtirb_pprinter.Prelude.{
  ℕ, suc, ◌+◌, ◌≤◌, ◌<◌, Bool, some, List, ◌++◌, length, length-append, ◌≡◌, ◌≢◌, refl, sym, ap,
  ◌⊎◌, inl, inr, arith, append-nil, subst,
}
use native.Mathlib.Decide.{ℕ_discrete}
use mathlib.Core.Path.{subst₂}
use gtirb_pprinter.Prelude.Number.{u64_mod}
use gtirb_pprinter.Layout.Ir.{Block, ByteInterval, Cfg}
use gtirb_pprinter.Layout.{
  merge_intervals, shift_block, take_bytes, drop_bytes, replace, find_and_merge_bis,
}
use gtirb_pprinter.Layout.Scan.{In, CanMerge}
use gtirb_pprinter.Layout.Intervals.{
  Distinct, total_size, In-replace, In-replace_self, In-remove, In-replace_inv, In-remove_inv,
  unique, sizes_fit,
}
use gtirb_pprinter.Layout.Slices.{
  take_all, drop_all, slice_inside, drop_bytes-append, In-both_inv, In-both_first, In-both_second,
}
use gtirb_pprinter.Layout.Merge.{
  after_merge, find_and_merge_inv, Distinct-after_merge, total_size-after_merge,
}

-- the bytes that a block of the interval covers
abbrev pub block_bytes : ByteInterval → Block → List ℕ
block_bytes bi b = take_bytes b.size (drop_bytes b.offset bi.bytes)

-- the blocks lie inside the interval, whose bytes are all there
abbrev pub IsWhole : ByteInterval → Type 0
IsWhole bi =
    (length bi.bytes ≡ bi.size)
    × ((b : Block) → In b (bi.code_blocks ++ bi.data_blocks) → b.offset + b.size ≤ bi.size)

-- the section holds a block of this UUID over these bytes
abbrev pub Located : List ByteInterval → ℕ → List ℕ → Type 0
Located bis u text =
    (bi : ByteInterval) × (b : Block) × In bi bis
    × In b (bi.code_blocks ++ bi.data_blocks)
    × (b.uuid ≡ u)
    × (block_bytes bi b ≡ text)

pub record IsSound (bis : List ByteInterval) : Type 0 where
  pub distinct : Distinct bis
  pub fits : total_size bis < u64_mod
  pub whole : (bi : ByteInterval) → In bi bis → IsWhole bi

module _ (s t : ByteInterval) (ws : IsWhole s) (wt : IsWhole t)
    (fits : s.size + t.size < u64_mod) where
  bytes-merge_intervals : (merge_intervals s t).bytes ≡ s.bytes ++ t.bytes
  unfolding merge_intervals
  bytes-merge_intervals = rw (
    take_all s.size s.bytes (omega (arith, ws.0)),
    drop_all s.size s.bytes (omega (arith, ws.0)),
    append-nil,
  )

  size-merge_intervals : (merge_intervals s t).size ≡ s.size + t.size
  unfolding merge_intervals
  size-merge_intervals = omega arith

  -- A block of the merged interval is one of the first interval, or a shifted one of the second.
  merged_blocks :
      (b : Block)
      → In b ((merge_intervals s t).code_blocks ++ (merge_intervals s t).data_blocks)
      → In b (s.code_blocks ++ s.data_blocks)
        ⊎ ((c : Block) × In c (t.code_blocks ++ t.data_blocks) × (b ≡ shift_block s.size c))
  unfolding merge_intervals
  merged_blocks =
      In-both_inv (shift_block s.size) s.code_blocks t.code_blocks s.data_blocks t.data_blocks

  merge_intervals-IsWhole : IsWhole (merge_intervals s t)
  merge_intervals-IsWhole = (
    rw bytes-merge_intervals
        (omega (arith, length-append s.bytes t.bytes, ws.0, wt.0, size-merge_intervals)),
    λ b i. elim (merged_blocks b i) [
      | inl j ↦ omega (arith, ws.1 b j, size-merge_intervals)
      | inr (c, j, e) ↦ rw e (omega (arith, wt.1 c j, size-merge_intervals))
    ],
  )

  first_In :
      (b : Block)
      → In b (s.code_blocks ++ s.data_blocks)
      → In b ((merge_intervals s t).code_blocks ++ (merge_intervals s t).data_blocks)
  unfolding merge_intervals
  first_In =
      In-both_first (shift_block s.size) s.code_blocks t.code_blocks s.data_blocks t.data_blocks

  second_In :
      (c : Block)
      → In c (t.code_blocks ++ t.data_blocks)
      → In
          (shift_block s.size c)
          ((merge_intervals s t).code_blocks ++ (merge_intervals s t).data_blocks)
  unfolding merge_intervals
  second_In =
      In-both_second (shift_block s.size) s.code_blocks t.code_blocks s.data_blocks t.data_blocks

  -- What a block of either interval covers, it covers in the merged one.
  block_bytes-first :
      (b : Block)
      → In b (s.code_blocks ++ s.data_blocks)
      → block_bytes (merge_intervals s t) b ≡ block_bytes s b
  block_bytes-first b i =
      rw bytes-merge_intervals
        (slice_inside b.offset b.size s.bytes t.bytes (omega (arith, ws.0, ws.1 b i)))

  block_bytes-second :
      (c : Block) → block_bytes (merge_intervals s t) (shift_block s.size c) ≡ block_bytes t c
  block_bytes-second c =
      rw bytes-merge_intervals
        (ap (take_bytes c.size) (drop_bytes-append s.size c.offset s.bytes t.bytes ws.0))

  module _ (bis : List ByteInterval) (m : In (merge_intervals s t) bis) (b : Block) where
    Located-first : In b (s.code_blocks ++ s.data_blocks) → Located bis b.uuid (block_bytes s b)
    Located-first i = (merge_intervals s t, b, m, first_In b i, refl, block_bytes-first b i)

    Located-second : In b (t.code_blocks ++ t.data_blocks) → Located bis b.uuid (block_bytes t b)
    Located-second i =
        (merge_intervals s t, shift_block s.size b, m, second_In b i, refl, block_bytes-second b)

module _ (bis : List ByteInterval) (s t : ByteInterval) (i : In s bis) (c : CanMerge bis s t)
    (v : IsSound bis) where
  fits_both : s.size + t.size < u64_mod
  fits_both = omega (arith, sizes_fit s t bis v.distinct i c.target_in c.differ, v.fits)

  merged_In : In (merge_intervals s t) (after_merge s t bis)
  unfolding merge_intervals
  merged_In =
      In-remove t.uuid (merge_intervals s t) (replace (merge_intervals s t) bis) c.differ
        (In-replace_self (merge_intervals s t) s bis refl i)

  after_merge-IsSound : IsSound (after_merge s t bis)
  after_merge-IsSound = record {
    distinct = Distinct-after_merge s t bis c v.distinct;
    fits = rw (total_size-after_merge s t bis c i v.distinct v.fits) v.fits;
    whole = λ bi j.
        elim (In-replace_inv (merge_intervals s t) bi bis (In-remove_inv t.uuid bi _ j)) [
          | inl e ↦
              subst IsWhole (sym e)
                (merge_intervals-IsWhole s t (v.whole s i) (v.whole t c.target_in) fits_both)
          | inr k ↦ v.whole bi k
        ];
  }

  other_Located :
      (bi : ByteInterval) (b : Block)
      → bi.uuid ≢ s.uuid
      → bi.uuid ≢ t.uuid
      → In bi bis
      → In b (bi.code_blocks ++ bi.data_blocks)
      → Located (after_merge s t bis) b.uuid (block_bytes bi b)
  unfolding merge_intervals
  other_Located bi b ns nt j k = (
    bi,
    b,
    In-remove t.uuid bi _ nt (In-replace (merge_intervals s t) bi bis ns j),
    k,
    refl,
    refl,
  )

  moved :
      (bi x : ByteInterval) (b : Block)
      → bi ≡ x
      → (In b (x.code_blocks ++ x.data_blocks)
          → Located (after_merge s t bis) b.uuid (block_bytes x b))
      → In b (bi.code_blocks ++ bi.data_blocks)
      → Located (after_merge s t bis) b.uuid (block_bytes bi b)
  moved bi x b e f k =
      subst
        (λ (y : ByteInterval).
          In b (y.code_blocks ++ y.data_blocks)
          → Located (after_merge s t bis) b.uuid (block_bytes y b))
        (sym e) f k

  any_Located :
      (bi : ByteInterval) (b : Block)
      → In bi bis
      → In b (bi.code_blocks ++ bi.data_blocks)
      → Located (after_merge s t bis) b.uuid (block_bytes bi b)
  any_Located bi b j k = elim (ℕ_discrete bi.uuid s.uuid) [
    | yes e ↦
        moved bi s b (unique bi s bis v.distinct j i e)
          (Located-first s t ws wt fits_both _ merged_In b) k
    | no ns ↦ elim (ℕ_discrete bi.uuid t.uuid) [
      | yes e ↦
          moved bi t b (unique bi t bis v.distinct j c.target_in e)
            (Located-second s t ws wt fits_both _ merged_In b) k
      | no nt ↦ other_Located bi b ns nt j k
    ]
  ]
    where
      ws : IsWhole s
      ws = v.whole s i

      wt : IsWhole t
      wt = v.whole t c.target_in

  after_merge-Located :
      (u : ℕ) (text : List ℕ) → Located bis u text → Located (after_merge s t bis) u text
  after_merge-Located u text (bi, b, j, k, eu, et) =
      subst₂ (Located (after_merge s t bis)) eu et (any_Located bi b j k)

-- In a sound section every block keeps its UUID and its bytes through all merges, whatever the
-- result; and the section stays sound.
pub find_and_merge_bis-Located :
    (cfg : Cfg) (bis bis' : List ByteInterval) (ok : Bool) (u : ℕ) (text : List ℕ)
    → IsSound bis
    → find_and_merge_bis cfg bis ≡ some (bis', ok)
    → Located bis u text
    → IsSound bis' × Located bis' u text
unfolding find_and_merge_bis
find_and_merge_bis-Located cfg bis bis' ok u text v h l =
    find_and_merge_inv (λ b. IsSound b × Located b u text) cfg
      (λ b s t i c p.
        (after_merge-IsSound b s t i c p.0, after_merge-Located b s t i c p.0 u text p.1))
      (suc (length bis)) bis (bis', ok) h (v, l)
