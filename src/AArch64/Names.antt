-- ===== src/AArch64/Names.antt =====
-- Reading back the names of barriers and of prefetch operations that
-- src/gtirb_pprinter/AArch64PrettyPrinter.cpp prints.
use gtirb_pprinter.Prelude.{
  if◌then◌else◌, Bool, false, Text, eq_text, Option, none, some, List, [], ◌∷◌, ◌≡◌, ◌≢◌, refl,
}
use gtirb_pprinter.Prelude.Result.{Output, ok, fault}
use gtirb_pprinter.Capstone.{
  Arm64Barrier, Arm64Prefetch, barrier_invalid, prefetch_invalid, pldl1keep, pldl1strm, pldl2keep,
  pldl2strm, pldl3keep, pldl3strm, plil1keep, plil1strm, plil2keep, plil2strm, plil3keep, plil3strm,
  pstl1keep, pstl1strm, pstl2keep, pstl2strm, pstl3keep, pstl3strm, oshld, oshst, osh, nshld, nshst,
  nsh, ishld, ishst, ish, ld, st, sy,
}
use gtirb_pprinter.AArch64.Keywords.{print_barrier, print_prefetch}

abbrev pub printed_as : Text → Output → Bool
printed_as t (ok s) = eq_text s t
printed_as t (fault e) = false

-- the first of the keywords that is printed as the text
abbrev pub read_keyword {ℓ} : {A : Type ℓ} → (A → Output) → List A → Text → Option A
read_keyword print [] t = none
read_keyword print (a ∷ as') t = if printed_as t (print a) then some a else read_keyword print as' t

abbrev pub text_of : Output → Text
text_of (ok t) = t
text_of (fault e) = []

abbrev pub all_prefetch : List Arm64Prefetch
all_prefetch =
    pldl1keep ∷ pldl1strm ∷ pldl2keep ∷ pldl2strm ∷ pldl3keep ∷ pldl3strm ∷ plil1keep ∷ plil1strm
    ∷ plil2keep ∷ plil2strm ∷ plil3keep ∷ plil3strm ∷ pstl1keep ∷ pstl1strm ∷ pstl2keep ∷ pstl2strm
    ∷ pstl3keep ∷ pstl3strm ∷ []

abbrev pub all_barriers : List Arm64Barrier
all_barriers = oshld ∷ oshst ∷ osh ∷ nshld ∷ nshst ∷ nsh ∷ ishld ∷ ishst ∷ ish ∷ ld ∷ st ∷ sy ∷ []

print_prefetch-own :
    (a : Arm64Prefetch)
    → a ≢ prefetch_invalid
    → (print_prefetch a ≡ ok (text_of (print_prefetch a)))
      × (read_keyword print_prefetch all_prefetch (text_of (print_prefetch a)) ≡ some a)
unfolding print_prefetch
print_prefetch-own pldl1keep h = (refl, refl)
print_prefetch-own pldl1strm h = (refl, refl)
print_prefetch-own pldl2keep h = (refl, refl)
print_prefetch-own pldl2strm h = (refl, refl)
print_prefetch-own pldl3keep h = (refl, refl)
print_prefetch-own pldl3strm h = (refl, refl)
print_prefetch-own plil1keep h = (refl, refl)
print_prefetch-own plil1strm h = (refl, refl)
print_prefetch-own plil2keep h = (refl, refl)
print_prefetch-own plil2strm h = (refl, refl)
print_prefetch-own plil3keep h = (refl, refl)
print_prefetch-own plil3strm h = (refl, refl)
print_prefetch-own pstl1keep h = (refl, refl)
print_prefetch-own pstl1strm h = (refl, refl)
print_prefetch-own pstl2keep h = (refl, refl)
print_prefetch-own pstl2strm h = (refl, refl)
print_prefetch-own pstl3keep h = (refl, refl)
print_prefetch-own pstl3strm h = (refl, refl)
print_prefetch-own prefetch_invalid h = absurd (h refl)

-- Every prefetch operation that is not invalid is printed as a text that reads back as it, so that no two of
-- them are printed alike.
print_prefetch_lem :
    (a : Arm64Prefetch)
    → a ≢ prefetch_invalid
    → (t : Text) × (print_prefetch a ≡ ok t) × (read_keyword print_prefetch all_prefetch t ≡ some a)
print_prefetch_lem a h =
    (text_of (print_prefetch a), (print_prefetch-own a h).0, (print_prefetch-own a h).1)

print_barrier-own :
    (a : Arm64Barrier)
    → a ≢ barrier_invalid
    → (print_barrier a ≡ ok (text_of (print_barrier a)))
      × (read_keyword print_barrier all_barriers (text_of (print_barrier a)) ≡ some a)
unfolding print_barrier
print_barrier-own oshld h = (refl, refl)
print_barrier-own oshst h = (refl, refl)
print_barrier-own osh h = (refl, refl)
print_barrier-own nshld h = (refl, refl)
print_barrier-own nshst h = (refl, refl)
print_barrier-own nsh h = (refl, refl)
print_barrier-own ishld h = (refl, refl)
print_barrier-own ishst h = (refl, refl)
print_barrier-own ish h = (refl, refl)
print_barrier-own ld h = (refl, refl)
print_barrier-own st h = (refl, refl)
print_barrier-own sy h = (refl, refl)
print_barrier-own barrier_invalid h = absurd (h refl)

-- Every barrier that is not invalid is printed as a text that reads back as it, so that no two of
-- them are printed alike.
pub print_barrier_lem :
    (a : Arm64Barrier)
    → a ≢ barrier_invalid
    → (t : Text) × (print_barrier a ≡ ok t) × (read_keyword print_barrier all_barriers t ≡ some a)
print_barrier_lem a h =
    (text_of (print_barrier a), (print_barrier-own a h).0, (print_barrier-own a h).1)
