-- ===== src/AArch64/Keywords.antt =====
-- The keywords of src/gtirb_pprinter/AArch64PrettyPrinter.cpp: barriers, prefetch operations,
-- shifts and extenders.
use gtirb_pprinter.Prelude.{ℕ, Text, codes, [], ◌++◌}
use gtirb_pprinter.Prelude.Number.{dec}
use gtirb_pprinter.Prelude.Result.{Output, ok, fault, exit_one}
use gtirb_pprinter.Capstone.{
  Arm64Shifter, Arm64Extender, Arm64Barrier, Arm64Prefetch, sft_invalid, lsl, msl, lsr, asr, ror,
  ext_invalid, uxtb, uxth, uxtw, uxtx, sxtb, sxth, sxtw, sxtx, oshld, oshst, osh, nshld, nshst, nsh,
  ishld, ishst, ish, ld, st, sy, barrier_invalid, pldl1keep, pldl1strm, pldl2keep, pldl2strm,
  pldl3keep, pldl3strm, plil1keep, plil1strm, plil2keep, plil2strm, plil3keep, plil3strm, pstl1keep,
  pstl1strm, pstl2keep, pstl2strm, pstl3keep, pstl3strm, prefetch_invalid,
}

unfoldable pub print_barrier : Arm64Barrier → Output
print_barrier oshld = ok (codes "oshld")
print_barrier oshst = ok (codes "oshst")
print_barrier osh = ok (codes "osh")
print_barrier nshld = ok (codes "nshld")
print_barrier nshst = ok (codes "nshst")
print_barrier nsh = ok (codes "nsh")
print_barrier ishld = ok (codes "ishld")
print_barrier ishst = ok (codes "ishst")
print_barrier ish = ok (codes "ish")
print_barrier ld = ok (codes "ld")
print_barrier st = ok (codes "st")
print_barrier sy = ok (codes "sy")
print_barrier barrier_invalid = fault exit_one

unfoldable pub print_prefetch : Arm64Prefetch → Output
print_prefetch pldl1keep = ok (codes "pldl1keep")
print_prefetch pldl1strm = ok (codes "pldl1strm")
print_prefetch pldl2keep = ok (codes "pldl2keep")
print_prefetch pldl2strm = ok (codes "pldl2strm")
print_prefetch pldl3keep = ok (codes "pldl3keep")
print_prefetch pldl3strm = ok (codes "pldl3strm")
print_prefetch plil1keep = ok (codes "plil1keep")
print_prefetch plil1strm = ok (codes "plil1strm")
print_prefetch plil2keep = ok (codes "plil2keep")
print_prefetch plil2strm = ok (codes "plil2strm")
print_prefetch plil3keep = ok (codes "plil3keep")
print_prefetch plil3strm = ok (codes "plil3strm")
print_prefetch pstl1keep = ok (codes "pstl1keep")
print_prefetch pstl1strm = ok (codes "pstl1strm")
print_prefetch pstl2keep = ok (codes "pstl2keep")
print_prefetch pstl2strm = ok (codes "pstl2strm")
print_prefetch pstl3keep = ok (codes "pstl3keep")
print_prefetch pstl3strm = ok (codes "pstl3strm")
print_prefetch prefetch_invalid = fault exit_one

-- an unexpected shift prints no name
shift_name : Arm64Shifter → Text
shift_name lsl = codes "lsl"
shift_name msl = codes "msl"
shift_name lsr = codes "lsr"
shift_name asr = codes "asr"
shift_name ror = codes "ror"
shift_name sft_invalid = []

unfoldable pub print_shift : Arm64Shifter → ℕ → Text
unfolding shift_name
print_shift kind value = shift_name kind ++ (codes " #" ++ dec value)

extender_name : Arm64Extender → Text
extender_name uxtb = codes "uxtb"
extender_name uxth = codes "uxth"
extender_name uxtw = codes "uxtw"
extender_name uxtx = codes "uxtx"
extender_name sxtb = codes "sxtb"
extender_name sxth = codes "sxth"
extender_name sxtw = codes "sxtw"
extender_name sxtx = codes "sxtx"
extender_name ext_invalid = []

unfoldable pub print_extender : Arm64Extender → Arm64Shifter → ℕ → Text
unfolding extender_name
print_extender ext sft_invalid value = extender_name ext
print_extender ext kind value = extender_name ext ++ (codes " #" ++ dec value)
