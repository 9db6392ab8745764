-- ===== src/Capstone.antt =====
-- What the printers read of Capstone's instructions. Capstone is not in the repository: its enums
-- are given by the enumerators that the code names, its numeric identifiers and its functions are
-- fields of `Capstone`. The two views of the detail union are separate fields.
use gtirb_pprinter.Prelude.{ℕ, Bool, Text, List}
use gtirb_pprinter.Prelude.Int.{ℤ}

pub data X86OpType : Type 0 where
  reg imm mem invalid : X86OpType

pub record X86Mem : Type 0 where
  pub segment : ℕ
  pub base : ℕ
  pub index : ℕ
  pub scale : ℕ
  pub disp : ℤ

pub record X86Op : Type 0 where
  pub kind : X86OpType
  pub reg : ℕ
  pub imm : ℤ
  pub mem : X86Mem
  pub size : ℕ

-- `operands` is the whole array, of which the first `op_count` are in use.
pub record X86 : Type 0 where
  pub operands : List X86Op
  pub op_count : ℕ
  pub imm_offset : ℕ
  pub disp_offset : ℕ

pub data Arm64OpType : Type 0 where
  reg imm mem fp cimm reg_mrs reg_msr pstate sys prefetch barrier invalid : Arm64OpType

pub data Arm64Shifter : Type 0 where
  sft_invalid lsl msl lsr asr ror : Arm64Shifter

pub data Arm64Extender : Type 0 where
  ext_invalid uxtb uxth uxtw uxtx sxtb sxth sxtw sxtx : Arm64Extender

pub data Arm64Barrier : Type 0 where
  oshld oshst osh nshld nshst nsh ishld ishst ish ld st sy barrier_invalid : Arm64Barrier

pub data Arm64Prefetch : Type 0 where
  pldl1keep pldl1strm pldl2keep pldl2strm pldl3keep pldl3strm : Arm64Prefetch
  plil1keep plil1strm plil2keep plil2strm plil3keep plil3strm : Arm64Prefetch
  pstl1keep pstl1strm pstl2keep pstl2strm pstl3keep pstl3strm : Arm64Prefetch
  prefetch_invalid : Arm64Prefetch

pub record Arm64Mem : Type 0 where
  pub base : ℕ
  pub index : ℕ
  pub disp : ℤ

-- `fp` is the floating-point operand as the stream writes it.
pub record Arm64Op : Type 0 where
  pub kind : Arm64OpType
  pub reg : ℕ
  pub imm : ℤ
  pub mem : Arm64Mem
  pub fp : Text
  pub prefetch : Arm64Prefetch
  pub barrier : Arm64Barrier
  pub shift_type : Arm64Shifter
  pub shift_value : ℕ
  pub ext : Arm64Extender

pub record Arm64 : Type 0 where
  pub operands : List Arm64Op
  pub op_count : ℕ
  pub writeback : Bool

pub record Insn : Type 0 where
  pub id : ℕ
  pub address : ℕ
  pub size : ℕ
  pub mnemonic : Text
  pub op_str : Text
  pub first_group : ℕ
  pub x86 : X86
  pub arm64 : Arm64

pub record Capstone : Type 0 where
  pub movsb : ℕ
  pub movsw : ℕ
  pub movsd : ℕ
  pub movsq : ℕ
  pub stosb : ℕ
  pub stosw : ℕ
  pub stosd : ℕ
  pub stosq : ℕ
  pub imul : ℕ
  pub endbr64 : ℕ
  pub nop : ℕ
  pub fxch : ℕ
  pub comisd : ℕ
  pub arm64_nop : ℕ
  pub grp_sse2 : ℕ
  pub grp_call : ℕ
  pub grp_jump : ℕ
  pub arm64_grp_jump : ℕ
  pub reg_invalid : ℕ
  pub reg_name : ℕ → Text
  pub in_group : Insn → ℕ → Bool
  pub disasm : List ℕ → ℕ → ℕ → List Insn
