-- ===== src/Layout.antt =====
-- src/gtirb_layout/gtirb_layout.cpp: merging of byte intervals and assignment of addresses.
-- Assertions are compiled out, as in a release build: what follows a failed one is modelled.
pub mod Ir
pub mod Scan
pub mod Intervals
pub mod Merge
pub mod Slices
pub mod Located
pub mod Addresses
mod Examples
use gtirb_pprinter.Prelude.{
  ℕ, zero, suc, ◌+◌, ◌==◌, if◌then◌else◌, Bool, true, false, Option, none, some, List, [], ◌∷◌,
  ◌++◌, map, length, not,
}
use gtirb_pprinter.Prelude.Number.{add64}
use Ir.{Block, SymbolicElement, ByteInterval, Section, CfgNode, EdgeType, Edge, Cfg}
use Ir.{code_block, proxy_block, fallthrough, other, get_outgoing_edges}

-- What one round of the search finds: nothing to do, a reason to return false, or two intervals to
-- merge.
pub data Outcome : Type 0 where
  settled : Outcome
  refused : Outcome
  merges : ByteInterval → ByteInterval → Outcome

abbrev pub find_block : ℕ → List Block → Option Block
find_block u [] = none
find_block u (b ∷ bs) = if b.uuid == u then some b else find_block u bs

-- the interval of the section that holds a code block, with the block: `Target->getByteInterval()`
abbrev pub home : ℕ → List ByteInterval → Option (ByteInterval × Block)
home u [] = none
home u (bi ∷ bis) = elim (find_block u bi.code_blocks) [ none ↦ home u bis | some b ↦ some (bi, b) ]

abbrev pub last_of : Block → List Block → Block
last_of b [] = b
last_of b (c ∷ bs) = last_of c bs

-- the checks on a fall-through edge into a code block of this section
pub check_target : ByteInterval → Block → ByteInterval → Block → Outcome
check_target source_bi source target_bi target =
    if source_bi.uuid == target_bi.uuid
    then settled
    else if not (source.offset + source.size == source_bi.size)
    then refused
    else if not (target.offset == 0)
    then refused
    else merges source_bi target_bi

-- a target that is in no interval of this section is in another one
pub check_home : ByteInterval → Block → Option (ByteInterval × Block) → Outcome
unfolding check_target
check_home source_bi source none = refused
check_home source_bi source (some (target_bi, target)) =
    check_target source_bi source target_bi target

pub check_node : List ByteInterval → ByteInterval → Block → Option CfgNode → Outcome
unfolding check_home
check_node bis source_bi source none = refused
check_node bis source_bi source (some (proxy_block p)) = refused
check_node bis source_bi source (some (code_block t)) = check_home source_bi source (home t bis)

pub check_edge : List ByteInterval → ByteInterval → Block → Edge → Outcome
unfolding check_node
check_edge bis source_bi source e = elim e.kind [
  | other k ↦ settled
  | fallthrough ↦ check_node bis source_bi source e.target
]

pub check_edges : List ByteInterval → ByteInterval → Block → List Edge → Outcome
unfolding check_edge
check_edges bis source_bi source [] = settled
check_edges bis source_bi source (e ∷ es) =
    let rest = check_edges bis source_bi source es in
    elim (check_edge bis source_bi source e) [
      | settled ↦ rest
      | refused ↦ refused
      | merges s t ↦ merges s t
    ]

-- The out-edges are those of the first code block of the interval; `source` is the last one.
pub check_interval : Cfg → List ByteInterval → ByteInterval → List Block → Outcome
unfolding check_edges
check_interval cfg bis source_bi [] = settled
check_interval cfg bis source_bi (b ∷ bs) =
    check_edges bis source_bi (last_of b bs) (get_outgoing_edges cfg (code_block b.uuid))

-- the outer loop, over the intervals that are left
pub scan : Cfg → List ByteInterval → List ByteInterval → Outcome
unfolding check_interval
scan cfg bis [] = settled
scan cfg bis (bi ∷ rest) =
    let later = scan cfg bis rest in
    elim (check_interval cfg bis bi bi.code_blocks) [
      | settled ↦ later
      | refused ↦ refused
      | merges s t ↦ merges s t
    ]

abbrev pub shift_block : ℕ → Block → Block
shift_block base b = record b { offset = base + b.offset }

abbrev pub shift_element : ℕ → SymbolicElement → SymbolicElement
shift_element base e = record e { offset = base + e.offset }

abbrev pub take_bytes : ℕ → List ℕ → List ℕ
take_bytes zero bs = []
take_bytes (suc n) [] = []
take_bytes (suc n) (b ∷ bs) = b ∷ take_bytes n bs

abbrev pub drop_bytes : ℕ → List ℕ → List ℕ
drop_bytes zero bs = bs
drop_bytes (suc n) [] = []
drop_bytes (suc n) (b ∷ bs) = drop_bytes n bs

-- `SourceBI` after the merge. Offsets stay below the size, so they do not wrap.
pub merge_intervals : ByteInterval → ByteInterval → ByteInterval
merge_intervals source target = record source {
  size = add64 source.size target.size;
  code_blocks = source.code_blocks ++ map (shift_block source.size) target.code_blocks;
  data_blocks = source.data_blocks ++ map (shift_block source.size) target.data_blocks;
  symbolic_expressions =
      source.symbolic_expressions ++ map (shift_element source.size) target.symbolic_expressions;
  bytes =
      take_bytes source.size source.bytes ++ (target.bytes ++ drop_bytes source.size source.bytes);
}

-- the section's list with `SourceBI` merged and `TargetBI` removed
abbrev pub replace : ByteInterval → List ByteInterval → List ByteInterval
replace n [] = []
replace n (bi ∷ bis) = if bi.uuid == n.uuid then n ∷ bis else bi ∷ replace n bis

abbrev pub remove : ℕ → List ByteInterval → List ByteInterval
remove u [] = []
remove u (bi ∷ bis) = if bi.uuid == u then bis else bi ∷ remove u bis

-- One call of `findAndMergeBIs` and the calls that it makes in tail position: the intervals left,
-- and the result. `none` is fuel that ran out.
pub find_and_merge : ℕ → Cfg → List ByteInterval → Option (List ByteInterval × Bool)
unfolding scan merge_intervals
find_and_merge zero cfg bis = none
find_and_merge (suc f) cfg bis = elim (scan cfg bis bis) [
  | settled ↦ some (bis, true)
  | refused ↦ some (bis, false)
  | merges s t ↦ find_and_merge f cfg (remove t.uuid (replace (merge_intervals s t) bis))
]

-- Each call removes an interval.
pub find_and_merge_bis : Cfg → List ByteInterval → Option (List ByteInterval × Bool)
unfolding find_and_merge
find_and_merge_bis cfg bis = find_and_merge (suc (length bis)) cfg bis

-- `for (auto& BI : ...) { BI.setAddress(A); A += BI.getSize(); }`: the intervals and the new `A`
pub assign : ℕ → List ByteInterval → List ByteInterval × ℕ
assign a [] = ([], a)
assign a (bi ∷ bis) =
    let (rest, a') = assign (add64 a bi.size) bis in (record bi { address = some a } ∷ rest, a')

-- `layoutModule` over the sections that are left. When a section fails, it and the later ones
-- stay as they are.
pub layout_sections : Cfg → ℕ → List Section → Option (List Section × Bool)
layout_sections cfg a [] = some ([], true)
layout_sections cfg a (s ∷ ss) = elim (find_and_merge_bis cfg s.byte_intervals) [
  | none ↦ none
  | some (bis, false) ↦ some (record s { byte_intervals = bis } ∷ ss, false)
  | some (bis, true) ↦
      let (laid, a') = assign a bis in
      elim (layout_sections cfg a' ss) [
        | none ↦ none
        | some (rest, ok) ↦ some (record s { byte_intervals = laid } ∷ rest, ok)
      ]
]

pub layout_module : Cfg → List Section → Option (List Section × Bool)
unfolding layout_sections
layout_module cfg sections = layout_sections cfg 0 sections

pub clear : List ByteInterval → List ByteInterval
clear = map (λ (bi : ByteInterval). record bi { address = none })

pub remove_module_layout : List Section → List Section × Bool
unfolding clear
remove_module_layout sections =
    (map (λ (s : Section). record s { byte_intervals = clear s.byte_intervals }) sections, true)
