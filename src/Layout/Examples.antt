-- ===== src/Layout/Examples.antt =====
-- Runs and instances of the theorems about src/gtirb_layout/gtirb_layout.cpp.
use gtirb_pprinter.Prelude.{
  true, false, none, some, List, [], ◌∷◌, ◌≡◌, refl, if◌then◌else◌, ◌==◌, Bool, inl, inr, arith,
  sym, subst,
}
use gtirb_pprinter.Layout.Ir.{ByteInterval, Section, Cfg, code_block, fallthrough}
use gtirb_pprinter.Layout.Ir.{get_outgoing_edges}
use gtirb_pprinter.Layout.{
  find_and_merge_bis, assign, layout_sections, layout_module, remove_module_layout,
}
use gtirb_pprinter.Layout.Scan.{IsSettled}
use gtirb_pprinter.Layout.Intervals.{total_size}
use gtirb_pprinter.Layout.Merge.{find_and_merge_bis_total, find_and_merge_bis-IsSettled}
use gtirb_pprinter.Layout.Located.{IsWhole, IsSound, Located, find_and_merge_bis-Located}
use gtirb_pprinter.Layout.Addresses.{
  Packed, InOrder, layout_module-Packed, remove_module_layout-layout_module,
}

-- Block 11 fills interval 1 and falls through to block 22, the first of interval 2.
abbrev first : ByteInterval
first = record {
  uuid = 1;
  address = none;
  size = 2;
  bytes = 0x90 ∷ 0x91 ∷ [];
  code_blocks = record { uuid = 11; offset = 0; size = 2 } ∷ [];
  data_blocks = [];
  symbolic_expressions = [];
}

abbrev second : ByteInterval
second = record {
  uuid = 2;
  address = none;
  size = 3;
  bytes = 0xc3 ∷ 1 ∷ 2 ∷ [];
  code_blocks = record { uuid = 22; offset = 0; size = 1 } ∷ [];
  data_blocks = record { uuid = 23; offset = 1; size = 2 } ∷ [];
  symbolic_expressions = [];
}

abbrev graph : Cfg
graph = record {
  vertices = code_block 22 ∷ code_block 11 ∷ [];
  out_edges = λ v.
      if v == 1
      then record { source = 1; target = 0; kind = fallthrough; on_true = false; is_direct = true }
        ∷ []
      else [];
}

abbrev split : List Section
split = record { uuid = 5; byte_intervals = second ∷ first ∷ [] } ∷ []

abbrev joined : ByteInterval
joined = record {
  uuid = 1;
  address = some 0;
  size = 5;
  bytes = 0x90 ∷ 0x91 ∷ 0xc3 ∷ 1 ∷ 2 ∷ [];
  code_blocks =
      record { uuid = 11; offset = 0; size = 2 } ∷ record { uuid = 22; offset = 2; size = 1 } ∷ [];
  data_blocks = record { uuid = 23; offset = 3; size = 2 } ∷ [];
  symbolic_expressions = [];
}

abbrev laid : List Section
laid = record { uuid = 5; byte_intervals = joined ∷ [] } ∷ []

split-laid : layout_module graph split ≡ some (laid, true)
unfolding layout_module layout_sections find_and_merge_bis assign get_outgoing_edges
split-laid = refl

-- Block 12 is the last of its interval and falls through to block 22, but only the edges of
-- block 11 are looked at: nothing is merged.
abbrev two_blocks : ByteInterval
two_blocks = record {
  uuid = 1;
  address = none;
  size = 2;
  bytes = 0x90 ∷ 0x91 ∷ [];
  code_blocks =
      record { uuid = 11; offset = 0; size = 1 } ∷ record { uuid = 12; offset = 1; size = 1 } ∷ [];
  data_blocks = [];
  symbolic_expressions = [];
}

abbrev chain : Cfg
chain = record {
  vertices = code_block 11 ∷ code_block 12 ∷ code_block 22 ∷ [];
  out_edges = λ v.
      if v == 0
      then record { source = 0; target = 1; kind = fallthrough; on_true = false; is_direct = true }
        ∷ []
      else if v == 1
      then record { source = 1; target = 2; kind = fallthrough; on_true = false; is_direct = true }
        ∷ []
      else [];
}

last_block_ignored :
    find_and_merge_bis chain (two_blocks ∷ second ∷ []) ≡ some (two_blocks ∷ second ∷ [], true)
unfolding find_and_merge_bis get_outgoing_edges
last_block_ignored = refl

layout_module-Packed_example :
    Packed 0 (joined ∷ [])
    × InOrder (joined ∷ [])
    × (total_size (joined ∷ []) ≡ total_size (second ∷ first ∷ []))
layout_module-Packed_example =
    layout_module-Packed graph split laid (omega arith) (omega arith) split-laid

-- the same bytes at another address
abbrev elsewhere : List Section
elsewhere = record { uuid = 5; byte_intervals = record joined { address = some 4096 } ∷ [] } ∷ []

nothing_to_merge :
    find_and_merge_bis graph (record joined { address = some 4096 } ∷ [])
    ≡ some (record joined { address = some 4096 } ∷ [], true)
unfolding find_and_merge_bis get_outgoing_edges
nothing_to_merge = refl

laid_again : layout_module graph elsewhere ≡ some (laid, true)
unfolding layout_module layout_sections find_and_merge_bis assign get_outgoing_edges
laid_again = refl

remove_module_layout-layout_module_example :
    (remove_module_layout laid).0 ≡ (remove_module_layout elsewhere).0
remove_module_layout-layout_module_example =
    remove_module_layout-layout_module graph elsewhere laid (nothing_to_merge, tt) laid_again

find_and_merge_bis_total_example :
    (r : List ByteInterval × Bool) × (find_and_merge_bis graph (second ∷ first ∷ []) ≡ some r)
find_and_merge_bis_total_example = find_and_merge_bis_total graph (second ∷ first ∷ [])

merged :
    find_and_merge_bis graph (second ∷ first ∷ [])
    ≡ some (record joined { address = none } ∷ [], true)
unfolding find_and_merge_bis get_outgoing_edges
merged = refl

second-IsWhole : IsWhole second
second-IsWhole = (refl, λ b i. ground arith)

first-IsWhole : IsWhole first
first-IsWhole = (refl, λ b i. ground arith)

split-IsSound : IsSound (second ∷ first ∷ [])
split-IsSound = record {
  distinct = omega arith;
  fits = omega arith;
  whole = λ bi i. elim i [
    | inl e ↦ subst IsWhole (sym e) second-IsWhole
    | inr (inl e) ↦ subst IsWhole (sym e) first-IsWhole
    | inr (inr z) ↦ absurd z
  ];
}

find_and_merge_bis-Located_example :
    IsSound (record joined { address = none } ∷ [])
    × Located (record joined { address = none } ∷ []) 23 (1 ∷ 2 ∷ [])
find_and_merge_bis-Located_example =
    find_and_merge_bis-Located graph (second ∷ first ∷ []) (record joined { address = none } ∷ [])
      true 23 (1 ∷ 2 ∷ []) split-IsSound merged
      (second, record { uuid = 23; offset = 1; size = 2 }, inl refl, inr (inl refl), refl, refl)

find_and_merge_bis-IsSettled_example :
    (IsSettled graph (second ∷ first ∷ [])
      → find_and_merge_bis graph (second ∷ first ∷ []) ≡ some (second ∷ first ∷ [], true))
    × ((bis : List ByteInterval)
        → find_and_merge_bis graph (second ∷ first ∷ []) ≡ some (bis, true)
        → IsSettled graph bis)
find_and_merge_bis-IsSettled_example = find_and_merge_bis-IsSettled graph (second ∷ first ∷ [])
