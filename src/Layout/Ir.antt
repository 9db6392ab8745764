-- ===== src/Layout/Ir.antt =====
-- The parts of the GTIRB data model that src/gtirb_layout/gtirb_layout.cpp reads and writes, and
-- its `Edge`. GTIRB itself is not in the repository: a node is known by its UUID, the containers
-- are lists in iteration order, and a graph is its vertices and the out-edges of each vertex.
use gtirb_pprinter.Prelude.{ℕ, Bool, false, Option, List, [], ◌∷◌, ◌==◌, ◌+◌}
use gtirb_pprinter.Prelude.{if◌then◌else◌, map, get_elem?}

-- a code block or a data block of a byte interval
pub record Block : Type 0 where
  pub uuid : ℕ
  pub offset : ℕ
  pub size : ℕ

-- a symbolic expression, by its identity, at an offset of its interval
pub record SymbolicElement : Type 0 where
  pub offset : ℕ
  pub expr : ℕ

pub record ByteInterval : Type 0 where
  pub uuid : ℕ
  pub address : Option ℕ
  pub size : ℕ
  pub bytes : List ℕ
  pub code_blocks : List Block
  pub data_blocks : List Block
  pub symbolic_expressions : List SymbolicElement

pub record Section : Type 0 where
  pub uuid : ℕ
  pub byte_intervals : List ByteInterval

pub data CfgNode : Type 0 where
  code_block : ℕ → CfgNode
  proxy_block : ℕ → CfgNode

-- The code tells fall-through edges from all others.
pub data EdgeType : Type 0 where
  fallthrough : EdgeType
  other : ℕ → EdgeType

-- What the graph stores of an edge: two vertices and the label.
pub record EdgeDescriptor : Type 0 where
  pub source : ℕ
  pub target : ℕ
  pub kind : EdgeType
  pub on_true : Bool
  pub is_direct : Bool

pub record Cfg : Type 0 where
  pub vertices : List CfgNode
  pub out_edges : ℕ → List EdgeDescriptor

pub record Edge : Type 0 where
  pub source : Option CfgNode
  pub target : Option CfgNode
  pub kind : EdgeType
  pub conditional : Bool
  pub direct : Bool

abbrev pub eq_node : CfgNode → CfgNode → Bool
eq_node (code_block a) (code_block b) = a == b
eq_node (code_block a) (proxy_block b) = false
eq_node (proxy_block a) (code_block b) = false
eq_node (proxy_block a) (proxy_block b) = a == b

-- the loop of `blockToCFGIndex`, at vertex `v`; 0 if no vertex holds the node
index_from : CfgNode → ℕ → List CfgNode → ℕ
index_from b v [] = 0
index_from b v (n ∷ ns) = let rest = index_from b (v + 1) ns in if eq_node n b then v else rest

unfoldable pub block_to_cfg_index : Cfg → CfgNode → ℕ
unfolding index_from
block_to_cfg_index cfg b = index_from b 0 cfg.vertices

unfoldable pub get_edge : Cfg → EdgeDescriptor → Edge
get_edge cfg e = record {
  source = get_elem? cfg.vertices e.source;
  target = get_elem? cfg.vertices e.target;
  kind = e.kind;
  conditional = e.on_true;
  direct = e.is_direct;
}

unfoldable pub get_outgoing_edges : Cfg → CfgNode → List Edge
unfolding block_to_cfg_index get_edge
get_outgoing_edges cfg b = map (get_edge cfg) (cfg.out_edges (block_to_cfg_index cfg b))
