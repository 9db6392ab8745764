-- ===== src/Layout/Scan.antt =====
-- What the search of `findAndMergeBIs` returns, and the membership of intervals in a section.
use gtirb_pprinter.Prelude.{
  ℕ, Option, none, some, List, [], ◌∷◌, All, ◌≡◌, ◌≢◌, refl, ◌⊎◌, inl, inr, arith, ==_refl,
}
use gtirb_pprinter.Layout.Ir.{Block, ByteInterval, CfgNode, EdgeType, Edge, Cfg}
use gtirb_pprinter.Layout.Ir.{code_block, proxy_block, fallthrough, other, get_outgoing_edges}
use gtirb_pprinter.Layout.{
  settled, merges, home, last_of, check_target, check_edge, check_home, check_node, check_edges,
  check_interval, scan,
}

abbrev pub In : {A : Type 0} → A → List A → Type 0
In a [] = ⊥
In a (x ∷ xs) = (a ≡ x) ⊎ In a xs

-- the two intervals of a merge lie in the section and differ
pub record CanMerge (bis : List ByteInterval) (s t : ByteInterval) : Type 0 where
  pub target_in : In t bis
  pub differ : s.uuid ≢ t.uuid

home-In :
    (u : ℕ) (bis : List ByteInterval) (bi : ByteInterval) (b : Block)
    → home u bis ≡ some (bi, b)
    → In bi bis
home-In u [] bi b h = cc
home-In u (x ∷ xs) bi b h = ground (arith, home-In u xs bi b)

abbrev Finds : List ByteInterval → ByteInterval → ByteInterval → ByteInterval → Type 0
Finds bis src s t = (s ≡ src) × CanMerge bis s t

module _ (bis : List ByteInterval) (src : ByteInterval) (last : Block) (s t : ByteInterval) where
  check_home-Finds :
      (o : Option (ByteInterval × Block))
      → ((bi : ByteInterval) (b : Block) → o ≡ some (bi, b) → In bi bis)
      → check_home src last o ≡ merges s t
      → Finds bis src s t
  unfolding check_home
  check_home-Finds none i h = absurd (cc)
  check_home-Finds (some (bi, b)) i h = ground (arith, i bi b)

  check_node-Finds :
      (o : Option CfgNode) → check_node bis src last o ≡ merges s t → Finds bis src s t
  unfolding check_node
  check_node-Finds none h = absurd (cc)
  check_node-Finds (some (proxy_block p)) h = absurd (cc)
  check_node-Finds (some (code_block u)) h = check_home-Finds (home u bis) (home-In u bis) h

  check_edge-Finds : (e : Edge) → check_edge bis src last e ≡ merges s t → Finds bis src s t
  unfolding check_edge
  check_edge-Finds e h = ground (arith, check_node-Finds e.target)

  check_edges-Finds :
      (es : List Edge) → check_edges bis src last es ≡ merges s t → Finds bis src s t
  unfolding check_edges
  check_edges-Finds [] h = absurd (cc)
  check_edges-Finds (e ∷ es) h = ground (arith, check_edge-Finds e, check_edges-Finds es)

module _ (cfg : Cfg) (bis : List ByteInterval) (s t : ByteInterval) where
  check_interval-Finds :
      (bi : ByteInterval) (bs : List Block)
      → check_interval cfg bis bi bs ≡ merges s t
      → Finds bis bi s t
  unfolding check_interval
  check_interval-Finds bi [] h = absurd (cc)
  check_interval-Finds bi (b ∷ bs) h =
      check_edges-Finds bis bi (last_of b bs) s t (get_outgoing_edges cfg (code_block b.uuid)) h

  -- The intervals that the search returns are two different ones of the section.
  pub scan-CanMerge :
      (rest : List ByteInterval) → scan cfg bis rest ≡ merges s t → In s rest × CanMerge bis s t
  unfolding scan
  scan-CanMerge [] h = absurd (cc)
  scan-CanMerge (bi ∷ rest) h =
      ground (arith, check_interval-Finds bi bi.code_blocks, scan-CanMerge rest)

-- the edges that the code looks at: those out of the first code block
abbrev pub first_edges : Cfg → List Block → List Edge
first_edges cfg [] = []
first_edges cfg (b ∷ bs) = get_outgoing_edges cfg (code_block b.uuid)

-- a fall-through edge into a code block of the same interval, or another kind of edge
abbrev pub StaysIn : List ByteInterval → ByteInterval → Edge → Type 0
StaysIn bis bi e =
    e.kind ≡ fallthrough
    → (u : ℕ) × (there : ByteInterval) × (b : Block) × (e.target ≡ some (code_block u))
      × (home u bis ≡ some (there, b))
      × (there.uuid ≡ bi.uuid)

abbrev pub IsSettled : Cfg → List ByteInterval → Type 0
IsSettled cfg bis =
    (bi : ByteInterval) → In bi bis → All (StaysIn bis bi) (first_edges cfg bi.code_blocks)

module _ (bis : List ByteInterval) (src : ByteInterval) (last : Block) where
  check_home-settled :
      (o : Option (ByteInterval × Block))
      → check_home src last o ≡ settled
      → (there : ByteInterval) × (b : Block) × (o ≡ some (there, b)) × (there.uuid ≡ src.uuid)
  unfolding check_home
  check_home-settled none h = absurd (cc)
  check_home-settled (some (bi, b)) h = (bi, b, refl, ground arith)

  check_node-settled :
      (o : Option CfgNode)
      → check_node bis src last o ≡ settled
      → (u : ℕ) × (there : ByteInterval) × (b : Block) × (o ≡ some (code_block u))
        × (home u bis ≡ some (there, b))
        × (there.uuid ≡ src.uuid)
  unfolding check_node
  check_node-settled none h = absurd (cc)
  check_node-settled (some (proxy_block p)) h = absurd (cc)
  check_node-settled (some (code_block u)) h =
      let (there, b, e, q) = check_home-settled (home u bis) h in (u, there, b, refl, e, q)

  check_edge-settled : (e : Edge) → check_edge bis src last e ≡ settled → StaysIn bis src e
  unfolding check_edge
  check_edge-settled e h k = check_node-settled e.target (rw (k, check_edge) at h)

  check_edges-settled :
      (es : List Edge) → check_edges bis src last es ≡ settled → All (StaysIn bis src) es
  unfolding check_edges
  check_edges-settled [] h = tt
  check_edges-settled (e ∷ es) h =
      (check_edge-settled e (ground arith), check_edges-settled es (ground arith))

module _ (cfg : Cfg) (bis : List ByteInterval) where
  check_interval-settled :
      (bi : ByteInterval) (bs : List Block)
      → check_interval cfg bis bi bs ≡ settled
      → All (StaysIn bis bi) (first_edges cfg bs)
  unfolding check_interval
  check_interval-settled bi [] h = tt
  check_interval-settled bi (b ∷ bs) h = check_edges-settled bis bi (last_of b bs) _ h

  -- A search that finds nothing has looked at every interval.
  pub scan-settled :
      (rest : List ByteInterval)
      → scan cfg bis rest ≡ settled
      → (bi : ByteInterval) → In bi rest
      → All (StaysIn bis bi) (first_edges cfg bi.code_blocks)
  unfolding scan
  scan-settled [] h bi i = absurd i
  scan-settled (x ∷ rest) h bi (inl e) =
      rw e (check_interval-settled x x.code_blocks (ground arith))
  scan-settled (x ∷ rest) h bi (inr i) = scan-settled rest (ground arith) bi i

check_edge_stays :
    (bis : List ByteInterval) (src : ByteInterval) (last : Block) (e : Edge)
    → StaysIn bis src e
    → check_edge bis src last e ≡ settled
unfolding check_edge check_node check_home check_target
check_edge_stays bis src last e h = go e.kind refl
  where
    go : (k : EdgeType) → e.kind ≡ k → check_edge bis src last e ≡ settled
    go (other n) q = rw (q, check_edge)
    go fallthrough q =
        let (u, there, b, t, m, same) = h q in
        rw (q, t, m, check_edge) (rw same (rw (==_refl src.uuid)))

check_edges_stay :
    (bis : List ByteInterval) (src : ByteInterval) (last : Block) (es : List Edge)
    → All (StaysIn bis src) es
    → check_edges bis src last es ≡ settled
unfolding check_edges
check_edges_stay bis src last [] h = refl
check_edges_stay bis src last (e ∷ es) (h, hs) =
    rw (check_edge_stays bis src last e h, check_edges) (check_edges_stay bis src last es hs)

module _ (cfg : Cfg) (bis : List ByteInterval) where
  check_interval_stays :
      (bi : ByteInterval) (bs : List Block)
      → All (StaysIn bis bi) (first_edges cfg bs)
      → check_interval cfg bis bi bs ≡ settled
  unfolding check_interval
  check_interval_stays bi [] h = refl
  check_interval_stays bi (b ∷ bs) h = check_edges_stay bis bi (last_of b bs) _ h

  -- Only the edges out of the first block of each interval are looked at.
  pub scan_stays :
      (rest : List ByteInterval)
      → ((bi : ByteInterval) → In bi rest → All (StaysIn bis bi) (first_edges cfg bi.code_blocks))
      → scan cfg bis rest ≡ settled
  unfolding scan
  scan_stays [] h = refl
  scan_stays (x ∷ rest) h =
      rw (check_interval_stays x x.code_blocks (h x (inl refl)), scan)
        (scan_stays rest (λ bi i. h bi (inr i)))
