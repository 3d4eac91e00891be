-- ===== src/Training/Tests.antt =====
-- python/dist_graphSage.py: a sampling on a path of nodes, and a model over the widths of tensors.
use bear_rpc.Base.{
  ℕ, ◌+◌, ◌≡◌, refl, ◌==◌, true, none, some, List, [], ◌∷◌, ◌++◌, map, length, if◌then◌else◌, pos,
  Result, ok, raise, value_error, arith, ==_iff,
}
use bear_rpc.Training.{Dgl, Block, NeighborSampler, sample_blocks, SageConv, layers, forward}
use bear_rpc.Training.Blocks.{
  IsToBlock, input_nodes, Linked, input_features, output_labels, sample_blocks_lem,
}
use bear_rpc.Training.Layers.{IsConv, KeepsWidth, forward_lem, forward-one_layer}

-- Each node has the next one as its neighbour; a block is the pair of its source and destination
-- nodes.
abbrev pub path : Dgl
path = record {
  Graph = Unit {0};
  Frontier = List ℕ;
  Bipartite = List ℕ × List ℕ;
  Feature = ℕ;
  Label = ℕ;
  World = Unit {0};
  feature = λ g v. v + 100;
  label = λ g v. v + 200;
  sample_neighbors = λ g seeds fanout w. (map (λ v. v + 1) seeds, w);
  to_block = λ frontier seeds. (seeds ++ frontier, seeds);
  src_nid = λ b. b.0;
  dst_nid = λ b. b.1;
}

abbrev sampler : NeighborSampler path
sampler = record { g = tt; fanouts = pos 10 ∷ pos 25 ∷ []; load_feat = true }

sampled :
    (sample_blocks path sampler (7 ∷ []) tt).0
    ≡ ok (
        record {
          bipartite = (7 ∷ 8 ∷ 8 ∷ 9 ∷ [], 7 ∷ 8 ∷ []);
          features = some (107 ∷ 108 ∷ 108 ∷ 109 ∷ []);
          labels = none;
        }
        ∷ record { bipartite = (7 ∷ 8 ∷ [], 7 ∷ []); features = none; labels = some (207 ∷ []) }
        ∷ [])
unfolding sample_blocks
sampled = refl

sample_blocks_lem_example :
    (blocks : List (Block path)) × ((sample_blocks path sampler (7 ∷ []) tt).0 ≡ ok blocks)
    × (length blocks ≡ length sampler.fanouts)
    × Linked path blocks (7 ∷ [])
    × (input_features path blocks ≡ (
        if sampler.load_feat
        then some (map (path.feature sampler.g) (input_nodes path blocks (7 ∷ [])))
        else none))
    × (output_labels path blocks ≡ some (map (path.label sampler.g) (7 ∷ [])))
unfolding IsToBlock
sample_blocks_lem_example =
    sample_blocks_lem path sampler (7 ∷ []) tt (λ frontier seeds. refl) (λ e. cc)

-- A tensor is its width; a layer refuses a tensor of another width.
abbrev apply : SageConv → Unit {0} → ℕ → Result ℕ
apply c b h = if h == c.in_feats then ok c.out_feats else raise value_error

abbrev identity : ℕ → ℕ
identity h = h

apply-IsConv : IsConv apply identity identity
unfolding IsConv
apply-IsConv c b h e = (c.out_feats, rw ((==_iff h c.in_feats).1 e) refl, refl)

forward_lem_example :
    (y : ℕ) × (forward apply identity (layers (identity 50) 16 7 3) (tt ∷ tt ∷ tt ∷ []) 50 ≡ ok y)
    × (identity y ≡ 7)
unfolding KeepsWidth
forward_lem_example =
    forward_lem apply identity identity 16 7 3 (tt ∷ tt ∷ tt ∷ []) 50 apply-IsConv (λ h. refl)
      (omega arith)

forward-one_layer_example :
    (y : ℕ) × (forward apply identity (layers (identity 50) 16 7 1) (tt ∷ []) 50 ≡ ok y)
    × (identity y ≡ 16)
unfolding KeepsWidth
forward-one_layer_example =
    forward-one_layer apply identity identity 16 7 tt 50 apply-IsConv (λ h. refl)

abbrev conv : SageConv
conv = record { in_feats = 4; out_feats = 4 }

-- A layer on its block, with another one behind it.
abbrev front : List (SageConv × Unit {0})
front = (conv, tt) ∷ []
