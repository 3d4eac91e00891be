-- ===== src/Training.antt =====
-- python/dist_graphSage.py: the neighbour sampler and the GraphSAGE model.
pub mod Blocks
pub mod Layers
pub mod Inference
pub mod Run
pub mod Main
mod Tests
use bear_rpc.Base.{
  ℕ, zero, suc, ◌+◌, ◌-◌, Bool, true, false, Option, none, some, List, [], ◌∷◌, ◌++◌, map, length,
  if◌then◌else◌, ◌==◌, ℤ, Result, ok, raise, index_error, ◌>>=◌,
}

-- What the sampler uses of DGL: a graph with the rows of its features and labels, and sampled
-- frontiers that are compacted into blocks, which know the IDs of their source and destination nodes.
-- A sample takes its randomness from the world and changes it.
pub record Dgl : Type 1 where
  pub Graph : Type 0
  pub Frontier : Type 0
  pub Bipartite : Type 0
  pub Feature : Type 0
  pub Label : Type 0
  pub World : Type 0
  pub feature : Graph → ℕ → Feature
  pub label : Graph → ℕ → Label
  pub sample_neighbors : Graph → List ℕ → ℤ → World → Frontier × World
  pub to_block : Frontier → List ℕ → Bipartite
  pub src_nid : Bipartite → List ℕ
  pub dst_nid : Bipartite → List ℕ

-- A block with srcdata['features'] and dstdata['labels'], where they are set.
pub record Block (dgl : Dgl) : Type 0 where
  pub bipartite : dgl.Bipartite
  pub features : Option (List dgl.Feature)
  pub labels : Option (List dgl.Label)

pub record NeighborSampler (dgl : Dgl) : Type 0 where
  pub g : dgl.Graph
  pub fanouts : List ℤ
  pub load_feat : Bool

module _ (dgl : Dgl) where
  unfoldable pub load_subtensor :
      dgl.Graph → List ℕ → List ℕ → Bool → Option (List dgl.Feature) × List dgl.Label
  load_subtensor g seeds input_nodes load_feat =
      (if load_feat then some (map (dgl.feature g) input_nodes) else none, map (dgl.label g) seeds)

  -- The loop over the fanouts; `blocks` are those made so far, the latest first.
  unfoldable pub sample_layers :
      dgl.Graph → List ℤ → List ℕ → List (Block dgl) → dgl.World → List (Block dgl) × dgl.World
  sample_layers g [] seeds blocks w = (blocks, w)
  sample_layers g (fanout ∷ fanouts) seeds blocks w =
      let (frontier, w') = dgl.sample_neighbors g seeds fanout w in
      let block = dgl.to_block frontier seeds in
      sample_layers g fanouts (dgl.src_nid block)
        (record { bipartite = block; features = none; labels = none } ∷ blocks) w'

  -- blocks[-1]
  unfoldable pub last_block : List (Block dgl) → Result (Block dgl)
  last_block [] = raise index_error
  last_block (b ∷ []) = ok b
  last_block (b ∷ c ∷ blocks) = last_block (c ∷ blocks)

  -- blocks[-1].dstdata['labels'] = labels
  unfoldable pub set_labels : List dgl.Label → List (Block dgl) → List (Block dgl)
  set_labels labels [] = []
  set_labels labels (b ∷ []) = record b { labels = some labels } ∷ []
  set_labels labels (b ∷ c ∷ blocks) = b ∷ set_labels labels (c ∷ blocks)

  -- blocks[0].srcdata['features'] = features, if they were loaded
  unfoldable pub set_features : Option (List dgl.Feature) → List (Block dgl) → List (Block dgl)
  set_features none blocks = blocks
  set_features (some features) [] = []
  set_features (some features) (b ∷ blocks) = record b { features = some features } ∷ blocks

  -- What is done with the blocks behind the loop.
  unfoldable pub attach : NeighborSampler dgl → List (Block dgl) → Result (List (Block dgl))
  unfolding load_subtensor last_block set_labels set_features
  attach sampler [] = raise index_error
  attach sampler (b ∷ blocks) = do
    last ← last_block (b ∷ blocks)
    let (features, labels) =
        load_subtensor sampler.g (dgl.dst_nid last.bipartite) (dgl.src_nid b.bipartite)
          sampler.load_feat
    ok (set_labels labels (set_features features (b ∷ blocks)))

  unfoldable pub sample_blocks :
      NeighborSampler dgl → List ℕ → dgl.World → Result (List (Block dgl)) × dgl.World
  unfolding sample_layers attach
  sample_blocks sampler seeds w =
      let (blocks, w') = sample_layers sampler.g sampler.fanouts seeds [] w in
      (attach sampler blocks, w')

-- dglnn.SAGEConv(in_feats, out_feats, 'mean'), by its two widths
pub record SageConv : Type 0 where
  pub in_feats : ℕ
  pub out_feats : ℕ

-- The layers that the loop over range(1, n_layers - 1) appends, by their number.
unfoldable pub hidden_layers : ℕ → ℕ → List SageConv
hidden_layers n_hidden zero = []
hidden_layers n_hidden (suc n) =
    record { in_feats = n_hidden; out_feats = n_hidden } ∷ hidden_layers n_hidden n

-- self.layers of a DistSAGE(in_feats, n_hidden, n_classes, n_layers, …)
unfoldable pub layers : ℕ → ℕ → ℕ → ℕ → List SageConv
unfolding hidden_layers
layers in_feats n_hidden n_classes n_layers =
    record { in_feats = in_feats; out_feats = n_hidden }
    ∷ (hidden_layers n_hidden (n_layers - 2)
        ++ record { in_feats = n_hidden; out_feats = n_classes } ∷ [])

-- What a layer computes on a block, for tensors of some kind, and the activation with the dropout
-- behind it. A layer may refuse a tensor.
module _ {B H : Type 0} (apply : SageConv → B → H → Result H) (activation : H → H) where
  -- The loop of `forward` from the layer l on, of `count` layers.
  unfoldable pub forward_from : ℕ → ℕ → List SageConv → List B → H → Result H
  forward_from count l [] blocks h = ok h
  forward_from count l (layer ∷ more) [] h = ok h
  forward_from count l (layer ∷ more) (block ∷ blocks) h = do
    h' ← apply layer block h
    forward_from count (l + 1) more blocks (if l + 1 == count then h' else activation h')

  unfoldable pub forward : List SageConv → List B → H → Result H
  unfolding forward_from
  forward self_layers blocks x = forward_from (length self_layers) 0 self_layers blocks x
