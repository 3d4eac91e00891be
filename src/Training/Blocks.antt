-- ===== src/Training/Blocks.antt =====
-- python/dist_graphSage.py: the blocks that the neighbour sampler makes.
use bear_rpc.Base.{
  ℕ, suc, ◌+◌, ◌≡◌, ◌≢◌, refl, sym, ap, ◌∙◌, Bool, true, false, Option, none, some, List, [], ◌∷◌,
  map, arith, length, if◌then◌else◌, ℤ, ok,
}
use bear_rpc.Training.{
  Dgl, Block, NeighborSampler, load_subtensor, sample_layers, last_block, set_labels, set_features,
  attach, sample_blocks,
}

-- The destination nodes of a block are the given ones, in their order, as `dgl.to_block` documents.
unfoldable pub IsToBlock : Dgl → Type 0
IsToBlock dgl =
    (frontier : dgl.Frontier) (seeds : List ℕ) → dgl.dst_nid (dgl.to_block frontier seeds) ≡ seeds

nonempty :
    {A B : Type 0} (xs : List A) (ys : List B)
    → xs ≢ []
    → length ys ≡ length xs + length {A = B} []
    → ys ≢ []
nonempty [] ys h e = absurd (h refl)
nonempty (x ∷ xs) [] h e = omega arith
nonempty (x ∷ xs) (y ∷ ys) h e = λ p. cc

module _ (dgl : Dgl) where
  -- The nodes that the first block reads, and those behind an empty list.
  pub input_nodes : List (Block dgl) → List ℕ → List ℕ
  input_nodes [] seeds = seeds
  input_nodes (b ∷ blocks) seeds = dgl.src_nid b.bipartite

  -- Each block ends at the nodes at which the next one starts, and the last one at the seeds.
  pub Linked : List (Block dgl) → List ℕ → Type 0
  unfolding input_nodes
  Linked [] seeds = Unit
  Linked (b ∷ blocks) seeds =
      (dgl.dst_nid b.bipartite ≡ input_nodes blocks seeds) × Linked blocks seeds

  unfoldable pub input_features : List (Block dgl) → Option (List dgl.Feature)
  input_features [] = none
  input_features (b ∷ blocks) = b.features

  unfoldable pub output_labels : List (Block dgl) → Option (List dgl.Label)
  output_labels [] = none
  output_labels (b ∷ []) = b.labels
  output_labels (b ∷ c ∷ blocks) = output_labels (c ∷ blocks)

  length-sample_layers :
      (g : dgl.Graph) (fanouts : List ℤ) (seeds : List ℕ) (blocks : List (Block dgl))
      (w : dgl.World)
      → length (sample_layers dgl g fanouts seeds blocks w).0 ≡ length fanouts + length blocks
  unfolding sample_layers
  length-sample_layers g [] seeds blocks w = omega arith
  length-sample_layers g (fanout ∷ fanouts) seeds blocks w =
      let (frontier, w') = dgl.sample_neighbors g seeds fanout w in
      let block = dgl.to_block frontier seeds in
      omega (
        arith,
        length-sample_layers g fanouts (dgl.src_nid block)
            (record { bipartite = block; features = none; labels = none } ∷ blocks) w',
      )

  sample_layers_lem :
      (g : dgl.Graph) (fanouts : List ℤ) (seeds : List ℕ) (blocks : List (Block dgl))
      (w : dgl.World)
      → IsToBlock dgl
      → Linked blocks seeds
      → input_features blocks ≡ none
      → let sampled = (sample_layers dgl g fanouts (input_nodes blocks seeds) blocks w).0 in
        Linked sampled seeds × (input_features sampled ≡ none)
  unfolding sample_layers Linked input_nodes input_features IsToBlock
  sample_layers_lem g [] seeds blocks w to_block linked unset = (linked, unset)
  sample_layers_lem g (fanout ∷ fanouts) seeds blocks w to_block linked unset =
      let current = input_nodes blocks seeds in
      let (frontier, w') = dgl.sample_neighbors g current fanout w in
      let block = dgl.to_block frontier current in
      sample_layers_lem g fanouts seeds
        (record { bipartite = block; features = none; labels = none } ∷ blocks) w' to_block
        (to_block frontier current, linked) refl

  pub last_block_lem :
      (b : Block dgl) (blocks : List (Block dgl)) (seeds : List ℕ)
      → Linked (b ∷ blocks) seeds
      → (c : Block dgl) × (last_block dgl (b ∷ blocks) ≡ ok c) × (dgl.dst_nid c.bipartite ≡ seeds)
  unfolding last_block Linked input_nodes
  last_block_lem b [] seeds h = (b, refl, h.0)
  last_block_lem b (c ∷ blocks) seeds h = last_block_lem c blocks seeds h.1

  module _ (labels : List dgl.Label) where
    length-set_labels :
        (blocks : List (Block dgl)) → length (set_labels dgl labels blocks) ≡ length blocks
    unfolding set_labels
    length-set_labels [] = refl
    length-set_labels (b ∷ []) = refl
    length-set_labels (b ∷ c ∷ blocks) = ap suc (length-set_labels (c ∷ blocks))

    input_nodes-set_labels :
        (blocks : List (Block dgl)) (seeds : List ℕ)
        → input_nodes (set_labels dgl labels blocks) seeds ≡ input_nodes blocks seeds
    unfolding set_labels input_nodes
    input_nodes-set_labels [] seeds = refl
    input_nodes-set_labels (b ∷ []) seeds = refl
    input_nodes-set_labels (b ∷ c ∷ blocks) seeds = refl

    Linked-set_labels :
        (blocks : List (Block dgl)) (seeds : List ℕ)
        → Linked blocks seeds
        → Linked (set_labels dgl labels blocks) seeds
    unfolding set_labels Linked
    Linked-set_labels [] seeds h = tt
    Linked-set_labels (b ∷ []) seeds h = h
    Linked-set_labels (b ∷ c ∷ blocks) seeds h = (
      h.0 ∙ sym (input_nodes-set_labels (c ∷ blocks) seeds),
      Linked-set_labels (c ∷ blocks) seeds h.1,
    )

    input_features-set_labels :
        (blocks : List (Block dgl))
        → input_features (set_labels dgl labels blocks) ≡ input_features blocks
    unfolding set_labels input_features
    input_features-set_labels [] = refl
    input_features-set_labels (b ∷ []) = refl
    input_features-set_labels (b ∷ c ∷ blocks) = refl

    output_labels-set_labels :
        (b : Block dgl) (blocks : List (Block dgl))
        → output_labels (set_labels dgl labels (b ∷ blocks)) ≡ some labels
    unfolding set_labels output_labels
    output_labels-set_labels b [] = refl
    output_labels-set_labels b (c ∷ []) = refl
    output_labels-set_labels b (c ∷ d ∷ blocks) = output_labels-set_labels c (d ∷ blocks)

  -- Blocks that start with the block b', once the labels are set.
  module _ (labels : List dgl.Label) (b : Block dgl) (blocks : List (Block dgl)) (seeds : List ℕ)
      (linked : Linked (b ∷ blocks) seeds) where
    labelled_lem :
        let result = set_labels dgl labels (b ∷ blocks) in
        (length result ≡ length (b ∷ blocks))
        × Linked result seeds
        × (input_features result ≡ b.features)
        × (input_nodes result seeds ≡ dgl.src_nid b.bipartite)
        × (output_labels result ≡ some labels)
    unfolding input_features input_nodes
    labelled_lem = (
      length-set_labels labels (b ∷ blocks),
      Linked-set_labels labels (b ∷ blocks) seeds linked,
      input_features-set_labels labels (b ∷ blocks),
      input_nodes-set_labels labels (b ∷ blocks) seeds,
      output_labels-set_labels labels b blocks,
    )

  -- The features of the first block of a result.
  features_of : dgl.Graph → Bool → List (Block dgl) → List ℕ → Option (List dgl.Feature)
  features_of g load_feat result seeds =
      if load_feat then some (map (dgl.feature g) (input_nodes result seeds)) else none

  loaded_lem :
      (g : dgl.Graph) (load_feat : Bool) (labels : List dgl.Label) (b : Block dgl)
      (blocks : List (Block dgl)) (seeds : List ℕ)
      → Linked (b ∷ blocks) seeds
      → b.features ≡ none
      → let features =
          if load_feat then some (map (dgl.feature g) (dgl.src_nid b.bipartite)) else none in
        let result = set_labels dgl labels (set_features dgl features (b ∷ blocks)) in
        (length result ≡ length (b ∷ blocks))
        × Linked result seeds
        × (input_features result ≡ features_of g load_feat result seeds)
        × (output_labels result ≡ some labels)
  unfolding set_features features_of Linked
  loaded_lem g true labels b blocks seeds linked unset =
      let b' : Block dgl = record b {
        features = some (map (dgl.feature g) (dgl.src_nid b.bipartite));
      } in
      let (counted, linked', features, nodes, labelled) =
        labelled_lem labels b' blocks seeds linked in
      (counted, linked', features ∙ ap (λ n. some (map (dgl.feature g) n)) (sym nodes), labelled)
  loaded_lem g false labels b blocks seeds linked unset =
      let (counted, linked', features, nodes, labelled) =
        labelled_lem labels b blocks seeds linked in
      (counted, linked', features ∙ unset, labelled)

  attach_lem :
      (sampler : NeighborSampler dgl) (blocks : List (Block dgl)) (seeds : List ℕ)
      → blocks ≢ []
      → Linked blocks seeds
      → input_features blocks ≡ none
      → (result : List (Block dgl)) × (attach dgl sampler blocks ≡ ok result)
        × (length result ≡ length blocks)
        × Linked result seeds
        × (input_features result ≡ (
            if sampler.load_feat
            then some (map (dgl.feature sampler.g) (input_nodes result seeds))
            else none))
        × (output_labels result ≡ some (map (dgl.label sampler.g) seeds))
  unfolding attach load_subtensor features_of input_features
  attach_lem sampler [] seeds some_block linked unset = absurd (some_block refl)
  attach_lem sampler (b ∷ blocks) seeds some_block linked unset =
      let (c, is_last, ends) = last_block_lem b blocks seeds linked in
      let labels = map (dgl.label sampler.g) (dgl.dst_nid c.bipartite) in
      let (counted, linked', features, labelled) =
        loaded_lem sampler.g sampler.load_feat labels b blocks seeds linked unset in
      (
        _,
        rw is_last refl,
        counted,
        linked',
        features,
        labelled ∙ ap (λ n. some (map (dgl.label sampler.g) n)) ends,
      )

  -- For a sampler with at least one fanout the sampling returns one block for each fanout. The blocks
  -- are linked: the last one ends at the seeds, and each other ends at the nodes that the next one
  -- reads. The labels of the seeds are set on the last block, and on the first one the features of
  -- the nodes that it reads, if the sampler loads them.
  pub sample_blocks_lem :
      (sampler : NeighborSampler dgl) (seeds : List ℕ) (w : dgl.World)
      → IsToBlock dgl
      → sampler.fanouts ≢ []
      → (blocks : List (Block dgl)) × ((sample_blocks dgl sampler seeds w).0 ≡ ok blocks)
        × (length blocks ≡ length sampler.fanouts)
        × Linked blocks seeds
        × (input_features blocks ≡ (
            if sampler.load_feat
            then some (map (dgl.feature sampler.g) (input_nodes blocks seeds))
            else none))
        × (output_labels blocks ≡ some (map (dgl.label sampler.g) seeds))
  unfolding sample_blocks Linked input_features input_nodes
  sample_blocks_lem sampler seeds w to_block fanout =
      let sampled = (sample_layers dgl sampler.g sampler.fanouts seeds [] w).0 in
      let counted = length-sample_layers sampler.g sampler.fanouts seeds [] w in
      let (linked, unset) =
        sample_layers_lem sampler.g sampler.fanouts seeds [] w to_block tt refl in
      let (blocks, returned, same, linked_all, features, labels) =
        attach_lem sampler sampled seeds (nonempty sampler.fanouts sampled fanout counted) linked
          unset in
      (blocks, returned, omega arith, linked_all, features, labels)
