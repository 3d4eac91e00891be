-- ===== src/Training/Inference/TwoLayers.antt =====
-- python/dist_graphSage.py, `DistSAGE.inference`, for a model of two layers.
use bear_rpc.Base.{ℕ, ◌<◌, ◌≡◌, refl, ◌∙◌, true, false, List, [], ◌∷◌, inr}
use bear_rpc.Training.{Dgl, SageConv}
use bear_rpc.Training.Blocks.{IsToBlock}
use bear_rpc.Training.Inference.{given, h, h_last, Store, run_batches, inference}
use bear_rpc.Training.Inference.Rows.{Covered, IsWhole, layer_rows, run_batches_lem}

module _ (dgl : Dgl) (g : dgl.Graph) {Row : Type 0}
    (conv : SageConv → dgl.Bipartite → List Row → List Row) (activation : Row → Row)
    (whole : SageConv → (ℕ → Row) → ℕ → Row) (n : ℕ) where
  -- The row of a node of the graph depends on the rows of the graph's n nodes only.
  unfoldable pub IsLocal : Type 0
  IsLocal =
      (layer : SageConv) (x x' : ℕ → Row) (v : ℕ)
      → v < n
      → ((u : ℕ) → u < n → x u ≡ x' u)
      → whole layer x v ≡ whole layer x' v

  -- With two layers, if the batches of the first cover all n nodes, the tensor 'h_last' that the
  -- inference returns holds, for each node of a batch of the second layer, the row that the two
  -- layers give on the whole graph, with the activation behind the first one only. The order of the
  -- batches, and so of the processes between two barriers, does not matter.
  pub inference-two_layers :
      (first second : SageConv) (batches₁ batches₂ : List (List ℕ)) (store : Store Row)
      (w : dgl.World) (v : ℕ)
      → IsToBlock dgl
      → IsWhole dgl g conv activation whole
      → IsLocal
      → ((u : ℕ) → u < n → Covered u batches₁)
      → v < n
      → Covered v batches₂
      → let result =
          inference dgl g conv activation
            ((first, batches₁) ∷ (second, batches₂) ∷ [])
            (store, w) in
        (result.0 ≡ h_last)
        × (result.1.0 h_last v ≡ whole second (λ u. activation (whole first (store given) u)) v)
  unfolding inference layer_rows IsLocal
  inference-two_layers first second batches₁ batches₂ store w v to_block is_whole local all node
        covered =
      let s₁ = run_batches dgl g conv activation false first given h batches₁ (store, w) in
      let wrote =
        (run_batches_lem dgl g conv activation whole to_block is_whole false first given h refl
          (store given) batches₁ store w refl).1 in
      let second_wrote =
        (run_batches_lem dgl g conv activation whole to_block is_whole true second h h_last refl
          (s₁.0 h) batches₂ s₁.0 s₁.1 refl).1 in
      (
        refl,
        second_wrote v (inr covered)
            ∙ local second (s₁.0 h) (λ u. activation (whole first (store given) u)) v node
                (λ u below. wrote u (inr (all u below))),
      )
