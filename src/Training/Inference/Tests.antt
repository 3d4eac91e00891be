-- ===== src/Training/Inference/Tests.antt =====
-- python/dist_graphSage.py, `DistSAGE.inference`: two nodes, each the other one's only neighbour.
use bear_rpc.Base.{
  ℕ, zero, suc, ◌-◌, ◌<◌, ◌≡◌, refl, ap, if◌then◌else◌, ◌==◌, List, [], ◌∷◌, map, arith, inl, inr,
}
use bear_rpc.Training.{Dgl, SageConv}
use bear_rpc.Training.Blocks.{IsToBlock}
use bear_rpc.Training.Inference.{given, h, h_last, Store, full_block, inference}
use bear_rpc.Training.Inference.Rows.{Among, Covered, IsWhole}
use bear_rpc.Training.Inference.TwoLayers.{IsLocal, inference-two_layers}

abbrev pair : Dgl
pair = record {
  Graph = Unit {0};
  Frontier = List ℕ;
  Bipartite = List ℕ × List ℕ;
  Feature = ℕ;
  Label = ℕ;
  World = Unit {0};
  feature = λ g v. v;
  label = λ g v. v;
  sample_neighbors = λ g seeds fanout w. (map (λ v. 1 - v) seeds, w);
  to_block = λ frontier seeds. (frontier, seeds);
  src_nid = λ b. b.0;
  dst_nid = λ b. b.1;
}

-- A layer adds one to the row of the neighbour.
abbrev conv : SageConv → List ℕ × List ℕ → List ℕ → List ℕ
conv c b rows = map suc rows

abbrev whole : SageConv → (ℕ → ℕ) → ℕ → ℕ
whole c x v = suc (x (1 - v))

abbrev identity : ℕ → ℕ
identity r = r

abbrev layer : SageConv
layer = record { in_feats = 1; out_feats = 1 }

map-neighbours :
    (x : ℕ → ℕ) (batch : List ℕ)
    → map suc (map x (map (λ v. 1 - v) batch)) ≡ map (λ v. suc (x (1 - v))) batch
map-neighbours x [] = refl
map-neighbours x (v ∷ batch) = ap (λ l. suc (x (1 - v)) ∷ l) (map-neighbours x batch)

pair-IsWhole : IsWhole pair tt conv identity whole
unfolding IsWhole full_block
pair-IsWhole c batch w x = map-neighbours x batch

pair-IsLocal : IsLocal pair tt conv identity whole 2
unfolding IsLocal
pair-IsLocal c x x' v below same = ap suc (same (1 - v) (omega arith))

abbrev batches : List (List ℕ)
batches = (1 ∷ []) ∷ (0 ∷ []) ∷ []

batches-Covered : (u : ℕ) → u < 2 → Covered u batches
unfolding Covered Among
batches-Covered zero below = inr (inl (inl refl))
batches-Covered (suc u) below = inl (inl (omega arith))

-- The given tensor holds 10 and 20; the others are not written yet.
abbrev store : Store ℕ
store given v = if v == 0 then 10 else 20
store h v = 0
store h_last v = 0

inference-two_layers_example :
    let result =
      inference pair tt conv identity ((layer, batches) ∷ (layer, batches) ∷ []) (store, tt) in
    (result.0 ≡ h_last)
    × (result.1.0 h_last 1 ≡ whole layer (λ u. identity (whole layer (store given) u)) 1)
unfolding IsToBlock
inference-two_layers_example =
    inference-two_layers pair tt conv identity whole 2 layer layer batches batches store tt 1
      (λ frontier seeds. refl) pair-IsWhole pair-IsLocal batches-Covered (omega arith)
      (batches-Covered 1 (omega arith))

-- With three layers the middle one reads and writes the tensor 'h'. Its second batch reads a row that
-- its first batch has overwritten, so the node 1 gets 24 in place of 13.
overwritten :
    let result =
      inference pair tt conv identity
        ((layer, batches) ∷ (layer, batches) ∷ (layer, batches) ∷ [])
        (store, tt) in
    (result.1.0 h_last 1 ≡ 24) × (whole layer (whole layer (whole layer (store given))) 1 ≡ 13)
unfolding inference
overwritten = (refl, refl)
