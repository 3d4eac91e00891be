-- ===== src/Training/Inference.antt =====
-- python/dist_graphSage.py, `DistSAGE.inference`: the layers one after the other over batches of
-- nodes, on tensors that are shared. The batches of a layer are those of all processes, in the order
-- in which they write their rows; a barrier stands between the layers.
pub mod Rows
pub mod TwoLayers
mod Tests
use bear_rpc.Base.{
  ℕ, zero, suc, ◌+◌, Bool, true, false, List, [], ◌∷◌, map, length, if◌then◌else◌, ◌==◌, ℤ, negsuc,
}
use bear_rpc.Training.{Dgl, SageConv}

-- The tensors: the one that `inference` is given, and those named 'h' and 'h_last'.
pub data Tensor : Type 0 where
  given h h_last : Tensor

abbrev pub same_tensor : Tensor → Tensor → Bool
same_tensor given given = true
same_tensor h h = true
same_tensor h_last h_last = true
same_tensor _ _ = false

-- The rows of the tensors.
abbrev pub Store : Type 0 → Type 0
Store Row = Tensor → ℕ → Row

module _ {Row : Type 0} where
  unfoldable pub set_row : Tensor → ℕ → Row → Store Row → Store Row
  set_row y v row store t u =
      if same_tensor t y then (if u == v then row else store t u) else store t u

  -- y[nodes] = rows
  unfoldable pub set_rows : Tensor → List ℕ → List Row → Store Row → Store Row
  unfolding set_row
  set_rows y [] rows store = store
  set_rows y (v ∷ nodes) [] store = store
  set_rows y (v ∷ nodes) (row ∷ rows) store = set_rows y nodes rows (set_row y v row store)

-- `conv` is a layer on a block, which gives a row for each destination node; `activation` is the
-- activation with the dropout, which does nothing in an evaluation.
module _ (dgl : Dgl) (g : dgl.Graph) {Row : Type 0}
    (conv : SageConv → dgl.Bipartite → List Row → List Row) (activation : Row → Row) where
  -- The one block that NeighborSampler(g, [-1], …) makes of a batch.
  unfoldable pub full_block : List ℕ → dgl.World → dgl.Bipartite × dgl.World
  full_block batch w =
      let (frontier, w') = dgl.sample_neighbors g batch (negsuc 0) w in
      (dgl.to_block frontier batch, w')

  unfoldable pub run_batch :
      Bool → SageConv → Tensor → Tensor → List ℕ → Store Row × dgl.World → Store Row × dgl.World
  unfolding full_block set_rows
  run_batch is_last layer x y batch (store, w) =
      let (block, w') = full_block batch w in
      let rows = conv layer block (map (store x) (dgl.src_nid block)) in
      (set_rows y (dgl.dst_nid block) (if is_last then rows else map activation rows) store, w')

  unfoldable pub run_batches :
      Bool
      → SageConv
      → Tensor
      → Tensor
      → List (List ℕ)
      → Store Row × dgl.World
      → Store Row × dgl.World
  unfolding run_batch
  run_batches is_last layer x y [] s = s
  run_batches is_last layer x y (batch ∷ batches) s =
      run_batches is_last layer x y batches (run_batch is_last layer x y batch s)

  -- The loop from the layer l on, of `count` layers, each with its batches: it returns the tensor
  -- that `inference` returns, and the tensors.
  unfoldable pub infer_from :
      ℕ
      → ℕ
      → List (SageConv × List (List ℕ))
      → Tensor
      → Tensor
      → Store Row × dgl.World
      → Tensor × (Store Row × dgl.World)
  unfolding run_batches
  infer_from count l [] x y s = (y, s)
  infer_from count l ((layer, batches) ∷ more) x y s =
      let is_last = l + 1 == count in
      let y' = if is_last then h_last else y in
      infer_from count (l + 1) more y' y' (run_batches is_last layer x y' batches s)

  unfoldable pub inference :
      List (SageConv × List (List ℕ)) → Store Row × dgl.World → Tensor × (Store Row × dgl.World)
  unfolding infer_from
  inference self_layers s = infer_from (length self_layers) 0 self_layers given h s
