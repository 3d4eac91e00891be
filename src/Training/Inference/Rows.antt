-- ===== src/Training/Inference/Rows.antt =====
-- python/dist_graphSage.py, `DistSAGE.inference`: what the batches of one layer write.
use mathlib.Core.Path.{fun_ext}
use bear_rpc.Base.{
  ok, some, negsuc, ℕ, ◌≡◌, refl, sym, ap, ◌∙◌, subst, Bool, true, false, List, [], ◌∷◌, map,
  if◌then◌else◌, ◌==◌, ==_iff, ◌⊎◌, inl, inr, Bool-cases,
}
use bear_rpc.Training.{Dgl, SageConv, sample_blocks}
use bear_rpc.Training.Blocks.{IsToBlock}
use bear_rpc.Training.Inference.{
  Tensor, given, h, h_last, same_tensor, Store, set_row, set_rows, full_block, run_batch,
  run_batches,
}

-- The node stands in the list, or in one of the batches.
unfoldable pub Among : ℕ → List ℕ → Type 0
Among v [] = ⊥
Among v (u ∷ nodes) = (v ≡ u) ⊎ Among v nodes

unfoldable pub Covered : ℕ → List (List ℕ) → Type 0
Covered v [] = ⊥
Covered v (batch ∷ batches) = Among v batch ⊎ Covered v batches

same_tensor_refl : (t : Tensor) → same_tensor t t ≡ true
same_tensor_refl given = refl
same_tensor_refl h = refl
same_tensor_refl h_last = refl

module _ {Row : Type 0} (y : Tensor) (target : ℕ → Row) where
  set_row-kept :
      (u v : ℕ) (store : Store Row)
      → store y v ≡ target v
      → set_row y u (target u) store y v ≡ target v
  unfolding set_row
  set_row-kept u v store e = elim (Bool-cases (v == u)) [
    | inl q ↦ rw (same_tensor_refl y, q) (ap target (sym ((==_iff v u).0 q)))
    | inr q ↦ rw (same_tensor_refl y, q) e
  ]

  set_row-set : (v : ℕ) (store : Store Row) → set_row y v (target v) store y v ≡ target v
  unfolding set_row
  set_row-set v store = rw (same_tensor_refl y, (==_iff v v).1 refl) refl

  set_rows-kept :
      (nodes : List ℕ) (v : ℕ) (store : Store Row)
      → store y v ≡ target v
      → set_rows y nodes (map target nodes) store y v ≡ target v
  unfolding set_rows
  set_rows-kept [] v store e = e
  set_rows-kept (u ∷ nodes) v store e =
      set_rows-kept nodes v (set_row y u (target u) store) (set_row-kept u v store e)

  set_rows-set :
      (nodes : List ℕ) (v : ℕ) (store : Store Row)
      → Among v nodes
      → set_rows y nodes (map target nodes) store y v ≡ target v
  unfolding set_rows Among
  set_rows-set [] v store e = absurd e
  set_rows-set (u ∷ nodes) v store (inl e) =
      set_rows-kept nodes v (set_row y u (target u) store)
        (subst (λ n. set_row y u (target u) store y n ≡ target n) (sym e) (set_row-set u store))
  set_rows-set (u ∷ nodes) v store (inr e) = set_rows-set nodes v (set_row y u (target u) store) e

set_rows-other :
    {Row : Type 0} (y t : Tensor) (nodes : List ℕ) (rows : List Row) (store : Store Row) (v : ℕ)
    → same_tensor t y ≡ false
    → set_rows y nodes rows store t v ≡ store t v
unfolding set_rows set_row
set_rows-other y t [] rows store v e = refl
set_rows-other y t (u ∷ nodes) [] store v e = refl
set_rows-other y t (u ∷ nodes) (row ∷ rows) store v e =
    set_rows-other y t nodes rows (set_row y u row store) v e ∙ (rw e refl)

module _ (dgl : Dgl) (g : dgl.Graph) {Row : Type 0}
    (conv : SageConv → dgl.Bipartite → List Row → List Row) (activation : Row → Row)
    (whole : SageConv → (ℕ → Row) → ℕ → Row) where
  -- A sampler with the one fanout -1 returns the block of all neighbours.
  sample_blocks-full_block :
      (batch : List ℕ) (w : dgl.World)
      → let block = (full_block dgl g conv activation batch w).0 in
        (sample_blocks dgl (record { g = g; fanouts = negsuc 0 ∷ []; load_feat = true }) batch w).0
        ≡ ok (
            record {
              bipartite = block;
              features = some (map (dgl.feature g) (dgl.src_nid block));
              labels = some (map (dgl.label g) (dgl.dst_nid block));
            }
            ∷ [])
  unfolding sample_blocks full_block
  sample_blocks-full_block batch w = refl

  -- On a block of all neighbours of a batch a layer computes, for each node of the batch, the row
  -- that it computes on the whole graph.
  unfoldable pub IsWhole : Type 0
  IsWhole =
      (layer : SageConv) (batch : List ℕ) (w : dgl.World) (x : ℕ → Row)
      → let block = (full_block dgl g conv activation batch w).0 in
        conv layer block (map x (dgl.src_nid block)) ≡ map (whole layer x) batch

  -- The rows of a layer on the whole graph, with the activation unless it is the last layer.
  unfoldable pub layer_rows : Bool → SageConv → (ℕ → Row) → ℕ → Row
  layer_rows is_last layer x v = if is_last then whole layer x v else activation (whole layer x v)

  module _ (to_block : IsToBlock dgl) (is_whole : IsWhole) (is_last : Bool) (layer : SageConv)
      (x y : Tensor) (apart : same_tensor x y ≡ false) (rows : ℕ → Row) where
    map-rows :
        (last : Bool) (batch : List ℕ)
        → (if last
            then map (whole layer rows) batch
            else map activation (map (whole layer rows) batch))
          ≡ map (layer_rows last layer rows) batch
    unfolding layer_rows
    map-rows true [] = refl
    map-rows false [] = refl
    map-rows true (v ∷ batch) = ap (λ l. whole layer rows v ∷ l) (map-rows true batch)
    map-rows false (v ∷ batch) =
        ap (λ l. activation (whole layer rows v) ∷ l) (map-rows false batch)

    run_batch_lem :
        (batch : List ℕ) (store : Store Row) (w : dgl.World)
        → store x ≡ rows
        → (run_batch dgl g conv activation is_last layer x y batch (store, w)).0
          ≡ set_rows y batch (map (layer_rows is_last layer rows) batch) store
    unfolding run_batch IsWhole IsToBlock full_block
    run_batch_lem batch store w e =
        let (frontier, w') = dgl.sample_neighbors g batch (negsuc 0) w in
        let block = dgl.to_block frontier batch in
        let made = conv layer block (map (store x) (dgl.src_nid block)) in
        ap (λ d. set_rows y d (if is_last then made else map activation made) store)
          (to_block frontier batch)
        ∙ ap (λ r. set_rows y batch (if is_last then r else map activation r) store)
            (ap (λ f. conv layer block (map f (dgl.src_nid block))) e ∙ is_whole layer batch w rows)
        ∙ ap (λ r. set_rows y batch r store) (map-rows is_last batch)

    -- A layer that reads one tensor and writes another leaves the first as it is, and in the second
    -- it sets the rows of all nodes of its batches.
    pub run_batches_lem :
        (batches : List (List ℕ)) (store : Store Row) (w : dgl.World)
        → store x ≡ rows
        → let store' = (run_batches dgl g conv activation is_last layer x y batches (store, w)).0 in
          (store' x ≡ rows)
          × ((v : ℕ)
              → (store y v ≡ layer_rows is_last layer rows v) ⊎ Covered v batches
              → store' y v ≡ layer_rows is_last layer rows v)
    unfolding run_batches Covered
    run_batches_lem [] store w e = (e, λ v h. elim h [ inl k ↦ k | inr k ↦ absurd k ])
    run_batches_lem (batch ∷ batches) store w e =
        let target = layer_rows is_last layer rows in
        let s = run_batch dgl g conv activation is_last layer x y batch (store, w) in
        let wrote = run_batch_lem batch store w e in
        let read : s.0 x ≡ rows = fun_ext (λ v.
          ap (λ t. t x v) wrote
          ∙ set_rows-other y x batch (map target batch) store v apart
          ∙ ap (λ f. f v) e) in
        let (kept, set) = run_batches_lem batches s.0 s.1 read in
        (
          kept,
          λ v h. set v (elim h [
            | inl k ↦ inl (ap (λ t. t y v) wrote ∙ set_rows-kept y target batch v store k)
            | inr k ↦ elim k [
              | inl m ↦ inl (ap (λ t. t y v) wrote ∙ set_rows-set y target batch v store m)
              | inr m ↦ inr m
            ]
          ]),
        )
