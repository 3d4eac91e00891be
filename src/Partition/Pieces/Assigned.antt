-- ===== src/Partition/Pieces/Assigned.antt =====
-- srcChange/partition/aly_partition.py, `partition_graph`: the edge assignment without reshuffling.
use bear_rpc.Base.{
  ℕ, zero, suc, ◌+◌, ◌<◌, ◌≡◌, ◌≢◌, refl, ap, ◌∙◌, some, List, [], ◌∷◌, ◌++◌, map, length,
  get_elem?, All, All-append, arith, ℤ, pos, negsuc, ◌==◌,
}
use bear_rpc.Base.Arrays.{full, length-full, put, length-put, put_at, put_other, Distinct}
use bear_rpc.Partition.Backend.{Backend, IsBackend, select}
use bear_rpc.Partition.Pieces.{Piece, Fill, assign_edges, edge_assignment}

-- Setting cells to one value sets those at the indices.
unfoldable pub IsFill : Fill → Type 0
IsFill fill =
    (xs : List ℤ) (idx : List ℕ) (v : ℤ) → fill xs idx v ≡ put xs idx (full (length idx) v)

-- The inner edges of a part.
unfoldable pub local_edges : {S : Type 0} → Piece S → List ℕ
local_edges piece = select piece.edges.ids.nid (map (λ flag. flag == 1) piece.edges.ids.inner)

get_elem?-full {ℓ} : {A : Type ℓ} (n k : ℕ) (x : A) → k < n → get_elem? (full n x) k ≡ some x
get_elem?-full zero k x h = absurd (omega arith)
get_elem?-full (suc n) zero x h = refl
get_elem?-full (suc n) (suc k) x h = get_elem?-full n k x (omega arith)

in_range : (idx : List ℕ) (k e : ℕ) → get_elem? idx k ≡ some e → k < length idx
in_range [] k e h = cc
in_range (i ∷ idx) zero e h = omega arith
in_range (i ∷ idx) (suc k) e h = omega (arith, in_range idx k e h)

-- The columns of the edges of a part have one length, and no inner edge is there twice.
unfoldable pub IsPiece : {S : Type 0} → Piece S → Type 0
IsPiece piece =
    (length piece.edges.ids.nid ≡ length (map (λ flag. flag == 1) piece.edges.ids.inner))
    × Distinct (local_edges piece)

module _ {S : Type 0} (b : Backend) (lawful : IsBackend b) (fill : Fill) (fills : IsFill fill) where
  step_lem :
      (piece : Piece S) (part_id : ℕ) (edge_parts : List ℤ)
      → IsPiece piece
      → fill edge_parts
          (b.boolean_mask piece.edges.ids.nid (map (λ flag. flag == 1) piece.edges.ids.inner))
          (pos part_id)
        ≡ put edge_parts (local_edges piece) (full (length (local_edges piece)) (pos part_id))
  unfolding IsPiece local_edges IsFill
  step_lem piece part_id edge_parts (columns, _) =
      fills edge_parts
        (b.boolean_mask piece.edges.ids.nid (map (λ flag. flag == 1) piece.edges.ids.inner))
        (pos part_id)
      ∙ ap (λ l. put edge_parts l (full (length l) (pos part_id)))
          (lawful.masked piece.edges.ids.nid (map (λ flag. flag == 1) piece.edges.ids.inner)
            columns)

  -- An edge that is in no part from one on keeps its entry.
  assign_edges_other :
      (part_id : ℕ) (parts : List (Piece S)) (edge_parts : List ℤ) (e : ℕ)
      → All IsPiece parts
      → All (λ piece. All (λ i. i ≢ e) (local_edges piece)) parts
      → get_elem? (assign_edges b fill part_id parts edge_parts) e ≡ get_elem? edge_parts e
  unfolding assign_edges
  assign_edges_other part_id [] edge_parts e pieces others = refl
  assign_edges_other part_id (piece ∷ parts) edge_parts e (one, pieces) (other, others) =
      assign_edges_other (part_id + 1) parts _ e pieces others
      ∙ ap (λ l. get_elem? l e) (step_lem piece part_id edge_parts one)
      ∙ put_other edge_parts (local_edges piece) (full (length (local_edges piece)) (pos part_id)) e
          other

  assign_edges_lem :
      (part_id : ℕ) (before after : List (Piece S)) (piece : Piece S) (edge_parts : List ℤ)
      (k e : ℕ)
      → All IsPiece before
      → IsPiece piece
      → All IsPiece after
      → All (λ p. All (λ i. i ≢ e) (local_edges p)) after
      → get_elem? (local_edges piece) k ≡ some e
      → e < length edge_parts
      → get_elem? (assign_edges b fill part_id (before ++ piece ∷ after) edge_parts) e
        ≡ some (pos (part_id + length before))
  unfolding assign_edges IsPiece
  assign_edges_lem part_id [] after piece edge_parts k e _ one pieces others at below =
      let idx = local_edges piece in
      assign_edges_other (part_id + 1) after _ e pieces others
      ∙ ap (λ l. get_elem? l e) (step_lem piece part_id edge_parts one)
      ∙ put_at edge_parts idx (full (length idx) (pos part_id)) k e (pos part_id) one.1 below at
          (get_elem?-full (length idx) k (pos part_id) (in_range idx k e at))
      ∙ ap (λ n. some (pos n)) (omega arith)
  assign_edges_lem part_id (p ∷ before) after piece edge_parts k e (first, firsts) one pieces others
        at below =
      let idx = local_edges p in
      let next = put edge_parts idx (full (length idx) (pos part_id)) in
      ap (λ l. get_elem? (assign_edges b fill (part_id + 1) (before ++ piece ∷ after) l) e)
        (step_lem p part_id edge_parts first)
      ∙ assign_edges_lem (part_id + 1) before after piece next k e firsts one pieces others at
          (omega (arith, length-put edge_parts idx (full (length idx) (pos part_id))))
      ∙ ap (λ n. some (pos n)) (omega arith)

  -- An edge below the number of edges that is an inner edge of a part, and of none behind it, is
  -- assigned to this part; an edge that is in no part keeps -1.
  pub edge_assignment_lem :
      (num_edges : ℕ) (before after : List (Piece S)) (piece : Piece S) (e : ℕ)
      → All IsPiece before
      → IsPiece piece
      → All IsPiece after
      → All (λ p. All (λ i. i ≢ e) (local_edges p)) after
      → e < num_edges
      → let parts = before ++ piece ∷ after in
        ((k : ℕ)
          → get_elem? (local_edges piece) k ≡ some e
          → get_elem? (edge_assignment b fill num_edges parts) e ≡ some (pos (length before)))
        × (All (λ p. All (λ i. i ≢ e) (local_edges p)) before
            → All (λ i. i ≢ e) (local_edges piece)
            → get_elem? (edge_assignment b fill num_edges parts) e ≡ some (negsuc 0))
  unfolding edge_assignment
  edge_assignment_lem num_edges before after piece e firsts one pieces others below = (
    λ k at.
        assign_edges_lem 0 before after piece (full num_edges (negsuc 0)) k e firsts one pieces
          others at (omega (arith, length-full num_edges (negsuc 0)))
        ∙ ap (λ n. some (pos n)) (omega arith),
    λ none_before not_here.
        assign_edges_other 0 (before ++ piece ∷ after) (full num_edges (negsuc 0)) e
          (All-append IsPiece before (piece ∷ after) firsts (one, pieces))
          (All-append (λ p. All (λ i. i ≢ e) (local_edges p)) before (piece ∷ after) none_before
            (not_here, others))
        ∙ get_elem?-full num_edges e (negsuc 0) below,
  )
