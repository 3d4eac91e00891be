-- ===== src/Partition/Pieces/Tests.antt =====
-- Two parts of three edges; the edge 1 is also in the second part, but is not an inner edge there.
use bear_rpc.Base.{
  ℕ, ◌≡◌, ◌≢◌, refl, arith, List, [], ◌∷◌, get_elem?, none, some, All, pos, negsuc, length,
}
use bear_rpc.Base.Arrays.{put, full, Distinct}
use bear_rpc.Text.{Str}
use bear_rpc.Partition.Saved.Tests.{lists, lists-IsBackend}
use bear_rpc.Partition.Pieces.{Piece, edge_assignment}
use bear_rpc.Partition.Pieces.Assigned.{IsFill, IsPiece, local_edges, edge_assignment_lem}

abbrev piece : List ℕ → List ℕ → Piece Str
piece eid inner = record {
  structure = [];
  nodes = record { ids = record { nid = []; inner = []; types = none }; orig_id = [] };
  edges = record { ids = record { nid = eid; inner = inner; types = none }; orig_id = [] };
}

abbrev first_piece : Piece Str
first_piece = piece (1 ∷ 0 ∷ []) (1 ∷ 1 ∷ [])

abbrev second_piece : Piece Str
second_piece = piece (2 ∷ 1 ∷ []) (1 ∷ 0 ∷ [])

put-full-IsFill : IsFill (λ xs idx v. put xs idx (full (length idx) v))
unfolding IsFill
put-full-IsFill xs idx v = refl

first-IsPiece : IsPiece first_piece
unfolding IsPiece local_edges Distinct
first-IsPiece = (refl, (((λ same. cc), tt), (tt, tt)))

second-IsPiece : IsPiece second_piece
unfolding IsPiece local_edges Distinct
second-IsPiece = (refl, (tt, tt))

edge_assignment_lem_example :
    let parts = first_piece ∷ second_piece ∷ [] in
    let assigned = edge_assignment lists (λ xs idx v. put xs idx (full (length idx) v)) 3 parts in
    ((k : ℕ)
      → get_elem? (local_edges second_piece) k ≡ some 2
      → get_elem? assigned 2 ≡ some (pos 1))
    × (All (λ p. All (λ i. i ≢ 2) (local_edges p)) (first_piece ∷ [])
        → All (λ i. i ≢ 2) (local_edges second_piece)
        → get_elem? assigned 2 ≡ some (negsuc 0))
edge_assignment_lem_example =
    edge_assignment_lem lists lists-IsBackend (λ xs idx v. put xs idx (full (length idx) v))
      put-full-IsFill 3 (first_piece ∷ []) [] second_piece 2 (first-IsPiece, tt) second-IsPiece tt
      tt (omega arith)
