-- ===== src/Partition/Pieces.antt =====
-- srcChange/partition/aly_partition.py, `partition_graph`: the parts of the graph behind the
-- partitioning, the types that they are given, and the edge assignment without reshuffling.
pub mod Assigned
mod Tests
use bear_rpc.Base.{
  ℕ, zero, suc, ◌+◌, ◌-◌, ◌^◌, ◌==◌, ◌&&◌, ltb, Bool, true, false, Option, none, some, List, [],
  ◌∷◌, map, length, if◌then◌else◌, ℤ, pos, negsuc, Result, ok, raise, not_implemented, assert,
  ◌>>=◌, ◌>>◌,
}
use bear_rpc.Base.Arrays.{full}
use bear_rpc.Text.{Str}
use bear_rpc.Partition.Backend.{Backend}
use bear_rpc.Partition.Maps.{Ids, Kind, first, last}
use bear_rpc.Partition.Maps.Consecutive.{consecutive}
use bear_rpc.Partition.Config.{EdgeType}
use bear_rpc.Partition.Features.{Part}
use bear_rpc.Partition.Graph.{SimGraph}
use bear_rpc.Partition.Homogeneous.{all_equal}

-- parts[part_id]: its structure, and the data of its nodes and its edges.
pub record Piece (S : Type 0) : Type 0 where
  pub structure : S
  pub nodes : Part
  pub edges : Part

-- The data of the one part that is the whole graph, of n nodes or edges.
unfoldable pub whole_part : List ℕ → ℕ → Part
whole_part types n = record {
  ids = record { nid = consecutive 0 n; inner = full n 1; types = some types };
  orig_id = consecutive 0 n;
}

-- parts[0], the clone of the homogeneous graph
unfoldable pub whole_piece : {S : Type 0} → S → SimGraph → Piece S
unfolding whole_part
whole_piece structure sim_g = record {
  structure = structure;
  nodes = whole_part sim_g.ntype (length sim_g.ntype);
  edges = whole_part sim_g.etype (length sim_g.etype);
}

-- np.all(types == F.astype(types, dtype)) for a signed dtype of so many bits
unfoldable pub fits : ℕ → List ℕ → Bool
fits bits [] = true
fits bits (t ∷ types) = ltb t (2 ^ (bits - 1)) && fits bits types

-- np.all(a == b): an array of one element is compared with each element of the other one; other arrays
-- of different lengths are not equal.
unfoldable pub arrays_equal : List ℕ → List ℕ → Bool
unfolding all_equal
arrays_equal (x ∷ []) b = all_equal (full (length b) x) b
arrays_equal a (y ∷ []) = all_equal a (full (length a) y)
arrays_equal a b = (length a == length b) && all_equal a b

-- The IDs of a type are a range.
unfoldable pub check_range : List ℕ → Result (Unit {0})
unfolding first last arrays_equal
check_range typed = do
  start ← first typed
  end ← last typed
  assert (arrays_equal typed (consecutive start (end + 1 - start))) ""

module _ (b : Backend) (order : List ℕ → List ℕ) where
  -- The loop over the types, for the types and the IDs of the inner nodes or edges.
  unfoldable pub check_ranges : {K : Type 0} → List ℕ → List ℕ → List (Kind K) → Result (Unit {0})
  unfolding check_range
  check_ranges inner_types inner_ids [] = ok tt
  check_ranges inner_types inner_ids (kind ∷ kinds) = do
    check_range (order (b.boolean_mask inner_ids (map (λ t. t == kind.id) inner_types)))
    check_ranges inner_types inner_ids kinds

  -- The types of the nodes or the edges of a part, with their checks.
  unfoldable pub add_part_types : {K : Type 0} → ℕ → List (Kind K) → List ℕ → Part → Result Part
  unfolding fits check_ranges
  add_part_types bits kinds sim_types part = do
    let types = b.gather_row sim_types part.orig_id
    assert (fits bits types) ""
    let inner = map (λ flag. flag == 1) part.ids.inner
    check_ranges (b.boolean_mask types inner) (b.boolean_mask part.ids.nid inner) kinds
    ok (record {
      ids = record { nid = part.ids.nid; inner = part.ids.inner; types = some types };
      orig_id = part.orig_id;
    })

module _ {S : Type 0} (b : Backend) (np_sort : List ℕ → List ℕ) where
  -- The body of the loop over the parts of a graph with types. The code gives a part its edge types
  -- before it checks its nodes; a check that fails ends the partitioning.
  unfoldable pub add_types :
      List (Kind Str) → List (Kind EdgeType) → SimGraph → Piece S → Result (Piece S)
  unfolding add_part_types
  add_types ntypes etypes sim_g piece = do
    nodes ← add_part_types b (λ ids. ids) 16 ntypes sim_g.ntype piece.nodes
    edges ← add_part_types b np_sort 32 etypes sim_g.etype piece.edges
    ok (record { structure = piece.structure; nodes = nodes; edges = edges })

  unfoldable pub add_all_types :
      List (Kind Str) → List (Kind EdgeType) → SimGraph → List (Piece S) → Result (List (Piece S))
  unfolding add_types
  add_all_types ntypes etypes sim_g [] = ok []
  add_all_types ntypes etypes sim_g (piece ∷ parts) = do
    piece' ← add_types ntypes etypes sim_g piece
    parts' ← add_all_types ntypes etypes sim_g parts
    ok (piece' ∷ parts')

  -- What is done with the parts of a graph that is not homogeneous.
  unfoldable pub type_parts :
      Bool
      → Bool
      → List (Kind Str)
      → List (Kind EdgeType)
      → SimGraph
      → List (Piece S)
      → Result (List (Piece S))
  unfolding add_all_types
  type_parts homogeneous reshuffle ntypes etypes sim_g parts =
      if homogeneous
      then ok parts
      else if reshuffle
      then add_all_types ntypes etypes sim_g parts
      else raise not_implemented

-- edge_parts[ids] = part, for arrays of NumPy
abbrev pub Fill : Type 0
Fill = List ℤ → List ℕ → ℤ → List ℤ

-- The edge assignment, from a part on; it starts with -1 for each edge.
unfoldable pub assign_edges : {S : Type 0} → Backend → Fill → ℕ → List (Piece S) → List ℤ → List ℤ
assign_edges b fill part_id [] edge_parts = edge_parts
assign_edges b fill part_id (piece ∷ parts) edge_parts =
    let local_edges =
      b.boolean_mask piece.edges.ids.nid (map (λ flag. flag == 1) piece.edges.ids.inner) in
    assign_edges b fill (part_id + 1) parts (fill edge_parts local_edges (pos part_id))

unfoldable pub edge_assignment : {S : Type 0} → Backend → Fill → ℕ → List (Piece S) → List ℤ
unfolding assign_edges
edge_assignment b fill num_edges parts = assign_edges b fill 0 parts (full num_edges (negsuc 0))
