-- ===== src/Partition/Trainers.antt =====
-- srcChange/partition/aly_partition.py: `_set_trainer_ids`.
pub mod Typed
pub mod Whole
mod Tests
use bear_rpc.Base.{
  ℕ, ◌≡◌, ◌+◌, ◌==◌, Bool, List, [], ◌∷◌, map, length, if◌then◌else◌, Result, ok, ◌>>=◌,
}
use bear_rpc.Base.Dict.{assign}
use bear_rpc.Base.Arrays.{full, Distinct, put}
use bear_rpc.Text.{Str, codes, str_eq}
use bear_rpc.Partition.Backend.{Backend}
use bear_rpc.Partition.Graph.{NodeSet, EdgeSet, Graph, SimGraph, is_homogeneous, node_column}

-- F.scatter_row_inplace sets the rows at the indices, which are not repeated.
unfoldable pub IsScatter : {V : Type 0} → (List V → List ℕ → List V → List V) → Type 0
unfolding Distinct
IsScatter {V} scatter_row =
    (xs : List V) (idx : List ℕ) (vs : List V)
    → Distinct idx
    → length idx ≡ length vs
    → scatter_row xs idx vs ≡ put xs idx vs

module _ {V : Type 0} where
  -- ….data['trainer_id'] = ids
  unfoldable pub node_trainers : List V → NodeSet V → NodeSet V
  node_trainers ids n = record n { columns = assign str_eq (codes "trainer_id") ids n.columns }

  unfoldable pub edge_trainers : List V → EdgeSet V → EdgeSet V
  edge_trainers ids e = record e { columns = assign str_eq (codes "trainer_id") ids e.columns }

  -- for c_etype in g.canonical_etypes
  unfoldable pub typed_edges :
      Backend → List (NodeSet V) → List (EdgeSet V) → Result (List (EdgeSet V))
  unfolding node_column edge_trainers
  typed_edges b nodes [] = ok []
  typed_edges b nodes (e ∷ edges) = do
    ids ← node_column nodes e.kind.name.dst_type (codes "trainer_id")
    edges' ← typed_edges b nodes edges
    ok (edge_trainers (b.gather_row ids e.dst) e ∷ edges')

-- `cell` is an ID as the cell of a tensor.
module _ {V : Type 0} (b : Backend) (scatter_row : List V → List ℕ → List V → List V)
    (cell : ℕ → V) where
  -- The trainer IDs of the nodes of a type.
  unfoldable pub typed_ids : SimGraph → List ℕ → ℕ → List V
  typed_ids sim_g node_parts ntype_id =
      let type_idx = map (λ t. t == ntype_id) sim_g.ntype in
      let orig_nid = b.boolean_mask sim_g.nid type_idx in
      scatter_row (full (length orig_nid) (cell 0)) orig_nid
        (b.boolean_mask (map cell node_parts) type_idx)

  -- for ntype_id, ntype in enumerate(g.ntypes)
  unfoldable pub typed_nodes : SimGraph → List ℕ → ℕ → List (NodeSet V) → List (NodeSet V)
  unfolding typed_ids node_trainers
  typed_nodes sim_g node_parts ntype_id [] = []
  typed_nodes sim_g node_parts ntype_id (n ∷ nodes) =
      node_trainers (typed_ids sim_g node_parts ntype_id) n
      ∷ typed_nodes sim_g node_parts (ntype_id + 1) nodes

  unfoldable pub set_trainer_ids : Graph V → SimGraph → List ℕ → Result (Graph V)
  unfolding is_homogeneous node_trainers edge_trainers typed_nodes typed_edges
  set_trainer_ids g sim_g node_parts =
      if is_homogeneous g
      then (let trainer_id = map cell node_parts in
          ok (record {
            nodes = map (node_trainers trainer_id) g.nodes;
            edges = map (λ e. edge_trainers (b.gather_row trainer_id e.dst) e) g.edges;
          }))
      else (let nodes = typed_nodes sim_g node_parts 0 g.nodes in
          typed_edges b nodes g.edges >>= (λ edges. ok (record { nodes = nodes; edges = edges })))
