-- ===== src/Partition/Store/Rows.antt =====
-- srcChange/partition/aly_partition.py, `partition_graph`: the rows that are stored for the inner nodes
-- and edges of a part of a homogeneous graph.
use bear_rpc.Base.{
  ℕ, ◌<◌, ◌≡◌, ◌==◌, ◌&&◌, refl, ap, ap₂, ◌∙◌, not, ltb, true, false, Option, some, List, [], ◌∷◌,
  ◌++◌, map, length, get_elem?, All,
}
use bear_rpc.Base.Dict.{find}
use bear_rpc.Text.{Str, codes, str_eq}
use bear_rpc.Partition.Backend.{Backend, IsBackend}
use bear_rpc.Partition.Maps.{inner_mask}
use bear_rpc.Partition.Features.{Part, is_reserved, part_feats}
use bear_rpc.Partition.Features.Rows.{inner_orig, feats_of, feats_of_lem}
use bear_rpc.Partition.Graph.{NodeSet, EdgeSet, Graph, SimGraph, is_homogeneous}
use bear_rpc.Partition.Pieces.{Piece}
use bear_rpc.Partition.Store.{node_frame, edge_frame, Saving, node_feats, edge_feats}

-- Of every column, for a name that is not reserved and is not used again, the features have, under the
-- type and the name, the rows at the original IDs of the inner nodes or edges of the part, in their
-- order.
unfoldable pub HasRows :
    {V : Type 0}
    → List Str
    → Str
    → ℕ
    → List (Str × List V)
    → Part
    → Option (List (Str × List V))
    → Type 0
HasRows {V} reserved type type_id columns part feats =
    (before after : List (Str × List V)) (name : Str) (column rows : List V)
    → columns ≡ before ++ (name, column) ∷ after
    → is_reserved name reserved ≡ false
    → All (λ (n, _). str_eq n name ≡ false) after
    → map (get_elem? column) (inner_orig type_id part) ≡ map some rows
    → (tensors : List (Str × List V)) × (feats ≡ some tensors)
      × (find str_eq (type ++ (codes "/" ++ name)) tensors ≡ some rows)

module _ {V S : Type 0} (b : Backend) (lawful : IsBackend b) (s : Saving S) (num_parts : ℕ)
    (many : 1 < num_parts) (g : Graph V) (sim_g : SimGraph) (part : Piece S) (node : NodeSet V)
    (one : g.nodes ≡ node ∷ []) where
  pub node_feats-HasRows :
      length part.nodes.orig_id ≡ length (inner_mask part.nodes.ids node.kind.id)
      → HasRows
          (s.nid ∷ codes "inner_node" ∷ [])
          node.kind.name
          node.kind.id
          node.columns
          part.nodes
          (some (node_feats b s num_parts true g sim_g part))
  unfolding HasRows node_feats node_frame feats_of
  node_feats-HasRows sized before after name column rows split free last_one found =
      let reserved : List Str = s.nid ∷ codes "inner_node" ∷ [] in
      (
        node_feats b s num_parts true g sim_g part,
        refl,
        ap (find str_eq (node.kind.name ++ (codes "/" ++ name))) (
              ap
                (λ ns.
                  part_feats b reserved num_parts true (ltb 1 (length ns)) sim_g.nid part.nodes
                    (map node_frame ns) [])
                one
              ∙ ap
                  (λ columns.
                    part_feats b reserved num_parts true false sim_g.nid part.nodes
                      (record { name = node.kind.name; id = node.kind.id; columns = columns } ∷ [])
                      [])
                  split)
            ∙ feats_of_lem b lawful reserved num_parts many node.kind.name node.kind.id before after
                name column sim_g.nid part.nodes rows free last_one sized found,
      )

  pub edge_feats-HasRows :
      (edge : EdgeSet V)
      → g.edges ≡ edge ∷ []
      → length part.edges.orig_id ≡ length (inner_mask part.edges.ids edge.kind.id)
      → HasRows
          (s.eid ∷ codes "inner_edge" ∷ [])
          (s.etype_tuple_to_str edge.kind.name)
          edge.kind.id
          edge.columns
          part.edges
          (some (edge_feats b s num_parts true g sim_g part))
  unfolding HasRows edge_feats edge_frame is_homogeneous feats_of
  edge_feats-HasRows edge one_edge sized before after name column rows split free last_one found =
      let reserved : List Str = s.eid ∷ codes "inner_edge" ∷ [] in
      let type : Str = s.etype_tuple_to_str edge.kind.name in
      (
        edge_feats b s num_parts true g sim_g part,
        refl,
        ap (find str_eq (type ++ (codes "/" ++ name))) (
              ap₂
                (λ (ns : List (NodeSet V)) (es : List (EdgeSet V)).
                  part_feats b reserved num_parts true (not ((length ns == 1) && (length es == 1)))
                    sim_g.eid part.edges (map (edge_frame s.etype_tuple_to_str) es) [])
                one one_edge
              ∙ ap
                  (λ columns.
                    part_feats b reserved num_parts true false sim_g.eid part.edges
                      (record { name = type; id = edge.kind.id; columns = columns } ∷ []) [])
                  split)
            ∙ feats_of_lem b lawful reserved num_parts many type edge.kind.id before after name
                column sim_g.eid part.edges rows free last_one sized found,
      )
