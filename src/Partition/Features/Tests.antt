-- ===== src/Partition/Features/Tests.antt =====
-- A graph of three nodes in two parts: the rows of its features in the parts.
use mathlib.Core.List.Perm
use mathlib.Core.List.{Perm}
use bear_rpc.Base.{ℕ, ◌≡◌, refl, List, [], ◌∷◌, ◌++◌, map, some, none, true, false, arith, pos}
use bear_rpc.Base.Dict.{find}
use bear_rpc.Text.{codes, str_eq}
use bear_rpc.Partition.Maps.{inner_mask}
use bear_rpc.Partition.Maps.Consecutive.{consecutive}
use bear_rpc.Partition.Features.{Part, is_reserved, part_feats, num_cuts, tot_num_inner_edges}
use bear_rpc.Partition.Features.Cuts.{num_cuts-id_maps}
use bear_rpc.Partition.Features.Rows.{concat, inner_orig, IsPartitioned, part_feats_lem}
use bear_rpc.Partition.Saved.Tests.{
  lists, lists-IsBackend, node_ids, np_sort, node_kind, edge_kind, node_map, edge_map, id_maps_run,
}

-- The first part holds the nodes 2 and 0 of the graph, the second one its node 1.
abbrev parts : List Part
parts =
    record {
      ids = record { nid = 0 ∷ 1 ∷ 2 ∷ []; inner = 1 ∷ 1 ∷ 0 ∷ []; types = none };
      orig_id = 2 ∷ 0 ∷ 1 ∷ [];
    }
    ∷ record {
      ids = record { nid = 2 ∷ 0 ∷ []; inner = 1 ∷ 0 ∷ []; types = none };
      orig_id = 1 ∷ 2 ∷ [];
    }
    ∷ []

abbrev labels : List ℕ
labels = 70 ∷ 71 ∷ 72 ∷ []

parts-IsPartitioned : IsPartitioned 3 0 parts
unfolding inner_mask consecutive inner_orig
parts-IsPartitioned = record {
  columns = (refl, (refl, tt));
  below = ((omega arith, (omega arith, tt)), ((omega arith, tt), tt));
  once = Perm.trans (Perm.swap 0 2 (1 ∷ [])) (Perm.cons 0 (Perm.swap 1 2 []));
}

part_feats_lem_example :
    (rows : List (List ℕ)) × (map
        (λ part. find str_eq (codes "_N" ++ (codes "/" ++ codes "labels")) (
          part_feats lists
            (codes "_ID" ∷ codes "inner_node" ∷ [])
            2
            true
            false
            (0 ∷ 1 ∷ 2 ∷ [])
            part
            (record { name = codes "_N"; id = 0; columns = (codes "labels", labels) ∷ [] } ∷ [])
            []))
        parts
      ≡ map some rows)
    × Perm (concat rows) labels
unfolding is_reserved str_eq
part_feats_lem_example =
    part_feats_lem lists (codes "_ID" ∷ codes "inner_node" ∷ []) 2 (codes "_N") 0 [] []
      (codes "labels") labels (0 ∷ 1 ∷ 2 ∷ []) parts lists-IsBackend (omega arith) refl tt
      parts-IsPartitioned

abbrev edge_parts : List Part
edge_parts =
    record {
      ids = record { nid = 1 ∷ 0 ∷ []; inner = 1 ∷ 1 ∷ []; types = none };
      orig_id = 0 ∷ 1 ∷ [];
    }
    ∷ record { ids = record { nid = 2 ∷ []; inner = 1 ∷ []; types = none }; orig_id = 2 ∷ [] }
    ∷ []

num_cuts-id_maps_example :
    num_cuts 2 3 (tot_num_inner_edges lists 2 true false (0 ∷ 1 ∷ 2 ∷ []) (0 ∷ []) edge_parts)
    ≡ pos 0
unfolding inner_mask
num_cuts-id_maps_example =
    num_cuts-id_maps lists np_sort 2 (node_kind ∷ []) edge_kind node_ids edge_parts (0 ∷ 1 ∷ 2 ∷ [])
      (node_map, edge_map) lists-IsBackend (omega arith) (refl, (refl, tt)) id_maps_run
