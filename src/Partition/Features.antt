-- ===== src/Partition/Features.antt =====
-- srcChange/partition/aly_partition.py, `partition_graph`: the features that it stores for a part. A
-- tensor is the list of its rows.
pub mod Columns
pub mod Rows
pub mod Cuts
pub mod Names
mod Tests
use bear_rpc.Base.{
  ℕ, ◌+◌, ◌-◌, Bool, true, false, ◌&&◌, ◌||◌, not, Option, none, some, List, [], ◌∷◌, ◌++◌, map,
  length, ltb, ◌==◌, if◌then◌else◌, String, Result, ok, raise, assertion, ◌>>=◌, ℤ, pos, diff,
}
use bear_rpc.Base.Dict.{find, assign}
use bear_rpc.Text.{Str, codes, str_eq}
use bear_rpc.Partition.Backend.{Backend}
use bear_rpc.Partition.Maps.{Ids, inner_mask}
use bear_rpc.Partition.Config.{PartFiles, PartMetadata}

-- A part: its IDs with data['orig_id'].
pub record Part : Type 0 where
  pub ids : Ids
  pub orig_id : List ℕ

-- A node type or an edge type of the graph: the text of its name, its ID and its data, by name.
pub record Frame (V : Type 0) : Type 0 where
  pub name : Str
  pub id : ℕ
  pub columns : List (Str × List V)

-- The row numbers of the inner nodes or edges of a part, where they are picked. `several` says that
-- the graph has several types, and `sim_nid` has the IDs by type of the homogeneous graph.
unfoldable pub local_ids : Backend → ℕ → Bool → Bool → List ℕ → Part → ℕ → Option (List ℕ)
unfolding inner_mask
local_ids b num_parts reshuffle several sim_nid part type_id =
    let mask = inner_mask part.ids type_id in
    if ltb 1 num_parts
    then (let picked = b.boolean_mask (if reshuffle then part.orig_id else part.ids.nid) mask in
        some (if several then b.gather_row sim_nid picked else picked))
    else if reshuffle && several
    then some (b.gather_row sim_nid (b.boolean_mask part.orig_id mask))
    else if reshuffle
    then some sim_nid
    else none

-- name in [NID, 'inner_node'], and for edges [EID, 'inner_edge']
unfoldable pub is_reserved : Str → List Str → Bool
is_reserved name [] = false
is_reserved name (r ∷ rs) = str_eq r name || is_reserved name rs

module _ {V : Type 0} (b : Backend) (reserved : List Str) where
  -- The loop over the data of a type.
  unfoldable pub column_feats :
      Str → Option (List ℕ) → List (Str × List V) → List (Str × List V) → List (Str × List V)
  unfolding is_reserved
  column_feats type rows [] feats = feats
  column_feats type rows ((name, column) ∷ columns) feats = column_feats type rows columns (
      if is_reserved name reserved
      then feats
      else assign str_eq (type ++ (codes "/" ++ name))
          (elim rows [ none ↦ column | some local ↦ b.gather_row column local ]) feats)

  -- node_feats or edge_feats of a part
  unfoldable pub part_feats :
      ℕ → Bool → Bool → List ℕ → Part → List (Frame V) → List (Str × List V) → List (Str × List V)
  unfolding local_ids column_feats
  part_feats num_parts reshuffle several sim_nid part [] feats = feats
  part_feats num_parts reshuffle several sim_nid part (frame ∷ frames) feats =
      part_feats num_parts reshuffle several sim_nid part frames (
        column_feats frame.name (local_ids b num_parts reshuffle several sim_nid part frame.id)
          frame.columns feats)

-- The number of rows that are picked for the edge types of a part; it is only counted in several parts.
unfoldable pub inner_edges : Backend → ℕ → Bool → Bool → List ℕ → Part → List ℕ → ℕ
unfolding local_ids
inner_edges b num_parts reshuffle several sim_eid part [] = 0
inner_edges b num_parts reshuffle several sim_eid part (etype_id ∷ etypes) =
    (if ltb 1 num_parts
      then elim (local_ids b num_parts reshuffle several sim_eid part etype_id) [
        | none ↦ 0
        | some local_edges ↦ length local_edges
      ]
      else 0)
    + inner_edges b num_parts reshuffle several sim_eid part etypes

unfoldable pub tot_num_inner_edges : Backend → ℕ → Bool → Bool → List ℕ → List ℕ → List Part → ℕ
unfolding inner_edges
tot_num_inner_edges b num_parts reshuffle several sim_eid etypes [] = 0
tot_num_inner_edges b num_parts reshuffle several sim_eid etypes (part ∷ parts) =
    inner_edges b num_parts reshuffle several sim_eid part etypes
    + tot_num_inner_edges b num_parts reshuffle several sim_eid etypes parts

-- num_cuts, which is printed
unfoldable pub num_cuts : ℕ → ℕ → ℕ → ℤ
num_cuts num_parts num_edges tot_num_inner_edges =
    if num_parts == 1 then pos 0 else diff num_edges tot_num_inner_edges
