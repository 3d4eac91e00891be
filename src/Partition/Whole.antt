-- ===== src/Partition/Whole.antt =====
-- srcChange/partition/aly_partition.py: `partition_graph` as a whole. What it prints, the times and the
-- warning are left out.
pub mod Reading
pub mod Loaded
pub mod Typed
pub mod Original
mod Tests
use bear_rpc.Base.{
  ℕ, zero, suc, ◌+◌, ◌*◌, ◌==◌, Bool, true, false, ◌||◌, not, ltb, leb, Option, none, some, List,
  [], ◌∷◌, ◌++◌, map, length, if◌then◌else◌, ℤ, pos, Result, ok, raise, Error, value_error,
  exception, assert, ◌>>=◌, ◌>>◌,
}
use bear_rpc.Base.Arrays.{full}
use bear_rpc.Text.{Str, codes, str_eq}
use bear_rpc.Launch.Submit.{path_join}
use bear_rpc.Partition.Backend.{Backend}
use bear_rpc.Partition.Maps.{Ids, Kind, id_maps}
use bear_rpc.Partition.Maps.Consecutive.{consecutive}
use bear_rpc.Partition.Config.{EdgeType, IdMap, by_type, file, Formats, dump_part_config}
use bear_rpc.Partition.Parts.{fix_parts, Assignment, assign_metis}
use bear_rpc.Partition.Graph.{NodeSet, EdgeSet, Graph, SimGraph, is_homogeneous}
use bear_rpc.Partition.Homogeneous.{Balancing, Homogenizer, get_homogeneous}
use bear_rpc.Partition.Trainers.{set_trainer_ids}
use bear_rpc.Partition.Pieces.{Piece, whole_piece, type_parts, Fill, edge_assignment}
use bear_rpc.Partition.Saved.{Job, stored, full_metadata, config_path}
use bear_rpc.Partition.Store.{Files, write, has_format, Saving, save_parts}
use bear_rpc.Partition.Splitting.{
  Mapping, Partitioner, PartitionArgs, Split, node_kinds, edge_kinds, split_graph,
}

-- The graph, the method and the numbers that go into the config.
unfoldable pub job_of : {V : Type 0} → PartitionArgs → Graph V → Job
unfolding node_kinds edge_kinds
job_of args g = record {
  graph_name = args.graph_name;
  num_nodes = total (map (λ kind. kind.number) (node_kinds g));
  num_edges = total (map (λ kind. kind.number) (edge_kinds g));
  part_method = args.part_method;
  num_parts = args.num_parts;
  num_hops = args.num_hops;
  ntypes = node_kinds g;
  etypes = edge_kinds g;
}
  where
    total : List ℕ → ℕ
    total [] = 0
    total (n ∷ ns) = n + total ns

module _ {V S : Type 0} (b : Backend) (p : Partitioner V S) (args : PartitionArgs)
    (g : Graph V) where
  -- node_map_val and edge_map_val, with the files that hold them without reshuffling
  unfoldable pub stored_maps :
      Bool → List ℕ → List (Piece S) → Files V S → Result ((IdMap Str × IdMap EdgeType) × Files V S)
  stored_maps true node_parts parts files = do
    (node_map_val, edge_map_val) ←
        id_maps b p.np_sort args.num_parts (node_kinds g) (edge_kinds g)
          (map (λ part. part.nodes.ids) parts) (map (λ part. part.edges.ids) parts)
    ok ((by_type (stored node_map_val), by_type (stored edge_map_val)), files)
  stored_maps false node_parts parts files =
      let node_map_val = path_join args.out_path (codes "node_map") ++ codes ".npy" in
      let edge_map_val = path_join args.out_path (codes "edge_map") ++ codes ".npy" in
      let edge_parts = edge_assignment b p.fill (job_of args g).num_edges parts in
      ok (
        (file node_map_val, file edge_map_val),
        record {
          texts = files.texts;
          arrays =
              write edge_map_val edge_parts (write node_map_val (map pos node_parts) files.arrays);
          tensors = files.tensors;
          graphs = files.graphs;
        },
      )

  -- What follows the splitting; the files are those behind a call that returns.
  unfoldable pub save_split :
      Formats → Saving S → SimGraph → List ℕ → List (Piece S) → Files V S → Result (Files V S)
  save_split f s sim_g node_parts parts files = do
    typed ←
        type_parts b p.np_sort (is_homogeneous g) args.reshuffle (node_kinds g) (edge_kinds g) sim_g
          parts
    (maps, files₁) ← stored_maps args.reshuffle node_parts typed files
    files₂ ←
        save_parts b s args.num_parts args.reshuffle g sim_g args.out_path typed 0 args.num_parts
          files₁
    texts ←
        dump_part_config f files₂.texts (config_path args.out_path (job_of args g))
          (full_metadata (job_of args g) maps.0 maps.1)
    ok (record {
      texts = texts;
      arrays = files₂.arrays;
      tensors = files₂.tensors;
      graphs = files₂.graphs;
    })

-- `formats` are the formats of the graph.
unfoldable pub partition_graph :
    {V S : Type 0}
    → Backend
    → Partitioner V S
    → Formats
    → Saving S
    → List Str
    → PartitionArgs
    → Graph V
    → Files V S
    → Result (Files V S × Option Mapping)
partition_graph b p f s formats args g files = do
  assert (has_format (codes "coo") formats) "'coo' format should be allowed for partitioning graph."
  (if has_format args.objtype (codes "cut" ∷ codes "vol" ∷ []) then ok tt else raise value_error)
  split ← split_graph b p args g
  files' ← save_split b p args split.graph f s split.sim_g split.node_parts split.parts files
  ok (files', split.mapping)
