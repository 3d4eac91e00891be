-- ===== src/Partition/Saved.antt =====
-- srcChange/partition/aly_partition.py: the end of `partition_graph`, which writes the partition
-- config, for a reshuffled graph.
pub mod Keys
pub mod Owners
pub mod Tests
use bear_rpc.Base.{
  ℕ, zero, suc, ◌+◌, Bool, true, false, Option, none, some, List, [], ◌∷◌, ◌++◌, map, Result, ok,
  ◌>>=◌,
}
use bear_rpc.Text.{Str, codes}
use bear_rpc.Text.Number.{show}
use bear_rpc.Partition.Backend.{Backend}
use bear_rpc.Partition.Maps.{Ids, Kind, id_maps}
use bear_rpc.Partition.Config.{
  EdgeType, range, TypeMap, bounds, IdMap, by_type, PartFiles, PartMetadata, Formats, Disk,
  dump_part_config,
}

-- A map as it stands in the config: a list of two IDs for each part.
unfoldable pub stored : {K : Type 0} → List (K × List (ℕ × ℕ)) → List (K × TypeMap)
stored [] = []
stored ((key, ranges) ∷ maps) =
    (key, bounds (map (λ (start, end). range start end) ranges)) ∷ stored maps

-- {type: g.get_type_id(type) for type in types}; a graph has each type once.
unfoldable pub type_ids : {K : Type 0} → List (Kind K) → List (K × ℕ)
type_ids [] = []
type_ids (kind ∷ kinds) = (kind.name, kind.id) ∷ type_ids kinds

-- What is stored at part-i, as paths from the folder of the config.
unfoldable pub part_files : ℕ → PartFiles
unfolding show
part_files part_id =
    let part_dir = codes "part" ++ show part_id in
    record {
      node_feats = some (part_dir ++ codes "/node_feat.dgl");
      edge_feats = some (part_dir ++ codes "/edge_feat.dgl");
      part_graph = some (part_dir ++ codes "/graph.dgl");
    }

-- The entries of `count` parts, from a part on.
unfoldable pub part_entries : ℕ → ℕ → List (Str × PartFiles)
unfolding part_files show
part_entries part_id zero = []
part_entries part_id (suc count) =
    (codes "part-" ++ show part_id, part_files part_id) ∷ part_entries (part_id + 1) count

-- The graph that is partitioned, and how.
pub record Job : Type 0 where
  pub graph_name : Str
  pub num_nodes : ℕ
  pub num_edges : ℕ
  pub part_method : Str
  pub num_parts : ℕ
  pub num_hops : ℕ
  pub ntypes : List (Kind Str)
  pub etypes : List (Kind EdgeType)

-- part_metadata, with the entries of the parts
unfoldable pub full_metadata : Job → IdMap Str → IdMap EdgeType → PartMetadata EdgeType
unfolding type_ids part_entries
full_metadata job node_map_val edge_map_val = record {
  graph_name = some job.graph_name;
  num_nodes = some job.num_nodes;
  num_edges = some job.num_edges;
  part_method = some job.part_method;
  num_parts = some job.num_parts;
  halo_hops = some job.num_hops;
  node_map = some node_map_val;
  edge_map = some edge_map_val;
  ntypes = some (type_ids job.ntypes);
  etypes = some (type_ids job.etypes);
  parts = part_entries 0 job.num_parts;
}

-- part_metadata of a reshuffled graph
unfoldable pub metadata_of :
    Job → List (Str × List (ℕ × ℕ)) → List (EdgeType × List (ℕ × ℕ)) → PartMetadata EdgeType
unfolding stored full_metadata
metadata_of job node_map_val edge_map_val =
    full_metadata job (by_type (stored node_map_val)) (by_type (stored edge_map_val))

-- out_path/graph_name.json
unfoldable pub config_path : Str → Job → Str
config_path out_path job = out_path ++ (codes "/" ++ (job.graph_name ++ codes ".json"))

-- From the reshuffled parts to the files behind the dump of the config.
unfoldable pub save_config :
    (b : Backend)
    → (List ℕ → List ℕ)
    → Formats
    → Str
    → Job
    → List Ids
    → List Ids
    → Disk
    → Result Disk
unfolding id_maps metadata_of dump_part_config config_path
save_config b np_sort f out_path job nodes edges disk = do
  maps ← id_maps b np_sort job.num_parts job.ntypes job.etypes nodes edges
  dump_part_config f disk (config_path out_path job) (metadata_of job maps.0 maps.1)
