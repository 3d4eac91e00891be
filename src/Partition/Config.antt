-- ===== src/Partition/Config.antt =====
-- srcChange/partition/aly_partition.py: the partition config, `_format_part_metadata`,
-- `_load_part_config` and `_dump_part_config`.
pub mod Items
pub mod RoundTrip
use bear_rpc.Base.{
  ℕ, Bool, true, false, ◌&&◌, Option, none, some, List, [], ◌∷◌, Result, ok, raise, Error,
  assertion, os_error, dgl_error, ◌>>=◌, if◌then◌else◌,
}
use bear_rpc.Base.Dict.{assign}
use bear_rpc.Text.{Str, str_eq}

-- A canonical edge type: the source type, the relation and the destination type.
pub record EdgeType : Type 0 where
  pub src_type : Str
  pub relation : Str
  pub dst_type : Str

unfoldable pub same_etype : EdgeType → EdgeType → Bool
same_etype a b =
    str_eq a.src_type b.src_type && (str_eq a.relation b.relation && str_eq a.dst_type b.dst_type)

-- An element of a list of IDs: in the old format the end of a range, else a range.
pub data Bound : Type 0 where
  stop : ℕ → Bound
  range : ℕ → ℕ → Bound

-- What a map stores for a type: a list, or something else.
pub data TypeMap : Type 0 where
  bounds : List Bound → TypeMap
  other : Str → TypeMap

-- A node map or an edge map: a dictionary of the types, one list, or the name of a file.
pub data IdMap (K : Type 0) : Type 0 where
  by_type : List (K × TypeMap) → IdMap K
  plain : List Bound → IdMap K
  file : Str → IdMap K

-- The files of one part, where they are named.
pub record PartFiles : Type 0 where
  pub node_feats : Option Str
  pub edge_feats : Option Str
  pub part_graph : Option Str

-- A partition config, where E is the type of its edge types: texts in a file, triples in memory.
-- `parts` holds what stands at the keys part-0, part-1, ….
pub record PartMetadata (E : Type 0) : Type 0 where
  pub graph_name : Option Str
  pub num_nodes : Option ℕ
  pub num_edges : Option ℕ
  pub part_method : Option Str
  pub num_parts : Option ℕ
  pub halo_hops : Option ℕ
  pub node_map : Option (IdMap Str)
  pub edge_map : Option (IdMap E)
  pub ntypes : Option (List (Str × ℕ))
  pub etypes : Option (List (E × ℕ))
  pub parts : List (Str × PartFiles)

module _ {E F : Type 0} (same : F → F → Bool) (formatter : E → Result F) where
  -- The loop over orig_data.items(), with the new_data that it fills.
  unfoldable pub format_items : {V : Type 0} → List (E × V) → List (F × V) → Result (List (F × V))
  format_items [] new_data = ok new_data
  format_items ((etype, value) ∷ orig_data) new_data = do
    etype' ← formatter etype
    format_items orig_data (assign same etype' value new_data)

  -- What is done at the key 'edge_map'.
  unfoldable pub format_edge_map : Option (IdMap E) → Result (Option (IdMap F))
  unfolding format_items
  format_edge_map none = ok none
  format_edge_map (some (by_type items)) = do
    items' ← format_items items []
    ok (some (by_type items'))
  format_edge_map (some (plain bounds')) = ok (some (plain bounds'))
  format_edge_map (some (file name)) = ok (some (file name))

  -- What is done at the key 'etypes'.
  unfoldable pub format_etypes : Option (List (E × ℕ)) → Result (Option (List (F × ℕ)))
  unfolding format_items
  format_etypes none = ok none
  format_etypes (some items) = do items' ← format_items items []; ok (some items')

  unfoldable pub format_part_metadata : PartMetadata E → Result (PartMetadata F)
  unfolding format_edge_map format_etypes
  format_part_metadata part_metadata = do
    edge_map ← format_edge_map part_metadata.edge_map
    etypes ← format_etypes part_metadata.etypes
    ok (record {
      graph_name = part_metadata.graph_name;
      num_nodes = part_metadata.num_nodes;
      num_edges = part_metadata.num_edges;
      part_method = part_metadata.part_method;
      num_parts = part_metadata.num_parts;
      halo_hops = part_metadata.halo_hops;
      node_map = part_metadata.node_map;
      edge_map = edge_map;
      ntypes = part_metadata.ntypes;
      etypes = etypes;
      parts = part_metadata.parts;
    })

-- except AssertionError as e: raise DGLError(…)
unfoldable pub as_dgl_error : {A : Type 0} → Result A → Result A
as_dgl_error (raise (assertion message)) = raise dgl_error
as_dgl_error r = r

-- JSON, `np.load`, and what is taken from DGL: the names of the default types and the two functions
-- on edge types.
-- The JSON library sorts the keys of what it dumps, so it reads back a config as the same record
-- where the types stand in this order.
pub record Formats : Type 0 where
  pub json_load : Str → Result (PartMetadata Str)
  pub json_dump : PartMetadata Str → Str
  pub np_load : Str → Result (List ℕ)
  pub default_ntype : Str
  pub default_etype : EdgeType
  pub etype_str_to_tuple : Str → Result EdgeType
  pub etype_tuple_to_str : EdgeType → Str

-- The files by their paths.
abbrev pub Disk : Type 0
Disk = Str → Option Str

module _ (f : Formats) where
  -- with open(part_config) as f: json.load(f)
  unfoldable pub load_json : Disk → Str → Result (PartMetadata Str)
  load_json disk path = elim (disk path) [ none ↦ raise os_error | some text ↦ f.json_load text ]

  unfoldable pub load_part_config : Disk → Str → Result (PartMetadata EdgeType)
  unfolding load_json format_part_metadata as_dgl_error
  load_part_config disk part_config = as_dgl_error (do
    part_metadata ← load_json disk part_config
    format_part_metadata same_etype f.etype_str_to_tuple part_metadata)

  -- The files behind the dump.
  unfoldable pub dump_part_config : Disk → Str → PartMetadata EdgeType → Result Disk
  unfolding format_part_metadata
  dump_part_config disk part_config part_metadata = do
    formatted ← format_part_metadata str_eq (λ etype. ok (f.etype_tuple_to_str etype)) part_metadata
    ok (λ path. if str_eq path part_config then some (f.json_dump formatted) else disk path)
