-- ===== src/Partition/Config/RoundTrip.antt =====
-- srcChange/partition/aly_partition.py: a partition config that is dumped is loaded unchanged.
use bear_rpc.Base.{ℕ, ◌≡◌, refl, ap, ◌∙◌, false, Option, none, some, List, if◌then◌else◌, ok, ◌>>=◌}
use bear_rpc.Text.{Str, str_eq, str_eq_iff}
use bear_rpc.Partition.Config.{
  EdgeType, same_etype, IdMap, by_type, plain, file, PartMetadata, Formats, Disk, format_edge_map,
  format_etypes, format_part_metadata, as_dgl_error, load_json, load_part_config, dump_part_config,
}
use bear_rpc.Partition.Config.Items.{IsEtypes, as_texts, to_texts_lem, from_texts_lem}

module _ (f : Formats) where
  -- The edge map, as it is dumped.
  unfoldable pub map_texts : Option (IdMap EdgeType) → Option (IdMap Str)
  unfolding as_texts
  map_texts none = none
  map_texts (some (by_type items)) = some (by_type (as_texts f items))
  map_texts (some (plain bounds)) = some (plain bounds)
  map_texts (some (file name)) = some (file name)

  unfoldable pub types_texts : Option (List (EdgeType × ℕ)) → Option (List (Str × ℕ))
  unfolding as_texts
  types_texts none = none
  types_texts (some items) = some (as_texts f items)

  unfoldable pub IsEdgeMap : Option (IdMap EdgeType) → Type 0
  unfolding IsEtypes
  IsEdgeMap (some (by_type items)) = IsEtypes f items
  IsEdgeMap _ = Unit

  unfoldable pub IsTypes : Option (List (EdgeType × ℕ)) → Type 0
  unfolding IsEtypes
  IsTypes none = Unit
  IsTypes (some items) = IsEtypes f items

  -- The config, as it is dumped.
  unfoldable pub text_of : PartMetadata EdgeType → PartMetadata Str
  unfolding map_texts types_texts
  text_of m = record {
    graph_name = m.graph_name;
    num_nodes = m.num_nodes;
    num_edges = m.num_edges;
    part_method = m.part_method;
    num_parts = m.num_parts;
    halo_hops = m.halo_hops;
    node_map = m.node_map;
    edge_map = map_texts m.edge_map;
    ntypes = m.ntypes;
    etypes = types_texts m.etypes;
    parts = m.parts;
  }

  edge_map_dumped :
      (edge_map : Option (IdMap EdgeType))
      → IsEdgeMap edge_map
      → format_edge_map str_eq (λ e. ok (f.etype_tuple_to_str e)) edge_map ≡ ok (map_texts edge_map)
  unfolding format_edge_map IsEdgeMap map_texts
  edge_map_dumped none h = refl
  edge_map_dumped (some (by_type items)) h = rw (to_texts_lem f items h) refl
  edge_map_dumped (some (plain bounds)) h = refl
  edge_map_dumped (some (file name)) h = refl

  edge_map_loaded :
      (edge_map : Option (IdMap EdgeType))
      → IsEdgeMap edge_map
      → format_edge_map same_etype f.etype_str_to_tuple (map_texts edge_map) ≡ ok edge_map
  unfolding format_edge_map IsEdgeMap map_texts
  edge_map_loaded none h = refl
  edge_map_loaded (some (by_type items)) h = rw (from_texts_lem f items h) refl
  edge_map_loaded (some (plain bounds)) h = refl
  edge_map_loaded (some (file name)) h = refl

  etypes_dumped :
      (etypes : Option (List (EdgeType × ℕ)))
      → IsTypes etypes
      → format_etypes str_eq (λ e. ok (f.etype_tuple_to_str e)) etypes ≡ ok (types_texts etypes)
  unfolding format_etypes IsTypes types_texts
  etypes_dumped none h = refl
  etypes_dumped (some items) h = rw (to_texts_lem f items h) refl

  etypes_loaded :
      (etypes : Option (List (EdgeType × ℕ)))
      → IsTypes etypes
      → format_etypes same_etype f.etype_str_to_tuple (types_texts etypes) ≡ ok etypes
  unfolding format_etypes IsTypes types_texts
  etypes_loaded none h = refl
  etypes_loaded (some items) h = rw (from_texts_lem f items h) refl

  text_dumped :
      (m : PartMetadata EdgeType)
      → IsEdgeMap m.edge_map
      → IsTypes m.etypes
      → format_part_metadata str_eq (λ e. ok (f.etype_tuple_to_str e)) m ≡ ok (text_of m)
  unfolding format_part_metadata text_of
  text_dumped m he ht = rw (edge_map_dumped m.edge_map he, etypes_dumped m.etypes ht) refl

  text_loaded :
      (m : PartMetadata EdgeType)
      → IsEdgeMap m.edge_map
      → IsTypes m.etypes
      → format_part_metadata same_etype f.etype_str_to_tuple (text_of m) ≡ ok m
  unfolding format_part_metadata text_of
  text_loaded m he ht = rw (edge_map_loaded m.edge_map he, etypes_loaded m.etypes ht) refl

  -- The files behind the dump.
  unfoldable pub dumped : Disk → Str → PartMetadata EdgeType → Disk
  dumped disk path m p = if str_eq p path then some (f.json_dump (text_of m)) else disk p

  pub dump_part_config_lem :
      (disk : Disk) (path : Str) (m : PartMetadata EdgeType)
      → IsEdgeMap m.edge_map
      → IsTypes m.etypes
      → dump_part_config f disk path m ≡ ok (dumped disk path m)
  unfolding dump_part_config dumped
  dump_part_config_lem disk path m he ht = rw (text_dumped m he ht) refl

  pub load_json-dumped :
      (disk : Disk) (path : Str) (m : PartMetadata EdgeType)
      → f.json_load (f.json_dump (text_of m)) ≡ ok (text_of m)
      → load_json f (dumped disk path m) path ≡ ok (text_of m)
  unfolding load_json dumped
  load_json-dumped disk path m json = rw (load_json, (str_eq_iff path path).1 refl) json

  -- A config whose edge types are read back from their texts is written to a file and loaded from
  -- there unchanged, if the JSON library reads back the text of the formatted config.
  pub load-dump_part_config :
      (disk : Disk) (path : Str) (m : PartMetadata EdgeType)
      → IsEdgeMap m.edge_map
      → IsTypes m.etypes
      → f.json_load (f.json_dump (text_of m)) ≡ ok (text_of m)
      → (disk' : Disk) × (dump_part_config f disk path m ≡ ok disk')
        × (load_part_config f disk' path ≡ ok m)
        × ((other : Str) → str_eq other path ≡ false → disk' other ≡ disk other)
  unfolding load_part_config as_dgl_error dumped
  load-dump_part_config disk path m he ht json = (
    dumped disk path m,
    dump_part_config_lem disk path m he ht,
    ap (λ r. as_dgl_error (r >>= format_part_metadata same_etype f.etype_str_to_tuple))
          (load_json-dumped disk path m json)
        ∙ ap as_dgl_error (text_loaded m he ht),
    λ other h. rw h refl,
  )
