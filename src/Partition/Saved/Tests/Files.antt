-- ===== src/Partition/Saved/Tests/Files.antt =====
-- The config of the two parts, in a file system that holds nothing else; a text of an edge type has
-- blanks between its names.
use bear_rpc.Base.{
  ℕ, ◌≡◌, refl, none, some, List, [], ◌∷◌, ◌++◌, arith, length, get_elem?, Result, ok, raise,
  value_error,
}
use bear_rpc.Base.Dict.{Fresh, member}
use bear_rpc.Text.{Str, codes}
use bear_rpc.Text.Split.{split, is_space}
use bear_rpc.Partition.Maps.{Ids}
use bear_rpc.Partition.Maps.Owners.{IsInner}
use bear_rpc.Partition.Parts.Ranges.{Holds}
use bear_rpc.Partition.Config.{EdgeType, PartMetadata, Formats, Disk}
use bear_rpc.Partition.Config.Items.{Inverts, IsEtypes}
use bear_rpc.Partition.Config.RoundTrip.{text_of}
use bear_rpc.Partition.Book.{load_partition_book}
use bear_rpc.Partition.Saved.{type_ids, Job, metadata_of, config_path, save_config}
use bear_rpc.Partition.Saved.Owners.{saved_book, save_config-load_partition_book}
use bear_rpc.Partition.Saved.Tests.{
  lists, lists-IsBackend, np_sort, node_ids, edge_ids, node_kind, etype, edge_kind, node_map,
  edge_map, id_maps_run, node_ids-IsReshuffled,
}

abbrev read_etype : List Str → Result EdgeType
read_etype (src ∷ rel ∷ dst ∷ []) = ok (record { src_type = src; relation = rel; dst_type = dst })
read_etype other = raise value_error

abbrev pub job : Job
job = record {
  graph_name = codes "g";
  num_nodes = 3;
  num_edges = 3;
  part_method = codes "metis";
  num_parts = 2;
  num_hops = 1;
  ntypes = node_kind ∷ [];
  etypes = edge_kind ∷ [];
}

unfoldable pub meta : PartMetadata EdgeType
unfolding metadata_of
meta = metadata_of job node_map edge_map

-- The JSON library of this graph: it has one text.
formats_of : Result (PartMetadata Str) → Formats
unfolding split
formats_of parsed = record {
  json_load = λ text. parsed;
  json_dump = λ config. codes "{}";
  np_load = λ name. raise value_error;
  default_ntype = codes "_N";
  default_etype = etype;
  etype_str_to_tuple = λ text. read_etype (split text);
  etype_tuple_to_str = λ e. e.src_type ++ (codes " " ++ (e.relation ++ (codes " " ++ e.dst_type)));
}

pub formats : Formats
unfolding formats_of text_of meta
formats = formats_of (ok (text_of (formats_of (raise value_error)) meta))

pub empty : Disk
empty path = none

pub types : IsEtypes formats (type_ids (edge_kind ∷ []))
unfolding IsEtypes Inverts formats Fresh type_ids is_space member
types = ((refl, tt), (refl, tt))

pub json : formats.json_load (formats.json_dump (text_of formats meta)) ≡ ok (text_of formats meta)
unfolding formats
json = refl

save_config-load_partition_book_example :
    (disk' : Disk) × (save_config lists np_sort formats (codes "/out") job node_ids edge_ids empty
      ≡ ok disk')
    × (ranges : List (ℕ × ℕ)) × (load_partition_book formats disk'
          (config_path (codes "/out") job)
          1
        ≡ ok (saved_book job ((codes "_N", ranges) ∷ []) edge_map 1))
    × (length ranges ≡ 2)
    × (i : ℕ) × Holds ranges i 2
    × ((j : ℕ) → Holds ranges j 2 → j ≡ i)
    × ((part : Ids) × (get_elem? node_ids i ≡ some part) × IsInner 0 part 2)
unfolding meta
save_config-load_partition_book_example =
    save_config-load_partition_book lists np_sort formats (codes "/out") job node_ids edge_ids
      node_map edge_map empty node_kind 1 2 lists-IsBackend types json (omega arith) refl refl
      node_ids-IsReshuffled id_maps_run (omega arith) (omega arith)
