-- ===== src/Partition/Saved/Owners.antt =====
-- srcChange/partition/aly_partition.py: the partition book that is loaded from the config that
-- `partition_graph` stores.
use bear_rpc.Base.{
  ℕ, some, get_elem?, ◌≡◌, ◌≢◌, ◌<◌, refl, ap, ◌∙◌, subst, List, [], length, ◌∷◌, All, ok,
  >>=-eq_ok, ok-injective,
}
use bear_rpc.Text.{Str, str_eq, str_eq_iff}
use bear_rpc.Partition.Backend.{Backend, IsBackend}
use bear_rpc.Partition.Maps.{Ids, Kind, type_ranges, check_sorted, id_maps}
use bear_rpc.Partition.Maps.Owners.{IsReshuffled, IsInner, id_maps_lem}
use bear_rpc.Partition.Parts.Ranges.{Holds}
use bear_rpc.Partition.Config.{EdgeType, dump_part_config, same_etype, PartMetadata, Formats, Disk}
use bear_rpc.Partition.Config.Items.{IsEtypes, same_etype_refl}
use bear_rpc.Partition.Config.RoundTrip.{
  IsEdgeMap, IsTypes, text_of, load-dump_part_config, dumped, dump_part_config_lem,
}
use bear_rpc.Partition.Book.{range_book, LoadedBook, load_partition_book}
use bear_rpc.Partition.Book.Loaded.{HasRanges, book_of-metadata_of}
use bear_rpc.Partition.Saved.{stored, type_ids, Job, metadata_of, config_path, save_config}
use bear_rpc.Partition.Saved.Keys.{
  SameKeys, SameKeys-KeysIn, SameKeys-stored, IsEtypes-SameKeys, type_ranges_lem,
}

id_maps-keys :
    {N E : Type 0} (b : Backend) (np_sort : List ℕ → List ℕ) (num_parts : ℕ)
    (ntypes : List (Kind N)) (etypes : List (Kind E)) (nodes edges : List Ids)
    (node_map : List (N × List (ℕ × ℕ))) (edge_map : List (E × List (ℕ × ℕ)))
    → IsBackend b
    → id_maps b np_sort num_parts ntypes etypes nodes edges ≡ ok (node_map, edge_map)
    → (SameKeys (type_ids ntypes) node_map × HasRanges node_map)
      × (SameKeys (type_ids etypes) edge_map × HasRanges edge_map)
unfolding id_maps
id_maps-keys b np_sort num_parts ntypes etypes nodes edges node_map edge_map lawful h =
    let (made, one, h₁) = >>=-eq_ok (type_ranges b (λ ids. ids) num_parts nodes ntypes) _ h in
    let (edge_made, more, h₂) = >>=-eq_ok (type_ranges b np_sort num_parts edges etypes) _ h₁ in
    let (_, _, h₃) = >>=-eq_ok (check_sorted made) _ h₂ in
    let (_, _, h₄) = >>=-eq_ok (check_sorted edge_made) _ h₃ in
    let same = ok-injective (made, edge_made) (node_map, edge_map) h₄ in
    (
      subst (λ m. SameKeys (type_ids ntypes) m × HasRanges m) (ap (λ q. q.0) same)
          (type_ranges_lem b lawful (λ ids. ids) num_parts nodes ntypes made one),
      subst (λ m. SameKeys (type_ids etypes) m × HasRanges m) (ap (λ q. q.1) same)
          (type_ranges_lem b lawful np_sort num_parts edges etypes edge_made more),
    )

-- The book of a part, for the maps that are stored.
unfoldable pub saved_book :
    Job → List (Str × List (ℕ × ℕ)) → List (EdgeType × List (ℕ × ℕ)) → ℕ → LoadedBook
saved_book job nodes edges part_id = record {
  book = range_book part_id job.num_parts nodes edges (type_ids job.ntypes) (type_ids job.etypes);
  graph_name = job.graph_name;
  ntypes = type_ids job.ntypes;
  etypes = type_ids job.etypes;
}

some_type :
    (job : Job) (kind : Kind Str) (node_map : List (Str × List (ℕ × ℕ)))
    → job.ntypes ≡ kind ∷ []
    → SameKeys (type_ids job.ntypes) node_map
    → node_map ≢ []
unfolding SameKeys type_ids
some_type job kind node_map one keys empty = absurd (
    subst (λ l. SameKeys {W = List (ℕ × ℕ)} (type_ids l) []) one
      (subst (λ m. SameKeys (type_ids job.ntypes) m) empty keys))

module _ (b : Backend) (lawful : IsBackend b) (np_sort : List ℕ → List ℕ) (f : Formats)
    (out_path : Str) (job : Job) (nodes edges : List Ids) (node_map : List (Str × List (ℕ × ℕ)))
    (edge_map : List (EdgeType × List (ℕ × ℕ))) where
  -- The config is written.
  pub metadata-dumped :
      (disk : Disk)
      → IsEtypes f (type_ids job.etypes)
      → id_maps b np_sort job.num_parts job.ntypes job.etypes nodes edges ≡ ok (node_map, edge_map)
      → dump_part_config f disk (config_path out_path job) (metadata_of job node_map edge_map)
        ≡ ok (dumped f disk (config_path out_path job) (metadata_of job node_map edge_map))
  metadata-dumped disk types maps =
      let (_, (ekeys, _)) =
        id_maps-keys b np_sort job.num_parts job.ntypes job.etypes nodes edges node_map edge_map
          lawful maps in
      dump_part_config_lem f disk (config_path out_path job) (metadata_of job node_map edge_map)
        (unfold metadata_of IsEdgeMap in
          IsEtypes-SameKeys f (type_ids job.etypes) (stored edge_map)
            (SameKeys-stored (type_ids job.etypes) edge_map ekeys) types)
        (unfold metadata_of IsTypes in types)

  pub save_config-dumped :
      (disk : Disk)
      → IsEtypes f (type_ids job.etypes)
      → id_maps b np_sort job.num_parts job.ntypes job.etypes nodes edges ≡ ok (node_map, edge_map)
      → save_config b np_sort f out_path job nodes edges disk
        ≡ ok (dumped f disk (config_path out_path job) (metadata_of job node_map edge_map))
  unfolding save_config
  save_config-dumped disk types maps = rw maps (metadata-dumped disk types maps)

  -- Whatever part asks for it, the book that is loaded holds the maps that were stored.
  pub saved-loaded :
      (disk : Disk) (part_id : ℕ)
      → IsEtypes f (type_ids job.etypes)
      → node_map ≢ []
      → f.json_load (f.json_dump (text_of f (metadata_of job node_map edge_map)))
        ≡ ok (text_of f (metadata_of job node_map edge_map))
      → id_maps b np_sort job.num_parts job.ntypes job.etypes nodes edges ≡ ok (node_map, edge_map)
      → part_id < job.num_parts
      → (disk' : Disk) × (save_config b np_sort f out_path job nodes edges disk ≡ ok disk')
        × (load_partition_book f disk' (config_path out_path job) part_id
            ≡ ok (saved_book job node_map edge_map part_id))
  unfolding save_config load_partition_book saved_book
  saved-loaded disk part_id types some_node json maps below =
      let ((nkeys, nranges), (ekeys, eranges)) =
        id_maps-keys b np_sort job.num_parts job.ntypes job.etypes nodes edges node_map edge_map
          lawful maps in
      let m : PartMetadata EdgeType = metadata_of job node_map edge_map in
      let (disk', saved, loaded, _) =
        load-dump_part_config f disk (config_path out_path job) m
          (unfold metadata_of IsEdgeMap in
            IsEtypes-SameKeys f (type_ids job.etypes) (stored edge_map)
              (SameKeys-stored (type_ids job.etypes) edge_map ekeys) types)
          (unfold metadata_of IsTypes in types) json in
      let book =
        book_of-metadata_of f job part_id node_map edge_map below some_node nranges eranges
          (SameKeys-KeysIn str_eq (type_ids job.ntypes) node_map (λ k. (str_eq_iff k k).1 refl)
            nkeys)
          (SameKeys-KeysIn same_etype (type_ids job.etypes) edge_map same_etype_refl ekeys) in
      (disk', rw maps saved, rw loaded book)

-- A reshuffled graph of one node type, in several parts, with as many parts as are asked for: once the checks of its maps are passed, its
-- partition config is written, and for each part the book that is loaded from it has one range of
-- nodes for each part; a node of the graph is in exactly one of these ranges, and is an inner node of
-- the part with its index. It is supposed that the JSON library reads back what it has written, and
-- that the text of each edge type is read as this edge type.
pub save_config-load_partition_book :
    (b : Backend) (np_sort : List ℕ → List ℕ) (f : Formats) (out_path : Str) (job : Job)
    (nodes edges : List Ids) (node_map : List (Str × List (ℕ × ℕ)))
    (edge_map : List (EdgeType × List (ℕ × ℕ))) (disk : Disk) (kind : Kind Str) (part_id v : ℕ)
    → IsBackend b
    → IsEtypes f (type_ids job.etypes)
    → f.json_load (f.json_dump (text_of f (metadata_of job node_map edge_map)))
      ≡ ok (text_of f (metadata_of job node_map edge_map))
    → 1 < job.num_parts
    → length nodes ≡ job.num_parts
    → job.ntypes ≡ kind ∷ []
    → All (IsReshuffled kind.number kind.id) nodes
    → id_maps b np_sort job.num_parts job.ntypes job.etypes nodes edges ≡ ok (node_map, edge_map)
    → part_id < job.num_parts
    → v < kind.number
    → (disk' : Disk) × (save_config b np_sort f out_path job nodes edges disk ≡ ok disk')
      × (ranges : List (ℕ × ℕ)) × (load_partition_book f disk' (config_path out_path job) part_id
          ≡ ok (saved_book job ((kind.name, ranges) ∷ []) edge_map part_id))
      × (length ranges ≡ job.num_parts)
      × (i : ℕ) × Holds ranges i v
      × ((j : ℕ) → Holds ranges j v → j ≡ i)
      × ((part : Ids) × (get_elem? nodes i ≡ some part) × IsInner kind.id part v)
save_config-load_partition_book b np_sort f out_path job nodes edges node_map edge_map disk kind
      part_id v lawful types json many parts_given one reshuffled maps below known =
    let ((keys, _), _) =
      id_maps-keys b np_sort job.num_parts job.ntypes job.etypes nodes edges node_map edge_map
        lawful maps in
    let (disk', saved, loaded) =
      saved-loaded b lawful np_sort f out_path job nodes edges node_map edge_map disk part_id types
        (some_type job kind node_map one keys) json maps below in
    let (ranges, shape, as_many, i, held, only, owner) =
      id_maps_lem b np_sort job.num_parts kind job.etypes nodes edges node_map edge_map v lawful
        many reshuffled
        (subst
          (λ l. id_maps b np_sort job.num_parts l job.etypes nodes edges ≡ ok (node_map, edge_map))
          one maps)
        known in
    (
      disk',
      saved,
      ranges,
      loaded ∙ ap (λ m. ok (saved_book job m edge_map part_id)) shape,
      as_many ∙ parts_given,
      i,
      held,
      only,
      owner,
    )
