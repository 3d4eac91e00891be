-- ===== src/Partition/Whole/Reading.antt =====
-- srcChange/partition/aly_partition.py: what `load_partition` reads from the files of a part.
use bear_rpc.Base.{
  ℕ, ltb, not, ◌<◌, ◌≡◌, ◌==◌, refl, ap, ◌∙◌, true, false, Option, some, List, [], ◌∷◌, ◌++◌, map,
  length, All-append, arith, ok,
}
use bear_rpc.Text.{Str, codes}
use bear_rpc.Text.Number.{show}
use bear_rpc.Partition.Backend.{Backend}
use bear_rpc.Partition.Config.{EdgeType, Formats, Disk}
use bear_rpc.Partition.Config.RoundTrip.{text_of, dumped, load_json-dumped}
use bear_rpc.Partition.Book.{required, range_book, load_partition_book}
use bear_rpc.Partition.Features.Names.{part_feats-IsTyped, nil-IsTyped}
use bear_rpc.Partition.Graph.{Graph, SimGraph, is_homogeneous}
use bear_rpc.Partition.Load.{relative_to}
use bear_rpc.Partition.Load.Feats.{IsTyped, find-part_entries, load_partition_feats-dumped}
use bear_rpc.Partition.Pieces.{Piece}
use bear_rpc.Partition.Saved.{Job, type_ids, part_files, metadata_of, config_path}
use bear_rpc.Partition.Saved.Owners.{saved_book}
use bear_rpc.Partition.Store.{
  Files, stored_at, node_frame, edge_frame, Saving, part_path, node_feats, edge_feats, Loaded,
  load_partition,
}
use bear_rpc.Partition.Store.Paths.{IsFolder, NoSlash, folder, relative_to_lem}
use bear_rpc.Partition.Store.Saved.{IsSaved, saved_graph}

module _ {V S : Type 0} (b : Backend) (s : Saving S) (g : Graph V) (sim_g : SimGraph)
    (job : Job) where
  -- What is loaded of a part, for the maps that are stored.
  unfoldable pub loaded_part :
      List (Str × List (ℕ × ℕ)) → List (EdgeType × List (ℕ × ℕ)) → ℕ → Piece S → Loaded V S
  unfolding type_ids
  loaded_part nodes edges part_id part = record {
    graph = saved_graph s part;
    node_feats = some (node_feats b s job.num_parts true g sim_g part);
    edge_feats = some (edge_feats b s job.num_parts true g sim_g part);
    gpb = range_book part_id job.num_parts nodes edges (type_ids job.ntypes) (type_ids job.etypes);
    graph_name = job.graph_name;
    ntypes_list = map (λ (name, _). name) (type_ids job.ntypes);
    etypes_list = map (λ (name, _). name) (type_ids job.etypes);
  }

  module _ (f : Formats) (out_path : Str) (is_folder : IsFolder out_path)
      (no_slash : NoSlash job.graph_name) where
    config-NoSlash : NoSlash (job.graph_name ++ codes ".json")
    config-NoSlash =
        All-append (λ c. (c == b'/') ≡ false) job.graph_name (codes ".json") no_slash
          (refl, (refl, (refl, (refl, (refl, tt)))))

    -- A stored file is read by its path from the config.
    found :
        {A : Type 0} (files : Str → Option A) (i d : ℕ) (name : Str) (content : A)
        → (d == b'/') ≡ false
        → files (part_path out_path i (d ∷ name)) ≡ some content
        → stored_at files
            (relative_to (config_path out_path job) ((codes "part" ++ show i) ++ (b'/' ∷ d ∷ name)))
          ≡ ok content
    unfolding stored_at config_path folder
    found files i d name content plain there =
        ap (stored_at files) (
          relative_to_lem out_path (job.graph_name ++ codes ".json") i d name is_folder
            config-NoSlash plain)
        ∙ rw (stored_at, there) refl

    node_feats-IsTyped : (part : Piece S) → IsTyped (node_feats b s job.num_parts true g sim_g part)
    unfolding node_feats
    node_feats-IsTyped part =
        part_feats-IsTyped b (s.nid ∷ codes "inner_node" ∷ []) job.num_parts true
          (ltb 1 (length g.nodes)) sim_g.nid part.nodes (map node_frame g.nodes) [] (nil-IsTyped V)

    edge_feats-IsTyped : (part : Piece S) → IsTyped (edge_feats b s job.num_parts true g sim_g part)
    unfolding edge_feats
    edge_feats-IsTyped part =
        part_feats-IsTyped b (s.eid ∷ codes "inner_edge" ∷ []) job.num_parts true
          (not (is_homogeneous g)) sim_g.eid part.edges
          (map (edge_frame s.etype_tuple_to_str) g.edges) [] (nil-IsTyped V)

    pub load_partition-saved :
        (files : Files V S) (disk : Disk) (nodes : List (Str × List (ℕ × ℕ)))
        (edges : List (EdgeType × List (ℕ × ℕ))) (part_id : ℕ) (part : Piece S)
        → files.texts ≡ dumped f disk (config_path out_path job) (metadata_of job nodes edges)
        → f.json_load (f.json_dump (text_of f (metadata_of job nodes edges)))
          ≡ ok (text_of f (metadata_of job nodes edges))
        → load_partition_book f
            (dumped f disk (config_path out_path job) (metadata_of job nodes edges))
            (config_path out_path job)
            part_id
          ≡ ok (saved_book job nodes edges part_id)
        → part_id < job.num_parts
        → IsSaved b s job.num_parts true g sim_g out_path files part_id part
        → load_partition f files (config_path out_path job) part_id true
          ≡ ok (loaded_part nodes edges part_id part)
    unfolding load_partition loaded_part required part_files text_of metadata_of saved_book
        saved_graph
    load_partition-saved files disk nodes edges part_id part texts json book below saved =
        let path = config_path out_path job in
        let m = metadata_of job nodes edges in
        let feats =
          load_partition_feats-dumped f (stored_at files.tensors) disk path job nodes edges part_id
            (node_feats b s job.num_parts true g sim_g part)
            (edge_feats b s job.num_parts true g sim_g part) json below
            (found files.tensors part_id b'n' (codes "ode_feat.dgl") _ refl saved.nodes)
            (found files.tensors part_id b'e' (codes "dge_feat.dgl") _ refl saved.edges)
            (node_feats-IsTyped part) (edge_feats-IsTyped part) in
        rw
          (
            texts,
            load_json-dumped f disk path m json,
            find-part_entries part_id 0 job.num_parts (omega arith) (omega arith),
            found files.graphs part_id b'g' (codes "raph.dgl") _ refl saved.graph,
            book,
            feats,
          )
          refl
