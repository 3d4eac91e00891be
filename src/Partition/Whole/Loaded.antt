-- ===== src/Partition/Whole/Loaded.antt =====
-- srcChange/partition/aly_partition.py: what `load_partition` returns behind `partition_graph`.
use bear_rpc.Base.{
  ℕ, ◌<◌, ◌≤◌, ◌≡◌, ◌≢◌, refl, sym, ◌∙◌, subst, true, some, List, [], ◌∷◌, map, length, get_elem?,
  All, arith, ok, ok-injective,
}
use bear_rpc.Text.{Str, codes}
use bear_rpc.Partition.Backend.{Backend, IsBackend}
use bear_rpc.Partition.Maps.{inner_mask, id_maps}
use bear_rpc.Partition.Config.{EdgeType, by_type, Formats, Disk}
use bear_rpc.Partition.Config.Items.{IsEtypes}
use bear_rpc.Partition.Config.RoundTrip.{text_of, dumped}
use bear_rpc.Partition.Book.{load_partition_book}
use bear_rpc.Partition.Graph.{NodeSet, EdgeSet, Graph, is_homogeneous}
use bear_rpc.Partition.Pieces.{Piece, type_parts}
use bear_rpc.Partition.Saved.{stored, type_ids, metadata_of, config_path}
use bear_rpc.Partition.Saved.Owners.{saved_book, metadata-dumped, save_config-dumped, saved-loaded}
use bear_rpc.Partition.Store.{Files, has_format, Saving, load_partition}
use bear_rpc.Partition.Store.Paths.{IsFolder, NoSlash}
use bear_rpc.Partition.Store.Rows.{HasRows, node_feats-HasRows, edge_feats-HasRows}
use bear_rpc.Partition.Store.Saved.{IsTagged, IsSaved, save_parts_lem}
use bear_rpc.Partition.Splitting.{
  Partitioner, PartitionArgs, Split, node_kinds, edge_kinds, split_graph,
}
use bear_rpc.Partition.Whole.{job_of, stored_maps, save_split, partition_graph}
use bear_rpc.Partition.Whole.Reading.{loaded_part, load_partition-saved}

module _ {V S : Type 0} (b : Backend) (lawful : IsBackend b) (p : Partitioner V S) (f : Formats)
    (s : Saving S) (args : PartitionArgs) (split : Split V S) (parts : List (Piece S))
    (nodes : List (Str × List (ℕ × ℕ))) (edges : List (EdgeType × List (ℕ × ℕ))) where
  -- The maps of the parts are found, and can be stored and read.
  pub record IsStored : Type 1 where
    pub typed :
        type_parts b p.np_sort
          (is_homogeneous split.graph)
          true
          (node_kinds split.graph)
          (edge_kinds split.graph)
          split.sim_g
          split.parts
        ≡ ok parts
    pub mapped :
        id_maps b p.np_sort args.num_parts
          (node_kinds split.graph)
          (edge_kinds split.graph)
          (map (λ part. part.nodes.ids) parts)
          (map (λ part. part.edges.ids) parts)
        ≡ ok (nodes, edges)
    pub some_node_type : nodes ≢ []
    pub etypes : IsEtypes f (type_ids (edge_kinds split.graph))
    pub json :
        f.json_load (f.json_dump (text_of f (metadata_of (job_of args split.graph) nodes edges)))
        ≡ ok (text_of f (metadata_of (job_of args split.graph) nodes edges))
    pub tagged : All IsTagged parts
    pub counted : args.num_parts ≤ length parts

  stored_maps_lem :
      (files : Files V S)
      → IsStored
      → stored_maps b p args split.graph true split.node_parts parts files
        ≡ ok ((by_type (stored nodes), by_type (stored edges)), files)
  unfolding stored_maps
  stored_maps_lem files h = rw h.mapped refl

  book_lem :
      (disk : Disk) (part_id : ℕ)
      → IsStored
      → part_id < args.num_parts
      → let job = job_of args split.graph in
        let path = config_path args.out_path job in
        load_partition_book f (dumped f disk path (metadata_of job nodes edges)) path part_id
        ≡ ok (saved_book job nodes edges part_id)
  unfolding job_of
  book_lem disk part_id h below =
      let job = job_of args split.graph in
      let node_ids = map (λ part. part.nodes.ids) parts in
      let edge_ids = map (λ part. part.edges.ids) parts in
      let (disk', saved, book) =
        saved-loaded b lawful p.np_sort f args.out_path job node_ids edge_ids nodes edges disk
          part_id h.etypes h.some_node_type h.json h.mapped below in
      let written =
        save_config-dumped b lawful p.np_sort f args.out_path job node_ids edge_ids nodes edges disk
          h.etypes h.mapped in
      subst
        (λ d.
          load_partition_book f d (config_path args.out_path job) part_id
          ≡ ok (saved_book job nodes edges part_id))
        (ok-injective disk' _ (sym saved ∙ written)) book

  save_split_lem :
      (files : Files V S)
      → IsStored
      → args.reshuffle ≡ true
      → IsFolder args.out_path
      → NoSlash args.graph_name
      → (files' : Files V S) × (save_split b p args split.graph f s split.sim_g split.node_parts
            split.parts files
          ≡ ok files')
        × ((part_id : ℕ) (part : Piece S)
            → part_id < args.num_parts
            → get_elem? parts part_id ≡ some part
            → load_partition f files'
                (config_path args.out_path (job_of args split.graph))
                part_id
                true
              ≡ ok (
                  loaded_part b s split.graph split.sim_g
                    (job_of args split.graph)
                    nodes
                    edges
                    part_id
                    part))
  unfolding save_split metadata_of job_of stored_maps dumped
  save_split_lem files h reshuffled is_folder no_slash =
      let job = job_of args split.graph in
      let m = metadata_of job nodes edges in
      let node_ids = map (λ part. part.nodes.ids) parts in
      let edge_ids = map (λ part. part.edges.ids) parts in
      let (saved, run, texts, _, there) =
        save_parts_lem b s args.num_parts true split.graph split.sim_g args.out_path is_folder parts
          0 args.num_parts files h.tagged (omega (arith, h.counted)) in
      let disk = dumped f saved.texts (config_path args.out_path job) m in
      let final : Files V S = record {
        texts = disk;
        arrays = saved.arrays;
        tensors = saved.tensors;
        graphs = saved.graphs;
      } in
      (
        final,
        rw
            (
              reshuffled,
              h.typed,
              stored_maps_lem files h,
              run,
              metadata-dumped b lawful p.np_sort f args.out_path job node_ids edge_ids nodes edges
                  saved.texts h.etypes h.mapped,
            )
            refl,
        λ part_id part below at.
            let kept : IsSaved b s args.num_parts true split.graph split.sim_g args.out_path saved
                part_id part =
              there part_id part (omega arith) (omega arith) at in
            load_partition-saved b s split.graph split.sim_g job f args.out_path is_folder no_slash
              final saved.texts nodes edges part_id part refl h.json
              (book_lem saved.texts part_id h below) below
              (record { nodes = kept.nodes; edges = kept.edges; graph = kept.graph }),
      )

-- A graph whose formats have 'coo', with an objective that is known, is partitioned and reshuffled:
-- then the partitioning returns, and from the files that it leaves each part is loaded as it was
-- saved. The graph of the part is its structure, in the formats that are asked for, with its IDs;
-- the features are those that the saving computes of the part; the partition book has the ranges of
-- all of the parts; and the names are those of the graph and of its types. Where there are several
-- parts and the graph has one node type, the features of a part whose columns of IDs have one length
-- have, for every column of the graph whose name is not reserved and is not used again behind it, the
-- rows at the original IDs of its inner nodes, in their order; and where the graph also has one edge
-- type, so they have for its inner edges. It is supposed that the parts
-- are there with their types, that the graph has a node type, that the ID ranges pass the checks,
-- that the JSON library reads back the config, that each edge type is read back from its text, that
-- the folder is not the root, and that the name of the graph has no slash.
pub partition_graph-load_partition :
    {V S : Type 0} (b : Backend) (p : Partitioner V S) (f : Formats) (s : Saving S)
    (formats : List Str) (args : PartitionArgs) (g : Graph V) (files : Files V S)
    (split : Split V S) (parts : List (Piece S)) (nodes : List (Str × List (ℕ × ℕ)))
    (edges : List (EdgeType × List (ℕ × ℕ)))
    → (lawful : IsBackend b) → has_format (codes "coo") formats ≡ true
    → has_format args.objtype (codes "cut" ∷ codes "vol" ∷ []) ≡ true
    → split_graph b p args g ≡ ok split
    → IsStored b lawful p f s args split parts nodes edges
    → args.reshuffle ≡ true
    → IsFolder args.out_path
    → NoSlash args.graph_name
    → (files' : Files V S) × (partition_graph b p f s formats args g files
        ≡ ok (files', split.mapping))
      × ((part_id : ℕ) (part : Piece S)
          → part_id < args.num_parts
          → get_elem? parts part_id ≡ some part
          → load_partition f files'
                (config_path args.out_path (job_of args split.graph))
                part_id
                true
              ≡ ok (
                  loaded_part b s split.graph split.sim_g
                    (job_of args split.graph)
                    nodes
                    edges
                    part_id
                    part)
            × ((node : NodeSet V)
                → 1 < args.num_parts
                → split.graph.nodes ≡ node ∷ []
                → length part.nodes.orig_id ≡ length (inner_mask part.nodes.ids node.kind.id)
                → HasRows
                    (s.nid ∷ codes "inner_node" ∷ [])
                    node.kind.name
                    node.kind.id
                    node.columns
                    part.nodes
                    (loaded_part b s split.graph split.sim_g
                      (job_of args split.graph)
                      nodes
                      edges
                      part_id
                      part).node_feats)
            × ((node : NodeSet V) (edge : EdgeSet V)
                → 1 < args.num_parts
                → split.graph.nodes ≡ node ∷ []
                → split.graph.edges ≡ edge ∷ []
                → length part.edges.orig_id ≡ length (inner_mask part.edges.ids edge.kind.id)
                → HasRows
                    (s.eid ∷ codes "inner_edge" ∷ [])
                    (s.etype_tuple_to_str edge.kind.name)
                    edge.kind.id
                    edge.columns
                    part.edges
                    (loaded_part b s split.graph split.sim_g
                      (job_of args split.graph)
                      nodes
                      edges
                      part_id
                      part).edge_feats))
unfolding partition_graph loaded_part job_of
partition_graph-load_partition b p f s formats args g files split parts nodes edges lawful has_coo
      known splits stored reshuffled is_folder no_slash =
    let (files', run, loads) =
      save_split_lem b lawful p f s args split parts nodes edges files stored reshuffled is_folder
        no_slash in
    (
      files',
      rw (has_coo, known, splits, run) refl,
      λ part_id part below at. (
        loads part_id part below at,
        λ node many one sized.
            node_feats-HasRows b lawful s args.num_parts many split.graph split.sim_g part node one
              sized,
        λ node edge many one one_edge sized.
            edge_feats-HasRows b lawful s args.num_parts many split.graph split.sim_g part node one
              edge one_edge sized,
      ),
    )
