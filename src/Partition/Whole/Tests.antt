-- ===== src/Partition/Whole/Tests.antt =====
-- The graph of `Partition.Saved.Tests`, which is partitioned for two trainers on each of two machines.
use bear_rpc.Base.{
  ℕ, ◌≡◌, Error, raise, refl, arith, true, false, none, some, List, [], ◌∷◌, ◌<◌, get_elem?, ok,
  map, ◌==◌, length,
}
use bear_rpc.Base.Dict.{assign, find}
use bear_rpc.Text.{Str, codes, str_eq}
use bear_rpc.Partition.Backend.Masks.{rank}
use bear_rpc.Partition.Config.{EdgeType}
use bear_rpc.Partition.Maps.{Kind, inner_mask, id_maps}
use bear_rpc.Partition.Features.{is_reserved}
use bear_rpc.Partition.Features.Rows.{inner_orig}
use bear_rpc.Partition.Graph.{NodeSet, EdgeSet, Graph, SimGraph, is_homogeneous}
use bear_rpc.Partition.Homogeneous.{no_balance}
use bear_rpc.Partition.Pieces.{Piece, type_parts}
use bear_rpc.Partition.Parts.{fix_parts}
use bear_rpc.Partition.Saved.{config_path, metadata_of}
use bear_rpc.Partition.Saved.Tests.{
  lists, lists-IsBackend, np_sort, node_kind, edge_kind, node_map, edge_map,
}
use bear_rpc.Partition.Saved.Tests.Files.{formats, json, types, meta}
use bear_rpc.Partition.Store.{Files, has_format, Saving, node_feats, load_partition}
use bear_rpc.Partition.Store.Rows.{HasRows, node_feats-HasRows}
use bear_rpc.Partition.Store.Paths.{IsFolder}
use bear_rpc.Partition.Store.Saved.{IsTagged}
use bear_rpc.Partition.Splitting.{
  Partitioner, PartitionArgs, Split, node_kinds, edge_kinds, split_graph, ids_by_type, get_orig_ids,
}
use bear_rpc.Partition.Whole.{job_of, partition_graph}
use bear_rpc.Partition.Whole.Original.{get_orig_ids_lem}
use bear_rpc.Partition.Whole.Typed.{partition_graph-typed}
use bear_rpc.Partition.Whole.Reading.{loaded_part}
use bear_rpc.Partition.Whole.Loaded.{IsStored, partition_graph-load_partition}

abbrev graph_with : List (Str × List ℕ) → List (Str × List ℕ) → Graph ℕ
graph_with nodes edges = record {
  nodes = record { kind = node_kind; columns = nodes } ∷ [];
  edges = record { kind = edge_kind; dst = 0 ∷ 1 ∷ 2 ∷ []; columns = edges } ∷ [];
}

abbrev graph : Graph ℕ
graph = graph_with ((codes "x", 5 ∷ 6 ∷ 7 ∷ []) ∷ []) []

abbrev sim_g : SimGraph
sim_g = record {
  ntype = 0 ∷ 0 ∷ 0 ∷ [];
  nid = 0 ∷ 1 ∷ 2 ∷ [];
  etype = 0 ∷ 0 ∷ 0 ∷ [];
  eid = 0 ∷ 1 ∷ 2 ∷ [];
}

abbrev piece : List ℕ → List ℕ → List ℕ → List ℕ → List ℕ → List ℕ → Piece Str
piece nid inner types eid inner_edge etypes = record {
  structure = codes "graph";
  nodes = record { ids = record { nid = nid; inner = inner; types = some types }; orig_id = nid };
  edges = record {
    ids = record { nid = eid; inner = inner_edge; types = some etypes };
    orig_id = eid;
  };
}

abbrev parts : List (Piece Str)
parts =
    piece (0 ∷ 1 ∷ 2 ∷ []) (1 ∷ 1 ∷ 0 ∷ []) (0 ∷ 0 ∷ 0 ∷ []) (1 ∷ 0 ∷ []) (1 ∷ 1 ∷ []) (0 ∷ 0 ∷ [])
    ∷ piece (2 ∷ 0 ∷ []) (1 ∷ 0 ∷ []) (0 ∷ 0 ∷ []) (2 ∷ []) (1 ∷ []) (0 ∷ [])
    ∷ []

abbrev partitioner : Partitioner ℕ Str
partitioner = record {
  homogenizer = record { to_homogeneous = λ g. sim_g; joined = λ columns. []; unique = λ xs. xs };
  structure = codes "graph";
  metis = λ call. 0 ∷ 1 ∷ 3 ∷ [];
  halo = λ node_parts num_hops reshuffle. record {
    parts = parts;
    orig_nids = 0 ∷ 1 ∷ 2 ∷ [];
    orig_eids = 0 ∷ 1 ∷ 2 ∷ [];
  };
  random_choice = λ n size. [];
  np_sort = np_sort;
  fill = λ xs idx v. xs;
  scatter_row = λ xs idx vs. xs;
  cell = λ n. n;
}

abbrev saving : Saving Str
saving = record {
  nid = codes "_ID";
  eid = codes "_ID";
  etype_tuple_to_str = formats.etype_tuple_to_str;
  in_formats = λ f structure. structure;
  graph_formats = none;
}

abbrev args : PartitionArgs
args = record {
  graph_name = codes "g";
  num_parts = 2;
  out_path = codes "/out";
  num_hops = 1;
  part_method = codes "metis";
  reshuffle = true;
  balance_ntypes = no_balance;
  balance_edges = false;
  return_mapping = false;
  num_trainers_per_machine = 2;
  objtype = codes "cut";
}

abbrev split : Split ℕ Str
split = record {
  graph =
      graph_with ((codes "x", 5 ∷ 6 ∷ 7 ∷ []) ∷ (codes "trainer_id", 0 ∷ 1 ∷ 3 ∷ []) ∷ [])
        ((codes "trainer_id", 0 ∷ 1 ∷ 3 ∷ []) ∷ []);
  sim_g = sim_g;
  node_parts = 0 ∷ 0 ∷ 0 ∷ [];
  parts = parts;
  mapping = none;
}

abbrev no_files : Files ℕ Str
no_files = record {
  texts = λ path. none;
  arrays = λ path. none;
  tensors = λ path. none;
  graphs = λ path. none;
}

split_run : split_graph lists partitioner args graph ≡ ok split
unfolding split_graph str_eq fix_parts assign
split_run = refl

split-IsStored :
    IsStored lists lists-IsBackend partitioner formats saving args split parts node_map edge_map
unfolding job_of node_kinds edge_kinds IsTagged inner_mask type_parts is_homogeneous id_maps
    metadata_of meta
split-IsStored = record {
  typed = refl;
  mapped = refl;
  some_node_type = λ empty. cc;
  etypes = types;
  json = json;
  tagged = ((_, refl), ((_, refl), tt));
  counted = omega arith;
}

out-IsFolder : IsFolder (codes "/out")
unfolding IsFolder
out-IsFolder = ((λ empty. cc), refl)

partition_graph-load_partition_example :
    (files' : Files ℕ Str) × (partition_graph lists partitioner formats saving
        (codes "coo" ∷ [])
        args
        graph
        no_files
      ≡ ok (files', none))
    × ((part_id : ℕ) (part : Piece Str)
        → part_id < 2
        → get_elem? parts part_id ≡ some part
        → load_partition formats files'
              (config_path (codes "/out") (job_of args split.graph))
              part_id
              true
            ≡ ok (
                loaded_part lists saving split.graph sim_g
                  (job_of args split.graph)
                  node_map
                  edge_map
                  part_id
                  part)
          × ((node : NodeSet ℕ)
              → 1 < 2
              → split.graph.nodes ≡ node ∷ []
              → length part.nodes.orig_id ≡ length (inner_mask part.nodes.ids node.kind.id)
              → HasRows
                  (codes "_ID" ∷ codes "inner_node" ∷ [])
                  node.kind.name
                  node.kind.id
                  node.columns
                  part.nodes
                  (loaded_part lists saving split.graph sim_g
                    (job_of args split.graph)
                    node_map
                    edge_map
                    part_id
                    part).node_feats)
          × ((node : NodeSet ℕ) (edge : EdgeSet ℕ)
              → 1 < 2
              → split.graph.nodes ≡ node ∷ []
              → split.graph.edges ≡ edge ∷ []
              → length part.edges.orig_id ≡ length (inner_mask part.edges.ids edge.kind.id)
              → HasRows
                  (codes "_ID" ∷ codes "inner_edge" ∷ [])
                  (saving.etype_tuple_to_str edge.kind.name)
                  edge.kind.id
                  edge.columns
                  part.edges
                  (loaded_part lists saving split.graph sim_g
                    (job_of args split.graph)
                    node_map
                    edge_map
                    part_id
                    part).edge_feats))
unfolding has_format str_eq
partition_graph-load_partition_example =
    partition_graph-load_partition lists partitioner formats saving (codes "coo" ∷ []) args graph
      no_files split parts node_map edge_map lists-IsBackend refl refl split_run split-IsStored refl
      out-IsFolder (refl, tt)

abbrev first_piece : Piece Str
first_piece =
    piece (0 ∷ 1 ∷ 2 ∷ []) (1 ∷ 1 ∷ 0 ∷ []) (0 ∷ 0 ∷ 0 ∷ []) (1 ∷ 0 ∷ []) (1 ∷ 1 ∷ []) (0 ∷ 0 ∷ [])

-- The first part has the rows of its two inner nodes, and not the row of its third node.
first_part_rows :
    (tensors : List (Str × List ℕ)) × (some
        (node_feats lists saving 2 true split.graph sim_g first_piece)
      ≡ some tensors)
    × (find str_eq (codes "_N/x") tensors ≡ some (5 ∷ 6 ∷ []))
unfolding HasRows inner_mask inner_orig is_reserved str_eq
first_part_rows =
    node_feats-HasRows lists lists-IsBackend saving 2 (omega arith) split.graph sim_g first_piece
      (record {
        kind = node_kind;
        columns = (codes "x", 5 ∷ 6 ∷ 7 ∷ []) ∷ (codes "trainer_id", 0 ∷ 1 ∷ 3 ∷ []) ∷ [];
      })
      refl refl [] ((codes "trainer_id", 0 ∷ 1 ∷ 3 ∷ []) ∷ []) (codes "x") (5 ∷ 6 ∷ 7 ∷ [])
      (5 ∷ 6 ∷ []) refl refl (refl, tt) refl

abbrev typed_graph : Graph ℕ
typed_graph = record {
  nodes =
      record { kind = node_kind; columns = [] }
      ∷ record { kind = record { name = codes "v"; id = 1; number = 2 }; columns = [] }
      ∷ [];
  edges = record { kind = edge_kind; dst = 0 ∷ 1 ∷ 2 ∷ []; columns = [] } ∷ [];
}

abbrev in_order : PartitionArgs
in_order = record args { reshuffle = false }

partition_graph-typed_example :
    (e : Error) × (partition_graph lists partitioner formats saving
        (codes "coo" ∷ [])
        in_order
        typed_graph
        no_files
      ≡ raise e)
unfolding is_homogeneous
partition_graph-typed_example =
    partition_graph-typed lists partitioner formats saving (codes "coo" ∷ []) in_order typed_graph
      no_files refl refl

abbrev typed_sim_g : SimGraph
typed_sim_g = record {
  ntype = 0 ∷ 1 ∷ 1 ∷ [];
  nid = 0 ∷ 0 ∷ 1 ∷ [];
  etype = 0 ∷ 0 ∷ 0 ∷ [];
  eid = 0 ∷ 1 ∷ 2 ∷ [];
}

-- The types of the nodes and of the edges in their new order.
abbrev new_types : List ℕ → List ℕ → List ℕ
new_types types orig = lists.gather_row types orig

get_orig_ids_lem_example :
    (nodes : List (Str × List ℕ)) × (edges : List (EdgeType × List ℕ)) × (get_orig_ids lists
        typed_graph typed_sim_g true
        (2 ∷ 0 ∷ 1 ∷ [])
        (1 ∷ 2 ∷ 0 ∷ [])
      ≡ ids_by_type nodes edges)
    × ((i j o v : ℕ) (kind : Kind Str)
        → get_elem? (node_kinds typed_graph) i ≡ some kind
        → get_elem? (2 ∷ 0 ∷ 1 ∷ []) j ≡ some o
        → get_elem? typed_sim_g.ntype o ≡ some kind.id
        → get_elem? typed_sim_g.nid o ≡ some v
        → (ids : List ℕ) × (get_elem? nodes i ≡ some (kind.name, ids))
          × (get_elem? ids
                (rank (map (λ t. t == kind.id) (new_types typed_sim_g.ntype (2 ∷ 0 ∷ 1 ∷ []))) j)
              ≡ some v))
    × ((i j o v : ℕ) (kind : Kind EdgeType)
        → get_elem? (edge_kinds typed_graph) i ≡ some kind
        → get_elem? (1 ∷ 2 ∷ 0 ∷ []) j ≡ some o
        → get_elem? typed_sim_g.etype o ≡ some kind.id
        → get_elem? typed_sim_g.eid o ≡ some v
        → (ids : List ℕ) × (get_elem? edges i ≡ some (kind.name, ids))
          × (get_elem? ids
                (rank (map (λ t. t == kind.id) (new_types typed_sim_g.etype (1 ∷ 2 ∷ 0 ∷ []))) j)
              ≡ some v))
unfolding is_homogeneous
get_orig_ids_lem_example =
    get_orig_ids_lem lists typed_graph typed_sim_g (2 ∷ 0 ∷ 1 ∷ []) (1 ∷ 2 ∷ 0 ∷ []) lists-IsBackend
      refl refl refl (omega arith, (omega arith, (omega arith, tt)))
      (omega arith, (omega arith, (omega arith, tt)))
