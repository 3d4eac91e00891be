-- ===== src/Partition/Store.antt =====
-- srcChange/partition/aly_partition.py, `partition_graph`: the loop that saves the parts of a graph
-- (with `_save_graphs`), and `load_partition`. The files are modelled by their contents: a folder is
-- there as soon as a file is in it. The casts of `_save_graphs` keep the values: the types of a part
-- have been checked to fit, and the marks of the inner nodes and edges are 0 or 1.
pub mod Paths
pub mod Saved
pub mod Rows
use bear_rpc.Base.{
  ℕ, zero, suc, ◌+◌, Bool, true, false, ◌&&◌, ◌||◌, not, ltb, Option, none, some, List, [], ◌∷◌,
  ◌++◌, map, length, get_elem?, if◌then◌else◌, ℤ, Result, ok, raise, Error, key_error, dgl_error,
  ◌>>=◌, ◌>>◌,
}
use bear_rpc.Base.Dict.{find}
use bear_rpc.Text.{Str, codes, str_eq}
use bear_rpc.Text.Number.{show}
use bear_rpc.Launch.Submit.{path_join}
use bear_rpc.Partition.Backend.{Backend}
use bear_rpc.Partition.Maps.{Ids}
use bear_rpc.Partition.Config.{EdgeType, Formats, Disk, load_json}
use bear_rpc.Partition.Features.{Part, Frame, part_feats}
use bear_rpc.Partition.Graph.{NodeSet, EdgeSet, Graph, SimGraph, is_homogeneous}
use bear_rpc.Partition.Pieces.{Piece}
use bear_rpc.Partition.Saved.{Job}
use bear_rpc.Partition.Book.{Book, required, load_partition_book}
use bear_rpc.Partition.Load.{relative_to, load_partition_feats}

-- graph.dgl: its structure, and the IDs of its nodes and its edges, where it has them.
pub record PartGraph (S : Type 0) : Type 0 where
  pub structure : S
  pub ndata : Option Ids
  pub edata : Option Ids

-- The files by their paths: texts, arrays of NumPy, dictionaries of tensors, and graphs.
pub record Files (V S : Type 0) : Type 0 where
  pub texts : Disk
  pub arrays : Str → Option (List ℤ)
  pub tensors : Str → Option (List (Str × List V))
  pub graphs : Str → Option (PartGraph S)

unfoldable pub write : {A : Type 0} → Str → A → (Str → Option A) → Str → Option A
write path content files other = if str_eq other path then some content else files other

-- What is read of a file.
unfoldable pub stored_at : {A : Type 0} → (Str → Option A) → Str → Result A
stored_at files path = elim (files path) [ none ↦ raise dgl_error | some content ↦ ok content ]

unfoldable pub has_format : Str → List Str → Bool
has_format format [] = false
has_format format (f ∷ formats) = str_eq f format || has_format format formats

-- The loop of `_save_graphs` that sorts the graphs. It reads the edge types, but keeps no sorted graph:
-- sort_csr_by_tag and sort_csc_by_tag return new ones, which are bound to the variable of the loop.
unfoldable pub sort_by_tag : Bool → Option (List Str) → Option (List ℕ) → Result (Unit {0})
unfolding has_format
sort_by_tag false formats tags = ok tt
sort_by_tag true none tags = ok tt
sort_by_tag true (some formats) (some tags) = ok tt
sort_by_tag true (some formats) none =
    if has_format (codes "csr") formats || has_format (codes "csc") formats
    then raise key_error
    else ok tt

-- _save_graphs, where `in_formats` keeps of a structure what the formats ask for
unfoldable pub save_graphs :
    {S : Type 0}
    → (Option (List Str) → S → S)
    → Str
    → Piece S
    → Option (List Str)
    → Bool
    → (Str → Option (PartGraph S))
    → Result (Str → Option (PartGraph S))
unfolding sort_by_tag write
save_graphs in_formats filename part formats sort_etypes graphs = do
  sort_by_tag sort_etypes formats part.edges.ids.types
  ok (
      write filename
        (record {
          structure = in_formats formats part.structure;
          ndata = some part.nodes.ids;
          edata = some part.edges.ids;
        })
        graphs)

-- What the saving uses: the names NID and EID, the text of an edge type, and the formats.
pub record Saving (S : Type 0) : Type 0 where
  pub nid : Str
  pub eid : Str
  pub etype_tuple_to_str : EdgeType → Str
  pub in_formats : Option (List Str) → S → S
  pub graph_formats : Option (List Str)

unfoldable pub node_frame : {V : Type 0} → NodeSet V → Frame V
node_frame n = record { name = n.kind.name; id = n.kind.id; columns = n.columns }

unfoldable pub edge_frame : {V : Type 0} → (EdgeType → Str) → EdgeSet V → Frame V
edge_frame text e = record { name = text e.kind.name; id = e.kind.id; columns = e.columns }

-- part_dir/name
unfoldable pub part_path : Str → ℕ → Str → Str
unfolding path_join show
part_path out_path part_id name = path_join (path_join out_path (codes "part" ++ show part_id)) name

-- parts[part_id]
unfoldable pub part_at : {A : Type 0} → List A → ℕ → Result A
part_at parts part_id = elim (get_elem? parts part_id) [
  | none ↦ raise key_error
  | some part ↦ ok part
]

module _ {V S : Type 0} (b : Backend) (s : Saving S) (num_parts : ℕ) (reshuffle : Bool)
    (g : Graph V) (sim_g : SimGraph) where
  -- node_feats of a part
  unfoldable pub node_feats : Piece S → List (Str × List V)
  unfolding part_feats node_frame
  node_feats part =
      part_feats b (s.nid ∷ codes "inner_node" ∷ []) num_parts reshuffle (ltb 1 (length g.nodes))
        sim_g.nid part.nodes (map node_frame g.nodes) []

  -- edge_feats of a part
  unfoldable pub edge_feats : Piece S → List (Str × List V)
  unfolding part_feats edge_frame is_homogeneous
  edge_feats part =
      part_feats b (s.eid ∷ codes "inner_edge" ∷ []) num_parts reshuffle (not (is_homogeneous g))
        sim_g.eid part.edges (map (edge_frame s.etype_tuple_to_str) g.edges) []

  -- The body of the loop that saves the parts.
  unfoldable pub save_part : Str → ℕ → Piece S → Files V S → Result (Files V S)
  unfolding save_graphs write
  save_part out_path part_id part files = do
    let tensors =
        write (part_path out_path part_id (codes "edge_feat.dgl")) (edge_feats part) (
          write (part_path out_path part_id (codes "node_feat.dgl")) (node_feats part)
            files.tensors)
    graphs ←
        save_graphs s.in_formats (part_path out_path part_id (codes "graph.dgl")) part
          s.graph_formats (ltb 1 (length g.edges)) files.graphs
    ok (record { texts = files.texts; arrays = files.arrays; tensors = tensors; graphs = graphs })

  -- The loop from a part on, over so many parts.
  unfoldable pub save_parts : Str → List (Piece S) → ℕ → ℕ → Files V S → Result (Files V S)
  save_parts out_path parts part_id zero files = ok files
  save_parts out_path parts part_id (suc count) files = do
    part ← part_at parts part_id
    files' ← save_part out_path part_id part files
    save_parts out_path parts (part_id + 1) count files'

-- What `load_partition` returns.
pub record Loaded (V S : Type 0) : Type 0 where
  pub graph : PartGraph S
  pub node_feats : Option (List (Str × List V))
  pub edge_feats : Option (List (Str × List V))
  pub gpb : Book
  pub graph_name : Str
  pub ntypes_list : List Str
  pub etypes_list : List EdgeType

module _ {V S : Type 0} (f : Formats) where
  -- The checks with DGL_DIST_DEBUG in the environment are left out.
  unfoldable pub load_partition : Files V S → Str → ℕ → Bool → Result (Loaded V S)
  load_partition files part_config part_id load_feats = do
    part_metadata ← load_json f files.texts part_config
    part_files ←
        required (find str_eq (codes "part-" ++ show part_id) part_metadata.parts)
          "part-{} does not exist"
    part_graph ← required part_files.part_graph "the partition does not contain graph structure."
    graph ← stored_at files.graphs (relative_to part_config part_graph)
    _ ← required graph.ndata "the partition graph should contain node mapping to global node ID"
    _ ← required graph.edata "the partition graph should contain edge mapping to global edge ID"
    loaded ← load_partition_book f files.texts part_config part_id
    feats ←
        (if load_feats
          then load_partition_feats f (stored_at files.tensors) files.texts part_config part_id true
              true
          else ok (some [], some []))
    ok (record {
      graph = graph;
      node_feats = feats.0;
      edge_feats = feats.1;
      gpb = loaded.book;
      graph_name = loaded.graph_name;
      ntypes_list = map (λ (name, _). name) loaded.ntypes;
      etypes_list = map (λ (name, _). name) loaded.etypes;
    })
