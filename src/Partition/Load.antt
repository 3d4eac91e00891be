-- ===== src/Partition/Load.antt =====
-- srcChange/partition/aly_partition.py: `load_partition_feats`.
pub mod Feats
use bear_rpc.Base.{
  ℕ, ◌==◌, Bool, true, false, Option, none, some, List, [], ◌∷◌, ◌++◌, if◌then◌else◌, Result, ok,
  ◌>>=◌,
}
use bear_rpc.Base.Dict.{find, assign}
use bear_rpc.Text.{Str, codes, str_eq, contains}
use bear_rpc.Text.Number.{show}
use bear_rpc.Launch.Submit.{path_join}
use bear_rpc.Partition.Config.{PartFiles, PartMetadata, Formats, Disk, load_json}
use bear_rpc.Partition.Book.{required}

-- A text up to its last slash.
unfoldable pub to_slash : Str → Str
to_slash [] = []
to_slash (c ∷ s) = elim (to_slash s) [
  | [] ↦ if c == b'/' then c ∷ [] else []
  | d ∷ rest ↦ c ∷ d ∷ rest
]

-- s.rstrip('/')
unfoldable pub rstrip_slashes : Str → Str
rstrip_slashes [] = []
rstrip_slashes (c ∷ s) = elim (rstrip_slashes s) [
  | [] ↦ if c == b'/' then [] else c ∷ []
  | d ∷ rest ↦ c ∷ d ∷ rest
]

-- os.path.dirname(path), on a POSIX system
unfoldable pub dirname : Str → Str
unfolding to_slash rstrip_slashes
dirname path = elim (rstrip_slashes (to_slash path)) [ [] ↦ to_slash path | d ∷ rest ↦ d ∷ rest ]

-- relative_to_config, for the path of the config
unfoldable pub relative_to : Str → Str → Str
unfolding dirname path_join
relative_to part_config path = path_join (dirname part_config) path

module _ {T : Type 0} where
  -- The loop that adds a type to the names of the old format.
  unfoldable pub add_types : Str → List (Str × T) → List (Str × T) → List (Str × T)
  add_types default [] new_feats = new_feats
  add_types default ((name, feat) ∷ feats) new_feats = add_types default feats (
      assign str_eq (if contains (codes "/") name then name else default ++ (codes "/" ++ name))
        feat new_feats)

  module _ (f : Formats) (load_tensors : Str → Result (List (Str × T))) where
    -- The tensors of a file, with their types, if they are asked for.
    unfoldable pub load_feats : Bool → Str → Str → Result (Option (List (Str × T)))
    unfolding add_types
    load_feats false default path = ok none
    load_feats true default path = do
      feats ← load_tensors path
      ok (some (add_types default feats []))

    unfoldable pub load_partition_feats :
        Disk → Str → ℕ → Bool → Bool → Result (Option (List (Str × T)) × Option (List (Str × T)))
    unfolding load_json
    load_partition_feats disk part_config part_id load_nodes load_edges = do
      part_metadata ← load_json f disk part_config
      part_files ←
          required (find str_eq (codes "part-" ++ show part_id) part_metadata.parts)
            "part-{} does not exist"
      node_file ← required part_files.node_feats "the partition does not contain node features."
      edge_file ← required part_files.edge_feats "the partition does not contain edge feature."
      node_feats ← load_feats load_nodes f.default_ntype (relative_to part_config node_file)
      edge_feats ←
          load_feats load_edges (f.etype_tuple_to_str f.default_etype)
            (relative_to part_config edge_file)
      ok (node_feats, edge_feats)
