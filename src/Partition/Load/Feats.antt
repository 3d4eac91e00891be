-- ===== src/Partition/Load/Feats.antt =====
-- srcChange/partition/aly_partition.py: the features that `load_partition_feats` finds behind
-- `partition_graph`.
use bear_rpc.Base.{
  ℕ, zero, suc, ◌+◌, ◌<◌, ◌≤◌, ◌≡◌, ◌≢◌, refl, sym, ap, ◌∙◌, subst, true, false, some, List, [],
  ◌∷◌, ◌++◌, append-nil, append_assoc, arith, All, Bool-cases, inl, inr, ◌==◌, ==_iff, pos, Result,
  ok,
}
use bear_rpc.Base.Dict.{find, Fresh, assign-new}
use bear_rpc.Text.{Str, codes, str_eq, str_eq_iff, contains}
use bear_rpc.Text.Number.{show, show_int, int, int-show_int}
use bear_rpc.Partition.Config.{EdgeType, Formats, Disk}
use bear_rpc.Partition.Config.RoundTrip.{text_of, dumped, load_json-dumped}
use bear_rpc.Partition.Book.{required}
use bear_rpc.Partition.Backend.{Backend, IsBackend}
use bear_rpc.Partition.Maps.{Ids, id_maps}
use bear_rpc.Partition.Config.Items.{IsEtypes}
use bear_rpc.Partition.Saved.{
  type_ids, part_files, part_entries, Job, metadata_of, config_path, save_config,
}
use bear_rpc.Partition.Saved.Owners.{save_config-dumped}
use bear_rpc.Partition.Load.{relative_to, add_types, load_feats, load_partition_feats}

pub show-injective : (a b : ℕ) → show a ≡ show b → a ≡ b
unfolding show_int
show-injective a b h =
    let same : some (pos a) ≡ some (pos b) =
      sym (int-show_int (pos a)) ∙ ap int h ∙ int-show_int (pos b) in
    cc

skip_five : Str → Str
skip_five (a ∷ b ∷ c ∷ d ∷ e ∷ s) = s
skip_five other = other

key_differs : (i j : ℕ) → i ≢ j → str_eq (codes "part-" ++ show i) (codes "part-" ++ show j) ≡ false
unfolding skip_five
key_differs i j differ =
    elim (Bool-cases (str_eq (codes "part-" ++ show i) (codes "part-" ++ show j))) [
      | inl t ↦ absurd (differ (show-injective i j (ap skip_five ((str_eq_iff _ _).0 t))))
      | inr t ↦ t
    ]

-- The entry of a part is found in the config.
pub find-part_entries :
    (part_id start count : ℕ)
    → start ≤ part_id
    → part_id < start + count
    → find str_eq (codes "part-" ++ show part_id) (part_entries start count)
      ≡ some (part_files part_id)
unfolding find part_entries
find-part_entries part_id start zero lower upper = absurd (omega arith)
find-part_entries part_id start (suc count) lower upper = elim (Bool-cases (start == part_id)) [
  | inl t ↦
      let same : start ≡ part_id = (==_iff start part_id).0 t in
      subst
        (λ n.
          find str_eq (codes "part-" ++ show part_id)
            ((codes "part-" ++ show n, part_files n) ∷ part_entries (n + 1) count)
          ≡ some (part_files part_id))
        (sym same)
        (rw ((str_eq_iff (codes "part-" ++ show part_id) (codes "part-" ++ show part_id)).1 refl)
          refl)
  | inr t ↦
      rw (key_differs start part_id (ground arith))
        (find-part_entries part_id (start + 1) count (ground arith) (omega arith))
]

module _ {T : Type 0} where
  -- Names with a type are kept.
  add_types_lem :
      (default : Str) (feats new_feats : List (Str × T))
      → All (λ (name, _). contains (codes "/") name ≡ true) feats
      → Fresh str_eq feats new_feats
      → add_types default feats new_feats ≡ new_feats ++ feats
  unfolding add_types Fresh
  add_types_lem default [] new_feats typed fresh = sym (append-nil new_feats)
  add_types_lem default ((name, feat) ∷ feats) new_feats (t, typed) (new, fresh) = rw t (
      ap (λ d. add_types default feats d) (assign-new str_eq name feat new_feats new)
      ∙ add_types_lem default feats (new_feats ++ (name, feat) ∷ []) typed fresh
      ∙ append_assoc new_feats ((name, feat) ∷ []) feats)

  -- Each name has a slash and is there once.
  unfoldable pub IsTyped : List (Str × T) → Type 0
  IsTyped feats = All (λ (name, _). contains (codes "/") name ≡ true) feats × Fresh str_eq feats []

  pub load_partition_feats-dumped :
      (f : Formats) (load_tensors : Str → Result (List (Str × T))) (disk : Disk) (path : Str)
      (job : Job) (node_map : List (Str × List (ℕ × ℕ))) (edge_map : List (EdgeType × List (ℕ × ℕ)))
      (part_id : ℕ) (node_feats edge_feats : List (Str × T))
      → f.json_load (f.json_dump (text_of f (metadata_of job node_map edge_map)))
        ≡ ok (text_of f (metadata_of job node_map edge_map))
      → part_id < job.num_parts
      → load_tensors (relative_to path ((codes "part" ++ show part_id) ++ codes "/node_feat.dgl"))
        ≡ ok node_feats
      → load_tensors (relative_to path ((codes "part" ++ show part_id) ++ codes "/edge_feat.dgl"))
        ≡ ok edge_feats
      → IsTyped node_feats
      → IsTyped edge_feats
      → load_partition_feats f load_tensors
          (dumped f disk path (metadata_of job node_map edge_map))
          path
          part_id
          true
          true
        ≡ ok (some node_feats, some edge_feats)
  unfolding load_partition_feats load_feats IsTyped required part_files text_of metadata_of
  load_partition_feats-dumped f load_tensors disk path job node_map edge_map part_id node_feats
        edge_feats json below nodes edges (typed, fresh) (typed', fresh') =
      let m = metadata_of job node_map edge_map in
      rw
        (
          load_json-dumped f disk path m json,
          find-part_entries part_id 0 job.num_parts (omega arith) (omega arith),
          nodes,
          edges,
          add_types_lem f.default_ntype node_feats [] typed fresh,
          add_types_lem (f.etype_tuple_to_str f.default_etype) edge_feats [] typed' fresh',
        )
        refl

  -- A partition config that is written can be used to load the features of each of its parts: they
  -- are read from the files part<i>/node_feat.dgl and part<i>/edge_feat.dgl beside the config, and are
  -- left as they are in the files, where each name has its type in front of a slash and is there once.
  -- It is supposed that the JSON library reads back what it has written, and that the text of each
  -- edge type is read as this edge type.
  pub save_config-load_partition_feats :
      (b : Backend) (np_sort : List ℕ → List ℕ) (f : Formats) (out_path : Str) (job : Job)
      (nodes edges : List Ids) (node_map : List (Str × List (ℕ × ℕ)))
      (edge_map : List (EdgeType × List (ℕ × ℕ))) (disk : Disk) (part_id : ℕ)
      (load_tensors : Str → Result (List (Str × T))) (node_feats edge_feats : List (Str × T))
      → IsBackend b
      → IsEtypes f (type_ids job.etypes)
      → f.json_load (f.json_dump (text_of f (metadata_of job node_map edge_map)))
        ≡ ok (text_of f (metadata_of job node_map edge_map))
      → id_maps b np_sort job.num_parts job.ntypes job.etypes nodes edges ≡ ok (node_map, edge_map)
      → part_id < job.num_parts
      → load_tensors (
          relative_to
            (config_path out_path job)
            ((codes "part" ++ show part_id) ++ codes "/node_feat.dgl"))
        ≡ ok node_feats
      → load_tensors (
          relative_to
            (config_path out_path job)
            ((codes "part" ++ show part_id) ++ codes "/edge_feat.dgl"))
        ≡ ok edge_feats
      → IsTyped node_feats
      → IsTyped edge_feats
      → (disk' : Disk) × (save_config b np_sort f out_path job nodes edges disk ≡ ok disk')
        × (load_partition_feats f load_tensors disk' (config_path out_path job) part_id true true
            ≡ ok (some node_feats, some edge_feats))
  save_config-load_partition_feats b np_sort f out_path job nodes edges node_map edge_map disk
        part_id load_tensors node_feats edge_feats lawful types json maps below node_file edge_file
        typed typed' =
      (
        dumped f disk (config_path out_path job) (metadata_of job node_map edge_map),
        save_config-dumped b lawful np_sort f out_path job nodes edges node_map edge_map disk types
            maps,
        load_partition_feats-dumped f load_tensors disk (config_path out_path job) job node_map
            edge_map part_id node_feats edge_feats json below node_file edge_file typed typed',
      )
