-- ===== src/Partition/Script.antt =====
-- python/GraphPartition.py: the loaders of the datasets, the inductive split, and the main block behind
-- the argument parser. A graph is what DGL has of it, with the data of its nodes by name.
pub mod Indices
pub mod Partitioned
mod Tests
use bear_rpc.Base.{
  ℕ, Bool, true, false, ◌||◌, not, Option, none, some, List, [], ◌∷◌, length, ltb, if◌then◌else◌,
  Result, ok, raise, key_error, type_error, index_error, unbound_local, ◌>>=◌,
}
use bear_rpc.Base.Arrays.{set, full}
use bear_rpc.Base.Dict.{find, assign}
use bear_rpc.Text.{Str, codes, str_eq}
use bear_rpc.Partition.{Masks, split_masks}

-- A column of the data of the nodes.
pub data Column (V : Type 0) : Type 0 where
  values : List V → Column V
  mask : List Bool → Column V

pub record ScriptGraph (G V : Type 0) : Type 0 where
  pub structure : G
  pub number_of_nodes : ℕ
  pub ndata : List (Str × Column V)

-- A dataset of OGB: data[0] with the labels, of which the first column is taken, and get_idx_split().
pub record OgbData (G V : Type 0) : Type 0 where
  pub graph : ScriptGraph G V
  pub labels : List V
  pub train : List ℕ
  pub valid : List ℕ
  pub test : List ℕ

module _ {V : Type 0} where
  -- The dictionary without a key.
  unfoldable pub without : Str → List (Str × Column V) → List (Str × Column V)
  without key [] = []
  without key ((k, c) ∷ ndata) = if str_eq k key then ndata else (k, c) ∷ without key ndata

  -- ndata[new] = ndata.pop(old)
  unfoldable pub rename : Str → Str → List (Str × Column V) → Result (List (Str × Column V))
  unfolding without
  rename old new ndata = elim (find str_eq old ndata) [
    | none ↦ raise key_error
    | some column ↦ ok (assign str_eq new column (without old ndata))
  ]

  -- ndata[name], which is used as a mask
  unfoldable pub mask_at : Str → List (Str × Column V) → Result (List Bool)
  mask_at name ndata = elim (find str_eq name ndata) [
    | none ↦ raise key_error
    | some (mask m) ↦ ok m
    | some (values v) ↦ raise type_error
  ]

-- mask[nids] = True
unfoldable pub set_true : List Bool → List ℕ → Result (List Bool)
set_true m [] = ok m
set_true m (i ∷ nids) =
    let rest = set_true (set m i true) nids in if ltb i (length m) then rest else raise index_error

-- a | b
unfoldable pub either_mask : List Bool → List Bool → List Bool
either_mask [] bs = []
either_mask (a ∷ xs) [] = []
either_mask (a ∷ xs) (b ∷ bs) = (a || b) ∷ either_mask xs bs

-- labels[th.logical_not(th.isnan(labels))]
unfoldable pub numbers : {V : Type 0} → (V → Bool) → List V → List V
numbers is_nan [] = []
numbers is_nan (l ∷ ls) = if is_nan l then numbers is_nan ls else l ∷ numbers is_nan ls

module _ {G V : Type 0} where
  -- load_reddit, behind the loading of the dataset
  unfoldable pub load_reddit : ScriptGraph G V → Result (ScriptGraph G V)
  load_reddit g = do
    features ← rename (codes "feat") (codes "features") g.ndata
    ndata ← rename (codes "label") (codes "labels") features
    ok (record { structure = g.structure; number_of_nodes = g.number_of_nodes; ndata = ndata })

  -- load_ogb, behind the loading of the dataset; `is_nan` and `unique` are Torch's. The number of
  -- features, which is read and not used, is left out.
  unfoldable pub load_ogb :
      (V → Bool) → (List V → List V) → OgbData G V → Result (ScriptGraph G V × ℕ)
  load_ogb is_nan unique data' = do
    let g = data'.graph
    features ← rename (codes "feat") (codes "features") g.ndata
    let labelled = assign str_eq (codes "labels") (values data'.labels) features
    train_mask ← set_true (full g.number_of_nodes false) data'.train
    val_mask ← set_true (full g.number_of_nodes false) data'.valid
    test_mask ← set_true (full g.number_of_nodes false) data'.test
    let ndata = assign str_eq (codes "test_mask") (mask test_mask) (
        assign str_eq (codes "val_mask") (mask val_mask)
          (assign str_eq (codes "train_mask") (mask train_mask) labelled))
    ok (
      record { structure = g.structure; number_of_nodes = g.number_of_nodes; ndata = ndata },
      length (unique (numbers is_nan data'.labels)),
    )

  -- `subgraph` is DGL's.
  unfoldable pub inductive_split :
      (ScriptGraph G V → List Bool → G) → ScriptGraph G V → Result (G × (G × G))
  inductive_split subgraph g = do
    train_mask ← mask_at (codes "train_mask") g.ndata
    val_mask ← mask_at (codes "val_mask") g.ndata
    ok (subgraph g train_mask, (subgraph g (either_mask train_mask val_mask), g.structure))

-- The options of the script.
pub record ScriptArgs : Type 0 where
  pub dataset : Str
  pub num_parts : ℕ
  pub part_method : Str
  pub balance_train : Bool
  pub undirected : Bool
  pub balance_edges : Bool
  pub num_trainers_per_machine : ℕ
  pub output : Str

-- The call of dgl.distributed.partition_graph.
pub record PartitionCall (G V : Type 0) : Type 0 where
  pub graph : ScriptGraph G V
  pub graph_name : Str
  pub num_parts : ℕ
  pub out_path : Str
  pub part_method : Str
  pub balance_ntypes : Option (List Bool)
  pub balance_edges : Bool
  pub num_trainers_per_machine : ℕ

-- The graph of the dataset that is asked for; without one of the three there is no g.
unfoldable pub loaded_graph :
    {G V : Type 0}
    → Result (ScriptGraph G V)
    → Result (ScriptGraph G V × ℕ)
    → Result (ScriptGraph G V × ℕ)
    → Str
    → Result (ScriptGraph G V)
loaded_graph reddit products papers dataset =
    if str_eq dataset (codes "reddit")
    then reddit
    else if str_eq dataset (codes "ogb-product")
    then products >>= (λ (g, _). ok g)
    else if str_eq dataset (codes "ogb-paper100M")
    then papers >>= (λ (g, _). ok g)
    else raise unbound_local

module _ {G V : Type 0} (to_bidirected : G → G) where
  -- The three masks, as they are set.
  unfoldable pub set_masks : ScriptGraph G V → Result (ScriptGraph G V)
  set_masks g = do
    train_mask ← mask_at (codes "train_mask") g.ndata
    val_mask ← mask_at (codes "val_mask") g.ndata
    test_mask ← mask_at (codes "test_mask") g.ndata
    let m =
        split_masks (record { train_mask = train_mask; val_mask = val_mask; test_mask = test_mask })
    ok (record {
      structure = g.structure;
      number_of_nodes = g.number_of_nodes;
      ndata = assign str_eq (codes "test_mask") (mask m.test_mask) (
          assign str_eq (codes "val_mask") (mask m.val_mask)
            (assign str_eq (codes "train_mask") (mask m.train_mask) g.ndata));
    })

  -- The main block, for what the loaders return.
  unfoldable pub partition_script :
      Result (ScriptGraph G V)
      → Result (ScriptGraph G V × ℕ)
      → Result (ScriptGraph G V × ℕ)
      → ScriptArgs
      → Result (PartitionCall G V)
  partition_script reddit products papers args = do
    g ← loaded_graph reddit products papers args.dataset
    masked ← set_masks g
    train_mask ← mask_at (codes "train_mask") masked.ndata
    ok (record {
      graph = record {
        structure = if args.undirected then to_bidirected masked.structure else masked.structure;
        number_of_nodes = masked.number_of_nodes;
        ndata = masked.ndata;
      };
      graph_name = args.dataset;
      num_parts = args.num_parts;
      out_path = args.output;
      part_method = args.part_method;
      balance_ntypes = if args.balance_train then some train_mask else none;
      balance_edges = args.balance_edges;
      num_trainers_per_machine = args.num_trainers_per_machine;
    })
