-- ===== src/Partition/Script/Tests.antt =====
-- A dataset of three nodes.
use bear_rpc.Base.{
  some, ℕ, ◌<◌, ◌≡◌, ◌↔◌, ◌⊎◌, refl, arith, Bool, true, false, List, [], ◌∷◌, ok, raise, os_error,
}
use bear_rpc.Base.Dict.{find, assign}
use bear_rpc.Text.{Str, codes, str_eq}
use bear_rpc.Partition.{split_masks, train_num}
use bear_rpc.Partition.Splits.{In}
use bear_rpc.Partition.Script.{
  Column, values, mask, ScriptGraph, OgbData, rename, mask_at, load_ogb, inductive_split,
  ScriptArgs, PartitionCall, loaded_graph, partition_script,
}
use bear_rpc.Partition.Script.Indices.{Listed, load_ogb-inductive_split}
use bear_rpc.Partition.Script.Partitioned.{partition_script_lem}

abbrev data_set : OgbData Str ℕ
data_set = record {
  graph = record {
    structure = codes "g";
    number_of_nodes = 3;
    ndata = (codes "feat", values (5 ∷ 6 ∷ 7 ∷ [])) ∷ [];
  };
  labels = 1 ∷ 0 ∷ 1 ∷ [];
  train = 2 ∷ [];
  valid = 0 ∷ [];
  test = 1 ∷ [];
}

abbrev features : List (Str × Column ℕ)
features = (codes "features", values (5 ∷ 6 ∷ 7 ∷ [])) ∷ []

renamed : rename (codes "feat") (codes "features") data_set.graph.ndata ≡ ok features
unfolding rename find str_eq assign
renamed = refl

load_ogb-inductive_split_example :
    (g : ScriptGraph Str ℕ) × (num_labels : ℕ) × (load_ogb (λ l. false) (λ ls. 0 ∷ 1 ∷ []) data_set
      ≡ ok (g, num_labels))
    × (train both test : List Bool) × (inductive_split (λ g' m. codes "subgraph") g
        ≡ ok (codes "subgraph", (codes "subgraph", codes "g")))
    × (mask_at (codes "test_mask") g.ndata ≡ ok test)
    × ((v : ℕ)
        → (In train v ↔ Listed (2 ∷ []) v)
          × (In both v ↔ (Listed (2 ∷ []) v ⊎ Listed (0 ∷ []) v))
          × (In test v ↔ Listed (1 ∷ []) v))
load_ogb-inductive_split_example =
    load_ogb-inductive_split (λ l. false) (λ ls. 0 ∷ 1 ∷ []) (λ g' m. codes "subgraph") data_set
      features renamed (omega arith, tt) (omega arith, tt) (omega arith, tt)

abbrev with_masks : ScriptGraph Str ℕ
with_masks = record {
  structure = codes "g";
  number_of_nodes = 3;
  ndata =
      (codes "train_mask", mask (false ∷ true ∷ false ∷ []))
      ∷ (codes "val_mask", mask (true ∷ false ∷ false ∷ []))
      ∷ (codes "test_mask", mask (false ∷ false ∷ true ∷ []))
      ∷ [];
}

abbrev args : ScriptArgs
args = record {
  dataset = codes "reddit";
  num_parts = 2;
  part_method = codes "metis";
  balance_train = true;
  undirected = false;
  balance_edges = false;
  num_trainers_per_machine = 1;
  output = codes "data";
}

partition_script_lem_example :
    let m = split_masks (record {
      train_mask = false ∷ true ∷ false ∷ [];
      val_mask = true ∷ false ∷ false ∷ [];
      test_mask = false ∷ false ∷ true ∷ [];
    }) in
    (call : PartitionCall Str ℕ) × (partition_script
        (λ g. g)
        (ok with_masks)
        (raise os_error)
        (raise os_error)
        args
      ≡ ok call)
    × (mask_at (codes "train_mask") call.graph.ndata ≡ ok m.train_mask)
    × (mask_at (codes "val_mask") call.graph.ndata ≡ ok m.val_mask)
    × (mask_at (codes "test_mask") call.graph.ndata ≡ ok m.test_mask)
    × (In m.train_mask 2 ↔ (2 < train_num))
    × (call.graph.structure ≡ codes "g")
    × (call.balance_ntypes ≡ some m.train_mask)
unfolding loaded_graph mask_at find str_eq
partition_script_lem_example =
    partition_script_lem (λ g. g) (ok with_masks) (raise os_error) (raise os_error) args with_masks
      (false ∷ true ∷ false ∷ []) (true ∷ false ∷ false ∷ []) (false ∷ false ∷ true ∷ []) 2 refl
      refl refl refl refl refl (omega arith)
