-- ===== src/Partition/Script/Partitioned.antt =====
-- python/GraphPartition.py: the graph that the main block partitions.
use bear_rpc.Base.{
  ℕ, ◌<◌, ◌≡◌, ◌↔◌, refl, Bool, none, some, List, length, if◌then◌else◌, Result, ok,
}
use bear_rpc.Base.Dict.{assign}
use bear_rpc.Text.{codes, str_eq}
use bear_rpc.Partition.{Masks, split_masks, train_num}
use bear_rpc.Partition.Splits.{In, train_lem}
use bear_rpc.Partition.Script.{
  ScriptGraph, mask, mask_at, ScriptArgs, PartitionCall, set_masks, loaded_graph, partition_script,
}
use bear_rpc.Partition.Script.Indices.{three_masks}

-- A dataset that is loaded with three masks of one length is partitioned with the masks that the
-- script sets, whatever nodes the masks of the dataset hold: a node is in the training mask if it is
-- one of the first 480000. The other two masks are set in the same way, the structure is made
-- bidirected if this is asked for, and METIS balances by the training mask if this is asked for.
pub partition_script_lem :
    {G V : Type 0} (to_bidirected : G → G) (reddit : Result (ScriptGraph G V))
    (products papers : Result (ScriptGraph G V × ℕ)) (args : ScriptArgs) (g : ScriptGraph G V)
    (train val test : List Bool) (v : ℕ)
    → loaded_graph reddit products papers args.dataset ≡ ok g
    → mask_at (codes "train_mask") g.ndata ≡ ok train
    → mask_at (codes "val_mask") g.ndata ≡ ok val
    → mask_at (codes "test_mask") g.ndata ≡ ok test
    → length val ≡ length train
    → length test ≡ length train
    → v < length train
    → let m = split_masks (record { train_mask = train; val_mask = val; test_mask = test }) in
      (call : PartitionCall G V) × (partition_script to_bidirected reddit products papers args
        ≡ ok call)
      × (mask_at (codes "train_mask") call.graph.ndata ≡ ok m.train_mask)
      × (mask_at (codes "val_mask") call.graph.ndata ≡ ok m.val_mask)
      × (mask_at (codes "test_mask") call.graph.ndata ≡ ok m.test_mask)
      × (In m.train_mask v ↔ (v < train_num))
      × (call.graph.structure
          ≡ (if args.undirected then to_bidirected g.structure else g.structure))
      × (call.balance_ntypes ≡ (if args.balance_train then some m.train_mask else none))
unfolding partition_script set_masks
partition_script_lem to_bidirected reddit products papers args g train val test v loads has_train
      has_val has_test val_length test_length below =
    let masks : Masks = record { train_mask = train; val_mask = val; test_mask = test } in
    let m = split_masks masks in
    let (kept_train, kept_val, kept_test) =
      three_masks m.train_mask m.val_mask m.test_mask g.ndata in
    (
      record {
        graph = record {
          structure = if args.undirected then to_bidirected g.structure else g.structure;
          number_of_nodes = g.number_of_nodes;
          ndata = assign str_eq (codes "test_mask") (mask m.test_mask) (
              assign str_eq (codes "val_mask") (mask m.val_mask)
                (assign str_eq (codes "train_mask") (mask m.train_mask) g.ndata));
        };
        graph_name = args.dataset;
        num_parts = args.num_parts;
        out_path = args.output;
        part_method = args.part_method;
        balance_ntypes = if args.balance_train then some m.train_mask else none;
        balance_edges = args.balance_edges;
        num_trainers_per_machine = args.num_trainers_per_machine;
      },
      rw (loads, has_train, has_val, has_test, kept_train) refl,
      kept_train,
      kept_val,
      kept_test,
      train_lem masks (length train) v refl val_length test_length below,
      refl,
      refl,
    )
