-- ===== src/Training/Main/Tests.antt =====
-- python/dist_graphSage.py: a run of five epochs on two training nodes.
use bear_rpc.Base.{
  ℕ, ◌+◌, ◌/◌, ◌≡◌, ◌==◌, refl, Bool, true, false, none, List, [], ◌∷◌, map, length, pos, arith,
  Result, ok, raise, value_error,
}
use bear_rpc.Text.{codes}
use bear_rpc.Text.Split.{is_space, strip}
use bear_rpc.Text.Number.{int}
use bear_rpc.Training.Tests.{path}
use bear_rpc.Training.Blocks.{IsToBlock}
use bear_rpc.Training.Run.{Torch, RunArgs, State, split_commas, ints}
use bear_rpc.Training.Run.Batch.{finished_epochs, evaluated_epochs, batches_taken, Learns}
use bear_rpc.Training.Run.Epochs.{full_epochs, all_batches, Evaluates}
use bear_rpc.Training.Main.{DistGraph, device_of, packed, main}
use bear_rpc.Training.Main.Whole.{main_lem}

abbrev learn : Bool → ℕ → Result ℕ
learn true weights = ok (weights + 1)
learn false weights = raise value_error

-- One node in a batch; the weights count the steps.
abbrev counting : Torch path
counting = record {
  Weights = ℕ;
  Row = ℕ;
  batches = λ dataset size epoch. map (λ v. v ∷ []) dataset;
  init = λ layers. 0;
  predict = λ mode weights blocks features. ok features;
  learn = λ mode weights pred labels. learn mode weights;
  inference = λ mode weights. ok (200 ∷ 201 ∷ 7 ∷ []);
  is_argmax = λ row label. row == label;
}

abbrev ids_from : ℕ → List Bool → List ℕ
ids_from v [] = []
ids_from v (true ∷ mask) = v ∷ ids_from (v + 1) mask
ids_from v (false ∷ mask) = ids_from (v + 1) mask

abbrev graph : DistGraph path
graph = record {
  g = tt;
  rank = 5;
  train_mask = true ∷ true ∷ false ∷ [];
  val_mask = false ∷ true ∷ false ∷ [];
  test_mask = false ∷ false ∷ true ∷ [];
  trainer_id = none;
  labels = 200 ∷ 201 ∷ 202 ∷ [];
  features_width = 1;
  node_split = λ mask ids. ids_from 0 mask;
  is_nan = λ l. false;
  unique = λ labels. labels;
}

abbrev args_of : Bool → RunArgs
args_of standalone = record {
  fan_out = codes "10,25";
  batch_size = 1;
  num_hidden = 16;
  num_layers = 2;
  num_epochs = pos 5;
  log_every = pos 20;
  eval_every = pos 2;
  standalone = standalone;
}

fan_out_read : ints (split_commas [] (codes "10,25")) ≡ ok (pos 10 ∷ pos 25 ∷ [])
unfolding ints split_commas int is_space strip
fan_out_read = refl

main_lem_example :
    (s : State path counting) × (main path counting (args_of false) (pos 4) graph tt
      ≡ ok (codes "cuda:1", s))
    × (finished_epochs s.events ≡ full_epochs 2 0 5)
    × (evaluated_epochs s.events ≡ 2 ∷ 4 ∷ [])
    × (length (evaluated_epochs s.events) ≡ 5 / 2)
    × (batches_taken s.events ≡ all_batches (λ epoch. (0 ∷ []) ∷ (1 ∷ []) ∷ []) 0 5)
unfolding IsToBlock Learns Evaluates packed device_of
main_lem_example =
    main_lem path counting (args_of false) (pos 4) graph tt 19 1 5 (pos 10 ∷ pos 25 ∷ [])
      (codes "cuda:1") (λ frontier seeds. refl)
      (λ weights blocks features labels. (features, refl, weights + 1, refl))
      (λ weights. (
        200 ∷ 201 ∷ 7 ∷ [],
        refl,
        (omega arith, tt),
        (omega arith, tt),
        (omega arith, tt),
        (omega arith, tt),
      ))
      (λ epoch. refl) refl refl refl refl fan_out_read refl
