-- ===== src/Training/Run/Whole.antt =====
-- python/dist_graphSage.py: a whole run.
use bear_rpc.Base.{
  ℕ, suc, ◌/◌, ◌≡◌, refl, ap, ◌∙◌, true, false, List, [], ◌∷◌, length, ℤ, pos, ok, raise,
  attribute_error,
}
use bear_rpc.Training.{Dgl, NeighborSampler, layers}
use bear_rpc.Training.Blocks.{IsToBlock}
use bear_rpc.Training.Run.{
  Torch, RunArgs, Data, split_commas, ints, range_length, wrapped, State, train_epoch, train_epochs,
  run,
}
use bear_rpc.Training.Run.Multiples.{multiples, length-multiples_from_zero}
use bear_rpc.Training.Run.Batch.{finished_epochs, evaluated_epochs, batches_taken, Learns}
use bear_rpc.Training.Run.Epochs.{total, full_epochs, all_batches, Evaluates}
use bear_rpc.Training.Run.FanOut.{some_fanout}
use bear_rpc.Training.Run.Turns.{Behind, train_epochs_lem}

-- A run that is not standalone, with a log and an evaluation every so many steps and epochs, ends:
-- each epoch is finished once, in order, with as many seeds as there are training nodes; the steps take every batch of the loader in order, with its nodes as seeds; and the model is
-- evaluated behind each epoch whose number, from 1 on, `eval_every` divides, which is num_epochs /
-- eval_every times. It is supposed that a block ends at the given nodes, that the batches of the
-- loader hold as many nodes as its dataset, and that the model, the optimizer and the inference accept
-- what they are given; the optimizer only has to in training mode.
pub run_lem :
    (dgl : Dgl) (torch : Torch dgl) (args : RunArgs) (d : Data dgl) (world : dgl.World)
    (every k n : ℕ) (fanouts : List ℤ)
    → IsToBlock dgl
    → Learns dgl torch
    → Evaluates dgl torch d
    → ((epoch : ℕ) → total (torch.batches d.train_nid args.batch_size epoch) ≡ length d.train_nid)
    → args.standalone ≡ false
    → args.log_every ≡ pos (suc every)
    → args.eval_every ≡ pos (suc k)
    → args.num_epochs ≡ pos n
    → ints (split_commas [] args.fan_out) ≡ ok fanouts
    → (s : State dgl torch) × (run dgl torch args d world ≡ ok s)
      × (finished_epochs s.events ≡ full_epochs (length d.train_nid) 0 n)
      × (evaluated_epochs s.events ≡ multiples (suc k) 0 n)
      × (length (evaluated_epochs s.events) ≡ n / suc k)
      × (batches_taken s.events ≡ all_batches (torch.batches d.train_nid args.batch_size) 0 n)
unfolding run wrapped range_length Behind finished_epochs evaluated_epochs batches_taken
run_lem dgl torch args d world every k n [] to_block learns evaluates loads single logs evals epochs
      read =
    absurd (some_fanout [] args.fan_out read)
run_lem dgl torch args d world every k n (fanout ∷ fanouts) to_block learns evaluates loads single
      logs evals epochs read =
    let start : State dgl torch = record {
      world = world;
      weights = torch.init (layers d.in_feats args.num_hidden d.n_classes args.num_layers);
      training = true;
      num_seeds = 0;
      num_inputs = 0;
      events = [];
    } in
    let (s, ran, (_, fin, eva, took)) =
      train_epochs_lem dgl torch args d every k (rw single refl) logs evals evaluates fanout fanouts
        to_block learns loads 0 n start refl in
    let sampler : NeighborSampler dgl = record {
      g = d.g;
      fanouts = fanout ∷ fanouts;
      load_feat = true;
    } in
    let counted : range_length args.num_epochs ≡ n = ap range_length epochs in
    let ran' : train_epochs dgl torch args d sampler 0 (range_length args.num_epochs) start ≡ ok s =
      ap (λ count. train_epochs dgl torch args d sampler 0 count start) counted ∙ ran in
    (s, rw read ran', fin, eva, ap length eva ∙ length-multiples_from_zero k n, took)

-- A standalone run of at least one epoch fails before its first step: only the wrapped model has the
-- methods that the loop calls.
pub run-standalone :
    (dgl : Dgl) (torch : Torch dgl) (args : RunArgs) (d : Data dgl) (world : dgl.World) (n : ℕ)
    (fanouts : List ℤ)
    → args.standalone ≡ true
    → args.num_epochs ≡ pos (suc n)
    → ints (split_commas [] args.fan_out) ≡ ok fanouts
    → run dgl torch args d world ≡ raise attribute_error
unfolding run wrapped range_length train_epochs train_epoch
run-standalone dgl torch args d world n fanouts alone epochs read = rw (read, epochs, alone) refl
