-- ===== src/Training/Main/Whole.antt =====
-- python/dist_graphSage.py: `main` and its run.
use bear_rpc.Base.{ℕ, suc, ◌/◌, ◌≡◌, refl, false, List, [], length, ℤ, pos, ok}
use bear_rpc.Text.{Str}
use bear_rpc.Training.{Dgl}
use bear_rpc.Training.Blocks.{IsToBlock}
use bear_rpc.Training.Run.{Torch, RunArgs, State, split_commas, ints}
use bear_rpc.Training.Run.Multiples.{multiples}
use bear_rpc.Training.Run.Batch.{finished_epochs, evaluated_epochs, batches_taken, Learns}
use bear_rpc.Training.Run.Epochs.{total, full_epochs, all_batches, Evaluates}
use bear_rpc.Training.Run.Whole.{run_lem}
use bear_rpc.Training.Main.{DistGraph, device_of, packed, main}

-- A trainer that is not standalone, with a device and a log and an evaluation every so many steps and
-- epochs, ends: each epoch is finished once, in order, with as many seeds as the trainer has training
-- nodes; the steps take every batch that the loader gives for an epoch, in the order of the epochs and
-- of the batches, with exactly its nodes as seeds; and the model is evaluated behind each epoch whose number, from 1 on, `eval_every` divides,
-- which is num_epochs / eval_every times. It is supposed that a block ends at the given nodes, that
-- the batches of the loader hold as many nodes as its dataset, and that the model, the optimizer and
-- the inference accept what they are given; the first two only have to in training mode.
pub main_lem :
    (dgl : Dgl) (torch : Torch dgl) (args : RunArgs) (num_gpus : ℤ) (g : DistGraph dgl)
    (world : dgl.World) (every k n : ℕ) (fanouts : List ℤ) (device : Str)
    → IsToBlock dgl
    → Learns dgl torch
    → Evaluates dgl torch (packed dgl torch g)
    → ((epoch : ℕ)
        → let train_nid = g.node_split g.train_mask g.trainer_id in
          total (torch.batches train_nid args.batch_size epoch) ≡ length train_nid)
    → args.standalone ≡ false
    → args.log_every ≡ pos (suc every)
    → args.eval_every ≡ pos (suc k)
    → args.num_epochs ≡ pos n
    → ints (split_commas [] args.fan_out) ≡ ok fanouts
    → device_of num_gpus g.rank ≡ ok device
    → (s : State dgl torch) × (main dgl torch args num_gpus g world ≡ ok (device, s))
      × (finished_epochs s.events
          ≡ full_epochs (length (g.node_split g.train_mask g.trainer_id)) 0 n)
      × (evaluated_epochs s.events ≡ multiples (suc k) 0 n)
      × (length (evaluated_epochs s.events) ≡ n / suc k)
      × (batches_taken s.events
          ≡ all_batches
              (torch.batches (g.node_split g.train_mask g.trainer_id) args.batch_size)
              0
              n)
unfolding main packed
main_lem dgl torch args num_gpus g world every k n fanouts device to_block learns evaluates loads
      single logs evals epochs read named =
    let (s, ran, finished, evaluated, counted, took) =
      run_lem dgl torch args (packed dgl torch g) world every k n fanouts to_block learns evaluates
        loads single logs evals epochs read in
    (s, rw (named, ran) refl, finished, evaluated, counted, took)
