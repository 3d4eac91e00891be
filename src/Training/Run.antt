-- ===== src/Training/Run.antt =====
-- python/dist_graphSage.py: the functions `run`, `evaluate` and `compute_acc`.
pub mod Batch
pub mod Multiples
pub mod Turns
pub mod FanOut
pub mod Whole
pub mod Epochs
use bear_rpc.Base.{
  ℕ, zero, suc, ◌+◌, ◌%◌, Bool, true, false, not, ◌&&◌, Option, none, some, List, [], ◌∷◌, ◌++◌,
  length, get_elem?, ◌==◌, if◌then◌else◌, ℤ, pos, negsuc, Result, ok, raise, index_error, key_error,
  value_error, zero_division, attribute_error, ◌>>=◌,
}
use bear_rpc.Text.{Str}
use bear_rpc.Text.Number.{int}
use bear_rpc.Training.{Dgl, Block, NeighborSampler, last_block, sample_blocks, SageConv, layers}

-- What is printed, without the times, the losses and the memory, and the steps that are
-- taken, with the seeds of each.
pub data Event : Type 0 where
  stepped : (epoch step : ℕ) → (seeds : List ℕ) → Event
  logged : (epoch step : ℕ) → (correct total : ℕ) → Event
  finished : (epoch num_seeds num_inputs : ℕ) → Event
  evaluated : (epoch : ℕ) → (val_acc test_acc : ℕ × ℕ) → Event

-- What `run` uses of PyTorch and of DGL. `batches` are the batches of the loader in an epoch, for its
-- dataset and batch size. `predict` is the model on the blocks, and `learn` what the loss, its backward
-- pass and the optimizer make of the weights; the model is in training mode if the Boolean is set.
pub record Torch (dgl : Dgl) : Type 1 where
  pub Weights : Type 0
  pub Row : Type 0
  pub batches : List ℕ → ℕ → ℕ → List (List ℕ)
  pub init : List SageConv → Weights
  pub predict : Bool → Weights → List (Block dgl) → List dgl.Feature → Result (List Row)
  pub learn : Bool → Weights → List Row → List dgl.Label → Result Weights
  pub inference : Bool → Weights → Result (List Row)
  pub is_argmax : Row → dgl.Label → Bool

-- args, where `run` reads it
pub record RunArgs : Type 0 where
  pub fan_out : Str
  pub batch_size : ℕ
  pub num_hidden : ℕ
  pub num_layers : ℕ
  pub num_epochs : ℤ
  pub log_every : ℤ
  pub eval_every : ℤ
  pub standalone : Bool

-- data
pub record Data (dgl : Dgl) : Type 0 where
  pub train_nid : List ℕ
  pub val_nid : List ℕ
  pub test_nid : List ℕ
  pub in_feats : ℕ
  pub n_classes : ℕ
  pub g : dgl.Graph
  pub labels : List dgl.Label

-- s.split(','), behind the characters of the first piece
unfoldable pub split_commas : Str → Str → List Str
split_commas piece [] = piece ∷ []
split_commas piece (c ∷ s) =
    let rest = split_commas [] s in
    if c == b',' then piece ∷ rest else split_commas (piece ++ c ∷ []) s

-- [int(fanout) for fanout in …]
unfoldable pub ints : List Str → Result (List ℤ)
ints [] = ok []
ints (piece ∷ pieces) = elim (int piece) [
  | none ↦ raise value_error
  | some fanout ↦ do fanouts ← ints pieces; ok (fanout ∷ fanouts)
]

-- n % every == 0
unfoldable pub divides : ℤ → ℕ → Result Bool
divides (pos zero) n = raise zero_division
divides (pos (suc every)) n = ok (n % suc every == 0)
divides (negsuc every) n = ok (n % suc every == 0)

-- The length of range(n).
unfoldable pub range_length : ℤ → ℕ
range_length (pos n) = n
range_length (negsuc n) = 0

-- model.join and model.module, which a model that is not wrapped in DistributedDataParallel lacks.
unfoldable pub wrapped : Bool → Result (Unit {0})
wrapped standalone = if standalone then raise attribute_error else ok tt

-- What a block stores at a key.
unfoldable pub at_key : {A : Type 0} → Option A → Result A
at_key none = raise key_error
at_key (some a) = ok a

-- xs[ids]
unfoldable pub rows_at : {A : Type 0} → List A → List ℕ → Result (List A)
rows_at xs [] = ok []
rows_at xs (i ∷ ids) = elim (get_elem? xs i) [
  | none ↦ raise index_error
  | some x ↦ do rows ← rows_at xs ids; ok (x ∷ rows)
]

-- if step % args.log_every == 0: the accuracy is printed
unfoldable pub log_step : ℤ → ℕ → ℕ → ℕ × ℕ → List Event → Result (List Event)
unfolding divides
log_step log_every epoch step (right, total) events = do
  now ← divides log_every step
  ok (if now then events ++ logged epoch step right total ∷ [] else events)

-- blocks[0]
unfoldable pub first_block : (dgl : Dgl) → List (Block dgl) → Result (Block dgl)
first_block dgl [] = raise index_error
first_block dgl (b ∷ blocks) = ok b

module _ (dgl : Dgl) (torch : Torch dgl) where
  -- The state of the loops: the random state, the model with its mode, the two counters of the epoch
  -- and the events so far.
  pub record State : Type 0 where
    pub world : dgl.World
    pub weights : torch.Weights
    pub training : Bool
    pub num_seeds : ℕ
    pub num_inputs : ℕ
    pub events : List Event

  -- (th.argmax(pred, dim=1) == labels).float().sum()
  unfoldable pub correct : List torch.Row → List dgl.Label → ℕ
  correct [] labels = 0
  correct (p ∷ pred) [] = 0
  correct (p ∷ pred) (l ∷ labels) = (if torch.is_argmax p l then 1 else 0) + correct pred labels

  -- The accuracy, as a fraction.
  unfoldable pub compute_acc : List torch.Row → List dgl.Label → ℕ × ℕ
  unfolding correct
  compute_acc pred labels = (correct pred labels, length pred)

  -- The model is left in training mode.
  unfoldable pub evaluate :
      torch.Weights → List dgl.Label → List ℕ → List ℕ → Result ((ℕ × ℕ) × (ℕ × ℕ))
  unfolding compute_acc rows_at
  evaluate weights labels val_nid test_nid = do
    pred ← torch.inference false weights
    val_pred ← rows_at pred val_nid
    val_labels ← rows_at labels val_nid
    test_pred ← rows_at pred test_nid
    test_labels ← rows_at labels test_nid
    ok (compute_acc val_pred val_labels, compute_acc test_pred test_labels)

  -- The body of the loop over the loader, for the seeds of a batch.
  unfoldable pub train_step : NeighborSampler dgl → ℤ → ℕ → ℕ → List ℕ → State → Result State
  unfolding sample_blocks first_block at_key last_block compute_acc log_step
  train_step sampler log_every epoch step seeds s = do
    let (sampled, world) = sample_blocks dgl sampler seeds s.world
    blocks ← sampled
    first ← first_block dgl blocks
    batch_inputs ← at_key first.features
    last ← last_block dgl blocks
    batch_labels ← at_key last.labels
    batch_pred ← torch.predict s.training s.weights blocks batch_inputs
    weights ← torch.learn s.training s.weights batch_pred batch_labels
    events ←
        log_step log_every epoch step (compute_acc batch_pred batch_labels)
          (s.events ++ stepped epoch step (dgl.dst_nid last.bipartite) ∷ [])
    ok (record {
      world = world;
      weights = weights;
      training = s.training;
      num_seeds = s.num_seeds + length (dgl.dst_nid last.bipartite);
      num_inputs = s.num_inputs + length (dgl.src_nid first.bipartite);
      events = events;
    })

  -- for step, blocks in enumerate(dataloader), from a step on
  unfoldable pub train_steps :
      NeighborSampler dgl → ℤ → ℕ → ℕ → List (List ℕ) → State → Result State
  train_steps sampler log_every epoch step [] s = ok s
  train_steps sampler log_every epoch step (seeds ∷ batches) s = do
    s' ← train_step sampler log_every epoch step seeds s
    train_steps sampler log_every epoch (step + 1) batches s'

  unfoldable pub evaluate_now : RunArgs → Data dgl → ℕ → State → Result State
  evaluate_now args d epoch s = do
    _ ← wrapped args.standalone
    (val_acc, test_acc) ← evaluate s.weights d.labels d.val_nid d.test_nid
    ok (record s { training = true; events = s.events ++ evaluated epoch val_acc test_acc ∷ [] })

  -- What is done behind `epoch += 1`, which gives the number `epoch`.
  unfoldable pub evaluate_epoch : RunArgs → Data dgl → ℕ → State → Result State
  evaluate_epoch args d epoch s = do
    due ← divides args.eval_every epoch
    if due && not (epoch == 0) then evaluate_now args d epoch s else ok s

  -- The body of the loop over the epochs.
  unfoldable pub train_epoch : RunArgs → Data dgl → NeighborSampler dgl → ℕ → State → Result State
  train_epoch args d sampler epoch s = do
    _ ← wrapped args.standalone
    s' ←
        train_steps sampler args.log_every epoch 0 (torch.batches d.train_nid args.batch_size epoch)
          (record s { num_seeds = 0; num_inputs = 0 })
    evaluate_epoch args d (epoch + 1)
        (record s' { events = s'.events ++ finished epoch s'.num_seeds s'.num_inputs ∷ [] })

  -- for epoch in range(args.num_epochs): what the body adds to `epoch` is lost at the next turn
  unfoldable pub train_epochs :
      RunArgs → Data dgl → NeighborSampler dgl → ℕ → ℕ → State → Result State
  train_epochs args d sampler epoch zero s = ok s
  train_epochs args d sampler epoch (suc count) s = do
    s' ← train_epoch args d sampler epoch s
    train_epochs args d sampler (epoch + 1) count s'

  unfoldable pub run : RunArgs → Data dgl → dgl.World → Result State
  run args d world = do
    fanouts ← ints (split_commas [] args.fan_out)
    train_epochs args d (record { g = d.g; fanouts = fanouts; load_feat = true }) 0
        (range_length args.num_epochs)
        (record {
          world = world;
          weights = torch.init (layers d.in_feats args.num_hidden d.n_classes args.num_layers);
          training = true;
          num_seeds = 0;
          num_inputs = 0;
          events = [];
        })
