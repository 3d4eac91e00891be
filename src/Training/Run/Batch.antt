-- ===== src/Training/Run/Batch.antt =====
-- python/dist_graphSage.py, `run`: one turn of the loop over the loader.
use bear_rpc.Base.{
  ℕ, suc, ◌+◌, ◌%◌, ◌==◌, ◌≡◌, refl, sym, ap, ◌∙◌, Bool, true, false, some, List, [], ◌∷◌, ◌++◌,
  arith, length, if◌then◌else◌, ℤ, pos, append-nil, ok-injective, ok,
}
use bear_rpc.Training.{Dgl, Block, NeighborSampler, last_block, sample_blocks}
use bear_rpc.Training.Blocks.{
  IsToBlock, input_features, output_labels, Linked, last_block_lem, sample_blocks_lem,
}
use bear_rpc.Training.Run.{
  Event, stepped, logged, finished, evaluated, Torch, first_block, at_key, State, train_step,
  compute_acc,
}

-- The epochs that are finished, with their numbers of seeds.
unfoldable pub finished_epochs : List Event → List (ℕ × ℕ)
finished_epochs [] = []
finished_epochs (finished epoch num_seeds num_inputs ∷ events) =
    (epoch, num_seeds) ∷ finished_epochs events
finished_epochs (stepped _ _ _ ∷ events) = finished_epochs events
finished_epochs (logged _ _ _ _ ∷ events) = finished_epochs events
finished_epochs (evaluated _ _ _ ∷ events) = finished_epochs events

-- The epochs, as they are counted from 1, behind which the model is evaluated.
unfoldable pub evaluated_epochs : List Event → List ℕ
evaluated_epochs [] = []
evaluated_epochs (evaluated epoch _ _ ∷ events) = epoch ∷ evaluated_epochs events
evaluated_epochs (stepped _ _ _ ∷ events) = evaluated_epochs events
evaluated_epochs (logged _ _ _ _ ∷ events) = evaluated_epochs events
evaluated_epochs (finished _ _ _ ∷ events) = evaluated_epochs events

pub finished_epochs-append :
    (xs ys : List Event) → finished_epochs (xs ++ ys) ≡ finished_epochs xs ++ finished_epochs ys
unfolding finished_epochs
finished_epochs-append [] ys = refl
finished_epochs-append (finished epoch n m ∷ xs) ys =
    ap (λ l. (epoch, n) ∷ l) (finished_epochs-append xs ys)
finished_epochs-append (stepped _ _ _ ∷ xs) ys = finished_epochs-append xs ys
finished_epochs-append (logged _ _ _ _ ∷ xs) ys = finished_epochs-append xs ys
finished_epochs-append (evaluated _ _ _ ∷ xs) ys = finished_epochs-append xs ys

pub evaluated_epochs-append :
    (xs ys : List Event) → evaluated_epochs (xs ++ ys) ≡ evaluated_epochs xs ++ evaluated_epochs ys
unfolding evaluated_epochs
evaluated_epochs-append [] ys = refl
evaluated_epochs-append (evaluated epoch v t ∷ xs) ys =
    ap (λ l. epoch ∷ l) (evaluated_epochs-append xs ys)
evaluated_epochs-append (stepped _ _ _ ∷ xs) ys = evaluated_epochs-append xs ys
evaluated_epochs-append (logged _ _ _ _ ∷ xs) ys = evaluated_epochs-append xs ys
evaluated_epochs-append (finished _ _ _ ∷ xs) ys = evaluated_epochs-append xs ys

-- The batches that are taken, each with its epoch.
unfoldable pub batches_taken : List Event → List (ℕ × List ℕ)
batches_taken [] = []
batches_taken (stepped epoch _ seeds ∷ events) = (epoch, seeds) ∷ batches_taken events
batches_taken (finished _ _ _ ∷ events) = batches_taken events
batches_taken (logged _ _ _ _ ∷ events) = batches_taken events
batches_taken (evaluated _ _ _ ∷ events) = batches_taken events

pub batches_taken-append :
    (xs ys : List Event) → batches_taken (xs ++ ys) ≡ batches_taken xs ++ batches_taken ys
unfolding batches_taken
batches_taken-append [] ys = refl
batches_taken-append (stepped epoch _ seeds ∷ xs) ys =
    ap (λ l. (epoch, seeds) ∷ l) (batches_taken-append xs ys)
batches_taken-append (finished _ _ _ ∷ xs) ys = batches_taken-append xs ys
batches_taken-append (logged _ _ _ _ ∷ xs) ys = batches_taken-append xs ys
batches_taken-append (evaluated _ _ _ ∷ xs) ys = batches_taken-append xs ys

batches_taken-logged :
    (events : List Event) (epoch step : ℕ) (acc : ℕ × ℕ) (now : Bool)
    → batches_taken (if now then events ++ logged epoch step acc.0 acc.1 ∷ [] else events)
      ≡ batches_taken events
unfolding batches_taken
batches_taken-logged events epoch step acc true =
    batches_taken-append events (logged epoch step acc.0 acc.1 ∷ [])
    ∙ append-nil (batches_taken events)
batches_taken-logged events epoch step acc false = refl

-- More events, of which none ends or evaluates an epoch.
unfoldable pub Within : List Event → List Event → Type 0
Within events events' =
    (finished_epochs events' ≡ finished_epochs events)
    × (evaluated_epochs events' ≡ evaluated_epochs events)

Within-stepped :
    (events : List Event) (epoch step : ℕ) (seeds : List ℕ)
    → Within events (events ++ stepped epoch step seeds ∷ [])
unfolding Within finished_epochs evaluated_epochs
Within-stepped events epoch step seeds = (
  finished_epochs-append events (stepped epoch step seeds ∷ [])
      ∙ append-nil (finished_epochs events),
  evaluated_epochs-append events (stepped epoch step seeds ∷ [])
      ∙ append-nil (evaluated_epochs events),
)

Within-logged :
    (events : List Event) (epoch step : ℕ) (acc : ℕ × ℕ) (now : Bool)
    → Within events (if now then events ++ logged epoch step acc.0 acc.1 ∷ [] else events)
unfolding Within finished_epochs evaluated_epochs
Within-logged events epoch step acc true = (
  finished_epochs-append events (logged epoch step acc.0 acc.1 ∷ [])
      ∙ append-nil (finished_epochs events),
  evaluated_epochs-append events (logged epoch step acc.0 acc.1 ∷ [])
      ∙ append-nil (evaluated_epochs events),
)
Within-logged events epoch step acc false = (refl, refl)

pub Within-transitive : (a b c : List Event) → Within a b → Within b c → Within a c
unfolding Within
Within-transitive a b c (f, e) (f', e') = (f' ∙ f, e' ∙ e)

module _ (dgl : Dgl) where
  output_labels-last_block :
      (b c : Block dgl) (blocks : List (Block dgl))
      → last_block dgl (b ∷ blocks) ≡ ok c
      → output_labels dgl (b ∷ blocks) ≡ c.labels
  unfolding last_block output_labels
  output_labels-last_block b c [] h = ap (λ (r : Block dgl). r.labels) (ok-injective b c h)
  output_labels-last_block b c (d ∷ blocks) h = output_labels-last_block d c blocks h

  taken_apart :
      (n : ℕ) (seeds : List ℕ) (blocks : List (Block dgl)) (features : List dgl.Feature)
      (labels : List dgl.Label)
      → length blocks ≡ suc n
      → Linked dgl blocks seeds
      → input_features dgl blocks ≡ some features
      → output_labels dgl blocks ≡ some labels
      → (b : Block dgl) × (first_block dgl blocks ≡ ok b)
        × (b.features ≡ some features)
        × (c : Block dgl) × (last_block dgl blocks ≡ ok c)
        × (c.labels ≡ some labels)
        × (dgl.dst_nid c.bipartite ≡ seeds)
  unfolding first_block input_features
  taken_apart n seeds [] features labels counted linked featured labelled = absurd (omega arith)
  taken_apart n seeds (b ∷ blocks) features labels counted linked featured labelled =
      let (c, is_last, ends) = last_block_lem dgl b blocks seeds linked in
      (
        b,
        refl,
        featured,
        c,
        is_last,
        sym (output_labels-last_block b c blocks is_last) ∙ labelled,
        ends,
      )

  -- The blocks of a batch, as the loop over the loader takes them apart.
  pub sampled_batch :
      (g : dgl.Graph) (fanout : ℤ) (fanouts : List ℤ) (seeds : List ℕ) (w : dgl.World)
      → IsToBlock dgl
      → let sampler : NeighborSampler dgl = record {
        g = g;
        fanouts = fanout ∷ fanouts;
        load_feat = true;
      } in
        (blocks : List (Block dgl)) × ((sample_blocks dgl sampler seeds w).0 ≡ ok blocks)
        × (features : List dgl.Feature) × (labels : List dgl.Label) × (b : Block dgl) × (first_block
              dgl blocks
            ≡ ok b)
        × (b.features ≡ some features)
        × (c : Block dgl) × (last_block dgl blocks ≡ ok c)
        × (c.labels ≡ some labels)
        × (dgl.dst_nid c.bipartite ≡ seeds)
  sampled_batch g fanout fanouts seeds w to_block =
      let sampler : NeighborSampler dgl = record {
        g = g;
        fanouts = fanout ∷ fanouts;
        load_feat = true;
      } in
      let (blocks, sampled, counted, linked, featured, labelled) =
        sample_blocks_lem dgl sampler seeds w to_block (λ e. cc) in
      let (b, is_first, has_features, c, is_last, has_labels, ends) =
        taken_apart (length fanouts) seeds blocks _ _ counted linked featured labelled in
      (blocks, sampled, _, _, b, is_first, has_features, c, is_last, has_labels, ends)

module _ (dgl : Dgl) (torch : Torch dgl) where
  -- In training mode the model and the optimizer accept what they are given.
  unfoldable pub Learns : Type 0
  Learns =
      (weights : torch.Weights) (blocks : List (Block dgl)) (features : List dgl.Feature)
      (labels : List dgl.Label)
      → (pred : List torch.Row) × (torch.predict true weights blocks features ≡ ok pred)
        × (weights' : torch.Weights) × (torch.learn true weights pred labels ≡ ok weights')

  -- Some steps of an epoch, with this many seeds, in these batches.
  unfoldable pub Steps : State dgl torch → State dgl torch → ℕ → List (ℕ × List ℕ) → Type 0
  unfolding Within
  Steps s s' n taken =
      (s'.training ≡ true)
      × (s'.num_seeds ≡ s.num_seeds + n)
      × Within s.events s'.events
      × (batches_taken s'.events ≡ batches_taken s.events ++ taken)

  pub train_step_lem :
      (g : dgl.Graph) (fanout : ℤ) (fanouts : List ℤ) (every epoch step : ℕ) (seeds : List ℕ)
      (s : State dgl torch)
      → IsToBlock dgl
      → Learns
      → s.training ≡ true
      → (s' : State dgl torch) × (train_step dgl torch
            (record { g = g; fanouts = fanout ∷ fanouts; load_feat = true })
            (pos (suc every))
            epoch
            step
            seeds
            s
          ≡ ok s')
        × Steps s s' (length seeds) ((epoch, seeds) ∷ [])
  unfolding batches_taken train_step at_key Learns Steps
  train_step_lem g fanout fanouts every epoch step seeds s to_block learns mode =
      let (blocks, sampled, features, labels, b, is_first, featured, c, is_last, labelled, ends) =
        sampled_batch dgl g fanout fanouts seeds s.world to_block in
      let (pred, predicted, weights, learnt) = learns s.weights blocks features labels in
      let acc = compute_acc dgl torch pred labels in
      let now = step % suc every == 0 in
      let taken = s.events ++ stepped epoch step (dgl.dst_nid c.bipartite) ∷ [] in
      (
        record {
          world =
              (sample_blocks dgl (record { g = g; fanouts = fanout ∷ fanouts; load_feat = true })
                seeds s.world).1;
          weights = weights;
          training = s.training;
          num_seeds = s.num_seeds + length (dgl.dst_nid c.bipartite);
          num_inputs = s.num_inputs + length (dgl.src_nid b.bipartite);
          events = if now then taken ++ logged epoch step acc.0 acc.1 ∷ [] else taken;
        },
        rw (sampled, is_first, featured, is_last, labelled, mode, predicted, learnt) refl,
        (
          mode,
          ap (λ l. s.num_seeds + length l) ends,
          Within-transitive s.events taken _
              (Within-stepped s.events epoch step (dgl.dst_nid c.bipartite))
              (Within-logged taken epoch step acc now),
          batches_taken-logged taken epoch step acc now
              ∙ batches_taken-append s.events (stepped epoch step (dgl.dst_nid c.bipartite) ∷ [])
              ∙ ap (λ l. batches_taken s.events ++ (epoch, l) ∷ []) ends,
        ),
      )
