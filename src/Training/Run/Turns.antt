-- ===== src/Training/Run/Turns.antt =====
-- python/dist_graphSage.py, `run`: the turns of the loop over the epochs.
use bear_rpc.Base.{
  ℕ, zero, suc, ◌+◌, ◌%◌, ◌==◌, ◌≡◌, refl, sym, ap, ap₂, subst, ◌∙◌, Bool, true, false, List, [],
  ◌∷◌, ◌++◌, arith, map, length, if◌then◌else◌, ℤ, pos, append_assoc, append-nil, ok, Bool-cases,
  inl, inr,
}
use bear_rpc.Training.{Dgl, NeighborSampler}
use bear_rpc.Training.Blocks.{IsToBlock}
use bear_rpc.Training.Run.{
  finished, evaluated, Torch, RunArgs, Data, divides, wrapped, State, train_steps, evaluate_now,
  evaluate_epoch, train_epoch, train_epochs,
}
use bear_rpc.Training.Run.Multiples.{multiples}
use bear_rpc.Training.Run.Batch.{
  finished_epochs, evaluated_epochs, finished_epochs-append, evaluated_epochs-append, batches_taken,
  batches_taken-append, Within, Learns, Steps,
}
use bear_rpc.Training.Run.Epochs.{
  total, full_epochs, all_batches, Evaluates, evaluate_lem, train_steps_lem,
}

module _ (dgl : Dgl) (torch : Torch dgl) (args : RunArgs) (d : Data dgl) (every k : ℕ)
    (wraps : wrapped args.standalone ≡ ok tt) (logs : args.log_every ≡ pos (suc every))
    (evals : args.eval_every ≡ pos (suc k)) (evaluates : Evaluates dgl torch d) where
  -- The events behind some epochs: `done` has those that were finished, `measured` those behind which
  -- the model was evaluated, and `taken` the batches.
  unfoldable pub Behind :
      State dgl torch → State dgl torch → List (ℕ × ℕ) → List ℕ → List (ℕ × List ℕ) → Type 0
  Behind s s' done measured taken =
      (s'.training ≡ true)
      × (finished_epochs s'.events ≡ finished_epochs s.events ++ done)
      × (evaluated_epochs s'.events ≡ evaluated_epochs s.events ++ measured)
      × (batches_taken s'.events ≡ batches_taken s.events ++ taken)

  evaluate_epoch_lem :
      (epoch : ℕ) (s : State dgl torch)
      → s.training ≡ true
      → (s' : State dgl torch) × (evaluate_epoch dgl torch args d (epoch + 1) s ≡ ok s')
        × Behind s s' [] (if (epoch + 1) % suc k == 0 then (epoch + 1) ∷ [] else []) []
  unfolding batches_taken evaluate_epoch evaluate_now divides Behind finished_epochs
      evaluated_epochs
  evaluate_epoch_lem epoch s mode =
      let (val_acc, test_acc, measured) = evaluate_lem dgl torch d s.weights evaluates in
      let later : (epoch + 1 == 0) ≡ false = ground arith in
      elim (Bool-cases ((epoch + 1) % suc k == 0)) [
        | inl t ↦ (
          record s {
            training = true;
            events = s.events ++ evaluated (epoch + 1) val_acc test_acc ∷ [];
          },
          rw (evals, t, later, wraps, measured) refl,
          (
            refl,
            finished_epochs-append s.events (evaluated (epoch + 1) val_acc test_acc ∷ []),
            rw t (evaluated_epochs-append s.events (evaluated (epoch + 1) val_acc test_acc ∷ [])),
            batches_taken-append s.events (evaluated (epoch + 1) val_acc test_acc ∷ []),
          ),
        )
        | inr t ↦ (
          s,
          rw (evals, t) refl,
          (
            mode,
            sym (append-nil (finished_epochs s.events)),
            rw t (sym (append-nil (evaluated_epochs s.events))),
            sym (append-nil (batches_taken s.events)),
          ),
        )
      ]

  module _ (fanout : ℤ) (fanouts : List ℤ) (to_block : IsToBlock dgl) (learns : Learns dgl torch)
      (loads : (epoch : ℕ)
        → total (torch.batches d.train_nid args.batch_size epoch) ≡ length d.train_nid) where
    train_epoch_lem :
        (epoch : ℕ) (s : State dgl torch)
        → s.training ≡ true
        → (s' : State dgl torch) × (train_epoch dgl torch args d
              (record { g = d.g; fanouts = fanout ∷ fanouts; load_feat = true })
              epoch
              s
            ≡ ok s')
          × Behind s s'
              ((epoch, length d.train_nid) ∷ [])
              (if (epoch + 1) % suc k == 0 then (epoch + 1) ∷ [] else [])
              (map (λ seeds. (epoch, seeds)) (torch.batches d.train_nid args.batch_size epoch))
    unfolding batches_taken train_epoch Behind Steps Within finished_epochs evaluated_epochs
    train_epoch_lem epoch s mode =
        let (s₁, trained, (mode₁, seeds, (fin, eva), took)) =
          train_steps_lem dgl torch d.g fanout fanouts every to_block learns epoch 0
            (torch.batches d.train_nid args.batch_size epoch)
            (record s { num_seeds = 0; num_inputs = 0 }) mode in
        let sampler : NeighborSampler dgl = record {
          g = d.g;
          fanouts = fanout ∷ fanouts;
          load_feat = true;
        } in
        let trained' : train_steps dgl torch sampler args.log_every epoch 0
              (torch.batches d.train_nid args.batch_size epoch)
              (record s { num_seeds = 0; num_inputs = 0 })
            ≡ ok s₁ =
          subst
            (λ every'.
              train_steps dgl torch sampler every' epoch 0
                (torch.batches d.train_nid args.batch_size epoch)
                (record s { num_seeds = 0; num_inputs = 0 })
              ≡ ok s₁)
            (sym logs) trained in
        let s₂ : State dgl torch = record s₁ {
          events = s₁.events ++ finished epoch s₁.num_seeds s₁.num_inputs ∷ [];
        } in
        let (s₃, measured, (mode₃, fin₃, eva₃, took₃)) = evaluate_epoch_lem epoch s₂ mode₁ in
        let all_seeds : s₁.num_seeds ≡ length d.train_nid = omega (arith, loads epoch) in
        (
          s₃,
          rw (wraps, trained') measured,
          (
            mode₃,
            fin₃
                ∙ append-nil (finished_epochs s₂.events)
                ∙ finished_epochs-append s₁.events (finished epoch s₁.num_seeds s₁.num_inputs ∷ [])
                ∙ ap₂ (λ l n. l ++ (epoch, n) ∷ []) fin all_seeds,
            eva₃
                ∙ ap (λ l. l ++ (if (epoch + 1) % suc k == 0 then (epoch + 1) ∷ [] else []))
                    (evaluated_epochs-append s₁.events
                        (finished epoch s₁.num_seeds s₁.num_inputs ∷ [])
                      ∙ append-nil (evaluated_epochs s₁.events)
                      ∙ eva),
            took₃
                ∙ append-nil (batches_taken s₂.events)
                ∙ batches_taken-append s₁.events (finished epoch s₁.num_seeds s₁.num_inputs ∷ [])
                ∙ append-nil (batches_taken s₁.events)
                ∙ took,
          ),
        )

    append_if :
        {A : Type 0} (t : Bool) (a : A) (xs rest : List A)
        → (xs ++ (if t then a ∷ [] else [])) ++ rest ≡ xs ++ (if t then a ∷ rest else rest)
    append_if true a xs rest = append_assoc xs (a ∷ []) rest
    append_if false a xs rest = ap (λ l. l ++ rest) (append-nil xs)

    pub train_epochs_lem :
        (epoch count : ℕ) (s : State dgl torch)
        → s.training ≡ true
        → (s' : State dgl torch) × (train_epochs dgl torch args d
              (record { g = d.g; fanouts = fanout ∷ fanouts; load_feat = true })
              epoch
              count
              s
            ≡ ok s')
          × Behind s s'
              (full_epochs (length d.train_nid) epoch count)
              (multiples (suc k) epoch count)
              (all_batches (torch.batches d.train_nid args.batch_size) epoch count)
    unfolding train_epochs Behind
    train_epochs_lem epoch zero s mode = (
      s,
      refl,
      (
        mode,
        sym (append-nil (finished_epochs s.events)),
        sym (append-nil (evaluated_epochs s.events)),
        sym (append-nil (batches_taken s.events)),
      ),
    )
    train_epochs_lem epoch (suc count) s mode =
        let (s₁, once, (mode₁, fin₁, eva₁, took₁)) = train_epoch_lem epoch s mode in
        let (s₂, more, (mode₂, fin₂, eva₂, took₂)) = train_epochs_lem (epoch + 1) count s₁ mode₁ in
        let n = length d.train_nid in
        (
          s₂,
          rw once more,
          (
            mode₂,
            fin₂
                ∙ ap (λ l. l ++ full_epochs n (epoch + 1) count) fin₁
                ∙ append_assoc (finished_epochs s.events) ((epoch, n) ∷ [])
                    (full_epochs n (epoch + 1) count),
            eva₂
                ∙ ap (λ l. l ++ multiples (suc k) (epoch + 1) count) eva₁
                ∙ append_if ((epoch + 1) % suc k == 0) (epoch + 1) (evaluated_epochs s.events)
                    (multiples (suc k) (epoch + 1) count),
            (let load = torch.batches d.train_nid args.batch_size in
                took₂
                ∙ ap (λ l. l ++ all_batches load (epoch + 1) count) took₁
                ∙ append_assoc (batches_taken s.events) (map (λ seeds. (epoch, seeds)) (load epoch))
                    (all_batches load (epoch + 1) count)),
          ),
        )
