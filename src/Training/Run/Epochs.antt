-- ===== src/Training/Run/Epochs.antt =====
-- python/dist_graphSage.py, `run`: the loops over the epochs and over their batches.
use bear_rpc.Base.{
  ℕ, zero, suc, ◌+◌, ◌<◌, ◌≡◌, refl, sym, ap, ◌∙◌, map, ◌++◌, append_assoc, append-nil, true, false,
  List, [], ◌∷◌, arith, length, get_elem?, some, ℤ, pos, All, ok,
}
use bear_rpc.Training.{Dgl}
use bear_rpc.Training.Blocks.{IsToBlock}
use bear_rpc.Training.Run.{Torch, Data, rows_at, State, compute_acc, evaluate, train_steps}
use bear_rpc.Training.Run.Batch.{
  batches_taken, Within, Within-transitive, Learns, Steps, train_step_lem,
}

-- The number of entries of all batches.
abbrev pub total : List (List ℕ) → ℕ
total [] = 0
total (batch ∷ batches) = length batch + total batches

-- (epoch, n) for `count` epochs from one on.
abbrev pub full_epochs : ℕ → ℕ → ℕ → List (ℕ × ℕ)
full_epochs n epoch zero = []
full_epochs n epoch (suc count) = (epoch, n) ∷ full_epochs n (epoch + 1) count

-- The batches of `count` epochs from one on, each with its epoch.
abbrev pub all_batches : (ℕ → List (List ℕ)) → ℕ → ℕ → List (ℕ × List ℕ)
all_batches batches epoch zero = []
all_batches batches epoch (suc count) =
    map (λ seeds. (epoch, seeds)) (batches epoch) ++ all_batches batches (epoch + 1) count

row_within :
    {A : Type 0} (xs : List A) (i : ℕ) → i < length xs → (x : A) × (get_elem? xs i ≡ some x)
row_within [] i h = absurd (omega arith)
row_within (x ∷ xs) zero h = (x, refl)
row_within (x ∷ xs) (suc i) h = row_within xs i (omega arith)

rows_at_lem :
    {A : Type 0} (xs : List A) (ids : List ℕ)
    → All (λ i. i < length xs) ids
    → (rows : List A) × (rows_at xs ids ≡ ok rows)
unfolding rows_at
rows_at_lem xs [] h = ([], refl)
rows_at_lem xs (i ∷ ids) (h, hs) =
    let (x, at) = row_within xs i h in
    let (rows, found) = rows_at_lem xs ids hs in (x ∷ rows, rw (rows_at, at) (rw found refl))

module _ (dgl : Dgl) (torch : Torch dgl) where
  Steps-transitive :
      (s s' s'' : State dgl torch) (n m : ℕ) (taken taken' : List (ℕ × List ℕ))
      → Steps dgl torch s s' n taken
      → Steps dgl torch s' s'' m taken'
      → Steps dgl torch s s'' (n + m) (taken ++ taken')
  unfolding Steps
  Steps-transitive s s' s'' n m taken taken' (_, counted, within, took)
        (mode, counted', within', took') =
      (
        mode,
        omega arith,
        Within-transitive s.events s'.events s''.events within within',
        took' ∙ ap (λ l. l ++ taken') took ∙ append_assoc (batches_taken s.events) taken taken',
      )

  -- The inference has a row for each node of the two sets, and each has a label.
  unfoldable pub Evaluates : Data dgl → Type 0
  Evaluates d =
      (weights : torch.Weights)
      → (pred : List torch.Row) × (torch.inference false weights ≡ ok pred)
        × All (λ i. i < length pred) d.val_nid
        × All (λ i. i < length pred) d.test_nid
        × All (λ i. i < length d.labels) d.val_nid
        × All (λ i. i < length d.labels) d.test_nid

  pub evaluate_lem :
      (d : Data dgl) (weights : torch.Weights)
      → Evaluates d
      → (val_acc test_acc : ℕ × ℕ) × (evaluate dgl torch weights d.labels d.val_nid d.test_nid
          ≡ ok (val_acc, test_acc))
  unfolding Evaluates evaluate
  evaluate_lem d weights evaluates =
      let (pred, inferred, val, test, val_l, test_l) = evaluates weights in
      let (val_pred, a) = rows_at_lem pred d.val_nid val in
      let (test_pred, b) = rows_at_lem pred d.test_nid test in
      let (val_labels, a') = rows_at_lem d.labels d.val_nid val_l in
      let (test_labels, b') = rows_at_lem d.labels d.test_nid test_l in
      (
        compute_acc dgl torch val_pred val_labels,
        compute_acc dgl torch test_pred test_labels,
        rw (inferred, a, a', b, b') refl,
      )

  module _ (g : dgl.Graph) (fanout : ℤ) (fanouts : List ℤ) (every : ℕ) (to_block : IsToBlock dgl)
      (learns : Learns dgl torch) where
    pub train_steps_lem :
        (epoch step : ℕ) (batches : List (List ℕ)) (s : State dgl torch)
        → s.training ≡ true
        → (s' : State dgl torch) × (train_steps dgl torch
              (record { g = g; fanouts = fanout ∷ fanouts; load_feat = true })
              (pos (suc every))
              epoch
              step
              batches
              s
            ≡ ok s')
          × Steps dgl torch s s' (total batches) (map (λ seeds. (epoch, seeds)) batches)
    unfolding train_steps Steps Within
    train_steps_lem epoch step [] s mode =
        (s, refl, (mode, omega arith, (refl, refl), sym (append-nil (batches_taken s.events))))
    train_steps_lem epoch step (seeds ∷ batches) s mode =
        let (s₁, stepped_once, one) =
          train_step_lem dgl torch g fanout fanouts every epoch step seeds s to_block learns mode in
        let (s₂, stepped_on, more) = train_steps_lem epoch (step + 1) batches s₁ one.0 in
        (
          s₂,
          rw stepped_once stepped_on,
          Steps-transitive s s₁ s₂ (length seeds) (total batches) ((epoch, seeds) ∷ [])
              (map (λ seeds. (epoch, seeds)) batches) one more,
        )
