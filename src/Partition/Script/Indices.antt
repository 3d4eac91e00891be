-- ===== src/Partition/Script/Indices.antt =====
-- python/GraphPartition.py: which nodes the masks of `load_ogb` and of the inductive split hold.
use bear_rpc.Base.{
  ℕ, zero, suc, ◌<◌, ◌==◌, ==_iff, lt→ltb, ◌≡◌, ◌↔◌, ◌⊎◌, inl, inr, refl, sym, ap, ◌∙◌, subst, Bool,
  true, false, Bool-cases, some, List, [], ◌∷◌, length, get_elem?, All, arith, ok,
}
use bear_rpc.Base.Arrays.{set, full, length-full, set_self, set_other, length-set}
use bear_rpc.Base.Dict.{assign}
use bear_rpc.Text.{Str, codes, str_eq}
use bear_rpc.Partition.Splits.{In}
use bear_rpc.Partition.Features.Columns.{find-assign, find-assign_other}
use bear_rpc.Partition.Script.{
  Column, values, mask, numbers, ScriptGraph, OgbData, rename, mask_at, set_true, load_ogb,
  either_mask, inductive_split,
}

-- The node is in the list.
pub Listed : List ℕ → ℕ → Type 0
Listed nids v = (k : ℕ) × (get_elem? nids k ≡ some v)

-- What setting the nodes of a list makes of a mask.
pub record IsMarked (m : List Bool) (nids : List ℕ) (m' : List Bool) : Type 0 where
  pub run : set_true m nids ≡ ok m'
  pub same_length : length m' ≡ length m
  pub holds : (v : ℕ) → In m' v ↔ (In m v ⊎ Listed nids v)

set_true_lem :
    (m : List Bool) (nids : List ℕ)
    → All (λ i. i < length m) nids
    → (m' : List Bool) × IsMarked m nids m'
unfolding set_true In Listed
set_true_lem m [] below = (
  m,
  record {
    run = refl;
    same_length = refl;
    holds = λ v. (λ h. inl h, λ h. elim h [ inl there ↦ there | inr (k, at) ↦ cc ]);
  },
)
set_true_lem m (i ∷ nids) (first, below) =
    let next = set m i true in
    let (m', done) =
      set_true_lem next nids
        (subst (λ n. All (λ j. j < n) nids) (sym (length-set m i true)) below) in
    (
      m',
      record {
        run = rw (lt→ltb i (length m) first) done.run;
        same_length = done.same_length ∙ length-set m i true;
        holds = λ v. (
          λ h. from_rest m i nids v ((done.holds v).0 h),
          λ h. (done.holds v).1 (to_rest m i nids v first h),
        );
      },
    )
  where
    from_rest :
        (m : List Bool) (i : ℕ) (nids : List ℕ) (v : ℕ)
        → In (set m i true) v ⊎ Listed nids v
        → In m v ⊎ Listed (i ∷ nids) v
    from_rest m i nids v (inr (k, at)) = inr (suc k, at)
    from_rest m i nids v (inl there) = elim (Bool-cases (i == v)) [
      | inl t ↦ inr (zero, ap some ((==_iff i v).0 t))
      | inr t ↦ inl (sym (set_other m i v true (ground arith)) ∙ there)
    ]

    to_rest :
        (m : List Bool) (i : ℕ) (nids : List ℕ) (v : ℕ)
        → i < length m
        → In m v ⊎ Listed (i ∷ nids) v
        → In (set m i true) v ⊎ Listed nids v
    to_rest m i nids v below (inr (suc k, at)) = inr (k, at)
    to_rest m i nids v below (inr (zero, at)) =
        let same : i ≡ v = cc in
        inl (subst (λ w. get_elem? (set m i true) w ≡ some true) same (set_self m i true below))
    to_rest m i nids v below (inl there) = elim (Bool-cases (i == v)) [
      | inl t ↦ inl (
          subst (λ w. get_elem? (set m i true) w ≡ some true) ((==_iff i v).0 t)
            (set_self m i true below))
      | inr t ↦ inl (set_other m i v true (ground arith) ∙ there)
    ]

cleared : (n v : ℕ) → ¬ (In (full n false) v)
unfolding In
cleared zero v h = cc
cleared (suc n) zero h = cc
cleared (suc n) (suc v) h = cleared n v h

-- Setting the nodes of a list in a cleared mask gives the mask of the list.
mask_of :
    (n : ℕ) (nids : List ℕ)
    → All (λ i. i < n) nids
    → (m : List Bool) × (set_true (full n false) nids ≡ ok m)
      × (length m ≡ n)
      × ((v : ℕ) → In m v ↔ Listed nids v)
mask_of n nids below =
    let (m, done) =
      set_true_lem (full n false) nids
        (subst (λ k. All (λ i. i < k) nids) (sym (length-full n false)) below) in
    (
      m,
      done.run,
      done.same_length ∙ length-full n false,
      λ v. (
        λ h. elim ((done.holds v).0 h) [
          | inl there ↦ absurd (cleared n v there)
          | inr listed ↦ listed
        ],
        λ listed. (done.holds v).1 (inr listed),
      ),
    )

either_lem :
    (a b : List Bool) (v : ℕ) → length a ≡ length b → In (either_mask a b) v ↔ (In a v ⊎ In b v)
unfolding In either_mask
either_lem [] [] v same = (λ h. inl h, λ h. elim h [ inl x ↦ x | inr x ↦ x ])
either_lem [] (y ∷ b) v same = absurd (omega arith)
either_lem (x ∷ a) [] v same = absurd (omega arith)
either_lem (true ∷ a) (y ∷ b) zero same = (λ h. inl refl, λ h. refl)
either_lem (false ∷ a) (y ∷ b) zero same = (λ h. inr h, λ h. elim h [ inl x ↦ cc | inr x ↦ x ])
either_lem (x ∷ a) (y ∷ b) (suc v) same = either_lem a b v (omega arith)

module _ {V : Type 0} where
  stored_mask :
      (name : Str) (m : List Bool) (ndata : List (Str × Column V))
      → mask_at name (assign str_eq name (mask m) ndata) ≡ ok m
  unfolding mask_at
  stored_mask name m ndata = rw (mask_at, find-assign name (mask m) ndata) refl

  other_mask :
      (name other : Str) (m : List Bool) (ndata : List (Str × Column V))
      → str_eq other name ≡ false
      → mask_at name (assign str_eq other (mask m) ndata) ≡ mask_at name ndata
  unfolding mask_at
  other_mask name other m ndata differs =
      rw (mask_at, find-assign_other name other (mask m) ndata differs) refl

  -- The three masks are read as they were stored.
  pub three_masks :
      (train val test : List Bool) (ndata : List (Str × Column V))
      → let stored = assign str_eq (codes "test_mask") (mask test) (
          assign str_eq
            (codes "val_mask")
            (mask val)
            (assign str_eq (codes "train_mask") (mask train) ndata)) in
        (mask_at (codes "train_mask") stored ≡ ok train)
        × (mask_at (codes "val_mask") stored ≡ ok val)
        × (mask_at (codes "test_mask") stored ≡ ok test)
  three_masks train val test ndata = (
    other_mask (codes "train_mask") (codes "test_mask") test _ (unfold str_eq in refl)
        ∙ other_mask (codes "train_mask") (codes "val_mask") val _ (unfold str_eq in refl)
        ∙ stored_mask (codes "train_mask") train ndata,
    other_mask (codes "val_mask") (codes "test_mask") test _ (unfold str_eq in refl)
        ∙ stored_mask (codes "val_mask") val _,
    stored_mask (codes "test_mask") test _,
  )

-- A dataset of OGB with features, whose index sets name nodes of its graph, is loaded: the training
-- graph of the inductive split is the subgraph of the nodes of the training set, the validation graph
-- that of the nodes of the training set or the validation set, and the test graph is the graph; and
-- the test mask holds the nodes of the test set.
pub load_ogb-inductive_split :
    {G V : Type 0} (is_nan : V → Bool) (unique : List V → List V)
    (subgraph : ScriptGraph G V → List Bool → G) (d : OgbData G V) (ndata : List (Str × Column V))
    → rename (codes "feat") (codes "features") d.graph.ndata ≡ ok ndata
    → All (λ i. i < d.graph.number_of_nodes) d.train
    → All (λ i. i < d.graph.number_of_nodes) d.valid
    → All (λ i. i < d.graph.number_of_nodes) d.test
    → (g : ScriptGraph G V) × (num_labels : ℕ) × (load_ogb is_nan unique d ≡ ok (g, num_labels))
      × (train both test : List Bool) × (inductive_split subgraph g
          ≡ ok (subgraph g train, (subgraph g both, d.graph.structure)))
      × (mask_at (codes "test_mask") g.ndata ≡ ok test)
      × ((v : ℕ)
          → (In train v ↔ Listed d.train v)
            × (In both v ↔ (Listed d.train v ⊎ Listed d.valid v))
            × (In test v ↔ Listed d.test v))
unfolding load_ogb inductive_split
load_ogb-inductive_split is_nan unique subgraph d ndata renamed train_below valid_below test_below =
    let n = d.graph.number_of_nodes in
    let (train, train_run, train_length, in_train) = mask_of n d.train train_below in
    let (valid, valid_run, valid_length, in_valid) = mask_of n d.valid valid_below in
    let (test, test_run, _, in_test) = mask_of n d.test test_below in
    let labelled = assign str_eq (codes "labels") (values d.labels) ndata in
    let (has_train, has_valid, has_test) = three_masks train valid test labelled in
    (
      record {
        structure = d.graph.structure;
        number_of_nodes = n;
        ndata = assign str_eq (codes "test_mask") (mask test) (
            assign str_eq (codes "val_mask") (mask valid)
              (assign str_eq (codes "train_mask") (mask train) labelled));
      },
      length (unique (numbers is_nan d.labels)),
      rw (renamed, train_run, valid_run, test_run) refl,
      train,
      either_mask train valid,
      test,
      rw (has_train, has_valid) refl,
      has_test,
      λ v. (
        in_train v,
        let same : length train ≡ length valid = train_length ∙ sym valid_length in
            (
              λ h. elim ((either_lem train valid v same).0 h) [
                | inl there ↦ inl ((in_train v).0 there)
                | inr there ↦ inr ((in_valid v).0 there)
              ],
              λ h. (either_lem train valid v same).1 (elim h [
                | inl there ↦ inl ((in_train v).1 there)
                | inr there ↦ inr ((in_valid v).1 there)
              ]),
            ),
        in_test v,
      ),
    )
