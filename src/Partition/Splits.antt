-- ===== src/Partition/Splits.antt =====
-- python/GraphPartition.py: which nodes the three masks hold.
use bear_rpc.Base.{
  ℕ, zero, suc, ◌+◌, ◌≤◌, ◌<◌, ◌≡◌, refl, ap, ◌∙◌, ◌↔◌, ◌⊎◌, inl, inr, Bool, true, false, ◌&&◌,
  some, List, [], ◌∷◌, arith, length, get_elem?, ltb, leb, if◌then◌else◌, Bool-cases,
}
use bear_rpc.Partition.{Masks, clear, set_slice, train_num, split_masks}

-- The mask holds the node.
unfoldable pub In : List Bool → ℕ → Type 0
In mask v = get_elem? mask v ≡ some true

get_elem?-clear :
    (mask : List Bool) (v : ℕ) → v < length mask → get_elem? (clear mask) v ≡ some false
unfolding clear
get_elem?-clear [] v h = ground arith
get_elem?-clear (b ∷ mask) zero h = refl
get_elem?-clear (b ∷ mask) (suc v) h = get_elem?-clear mask v (omega arith)

get_elem?-set_slice :
    (i first stop : ℕ) (mask : List Bool) (v : ℕ) (b : Bool)
    → get_elem? mask v ≡ some b
    → get_elem? (set_slice i first stop mask) v
      ≡ some (if leb first (i + v) && ltb (i + v) stop then true else b)
unfolding set_slice
get_elem?-set_slice i first stop [] v b h = cc
get_elem?-set_slice i first stop (c ∷ mask) zero b h = ground arith
get_elem?-set_slice i first stop (c ∷ mask) (suc v) b h =
    get_elem?-set_slice (i + 1) first stop mask v b h
    ∙ ap (λ n. some (if leb first n && ltb n stop then true else b)) (omega arith)

-- A slice of a cleared mask holds the nodes of the slice.
slice_lem :
    (first stop : ℕ) (mask : List Bool) (v : ℕ)
    → v < length mask
    → In (set_slice 0 first stop (clear mask)) v ↔ ((first ≤ v) × (v < stop))
unfolding In
slice_lem first stop mask v h =
    let e = get_elem?-set_slice 0 first stop (clear mask) v false (get_elem?-clear mask v h) in
    (λ p. ground arith, λ p. ground arith)

gap :
    (v : ℕ)
    → ¬ (v < train_num)
    → ¬ ((train_num < v) × (v < train_num + 36000))
    → ¬ (train_num + 36000 < v)
    → (v ≡ 480000) ⊎ (v ≡ 516000)
gap v train val test = elim (Bool-cases (leb v 480000)) [
  | inl e ↦ inl (ground arith)
  | inr e ↦ inr (ground arith)
]

outside :
    {A B C : Type 0} (v : ℕ)
    → (v ≡ 480000) ⊎ (v ≡ 516000)
    → (A → v < train_num)
    → (B → (train_num < v) × (v < train_num + 36000))
    → (C → train_num + 36000 < v)
    → (¬ A) × (¬ B) × (¬ C)
outside v (inl e) in_a in_b in_c = (
  λ a. let h = in_a a in omega arith,
  λ b. let h = in_b b in omega arith,
  λ c. let h = in_c c in omega arith,
)
outside v (inr e) in_a in_b in_c = (
  λ a. let h = in_a a in omega arith,
  λ b. let h = in_b b in omega arith,
  λ c. let h = in_c c in omega arith,
)

module _ (m : Masks) (n : ℕ) (v : ℕ) (train : length m.train_mask ≡ n) (val : length m.val_mask ≡ n)
    (test : length m.test_mask ≡ n) (node : v < n) where
  pub train_lem : In (split_masks m).train_mask v ↔ (v < train_num)
  unfolding split_masks
  train_lem =
      let e = slice_lem 0 train_num m.train_mask v (omega arith) in
      (λ p. (e.0 p).1, λ p. e.1 (omega arith, p))

  val_lem : In (split_masks m).val_mask v ↔ ((train_num < v) × (v < train_num + 36000))
  unfolding split_masks
  val_lem =
      let e = slice_lem (train_num + 1) (train_num + 36000) m.val_mask v (omega arith) in
      (λ p. let q = e.0 p in (omega arith, q.1), λ p. e.1 (omega arith, p.1))

  test_lem : In (split_masks m).test_mask v ↔ (train_num + 36000 < v)
  unfolding split_masks
  test_lem =
      let e = slice_lem (train_num + 36001) (length m.test_mask) m.test_mask v (omega arith) in
      (λ p. let q = e.0 p in omega arith, λ p. e.1 (omega arith, omega arith))

  -- On masks over the same nodes, a node is in at most one of the three splits, and the nodes in none
  -- are the one behind the training nodes, 480000, and the one behind the validation nodes, 516000.
  pub split_masks_lem :
      (¬ (In (split_masks m).train_mask v × In (split_masks m).val_mask v))
      × (¬ (In (split_masks m).train_mask v × In (split_masks m).test_mask v))
      × (¬ (In (split_masks m).val_mask v × In (split_masks m).test_mask v))
      × (((¬ (In (split_masks m).train_mask v))
            × (¬ (In (split_masks m).val_mask v))
            × (¬ (In (split_masks m).test_mask v)))
          ↔ ((v ≡ 480000) ⊎ (v ≡ 516000)))
  split_masks_lem =
      let (in_train, train_in) = train_lem in
      let (in_val, val_in) = val_lem in
      let (in_test, test_in) = test_lem in
      (
        λ (a, b). let h = in_train a in let k = in_val b in omega arith,
        λ (a, b). let h = in_train a in let k = in_test b in omega arith,
        λ (a, b). let h = in_val a in let k = in_test b in omega arith,
        (
          λ (a, b, c). gap v (λ h. a (train_in h)) (λ h. b (val_in h)) (λ h. c (test_in h)),
          λ e. outside v e in_train in_val in_test,
        ),
      )
