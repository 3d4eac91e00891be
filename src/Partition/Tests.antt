-- ===== src/Partition/Tests.antt =====
-- The splits of a graph of 516001 nodes, and the parts of three nodes.
use bear_rpc.Base.{
  ok, some, get_elem?, ◌*◌, ◌/◌, ℕ, zero, suc, ◌≡◌, refl, ◌↔◌, ◌⊎◌, Bool, false, List, [], ◌∷◌,
  arith, length,
}
use bear_rpc.Partition.{Masks, split_masks}
use bear_rpc.Partition.Parts.{Assignment, assign_metis}
use bear_rpc.Partition.Parts.Nodes.{fixed, assign_metis_lem}
use bear_rpc.Partition.Splits.{In, split_masks_lem}

repeat : ℕ → List Bool
repeat zero = []
repeat (suc n) = false ∷ repeat n

length-repeat : (n : ℕ) → length (repeat n) ≡ n
unfolding repeat
length-repeat zero = refl
length-repeat (suc n) = omega (arith, length-repeat n)

masks : Masks
masks = record { train_mask = repeat 516001; val_mask = repeat 516001; test_mask = repeat 516001 }

split_masks_lem_example :
    (¬ (In (split_masks masks).train_mask 480000 × In (split_masks masks).val_mask 480000))
    × (¬ (In (split_masks masks).train_mask 480000 × In (split_masks masks).test_mask 480000))
    × (¬ (In (split_masks masks).val_mask 480000 × In (split_masks masks).test_mask 480000))
    × (((¬ (In (split_masks masks).train_mask 480000))
          × (¬ (In (split_masks masks).val_mask 480000))
          × (¬ (In (split_masks masks).test_mask 480000)))
        ↔ ((◌≡◌ {A = ℕ} 480000 480000) ⊎ (◌≡◌ {A = ℕ} 480000 516000)))
unfolding masks
split_masks_lem_example =
    split_masks_lem masks 516001 480000 (length-repeat 516001) (length-repeat 516001)
      (length-repeat 516001) (omega arith)

-- Three nodes of the trainers 3, 1 and 0, two to a machine.
abbrev metis : ℕ → List ℕ
metis n = 3 ∷ 1 ∷ 0 ∷ []

assign_metis_lem_example :
    (a : Assignment) × (assign_metis metis 2 2 ≡ ok a)
    × (a.trainer_id ≡ some (metis (2 * 2)))
    × (get_elem? a.node_parts 0 ≡ some (fixed 0 (3 / 2)))
assign_metis_lem_example = assign_metis_lem metis 2 2 0 3 (omega arith) refl

-- The first node is in the partition 0, but its trainer, 3, is one of the machine 1.
other_machine :
    assign_metis metis 2 2
    ≡ ok (record { trainer_id = some (3 ∷ 1 ∷ 0 ∷ []); node_parts = 0 ∷ 0 ∷ 0 ∷ [] })
unfolding assign_metis
other_machine = refl
