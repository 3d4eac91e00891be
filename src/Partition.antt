-- ===== src/Partition.antt =====
-- python/GraphPartition.py: the three masks of a graph's nodes that the main block sets before it
-- partitions the graph.
pub mod Splits
pub mod Parts
pub mod Backend
pub mod Maps
pub mod Config
pub mod Book
pub mod Saved
pub mod Features
pub mod Load
pub mod Graph
pub mod Trainers
pub mod Homogeneous
pub mod Pieces
pub mod Store
pub mod Splitting
pub mod Whole
pub mod Script
mod Tests
use bear_rpc.Base.{
  ℕ, ◌+◌, ◌*◌, Bool, true, false, ◌&&◌, List, [], ◌∷◌, map, length, ltb, leb, if◌then◌else◌,
}

-- g.ndata['train_mask'], g.ndata['val_mask'] and g.ndata['test_mask']
pub record Masks : Type 0 where
  pub train_mask : List Bool
  pub val_mask : List Bool
  pub test_mask : List Bool

-- mask[:] = False
unfoldable pub clear : List Bool → List Bool
clear mask = map (λ b. false) mask

-- mask[first:stop] = True, for a mask that starts at the node i
unfoldable pub set_slice : ℕ → ℕ → ℕ → List Bool → List Bool
set_slice i first stop [] = []
set_slice i first stop (b ∷ mask) =
    (if leb first i && ltb i stop then true else b) ∷ set_slice (i + 1) first stop mask

abbrev pub train_num : ℕ
train_num = 240000 * 2

unfoldable pub split_masks : Masks → Masks
unfolding clear set_slice
split_masks m = record {
  train_mask = set_slice 0 0 train_num (clear m.train_mask);
  val_mask = set_slice 0 (train_num + 1) (train_num + 36000) (clear m.val_mask);
  test_mask = set_slice 0 (train_num + 36001) (length m.test_mask) (clear m.test_mask);
}
