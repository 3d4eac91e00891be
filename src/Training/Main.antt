-- ===== src/Training/Main.antt =====
-- python/dist_graphSage.py: the function `main`.
pub mod Whole
mod Tests
use native.Mathlib.Nat.{mod-eq_of_lt}
use bear_rpc.Base.{
  ℕ, zero, suc, ◌-◌, ◌%◌, ◌<◌, ◌≡◌, refl, sym, ap, ◌∙◌, Bool, true, false, not, Option, none, some,
  List, [], ◌∷◌, ◌++◌, length, ◌==◌, if◌then◌else◌, ℤ, pos, negsuc, Result, ok, raise,
  zero_division, ok-injective, ◌>>=◌,
}
use bear_rpc.Text.{Str, codes}
use bear_rpc.Text.Number.{show_int, int, int-show_int}
use bear_rpc.Training.{Dgl}
use bear_rpc.Training.Run.{Torch, RunArgs, Data, State, run}

-- What `main` reads of the distributed graph and of PyTorch: the node data, the split of the nodes of
-- a mask over the trainers, and the labels without their repetitions.
pub record DistGraph (dgl : Dgl) : Type 0 where
  pub g : dgl.Graph
  pub rank : ℕ
  pub train_mask : List Bool
  pub val_mask : List Bool
  pub test_mask : List Bool
  pub trainer_id : Option (List ℕ)
  pub labels : List dgl.Label
  pub features_width : ℕ
  pub node_split : List Bool → Option (List ℕ) → List ℕ
  pub is_nan : dgl.Label → Bool
  pub unique : List dgl.Label → List dgl.Label

-- a % -n for n > 0
unfoldable pub mod_negative : ℕ → ℕ → ℤ
mod_negative a n = if a % n == 0 then pos 0 else negsuc (n - a % n - 1)

-- The name of the device of a rank.
unfoldable pub device_of : ℤ → ℕ → Result Str
unfolding mod_negative show_int
device_of (negsuc zero) rank = ok (codes "cpu")
device_of (pos zero) rank = raise zero_division
device_of (pos (suc n)) rank = ok (codes "cuda:" ++ show_int (pos (rank % suc n)))
device_of (negsuc (suc n)) rank = ok (codes "cuda:" ++ show_int (mod_negative rank (suc (suc n))))

-- labels[th.logical_not(th.isnan(labels))]
unfoldable pub without_nan : {L : Type 0} → (L → Bool) → List L → List L
without_nan is_nan [] = []
without_nan is_nan (l ∷ labels) =
    let rest = without_nan is_nan labels in if not (is_nan l) then l ∷ rest else rest

module _ (dgl : Dgl) (torch : Torch dgl) where
  -- What is packed for `run`; the branch under `self = False` is not taken.
  unfoldable pub packed : DistGraph dgl → Data dgl
  unfolding without_nan
  packed g = record {
    train_nid = g.node_split g.train_mask g.trainer_id;
    val_nid = g.node_split g.val_mask g.trainer_id;
    test_nid = g.node_split g.test_mask g.trainer_id;
    in_feats = g.features_width;
    n_classes = length (g.unique (without_nan g.is_nan g.labels));
    g = g.g;
    labels = g.labels;
  }

  -- The device, and what the run on it ends with.
  unfoldable pub main : RunArgs → ℤ → DistGraph dgl → dgl.World → Result (Str × State dgl torch)
  unfolding device_of packed
  main args num_gpus g world = do
    device ← device_of num_gpus g.rank
    s ← run dgl torch args (packed g) world
    ok (device, s)

skip : ℕ → Str → Str
skip zero s = s
skip (suc n) [] = []
skip (suc n) (c ∷ s) = skip n s

show_int-injective : (a b : ℕ) → show_int (pos a) ≡ show_int (pos b) → a ≡ b
show_int-injective a b h =
    let same : some (pos a) ≡ some (pos b) =
      sym (int-show_int (pos a)) ∙ ap int h ∙ int-show_int (pos b) in
    cc

-- Two ranks below the number of GPUs that get the same device are the same rank.
pub device_of-injective :
    (n rank rank' : ℕ)
    → rank < suc n
    → rank' < suc n
    → device_of (pos (suc n)) rank ≡ device_of (pos (suc n)) rank'
    → rank ≡ rank'
unfolding device_of skip
device_of-injective n rank rank' below below' h =
    let same : show_int (pos (rank % suc n)) ≡ show_int (pos (rank' % suc n)) =
      ap (skip 5) (ok-injective _ _ h) in
    sym (mod-eq_of_lt below)
    ∙ show_int-injective (rank % suc n) (rank' % suc n) same
    ∙ mod-eq_of_lt below'
