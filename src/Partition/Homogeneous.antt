-- ===== src/Partition/Homogeneous.antt =====
-- srcChange/partition/aly_partition.py, `partition_graph`: the function `get_homogeneous`, with the
-- node types by which METIS balances.
pub mod Separate
mod Tests
use bear_rpc.Base.{
  ℕ, zero, suc, ◌+◌, ◌*◌, ◌==◌, ◌&&◌, Bool, true, false, Option, none, some, List, [], ◌∷◌, map,
  length, if◌then◌else◌, Result, ok, raise, assert, ◌>>=◌, ◌>>◌,
}
use bear_rpc.Base.Dict.{find}
use bear_rpc.Base.Arrays.{full}
use bear_rpc.Text.{Str, str_eq}
use bear_rpc.Partition.Maps.Consecutive.{consecutive}
use bear_rpc.Partition.Graph.{NodeSet, Graph, SimGraph, is_homogeneous}

-- The argument balance_ntypes.
pub data Balancing : Type 0 where
  no_balance : Balancing
  tensor : List ℕ → Balancing
  by_ntype : List (Str × List ℕ) → Balancing

-- np.all(a == b) for two arrays of one length
unfoldable pub all_equal : List ℕ → List ℕ → Bool
all_equal [] b = true
all_equal (x ∷ a) [] = true
all_equal (x ∷ a) (y ∷ b) = (x == y) && all_equal a b

-- What is taken of DGL and of the backend: the homogeneous graph, a column of it that is made of the
-- columns of the types, and the values of a tensor without repetitions, in ascending order.
pub record Homogenizer (V : Type 0) : Type 0 where
  pub to_homogeneous : Graph V → SimGraph
  pub joined : List (List ℕ) → List ℕ
  pub unique : List ℕ → List ℕ

-- The column 'bal_ntype' of a type of so many nodes, and how many new types it has, behind
-- `num_ntypes` others. `given` is what balance_ntypes has for the type.
unfoldable pub bal_column : (List ℕ → List ℕ) → Option (List ℕ) → ℕ → ℕ → Result (List ℕ × ℕ)
unfolding all_equal
bal_column unique (some given) number num_ntypes = do
  let uniq_ntypes = unique given
  assert (all_equal uniq_ntypes (consecutive 0 (length uniq_ntypes))) ""
  ok (map (λ t. t + num_ntypes) given, length uniq_ntypes)
bal_column unique none number num_ntypes = ok (full number (1 * num_ntypes), 1)

module _ {V : Type 0} (h : Homogenizer V) (balance_ntypes : List (Str × List ℕ)) where
  -- The loop over the types, from a number of types on.
  unfoldable pub bal_columns : List (NodeSet V) → ℕ → Result (List (List ℕ))
  unfolding bal_column
  bal_columns [] num_ntypes = ok []
  bal_columns (n ∷ nodes) num_ntypes = do
    (column, count) ←
        bal_column h.unique (find str_eq n.kind.name balance_ntypes) n.kind.number num_ntypes
    rest ← bal_columns nodes (num_ntypes + count)
    ok (column ∷ rest)

-- The homogeneous graph and the node types for METIS.
unfoldable pub get_homogeneous :
    {V : Type 0} → Homogenizer V → Graph V → Balancing → Result (SimGraph × Option (List ℕ))
unfolding is_homogeneous bal_columns
get_homogeneous h g balance =
    let sim_g = h.to_homogeneous g in
    if is_homogeneous g
    then elim balance [
      | no_balance ↦ ok (sim_g, none)
      | tensor given ↦ ok (sim_g, some given)
      | by_ntype given ↦ only_value sim_g given
    ]
    else elim balance [
      | no_balance ↦ ok (sim_g, some sim_g.ntype)
      | tensor given ↦ ok (sim_g, some sim_g.ntype)
      | by_ntype given ↦ do
        columns ← bal_columns h given g.nodes 0
        ok (sim_g, some (h.joined columns))
    ]
  where
    only_value : SimGraph → List (Str × List ℕ) → Result (SimGraph × Option (List ℕ))
    only_value sim_g ((_, given) ∷ []) = ok (sim_g, some given)
    only_value sim_g other = assert false "" >> ok (sim_g, none)
