-- ===== src/Partition/Maps.antt =====
-- srcChange/partition/aly_partition.py, `partition_graph`: the ID ranges that it stores as the node
-- map and the edge map of a reshuffled graph, with their checks.
pub mod Tiles
pub mod Consecutive
pub mod Owners
use bear_rpc.Base.{
  ℕ, zero, suc, ◌+◌, ◌*◌, Bool, true, false, ◌&&◌, Option, none, some, List, [], ◌∷◌, ◌++◌, map,
  ◌==◌, leb, ltb, if◌then◌else◌, Result, ok, raise, index_error, assert, ◌>>=◌, ◌>>◌,
}
use bear_rpc.Text.{Str}
use bear_rpc.Partition.Backend.{Backend}

-- The IDs of the nodes or of the edges of a part: ndata[NID], ndata['inner_node'] and, in a
-- heterogeneous graph, ndata[NTYPE]; for edges edata[EID], edata['inner_edge'] and edata[ETYPE].
pub record Ids : Type 0 where
  pub nid : List ℕ
  pub inner : List ℕ
  pub types : Option (List ℕ)

-- A node type or an edge type: its name, its ID, and how many nodes or edges of it there are.
pub record Kind (K : Type 0) : Type 0 where
  pub name : K
  pub id : ℕ
  pub number : ℕ

typed_mask : ℕ → List ℕ → List ℕ → List Bool
typed_mask type_id [] types = []
typed_mask type_id (flag ∷ inner) [] = []
typed_mask type_id (flag ∷ inner) (t ∷ types) =
    (flag * (if t == type_id then 1 else 0) == 1) ∷ typed_mask type_id inner types

-- _get_inner_node_mask and _get_inner_edge_mask
unfoldable pub inner_mask : Ids → ℕ → List Bool
unfolding typed_mask
inner_mask part type_id = elim part.types [
  | none ↦ map (λ flag. flag == 1) part.inner
  | some types ↦ typed_mask type_id part.inner types
]

module _ {ℓ} {A : Type ℓ} where
  -- xs[0]
  unfoldable pub first : List A → Result A
  first [] = raise index_error
  first (x ∷ xs) = ok x

  -- xs[-1]
  unfoldable pub last : List A → Result A
  last [] = raise index_error
  last (x ∷ []) = ok x
  last (x ∷ y ∷ xs) = last (y ∷ xs)

-- The loop over the lists of a map, concatenated.
unfoldable pub flatten : List (ℕ × ℕ) → List ℕ
flatten [] = []
flatten ((start, end) ∷ ranges) = start ∷ end ∷ flatten ranges

-- np.all(val[:-1] <= val[1:])
unfoldable pub ascending : List ℕ → Bool
ascending [] = true
ascending (a ∷ []) = true
ascending (a ∷ b ∷ val) = leb a b && ascending (b ∷ val)

module _ (b : Backend) (order : List ℕ → List ℕ) where
  -- The number of inner IDs of a part with the range that is stored for it; `order` is `np.sort` for
  -- edges, and nothing for nodes.
  unfoldable pub entry : ℕ → Ids → Result (ℕ × (ℕ × ℕ))
  unfolding inner_mask first last
  entry type_id part = do
    let mask = inner_mask part type_id
    let inner_ids = order (b.boolean_mask part.nid mask)
    start ← first inner_ids
    end ← last inner_ids
    ok (b.sum mask, (start, end + 1))

  unfoldable pub entries : ℕ → List Ids → Result (List (ℕ × (ℕ × ℕ)))
  unfolding entry
  entries type_id [] = ok []
  entries type_id (part ∷ parts) = do
    e ← entry type_id part
    es ← entries type_id parts
    ok (e ∷ es)

  -- The ranges of one type: in several parts their sizes have to sum up to the number of the type.
  unfoldable pub ranges_of : {K : Type 0} → Kind K → List Ids → Result (List (ℕ × ℕ))
  unfolding entries last
  ranges_of kind parts = do
    es ← entries kind.id parts
    total ← last (b.cumsum (map (λ (n, _). n) es))
    assert (total == kind.number) ""
    ok (map (λ (_, range). range) es)

-- The range of one type in the only part, of which the IDs are not sorted first.
unfoldable pub range_of : {K : Type 0} → Backend → Kind K → Ids → Result (List (ℕ × ℕ))
unfolding entry
range_of b kind part = do (_, range) ← entry b (λ ids. ids) kind.id part; ok (range ∷ [])

module _ (b : Backend) (order : List ℕ → List ℕ) where
  -- The loop over the types; parts[0] is the only part unless num_parts > 1.
  unfoldable pub type_ranges :
      {K : Type 0} → ℕ → List Ids → List (Kind K) → Result (List (K × List (ℕ × ℕ)))
  unfolding ranges_of range_of first
  type_ranges num_parts parts [] = ok []
  type_ranges num_parts parts (kind ∷ kinds) = do
    ranges ←
        (if ltb 1 num_parts
          then ranges_of b order kind parts
          else (first parts >>= (λ part. range_of b kind part)))
    rest ← type_ranges num_parts parts kinds
    ok ((kind.name, ranges) ∷ rest)

-- The double check that the IDs are sorted.
unfoldable pub check_sorted : {K : Type 0} → List (K × List (ℕ × ℕ)) → Result (Unit {0})
unfolding flatten ascending
check_sorted [] = ok tt
check_sorted ((_, ranges) ∷ maps) = assert (ascending (flatten ranges)) "" >> check_sorted maps

module _ {N E : Type 0} (b : Backend) (np_sort : List ℕ → List ℕ) where
  -- node_map_val and edge_map_val
  unfoldable pub id_maps :
      ℕ
      → List (Kind N)
      → List (Kind E)
      → List Ids
      → List Ids
      → Result (List (N × List (ℕ × ℕ)) × List (E × List (ℕ × ℕ)))
  unfolding type_ranges check_sorted
  id_maps num_parts ntypes etypes nodes edges = do
    node_map_val ← type_ranges b (λ ids. ids) num_parts nodes ntypes
    edge_map_val ← type_ranges b np_sort num_parts edges etypes
    check_sorted node_map_val
    check_sorted edge_map_val
    ok (node_map_val, edge_map_val)
