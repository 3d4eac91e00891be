-- ===== src/Partition/Saved/Tests.antt =====
-- A graph of three nodes and two edges in two parts: what is stored for it and loaded again.
pub mod Files
use bear_rpc.Base.{
  ℕ, zero, suc, ◌≡◌, refl, ap, ap₂, ◌∙◌, ◌<◌, Bool, true, false, Option, none, some, List, [], ◌∷◌,
  map, arith, leb, length, get_elem?, if◌then◌else◌, All, Result, ok, raise, value_error,
}
use bear_rpc.Text.{Str, codes}
use bear_rpc.Partition.Backend.{Backend, IsBackend, select, count, sums}
use bear_rpc.Partition.Maps.{Ids, inner_mask, Kind, id_maps}
use bear_rpc.Partition.Maps.Consecutive.{consecutive}
use bear_rpc.Partition.Maps.Owners.{IsReshuffled, IsInner, id_maps_lem}
use bear_rpc.Partition.Config.{EdgeType}
use bear_rpc.Partition.Parts.Ranges.{Holds}

abbrev gather : {A : Type 0} → List A → List ℕ → List A
gather xs [] = []
gather xs (i ∷ idx) = elim (get_elem? xs i) [ none ↦ gather xs idx | some x ↦ x ∷ gather xs idx ]

gather_lem :
    {A : Type 0} (xs : List A) (idx : List ℕ) (rows : List A)
    → map (get_elem? xs) idx ≡ map some rows
    → gather xs idx ≡ rows
gather_lem xs [] [] h = refl
gather_lem xs [] (r ∷ rows) h = cc
gather_lem xs (i ∷ idx) [] h = cc
gather_lem xs (i ∷ idx) (r ∷ rows) h =
    let at : get_elem? xs i ≡ some r = cc in
    let more : map (get_elem? xs) idx ≡ map some rows = cc in
    rw (gather, at) (ap (λ l. r ∷ l) (gather_lem xs idx rows more))

abbrev pub lists : Backend
lists = record {
  boolean_mask = λ xs mask. select xs mask;
  gather_row = λ xs idx. gather xs idx;
  sum = count;
  cumsum = sums 0;
}

pub lists-IsBackend : IsBackend lists
lists-IsBackend = record {
  masked = λ xs mask h. refl;
  gathered = λ xs idx rows h. gather_lem xs idx rows h;
  summed = λ mask. refl;
  cumulated = λ ns. refl;
}

abbrev insert : ℕ → List ℕ → List ℕ
insert n [] = n ∷ []
insert n (m ∷ ms) = if leb n m then n ∷ m ∷ ms else m ∷ insert n ms

abbrev pub np_sort : List ℕ → List ℕ
np_sort [] = []
np_sort (n ∷ ns) = insert n (np_sort ns)

-- The parts hold the nodes 0 and 1, and the node 2; a neighbour in the other part is not inner.
abbrev pub node_ids : List Ids
node_ids =
    record { nid = 0 ∷ 1 ∷ 2 ∷ []; inner = 1 ∷ 1 ∷ 0 ∷ []; types = none }
    ∷ record { nid = 2 ∷ 0 ∷ []; inner = 1 ∷ 0 ∷ []; types = none }
    ∷ []

abbrev pub edge_ids : List Ids
edge_ids =
    record { nid = 1 ∷ 0 ∷ []; inner = 1 ∷ 1 ∷ []; types = none }
    ∷ record { nid = 2 ∷ []; inner = 1 ∷ []; types = none }
    ∷ []

abbrev pub node_kind : Kind Str
node_kind = record { name = codes "_N"; id = 0; number = 3 }

abbrev pub etype : EdgeType
etype = record { src_type = codes "_N"; relation = codes "_E"; dst_type = codes "_N" }

abbrev pub edge_kind : Kind EdgeType
edge_kind = record { name = etype; id = 0; number = 3 }

abbrev pub node_map : List (Str × List (ℕ × ℕ))
node_map = (codes "_N", (0, 2) ∷ (2, 3) ∷ []) ∷ []

abbrev pub edge_map : List (EdgeType × List (ℕ × ℕ))
edge_map = (etype, (0, 2) ∷ (2, 3) ∷ []) ∷ []

pub id_maps_run :
    id_maps lists np_sort 2 (node_kind ∷ []) (edge_kind ∷ []) node_ids edge_ids
    ≡ ok (node_map, edge_map)
unfolding id_maps
id_maps_run = refl

pub node_ids-IsReshuffled : All (IsReshuffled 3 0) node_ids
unfolding inner_mask consecutive
node_ids-IsReshuffled = (
  record { start = 0; size = 2; columns = refl; inner_ids = refl; below = omega arith },
  (record { start = 2; size = 1; columns = refl; inner_ids = refl; below = omega arith }, tt),
)
