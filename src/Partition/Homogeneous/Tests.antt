-- ===== src/Partition/Homogeneous/Tests.antt =====
-- Two node types, of which the first one has numbers of its own for the balance.
use bear_rpc.Base.{ℕ, ◌+◌, ◌<◌, ◌≡◌, refl, List, [], ◌∷◌, map, get_elem?, some, ok}
use bear_rpc.Base.Dict.{find}
use bear_rpc.Text.{Str, codes, str_eq}
use bear_rpc.Partition.Maps.Consecutive.{consecutive}
use bear_rpc.Partition.Graph.{NodeSet}
use bear_rpc.Partition.Homogeneous.{Homogenizer, bal_columns}
use bear_rpc.Partition.Homogeneous.Separate.{IsUnique, bal_columns_lem}

abbrev users : NodeSet ℕ
users = record { kind = record { name = codes "u"; id = 0; number = 2 }; columns = [] }

abbrev views : NodeSet ℕ
views = record { kind = record { name = codes "v"; id = 1; number = 1 }; columns = [] }

abbrev given : List (Str × List ℕ)
given = (codes "u", 0 ∷ 1 ∷ []) ∷ []

-- No tensor of this graph has a repetition.
abbrev homogenizer : Homogenizer ℕ
homogenizer = record {
  to_homogeneous =
      λ g. record { ntype = 0 ∷ 0 ∷ 1 ∷ []; nid = 0 ∷ 1 ∷ 0 ∷ []; etype = []; eid = [] };
  joined = λ columns. [];
  unique = λ xs. xs;
}

homogenizer-IsUnique : IsUnique homogenizer.unique
unfolding IsUnique
homogenizer-IsUnique xs i x at = (i, at)

columns_run :
    bal_columns homogenizer given (users ∷ views ∷ []) 0 ≡ ok ((0 ∷ 1 ∷ []) ∷ (2 ∷ []) ∷ [])
unfolding bal_columns find str_eq consecutive
columns_run = refl

bal_columns_lem_example :
    (column : List ℕ) × (get_elem? ((0 ∷ 1 ∷ []) ∷ (2 ∷ []) ∷ []) 0 ≡ some column)
    × ((c i j x y : ℕ) (other : List ℕ)
        → 0 < c
        → get_elem? ((0 ∷ 1 ∷ []) ∷ (2 ∷ []) ∷ []) c ≡ some other
        → get_elem? column i ≡ some x
        → get_elem? other j ≡ some y
        → x < y)
    × ((numbers : List ℕ)
        → find str_eq (codes "u") given ≡ some numbers
        → (offset : ℕ) × (column ≡ map (λ t. t + offset) numbers))
bal_columns_lem_example =
    bal_columns_lem homogenizer homogenizer-IsUnique given (users ∷ views ∷ []) 0
      ((0 ∷ 1 ∷ []) ∷ (2 ∷ []) ∷ []) 0 users columns_run refl
