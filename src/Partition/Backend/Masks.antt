-- ===== src/Partition/Backend/Masks.antt =====
-- The place that an entry has among the entries that a mask selects.
use bear_rpc.Base.{
  ℕ, zero, suc, ◌≡◌, refl, Bool, true, false, some, List, [], ◌∷◌, map, get_elem?, ◌==◌, ==_iff,
}
use bear_rpc.Partition.Backend.{select}

-- How many entries of the mask are set before a place.
abbrev pub rank : List Bool → ℕ → ℕ
rank [] j = 0
rank (m ∷ mask) zero = 0
rank (true ∷ mask) (suc j) = suc (rank mask j)
rank (false ∷ mask) (suc j) = rank mask j

pub get_elem?-select {ℓ} :
    {A : Type ℓ} (xs : List A) (mask : List Bool) (j : ℕ)
    → get_elem? mask j ≡ some true
    → get_elem? (select xs mask) (rank mask j) ≡ get_elem? xs j
get_elem?-select [] mask j h = refl
get_elem?-select (x ∷ xs) [] j h = cc
get_elem?-select (x ∷ xs) (true ∷ mask) zero h = refl
get_elem?-select (x ∷ xs) (false ∷ mask) zero h = cc
get_elem?-select (x ∷ xs) (true ∷ mask) (suc j) h = get_elem?-select xs mask j h
get_elem?-select (x ∷ xs) (false ∷ mask) (suc j) h = get_elem?-select xs mask j h

pub get_elem?-equal :
    (types : List ℕ) (type_id j : ℕ)
    → get_elem? types j ≡ some type_id
    → get_elem? (map (λ t. t == type_id) types) j ≡ some true
get_elem?-equal [] type_id j h = cc
get_elem?-equal (t ∷ types) type_id zero h =
    let same : t ≡ type_id = cc in
    let equal : (t == type_id) ≡ true = (==_iff t type_id).1 same in rw equal refl
get_elem?-equal (t ∷ types) type_id (suc j) h = get_elem?-equal types type_id j h
