-- ===== src/Partition/Backend.antt =====
-- srcChange/partition/aly_partition.py: what it uses of the tensor backend and of NumPy, with what
-- these document. A tensor of one axis is the list of its entries.
pub mod Masks
use bear_rpc.Base.{ℕ, suc, ◌+◌, ◌≡◌, Bool, true, false, some, List, [], ◌∷◌, map, length, get_elem?}

pub record Backend : Type 1 where
  pub boolean_mask : {A : Type 0} → List A → List Bool → List A
  pub gather_row : {A : Type 0} → List A → List ℕ → List A
  pub sum : List Bool → ℕ
  pub cumsum : List ℕ → List ℕ

-- The entries at which the mask is set.
abbrev pub select {ℓ} : {A : Type ℓ} → List A → List Bool → List A
select [] mask = []
select (x ∷ xs) [] = []
select (x ∷ xs) (true ∷ mask) = x ∷ select xs mask
select (x ∷ xs) (false ∷ mask) = select xs mask

abbrev pub count : List Bool → ℕ
count [] = 0
count (true ∷ mask) = suc (count mask)
count (false ∷ mask) = count mask

-- The sums of the first entries, from a start on.
abbrev pub sums : ℕ → List ℕ → List ℕ
sums s [] = []
sums s (n ∷ ns) = (s + n) ∷ sums (s + n) ns

-- What the operations document.
pub record IsBackend (b : Backend) : Type 1 where
  pub masked :
      {A : Type 0} (xs : List A) (mask : List Bool)
      → length xs ≡ length mask
      → b.boolean_mask xs mask ≡ select xs mask
  pub gathered :
      {A : Type 0} (xs : List A) (idx : List ℕ) (rows : List A)
      → map (get_elem? xs) idx ≡ map some rows
      → b.gather_row xs idx ≡ rows
  pub summed : (mask : List Bool) → b.sum mask ≡ count mask
  pub cumulated : (ns : List ℕ) → b.cumsum ns ≡ sums 0 ns
