-- ===== src/Base/Arrays.antt =====
-- Tensors of one axis as lists: cells that are set, and rows at a list of indices.
use mathlib.Core.Path.{◌≡◌, refl, sym, ap, ap₂, subst, ◌∙◌}
use mathlib.Core.Logic.{◌≢◌}
use mathlib.Core.Option.{some}
use mathlib.Core.List.{List, [], ◌∷◌, map}
use Prim.Native.Nat.{ℕ, zero, suc, ◌<◌}
use native.Mathlib.Omega.{arith}
use bear_rpc.Base.Lists.{length, get_elem?, All}

module _ {ℓ} {A : Type ℓ} where
  -- xs[i] = v
  abbrev pub set : List A → ℕ → A → List A
  set [] i v = []
  set (x ∷ xs) zero v = v ∷ xs
  set (x ∷ xs) (suc i) v = x ∷ set xs i v

  -- xs[idx] = vs
  abbrev pub put : List A → List ℕ → List A → List A
  put xs [] vs = xs
  put xs (i ∷ idx) [] = xs
  put xs (i ∷ idx) (v ∷ vs) = put (set xs i v) idx vs

  -- n cells with the same value.
  abbrev pub full : ℕ → A → List A
  full zero x = []
  full (suc n) x = x ∷ full n x

  pub length-full : (n : ℕ) (x : A) → length (full n x) ≡ n
  length-full zero x = refl
  length-full (suc n) x = ap suc (length-full n x)

  pub length-set : (xs : List A) (i : ℕ) (v : A) → length (set xs i v) ≡ length xs
  length-set [] i v = refl
  length-set (x ∷ xs) zero v = refl
  length-set (x ∷ xs) (suc i) v = ap suc (length-set xs i v)

  pub length-put : (xs : List A) (idx : List ℕ) (vs : List A) → length (put xs idx vs) ≡ length xs
  length-put xs [] vs = refl
  length-put xs (i ∷ idx) [] = refl
  length-put xs (i ∷ idx) (v ∷ vs) = length-put (set xs i v) idx vs ∙ length-set xs i v

  pub set_self : (xs : List A) (i : ℕ) (v : A) → i < length xs → get_elem? (set xs i v) i ≡ some v
  set_self [] i v h = absurd (omega arith)
  set_self (x ∷ xs) zero v h = refl
  set_self (x ∷ xs) (suc i) v h = set_self xs i v (omega arith)

  pub set_other :
      (xs : List A) (i j : ℕ) (v : A) → i ≢ j → get_elem? (set xs i v) j ≡ get_elem? xs j
  set_other [] i j v h = refl
  set_other (x ∷ xs) zero zero v h = absurd (h refl)
  set_other (x ∷ xs) zero (suc j) v h = refl
  set_other (x ∷ xs) (suc i) zero v h = refl
  set_other (x ∷ xs) (suc i) (suc j) v h = set_other xs i j v (λ e. h (ap suc e))

  -- A cell that no index names keeps its value.
  pub put_other :
      (xs : List A) (idx : List ℕ) (vs : List A) (j : ℕ)
      → All (λ i. i ≢ j) idx
      → get_elem? (put xs idx vs) j ≡ get_elem? xs j
  put_other xs [] vs j h = refl
  put_other xs (i ∷ idx) [] j h = refl
  put_other xs (i ∷ idx) (v ∷ vs) j (h, hs) =
      put_other (set xs i v) idx vs j hs ∙ set_other xs i j v h

-- No index is there twice.
unfoldable pub Distinct : List ℕ → Type 0
Distinct [] = Unit
Distinct (i ∷ idx) = All (λ j. j ≢ i) idx × Distinct idx

module _ {ℓ} {A : Type ℓ} where
  -- Behind xs[idx] = vs the cell at the k-th index has the k-th value.
  pub put_at :
      (xs : List A) (idx : List ℕ) (vs : List A) (k i : ℕ) (v : A)
      → Distinct idx
      → i < length xs
      → get_elem? idx k ≡ some i
      → get_elem? vs k ≡ some v
      → get_elem? (put xs idx vs) i ≡ some v
  unfolding Distinct
  put_at xs [] vs k i v d below at value = cc
  put_at xs (a ∷ idx) [] k i v d below at value = cc
  put_at xs (a ∷ idx) (w ∷ vs) zero i v (others, d) below at value =
      let same : a ≡ i = cc in
      let same_value : w ≡ v = cc in
      put_other (set xs a w) idx vs i (subst (λ n. All (λ j. j ≢ n) idx) same others)
      ∙ ap (λ n. get_elem? (set xs n w) i) same
      ∙ set_self xs i w below
      ∙ ap some same_value
  put_at xs (a ∷ idx) (w ∷ vs) (suc k) i v (others, d) below at value =
      put_at (set xs a w) idx vs k i v d (omega (arith, length-set xs a w)) at value

module _ {V : Type 0} where
  looked_up :
      (column : List V) (i : ℕ) → i < length column → (v : V) × (get_elem? column i ≡ some v)
  looked_up [] i h = absurd (omega arith)
  looked_up (v ∷ column) zero h = (v, refl)
  looked_up (v ∷ column) (suc i) h = looked_up column i (omega arith)

  -- The rows at indices in range.
  pub rows_at_indices :
      (column : List V) (idx : List ℕ)
      → All (λ i. i < length column) idx
      → (rows : List V) × (map (get_elem? column) idx ≡ map some rows)
  rows_at_indices column [] h = ([], refl)
  rows_at_indices column (i ∷ idx) (h, hs) =
      let (v, at) = looked_up column i h in
      let (rows, found) = rows_at_indices column idx hs in (v ∷ rows, ap₂ (λ o l. o ∷ l) at found)

  -- The row at a place is the one at the index that stands there.
  pub row_at_index :
      (column : List V) (idx : List ℕ) (rows : List V) (k i : ℕ)
      → map (get_elem? column) idx ≡ map some rows
      → get_elem? idx k ≡ some i
      → get_elem? rows k ≡ get_elem? column i
  row_at_index column [] rows k i found at = cc
  row_at_index column (a ∷ idx) [] k i found at = cc
  row_at_index column (a ∷ idx) (r ∷ rows) zero i found at =
      let first : get_elem? column a ≡ some r = cc in
      let same : a ≡ i = cc in sym first ∙ ap (get_elem? column) same
  row_at_index column (a ∷ idx) (r ∷ rows) (suc k) i found at =
      let more : map (get_elem? column) idx ≡ map some rows = cc in
      row_at_index column idx rows k i more at

pub length-map {ℓ κ} :
    {A : Type ℓ} {B : Type κ} (f : A → B) (xs : List A) → length (map f xs) ≡ length xs
length-map f [] = refl
length-map f (x ∷ xs) = ap suc (length-map f xs)

pub get_elem?-map {ℓ κ} :
    {A : Type ℓ} {B : Type κ} (f : A → B) (xs : List A) (i : ℕ) (x : A)
    → get_elem? xs i ≡ some x
    → get_elem? (map f xs) i ≡ some (f x)
get_elem?-map f [] i x h = cc
get_elem?-map f (y ∷ xs) zero x h = cc
get_elem?-map f (y ∷ xs) (suc i) x h = get_elem?-map f xs i x h

pub All_at {ℓ} :
    {A : Type ℓ} (P : A → Type 0) (xs : List A) (i : ℕ) (x : A)
    → All P xs
    → get_elem? xs i ≡ some x
    → P x
All_at P [] i x h at = cc
All_at P (y ∷ xs) zero x (h, hs) at = let same : y ≡ x = cc in subst P same h
All_at P (y ∷ xs) (suc i) x (h, hs) at = All_at P xs i x hs at
