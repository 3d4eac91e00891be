-- ===== src/Partition/Homogeneous/Separate.antt =====
-- srcChange/partition/aly_partition.py, `get_homogeneous`: the numbers by which METIS balances.
use bear_rpc.Base.{
  ℕ, zero, suc, ◌+◌, ◌*◌, ◌<◌, ◌≤◌, ◌≡◌, ◌==◌, ==_iff, ◌&&◌, refl, sym, ap, ◌∙◌, Bool, true, false,
  Option, none, some, List, [], ◌∷◌, map, length, get_elem?, arith, ok, >>=-eq_ok, assert-eq_ok,
  ok-injective,
}
use mathlib.Core.Option.{some-injective}
use bear_rpc.Base.Dict.{find}
use bear_rpc.Base.Arrays.{full}
use bear_rpc.Text.{Str, str_eq}
use bear_rpc.Partition.Maps.Consecutive.{consecutive}
use bear_rpc.Partition.Graph.{NodeSet}
use bear_rpc.Partition.Homogeneous.{all_equal, Homogenizer, bal_column, bal_columns}

-- Each value of a tensor is among those without repetitions.
unfoldable pub IsUnique : (List ℕ → List ℕ) → Type 0
IsUnique unique =
    (xs : List ℕ) (i x : ℕ) → get_elem? xs i ≡ some x → (k : ℕ) × (get_elem? (unique xs) k ≡ some x)

-- A value of a list that equals 0, 1, … is below its length.
below_length :
    (start : ℕ) (xs : List ℕ) (k x : ℕ)
    → all_equal xs (consecutive start (length xs)) ≡ true
    → get_elem? xs k ≡ some x
    → x < start + length xs
unfolding all_equal consecutive
below_length start [] k x h at = cc
below_length start (y ∷ xs) zero x h at =
    let same : y ≡ x = cc in
    let (equal, _) = both (y == start) (all_equal xs (consecutive (start + 1) (length xs))) h in
    let first : y ≡ start = (==_iff y start).0 equal in omega arith
  where
    both : (a b : Bool) → (a && b) ≡ true → (a ≡ true) × (b ≡ true)
    both true true h = (refl, refl)
    both true false h = cc
    both false b h = cc
below_length start (y ∷ xs) (suc k) x h at =
    omega (arith, below_length (start + 1) xs k x (rest (y == start) h) at)
  where
    rest : {b : Bool} (a : Bool) → (a && b) ≡ true → b ≡ true
    rest true h = h
    rest false h = cc

at_full : (n v i x : ℕ) → get_elem? (full n v) i ≡ some x → x ≡ v
at_full zero v i x h = cc
at_full (suc n) v zero x h = cc
at_full (suc n) v (suc i) x h = at_full n v i x h

at_shifted :
    (s : ℕ) (xs : List ℕ) (i x : ℕ)
    → get_elem? (map (λ t. t + s) xs) i ≡ some x
    → (t : ℕ) × (get_elem? xs i ≡ some t) × (x ≡ t + s)
at_shifted s [] i x h = cc
at_shifted s (t ∷ xs) zero x h = (t, refl, cc)
at_shifted s (t ∷ xs) (suc i) x h = at_shifted s xs i x h

-- The column of a type lies between the number of types before it and that number with its own.
bal_column_lem :
    (unique : List ℕ → List ℕ) (given : Option (List ℕ)) (number s : ℕ) (made : List ℕ × ℕ)
    (i x : ℕ)
    → IsUnique unique
    → bal_column unique given number s ≡ ok made
    → get_elem? made.0 i ≡ some x
    → (s ≤ x) × (x < s + made.1)
unfolding bal_column IsUnique
bal_column_lem unique none number s made i x lawful h at =
    let same = ok-injective (full number (1 * s), 1) made h in
    let there : get_elem? (full number (1 * s)) i ≡ some x = ap (λ q. get_elem? q.0 i) same ∙ at in
    let one : 1 ≡ made.1 = ap (λ q. q.1) same in omega (arith, at_full number (1 * s) i x there)
bal_column_lem unique (some given) number s made i x lawful h at =
    let uniq = unique given in
    let (all, h₁) = assert-eq_ok (all_equal uniq (consecutive 0 (length uniq))) "" _ h in
    let same = ok-injective (map (λ t. t + s) given, length uniq) made h₁ in
    let shifted : get_elem? (map (λ t. t + s) given) i ≡ some x =
      ap (λ q. get_elem? q.0 i) same ∙ at in
    let counted : length uniq ≡ made.1 = ap (λ q. q.1) same in
    let (t, there, sum) = at_shifted s given i x shifted in
    let (k, listed) = lawful given i t there in omega (arith, below_length 0 uniq k t all listed)

-- The numbers that are given for a type are kept apart.
bal_column_given :
    (unique : List ℕ → List ℕ) (given : List ℕ) (number s : ℕ) (made : List ℕ × ℕ)
    → bal_column unique (some given) number s ≡ ok made
    → made.0 ≡ map (λ t. t + s) given
unfolding bal_column
bal_column_given unique given number s made h =
    let uniq = unique given in
    let (all, h₁) = assert-eq_ok (all_equal uniq (consecutive 0 (length uniq))) "" _ h in
    ap (λ q. q.0) (sym (ok-injective (map (λ t. t + s) given, length uniq) made h₁))

module _ {V : Type 0} (h : Homogenizer V) (lawful : IsUnique h.unique)
    (balance_ntypes : List (Str × List ℕ)) where
  bal_columns-cons :
      (n : NodeSet V) (nodes : List (NodeSet V)) (s : ℕ) (columns : List (List ℕ))
      → bal_columns h balance_ntypes (n ∷ nodes) s ≡ ok columns
      → (made : List ℕ × ℕ) × (bal_column h.unique
            (find str_eq n.kind.name balance_ntypes)
            n.kind.number
            s
          ≡ ok made)
        × (rest : List (List ℕ)) × (bal_columns h balance_ntypes nodes (s + made.1) ≡ ok rest)
        × (made.0 ∷ rest ≡ columns)
  unfolding bal_columns
  bal_columns-cons n nodes s columns done =
      let (made, one, h₁) =
        >>=-eq_ok (bal_column h.unique (find str_eq n.kind.name balance_ntypes) n.kind.number s) _
          done in
      let (rest, more, h₂) = >>=-eq_ok (bal_columns h balance_ntypes nodes (s + made.1)) _ h₁ in
      (made, one, rest, more, ok-injective (made.0 ∷ rest) columns h₂)

  above :
      (nodes : List (NodeSet V)) (s : ℕ) (columns : List (List ℕ)) (c j y : ℕ) (column : List ℕ)
      → bal_columns h balance_ntypes nodes s ≡ ok columns
      → get_elem? columns c ≡ some column
      → get_elem? column j ≡ some y
      → s ≤ y
  unfolding bal_columns
  above [] s columns c j y column done at value =
      let empty : [] ≡ columns = ok-injective [] columns done in
      let nothing : get_elem? [] c ≡ some column = ap (λ l. get_elem? l c) empty ∙ at in cc
  above (n ∷ nodes) s columns zero j y column done at value =
      let (made, one, rest, more, shape) = bal_columns-cons n nodes s columns done in
      let same : some made.0 ≡ some column = ap (λ l. get_elem? l 0) shape ∙ at in
      let there : get_elem? made.0 j ≡ some y =
        ap (λ l. get_elem? l j) (some-injective made.0 column same) ∙ value in
      (bal_column_lem h.unique (find str_eq n.kind.name balance_ntypes) n.kind.number s made j y
        lawful one there).0
  above (n ∷ nodes) s columns (suc c) j y column done at value =
      let (made, one, rest, more, shape) = bal_columns-cons n nodes s columns done in
      omega (
        arith,
        above nodes (s + made.1) rest c j y column more (ap (λ l. get_elem? l (suc c)) shape ∙ at)
            value,
      )

  -- A column behind the first one.
  behind :
      (first other : List ℕ) (rest columns : List (List ℕ)) (c : ℕ)
      → first ∷ rest ≡ columns
      → 0 < c
      → get_elem? columns c ≡ some other
      → (c' : ℕ) × (suc c' ≡ c) × (get_elem? rest c' ≡ some other)
  behind first other rest columns zero shape later at = absurd (omega arith)
  behind first other rest columns (suc c) shape later at =
      (c, refl, ap (λ l. get_elem? l (suc c)) shape ∙ at)

  -- Where the numbers of METIS are made from numbers by type, each node type has numbers of its own,
  -- below those of the types behind it; and in a type for which numbers are given, the numbers are
  -- these with one offset. It is supposed that the values of a tensor without repetitions are all of
  -- its values.
  pub bal_columns_lem :
      (nodes : List (NodeSet V)) (s : ℕ) (columns : List (List ℕ)) (a : ℕ) (n : NodeSet V)
      → bal_columns h balance_ntypes nodes s ≡ ok columns
      → get_elem? nodes a ≡ some n
      → (column : List ℕ) × (get_elem? columns a ≡ some column)
        × ((c i j x y : ℕ) (other : List ℕ)
            → a < c
            → get_elem? columns c ≡ some other
            → get_elem? column i ≡ some x
            → get_elem? other j ≡ some y
            → x < y)
        × ((given : List ℕ)
            → find str_eq n.kind.name balance_ntypes ≡ some given
            → (offset : ℕ) × (column ≡ map (λ t. t + offset) given))
  bal_columns_lem [] s columns a n done at = cc
  bal_columns_lem (m ∷ nodes) s columns zero n done at =
      let (made, one, rest, more, shape) = bal_columns-cons m nodes s columns done in
      let same : m ≡ n = cc in
      (
        made.0,
        ap (λ l. get_elem? l 0) (sym shape),
        λ c i j x y other later there left right.
            let (_, upper) =
              bal_column_lem h.unique (find str_eq m.kind.name balance_ntypes) m.kind.number s made
                i x lawful one left in
            let (c', _, there') = behind made.0 other rest columns c shape later there in
            omega (arith, above nodes (s + made.1) rest c' j y other more there' right),
        λ given found.
            let found' : find str_eq m.kind.name balance_ntypes ≡ some given =
              ap (λ (q : NodeSet V). find str_eq q.kind.name balance_ntypes) same ∙ found in
            (
              s,
              bal_column_given h.unique given m.kind.number s made
                  (ap (λ o. bal_column h.unique o m.kind.number s) (sym found') ∙ one),
            ),
      )
  bal_columns_lem (m ∷ nodes) s columns (suc a) n done at =
      let (made, one, rest, more, shape) = bal_columns-cons m nodes s columns done in
      let (column, there, apart, kept) = bal_columns_lem nodes (s + made.1) rest a n more at in
      (
        column,
        ap (λ l. get_elem? l (suc a)) (sym shape) ∙ there,
        λ c i j x y other later found left right.
            let (c', same, found') = behind made.0 other rest columns c shape (omega arith) found in
            apart c' i j x y other (omega arith) found' left right,
        kept,
      )
