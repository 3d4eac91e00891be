-- ===== src/Partition/Features/Columns.antt =====
-- srcChange/partition/aly_partition.py, `partition_graph`: what is stored under the name of a column.
use bear_rpc.Base.{
  ℕ, ◌≡◌, refl, sym, ap, ◌∙◌, subst, true, false, some, List, [], ◌∷◌, ◌++◌, All, Bool-cases, inl,
  inr, arith, ◌==◌,
}
use bear_rpc.Base.Dict.{find, assign}
use bear_rpc.Text.{Str, codes, str_eq, str_eq_iff}
use bear_rpc.Partition.Backend.{Backend}
use bear_rpc.Partition.Features.{is_reserved, column_feats}

str_eq_refl : (s : Str) → str_eq s s ≡ true
str_eq_refl s = (str_eq_iff s s).1 refl

module _ {V : Type 0} where
  pub find-assign :
      (key : Str) (v : V) (d : List (Str × V)) → find str_eq key (assign str_eq key v d) ≡ some v
  unfolding find assign
  find-assign key v [] = rw (str_eq_refl key) refl
  find-assign key v ((k, w) ∷ d) = elim (Bool-cases (str_eq k key)) [
    | inl t ↦ rw (t, t) refl
    | inr t ↦ rw (t, t) (find-assign key v d)
  ]

  pub find-assign_other :
      (key other : Str) (v : V) (d : List (Str × V))
      → str_eq other key ≡ false
      → find str_eq key (assign str_eq other v d) ≡ find str_eq key d
  unfolding find assign
  find-assign_other key other v [] h = rw h refl
  find-assign_other key other v ((k, w) ∷ d) h = elim (Bool-cases (str_eq k other)) [
    | inl t ↦
        let differs : str_eq k key ≡ false =
          subst (λ x. str_eq x key ≡ false) (sym ((str_eq_iff k other).0 t)) h in
        rw (t, differs) refl
    | inr t ↦ rw (t, find-assign_other key other v d h) refl
  ]

str_eq-append : (p s t : Str) → str_eq (p ++ s) (p ++ t) ≡ str_eq s t
unfolding str_eq
str_eq-append [] s t = refl
str_eq-append (c ∷ p) s t =
    let same : (c == c) ≡ true = ground arith in rw same (str_eq-append p s t)

module _ {V : Type 0} (b : Backend) (reserved : List Str) (type : Str) (local : List ℕ) where
  column_feats-append :
      (xs ys feats : List (Str × List V))
      → column_feats b reserved type (some local) (xs ++ ys) feats
        ≡ column_feats b reserved type
            (some local)
            ys
            (column_feats b reserved type (some local) xs feats)
  unfolding column_feats
  column_feats-append [] ys feats = refl
  column_feats-append ((name, column) ∷ xs) ys feats = column_feats-append xs ys _

  column_feats-after :
      (name : Str) (after feats : List (Str × List V))
      → All (λ (n, _). str_eq n name ≡ false) after
      → find str_eq
          (type ++ (codes "/" ++ name))
          (column_feats b reserved type (some local) after feats)
        ≡ find str_eq (type ++ (codes "/" ++ name)) feats
  unfolding column_feats
  column_feats-after name [] feats h = refl
  column_feats-after name ((n, column) ∷ after) feats (h, hs) =
      let differs : str_eq (type ++ (codes "/" ++ n)) (type ++ (codes "/" ++ name)) ≡ false =
        str_eq-append type (codes "/" ++ n) (codes "/" ++ name)
        ∙ str_eq-append (codes "/") n name
        ∙ h in
      elim (Bool-cases (is_reserved n reserved)) [
        | inl t ↦ rw t (column_feats-after name after feats hs)
        | inr t ↦ rw t (
            column_feats-after name after _ hs
            ∙ find-assign_other (type ++ (codes "/" ++ name)) (type ++ (codes "/" ++ n))
                (b.gather_row column local) feats differs)
      ]

  -- A column whose name is not reserved and is not used again is stored with its rows picked.
  pub column_feats_lem :
      (name : Str) (column : List V) (before after feats : List (Str × List V))
      → is_reserved name reserved ≡ false
      → All (λ (n, _). str_eq n name ≡ false) after
      → find str_eq
          (type ++ (codes "/" ++ name))
          (column_feats b reserved type (some local) (before ++ (name, column) ∷ after) feats)
        ≡ some (b.gather_row column local)
  unfolding column_feats
  column_feats_lem name column before after feats free last_one =
      let earlier = column_feats b reserved type (some local) before feats in
      ap (find str_eq (type ++ (codes "/" ++ name)))
        (column_feats-append before ((name, column) ∷ after) feats)
      ∙ rw free (
          column_feats-after name after
            (assign str_eq (type ++ (codes "/" ++ name)) (b.gather_row column local) earlier)
            last_one
          ∙ find-assign (type ++ (codes "/" ++ name)) (b.gather_row column local) earlier)
