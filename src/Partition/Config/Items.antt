-- ===== src/Partition/Config/Items.antt =====
-- srcChange/partition/aly_partition.py, `_format_part_metadata`: the loop over the edge types of one
-- dictionary, forth and back.
use bear_rpc.Base.{
  ◌≡◌, refl, sym, ap, ◌∙◌, subst, Bool, true, false, List, [], ◌∷◌, ◌++◌, append_assoc, append-nil,
  if◌then◌else◌, All, All-append, Bool-cases, inl, inr, Result, ok, ok-injective,
}
use bear_rpc.Base.Dict.{member, Fresh, assign-new}
use bear_rpc.Text.{Str, str_eq, str_eq_iff}
use bear_rpc.Partition.Config.{EdgeType, same_etype, Formats, format_items}

module _ {E F V : Type 0} (same : F → F → Bool) (formatter : E → Result F) where
  -- The formatter makes the second entries of the first.
  FormatsTo : List (E × V) → List (F × V) → Type 0
  FormatsTo [] [] = Unit
  FormatsTo [] (b ∷ out) = ⊥
  FormatsTo (a ∷ items) [] = ⊥
  FormatsTo ((e, v) ∷ items) ((e', v') ∷ out) =
      (formatter e ≡ ok e') × (v ≡ v') × FormatsTo items out

  format_items_lem :
      (items : List (E × V)) (out new_data : List (F × V))
      → FormatsTo items out
      → Fresh same out new_data
      → format_items same formatter items new_data ≡ ok (new_data ++ out)
  unfolding FormatsTo Fresh format_items
  format_items_lem [] [] new_data h fresh = ap ok (sym (append-nil new_data))
  format_items_lem [] (b ∷ out) new_data h fresh = absurd h
  format_items_lem (a ∷ items) [] new_data h fresh = absurd h
  format_items_lem ((e, v) ∷ items) ((e', v') ∷ out) new_data (made, equal, h) (new, fresh) =
      rw (made, format_items)
        (ap (λ d. format_items same formatter items d)
            (assign-new same e' v new_data new ∙ ap (λ x. new_data ++ (e', x) ∷ []) equal)
          ∙ format_items_lem items out (new_data ++ (e', v') ∷ []) h fresh
          ∙ ap ok (append_assoc new_data ((e', v') ∷ []) out))

pub same_etype_refl : (e : EdgeType) → same_etype e e ≡ true
unfolding same_etype
same_etype_refl e =
    rw
      (
        (str_eq_iff e.src_type e.src_type).1 refl,
        (str_eq_iff e.relation e.relation).1 refl,
        (str_eq_iff e.dst_type e.dst_type).1 refl,
      )
      refl

module _ (f : Formats) where
  -- The text of an edge type is read as this edge type.
  unfoldable pub Inverts : EdgeType → Type 0
  Inverts e = f.etype_str_to_tuple (f.etype_tuple_to_str e) ≡ ok e

  -- A dictionary of edge types: each key is there once, and is read back from its text.
  unfoldable pub IsEtypes : {V : Type 0} → List (EdgeType × V) → Type 0
  IsEtypes items = All (λ (e, _). Inverts e) items × Fresh same_etype items []

  unfoldable pub as_texts : {V : Type 0} → List (EdgeType × V) → List (Str × V)
  as_texts [] = []
  as_texts ((e, v) ∷ items) = (f.etype_tuple_to_str e, v) ∷ as_texts items

  as_texts-append :
      {V : Type 0} (xs ys : List (EdgeType × V)) → as_texts (xs ++ ys) ≡ as_texts xs ++ as_texts ys
  unfolding as_texts
  as_texts-append [] ys = refl
  as_texts-append ((e, v) ∷ xs) ys =
      ap (λ l. (f.etype_tuple_to_str e, v) ∷ l) (as_texts-append xs ys)

  to_texts :
      {V : Type 0} (items : List (EdgeType × V))
      → FormatsTo str_eq (λ e. ok (f.etype_tuple_to_str e)) items (as_texts items)
  unfolding FormatsTo as_texts
  to_texts [] = tt
  to_texts ((e, v) ∷ items) = (refl, refl, to_texts items)

  from_texts :
      {V : Type 0} (items : List (EdgeType × V))
      → All (λ (e, _). Inverts e) items
      → FormatsTo same_etype f.etype_str_to_tuple (as_texts items) items
  unfolding FormatsTo as_texts Inverts
  from_texts [] h = tt
  from_texts ((e, v) ∷ items) (h, hs) = (h, refl, from_texts items hs)

  -- Edge types with the same text are the same.
  same_text :
      (a e : EdgeType)
      → Inverts a
      → Inverts e
      → str_eq (f.etype_tuple_to_str a) (f.etype_tuple_to_str e) ≡ true
      → a ≡ e
  unfolding Inverts
  same_text a e ha he h =
      ok-injective a e (sym ha ∙ ap f.etype_str_to_tuple ((str_eq_iff _ _).0 h) ∙ he)

  member_text :
      {V : Type 0} (items : List (EdgeType × V)) (e : EdgeType)
      → All (λ (a, _). Inverts a) items
      → Inverts e
      → member same_etype e items ≡ false
      → member str_eq (f.etype_tuple_to_str e) (as_texts items) ≡ false
  unfolding member as_texts
  member_text [] e h he new = refl
  member_text ((a, v) ∷ items) e (ha, h) he new =
      elim (Bool-cases (str_eq (f.etype_tuple_to_str a) (f.etype_tuple_to_str e))) [
        | inl t ↦
            let taken : same_etype a e ≡ true =
              subst (λ x. same_etype a x ≡ true) (same_text a e ha he t) (same_etype_refl a) in
            absurd (clash (same_etype a e) (member same_etype e items) taken new)
        | inr t ↦
            rw t (member_text items e h he (rest (same_etype a e) (member same_etype e items) new))
      ]
    where
      clash : (t u : Bool) → t ≡ true → (if t then true else u) ≡ false → ⊥
      clash true u e h = cc
      clash false u e h = cc

      rest : (t u : Bool) → (if t then true else u) ≡ false → u ≡ false
      rest true u h = cc
      rest false u h = h

  Fresh-as_texts :
      {V : Type 0} (items before : List (EdgeType × V))
      → All (λ (e, _). Inverts e) items
      → All (λ (e, _). Inverts e) before
      → Fresh same_etype items before
      → Fresh str_eq (as_texts items) (as_texts before)
  unfolding Fresh as_texts
  Fresh-as_texts [] before h hb fresh = tt
  Fresh-as_texts ((e, v) ∷ items) before (he, h) hb (new, fresh) = (
    member_text before e hb he new,
    subst (λ l. Fresh str_eq (as_texts items) l) (as_texts-append before ((e, v) ∷ []))
        (Fresh-as_texts items (before ++ (e, v) ∷ []) h
          (All-append (λ (a, _). Inverts a) before ((e, v) ∷ []) hb (he, tt)) fresh),
  )

  pub to_texts_lem :
      {V : Type 0} (items : List (EdgeType × V))
      → IsEtypes items
      → format_items str_eq (λ e. ok (f.etype_tuple_to_str e)) items [] ≡ ok (as_texts items)
  unfolding IsEtypes
  to_texts_lem items (h, fresh) =
      format_items_lem str_eq (λ e. ok (f.etype_tuple_to_str e)) items (as_texts items) []
        (to_texts items) (unfold as_texts in Fresh-as_texts items [] h tt fresh)

  pub from_texts_lem :
      {V : Type 0} (items : List (EdgeType × V))
      → IsEtypes items
      → format_items same_etype f.etype_str_to_tuple (as_texts items) [] ≡ ok items
  unfolding IsEtypes
  from_texts_lem items (h, fresh) =
      format_items_lem same_etype f.etype_str_to_tuple (as_texts items) items []
        (from_texts items h) fresh
