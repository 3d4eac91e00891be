-- ===== src/Partition/Features/Names.antt =====
-- srcChange/partition/aly_partition.py, `partition_graph`: the names under which features are stored.
use bear_rpc.Base.{
  ℕ, ◌≡◌, refl, subst, Bool, true, false, ◌||◌, Option, List, [], ◌∷◌, ◌++◌, All, Bool-cases, inl,
  inr, if◌then◌else◌,
}
use bear_rpc.Base.Dict.{member, assign, Fresh}
use bear_rpc.Text.{Str, codes, str_eq, contains}
use bear_rpc.Partition.Backend.{Backend}
use bear_rpc.Partition.Features.{Part, Frame, local_ids, is_reserved, column_feats, part_feats}
use bear_rpc.Partition.Load.Feats.{IsTyped}
use bear_rpc.Partition.Saved.Keys.{SameKeys, keys-append, Fresh-SameKeys}

SameKeys-refl : {K V : Type 0} (xs : List (K × V)) → SameKeys xs xs
unfolding SameKeys
SameKeys-refl [] = tt
SameKeys-refl ((k, v) ∷ xs) = (refl, SameKeys-refl xs)

contains_slash : (type name : Str) → contains (codes "/") (type ++ (codes "/" ++ name)) ≡ true
unfolding contains
contains_slash [] name = refl
contains_slash (c ∷ type) name = either_true _ (contains_slash type name)
  where
    either_true : {u : Bool} (t : Bool) → u ≡ true → (t || u) ≡ true
    either_true true h = refl
    either_true false h = h

module _ {V : Type 0} where
  member-append :
      (key k : Str) (v : V) (items : List (Str × V))
      → member str_eq key items ≡ false
      → str_eq k key ≡ false
      → member str_eq key (items ++ (k, v) ∷ []) ≡ false
  unfolding member
  member-append key k v [] h differs = rw differs refl
  member-append key k v ((c, w) ∷ items) h differs = elim (Bool-cases (str_eq c key)) [
    | inl t ↦
        (let found : true ≡ false =
            subst (λ q. (if q then true else member str_eq key items) ≡ false) t h in
          cc)
    | inr t ↦ rw t (
        member-append key k v items
          (subst (λ q. (if q then true else member str_eq key items) ≡ false) t h) differs)
  ]

  -- Setting a key keeps the keys apart.
  Fresh-assign :
      (key : Str) (v : V) (d items : List (Str × V))
      → member str_eq key items ≡ false
      → Fresh str_eq d items
      → Fresh str_eq (assign str_eq key v d) items
  unfolding Fresh assign
  Fresh-assign key v [] items new fresh = (new, tt)
  Fresh-assign key v ((k, w) ∷ d) items new (first, fresh) = elim (Bool-cases (str_eq k key)) [
    | inl t ↦ rw t (
      first,
      Fresh-SameKeys str_eq d (items ++ (k, w) ∷ []) d (items ++ (k, v) ∷ []) (SameKeys-refl d)
          (keys-append str_eq items items k k w v (SameKeys-refl items) refl) fresh,
    )
    | inr t ↦ rw t (
      first,
      Fresh-assign key v d (items ++ (k, w) ∷ []) (member-append key k w items new t) fresh,
    )
  ]

  slash-assign :
      (key : Str) (v : V) (d : List (Str × V))
      → contains (codes "/") key ≡ true
      → All (λ (name, _). contains (codes "/") name ≡ true) d
      → All (λ (name, _). contains (codes "/") name ≡ true) (assign str_eq key v d)
  unfolding assign
  slash-assign key v [] h typed = (h, tt)
  slash-assign key v ((k, w) ∷ d) h (first, typed) = elim (Bool-cases (str_eq k key)) [
    | inl t ↦ rw t (first, typed)
    | inr t ↦ rw t (first, slash-assign key v d h typed)
  ]

  IsTyped-assign :
      (type name : Str) (v : V) (d : List (Str × V))
      → IsTyped d
      → IsTyped (assign str_eq (type ++ (codes "/" ++ name)) v d)
  unfolding IsTyped member
  IsTyped-assign type name v d (typed, fresh) = (
    slash-assign (type ++ (codes "/" ++ name)) v d (contains_slash type name) typed,
    Fresh-assign (type ++ (codes "/" ++ name)) v d [] refl fresh,
  )

module _ {V : Type 0} (b : Backend) (reserved : List Str) where
  column_feats-IsTyped :
      (type : Str) (rows : Option (List ℕ)) (columns feats : List (Str × List V))
      → IsTyped feats
      → IsTyped (column_feats b reserved type rows columns feats)
  unfolding column_feats
  column_feats-IsTyped type rows [] feats h = h
  column_feats-IsTyped type rows ((name, column) ∷ columns) feats h =
      elim (Bool-cases (is_reserved name reserved)) [
        | inl t ↦ rw t (column_feats-IsTyped type rows columns feats h)
        | inr t ↦
            rw t (column_feats-IsTyped type rows columns _ (IsTyped-assign type name _ feats h))
      ]

  -- Each name has its type in front of a slash, and is there once.
  pub part_feats-IsTyped :
      (num_parts : ℕ) (reshuffle several : Bool) (sim_nid : List ℕ) (part : Part)
      (frames : List (Frame V)) (feats : List (Str × List V))
      → IsTyped feats
      → IsTyped (part_feats b reserved num_parts reshuffle several sim_nid part frames feats)
  unfolding part_feats
  part_feats-IsTyped num_parts reshuffle several sim_nid part [] feats h = h
  part_feats-IsTyped num_parts reshuffle several sim_nid part (frame ∷ frames) feats h =
      part_feats-IsTyped num_parts reshuffle several sim_nid part frames _ (
        column_feats-IsTyped frame.name
          (local_ids b num_parts reshuffle several sim_nid part frame.id) frame.columns feats h)

-- No names.
pub nil-IsTyped : (V : Type 0) → IsTyped {T = List V} []
unfolding IsTyped Fresh
nil-IsTyped V = (tt, tt)
