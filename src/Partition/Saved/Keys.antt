-- ===== src/Partition/Saved/Keys.antt =====
-- srcChange/partition/aly_partition.py: the keys of the stored maps are the types of the graph.
use bear_rpc.Base.{
  ℕ, ◌≡◌, ◌≢◌, refl, sym, ap, ap₂, ◌∙◌, subst, Bool, true, false, List, [], ◌∷◌, ◌++◌, map, ltb,
  if◌then◌else◌, All, inl, inr, ok, assert-eq_ok, >>=-eq_ok, ok-injective, ◌>>=◌, ◌==◌, ◌⊎◌,
}
use bear_rpc.Base.Dict.{member, Fresh}
use bear_rpc.Partition.Backend.{Backend, IsBackend, sums}
use bear_rpc.Partition.Maps.{
  Ids, Kind, first, last, entry, entries, ranges_of, range_of, type_ranges,
}
use bear_rpc.Partition.Config.{EdgeType, same_etype, Formats}
use bear_rpc.Partition.Config.Items.{Inverts, IsEtypes}
use bear_rpc.Partition.Book.Loaded.{HasRanges, KeysIn}
use bear_rpc.Partition.Saved.{stored, type_ids}

-- The same keys in the same order.
unfoldable pub SameKeys : {K V W : Type 0} → List (K × V) → List (K × W) → Type 0
SameKeys [] [] = Unit
SameKeys [] (b ∷ ys) = ⊥
SameKeys (a ∷ xs) [] = ⊥
SameKeys ((k, _) ∷ xs) ((k', _) ∷ ys) = (k ≡ k') × SameKeys xs ys

module _ {K V W : Type 0} (same : K → K → Bool) where
  member_keys :
      (key : K) (xs : List (K × V)) (ys : List (K × W))
      → SameKeys xs ys
      → member same key xs ≡ member same key ys
  unfolding member SameKeys
  member_keys key [] [] h = refl
  member_keys key [] (b ∷ ys) h = absurd h
  member_keys key (a ∷ xs) [] h = absurd h
  member_keys key ((k, _) ∷ xs) ((k', _) ∷ ys) (e, h) =
      ap₂ (λ c t. if same c key then true else t) e (member_keys key xs ys h)

  pub keys-append :
      (xs : List (K × V)) (ys : List (K × W)) (k k' : K) (v : V) (w : W)
      → SameKeys xs ys
      → k ≡ k'
      → SameKeys (xs ++ (k, v) ∷ []) (ys ++ (k', w) ∷ [])
  unfolding SameKeys
  keys-append [] [] k k' v w h e = (e, tt)
  keys-append [] (b ∷ ys) k k' v w h e = absurd h
  keys-append (a ∷ xs) [] k k' v w h e = absurd h
  keys-append ((c, _) ∷ xs) ((c', _) ∷ ys) k k' v w (q, h) e = (q, keys-append xs ys k k' v w h e)

  pub Fresh-SameKeys :
      (xs before : List (K × V)) (ys before' : List (K × W))
      → SameKeys xs ys
      → SameKeys before before'
      → Fresh same xs before
      → Fresh same ys before'
  unfolding Fresh SameKeys
  Fresh-SameKeys [] before [] before' h hb f = tt
  Fresh-SameKeys [] before (b ∷ ys) before' h hb f = absurd h
  Fresh-SameKeys (a ∷ xs) before [] before' h hb f = absurd h
  Fresh-SameKeys ((k, v) ∷ xs) before ((k', w) ∷ ys) before' (e, h) hb (new, f) = (
    ap (λ c. member same c before') (sym e) ∙ sym (member_keys k before before' hb) ∙ new,
    Fresh-SameKeys xs (before ++ (k, v) ∷ []) ys (before' ++ (k', w) ∷ []) h
        (keys-append before before' k k' v w hb e) f,
  )

  All-SameKeys :
      (P : K → Type 0) (xs : List (K × V)) (ys : List (K × W))
      → SameKeys xs ys
      → All (λ (k, _). P k) xs
      → All (λ (k, _). P k) ys
  unfolding SameKeys
  All-SameKeys P [] [] h p = tt
  All-SameKeys P [] (b ∷ ys) h p = absurd h
  All-SameKeys P (a ∷ xs) [] h p = absurd h
  All-SameKeys P ((k, _) ∷ xs) ((k', _) ∷ ys) (e, h) (p, ps) =
      (subst P e p, All-SameKeys P xs ys h ps)

found_either : {u : Bool} (t : Bool) → u ≡ true → (if t then true else u) ≡ true
found_either true h = refl
found_either false h = h

module _ {K V : Type 0} (same : K → K → Bool) where
  member_weaken :
      (xs ys : List (K × V)) (k : K)
      → All (λ (c, _). member same c xs ≡ true) ys
      → All (λ (c, _). (if same k c then true else member same c xs) ≡ true) ys
  member_weaken xs [] k h = tt
  member_weaken xs ((c, _) ∷ ys) k (h, hs) = (found_either (same k c) h, member_weaken xs ys k hs)

  -- A key of a list is found in it, where the equality holds of the same keys.
  self_member :
      (xs : List (K × V)) → ((k : K) → same k k ≡ true) → All (λ (k, _). member same k xs ≡ true) xs
  unfolding member
  self_member [] same_refl = tt
  self_member ((k, v) ∷ xs) same_refl =
      (rw (same_refl k) refl, member_weaken xs xs k (self_member xs same_refl))

pub SameKeys-KeysIn :
    {K : Type 0} (same : K → K → Bool) (types : List (K × ℕ)) (maps : List (K × List (ℕ × ℕ)))
    → ((k : K) → same k k ≡ true)
    → SameKeys types maps
    → KeysIn same types maps
unfolding KeysIn
SameKeys-KeysIn same types maps same_refl h =
    All-SameKeys same (λ k. member same k types ≡ true) types maps h
      (self_member same types same_refl)

pub SameKeys-stored :
    {K V : Type 0} (xs : List (K × V)) (maps : List (K × List (ℕ × ℕ)))
    → SameKeys xs maps
    → SameKeys xs (stored maps)
unfolding SameKeys stored
SameKeys-stored [] [] h = tt
SameKeys-stored [] (b ∷ ys) h = absurd h
SameKeys-stored (a ∷ xs) [] h = absurd h
SameKeys-stored ((k, _) ∷ xs) ((k', _) ∷ ys) (e, h) = (e, SameKeys-stored xs ys h)

-- A dictionary with the keys of a dictionary of edge types is one.
pub IsEtypes-SameKeys :
    {V W : Type 0} (f : Formats) (xs : List (EdgeType × V)) (ys : List (EdgeType × W))
    → SameKeys xs ys
    → IsEtypes f xs
    → IsEtypes f ys
unfolding IsEtypes SameKeys
IsEtypes-SameKeys f xs ys h (inverts, fresh) = (
  All-SameKeys same_etype (Inverts f) xs ys h inverts,
  Fresh-SameKeys same_etype xs [] ys [] h tt fresh,
)

either_branch : {A : Type 0} {x y r : A} (t : Bool) → (if t then x else y) ≡ r → (x ≡ r) ⊎ (y ≡ r)
either_branch true h = inl h
either_branch false h = inr h

module _ (b : Backend) (lawful : IsBackend b) (order : List ℕ → List ℕ) {K : Type 0} where
  ranges_of-some :
      (kind : Kind K) (parts : List Ids) (ranges : List (ℕ × ℕ))
      → ranges_of b order kind parts ≡ ok ranges
      → ranges ≢ []
  unfolding ranges_of
  ranges_of-some kind parts ranges h none_left =
      let (es, _, h₁) = >>=-eq_ok (entries b order kind.id parts) _ h in
      let (t, summed, h₂) = >>=-eq_ok (last (b.cumsum (map (λ (n, _). n) es))) _ h₁ in
      let (_, h₃) = assert-eq_ok (t == kind.number) "" _ h₂ in
      no_total es t (ap last (sym (lawful.cumulated (map (λ (n, _). n) es))) ∙ summed)
        (ok-injective (map (λ (_, range). range) es) ranges h₃ ∙ none_left)
    where
      no_total :
          (es : List (ℕ × (ℕ × ℕ))) (t : ℕ)
          → last (sums 0 (map (λ (n, _). n) es)) ≡ ok t
          → map (λ (_, range). range) es ≢ []
      no_total [] t h e = unfold last in cc
      no_total (x ∷ es) t h e = cc

  range_of-some :
      (kind : Kind K) (part : Ids) (ranges : List (ℕ × ℕ))
      → range_of b kind part ≡ ok ranges
      → ranges ≢ []
  unfolding range_of
  range_of-some kind part ranges h none_left =
      let (e, _, h₁) = >>=-eq_ok (entry b (λ ids. ids) kind.id part) _ h in
      let same = ok-injective (e.1 ∷ []) ranges h₁ in cc

  either_ranges :
      (num_parts : ℕ) (parts : List Ids) (kind : Kind K) (ranges : List (ℕ × ℕ))
      → (if ltb 1 num_parts
          then ranges_of b order kind parts
          else (first parts >>= (λ part. range_of b kind part)))
        ≡ ok ranges
      → ranges ≢ []
  either_ranges num_parts parts kind ranges h = elim (either_branch (ltb 1 num_parts) h) [
    | inl made ↦ ranges_of-some kind parts ranges made
    | inr one ↦
        let (part, _, made) = >>=-eq_ok (first parts) _ one in range_of-some kind part ranges made
  ]

  -- The maps have the types of the graph as their keys, and a range for each.
  pub type_ranges_lem :
      (num_parts : ℕ) (parts : List Ids) (kinds : List (Kind K)) (maps : List (K × List (ℕ × ℕ)))
      → type_ranges b order num_parts parts kinds ≡ ok maps
      → SameKeys (type_ids kinds) maps × HasRanges maps
  unfolding type_ranges SameKeys HasRanges type_ids
  type_ranges_lem num_parts parts [] maps h =
      subst (λ m. SameKeys (type_ids {K = K} []) m × HasRanges m) (ok-injective [] maps h) (tt, tt)
  type_ranges_lem num_parts parts (kind ∷ kinds) maps h =
      let (ranges, made, h₁) =
        >>=-eq_ok
          (if ltb 1 num_parts
            then ranges_of b order kind parts
            else (first parts >>= (λ part. range_of b kind part)))
          _ h in
      let (rest, more, h₂) = >>=-eq_ok (type_ranges b order num_parts parts kinds) _ h₁ in
      let (keys, have) = type_ranges_lem num_parts parts kinds rest more in
      subst (λ m. SameKeys (type_ids (kind ∷ kinds)) m × HasRanges m)
        (ok-injective ((kind.name, ranges) ∷ rest) maps h₂)
        ((refl, keys), (either_ranges num_parts parts kind ranges made, have))
