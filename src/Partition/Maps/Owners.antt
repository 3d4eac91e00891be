-- ===== src/Partition/Maps/Owners.antt =====
-- srcChange/partition/aly_partition.py: the part that holds a node by the stored node map is the part
-- in which the node is an inner one.
use mathlib.Core.Path.{ap₂}
use mathlib.Core.Option.{some-injective}
use bear_rpc.Base.{
  ◌-◌, ℕ, zero, suc, ◌+◌, ◌≤◌, ◌<◌, ◌≡◌, refl, sym, ap, ◌∙◌, subst, Bool, true, false, some, List,
  [], ◌∷◌, map, arith, length, get_elem?, ltb, ◌==◌, ==_iff, if◌then◌else◌, All, Result, ok,
  assert-eq_ok, >>=-eq_ok, ok-injective, ◌>>=◌,
}
use bear_rpc.Partition.Backend.{Backend, IsBackend, select, count, sums}
use bear_rpc.Partition.Maps.{
  Ids, Kind, inner_mask, first, last, flatten, ascending, entry, entries, ranges_of, range_of,
  type_ranges, check_sorted, id_maps,
}
use bear_rpc.Partition.Maps.Tiles.{Tiles, Fits, sizes, tiles_lem, Tiles-Holds}
use bear_rpc.Partition.Parts.Ranges.{Holds}
use bear_rpc.Partition.Maps.Consecutive.{
  consecutive, length-consecutive, first-consecutive, last-consecutive, get_elem?-consecutive,
}

-- The inner IDs of a part are consecutive and below n, as `partition_graph_with_halo` documents for a
-- reshuffled graph; the columns of the part have one length.
pub record IsReshuffled (n type_id : ℕ) (part : Ids) : Type 0 where
  pub start : ℕ
  pub size : ℕ
  pub columns : length part.nid ≡ length (inner_mask part type_id)
  pub inner_ids : select part.nid (inner_mask part type_id) ≡ consecutive start size
  pub below : start + size ≤ n

pub length-select {ℓ} :
    {A : Type ℓ} (xs : List A) (mask : List Bool)
    → length xs ≡ length mask
    → length (select xs mask) ≡ count mask
length-select [] [] h = refl
length-select [] (m ∷ mask) h = absurd (omega arith)
length-select (x ∷ xs) [] h = refl
length-select (x ∷ xs) (true ∷ mask) h = ap suc (length-select xs mask (omega arith))
length-select (x ∷ xs) (false ∷ mask) h = length-select xs mask (omega arith)

-- What is stored for a part: the size and the range of its inner IDs.
Stored : ℕ → Ids → ℕ × (ℕ × ℕ) → Type 0
Stored type_id part (size, (start, end)) =
    (select part.nid (inner_mask part type_id) ≡ consecutive start size) × (start + size ≡ end)

-- The node is an inner one of the part.
pub IsInner : ℕ → Ids → ℕ → Type 0
IsInner type_id part v =
    (k : ℕ) × (get_elem? (select part.nid (inner_mask part type_id)) k ≡ some v)

-- The end of `entry`, for the size and the inner IDs.
pack : ℕ → List ℕ → Result (ℕ × (ℕ × ℕ))
pack size inner_ids = do start ← first inner_ids; end ← last inner_ids; ok (size, (start, end + 1))

pack-consecutive :
    (start size : ℕ) (e : ℕ × (ℕ × ℕ))
    → pack size (consecutive start size) ≡ ok e
    → (size, (start, start + size)) ≡ e
unfolding pack
pack-consecutive start zero e h = unfold first consecutive in cc
pack-consecutive start (suc size) e h =
    ap (λ top. (suc size, (start, top))) (omega arith)
    ∙ ok-injective (suc size, (start, start + size + 1)) e
        (sym (rw (first-consecutive start size, last-consecutive start size) refl) ∙ h)

module _ (b : Backend) (lawful : IsBackend b) (n type_id : ℕ) where
  entry_lem :
      (part : Ids) (e : ℕ × (ℕ × ℕ))
      → IsReshuffled n type_id part
      → entry b (λ ids. ids) type_id part ≡ ok e
      → Fits n e × Stored type_id part e
  unfolding entry Fits Stored pack
  entry_lem part e r h =
      let mask = inner_mask part type_id in
      let size : b.sum mask ≡ r.size =
        lawful.summed mask
        ∙ sym (length-select part.nid mask r.columns)
        ∙ ap length r.inner_ids
        ∙ length-consecutive r.start r.size in
      let ids : b.boolean_mask part.nid mask ≡ consecutive r.start r.size =
        lawful.masked part.nid mask r.columns ∙ r.inner_ids in
      let packed : pack r.size (consecutive r.start r.size) ≡ ok e = sym (ap₂ pack size ids) ∙ h in
      subst (λ (e' : ℕ × (ℕ × ℕ)). Fits n e' × Stored type_id part e')
        (pack-consecutive r.start r.size e packed) ((refl, r.below), (r.inner_ids, refl))

  -- The parts with what is stored for them.
  AllStored : List Ids → List (ℕ × (ℕ × ℕ)) → Type 0
  AllStored [] [] = Unit
  AllStored [] (e ∷ es) = ⊥
  AllStored (part ∷ parts) [] = ⊥
  AllStored (part ∷ parts) (e ∷ es) = Stored type_id part e × AllStored parts es

  entries_lem :
      (parts : List Ids) (es : List (ℕ × (ℕ × ℕ)))
      → All (IsReshuffled n type_id) parts
      → entries b (λ ids. ids) type_id parts ≡ ok es
      → All (Fits n) es × AllStored parts es
  unfolding entries AllStored
  entries_lem [] es r h = subst (λ l. All (Fits n) l × AllStored [] l) (ok-injective _ _ h) (tt, tt)
  entries_lem (part ∷ parts) es (r, rs) h =
      let (e, one, h₁) = >>=-eq_ok (entry b (λ ids. ids) type_id part) _ h in
      let (rest, more, h₂) = >>=-eq_ok (entries b (λ ids. ids) type_id parts) _ h₁ in
      let (fits, stored) = entry_lem part e r one in
      let (all_fit, all_stored) = entries_lem parts rest rs more in
      subst (λ l. All (Fits n) l × AllStored (part ∷ parts) l) (ok-injective (e ∷ rest) es h₂)
        ((fits, all_fit), (stored, all_stored))

  length-AllStored :
      (parts : List Ids) (es : List (ℕ × (ℕ × ℕ))) → AllStored parts es → length es ≡ length parts
  unfolding AllStored
  length-AllStored [] [] stored = refl
  length-AllStored [] (e ∷ es) stored = absurd stored
  length-AllStored (part ∷ parts) [] stored = absurd stored
  length-AllStored (part ∷ parts) (e ∷ es) (_, stored) = ap suc (length-AllStored parts es stored)

  held-IsInner :
      (parts : List Ids) (es : List (ℕ × (ℕ × ℕ))) (i v : ℕ)
      → AllStored parts es
      → Holds (map (λ (_, range). range) es) i v
      → (part : Ids) × (get_elem? parts i ≡ some part) × IsInner type_id part v
  unfolding AllStored Stored Holds IsInner
  held-IsInner [] [] i v stored (r, at, _, _) = cc
  held-IsInner [] (e ∷ es) i v stored held = absurd stored
  held-IsInner (part ∷ parts) [] i v stored held = absurd stored
  held-IsInner (part ∷ parts) ((size, (start, end)) ∷ es) zero v ((ids, whole), _)
        (r, at, lower, upper) =
      let same : (start, end) ≡ r = some-injective (start, end) r at in
      let low : start ≤ v = subst (λ q. q.0 ≤ v) (sym same) lower in
      let high : v < end = subst (λ q. v < q.1) (sym same) upper in
      (
        part,
        refl,
        (
          v - start,
          ap (λ l. get_elem? l (v - start)) ids
              ∙ get_elem?-consecutive start size (v - start) (omega arith)
              ∙ ap some (omega arith),
        ),
      )
  held-IsInner (part ∷ parts) (e ∷ es) (suc i) v (_, stored) held =
      held-IsInner parts es i v stored held

length-ranges : (es : List (ℕ × (ℕ × ℕ))) → length (map (λ (_, range). range) es) ≡ length es
length-ranges [] = refl
length-ranges (e ∷ es) = ap suc (length-ranges es)

pub last-sums :
    (s : ℕ) (es : List (ℕ × (ℕ × ℕ))) (t : ℕ)
    → last (sums s (map (λ (n, _). n) es)) ≡ ok t
    → s + sizes es ≡ t
unfolding last sizes
last-sums s [] t h = cc
last-sums s ((size, _) ∷ []) t h = ground arith
last-sums s ((size, _) ∷ (size', r) ∷ es) t h =
    omega (arith, last-sums (s + size) ((size', r) ∷ es) t h)

module _ (b : Backend) (lawful : IsBackend b) {N : Type 0} (kind : Kind N) (parts : List Ids) where
  -- The ranges of the nodes of the one type, once they are checked.
  ranges_of_lem :
      (ranges : List (ℕ × ℕ))
      → All (IsReshuffled kind.number kind.id) parts
      → ranges_of b (λ ids. ids) kind parts ≡ ok ranges
      → ascending (flatten ranges) ≡ true
      → Tiles 0 ranges kind.number
        × (length ranges ≡ length parts)
        × ((i v : ℕ)
            → Holds ranges i v
            → (part : Ids) × (get_elem? parts i ≡ some part) × IsInner kind.id part v)
  unfolding ranges_of
  ranges_of_lem ranges r h up =
      let (es, stored, h₁) = >>=-eq_ok (entries b (λ ids. ids) kind.id parts) _ h in
      let (t, summed, h₂) = >>=-eq_ok (last (b.cumsum (map (λ (n, _). n) es))) _ h₁ in
      let (full, h₃) = assert-eq_ok (t == kind.number) "" _ h₂ in
      let same = ok-injective (map (λ (_, range). range) es) ranges h₃ in
      let (fits, all_stored) = entries_lem b lawful kind.number kind.id parts es r stored in
      let cumulated : last (sums 0 (map (λ (n, _). n) es)) ≡ ok t =
        ap last (sym (lawful.cumulated (map (λ (n, _). n) es))) ∙ summed in
      let summed_up = last-sums 0 es t cumulated in
      let as_many = (==_iff t kind.number).0 full in
      let size : sizes es ≡ kind.number = omega arith in
      (
        subst (λ rs. Tiles 0 rs kind.number) same
            (tiles_lem kind.number es fits (ap (λ rs. ascending (flatten rs)) same ∙ up) size),
        ap length (sym same)
            ∙ length-ranges es
            ∙ length-AllStored b lawful kind.number kind.id parts es all_stored,
        λ i v held.
            held-IsInner b lawful kind.number kind.id parts es i v all_stored
              (subst (λ rs. Holds rs i v) (sym same) held),
      )

type_ranges-one :
    {N : Type 0} (b : Backend) (num_parts : ℕ) (parts : List Ids) (kind : Kind N)
    (node_map : List (N × List (ℕ × ℕ)))
    → 1 < num_parts
    → type_ranges b (λ ids. ids) num_parts parts (kind ∷ []) ≡ ok node_map
    → (ranges : List (ℕ × ℕ)) × (ranges_of b (λ ids. ids) kind parts ≡ ok ranges)
      × ((kind.name, ranges) ∷ [] ≡ node_map)
unfolding type_ranges
type_ranges-one b num_parts parts kind node_map many h =
    let several : ltb 1 num_parts ≡ true = ground arith in
    let (ranges, made, h₁) =
      >>=-eq_ok
        (if ltb 1 num_parts
          then ranges_of b (λ ids. ids) kind parts
          else (first parts >>= (λ part. range_of b kind part)))
        _ h in
    (ranges, sym (rw several refl) ∙ made, ok-injective _ _ h₁)

-- For a graph of one node type in several parts that are reshuffled: if the checks of the maps do not
-- fail, the stored node map has a range for each part, holds each node below the number of nodes in exactly one range, and the
-- node is an inner one of the part with this index.
pub id_maps_lem :
    {N E : Type 0} (b : Backend) (np_sort : List ℕ → List ℕ) (num_parts : ℕ) (kind : Kind N)
    (etypes : List (Kind E)) (nodes edges : List Ids) (node_map : List (N × List (ℕ × ℕ)))
    (edge_map : List (E × List (ℕ × ℕ))) (v : ℕ)
    → IsBackend b
    → 1 < num_parts
    → All (IsReshuffled kind.number kind.id) nodes
    → id_maps b np_sort num_parts (kind ∷ []) etypes nodes edges ≡ ok (node_map, edge_map)
    → v < kind.number
    → (ranges : List (ℕ × ℕ)) × (node_map ≡ (kind.name, ranges) ∷ [])
      × (length ranges ≡ length nodes)
      × (i : ℕ) × Holds ranges i v
      × ((j : ℕ) → Holds ranges j v → j ≡ i)
      × ((part : Ids) × (get_elem? nodes i ≡ some part) × IsInner kind.id part v)
unfolding id_maps check_sorted
id_maps_lem b np_sort num_parts kind etypes nodes edges node_map edge_map v lawful many r h below =
    let (made, one, h₁) = >>=-eq_ok (type_ranges b (λ ids. ids) num_parts nodes (kind ∷ [])) _ h in
    let (edge_made, _, h₂) = >>=-eq_ok (type_ranges b np_sort num_parts edges etypes) _ h₁ in
    let (_, sorted, h₃) = >>=-eq_ok (check_sorted made) _ h₂ in
    let (_, _, h₄) = >>=-eq_ok (check_sorted edge_made) _ h₃ in
    let (ranges, stored, shape) = type_ranges-one b num_parts nodes kind made many one in
    let (up, _) =
      assert-eq_ok (ascending (flatten ranges)) "" (ok tt) (ap check_sorted shape ∙ sorted) in
    let (tiles, as_many, owned) = ranges_of_lem b lawful kind nodes ranges r stored up in
    let (i, held, only) = Tiles-Holds ranges kind.number v tiles below in
    (
      ranges,
      sym (shape ∙ ap (λ q. q.0) (ok-injective _ _ h₄)),
      as_many,
      i,
      held,
      only,
      owned i v held,
    )
