-- ===== src/Partition/Features/Rows.antt =====
-- srcChange/partition/aly_partition.py, `partition_graph`: the rows of a column that the parts store.
use mathlib.Core.List
use mathlib.Core.List.Perm
use mathlib.Core.List.{Perm, map-append}
use bear_rpc.Base.{
  ℕ, zero, suc, ◌+◌, ◌<◌, ◌≡◌, refl, sym, ap, ap₂, ◌∙◌, subst, true, false, Option, some, List, [],
  ◌∷◌, ◌++◌, map, length, get_elem?, All, arith, lt→ltb,
}
use bear_rpc.Base.Dict.{find}
use bear_rpc.Text.{Str, codes, str_eq}
use bear_rpc.Partition.Backend.{Backend, IsBackend, select}
use bear_rpc.Partition.Maps.{inner_mask}
use bear_rpc.Partition.Maps.Consecutive.{consecutive}
use bear_rpc.Partition.Features.{Part, Frame, local_ids, is_reserved, part_feats}
use bear_rpc.Partition.Features.Columns.{column_feats_lem}

abbrev pub concat : {A : Type 0} → List (List A) → List A
concat [] = []
concat (xs ∷ xss) = xs ++ concat xss

filter_map-some :
    {A : Type 0} (xs : List A) → List.filter_map (λ (o : Option A). o) (map some xs) ≡ xs
unfolding List.filter_map
filter_map-some [] = refl
filter_map-some (x ∷ xs) = ap (λ l. x ∷ l) (filter_map-some xs)

module _ {V : Type 0} where
  looked_up :
      (column : List V) (i : ℕ) → i < length column → (v : V) × (get_elem? column i ≡ some v)
  looked_up [] i h = absurd (omega arith)
  looked_up (v ∷ column) zero h = (v, refl)
  looked_up (v ∷ column) (suc i) h = looked_up column i (omega arith)

  rows_lem :
      (column : List V) (idx : List ℕ)
      → All (λ i. i < length column) idx
      → (rows : List V) × (map (get_elem? column) idx ≡ map some rows)
  rows_lem column [] h = ([], refl)
  rows_lem column (i ∷ idx) (h, hs) =
      let (v, at) = looked_up column i h in
      let (rows, found) = rows_lem column idx hs in (v ∷ rows, ap₂ (λ o l. o ∷ l) at found)

  map-consecutive_behind :
      (v : V) (column : List V) (s t n : ℕ)
      → t ≡ suc s
      → map (get_elem? (v ∷ column)) (consecutive t n) ≡ map (get_elem? column) (consecutive s n)
  unfolding consecutive
  map-consecutive_behind v column s t zero e = refl
  map-consecutive_behind v column s t (suc n) e =
      ap₂ (λ o l. o ∷ l) (ap (get_elem? (v ∷ column)) e)
        (map-consecutive_behind v column (s + 1) (t + 1) n (omega arith))

  map-consecutive :
      (column : List V) → map (get_elem? column) (consecutive 0 (length column)) ≡ map some column
  unfolding consecutive
  map-consecutive [] = refl
  map-consecutive (v ∷ column) =
      ap (λ l. some v ∷ l)
        (map-consecutive_behind v column 0 (0 + 1) (length column) (omega arith)
          ∙ map-consecutive column)

  -- Rows that are looked up at all numbers of the rows, in some order.
  Perm-looked_up :
      (column : List V) (idx : List ℕ) (rows : List V)
      → map (get_elem? column) idx ≡ map some rows
      → Perm idx (consecutive 0 (length column))
      → Perm rows column
  Perm-looked_up column idx rows found order =
      let options : Perm (map some rows) (map some column) =
        subst (λ l. Perm l (map some column)) found
          (subst (λ l. Perm (map (get_elem? column) idx) l) (map-consecutive column)
            (Perm.map (get_elem? column) order)) in
      subst (λ l. Perm l column) (filter_map-some rows)
        (subst (λ l. Perm (List.filter_map (λ (o : Option V). o) (map some rows)) l)
          (filter_map-some column) (Perm.filter_map (λ (o : Option V). o) options))

-- The original IDs of the inner nodes or edges of a part.
unfoldable pub inner_orig : ℕ → Part → List ℕ
inner_orig type_id part = select part.orig_id (inner_mask part.ids type_id)

-- Each of n nodes or edges is an inner one of exactly one part, as the partition documents; the
-- columns of a part have one length.
pub record IsPartitioned (n type_id : ℕ) (parts : List Part) : Type 0 where
  pub columns : All (λ part. length part.orig_id ≡ length (inner_mask part.ids type_id)) parts
  pub below : All (λ part. All (λ i. i < n) (inner_orig type_id part)) parts
  pub once : Perm (concat (map (inner_orig type_id) parts)) (consecutive 0 n)

module _ {V : Type 0} (b : Backend) (lawful : IsBackend b) (reserved : List Str) (num_parts : ℕ)
    (many : 1 < num_parts) (type : Str) (type_id : ℕ) (before after : List (Str × List V))
    (name : Str) (column : List V) (sim_nid : List ℕ) where
  -- The features of a part of a homogeneous graph.
  unfoldable pub feats_of : Part → List (Str × List V)
  feats_of part =
      part_feats b reserved num_parts true false sim_nid part
        (record { name = type; id = type_id; columns = before ++ (name, column) ∷ after } ∷ []) []

  pub feats_of_lem :
      (part : Part) (rows : List V)
      → is_reserved name reserved ≡ false
      → All (λ (n, _). str_eq n name ≡ false) after
      → length part.orig_id ≡ length (inner_mask part.ids type_id)
      → map (get_elem? column) (inner_orig type_id part) ≡ map some rows
      → find str_eq (type ++ (codes "/" ++ name)) (feats_of part) ≡ some rows
  unfolding feats_of part_feats local_ids inner_orig
  feats_of_lem part rows free last_one columns found =
      let picked = b.boolean_mask part.orig_id (inner_mask part.ids type_id) in
      let same : picked ≡ select part.orig_id (inner_mask part.ids type_id) =
        lawful.masked part.orig_id (inner_mask part.ids type_id) columns in
      rw (lt→ltb 1 num_parts many)
        (column_feats_lem b reserved type picked name column before after [] free last_one)
      ∙ ap (λ idx. some (b.gather_row column idx)) same
      ∙ ap some
          (lawful.gathered column (select part.orig_id (inner_mask part.ids type_id)) rows found)

  stored_rows :
      (parts : List Part)
      → is_reserved name reserved ≡ false
      → All (λ (n, _). str_eq n name ≡ false) after
      → All (λ part. length part.orig_id ≡ length (inner_mask part.ids type_id)) parts
      → All (λ part. All (λ i. i < length column) (inner_orig type_id part)) parts
      → (rows : List (List V)) × (map
            (λ part. find str_eq (type ++ (codes "/" ++ name)) (feats_of part))
            parts
          ≡ map some rows)
        × (map (get_elem? column) (concat (map (inner_orig type_id) parts))
            ≡ map some (concat rows))
  stored_rows [] free last_one columns below = ([], refl, refl)
  stored_rows (part ∷ parts) free last_one (c, columns) (below, more_below) =
      let (rows, found) = rows_lem column (inner_orig type_id part) below in
      let (more, stored, all_found) = stored_rows parts free last_one columns more_below in
      (
        rows ∷ more,
        ap₂ (λ o l. o ∷ l) (feats_of_lem part rows free last_one c found) stored,
        map-append (get_elem? column) (inner_orig type_id part)
              (concat (map (inner_orig type_id) parts))
            ∙ ap₂ (λ l l'. l ++ l') found all_found
            ∙ sym (map-append some rows (concat more)),
      )

-- A homogeneous graph that is reshuffled into several parts, where each node or edge is an inner one
-- of exactly one part: for a column whose name is not reserved and is not used twice, every part
-- stores a tensor under the type and the name, and together these have the rows of the column in
-- some order, none lost and none stored twice.
pub part_feats_lem :
    {V : Type 0} (b : Backend) (reserved : List Str) (num_parts : ℕ) (type : Str) (type_id : ℕ)
    (before after : List (Str × List V)) (name : Str) (column : List V) (sim_nid : List ℕ)
    (parts : List Part)
    → IsBackend b
    → 1 < num_parts
    → is_reserved name reserved ≡ false
    → All (λ (n, _). str_eq n name ≡ false) after
    → IsPartitioned (length column) type_id parts
    → let frame : Frame V = record {
      name = type;
      id = type_id;
      columns = before ++ (name, column) ∷ after;
    } in
      (rows : List (List V)) × (map
          (λ part.
            find str_eq
              (type ++ (codes "/" ++ name))
              (part_feats b reserved num_parts true false sim_nid part (frame ∷ []) []))
          parts
        ≡ map some rows)
      × Perm (concat rows) column
unfolding feats_of
part_feats_lem b reserved num_parts type type_id before after name column sim_nid parts lawful many
      free last_one split =
    let (rows, stored, found) =
      stored_rows b lawful reserved num_parts many type type_id before after name column sim_nid
        parts free last_one split.columns split.below in
    (
      rows,
      stored,
      Perm-looked_up column (concat (map (inner_orig type_id) parts)) (concat rows) found
          split.once,
    )
