-- ===== src/Partition/Features/Cuts.antt =====
-- srcChange/partition/aly_partition.py, `partition_graph`: the number of edge cuts that is printed.
use bear_rpc.Base.{
  ℕ, ◌+◌, ◌<◌, ◌≡◌, refl, sym, ap, ◌∙◌, subst, true, false, List, [], ◌∷◌, map, length, All, arith,
  ltb, lt→ltb, ◌==◌, ==_iff, if◌then◌else◌, ok, >>=-eq_ok, assert-eq_ok, ok-injective, ◌>>=◌, pos,
  diff,
}
use bear_rpc.Partition.Backend.{Backend, IsBackend}
use bear_rpc.Partition.Maps.{
  Ids, Kind, inner_mask, first, last, entry, entries, ranges_of, range_of, type_ranges, id_maps,
}
use bear_rpc.Partition.Maps.Tiles.{sizes}
use bear_rpc.Partition.Maps.Owners.{length-select, last-sums}
use bear_rpc.Partition.Features.{Part, local_ids, inner_edges, tot_num_inner_edges, num_cuts}

module _ (b : Backend) (lawful : IsBackend b) (order : List ℕ → List ℕ) (type_id : ℕ) where
  entry_size :
      (part : Ids) (e : ℕ × (ℕ × ℕ))
      → entry b order type_id part ≡ ok e
      → e.0 ≡ b.sum (inner_mask part type_id)
  unfolding entry
  entry_size part e h =
      let mask = inner_mask part type_id in
      let inner_ids = order (b.boolean_mask part.nid mask) in
      let (start, _, h₁) = >>=-eq_ok (first inner_ids) _ h in
      let (end, _, h₂) = >>=-eq_ok (last inner_ids) _ h₁ in
      ap (λ q. q.0) (sym (ok-injective (b.sum mask, (start, end + 1)) e h₂))

  -- The sizes that are stored are the numbers of the IDs that are picked.
  sizes_lem :
      (num_parts : ℕ) (sim_eid : List ℕ) (parts : List Part) (es : List (ℕ × (ℕ × ℕ)))
      → 1 < num_parts
      → All (λ part. length part.orig_id ≡ length (inner_mask part.ids type_id)) parts
      → entries b order type_id (map (λ part. part.ids) parts) ≡ ok es
      → tot_num_inner_edges b num_parts true false sim_eid (type_id ∷ []) parts ≡ sizes es
  unfolding entries tot_num_inner_edges inner_edges local_ids sizes
  sizes_lem num_parts sim_eid [] es many columns h =
      subst (λ l. 0 ≡ sizes l) (ok-injective [] es h) refl
  sizes_lem num_parts sim_eid (part ∷ parts) es many (c, columns) h =
      let mask = inner_mask part.ids type_id in
      let (e, one, h₁) = >>=-eq_ok (entry b order type_id part.ids) _ h in
      let (rest, more, h₂) =
        >>=-eq_ok (entries b order type_id (map (λ part. part.ids) parts)) _ h₁ in
      let counted : length (b.boolean_mask part.orig_id mask) ≡ e.0 =
        ap length (lawful.masked part.orig_id mask c)
        ∙ length-select part.orig_id mask c
        ∙ sym (lawful.summed mask)
        ∙ sym (entry_size part.ids e one) in
      let all_counted = sizes_lem num_parts sim_eid parts rest many columns more in
      subst
        (λ l.
          tot_num_inner_edges b num_parts true false sim_eid (type_id ∷ []) (part ∷ parts)
          ≡ sizes l)
        (ok-injective (e ∷ rest) es h₂) (rw (lt→ltb 1 num_parts many) (omega arith))

pub ranges_of-sizes :
    {K : Type 0} (b : Backend) (order : List ℕ → List ℕ) (kind : Kind K) (parts : List Ids)
    (ranges : List (ℕ × ℕ))
    → IsBackend b
    → ranges_of b order kind parts ≡ ok ranges
    → (es : List (ℕ × (ℕ × ℕ))) × (entries b order kind.id parts ≡ ok es) × (sizes es ≡ kind.number)
unfolding ranges_of
ranges_of-sizes b order kind parts ranges lawful h =
    let (es, made, h₁) = >>=-eq_ok (entries b order kind.id parts) _ h in
    let (t, summed, h₂) = >>=-eq_ok (last (b.cumsum (map (λ (n, _). n) es))) _ h₁ in
    let (full, _) = assert-eq_ok (t == kind.number) "" _ h₂ in
    let summed_up =
      last-sums 0 es t (ap last (sym (lawful.cumulated (map (λ (n, _). n) es))) ∙ summed) in
    let as_many = (==_iff t kind.number).0 full in (es, made, omega arith)

diff_self : (n : ℕ) → diff n n ≡ pos 0
diff_self n = ground arith

-- For a reshuffled graph of one edge type in several parts: if the checks of the maps do not fail, the
-- number of edge cuts that is printed is 0, whatever the partition is, since the inner edges that are
-- taken from the number of edges are as many as this number.
pub num_cuts-id_maps :
    {N E : Type 0} (b : Backend) (np_sort : List ℕ → List ℕ) (num_parts : ℕ)
    (ntypes : List (Kind N)) (kind : Kind E) (nodes : List Ids) (parts : List Part)
    (sim_eid : List ℕ) (maps : List (N × List (ℕ × ℕ)) × List (E × List (ℕ × ℕ)))
    → IsBackend b
    → 1 < num_parts
    → All (λ part. length part.orig_id ≡ length (inner_mask part.ids kind.id)) parts
    → id_maps b np_sort num_parts ntypes (kind ∷ []) nodes (map (λ part. part.ids) parts) ≡ ok maps
    → num_cuts num_parts kind.number
        (tot_num_inner_edges b num_parts true false sim_eid (kind.id ∷ []) parts)
      ≡ pos 0
unfolding id_maps type_ranges num_cuts
num_cuts-id_maps b np_sort num_parts ntypes kind nodes parts sim_eid maps lawful many columns h =
    let edges = map (λ part. part.ids) parts in
    let (node_map, _, h₁) = >>=-eq_ok (type_ranges b (λ ids. ids) num_parts nodes ntypes) _ h in
    let (edge_map, made, _) = >>=-eq_ok (type_ranges b np_sort num_parts edges (kind ∷ [])) _ h₁ in
    let (ranges, stored, _) =
      >>=-eq_ok
        (if ltb 1 num_parts
          then ranges_of b np_sort kind edges
          else (first edges >>= (λ part. range_of b kind part)))
        _ made in
    let several : ltb 1 num_parts ≡ true = lt→ltb 1 num_parts many in
    let (es, entered, whole) =
      ranges_of-sizes b np_sort kind edges ranges lawful (sym (rw several refl) ∙ stored) in
    let all_edges =
      sizes_lem b lawful np_sort kind.id num_parts sim_eid parts es many columns entered in
    let not_one : (num_parts == 1) ≡ false = ground arith in
    rw (not_one, all_edges, whole) (diff_self kind.number)
