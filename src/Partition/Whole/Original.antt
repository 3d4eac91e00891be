-- ===== src/Partition/Whole/Original.antt =====
-- srcChange/partition/aly_partition.py, `_get_orig_ids`: the original IDs of a graph with types.
use bear_rpc.Base.{
  ℕ, zero, suc, ◌<◌, ◌≡◌, ◌==◌, refl, sym, ap, ◌∙◌, subst, true, false, some, List, [], ◌∷◌, map,
  length, get_elem?, All,
}
use bear_rpc.Base.Arrays.{rows_at_indices, row_at_index, length-map}
use bear_rpc.Text.{Str}
use bear_rpc.Partition.Backend.{Backend, IsBackend}
use bear_rpc.Partition.Backend.Masks.{rank, get_elem?-select, get_elem?-equal}
use bear_rpc.Partition.Config.{EdgeType}
use bear_rpc.Partition.Maps.{Kind}
use bear_rpc.Partition.Graph.{Graph, SimGraph, is_homogeneous}
use bear_rpc.Partition.Splitting.{ids_by_type, pick_by_type, node_kinds, edge_kinds, get_orig_ids}

module _ (b : Backend) (lawful : IsBackend b) where
  -- The gathered rows are those of the column.
  gathered :
      (column idx : List ℕ)
      → All (λ i. i < length column) idx
      → (length (b.gather_row column idx) ≡ length idx)
        × ((j i : ℕ)
            → get_elem? idx j ≡ some i
            → get_elem? (b.gather_row column idx) j ≡ get_elem? column i)
  gathered column idx below =
      let (rows, found) = rows_at_indices column idx below in
      let same : b.gather_row column idx ≡ rows = lawful.gathered column idx rows found in
      (
        ap length same
            ∙ sym (length-map (λ r. some r) rows)
            ∙ ap length (sym found)
            ∙ length-map (get_elem? column) idx,
        λ j i at. ap (λ l. get_elem? l j) same ∙ row_at_index column idx rows j i found at,
      )

  pick_at :
      {K : Type 0} (kinds : List (Kind K)) (ids types : List ℕ) (i : ℕ) (kind : Kind K)
      → get_elem? kinds i ≡ some kind
      → get_elem? (pick_by_type b kinds ids types) i
        ≡ some (kind.name, b.boolean_mask ids (map (λ t. t == kind.id) types))
  unfolding pick_by_type
  pick_at [] ids types i kind at = cc
  pick_at (k ∷ kinds) ids types zero kind at =
      let same : k ≡ kind = cc in
      ap (λ (q : Kind _). some (q.name, b.boolean_mask ids (map (λ t. t == q.id) types))) same
  pick_at (k ∷ kinds) ids types (suc i) kind at = pick_at kinds ids types i kind at

  -- What is picked for a type, for the columns of the types and of the IDs by type.
  picked :
      {K : Type 0} (kinds : List (Kind K)) (type_column id_column orig : List ℕ) (i j o v : ℕ)
      (kind : Kind K)
      → length id_column ≡ length type_column
      → All (λ n. n < length type_column) orig
      → get_elem? kinds i ≡ some kind
      → get_elem? orig j ≡ some o
      → get_elem? type_column o ≡ some kind.id
      → get_elem? id_column o ≡ some v
      → let types = b.gather_row type_column orig in
        (ids : List ℕ) × (get_elem? (pick_by_type b kinds (b.gather_row id_column orig) types) i
          ≡ some (kind.name, ids))
        × (get_elem? ids (rank (map (λ t. t == kind.id) types) j) ≡ some v)
  picked kinds type_column id_column orig i j o v kind same below at new type id =
      let types = b.gather_row type_column orig in
      let rows = b.gather_row id_column orig in
      let mask = map (λ t. t == kind.id) types in
      let (types_length, types_at) = gathered type_column orig below in
      let (rows_length, rows_at) =
        gathered id_column orig (subst (λ n. All (λ k. k < n) orig) (sym same) below) in
      let lengths : length rows ≡ length mask =
        rows_length ∙ sym types_length ∙ sym (length-map (λ t. t == kind.id) types) in
      (
        b.boolean_mask rows mask,
        pick_at kinds rows types i kind at,
        ap (λ l. get_elem? l (rank mask j)) (lawful.masked rows mask lengths)
            ∙ get_elem?-select rows mask j
                (get_elem?-equal types kind.id j (types_at j o new ∙ type))
            ∙ rows_at j o new
            ∙ id,
      )

-- For a reshuffled graph with types the original IDs are given by type. Each node is found in the list
-- of its type, at the place that counts the nodes of its type with smaller new IDs, with the ID that
-- it has in its type; and so is each edge. It is supposed that the homogeneous graph has a type and an
-- ID for each node and each edge, and that the original IDs are those of its nodes and edges.
pub get_orig_ids_lem :
    {V : Type 0} (b : Backend) (g : Graph V) (sim_g : SimGraph) (orig_nids orig_eids : List ℕ)
    → IsBackend b
    → is_homogeneous g ≡ false
    → length sim_g.nid ≡ length sim_g.ntype
    → length sim_g.eid ≡ length sim_g.etype
    → All (λ n. n < length sim_g.ntype) orig_nids
    → All (λ e. e < length sim_g.etype) orig_eids
    → (nodes : List (Str × List ℕ)) × (edges : List (EdgeType × List ℕ)) × (get_orig_ids b g sim_g
          true orig_nids orig_eids
        ≡ ids_by_type nodes edges)
      × ((i j o v : ℕ) (kind : Kind Str)
          → get_elem? (node_kinds g) i ≡ some kind
          → get_elem? orig_nids j ≡ some o
          → get_elem? sim_g.ntype o ≡ some kind.id
          → get_elem? sim_g.nid o ≡ some v
          → (ids : List ℕ) × (get_elem? nodes i ≡ some (kind.name, ids))
            × (get_elem? ids (rank (map (λ t. t == kind.id) (b.gather_row sim_g.ntype orig_nids)) j)
                ≡ some v))
      × ((i j o v : ℕ) (kind : Kind EdgeType)
          → get_elem? (edge_kinds g) i ≡ some kind
          → get_elem? orig_eids j ≡ some o
          → get_elem? sim_g.etype o ≡ some kind.id
          → get_elem? sim_g.eid o ≡ some v
          → (ids : List ℕ) × (get_elem? edges i ≡ some (kind.name, ids))
            × (get_elem? ids (rank (map (λ t. t == kind.id) (b.gather_row sim_g.etype orig_eids)) j)
                ≡ some v))
unfolding get_orig_ids
get_orig_ids_lem b g sim_g orig_nids orig_eids lawful typed same_nodes same_edges nodes_below
      edges_below =
    (
      pick_by_type b (node_kinds g) (b.gather_row sim_g.nid orig_nids)
          (b.gather_row sim_g.ntype orig_nids),
      pick_by_type b (edge_kinds g) (b.gather_row sim_g.eid orig_eids)
          (b.gather_row sim_g.etype orig_eids),
      rw typed refl,
      λ i j o v kind at new type id.
          picked b lawful (node_kinds g) sim_g.ntype sim_g.nid orig_nids i j o v kind same_nodes
            nodes_below at new type id,
      λ i j o v kind at new type id.
          picked b lawful (edge_kinds g) sim_g.etype sim_g.eid orig_eids i j o v kind same_edges
            edges_below at new type id,
    )
