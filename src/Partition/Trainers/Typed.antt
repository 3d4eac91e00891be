-- ===== src/Partition/Trainers/Typed.antt =====
-- srcChange/partition/aly_partition.py, `_set_trainer_ids`: the trainers of a graph with types.
use bear_rpc.Base.{
  ℕ, ◌<◌, ◌≡◌, ◌==◌, sym, ap, ap₂, ◌∙◌, Bool, true, some, List, map, length, get_elem?, All, arith,
}
use bear_rpc.Base.Arrays.{
  full, length-full, put, length-put, put_at, Distinct, length-map, get_elem?-map, All_at,
}
use bear_rpc.Partition.Backend.{Backend, IsBackend, select}
use bear_rpc.Partition.Backend.Masks.{rank, get_elem?-select, get_elem?-equal}
use bear_rpc.Partition.Maps.Owners.{length-select}
use bear_rpc.Partition.Graph.{SimGraph}
use bear_rpc.Partition.Trainers.{IsScatter, typed_ids}

-- The mask of the nodes of a type.
unfoldable pub of_type : SimGraph → ℕ → List Bool
of_type sim_g ntype_id = map (λ t. t == ntype_id) sim_g.ntype

-- The nodes of a type have distinct IDs below their number in the homogeneous graph, as
-- `to_homogeneous` documents, and each node has a partition.
pub record IsSim (sim_g : SimGraph) (node_parts : List ℕ) (ntype_id : ℕ) : Type 0 where
  pub nodes : length sim_g.nid ≡ length sim_g.ntype
  pub parts : length node_parts ≡ length sim_g.ntype
  pub distinct : Distinct (select sim_g.nid (of_type sim_g ntype_id))
  pub below :
      All
        (λ v. v < length (select sim_g.nid (of_type sim_g ntype_id)))
        (select sim_g.nid (of_type sim_g ntype_id))

module _ {V : Type 0} (b : Backend) (lawful : IsBackend b)
    (scatter_row : List V → List ℕ → List V → List V) (scatters : IsScatter scatter_row)
    (cell : ℕ → V) where
  masked_lem :
      (sim_g : SimGraph) (ntype_id : ℕ) → length sim_g.ntype ≡ length (of_type sim_g ntype_id)
  unfolding of_type
  masked_lem sim_g ntype_id = sym (length-map (λ t. t == ntype_id) sim_g.ntype)

  cells_lem :
      (sim_g : SimGraph) (node_parts : List ℕ) (ntype_id : ℕ)
      → IsSim sim_g node_parts ntype_id
      → length (map cell node_parts) ≡ length (of_type sim_g ntype_id)
  cells_lem sim_g node_parts ntype_id sim =
      length-map cell node_parts ∙ sim.parts ∙ masked_lem sim_g ntype_id

  typed_ids-put :
      (sim_g : SimGraph) (node_parts : List ℕ) (ntype_id : ℕ)
      → IsSim sim_g node_parts ntype_id
      → let orig_nid = select sim_g.nid (of_type sim_g ntype_id) in
        typed_ids b scatter_row cell sim_g node_parts ntype_id
        ≡ put
            (full (length orig_nid) (cell 0))
            orig_nid
            (select (map cell node_parts) (of_type sim_g ntype_id))
  unfolding typed_ids of_type IsScatter
  typed_ids-put sim_g node_parts ntype_id sim =
      let mask = of_type sim_g ntype_id in
      let orig_nid = select sim_g.nid mask in
      let values = select (map cell node_parts) mask in
      let masked = masked_lem sim_g ntype_id in
      let cells = cells_lem sim_g node_parts ntype_id sim in
      ap₂ (λ o w. scatter_row (full (length o) (cell 0)) o w)
        (lawful.masked sim_g.nid mask (sim.nodes ∙ masked))
        (lawful.masked (map cell node_parts) mask cells)
      ∙ scatters (full (length orig_nid) (cell 0)) orig_nid values sim.distinct (
          length-select sim_g.nid mask (sim.nodes ∙ masked)
          ∙ sym (length-select (map cell node_parts) mask cells))

  pub length-typed_ids :
      (sim_g : SimGraph) (node_parts : List ℕ) (ntype_id : ℕ)
      → IsSim sim_g node_parts ntype_id
      → length (typed_ids b scatter_row cell sim_g node_parts ntype_id)
        ≡ length (select sim_g.nid (of_type sim_g ntype_id))
  length-typed_ids sim_g node_parts ntype_id sim =
      let orig_nid = select sim_g.nid (of_type sim_g ntype_id) in
      ap length (typed_ids-put sim_g node_parts ntype_id sim)
      ∙ length-put (full (length orig_nid) (cell 0)) orig_nid
          (select (map cell node_parts) (of_type sim_g ntype_id))
      ∙ length-full (length orig_nid) (cell 0)

  -- A node of the type has the trainer that its node of the homogeneous graph is assigned to.
  pub typed_ids_lem :
      (sim_g : SimGraph) (node_parts : List ℕ) (ntype_id j v p : ℕ)
      → IsSim sim_g node_parts ntype_id
      → get_elem? sim_g.ntype j ≡ some ntype_id
      → get_elem? sim_g.nid j ≡ some v
      → get_elem? node_parts j ≡ some p
      → get_elem? (typed_ids b scatter_row cell sim_g node_parts ntype_id) v ≡ some (cell p)
  unfolding of_type
  typed_ids_lem sim_g node_parts ntype_id j v p sim type node part =
      let mask = of_type sim_g ntype_id in
      let orig_nid = select sim_g.nid mask in
      let values = select (map cell node_parts) mask in
      let set : get_elem? mask j ≡ some true = get_elem?-equal sim_g.ntype ntype_id j type in
      let at : get_elem? orig_nid (rank mask j) ≡ some v =
        get_elem?-select sim_g.nid mask j set ∙ node in
      let value : get_elem? values (rank mask j) ≡ some (cell p) =
        get_elem?-select (map cell node_parts) mask j set
        ∙ get_elem?-map cell node_parts j p part in
      let inside : v < length orig_nid =
        All_at (λ w. w < length orig_nid) orig_nid (rank mask j) v sim.below at in
      ap (λ l. get_elem? l v) (typed_ids-put sim_g node_parts ntype_id sim)
      ∙ put_at (full (length orig_nid) (cell 0)) orig_nid values (rank mask j) v (cell p)
          sim.distinct (omega (arith, length-full (length orig_nid) (cell 0))) at value
