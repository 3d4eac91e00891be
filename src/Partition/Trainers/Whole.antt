-- ===== src/Partition/Trainers/Whole.antt =====
-- srcChange/partition/aly_partition.py, `_set_trainer_ids`: the trainers of the nodes and the edges.
use bear_rpc.Base.{
  ℕ, zero, suc, ◌+◌, ◌<◌, ◌≡◌, refl, sym, ap, ap₂, ◌∙◌, subst, Bool, true, false, some, List, [],
  ◌∷◌, ◌++◌, length, get_elem?, All, arith, if◌then◌else◌, ok, >>=-eq_ok, ok-injective, Bool-cases,
  inl, inr,
}
use bear_rpc.Base.Dict.{find}
use bear_rpc.Base.Arrays.{rows_at_indices, row_at_index}
use bear_rpc.Text.{Str, codes, str_eq, str_eq_iff}
use bear_rpc.Partition.Backend.{Backend, IsBackend, select}
use bear_rpc.Partition.Features.Columns.{find-assign}
use bear_rpc.Partition.Graph.{NodeSet, EdgeSet, Graph, SimGraph, is_homogeneous, node_column}
use bear_rpc.Partition.Trainers.{
  IsScatter, typed_ids, node_trainers, edge_trainers, typed_nodes, typed_edges, set_trainer_ids,
}
use bear_rpc.Partition.Trainers.Typed.{of_type, IsSim, typed_ids_lem, length-typed_ids}

module _ {V : Type 0} where
  -- No node type in front of it has this name.
  unfoldable pub NoneNamed : Str → List (NodeSet V) → Type 0
  NoneNamed name nodes = All (λ n. str_eq n.kind.name name ≡ false) nodes

  -- Some node type has this name.
  unfoldable pub has_name : Str → List (NodeSet V) → Bool
  has_name name [] = false
  has_name name (n ∷ nodes) = if str_eq n.kind.name name then true else has_name name nodes

module _ {V : Type 0} (b : Backend) where
  typed_edges-cons :
      (nodes : List (NodeSet V)) (d : EdgeSet V) (edges edges' : List (EdgeSet V))
      → typed_edges b nodes (d ∷ edges) ≡ ok edges'
      → (ids : List V) × (node_column nodes d.kind.name.dst_type (codes "trainer_id") ≡ ok ids)
        × (more : List (EdgeSet V)) × (typed_edges b nodes edges ≡ ok more)
        × (edge_trainers (b.gather_row ids d.dst) d ∷ more ≡ edges')
  unfolding typed_edges
  typed_edges-cons nodes d edges edges' h =
      let (ids, one, h₁) =
        >>=-eq_ok (node_column nodes d.kind.name.dst_type (codes "trainer_id")) _ h in
      let (more, rest, h₂) = >>=-eq_ok (typed_edges b nodes edges) _ h₁ in
      (
        ids,
        one,
        more,
        rest,
        ok-injective (edge_trainers (b.gather_row ids d.dst) d ∷ more) edges' h₂,
      )

  -- What an edge type is given, for the trainers of its destinations.
  typed_edges_lem :
      (nodes : List (NodeSet V)) (edges edges' : List (EdgeSet V)) (k : ℕ) (e : EdgeSet V)
      (ids : List V)
      → typed_edges b nodes edges ≡ ok edges'
      → get_elem? edges k ≡ some e
      → node_column nodes e.kind.name.dst_type (codes "trainer_id") ≡ ok ids
      → get_elem? edges' k ≡ some (edge_trainers (b.gather_row ids e.dst) e)
  typed_edges_lem nodes [] edges' k e ids h at found = cc
  typed_edges_lem nodes (d ∷ edges) edges' zero e ids h at found =
      let (ids', one, more, rest, made) = typed_edges-cons nodes d edges edges' h in
      let same : d ≡ e = cc in
      let columns : ids' ≡ ids = ok-injective ids' ids (
        sym one
        ∙ ap (λ (x : EdgeSet V). node_column nodes x.kind.name.dst_type (codes "trainer_id")) same
        ∙ found) in
      ap (λ l. get_elem? l 0) (sym made)
      ∙ ap₂ (λ (x : EdgeSet V) c. some (edge_trainers (b.gather_row c x.dst) x)) same columns
  typed_edges_lem nodes (d ∷ edges) edges' (suc k) e ids h at found =
      let (ids', one, more, rest, made) = typed_edges-cons nodes d edges edges' h in
      ap (λ l. get_elem? l (suc k)) (sym made)
      ∙ typed_edges_lem nodes edges more k e ids rest at found

module _ {V : Type 0} (b : Backend) (scatter_row : List V → List ℕ → List V → List V)
    (cell : ℕ → V) where
  node_column-typed_nodes :
      (sim_g : SimGraph) (node_parts : List ℕ) (ntype_id : ℕ) (before after : List (NodeSet V))
      (n : NodeSet V)
      → NoneNamed n.kind.name before
      → node_column
          (typed_nodes b scatter_row cell sim_g node_parts ntype_id (before ++ n ∷ after))
          n.kind.name
          (codes "trainer_id")
        ≡ ok (typed_ids b scatter_row cell sim_g node_parts (ntype_id + length before))
  unfolding node_column typed_nodes node_trainers NoneNamed
  node_column-typed_nodes sim_g node_parts ntype_id [] after n free =
      let at : ntype_id ≡ ntype_id + 0 = omega arith in
      rw
        (
          (str_eq_iff n.kind.name n.kind.name).1 refl,
          find-assign (codes "trainer_id") (typed_ids b scatter_row cell sim_g node_parts ntype_id)
              n.columns,
        )
        (ap (λ i. ok (typed_ids b scatter_row cell sim_g node_parts i)) at)
  node_column-typed_nodes sim_g node_parts ntype_id (m ∷ before) after n (other, free) =
      let at : ntype_id + 1 + length before ≡ ntype_id + suc (length before) = omega arith in
      rw other (
        node_column-typed_nodes sim_g node_parts (ntype_id + 1) before after n free
        ∙ ap (λ i. ok (typed_ids b scatter_row cell sim_g node_parts i)) at)

  node_column-has_name :
      (sim_g : SimGraph) (node_parts : List ℕ) (ntype_id : ℕ) (nodes : List (NodeSet V))
      (name : Str)
      → has_name name nodes ≡ true
      → (ids : List V) × (node_column
            (typed_nodes b scatter_row cell sim_g node_parts ntype_id nodes)
            name
            (codes "trainer_id")
          ≡ ok ids)
  unfolding has_name node_column typed_nodes node_trainers
  node_column-has_name sim_g node_parts ntype_id [] name h = cc
  node_column-has_name sim_g node_parts ntype_id (n ∷ nodes) name h =
      elim (Bool-cases (str_eq n.kind.name name)) [
        | inl t ↦ (
          typed_ids b scatter_row cell sim_g node_parts ntype_id,
          rw
              (
                t,
                find-assign (codes "trainer_id")
                    (typed_ids b scatter_row cell sim_g node_parts ntype_id) n.columns,
              )
              refl,
        )
        | inr t ↦
            let (ids, found) =
              node_column-has_name sim_g node_parts (ntype_id + 1) nodes name
                (sym (rw t refl) ∙ h) in
            (ids, rw t found)
      ]

  typed_edges-has_name :
      (sim_g : SimGraph) (node_parts : List ℕ) (nodes : List (NodeSet V)) (edges : List (EdgeSet V))
      → All (λ e. has_name e.kind.name.dst_type nodes ≡ true) edges
      → (edges' : List (EdgeSet V)) × (typed_edges b
            (typed_nodes b scatter_row cell sim_g node_parts 0 nodes)
            edges
          ≡ ok edges')
  unfolding typed_edges
  typed_edges-has_name sim_g node_parts nodes [] h = ([], refl)
  typed_edges-has_name sim_g node_parts nodes (e ∷ edges) (h, hs) =
      let (ids, found) = node_column-has_name sim_g node_parts 0 nodes e.kind.name.dst_type h in
      let (more, rest) = typed_edges-has_name sim_g node_parts nodes edges hs in
      (edge_trainers (b.gather_row ids e.dst) e ∷ more, rw (found, rest) refl)

-- In a graph with types each node has the trainer that its node of the homogeneous graph is assigned
-- to, and each edge has the trainer of its destination. It is supposed that the destination types of
-- the edges are types of the graph, and that of the nodes of this type the homogeneous graph has each
-- once.
pub set_trainer_ids_lem :
    {V : Type 0} (b : Backend) (scatter_row : List V → List ℕ → List V → List V) (cell : ℕ → V)
    (g : Graph V) (sim_g : SimGraph) (node_parts : List ℕ) (before after : List (NodeSet V))
    (n : NodeSet V) (k : ℕ) (e : EdgeSet V)
    → IsBackend b
    → IsScatter scatter_row
    → is_homogeneous g ≡ false
    → g.nodes ≡ before ++ n ∷ after
    → NoneNamed n.kind.name before
    → All (λ d. has_name d.kind.name.dst_type g.nodes ≡ true) g.edges
    → IsSim sim_g node_parts (length before)
    → get_elem? g.edges k ≡ some e
    → e.kind.name.dst_type ≡ n.kind.name
    → All (λ v. v < length (select sim_g.nid (of_type sim_g (length before)))) e.dst
    → (g' : Graph V) × (set_trainer_ids b scatter_row cell g sim_g node_parts ≡ ok g')
      × (ids : List V) × (node_column g'.nodes n.kind.name (codes "trainer_id") ≡ ok ids)
      × (e' : EdgeSet V) × (get_elem? g'.edges k ≡ some e')
      × (trainers : List V) × (find str_eq (codes "trainer_id") e'.columns ≡ some trainers)
      × ((j v p : ℕ)
          → get_elem? sim_g.ntype j ≡ some (length before)
          → get_elem? sim_g.nid j ≡ some v
          → get_elem? node_parts j ≡ some p
          → (get_elem? ids v ≡ some (cell p))
            × ((i : ℕ) → get_elem? e.dst i ≡ some v → get_elem? trainers i ≡ some (cell p)))
unfolding set_trainer_ids edge_trainers
set_trainer_ids_lem b scatter_row cell g sim_g node_parts before after n k e lawful scatters typed
      shape first_one named sim at type inside =
    let nodes = typed_nodes b scatter_row cell sim_g node_parts 0 g.nodes in
    let ids = typed_ids b scatter_row cell sim_g node_parts (length before) in
    let (edges, made) =
      typed_edges-has_name b scatter_row cell sim_g node_parts g.nodes g.edges named in
    let found : node_column nodes n.kind.name (codes "trainer_id") ≡ ok ids =
      ap
        (λ l.
          node_column (typed_nodes b scatter_row cell sim_g node_parts 0 l) n.kind.name
            (codes "trainer_id"))
        shape
      ∙ node_column-typed_nodes b scatter_row cell sim_g node_parts 0 before after n first_one
      ∙ ap (λ i. ok (typed_ids b scatter_row cell sim_g node_parts i)) (omega arith) in
    let dst_found : node_column nodes e.kind.name.dst_type (codes "trainer_id") ≡ ok ids =
      ap (λ t. node_column nodes t (codes "trainer_id")) type ∙ found in
    let length_lem =
      length-typed_ids b lawful scatter_row scatters cell sim_g node_parts (length before) sim in
    let (rows, looked) =
      rows_at_indices ids e.dst (subst (λ m. All (λ v. v < m) e.dst) (sym length_lem) inside) in
    let gathered : b.gather_row ids e.dst ≡ rows = lawful.gathered ids e.dst rows looked in
    (
      record { nodes = nodes; edges = edges },
      rw (typed, made) refl,
      ids,
      found,
      edge_trainers (b.gather_row ids e.dst) e,
      typed_edges_lem b nodes g.edges edges k e ids made at dst_found,
      rows,
      find-assign (codes "trainer_id") (b.gather_row ids e.dst) e.columns ∙ ap some gathered,
      λ j v p t w q.
          let trainer =
            typed_ids_lem b lawful scatter_row scatters cell sim_g node_parts (length before) j v p
              sim t w q in
          (trainer, λ i d. row_at_index ids e.dst rows i v looked d ∙ trainer),
    )
