-- ===== src/Partition/Whole/Typed.antt =====
-- srcChange/partition/aly_partition.py, `partition_graph`: graphs with several types.
use bear_rpc.Base.{
  ℕ, suc, ◌+◌, ◌==◌, ◌&&◌, ◌≡◌, ◌≢◌, refl, sym, ap, ap₂, ◌∙◌, Bool, true, false, Option, none, some,
  List, [], ◌∷◌, length, leb, if◌then◌else◌, Bool-cases, inl, inr, Result, ok, raise, Error,
  exception, value_error, assert-eq_ok, >>=-eq_ok, ok-injective, ◌||◌,
}
use bear_rpc.Text.{Str, codes, str_eq}
use bear_rpc.Partition.Backend.{Backend}
use bear_rpc.Partition.Config.{EdgeType, Formats}
use bear_rpc.Partition.Maps.{Kind}
use bear_rpc.Partition.Graph.{NodeSet, EdgeSet, Graph, SimGraph, is_homogeneous, node_column}
use bear_rpc.Partition.Homogeneous.{get_homogeneous}
use bear_rpc.Partition.Trainers.{edge_trainers, typed_nodes, typed_edges, set_trainer_ids}
use bear_rpc.Partition.Pieces.{Piece, type_parts}
use bear_rpc.Partition.Store.{Files, has_format, Saving}
use bear_rpc.Partition.Splitting.{
  Partitioner, PartitionArgs, Split, node_kinds, edge_kinds, with_trainers, one_trainers, split_one,
  assignment, split_several, split_graph,
}
use bear_rpc.Partition.Whole.{save_split, partition_graph}

then_branch : {A : Type 0} (t : Bool) (x y z : A) → t ≡ true → (if t then x else y) ≡ z → x ≡ z
then_branch true x y z h k = k
then_branch false x y z h k = cc

else_branch : {A : Type 0} (t : Bool) (x y z : A) → t ≡ false → (if t then x else y) ≡ z → y ≡ z
else_branch true x y z h k = cc
else_branch false x y z h k = k

module _ {V : Type 0} (b : Backend) (scatter_row : List V → List ℕ → List V → List V)
    (cell : ℕ → V) where
  length-typed_nodes :
      (sim_g : SimGraph) (node_parts : List ℕ) (i : ℕ) (nodes : List (NodeSet V))
      → length (typed_nodes b scatter_row cell sim_g node_parts i nodes) ≡ length nodes
  unfolding typed_nodes
  length-typed_nodes sim_g node_parts i [] = refl
  length-typed_nodes sim_g node_parts i (n ∷ nodes) =
      ap suc (length-typed_nodes sim_g node_parts (i + 1) nodes)

  length-typed_edges :
      (nodes : List (NodeSet V)) (edges edges' : List (EdgeSet V))
      → typed_edges b nodes edges ≡ ok edges'
      → length edges' ≡ length edges
  unfolding typed_edges
  length-typed_edges nodes [] edges' h = ap length (sym (ok-injective [] edges' h))
  length-typed_edges nodes (e ∷ edges) edges' h =
      let (ids, _, h₁) =
        >>=-eq_ok (node_column nodes e.kind.name.dst_type (codes "trainer_id")) _ h in
      let (more, rest, h₂) = >>=-eq_ok (typed_edges b nodes edges) _ h₁ in
      ap length (sym (ok-injective (edge_trainers (b.gather_row ids e.dst) e ∷ more) edges' h₂))
      ∙ ap suc (length-typed_edges nodes edges more rest)

  counts :
      (nodes nodes' : List (NodeSet V)) (edges edges' : List (EdgeSet V))
      → length nodes ≡ length nodes'
      → length edges ≡ length edges'
      → is_homogeneous (record { nodes = nodes; edges = edges })
        ≡ is_homogeneous (record { nodes = nodes'; edges = edges' })
  unfolding is_homogeneous
  counts nodes nodes' edges edges' h h' = ap₂ (λ m n. (m == 1) && (n == 1)) h h'

  -- Trainer IDs change no type.
  set_trainer_ids-typed :
      (g g' : Graph V) (sim_g : SimGraph) (node_parts : List ℕ)
      → is_homogeneous g ≡ false
      → set_trainer_ids b scatter_row cell g sim_g node_parts ≡ ok g'
      → is_homogeneous g' ≡ false
  unfolding set_trainer_ids
  set_trainer_ids-typed g g' sim_g node_parts typed h =
      let nodes = typed_nodes b scatter_row cell sim_g node_parts 0 g.nodes in
      let (edges, made, h₁) =
        >>=-eq_ok (typed_edges b nodes g.edges) _ (else_branch (is_homogeneous g) _ _ _ typed h) in
      ap is_homogeneous (sym (ok-injective (record { nodes = nodes; edges = edges }) g' h₁))
      ∙ counts nodes g.nodes edges g.edges (length-typed_nodes sim_g node_parts 0 g.nodes)
          (length-typed_edges nodes g.edges edges made)
      ∙ typed

abbrev graph_of : {V S : Type 0} → Graph V → Result (Split V S) → Graph V
graph_of default (ok split) = split.graph
graph_of default (raise e) = default

module _ {V S : Type 0} (b : Backend) (p : Partitioner V S) (args : PartitionArgs) (g : Graph V)
    (typed : is_homogeneous g ≡ false) where
  with_trainers-typed :
      (sim_g : SimGraph) (trainers : Option (List ℕ)) (g' : Graph V)
      → with_trainers b p args g sim_g trainers ≡ ok g'
      → is_homogeneous g' ≡ false
  unfolding with_trainers
  with_trainers-typed sim_g none g' h = ap is_homogeneous (sym (ok-injective g g' h)) ∙ typed
  with_trainers-typed sim_g (some trainers) g' h =
      set_trainer_ids-typed b p.scatter_row p.cell g g' sim_g trainers typed h

  split_one-typed :
      (split : Split V S) → split_one b p args g ≡ ok split → is_homogeneous split.graph ≡ false
  unfolding split_one
  split_one-typed split h =
      let (made, _, h₁) = >>=-eq_ok (get_homogeneous p.homogenizer g args.balance_ntypes) _ h in
      let (_, h₂) = assert-eq_ok (leb 1 args.num_trainers_per_machine) "" _ h₁ in
      let (g', trained, h₃) =
        >>=-eq_ok (with_trainers b p args g made.0 (one_trainers b p args g made.1)) _ h₂ in
      ap is_homogeneous (sym (ap (λ r. graph_of g r) h₃))
      ∙ with_trainers-typed made.0 (one_trainers b p args g made.1) g' trained

  split_several-typed :
      (split : Split V S) → split_several b p args g ≡ ok split → is_homogeneous split.graph ≡ false
  unfolding split_several
  split_several-typed split h =
      let (made, _, h₁) = >>=-eq_ok (get_homogeneous p.homogenizer g args.balance_ntypes) _ h in
      let (assigned, _, h₂) = >>=-eq_ok (assignment b p args g made.0 made.1) _ h₁ in
      let (g', trained, h₃) =
        >>=-eq_ok (with_trainers b p args g made.0 assigned.trainer_id) _ h₂ in
      ap is_homogeneous (sym (ap (λ r. graph_of g r) h₃))
      ∙ with_trainers-typed made.0 assigned.trainer_id g' trained

  split_graph-typed :
      (split : Split V S) → split_graph b p args g ≡ ok split → is_homogeneous split.graph ≡ false
  unfolding split_graph
  split_graph-typed split h = elim (Bool-cases (args.num_parts == 1)) [
    | inl t ↦ split_one-typed split (then_branch (args.num_parts == 1) _ _ _ t h)
    | inr t ↦
        elim (Bool-cases
          (str_eq args.part_method (codes "metis") || str_eq args.part_method (codes "random"))) [
            | inl known ↦
                split_several-typed split
                  (then_branch _ _ _ _ known (else_branch (args.num_parts == 1) _ _ _ t h))
            | inr unknown ↦
                (let refused : ◌≡◌ {A = Result (Split V S)} (raise exception) (ok split) =
                    else_branch _ _ _ _ unknown (else_branch (args.num_parts == 1) _ _ _ t h) in
                  cc)
          ]
  ]

type_parts-typed :
    {S : Type 0} (b : Backend) (np_sort : List ℕ → List ℕ) (homogeneous reshuffle : Bool)
    (ntypes : List (Kind Str)) (etypes : List (Kind EdgeType)) (sim_g : SimGraph)
    (parts typed : List (Piece S))
    → homogeneous ≡ false
    → reshuffle ≡ false
    → type_parts b np_sort homogeneous reshuffle ntypes etypes sim_g parts ≢ ok typed
unfolding type_parts
type_parts-typed b np_sort true reshuffle ntypes etypes sim_g parts typed h k = cc
type_parts-typed b np_sort false true ntypes etypes sim_g parts typed h k = cc
type_parts-typed b np_sort false false ntypes etypes sim_g parts typed h k = λ same. cc

raises : {A : Type 0} (r : Result A) → ((x : A) → r ≢ ok x) → (e : Error) × (r ≡ raise e)
raises (ok x) h = absurd (h x refl)
raises (raise e) h = (e, refl)

never_saved :
    {V S : Type 0} (b : Backend) (p : Partitioner V S) (f : Formats) (s : Saving S)
    (args : PartitionArgs) (split : Split V S) (files files' : Files V S)
    → is_homogeneous split.graph ≡ false
    → args.reshuffle ≡ false
    → save_split b p args split.graph f s split.sim_g split.node_parts split.parts files ≢ ok files'
unfolding save_split
never_saved b p f s args split files files' typed in_order h =
    let (parts, run, _) =
      >>=-eq_ok
        (type_parts b p.np_sort (is_homogeneous split.graph) args.reshuffle (node_kinds split.graph)
          (edge_kinds split.graph) split.sim_g split.parts)
        _ h in
    type_parts-typed b p.np_sort (is_homogeneous split.graph) args.reshuffle
      (node_kinds split.graph) (edge_kinds split.graph) split.sim_g split.parts parts typed in_order
      run

-- For a graph with several types and without reshuffling, the call raises, whatever the other arguments
-- are.
pub partition_graph-typed :
    {V S : Type 0} (b : Backend) (p : Partitioner V S) (f : Formats) (s : Saving S)
    (formats : List Str) (args : PartitionArgs) (g : Graph V) (files : Files V S)
    → is_homogeneous g ≡ false
    → args.reshuffle ≡ false
    → (e : Error) × (partition_graph b p f s formats args g files ≡ raise e)
unfolding partition_graph
partition_graph-typed b p f s formats args g files typed in_order =
    raises (partition_graph b p f s formats args g files) (λ done h.
      let (_, h₁) =
        assert-eq_ok (has_format (codes "coo") formats)
          "'coo' format should be allowed for partitioning graph." _ h in
      let (_, _, h₂) =
        >>=-eq_ok
          (if has_format args.objtype (codes "cut" ∷ codes "vol" ∷ [])
            then ok tt
            else raise value_error)
          _ h₁ in
      let (split, splits, h₃) = >>=-eq_ok (split_graph b p args g) _ h₂ in
      let (files', saved, _) =
        >>=-eq_ok
          (save_split b p args split.graph f s split.sim_g split.node_parts split.parts files) _
          h₃ in
      never_saved b p f s args split files files' (split_graph-typed b p args g typed split splits)
        in_order saved)
