-- ===== src/Partition/Splitting.antt =====
-- srcChange/partition/aly_partition.py: `_get_orig_ids`, and the branches of `partition_graph` that split
-- the graph into its parts.
use bear_rpc.Base.{
  ℕ, ◌*◌, ◌==◌, Bool, false, ◌||◌, not, ltb, leb, Option, none, some, List, [], ◌∷◌, map, length,
  if◌then◌else◌, Result, ok, raise, exception, assert, ◌>>=◌, ◌>>◌,
}
use bear_rpc.Base.Arrays.{full}
use bear_rpc.Text.{Str, codes, str_eq}
use bear_rpc.Partition.Backend.{Backend}
use bear_rpc.Partition.Maps.{Kind}
use bear_rpc.Partition.Maps.Consecutive.{consecutive}
use bear_rpc.Partition.Config.{EdgeType}
use bear_rpc.Partition.Parts.{fix_parts, Assignment, assign_metis}
use bear_rpc.Partition.Graph.{Graph, SimGraph, is_homogeneous}
use bear_rpc.Partition.Homogeneous.{Balancing, Homogenizer, get_homogeneous}
use bear_rpc.Partition.Trainers.{set_trainer_ids}
use bear_rpc.Partition.Pieces.{Piece, whole_piece, Fill}

-- The original IDs: of all nodes and edges, or by type.
pub data Mapping : Type 0 where
  all_ids : List ℕ → List ℕ → Mapping
  ids_by_type : List (Str × List ℕ) → List (EdgeType × List ℕ) → Mapping

-- {type: F.boolean_mask(ids, types == type_id) for type in types}
unfoldable pub pick_by_type :
    {K : Type 0} → Backend → List (Kind K) → List ℕ → List ℕ → List (K × List ℕ)
pick_by_type b [] ids types = []
pick_by_type b (kind ∷ kinds) ids types =
    (kind.name, b.boolean_mask ids (map (λ t. t == kind.id) types)) ∷ pick_by_type b kinds ids types

-- {type: F.arange(0, number) for type in types}
unfoldable pub arange_by_type : {K : Type 0} → List (Kind K) → List (K × List ℕ)
arange_by_type [] = []
arange_by_type (kind ∷ kinds) = (kind.name, consecutive 0 kind.number) ∷ arange_by_type kinds

unfoldable pub node_kinds : {V : Type 0} → Graph V → List (Kind Str)
node_kinds g = map (λ n. n.kind) g.nodes

unfoldable pub edge_kinds : {V : Type 0} → Graph V → List (Kind EdgeType)
edge_kinds g = map (λ e. e.kind) g.edges

unfoldable pub get_orig_ids :
    {V : Type 0} → Backend → Graph V → SimGraph → Bool → List ℕ → List ℕ → Mapping
unfolding is_homogeneous pick_by_type arange_by_type node_kinds edge_kinds
get_orig_ids b g sim_g reshuffle orig_nids orig_eids =
    let is_hetero = not (is_homogeneous g) in
    if reshuffle
    then if is_hetero
      then ids_by_type
          (pick_by_type b (node_kinds g) (b.gather_row sim_g.nid orig_nids)
            (b.gather_row sim_g.ntype orig_nids))
          (pick_by_type b (edge_kinds g) (b.gather_row sim_g.eid orig_eids)
            (b.gather_row sim_g.etype orig_eids))
      else all_ids orig_nids orig_eids
    else if is_hetero
    then ids_by_type (arange_by_type (node_kinds g)) (arange_by_type (edge_kinds g))
    else all_ids (consecutive 0 (length sim_g.ntype)) (consecutive 0 (length sim_g.etype))

-- The arguments of metis_partition_assignment behind the graph; none is a default.
pub record MetisCall : Type 0 where
  pub parts : ℕ
  pub balance_ntypes : Option (List ℕ)
  pub balance_edges : Bool
  pub mode : Option Str
  pub objtype : Option Str

-- What partition_graph_with_halo returns.
pub record Halo (S : Type 0) : Type 0 where
  pub parts : List (Piece S)
  pub orig_nids : List ℕ
  pub orig_eids : List ℕ

-- What the partitioning takes of DGL and of NumPy, for the graph at hand: its structure, METIS, the
-- split with a halo, random parts, np.sort, edge_parts[ids] = part, F.scatter_row_inplace, and an ID
-- as the cell of a tensor.
pub record Partitioner (V S : Type 0) : Type 0 where
  pub homogenizer : Homogenizer V
  pub structure : S
  pub metis : MetisCall → List ℕ
  pub halo : List ℕ → ℕ → Bool → Halo S
  pub random_choice : ℕ → ℕ → List ℕ
  pub np_sort : List ℕ → List ℕ
  pub fill : Fill
  pub scatter_row : List V → List ℕ → List V → List V
  pub cell : ℕ → V

-- The arguments of partition_graph behind the graph; out_path is an absolute path.
pub record PartitionArgs : Type 0 where
  pub graph_name : Str
  pub num_parts : ℕ
  pub out_path : Str
  pub num_hops : ℕ
  pub part_method : Str
  pub reshuffle : Bool
  pub balance_ntypes : Balancing
  pub balance_edges : Bool
  pub return_mapping : Bool
  pub num_trainers_per_machine : ℕ
  pub objtype : Str

-- What the partitioning has made of the graph: the graph with its trainer IDs, the homogeneous graph,
-- the partition of each node, the parts, and the original IDs, if they are asked for.
pub record Split (V S : Type 0) : Type 0 where
  pub graph : Graph V
  pub sim_g : SimGraph
  pub node_parts : List ℕ
  pub parts : List (Piece S)
  pub mapping : Option Mapping

module _ {V S : Type 0} (b : Backend) (p : Partitioner V S) (args : PartitionArgs)
    (g : Graph V) where
  unfoldable pub with_trainers : SimGraph → Option (List ℕ) → Result (Graph V)
  unfolding set_trainer_ids
  with_trainers sim_g none = ok g
  with_trainers sim_g (some trainers) = set_trainer_ids b p.scatter_row p.cell g sim_g trainers

  unfoldable pub call : Option (List ℕ) → Option Str → Option Str → ℕ → MetisCall
  call balance_ntypes mode objtype parts = record {
    parts = parts;
    balance_ntypes = balance_ntypes;
    balance_edges = args.balance_edges;
    mode = mode;
    objtype = objtype;
  }

  -- The trainers of the nodes, where there is one part.
  unfoldable pub one_trainers : Option (List ℕ) → Option (List ℕ)
  unfolding call
  one_trainers balance_ntypes =
      if ltb 1 args.num_trainers_per_machine
      then some (
          p.metis (
            call balance_ntypes (some (codes "k-way")) none
              (args.num_parts * args.num_trainers_per_machine)))
      else none

  -- num_parts == 1
  unfoldable pub split_one : Result (Split V S)
  unfolding get_homogeneous with_trainers one_trainers whole_piece get_orig_ids
  split_one = do
    (sim_g, balance_ntypes) ← get_homogeneous p.homogenizer g args.balance_ntypes
    assert (leb 1 args.num_trainers_per_machine) ""
    g' ← with_trainers sim_g (one_trainers balance_ntypes)
    let mapping =
        if args.return_mapping
        then some (
            get_orig_ids b g' sim_g false (consecutive 0 (length sim_g.ntype))
              (consecutive 0 (length sim_g.etype)))
        else none
    ok (record {
      graph = g';
      sim_g = sim_g;
      node_parts = full (length sim_g.ntype) 0;
      parts = whole_piece p.structure sim_g ∷ [];
      mapping = mapping;
    })

  -- part_method in ('metis', 'random')
  unfoldable pub assignment : SimGraph → Option (List ℕ) → Result Assignment
  unfolding assign_metis fix_parts call
  assignment sim_g balance_ntypes =
      if str_eq args.part_method (codes "metis")
      then assign_metis
          (λ k. p.metis (
            call balance_ntypes
              (if ltb 1 args.num_trainers_per_machine then some (codes "k-way") else none)
              (some args.objtype) k))
          args.num_parts args.num_trainers_per_machine
      else ok (record {
        trainer_id = none;
        node_parts = fix_parts (p.random_choice args.num_parts (length sim_g.ntype));
      })

  unfoldable pub split_several : Result (Split V S)
  unfolding get_homogeneous assignment with_trainers get_orig_ids
  split_several = do
    (sim_g, balance_ntypes) ← get_homogeneous p.homogenizer g args.balance_ntypes
    assigned ← assignment sim_g balance_ntypes
    g' ← with_trainers sim_g assigned.trainer_id
    let halo = p.halo assigned.node_parts args.num_hops args.reshuffle
    let mapping =
        if args.return_mapping
        then some (get_orig_ids b g' sim_g args.reshuffle halo.orig_nids halo.orig_eids)
        else none
    ok (record {
      graph = g';
      sim_g = sim_g;
      node_parts = assigned.node_parts;
      parts = halo.parts;
      mapping = mapping;
    })

  -- The branches for the number of parts and the method.
  unfoldable pub split_graph : Result (Split V S)
  unfolding split_one split_several
  split_graph =
      if args.num_parts == 1
      then split_one
      else if str_eq args.part_method (codes "metis") || str_eq args.part_method (codes "random")
      then split_several
      else raise exception
