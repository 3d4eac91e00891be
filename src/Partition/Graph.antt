-- ===== src/Partition/Graph.antt =====
-- srcChange/partition/aly_partition.py: the graph that `partition_graph` is given, with its data.
use bear_rpc.Base.{
  ℕ, Bool, ◌&&◌, ◌==◌, none, some, List, [], ◌∷◌, length, if◌then◌else◌, Result, ok, raise,
  key_error,
}
use bear_rpc.Base.Dict.{find}
use bear_rpc.Text.{Str, str_eq}
use bear_rpc.Partition.Maps.{Kind}
use bear_rpc.Partition.Config.{EdgeType}

-- g.nodes[ntype], where V is the type of the cells of the tensors.
pub record NodeSet (V : Type 0) : Type 0 where
  pub kind : Kind Str
  pub columns : List (Str × List V)

-- g.edges[etype] and g.edges(etype=etype)[1]
pub record EdgeSet (V : Type 0) : Type 0 where
  pub kind : Kind EdgeType
  pub dst : List ℕ
  pub columns : List (Str × List V)

pub record Graph (V : Type 0) : Type 0 where
  pub nodes : List (NodeSet V)
  pub edges : List (EdgeSet V)

-- The data of the homogeneous graph: NTYPE and NID of its nodes, ETYPE and EID of its edges.
pub record SimGraph : Type 0 where
  pub ntype : List ℕ
  pub nid : List ℕ
  pub etype : List ℕ
  pub eid : List ℕ

module _ {V : Type 0} where
  -- g.is_homogeneous
  unfoldable pub is_homogeneous : Graph V → Bool
  is_homogeneous g = (length g.nodes == 1) && (length g.edges == 1)

  -- g.nodes[ntype].data[name]
  unfoldable pub node_column : List (NodeSet V) → Str → Str → Result (List V)
  node_column [] ntype name = raise key_error
  node_column (n ∷ nodes) ntype name =
      let rest = node_column nodes ntype name in
      if str_eq n.kind.name ntype
      then elim (find str_eq name n.columns) [ none ↦ raise key_error | some column ↦ ok column ]
      else rest
