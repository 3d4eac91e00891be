-- ===== src/Partition/Trainers/Tests.antt =====
-- A graph of one node of type "u" and two nodes of type "v", with two edges from "u" to "v".
use bear_rpc.Base.{ℕ, ◌≡◌, refl, arith, List, [], ◌∷◌, get_elem?, some, ok}
use bear_rpc.Base.Arrays.{put, Distinct}
use bear_rpc.Base.Dict.{find}
use bear_rpc.Text.{codes, str_eq}
use bear_rpc.Partition.Graph.{NodeSet, EdgeSet, Graph, SimGraph, is_homogeneous, node_column}
use bear_rpc.Partition.Saved.Tests.{lists, lists-IsBackend}
use bear_rpc.Partition.Trainers.{IsScatter, set_trainer_ids}
use bear_rpc.Partition.Trainers.Typed.{of_type, IsSim}
use bear_rpc.Partition.Trainers.Whole.{NoneNamed, has_name, set_trainer_ids_lem}

abbrev users : NodeSet ℕ
users = record { kind = record { name = codes "u"; id = 0; number = 1 }; columns = [] }

abbrev views : NodeSet ℕ
views = record { kind = record { name = codes "v"; id = 1; number = 2 }; columns = [] }

abbrev edges : EdgeSet ℕ
edges = record {
  kind = record {
    name = record { src_type = codes "u"; relation = codes "r"; dst_type = codes "v" };
    id = 0;
    number = 2;
  };
  dst = 1 ∷ 0 ∷ [];
  columns = [];
}

abbrev graph : Graph ℕ
graph = record { nodes = users ∷ views ∷ []; edges = edges ∷ [] }

abbrev sim_g : SimGraph
sim_g = record {
  ntype = 0 ∷ 1 ∷ 1 ∷ [];
  nid = 0 ∷ 0 ∷ 1 ∷ [];
  etype = 0 ∷ 0 ∷ [];
  eid = 0 ∷ 1 ∷ [];
}

put-IsScatter : IsScatter (λ (xs : List ℕ) idx vs. put xs idx vs)
unfolding IsScatter
put-IsScatter xs idx vs distinct same = refl

views-IsSim : IsSim sim_g (2 ∷ 3 ∷ 5 ∷ []) 1
unfolding of_type Distinct
views-IsSim = record {
  nodes = refl;
  parts = refl;
  distinct = (((λ same. cc), tt), (tt, tt));
  below = (omega arith, (omega arith, tt));
}

set_trainer_ids_lem_example :
    (g' : Graph ℕ) × (set_trainer_ids lists
        (λ xs idx vs. put xs idx vs)
        (λ n. n)
        graph
        sim_g
        (2 ∷ 3 ∷ 5 ∷ [])
      ≡ ok g')
    × (ids : List ℕ) × (node_column g'.nodes (codes "v") (codes "trainer_id") ≡ ok ids)
    × (e' : EdgeSet ℕ) × (get_elem? g'.edges 0 ≡ some e')
    × (trainers : List ℕ) × (find str_eq (codes "trainer_id") e'.columns ≡ some trainers)
    × ((j v p : ℕ)
        → get_elem? sim_g.ntype j ≡ some 1
        → get_elem? sim_g.nid j ≡ some v
        → get_elem? (2 ∷ 3 ∷ 5 ∷ []) j ≡ some p
        → (get_elem? ids v ≡ some p)
          × ((i : ℕ) → get_elem? (1 ∷ 0 ∷ []) i ≡ some v → get_elem? trainers i ≡ some p))
unfolding is_homogeneous NoneNamed has_name str_eq of_type
set_trainer_ids_lem_example =
    set_trainer_ids_lem lists (λ xs idx vs. put xs idx vs) (λ n. n) graph sim_g (2 ∷ 3 ∷ 5 ∷ [])
      (users ∷ []) [] views 0 edges lists-IsBackend put-IsScatter refl refl (refl, tt) (refl, tt)
      views-IsSim refl refl (omega arith, (omega arith, tt))
