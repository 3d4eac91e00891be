-- ===== src/Partition/Parts.antt =====
-- srcChange/partition/aly_partition.py: the partition and the trainer of each node, for a homogeneous
-- graph, and the ID ranges of the partition book.
pub mod Nodes
pub mod Ranges
use bear_rpc.Base.{
  Result, ok, assert, ◌>>◌, ℕ, zero, suc, ◌+◌, ◌*◌, ◌/◌, ◌&&◌, Bool, true, false, Option, none,
  some, List, [], ◌∷◌, map, ltb, leb, if◌then◌else◌,
}

-- node_parts[first:stop] = part, for a tensor that starts at the node i
unfoldable pub set_parts : ℕ → ℕ → ℕ → ℕ → List ℕ → List ℕ
set_parts part i first stop [] = []
set_parts part i first stop (p ∷ node_parts) =
    (if leb first i && ltb i stop then part else p) ∷ set_parts part (i + 1) first stop node_parts

-- The two lines that fix the partition of the first nodes.
unfoldable pub fix_parts : List ℕ → List ℕ
unfolding set_parts
fix_parts node_parts = set_parts 1 0 98308 (98308 * 2) (set_parts 0 0 0 98308 node_parts)

-- What a partitioning has computed: the data 'trainer_id' of the nodes, if it is set, and the
-- partition of each node.
pub record Assignment : Type 0 where
  pub trainer_id : Option (List ℕ)
  pub node_parts : List ℕ

-- The METIS branch; `metis` is the assignment of nodes to a number of parts.
unfoldable pub assign_metis : (ℕ → List ℕ) → ℕ → ℕ → Result Assignment
unfolding fix_parts
assign_metis metis num_parts num_trainers_per_machine =
    assert (leb 1 num_trainers_per_machine) ""
    >> (if ltb 1 num_trainers_per_machine
        then (let node_parts = metis (num_parts * num_trainers_per_machine) in
            ok (record {
              trainer_id = some node_parts;
              node_parts = fix_parts (map (λ p. p / num_trainers_per_machine) node_parts);
            }))
        else ok (record { trainer_id = none; node_parts = fix_parts (metis num_parts) }))

-- The ranges of a list of ending IDs, from the start of the first one.
unfoldable pub part_ranges : ℕ → List ℕ → List (ℕ × ℕ)
part_ranges start [] = []
part_ranges start (end ∷ ends) = (start, end) ∷ part_ranges end ends
