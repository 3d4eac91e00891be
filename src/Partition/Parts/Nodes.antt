-- ===== src/Partition/Parts/Nodes.antt =====
-- srcChange/partition/aly_partition.py: the partition of a node against its trainer.
use native.Mathlib.Nat.{div-lt_iff_lt-mul}
use bear_rpc.Base.{
  ok, ℕ, zero, suc, ◌+◌, ◌*◌, ◌/◌, ◌≤◌, ◌<◌, ◌≡◌, refl, ap, ◌∙◌, true, ◌&&◌, some, List, [], ◌∷◌,
  map, arith, get_elem?, ltb, leb, if◌then◌else◌,
}
use bear_rpc.Partition.Parts.{Assignment, set_parts, fix_parts, assign_metis}

get_elem?-set_parts :
    (part i first stop : ℕ) (node_parts : List ℕ) (v p : ℕ)
    → get_elem? node_parts v ≡ some p
    → get_elem? (set_parts part i first stop node_parts) v
      ≡ some (if leb first (i + v) && ltb (i + v) stop then part else p)
unfolding set_parts
get_elem?-set_parts part i first stop [] v p h = cc
get_elem?-set_parts part i first stop (q ∷ node_parts) zero p h = ground arith
get_elem?-set_parts part i first stop (q ∷ node_parts) (suc v) p h =
    get_elem?-set_parts part (i + 1) first stop node_parts v p h
    ∙ ap (λ n. some (if leb first n && ltb n stop then part else p)) (omega arith)

-- The partition of a node after the two lines.
unfoldable pub fixed : ℕ → ℕ → ℕ
fixed v p = if ltb v 98308 then 0 else if ltb v 196616 then 1 else p

fix_parts_lem :
    (node_parts : List ℕ) (v p : ℕ)
    → get_elem? node_parts v ≡ some p
    → get_elem? (fix_parts node_parts) v ≡ some (fixed v p)
unfolding fix_parts fixed
fix_parts_lem node_parts v p h =
    let e = get_elem?-set_parts 0 0 0 98308 node_parts v p h in
    let k = get_elem?-set_parts 1 0 98308 (98308 * 2) (set_parts 0 0 0 98308 node_parts) v _ e in
    ground arith

get_elem?-map :
    (f : ℕ → ℕ) (l : List ℕ) (v p : ℕ) → get_elem? l v ≡ some p → get_elem? (map f l) v ≡ some (f p)
get_elem?-map f [] v p h = cc
get_elem?-map f (q ∷ l) zero p h = ground arith
get_elem?-map f (q ∷ l) (suc v) p h = get_elem?-map f l v p h

fixed_bound : (v p n : ℕ) → 2 ≤ n → p < n → fixed v p < n
unfolding fixed
fixed_bound v p n h k = ground arith

module _ (metis : ℕ → List ℕ) (num_parts trainers : ℕ) (v t : ℕ) (many : 1 < trainers)
    (assigned : get_elem? (metis (num_parts * trainers)) v ≡ some t) where
  -- With several trainers on a machine, the trainer of a node is the one that METIS gave it, and its
  -- partition is the machine of that trainer only from the node 196616 on: the nodes before 98308
  -- are all in the partition 0, and those between in the partition 1.
  pub assign_metis_lem :
      (a : Assignment) × (assign_metis metis num_parts trainers ≡ ok a)
      × (a.trainer_id ≡ some (metis (num_parts * trainers)))
      × (get_elem? a.node_parts v ≡ some (fixed v (t / trainers)))
  unfolding assign_metis
  assign_metis_lem =
      let one : leb 1 trainers ≡ true = ground arith in
      let several : ltb 1 trainers ≡ true = ground arith in
      (
        record {
          trainer_id = some (metis (num_parts * trainers));
          node_parts = fix_parts (map (λ p. p / trainers) (metis (num_parts * trainers)));
        },
        rw (one, several) refl,
        refl,
        fix_parts_lem (map (λ p. p / trainers) (metis (num_parts * trainers))) v (t / trainers)
            (get_elem?-map (λ p. p / trainers) (metis (num_parts * trainers)) v t assigned),
      )

  -- With several trainers on a machine and at least two partitions, and if METIS gives the node one
  -- of the trainers, the node's partition is one of the partitions.
  pub assign_metis-bound :
      2 ≤ num_parts
      → t < num_parts * trainers
      → (a : Assignment) × (assign_metis metis num_parts trainers ≡ ok a)
        × (p : ℕ) × (get_elem? a.node_parts v ≡ some p)
        × (p < num_parts)
  assign_metis-bound parts trainer =
      let (a, returned, _, part) = assign_metis_lem in
      (
        a,
        returned,
        fixed v (t / trainers),
        part,
        fixed_bound v (t / trainers) num_parts parts ((div-lt_iff_lt-mul (omega arith)).1 trainer),
      )
