-- ===== src/Partition/Store/Saved.antt =====
-- srcChange/partition/aly_partition.py, `partition_graph`: the files behind the loop over the parts.
use bear_rpc.Base.{
  ℕ, zero, suc, ◌+◌, ◌==◌, ==_iff, ◌<◌, ◌≤◌, ◌≡◌, ◌≢◌, refl, sym, ap, ◌∙◌, subst, Bool, true, false,
  Option, none, some, List, [], ◌∷◌, length, get_elem?, All, arith, Bool-cases, inl, inr, ok, ltb,
}
use bear_rpc.Text.{Str, codes, str_eq, str_eq_iff}
use bear_rpc.Partition.Backend.{Backend}
use bear_rpc.Partition.Graph.{Graph, SimGraph}
use bear_rpc.Partition.Pieces.{Piece}
use bear_rpc.Partition.Store.{
  PartGraph, Files, write, sort_by_tag, save_graphs, Saving, part_path, part_at, node_feats,
  edge_feats, save_part, save_parts,
}
use bear_rpc.Partition.Store.Paths.{IsFolder, part_paths_differ}

write_same :
    {A : Type 0} (path : Str) (x : A) (files : Str → Option A) → write path x files path ≡ some x
unfolding write
write_same path x files = rw ((str_eq_iff path path).1 refl) refl

write_other :
    {A : Type 0} (path other : Str) (x : A) (files : Str → Option A)
    → str_eq other path ≡ false
    → write path x files other ≡ files other
unfolding write
write_other path other x files h = rw h refl

names_differ : (a b : Str) → str_eq a b ≡ false → a ≢ b
names_differ a b h same = let equal = (str_eq_iff a b).1 same in cc

part_at_lem :
    {A : Type 0} (parts : List A) (i : ℕ) (part : A)
    → get_elem? parts i ≡ some part
    → part_at parts i ≡ ok part
unfolding part_at
part_at_lem parts i part h = rw (part_at, h) refl

-- A part has types of its edges.
unfoldable pub IsTagged : {S : Type 0} → Piece S → Type 0
IsTagged part = (types : List ℕ) × (part.edges.ids.types ≡ some types)

-- graph.dgl of a part
unfoldable pub saved_graph : {S : Type 0} → Saving S → Piece S → PartGraph S
saved_graph s part = record {
  structure = s.in_formats s.graph_formats part.structure;
  ndata = some part.nodes.ids;
  edata = some part.edges.ids;
}

module _ {V S : Type 0} (b : Backend) (s : Saving S) (num_parts : ℕ) (reshuffle : Bool)
    (g : Graph V) (sim_g : SimGraph) (out_path : Str) where
  -- The three files of a part are there.
  pub record IsSaved (files : Files V S) (i : ℕ) (part : Piece S) : Type 0 where
    pub nodes :
        files.tensors (part_path out_path i (codes "node_feat.dgl"))
        ≡ some (node_feats b s num_parts reshuffle g sim_g part)
    pub edges :
        files.tensors (part_path out_path i (codes "edge_feat.dgl"))
        ≡ some (edge_feats b s num_parts reshuffle g sim_g part)
    pub graph : files.graphs (part_path out_path i (codes "graph.dgl")) ≡ some (saved_graph s part)

  saved_part : ℕ → Piece S → Files V S → Files V S
  saved_part i part files = record {
    texts = files.texts;
    arrays = files.arrays;
    tensors =
        write (part_path out_path i (codes "edge_feat.dgl"))
          (edge_feats b s num_parts reshuffle g sim_g part)
          (write (part_path out_path i (codes "node_feat.dgl"))
            (node_feats b s num_parts reshuffle g sim_g part) files.tensors);
    graphs = write (part_path out_path i (codes "graph.dgl")) (saved_graph s part) files.graphs;
  }

  sort_by_tag_lem :
      (sort : Bool) (formats : Option (List Str)) (tags : Option (List ℕ)) (types : List ℕ)
      → tags ≡ some types
      → sort_by_tag sort formats tags ≡ ok tt
  unfolding sort_by_tag
  sort_by_tag_lem false formats tags types h = refl
  sort_by_tag_lem true none tags types h = refl
  sort_by_tag_lem true (some formats) tags types h = rw h refl

  save_part_lem :
      (i : ℕ) (part : Piece S) (files : Files V S)
      → IsTagged part
      → save_part b s num_parts reshuffle g sim_g out_path i part files
        ≡ ok (saved_part i part files)
  unfolding save_part save_graphs saved_part saved_graph IsTagged
  save_part_lem i part files (types, tagged) =
      rw
        (sort_by_tag_lem (ltb 1 (length g.edges)) s.graph_formats part.edges.ids.types types tagged)
        refl

  module _ (is_folder : IsFolder out_path) where
    saved_part-IsSaved :
        (i : ℕ) (part : Piece S) (files : Files V S) → IsSaved (saved_part i part files) i part
    unfolding saved_part
    saved_part-IsSaved i part files = record {
      nodes =
          write_other (part_path out_path i (codes "edge_feat.dgl"))
            (part_path out_path i (codes "node_feat.dgl")) _ _
            (part_paths_differ out_path i i b'n' b'e' (codes "ode_feat.dgl") (codes "dge_feat.dgl")
              is_folder refl refl refl (λ _. names_differ _ _ (unfold str_eq in refl)))
          ∙ write_same (part_path out_path i (codes "node_feat.dgl")) _ _;
      edges = write_same (part_path out_path i (codes "edge_feat.dgl")) _ _;
      graph = write_same (part_path out_path i (codes "graph.dgl")) _ _;
    }

    -- Saving a part keeps the files of another one.
    saved_part_other :
        (i j : ℕ) (part other : Piece S) (files : Files V S)
        → i ≢ j
        → IsSaved files i part
        → IsSaved (saved_part j other files) i part
    unfolding saved_part
    saved_part_other i j part other files differ saved = record {
      nodes =
          write_other (part_path out_path j (codes "edge_feat.dgl"))
            (part_path out_path i (codes "node_feat.dgl")) _ _
            (part_paths_differ out_path i j b'n' b'e' (codes "ode_feat.dgl") (codes "dge_feat.dgl")
              is_folder refl refl refl (λ same. absurd (differ same)))
          ∙ write_other (part_path out_path j (codes "node_feat.dgl"))
              (part_path out_path i (codes "node_feat.dgl")) _ _
              (part_paths_differ out_path i j b'n' b'n' (codes "ode_feat.dgl")
                (codes "ode_feat.dgl") is_folder refl refl refl (λ same. absurd (differ same)))
          ∙ saved.nodes;
      edges =
          write_other (part_path out_path j (codes "edge_feat.dgl"))
            (part_path out_path i (codes "edge_feat.dgl")) _ _
            (part_paths_differ out_path i j b'e' b'e' (codes "dge_feat.dgl") (codes "dge_feat.dgl")
              is_folder refl refl refl (λ same. absurd (differ same)))
          ∙ write_other (part_path out_path j (codes "node_feat.dgl"))
              (part_path out_path i (codes "edge_feat.dgl")) _ _
              (part_paths_differ out_path i j b'e' b'n' (codes "dge_feat.dgl")
                (codes "ode_feat.dgl") is_folder refl refl refl
                (λ _. names_differ _ _ (unfold str_eq in refl)))
          ∙ saved.edges;
      graph =
          write_other (part_path out_path j (codes "graph.dgl"))
            (part_path out_path i (codes "graph.dgl")) _ _
            (part_paths_differ out_path i j b'g' b'g' (codes "raph.dgl") (codes "raph.dgl")
              is_folder refl refl refl (λ same. absurd (differ same)))
          ∙ saved.graph;
    }

    part_there :
        (parts : List (Piece S)) (i : ℕ)
        → All IsTagged parts
        → i < length parts
        → (part : Piece S) × (get_elem? parts i ≡ some part) × IsTagged part
    part_there [] i tagged below = absurd (omega arith)
    part_there (part ∷ parts) zero (one, tagged) below = (part, refl, one)
    part_there (part ∷ parts) (suc i) (one, tagged) below = part_there parts i tagged (omega arith)

    -- The loop ends, and the files of each part that is there are those of the part.
    pub save_parts_lem :
        (parts : List (Piece S)) (part_id count : ℕ) (files : Files V S)
        → All IsTagged parts
        → part_id + count ≤ length parts
        → (files' : Files V S) × (save_parts b s num_parts reshuffle g sim_g out_path parts part_id
              count files
            ≡ ok files')
          × (files'.texts ≡ files.texts)
          × ((i : ℕ) (part : Piece S) → i < part_id → IsSaved files i part → IsSaved files' i part)
          × ((i : ℕ) (part : Piece S)
              → part_id ≤ i
              → i < part_id + count
              → get_elem? parts i ≡ some part
              → IsSaved files' i part)
    unfolding save_parts
    save_parts_lem parts part_id zero files tagged below =
        (files, refl, refl, λ i part _ saved. saved, λ i part lower upper. absurd (omega arith))
    save_parts_lem parts part_id (suc count) files tagged below =
        let (here, at, one) = part_there parts part_id tagged (omega arith) in
        let next = saved_part part_id here files in
        let (files', run, texts, before, after) =
          save_parts_lem parts (part_id + 1) count next tagged (omega arith) in
        (
          files',
          rw (part_at_lem parts part_id here at, save_part_lem part_id here files one) run,
          texts ∙ (unfold saved_part in refl),
          λ i part lower saved.
              before i part (omega arith)
                (saved_part_other i part_id part here files (λ same. omega (arith, same)) saved),
          λ i part lower upper found. elim (Bool-cases (i == part_id)) [
            | inl t ↦
                let same : i ≡ part_id = (==_iff i part_id).0 t in
                let equal : here ≡ part = (let e = ap (get_elem? parts) same in cc) in
                before i part (omega arith) (
                  subst (λ n. IsSaved next n part) (sym same)
                    (subst (IsSaved next part_id) equal (saved_part-IsSaved part_id here files)))
            | inr t ↦ after i part (ground arith) (omega arith) found
          ],
        )
