-- ===== src/Partition/Store/Paths.antt =====
-- srcChange/partition/aly_partition.py: the paths at which `partition_graph` stores a part, and those at
-- which `load_partition` looks for it.
use bear_rpc.Base.{
  ℕ, ◌==◌, ◌≡◌, ◌≢◌, refl, sym, ap, ap₂, ◌∙◌, false, [], ◌∷◌, ◌++◌, append_assoc, length,
  length-append, All, arith, Bool-cases, inl, inr,
}
use bear_rpc.Text.{Str, codes, str_eq, str_eq_iff}
use bear_rpc.Text.Number.{show, show-no_slash}
use bear_rpc.Launch.Submit.{last_is_slash, path_join}
use bear_rpc.Partition.Load.{to_slash, rstrip_slashes, dirname, relative_to}
use bear_rpc.Partition.Load.Feats.{show-injective}
use bear_rpc.Partition.Store.{part_path}

-- The path of a folder that is not the root.
unfoldable pub IsFolder : Str → Type 0
IsFolder path = (path ≢ []) × (last_is_slash path ≡ false)

abbrev pub NoSlash : Str → Type 0
NoSlash name = All (λ c. (c == b'/') ≡ false) name

-- Texts that end in texts of one length.
append_eq : (a c b d : Str) → length b ≡ length d → a ++ b ≡ c ++ d → (a ≡ c) × (b ≡ d)
append_eq [] [] b d same h = (refl, h)
append_eq [] (x ∷ c) b d same h = absurd (omega (arith, ap length h, length-append c d))
append_eq (x ∷ a) [] b d same h = absurd (omega (arith, ap length h, length-append a b))
append_eq (x ∷ a) (y ∷ c) b d same h =
    let first : x ≡ y = cc in
    let more : a ++ b ≡ c ++ d = cc in
    let (front, back) = append_eq a c b d same more in (ap₂ (λ z l. z ∷ l) first front, back)

last_of_append : (a : Str) (c : ℕ) (s : Str) → last_is_slash (a ++ c ∷ s) ≡ last_is_slash (c ∷ s)
last_of_append [] c s = refl
last_of_append (x ∷ []) c s = refl
last_of_append (x ∷ y ∷ a) c s = last_of_append (y ∷ a) c s

last-NoSlash : (s : Str) → NoSlash s → last_is_slash s ≡ false
last-NoSlash [] h = refl
last-NoSlash (c ∷ []) (h, _) = h
last-NoSlash (c ∷ d ∷ s) (_, h) = last-NoSlash (d ∷ s) h

path_join_lem :
    (a : Str) (d : ℕ) (b : Str)
    → IsFolder a
    → (d == b'/') ≡ false
    → path_join a (d ∷ b) ≡ a ++ (b'/' ∷ d ∷ b)
unfolding path_join IsFolder
path_join_lem [] d b (some_path, _) h = absurd (some_path refl)
path_join_lem (c ∷ a) d b (_, no_slash) h = rw (h, no_slash) refl

-- part<i>
unfoldable pub folder : ℕ → Str
folder i = codes "part" ++ show i

folder-NoSlash : (i : ℕ) → NoSlash (folder i)
unfolding folder
folder-NoSlash i = (refl, (refl, (refl, (refl, show-no_slash i))))

pub part_folder-IsFolder : (out : Str) (i : ℕ) → IsFolder (out ++ (b'/' ∷ folder i))
unfolding folder IsFolder
part_folder-IsFolder out i = (
  nonempty out b'/' (folder i),
  last_of_append out b'/' (folder i) ∙ last-NoSlash (folder i) (folder-NoSlash i),
)
  where
    nonempty : (a : Str) (c : ℕ) (s : Str) → a ++ c ∷ s ≢ []
    nonempty [] c s h = cc
    nonempty (x ∷ a) c s h = cc

-- out_path/part<i>/name
pub part_path_lem :
    (out : Str) (i d : ℕ) (name : Str)
    → IsFolder out
    → (d == b'/') ≡ false
    → part_path out i (d ∷ name) ≡ (out ++ (b'/' ∷ folder i)) ++ (b'/' ∷ d ∷ name)
unfolding part_path folder
part_path_lem out i d name is_folder h =
    ap (λ p. path_join p (d ∷ name)) (path_join_lem out b'p' (codes "art" ++ show i) is_folder refl)
    ∙ path_join_lem (out ++ (b'/' ∷ folder i)) d name (part_folder-IsFolder out i) h

to_slash_none : (s : Str) → NoSlash s → to_slash s ≡ []
unfolding to_slash
to_slash_none [] h = refl
to_slash_none (c ∷ s) (h, hs) = rw (to_slash_none s hs, h) refl

to_slash_lem : (a s : Str) → NoSlash s → to_slash (a ++ (b'/' ∷ s)) ≡ a ++ (b'/' ∷ [])
unfolding to_slash
to_slash_lem [] s h = rw (to_slash_none s h) refl
to_slash_lem (c ∷ []) s h = rw (to_slash_none s h) refl
to_slash_lem (c ∷ e ∷ a) s h = rw (to_slash_lem (e ∷ a) s h) refl

rstrip_lem : (a : Str) → IsFolder a → rstrip_slashes (a ++ (b'/' ∷ [])) ≡ a
unfolding rstrip_slashes IsFolder
rstrip_lem [] (some_path, _) = absurd (some_path refl)
rstrip_lem (c ∷ []) (_, h) = rw h refl
rstrip_lem (c ∷ e ∷ a) (_, h) = rw (rstrip_lem (e ∷ a) ((λ p. cc), h)) refl

-- The folder of a file in a folder.
pub dirname_lem : (a name : Str) → IsFolder a → NoSlash name → dirname (a ++ (b'/' ∷ name)) ≡ a
unfolding dirname IsFolder
dirname_lem [] name (some_path, _) no_slash = absurd (some_path refl)
dirname_lem (c ∷ a) name is_folder no_slash =
    let stripped : rstrip_slashes (to_slash ((c ∷ a) ++ (b'/' ∷ name))) ≡ c ∷ a =
      ap rstrip_slashes (to_slash_lem (c ∷ a) name no_slash) ∙ rstrip_lem (c ∷ a) is_folder in
    rw stripped refl

-- A path from the folder of the config to a file of a part is the path at which the part is stored.
pub relative_to_lem :
    (out : Str) (config : Str) (i d : ℕ) (name : Str)
    → IsFolder out
    → NoSlash config
    → (d == b'/') ≡ false
    → relative_to (out ++ (b'/' ∷ config)) (folder i ++ (b'/' ∷ d ∷ name))
      ≡ part_path out i (d ∷ name)
unfolding relative_to folder
relative_to_lem out config i d name is_folder no_slash h =
    ap (λ p. path_join p (folder i ++ (b'/' ∷ d ∷ name)))
      (dirname_lem out config is_folder no_slash)
    ∙ path_join_lem out b'p' (codes "art" ++ (show i ++ (b'/' ∷ d ∷ name))) is_folder refl
    ∙ sym (append_assoc out (b'/' ∷ folder i) (b'/' ∷ d ∷ name))
    ∙ sym (part_path_lem out i d name is_folder h)

-- Files of one length in two parts, or two files of a part, have different paths.
pub part_paths_differ :
    (out : Str) (i j d e : ℕ) (name other : Str)
    → IsFolder out
    → (d == b'/') ≡ false
    → (e == b'/') ≡ false
    → length name ≡ length other
    → (i ≡ j → d ∷ name ≢ e ∷ other)
    → str_eq (part_path out i (d ∷ name)) (part_path out j (e ∷ other)) ≡ false
unfolding folder
part_paths_differ out i j d e name other is_folder h h' same differ =
    elim (Bool-cases (str_eq (part_path out i (d ∷ name)) (part_path out j (e ∷ other)))) [
      | inl t ↦
          let paths : part_path out i (d ∷ name) ≡ part_path out j (e ∷ other) =
            (str_eq_iff _ _).0 t in
          let (folders, names) =
            append_eq (out ++ (b'/' ∷ folder i)) (out ++ (b'/' ∷ folder j)) (b'/' ∷ d ∷ name)
              (b'/' ∷ e ∷ other) (omega arith)
              (sym (part_path_lem out i d name is_folder h)
                ∙ paths
                ∙ part_path_lem out j e other is_folder h') in
          absurd (
            differ
              (show-injective i j
                (drop_front (b'/' ∷ codes "part") (show i) (show j) (drop_front out _ _ folders)))
              (drop_front (b'/' ∷ []) (d ∷ name) (e ∷ other) names))
      | inr t ↦ t
    ]
  where
    drop_front : (p s t : Str) → p ++ s ≡ p ++ t → s ≡ t
    drop_front [] s t h = h
    drop_front (c ∷ p) s t h = drop_front p s t (cc)
