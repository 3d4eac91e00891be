-- ===== src/Launch/Env/Words.antt =====
-- tools/launch.py: the words that the shell finds in the strings of environment variables.
use mathlib.Core.Bool.{not, ◌&&◌}
use bear_rpc.Base.{
  append-cons-ne-nil, ℕ, ◌≡◌, refl, ap, ◌∙◌, String, Bool, true, List, [], ◌∷◌, ◌++◌, map, arith,
  All, All-append,
}
use bear_rpc.Text.{Str, codes, join}
use bear_rpc.Text.Number.{show, show_int, show-IsWord, show_int-IsPlain}
use bear_rpc.Text.Split.{is_space, split, split-word, split-last, split_from, IsPlain, IsWord}
use bear_rpc.Launch.Env.{
  field, suffix_optional_envvars, ServerVars, ClientVars, int_of_bool,
  construct_dgl_server_env_vars, construct_dgl_client_env_vars, wrap_cmd_with_extra_envvars,
}

-- One assignment of a variable, as a word of the command.
abbrev pub assigned : String × Str → Str
assigned (key, value) = codes key ++ b'=' ∷ value

abbrev optional : Str → List (String × Str)
optional [] = []
optional (c ∷ path) = ("PYTHONPATH", c ∷ path) ∷ []

-- What the servers of a run are told.
abbrev pub server_assignments : ServerVars → List (String × Str)
server_assignments v =
    ("DGL_ROLE", codes "server")
    ∷ ("DGL_NUM_SAMPLER", show v.num_samplers)
    ∷ ("OMP_NUM_THREADS", show v.num_server_threads)
    ∷ ("DGL_NUM_CLIENT", show v.tot_num_clients)
    ∷ ("DGL_CONF_PATH", v.part_config)
    ∷ ("DGL_IP_CONFIG", v.ip_config)
    ∷ ("DGL_NUM_SERVER", show v.num_servers)
    ∷ ("DGL_GRAPH_FORMAT", v.graph_format)
    ∷ ("DGL_KEEP_ALIVE", show (int_of_bool v.keep_alive))
    ∷ optional v.pythonpath

-- What the clients of a run are told.
abbrev pub client_assignments : ClientVars → List (String × Str)
client_assignments v =
    ("DGL_DIST_MODE", codes "distributed")
    ∷ ("DGL_ROLE", codes "client")
    ∷ ("DGL_NUM_SAMPLER", show v.num_samplers)
    ∷ ("DGL_NUM_CLIENT", show v.tot_num_clients)
    ∷ ("DGL_CONF_PATH", v.part_config)
    ∷ ("DGL_IP_CONFIG", v.ip_config)
    ∷ ("DGL_NUM_SERVER", show v.num_servers)
    ∷ ("DGL_GRAPH_FORMAT", v.graph_format)
    ∷ ("OMP_NUM_THREADS", v.num_omp_threads)
    ∷ ("DGL_GROUP_ID", show_int v.group_id)
    ∷ optional v.pythonpath

-- Whether a text has no white space, as a test that runs.
is_plain : Str → Bool
is_plain [] = true
is_plain (c ∷ s) = not (is_space c) && is_plain s

is_plain_sound : (s : Str) → is_plain s ≡ true → IsPlain s
unfolding is_plain
is_plain_sound [] h = tt
is_plain_sound (c ∷ s) h = (ground arith, is_plain_sound s (ground arith))

-- An assignment that the shell reads as one word.
abbrev IsPlainAssignment : String × Str → Type 0
IsPlainAssignment (key, value) = IsPlain (codes key) × IsPlain value

assigned-IsWord : (a : String × Str) → IsPlainAssignment a → IsWord (assigned a)
assigned-IsWord (key, value) (hk, hv) = (
  append-cons-ne-nil (codes key) b'=' value,
  All-append _ (codes key) (b'=' ∷ value) hk (unfold is_space in refl, hv),
)

-- The template of a list of assignments.
fields : List (String × Str) → Str
fields [] = []
fields ((key, value) ∷ rest) = field key value (fields rest)

split-fields :
    (l : List (String × Str)) → All IsPlainAssignment l → split (fields l) ≡ map assigned l
split-fields [] h = unfold fields split split_from in refl
split-fields ((key, value) ∷ rest) (h, hs) = step (split-fields rest hs)
  where
    step :
        split (fields rest) ≡ map assigned rest
        → split (fields ((key, value) ∷ rest)) ≡ assigned (key, value) ∷ map assigned rest
    step ih =
        unfold fields field in
        split-word (assigned (key, value)) (fields rest) (assigned-IsWord (key, value) h)
        ∙ ap (λ l. assigned (key, value) ∷ l) ih

plain_key : (key : String) → is_plain (codes key) ≡ true → IsPlain (codes key)
plain_key key h = is_plain_sound (codes key) h

number : (key : String) (n : ℕ) → is_plain (codes key) ≡ true → IsPlainAssignment (key, show n)
number key n h = (plain_key key h, (show-IsWord n).1)

text :
    (key : String) (v : Str) → is_plain (codes key) ≡ true → IsPlain v → IsPlainAssignment (key, v)
text key v h hv = (plain_key key h, hv)

optional_plain : (path : Str) → IsPlain path → All IsPlainAssignment (optional path)
unfolding is_plain is_space
optional_plain [] h = tt
optional_plain (c ∷ path) h = (text "PYTHONPATH" (c ∷ path) refl h, tt)

-- The texts among the arguments hold no white space.
pub record IsPlainServer (v : ServerVars) : Type 0 where
  pub part_config : IsPlain v.part_config
  pub ip_config : IsPlain v.ip_config
  pub graph_format : IsPlain v.graph_format
  pub pythonpath : IsPlain v.pythonpath

pub record IsPlainClient (v : ClientVars) : Type 0 where
  pub part_config : IsPlain v.part_config
  pub ip_config : IsPlain v.ip_config
  pub graph_format : IsPlain v.graph_format
  pub num_omp_threads : IsPlain v.num_omp_threads
  pub pythonpath : IsPlain v.pythonpath

suffix-fields : (path : Str) → suffix_optional_envvars path ≡ fields (optional path)
unfolding suffix_optional_envvars fields
suffix-fields [] = refl
suffix-fields (c ∷ path) = refl

server-fields : (v : ServerVars) → construct_dgl_server_env_vars v ≡ fields (server_assignments v)
unfolding construct_dgl_server_env_vars fields
server-fields v = rw (suffix-fields v.pythonpath)

client-fields : (v : ClientVars) → construct_dgl_client_env_vars v ≡ fields (client_assignments v)
unfolding construct_dgl_client_env_vars fields
client-fields v = rw (suffix-fields v.pythonpath)

server_assignments_plain :
    (v : ServerVars) → IsPlainServer v → All IsPlainAssignment (server_assignments v)
unfolding is_plain is_space
server_assignments_plain v h = (
  text "DGL_ROLE" (codes "server") refl (is_plain_sound (codes "server") refl),
  (
    number "DGL_NUM_SAMPLER" v.num_samplers refl,
    (
      number "OMP_NUM_THREADS" v.num_server_threads refl,
      (
        number "DGL_NUM_CLIENT" v.tot_num_clients refl,
        (
          text "DGL_CONF_PATH" v.part_config refl h.part_config,
          (
            text "DGL_IP_CONFIG" v.ip_config refl h.ip_config,
            (
              number "DGL_NUM_SERVER" v.num_servers refl,
              (
                text "DGL_GRAPH_FORMAT" v.graph_format refl h.graph_format,
                (
                  number "DGL_KEEP_ALIVE" (int_of_bool v.keep_alive) refl,
                  optional_plain v.pythonpath h.pythonpath,
                ),
              ),
            ),
          ),
        ),
      ),
    ),
  ),
)

client_assignments_plain :
    (v : ClientVars) → IsPlainClient v → All IsPlainAssignment (client_assignments v)
unfolding is_plain is_space
client_assignments_plain v h = (
  text "DGL_DIST_MODE" (codes "distributed") refl (is_plain_sound (codes "distributed") refl),
  (
    text "DGL_ROLE" (codes "client") refl (is_plain_sound (codes "client") refl),
    (
      number "DGL_NUM_SAMPLER" v.num_samplers refl,
      (
        number "DGL_NUM_CLIENT" v.tot_num_clients refl,
        (
          text "DGL_CONF_PATH" v.part_config refl h.part_config,
          (
            text "DGL_IP_CONFIG" v.ip_config refl h.ip_config,
            (
              number "DGL_NUM_SERVER" v.num_servers refl,
              (
                text "DGL_GRAPH_FORMAT" v.graph_format refl h.graph_format,
                (
                  text "OMP_NUM_THREADS" v.num_omp_threads refl h.num_omp_threads,
                  (
                    text "DGL_GROUP_ID" (show_int v.group_id) refl (show_int-IsPlain v.group_id),
                    optional_plain v.pythonpath h.pythonpath,
                  ),
                ),
              ),
            ),
          ),
        ),
      ),
    ),
  ),
)

-- If no text among the arguments holds white space, the string of the server's variables splits
-- into exactly the words KEY=value of `server_assignments`, in this order: the nine variables with
-- the arguments' values, and PYTHONPATH behind them just if it is not empty.
pub split-server_env_vars :
    (v : ServerVars)
    → IsPlainServer v
    → split (construct_dgl_server_env_vars v) ≡ map assigned (server_assignments v)
split-server_env_vars v h =
    rw (server-fields v) (split-fields (server_assignments v) (server_assignments_plain v h))

-- If no text among the arguments holds white space, the string of the client's variables splits
-- into exactly the words KEY=value of `client_assignments`, in this order: the ten variables with
-- the arguments' values, and PYTHONPATH behind them just if it is not empty.
pub split-client_env_vars :
    (v : ClientVars)
    → IsPlainClient v
    → split (construct_dgl_client_env_vars v) ≡ map assigned (client_assignments v)
split-client_env_vars v h =
    rw (client-fields v) (split-fields (client_assignments v) (client_assignments_plain v h))

-- Joining words with blanks and splitting gives the words back.
split-join : (words : List Str) → All IsWord words → split (join (codes " ") words) ≡ words
unfolding join
split-join [] h = unfold split split_from in refl
split-join (w ∷ []) (h, _) = split-last w h
split-join (w ∷ u ∷ words) (h, hs) =
    split-word w (join (codes " ") (u ∷ words)) h ∙ ap (λ l. w ∷ l) (split-join (u ∷ words) hs)

-- Behind extra variables that are words each, the command becomes "(export E; cmd)" for a text E
-- that splits into exactly those words.
pub wrap_cmd_with_extra_envvars_lem :
    (cmd : Str) (env_vars : List Str)
    → All IsWord env_vars
    → (exported : Str) × (wrap_cmd_with_extra_envvars cmd env_vars
        ≡ codes "(export " ++ (exported ++ (codes "; " ++ (cmd ++ codes ")"))))
      × (split exported ≡ env_vars)
unfolding wrap_cmd_with_extra_envvars
wrap_cmd_with_extra_envvars_lem cmd env_vars h =
    (join (codes " ") env_vars, refl, split-join env_vars h)
