-- ===== src/Launch/Env.antt =====
-- tools/launch.py: `construct_dgl_server_env_vars`, `construct_dgl_client_env_vars`,
-- `wrap_cmd_with_local_envvars` and `wrap_cmd_with_extra_envvars`.
pub mod Words
use bear_rpc.Base.{ℕ, String, Bool, true, false, List, [], ◌∷◌, ◌++◌, if◌then◌else◌, ℤ}
use bear_rpc.Text.{Str, codes, join}
use bear_rpc.Text.Number.{show, show_int}

-- "KEY={value} " in front of the rest of a template
unfoldable pub field : String → Str → Str → Str
field key value rest = (codes key ++ b'=' ∷ value) ++ b' ' ∷ rest

-- if pythonpath: suffix_optional_envvars += f"PYTHONPATH={pythonpath} "
unfoldable pub suffix_optional_envvars : Str → Str
unfolding field
suffix_optional_envvars [] = []
suffix_optional_envvars (c ∷ path) = field "PYTHONPATH" (c ∷ path) []

-- The keyword arguments of `construct_dgl_server_env_vars`.
pub record ServerVars : Type 0 where
  pub num_samplers : ℕ
  pub num_server_threads : ℕ
  pub tot_num_clients : ℕ
  pub part_config : Str
  pub ip_config : Str
  pub num_servers : ℕ
  pub graph_format : Str
  pub keep_alive : Bool
  pub pythonpath : Str

-- int(b)
abbrev pub int_of_bool : Bool → ℕ
int_of_bool b = if b then 1 else 0

unfoldable pub construct_dgl_server_env_vars : ServerVars → Str
unfolding field suffix_optional_envvars
construct_dgl_server_env_vars v = field "DGL_ROLE" (codes "server") (
    field "DGL_NUM_SAMPLER" (show v.num_samplers) (
      field "OMP_NUM_THREADS" (show v.num_server_threads) (
        field "DGL_NUM_CLIENT" (show v.tot_num_clients) (
          field "DGL_CONF_PATH" v.part_config (
            field "DGL_IP_CONFIG" v.ip_config (
              field "DGL_NUM_SERVER" (show v.num_servers) (
                field "DGL_GRAPH_FORMAT" v.graph_format (
                  field "DGL_KEEP_ALIVE" (show (int_of_bool v.keep_alive))
                    (suffix_optional_envvars v.pythonpath)))))))))

-- The keyword arguments of `construct_dgl_client_env_vars`. The number of OMP threads comes from
-- the environment or from an integer option, so it is a text.
pub record ClientVars : Type 0 where
  pub num_samplers : ℕ
  pub tot_num_clients : ℕ
  pub part_config : Str
  pub ip_config : Str
  pub num_servers : ℕ
  pub graph_format : Str
  pub num_omp_threads : Str
  pub group_id : ℤ
  pub pythonpath : Str

unfoldable pub construct_dgl_client_env_vars : ClientVars → Str
unfolding field suffix_optional_envvars
construct_dgl_client_env_vars v = field "DGL_DIST_MODE" (codes "distributed") (
    field "DGL_ROLE" (codes "client") (
      field "DGL_NUM_SAMPLER" (show v.num_samplers) (
        field "DGL_NUM_CLIENT" (show v.tot_num_clients) (
          field "DGL_CONF_PATH" v.part_config (
            field "DGL_IP_CONFIG" v.ip_config (
              field "DGL_NUM_SERVER" (show v.num_servers) (
                field "DGL_GRAPH_FORMAT" v.graph_format (
                  field "OMP_NUM_THREADS" v.num_omp_threads (
                    field "DGL_GROUP_ID" (show_int v.group_id)
                      (suffix_optional_envvars v.pythonpath))))))))))

-- f"(export {env_vars}; {cmd})"
unfoldable pub wrap_cmd_with_local_envvars : Str → Str → Str
wrap_cmd_with_local_envvars cmd env_vars =
    codes "(export " ++ (env_vars ++ (codes "; " ++ (cmd ++ codes ")")))

unfoldable pub wrap_cmd_with_extra_envvars : Str → List Str → Str
unfolding wrap_cmd_with_local_envvars join
wrap_cmd_with_extra_envvars cmd env_vars =
    wrap_cmd_with_local_envvars cmd (join (codes " ") env_vars)
