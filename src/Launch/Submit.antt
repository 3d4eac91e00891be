-- ===== src/Launch/Submit.antt =====
-- tools/launch.py: `submit_jobs`. The commands that it runs on other machines are recorded in the
-- order in which their threads are started.
pub mod Plan
pub mod Clients
pub mod Whole
use bear_rpc.Base.{
  ℕ, zero, suc, ◌+◌, ◌*◌, ◌/◌, Bool, true, false, Option, none, some, List, [], ◌∷◌, ◌++◌, length,
  get_elem?, if◌then◌else◌, ◌==◌, ℤ, pos, Result, ok, raise, Error, assertion, index_error,
  os_error, Exec, map,
}
use bear_rpc.Base.Monad.{pure, fail, lift, ◌>>=◌, ◌>>◌}
use bear_rpc.Text.{Str, codes, str_eq}
use bear_rpc.Text.Lines.{file_lines}
use bear_rpc.Text.Number.{show, show_int}
use bear_rpc.Launch.Env.{
  ServerVars, ClientVars, construct_dgl_server_env_vars, construct_dgl_client_env_vars,
  wrap_cmd_with_local_envvars, wrap_cmd_with_extra_envvars,
}
use bear_rpc.Launch.Torch.{TorchArgs, wrap_udf_in_torch_dist_launcher}
use bear_rpc.Launch.Ports.{Network, get_available_port}
use bear_rpc.Launch.Servers.{Files, State, has_alive_servers}
use bear_rpc.Launch.Hosts.{Host, read_hosts, server_count}
use bear_rpc.Launch.Remote.{Completion, ssh_cmd, task_fails}

-- The parsed options, as `main` hands them over.
pub record Args : Type 0 where
  pub ssh_port : ℤ
  pub ssh_username : Str
  pub workspace : Str
  pub num_trainers : ℕ
  pub num_omp_threads : ℤ
  pub num_samplers : ℕ
  pub num_servers : ℕ
  pub part_config : Str
  pub ip_config : Str
  pub num_server_threads : ℕ
  pub graph_format : Str
  pub extra_envs : List Str
  pub keep_alive : Bool
  pub server_name : Option Str

-- What the launcher finds around it: the network, the file lock, the JSON reader with its values
-- and their comparison with an integer, two variables of the environment, and how the threads of
-- the started commands end, in the order in which they end.
pub record System : Type 1 where
  pub net : Network
  pub acquire : Str → Files → Files
  pub Json : Type 0
  pub json_load : Str → Result (List (Str × Json))
  pub equals_int : Json → ℕ → Bool
  pub pythonpath : Option Str
  pub omp_num_threads : Option Str
  pub completions : List Str → List Completion

abbrev pub last_is_slash : Str → Bool
last_is_slash [] = false
last_is_slash (c ∷ []) = c == b'/'
last_is_slash (_ ∷ c ∷ s) = last_is_slash (c ∷ s)

-- os.path.join(a, b), on a POSIX system
unfoldable pub path_join : Str → Str → Str
path_join [] b = b
path_join (c ∷ a) [] = if last_is_slash (c ∷ a) then c ∷ a else (c ∷ a) ++ codes "/"
path_join (c ∷ a) (d ∷ b) =
    if d == b'/'
    then d ∷ b
    else if last_is_slash (c ∷ a)
    then (c ∷ a) ++ d ∷ b
    else (c ∷ a) ++ (b'/' ∷ d ∷ b)

module _ {ℓ} {A : Type ℓ} where
  -- d[key], or none where the key is missing; the last entry of a key counts.
  unfoldable pub lookup : Str → List (Str × A) → Option A
  lookup key [] = none
  lookup key ((k, v) ∷ rest) = elim (lookup key rest) [
    | some w ↦ some w
    | none ↦ if str_eq k key then some v else none
  ]

abbrev pub or_empty : Option Str → Str
or_empty none = []
or_empty (some s) = s

abbrev or_else : Option Str → Str → Str
or_else none s = s
or_else (some t) s = t

-- What `submit_jobs` returns, or the exit that it makes.
pub data Outcome : Type 0 where
  commands : List Str → List Str → Outcome
  succeeded : Outcome
  exit_failed : Outcome

-- The prefix of both kinds of commands.
unfoldable pub in_workspace : Args → Str → Str → Str
unfolding wrap_cmd_with_local_envvars wrap_cmd_with_extra_envvars
in_workspace args env_vars cmd =
    let local = wrap_cmd_with_local_envvars cmd env_vars in
    codes "cd "
    ++ (args.workspace
        ++ (codes "; " ++ elim args.extra_envs [
          | [] ↦ local
          | e ∷ es ↦ wrap_cmd_with_extra_envvars local (e ∷ es)
        ]))

-- tot_num_clients
abbrev pub total_clients : Args → ℕ → ℕ
total_clients args hosts = args.num_trainers * (1 + args.num_samplers) * hosts

module _ (sys : System) (args : Args) where
  unfoldable pub server_vars : ℕ → ServerVars
  server_vars tot_num_clients = record {
    num_samplers = args.num_samplers;
    num_server_threads = args.num_server_threads;
    tot_num_clients = tot_num_clients;
    part_config = args.part_config;
    ip_config = args.ip_config;
    num_servers = args.num_servers;
    graph_format = args.graph_format;
    keep_alive = args.keep_alive;
    pythonpath = or_empty sys.pythonpath;
  }

  unfoldable pub client_vars : ℕ → ℤ → ClientVars
  client_vars tot_num_clients group_id = record {
    num_samplers = args.num_samplers;
    tot_num_clients = tot_num_clients;
    part_config = args.part_config;
    ip_config = args.ip_config;
    num_servers = args.num_servers;
    graph_format = args.graph_format;
    num_omp_threads = or_else sys.omp_num_threads (show_int args.num_omp_threads);
    group_id = group_id;
    pythonpath = or_empty sys.pythonpath;
  }

-- The command of the server with this ID.
unfoldable pub server_cmd : Args → Str → Str → ℕ → Str
unfolding in_workspace
server_cmd args udf_command server_env_vars i =
    in_workspace args (server_env_vars ++ (codes " DGL_SERVER_ID=" ++ show i)) udf_command

-- The command of the clients on one host.
unfoldable pub client_cmd : Args → Str → Str → TorchArgs → Str
unfolding in_workspace
client_cmd args udf_command client_env_vars torch =
    in_workspace args client_env_vars (wrap_udf_in_torch_dist_launcher udf_command torch)

-- The state of a launch: the network, the files with the globals, and the ssh commands started.
pub record Run (net : Network) : Type 0 where
  pub world : net.World
  pub servers : State
  pub started : List Str

module _ (net : Network) where
  -- A step on a part of the state.
  on_world : {A : Type 0} → Exec net.World A → Exec (Run net) A
  on_world m s = let (r, w) = m s.world in (r, record s { world = w })

  on_servers : {A : Type 0} → Exec State A → Exec (Run net) A
  on_servers m s = let (r, t) = m s.servers in (r, record s { servers = t })

  -- open(path), for its text
  open_file : Str → Exec (Run net) Str
  open_file path s = elim (s.servers.files path) [
    | none ↦ (raise os_error, s)
    | some text ↦ (ok text, s)
  ]

module _ (sys : System) (args : Args) (udf_command : Str) (dry_run : Bool) where
  -- execute_remote(cmd, state_q, ip, args.ssh_port, username=args.ssh_username), unless it is a dry
  -- run
  pub start : Str → Str → Exec (Run sys.net) (Unit {0})
  start ip cmd s = if dry_run then (ok tt, s) else (
    ok tt,
    record s { started = s.started ++ ssh_cmd cmd ip args.ssh_port args.ssh_username ∷ [] },
  )

  -- The servers i, i + 1, … of `count` more rounds, each on the host `i / server_count_per_machine`.
  pub launch_servers : Str → List Host → ℕ → ℕ → ℕ → Exec (Run sys.net) (List Str)
  launch_servers env hosts per_machine zero i = pure []
  launch_servers env hosts per_machine (suc count) i = elim (get_elem? hosts (i / per_machine)) [
    | none ↦ fail index_error
    | some (ip, _) ↦ do
      let cmd = server_cmd args udf_command env i
      start ip cmd
      cmds ← launch_servers env hosts per_machine count (i + 1)
      pure (cmd ∷ cmds)
  ]

  -- The clients of the hosts from `node_id` on.
  pub launch_clients : Str → (ℕ → TorchArgs) → List Host → ℕ → Exec (Run sys.net) (List Str)
  launch_clients env torch [] node_id = pure []
  launch_clients env torch ((ip, _) ∷ hosts) node_id = do
    let cmd = client_cmd args udf_command env (torch node_id)
    start ip cmd
    cmds ← launch_clients env torch hosts (node_id + 1)
    pure (cmd ∷ cmds)

  -- The two assertions on the partition config.
  unfoldable pub check_parts : List (Str × sys.Json) → List Host → Result (Unit {0})
  unfolding lookup
  check_parts metadata hosts = elim (lookup (codes "num_parts") metadata) [
    | none ↦ raise (assertion "num_parts does not exist.")
    | some num_parts ↦
        if sys.equals_int num_parts (length hosts)
        then ok tt
        else raise (
            assertion
              "The number of graph partitions has to match the number of machines in the cluster.")
  ]

  -- hosts[0][0]
  pub master : List Host → Result Str
  master [] = raise index_error
  master ((ip, _) ∷ _) = ok ip

  -- What is done with the hosts and the answer of `has_alive_servers`.
  pub launch_all : List Host → Bool → Exec (Run sys.net) (List Str × List Str)
  unfolding launch_servers launch_clients master
  launch_all hosts alive = do
    let total = total_clients args (length hosts)
    let per_machine = server_count args.num_servers hosts
    let env = construct_dgl_server_env_vars (server_vars sys args total)
    servers_cmd ←
        (if alive
          then pure []
          else launch_servers env hosts per_machine (length hosts * per_machine) 0)
    group_id ← (λ s. (ok s.servers.globals.group_id, s))
    master_addr ← lift (master hosts)
    master_port ← on_world sys.net (get_available_port sys.net master_addr)
    clients_cmd ←
        launch_clients (construct_dgl_client_env_vars (client_vars sys args total group_id))
          (λ node_id. record {
            num_trainers = args.num_trainers;
            num_nodes = length hosts;
            node_rank = node_id;
            master_addr = master_addr;
            master_port = master_port;
          })
          hosts 0
    pure (clients_cmd, servers_cmd)

  -- What stands behind the launch: the commands are returned, or all threads are joined.
  pub conclude : List Str × List Str → Exec (Run sys.net) Outcome
  conclude (clients_cmd, servers_cmd) s =
      if dry_run
      then (ok (commands clients_cmd servers_cmd), s)
      else (ok (if task_fails (sys.completions s.started) then exit_failed else succeeded), s)

  pub submit_jobs : Exec (Run sys.net) Outcome
  unfolding on_world on_servers open_file check_parts launch_all conclude
  submit_jobs = do
    text ← open_file sys.net (path_join args.workspace args.ip_config)
    hosts ← on_world sys.net (read_hosts sys.net (file_lines text))
    config ← open_file sys.net (path_join args.workspace args.part_config)
    metadata ← lift (sys.json_load config)
    lift (check_parts metadata hosts)
    alive ← on_servers sys.net (has_alive_servers sys.acquire args.server_name args.keep_alive)
    cmds ← launch_all hosts alive
    conclude cmds
