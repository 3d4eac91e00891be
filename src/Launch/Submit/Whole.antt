-- ===== src/Launch/Submit/Whole.antt =====
-- tools/launch.py, `submit_jobs`: whole runs, and the runs that stop before a command is started.
use bear_rpc.Base.{
  ℕ, ◌*◌, ◌≡◌, refl, ap, ◌∙◌, Bool, true, false, some, List, [], ◌∷◌, ◌++◌, append-nil, map, length,
  if◌then◌else◌, ℤ, Result, ok, raise, assertion, Exec, Option, none, String,
}
use bear_rpc.Base.Monad.{pure, lift, ◌>>=◌, ◌>>◌, bind_ok, bind_raise}
use bear_rpc.Text.{Str, codes}
use bear_rpc.Text.Lines.{file_lines}
use bear_rpc.Launch.Env.{construct_dgl_server_env_vars, construct_dgl_client_env_vars}
use bear_rpc.Launch.Torch.{TorchArgs}
use bear_rpc.Launch.Ports.{Network, get_available_port}
use bear_rpc.Launch.Servers.{State, has_alive_servers}
use bear_rpc.Launch.Hosts.{Host, read_hosts, server_count}
use bear_rpc.Launch.Remote.{task_fails}
use bear_rpc.Launch.Submit.{
  Args, System, Run, commands, succeeded, exit_failed, path_join, total_clients, server_vars,
  client_vars, server_cmd, client_cmd, lookup, on_world, on_servers, open_file, launch_servers,
  launch_clients, check_parts, launch_all, conclude, submit_jobs,
}
use bear_rpc.Launch.Submit.Plan.{
  server_plan, started_by, started_by-nil, started_by-dry, launch_servers_lem,
}
use bear_rpc.Launch.Submit.Clients.{
  client_plan, clients_started, clients_started-dry, launch_clients_lem,
}

module _ (net : Network) {A : Type 0} where
  on_world_lem :
      (m : Exec net.World A) (s : Run net) (r : Result A) (w : net.World)
      → m s.world ≡ (r, w)
      → on_world net m s ≡ (r, record s { world = w })
  on_world_lem m s r w h = unfold on_world in ap (λ t. (t.0, record s { world = t.1 })) h

  on_servers_lem :
      (m : Exec State A) (s : Run net) (r : Result A) (t : State)
      → m s.servers ≡ (r, t)
      → on_servers net m s ≡ (r, record s { servers = t })
  on_servers_lem m s r t h = unfold on_servers in ap (λ u. (u.0, record s { servers = u.1 })) h

open_file_lem :
    (net : Network) (path text : Str) (s : Run net)
    → s.servers.files path ≡ some text
    → open_file net path s ≡ (ok text, s)
open_file_lem net path text s h = unfold open_file in rw (h, open_file) refl

-- The hosts and the partition config that a launch reads, and the network behind the reading.
pub record Found (sys : System) (args : Args) (s : Run sys.net) (hosts : List Host)
    (metadata : List (Str × sys.Json)) (w : sys.net.World) : Type 0 where
  pub ip_text : Str
  pub config_text : Str
  pub ip_file : s.servers.files (path_join args.workspace args.ip_config) ≡ some ip_text
  pub hosts_read : read_hosts sys.net (file_lines ip_text) s.world ≡ (ok hosts, w)
  pub config_file : s.servers.files (path_join args.workspace args.part_config) ≡ some config_text
  pub config_loaded : sys.json_load config_text ≡ ok metadata

module _ (sys : System) (args : Args) (udf : Str) (dry_run : Bool) where
  -- The arguments of the torch launcher on each host of a run.
  pub torch_args : List Host → Str → ℕ → ℕ → TorchArgs
  torch_args hosts master_addr master_port node_id = record {
    num_trainers = args.num_trainers;
    num_nodes = length hosts;
    node_rank = node_id;
    master_addr = master_addr;
    master_port = master_port;
  }

  -- The plan of the servers that a launch starts: none where servers are alive.
  pub servers_of : List Host → Bool → List (Str × ℕ)
  servers_of hosts true = []
  servers_of hosts false = server_plan (server_count args.num_servers hosts) 0 hosts

  submit_jobs-Found :
      (s : Run sys.net) (hosts : List Host) (metadata : List (Str × sys.Json)) (w : sys.net.World)
      → Found sys args s hosts metadata w
      → submit_jobs sys args udf dry_run s
        ≡ (do
          lift (check_parts sys args udf dry_run metadata hosts)
          alive ←
              on_servers sys.net (has_alive_servers sys.acquire args.server_name args.keep_alive)
          cmds ← launch_all sys args udf dry_run hosts alive
          conclude sys args udf dry_run cmds)
            (record s { world = w })
  unfolding submit_jobs
  submit_jobs-Found s hosts metadata w f =
      let s' : Run sys.net = record s { world = w } in
      bind_ok (open_file sys.net (path_join args.workspace args.ip_config)) _ s s f.ip_text
        (open_file_lem sys.net _ f.ip_text s f.ip_file)
      ∙ bind_ok (on_world sys.net (read_hosts sys.net (file_lines f.ip_text))) _ s s' hosts (
          on_world_lem sys.net (read_hosts sys.net (file_lines f.ip_text)) s (ok hosts) w
            f.hosts_read)
      ∙ bind_ok (open_file sys.net (path_join args.workspace args.part_config)) _ s' s'
          f.config_text (open_file_lem sys.net _ f.config_text s' f.config_file)
      ∙ bind_ok (lift (sys.json_load f.config_text)) _ s' s' metadata
          (ap (λ r. (r, s')) f.config_loaded)

  check_parts-mismatch :
      (hosts : List Host) (metadata : List (Str × sys.Json))
      → ((num_parts : sys.Json)
          → lookup (codes "num_parts") metadata ≡ some num_parts
          → sys.equals_int num_parts (length hosts) ≡ false)
      → (message : String) × (check_parts sys args udf dry_run metadata hosts
          ≡ raise (assertion message))
  unfolding check_parts
  check_parts-mismatch hosts metadata differs = mismatch (lookup (codes "num_parts") metadata) refl
    where
      mismatch :
          (found : Option sys.Json)
          → lookup (codes "num_parts") metadata ≡ found
          → (message : String) × (check_parts sys args udf dry_run metadata hosts
              ≡ raise (assertion message))
      mismatch none h = ("num_parts does not exist.", rw (check_parts, h) refl)
      mismatch (some num_parts) h = (
        "The number of graph partitions has to match the number of machines in the cluster.",
        rw (check_parts, h, differs num_parts h) refl,
      )

  -- Where the partition config has no 'num_parts' that equals the number of hosts, the run raises an
  -- assertion and stops before it asks for alive servers: only the network was used, by the reading of
  -- the hosts, no file and no global is changed, and no command is started.
  pub submit_jobs-check_parts :
      (s : Run sys.net) (hosts : List Host) (metadata : List (Str × sys.Json)) (w : sys.net.World)
      → Found sys args s hosts metadata w
      → ((num_parts : sys.Json)
          → lookup (codes "num_parts") metadata ≡ some num_parts
          → sys.equals_int num_parts (length hosts) ≡ false)
      → (message : String) × (submit_jobs sys args udf dry_run s
          ≡ (raise (assertion message), record s { world = w }))
  submit_jobs-check_parts s hosts metadata w f differs =
      let (message, h) = check_parts-mismatch hosts metadata differs in
      (
        message,
        submit_jobs-Found s hosts metadata w f
            ∙ bind_raise (lift (check_parts sys args udf dry_run metadata hosts)) _
                (record s { world = w }) (record s { world = w }) (assertion message)
                (ap (λ r. (r, record s { world = w })) h),
      )

  -- The string of the servers' variables, and that of the clients' for a group.
  pub server_env : List Host → Str
  server_env hosts =
      construct_dgl_server_env_vars (server_vars sys args (total_clients args (length hosts)))

  pub client_env : List Host → ℤ → Str
  client_env hosts group_id =
      construct_dgl_client_env_vars
        (client_vars sys args (total_clients args (length hosts)) group_id)

  -- The state behind the start of all servers and clients.
  pub launched : Run sys.net → List Host → Bool → Str → ℕ → sys.net.World → Run sys.net
  launched s hosts alive master_addr master_port w = record s {
    world = w;
    started =
        s.started
        ++ started_by args udf (server_env hosts) dry_run (servers_of hosts alive)
        ++ clients_started args udf (client_env hosts s.servers.globals.group_id)
            (torch_args hosts master_addr master_port) dry_run (client_plan 0 hosts);
  }

  -- The commands of the clients and of the servers.
  pub all_commands : List Host → Bool → Str → ℕ → ℤ → List Str × List Str
  all_commands hosts alive master_addr master_port group_id = (
    map
        (λ (_, n).
          client_cmd args udf (client_env hosts group_id)
            (torch_args hosts master_addr master_port n))
        (client_plan 0 hosts),
    map (λ (_, i). server_cmd args udf (server_env hosts) i) (servers_of hosts alive),
  )

  start_servers_lem :
      (hosts : List Host) (alive : Bool) (s : Run sys.net)
      → (if alive
            then pure []
            else launch_servers sys args udf dry_run
                (server_env hosts)
                hosts
                (server_count args.num_servers hosts)
                (length hosts * server_count args.num_servers hosts)
                0)
          s
        ≡ (
          ok (map (λ (_, i). server_cmd args udf (server_env hosts) i) (servers_of hosts alive)),
          record s {
            started =
                s.started
                ++ started_by args udf (server_env hosts) dry_run (servers_of hosts alive);
          },
        )
  start_servers_lem hosts true s =
      unfold servers_of in
      rw (started_by-nil sys args udf dry_run (server_env hosts) dry_run, append-nil)
  start_servers_lem hosts false s =
      unfold servers_of in
      launch_servers_lem sys args udf dry_run (server_env hosts)
        (server_count args.num_servers hosts) hosts s

  launch_all_lem :
      (s : Run sys.net) (ip : Str) (p : ℤ) (more : List Host) (alive : Bool) (port : ℕ)
      (w : sys.net.World)
      → get_available_port sys.net ip s.world ≡ (ok port, w)
      → launch_all sys args udf dry_run ((ip, p) ∷ more) alive s ≡ (
        ok (all_commands ((ip, p) ∷ more) alive ip port s.servers.globals.group_id),
        launched s ((ip, p) ∷ more) alive ip port w,
      )
  unfolding launch_all server_env client_env all_commands launched torch_args
  launch_all_lem s ip p more alive port w h =
      let hosts : List Host = (ip, p) ∷ more in
      let s₁ : Run sys.net = record s {
        started =
            s.started ++ started_by args udf (server_env hosts) dry_run (servers_of hosts alive);
      } in
      let s₂ : Run sys.net = record s₁ { world = w } in
      bind_ok
        (if alive
          then pure []
          else launch_servers sys args udf dry_run (server_env hosts) hosts
              (server_count args.num_servers hosts)
              (length hosts * server_count args.num_servers hosts) 0)
        _ s s₁ _ (start_servers_lem hosts alive s)
      ∙ bind_ok (on_world sys.net (get_available_port sys.net ip)) _ s₁ s₂ port
          (on_world_lem sys.net (get_available_port sys.net ip) s₁ (ok port) w h)
      ∙ bind_ok
          (launch_clients sys args udf dry_run (client_env hosts s.servers.globals.group_id)
            (torch_args hosts ip port) hosts 0)
          _ s₂ _ _
          (launch_clients_lem sys args udf dry_run (client_env hosts s.servers.globals.group_id)
            (torch_args hosts ip port) hosts 0 s₂)

  submit_jobs-launched :
      (s : Run sys.net) (ip : Str) (p : ℤ) (more : List Host) (metadata : List (Str × sys.Json))
      (w w' : sys.net.World) (alive : Bool) (t : State) (port : ℕ)
      → Found sys args s ((ip, p) ∷ more) metadata w
      → check_parts sys args udf dry_run metadata ((ip, p) ∷ more) ≡ ok tt
      → has_alive_servers sys.acquire args.server_name args.keep_alive s.servers ≡ (ok alive, t)
      → get_available_port sys.net ip w ≡ (ok port, w')
      → submit_jobs sys args udf dry_run s
        ≡ conclude sys args udf dry_run
            (all_commands ((ip, p) ∷ more) alive ip port t.globals.group_id)
            (launched (record s { world = w; servers = t }) ((ip, p) ∷ more) alive ip port w')
  submit_jobs-launched s ip p more metadata w w' alive t port f parts asked free =
      let hosts : List Host = (ip, p) ∷ more in
      let s₁ : Run sys.net = record s { world = w } in
      let s₂ : Run sys.net = record s₁ { servers = t } in
      submit_jobs-Found s hosts metadata w f
      ∙ bind_ok (lift (check_parts sys args udf dry_run metadata hosts)) _ s₁ s₁ tt
          (ap (λ r. (r, s₁)) parts)
      ∙ bind_ok
          (on_servers sys.net (has_alive_servers sys.acquire args.server_name args.keep_alive)) _ s₁
          s₂ alive
          (on_servers_lem sys.net (has_alive_servers sys.acquire args.server_name args.keep_alive)
            s₁ (ok alive) t asked)
      ∙ bind_ok (launch_all sys args udf dry_run hosts alive) _ s₂ _ _
          (launch_all_lem s₂ ip p more alive port w' free)

module _ (sys : System) (args : Args) (udf : Str) (s : Run sys.net) (ip : Str) (p : ℤ)
    (more : List Host) (metadata : List (Str × sys.Json)) (w w' : sys.net.World) (alive : Bool)
    (t : State) (port : ℕ) (f : Found sys args s ((ip, p) ∷ more) metadata w)
    (asked : has_alive_servers sys.acquire args.server_name args.keep_alive s.servers
      ≡ (ok alive, t))
    (free : get_available_port sys.net ip w ≡ (ok port, w')) where
  -- A dry run that reads at least one host and a partition config that agrees, gets an answer to
  -- whether servers are alive and finds a port returns one client command for each host and the
  -- servers' commands of the plan, or no server command where servers are alive, and starts nothing.
  -- The monitor file is asked and updated all the same.
  pub submit_jobs-dry :
      check_parts sys args udf true metadata ((ip, p) ∷ more) ≡ ok tt
      → let (clients, servers) =
          all_commands sys args udf true ((ip, p) ∷ more) alive ip port t.globals.group_id in
        submit_jobs sys args udf true s
        ≡ (ok (commands clients servers), record s { world = w'; servers = t })
  submit_jobs-dry parts =
      submit_jobs-launched sys args udf true s ip p more metadata w w' alive t port f parts asked
        free
      ∙ unfold conclude launched in
        rw (started_by-dry, clients_started-dry, append-nil, append-nil) refl

  -- A real run that reads at least one host and a partition config that agrees, gets an answer to
  -- whether servers are alive and finds a port starts the servers of the plan, or none where servers
  -- are alive, and then a client on each host, and its outcome is a failure exactly if the codes of
  -- the threads that it has started say so.
  pub submit_jobs-real :
      check_parts sys args udf false metadata ((ip, p) ∷ more) ≡ ok tt
      → let s' =
          launched sys args udf false
            (record s { world = w; servers = t })
            ((ip, p) ∷ more)
            alive
            ip
            port
            w' in
        submit_jobs sys args udf false s
        ≡ (ok (if task_fails (sys.completions s'.started) then exit_failed else succeeded), s')
  submit_jobs-real parts =
      submit_jobs-launched sys args udf false s ip p more metadata w w' alive t port f parts asked
        free
      ∙ unfold conclude in refl
