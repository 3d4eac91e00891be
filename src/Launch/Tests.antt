-- ===== src/Launch/Tests.antt =====
-- tools/launch.py: runs of the ports, the monitor file, the hosts and the servers of the launcher, and
-- the theorems at concrete data.
mod Submit
mod Commands
use bear_rpc.Base.{
  ℕ, ◌*◌, ◌≡◌, refl, ◌⊎◌, ◌↔◌, Bool, true, false, none, some, List, [], ◌∷◌, ◌++◌, map, arith,
  length, ◌==◌, ltb, if◌then◌else◌, All, pos, negsuc, ok, raise, value_error,
}
use bear_rpc.Text.{Str, codes, str_eq, str_eq_iff, contains, replace}
use bear_rpc.Text.Lines.{file_lines, rstrip_newline}
use bear_rpc.Text.Number.{int, show, show_int, int-show_int}
use bear_rpc.Text.Split.{is_space, split, strip}
use bear_rpc.Text.Replace.{FirstAt}
use bear_rpc.Launch.Env.{
  ServerVars, ClientVars, construct_dgl_server_env_vars, construct_dgl_client_env_vars,
  wrap_cmd_with_extra_envvars,
}
use bear_rpc.Launch.Env.Words.{
  assigned, server_assignments, client_assignments, split-server_env_vars, split-client_env_vars,
  wrap_cmd_with_extra_envvars_lem,
}
use bear_rpc.Launch.Torch.{
  TorchArgs, construct_torch_dist_launcher_cmd, python_bin_allowlist, python_bin,
  wrap_udf_in_torch_dist_launcher,
}
use bear_rpc.Launch.Torch.Wrap.{Picked, python_bin-Picked, wrap_udf_lem}
use bear_rpc.Launch.Torch.Cut.{wrap_udf-python3_1x}
use bear_rpc.Launch.Ports.{Network, get_available_port, scan_ports}
use bear_rpc.Launch.Ports.Scan.{Scanned, get_available_port-Scanned, get_available_port-two}
use bear_rpc.Launch.Servers.{
  Files, fresh, State, monitor_path, lock_path, write, has_alive_servers, clean_alive_servers,
}
use bear_rpc.Launch.Servers.Monitor.{IsLock}
use bear_rpc.Launch.Servers.Groups.{
  launches, joined, launches_lem, files-has_alive_servers, clean-has_alive_servers,
}
use bear_rpc.Launch.Hosts.{Host, read_hosts}
use bear_rpc.Launch.Hosts.Format.{format_hosts, NamesAll, read_hosts-format_hosts, read_hosts_sound}
use bear_rpc.Launch.Remote.{Completion, completed, called_process_error, task_fails}
use bear_rpc.Launch.Remote.Codes.{success, failure, task_fails_lem}
use bear_rpc.Launch.Submit.{Args, System, Run, launch_servers, server_cmd}
use bear_rpc.Launch.Submit.Plan.{server_plan, started_by, launch_servers_lem}

-- A host on which the ports below a first free one are taken. The world is whether the socket is
-- connected; a connected socket cannot connect again.
abbrev busy : ℕ → Network
busy free = record {
  World = Bool;
  new_socket = λ w. false;
  connect = λ ip port w.
      if w then (false, true) else if ltb port free then (true, true) else (false, false);
}

get_available_port-Scanned_example :
    Scanned
      (busy 1240)
      (codes "h")
      1234
      65535
      false
      (get_available_port (busy 1240) (codes "h") false)
get_available_port-Scanned_example = get_available_port-Scanned (busy 1240) (codes "h") false

-- The ports 1234 to 1239 are taken, and 1235 is returned.
get_available_port-two_example :
    ((get_available_port (busy 1240) (codes "h") false).0 ≡ ok 1234)
    ⊎ ((get_available_port (busy 1240) (codes "h") false).0 ≡ ok 1235)
get_available_port-two_example =
    get_available_port-two (busy 1240) (codes "h") (λ w port port' h. ground arith) false

taken_port : get_available_port (busy 1240) (codes "h") false ≡ (ok 1235, true)
unfolding get_available_port scan_ports
taken_port = refl

-- A lock that writes an empty file at its path.
abbrev acquire : Str → Files → Files
acquire path = write path []

acquire-IsLock : IsLock acquire
unfolding write
acquire-IsLock = record {
  own = λ path files. rw ((str_eq_iff path path).1 refl) (λ e. cc);
  other = λ path p files h. rw h refl;
}

abbrev empty : Files
empty path = none

launches_lem_example :
    launches acquire (codes "s") (true ∷ false ∷ true ∷ []) empty
    ≡ (ok false, pos 0) ∷ (ok true, pos 1) ∷ (ok true, pos 2) ∷ []
unfolding joined
launches_lem_example =
    launches_lem acquire (codes "s") acquire-IsLock (false ∷ true ∷ []) empty refl

abbrev monitored : State
monitored = record { files = write (monitor_path (codes "s")) (codes "x") empty; globals = fresh }

files-has_alive_servers_example :
    (has_alive_servers acquire (some (codes "s")) true monitored).1.files (codes "/etc/hosts")
    ≡ monitored.files (codes "/etc/hosts")
unfolding str_eq
files-has_alive_servers_example =
    files-has_alive_servers acquire (codes "s") acquire-IsLock true monitored (codes "/etc/hosts")
      refl refl

-- A monitor file that holds no number raises a ValueError.
corrupt : (has_alive_servers acquire (some (codes "s")) true monitored).0 ≡ raise value_error
unfolding has_alive_servers write str_eq int strip is_space file_lines rstrip_newline
corrupt = refl

clean-has_alive_servers_example :
    (clean_alive_servers
        (has_alive_servers acquire
          (some (codes "s"))
          true
          (record { files = empty; globals = fresh })).1).files
      (monitor_path (codes "s"))
    ≡ (if str_eq (lock_path (codes "s")) (monitor_path (codes "s")) then none else none)
clean-has_alive_servers_example =
    clean-has_alive_servers acquire (codes "s") acquire-IsLock empty (monitor_path (codes "s")) refl

abbrev hosts : List Host
hosts = (codes "10.0.0.1", pos 30050) ∷ (codes "10.0.0.2", pos 30050) ∷ []

read_hosts-format_hosts_example :
    read_hosts (busy 0) (file_lines (format_hosts hosts)) false ≡ (ok hosts, false)
unfolding is_space
read_hosts-format_hosts_example = read_hosts-format_hosts (busy 0) hosts false (ground arith)

ip_config : List Str
ip_config = file_lines (codes "10.0.0.1\n10.0.0.2 5\n")

ip_config_read :
    read_hosts (busy 0) ip_config false
    ≡ (ok ((codes "10.0.0.1", pos 1234) ∷ (codes "10.0.0.2", pos 5) ∷ []), false)
unfolding ip_config file_lines read_hosts get_available_port scan_ports split strip is_space int
ip_config_read = refl

read_hosts_sound_example :
    NamesAll (busy 0) ip_config ((codes "10.0.0.1", pos 1234) ∷ (codes "10.0.0.2", pos 5) ∷ [])
read_hosts_sound_example = read_hosts_sound (busy 0) ip_config _ false false ip_config_read

abbrev ends : List Completion
ends = completed ∷ called_process_error (pos 1) ∷ completed ∷ []

task_fails_lem_example : (task_fails ends ≡ false) ↔ All (λ c. c ≡ completed) ends
task_fails_lem_example = task_fails_lem ends (success, (failure refl, (success, tt)))

abbrev args : Args
args = record {
  ssh_port = pos 22;
  ssh_username = [];
  workspace = codes "/w";
  num_trainers = 1;
  num_omp_threads = pos 4;
  num_samplers = 0;
  num_servers = 2;
  part_config = codes "p.json";
  ip_config = codes "ip.txt";
  num_server_threads = 1;
  graph_format = codes "csc";
  extra_envs = [];
  keep_alive = true;
  server_name = some (codes "s");
}

-- The partition config says that there are two parts.
abbrev system : System
system = record {
  net = busy 0;
  acquire = acquire;
  Json = ℕ;
  json_load = λ text. ok ((codes "num_parts", 2) ∷ []);
  equals_int = λ a b. a == b;
  pythonpath = none;
  omp_num_threads = none;
  completions = λ cmds. completed ∷ [];
}

abbrev idle : Run (busy 0)
idle = record { world = false; servers = record { files = empty; globals = fresh }; started = [] }

plan_of_two_hosts :
    server_plan 2 0 hosts
    ≡ (codes "10.0.0.1", 0)
      ∷ (codes "10.0.0.1", 1)
      ∷ (codes "10.0.0.2", 2)
      ∷ (codes "10.0.0.2", 3)
      ∷ []
unfolding server_plan
plan_of_two_hosts = refl

launch_servers_lem_example :
    launch_servers system args
      (codes "python3 t.py")
      false
      (codes "E=1")
      hosts
      2
      (length hosts * 2)
      0
      idle
    ≡ (
      ok (
          map
            (λ (_, i). server_cmd args (codes "python3 t.py") (codes "E=1") i)
            (server_plan 2 0 hosts)),
      record idle {
        started =
            idle.started
            ++ started_by args (codes "python3 t.py") (codes "E=1") false (server_plan 2 0 hosts);
      },
    )
launch_servers_lem_example =
    launch_servers_lem system args (codes "python3 t.py") false (codes "E=1") 2 hosts idle
