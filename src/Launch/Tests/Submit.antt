-- ===== src/Launch/Tests/Submit.antt =====
-- tools/launch.py: runs of `submit_jobs` and of the checks of `main` on two hosts.
use mathlib.Core.Option.{some-injective}
use bear_rpc.Base.{
  ℕ, subst, String, ◌≡◌, refl, true, false, some, [], ◌∷◌, if◌then◌else◌, pos, ok, raise, assertion,
}
use bear_rpc.Text.{Str, codes, str_eq, contains}
use bear_rpc.Text.Lines.{file_lines}
use bear_rpc.Text.Number.{int}
use bear_rpc.Text.Split.{split, strip, is_space}
use bear_rpc.Launch.Ports.{get_available_port, scan_ports}
use bear_rpc.Launch.Servers.{Files, fresh, State, write, has_alive_servers}
use bear_rpc.Launch.Hosts.{read_hosts}
use bear_rpc.Launch.Remote.{task_fails}
use bear_rpc.Launch.Submit.{
  System, Run, succeeded, exit_failed, commands, path_join, check_parts, lookup, submit_jobs,
}
use bear_rpc.Launch.Submit.Whole.{
  Found, launched, all_commands, submit_jobs-check_parts, submit_jobs-dry, submit_jobs-real,
}
use bear_rpc.Launch.Options.{Options, check_options}
use bear_rpc.Launch.Options.Accepted.{IsAccepted, check_options-IsAccepted}
use bear_rpc.Launch.Tests.{args, system, hosts, empty, acquire, busy}

abbrev udf : Str
udf = codes "python3 t.py"

-- Two hosts in the file of addresses, and a partition config.
abbrev files : Files
files =
    write (codes "/w/ip.txt") (codes "10.0.0.1 30050\n10.0.0.2 30050\n")
      (write (codes "/w/p.json") (codes "{}") empty)

abbrev ready : Run (busy 0)
ready = record { world = false; servers = record { files = files; globals = fresh }; started = [] }

ready-Found : Found system args ready hosts ((codes "num_parts", 2) ∷ []) false
unfolding path_join write str_eq file_lines read_hosts split strip is_space int
ready-Found = record {
  ip_text = codes "10.0.0.1 30050\n10.0.0.2 30050\n";
  config_text = codes "{}";
  ip_file = refl;
  hosts_read = refl;
  config_file = refl;
  config_loaded = refl;
}

-- What the first launch leaves behind: the group 0 in the monitor file.
abbrev asked : State
asked =
    (has_alive_servers acquire (some (codes "s")) true
      (record { files = files; globals = fresh })).1

not_alive :
    has_alive_servers acquire (some (codes "s")) true (record { files = files; globals = fresh })
    ≡ (ok false, asked)
unfolding has_alive_servers write str_eq
not_alive = refl

submit_jobs-real_example :
    let s' : Run (busy 0) =
      launched system args udf false
        (record ready { world = false; servers = asked })
        hosts
        false
        (codes "10.0.0.1")
        1234
        false in
    submit_jobs system args udf false ready
    ≡ (ok (if task_fails (system.completions s'.started) then exit_failed else succeeded), s')
unfolding get_available_port scan_ports check_parts str_eq
submit_jobs-real_example =
    submit_jobs-real system args udf ready (codes "10.0.0.1") (pos 30050)
      ((codes "10.0.0.2", pos 30050) ∷ []) ((codes "num_parts", 2) ∷ []) false false false asked
      1234 ready-Found not_alive refl refl

submit_jobs-dry_example :
    let (clients, servers) =
      all_commands system args udf true hosts false
        (codes "10.0.0.1")
        1234
        asked.globals.group_id in
    submit_jobs system args udf true ready
    ≡ (ok (commands clients servers), record ready { world = false; servers = asked })
unfolding get_available_port scan_ports check_parts str_eq
submit_jobs-dry_example =
    submit_jobs-dry system args udf ready (codes "10.0.0.1") (pos 30050)
      ((codes "10.0.0.2", pos 30050) ∷ []) ((codes "num_parts", 2) ∷ []) false false false asked
      1234 ready-Found not_alive refl refl

-- The same hosts, and a partition config that says three parts.
abbrev three_parts : System
three_parts = record system { json_load = λ text. ok ((codes "num_parts", 3) ∷ []) }

three_parts-Found : Found three_parts args ready hosts ((codes "num_parts", 3) ∷ []) false
unfolding path_join write str_eq file_lines read_hosts split strip is_space int
three_parts-Found = record {
  ip_text = codes "10.0.0.1 30050\n10.0.0.2 30050\n";
  config_text = codes "{}";
  ip_file = refl;
  hosts_read = refl;
  config_file = refl;
  config_loaded = refl;
}

three_differ :
    (num_parts : ℕ)
    → lookup (codes "num_parts") ((codes "num_parts", 3) ∷ []) ≡ some num_parts
    → three_parts.equals_int num_parts 2 ≡ false
unfolding lookup str_eq
three_differ num_parts h =
    subst (λ n. three_parts.equals_int n 2 ≡ false) (some-injective 3 num_parts h) refl

submit_jobs-check_parts_example :
    (message : String) × (submit_jobs three_parts args udf false ready
      ≡ (raise (assertion message), ready))
submit_jobs-check_parts_example =
    submit_jobs-check_parts three_parts args udf false ready hosts ((codes "num_parts", 3) ∷ [])
      false three_parts-Found three_differ

abbrev options : Options
options = record {
  ssh_port = pos 22;
  ssh_username = [];
  workspace = some (codes "/w");
  num_trainers = some (pos 1);
  num_omp_threads = some (pos 4);
  num_samplers = pos 0;
  num_servers = some (pos 2);
  part_config = some (codes "p.json");
  ip_config = some (codes "ip.txt");
  num_server_threads = pos 1;
  graph_format = codes "csc";
  extra_envs = [];
  keep_alive = true;
  server_name = some (codes "s");
}

options_checked : check_options 8 options (udf ∷ []) ≡ ok (args, udf)
unfolding check_options contains
options_checked = refl

check_options-IsAccepted_example : IsAccepted options (udf ∷ []) args udf
check_options-IsAccepted_example =
    check_options-IsAccepted 8 options (udf ∷ []) args udf options_checked
