-- ===== src/Launch/Options.antt =====
-- tools/launch.py: `main`, from the parsed options on.
pub mod Accepted
use Prim.Native.Nat.{max}
use bear_rpc.Base.{
  ℕ, zero, suc, ◌/◌, Bool, true, false, not, ◌||◌, Option, none, some, List, [], ◌∷◌, String,
  if◌then◌else◌, ℤ, pos, negsuc, Result, ok, raise, assertion, runtime, assert, ◌>>=◌, ◌>>◌, Exec,
  continue,
}
use bear_rpc.Text.{Str, codes, contains}
use bear_rpc.Launch.Submit.{Args, System, Run, Outcome, submit_jobs}

-- What `parse_known_args` gives: an option without a default may be missing.
pub record Options : Type 0 where
  pub ssh_port : ℤ
  pub ssh_username : Str
  pub workspace : Option Str
  pub num_trainers : Option ℤ
  pub num_omp_threads : Option ℤ
  pub num_samplers : ℤ
  pub num_servers : Option ℤ
  pub part_config : Option Str
  pub ip_config : Option Str
  pub num_server_threads : ℤ
  pub graph_format : Str
  pub extra_envs : List Str
  pub keep_alive : Bool
  pub server_name : Option Str

-- assert n is not None and n > 0, message
unfoldable pub positive : Option ℤ → String → Result ℕ
positive none message = raise (assertion message)
positive (some (pos zero)) message = raise (assertion message)
positive (some (pos (suc n))) message = ok (suc n)
positive (some (negsuc n)) message = raise (assertion message)

-- assert n >= 0, message
unfoldable pub non_negative : ℤ → String → Result ℕ
non_negative (pos n) message = ok n
non_negative (negsuc n) message = raise (assertion message)

-- assert s is not None, message
unfoldable pub given : Option Str → String → Result Str
given none message = raise (assertion message)
given (some s) message = ok s

abbrev pub is_given : Option Str → Bool
is_given none = false
is_given (some _) = true

-- assert len(udf_command) == 1, and udf_command[0]
unfoldable pub only : List Str → Result Str
only (s ∷ []) = ok s
only _ = raise (assertion "Please provide user command line.")

-- The number of OMP threads, from the option or from the number of cores.
unfoldable pub omp_threads : Option ℤ → ℕ → ℕ → ℤ
omp_threads none cpu_count num_trainers = pos (max (cpu_count / 2 / num_trainers) 1)
omp_threads (some n) cpu_count num_trainers = n

-- if 'python' not in udf_command
unfoldable pub require_python : Str → Result (Unit {0})
require_python udf_command =
    if contains (codes "python") udf_command
    then ok tt
    else raise (runtime (codes "DGL launching script can only support Python executable file."))

-- The checks of `main`, in their order.
unfoldable pub check_options : ℕ → Options → List Str → Result (Args × Str)
unfolding positive non_negative given only omp_threads require_python
check_options cpu_count o udf_command = do
  assert (not o.keep_alive || is_given o.server_name)
      "Server name is required if '--keep_alive' is enabled."
  command ← only udf_command
  num_trainers ← positive o.num_trainers "--num_trainers must be a positive number."
  num_samplers ← non_negative o.num_samplers "--num_samplers must be a non-negative number."
  num_servers ← positive o.num_servers "--num_servers must be a positive number."
  num_server_threads ←
      positive (some o.num_server_threads) "--num_server_threads must be a positive number."
  workspace ← given o.workspace "A user has to specify a workspace with --workspace."
  part_config ←
      given o.part_config "A user has to specify a partition configuration file with --part_config."
  ip_config ← given o.ip_config "A user has to specify an IP configuration file with --ip_config."
  let args : Args = record {
    ssh_port = o.ssh_port;
    ssh_username = o.ssh_username;
    workspace = workspace;
    num_trainers = num_trainers;
    num_omp_threads = omp_threads o.num_omp_threads cpu_count num_trainers;
    num_samplers = num_samplers;
    num_servers = num_servers;
    part_config = part_config;
    ip_config = ip_config;
    num_server_threads = num_server_threads;
    graph_format = o.graph_format;
    extra_envs = o.extra_envs;
    keep_alive = o.keep_alive;
    server_name = o.server_name;
  }
  require_python command
  ok (args, command)

-- `main`, where `parse_known_args` gives these options and this rest of the command line.
unfoldable pub main : (sys : System) → ℕ → Options → List Str → Exec (Run sys.net) Outcome
main sys cpu_count o udf_command s =
    continue (check_options cpu_count o udf_command)
      (λ (args, command). submit_jobs sys args command false) s
