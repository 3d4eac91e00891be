-- ===== src/Launch/Tests/Commands.antt =====
-- tools/launch.py: the strings of commands and variables, and the texts that are read.
use bear_rpc.Base.{◌≡◌, refl, true, none, some, [], ◌∷◌, ◌++◌, map, arith, pos, negsuc}
use bear_rpc.Text.{Str, codes, contains, replace}
use bear_rpc.Text.Lines.{file_lines}
use bear_rpc.Text.Number.{int, show, show_int, int-show_int}
use bear_rpc.Text.Split.{is_space, split, strip}
use bear_rpc.Text.Replace.{FirstAt}
use bear_rpc.Launch.Env.{
  ServerVars, ClientVars, construct_dgl_server_env_vars, construct_dgl_client_env_vars,
  wrap_cmd_with_extra_envvars,
}
use bear_rpc.Launch.Env.Words.{
  assigned, server_assignments, client_assignments, split-server_env_vars, split-client_env_vars,
  wrap_cmd_with_extra_envvars_lem,
}
use bear_rpc.Launch.Torch.{
  TorchArgs, construct_torch_dist_launcher_cmd, python_bin_allowlist, python_bin,
  wrap_udf_in_torch_dist_launcher,
}
use bear_rpc.Launch.Torch.Wrap.{Picked, python_bin-Picked, wrap_udf_lem}
use bear_rpc.Launch.Torch.Cut.{wrap_udf-python3_1x}

abbrev torch : TorchArgs
torch = record {
  num_trainers = 2;
  num_nodes = 3;
  node_rank = 1;
  master_addr = codes "10.0.0.1";
  master_port = 1234;
}

wrapped :
    wrap_udf_in_torch_dist_launcher (codes "python3 t.py") torch
    ≡ codes
        "python3 -m torch.distributed.launch --nproc_per_node=2 --nnodes=3 --node_rank=1 --master_addr=10.0.0.1 --master_port=1234 t.py"
unfolding wrap_udf_in_torch_dist_launcher python_bin contains replace
    construct_torch_dist_launcher_cmd show
wrapped = refl

wrap_udf_lem_example :
    (pre : Str) × (post : Str) × FirstAt
      (python_bin (codes "(cd d && python3.7 t.py)"))
      (codes "(cd d && python3.7 t.py)")
      pre
      post
    × (wrap_udf_in_torch_dist_launcher (codes "(cd d && python3.7 t.py)") torch
        ≡ pre
          ++ ((python_bin (codes "(cd d && python3.7 t.py)")
                ++ b' ' ∷ construct_torch_dist_launcher_cmd torch)
              ++ replace post (python_bin (codes "(cd d && python3.7 t.py)")) (
                  python_bin (codes "(cd d && python3.7 t.py)")
                  ++ b' ' ∷ construct_torch_dist_launcher_cmd torch)))
unfolding contains
wrap_udf_lem_example = wrap_udf_lem (codes "(cd d && python3.7 t.py)") torch refl

python_bin-Picked_example :
    Picked (codes "python3.7 t.py") python_bin_allowlist (python_bin (codes "python3.7 t.py"))
python_bin-Picked_example = python_bin-Picked (codes "python3.7 t.py")

wrap_udf-python3_1x_example :
    wrap_udf_in_torch_dist_launcher (codes "python3.10 t.py") torch
    ≡ codes "python3 " ++ (construct_torch_dist_launcher_cmd torch ++ codes ".10 t.py")
unfolding contains
wrap_udf-python3_1x_example = wrap_udf-python3_1x b'0' (codes " t.py") torch (omega arith) refl

abbrev server_vars : ServerVars
server_vars = record {
  num_samplers = 0;
  num_server_threads = 1;
  tot_num_clients = 4;
  part_config = codes "data/p.json";
  ip_config = codes "ip.txt";
  num_servers = 1;
  graph_format = codes "csc";
  keep_alive = true;
  pythonpath = codes "/opt";
}

abbrev client_vars : ClientVars
client_vars = record {
  num_samplers = 0;
  tot_num_clients = 4;
  part_config = codes "data/p.json";
  ip_config = codes "ip.txt";
  num_servers = 1;
  graph_format = codes "csc";
  num_omp_threads = codes "8";
  group_id = pos 0;
  pythonpath = [];
}

split-server_env_vars_example :
    split (construct_dgl_server_env_vars server_vars)
    ≡ map assigned (server_assignments server_vars)
unfolding is_space
split-server_env_vars_example = split-server_env_vars server_vars (search)

split-client_env_vars_example :
    split (construct_dgl_client_env_vars client_vars)
    ≡ map assigned (client_assignments client_vars)
unfolding is_space
split-client_env_vars_example = split-client_env_vars client_vars (ground arith)

wrap_cmd_with_extra_envvars_lem_example :
    (exported : Str) × (wrap_cmd_with_extra_envvars (codes "ls") (codes "A=1" ∷ codes "B=2" ∷ [])
      ≡ codes "(export " ++ (exported ++ (codes "; " ++ (codes "ls" ++ codes ")"))))
    × (split exported ≡ codes "A=1" ∷ codes "B=2" ∷ [])
unfolding is_space
wrap_cmd_with_extra_envvars_lem_example =
    wrap_cmd_with_extra_envvars_lem (codes "ls") (codes "A=1" ∷ codes "B=2" ∷ []) (ground arith)

int-show_int_example : int (show_int (negsuc 41)) ≡ some (negsuc 41)
int-show_int_example = int-show_int (negsuc 41)

numbers :
    (int (codes " +1_000\n") ≡ some (pos 1000))
    × (int (codes "-7") ≡ some (negsuc 6))
    × (int (codes "1__0") ≡ none)
    × (int (codes "") ≡ none)
    × (int (codes "4 2") ≡ none)
unfolding int strip is_space
numbers = (refl, refl, refl, refl, refl)

lines_of_a_file :
    file_lines (codes "a\r\nb\rc\n\nd")
    ≡ codes "a\n" ∷ codes "b\n" ∷ codes "c\n" ∷ codes "\n" ∷ codes "d" ∷ []
unfolding file_lines
lines_of_a_file = refl
