-- ===== src/Launch/Torch.antt =====
-- tools/launch.py: `construct_torch_dist_launcher_cmd` and `wrap_udf_in_torch_dist_launcher`.
pub mod Wrap
pub mod Cut
use bear_rpc.Base.{ℕ, List, [], ◌∷◌, ◌++◌, if◌then◌else◌}
use bear_rpc.Text.{Str, codes, contains, replace}
use bear_rpc.Text.Number.{show}

-- The keyword arguments of both functions, but for `udf_command`.
pub record TorchArgs : Type 0 where
  pub num_trainers : ℕ
  pub num_nodes : ℕ
  pub node_rank : ℕ
  pub master_addr : Str
  pub master_port : ℕ

unfoldable pub construct_torch_dist_launcher_cmd : TorchArgs → Str
construct_torch_dist_launcher_cmd a =
    codes "-m torch.distributed.launch "
    ++ (codes "--nproc_per_node="
        ++ (show a.num_trainers
            ++ (codes " --nnodes="
                ++ (show a.num_nodes
                    ++ (codes " --node_rank="
                        ++ (show a.node_rank
                            ++ (codes " --master_addr="
                                ++ (a.master_addr
                                    ++ (codes " --master_port=" ++ show a.master_port)))))))))

abbrev pub python_bin_allowlist : List Str
python_bin_allowlist =
    codes "python3.6"
    ∷ codes "python3.7"
    ∷ codes "python3.8"
    ∷ codes "python3.9"
    ∷ codes "python3"
    ∷ codes "python2.7"
    ∷ codes "python2"
    ∷ []

-- The loop over the candidates, which breaks at the first that stands in the command.
unfoldable pub pick_bin : List Str → Str → Str
pick_bin [] udf_command = codes "python"
pick_bin (candidate_python_bin ∷ rest) udf_command =
    if contains candidate_python_bin udf_command
    then candidate_python_bin
    else pick_bin rest udf_command

-- python_bin, as it stands behind the loop
unfoldable pub python_bin : Str → Str
unfolding pick_bin
python_bin udf_command = pick_bin python_bin_allowlist udf_command

unfoldable pub wrap_udf_in_torch_dist_launcher : Str → TorchArgs → Str
wrap_udf_in_torch_dist_launcher udf_command a =
    let bin = python_bin udf_command in
    replace udf_command bin (bin ++ b' ' ∷ construct_torch_dist_launcher_cmd a)
