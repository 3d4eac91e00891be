-- ===== src/Launch/Remote.antt =====
-- tools/launch.py: `execute_remote`, and the codes that its threads leave in the queue.
pub mod Codes
use bear_rpc.Base.{
  ℕ, Bool, true, false, List, [], ◌∷◌, ◌++◌, if◌then◌else◌, ℤ, pos, negsuc, eq_ℤ, map,
}
use bear_rpc.Text.{Str, codes}
use bear_rpc.Text.Number.{show_int}

-- f"{username}@", where a user name is given
abbrev pub ip_prefix : Str → Str
ip_prefix [] = []
ip_prefix (c ∷ username) = (c ∷ username) ++ codes "@"

-- The ssh command that runs `cmd` on the remote host.
unfoldable pub ssh_cmd : Str → Str → ℤ → Str → Str
ssh_cmd cmd ip port username =
    codes "ssh -o StrictHostKeyChecking=no -p "
    ++ (show_int port
        ++ (codes " " ++ (ip_prefix username ++ (ip ++ (codes " '" ++ (cmd ++ codes "'"))))))

-- How `subprocess.check_call` ends in a thread.
pub data Completion : Type 0 where
  completed : Completion
  called_process_error : ℤ → Completion
  other_exception : Completion

-- What `run` puts into the queue.
unfoldable pub exit_state : Completion → ℤ
exit_state completed = pos 0
exit_state (called_process_error returncode) = returncode
exit_state other_exception = negsuc 0

-- The loop that joins the threads and takes a code for each, from the error that stands so far.
unfoldable pub join_threads : List ℤ → ℤ → ℤ
join_threads [] err = err
join_threads (err_code ∷ rest) err =
    join_threads rest (if eq_ℤ err_code (pos 0) then err else err_code)

-- `if err != 0`, behind the loop
unfoldable pub task_fails : List Completion → Bool
unfolding exit_state join_threads
task_fails completions =
    if eq_ℤ (join_threads (map exit_state completions) (pos 0)) (pos 0) then false else true
