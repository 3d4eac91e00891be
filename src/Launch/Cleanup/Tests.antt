-- ===== src/Launch/Cleanup/Tests.antt =====
-- tools/launch.py: a cleanup on a host.
use bear_rpc.Base.{
  ◌≡◌, refl, ◌⊎◌, true, some, List, [], ◌∷◌, ◌++◌, ℤ, pos, ok, raise, value_error, regex_error,
}
use mathlib.Core.List.{Perm}
use bear_rpc.Text.{codes}
use bear_rpc.Text.Number.{show_int}
use bear_rpc.Launch.Cleanup.{
  kill, ps, cleanup, Remote, Log, shell, sort, kill_process, cleanup_proc,
}
use bear_rpc.Launch.Cleanup.Order.{IsSorted}
use bear_rpc.Launch.Cleanup.Kills.{IsOther, each, Rounds, kill_process_lem}
use bear_rpc.Launch.Cleanup.Whole.{cleanup_proc_lem}

-- A host that prints the same process for every command. The cleanup process is number 99.
abbrev stubborn : Remote
stubborn = record {
  stdout = λ log. codes "  7 python t.py\n";
  curr_pid = pos 99;
  search = λ regex line. some true;
}

abbrev pids : List ℤ
pids = pos 12 ∷ pos 7 ∷ []

kill_command :
    shell (codes "h") (pos 22) (ps pids)
    ≡ codes "ssh -o StrictHostKeyChecking=no -p 22 h 'ps -p 12,7 -h'"
unfolding shell show_int
kill_command = refl

kill_process_lem_example :
    (more : Log) × ((kill_process stubborn (codes "h") pids []).1
      ≡ [] ++ (each (codes "h") kill (sort pids) ++ more))
    × IsSorted (sort pids)
    × Perm (sort pids) pids
    × (Rounds stubborn (codes "h") 3 (sort pids) ([] ++ each (codes "h") kill (sort pids)) more)
unfolding IsOther
kill_process_lem_example = kill_process_lem stubborn (codes "h") pids [] (refl, (refl, tt))

cleanup_proc_lem_example :
    ((cleanup_proc stubborn cleanup ((codes "h", pos 1) ∷ []) (codes "python t.py") []).0 ≡ ok tt)
    ⊎ (((cleanup_proc stubborn cleanup ((codes "h", pos 1) ∷ []) (codes "python t.py") []).0
          ≡ raise value_error)
        ⊎ ((cleanup_proc stubborn cleanup ((codes "h", pos 1) ∷ []) (codes "python t.py") []).0
            ≡ raise regex_error))
cleanup_proc_lem_example =
    cleanup_proc_lem stubborn cleanup ((codes "h", pos 1) ∷ []) (codes "python t.py") []
