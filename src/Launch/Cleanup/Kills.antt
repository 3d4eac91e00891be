-- ===== src/Launch/Cleanup/Kills.antt =====
-- tools/launch.py, `kill_process`: the commands that it runs on a host, in their order.
use mathlib.Core.List.{Perm}
use bear_rpc.Base.{
  ℕ, zero, suc, ◌≢◌, Error, ◌≡◌, refl, sym, ap, ◌∙◌, true, false, List, [], ◌∷◌, ◌++◌, append_assoc,
  append-nil, map, All, ℤ, eq_ℤ, Result, ok, raise, assertion, continue,
}
use bear_rpc.Base.Monad.{pure, ◌>>◌, bind_ok}
use bear_rpc.Text.{Str}
use bear_rpc.Text.Split.{split}
use bear_rpc.Launch.Cleanup.{
  Command, kill, kill_9, ps, Remote, Log, run, first_words, split_lines, sort, get_killed_pids,
  kill_all, kill_9_all, kill_rounds, kill_process,
}
use bear_rpc.Launch.Cleanup.Order.{IsSorted, sort-IsSorted, sort-All, sort-Perm}

module _ (ip : Str) where
  -- The commands on the host that send a signal to each of the pids.
  pub each : (ℤ → Command) → List ℤ → Log
  each signal pids = map (λ pid. (ip, signal pid)) pids

-- The pids that `ps` prints for the given ones on the host, behind the commands that ran before.
abbrev pub survivors : Remote → Str → Log → List ℤ → Result (List ℤ)
survivors r ip before pids =
    first_words (map split (split_lines (r.stdout (before ++ (ip, ps pids) ∷ []))))

module _ (r : Remote) (ip : Str) where
  -- What the rounds of `kill_process` run, with the number of rounds that are left and the commands
  -- that ran before: a round asks which of the pids are alive, and `kill -9` is sent to all of those,
  -- in ascending order. A round that finds none, or one whose answer cannot be read, is the last.
  pub data Rounds : ℕ → List ℤ → Log → Log → Type 0 where
    no_more : {pids : List ℤ} {before : Log} → Rounds zero pids before []
    none_left :
        {n : ℕ} {pids : List ℤ} {before : Log}
        → survivors r ip before pids ≡ ok []
        → Rounds (suc n) pids before ((ip, ps pids) ∷ [])
    unreadable :
        {n : ℕ} {pids : List ℤ} {before : Log} {e : Error}
        → survivors r ip before pids ≡ raise e
        → Rounds (suc n) pids before ((ip, ps pids) ∷ [])
    again :
        {n : ℕ} {pids alive left : List ℤ} {before log : Log}
        → survivors r ip before pids ≡ ok alive
        → alive ≢ []
        → IsSorted left
        → Perm left alive
        → Rounds n left ((before ++ (ip, ps pids) ∷ []) ++ each ip kill_9 left) log
        → Rounds (suc n) pids before ((ip, ps pids) ∷ (each ip kill_9 left ++ log))

-- A pid that is not the one of the cleanup process.
unfoldable pub IsOther : Remote → ℤ → Type 0
IsOther r pid = eq_ℤ r.curr_pid pid ≡ false

module _ (r : Remote) (ip : Str) where
  pub kill_all_lem :
      (pids : List ℤ) (log : Log)
      → All (IsOther r) pids
      → kill_all r ip pids log ≡ (ok tt, log ++ each ip kill pids)
  unfolding kill_all each IsOther run
  kill_all_lem [] log h = rw append-nil refl
  kill_all_lem (pid ∷ pids) log h = rw h.0 (
      kill_all_lem pids (log ++ (ip, kill pid) ∷ []) h.1
      ∙ ap (λ l. (ok tt, l)) (append_assoc log ((ip, kill pid) ∷ []) _))

  pub kill_9_all_lem :
      (pids : List ℤ) (log : Log) → kill_9_all r ip pids log ≡ (ok tt, log ++ each ip kill_9 pids)
  unfolding kill_9_all each run
  kill_9_all_lem [] log = rw append-nil refl
  kill_9_all_lem (pid ∷ pids) log =
      kill_9_all_lem pids (log ++ (ip, kill_9 pid) ∷ [])
      ∙ ap (λ l. (ok tt, l)) (append_assoc log ((ip, kill_9 pid) ∷ []) _)

  -- The pids before the own one are killed, and then the loop raises the assertion.
  pub kill_all-own :
      (before : List ℤ) (own : ℤ) (after : List ℤ) (log : Log)
      → All (IsOther r) before
      → eq_ℤ r.curr_pid own ≡ true
      → kill_all r ip (before ++ own ∷ after) log
        ≡ (raise (assertion ""), log ++ each ip kill before)
  unfolding kill_all each IsOther run
  kill_all-own [] own after log h e = rw (e, append-nil) refl
  kill_all-own (pid ∷ before) own after log h e = rw h.0 (
      kill_all-own before own after (log ++ (ip, kill pid) ∷ []) h.1 e
      ∙ ap (λ l. (raise (assertion ""), l)) (append_assoc log ((ip, kill pid) ∷ []) _))

  -- A round whose question gave `left`, with what the rounds behind it run.
  round_lem :
      (n : ℕ) (pids : List ℤ) (log : Log) (left : Result (List ℤ))
      (asked : survivors r ip log pids ≡ left)
      (rounds_behind : (l : List ℤ) (log' : Log)
        → (more : Log) × ((kill_rounds r ip n l log').1 ≡ log' ++ more)
          × (Rounds r ip n l log' more))
      → (more : Log) × ((continue left
            (λ l. elim l [
              | [] ↦ pure tt
              | pid ∷ pids ↦
                  kill_9_all r ip (sort (pid ∷ pids)) >> kill_rounds r ip n (sort (pid ∷ pids))
            ])
            (log ++ (ip, ps pids) ∷ [])).1
          ≡ log ++ more)
        × (Rounds r ip (suc n) pids log more)
  round_lem n pids log (raise e) asked behind = (_, refl, unreadable asked)
  round_lem n pids log (ok []) asked behind = (_, refl, none_left asked)
  round_lem n pids log (ok (pid ∷ left)) asked behind =
      let l : List ℤ = sort (pid ∷ left) in
      let log' : Log = log ++ (ip, ps pids) ∷ [] in
      let (more, ran, rounds) = behind l (log' ++ each ip kill_9 l) in
      (
        (ip, ps pids) ∷ (each ip kill_9 l ++ more),
        ap (λ t. t.1)
              (bind_ok (kill_9_all r ip l) (λ _. kill_rounds r ip n l) log' _ tt
                (kill_9_all_lem l log'))
            ∙ ran
            ∙ append_assoc log' (each ip kill_9 l) more
            ∙ append_assoc log ((ip, ps pids) ∷ []) (each ip kill_9 l ++ more),
        again asked (λ empty. cc) (sort-IsSorted (pid ∷ left)) (sort-Perm (pid ∷ left)) rounds,
      )

  kill_rounds_lem :
      (n : ℕ) (pids : List ℤ) (log : Log)
      → (more : Log) × ((kill_rounds r ip n pids log).1 ≡ log ++ more)
        × (Rounds r ip n pids log more)
  unfolding kill_rounds get_killed_pids run
  kill_rounds_lem zero pids log = ([], sym (append-nil log), no_more)
  kill_rounds_lem (suc n) pids log =
      round_lem n pids log _ refl (λ l log'. kill_rounds_lem n l log')

  -- Where no pid is the cleanup process's own one, all of them are first sent `kill`, in
  -- ascending order, and then there are at most three rounds. A round asks `ps` which of the pids of
  -- the round before are alive, and sends `kill -9` to exactly the pids that are printed, the smallest
  -- first; there are fewer than three only if none is printed or the answer cannot be read.
  pub kill_process_lem :
      (pids : List ℤ) (log : Log)
      → All (IsOther r) pids
      → (more : Log) × ((kill_process r ip pids log).1 ≡ log ++ (each ip kill (sort pids) ++ more))
        × IsSorted (sort pids)
        × Perm (sort pids) pids
        × (Rounds r ip 3 (sort pids) (log ++ each ip kill (sort pids)) more)
  unfolding kill_process
  kill_process_lem pids log others =
      let first : Log = each ip kill (sort pids) in
      let (more, ran, rounds) = kill_rounds_lem 3 (sort pids) (log ++ first) in
      (
        more,
        ap (λ t. t.1)
              (bind_ok (kill_all r ip (sort pids)) (λ _. kill_rounds r ip 3 (sort pids)) log _ tt
                (kill_all_lem (sort pids) log (sort-All (IsOther r) pids others)))
            ∙ ran
            ∙ append_assoc log first more,
        sort-IsSorted pids,
        sort-Perm pids,
        rounds,
      )
