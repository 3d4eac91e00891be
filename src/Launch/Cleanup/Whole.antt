-- ===== src/Launch/Cleanup/Whole.antt =====
-- tools/launch.py, `cleanup_proc`: a whole cleanup.
use bear_rpc.Base.{
  ℕ, zero, suc, ◌≡◌, refl, sym, ap, subst, Option, none, some, List, [], ◌∷◌, ◌++◌, map, All, ◌⊎◌,
  inl, inr, ℤ, Result, ok, raise, value_error, regex_error, continue,
}
use bear_rpc.Base.Monad.{pure, ◌>>◌}
use bear_rpc.Text.{Str, codes, join}
use bear_rpc.Text.Number.{int}
use bear_rpc.Text.Split.{split}
use bear_rpc.Launch.Hosts.{Host}
use bear_rpc.Launch.Cleanup.{
  ps, Message, exit, cleanup, Remote, Log, run, first_words, split_lines, sort, get_killed_pids,
  kill_all, kill_9_all, kill_rounds, kill_process, get_all_remote_pids, kill_everywhere,
  cleanup_proc,
}
use bear_rpc.Launch.Cleanup.Order.{sort-All}
use bear_rpc.Launch.Cleanup.Kills.{IsOther, kill_all_lem, kill_9_all_lem}
use bear_rpc.Launch.Cleanup.Pids.{
  Yields, Anything, bind-Yields, cons-Yields, OthersOnly, collect_pids-Yields,
}

first_words_step :
    (n : Option ℤ) (rest : Result (List ℤ))
    → Yields (All Anything) rest
    → Yields (All Anything) (elim n [
      | none ↦ raise value_error
      | some pid ↦ elim rest [ ok pids ↦ ok (pid ∷ pids) | raise e ↦ raise e ]
    ])
unfolding Yields Anything
first_words_step none rest h = inl refl
first_words_step (some pid) rest h = cons-Yields Anything pid rest tt h

first_words-Yields : (lines : List (List Str)) → Yields (All Anything) (first_words lines)
unfolding first_words Yields
first_words-Yields [] = tt
first_words-Yields ([] ∷ lines) = first_words-Yields lines
first_words-Yields ((word ∷ words) ∷ lines) =
    first_words_step (int word) (first_words lines) (first_words-Yields lines)

Yields-cases :
    (t : Result (Unit {0}))
    → Yields Anything t
    → (t ≡ ok tt) ⊎ ((t ≡ raise value_error) ⊎ (t ≡ raise regex_error))
unfolding Yields
Yields-cases (ok u) h = inl refl
Yields-cases (raise e) (inl h) = inr (inl (ap raise h))
Yields-cases (raise e) (inr h) = inr (inr (ap raise h))

module _ (r : Remote) where
  get_killed_pids-Yields :
      (ip : Str) (pids : List ℤ) (log : Log)
      → Yields (All Anything) (get_killed_pids r ip pids log).0
  unfolding get_killed_pids run
  get_killed_pids-Yields ip pids log =
      first_words-Yields (map split (split_lines (r.stdout (log ++ (ip, ps pids) ∷ []))))

  round-Yields :
      (ip : Str) (n : ℕ) (left : List ℤ) (log : Log)
      → ((l : List ℤ) (log' : Log) → Yields Anything (kill_rounds r ip n l log').0)
      → Yields Anything
          (continue
            (ok left)
            (λ l. elim l [
              | [] ↦ pure tt
              | pid ∷ pids ↦
                  kill_9_all r ip (sort (pid ∷ pids)) >> kill_rounds r ip n (sort (pid ∷ pids))
            ])
            log).0
  unfolding Yields Anything
  round-Yields ip n [] log behind = tt
  round-Yields ip n (pid ∷ pids) log behind =
      bind-Yields Anything Anything (kill_9_all r ip (sort (pid ∷ pids))) _ log
        (subst (λ t. Yields Anything t.0) (sym (kill_9_all_lem r ip (sort (pid ∷ pids)) log)) tt)
        (λ _ log' _. behind (sort (pid ∷ pids)) log')

  kill_rounds-Yields :
      (ip : Str) (n : ℕ) (pids : List ℤ) (log : Log)
      → Yields Anything (kill_rounds r ip n pids log).0
  unfolding kill_rounds Yields Anything
  kill_rounds-Yields ip zero pids log = tt
  kill_rounds-Yields ip (suc n) pids log =
      bind-Yields (All Anything) Anything (get_killed_pids r ip pids) _ log
        (get_killed_pids-Yields ip pids log)
        (λ left log' _. round-Yields ip n left log' (λ l log''. kill_rounds-Yields ip n l log''))

  kill_process-Yields :
      (ip : Str) (pids : List ℤ) (log : Log)
      → All (IsOther r) pids
      → Yields Anything (kill_process r ip pids log).0
  unfolding kill_process
  kill_process-Yields ip pids log others =
      bind-Yields Anything Anything (kill_all r ip (sort pids)) _ log
        (subst (λ t. Yields Anything t.0)
          (sym (kill_all_lem r ip (sort pids) log (sort-All (IsOther r) pids others)))
          (unfold Yields Anything in tt))
        (λ _ log' _. kill_rounds-Yields ip 3 (sort pids) log')

  kill_everywhere-Yields :
      (remote_pids : List (Str × List ℤ)) (log : Log)
      → (OthersOnly r) remote_pids
      → Yields Anything (kill_everywhere r remote_pids log).0
  unfolding kill_everywhere OthersOnly Yields Anything
  kill_everywhere-Yields [] log h = tt
  kill_everywhere-Yields ((ip, pids) ∷ rest) log h =
      bind-Yields Anything Anything (kill_process r ip pids) _ log
        (kill_process-Yields ip pids log h.0) (λ _ log' _. kill_everywhere-Yields rest log' h.1)

  -- The assertion in `kill_process` that a pid is not the cleanup process's own never fails in a
  -- cleanup: whatever the commands print and whatever the launcher sends, the process comes to its
  -- end, or it stops with a ValueError, as for a printed pid that is not a number, or with the
  -- re.error of a command that is no regular expression.
  pub cleanup_proc_lem :
      (message : Message) (hosts : List Host) (udf_command : Str) (log : Log)
      → ((cleanup_proc r message hosts udf_command log).0 ≡ ok tt)
        ⊎ (((cleanup_proc r message hosts udf_command log).0 ≡ raise value_error)
            ⊎ ((cleanup_proc r message hosts udf_command log).0 ≡ raise regex_error))
  unfolding cleanup_proc
  cleanup_proc_lem exit hosts udf_command log = inl refl
  cleanup_proc_lem cleanup hosts udf_command log = Yields-cases _ (
      bind-Yields (OthersOnly r) Anything (get_all_remote_pids r hosts udf_command) _ log
        (unfold get_all_remote_pids in
          collect_pids-Yields r (join (codes " .*") (split udf_command)) hosts [] log
            (unfold OthersOnly in tt))
        (λ remote_pids log' others. kill_everywhere-Yields remote_pids log' others))
