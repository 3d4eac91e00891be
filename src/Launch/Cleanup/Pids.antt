-- ===== src/Launch/Cleanup/Pids.antt =====
-- tools/launch.py: the pids that the cleanup process collects.
use bear_rpc.Base.{
  ◌≡◌, refl, Bool, true, false, Option, none, some, List, [], ◌∷◌, ◌++◌, arith, All, if◌then◌else◌,
  Bool-cases, inl, inr, ℤ, eq_ℤ, Result, ok, raise, value_error, regex_error, Exec, continue, ◌⊎◌,
}
use bear_rpc.Base.Monad.{lift, ◌>>=◌}
use bear_rpc.Text.{Str, str_eq}
use bear_rpc.Text.Number.{int}
use bear_rpc.Text.Split.{split}
use bear_rpc.Launch.Hosts.{Host}
use bear_rpc.Launch.Cleanup.{
  Command, ps_python, pgrep, Remote, Log, run, split_lines, matching, other_pids, dedup,
  get_remote_pids, assign, collect_pids,
}
use bear_rpc.Launch.Cleanup.Order.{sort-All}
use bear_rpc.Launch.Cleanup.Kills.{IsOther}

-- A result that has the property, or a ValueError, which `int` raises, or the re.error of `re.search`.
module _ {A : Type 0} (P : A → Type 0) where
  unfoldable pub Yields : Result A → Type 0
  Yields (ok a) = P a
  Yields (raise e) = (e ≡ value_error) ⊎ (e ≡ regex_error)

module _ {A B : Type 0} (P : A → Type 0) (Q : B → Type 0) where
  continue-Yields :
      (t : Result A × Log) (f : A → Exec Log B)
      → Yields P t.0
      → ((a : A) (log : Log) → P a → Yields Q (f a log).0)
      → Yields Q (continue t.0 f t.1).0
  unfolding Yields
  continue-Yields (ok a, log) f h k = k a log h
  continue-Yields (raise e, log) f h k = h

  -- A block yields what its rest yields for whatever its first step yields.
  pub bind-Yields :
      (m : Exec Log A) (f : A → Exec Log B) (log : Log)
      → Yields P (m log).0
      → ((a : A) (log' : Log) → P a → Yields Q (f a log').0)
      → Yields Q ((m >>= f) log).0
  bind-Yields m f log h k = continue-Yields (m log) f h k

unfoldable pub Anything : {A : Type 0} → A → Type 0
Anything a = Unit

pub cons-Yields :
    (P : ℤ → Type 0) (pid : ℤ) (rest : Result (List ℤ))
    → P pid
    → Yields (All P) rest
    → Yields (All P) (elim rest [ ok pids ↦ ok (pid ∷ pids) | raise e ↦ raise e ])
unfolding Yields
cons-Yields P pid (ok pids) p h = (p, h)
cons-Yields P pid (raise e) p h = h

eq_ℤ_comm : (a b : ℤ) (c : Bool) → eq_ℤ a b ≡ c → eq_ℤ b a ≡ c
eq_ℤ_comm a b true h = ground arith
eq_ℤ_comm a b false h = ground arith

module _ (r : Remote) where
  pid_step :
      (n : Option ℤ) (rest : Result (List ℤ))
      → Yields (All (IsOther r)) rest
      → Yields (All (IsOther r)) (elim n [
        | none ↦ raise value_error
        | some pid ↦
            if eq_ℤ pid r.curr_pid
            then rest
            else elim rest [ ok pids ↦ ok (pid ∷ pids) | raise e ↦ raise e ]
      ])
  unfolding Yields IsOther
  pid_step none rest h = inl refl
  pid_step (some pid) rest h = elim (Bool-cases (eq_ℤ pid r.curr_pid)) [
    | inl e ↦ rw e h
    | inr e ↦ rw e (cons-Yields (IsOther r) pid rest (eq_ℤ_comm pid r.curr_pid false e) h)
  ]

  other_pids-Yields : (texts : List Str) → Yields (All (IsOther r)) (other_pids r texts)
  unfolding other_pids Yields
  other_pids-Yields [] = tt
  other_pids-Yields ([] ∷ texts) = other_pids-Yields texts
  other_pids-Yields ((c ∷ text) ∷ texts) =
      pid_step (int (c ∷ text)) (other_pids r texts) (other_pids-Yields texts)

  text_step :
      (word : Str) (n : Option ℤ) (rest : Result (List Str))
      → Yields Anything rest
      → Yields Anything (elim n [
        | none ↦ raise value_error
        | some pid ↦
            if eq_ℤ pid r.curr_pid
            then rest
            else elim rest [ ok pids ↦ ok (word ∷ pids) | raise e ↦ raise e ]
      ])
  unfolding Yields Anything
  text_step word none rest h = inl refl
  text_step word (some pid) (ok pids) h = ground arith
  text_step word (some pid) (raise e) h = elim (Bool-cases (eq_ℤ pid r.curr_pid)) [
    | inl own ↦ rw own h
    | inr other ↦ rw other h
  ]

  search_step :
      (word : Str) (found : Option Bool) (rest : Result (List Str))
      → Yields Anything rest
      → Yields Anything (elim found [
        | none ↦ raise regex_error
        | some found ↦
            if found
            then elim (int word) [
              | none ↦ raise value_error
              | some pid ↦
                  if eq_ℤ pid r.curr_pid
                  then rest
                  else elim rest [ ok pids ↦ ok (word ∷ pids) | raise e ↦ raise e ]
            ]
            else rest
      ])
  unfolding Yields
  search_step word none rest h = inr refl
  search_step word (some true) rest h = text_step word (int word) rest h
  search_step word (some false) rest h = h

  matching_step :
      (cmd_regex line : Str) (words : List Str) (rest : Result (List Str))
      → Yields Anything rest
      → Yields Anything (elim words [
        | [] ↦ rest
        | _ ∷ [] ↦ rest
        | _ ∷ word ∷ _ ↦ elim (r.search cmd_regex line) [
          | none ↦ raise regex_error
          | some found ↦
              if found
              then elim (int word) [
                | none ↦ raise value_error
                | some pid ↦
                    if eq_ℤ pid r.curr_pid
                    then rest
                    else elim rest [ ok pids ↦ ok (word ∷ pids) | raise e ↦ raise e ]
              ]
              else rest
        ]
      ])
  matching_step cmd_regex line [] rest h = h
  matching_step cmd_regex line (w ∷ []) rest h = h
  matching_step cmd_regex line (w ∷ word ∷ words) rest h =
      search_step word (r.search cmd_regex line) rest h

  matching-Yields :
      (cmd_regex : Str) (lines : List Str) → Yields Anything (matching r cmd_regex lines)
  unfolding matching Yields Anything
  matching-Yields cmd_regex [] = tt
  matching-Yields cmd_regex (p ∷ lines) =
      matching_step cmd_regex p (split p) (matching r cmd_regex lines)
        (matching-Yields cmd_regex lines)

  run-Yields : (ip : Str) (c : Command) (log : Log) → Yields Anything (run r ip c log).0
  unfolding run Yields Anything
  run-Yields ip c log = tt

  -- The pids that are collected on a host are never the cleanup process's own.
  get_remote_pids-Yields :
      (ip cmd_regex : Str) (log : Log)
      → Yields (All (IsOther r)) (get_remote_pids r ip cmd_regex log).0
  unfolding get_remote_pids Yields
  get_remote_pids-Yields ip cmd_regex log =
      bind-Yields Anything (All (IsOther r)) (run r ip ps_python) _ log
        (run-Yields ip ps_python log)
        (λ out log₁ _.
          bind-Yields Anything (All (IsOther r)) (lift (matching r cmd_regex (split_lines out))) _
            log₁ (matching-Yields cmd_regex (split_lines out))
            (λ pids log₂ _.
              bind-Yields Anything (All (IsOther r)) (run r ip (pgrep pids)) _ log₂
                (run-Yields ip (pgrep pids) log₂)
                (λ out₁ log₃ _.
                  bind-Yields (All (IsOther r)) (All (IsOther r))
                    (lift (other_pids r (dedup (pids ++ split_lines out₁)))) _ log₃
                    (other_pids-Yields (dedup (pids ++ split_lines out₁)))
                    (λ all_pids _ others. sort-All (IsOther r) all_pids others))))

  -- All pids of a dictionary are of other processes.
  unfoldable pub OthersOnly : List (Str × List ℤ) → Type 0
  OthersOnly = All (λ (ip, pids). All (IsOther r) pids)

  assign-OthersOnly :
      (ip : Str) (pids : List ℤ) (remote_pids : List (Str × List ℤ))
      → All (IsOther r) pids
      → OthersOnly remote_pids
      → OthersOnly (assign r ip pids remote_pids)
  unfolding assign OthersOnly
  assign-OthersOnly ip pids [] h k = (h, tt)
  assign-OthersOnly ip pids ((ip', pids') ∷ rest) h k = elim (Bool-cases (str_eq ip' ip)) [
    | inl e ↦ rw e (h, k.1)
    | inr e ↦ rw e (k.0, assign-OthersOnly ip pids rest h k.1)
  ]

  pub collect_pids-Yields :
      (cmd_regex : Str) (hosts : List Host) (remote_pids : List (Str × List ℤ)) (log : Log)
      → OthersOnly remote_pids
      → Yields OthersOnly (collect_pids r cmd_regex hosts remote_pids log).0
  unfolding collect_pids Yields
  collect_pids-Yields cmd_regex [] remote_pids log h = h
  collect_pids-Yields cmd_regex ((ip, _) ∷ hosts) remote_pids log h =
      bind-Yields (All (IsOther r)) OthersOnly (get_remote_pids r ip cmd_regex) _ log
        (get_remote_pids-Yields ip cmd_regex log)
        (λ pids log' others.
          collect_pids-Yields cmd_regex hosts (assign r ip pids remote_pids) log'
            (assign-OthersOnly ip pids remote_pids others h))
