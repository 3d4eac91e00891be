-- ===== src/Launch/Cleanup.antt =====
-- tools/launch.py: `cleanup_proc`, `kill_process`, `get_killed_pids`, `get_remote_pids` and
-- `get_all_remote_pids`, which all run in the cleanup process.
pub mod Order
pub mod Kills
pub mod Pids
pub mod Whole
mod Tests
use bear_rpc.Base.{
  ℕ, zero, suc, ◌-◌, Bool, true, false, not, ◌||◌, Option, none, some, List, [], ◌∷◌, ◌++◌, map,
  if◌then◌else◌, ◌==◌, ℤ, leb_ℤ, eq_ℤ, Result, ok, raise, assertion, value_error, regex_error, Exec,
}
use bear_rpc.Base.Monad.{pure, fail, lift, ◌>>=◌, ◌>>◌}
use bear_rpc.Text.{Str, codes, str_eq, join}
use bear_rpc.Text.Number.{int, show_int}
use bear_rpc.Text.Split.{split}
use bear_rpc.Launch.Hosts.{Host}

-- The shell commands that the cleanup process runs on a host, behind its ssh prefix.
pub data Command : Type 0 where
  kill : ℤ → Command
  kill_9 : ℤ → Command
  ps : List ℤ → Command
  ps_python : Command
  pgrep : List Str → Command

-- ','.join(str(pid) for pid in pids)
abbrev comma_separated : List ℤ → Str
comma_separated pids = join (codes ",") (map show_int pids)

action : Command → Str
action (kill pid) = codes "'kill " ++ (show_int pid ++ codes "'")
action (kill_9 pid) = codes "'kill -9 " ++ (show_int pid ++ codes "'")
action (ps pids) = codes "'ps -p " ++ (comma_separated pids ++ codes " -h'")
action ps_python = codes "'ps -aux | grep python | grep -v StrictHostKeyChecking'"
action (pgrep pids) = codes "'pgrep -P " ++ (join (codes ",") pids ++ codes "'")

unfoldable pub shell : Str → ℤ → Command → Str
unfolding action join
shell ip port c =
    codes "ssh -o StrictHostKeyChecking=no -p "
    ++ (show_int port ++ (codes " " ++ (ip ++ (codes " " ++ action c))))

-- s.split('\n')
unfoldable pub split_lines : Str → List Str
split_lines [] = [] ∷ []
split_lines (c ∷ s) = elim (split_lines s) [
  | [] ↦ []
  | line ∷ lines ↦ if c == b'\n' then [] ∷ line ∷ lines else (c ∷ line) ∷ lines
]

insert : ℤ → List ℤ → List ℤ
insert a [] = a ∷ []
insert a (b ∷ l) = if leb_ℤ a b then a ∷ b ∷ l else b ∷ insert a l

-- list.sort(), on integers
unfoldable pub sort : List ℤ → List ℤ
unfolding insert
sort [] = []
sort (a ∷ l) = insert a (sort l)

-- The pids of the lines that `ps` prints, the first word of each line.
pub first_words : List (List Str) → Result (List ℤ)
first_words [] = ok []
first_words ([] ∷ lines) = first_words lines
first_words ((word ∷ _) ∷ lines) = elim (int word) [
  | none ↦ raise value_error
  | some pid ↦ elim (first_words lines) [ ok pids ↦ ok (pid ∷ pids) | raise e ↦ raise e ]
]

-- What the launcher sends to its cleanup process.
pub data Message : Type 0 where
  exit : Message
  cleanup : Message

abbrev contains_text : Str → List Str → Bool
contains_text text [] = false
contains_text text (t ∷ texts) = str_eq t text || contains_text text texts

-- set(texts)
pub dedup : List Str → List Str
dedup [] = []
dedup (text ∷ texts) =
    let rest = dedup texts in if contains_text text rest then rest else text ∷ rest

-- What the commands of the cleanup process print, from the commands that ran so far with the host
-- of each; and its own pid, and whether `re.search` finds a match of an expression in a text, or raises
-- re.error, for an expression that is none.
pub record Remote : Type 0 where
  pub stdout : List (Str × Command) → Str
  pub curr_pid : ℤ
  pub search : Str → Str → Option Bool

abbrev pub Log : Type 0
Log = List (Str × Command)

module _ (r : Remote) where
  -- The loop over the lines of `ps -aux`; what is collected is text.
  pub matching : Str → List Str → Result (List Str)
  matching cmd_regex [] = ok []
  matching cmd_regex (p ∷ lines) =
      let rest = matching cmd_regex lines in
      elim (split p) [
        | [] ↦ rest
        | _ ∷ [] ↦ rest
        | _ ∷ word ∷ _ ↦ elim (r.search cmd_regex p) [
          | none ↦ raise regex_error
          | some found ↦
              if found
              then elim (int word) [
                | none ↦ raise value_error
                | some pid ↦
                    if eq_ℤ pid r.curr_pid
                    then rest
                    else elim rest [ ok pids ↦ ok (word ∷ pids) | raise e ↦ raise e ]
              ]
              else rest
        ]
      ]

  -- The loop over the set of texts, which leaves out the empty text and the own pid.
  pub other_pids : List Str → Result (List ℤ)
  other_pids [] = ok []
  other_pids ([] ∷ texts) = other_pids texts
  other_pids ((c ∷ text) ∷ texts) = elim (int (c ∷ text)) [
    | none ↦ raise value_error
    | some pid ↦
        let rest = other_pids texts in
        if eq_ℤ pid r.curr_pid
        then rest
        else elim rest [ ok pids ↦ ok (pid ∷ pids) | raise e ↦ raise e ]
  ]

  module _ (ip : Str) where
    -- subprocess.run(cmd, shell=True), for its output
    pub run : Command → Exec Log Str
    run c log = let log' = log ++ (ip, c) ∷ [] in (ok (r.stdout log'), log')

    pub get_killed_pids : List ℤ → Exec Log (List ℤ)
    unfolding first_words
    get_killed_pids killed_pids = do
      out ← run (ps killed_pids)
      lift (first_words (map split (split_lines out)))

    -- The first loop of `kill_process`, over the sorted pids.
    pub kill_all : List ℤ → Exec Log (Unit {0})
    kill_all [] = pure tt
    kill_all (pid ∷ pids) =
        if eq_ℤ r.curr_pid pid then fail (assertion "") else (do run (kill pid); kill_all pids)

    pub kill_9_all : List ℤ → Exec Log (Unit {0})
    kill_9_all [] = pure tt
    kill_9_all (pid ∷ pids) = do run (kill_9 pid); kill_9_all pids

    -- `for i in range(3)`, with the rounds that are left.
    pub kill_rounds : ℕ → List ℤ → Exec Log (Unit {0})
    kill_rounds zero killed_pids = pure tt
    kill_rounds (suc rounds) killed_pids = do
      left ← get_killed_pids killed_pids
      elim left [
        | [] ↦ pure tt
        | pid ∷ pids ↦ do kill_9_all (sort (pid ∷ pids)); kill_rounds rounds (sort (pid ∷ pids))
      ]

    pub kill_process : List ℤ → Exec Log (Unit {0})
    unfolding sort kill_all kill_rounds
    kill_process pids = do kill_all (sort pids); kill_rounds 3 (sort pids)

    pub get_remote_pids : Str → Exec Log (List ℤ)
    unfolding matching dedup other_pids split_lines
    get_remote_pids cmd_regex = do
      out ← run ps_python
      pids ← lift (matching cmd_regex (split_lines out))
      out₁ ← run (pgrep pids)
      all_pids ← lift (other_pids (dedup (pids ++ split_lines out₁)))
      pure (sort all_pids)

  -- remote_pids[ip] = pids; the port is the same for all keys.
  pub assign : Str → List ℤ → List (Str × List ℤ) → List (Str × List ℤ)
  assign ip pids [] = (ip, pids) ∷ []
  assign ip pids ((ip', pids') ∷ rest) =
      if str_eq ip' ip then (ip, pids) ∷ rest else (ip', pids') ∷ assign ip pids rest

  -- The loop over the hosts, with the dictionary that it fills.
  pub collect_pids : Str → List Host → List (Str × List ℤ) → Exec Log (List (Str × List ℤ))
  unfolding assign
  collect_pids cmd_regex [] remote_pids = pure remote_pids
  collect_pids cmd_regex ((ip, _) ∷ hosts) remote_pids = do
    pids ← get_remote_pids ip cmd_regex
    collect_pids cmd_regex hosts (assign ip pids remote_pids)

  pub get_all_remote_pids : List Host → Str → Exec Log (List (Str × List ℤ))
  get_all_remote_pids hosts udf_command =
      collect_pids (join (codes " .*") (split udf_command)) hosts []

  pub kill_everywhere : List (Str × List ℤ) → Exec Log (Unit {0})
  kill_everywhere [] = pure tt
  kill_everywhere ((ip, pids) ∷ rest) = do kill_process ip pids; kill_everywhere rest

  pub cleanup_proc : Message → List Host → Str → Exec Log (Unit {0})
  unfolding get_all_remote_pids kill_everywhere
  cleanup_proc exit hosts udf_command = pure tt
  cleanup_proc cleanup hosts udf_command = do
    remote_pids ← get_all_remote_pids hosts udf_command
    kill_everywhere remote_pids
