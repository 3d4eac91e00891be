-- ===== src/Launch/Submit/Plan.antt =====
-- tools/launch.py, `submit_jobs`: which server runs on which host.
use native.Mathlib.Nat.{mul-add-div_right, div-eq_of_lt}
use mathlib.Core.Path.{fun_ext}
use bear_rpc.Base.{
  ℕ, zero, suc, ◌+◌, ◌*◌, ◌/◌, ◌<◌, ◌≡◌, refl, sym, ap, ◌∙◌, Bool, true, false, some, List, [], ◌∷◌,
  ◌++◌, append_assoc, append-nil, map, arith, length, get_elem?, ok, Exec, length-append,
}
use bear_rpc.Base.Monad.{pure, ◌>>=◌, ◌>>◌, bind_ok}
use bear_rpc.Text.{Str}
use bear_rpc.Launch.Hosts.{Host}
use bear_rpc.Launch.Remote.{ssh_cmd}
use bear_rpc.Launch.Submit.{Args, System, Run, start, launch_servers, server_cmd}

-- A host's ip for each of `count` servers from `i` on.
pub block : Str → ℕ → ℕ → List (Str × ℕ)
block ip i zero = []
block ip i (suc count) = (ip, i) ∷ block ip (i + 1) count

-- The servers by host: each host runs `per_machine` servers with consecutive IDs, and the hosts'
-- blocks follow one another from `i` on.
unfoldable pub server_plan : ℕ → ℕ → List Host → List (Str × ℕ)
unfolding block
server_plan per_machine i [] = []
server_plan per_machine i ((ip, _) ∷ hosts) =
    block ip i per_machine ++ server_plan per_machine (i + per_machine) hosts

get_elem?-middle :
    (pre : List Host) (host : Host) (post : List Host)
    → get_elem? (pre ++ host ∷ post) (length pre) ≡ some host
get_elem?-middle [] host post = refl
get_elem?-middle (h ∷ pre) host post = get_elem?-middle pre host post

div_block : (j k r : ℕ) → r < k → (j * k + r) / k ≡ j
div_block j k r h = mul-add-div_right (omega arith) j r ∙ (rw (div-eq_of_lt h) (omega arith))

server_plan-zero : (i : ℕ) (hosts : List Host) → server_plan 0 i hosts ≡ []
unfolding server_plan
server_plan-zero i [] = refl
server_plan-zero i (_ ∷ hosts) = server_plan-zero (i + 0) hosts

length-block : (ip : Str) (i k : ℕ) → length (block ip i k) ≡ k
unfolding block
length-block ip i zero = refl
length-block ip i (suc k) = ap suc (length-block ip (i + 1) k)

-- There are k servers for each host.
pub length-server_plan :
    (k i : ℕ) (hosts : List Host) → length (server_plan k i hosts) ≡ length hosts * k
unfolding server_plan
length-server_plan k i [] = omega arith
length-server_plan k i ((ip, _) ∷ hosts) =
    length-append (block ip i k) (server_plan k (i + k) hosts)
    ∙ omega (arith, length-block ip i k, length-server_plan k (i + k) hosts)

regroup :
    (pre : List Host) (host : Host) (post : List Host)
    → pre ++ host ∷ post ≡ (pre ++ host ∷ []) ++ post
regroup pre host post = sym (append_assoc pre (host ∷ []) post)

next_index :
    (k : ℕ) (pre : List Host) (host : Host) → length pre * k + k ≡ length (pre ++ host ∷ []) * k
next_index k pre host = rw length-append (omega arith)

no_servers : (hosts : List Host) → length hosts * 0 ≡ 0
no_servers hosts = omega arith

none_left : (k : ℕ) → length {A = Host} [] * k ≡ 0
none_left k = omega arith

-- The ssh commands that a plan starts: none in a dry run.
pub started_by : Args → Str → Str → Bool → List (Str × ℕ) → List Str
started_by args udf env true plan = []
started_by args udf env false plan =
    map (λ (ip, i). ssh_cmd (server_cmd args udf env i) ip args.ssh_port args.ssh_username) plan

pub started_by-dry :
    (args : Args) (udf env : Str) (plan : List (Str × ℕ)) → started_by args udf env true plan ≡ []
unfolding started_by
started_by-dry args udf env plan = refl

module _ (sys : System) (args : Args) (udf : Str) (dry_run : Bool) (env : Str) where
  -- Servers started one after the other, from a plan.
  issue : List (Str × ℕ) → Exec (Run sys.net) (List Str)
  issue [] = pure []
  issue ((ip, i) ∷ plan) = do
    let cmd = server_cmd args udf env i
    start sys args udf dry_run ip cmd
    cmds ← issue plan
    pure (cmd ∷ cmds)

  start_lem :
      (ip : Str) (i : ℕ) (s : Run sys.net)
      → start sys args udf dry_run ip (server_cmd args udf env i) s ≡ (
        ok tt,
        record s { started = s.started ++ started_by args udf env dry_run ((ip, i) ∷ []) },
      )
  start_lem ip i s = go dry_run
    where
      go :
          (dry : Bool)
          → start sys args udf dry ip (server_cmd args udf env i) s ≡ (
            ok tt,
            record s { started = s.started ++ started_by args udf env dry ((ip, i) ∷ []) },
          )
      go true = unfold start started_by in rw append-nil
      go false = unfold start started_by in refl

  started_by-cons :
      (dry : Bool) (ip : Str) (i : ℕ) (plan : List (Str × ℕ))
      → started_by args udf env dry ((ip, i) ∷ []) ++ started_by args udf env dry plan
        ≡ started_by args udf env dry ((ip, i) ∷ plan)
  unfolding started_by
  started_by-cons true ip i plan = refl
  started_by-cons false ip i plan = refl

  pub started_by-nil : (dry : Bool) → started_by args udf env dry [] ≡ []
  unfolding started_by
  started_by-nil true = refl
  started_by-nil false = refl

  issue_lem :
      (plan : List (Str × ℕ)) (s : Run sys.net)
      → issue plan s ≡ (
        ok (map (λ (_, i). server_cmd args udf env i) plan),
        record s { started = s.started ++ started_by args udf env dry_run plan },
      )
  unfolding issue
  issue_lem [] s = rw (started_by-nil dry_run, append-nil)
  issue_lem ((ip, i) ∷ plan) s =
      let s' : Run sys.net = record s {
        started = s.started ++ started_by args udf env dry_run ((ip, i) ∷ []);
      } in
      let cmd = server_cmd args udf env i in
      bind_ok (start sys args udf dry_run ip cmd) (λ _. issue plan >>= λ cmds. pure (cmd ∷ cmds)) s
        s' tt (start_lem ip i s)
      ∙ bind_ok (issue plan) (λ cmds. pure (cmd ∷ cmds)) s' _ _ (issue_lem plan s')
      ∙ rw (append_assoc, started_by-cons dry_run ip i plan) refl

  module _ (hosts : List Host) (k : ℕ) where
    launch_servers-suc :
        (n i : ℕ) (host : Host) (s : Run sys.net)
        → get_elem? hosts (i / k) ≡ some host
        → launch_servers sys args udf dry_run env hosts k (suc n) i s
          ≡ (do
            let cmd = server_cmd args udf env i
            start sys args udf dry_run host.0 cmd
            cmds ← launch_servers sys args udf dry_run env hosts k n (i + 1)
            pure (cmd ∷ cmds))
              s
    unfolding launch_servers
    launch_servers-suc n i host s h = rw (h, launch_servers) refl

    -- One host's servers, and then what follows them.
    launch_servers-block :
        (host : Host) (c : ℕ) (l : List (Str × ℕ)) (m i n : ℕ)
        → n ≡ m + c
        → ((r : ℕ) → r < m → get_elem? hosts ((i + r) / k) ≡ some host)
        → ((s : Run sys.net)
            → launch_servers sys args udf dry_run env hosts k c (i + m) s ≡ issue l s)
        → (s : Run sys.net)
        → launch_servers sys args udf dry_run env hosts k n i s ≡ issue (block host.0 i m ++ l) s
    unfolding block
    launch_servers-block host c l zero i n e h rest s =
        (λ j. launch_servers sys args udf dry_run env hosts k (same_count j) (same_index j) s)
        ∙ rest s
      where
        same_count : n ≡ c
        same_count = omega arith

        same_index : i ≡ i + 0
        same_index = omega arith
    launch_servers-block host c l (suc m) i zero e h rest s = absurd (omega arith)
    launch_servers-block host c l (suc m) i (suc n) e h rest s =
        let here : get_elem? hosts (i / k) ≡ some host =
          ap (λ t. get_elem? hosts (t / k)) (omega arith) ∙ h 0 (omega arith) in
        launch_servers-suc n i host s here
        ∙ ap
            (λ m'.
              (do
                let cmd = server_cmd args udf env i
                start sys args udf dry_run host.0 cmd
                cmds ← m'
                pure (cmd ∷ cmds))
                s)
            (fun_ext (
              launch_servers-block host c l m (i + 1) n (omega arith)
                (λ r lt. ap (λ t. get_elem? hosts (t / k)) (omega arith) ∙ h (r + 1) (omega arith))
                (λ s'.
                  ap (λ t. launch_servers sys args udf dry_run env hosts k c t s') (omega arith)
                  ∙ rest s')))
        ∙ unfold issue in refl

  launch_servers-issue_from :
      (k : ℕ) (pre post : List Host) (s : Run sys.net)
      → 0 < k
      → launch_servers sys args udf dry_run env (pre ++ post) k (length post * k) (length pre * k) s
        ≡ issue (server_plan k (length pre * k) post) s
  launch_servers-issue_from k pre [] s pos_k =
      ap (λ t. launch_servers sys args udf dry_run env (pre ++ []) k t (length pre * k) s)
        (none_left k)
      ∙ unfold launch_servers server_plan issue in refl
  launch_servers-issue_from k pre (host ∷ post) s pos_k =
      launch_servers-block (pre ++ host ∷ post) k host (length post * k)
        (server_plan k (length pre * k + k) post) k (length pre * k) (suc (length post) * k)
        (omega arith)
        (λ r lt.
          ap (get_elem? (pre ++ host ∷ post)) (div_block (length pre) k r lt)
          ∙ get_elem?-middle pre host post)
        (λ s'.
          (λ j.
            launch_servers sys args udf dry_run env (regroup pre host post j) k (length post * k)
              (next_index k pre host j) s')
          ∙ launch_servers-issue_from k (pre ++ host ∷ []) post s' pos_k
          ∙ ap (λ t. issue (server_plan k t post) s') (sym (next_index k pre host)))
        s
      ∙ unfold server_plan in refl

  launch_servers-issue :
      (k : ℕ) (hosts : List Host) (s : Run sys.net)
      → launch_servers sys args udf dry_run env hosts k (length hosts * k) 0 s
        ≡ issue (server_plan k 0 hosts) s
  launch_servers-issue zero hosts s =
      (λ j. launch_servers sys args udf dry_run env hosts 0 (no_servers hosts j) 0 s)
      ∙ unfold launch_servers issue in rw (server_plan-zero 0 hosts) refl
  launch_servers-issue (suc k) hosts s =
      ap (λ t. launch_servers sys args udf dry_run env hosts (suc k) (length hosts * suc k) t s)
        (sym (none_left (suc k)))
      ∙ launch_servers-issue_from (suc k) [] hosts s (omega arith)
      ∙ ap (λ t. issue (server_plan (suc k) t hosts) s) (none_left (suc k))

  -- The loop over len(hosts) * k servers, started at 0, returns the servers' commands in the order
  -- of their IDs and starts them on the hosts of `server_plan`: each host in turn runs k servers
  -- with consecutive IDs. In a dry run the same commands are returned and nothing is started. This
  -- holds for any number of hosts and any k, and the loop never raises.
  pub launch_servers_lem :
      (k : ℕ) (hosts : List Host) (s : Run sys.net)
      → launch_servers sys args udf dry_run env hosts k (length hosts * k) 0 s ≡ (
        ok (map (λ (_, i). server_cmd args udf env i) (server_plan k 0 hosts)),
        record s { started = s.started ++ started_by args udf env dry_run (server_plan k 0 hosts) },
      )
  launch_servers_lem k hosts s =
      launch_servers-issue k hosts s ∙ issue_lem (server_plan k 0 hosts) s
