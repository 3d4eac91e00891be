-- ===== src/Launch/Options/Accepted.antt =====
-- tools/launch.py: which options `main` accepts.
use mathlib.Core.Option.{some-injective}
use bear_rpc.Base.{
  ℕ, zero, suc, ◌<◌, ◌≡◌, ◌≢◌, ok-injective, not, ◌||◌, subst, assert-eq_ok, >>=-eq_ok, String,
  Bool, true, false, Option, none, some, List, [], ◌∷◌, arith, ℤ, pos, negsuc, ok,
}
use bear_rpc.Text.{Str, codes, contains}
use bear_rpc.Launch.Submit.{Args}
use bear_rpc.Launch.Options.{
  Options, positive, non_negative, given, only, require_python, is_given, check_options,
}

-- The options that `main` accepts for a command: what each check asks for.
pub record IsAccepted (o : Options) (udf_command : List Str) (args : Args) (command : Str)
    : Type 0 where
  pub one : udf_command ≡ command ∷ []
  pub python : contains (codes "python") command ≡ true
  pub named : o.keep_alive ≡ true → o.server_name ≢ none
  pub trainers : o.num_trainers ≡ some (pos args.num_trainers)
  pub trainers_pos : 0 < args.num_trainers
  pub samplers : o.num_samplers ≡ pos args.num_samplers
  pub servers : o.num_servers ≡ some (pos args.num_servers)
  pub servers_pos : 0 < args.num_servers
  pub server_threads : o.num_server_threads ≡ pos args.num_server_threads
  pub server_threads_pos : 0 < args.num_server_threads
  pub workspace : o.workspace ≡ some args.workspace
  pub part_config : o.part_config ≡ some args.part_config
  pub ip_config : o.ip_config ≡ some args.ip_config

positive-eq_ok :
    (n : Option ℤ) (message : String) (k : ℕ)
    → positive n message ≡ ok k
    → (n ≡ some (pos k)) × (0 < k)
unfolding positive
positive-eq_ok none message k h = cc
positive-eq_ok (some (pos zero)) message k h = cc
positive-eq_ok (some (pos (suc n))) message k h = ground arith
positive-eq_ok (some (negsuc n)) message k h = cc

non_negative-eq_ok : (n : ℤ) (message : String) (k : ℕ) → non_negative n message ≡ ok k → n ≡ pos k
unfolding non_negative
non_negative-eq_ok (pos n) message k h = cc
non_negative-eq_ok (negsuc n) message k h = cc

given-eq_ok : (o : Option Str) (message : String) (s : Str) → given o message ≡ ok s → o ≡ some s
unfolding given
given-eq_ok none message s h = cc
given-eq_ok (some t) message s h = cc

only-eq_ok : (l : List Str) (s : Str) → only l ≡ ok s → l ≡ s ∷ []
unfolding only
only-eq_ok [] s h = cc
only-eq_ok (t ∷ []) s h = cc
only-eq_ok (t ∷ u ∷ l) s h = cc

require_python-eq_ok :
    (command : Str) → require_python command ≡ ok tt → contains (codes "python") command ≡ true
unfolding require_python
require_python-eq_ok command h = ground arith

name_given :
    (keep_alive : Bool) (name : Option Str)
    → (not keep_alive || is_given name) ≡ true
    → keep_alive ≡ true
    → name ≢ none
name_given true none h k = λ e. cc
name_given true (some n) h k = λ e. cc
name_given false name h k = λ e. cc

-- The options that `main` accepts, with the arguments and the command that it makes of them, are
-- those of `IsAccepted`: there is one command and it names python, a kept-alive server has a name,
-- the four counts are in range, and the three paths are given.
pub check_options-IsAccepted :
    (cpu_count : ℕ) (o : Options) (udf_command : List Str) (args : Args) (command : Str)
    → check_options cpu_count o udf_command ≡ ok (args, command)
    → IsAccepted o udf_command args command
unfolding check_options
check_options-IsAccepted cpu_count o udf_command args command h =
    let (named, h₁) = assert-eq_ok _ _ _ h in
    let (c, one, h₂) = >>=-eq_ok (only udf_command) _ h₁ in
    let (nt, trainers, h₃) = >>=-eq_ok (positive o.num_trainers _) _ h₂ in
    let (ns, samplers, h₄) = >>=-eq_ok (non_negative o.num_samplers _) _ h₃ in
    let (nv, servers, h₅) = >>=-eq_ok (positive o.num_servers _) _ h₄ in
    let (nd, threads, h₆) = >>=-eq_ok (positive (some o.num_server_threads) _) _ h₅ in
    let (ws, workspace, h₇) = >>=-eq_ok (given o.workspace _) _ h₆ in
    let (pc, part, h₈) = >>=-eq_ok (given o.part_config _) _ h₇ in
    let (ic, ip, h₉) = >>=-eq_ok (given o.ip_config _) _ h₈ in
    let (_, python, same) = >>=-eq_ok (require_python c) _ h₉ in
    subst (λ (q : Args × Str). IsAccepted o udf_command q.0 q.1) (ok-injective _ _ same)
      (record {
        one = only-eq_ok udf_command c one;
        python = require_python-eq_ok c python;
        named = name_given o.keep_alive o.server_name named;
        trainers = (positive-eq_ok o.num_trainers _ nt trainers).0;
        trainers_pos = (positive-eq_ok o.num_trainers _ nt trainers).1;
        samplers = non_negative-eq_ok o.num_samplers _ ns samplers;
        servers = (positive-eq_ok o.num_servers _ nv servers).0;
        servers_pos = (positive-eq_ok o.num_servers _ nv servers).1;
        server_threads =
            some-injective _ _ (positive-eq_ok (some o.num_server_threads) _ nd threads).0;
        server_threads_pos = (positive-eq_ok (some o.num_server_threads) _ nd threads).1;
        workspace = given-eq_ok o.workspace _ ws workspace;
        part_config = given-eq_ok o.part_config _ pc part;
        ip_config = given-eq_ok o.ip_config _ ic ip;
      })
