-- ===== src/Launch/Submit/Clients.antt =====
-- tools/launch.py, `submit_jobs`: the commands of the clients.
use bear_rpc.Base.{
  ℕ, ◌+◌, ◌≡◌, refl, ◌∙◌, Bool, true, false, List, [], ◌∷◌, ◌++◌, append_assoc, append-nil, map, ok,
}
use bear_rpc.Base.Monad.{pure, ◌>>=◌, bind_ok}
use bear_rpc.Text.{Str}
use bear_rpc.Launch.Torch.{TorchArgs}
use bear_rpc.Launch.Hosts.{Host}
use bear_rpc.Launch.Remote.{ssh_cmd}
use bear_rpc.Launch.Submit.{Args, System, Run, client_cmd, start, launch_clients}

-- The clients' hosts with their ranks, from `node_id` on.
pub client_plan : ℕ → List Host → List (Str × ℕ)
client_plan node_id [] = []
client_plan node_id ((ip, _) ∷ hosts) = (ip, node_id) ∷ client_plan (node_id + 1) hosts

-- The ssh commands of the clients: none in a dry run.
pub clients_started : Args → Str → Str → (ℕ → TorchArgs) → Bool → List (Str × ℕ) → List Str
clients_started args udf env torch true plan = []
clients_started args udf env torch false plan =
    map (λ (ip, n). ssh_cmd (client_cmd args udf env (torch n)) ip args.ssh_port args.ssh_username)
      plan

pub clients_started-dry :
    (args : Args) (udf env : Str) (torch : ℕ → TorchArgs) (plan : List (Str × ℕ))
    → clients_started args udf env torch true plan ≡ []
unfolding clients_started
clients_started-dry args udf env torch plan = refl

module _ (sys : System) (args : Args) (udf : Str) (dry_run : Bool) where
  module _ (env : Str) (torch : ℕ → TorchArgs) where
    client_start_lem :
        (ip : Str) (n : ℕ) (s : Run sys.net)
        → start sys args udf dry_run ip (client_cmd args udf env (torch n)) s ≡ (
          ok tt,
          record s {
            started = s.started ++ clients_started args udf env torch dry_run ((ip, n) ∷ []);
          },
        )
    client_start_lem ip n s = go dry_run
      where
        go :
            (dry : Bool)
            → start sys args udf dry ip (client_cmd args udf env (torch n)) s ≡ (
              ok tt,
              record s {
                started = s.started ++ clients_started args udf env torch dry ((ip, n) ∷ []);
              },
            )
        go true = unfold start clients_started in rw append-nil
        go false = unfold start clients_started in refl

    clients_started-cons :
        (dry : Bool) (ip : Str) (n : ℕ) (plan : List (Str × ℕ))
        → clients_started args udf env torch dry ((ip, n) ∷ [])
            ++ clients_started args udf env torch dry plan
          ≡ clients_started args udf env torch dry ((ip, n) ∷ plan)
    unfolding clients_started
    clients_started-cons true ip n plan = refl
    clients_started-cons false ip n plan = refl

    clients_started-nil : (dry : Bool) → clients_started args udf env torch dry [] ≡ []
    unfolding clients_started
    clients_started-nil true = refl
    clients_started-nil false = refl

    -- One command for each host is returned, with the host's position as the rank of its node, and
    -- each is started on its host, in the hosts' order.
    pub launch_clients_lem :
        (hosts : List Host) (node_id : ℕ) (s : Run sys.net)
        → launch_clients sys args udf dry_run env torch hosts node_id s ≡ (
          ok (map (λ (_, n). client_cmd args udf env (torch n)) (client_plan node_id hosts)),
          record s {
            started =
                s.started ++ clients_started args udf env torch dry_run (client_plan node_id hosts);
          },
        )
    unfolding launch_clients client_plan
    launch_clients_lem [] node_id s = rw (clients_started-nil dry_run, append-nil)
    launch_clients_lem ((ip, p) ∷ hosts) node_id s =
        let s' : Run sys.net = record s {
          started = s.started ++ clients_started args udf env torch dry_run ((ip, node_id) ∷ []);
        } in
        let cmd = client_cmd args udf env (torch node_id) in
        bind_ok (start sys args udf dry_run ip cmd)
          (λ _. launch_clients sys args udf dry_run env torch hosts (node_id + 1) >>= λ cmds.
            pure (cmd ∷ cmds))
          s s' tt (client_start_lem ip node_id s)
        ∙ bind_ok (launch_clients sys args udf dry_run env torch hosts (node_id + 1))
            (λ cmds. pure (cmd ∷ cmds)) s' _ _ (launch_clients_lem hosts (node_id + 1) s')
        ∙ rw
            (
              append_assoc,
              clients_started-cons dry_run ip node_id (client_plan (node_id + 1) hosts),
            )
            refl
