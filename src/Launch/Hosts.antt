-- ===== src/Launch/Hosts.antt =====
-- tools/launch.py, `submit_jobs`: the loop that reads the file of IP addresses.
pub mod Format
use bear_rpc.Base.{
  ℕ, List, [], ◌∷◌, Option, none, some, ℤ, pos, Result, ok, raise, value_error, Error, runtime,
  Exec,
}
use bear_rpc.Base.Monad.{pure, fail, ◌>>=◌}
use bear_rpc.Text.{Str, codes}
use bear_rpc.Text.Number.{int}
use bear_rpc.Text.Split.{strip, split}
use bear_rpc.Launch.Ports.{Network, get_available_port}

-- An ip and its port.
abbrev pub Host : Type 0
Host = Str × ℤ

abbrev pub format_error : Error
format_error = runtime (codes "Format error of ip_config.")

module _ (net : Network) where
  with_port : Str → Option ℤ → Exec net.World Host
  with_port ip none = fail value_error
  with_port ip (some port) = pure (ip, port)

  -- The tests on `len(result)` are the patterns.
  pub read_host : List Str → Exec net.World Host
  read_host (ip ∷ port ∷ []) = with_port ip (int port)
  read_host (ip ∷ []) = do port ← get_available_port net ip; pure (ip, pos port)
  read_host _ = fail format_error

  unfoldable pub read_hosts : List Str → Exec net.World (List Host)
  unfolding read_host with_port
  read_hosts [] = pure []
  read_hosts (line ∷ lines) = do
    host ← read_host (split (strip line))
    hosts ← read_hosts lines
    pure (host ∷ hosts)

-- server_count_per_machine: it is set by each line that was read.
abbrev pub server_count : ℕ → List Host → ℕ
server_count num_servers [] = 0
server_count num_servers (_ ∷ _) = num_servers
