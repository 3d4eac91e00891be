-- ===== src/Launch/Ports.antt =====
-- tools/launch.py: `get_available_port`, over a network that the program does not implement.
pub mod Scan
use bear_rpc.Base.{
  ℕ, zero, suc, ◌+◌, Bool, true, false, ◌++◌, Result, ok, raise, Error, runtime, Exec,
}
use bear_rpc.Text.{Str, codes}

-- The world that sockets act on: a new socket, and an attempt of that socket to connect, which
-- says whether it succeeded.
pub record Network : Type 1 where
  pub World : Type 0
  pub new_socket : World → World
  pub connect : Str → ℕ → World → Bool × World

abbrev pub no_port : Str → Error
no_port ip = runtime (codes "Failed to get available port for ip~" ++ ip)

module _ (net : Network) (ip : Str) where
  -- for port in range(port, port + count): an attempt that raises returns its port
  unfoldable pub scan_ports : ℕ → ℕ → Exec net.World ℕ
  scan_ports zero port w = (raise (no_port ip), w)
  scan_ports (suc count) port w =
      let (connected, w') = net.connect ip port w in
      elim connected [ true ↦ scan_ports count (port + 1) w' | false ↦ (ok port, w') ]

  -- range(1234, 65535) has 64301 ports.
  unfoldable pub get_available_port : Exec net.World ℕ
  get_available_port w = scan_ports 64301 1234 (net.new_socket w)
