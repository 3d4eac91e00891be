-- ===== src/Launch/Ports/Scan.antt =====
-- tools/launch.py: which port `get_available_port` returns.
use bear_rpc.Base.{
  ℕ, zero, suc, ◌+◌, ◌≤◌, ◌<◌, ◌≡◌, refl, subst, ◌⊎◌, inl, inr, true, false, arith, Result, ok,
  raise, Bool-cases,
}
use bear_rpc.Text.{Str}
use bear_rpc.Launch.Ports.{Network, no_port, scan_ports, get_available_port}

module _ (net : Network) (ip : Str) where
  -- From the first world to the second the attempts at the ports `from`, …, `to - 1` succeeded.
  pub data Connected : ℕ → ℕ → net.World → net.World → Type 0 where
    start : {from : ℕ} {w : net.World} → Connected from from w w
    step :
        {from to : ℕ} {w w' : net.World}
        → (net.connect ip from w).0 ≡ true
        → Connected (from + 1) to (net.connect ip from w).1 w'
        → Connected from to w w'

  -- What a scan of the ports `from`, …, `to - 1` gives.
  pub data Scanned (from to : ℕ) (w : net.World) : Result ℕ × net.World → Type 0 where
    found :
        (port : ℕ) (w' : net.World)
        → from ≤ port
        → port < to
        → Connected from port w w'
        → (net.connect ip port w').0 ≡ false
        → Scanned from to w (ok port, (net.connect ip port w').1)
    exhausted :
        (w' : net.World) → Connected from to w w' → Scanned from to w (raise (no_port ip), w')

  scan_ports-suc_refused :
      (count port : ℕ) (w : net.World)
      → (net.connect ip port w).0 ≡ false
      → scan_ports net ip (suc count) port w ≡ (ok port, (net.connect ip port w).1)
  unfolding scan_ports
  scan_ports-suc_refused count port w h = rw (h, scan_ports) refl

  scan_ports-suc_connected :
      (count port : ℕ) (w : net.World)
      → (net.connect ip port w).0 ≡ true
      → scan_ports net ip (suc count) port w
        ≡ scan_ports net ip count (port + 1) (net.connect ip port w).1
  unfolding scan_ports
  scan_ports-suc_connected count port w h = rw (h, scan_ports) refl

  Connected_none : {from to : ℕ} (w : net.World) → from ≡ to → Connected from to w w
  Connected_none {from} w e = subst (λ t. Connected from t w w) e start

  Scanned-step :
      {from to : ℕ} {w : net.World} {r : Result ℕ × net.World}
      → (net.connect ip from w).0 ≡ true
      → Scanned (from + 1) to (net.connect ip from w).1 r
      → Scanned from to w r
  Scanned-step on (found port w' low high run off) =
      found port w' (omega arith) high (step on run) off
  Scanned-step on (exhausted w' run) = exhausted w' (step on run)

  scan_ports-Scanned :
      (count from to : ℕ) (w : net.World)
      → from + count ≡ to
      → Scanned from to w (scan_ports net ip count from w)
  scan_ports-Scanned zero from to w e =
      unfold scan_ports in exhausted w (Connected_none w (omega arith))
  scan_ports-Scanned (suc count) from to w e = elim (Bool-cases (net.connect ip from w).0) [
    | inl on ↦ rw (scan_ports-suc_connected count from w on) (
        Scanned-step on
          (scan_ports-Scanned count (from + 1) to (net.connect ip from w).1 (omega arith)))
    | inr off ↦
        rw (scan_ports-suc_refused count from w off)
          (found from w (omega arith) (omega arith) start off)
  ]

  -- Over any network: either the port that is returned lies in 1234..65534, the new socket did not
  -- connect to it and connected to every port from 1234 up to it; or the socket connected to all of
  -- 1234..65534 in turn, and the RuntimeError with the ip is raised. The world is the one behind the
  -- attempts that were made.
  pub get_available_port-Scanned :
      (w : net.World) → Scanned 1234 65535 (net.new_socket w) (get_available_port net ip w)
  unfolding get_available_port
  get_available_port-Scanned w = scan_ports-Scanned 64301 1234 65535 (net.new_socket w) refl

  -- A socket that is connected raises at the next attempt, whatever the address.
  abbrev pub OneConnection : Type 0
  OneConnection =
      (w : net.World) (port port' : ℕ)
      → (net.connect ip port w).0 ≡ true
      → (net.connect ip port' (net.connect ip port w).1).0 ≡ false

  scan_ports-two :
      OneConnection
      → (count port : ℕ) (w : net.World)
      → ((scan_ports net ip (suc (suc count)) port w).0 ≡ ok port)
        ⊎ ((scan_ports net ip (suc (suc count)) port w).0 ≡ ok (port + 1))
  scan_ports-two law count port w = elim (Bool-cases (net.connect ip port w).0) [
    | inl on ↦ inr (
        rw (scan_ports-suc_connected (suc count) port w on) (
          rw
            (scan_ports-suc_refused count (port + 1) (net.connect ip port w).1
              (law w port (port + 1) on))
            refl))
    | inr off ↦ inl (rw (scan_ports-suc_refused (suc count) port w off) refl)
  ]

  -- Where a connected socket cannot connect again, the one socket of the scan returns port 1234 or
  -- port 1235, whatever listens on the host: it never tries a third port and never raises.
  pub get_available_port-two :
      OneConnection
      → (w : net.World)
      → ((get_available_port net ip w).0 ≡ ok 1234) ⊎ ((get_available_port net ip w).0 ≡ ok 1235)
  unfolding get_available_port
  get_available_port-two law w = scan_ports-two law 64299 1234 (net.new_socket w)
