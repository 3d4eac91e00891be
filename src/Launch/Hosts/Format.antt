-- ===== src/Launch/Hosts/Format.antt =====
-- tools/launch.py, `submit_jobs`: which hosts are read from a file of IP addresses.
use bear_rpc.Base.{
  ℕ, ◌≡◌, refl, sym, ap, subst, continue, ◌∙◌, List, [], ◌∷◌, ◌++◌, Option, none, some, arith, All,
  All-append, ℤ, pos, Result, ok, raise,
}
use bear_rpc.Base.Monad.{pure, ◌>>=◌, bind_ok, bind-eq_ok}
use bear_rpc.Text.{Str}
use bear_rpc.Text.Lines.{file_lines, file_lines-line, IsInline, plain_inlines}
use bear_rpc.Text.Number.{int, show_int, int-show_int, show_int-IsPlain, show_int-ne-nil}
use bear_rpc.Text.Split.{
  is_space, split, strip, split-strip, split-trailing, split-word, split-last, IsPlain, IsWord,
}
use bear_rpc.Launch.Ports.{Network, get_available_port}
use bear_rpc.Launch.Hosts.{Host, with_port, read_host, read_hosts}

-- One host as a line of the file, without its line end.
abbrev host_line : Host → Str
host_line (ip, port) = ip ++ b' ' ∷ show_int port

-- A file that gives a host and its port on each line.
pub format_hosts : List Host → Str
format_hosts [] = []
format_hosts (host ∷ hosts) = host_line host ++ b'\n' ∷ format_hosts hosts

host_line-IsInline : (host : Host) → IsPlain host.0 → All IsInline (host_line host)
host_line-IsInline (ip, port) h =
    All-append IsInline ip (b' ' ∷ show_int port) (plain_inlines ip h)
      (omega arith, plain_inlines (show_int port) (show_int-IsPlain port))

split-host_line :
    (host : Host)
    → IsWord host.0
    → split (strip (host_line host ++ b'\n' ∷ [])) ≡ host.0 ∷ show_int host.1 ∷ []
split-host_line (ip, port) h =
    split-strip (host_line (ip, port) ++ b'\n' ∷ [])
    ∙ split-trailing (host_line (ip, port)) b'\n' (unfold is_space in refl)
    ∙ split-word ip (show_int port) h
    ∙ ap (λ l. ip ∷ l) (split-last (show_int port) (show_int-ne-nil port, show_int-IsPlain port))

file_lines-host :
    (host : Host) (hosts : List Host)
    → IsWord host.0
    → file_lines (format_hosts (host ∷ hosts))
      ≡ (host_line host ++ b'\n' ∷ []) ∷ file_lines (format_hosts hosts)
unfolding format_hosts
file_lines-host host hosts h =
    file_lines-line (host_line host) (format_hosts hosts) (host_line-IsInline host h.1)

module _ (net : Network) where
  read_host-pair :
      (ip text : Str) (port : ℤ) (w : net.World)
      → int text ≡ some port
      → read_host net (ip ∷ text ∷ []) w ≡ (ok (ip, port), w)
  unfolding read_host with_port
  read_host-pair ip text port w h = rw (h, with_port) refl

  read_hosts-cons :
      (line : Str) (lines : List Str) (host : Host) (hosts : List Host) (w w' w'' : net.World)
      → read_host net (split (strip line)) w ≡ (ok host, w')
      → read_hosts net lines w' ≡ (ok hosts, w'')
      → read_hosts net (line ∷ lines) w ≡ (ok (host ∷ hosts), w'')
  read_hosts-cons line lines host hosts w w' w'' h hs =
      unfold read_hosts in
      bind_ok (read_host net (split (strip line))) _ w w' host h
      ∙ bind_ok (read_hosts net lines) (λ hosts. pure (host ∷ hosts)) w' w'' hosts hs

  -- A file that names a host and a port on each line is read back as those hosts with those ports,
  -- in their order, and no socket is used. The names of the hosts must be words.
  pub read_hosts-format_hosts :
      (hosts : List Host) (w : net.World)
      → All (λ (host : Host). IsWord host.0) hosts
      → read_hosts net (file_lines (format_hosts hosts)) w ≡ (ok hosts, w)
  read_hosts-format_hosts [] w h = unfold format_hosts file_lines read_hosts in refl
  read_hosts-format_hosts (host ∷ hosts) w (h, hs) =
      ap (λ l. read_hosts net l w) (file_lines-host host hosts h)
      ∙ read_hosts-cons (host_line host ++ b'\n' ∷ []) (file_lines (format_hosts hosts)) host hosts
          w w w
          (ap (λ l. read_host net l w) (split-host_line host h)
            ∙ read_host-pair host.0 (show_int host.1) host.1 w (int-show_int host.1))
          (read_hosts-format_hosts hosts w hs)

  -- What a line says of a host: its ip and its port, or its ip alone, with some port.
  pub data Names (line : Str) : Host → Type 0 where
    pair :
        {ip text : Str} {port : ℤ}
        → split line ≡ ip ∷ text ∷ []
        → int text ≡ some port
        → Names line (ip, port)
    alone : {ip : Str} (port : ℕ) → split line ≡ ip ∷ [] → Names line (ip, pos port)

  pub data NamesAll : List Str → List Host → Type 0 where
    finished : NamesAll [] []
    follows :
        {line : Str} {host : Host} {lines : List Str} {hosts : List Host}
        → Names line host
        → NamesAll lines hosts
        → NamesAll (line ∷ lines) (host ∷ hosts)

  with_port_sound :
      (line ip text : Str) (port : Option ℤ) (host : Host) (w w' : net.World)
      → split line ≡ ip ∷ text ∷ []
      → int text ≡ port
      → with_port net ip port w ≡ (ok host, w')
      → Names line host
  unfolding with_port
  with_port_sound line ip text none host w w' e i h = cc
  with_port_sound line ip text (some port) host w w' e i h =
      let same : (ip, port) ≡ host = cc in subst (Names line) same (pair e i)

  alone_sound :
      (line ip : Str) (r : Result ℕ × net.World) (host : Host) (w' : net.World)
      → split line ≡ ip ∷ []
      → continue r.0 (λ port. pure (ip, pos port)) r.1 ≡ (ok host, w')
      → Names line host
  alone_sound line ip (ok port, w) host w' e h =
      let same : (ip, pos port) ≡ host = cc in subst (Names line) same (alone port e)
  alone_sound line ip (raise x, w) host w' e h = cc

  read_host_sound :
      (line : Str) (words : List Str) (host : Host) (w w' : net.World)
      → split line ≡ words
      → read_host net words w ≡ (ok host, w')
      → Names line host
  unfolding read_host
  read_host_sound line [] host w w' e h = cc
  read_host_sound line (ip ∷ []) host w w' e h =
      alone_sound line ip (get_available_port net ip w) host w' e h
  read_host_sound line (ip ∷ text ∷ []) host w w' e h =
      with_port_sound line ip text (int text) host w w' e refl h
  read_host_sound line (a ∷ b ∷ c ∷ words) host w w' e h = cc

  read_hosts-eq_ok :
      (line : Str) (lines : List Str) (hosts : List Host) (w w'' : net.World)
      → read_hosts net (line ∷ lines) w ≡ (ok hosts, w'')
      → (host : Host) × (rest : List Host) × (w' : net.World) × (read_host net
            (split (strip line))
            w
          ≡ (ok host, w'))
        × (read_hosts net lines w' ≡ (ok rest, w''))
        × (host ∷ rest ≡ hosts)
  unfolding read_hosts
  read_hosts-eq_ok line lines hosts w w'' h =
      let (host, w', e, h') =
        bind-eq_ok (read_host net (split (strip line)))
          (λ host. read_hosts net lines >>= λ hosts. pure (host ∷ hosts)) w hosts w'' h in
      let (rest, w₁, e', h'') =
        bind-eq_ok (read_hosts net lines) (λ hosts. pure (host ∷ hosts)) w' hosts w'' h' in
      (host, rest, w', e, (cc), (cc))

  -- Hosts are read only where each line consists of one or two words: the hosts stand in the lines'
  -- order, one to a line, the first word of the line is the ip, and the second is the port where it
  -- is there. In any other case the loop raises.
  pub read_hosts_sound :
      (lines : List Str) (hosts : List Host) (w w' : net.World)
      → read_hosts net lines w ≡ (ok hosts, w')
      → NamesAll lines hosts
  read_hosts_sound [] hosts w w' h =
      let same : [] ≡ hosts = unfold read_hosts in cc in subst (NamesAll []) same finished
  read_hosts_sound (line ∷ lines) hosts w w' h =
      let (host, rest, w₁, first, others, same) = read_hosts-eq_ok line lines hosts w w' h in
      subst (NamesAll (line ∷ lines)) same (
        follows (read_host_sound line (split (strip line)) host w w₁ (sym (split-strip line)) first)
          (read_hosts_sound lines rest w₁ w' others))
