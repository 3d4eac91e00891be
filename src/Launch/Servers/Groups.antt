-- ===== src/Launch/Servers/Groups.antt =====
-- tools/launch.py: the group IDs that launches of the same servers get, and the files they leave.
use bear_rpc.Base.{
  ℕ, ◌+◌, ◌≡◌, refl, ap, ◌∙◌, Bool, true, false, none, some, List, [], ◌∷◌, if◌then◌else◌, ℤ, pos,
  next, Result, ok,
}
use bear_rpc.Text.{Str, codes, str_eq}
use bear_rpc.Text.Number.{show, show_int}
use bear_rpc.Launch.Servers.{
  Files, write, remove, fresh, State, monitor_path, lock_path, locked, has_alive_servers,
  clean_alive_servers,
}
use bear_rpc.Launch.Servers.Monitor.{
  IsLock, str_eq_longer, str_eq_shorter, write_self, join_group-show, write_other, files-locked,
  Option-some, files-clean, both_removed,
}

module _ (acquire : Str → Files → Files) (server_name : Str) where
  -- Successive launches with this server name, each a process of its own: what each finds, and its
  -- group ID.
  pub launches : List Bool → Files → List (Result Bool × ℤ)
  launches [] files = []
  launches (keep_alive ∷ rest) files =
      let (found, s) =
        has_alive_servers acquire (some server_name) keep_alive
          (record { files = files; globals = fresh }) in
      (found, s.globals.group_id) ∷ launches rest s.files

  -- Launches that find servers, with the group IDs from `group` on.
  unfoldable pub joined : ℕ → List Bool → List (Result Bool × ℤ)
  joined group [] = []
  joined group (_ ∷ rest) = (ok true, pos group) ∷ joined (group + 1) rest

  module _ (lock : IsLock acquire) where
    monitor-acquire :
        (files : Files)
        → acquire (lock_path server_name) files (monitor_path server_name)
          ≡ files (monitor_path server_name)
    monitor-acquire files =
        lock.other (lock_path server_name) (monitor_path server_name) files
          (str_eq_longer (monitor_path server_name) (codes "lock") b'.')

    has_alive_servers-running :
        (keep_alive : Bool) (z : ℤ) (s : State)
        → s.files (monitor_path server_name) ≡ some (show_int z)
        → has_alive_servers acquire (some server_name) keep_alive s ≡ (
          ok true,
          record {
            files =
                write
                  (monitor_path server_name)
                  (show_int (next z))
                  (acquire (lock_path server_name) s.files);
            globals = record s.globals { group_id = z };
          },
        )
    unfolding has_alive_servers
    has_alive_servers-running keep_alive z s h =
        rw (monitor-acquire s.files ∙ h, locked) (join_group-show _ z _)

    has_alive_servers-first :
        (s : State)
        → s.files (monitor_path server_name) ≡ none
        → has_alive_servers acquire (some server_name) true s ≡ (
          ok false,
          record {
            files =
                write
                  (monitor_path server_name)
                  (codes "1")
                  (acquire (lock_path server_name) s.files);
            globals = record s.globals { monitor_file = some (monitor_path server_name) };
          },
        )
    unfolding has_alive_servers
    has_alive_servers-first s h = rw (monitor-acquire s.files ∙ h, locked) refl

    launches-joined :
        (group : ℕ) (keep_alives : List Bool) (files : Files)
        → files (monitor_path server_name) ≡ some (show group)
        → launches keep_alives files ≡ joined group keep_alives
    launches-joined group [] files h = unfold launches joined in refl
    launches-joined group (k ∷ ks) files h = step (
        launches-joined (group + 1) ks
          (write (monitor_path server_name) (show (group + 1))
            (acquire (lock_path server_name) files))
          (write_self (monitor_path server_name) (show (group + 1)) _))
      where
        step :
            launches ks (
                write
                  (monitor_path server_name)
                  (show (group + 1))
                  (acquire (lock_path server_name) files))
              ≡ joined (group + 1) ks
            → launches (k ∷ ks) files ≡ joined group (k ∷ ks)
        step ih =
            unfold launches joined show_int in
            rw (
              has_alive_servers-running k (pos group) (record { files = files; globals = fresh }) h,
              ih,
            )

    -- Where no monitor file stands, a first launch that keeps its servers alive finds no servers and
    -- has group 0, and the launches with this server name behind it, whatever their flags, find the
    -- servers alive and have the groups 1, 2, … in turn. Taking the lock must only touch its file.
    pub launches_lem :
        (keep_alives : List Bool) (files : Files)
        → files (monitor_path server_name) ≡ none
        → launches (true ∷ keep_alives) files ≡ (ok false, pos 0) ∷ joined 1 keep_alives
    launches_lem ks files h =
        unfold launches in
        rw (has_alive_servers-first (record { files = files; globals = fresh }) h) (
          ap (λ l. (ok false, pos 0) ∷ l)
            (launches-joined 1 ks _
              (write_self (monitor_path server_name) (codes "1") _ ∙ unfold show in refl)))

    -- `has_alive_servers` changes no file but the monitor file and the lock file, whatever it returns
    -- or raises.
    pub files-has_alive_servers :
        (keep_alive : Bool) (s : State) (p : Str)
        → str_eq (monitor_path server_name) p ≡ false
        → str_eq (lock_path server_name) p ≡ false
        → (has_alive_servers acquire (some server_name) keep_alive s).1.files p ≡ s.files p
    unfolding has_alive_servers
    files-has_alive_servers keep_alive s p h k =
        files-locked (monitor_path server_name) keep_alive
          (record s { files = acquire (lock_path server_name) s.files }) p h
        ∙ lock.other (lock_path server_name) p s.files k

    -- The launch that created the monitor file removes it, and the lock file, when it is stopped: all
    -- other files are as they were before that launch, so the next launch is a first one again.
    pub clean-has_alive_servers :
        (files : Files) (p : Str)
        → files (monitor_path server_name) ≡ none
        → let s =
            (has_alive_servers acquire
              (some server_name)
              true
              (record { files = files; globals = fresh })).1 in
          (clean_alive_servers s).files p
          ≡ (if str_eq (lock_path server_name) p then none else files p)
    clean-has_alive_servers files p h =
        ap (λ t. (clean_alive_servers t.1).files p)
          (has_alive_servers-first (record { files = files; globals = fresh }) h)
        ∙ ap (λ (f : Files). f p)
            (files-clean (monitor_path server_name) (codes "1") here.0 created refl
              (write_self (monitor_path server_name) (codes "1") taken)
              (write_other (monitor_path server_name) (codes "1") (lock_path server_name) taken
                  (str_eq_shorter (monitor_path server_name) (codes "lock") b'.')
                ∙ here.1))
        ∙ removed
      where
        taken : Files
        taken = acquire (lock_path server_name) files

        created : State
        created = record {
          files = write (monitor_path server_name) (codes "1") taken;
          globals = record fresh { monitor_file = some (monitor_path server_name) };
        }

        here : (t : Str) × (taken (lock_path server_name) ≡ some t)
        here = Option-some (taken (lock_path server_name)) (lock.own (lock_path server_name) files)

        removed :
            remove (lock_path server_name) (remove (monitor_path server_name) created.files) p
            ≡ (if str_eq (lock_path server_name) p then none else files p)
        removed =
            both_removed (monitor_path server_name) (lock_path server_name) (codes "1") p files
              taken h (lock.other (lock_path server_name) p files)
