-- ===== src/Launch/Servers.antt =====
-- tools/launch.py: `has_alive_servers` and `clean_alive_servers`. A monitor file, shared by all
-- launches that name the same servers, holds the next group ID.
pub mod Monitor
pub mod Groups
use bear_rpc.Base.{
  ℕ, ◌+◌, Bool, true, false, Option, none, some, List, [], ◌∷◌, ◌++◌, if◌then◌else◌, ℤ, pos, next,
  Result, ok, raise, index_error, value_error, Exec,
}
use bear_rpc.Text.{Str, codes, str_eq}
use bear_rpc.Text.Lines.{file_lines, rstrip_newline}
use bear_rpc.Text.Number.{int, show_int}

-- The texts of the files, by path.
abbrev pub Files : Type 0
Files = Str → Option Str

unfoldable pub write : Str → Str → Files → Files
write path text files p = if str_eq path p then some text else files p

unfoldable pub remove : Str → Files → Files
remove path files p = if str_eq path p then none else files p

-- The globals `g_monitor_file` and `g_group_id` of a launch.
pub record Globals : Type 0 where
  pub monitor_file : Option Str
  pub group_id : ℤ

abbrev pub fresh : Globals
fresh = record { monitor_file = none; group_id = pos 0 }

pub record State : Type 0 where
  pub files : Files
  pub globals : Globals

abbrev pub monitor_path : Str → Str
monitor_path server_name = codes "/tmp/dgl_dist_monitor_" ++ server_name

abbrev pub lock_path : Str → Str
lock_path server_name = monitor_path server_name ++ codes ".lock"

-- The branch `if ret`: the group ID is read, and the next one is written back.
pub join_group : Str → List Str → Exec State Bool
join_group monitor_file [] s = (raise index_error, s)
join_group monitor_file (line ∷ _) s = elim (int (rstrip_newline line)) [
  | none ↦ (raise value_error, s)
  | some group ↦ (
    ok true,
    record {
      files = write monitor_file (show_int (next group)) s.files;
      globals = record s.globals { group_id = group };
    },
  )
]

-- What is done while the lock is held.
pub locked : Str → Bool → Exec State Bool
unfolding join_group
locked monitor_file keep_alive s = elim (s.files monitor_file) [
  | some text ↦ join_group monitor_file (file_lines text) s
  | none ↦
      if keep_alive
      then (
        ok false,
        record {
          files = write monitor_file (codes "1") s.files;
          globals = record s.globals { monitor_file = some monitor_file };
        },
      )
      else (ok false, s)
]

-- `acquire` is what taking the `FileLock` of a path does to the files.
unfoldable pub has_alive_servers : (Str → Files → Files) → Option Str → Bool → Exec State Bool
unfolding locked
has_alive_servers acquire none keep_alive s = (ok false, s)
has_alive_servers acquire (some server_name) keep_alive s =
    locked (monitor_path server_name) keep_alive
      (record s { files = acquire (lock_path server_name) s.files })

-- os.remove(path); `none` is an exception
abbrev os_remove : Str → Files → Option Files
os_remove path files = elim (files path) [ none ↦ none | some _ ↦ some (remove path files) ]

-- The bare `except` keeps what was removed before the exception.
unfoldable pub clean_alive_servers : State → State
clean_alive_servers s = elim s.globals.monitor_file [
  | none ↦ s
  | some path ↦ elim (os_remove path s.files) [
    | none ↦ s
    | some files ↦ elim (os_remove (path ++ codes ".lock") files) [
      | none ↦ record s { files = files }
      | some files' ↦ record s { files = files' }
    ]
  ]
]
