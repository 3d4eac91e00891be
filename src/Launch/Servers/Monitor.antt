-- ===== src/Launch/Servers/Monitor.antt =====
-- tools/launch.py: what is in the monitor file and its lock file behind each step.
use bear_rpc.Base.{
  ℕ, ◌≡◌, ◌≢◌, refl, sym, ap, ◌∙◌, Bool, true, false, Option, none, some, List, [], ◌∷◌, ◌++◌,
  arith, if◌then◌else◌, ℤ, next, ok, Option-cases, Bool-cases, inl, inr,
}
use bear_rpc.Text.{Str, codes, str_eq, str_eq_iff}
use bear_rpc.Text.Lines.{
  file_lines, rstrip_newline, file_lines-inline, rstrip_newline-inline, plain_inlines,
}
use bear_rpc.Text.Number.{int, show_int, int-show_int, show_int-IsPlain, show_int-ne-nil}
use bear_rpc.Launch.Servers.{Files, write, remove, State, join_group, locked, clean_alive_servers}

-- Taking a `FileLock` leaves a file at its own path and touches no other.
pub record IsLock (acquire : Str → Files → Files) : Type 0 where
  pub own : (path : Str) (files : Files) → acquire path files path ≢ none
  pub other :
      (path p : Str) (files : Files) → str_eq path p ≡ false → acquire path files p ≡ files p

pub str_eq_longer : (s t : Str) (c : ℕ) → str_eq (s ++ c ∷ t) s ≡ false
unfolding str_eq
str_eq_longer [] t c = refl
str_eq_longer (d ∷ s) t c = ground (arith, str_eq_longer s t c)

pub str_eq_shorter : (s t : Str) (c : ℕ) → str_eq s (s ++ c ∷ t) ≡ false
unfolding str_eq
str_eq_shorter [] t c = refl
str_eq_shorter (d ∷ s) t c = ground (arith, str_eq_shorter s t c)

str_eq_refl : (s : Str) → str_eq s s ≡ true
str_eq_refl s = (str_eq_iff s s).1 refl

pub write_self : (path text : Str) (files : Files) → write path text files path ≡ some text
unfolding write
write_self path text files = rw (str_eq_refl path)

join_group-line :
    (path line : Str) (z : ℤ) (s : State)
    → int (rstrip_newline line) ≡ some z
    → join_group path (line ∷ []) s ≡ (
      ok true,
      record {
        files = write path (show_int (next z)) s.files;
        globals = record s.globals { group_id = z };
      },
    )
unfolding join_group
join_group-line path line z s h = rw (h, join_group) refl

pub join_group-show :
    (path : Str) (z : ℤ) (s : State)
    → join_group path (file_lines (show_int z)) s ≡ (
      ok true,
      record {
        files = write path (show_int (next z)) s.files;
        globals = record s.globals { group_id = z };
      },
    )
join_group-show path z s =
    let inline = plain_inlines (show_int z) (show_int-IsPlain z) in
    ap (λ l. join_group path l s) (file_lines-inline (show_int z) (show_int-ne-nil z) inline)
    ∙ join_group-line path (show_int z) z s
        (ap int (rstrip_newline-inline (show_int z) inline) ∙ int-show_int z)

pub write_other :
    (path text p : Str) (files : Files) → str_eq path p ≡ false → write path text files p ≡ files p
unfolding write
write_other path text p files h = rw h

files-join_group :
    (path : Str) (lines : List Str) (s : State) (p : Str)
    → str_eq path p ≡ false
    → (join_group path lines s).1.files p ≡ s.files p
unfolding join_group
files-join_group path [] s p h = refl
files-join_group path (line ∷ _) s p h = elim (Option-cases (int (rstrip_newline line))) [
  | inl e ↦ rw (e, join_group) refl
  | inr (z, e) ↦ rw (e, join_group) (write_other path (show_int (next z)) p s.files h)
]

pub files-locked :
    (path : Str) (keep_alive : Bool) (s : State) (p : Str)
    → str_eq path p ≡ false
    → (locked path keep_alive s).1.files p ≡ s.files p
unfolding locked
files-locked path true s p h = elim (Option-cases (s.files path)) [
  | inl e ↦ rw (e, locked) (write_other path (codes "1") p s.files h)
  | inr (text, e) ↦ rw (e, locked) (files-join_group path (file_lines text) s p h)
]
files-locked path false s p h = elim (Option-cases (s.files path)) [
  | inl e ↦ rw (e, locked) refl
  | inr (text, e) ↦ rw (e, locked) (files-join_group path (file_lines text) s p h)
]

pub Option-some : (o : Option Str) → o ≢ none → (t : Str) × (o ≡ some t)
Option-some none h = absurd (h refl)
Option-some (some t) h = (t, refl)

remove_other :
    (path p : Str) (files : Files) → str_eq path p ≡ false → remove path files p ≡ files p
unfolding remove
remove_other path p files h = rw h

-- Both files are removed where both are there.
pub files-clean :
    (path t u : Str) (s : State)
    → s.globals.monitor_file ≡ some path
    → s.files path ≡ some t
    → s.files (path ++ codes ".lock") ≡ some u
    → (clean_alive_servers s).files ≡ remove (path ++ codes ".lock") (remove path s.files)
unfolding clean_alive_servers
files-clean path t u s m e l =
    rw
      (
        m,
        e,
        remove_other path (path ++ codes ".lock") s.files (str_eq_shorter path (codes "lock") b'.')
            ∙ l,
        clean_alive_servers,
      )
      refl

-- Where only the second of two files was there before, all is as before without both.
pub both_removed :
    (path lock text p : Str) (files taken : Files)
    → files path ≡ none
    → (str_eq lock p ≡ false → taken p ≡ files p)
    → remove lock (remove path (write path text taken)) p
      ≡ (if str_eq lock p then none else files p)
unfolding remove write
both_removed path lock text p files taken h same = elim (Bool-cases (str_eq lock p)) [
  | inl e ↦ rw e
  | inr e ↦ elim (Bool-cases (str_eq path p)) [
    | inl m ↦ rw (e, m) (sym h ∙ ap files ((str_eq_iff path p).0 m))
    | inr m ↦ rw (e, m) (same e)
  ]
]
