-- ===== src/Launch/Remote/Codes.antt =====
-- tools/launch.py: when the codes of the threads make the launch fail.
use bear_rpc.Base.{
  ◌≡◌, refl, sym, ◌∙◌, ◌↔◌, Bool, true, false, ◌&&◌, not, List, [], ◌∷◌, arith, ℤ, pos, eq_ℤ, map,
  All, Bool-cases, inl, inr,
}
use bear_rpc.Launch.Remote.{
  Completion, completed, called_process_error, other_exception, exit_state, join_threads,
  task_fails,
}

-- A failed call has a return code other than 0, as `subprocess` documents.
pub data IsReal : Completion → Type 0 where
  success : IsReal completed
  failure : {code : ℤ} → eq_ℤ code (pos 0) ≡ false → IsReal (called_process_error code)
  exception : IsReal other_exception

all_zero : List ℤ → Bool
all_zero [] = true
all_zero (code ∷ codes) = eq_ℤ code (pos 0) && all_zero codes

-- The loop ends without an error just where there is none before it and each code is 0.
join_threads-zero :
    (codes : List ℤ) (err : ℤ)
    → eq_ℤ (join_threads codes err) (pos 0) ≡ (eq_ℤ err (pos 0) && all_zero codes)
unfolding join_threads all_zero
join_threads-zero [] err = ground arith
join_threads-zero (code ∷ codes) err = elim (Bool-cases (eq_ℤ code (pos 0))) [
  | inl e ↦ rw e (join_threads-zero codes err)
  | inr e ↦ rw e (join_threads-zero codes code ∙ rw e (ground arith))
]

task_fails-zero : (l : List Completion) → task_fails l ≡ not (all_zero (map exit_state l))
unfolding task_fails
task_fails-zero l = rw (join_threads-zero (map exit_state l) (pos 0)) (ground arith)

exit_state-zero : (c : Completion) → IsReal c → eq_ℤ (exit_state c) (pos 0) ≡ true → c ≡ completed
unfolding exit_state
exit_state-zero completed success h = refl
exit_state-zero (called_process_error code) (failure e) h = cc
exit_state-zero other_exception exception h = cc

all_zero_sound :
    (l : List Completion)
    → All IsReal l
    → all_zero (map exit_state l) ≡ true
    → All (λ c. c ≡ completed) l
unfolding all_zero
all_zero_sound [] r h = tt
all_zero_sound (c ∷ l) (r, rs) h =
    (exit_state-zero c r (ground arith), all_zero_sound l rs (ground arith))

all_zero_complete :
    (l : List Completion) → All (λ c. c ≡ completed) l → all_zero (map exit_state l) ≡ true
unfolding all_zero exit_state
all_zero_complete [] h = refl
all_zero_complete (c ∷ l) (h, hs) = rw (h, all_zero_complete l hs) refl

-- The launch ends without failure exactly when every command that was started on another machine
-- completed, if a failed call has a return code other than 0.
pub task_fails_lem :
    (l : List Completion) → All IsReal l → (task_fails l ≡ false) ↔ All (λ c. c ≡ completed) l
task_fails_lem l r = (
  λ h. all_zero_sound l r (unfolded (all_zero (map exit_state l)) (sym (task_fails-zero l) ∙ h)),
  λ h. task_fails-zero l ∙ rw (all_zero_complete l h) refl,
)
  where
    unfolded : (b : Bool) → not b ≡ false → b ≡ true
    unfolded b h = ground arith
