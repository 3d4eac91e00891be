-- ===== src/Launch/Torch/Cut.antt =====
-- tools/launch.py: an interpreter whose name goes on behind an entry of the allowlist.
use bear_rpc.Base.{ℕ, ◌≤◌, ◌≡◌, ◌≢◌, refl, ap, ◌∙◌, true, false, [], ◌∷◌, ◌++◌, arith}
use bear_rpc.Text.{Str, codes, starts_with, contains}
use bear_rpc.Text.Replace.{replace-first, replace-lacks}
use bear_rpc.Launch.Torch.{
  TorchArgs, construct_torch_dist_launcher_cmd, python_bin, wrap_udf_in_torch_dist_launcher,
}

starts_with-append_prefix : (s p q : Str) → starts_with s (p ++ q) ≡ true → starts_with s p ≡ true
unfolding starts_with
starts_with-append_prefix s [] q h = unfold starts_with in refl
starts_with-append_prefix [] (d ∷ p) q h = cc
starts_with-append_prefix (c ∷ s) (d ∷ p) q h = ground (arith, starts_with-append_prefix s p q)

-- A text that lacks a text lacks every longer one.
contains-append_prefix : (p q s : Str) → contains p s ≡ false → contains (p ++ q) s ≡ false
unfolding contains
contains-append_prefix p q [] h = ground (arith, starts_with-append_prefix [] p q)
contains-append_prefix p q (c ∷ s) h =
    ground (arith, starts_with-append_prefix (c ∷ s) p q, contains-append_prefix p q s)

-- "python3.1" and one more digit in front of the rest of a command
abbrev pub python3_1x : ℕ → Str → Str
python3_1x d rest = codes "python3.1" ++ d ∷ rest

module _ (d : ℕ) (rest : Str) (digit : (b'0' ≤ d) × (d ≤ b'9')) where
  contains_at_digit :
      (c : ℕ) (p : Str) → c ≢ d → contains (c ∷ p) (d ∷ rest) ≡ contains (c ∷ p) rest
  unfolding contains
  contains_at_digit c p h = ground arith

  -- An entry that does not occur in the rest does not occur at the digit either.
  lacks_digit :
      (p : Str)
      → contains (codes "python") rest ≡ false
      → contains (codes "python" ++ p) (d ∷ rest) ≡ false
  lacks_digit p h =
      contains_at_digit b'p' (codes "ython" ++ p) (omega arith)
      ∙ contains-append_prefix (codes "python") p rest h

  python_bin-python3_1x :
      contains (codes "python") rest ≡ false → python_bin (python3_1x d rest) ≡ codes "python3"
  unfolding python_bin contains
  python_bin-python3_1x h = rw (
    lacks_digit (codes "3.6") h,
    lacks_digit (codes "3.7") h,
    lacks_digit (codes "3.8") h,
    lacks_digit (codes "3.9") h,
  )

  lacks_python3 :
      contains (codes "python") rest ≡ false
      → contains (codes "python3") (codes ".1" ++ d ∷ rest) ≡ false
  unfolding contains
  lacks_python3 h = lacks_digit (codes "3") h

-- A command that begins with python3.10 to python3.19 and does not name python again is cut behind
-- "python3": the torch launcher and its arguments stand there, so that the command runs python3
-- instead, and ".1" with the last digit goes to the launcher as one more argument.
pub wrap_udf-python3_1x :
    (d : ℕ) (rest : Str) (a : TorchArgs)
    → (b'0' ≤ d) × (d ≤ b'9')
    → contains (codes "python") rest ≡ false
    → wrap_udf_in_torch_dist_launcher (python3_1x d rest) a
      ≡ codes "python3 " ++ (construct_torch_dist_launcher_cmd a ++ (codes ".1" ++ d ∷ rest))
wrap_udf-python3_1x d rest a digit h =
    unfold wrap_udf_in_torch_dist_launcher in
    rw (python_bin-python3_1x d rest digit h) (
      replace-first b'p' (codes "ython3") (codes "python3 " ++ construct_torch_dist_launcher_cmd a)
        (python3_1x d rest) [] (codes ".1" ++ d ∷ rest) (record { spelt = refl; first = tt })
      ∙ ap (λ t. codes "python3 " ++ (construct_torch_dist_launcher_cmd a ++ t))
          (replace-lacks b'p' (codes "ython3")
            (codes "python3 " ++ construct_torch_dist_launcher_cmd a) (codes ".1" ++ d ∷ rest)
            (lacks_python3 d rest digit h)))
