-- ===== src/Launch/Torch/Wrap.antt =====
-- tools/launch.py: where `wrap_udf_in_torch_dist_launcher` puts the torch launcher.
use bear_rpc.Base.{◌≡◌, ◌≢◌, refl, true, false, List, [], ◌∷◌, ◌++◌, Bool-cases, inl, inr, All}
use bear_rpc.Text.{Str, codes, contains, replace}
use bear_rpc.Text.Replace.{FirstAt, contains-split, replace-first}
use bear_rpc.Launch.Torch.{
  TorchArgs, construct_torch_dist_launcher_cmd, python_bin_allowlist, pick_bin, python_bin,
  wrap_udf_in_torch_dist_launcher,
}

-- A candidate of the list was picked where it is the first of the list that the command holds.
pub data Picked (udf : Str) : List Str → Str → Type 0 where
  here : {bin : Str} {rest : List Str} → contains bin udf ≡ true → Picked udf (bin ∷ rest) bin
  there :
      {bin other : Str} {rest : List Str}
      → contains other udf ≡ false
      → Picked udf rest bin
      → Picked udf (other ∷ rest) bin
  none_fits : Picked udf [] (codes "python")

Picked-pick_bin : (l : List Str) (udf : Str) → Picked udf l (pick_bin l udf)
unfolding pick_bin
Picked-pick_bin [] udf = none_fits
Picked-pick_bin (c ∷ l) udf = elim (Bool-cases (contains c udf)) [
  | inl e ↦ rw e (here e)
  | inr e ↦ rw e (there e (Picked-pick_bin l udf))
]

-- The interpreter is the first entry of the allowlist that occurs in the command, every entry
-- before it being absent, and it is `python` where no entry occurs.
pub python_bin-Picked : (udf : Str) → Picked udf python_bin_allowlist (python_bin udf)
unfolding python_bin
python_bin-Picked udf = Picked-pick_bin python_bin_allowlist udf

-- What the loop picks occurs in the command, if the default does.
pick_bin-contains :
    (l : List Str) (udf : Str)
    → contains (codes "python") udf ≡ true
    → contains (pick_bin l udf) udf ≡ true
unfolding pick_bin
pick_bin-contains [] udf h = h
pick_bin-contains (c ∷ l) udf h = elim (Bool-cases (contains c udf)) [
  | inl e ↦ rw e e
  | inr e ↦ rw e (pick_bin-contains l udf h)
]

pick_bin-ne-nil : (l : List Str) (udf : Str) → All (λ c. c ≢ []) l → pick_bin l udf ≢ []
unfolding pick_bin
pick_bin-ne-nil [] udf _ = λ e. cc
pick_bin-ne-nil (c ∷ l) udf (h, hs) = elim (Bool-cases (contains c udf)) [
  | inl e ↦ rw e h
  | inr e ↦ rw e (pick_bin-ne-nil l udf hs)
]

python_bin-ne-nil : (udf : Str) → python_bin udf ≢ []
unfolding python_bin
python_bin-ne-nil udf =
    pick_bin-ne-nil python_bin_allowlist udf
      ((λ e. cc), ((λ e. cc), ((λ e. cc), ((λ e. cc), ((λ e. cc), ((λ e. cc), ((λ e. cc), tt)))))))

replace-split :
    (old new s : Str)
    → old ≢ []
    → contains old s ≡ true
    → (pre : Str) × (post : Str) × FirstAt old s pre post
      × (replace s old new ≡ pre ++ (new ++ replace post old new))
replace-split [] new s h _ = absurd (h refl)
replace-split (d ∷ o) new s _ h =
    let found = contains-split (d ∷ o) s h in
    (found.0, found.1, found.2, replace-first d o new s found.0 found.1 found.2)

-- A command that names python, as `main` demands, is cut at the first occurrence of the chosen
-- interpreter: what stands before it is kept, the interpreter is followed by a blank and the torch
-- launcher with its arguments, and the rest of the command is treated in the same way.
pub wrap_udf_lem :
    (udf : Str) (a : TorchArgs)
    → contains (codes "python") udf ≡ true
    → (pre : Str) × (post : Str) × FirstAt (python_bin udf) udf pre post
      × (wrap_udf_in_torch_dist_launcher udf a
          ≡ pre
            ++ ((python_bin udf ++ b' ' ∷ construct_torch_dist_launcher_cmd a)
                ++ replace post
                    (python_bin udf)
                    (python_bin udf ++ b' ' ∷ construct_torch_dist_launcher_cmd a)))
unfolding wrap_udf_in_torch_dist_launcher
wrap_udf_lem udf a h =
    replace-split (python_bin udf) (python_bin udf ++ b' ' ∷ construct_torch_dist_launcher_cmd a)
      udf (python_bin-ne-nil udf)
      (unfold python_bin in pick_bin-contains python_bin_allowlist udf h)
