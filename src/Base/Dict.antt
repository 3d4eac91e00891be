-- ===== src/Base/Dict.antt =====
-- Python's `dict` in insertion order, for keys with a Boolean equality.
use mathlib.Core.Path.{◌≡◌, refl}
use mathlib.Core.Bool.{Bool, true, false}
use mathlib.Core.Option.{Option, none, some}
use mathlib.Core.List.{List, [], ◌∷◌, ◌++◌}
use native.Mathlib.Omega.{arith}
use bear_rpc.Base.Tests.{if◌then◌else◌}

module _ {K V : Type 0} (same : K → K → Bool) where
  -- key in d
  unfoldable pub member : K → List (K × V) → Bool
  member key [] = false
  member key ((k, _) ∷ items) = if same k key then true else member key items

  -- d[key], or none for a missing key
  unfoldable pub find : K → List (K × V) → Option V
  find key [] = none
  find key ((k, v) ∷ items) = if same k key then some v else find key items

  -- d[key] = value
  unfoldable pub assign : K → V → List (K × V) → List (K × V)
  assign key value [] = (key, value) ∷ []
  assign key value ((k, v) ∷ items) =
      if same k key then (k, value) ∷ items else (k, v) ∷ assign key value items

  -- No key of the entries stands in the dictionary or among the entries before it.
  unfoldable pub Fresh : List (K × V) → List (K × V) → Type 0
  Fresh [] items = Unit
  Fresh ((k, v) ∷ more) items = (member k items ≡ false) × Fresh more (items ++ (k, v) ∷ [])

  pub assign-new :
      (key : K) (value : V) (items : List (K × V))
      → member key items ≡ false
      → assign key value items ≡ items ++ (key, value) ∷ []
  unfolding assign member
  assign-new key value [] h = refl
  assign-new key value ((k, v) ∷ items) h = ground (arith, assign-new key value items)
