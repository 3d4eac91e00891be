-- ===== src/Base/Outcome.antt =====
-- What a Python function gives: its value, or the exception that it raises.
use Prim.Native.String.{String}
use mathlib.Core.Path.{◌≡◌, refl}
use mathlib.Core.Bool.{Bool, true, false}
use mathlib.Core.List.{List}
use Prim.Native.Nat.{ℕ}

-- An exception, with the message that the script gives it. `runtime` has a formatted message.
pub data Error : Type 0 where
  assertion : String → Error
  runtime : List ℕ → Error
  value_error index_error key_error type_error unbound_local os_error dgl_error zero_division
        attribute_error regex_error :
      Error
  exception not_implemented : Error

pub data Result {ℓ} (A : Type ℓ) : Type ℓ where
  ok : A → Result A
  raise : Error → Result A

module _ {ℓ κ} {A : Type ℓ} {B : Type κ} where
  infixl 5 ◌>>=◌
  -- A step and the rest of the function, which a raised exception skips.
  abbrev pub ◌>>=◌ : Result A → (A → Result B) → Result B
  raise x >>= rest = raise x
  ok a >>= rest = rest a

  -- A chain that returns: its first step returned, and so did the rest.
  pub >>=-eq_ok :
      (first : Result A) (rest : A → Result B) {b : B}
      → (first >>= rest) ≡ ok b
      → (a : A) × (first ≡ ok a) × (rest a ≡ ok b)
  >>=-eq_ok (raise x) rest h = cc
  >>=-eq_ok (ok a) rest h = (a, refl, h)

infixl 5 ◌>>◌
abbrev pub ◌>>◌ {ℓ} : {A : Type ℓ} → Result (Unit {0}) → Result A → Result A
first >> rest = first >>= (λ _. rest)

-- assert test, message
abbrev pub assert : Bool → String → Result (Unit {0})
assert true message = ok tt
assert false message = raise (assertion message)

-- A method on a state: what was changed before an exception stays changed.
abbrev pub Exec {ℓ} : Type ℓ → Type ℓ → Type ℓ
Exec S A = S → Result A × S

module _ {ℓ} {S A B : Type ℓ} where
  -- The rest of a method, behind a step with this outcome.
  abbrev pub continue : Result A → (A → Exec S B) → Exec S B
  continue (ok a) f s = f a s
  continue (raise e) f s = (raise e, s)

pub assert-eq_ok {ℓ} :
    {B : Type ℓ} (test : Bool) (message : String) (k : Result B) {b : B}
    → (assert test message >> k) ≡ ok b
    → (test ≡ true) × (k ≡ ok b)
assert-eq_ok true message k h = (refl, h)
assert-eq_ok false message k h = cc

pub ok-injective {ℓ} : {A : Type ℓ} (a b : A) → ok a ≡ ok b → a ≡ b
ok-injective a b h = cc
