-- ===== src/Training/Run/Multiples.antt =====
-- The multiples of a number, which are the epochs of python/dist_graphSage.py with an evaluation.
use native.Mathlib.Nat.{
  suc-mod, mod-eq_of_lt, mod_self, div-eq_of_lt-le, div-add-mod', mod-lt, zero-div, add-mul,
}
use bear_rpc.Base.{
  ℕ, zero, suc, ◌+◌, ◌*◌, ◌/◌, ◌%◌, ◌<◌, ◌==◌, ◌≡◌, refl, ap, ◌∙◌, false, List, [], ◌∷◌, length,
  arith, ltb, Bool-cases, inl, inr, if◌then◌else◌,
}

-- The multiples of a number among `count` numbers behind a first one.
abbrev pub multiples : ℕ → ℕ → ℕ → List ℕ
multiples every first zero = []
multiples every first (suc count) =
    let rest = multiples every (first + 1) count in
    if (first + 1) % every == 0 then (first + 1) ∷ rest else rest

module _ (k : ℕ) where
  next_div : (n : ℕ) → (n + 1) / suc k ≡ n / suc k + (if (n + 1) % suc k == 0 then 1 else 0)
  next_div n =
      let q = n / suc k in
      let r = n % suc k in
      let whole : q * suc k + r ≡ n = div-add-mod' n (suc k) in
      let small : r < suc k = mod-lt n (omega arith) in
      let next : (q + 1) * suc k ≡ q * suc k + suc k = add-mul q 1 (suc k) ∙ omega arith in
      let next₂ : (q + 1 + 1) * suc k ≡ (q + 1) * suc k + suc k =
        add-mul (q + 1) 1 (suc k) ∙ omega arith in
      let behind : (n + 1) % suc k ≡ suc r % suc k =
        ap (λ m. m % suc k) (omega arith) ∙ suc-mod n (suc k) in
      elim (Bool-cases (ltb (r + 1) (suc k))) [
        | inl t ↦
            let inside : suc r < suc k = ground arith in
            let at : (n + 1) % suc k ≡ suc r = behind ∙ mod-eq_of_lt inside in
            let same : (n + 1) / suc k ≡ q = div-eq_of_lt-le (suc k) (omega arith) (omega arith) in
            let no_multiple : ((n + 1) % suc k == 0) ≡ false = ground arith in
            rw no_multiple (omega arith)
        | inr t ↦
            let full : suc r ≡ suc k = ground arith in
            let at : (n + 1) % suc k ≡ 0 = behind ∙ ap (λ m. m % suc k) full ∙ mod_self (suc k) in
            rw at (div-eq_of_lt-le (suc k) (omega arith) (omega arith))
      ]

  -- There is one multiple of a number in as many numbers.
  length-multiples :
      (first count : ℕ)
      → first / suc k + length (multiples (suc k) first count) ≡ (first + count) / suc k
  length-multiples first zero =
      let same : (first + 0) / suc k ≡ first / suc k = ap (λ n. n / suc k) (omega arith) in
      omega arith
  length-multiples first (suc count) =
      let more = length-multiples (first + 1) count in
      let next = next_div first in
      let same : (first + 1 + count) / suc k ≡ (first + suc count) / suc k =
        ap (λ n. n / suc k) (omega arith) in
      elim (Bool-cases ((first + 1) % suc k == 0)) [
        | inl t ↦
            let at : (first + 1) / suc k ≡ first / suc k + 1 = next ∙ rw t refl in
            rw t (omega arith)
        | inr t ↦
            let at : (first + 1) / suc k ≡ first / suc k + 0 = next ∙ rw t refl in
            rw t (omega arith)
      ]

  pub length-multiples_from_zero : (count : ℕ) → length (multiples (suc k) 0 count) ≡ count / suc k
  length-multiples_from_zero count =
      let none_before : 0 / suc k ≡ 0 = zero-div (suc k) in
      let counted = length-multiples 0 count in
      let same : (0 + count) / suc k ≡ count / suc k = ap (λ m. m / suc k) (omega arith) in
      omega arith
