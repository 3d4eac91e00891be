-- ===== src/Text/Number.antt =====
-- `str(n)` and `int(s)` on ASCII digits: white space around the number, a sign, and a `_` between
-- two digits are read as Python does.
use Prim.Native.Nat.{◌/◌, ◌%◌}
use mathlib.Core.Option
use bear_rpc.Base.{
  ℕ, zero, suc, ◌+◌, ◌-◌, ◌*◌, ◌<◌, ◌≡◌, ◌≢◌, refl, ◌∙◌, Bool, true, false, ◌&&◌, [], ◌∷◌, Option,
  none, some, arith, ltb, leb, ◌==◌, if◌then◌else◌, All, ℤ, pos, negsuc, Bool-cases, inl, inr, ap,
}
use bear_rpc.Text.{Str}
use bear_rpc.Text.Split.{is_space, strip, IsPlain, IsWord, strip_plain}

-- `fuel` bounds the number of digits; `show` gives enough.
unfoldable pub show_from : ℕ → ℕ → Str → Str
show_from zero n out = out
show_from (suc fuel) n out =
    let digit = b'0' + n % 10 in
    let rest = show_from fuel (n / 10) (digit ∷ out) in if ltb n 10 then digit ∷ out else rest

-- str(n)
unfoldable pub show : ℕ → Str
unfolding show_from
show n = show_from (suc n) n []

-- str(z)
unfoldable pub show_int : ℤ → Str
unfolding show
show_int (pos n) = show n
show_int (negsuc n) = b'-' ∷ show (suc n)

is_digit : ℕ → Bool
is_digit c = leb b'0' c && leb c b'9'

-- `behind` says whether the character before is a digit.
unfoldable pub scan : Str → Bool → ℕ → Option ℕ
unfolding is_digit
scan [] true n = some n
scan [] false n = none
scan (c ∷ s) behind n = elim (is_digit c) [
  | true ↦ scan s true (n * 10 + (c - b'0'))
  | false ↦ elim (c == b'_' && behind) [ true ↦ scan s false n | false ↦ none ]
]

abbrev negate : ℕ → ℤ
negate zero = pos 0
negate (suc n) = negsuc n

unfoldable pub signed : Str → Option ℤ
unfolding scan
signed [] = none
signed (c ∷ s) =
    if c == b'-'
    then Option.map negate (scan s false 0)
    else if c == b'+'
    then Option.map pos (scan s false 0)
    else Option.map pos (scan (c ∷ s) false 0)

-- int(s); `none` is a `ValueError`
unfoldable pub int : Str → Option ℤ
unfolding signed
int s = signed (strip s)

module _ (c : ℕ) (s : Str) (behind : Bool) (n : ℕ) where
  scan-digit : is_digit c ≡ true → scan (c ∷ s) behind n ≡ scan s true (n * 10 + (c - b'0'))
  unfolding scan
  scan-digit h = ground arith

abbrev IsDigit : ℕ → Type 0
IsDigit c = is_digit c ≡ true

IsDigit-mod : (n : ℕ) → IsDigit (b'0' + n % 10)
unfolding is_digit
IsDigit-mod n = ground arith

-- The text of `n` in front of `out` reads as `n`, and then `out` is read on.
scan-show_from :
    (fuel n : ℕ) (out : Str) → n < fuel → scan (show_from fuel n out) false 0 ≡ scan out true n
unfolding show_from
scan-show_from zero n out h = elim h [ ]
scan-show_from (suc fuel) n out h = elim (Bool-cases (ltb n 10)) [
  | inl e ↦
      rw e
        (scan-digit (b'0' + n % 10) out false 0 (IsDigit-mod n) ∙ ap (scan out true) (ground arith))
  | inr e ↦ rw e (
      scan-show_from fuel (n / 10) ((b'0' + n % 10) ∷ out) (ground arith)
      ∙ scan-digit (b'0' + n % 10) out true (n / 10) (IsDigit-mod n)
      ∙ ap (scan out true) (omega arith))
]

show_from-IsDigit : (fuel n : ℕ) (out : Str) → All IsDigit out → All IsDigit (show_from fuel n out)
unfolding show_from
show_from-IsDigit zero n out h = h
show_from-IsDigit (suc fuel) n out h = elim (Bool-cases (ltb n 10)) [
  | inl e ↦ rw e (IsDigit-mod n, h)
  | inr e ↦ rw e (show_from-IsDigit fuel (n / 10) ((b'0' + n % 10) ∷ out) (IsDigit-mod n, h))
]

show_from-ne-nil : (fuel n : ℕ) (out : Str) → out ≢ [] → show_from fuel n out ≢ []
unfolding show_from
show_from-ne-nil zero n out h = h
show_from-ne-nil (suc fuel) n out h = elim (Bool-cases (ltb n 10)) [
  | inl e ↦ rw e (λ p. cc)
  | inr e ↦ rw e (show_from-ne-nil fuel (n / 10) ((b'0' + n % 10) ∷ out) (λ p. cc))
]

show-IsDigit : (n : ℕ) → All IsDigit (show n)
unfolding show
show-IsDigit n = show_from-IsDigit (suc n) n [] tt

pub show-ne-nil : (n : ℕ) → show n ≢ []
unfolding show show_from
show-ne-nil n = elim (Bool-cases (ltb n 10)) [
  | inl e ↦ rw e (λ p. cc)
  | inr e ↦ rw e (show_from-ne-nil n (n / 10) ((b'0' + n % 10) ∷ []) (λ p. cc))
]

digit_plain : (c : ℕ) → IsDigit c → is_space c ≡ false
unfolding is_digit is_space
digit_plain c h = ground arith

digits_plain : (s : Str) → All IsDigit s → IsPlain s
digits_plain [] h = tt
digits_plain (c ∷ s) (h, hs) = (digit_plain c h, digits_plain s hs)

no_slash : (c : ℕ) → IsDigit c → (c == b'/') ≡ false
unfolding is_digit
no_slash c h = ground arith

digits_no_slash : (s : Str) → All IsDigit s → All (λ c. (c == b'/') ≡ false) s
digits_no_slash [] h = tt
digits_no_slash (c ∷ s) (h, hs) = (no_slash c h, digits_no_slash s hs)

-- A printed number is no path.
pub show-no_slash : (n : ℕ) → All (λ c. (c == b'/') ≡ false) (show n)
show-no_slash n = digits_no_slash (show n) (show-IsDigit n)

-- A printed number is one word.
pub show-IsWord : (n : ℕ) → IsWord (show n)
show-IsWord n = (show-ne-nil n, digits_plain (show n) (show-IsDigit n))

pub show_int-IsPlain : (z : ℤ) → IsPlain (show_int z)
unfolding show_int
show_int-IsPlain (pos n) = (show-IsWord n).1
show_int-IsPlain (negsuc n) = (unfold is_space in refl, (show-IsWord (suc n)).1)

pub show_int-ne-nil : (z : ℤ) → show_int z ≢ []
unfolding show_int
show_int-ne-nil (pos n) = show-ne-nil n
show_int-ne-nil (negsuc n) = λ p. cc

signed-digits : (s : Str) → s ≢ [] → All IsDigit s → signed s ≡ Option.map pos (scan s false 0)
unfolding signed is_digit
signed-digits [] h _ = absurd (h refl)
signed-digits (c ∷ s) _ (h, _) = ground arith

signed-minus : (s : Str) → signed (b'-' ∷ s) ≡ Option.map negate (scan s false 0)
unfolding signed
signed-minus s = refl

scan-show : (n : ℕ) → scan (show n) false 0 ≡ some n
unfolding show
scan-show n = scan-show_from (suc n) n [] (omega arith) ∙ unfold scan in refl

signed-show_int : (z : ℤ) → signed (show_int z) ≡ some z
unfolding show_int
signed-show_int (pos n) = signed-digits (show n) (show-ne-nil n) (show-IsDigit n) ∙ rw scan-show
signed-show_int (negsuc n) = signed-minus (show (suc n)) ∙ rw scan-show

-- Reading a printed integer gives the integer back.
pub int-show_int : (z : ℤ) → int (show_int z) ≡ some z
unfolding int
int-show_int z = rw (strip_plain (show_int z) (show_int-IsPlain z)) (signed-show_int z)
