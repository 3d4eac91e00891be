-- ===== src/Text.antt =====
-- Python's `str` as the list of its code points, with the methods that the scripts call:
-- `==`, `in`, `replace`, `join` and concatenation (`++`). A literal is `codes "…"`.
pub mod Split
pub mod Lines
pub mod Number
pub mod Replace
use Prim.Native.Char.{code}
use bear_rpc.Base.{
  ℕ, zero, suc, ◌-◌, ◌≡◌, refl, ◌↔◌, String, Bool, true, false, ◌&&◌, ◌||◌, List, [], ◌∷◌, ◌++◌,
  arith, length, ◌==◌, ==_iff, if◌then◌else◌,
}

abbrev pub Str : Type 0
Str = List ℕ

abbrev pub codes : String → Str
codes String.[] = []
codes (String.◌∷◌ c s) = code c ∷ codes s

-- s == t
unfoldable pub str_eq : Str → Str → Bool
str_eq [] [] = true
str_eq [] (_ ∷ _) = false
str_eq (_ ∷ _) [] = false
str_eq (c ∷ s) (d ∷ t) = (c == d) && str_eq s t

pub str_eq_iff : (s t : Str) → (str_eq s t ≡ true) ↔ (s ≡ t)
unfolding str_eq
str_eq_iff [] [] = (λ _. refl, λ _. refl)
str_eq_iff [] (d ∷ t) = (λ h. cc, λ h. cc)
str_eq_iff (c ∷ s) [] = (λ h. cc, λ h. cc)
str_eq_iff (c ∷ s) (d ∷ t) = ground (arith, str_eq_iff s t)

-- s.startswith(p)
unfoldable pub starts_with : Str → Str → Bool
starts_with s [] = true
starts_with [] (d ∷ p) = false
starts_with (c ∷ s) (d ∷ p) = (c == d) && starts_with s p

-- old in s
unfoldable pub contains : Str → Str → Bool
unfolding starts_with
contains old [] = starts_with [] old
contains old (c ∷ s) = starts_with (c ∷ s) old || contains old s

-- `skip` counts the characters of an occurrence that are still to be passed over.
unfoldable pub replace_from : Str → Str → ℕ → Str → Str
unfolding starts_with
replace_from old new skip [] = []
replace_from old new (suc skip) (c ∷ s) = replace_from old new skip s
replace_from old new zero (c ∷ s) = elim (starts_with (c ∷ s) old) [
  | true ↦ new ++ replace_from old new (length old - 1) s
  | false ↦ c ∷ replace_from old new zero s
]

-- s.replace(old, new), for an `old` that is not empty
unfoldable pub replace : Str → Str → Str → Str
unfolding replace_from
replace s old new = replace_from old new 0 s

-- sep.join(parts)
unfoldable pub join : Str → List Str → Str
join sep [] = []
join sep (p ∷ []) = p
join sep (p ∷ q ∷ ps) = p ++ (sep ++ join sep (q ∷ ps))

starts_with-append_self : (p s : Str) → starts_with (p ++ s) p ≡ true
unfolding starts_with
starts_with-append_self [] s = refl
starts_with-append_self (c ∷ p) s = ground (arith, starts_with-append_self p s)
