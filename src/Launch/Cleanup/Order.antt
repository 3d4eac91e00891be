-- ===== src/Launch/Cleanup/Order.antt =====
-- tools/launch.py: `list.sort()` on pids.
use mathlib.Core.List.Perm
use mathlib.Core.List.{Perm}
use bear_rpc.Base.{
  ◌≡◌, true, false, List, [], ◌∷◌, arith, All, Bool-cases, inl, inr, ℤ, ◌≤ℤ◌, leb_ℤ,
}
use bear_rpc.Launch.Cleanup.{insert, sort}

-- Each element is at most all that follow it.
pub IsSorted : List ℤ → Type 0
IsSorted [] = Unit
IsSorted (a ∷ l) = All (λ b. a ≤ℤ b) l × IsSorted l

module _ (P : ℤ → Type 0) where
  insert-All : (a : ℤ) (l : List ℤ) → P a → All P l → All P (insert a l)
  unfolding insert
  insert-All a [] p h = (p, tt)
  insert-All a (b ∷ l) p h = elim (Bool-cases (leb_ℤ a b)) [
    | inl e ↦ rw e (p, h)
    | inr e ↦ rw e (h.0, insert-All a l p h.1)
  ]

  -- What holds of all elements holds of all elements of the sorted list.
  pub sort-All : (l : List ℤ) → All P l → All P (sort l)
  unfolding sort
  sort-All [] h = tt
  sort-All (a ∷ l) h = insert-All a (sort l) h.0 (sort-All l h.1)

leb_ℤ-true : (a b : ℤ) → leb_ℤ a b ≡ true → a ≤ℤ b
leb_ℤ-true a b h = ground arith

leb_ℤ-false : (a b : ℤ) → leb_ℤ a b ≡ false → b ≤ℤ a
leb_ℤ-false a b h = ground arith

≤ℤ-trans : (a b c : ℤ) → a ≤ℤ b → b ≤ℤ c → a ≤ℤ c
≤ℤ-trans a b c h k = omega arith

All-≤ℤ-trans : (a b : ℤ) (l : List ℤ) → a ≤ℤ b → All (λ c. b ≤ℤ c) l → All (λ c. a ≤ℤ c) l
All-≤ℤ-trans a b [] h k = tt
All-≤ℤ-trans a b (c ∷ l) h k = (≤ℤ-trans a b c h k.0, All-≤ℤ-trans a b l h k.1)

insert-IsSorted : (a : ℤ) (l : List ℤ) → IsSorted l → IsSorted (insert a l)
unfolding insert IsSorted
insert-IsSorted a [] h = (tt, tt)
insert-IsSorted a (b ∷ l) h = elim (Bool-cases (leb_ℤ a b)) [
  | inl e ↦ rw e ((leb_ℤ-true a b e, All-≤ℤ-trans a b l (leb_ℤ-true a b e) h.0), (h.0, h.1))
  | inr e ↦ rw e (insert-All (λ c. b ≤ℤ c) a l (leb_ℤ-false a b e) h.0, insert-IsSorted a l h.1)
]

pub sort-IsSorted : (l : List ℤ) → IsSorted (sort l)
unfolding sort IsSorted
sort-IsSorted [] = tt
sort-IsSorted (a ∷ l) = insert-IsSorted a (sort l) (sort-IsSorted l)

insert-Perm : (a : ℤ) (l : List ℤ) → Perm (insert a l) (a ∷ l)
unfolding insert
insert-Perm a [] = Perm.refl _
insert-Perm a (b ∷ l) = elim (Bool-cases (leb_ℤ a b)) [
  | inl e ↦ rw e (Perm.refl (a ∷ b ∷ l))
  | inr e ↦ rw e (Perm.trans (Perm.cons b (insert-Perm a l)) (Perm.swap a b l))
]

pub sort-Perm : (l : List ℤ) → Perm (sort l) l
unfolding sort
sort-Perm [] = Perm.refl _
sort-Perm (a ∷ l) = Perm.trans (insert-Perm a (sort l)) (Perm.cons a (sort-Perm l))
