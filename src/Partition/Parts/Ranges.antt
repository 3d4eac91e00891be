-- ===== src/Partition/Parts/Ranges.antt =====
-- srcChange/partition/aly_partition.py: the ID ranges of the partition book.
use mathlib.Core.Option.{some-injective}
use bear_rpc.Base.{
  sym, subst, ℕ, zero, suc, ◌≤◌, ◌<◌, ◌≡◌, refl, ap, some, List, [], ◌∷◌, arith, get_elem?, ltb,
  Bool-cases, inl, inr,
}
use bear_rpc.Partition.Parts.{part_ranges}

-- Ending IDs that do not fall, from a start on.
unfoldable pub Ascending : ℕ → List ℕ → Type 0
Ascending start [] = Unit
Ascending start (end ∷ ends) = (start ≤ end) × Ascending end ends

-- The last of the ending IDs, or the start.
unfoldable pub total : ℕ → List ℕ → ℕ
total start [] = start
total start (end ∷ ends) = total end ends

-- The partition i holds the ID v.
unfoldable pub Holds : List (ℕ × ℕ) → ℕ → ℕ → Type 0
Holds ranges i v = (r : ℕ × ℕ) × (get_elem? ranges i ≡ some r) × (r.0 ≤ v) × (v < r.1)

Holds-nil : (i v : ℕ) → ¬ (Holds [] i v)
unfolding Holds
Holds-nil i v (r, at, _, _) = cc

Holds-first :
    (a b : ℕ) (ranges : List (ℕ × ℕ)) (v : ℕ) → Holds ((a, b) ∷ ranges) zero v → (a ≤ v) × (v < b)
unfolding Holds
Holds-first a b ranges v (r, at, lower, upper) =
    subst (λ q. (q.0 ≤ v) × (v < q.1)) (sym (some-injective (a, b) r at)) (lower, upper)

held :
    (start : ℕ) (ends : List ℕ) (v : ℕ)
    → start ≤ v
    → v < total start ends
    → (i : ℕ) × Holds (part_ranges start ends) i v
unfolding total Holds part_ranges
held start [] v h k = absurd (omega arith)
held start (end ∷ ends) v h k = elim (Bool-cases (ltb v end)) [
  | inl e ↦ (zero, ((start, end), refl, h, (ground arith)))
  | inr e ↦ let (i, at) = held end ends v (ground arith) k in (suc i, at)
]

-- A partition behind the start holds no ID before it.
Holds-start :
    (start : ℕ) (ends : List ℕ) (i v : ℕ)
    → Ascending start ends
    → Holds (part_ranges start ends) i v
    → start ≤ v
unfolding Ascending Holds part_ranges
Holds-start start [] i v up h = absurd (Holds-nil i v h)
Holds-start start (end ∷ ends) zero v up h = (Holds-first start end (part_ranges end ends) v h).0
Holds-start start (end ∷ ends) (suc i) v up h =
    let k = Holds-start end ends i v up.1 h in omega (arith, up.0)

only_one :
    (start : ℕ) (ends : List ℕ) (i j v : ℕ)
    → Ascending start ends
    → Holds (part_ranges start ends) i v
    → Holds (part_ranges start ends) j v
    → i ≡ j
unfolding Ascending Holds part_ranges
only_one start [] i j v up h k = absurd (Holds-nil i v h)
only_one start (end ∷ ends) zero zero v up h k = refl
only_one start (end ∷ ends) (suc i) (suc j) v up h k = ap suc (only_one end ends i j v up.1 h k)
only_one start (end ∷ ends) zero (suc j) v up h k =
    let first = Holds-first start end (part_ranges end ends) v h in
    let later = Holds-start end ends j v up.1 k in omega arith
only_one start (end ∷ ends) (suc i) zero v up h k =
    let first = Holds-first start end (part_ranges end ends) v k in
    let later = Holds-start end ends i v up.1 h in omega arith

-- For ending IDs that do not fall, the ranges that are made of them cover the IDs below the last
-- one: each of these is held by exactly one partition.
pub part_ranges_lem :
    (ends : List ℕ) (v : ℕ)
    → Ascending 0 ends
    → v < total 0 ends
    → (i : ℕ) × Holds (part_ranges 0 ends) i v × ((j : ℕ) → Holds (part_ranges 0 ends) j v → j ≡ i)
part_ranges_lem ends v up below =
    let (i, at) = held 0 ends v (omega arith) below in (i, at, λ j h. only_one 0 ends j i v up h at)
