-- ===== src/Partition/Maps/Consecutive.antt =====
-- Numbers in a row, as the IDs of a part of a reshuffled graph are.
use bear_rpc.Base.{
  ℕ, zero, suc, ◌+◌, ◌<◌, ◌≡◌, refl, ap, ◌∙◌, some, List, [], ◌∷◌, arith, length, get_elem?, ok,
}
use bear_rpc.Partition.Maps.{first, last}

-- start, start + 1, …, `size` numbers.
unfoldable pub consecutive : ℕ → ℕ → List ℕ
consecutive start zero = []
consecutive start (suc size) = start ∷ consecutive (start + 1) size

pub length-consecutive : (start size : ℕ) → length (consecutive start size) ≡ size
unfolding consecutive
length-consecutive start zero = refl
length-consecutive start (suc size) = ap suc (length-consecutive (start + 1) size)

pub first-consecutive : (start size : ℕ) → first (consecutive start (suc size)) ≡ ok start
unfolding first consecutive
first-consecutive start size = refl

pub last-consecutive : (start size : ℕ) → last (consecutive start (suc size)) ≡ ok (start + size)
unfolding last consecutive
last-consecutive start zero = ap ok (omega arith)
last-consecutive start (suc size) = last-consecutive (start + 1) size ∙ ap ok (omega arith)

pub get_elem?-consecutive :
    (start size k : ℕ) → k < size → get_elem? (consecutive start size) k ≡ some (start + k)
unfolding consecutive
get_elem?-consecutive start zero k h = absurd (omega arith)
get_elem?-consecutive start (suc size) zero h = ap some (omega arith)
get_elem?-consecutive start (suc size) (suc k) h =
    get_elem?-consecutive (start + 1) size k (omega arith) ∙ ap some (omega arith)
