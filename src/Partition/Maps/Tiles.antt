-- ===== src/Partition/Maps/Tiles.antt =====
-- srcChange/partition/aly_partition.py: ranges that are sorted and have the right total size tile the
-- ID space.
use bear_rpc.Base.{ℕ, ◌+◌, ◌≤◌, ◌<◌, ◌≡◌, refl, sym, subst, true, List, [], ◌∷◌, map, arith, All}
use bear_rpc.Partition.Maps.{flatten, ascending}
use bear_rpc.Partition.Parts.{part_ranges}
use bear_rpc.Partition.Parts.Ranges.{Ascending, total, Holds, part_ranges_lem}

-- The ranges follow each other without gap or overlap, from one ID to another.
pub Tiles : ℕ → List (ℕ × ℕ) → ℕ → Type 0
Tiles from [] to = from ≡ to
Tiles from ((start, end) ∷ ranges) to = (start ≡ from) × (start ≤ end) × Tiles end ranges to

-- A stored size with its range, which ends at n at the latest.
unfoldable pub Fits : ℕ → ℕ × (ℕ × ℕ) → Type 0
Fits n (size, (start, end)) = (start + size ≡ end) × (end ≤ n)

unfoldable pub sizes : List (ℕ × (ℕ × ℕ)) → ℕ
sizes [] = 0
sizes ((size, _) ∷ es) = size + sizes es

-- The list of a start and the ranges behind it is sorted.
From : ℕ → List (ℕ × ℕ) → Type 0
From s ranges = ascending (s ∷ flatten ranges) ≡ true

From-cons :
    (s start end : ℕ) (ranges : List (ℕ × ℕ))
    → From s ((start, end) ∷ ranges)
    → (s ≤ start) × (start ≤ end) × From end ranges
unfolding From ascending flatten
From-cons s start end ranges h = (ground arith, ground arith, ground arith)

-- All sizes fit between a start and n.
room :
    (n s : ℕ) (es : List (ℕ × (ℕ × ℕ)))
    → s ≤ n
    → All (Fits n) es
    → From s (map (λ (_, range). range) es)
    → s + sizes es ≤ n
unfolding sizes Fits
room n s [] below fits up = omega arith
room n s ((size, (start, end)) ∷ es) below fits up =
    let (lower, wide, rest) = From-cons s start end (map (λ (_, range). range) es) up in
    let (whole, top) = fits.0 in let behind = room n end es top fits.1 rest in omega arith

Tiles-Fits :
    (n s : ℕ) (es : List (ℕ × (ℕ × ℕ)))
    → All (Fits n) es
    → From s (map (λ (_, range). range) es)
    → s + sizes es ≡ n
    → Tiles s (map (λ (_, range). range) es) n
unfolding sizes Fits Tiles
Tiles-Fits n s [] fits up full = omega arith
Tiles-Fits n s ((size, (start, end)) ∷ es) fits up full =
    let (lower, wide, rest) = From-cons s start end (map (λ (_, range). range) es) up in
    let (whole, top) = fits.0 in
    let behind = room n end es top fits.1 rest in
    (omega arith, wide, Tiles-Fits n end es fits.1 rest (omega arith))

from_zero : (val : List ℕ) → ascending val ≡ true → ascending (0 ∷ val) ≡ true
unfolding ascending
from_zero [] h = refl
from_zero (a ∷ val) h = ground arith

-- Sorted ranges of the stored sizes that end at n at the latest tile the IDs below n, if their sizes
-- sum up to n.
pub tiles_lem :
    (n : ℕ) (es : List (ℕ × (ℕ × ℕ)))
    → All (Fits n) es
    → ascending (flatten (map (λ (_, range). range) es)) ≡ true
    → sizes es ≡ n
    → Tiles 0 (map (λ (_, range). range) es) n
unfolding From
tiles_lem n es fits up full =
    Tiles-Fits n 0 es fits (from_zero (flatten (map (λ (_, range). range) es)) up)
      (omega (arith, full))

Tiles-part_ranges :
    (from : ℕ) (ranges : List (ℕ × ℕ)) (to : ℕ)
    → Tiles from ranges to
    → (ranges ≡ part_ranges from (map (λ (_, end). end) ranges))
      × Ascending from (map (λ (_, end). end) ranges)
      × (total from (map (λ (_, end). end) ranges) ≡ to)
unfolding Tiles part_ranges Ascending total
Tiles-part_ranges from [] to h = (refl, tt, h)
Tiles-part_ranges from ((start, end) ∷ ranges) to (same, wide, rest) =
    let (shape, up, top) = Tiles-part_ranges end ranges to rest in
    (ground arith, (omega arith, up), top)

-- In ranges that tile the IDs below n, each of these is held by exactly one part.
pub Tiles-Holds :
    (ranges : List (ℕ × ℕ)) (n v : ℕ)
    → Tiles 0 ranges n
    → v < n
    → (i : ℕ) × Holds ranges i v × ((j : ℕ) → Holds ranges j v → j ≡ i)
Tiles-Holds ranges n v tiles below =
    let (shape, up, top) = Tiles-part_ranges 0 ranges n tiles in
    subst (λ rs. (i : ℕ) × Holds rs i v × ((j : ℕ) → Holds rs j v → j ≡ i)) (sym shape)
      (part_ranges_lem (map (λ (_, end). end) ranges) v up (omega arith))
