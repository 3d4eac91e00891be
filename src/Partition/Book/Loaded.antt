-- ===== src/Partition/Book/Loaded.antt =====
-- srcChange/partition/aly_partition.py: the book that is loaded from a config of ID ranges.
use bear_rpc.Base.{
  String, ℕ, ◌≡◌, ◌≢◌, ◌<◌, refl, Bool, true, some, List, [], ◌∷◌, map, lt→ltb, All, ok,
}
use bear_rpc.Base.Dict.{member}
use bear_rpc.Text.{Str, str_eq}
use bear_rpc.Partition.Config.{EdgeType, same_etype, Bound, range, bounds, by_type, Formats}
use bear_rpc.Partition.Saved.{stored, type_ids, Job, metadata_of}
use bear_rpc.Partition.Book.{
  from_ranges, ranges_at, get_part_ranges, is_range_part, check_keys, range_book, book_of,
}

as_bounds : List (ℕ × ℕ) → List Bound
as_bounds ranges = map (λ (start, end). range start end) ranges

from_ranges_lem : (ranges : List (ℕ × ℕ)) → from_ranges (as_bounds ranges) ≡ ok ranges
unfolding from_ranges as_bounds
from_ranges_lem [] = refl
from_ranges_lem ((start, end) ∷ ranges) = rw (from_ranges_lem ranges, from_ranges) refl

ranges_at_lem :
    (ranges : List (ℕ × ℕ)) → ranges ≢ [] → ranges_at (bounds (as_bounds ranges)) ≡ ok ranges
unfolding ranges_at as_bounds
ranges_at_lem [] some_range = absurd (some_range refl)
ranges_at_lem ((start, end) ∷ ranges) some_range =
    unfold as_bounds in from_ranges_lem ((start, end) ∷ ranges)

-- Each type has a range, which is the one of the first part.
unfoldable pub HasRanges : {K : Type 0} → List (K × List (ℕ × ℕ)) → Type 0
HasRanges maps = All (λ (_, ranges). ranges ≢ []) maps

get_part_ranges_lem :
    {K : Type 0} (maps : List (K × List (ℕ × ℕ)))
    → HasRanges maps
    → get_part_ranges (stored maps) ≡ ok maps
unfolding get_part_ranges stored HasRanges as_bounds
get_part_ranges_lem [] h = refl
get_part_ranges_lem ((key, ranges) ∷ maps) (some_range, h) =
    rw (ranges_at_lem ranges some_range, get_part_ranges_lem maps h) refl

-- The keys of a map are types.
unfoldable pub KeysIn :
    {K : Type 0} → (K → K → Bool) → List (K × ℕ) → List (K × List (ℕ × ℕ)) → Type 0
KeysIn same types maps = All (λ (key, _). member same key types ≡ true) maps

check_keys_lem :
    {K : Type 0} (same : K → K → Bool) (types : List (K × ℕ)) (message : String)
    (maps : List (K × List (ℕ × ℕ)))
    → KeysIn same types maps
    → check_keys same types message (stored maps) ≡ ok tt
unfolding check_keys KeysIn stored
check_keys_lem same types message [] h = refl
check_keys_lem same types message ((key, _) ∷ maps) (h, hs) =
    rw h (check_keys_lem same types message maps hs)

is_range_part-stored :
    {K : Type 0} (maps : List (K × List (ℕ × ℕ)))
    → maps ≢ []
    → is_range_part (by_type (stored maps)) ≡ some true
unfolding is_range_part stored
is_range_part-stored [] some_type = absurd (some_type refl)
is_range_part-stored ((key, ranges) ∷ maps) some_type = refl

-- The config that `partition_graph` stores gives, for each of its parts, the range book of the
-- stored ranges.
pub book_of-metadata_of :
    (f : Formats) (job : Job) (part_id : ℕ) (nodes : List (Str × List (ℕ × ℕ)))
    (edges : List (EdgeType × List (ℕ × ℕ)))
    → part_id < job.num_parts
    → nodes ≢ []
    → HasRanges nodes
    → HasRanges edges
    → KeysIn str_eq (type_ids job.ntypes) nodes
    → KeysIn same_etype (type_ids job.etypes) edges
    → book_of f (metadata_of job nodes edges) part_id
      ≡ ok (record {
        book =
            range_book part_id job.num_parts nodes edges
              (type_ids job.ntypes)
              (type_ids job.etypes);
        graph_name = job.graph_name;
        ntypes = type_ids job.ntypes;
        etypes = type_ids job.etypes;
      })
unfolding book_of metadata_of
book_of-metadata_of f job part_id nodes edges below some_type nr er nk ek =
    rw
      (
        lt→ltb part_id job.num_parts below,
        is_range_part-stored nodes some_type,
        check_keys_lem str_eq (type_ids job.ntypes) "The node type {} is invalid" nodes nk,
        check_keys_lem same_etype (type_ids job.etypes) "The edge type {} is invalid" edges ek,
        get_part_ranges_lem nodes nr,
        get_part_ranges_lem edges er,
      )
      refl
