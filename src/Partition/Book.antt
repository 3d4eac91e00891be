-- ===== src/Partition/Book.antt =====
-- srcChange/partition/aly_partition.py: `_get_part_ranges` and `load_partition_book`. A message that
-- the code formats stands with its placeholders.
pub mod Loaded
use bear_rpc.Base.{
  ℕ, Bool, true, false, Option, none, some, List, [], ◌∷◌, ◌<◌, ltb, String, if◌then◌else◌, Result,
  ok, raise, Error, index_error, value_error, type_error, unbound_local, assertion, assert, ◌>>=◌,
  ◌>>◌,
}
use bear_rpc.Base.Dict.{member, assign}
use bear_rpc.Text.{Str, str_eq}
use bear_rpc.Partition.Config.{
  EdgeType, same_etype, Bound, stop, range, TypeMap, bounds, other, IdMap, by_type, plain, file,
  PartMetadata, Formats, Disk, load_part_config,
}

-- The old format: each element is made the range from the end of the one before it.
unfoldable pub from_stops : ℕ → List Bound → Result (List (ℕ × ℕ))
from_stops start [] = ok []
from_stops start (stop end ∷ more) = do rest ← from_stops end more; ok ((start, end) ∷ rest)
from_stops start (range _ _ ∷ more) = raise value_error

unfoldable pub from_ranges : List Bound → Result (List (ℕ × ℕ))
from_ranges [] = ok []
from_ranges (stop _ ∷ more) = raise value_error
from_ranges (range start end ∷ more) = do rest ← from_ranges more; ok ((start, end) ∷ rest)

-- The body of the loop of `_get_part_ranges`, for what is stored at one key.
unfoldable pub ranges_at : TypeMap → Result (List (ℕ × ℕ))
unfolding from_stops from_ranges
ranges_at (bounds []) = raise index_error
ranges_at (bounds (stop end ∷ more)) = from_stops 0 (stop end ∷ more)
ranges_at (bounds (range start end ∷ more)) = from_ranges (range start end ∷ more)
ranges_at (other []) = raise index_error
ranges_at (other (_ ∷ _)) = raise type_error

unfoldable pub get_part_ranges :
    {K : Type 0} → List (K × TypeMap) → Result (List (K × List (ℕ × ℕ)))
unfolding ranges_at
get_part_ranges [] = ok []
get_part_ranges ((key, value) ∷ id_ranges) = do
  ranges ← ranges_at value
  rest ← get_part_ranges id_ranges
  ok ((key, ranges) ∷ rest)

-- assert key in part_metadata, message; then its value is read
unfoldable pub required : {A : Type 0} → Option A → String → Result A
required none message = raise (assertion message)
required (some a) message = ok a

-- is_range_part, as far as it is bound: it is not if the node map is an empty dictionary.
unfoldable pub is_range_part : {K : Type 0} → IdMap K → Option Bool
is_range_part (by_type []) = none
is_range_part (by_type ((_, bounds _) ∷ _)) = some true
is_range_part (by_type ((_, other _) ∷ _)) = some false
is_range_part (plain _) = some true
is_range_part (file _) = some false

-- A list is stored under the default type.
unfoldable pub with_type : {K : Type 0} → K → IdMap K → IdMap K
with_type default (plain list) = by_type ((default, bounds list) ∷ [])
with_type default map = map

-- for key in map: assert key in types
unfoldable pub check_keys :
    {K : Type 0} → (K → K → Bool) → List (K × ℕ) → String → List (K × TypeMap) → Result (Unit {0})
unfolding member
check_keys same types message [] = ok tt
check_keys same types message ((key, _) ∷ items) =
    assert (member same key types) message >> check_keys same types message items

unfoldable pub check_map :
    {K : Type 0} → (K → K → Bool) → List (K × ℕ) → String → IdMap K → Result (Unit {0})
unfolding check_keys
check_map same types message (by_type items) = check_keys same types message items
check_map same types message (plain _) = ok tt
check_map same types message (file _) = ok tt

-- _get_part_ranges(map), where the map may be the name of a file: a loop over its characters, of
-- which none is an index of a text
unfoldable pub ranges_in : {K : Type 0} → IdMap K → Result (List (K × List (ℕ × ℕ)))
unfolding get_part_ranges
ranges_in (by_type items) = get_part_ranges items
ranges_in (plain _) = raise type_error
ranges_in (file []) = ok []
ranges_in (file (_ ∷ _)) = raise type_error

-- The two classes of partition books, by the arguments that they are made of.
pub data Book : Type 0 where
  range_book :
      ℕ
      → ℕ
      → List (Str × List (ℕ × ℕ))
      → List (EdgeType × List (ℕ × ℕ))
      → List (Str × ℕ)
      → List (EdgeType × ℕ)
      → Book
  basic_book : ℕ → ℕ → List ℕ → List ℕ → Book

-- What `load_partition_book` returns.
pub record LoadedBook : Type 0 where
  pub book : Book
  pub graph_name : Str
  pub ntypes : List (Str × ℕ)
  pub etypes : List (EdgeType × ℕ)

module _ (f : Formats) where
  -- np.load(map)
  unfoldable pub load_array : {K : Type 0} → IdMap K → Result (List ℕ)
  load_array (by_type _) = raise type_error
  load_array (plain _) = raise type_error
  load_array (file name) = f.np_load name

  -- The book of the kind that the node map asks for.
  unfoldable pub make_book :
      ℕ
      → ℕ
      → Option Bool
      → IdMap Str
      → IdMap EdgeType
      → List (Str × ℕ)
      → List (EdgeType × ℕ)
      → Result Book
  unfolding ranges_in load_array
  make_book part_id num_parts none node_map edge_map ntypes etypes = raise unbound_local
  make_book part_id num_parts (some true) node_map edge_map ntypes etypes = do
    node_ranges ← ranges_in node_map
    edge_ranges ← ranges_in edge_map
    ok (range_book part_id num_parts node_ranges edge_ranges ntypes etypes)
  make_book part_id num_parts (some false) node_map edge_map ntypes etypes = do
    nodes ← load_array node_map
    edges ← load_array edge_map
    ok (basic_book part_id num_parts nodes edges)

  unfoldable pub or_default : {K : Type 0} → K → Option (List (K × ℕ)) → List (K × ℕ)
  or_default default none = (default, 0) ∷ []
  or_default default (some types) = types

  -- What is done with the loaded config.
  unfoldable pub book_of : PartMetadata EdgeType → ℕ → Result LoadedBook
  unfolding required is_range_part with_type check_map make_book or_default
  book_of part_metadata part_id = do
    num_parts ← required part_metadata.num_parts "num_parts does not exist."
    assert (ltb part_id num_parts) "part {} is out of range (#parts: {})"
    _ ← required part_metadata.num_nodes "cannot get the number of nodes of the global graph."
    _ ← required part_metadata.num_edges "cannot get the number of edges of the global graph."
    node_map ← required part_metadata.node_map "cannot get the node map."
    edge_map ← required part_metadata.edge_map "cannot get the edge map."
    graph_name ← required part_metadata.graph_name "cannot get the graph name"
    let ntypes = or_default f.default_ntype part_metadata.ntypes
    let etypes = or_default f.default_etype part_metadata.etypes
    check_map str_eq ntypes "The node type {} is invalid" (with_type f.default_ntype node_map)
    check_map same_etype etypes "The edge type {} is invalid" (with_type f.default_etype edge_map)
    book ←
        make_book part_id num_parts (is_range_part node_map) (with_type f.default_ntype node_map)
          (with_type f.default_etype edge_map) ntypes etypes
    ok (record { book = book; graph_name = graph_name; ntypes = ntypes; etypes = etypes })

  unfoldable pub load_partition_book : Disk → Str → ℕ → Result LoadedBook
  unfolding load_part_config book_of
  load_partition_book disk part_config part_id = do
    part_metadata ← load_part_config f disk part_config
    book_of part_metadata part_id
