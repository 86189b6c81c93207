-- ===== src/Lsm.antt =====
-- lsm_tree/disk.rs: `LsmTreeReader::read`. A level is a list of its tables with their metadata, in
-- the order in which the hash map happens to yield them. A failed read of a table is `io_err`.
pub mod Sorted
pub mod Newest
pub mod Load
pub mod Tables
pub mod Items
pub mod Reload
pub mod Sources
use rusty_swift_merge.Base.{
  ℕ, ◌+◌, ◌%◌, ◌^◌, Bool, true, false, ◌&&◌, Option, none, some, List, [], ◌∷◌, Ordering, ltb,
  if◌then◌else◌,
}
use Prim.Native.Nat.Ordering.{lt, eq, gt}
use rusty_swift_merge.Base.Outcome.{Outcome, ok, map_err, ◌>>=◌}
use rusty_swift_merge.Bytes.{Bytes}
use rusty_swift_merge.Bytes.Order.{cmp}
use rusty_swift_merge.Bloom.{probably_exist}
use rusty_swift_merge.Table.Reader.{
  TableReader, SsTableMetaData, TableError, get_bloom_filter, search,
}

pub data LsmTreeError : Type 0 where
  io_err : TableError → LsmTreeError

-- A table of a level: its entry in the map.
abbrev pub LevelEntry : Type 0
LevelEntry = SsTableMetaData × TableReader

abbrev pub FileMap : Type 0
FileMap = List LevelEntry

-- The value, if there is one, the number of tables searched (u16) and that of levels (u8).
pub record SearchResult : Type 0 where
  pub value : Option Bytes
  pub ss_tables_searched : ℕ
  pub levels_searched : ℕ

abbrev pub first_key : List (ℕ × Bytes) → Bytes
first_key [] = []
first_key ((offset, key) ∷ index) = key

-- `first_key <= key <= max_key`
unfoldable pub in_range : SsTableMetaData → Bytes → Bool
in_range metadata key = elim (cmp key (first_key metadata.sparse_index)) [
  | lt ↦ false
  | _ ↦ elim (cmp key metadata.max_key) [ gt ↦ false | _ ↦ true ]
]

-- The first inner loop: the tables in range whose filter does not deny the key.
unfoldable pub valid_tables : FileMap → Bytes → Outcome LsmTreeError FileMap
valid_tables [] key = ok []
valid_tables ((metadata, table_reader) ∷ file_map) key = elim (in_range metadata key) [
  | true ↦ do
    filter ← map_err io_err (get_bloom_filter table_reader)
    tables ← valid_tables file_map key
    ok (if probably_exist filter key then (metadata, table_reader) ∷ tables else tables)
  | false ↦ valid_tables file_map key
]

-- `sort_by`, newest first: a stable sort.
unfoldable pub insert_table : LevelEntry → FileMap → FileMap
insert_table t [] = t ∷ []
insert_table t (u ∷ tables) =
    let rest = insert_table t tables in
    if ltb t.0.creation_timestamp u.0.creation_timestamp then u ∷ rest else t ∷ u ∷ tables

unfoldable pub sort_tables : FileMap → FileMap
sort_tables [] = []
sort_tables (t ∷ tables) = insert_table t (sort_tables tables)

-- The second inner loop, with the count of tables that it goes on from.
unfoldable pub search_tables : FileMap → Bytes → ℕ → Outcome LsmTreeError (Option Bytes × ℕ)
search_tables [] key searched = ok (none, searched)
search_tables ((metadata, table_reader) ∷ tables) key searched = do
  found ← map_err io_err (search table_reader key)
  elim found [
    | some value ↦ ok (some value, (searched + 1) % 2 ^ 16)
    | none ↦ search_tables tables key ((searched + 1) % 2 ^ 16)
  ]

-- The loop over the levels, with both counts. They wrap as in a release build.
unfoldable pub read_levels : List FileMap → Bytes → ℕ → ℕ → Outcome LsmTreeError SearchResult
read_levels [] key searched levels =
    ok (record { value = none; ss_tables_searched = searched; levels_searched = levels })
read_levels (file_map ∷ level_array) key searched levels = do
  tables ← valid_tables file_map key
  (found, searched) ← search_tables (sort_tables tables) key searched
  elim found [
    | some value ↦ ok (record {
      value = some value;
      ss_tables_searched = searched;
      levels_searched = (levels + 1) % 2 ^ 8;
    })
    | none ↦ read_levels level_array key searched ((levels + 1) % 2 ^ 8)
  ]

unfoldable pub read : List FileMap → Bytes → Outcome LsmTreeError SearchResult
read level_array key = read_levels level_array key 0 0
