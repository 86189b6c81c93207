-- ===== src/Lsm/Load.antt =====
-- lsm_tree/disk.rs: `LsmTreeReader::new`, `reload` and `create_level_array`. A directory is its files
-- in the order in which they are listed; `data` holds the directories l1, l2 and so on up to the first
-- one that is missing, and none where `data` itself is missing. Opening a file that is listed succeeds.
use rusty_swift_merge.Base.{
  ℕ, Bool, true, false, ◌&&◌, none, some, List, [], ◌∷◌, ◌==◌, if◌then◌else◌,
}
use rusty_swift_merge.Base.Outcome.{Outcome, ok, err, panic, map_err, ◌>>=◌}
use rusty_swift_merge.Bytes.{Bytes}
use rusty_swift_merge.Directory.{File, Directory, seconds, same, extension, bin}
use rusty_swift_merge.Table.{header_crc}
use rusty_swift_merge.Table.Reader.{TableReader, SsTableMetaData, new, read_header, generate_index}
use rusty_swift_merge.Lsm.{LsmTreeError, io_err, FileMap}

unfoldable pub is_bin : Bytes → Bool
is_bin name = elim (extension name) [ none ↦ false | some ext ↦ same ext bin ]

unfoldable pub same_index : List (ℕ × Bytes) → List (ℕ × Bytes) → Bool
same_index [] [] = true
same_index ((i, a) ∷ xs) ((j, b) ∷ ys) = i == j && same a b && same_index xs ys
same_index [] (y ∷ ys) = false
same_index (x ∷ xs) [] = false

-- The derived `PartialEq` of `SSTableMetaData`.
unfoldable pub same_metadata : SsTableMetaData → SsTableMetaData → Bool
same_metadata a b =
    a.creation_timestamp == b.creation_timestamp
    && same_index a.sparse_index b.sparse_index
    && same a.max_key b.max_key

-- `HashMap::insert`: a reader under equal metadata is replaced.
unfoldable pub insert_reader : FileMap → SsTableMetaData → TableReader → FileMap
insert_reader [] metadata table_reader = (metadata, table_reader) ∷ []
insert_reader ((m, t) ∷ file_map) metadata table_reader =
    let rest = insert_reader file_map metadata table_reader in
    if same_metadata m metadata then (m, table_reader) ∷ file_map else (m, t) ∷ rest

-- `unwrap` on the metadata that `generate_index` sets.
unfoldable pub add_reader : FileMap → TableReader → Outcome LsmTreeError FileMap
add_reader file_map table_reader = elim table_reader.metadata_cache [
  | none ↦ panic
  | some metadata ↦ ok (insert_reader file_map metadata table_reader)
]

-- A file with another header is skipped.
unfoldable pub load_table : File → FileMap → Outcome LsmTreeError FileMap
load_table file file_map = do
  crc ← map_err io_err (read_header (new file.content (seconds file)))
  if same crc header_crc
      then (do
        table_reader ← map_err io_err (generate_index (new file.content (seconds file)))
        add_reader file_map table_reader)
      else ok file_map

-- Only files with the extension "bin" are looked at.
unfoldable pub load_entry : Bytes × File → FileMap → Outcome LsmTreeError FileMap
load_entry (name, file) file_map = elim (is_bin name) [
  | true ↦ load_table file file_map
  | false ↦ ok file_map
]

unfoldable pub load_level : Directory → FileMap → Outcome LsmTreeError FileMap
load_level [] file_map = ok file_map
load_level (entry ∷ entries) file_map = do
  file_map ← load_entry entry file_map
  load_level entries file_map

unfoldable pub create_level_array : List Directory → Outcome LsmTreeError (List FileMap)
create_level_array [] = ok []
create_level_array (level_dir ∷ level_dirs) = do
  file_map ← load_level level_dir []
  level_array ← create_level_array level_dirs
  ok (file_map ∷ level_array)

-- The levels after a reload: an error leaves them as they were.
unfoldable pub reload :
    List Directory → List FileMap → Outcome LsmTreeError (Unit {0}) × List FileMap
reload level_dirs level_array = elim (create_level_array level_dirs) [
  | ok new_levels ↦ (ok tt, new_levels)
  | err e ↦ (err e, level_array)
  | panic ↦ (panic, level_array)
  | Outcome.out_of_fuel ↦ (Outcome.out_of_fuel, level_array)
]
