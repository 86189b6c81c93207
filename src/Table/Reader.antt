-- ===== src/Table/Reader.antt =====
-- lsm_tree/disk.rs: `TableReader`. An open file is its bytes and its creation time in seconds; a
-- read of a file fails only at its end (`read_exact`), or by a seek before its start.
use rusty_swift_merge.Base.{
  ℕ, zero, suc, ◌+◌, ◌-◌, ◌||◌, Option, none, some, List, [], ◌∷◌, ◌++◌, length, drop, get_elem?,
  ltb, ◌==◌, if◌then◌else◌,
}
use Prim.Native.Nat.Ordering.{lt, eq, gt}
use rusty_swift_merge.Base.Outcome.{Outcome, ok, err, panic, out_of_fuel, ◌>>=◌}
use rusty_swift_merge.Bytes.{Bytes}
use rusty_swift_merge.Bytes.Order.{cmp}
use rusty_swift_merge.Bytes.Cursor.{read_bytes, read_u32, read_u64}
use rusty_swift_merge.Table.{header_size, bloom_filter_offset, sparse_index_offset}

pub data TableError : Type 0 where
  unexpected_eof invalid_seek truncated_key_len truncated_key truncated_offset : TableError

pub record SsTableMetaData : Type 0 where
  pub creation_timestamp : ℕ
  pub sparse_index : List (ℕ × Bytes)
  pub max_key : Bytes

pub record TableReader : Type 0 where
  pub file : Bytes
  pub created : ℕ
  pub data_section_offset : Option ℕ
  pub metadata_cache : Option SsTableMetaData

unfoldable pub new : Bytes → ℕ → TableReader
new file created = record {
  file = file;
  created = created;
  data_section_offset = none;
  metadata_cache = none;
}

-- `seek(Start(pos))` and `read_exact` of `n` bytes, with the bytes behind them.
abbrev pub read_exact : ℕ → Bytes → Outcome TableError (Bytes × Bytes)
read_exact = read_bytes unexpected_eof

unfoldable pub read_header : TableReader → Outcome TableError Bytes
read_header t = do (buffer, rest) ← read_exact header_size t.file; ok buffer

unfoldable pub get_bloom_filter : TableReader → Outcome TableError Bytes
get_bloom_filter t = do
  (buffer, rest) ← read_exact 1000 (drop bloom_filter_offset t.file)
  ok buffer

-- `seek(End(-footer_size))` fails before the start of the file. A footer of more than 10000 bytes
-- is taken for none.
unfoldable pub read_footer_of : Bytes → ℕ → Outcome TableError Bytes
read_footer_of file footer_size =
    if footer_size == 0 || ltb 10000 footer_size
    then ok []
    else if ltb (length file) footer_size
    then err invalid_seek
    else do
      (max_key_len, rest) ← read_u32 unexpected_eof (drop (length file - footer_size) file)
      (max_key, rest) ← read_exact max_key_len rest
      ok max_key

unfoldable pub read_footer : Bytes → Outcome TableError Bytes
read_footer file = do
  (footer_size, rest) ← read_u64 unexpected_eof (drop header_size file)
  read_footer_of file footer_size

-- One round of the loop in `get_sparse_index`.
unfoldable pub read_mark : Bytes → Outcome TableError (ℕ × Bytes × Bytes)
read_mark rest = do
  (key_len, rest) ← read_u32 truncated_key_len rest
  (key, rest) ← read_bytes truncated_key key_len rest
  (offset, rest) ← read_u64 truncated_offset rest
  ok (offset, key, rest)

-- A round takes twelve bytes at least, so the buffer's length is fuel enough.
unfoldable pub read_marks : ℕ → Bytes → List (ℕ × Bytes) → Outcome TableError (List (ℕ × Bytes))
read_marks fuel [] result = ok result
read_marks zero (b ∷ bs) result = out_of_fuel
read_marks (suc fuel) (b ∷ bs) result = do
  (offset, key, rest) ← read_mark (b ∷ bs)
  read_marks fuel rest (result ++ (offset, key) ∷ [])

-- `get_sparse_index` where nothing is cached yet; the reader keeps what it found.
unfoldable pub load_index : TableReader → Outcome TableError TableReader
load_index t = do
  (index_size, rest) ← read_u32 unexpected_eof (drop sparse_index_offset t.file)
  (buffer, rest) ← read_exact index_size rest
  result ← read_marks (length buffer) buffer []
  max_key ← read_footer t.file
  ok (record t {
    data_section_offset = some (sparse_index_offset + 4 + index_size);
    metadata_cache =
        some (record { creation_timestamp = t.created; sparse_index = result; max_key = max_key });
  })

-- `generate_index`: `get_sparse_index`, unless the metadata is there already.
unfoldable pub generate_index : TableReader → Outcome TableError TableReader
generate_index t = elim t.metadata_cache [ some cached ↦ ok t | none ↦ load_index t ]

-- What `binary_search_by` answers on keys that ascend: the place of the key, or where it would go.
pub data Place : Type 0 where
  found : ℕ → Place
  insert_at : ℕ → Place

unfoldable pub binary_search : List (ℕ × Bytes) → Bytes → ℕ → Place
binary_search [] key i = insert_at i
binary_search ((offset, block_key) ∷ index) key i = elim (cmp block_key key) [
  | lt ↦ binary_search index key (suc i)
  | eq ↦ found i
  | gt ↦ insert_at i
]

abbrev pub offset_at : List (ℕ × Bytes) → ℕ → Option ℕ
offset_at index i = elim (get_elem? index i) [ none ↦ none | some mark ↦ some mark.0 ]

unfoldable pub search_offset : List (ℕ × Bytes) → Bytes → Option ℕ
search_offset index key = elim (binary_search index key 0) [
  | found i ↦ offset_at index i
  | insert_at zero ↦ none
  | insert_at (suc i) ↦ offset_at index i
]

-- One entry of the data section; `none` where not even a key length can be read.
unfoldable pub read_entry : Bytes → Outcome TableError (Bytes × Bytes × Bytes)
read_entry rest = do
  (entry_key_len, rest) ← read_u32 unexpected_eof rest
  (entry_key, rest) ← read_exact entry_key_len rest
  (value_len, rest) ← read_u32 unexpected_eof rest
  (value, rest) ← read_exact value_len rest
  ok (entry_key, value, rest)

-- The loop of `search`, from the file's position on.
unfoldable pub scan : ℕ → Bytes → Bytes → Outcome TableError (Option Bytes)
scan zero key rest = out_of_fuel
scan (suc fuel) key rest = if ltb (length rest) 4 then ok none else do
  (entry_key, value, rest) ← read_entry rest
  elim (cmp entry_key key) [ eq ↦ ok (some value) | gt ↦ ok none | lt ↦ scan fuel key rest ]

-- From the block that the index gives; the position may lie past the end of the file.
unfoldable pub search_block : TableReader → ℕ → Bytes → Option ℕ → Outcome TableError (Option Bytes)
search_block t data_offset key none = ok none
search_block t data_offset key (some offset) =
    let rest = drop (data_offset + offset) t.file in scan (suc (length rest)) key rest

-- `unwrap` and `expect` on what `get_sparse_index` sets.
unfoldable pub search : TableReader → Bytes → Outcome TableError (Option Bytes)
search t key = elim t.metadata_cache [
  | none ↦ panic
  | some cached ↦ elim t.data_section_offset [
    | none ↦ panic
    | some data_offset ↦ search_block t data_offset key (search_offset cached.sparse_index key)
  ]
]
