-- ===== src/Entry.antt =====
-- memtable/mem.rs: `TrueTypes`, `TypeInfoMetadata`, `TableEntry` and its codec, and the records that
-- the write-ahead log and the data section of an SSTable hold (`TransitiveRepr::to_wal_entry`).
-- Writes into a `Vec<u8>` do not fail, so the encoders return the bytes themselves.
pub mod RoundTrip
pub mod Total
use rusty_swift_merge.Base.{
  ℕ, zero, suc, Option, none, some, List, [], ◌∷◌, ◌++◌, length, take, drop, leb, ◌==◌,
  if◌then◌else◌,
}
use rusty_swift_merge.Base.Outcome.{Outcome, ok, err, panic, out_of_fuel, ◌>>=◌}
use rusty_swift_merge.Bytes.{Bytes, as_u32, to_le_bytes, from_le_bytes}
use rusty_swift_merge.Bytes.Cursor.{read_bytes, read_u32}
use rusty_swift_merge.Bytes.Utf8.{is_utf8}
use rusty_swift_merge.BTreeMap.{BTreeMap, insert}

abbrev pub tomb_stone_byte_representation : ℕ
tomb_stone_byte_representation = 255

abbrev pub meta_data_map_doesnt_exist : ℕ
meta_data_map_doesnt_exist = 0

abbrev pub meta_data_map_exist : ℕ
meta_data_map_exist = 1

pub data TrueTypes : Type 0 where
  unspecified bool raw_bytes string uint32 uint64 int32 int64 float32 double : TrueTypes

unfoldable pub enum_variant_value : TrueTypes → ℕ
enum_variant_value unspecified = 0
enum_variant_value bool = 1
enum_variant_value raw_bytes = 2
enum_variant_value string = 3
enum_variant_value uint32 = 4
enum_variant_value uint64 = 5
enum_variant_value int32 = 6
enum_variant_value int64 = 7
enum_variant_value float32 = 8
enum_variant_value double = 9

unfoldable pub to_enum_varient : Bytes → TrueTypes
to_enum_varient (b ∷ []) =
    if b == 1
    then bool
    else if b == 2
    then raw_bytes
    else if b == 3
    then string
    else if b == 4
    then uint32
    else if b == 5
    then uint64
    else if b == 6
    then int32
    else if b == 7
    then int64
    else if b == 8
    then float32
    else if b == 9
    then double
    else unspecified
to_enum_varient _ = unspecified

pub record TypeInfoMetadata : Type 0 where
  pub raw : Bytes
  pub true_type : TrueTypes

pub record TableEntry : Type 0 where
  pub value : Bytes
  pub meta_data : Option (BTreeMap TypeInfoMetadata)

-- The messages of `DecodingError::MalformedData`, one for each guard of `deserialize`.
pub data Malformed : Type 0 where
  no_length_prefix value_too_short no_meta_data_flag no_key_len key_too_short no_byte_len :
      Malformed
  raw_too_short no_true_type : Malformed

pub data DecodingError : Type 0 where
  io_error : DecodingError
  malformed_data : Malformed → DecodingError
  empty : DecodingError

-- str-len | str | raw-len | raw | enum variant
unfoldable pub serialize_type_info : Bytes → TypeInfoMetadata → Bytes
serialize_type_info key info =
    to_le_bytes 4 (as_u32 (length key))
    ++ (key
        ++ (to_le_bytes 4 (as_u32 (length info.raw))
            ++ (info.raw ++ (enum_variant_value info.true_type ∷ []))))

unfoldable pub serialize_meta_data : BTreeMap TypeInfoMetadata → Bytes
serialize_meta_data [] = []
serialize_meta_data ((key, info) ∷ md) = serialize_type_info key info ++ serialize_meta_data md

unfoldable pub serialize_map : Option (BTreeMap TypeInfoMetadata) → Bytes
serialize_map none = meta_data_map_doesnt_exist ∷ []
serialize_map (some md) = meta_data_map_exist ∷ serialize_meta_data md

-- val-len | val | flag | meta data
unfoldable pub serialize : TableEntry → Bytes
serialize e = to_le_bytes 4 (as_u32 (length e.value)) ++ (e.value ++ serialize_map e.meta_data)

-- `String::from_utf8(…).unwrap()`
unfoldable pub unwrap_utf8 : Bytes → Outcome DecodingError Bytes
unwrap_utf8 bytes = if is_utf8 bytes then ok bytes else panic

-- One round of the loop in `deserialize`: a key, its type info and the bytes after them.
unfoldable pub deserialize_type_info :
    Bytes → Outcome DecodingError (Bytes × TypeInfoMetadata × Bytes)
deserialize_type_info rest = do
  (key_len, rest) ← read_u32 (malformed_data no_key_len) rest
  (string_val, rest) ← read_bytes (malformed_data key_too_short) key_len rest
  (raw_bytes_len, rest) ← read_u32 (malformed_data no_byte_len) rest
  (raw, rest) ← read_bytes (malformed_data raw_too_short) raw_bytes_len rest
  (true_type, rest) ← read_bytes (malformed_data no_true_type) 1 rest
  string_repr ← unwrap_utf8 string_val
  ok (string_repr, record { raw = raw; true_type = to_enum_varient true_type }, rest)

unfoldable pub deserialize_meta_data :
    ℕ → Bytes → BTreeMap TypeInfoMetadata → Outcome DecodingError (BTreeMap TypeInfoMetadata)
deserialize_meta_data fuel [] md = ok md
deserialize_meta_data zero (b ∷ bs) md = out_of_fuel
deserialize_meta_data (suc fuel) (b ∷ bs) md = do
  (key, info, rest) ← deserialize_type_info (b ∷ bs)
  deserialize_meta_data fuel rest (insert md key info)

-- From the byte after the value on. A round takes nine bytes at least, so the fuel is enough.
unfoldable pub deserialize_flag : Bytes → Bytes → Outcome DecodingError TableEntry
deserialize_flag value [] = err (malformed_data no_meta_data_flag)
deserialize_flag value (flag ∷ rest) =
    if flag == meta_data_map_doesnt_exist
    then ok (record { value = value; meta_data = none })
    else do
      md ← deserialize_meta_data (length rest) rest []
      ok (record { value = value; meta_data = some md })

unfoldable pub deserialize : Bytes → Outcome DecodingError TableEntry
deserialize disk_bytes =
    if leb (length disk_bytes) 4 then err (malformed_data no_length_prefix) else do
      (value, rest) ←
          read_bytes (malformed_data value_too_short) (from_le_bytes (take 4 disk_bytes))
            (drop 4 disk_bytes)
      deserialize_flag value rest

-- What a write puts under a key: an entry, or a tombstone.
pub data WalEntry : Type 0 where
  value : TableEntry → WalEntry
  tombstone : WalEntry

-- The bytes that stand for a value: a tombstone is the single byte 255.
unfoldable pub wal_value : WalEntry → Bytes
wal_value (value table_entry) = serialize table_entry
wal_value tombstone = tomb_stone_byte_representation ∷ []

-- key-len | key | value-len | value
unfoldable pub to_wal_entry : Bytes → WalEntry → Bytes
to_wal_entry key entry =
    to_le_bytes 4 (as_u32 (length key))
    ++ (key ++ (to_le_bytes 4 (as_u32 (length (wal_value entry))) ++ wal_value entry))

-- `in_memory_repr` keeps `None` for a tombstone.
abbrev pub entry_of : Option TableEntry → WalEntry
entry_of (some e) = value e
entry_of none = tombstone
