-- ===== src/Table.antt =====
-- The SSTable file format, as memtable/mem.rs (`Memtable::flush`) and lsm_tree/compaction.rs
-- (`build_from_data_section`) write it:
-- [crc: 64][footer size: u64][bloom filter: 1000][index size: u32][index][data section][footer].
-- An entry of the data section is key-len | key | value-len | value.
pub mod Writer
pub mod Reader
pub mod Layout
pub mod Open
pub mod Index
pub mod Marks
pub mod Scan
pub mod Lookup
use rusty_swift_merge.Base.{ℕ, ◌+◌, List, [], ◌∷◌, ◌++◌, length}
use rusty_swift_merge.Bytes.{Bytes, as_u32, as_u64, to_le_bytes}
use rusty_swift_merge.BTreeMap.{BTreeMap}

-- The ASCII codes of `HEADER_CRC`.
unfoldable pub header_crc : Bytes
header_crc =
    48 ∷ 53 ∷ 52 ∷ 97 ∷ 54 ∷ 50 ∷ 97 ∷ 53 ∷ 49 ∷ 52 ∷ 101 ∷ 49 ∷ 100 ∷ 55 ∷ 100 ∷ 57 ∷ 51 ∷ 98 ∷ 50
    ∷ 57 ∷ 53 ∷ 53 ∷ 55 ∷ 55 ∷ 50 ∷ 102 ∷ 101 ∷ 54 ∷ 48 ∷ 55 ∷ 48 ∷ 100 ∷ 48 ∷ 51 ∷ 97 ∷ 57 ∷ 100
    ∷ 53 ∷ 56 ∷ 102 ∷ 51 ∷ 52 ∷ 97 ∷ 52 ∷ 50 ∷ 100 ∷ 56 ∷ 53 ∷ 57 ∷ 49 ∷ 56 ∷ 97 ∷ 99 ∷ 57 ∷ 55 ∷ 53
    ∷ 52 ∷ 56 ∷ 56 ∷ 100 ∷ 98 ∷ 98 ∷ 101 ∷ 52 ∷ []

abbrev pub header_size : ℕ
header_size = 64

abbrev pub footer_size_field_size : ℕ
footer_size_field_size = 8

abbrev pub bloom_filter_offset : ℕ
bloom_filter_offset = header_size + footer_size_field_size

abbrev pub sparse_index_offset : ℕ
sparse_index_offset = bloom_filter_offset + 1000

-- key-len | key | value-len | value
unfoldable pub encode_entry : Bytes → Bytes → Bytes
encode_entry key value =
    to_le_bytes 4 (as_u32 (length key)) ++ (key ++ (to_le_bytes 4 (as_u32 (length value)) ++ value))

unfoldable pub encode_data : BTreeMap Bytes → Bytes
encode_data [] = []
encode_data ((key, value) ∷ entries) = encode_entry key value ++ encode_data entries

-- key-len | key | offset, for each block
unfoldable pub encode_mark : ℕ → Bytes → Bytes
encode_mark offset key =
    to_le_bytes 4 (as_u32 (length key)) ++ (key ++ to_le_bytes 8 (as_u64 offset))

unfoldable pub encode_index : List (ℕ × Bytes) → Bytes
encode_index [] = []
encode_index ((offset, key) ∷ index) = encode_mark offset key ++ encode_index index

-- max-key-len | max-key
unfoldable pub encode_footer : Bytes → Bytes
encode_footer max_key = to_le_bytes 4 (as_u32 (length max_key)) ++ max_key

unfoldable pub assemble : Bytes → List (ℕ × Bytes) → Bytes → Bytes → Bytes
assemble filter index data_section max_key =
    header_crc
    ++ (to_le_bytes 8 (as_u64 (length (encode_footer max_key)))
        ++ (filter
            ++ (to_le_bytes 4 (as_u32 (length (encode_index index)))
                ++ (encode_index index ++ (data_section ++ encode_footer max_key)))))
