-- ===== src/Table/Writer.antt =====
-- memtable/mem.rs: the part of `Memtable::flush` that makes the file's bytes from the memtable.
use rusty_swift_merge.Base.{
  ℕ, ◌+◌, ◌*◌, ◌&&◌, Option, List, [], ◌∷◌, ◌++◌, length, take, drop, ltb, ◌==◌, if◌then◌else◌,
}
use rusty_swift_merge.Bytes.{Bytes, as_u32, as_u64, to_le_bytes}
use rusty_swift_merge.BTreeMap.{BTreeMap}
use rusty_swift_merge.Floats.{Floats}
use rusty_swift_merge.Bloom.{generate_filter}
use rusty_swift_merge.Entry.{TableEntry, to_wal_entry, entry_of}
use rusty_swift_merge.Table.{header_crc, encode_index, encode_footer}

abbrev pub page_per_block : ℕ
page_per_block = 4

-- The variables of the loop over the memtable.
pub record FlushLoop : Type 0 where
  pub ss_table_buffer : Bytes
  pub sparse_index_array : List (ℕ × Bytes)
  pub block_bytes : ℕ
  pub max_key : Bytes

abbrev pub flush_start : FlushLoop
flush_start = record {
  ss_table_buffer = [];
  sparse_index_array = [];
  block_bytes = 0;
  max_key = [];
}

-- One entry, in the bytes of `to_wal_entry`.
unfoldable pub flush_bytes : ℕ → FlushLoop → Bytes → Bytes → FlushLoop
flush_bytes target_block_size l key kv_buffer =
    let mark : List (ℕ × Bytes) = (length l.ss_table_buffer, key) ∷ [] in
    let first : List (ℕ × Bytes) = if l.block_bytes == 0 then mark else [] in
    let entry_size = length kv_buffer in
    let full = ltb 0 l.block_bytes && ltb target_block_size (l.block_bytes + entry_size) in
    let next : List (ℕ × Bytes) = if full then mark else [] in
    record {
      ss_table_buffer = l.ss_table_buffer ++ kv_buffer;
      sparse_index_array = (l.sparse_index_array ++ first) ++ next;
      block_bytes = (if full then 0 else l.block_bytes) + entry_size;
      max_key = key;
    }

unfoldable pub flush_entries : ℕ → FlushLoop → BTreeMap (Option TableEntry) → FlushLoop
flush_entries target_block_size l [] = l
flush_entries target_block_size l ((key, value_opt) ∷ m) =
    flush_entries target_block_size
      (flush_bytes target_block_size l key (to_wal_entry key (entry_of value_opt))) m

-- `buffer.splice(64..64, …)` puts the footer's size behind the CRC, in front of the filter.
unfoldable pub flush_buffer : Floats → ℕ → ℕ → BTreeMap (Option TableEntry) → Bytes
flush_buffer f page_size rate m =
    let l = flush_entries (page_size * page_per_block) flush_start m in
    let footer = encode_footer l.max_key in
    let buffer = header_crc ++ generate_filter f m rate in
    let spliced = take 64 buffer ++ (to_le_bytes 8 (as_u64 (length footer)) ++ drop 64 buffer) in
    let sparse_index_buffer = encode_index l.sparse_index_array in
    spliced
    ++ (to_le_bytes 4 (as_u32 (length sparse_index_buffer))
        ++ (sparse_index_buffer ++ (l.ss_table_buffer ++ footer)))
