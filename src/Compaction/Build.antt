-- ===== src/Compaction/Build.antt =====
-- lsm_tree/compaction.rs: `CompactionUnit::build_from_data_section`. The cursor is the rest of the
-- data section from it on; offsets are counted beside it.
use rusty_swift_merge.Base.{
  ℕ, zero, suc, ◌+◌, ◌-◌, ◌*◌, max, Bool, true, ◌||◌, List, [], ◌∷◌, ◌++◌, length, leb, ltb,
  if◌then◌else◌,
}
use rusty_swift_merge.Base.Outcome.{Outcome, ok, err, out_of_fuel, ◌>>=◌, ◌>>◌}
use rusty_swift_merge.Bytes.{Bytes, u64_mod, as_u64}
use rusty_swift_merge.Bytes.Cursor.{read_bytes, read_u32}
use rusty_swift_merge.Floats.{Floats}
use rusty_swift_merge.Bloom.{generate_filter_from_keys}
use rusty_swift_merge.Table.{encode_index, encode_footer, assemble}
use rusty_swift_merge.Compaction.{CompactionError, io_error, fits_u32}

-- The variables of the loop over the data section; `cursor` is where the next entry starts.
pub record BuildLoop : Type 0 where
  pub sparse_index : List (ℕ × Bytes)
  pub max_key : Bytes
  pub bloom_keys : List Bytes
  pub cursor : ℕ
  pub bytes_since_sparse_mark : ℕ

abbrev pub build_start : BuildLoop
build_start = record {
  sparse_index = [];
  max_key = [];
  bloom_keys = [];
  cursor = 0;
  bytes_since_sparse_mark = 0;
}

-- Key-len, key, value-len and value, each with its guard.
unfoldable pub parse_entry : Bytes → Outcome CompactionError (Bytes × Bytes × Bytes)
parse_entry rest = do
  (key_len, rest) ← read_u32 io_error rest
  (key, rest) ← read_bytes io_error key_len rest
  (value_len, rest) ← read_u32 io_error rest
  (value, rest) ← read_bytes io_error value_len rest
  ok (key, value, rest)

abbrev pub is_empty {ℓ} : {A : Type ℓ} → List A → Bool
is_empty [] = true
is_empty (x ∷ xs) = Bool.false

-- What a round does with an entry of `size` bytes.
unfoldable pub add_entry : ℕ → BuildLoop → Bytes → ℕ → BuildLoop
add_entry block_stride l key size =
    let mark = is_empty l.sparse_index || leb block_stride l.bytes_since_sparse_mark in
    record {
      sparse_index = l.sparse_index ++ (if mark then (as_u64 l.cursor, key) ∷ [] else []);
      max_key = key;
      bloom_keys = l.bloom_keys ++ key ∷ [];
      cursor = l.cursor + size;
      bytes_since_sparse_mark = (if mark then 0 else l.bytes_since_sparse_mark) + size;
    }

-- A round takes eight bytes at least, so the section's length is fuel enough.
unfoldable pub build_loop : ℕ → ℕ → BuildLoop → Bytes → Outcome CompactionError BuildLoop
build_loop block_stride fuel l [] = ok l
build_loop block_stride zero l (b ∷ bs) = out_of_fuel
build_loop block_stride (suc fuel) l (b ∷ bs) = do
  (key, value, rest) ← parse_entry (b ∷ bs)
  build_loop block_stride fuel (add_entry block_stride l key (length (b ∷ bs) - length rest)) rest

-- `u32::try_from` of the length of every key of the index.
unfoldable pub check_index : List (ℕ × Bytes) → Outcome CompactionError (Unit {0})
check_index [] = ok tt
check_index ((offset, key) ∷ index) = do fits_u32 (length key) io_error; check_index index

abbrev pub fits_u64 : ℕ → CompactionError → Outcome CompactionError (Unit {0})
fits_u64 n e = if ltb n u64_mod then ok tt else err e

-- The bytes that replace the data section in the file.
unfoldable pub build_from_data_section : Floats → Bytes → ℕ → ℕ → Outcome CompactionError Bytes
build_from_data_section f data_section level bloom_false_positive_rate = do
  let block_stride = 64 * 1024 * max 1 level
  l ← build_loop block_stride (length data_section) build_start data_section
  check_index l.sparse_index
  fits_u32 (length l.max_key) io_error
  let bloom_block = generate_filter_from_keys f l.bloom_keys bloom_false_positive_rate
  fits_u64 (length (encode_footer l.max_key)) io_error
  fits_u32 (length (encode_index l.sparse_index)) io_error
  ok (assemble bloom_block l.sparse_index data_section l.max_key)
