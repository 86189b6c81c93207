-- ===== src/Compaction.antt =====
-- lsm_tree/compaction.rs: the data sections that a `CompactionUnit` reads and merges. A file that is
-- being read is what is left of its bytes; every `io::Error` is the one `io_error`.
pub mod Build
pub mod Merge
pub mod Join
pub mod Rebuild
pub mod Units
pub mod Files
pub mod Names
pub mod Fates
pub mod Pairs
pub mod FirstLive
pub mod Rounds
pub mod Range
pub mod Summary
pub mod Passes
pub mod Cleared
pub mod Whole
pub mod Tier
pub mod TableNames
pub mod Promotion
pub mod Tables
use rusty_swift_merge.Base.{
  ℕ, zero, suc, ◌+◌, ◌-◌, Bool, true, false, not, ◌&&◌, ◌||◌, Option, none, some, List, [], ◌∷◌,
  ◌++◌, Ordering, length, drop, ltb, ◌==◌, if◌then◌else◌,
}
use Prim.Native.Nat.Ordering.{lt, eq, gt}
use rusty_swift_merge.Base.Outcome.{Outcome, ok, err, out_of_fuel, ◌>>=◌, ◌>>◌}
use rusty_swift_merge.Bytes.{Bytes, u32_mod}
use rusty_swift_merge.Bytes.Order.{cmp}
use rusty_swift_merge.Bytes.Cursor.{read_bytes, read_u32, read_u64}
use rusty_swift_merge.Table.{header_crc, header_size, sparse_index_offset, encode_entry}

pub data TableCorruption : Type 0 where
  invalid_crc : Bytes → TableCorruption
  -- the footer's size and the file's
  invalid_footer : ℕ → ℕ → TableCorruption
  invalid_sparse_index data_section_error : TableCorruption

pub data CompactionError : Type 0 where
  io_error : CompactionError
  -- with the file's name
  invalid_table : Bytes → TableCorruption → CompactionError

pub data TableType : Type 0 where
  ss_table raw_data_section : Bytes → TableType

-- An open file in its data section: what is left of the file, the bytes read so far, and the
-- section's size.
pub record Section : Type 0 where
  pub rest : Bytes
  pub ptr : ℕ
  pub size : ℕ

abbrev pub Pair : Type 0
Pair = Bytes × Bytes

-- `read_exact` fills a buffer of the announced size, so the test behind it never fails.
unfoldable pub read_prefixed_bytes : Bytes → Outcome CompactionError (Bytes × Bytes)
read_prefixed_bytes rest = do
  (value_size, rest) ← read_u32 io_error rest
  read_bytes io_error value_size rest

-- A key, its value, and what is left behind them.
unfoldable pub read_data_section_entry : Bytes → Outcome CompactionError (Bytes × Bytes × Bytes)
read_data_section_entry rest = do
  (key, rest) ← read_prefixed_bytes rest
  (value, rest) ← read_prefixed_bytes rest
  ok (key, value, rest)

-- The test asks for a key of one byte also.
unfoldable pub is_tombstone : Bytes → Bytes → Bool
is_tombstone key (b ∷ []) = length key == 1 && b == 255
is_tombstone key _ = false

abbrev pub behind : Section → Bytes → Section
behind s rest = record { rest = rest; ptr = s.ptr + (length s.rest - length rest); size = s.size }

-- The loop. A round takes eight bytes at least; `ptr` grows by what the entry takes.
unfoldable pub read_next : ℕ → Section → Outcome CompactionError (Option Pair × Section)
read_next zero s = if ltb s.ptr s.size then out_of_fuel else ok (none, s)
read_next (suc fuel) s = elim (ltb s.ptr s.size) [
  | true ↦ do
    (key, value, rest) ← read_data_section_entry s.rest
    let later = read_next fuel (behind s rest)
    if is_tombstone key value then later else ok (some (key, value), behind s rest)
  | false ↦ ok (none, s)
]

unfoldable pub read_next_non_tombstone_entry :
    Section → Outcome CompactionError (Option Pair × Section)
read_next_non_tombstone_entry s = read_next (suc (length s.rest)) s

abbrev pub fits_u32 : ℕ → CompactionError → Outcome CompactionError (Unit {0})
fits_u32 n e = if ltb n u32_mod then ok tt else err e

-- The name that `write_data_section_entry` gives its output: "compaction-output".
abbrev pub compaction_output : Bytes
compaction_output =
    99 ∷ 111 ∷ 109 ∷ 112 ∷ 97 ∷ 99 ∷ 116 ∷ 105 ∷ 111 ∷ 110 ∷ 45 ∷ 111 ∷ 117 ∷ 116 ∷ 112 ∷ 117 ∷ 116
    ∷ []

-- Behind the end of `dest`.
unfoldable pub write_data_section_entry : Bytes → Pair → Outcome CompactionError Bytes
write_data_section_entry dest (key, value) = do
  fits_u32 (length key) (invalid_table compaction_output data_section_error)
  fits_u32 (length value) (invalid_table compaction_output data_section_error)
  ok (dest ++ encode_entry key value)

-- `while let Some(…) = entry.take()`, for the input that is left.
unfoldable pub drain : ℕ → Option Pair → Section → Bytes → Outcome CompactionError Bytes
drain fuel none s dest = ok dest
drain zero (some e) s dest = out_of_fuel
drain (suc fuel) (some e) s dest = do
  dest ← write_data_section_entry dest e
  (next, s) ← read_next_non_tombstone_entry s
  drain fuel next s dest

-- The loop while both inputs have an entry, then the two others. For equal keys the left entry is
-- written and both sides advance.
unfoldable pub join_loop :
    ℕ → Option Pair → Section → Option Pair → Section → Bytes → Outcome CompactionError Bytes
join_loop fuel none l right r dest = drain fuel right r dest
join_loop fuel (some left) l none r dest = drain fuel (some left) l dest
join_loop zero (some left) l (some right) r dest = out_of_fuel
join_loop (suc fuel) (some left) l (some right) r dest = elim (cmp left.0 right.0) [
  | lt ↦ do
    dest ← write_data_section_entry dest left
    (next, l) ← read_next_non_tombstone_entry l
    join_loop fuel next l (some right) r dest
  | gt ↦ do
    dest ← write_data_section_entry dest right
    (next, r) ← read_next_non_tombstone_entry r
    join_loop fuel (some left) l next r dest
  | eq ↦ do
    dest ← write_data_section_entry dest left
    (next_left, l) ← read_next_non_tombstone_entry l
    (next_right, r) ← read_next_non_tombstone_entry r
    join_loop fuel next_left l next_right r dest
]

abbrev pub ensure : Bool → CompactionError → Outcome CompactionError (Unit {0})
ensure bad e = if bad then err e else ok tt

abbrev pub crc_matches : Bytes → Bool
crc_matches crc = elim (cmp crc header_crc) [ eq ↦ true | _ ↦ false ]

-- The position at the first byte of the data section, and the section's size.
unfoldable pub to_data_section : Bytes → TableType → Outcome CompactionError Section
to_data_section name (ss_table f) = do
  let file_len = length f
  (crc, rest) ← read_bytes io_error header_size f
  ensure (not (crc_matches crc)) (invalid_table name (invalid_crc crc))
  (footer_size, rest) ← read_u64 io_error rest
  ensure (footer_size == 0 || ltb file_len footer_size)
      (invalid_table name (invalid_footer footer_size file_len))
  (sparse_index_size, rest) ← read_u32 io_error (drop sparse_index_offset f)
  let data_offset = sparse_index_offset + 4 + sparse_index_size
  ensure (ltb file_len data_offset || ltb file_len (data_offset + footer_size))
      (invalid_table name invalid_sparse_index)
  ok (record { rest = drop data_offset f; ptr = 0; size = file_len - data_offset - footer_size })
to_data_section name (raw_data_section f) = ok (record { rest = f; ptr = 0; size = length f })

-- Every round writes an entry of eight bytes at least that one of the inputs has, so the fuel is
-- enough. What was written before an error is lost with the unfinished output file.
unfoldable pub join_tables : Bytes → TableType → Bytes → TableType → Outcome CompactionError Bytes
join_tables l_name left r_name right = do
  l ← to_data_section l_name left
  r ← to_data_section r_name right
  let fuel = suc (length l.rest + length r.rest)
  (left_entry, l) ← read_next_non_tombstone_entry l
  (right_entry, r) ← read_next_non_tombstone_entry r
  join_loop fuel left_entry l right_entry r []
