-- ===== src/Compaction/Tables.antt =====
-- The data section of a file, and what joining two files writes.
use rusty_swift_merge.Base.{
  ℕ, ◌+◌, ◌<◌, ◌≡◌, refl, sym, ap, ◌∙◌, arith, true, false, List, [], ◌++◌, append-nil, length,
  length-append, drop, ◌==◌, le→ltb,
}
use rusty_swift_merge.Base.Outcome.{ok}
use rusty_swift_merge.Bytes.{
  Bytes, u32_mod, u64_mod, as_u32, as_u64, to_le_bytes, length-to_le_bytes,
}
use rusty_swift_merge.Bytes.Order.{cmp}
use rusty_swift_merge.Bytes.Cursor.{
  read_bytes, read_bytes-append_of_length, read_u32-append, read_u64-append,
}
use rusty_swift_merge.BTreeMap.{BTreeMap, get, IsSorted}
use rusty_swift_merge.Table.{header_crc, encode_data, encode_index, encode_footer, assemble}
use rusty_swift_merge.Table.Layout.{length-header_crc, drop_to_index_size, drop_to_data}
use rusty_swift_merge.Table.Scan.{FitsData}
use rusty_swift_merge.Compaction.{
  io_error, TableType, ss_table, raw_data_section, to_data_section, join_tables, crc_matches,
}
use rusty_swift_merge.Compaction.Merge.{
  live, merge, length-live, merge-IsSorted, live-IsSorted, get-merge, or_else,
}
use rusty_swift_merge.Compaction.Join.{
  At, length_le_bytes, read_next_non_tombstone_entry-Reads, join_loop-pending, pending,
}

length-encode_footer : (max_key : Bytes) → length (encode_footer max_key) ≡ length max_key + 4
unfolding encode_footer
length-encode_footer max_key = simp (length-append, length-to_le_bytes) (omega arith)

nonzero : (n : ℕ) → 0 < n → (n == 0) ≡ false
nonzero n h = ground arith

crc_accepted : crc_matches header_crc ≡ true
unfolding cmp header_crc
crc_accepted = refl

module _ (filter : Bytes) (index : List (ℕ × Bytes)) (data_section max_key : Bytes)
    (size : length filter ≡ 1000) where
  abbrev file : Bytes
  file = assemble filter index data_section max_key

  abbrev from_index_size : Bytes
  from_index_size =
      to_le_bytes 4 (as_u32 (length (encode_index index)))
      ++ (encode_index index ++ (data_section ++ encode_footer max_key))

  length-file :
      length file
      ≡ 1076 + length (encode_index index) + length data_section + length (encode_footer max_key)
  unfolding assemble
  length-file = simp (length-append, length-to_le_bytes, length-header_crc, size) (omega arith)

  read_crc :
      read_bytes io_error 64 file
      ≡ ok (
        header_crc,
        to_le_bytes 8 (as_u64 (length (encode_footer max_key))) ++ (filter ++ from_index_size),
      )
  unfolding assemble
  read_crc = read_bytes-append_of_length io_error 64 header_crc _ length-header_crc

  at_data :
      drop (1072 + 4 + length (encode_index index)) file ≡ data_section ++ encode_footer max_key
  at_data =
      ap (λ (n : ℕ). drop n file) (omega arith)
      ∙ drop_to_data filter index data_section max_key size 0

  pub to_data_section-file :
      (name : Bytes)
      → length max_key + 4 < u64_mod
      → length (encode_index index) < u32_mod
      → to_data_section name (ss_table file)
        ≡ ok (record {
          rest = data_section ++ encode_footer max_key;
          ptr = 0;
          size = length data_section;
        })
  unfolding to_data_section
  to_data_section-file name hm hi =
      let n = length-encode_footer max_key in
      let s = length-file in
      rw
        (
          read_crc,
          crc_accepted,
          read_u64-append io_error (length (encode_footer max_key)) (omega (arith, n))
              (filter ++ from_index_size),
          nonzero (length (encode_footer max_key)) (omega (arith, n)),
          le→ltb (length file) (length (encode_footer max_key)) (omega (arith, s)),
          drop_to_index_size filter index data_section max_key size,
          read_u32-append io_error (length (encode_index index)) hi
              (encode_index index ++ (data_section ++ encode_footer max_key)),
          le→ltb (length file) (1072 + 4 + length (encode_index index)) (omega (arith, s)),
          le→ltb (length file)
              (1072 + 4 + length (encode_index index) + length (encode_footer max_key))
              (omega (arith, s)),
          at_data,
        )
        (ap
          (λ (k : ℕ).
            ok (record { rest = data_section ++ encode_footer max_key; ptr = 0; size = k }))
          (omega (arith, s)))

-- An input file: an SSTable or a raw data section, with the entries `xs` in its data section.
pub record Holds (t : TableType) (xs : BTreeMap Bytes) : Type 0 where
  pub fits : FitsData xs
  pub opens :
      (name : Bytes)
      → (tail : Bytes) × (to_data_section name t
          ≡ ok (record { rest = encode_data xs ++ tail; ptr = 0; size = length (encode_data xs) }))

pub raw-Holds : (xs : BTreeMap Bytes) → FitsData xs → Holds (raw_data_section (encode_data xs)) xs
unfolding to_data_section
raw-Holds xs h = record {
  fits = h;
  opens = λ name. (
    [],
    ap (λ (t : Bytes). ok (record { rest = t; ptr = 0; size = length (encode_data xs) }))
        (sym (append-nil (encode_data xs))),
  );
}

pub table-Holds :
    (filter : Bytes) (index : List (ℕ × Bytes)) (xs : BTreeMap Bytes) (max_key : Bytes)
    → length filter ≡ 1000
    → FitsData xs
    → length max_key + 4 < u64_mod
    → length (encode_index index) < u32_mod
    → Holds (ss_table (assemble filter index (encode_data xs) max_key)) xs
table-Holds filter index xs max_key size h hm hi = record {
  fits = h;
  opens = λ name. (
    encode_footer max_key,
    to_data_section-file filter index (encode_data xs) max_key size name hm hi,
  );
}

pub start-At :
    (xs : BTreeMap Bytes) (tail : Bytes)
    → FitsData xs
    → At (record { rest = encode_data xs ++ tail; ptr = 0; size = length (encode_data xs) }) xs
start-At xs tail h = record { tail = tail; rest = refl; size = omega arith; fits = h }

-- Joining two tables writes the data section of the merge of their live entries.
pub join_tables-merge :
    (l_name : Bytes) (left : TableType) (xs : BTreeMap Bytes) (r_name : Bytes) (right : TableType)
    (ys : BTreeMap Bytes)
    → Holds left xs
    → Holds right ys
    → join_tables l_name left r_name right ≡ ok (encode_data (merge (live xs) (live ys)))
unfolding join_tables
join_tables-merge l_name left xs r_name right ys hl hr =
    let (l_tail, l_opens) = hl.opens l_name in
    let (r_tail, r_opens) = hr.opens r_name in
    let a = read_next_non_tombstone_entry-Reads _ xs (start-At xs l_tail hl.fits) in
    let b = read_next_non_tombstone_entry-Reads _ ys (start-At ys r_tail hr.fits) in
    rw (l_opens, r_opens, a.result, b.result)
      (join_loop-pending _ a.entry a.next a.left b.entry b.next b.left [] a.at b.at a.fits b.fits (
          omega (
            arith,
            ap (λ (t : BTreeMap Bytes). length t) a.same,
            ap (λ (t : BTreeMap Bytes). length t) b.same,
            length-live xs,
            length-live ys,
            length_le_bytes xs,
            length_le_bytes ys,
            length-append (encode_data xs) l_tail,
            length-append (encode_data ys) r_tail,
          ))
        ∙ ap (λ (t : BTreeMap Bytes). ok (encode_data (merge t (pending b.entry b.left)))) a.same
        ∙ ap (λ (t : BTreeMap Bytes). ok (encode_data (merge (live xs) t))) b.same)

-- Joining two tables, SSTables or raw data sections, whose keys ascend succeeds and writes a data
-- section whose keys ascend. What it holds for a key is the left table's value, or else the right
-- one's, where the entries that `is_tombstone` names are left out of both.
pub join_tables-lookup :
    (l_name : Bytes) (left : TableType) (xs : BTreeMap Bytes) (r_name : Bytes) (right : TableType)
    (ys : BTreeMap Bytes) (q : Bytes)
    → Holds left xs
    → Holds right ys
    → IsSorted xs
    → IsSorted ys
    → (merged : BTreeMap Bytes) × (join_tables l_name left r_name right ≡ ok (encode_data merged))
      × IsSorted merged
      × (get merged q ≡ or_else (get (live xs) q) (get (live ys) q))
join_tables-lookup l_name left xs r_name right ys q hl hr sx sy =
    let p = live-IsSorted xs sx in
    let r = live-IsSorted ys sy in
    (
      merge (live xs) (live ys),
      join_tables-merge l_name left xs r_name right ys hl hr,
      merge-IsSorted (live xs) (live ys) p r,
      get-merge (live xs) (live ys) q p r,
    )
