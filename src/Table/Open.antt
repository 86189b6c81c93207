-- ===== src/Table/Open.antt =====
-- What `TableReader` reads from an assembled file: the header, the filter, the footer, and the
-- index with the place of the data section.
use rusty_swift_merge.Base.{
  ℕ, zero, suc, ◌+◌, ◌≤◌, ◌<◌, ◌≡◌, refl, ap, ◌∙◌, arith, false, some, List, [], ◌∷◌, ◌++◌,
  append_assoc, append-nil, length, length-append, drop, ◌==◌, lt→ltb, le→ltb,
}
use rusty_swift_merge.Base.Outcome.{ok}
use rusty_swift_merge.Bytes.{
  Bytes, u32_mod, u64_mod, as_u32, as_u64, to_le_bytes, length-to_le_bytes,
}
use rusty_swift_merge.Bytes.Cursor.{
  read_u32, read_u64, read_bytes-append, read_bytes-append_of_length, read_u32-append,
  read_u64-append,
}
use rusty_swift_merge.Table.{header_crc, encode_mark, encode_index, encode_footer, assemble}
use rusty_swift_merge.Table.Reader.{
  TableReader, unexpected_eof, truncated_key_len, truncated_key, truncated_offset, read_exact,
  read_header, get_bloom_filter, read_footer_of, read_footer, read_mark, read_marks, load_index,
  new,
}
use rusty_swift_merge.Table.Layout.{
  length-header_crc, drop_header, drop_to_filter, drop_to_index_size, drop_to_footer, footer_fits,
}

-- The marks of an index fit their fields.
abbrev pub FitsIndex : List (ℕ × Bytes) → Type 0
FitsIndex [] = Unit {0}
FitsIndex ((offset, key) ∷ index) = (offset < u64_mod) × (length key < u32_mod) × FitsIndex index

read_mark-append :
    (offset : ℕ) (key rest : Bytes)
    → offset < u64_mod
    → length key < u32_mod
    → read_mark (encode_mark offset key ++ rest) ≡ ok (offset, key, rest)
unfolding read_mark encode_mark
read_mark-append offset key rest ho hk = simp (
  append_assoc,
  read_u32-append truncated_key_len (length key) hk,
  read_bytes-append truncated_key key,
  read_u64-append truncated_offset offset ho,
)

read_marks_step :
    (fuel : ℕ) (src : Bytes) (acc : List (ℕ × Bytes)) {offset : ℕ} {key rest : Bytes}
    → read_mark src ≡ ok (offset, key, rest)
    → read_marks (suc fuel) src acc ≡ read_marks fuel rest (acc ++ (offset, key) ∷ [])
unfolding read_marks
read_marks_step fuel [] acc e = unfold read_mark read_u32 in cc
read_marks_step fuel (b ∷ bs) acc e = rw e

length-encode_mark : (offset : ℕ) (key : Bytes) → 12 ≤ length (encode_mark offset key)
unfolding encode_mark
length-encode_mark offset key = simp (length-append, length-to_le_bytes) (omega arith)

read_marks-encode_index :
    (index acc : List (ℕ × Bytes)) (fuel : ℕ)
    → FitsIndex index
    → length (encode_index index) ≤ fuel
    → read_marks fuel (encode_index index) acc ≡ ok (acc ++ index)
unfolding encode_index
read_marks-encode_index [] acc fuel h hf = rw append-nil (unfold read_marks in refl)
read_marks-encode_index ((offset, key) ∷ index) acc zero h hf = absurd (
    omega (
      arith,
      length-encode_mark offset key,
      length-append (encode_mark offset key) (encode_index index),
    ))
read_marks-encode_index ((offset, key) ∷ index) acc (suc fuel) h hf =
    read_marks_step fuel _ acc (read_mark-append offset key (encode_index index) h.0 h.1)
    ∙ read_marks-encode_index index (acc ++ (offset, key) ∷ []) fuel h.2 (
        omega (
          arith,
          length-encode_mark offset key,
          length-append (encode_mark offset key) (encode_index index),
        ))
    ∙ ap ok (append_assoc acc ((offset, key) ∷ []) index)

length-encode_footer : (max_key : Bytes) → length (encode_footer max_key) ≡ length max_key + 4
unfolding encode_footer
length-encode_footer max_key = simp (length-append, length-to_le_bytes) (omega arith)

module _ (filter : Bytes) (index : List (ℕ × Bytes)) (data_section max_key : Bytes)
    (size : length filter ≡ 1000) where
  abbrev file : Bytes
  file = assemble filter index data_section max_key

  read_footer_size :
      length max_key < u32_mod
      → read_u64 unexpected_eof (drop 64 file)
        ≡ ok (length (encode_footer max_key), filter ++ drop 1072 file)
  read_footer_size h =
      rw
        (
          drop_header filter index data_section max_key size,
          drop_to_index_size filter index data_section max_key size,
        )
        (read_u64-append unexpected_eof (length (encode_footer max_key))
          (omega (arith, length-encode_footer max_key)) _)

  read_footer_of-file :
      length max_key ≤ 9996 → read_footer_of file (length (encode_footer max_key)) ≡ ok max_key
  unfolding read_footer_of
  read_footer_of-file h =
      let n = length-encode_footer max_key in
      let whole : read_u32 unexpected_eof (encode_footer max_key) ≡ ok (length max_key, max_key) =
        unfold encode_footer in
        read_u32-append unexpected_eof (length max_key) (omega arith) max_key in
      let key : read_exact (length max_key) max_key ≡ ok (max_key, []) =
        rw append-nil at (read_bytes-append unexpected_eof max_key []) in
      rw (
        le→ltb 10000 (length (encode_footer max_key)) (omega arith),
        le→ltb (length file) (length (encode_footer max_key))
            (footer_fits filter index data_section max_key size),
        drop_to_footer filter index data_section max_key size,
        whole,
        key,
        nonzero (length (encode_footer max_key)) (omega arith),
      )
    where
      nonzero : (n : ℕ) → 0 < n → (n == 0) ≡ false
      nonzero n h = ground arith

  -- The footer gives the largest key back.
  pub read_footer-file : length max_key ≤ 9996 → read_footer file ≡ ok max_key
  unfolding read_footer
  read_footer-file h = rw (read_footer_size (omega arith)) (read_footer_of-file h)

  -- In a file with a filter of 1000 bytes and a largest key of more than 9996 bytes, and of less than
  -- 2^32, the footer counts as none: the largest key reads as empty.
  pub read_footer_too_long :
      9996 < length max_key → length max_key < u32_mod → read_footer file ≡ ok []
  unfolding read_footer read_footer_of
  read_footer_too_long h k =
      rw
        (
          read_footer_size k,
          lt→ltb 10000 (length (encode_footer max_key))
              (omega (arith, length-encode_footer max_key)),
        )
        (ground arith)

  pub read_header-file : (created : ℕ) → read_header (new file created) ≡ ok header_crc
  unfolding read_header new assemble
  read_header-file created = rw (
      read_bytes-append_of_length unexpected_eof 64 header_crc
        (to_le_bytes 8 (as_u64 (length (encode_footer max_key)))
          ++ (filter
              ++ (to_le_bytes 4 (as_u32 (length (encode_index index)))
                  ++ (encode_index index ++ (data_section ++ encode_footer max_key)))))
        length-header_crc)

  pub get_bloom_filter-file : (t : TableReader) → t.file ≡ file → get_bloom_filter t ≡ ok filter
  unfolding get_bloom_filter
  get_bloom_filter-file t e = rw (
    e,
    drop_to_filter filter index data_section max_key size,
    read_bytes-append_of_length unexpected_eof 1000 filter
        (to_le_bytes 4 (as_u32 (length (encode_index index)))
          ++ (encode_index index ++ (data_section ++ encode_footer max_key)))
        size,
  )

  -- The reader that `get_sparse_index` leaves.
  abbrev pub opened : ℕ → Bytes → TableReader
  opened created footer_key = record {
    file = file;
    created = created;
    data_section_offset = some (1072 + 4 + length (encode_index index));
    metadata_cache =
        some (record { creation_timestamp = created; sparse_index = index; max_key = footer_key });
  }

  pub load_index-file :
      (created : ℕ) (footer_key : Bytes)
      → FitsIndex index
      → length (encode_index index) < u32_mod
      → read_footer file ≡ ok footer_key
      → load_index (new file created) ≡ ok (opened created footer_key)
  unfolding load_index new
  load_index-file created footer_key h k e = rw (
    drop_to_index_size filter index data_section max_key size,
    read_u32-append unexpected_eof (length (encode_index index)) k
        (encode_index index ++ (data_section ++ encode_footer max_key)),
    read_bytes-append unexpected_eof (encode_index index) (data_section ++ encode_footer max_key),
    read_marks-encode_index index [] (length (encode_index index)) h (omega arith),
    e,
  )
