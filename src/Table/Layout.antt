-- ===== src/Table/Layout.antt =====
-- Where the parts of an assembled file lie, and that `flush` writes an assembled file.
use rusty_swift_merge.Base.{
  ℕ, ◌+◌, ◌-◌, ◌*◌, ◌≤◌, ◌≡◌, refl, ap, ◌∙◌, arith, Option, List, ◌++◌, append_assoc, length,
  length-append, drop, take-append, drop-append, drop-append_two, drop-append_last, drop-add,
}
use rusty_swift_merge.Bytes.{Bytes, as_u32, as_u64, to_le_bytes, length-to_le_bytes}
use rusty_swift_merge.BTreeMap.{BTreeMap}
use rusty_swift_merge.Floats.{Floats}
use rusty_swift_merge.Bloom.{generate_filter}
use rusty_swift_merge.Entry.{TableEntry}
use rusty_swift_merge.Table.{header_crc, encode_index, encode_footer, assemble}
use rusty_swift_merge.Table.Writer.{flush_entries, flush_start, flush_buffer, page_per_block}

pub length-header_crc : length header_crc ≡ 64
unfolding header_crc
length-header_crc = refl

module _ (filter : Bytes) (index : List (ℕ × Bytes)) (data_section max_key : Bytes)
    (size : length filter ≡ 1000) where
  abbrev file : Bytes
  file = assemble filter index data_section max_key

  -- From the footer's size on, from the filter on, and from the index's size on.
  abbrev from_index : Bytes
  from_index = encode_index index ++ (data_section ++ encode_footer max_key)

  abbrev from_index_size : Bytes
  from_index_size = to_le_bytes 4 (as_u32 (length (encode_index index))) ++ from_index

  pub drop_header :
      drop 64 file
      ≡ to_le_bytes 8 (as_u64 (length (encode_footer max_key))) ++ (filter ++ from_index_size)
  unfolding assemble
  drop_header = drop-append 64 header_crc _ length-header_crc

  pub drop_to_filter : drop 72 file ≡ filter ++ from_index_size
  unfolding assemble
  drop_to_filter =
      drop-append_two 72 header_crc (to_le_bytes 8 (as_u64 (length (encode_footer max_key))))
        (filter ++ from_index_size)
        (omega (
          arith,
          length-header_crc,
          length-to_le_bytes 8 (as_u64 (length (encode_footer max_key))),
        ))

  pub drop_to_index_size : drop 1072 file ≡ from_index_size
  drop_to_index_size =
      drop-add 72 1000 file
      ∙ ap (drop 1000) drop_to_filter
      ∙ drop-append 1000 filter from_index_size size

  pub drop_to_data :
      (n : ℕ)
      → drop (1072 + 4 + length (encode_index index) + n) file
        ≡ drop n (data_section ++ encode_footer max_key)
  drop_to_data n =
      drop-add (1072 + 4 + length (encode_index index)) n file
      ∙ ap (drop n) (
          drop-add (1072 + 4) (length (encode_index index)) file
          ∙ ap (drop (length (encode_index index))) (
              drop-add 1072 4 file
              ∙ ap (drop 4) drop_to_index_size
              ∙ drop-append 4 (to_le_bytes 4 (as_u32 (length (encode_index index)))) from_index
                  (length-to_le_bytes 4 _))
          ∙ drop-append (length (encode_index index)) (encode_index index) _ refl)

  before_footer : Bytes
  before_footer =
      header_crc
      ++ (to_le_bytes 8 (as_u64 (length (encode_footer max_key)))
          ++ (filter
              ++ (to_le_bytes 4 (as_u32 (length (encode_index index)))
                  ++ (encode_index index ++ data_section))))

  file-eq-before_footer : file ≡ before_footer ++ encode_footer max_key
  unfolding assemble before_footer
  file-eq-before_footer = simp append_assoc

  pub drop_to_footer :
      drop (length file - length (encode_footer max_key)) file ≡ encode_footer max_key
  drop_to_footer =
      rw file-eq-before_footer (
        drop-append_last (length (encode_footer max_key)) before_footer (encode_footer max_key)
          refl)

  pub footer_fits : length (encode_footer max_key) ≤ length file
  footer_fits =
      rw file-eq-before_footer (omega (arith, length-append before_footer (encode_footer max_key)))

-- The file that `flush` writes, with the footer's size spliced in at 64, has the parts of the format
-- in their order: the filter of the memtable, and the index, the data section and the largest key that
-- the loop leaves.
pub flush_buffer-eq-assemble :
    (f : Floats) (page_size rate : ℕ) (m : BTreeMap (Option TableEntry))
    → let l = flush_entries (page_size * page_per_block) flush_start m in
      flush_buffer f page_size rate m
      ≡ assemble (generate_filter f m rate) l.sparse_index_array l.ss_table_buffer l.max_key
unfolding flush_buffer assemble
flush_buffer-eq-assemble f page_size rate m =
    let filter = generate_filter f m rate in
    rw
      (
        take-append 64 header_crc filter length-header_crc,
        drop-append 64 header_crc filter length-header_crc,
      )
      (simp append_assoc)
