-- ===== src/Tests/Files.antt =====
-- The theorems on entries, filters and files, at the test data.
use rusty_swift_merge.Base.{
  ◌≤◌, ℕ, ◌%◌, ◌↔◌, min, inl, inr, ◌≡◌, ◌≢◌, refl, arith, true, none, some, [], ◌∷◌, ◌++◌,
  replicate, length-replicate,
}
use rusty_swift_merge.Base.Outcome.{ok, err, out_of_fuel}
use rusty_swift_merge.Bytes.{to_le_bytes}
use rusty_swift_merge.Bytes.Order.{cmp}
use rusty_swift_merge.Bytes.Utf8.{is_utf8}
use rusty_swift_merge.BTreeMap.{get}
use rusty_swift_merge.Entry.{
  enum_variant_value, serialize_type_info, serialize_meta_data, serialize_map, serialize,
  deserialize, wal_value, to_wal_entry,
}
use rusty_swift_merge.Entry.RoundTrip.{Fits, deserialize-serialize}
use rusty_swift_merge.Entry.Total.{deserialize-ne-out_of_fuel}
use rusty_swift_merge.Config.{ConfigInfo, default_config, validate}
use rusty_swift_merge.Config.Valid.{InRange, validate_iff, validate-InRange}
use rusty_swift_merge.Floats.{one_twentieth}
use rusty_swift_merge.Bloom.{build_from_key_iter, probably_exist}
use rusty_swift_merge.Bloom.Sound.{here, there, probably_exist-build_from_key_iter}
use rusty_swift_merge.Table.{
  encode_entry, encode_data, encode_mark, encode_index, encode_footer, assemble,
}
use rusty_swift_merge.Table.Writer.{flush_bytes, flush_entries, flush_buffer}
use rusty_swift_merge.Table.Reader.{
  TableReader, new, load_index, search, scan, read_footer, unexpected_eof,
}
use rusty_swift_merge.Table.Open.{read_footer_too_long}
use rusty_swift_merge.Table.Scan.{scan-encode_data, scan_past_end}
use rusty_swift_merge.Table.Marks.{raw_entries, last_key}
use rusty_swift_merge.Table.Lookup.{FitsTable, stored, search-flush_buffer}
use rusty_swift_merge.Tests.{key_a, key_b, entry_a, two_entries, floats}

entry_a-Fits : Fits entry_a
unfolding is_utf8
entry_a-Fits = (omega arith, ((tt, tt), ((omega arith, refl, omega arith), tt)))

serialize_test :
    serialize entry_a ≡ 2 ∷ 0 ∷ 0 ∷ 0 ∷ 1 ∷ 2 ∷ 1 ∷ 1 ∷ 0 ∷ 0 ∷ 0 ∷ 97 ∷ 1 ∷ 0 ∷ 0 ∷ 0 ∷ 7 ∷ 1 ∷ []
unfolding serialize serialize_map serialize_meta_data serialize_type_info to_le_bytes
    enum_variant_value
serialize_test = refl

deserialize-serialize_example : deserialize (serialize entry_a) ≡ ok entry_a
deserialize-serialize_example = deserialize-serialize entry_a entry_a-Fits

deserialize-ne-out_of_fuel_example : deserialize (0 ∷ 0 ∷ 0 ∷ 0 ∷ 1 ∷ 5 ∷ []) ≢ out_of_fuel
deserialize-ne-out_of_fuel_example = deserialize-ne-out_of_fuel (0 ∷ 0 ∷ 0 ∷ 0 ∷ 1 ∷ 5 ∷ [])

probably_exist-build_from_key_iter_example :
    probably_exist (build_from_key_iter floats 2 one_twentieth (key_a ∷ key_b ∷ [])) key_b ≡ true
probably_exist-build_from_key_iter_example =
    probably_exist-build_from_key_iter floats 2 one_twentieth (key_a ∷ key_b ∷ []) (there here)

default_config-InRange : InRange floats default_config
default_config-InRange = record {
  ram_max_size_low = omega arith;
  ram_max_size_high = omega arith;
  ram_max_time_low = omega arith;
  ram_max_time_high = omega arith;
  target_chunks_low = omega arith;
  target_chunks_high = omega arith;
  interval_low = omega arith;
  interval_high = omega arith;
  rate_low = refl;
  rate_high = refl;
  threads = omega arith;
}

validate_iff_example : (validate floats 8 default_config ≡ ok default_config) ↔ (
    InRange floats default_config
    × (default_config ≡ record default_config { max_compaction_threads = min 2 (8 % 256) }))
validate_iff_example = validate_iff floats 8 default_config default_config

-- Eight processors, and more threads than that.
abbrev many_threads : ConfigInfo
many_threads = record default_config { max_compaction_threads = 100 }

validate-InRange_example :
    InRange floats (record default_config { max_compaction_threads = 8 }) × (8 ≤ 8)
validate-InRange_example =
    validate-InRange floats 8 many_threads (record default_config { max_compaction_threads = 8 })
      (omega arith) (omega arith) (unfold validate in refl)

pub two_entries-FitsTable : FitsTable 4096 two_entries
unfolding cmp raw_entries wal_value serialize serialize_map serialize_meta_data serialize_type_info
    to_le_bytes enum_variant_value encode_data encode_entry last_key
two_entries-FitsTable = record {
  sorted = ((refl, tt), (tt, tt));
  entries = (omega arith, omega arith, (omega arith, omega arith, tt));
  section = omega arith;
  index = unfold flush_entries flush_bytes to_wal_entry encode_index encode_mark in omega arith;
  max_key = omega arith;
}

search-flush_buffer_example :
    (t : TableReader) × (load_index (new (flush_buffer floats 4096 one_twentieth two_entries) 5)
      ≡ ok t)
    × (search t key_b ≡ ok (stored (get two_entries key_b)))
search-flush_buffer_example =
    search-flush_buffer floats 4096 one_twentieth 5 key_a (some entry_a) ((key_b, none) ∷ []) key_b
      two_entries-FitsTable (unfold cmp in λ e. cc) (unfold cmp last_key in λ e. cc)

scan-encode_data_example :
    scan 40 key_b (encode_data ((key_a, 1 ∷ []) ∷ (key_b, 2 ∷ []) ∷ []) ++ encode_footer key_b)
    ≡ ok (get ((key_a, 1 ∷ []) ∷ (key_b, 2 ∷ []) ∷ []) key_b)
scan-encode_data_example =
    scan-encode_data ((key_a, 1 ∷ []) ∷ (key_b, 2 ∷ []) ∷ []) 40 key_b (encode_footer key_b)
      (omega arith, omega arith, (omega arith, omega arith, tt)) (unfold cmp in inr (inl (λ e. cc)))
      (unfold encode_data encode_entry encode_footer to_le_bytes in omega arith)

scan_past_end_example : scan 10 key_a (encode_footer key_b) ≡ err unexpected_eof
scan_past_end_example = scan_past_end key_b key_a 9 (omega arith)

read_footer_too_long_example :
    read_footer (assemble (replicate 1000 0) [] [] (replicate 9997 0)) ≡ ok []
read_footer_too_long_example =
    read_footer_too_long (replicate 1000 0) [] [] (replicate 9997 0)
      (length-replicate {A = ℕ} 1000 0) (omega (arith, length-replicate {A = ℕ} 9997 0))
      (omega (arith, length-replicate {A = ℕ} 9997 0))
