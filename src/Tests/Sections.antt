-- ===== src/Tests/Sections.antt =====
-- The theorems on compaction, at small data sections.
use rusty_swift_merge.Base.{ℕ, ◌≡◌, refl, arith, [], ◌∷◌, replicate, length-replicate}
use rusty_swift_merge.Base.Outcome.{ok}
use rusty_swift_merge.Bytes.{Bytes, to_le_bytes}
use rusty_swift_merge.Bytes.Order.{cmp}
use rusty_swift_merge.BTreeMap.{BTreeMap, get, IsSorted}
use rusty_swift_merge.Floats.{one_twentieth}
use rusty_swift_merge.Table.{encode_entry, encode_data, encode_mark, encode_index, assemble}
use rusty_swift_merge.Table.Reader.{TableReader, new, load_index, search}
use rusty_swift_merge.Table.Scan.{FitsData}
use rusty_swift_merge.Table.Marks.{last_key}
use rusty_swift_merge.Compaction.{ss_table, raw_data_section, join_tables, is_tombstone}
use rusty_swift_merge.Compaction.Build.{build_from_data_section, add_entry}
use rusty_swift_merge.Compaction.Merge.{live, merge, or_else}
use rusty_swift_merge.Compaction.Tables.{raw-Holds, table-Holds, join_tables-lookup}
use rusty_swift_merge.Compaction.Rebuild.{FitsSection, add_entries, search-build_from_data_section}
use rusty_swift_merge.Compaction.Units.{compaction_units, Divides, compaction_units-Divides}
use rusty_swift_merge.Tests.{key_a, key_b, floats}

abbrev pub newer : BTreeMap Bytes
newer = (key_a, 255 ∷ []) ∷ (key_b, 2 ∷ []) ∷ []

abbrev pub older : BTreeMap Bytes
older = (key_a, 7 ∷ []) ∷ (key_b, 3 ∷ []) ∷ []

pub newer-IsSorted : IsSorted newer
unfolding cmp
newer-IsSorted = ((refl, tt), (tt, tt))

pub older-IsSorted : IsSorted older
unfolding cmp
older-IsSorted = ((refl, tt), (tt, tt))

pub older-FitsData : FitsData older
older-FitsData = (omega arith, omega arith, (omega arith, omega arith, tt))

pub newer-FitsData : FitsData newer
newer-FitsData = (omega arith, omega arith, (omega arith, omega arith, tt))

-- The tombstone of a key of one byte is dropped, and the older value of the key comes back.
live-merge_test : merge (live newer) (live older) ≡ (key_a, 7 ∷ []) ∷ (key_b, 2 ∷ []) ∷ []
unfolding merge live is_tombstone cmp
live-merge_test = refl

join_tables-lookup_example :
    (merged : BTreeMap Bytes) × (join_tables key_a
        (ss_table (assemble (replicate 1000 0) [] (encode_data newer) key_b))
        key_b
        (raw_data_section (encode_data older))
      ≡ ok (encode_data merged))
    × IsSorted merged
    × (get merged key_a ≡ or_else (get (live newer) key_a) (get (live older) key_a))
join_tables-lookup_example =
    join_tables-lookup key_a (ss_table (assemble (replicate 1000 0) [] (encode_data newer) key_b))
      newer key_b (raw_data_section (encode_data older)) older key_a
      (table-Holds (replicate 1000 0) [] newer key_b (length-replicate {A = ℕ} 1000 0)
        newer-FitsData (omega arith) (unfold encode_index in omega arith))
      (raw-Holds older older-FitsData) newer-IsSorted older-IsSorted

older-FitsSection : FitsSection 2 older
unfolding encode_data encode_entry to_le_bytes encode_index encode_mark add_entries add_entry
    last_key
older-FitsSection = record {
  sorted = older-IsSorted;
  entries = older-FitsData;
  section = omega arith;
  index = omega arith;
  max_key = omega arith;
}

search-build_from_data_section_example :
    (file : Bytes) × (t : TableReader) × (build_from_data_section floats
        (encode_data older)
        2
        one_twentieth
      ≡ ok file)
    × (load_index (new file 9) ≡ ok t)
    × (search t key_b ≡ ok (get older key_b))
search-build_from_data_section_example =
    search-build_from_data_section floats 2 one_twentieth 9 key_a (7 ∷ []) ((key_b, 3 ∷ []) ∷ [])
      key_b older-FitsSection (unfold cmp in λ e. cc) (unfold cmp last_key in λ e. cc)

compaction_units-Divides_example :
    Divides 2 (key_a ∷ key_b ∷ key_a ∷ []) (compaction_units 2 (key_a ∷ key_b ∷ key_a ∷ []))
compaction_units-Divides_example =
    compaction_units-Divides 2 (key_a ∷ key_b ∷ key_a ∷ []) (omega arith)
