-- ===== src/Tests/Summaries.antt =====
-- The theorem on the summary of a level, at one of two tables.
use rusty_swift_merge.Base.{ℕ, ◌≡◌, arith, some, [], ◌∷◌, ◌++◌, replicate, length, length-replicate}
use rusty_swift_merge.Base.Outcome.{ok}
use rusty_swift_merge.Bytes.{Bytes}
use rusty_swift_merge.Bytes.Order.{cmp}
use rusty_swift_merge.BTreeMap.{BTreeMap}
use rusty_swift_merge.Bloom.Sound.{here, there}
use rusty_swift_merge.Table.{encode_data, encode_index, assemble}
use rusty_swift_merge.Table.Scan.{FitsData}
use rusty_swift_merge.Directory.{
  File, Directory, create_file, write_file, strip_suffix, ends_with, ss_table_file_ext,
}
use rusty_swift_merge.Compaction.{ss_table}
use rusty_swift_merge.Compaction.Tables.{Holds, table-Holds}
use rusty_swift_merge.Compaction.Tier.{build_level_summary, bin_files, summary_of, level_filter}
use rusty_swift_merge.Compaction.Summary.{
  AllWithin, Listed, no_file, a_file, IsKey, build_level_summary_lem,
}
use rusty_swift_merge.Tests.{key_a, key_b}
use rusty_swift_merge.Tests.Sections.{newer, older, newer-FitsData, older-FitsData}
use rusty_swift_merge.Tests.Levels.{machine}

abbrev with_entries : BTreeMap Bytes → File
with_entries entries = record {
  content = assemble (replicate 1000 0) [] (encode_data entries) key_b;
  created = 9;
}

-- Two tables and a file of another kind between them.
abbrev next_dir : Directory
next_dir =
    (key_a ++ ss_table_file_ext, with_entries newer)
    ∷ (key_a, with_entries [])
    ∷ (key_b ++ ss_table_file_ext, with_entries older)
    ∷ []

with_entries-Holds :
    (entries : BTreeMap Bytes)
    → FitsData entries
    → Holds (ss_table (with_entries entries).content) entries
with_entries-Holds entries fits =
    table-Holds (replicate 1000 0) [] entries key_b (length-replicate {A = ℕ} 1000 0) fits
      (omega arith) (unfold encode_index in omega arith)

next_dir-Listed : Listed (bin_files next_dir) (newer ∷ older ∷ [])
unfolding bin_files ends_with strip_suffix cmp
next_dir-Listed =
    a_file (with_entries-Holds newer newer-FitsData)
      (a_file (with_entries-Holds older older-FitsData) no_file)

key_b-IsKey : IsKey (newer ∷ older ∷ []) key_b
key_b-IsKey = record { value = 3 ∷ []; table = older; listed = there here; entry = there here }

build_level_summary_lem_example :
    (low : Bytes) × (high : Bytes) × (build_level_summary machine
        (record { current = []; next = some next_dir })
      ≡ (
        ok tt,
        record {
          current = [];
          next = some (
              write_file
                (create_file (machine.clock level_filter) next_dir level_filter)
                level_filter
                (summary_of (some low, some high) (length (bin_files next_dir))));
        },
      ))
    × IsKey (newer ∷ older ∷ []) low
    × IsKey (newer ∷ older ∷ []) high
    × AllWithin low high (newer ∷ older ∷ [])
build_level_summary_lem_example =
    build_level_summary_lem machine [] next_dir key_b next_dir-Listed key_b-IsKey
