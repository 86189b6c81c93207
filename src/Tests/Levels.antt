-- ===== src/Tests/Levels.antt =====
-- The theorems on the directories of the levels, at small ones.
use rusty_swift_merge.Base.{
  ℕ, ◌≡◌, ◌≢◌, inl, inr, refl, arith, true, false, none, some, List, [], ◌∷◌, ◌++◌, map, replicate,
  length-replicate,
}
use rusty_swift_merge.Base.Outcome.{ok}
use rusty_swift_merge.Bytes.{Bytes}
use rusty_swift_merge.Bytes.Order.{cmp}
use rusty_swift_merge.BTreeMap.{BTreeMap, get, IsSorted}
use rusty_swift_merge.Bloom.Sound.{here, there}
use rusty_swift_merge.Floats.{one_twentieth}
use rusty_swift_merge.Table.{encode_data, encode_index, assemble}
use rusty_swift_merge.Table.Writer.{flush_buffer}
use rusty_swift_merge.Table.Lookup.{stored}
use rusty_swift_merge.Directory.{
  File, Directory, rsplit_dot, extension, find_file, strip_suffix, ends_with, ss_table_file_ext,
}
use rusty_swift_merge.Lsm.{FileMap, SearchResult, read}
use rusty_swift_merge.Lsm.Load.{is_bin, create_level_array}
use rusty_swift_merge.Lsm.Tables.{IsTable, section}
use rusty_swift_merge.Lsm.Items.{Item, listing, value_in, tables}
use rusty_swift_merge.Lsm.Reload.{read-create_level_array, read_missing-create_level_array}
use rusty_swift_merge.Lsm.Sources.{flush_buffer-IsTable}
use rusty_swift_merge.Compaction.Build.{build_from_data_section}
use rusty_swift_merge.Compaction.Tables.{table-Holds}
use rusty_swift_merge.Compaction.Files.{Machine, compact, compaction_unit, output_name, digits}
use rusty_swift_merge.Compaction.Names.{ending}
use rusty_swift_merge.Compaction.TableNames.{output_stem}
use mathlib.Core.List.{Perm}
use rusty_swift_merge.Compaction.Pairs.{Source, Reads}
use rusty_swift_merge.Compaction.FirstLive.{first_live, Apart}
use rusty_swift_merge.Compaction.Rounds.{Inputs}
use rusty_swift_merge.Compaction.Cleared.{Cleared}
use rusty_swift_merge.Compaction.Whole.{named, built, compact-first_live, compact_spares}
use rusty_swift_merge.Compaction.Tier.{
  Levels, table_name, replace, starts_with, move_up, newest_first,
}
use rusty_swift_merge.Compaction.Promotion.{
  Selects, in_next, move_up_replaces, NewestFirst, newest_first_lem,
}
use rusty_swift_merge.Entry.{serialize}
use rusty_swift_merge.Service.{GetResponse}
use rusty_swift_merge.Service.Requests.{disk_answer}
use rusty_swift_merge.Service.Disk.{disk_answer-serialize}
use rusty_swift_merge.Tests.{key_a, key_b, entry_a, two_entries, floats}
use rusty_swift_merge.Tests.Files.{two_entries-FitsTable}
use rusty_swift_merge.Tests.Sections.{
  newer, older, newer-IsSorted, older-IsSorted, newer-FitsData, older-FitsData,
}

abbrev a_bin : Bytes
a_bin = key_a ++ ss_table_file_ext

abbrev b_bin : Bytes
b_bin = key_b ++ ss_table_file_ext

-- A flushed table, and a file that is not one.
abbrev flushed : File
flushed = record {
  content = flush_buffer floats 4096 one_twentieth two_entries;
  created = 5000000000;
}

a_bin-is_bin : is_bin a_bin ≡ true
unfolding is_bin extension rsplit_dot cmp
a_bin-is_bin = refl

key_b-is_bin : is_bin key_b ≡ false
unfolding is_bin extension rsplit_dot
key_b-is_bin = refl

flushed-IsTable :
    (t : IsTable (flush_buffer floats 4096 one_twentieth two_entries)) × ((q : Bytes)
      → get (section t) q ≡ stored (get two_entries q))
flushed-IsTable =
    flush_buffer-IsTable floats one_twentieth 4096 key_a (some entry_a) ((key_b, none) ∷ [])
      two_entries-FitsTable

abbrev flushed_item : Item
flushed_item = record {
  name = a_bin;
  file = flushed;
  reads = inr (a_bin-is_bin, flushed-IsTable.0);
}

abbrev other_item : Item
other_item = record {
  name = key_b;
  file = record { content = []; created = 0 };
  reads = inl key_b-is_bin;
}

value_of_key_a : value_in key_a flushed_item ≡ stored (get two_entries key_a)
value_of_key_a = flushed-IsTable.1 key_a

read-create_level_array_example :
    (levels : List FileMap) × (create_level_array
        (map (λ items. listing items) ([] ∷ (other_item ∷ flushed_item ∷ []) ∷ []))
      ≡ ok levels)
    × (r : SearchResult) × (read levels key_a ≡ ok r)
    × (r.value ≡ stored (get two_entries key_a))
unfolding get cmp tables
read-create_level_array_example =
    read-create_level_array key_a ([] ∷ []) (other_item ∷ flushed_item ∷ []) [] flushed_item _
      (tt, ((unfold tables in (tt, tt)), tt)) (tt, tt) (there here) value_of_key_a
      (inl refl, (inr (inl value_of_key_a), tt))

read_missing-create_level_array_example :
    (levels : List FileMap) × (create_level_array
        (map (λ items. listing items) ((other_item ∷ []) ∷ []))
      ≡ ok levels)
    × (r : SearchResult) × (read levels key_a ≡ ok r)
    × (r.value ≡ none)
read_missing-create_level_array_example =
    read_missing-create_level_array key_a ((other_item ∷ []) ∷ []) ((unfold tables in tt), tt)
      ((refl, tt), tt)

-- Two tables of the same two keys, and a file that the compaction does not touch.
abbrev content_with : BTreeMap Bytes → Bytes
content_with entries = assemble (replicate 1000 0) [] (encode_data entries) key_b

abbrev level_dir : Directory
level_dir =
    (a_bin, record { content = content_with newer; created = 9 })
    ∷ (b_bin, record { content = content_with older; created = 5 })
    ∷ (key_b, record { content = []; created = 7 })
    ∷ []

abbrev newer_source : Source
newer_source = record { name = a_bin; entries = newer }

abbrev older_source : Source
older_source = record { name = b_bin; entries = older }

newer_source-Reads : Reads level_dir newer_source
unfolding find_file ends_with strip_suffix cmp
newer_source-Reads = record {
  file = record { content = content_with newer; created = 9 };
  found = refl;
  holds =
      table-Holds (replicate 1000 0) [] newer key_b (length-replicate {A = ℕ} 1000 0) newer-FitsData
        (omega arith) (unfold encode_index in omega arith);
  sorted = newer-IsSorted;
}

older_source-Reads : Reads level_dir older_source
unfolding find_file ends_with strip_suffix cmp
older_source-Reads = record {
  file = record { content = content_with older; created = 5 };
  found = refl;
  holds =
      table-Holds (replicate 1000 0) [] older key_b (length-replicate {A = ℕ} 1000 0) older-FitsData
        (omega arith) (unfold encode_index in omega arith);
  sorted = older-IsSorted;
}

abbrev pub machine : Machine
machine = record { floats = floats; clock = λ name. 11; torn = λ name. [] }

sources-Inputs : Inputs machine 0 0 level_dir (newer_source ∷ older_source ∷ [])
sources-Inputs =
    ((inl (key_a, refl), newer_source-Reads), ((inl (key_b, refl), older_source-Reads), tt))

sources-Apart : Apart (newer_source ∷ older_source ∷ [])
unfolding cmp
sources-Apart = ((refl, tt), (tt, tt))

compact-first_live_example :
    (merged : BTreeMap Bytes) × IsSorted merged
    × ((q : Bytes) → get merged q ≡ first_live (newer_source ∷ older_source ∷ []) q)
    × (name : Bytes) × ((compact machine 0 2 one_twentieth (a_bin ∷ b_bin ∷ []) level_dir).0
        ≡ named name (build_from_data_section floats (encode_data merged) 2 one_twentieth))
    × (file : File) × (find_file
          (compact machine 0 2 one_twentieth (a_bin ∷ b_bin ∷ []) level_dir).1
          name
        ≡ some file)
    × (file.content
        ≡ built
            (encode_data merged)
            (build_from_data_section floats (encode_data merged) 2 one_twentieth))
    × Cleared
        (build_from_data_section floats (encode_data merged) 2 one_twentieth)
        level_dir
        (compact machine 0 2 one_twentieth (a_bin ∷ b_bin ∷ []) level_dir).1
        name
        (newer_source ∷ older_source ∷ [])
compact-first_live_example =
    compact-first_live machine 0 2 one_twentieth level_dir newer_source older_source []
      sources-Inputs sources-Apart

compact_spares_example :
    find_file (compact machine 0 2 one_twentieth (a_bin ∷ b_bin ∷ []) level_dir).1 key_b
    ≡ find_file level_dir key_b
compact_spares_example =
    compact_spares machine 0 2 one_twentieth level_dir newer_source older_source [] key_b
      sources-Inputs sources-Apart (unfold cmp ending in ((refl, (refl, tt)), λ e. cc))
      (unfold ending in λ e. cc)

-- An output, whose name as a table the next level has already.
abbrev two_levels : Levels
two_levels = record {
  current = (output_name 0 0 0, record { content = 1 ∷ []; created = 9 }) ∷ [];
  next =
      some
        ((output_stem 0 0 0 ++ ss_table_file_ext, record { content = 2 ∷ []; created = 5 }) ∷ []);
}

-- "compaction_unit10_pass0_2.bin"
table_name_test :
    table_name (output_name 10 0 2)
    ≡ compaction_unit
      ++ 49 ∷ 48 ∷ 95 ∷ 112 ∷ 97 ∷ 115 ∷ 115 ∷ 48 ∷ 95 ∷ 50 ∷ 46 ∷ 98 ∷ 105 ∷ 110 ∷ []
unfolding replace starts_with cmp output_name digits
table_name_test = refl

move_up_replaces_example :
    let after = move_up (output_name 0 0 0) two_levels in
    (after.0 ≡ ok tt)
    × (find_file after.1.current (output_name 0 0 0) ≡ none)
    × (in_next after.1 (output_stem 0 0 0 ++ ss_table_file_ext)
        ≡ some (record { content = 1 ∷ []; created = 9 }))
    × (find_file after.1.current key_b ≡ find_file two_levels.current key_b)
    × (in_next after.1 key_b ≡ in_next two_levels key_b)
move_up_replaces_example =
    move_up_replaces 0 0 0 key_b two_levels (record { content = 1 ∷ []; created = 9 })
      (unfold find_file cmp output_name digits in refl) (unfold cmp output_name digits in refl)
      (unfold cmp digits in refl)

newest_first_lem_example :
    (tables : Directory) × Selects level_dir tables
    × Perm (newest_first level_dir) tables
    × NewestFirst (newest_first level_dir)
newest_first_lem_example = newest_first_lem level_dir

-- What is loaded of the flushed table, and what it says of its entry.
entry_loaded :
    (levels : List FileMap) × (create_level_array
        (map (λ items. listing items) ((flushed_item ∷ []) ∷ []))
      ≡ ok levels)
    × (r : SearchResult) × (read levels key_a ≡ ok r)
    × (r.value ≡ stored (some (some entry_a)))
unfolding get cmp tables
entry_loaded =
    read-create_level_array key_a [] (flushed_item ∷ []) [] flushed_item _ ((tt, tt), tt) tt here
      value_of_key_a (inr (inl value_of_key_a), tt)

disk_answer-serialize_example :
    (response : GetResponse) × (disk_answer entry_loaded.0 key_a ≡ ok response)
    × (response.value ≡ some (serialize entry_a))
    × (serialize entry_a ≢ entry_a.value)
    × (response.metadata ≡ [])
disk_answer-serialize_example =
    disk_answer-serialize entry_loaded.0 key_a entry_a entry_loaded.2 entry_loaded.3 entry_loaded.4
