-- ===== src/Tests/Logs.antt =====
-- The theorems on the memtable and its log, at the test data.
use rusty_swift_merge.Base.{
  Option, if◌then◌else◌, ◌≡◌, refl, arith, none, some, List, [], ◌∷◌, All, inr,
}
use rusty_swift_merge.Base.Outcome.{ok}
use rusty_swift_merge.Bytes.{to_le_bytes}
use rusty_swift_merge.Bytes.Utf8.{is_utf8}
use rusty_swift_merge.Entry.{
  TableEntry, enum_variant_value, serialize_type_info, serialize_meta_data, serialize_map,
  serialize, wal_value, to_wal_entry,
}
use rusty_swift_merge.Config.{default_config}
use rusty_swift_merge.Memtable.{Memtable}
use rusty_swift_merge.Memtable.Ops.{
  range, should_flush, write_slot, write_entry, get_existing_entry_size, resize, put, delete,
}
use rusty_swift_merge.Memtable.Recovery.{replay, rebuild_memtable}
use rusty_swift_merge.Memtable.Replay.{Write, FitsWrite, log_of, apply_writes, replay-log_of}
use rusty_swift_merge.Memtable.Durable.{
  IsLogged, put-IsLogged, delete-IsLogged, rebuild_memtable-IsLogged,
}
use rusty_swift_merge.Memtable.Sizes.{entries_size, IsSized, put_and_delete-IsSized}
use rusty_swift_merge.Memtable.Views.{within, range-within}
use rusty_swift_merge.Memtable.Writes.{slot_after, IsSound, IsCalm, put-slot_after}
use rusty_swift_merge.BTreeMap.{BTreeMap, get, IsSorted}
use rusty_swift_merge.Bytes.Order.{cmp}
use rusty_swift_merge.Tests.{two_entries, key_a, key_b, entry_a, host, io_taking, fresh}

abbrev writes : List Write
writes = (key_a, some entry_a) ∷ (key_b, none) ∷ (key_a, none) ∷ []

entry_a-FitsWrite : FitsWrite (key_a, some entry_a)
unfolding is_utf8 serialize serialize_map serialize_meta_data serialize_type_info to_le_bytes
    enum_variant_value
entry_a-FitsWrite = (
  omega arith,
  omega arith,
  ((omega arith, ((tt, tt), ((omega arith, refl, omega arith), tt))), omega arith),
)

tombstone-FitsWrite : FitsWrite (key_b, none)
tombstone-FitsWrite = (omega arith, omega arith, tt)

writes-FitsWrite : All FitsWrite writes
writes-FitsWrite = (entry_a-FitsWrite, (tombstone-FitsWrite, ((omega arith, omega arith, tt), tt)))

replay-log_of_example : replay 100 (log_of writes) [] ≡ (ok tt, apply_writes [] writes)
replay-log_of_example = replay-log_of writes [] 100 writes-FitsWrite (
    unfold log_of to_wal_entry wal_value serialize serialize_map serialize_meta_data
      serialize_type_info to_le_bytes enum_variant_value in
    omega arith)

abbrev pub logged : Memtable
logged = record fresh { wal = log_of writes; in_memory_repr = apply_writes [] writes }

pub logged-IsLogged : IsLogged logged
logged-IsLogged = record { writes = writes; fit = writes-FitsWrite; logged = refl; built = refl }

put-IsLogged_example : IsLogged (put host (io_taking 27) key_a entry_a logged).1
put-IsLogged_example =
    put-IsLogged host (io_taking 27) key_a entry_a logged default_config refl refl
      (inr (
        unfold to_wal_entry wal_value serialize serialize_map serialize_meta_data
          serialize_type_info to_le_bytes enum_variant_value in
        refl))
      entry_a-FitsWrite logged-IsLogged

delete-IsLogged_example : IsLogged (delete host (io_taking 10) key_b logged).1
delete-IsLogged_example =
    delete-IsLogged host (io_taking 10) key_b logged default_config refl refl
      (inr (unfold to_wal_entry wal_value to_le_bytes in refl)) tombstone-FitsWrite logged-IsLogged

rebuild_memtable-IsLogged_example :
    ((rebuild_memtable logged.wal fresh).0 ≡ ok tt)
    × ((rebuild_memtable logged.wal fresh).1.in_memory_repr ≡ logged.in_memory_repr)
rebuild_memtable-IsLogged_example = rebuild_memtable-IsLogged logged fresh logged-IsLogged refl

abbrev fresh-IsSound : IsSound fresh
fresh-IsSound = record { config = default_config; configured = refl; locks = refl; sorted = tt }

put-IsCalm : IsCalm (io_taking 27) key_a (some entry_a) fresh default_config
unfolding should_flush write_slot write_entry get_existing_entry_size get resize to_wal_entry
    wal_value serialize serialize_map serialize_meta_data serialize_type_info to_le_bytes
    enum_variant_value
put-IsCalm = record { log = inr (27, refl); no_flush = refl }

put-slot_after_example :
    ((put host (io_taking 27) key_a entry_a fresh).0 ≡ ok tt)
    × (get (put host (io_taking 27) key_a entry_a fresh).1.in_memory_repr key_a
        ≡ slot_after key_a (some entry_a) fresh key_a)
put-slot_after_example =
    put-slot_after host (io_taking 27) key_a key_a entry_a fresh fresh-IsSound put-IsCalm

abbrev filled : Memtable
filled = record fresh { in_memory_repr = two_entries }

range-within_example :
    (m : BTreeMap (Option TableEntry)) × ((range key_a key_b filled).0 ≡ ok m)
    × IsSorted m
    × (get m key_b ≡ (if within key_a key_b key_b then get filled.in_memory_repr key_b else none))
range-within_example =
    range-within key_a key_b key_b filled refl (unfold cmp in λ e. cc)
      (unfold cmp in ((refl, tt), (tt, tt)))

-- The two entries take 27 and 10 bytes.
abbrev sized : Memtable
sized = record fresh { in_memory_repr = two_entries; current_size_bytes = 37 }

sized-IsSized : IsSized sized
unfolding entries_size to_wal_entry wal_value serialize serialize_map serialize_meta_data
    serialize_type_info to_le_bytes enum_variant_value
sized-IsSized = refl

put_and_delete-IsSized_example :
    IsSized (put host (io_taking 27) key_a entry_a sized).1
    × IsSized (delete host (io_taking 27) key_a sized).1
put_and_delete-IsSized_example =
    put_and_delete-IsSized host (io_taking 27) key_a entry_a sized sized-IsSized
