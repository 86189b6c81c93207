-- ===== src/Tests/Requests.antt =====
-- The theorems on the service, at a database over the fresh memtable.
use rusty_swift_merge.Base.{
  ◌<◌, ◌≡◌, ◌↔◌, refl, true, false, none, some, List, [], ◌∷◌, inr, if◌then◌else◌, length,
}
use rusty_swift_merge.Base.Outcome.{ok}
use rusty_swift_merge.Bytes.{Bytes, to_le_bytes, u32_mod}
use rusty_swift_merge.Bytes.Order.{cmp}
use rusty_swift_merge.BTreeMap.{get, insert}
use rusty_swift_merge.Entry.{
  enum_variant_value, serialize_type_info, serialize_meta_data, serialize_map, serialize, wal_value,
  to_wal_entry,
}
use rusty_swift_merge.Config.{default_config}
use rusty_swift_merge.Memtable.Ops.{
  ConfigSource, load_config, put, manage_flush, flush_and_count, flush, flush_contents, write_table,
  store_file, clear, reset_state, should_flush, write_slot, write_entry, get_existing_entry_size,
  resize,
}
use rusty_swift_merge.Memtable.Views.{within}
use rusty_swift_merge.Memtable.Writes.{IsCalm}
use rusty_swift_merge.Tests.Logs.{logged, logged-IsLogged}
use rusty_swift_merge.Service.{
  lock, call_mut, MyLsmDb, PutRequest, RangeRequest, GetResponse, KeyValuePair,
}
use rusty_swift_merge.Service.Metadata.{internal_metadata, true_type_of}
use rusty_swift_merge.Service.Metadata.Lookup.{canonical, requested, map_or, allowed}
use rusty_swift_merge.Service.Requests.{
  validate_put_request, entry_of_request, put_request, delete_request, no_value, disk_answer,
  get_request, range_request, batch_write, remove,
}
use rusty_swift_merge.Service.Lookup.{
  response, IsServing, validate_put_request_iff, put_request-get_request,
}
use rusty_swift_merge.Service.Effects.{
  put_request-get_request_ne, delete_request-get_request, find_pair, pair_of, Ascending,
  range_request-within,
}
use rusty_swift_merge.Lsm.Load.{create_level_array}
use rusty_swift_merge.Service.Flushed.{put_request_flushed}
use rusty_swift_merge.Service.Start.{start, start-get_request}
use rusty_swift_merge.Service.Batch.{batch_slot, left_keys, batch_write-batch_slot}
use rusty_swift_merge.Tests.{
  no_memory_metrics, no_disk_metrics, key_a, key_b, two_entries, host, io_taking, fresh,
}

abbrev db : MyLsmDb
db = record { memtable = fresh; poisoned = false; level_array = [] }

abbrev db-IsServing : IsServing db
db-IsServing = record {
  sound = record { config = default_config; configured = refl; locks = refl; sorted = tt };
  lock_whole = refl;
}

abbrev put_of : Bytes → PutRequest
put_of key = record {
  key = key;
  value = 1 ∷ 2 ∷ [];
  metadata = (key_a, record { raw = 7 ∷ []; true_type = 1 }) ∷ [];
}

put_of-valid : validate_put_request (put_of key_a) ≡ ok tt
unfolding validate_put_request
put_of-valid = refl

put-IsCalm :
    IsCalm (io_taking 27) key_a (some (entry_of_request (put_of key_a))) fresh default_config
unfolding should_flush write_slot write_entry get_existing_entry_size get resize to_wal_entry
    wal_value serialize serialize_map serialize_meta_data serialize_type_info to_le_bytes
    enum_variant_value entry_of_request internal_metadata insert true_type_of
put-IsCalm = record { log = inr (27, refl); no_flush = refl }

delete-IsCalm : IsCalm (io_taking 10) key_a none fresh default_config
unfolding should_flush write_slot write_entry get_existing_entry_size get resize to_wal_entry
    wal_value to_le_bytes
delete-IsCalm = record { log = inr (10, refl); no_flush = refl }

put_request-get_request_example :
    ((put_request host (io_taking 27) (put_of key_a) db).0 ≡ ok tt)
    × (response : GetResponse) × ((get_request
          (record { key = key_a; filter = none })
          (put_request host (io_taking 27) (put_of key_a) db).1).0
        ≡ ok response)
    × (response.value ≡ some (1 ∷ 2 ∷ []))
    × (get response.metadata key_a ≡ (
        if allowed none key_a
        then map_or canonical (requested (put_of key_a).metadata key_a) none
        else none))
put_request-get_request_example =
    put_request-get_request host (io_taking 27) (put_of key_a) none db key_a db-IsServing
      put_of-valid put-IsCalm

validate_put_request_iff_example : (validate_put_request (put_of key_a) ≡ ok tt) ↔ (
    (0 < length key_a)
    × (length key_a < u32_mod)
    × (0 < length (put_of key_a).value)
    × (length (put_of key_a).value < u32_mod))
validate_put_request_iff_example = validate_put_request_iff (put_of key_a)

put_request-get_request_ne_example :
    (get_request
      (record { key = key_b; filter = none })
      (put_request host (io_taking 27) (put_of key_a) db).1).0
    ≡ (get_request (record { key = key_b; filter = none }) db).0
put_request-get_request_ne_example =
    put_request-get_request_ne host (io_taking 27) (put_of key_a)
      (record { key = key_b; filter = none }) db db-IsServing put_of-valid put-IsCalm
      (unfold cmp in λ e. cc)

delete_request-get_request_example :
    ((delete_request host (io_taking 10) key_a db).0 ≡ ok tt)
    × ((get_request
          (record { key = key_a; filter = none })
          (delete_request host (io_taking 10) key_a db).1).0
        ≡ ok no_value)
delete_request-get_request_example =
    delete_request-get_request host (io_taking 10) (record { key = key_a; filter = none }) db
      db-IsServing delete-IsCalm

abbrev filled_db : MyLsmDb
filled_db = record db { memtable = record fresh { in_memory_repr = two_entries } }

abbrev filled_db-IsServing : IsServing filled_db
filled_db-IsServing = record {
  sound = record {
    config = default_config;
    configured = refl;
    locks = refl;
    sorted = unfold cmp in ((refl, tt), (tt, tt));
  };
  lock_whole = refl;
}

-- A request that asks for metadata under one key only.
abbrev filtered_range : RangeRequest
filtered_range = record {
  start_key = key_a;
  end_key = key_b;
  filter = some (record { use_filter = true; metadata_keys = key_b ∷ [] });
}

range_request-within_example :
    (pairs : List KeyValuePair) × ((range_request filtered_range filled_db).0 ≡ ok pairs)
    × Ascending pairs
    × (find_pair pairs key_a
        ≡ (if within key_a key_b key_a then pair_of key_a (get two_entries key_a) else none))
range_request-within_example =
    range_request-within filtered_range key_a filled_db filled_db-IsServing (unfold cmp in λ e. cc)

-- One put, whose key is among the deletes.
batch_write-batch_slot_example :
    ((batch_write host (λ i. io_taking 27) (put_of key_a ∷ []) (key_a ∷ []) db).0 ≡ ok tt)
    × (get
          (batch_write host
            (λ i. io_taking 27)
            (put_of key_a ∷ [])
            (key_a ∷ [])
            db).1.memtable.in_memory_repr
          key_a
        ≡ batch_slot (put_of key_a ∷ []) (key_a ∷ []) key_a (get db.memtable.in_memory_repr key_a))
batch_write-batch_slot_example =
    batch_write-batch_slot host (λ i. io_taking 27) (put_of key_a ∷ []) (key_a ∷ []) db key_a
      db-IsServing (put-IsCalm, tt) (unfold left_keys remove cmp in tt)

-- The time to flush has passed.
abbrev due_db : MyLsmDb
due_db = record db { memtable = record fresh { flush_by = 0 } }

abbrev due_db-IsServing : IsServing due_db
due_db-IsServing = record {
  sound = record { config = default_config; configured = refl; locks = refl; sorted = tt };
  lock_whole = refl;
}

put_request_flushed_example :
    (get_request
      (record { key = key_a; filter = none })
      (put_request host (io_taking 27) (put_of key_a) due_db).1).0
    ≡ disk_answer [] key_a
unfolding resize get_existing_entry_size get to_wal_entry to_le_bytes wal_value serialize
    entry_of_request serialize_map serialize_meta_data internal_metadata insert serialize_type_info
put_request_flushed_example =
    put_request_flushed host (io_taking 27) (put_of key_a) (record { key = key_a; filter = none })
      due_db due_db-IsServing put_of-valid (inr (27, refl))
      (unfold should_flush write_slot write_entry in refl)
      (unfold put_request validate_put_request lock call_mut put write_slot write_entry manage_flush
          should_flush flush_and_count flush flush_contents write_table store_file clear reset_state
          insert in
        refl)

start-get_request_example :
    (started : MyLsmDb) × (start host
        (io_taking 27)
        ConfigSource.default
        logged.wal
        []
        no_memory_metrics
        no_disk_metrics
        []
      ≡ ok started)
    × ((get_request (record { key = key_a; filter = none }) started).0
        ≡ response (record { key = key_a; filter = none }) [] (get logged.in_memory_repr key_a))
start-get_request_example =
    start-get_request host (io_taking 27) ConfigSource.default logged [] no_memory_metrics
      no_disk_metrics [] (record { key = key_a; filter = none }) default_config [] logged-IsLogged
      (unfold load_config in refl) refl (unfold create_level_array in refl)
