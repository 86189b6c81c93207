-- ===== src/Service/Requests.antt =====
-- service.rs: `validate_put_request` and the handlers of `MyLsmDb`. `host` and `io` are what the
-- machine and the system contribute, `io i` for the `i`-th write of a request.
use rusty_swift_merge.Base.{
  ℕ, suc, ◌-◌, Bool, Option, none, some, List, [], ◌∷◌, length, ltb, ◌==◌, if◌then◌else◌,
}
use Prim.Native.Nat.Ordering.{eq, gt}
use rusty_swift_merge.Base.Outcome.{
  Outcome, ok, err, panic, out_of_fuel, map_err, ◌>>◌ as then_check,
}
use rusty_swift_merge.Bytes.{Bytes, u32_mod}
use rusty_swift_merge.Bytes.Order.{cmp}
use rusty_swift_merge.BTreeMap.{BTreeMap}
use rusty_swift_merge.Entry.{TableEntry}
use rusty_swift_merge.Memtable.{MemtableError, missing_key, Host, Io}
use rusty_swift_merge.Memtable.Ops.{
  put, delete, get_entry, range, raw_bytes, update_config, shutdown, metrics,
}
use rusty_swift_merge.Lsm.{FileMap, read}
use rusty_swift_merge.Service.{
  Status, invalid_argument, empty_key, empty_value, key_too_large, value_too_large, range_order,
  db_error, disk_read_error, Handler, ◌>>=◌, ◌>>◌, respond, lift, call_mut, call, lock, PutRequest,
  GetRequest, RangeRequest, GetResponse, FilterParam, KeyValuePair, WriteMetrics, ReadStats,
}
use rusty_swift_merge.Service.Metadata.{internal_metadata, grpc_metadata, apply_filter}

abbrev pub ensure : Bool → Status → Outcome Status (Unit {0})
ensure bad e = if bad then err e else ok tt

unfoldable pub validate_put_request : PutRequest → Outcome Status (Unit {0})
validate_put_request req = then_check (ensure (length req.key == 0) (invalid_argument empty_key)) (
    then_check (ensure (length req.value == 0) (invalid_argument empty_value)) (
      then_check (ensure (ltb (u32_mod - 1) (length req.key)) (invalid_argument key_too_large))
        (ensure (ltb (u32_mod - 1) (length req.value)) (invalid_argument value_too_large))))

-- `TableEntry::new(value, Some(internal_metadata))`
unfoldable pub entry_of_request : PutRequest → TableEntry
entry_of_request req = record {
  value = req.value;
  meta_data = some (internal_metadata req.metadata []);
}

unfoldable pub put_request : Host → Io → PutRequest → Handler (Unit {0})
put_request host io req = do
  lift (validate_put_request req)
  lock
  call_mut (put host io req.key (entry_of_request req))

unfoldable pub delete_request : Host → Io → Bytes → Handler (Unit {0})
delete_request host io key = do lock; call_mut (delete host io key)

abbrev pub no_value : GetResponse
no_value = record { value = none; metadata = [] }

-- The answer for what the memtable has: a tombstone is `none`.
unfoldable pub found_in_memtable : Option FilterParam → Option TableEntry → GetResponse
found_in_memtable filter none = no_value
found_in_memtable filter (some entry) = record {
  value = some entry.value;
  metadata = apply_filter filter (grpc_metadata entry);
}

-- The answer for what the disk has: a value of one byte counts as a tombstone.
unfoldable pub found_on_disk : Option Bytes → GetResponse
found_on_disk none = no_value
found_on_disk (some value) =
    if length value == 1 then no_value else record { value = some value; metadata = [] }

-- The answer of the LSM reader.
unfoldable pub disk_answer : List FileMap → Bytes → Outcome Status GetResponse
disk_answer level_array key = elim (map_err disk_read_error (read level_array key)) [
  | ok found ↦ ok (found_on_disk found.value)
  | err e ↦ err e
  | panic ↦ panic
  | out_of_fuel ↦ out_of_fuel
]

-- What `get` makes of the memtable's answer: only a missing key is looked up on disk.
unfoldable pub answer : GetRequest → Outcome MemtableError (Option TableEntry) → Handler GetResponse
answer req (ok found) db = (ok (found_in_memtable req.filter found), db)
answer req (err missing_key) db = (disk_answer db.level_array req.key, db)
answer req (err e) db = (err (db_error e), db)
answer req panic db = (panic, db)
answer req out_of_fuel db = (out_of_fuel, db)

-- The memtable's result is taken out of the read guard as it is.
unfoldable pub get_request : GetRequest → Handler GetResponse
get_request req = do
  lock
  λ db. let r = get_entry req.key db.memtable in answer req r.0 (record db { memtable = r.1 })

unfoldable pub write_metrics : Handler WriteMetrics
write_metrics = do
  lock
  m ← call metrics
  respond (record {
    total_writes = m.0.memtable_writes;
    ss_table_count = m.1.ss_table_count;
    ss_table_merged = m.1.total_ss_tables_merged;
  })

unfoldable pub read_metrics : Handler ReadStats
read_metrics = do
  lock
  m ← call metrics
  respond (record {
    memtable_reads = m.0.memtable_reads;
    lsm_tree_reads = m.0.lsm_reads;
    total_misses = m.0.total_misses;
  })

unfoldable pub remove : List Bytes → Bytes → List Bytes
remove [] k = []
remove (j ∷ keys) k = let rest = remove keys k in elim (cmp j k) [ eq ↦ rest | _ ↦ j ∷ rest ]

-- The loop over the puts, with the keys that are still to be deleted and the number of writes so far.
unfoldable pub batch_puts :
    Host → (ℕ → Io) → ℕ → List PutRequest → List Bytes → Handler (ℕ × List Bytes)
batch_puts host io i [] delete_keys = respond (i, delete_keys)
batch_puts host io i (req ∷ puts) delete_keys = do
  call_mut (put host (io i) req.key (entry_of_request req))
  batch_puts host io (suc i) puts (remove delete_keys req.key)

unfoldable pub batch_deletes : Host → (ℕ → Io) → ℕ → List Bytes → Handler (Unit {0})
batch_deletes host io i [] = respond tt
batch_deletes host io i (key ∷ keys) = do
  call_mut (delete host (io i) key)
  batch_deletes host io (suc i) keys

-- `delete_keys` are the keys of the deletes as the hash set yields them; the requests of a batch are
-- not validated. The lock is unwrapped.
unfoldable pub batch_write : Host → (ℕ → Io) → List PutRequest → List Bytes → Handler (Unit {0})
batch_write host io puts delete_keys db =
    if db.poisoned
    then (panic, db)
    else (do left ← batch_puts host io 0 puts delete_keys; batch_deletes host io left.0 left.1) db

-- Tombstones are left out.
unfoldable pub range_results : BTreeMap (Option TableEntry) → List KeyValuePair
range_results [] = []
range_results ((key, none) ∷ m) = range_results m
range_results ((key, some entry) ∷ m) =
    record { key = key; value = entry.value; metadata = grpc_metadata entry } ∷ range_results m

unfoldable pub check_order : Bytes → Bytes → Outcome Status (Unit {0})
check_order start_key end_key = elim (cmp start_key end_key) [
  | gt ↦ err (invalid_argument range_order)
  | _ ↦ ok tt
]

-- The filter of the request is not looked at.
unfoldable pub range_request : RangeRequest → Handler (List KeyValuePair)
range_request req = do
  lift (check_order req.start_key req.end_key)
  lock
  results ← call (range req.start_key req.end_key)
  respond (range_results results)

-- The process exits a moment after the answer.
unfoldable pub graceful_shutdown : Handler (Unit {0})
graceful_shutdown = do lock; call_mut shutdown

unfoldable pub reload_config : Host → Io → Bytes → Handler (Unit {0})
reload_config host io json_config = do
  lock
  call_mut (update_config host io (raw_bytes json_config))
