-- ===== src/Memtable/Recovery.antt =====
-- memtable/mem.rs: `Memtable::rebuild_memtable` and the start of `Memtable::new`. The cursor is the
-- rest of the log from it on.
use rusty_swift_merge.Base.{
  ℕ, zero, suc, Bool, false, Option, none, some, List, [], ◌∷◌, length, take, drop, ltb, leb, ◌==◌,
  if◌then◌else◌,
}
use rusty_swift_merge.Base.Outcome.{
  Outcome, ok, err, panic, out_of_fuel, map_err, ◌>>=◌, ◌>>◌, ◌>>=◌ as bind,
}
use rusty_swift_merge.Bytes.{Bytes, as_u32, from_le_bytes}
use rusty_swift_merge.BTreeMap.{BTreeMap, insert}
use rusty_swift_merge.Entry.{TableEntry, tomb_stone_byte_representation, deserialize}
use rusty_swift_merge.Memtable.{
  Memtable, MemMetricTracker, DiskTreeMetricTracker, MemtableError, write_ahead_log,
  invalid_structure, empty_wal, InvalidStructure, key_length_zero, key_too_long, no_value_len,
  value_too_long, from_decoding_error, Host, Io, Exec, ◌>>=◌ as exec_bind,
}
use rusty_swift_merge.Memtable.Ops.{ConfigSource, update_config, unwrap_config}

abbrev pub invalid {ℓ} : {A : Type ℓ} → InvalidStructure → Outcome MemtableError A
invalid what = err (write_ahead_log (invalid_structure what))

abbrev pub ensure : Bool → InvalidStructure → Outcome MemtableError (Unit {0})
ensure bad what = if bad then invalid what else ok tt

-- The slice `[curr_idx..curr_idx + 4]` is taken with no test before it.
unfoldable pub slice_u32 : Bytes → Outcome MemtableError ℕ
slice_u32 rest = if ltb (length rest) 4 then panic else ok (from_le_bytes (take 4 rest))

unfoldable pub is_tombstone_value : Bytes → Bool
is_tombstone_value (b ∷ []) = b == tomb_stone_byte_representation
is_tombstone_value _ = false

unfoldable pub decode_value : Bytes → Outcome MemtableError (Option TableEntry)
decode_value raw_value =
    if is_tombstone_value raw_value
    then ok none
    else bind (map_err from_decoding_error (deserialize raw_value)) (λ x. ok (some x))

-- One round of the loop: key-len | key | value-len | value. The tests on the key and on the value's
-- length want one more byte behind them.
unfoldable pub replay_entry : Bytes → Outcome MemtableError (Bytes × Option TableEntry × Bytes)
replay_entry rest = do
  key_len ← slice_u32 rest
  ensure (key_len == 0) key_length_zero
  let at_key = drop 4 rest
  ensure (leb (length at_key) key_len) key_too_long
  let at_len = drop key_len at_key
  ensure (leb (length at_len) 4) no_value_len
  let val_len = from_le_bytes (take 4 at_len)
  let at_value = drop 4 at_len
  ensure (ltb (length at_value) val_len) value_too_long
  entry ← decode_value (take val_len at_value)
  ok (take key_len at_key, entry, drop val_len at_value)

-- The loop, on the memtable's map; entries before a faulty one stay inserted.
unfoldable pub replay :
    ℕ
    → Bytes
    → BTreeMap (Option TableEntry)
    → Outcome MemtableError (Unit {0}) × BTreeMap (Option TableEntry)
replay fuel [] m = (ok tt, m)
replay zero (b ∷ bs) m = (out_of_fuel, m)
replay (suc fuel) (b ∷ bs) m = elim (replay_entry (b ∷ bs)) [
  | ok t ↦ replay fuel t.2 (insert m t.0 t.1)
  | err e ↦ (err e, m)
  | panic ↦ (panic, m)
  | out_of_fuel ↦ (out_of_fuel, m)
]

abbrev pub finish :
    ℕ → Outcome MemtableError (Unit {0}) × BTreeMap (Option TableEntry) → Exec (Unit {0})
finish size (ok done, m) s =
    (ok tt, record s { in_memory_repr = m; current_size_bytes = as_u32 size })
finish size (err e, m) s = (err e, record s { in_memory_repr = m })
finish size (panic, m) s = (panic, record s { in_memory_repr = m })
finish size (out_of_fuel, m) s = (out_of_fuel, record s { in_memory_repr = m })

-- A round takes nine bytes at least, so the log's length is fuel enough.
unfoldable pub rebuild_memtable : Bytes → Exec (Unit {0})
rebuild_memtable wal_content s =
    if length wal_content == 0
    then (ok tt, s)
    else if ltb (length wal_content) 4
    then (err (write_ahead_log empty_wal), s)
    else finish (length wal_content) (replay (length wal_content) wal_content s.in_memory_repr) s

-- The state before the configuration is read, over a log that could be opened and read.
unfoldable pub blank :
    Bytes → List (Bytes × Bytes) → MemMetricTracker → DiskTreeMetricTracker → ℕ → Memtable
blank wal l1 memory disk now = record {
  wal = wal;
  l1 = l1;
  in_memory_repr = [];
  config = none;
  memory_metrics = memory;
  disk_metrics = disk;
  metrics_poisoned = false;
  flush_by = now;
  current_size_bytes = 0;
}

abbrev rebuild_if : Bool → Bytes → Exec (Unit {0})
rebuild_if enabled wal_content s = if enabled then rebuild_memtable wal_content s else (ok tt, s)

-- `Memtable::new`: configure, then rebuild if the log is on.
unfoldable pub new : Host → Io → ConfigSource → Exec (Unit {0})
new h io source =
    exec_bind (update_config h io source)
      (λ u. exec_bind unwrap_config (λ c s. rebuild_if c.wal_enabled s.wal s))
