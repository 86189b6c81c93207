-- ===== src/Memtable/Ops.antt =====
-- memtable/mem.rs: the methods of `Memtable` and of `WalManager`.
use rusty_swift_merge.Base.{
  ℕ, ◌+◌, ◌-◌, ◌%◌, Bool, true, false, ◌||◌, Option, none, some, [], ◌∷◌, ◌++◌, length, take, ltb,
  leb, ◌==◌, if◌then◌else◌,
}
use Prim.Native.Nat.Ordering.{lt, gt}
use rusty_swift_merge.Base.Outcome.{Outcome, ok, err, panic, map_err, ◌>>=◌ as bind}
use rusty_swift_merge.Bytes.{Bytes, u32_mod, as_u32, as_u64}
use rusty_swift_merge.Bytes.Utf8.{is_utf8}
use rusty_swift_merge.Bytes.Order.{cmp}
use rusty_swift_merge.BTreeMap.{BTreeMap, get, insert}
use rusty_swift_merge.Entry.{TableEntry, to_wal_entry, entry_of}
use rusty_swift_merge.Config.{ConfigInfo, missing_config, invalid_format, validate, default_config}
use rusty_swift_merge.Table.Writer.{flush_buffer}
use rusty_swift_merge.Memtable.{
  Memtable, MemMetricTracker, DiskTreeMetricTracker, reset_memory_metrics, reset_disk_metrics,
  MemtableError, init_error, invariant, write_ahead_log, flush_err, missing_key, io_err, Host, Io,
  Exec, ◌>>=◌, ◌>>◌, gets, modify, raise, abort,
}

abbrev pub wal_io : MemtableError
wal_io = write_ahead_log io_err

-- `lock_or_error(&self.memory_metrics)?`
abbrev pub lock_or_error : Exec (Unit {0})
lock_or_error s = if s.metrics_poisoned then (err invariant, s) else (ok tt, s)

-- `self.config.as_ref().unwrap()`
abbrev pub unwrap_config : Exec ConfigInfo
unwrap_config s = elim s.config [ none ↦ (panic, s) | some c ↦ (ok c, s) ]

-- A system call that may fail with an `io::Error`.
abbrev pub check : Bool → Exec (Unit {0})
check fine s = if fine then (ok tt, s) else (err wal_io, s)

-- One `write` behind the end of the log: it may take a part of the entry only.
unfoldable pub write_entry : Io → Bytes → Exec (Unit {0})
write_entry io entry s = elim io.wal_write [
  | none ↦ (err wal_io, s)
  | some n ↦ (ok tt, record s { wal = s.wal ++ take n entry })
]

-- `set_len(0)`
unfoldable pub clear : Io → Exec (Unit {0})
clear io s = if io.wal_clear then (ok tt, record s { wal = [] }) else (err wal_io, s)

unfoldable pub get_existing_entry_size : Memtable → Bytes → Option ℕ
get_existing_entry_size s key = elim (get s.in_memory_repr key) [
  | none ↦ none
  | some v ↦ some (length (to_wal_entry key (entry_of v)))
]

-- `current_size_bytes` after an entry of `new_size` bytes, with the wrap of u32 arithmetic.
unfoldable pub resize : ℕ → Option ℕ → ℕ → ℕ
resize current none new_size = (current + new_size) % u32_mod
resize current (some old) new_size =
    let old_size = as_u32 old in
    if ltb old_size new_size
    then (current + (new_size - old_size)) % u32_mod
    else (current + u32_mod - (old_size - new_size)) % u32_mod

-- `File::create`, `write_all` and `sync_all` of the new table.
unfoldable pub store_file : Io → Bytes → Exec (Unit {0})
store_file io buffer s =
    if io.create_file
    then elim io.write_fails_at [
      | some n ↦ (err wal_io, record s { l1 = (io.file_name, take n buffer) ∷ s.l1 })
      | none ↦
          let s' = record s { l1 = (io.file_name, buffer) ∷ s.l1 } in
          if io.sync then (ok tt, s') else (err wal_io, s')
    ]
    else (err wal_io, s)

-- The state after a flush; the metrics are reset under `expect`.
unfoldable pub reset_state : Io → ConfigInfo → Exec (Unit {0})
reset_state io c s =
    let s' = record s {
      flush_by = io.later + c.ram_max_time;
      current_size_bytes = 0;
      in_memory_repr = [];
    } in
    if s.metrics_poisoned then (panic, s') else (
      ok tt,
      record s' {
        memory_metrics = record (reset_memory_metrics s.memory_metrics) {
          flush_duration = io.elapsed ∷ [];
        };
        disk_metrics = reset_disk_metrics s.disk_metrics;
      },
    )

-- `page_size / size` divides by the tracked size; tables go to the local disk only.
unfoldable pub write_table : Host → Io → ConfigInfo → Exec (Unit {0})
write_table h io c s =
    if s.current_size_bytes == 0
    then (panic, s)
    else if c.local_disk
    then store_file io
        (flush_buffer h.floats h.page_size c.bloom_false_positive_rate s.in_memory_repr) s
    else (panic, s)

abbrev pub is_empty {ℓ} : {V : Type ℓ} → BTreeMap V → Bool
is_empty [] = true
is_empty (e ∷ m) = false

-- The steps of `flush` behind its test for an empty tree.
unfoldable pub flush_contents : Host → Io → Exec (Unit {0})
flush_contents h io = do
  check io.create_dirs
  c ← unwrap_config
  write_table h io c
  clear io
  reset_state io c

unfoldable pub flush : Host → Io → Exec (Unit {0})
flush h io s = if is_empty s.in_memory_repr then (err flush_err, s) else flush_contents h io s

unfoldable pub should_flush : Io → Memtable → ConfigInfo → Bool
should_flush io s c = leb c.ram_max_size s.current_size_bytes || ltb s.flush_by io.now

abbrev pub count_flush : Memtable → Memtable
count_flush s = record s {
  memory_metrics = record (s.memory_metrics) {
    flush_counter = as_u64 (s.memory_metrics.flush_counter + 1);
  };
}

unfoldable pub flush_and_count : Host → Io → Exec (Unit {0})
flush_and_count h io = do flush h io; lock_or_error; modify count_flush

unfoldable pub manage_flush : Host → Io → Exec (Unit {0})
manage_flush h io = do
  c ← unwrap_config
  s ← gets (λ s. s)
  if should_flush io s c then flush_and_count h io else modify (λ s. s)

abbrev pub count_write : Memtable → Memtable
count_write s = record s {
  memory_metrics = record (s.memory_metrics) {
    memtable_writes = as_u64 (s.memory_metrics.memtable_writes + 1);
  };
}

abbrev pub log_if : Bool → Io → Bytes → Exec (Unit {0})
log_if enabled io entry = if enabled then write_entry io entry else modify (λ s. s)

abbrev pub record_entry : Bytes → Option TableEntry → Bytes → Memtable → Memtable
record_entry key slot entry s = record s {
  current_size_bytes =
      resize s.current_size_bytes (get_existing_entry_size s key) (as_u32 (length entry));
  in_memory_repr = insert s.in_memory_repr key slot;
}

-- The common body of `put` and `delete`, up to the flush.
unfoldable pub write_slot : Io → Bytes → Option TableEntry → Exec (Unit {0})
write_slot io key slot = do
  lock_or_error
  modify count_write
  c ← unwrap_config
  log_if c.wal_enabled io (to_wal_entry key (entry_of slot))
  modify (record_entry key slot (to_wal_entry key (entry_of slot)))

unfoldable pub put : Host → Io → Bytes → TableEntry → Exec (Unit {0})
put h io key value = do write_slot io key (some value); manage_flush h io

unfoldable pub delete : Host → Io → Bytes → Exec (Unit {0})
delete h io key = do write_slot io key none; manage_flush h io

abbrev pub count_read : Memtable → Memtable
count_read s = record s {
  memory_metrics = record (s.memory_metrics) {
    memtable_reads = as_u64 (s.memory_metrics.memtable_reads + 1);
  };
}

abbrev pub found_or_missing : Option (Option TableEntry) → Exec (Option TableEntry)
found_or_missing none = raise missing_key
found_or_missing (some v) = gets (λ s. v)

unfoldable pub get_entry : Bytes → Exec (Option TableEntry)
get_entry key = do
  lock_or_error
  modify count_read
  m ← gets (λ s. s.in_memory_repr)
  found_or_missing (get m key)

-- `BTreeMap::range(start..=end)`, for `start` not above `end`.
unfoldable pub range_entries {ℓ} : {V : Type ℓ} → BTreeMap V → Bytes → Bytes → BTreeMap V
range_entries [] start end = []
range_entries ((k, v) ∷ m) start end =
    let rest = range_entries m start end in
    elim (cmp k start) [ lt ↦ rest | _ ↦ elim (cmp k end) [ gt ↦ rest | _ ↦ (k, v) ∷ rest ] ]

-- `BTreeMap::range` panics where `start` is above `end`.
unfoldable pub range : Bytes → Bytes → Exec (BTreeMap (Option TableEntry))
range start end = do
  lock_or_error
  modify count_read
  m ← gets (λ s. s.in_memory_repr)
  elim (cmp start end) [ gt ↦ abort | _ ↦ gets (λ s. range_entries m start end) ]

-- What a configuration is read from: the text of a file (`none` if it cannot be read), bytes, or the
-- default.
pub data ConfigSource : Type 0 where
  file_source : Option Bytes → ConfigSource
  raw_bytes : Bytes → ConfigSource
  default : ConfigSource

-- A text that is not empty is parsed and validated.
unfoldable pub read_config : Host → Bytes → Outcome MemtableError ConfigInfo
read_config h text =
    if length text == 0
    then err (init_error missing_config)
    else map_err init_error (bind (h.parse_json text) (λ c. validate h.floats h.parallelism c))

unfoldable pub load_config : Host → ConfigSource → Outcome MemtableError ConfigInfo
load_config h (file_source none) = err (init_error missing_config)
load_config h (file_source (some text)) = read_config h text
load_config h (raw_bytes bytes) =
    if is_utf8 bytes then read_config h bytes else err (init_error invalid_format)
load_config h default = ok default_config

unfoldable pub update_config : Host → Io → ConfigSource → Exec (Unit {0})
update_config h io source = do
  c ← λ s. (load_config h source, s)
  modify (λ s. record s { config = some c; flush_by = io.now + c.ram_max_time })

-- `shutdown` only logs; a poisoned lock is an error.
unfoldable pub shutdown : Exec (Unit {0})
shutdown s = if s.metrics_poisoned then (err wal_io, s) else (ok tt, s)

-- `metrics` unwraps the locks.
unfoldable pub metrics : Exec (MemMetricTracker × DiskTreeMetricTracker)
metrics s = if s.metrics_poisoned then (panic, s) else (ok (s.memory_metrics, s.disk_metrics), s)
