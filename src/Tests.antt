-- ===== src/Tests.antt =====
-- Test data: two writes, the memtable that they build, floats on bit patterns, and what the system
-- answers when nothing fails.
pub mod Files
pub mod Levels
pub mod Logs
pub mod Reads
pub mod Requests
pub mod Sections
pub mod Summaries
use rusty_swift_merge.Base.{
  ℕ, ◌+◌, ◌*◌, min, max, true, false, Option, none, some, List, [], ◌∷◌, ltb, ◌==◌, if◌then◌else◌,
}
use rusty_swift_merge.Base.Outcome.{ok}
use rusty_swift_merge.Bytes.{Bytes}
use rusty_swift_merge.BTreeMap.{BTreeMap}
use rusty_swift_merge.Floats.{Floats, sixteen}
use rusty_swift_merge.Entry.{TrueTypes, TypeInfoMetadata, TableEntry}
use rusty_swift_merge.Config.{ConfigInfo, default_config}
use rusty_swift_merge.Memtable.{Memtable, MemMetricTracker, DiskTreeMetricTracker, Host, Io}

abbrev pub key_a : Bytes
key_a = 97 ∷ []

abbrev pub key_b : Bytes
key_b = 98 ∷ []

abbrev pub entry_a : TableEntry
entry_a = record {
  value = 1 ∷ 2 ∷ [];
  meta_data = some ((key_a, record { raw = 7 ∷ []; true_type = TrueTypes.bool }) ∷ []);
}

abbrev pub two_entries : BTreeMap (Option TableEntry)
two_entries = (key_a, some entry_a) ∷ (key_b, none) ∷ []

-- Patterns of positive floats are ordered as the floats are; a number of probes is 16 or 2.
abbrev pub floats : Floats
floats = record {
  from_usize = λ n. n;
  to_u32 = λ x. if x == sixteen then 16 else 2;
  mul = λ x y. x * y;
  div = λ x y. x;
  sqrt = λ x. x;
  round = λ x. x;
  clamp = λ x low high. min high (max low x);
  lt = λ x y. ltb x y;
}

abbrev pub host : Host
host = record {
  floats = floats;
  parallelism = 8;
  page_size = 4096;
  parse_json = λ text. ok default_config;
}

-- Nothing fails, and the log takes an entry of `n` bytes.
abbrev pub io_taking : ℕ → Io
io_taking n = record {
  now = 100;
  later = 101;
  elapsed = 3;
  wal_write = some n;
  create_dirs = true;
  create_file = true;
  write_fails_at = none;
  sync = true;
  wal_clear = true;
  file_name = 116 ∷ [];
}

abbrev pub no_memory_metrics : MemMetricTracker
no_memory_metrics = record {
  memtable_reads = 0;
  lsm_reads = 0;
  ss_table_reads = 0;
  total_misses = 0;
  memtable_writes = 0;
  flush_counter = 0;
  flush_duration = [];
}

abbrev pub no_disk_metrics : DiskTreeMetricTracker
no_disk_metrics = record { total_ss_tables_merged = 0; merge_output_size = []; ss_table_count = 0 }

-- A fresh memtable under the default configuration.
abbrev pub fresh : Memtable
fresh = record {
  wal = [];
  l1 = [];
  in_memory_repr = [];
  config = some default_config;
  memory_metrics = no_memory_metrics;
  disk_metrics = no_disk_metrics;
  metrics_poisoned = false;
  flush_by = 700;
  current_size_bytes = 0;
}
