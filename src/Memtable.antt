-- ===== src/Memtable.antt =====
-- memtable/mem.rs: `Memtable`, its errors and metrics, and the operations that change it. A method is
-- an action of `Exec`: what was changed before an `Err` or a panic stays changed. The files behind
-- it, the log `Wal.tmp` and the directory data/l1, are fields of the state.
pub mod Ops
pub mod Recovery
pub mod Replay
pub mod Durable
pub mod Views
pub mod Sizes
pub mod Writes
use rusty_swift_merge.Base.{ℕ, ◌+◌, ◌%◌, Bool, Option, none, some, List, []}
use rusty_swift_merge.Base.Outcome.{Outcome, ok, err, panic, out_of_fuel}
use rusty_swift_merge.Bytes.{Bytes, as_u64}
use rusty_swift_merge.BTreeMap.{BTreeMap}
use rusty_swift_merge.Floats.{Floats}
use rusty_swift_merge.Entry.{TableEntry, Malformed, DecodingError, io_error, malformed_data, empty}
use rusty_swift_merge.Config.{ConfigInfo, MemInitError}

pub record MemMetricTracker : Type 0 where
  pub memtable_reads : ℕ
  pub lsm_reads : ℕ
  pub ss_table_reads : ℕ
  pub total_misses : ℕ
  pub memtable_writes : ℕ
  pub flush_counter : ℕ
  pub flush_duration : List ℕ

pub record DiskTreeMetricTracker : Type 0 where
  pub total_ss_tables_merged : ℕ
  pub merge_output_size : List ℕ
  pub ss_table_count : ℕ

unfoldable pub reset_memory_metrics : MemMetricTracker → MemMetricTracker
reset_memory_metrics t = record {
  memtable_reads = 0;
  lsm_reads = 0;
  ss_table_reads = 0;
  total_misses = 0;
  memtable_writes = 0;
  flush_counter = 0;
  flush_duration = [];
}

unfoldable pub reset_disk_metrics : DiskTreeMetricTracker → DiskTreeMetricTracker
reset_disk_metrics t = record {
  total_ss_tables_merged = 0;
  merge_output_size = [];
  ss_table_count = 0;
}

-- `flush_by` is an instant in seconds; `metrics_poisoned` says that a holder of the metrics' mutexes
-- has panicked.
pub record Memtable : Type 0 where
  pub wal : Bytes
  pub l1 : List (Bytes × Bytes)
  pub in_memory_repr : BTreeMap (Option TableEntry)
  pub config : Option ConfigInfo
  pub memory_metrics : MemMetricTracker
  pub disk_metrics : DiskTreeMetricTracker
  pub metrics_poisoned : Bool
  pub flush_by : ℕ
  pub current_size_bytes : ℕ

-- The messages of `WalError::InvalidStructure`.
pub data InvalidStructure : Type 0 where
  key_length_zero key_too_long no_value_len value_too_long : InvalidStructure
  malformed : Malformed → InvalidStructure

pub data WalError : Type 0 where
  io_err : WalError
  invalid_structure : InvalidStructure → WalError
  empty_wal : WalError

pub data MemtableError : Type 0 where
  init_error : MemInitError → MemtableError
  invariant : MemtableError
  write_ahead_log : WalError → MemtableError
  flush_err : MemtableError
  missing_key : MemtableError

-- `impl From<DecodingError> for MemtableError`
unfoldable pub from_decoding_error : DecodingError → MemtableError
from_decoding_error io_error = write_ahead_log io_err
from_decoding_error empty = write_ahead_log empty_wal
from_decoding_error (malformed_data info) = write_ahead_log (invalid_structure (malformed info))

-- What the machine and the libraries contribute: the floats, `available_parallelism`, the page size
-- and `serde_json`'s reading of a configuration.
pub record Host : Type 0 where
  pub floats : Floats
  pub parallelism : ℕ
  pub page_size : ℕ
  pub parse_json : Bytes → Outcome MemInitError ConfigInfo

-- What the system answers during one call: the instants that it reads, how many bytes
-- `File::write` takes of a log entry (`none` on an error), which calls on data/l1 succeed, where
-- `write_all` of the table stops on an error, and the new file's name.
pub record Io : Type 0 where
  pub now : ℕ
  pub later : ℕ
  pub elapsed : ℕ
  pub wal_write : Option ℕ
  pub create_dirs : Bool
  pub create_file : Bool
  pub write_fails_at : Option ℕ
  pub sync : Bool
  pub wal_clear : Bool
  pub file_name : Bytes

abbrev pub Exec {ℓ} : Type ℓ → Type ℓ
Exec A = Memtable → Outcome MemtableError A × Memtable

abbrev pub continue {ℓ κ} :
    {A : Type ℓ} {B : Type κ}
    → Outcome MemtableError A
    → (A → Memtable → Outcome MemtableError B × Memtable)
    → Memtable
    → Outcome MemtableError B × Memtable
continue (ok a) f s = f a s
continue (err e) f s = (err e, s)
continue panic f s = (panic, s)
continue out_of_fuel f s = (out_of_fuel, s)

infixl 5 ◌>>=◌ ◌>>◌
abbrev pub ◌>>=◌ {ℓ κ} :
    {A : Type ℓ} {B : Type κ}
    → (Memtable → Outcome MemtableError A × Memtable)
    → (A → Memtable → Outcome MemtableError B × Memtable)
    → Memtable
    → Outcome MemtableError B × Memtable
◌>>=◌ m f s = continue (m s).0 f (m s).1

abbrev pub ◌>>◌ {ℓ κ} :
    {A : Type ℓ} {B : Type κ}
    → (Memtable → Outcome MemtableError A × Memtable)
    → (Memtable → Outcome MemtableError B × Memtable)
    → Memtable
    → Outcome MemtableError B × Memtable
m >> k = m >>= λ _. k

abbrev pub gets {ℓ} : {A : Type ℓ} → (Memtable → A) → Exec A
gets f s = (ok (f s), s)

abbrev pub modify : (Memtable → Memtable) → Exec (Unit {0})
modify f s = (ok tt, f s)

abbrev pub raise {ℓ} : {A : Type ℓ} → MemtableError → Exec A
raise e s = (err e, s)

abbrev pub abort {ℓ} : {A : Type ℓ} → Exec A
abort s = (panic, s)
