-- ===== src/Config.antt =====
-- memtable/mem.rs: `ConfigInfo` and `ConfigInfo::validate`, with the limits of config.md.
pub mod Valid
use rusty_swift_merge.Base.{ℕ, ◌*◌, ◌%◌, min, Bool, ◌||◌, ltb, if◌then◌else◌}
use rusty_swift_merge.Base.Outcome.{Outcome, ok, err, ◌>>=◌, ◌>>◌}
use rusty_swift_merge.Floats.{Floats, one_thousandth, one_twentieth, one_tenth}

pub record ConfigInfo : Type 0 where
  pub ram_max_size : ℕ
  pub ram_max_time : ℕ
  pub target_chunks : ℕ
  pub compaction_check_interval_seconds : ℕ
  pub wal_enabled : Bool
  -- the bit pattern of an `f64`
  pub bloom_false_positive_rate : ℕ
  pub max_compaction_threads : ℕ
  pub local_disk : Bool

-- The keys that `MemInitError::InvalidArgument` names.
pub data ConfigKey : Type 0 where
  ram_max_size ram_max_time target_chunks compaction_check_interval_seconds : ConfigKey
  bloom_false_positive_rate max_compaction_threads : ConfigKey

pub data MemInitError : Type 0 where
  missing_key : MemInitError
  invalid_argument : ConfigKey → MemInitError
  missing_config : MemInitError
  invalid_format : MemInitError

abbrev pub kilobyte : ℕ
kilobyte = 1024

abbrev pub megabyte : ℕ
megabyte = kilobyte * kilobyte

abbrev pub guard : Bool → ConfigKey → Outcome MemInitError (Unit {0})
guard bad key = if bad then err (invalid_argument key) else ok tt

-- `parallelism` is what `available_parallelism()` reports.
unfoldable pub validate : Floats → ℕ → ConfigInfo → Outcome MemInitError ConfigInfo
validate f parallelism c = do
  guard (ltb c.ram_max_size kilobyte || ltb (megabyte * 2048) c.ram_max_size) ConfigKey.ram_max_size
  guard (ltb c.ram_max_time 10 || ltb 10080 c.ram_max_time) ConfigKey.ram_max_time
  guard (ltb c.target_chunks 2 || ltb 128 c.target_chunks) ConfigKey.target_chunks
  guard
      (ltb c.compaction_check_interval_seconds 1
        || ltb (60 * 60 * 4) c.compaction_check_interval_seconds)
      ConfigKey.compaction_check_interval_seconds
  guard
      (f.lt c.bloom_false_positive_rate one_thousandth
        || f.lt one_tenth c.bloom_false_positive_rate)
      ConfigKey.bloom_false_positive_rate
  guard (ltb c.max_compaction_threads 1) ConfigKey.max_compaction_threads
  ok (record c { max_compaction_threads = min c.max_compaction_threads (parallelism % 256) })

-- `ConfigSource::Default()`
abbrev pub default_config : ConfigInfo
default_config = record {
  ram_max_size = 512 * 1024;
  ram_max_time = 600;
  target_chunks = 4;
  compaction_check_interval_seconds = 3600;
  wal_enabled = Bool.true;
  bloom_false_positive_rate = one_twentieth;
  max_compaction_threads = 2;
  local_disk = Bool.true;
}
