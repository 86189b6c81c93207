-- ===== src/Config/Valid.antt =====
-- The configurations that `validate` accepts, and what it makes of them.
use rusty_swift_merge.Base.{ℕ, ◌%◌, ◌≤◌, ◌<◌, ◌≡◌, ◌↔◌, min, arith, false}
use rusty_swift_merge.Base.Outcome.{ok}
use rusty_swift_merge.Floats.{Floats, one_thousandth, one_tenth}
use rusty_swift_merge.Config.{ConfigInfo, validate}

-- The ranges of config.md, apart from the upper end that it gives for the threads; a rate is in range
-- when neither float comparison says otherwise.
pub record InRange (f : Floats) (c : ConfigInfo) : Type 0 where
  pub ram_max_size_low : 1024 ≤ c.ram_max_size
  pub ram_max_size_high : c.ram_max_size ≤ 2147483648
  pub ram_max_time_low : 10 ≤ c.ram_max_time
  pub ram_max_time_high : c.ram_max_time ≤ 10080
  pub target_chunks_low : 2 ≤ c.target_chunks
  pub target_chunks_high : c.target_chunks ≤ 128
  pub interval_low : 1 ≤ c.compaction_check_interval_seconds
  pub interval_high : c.compaction_check_interval_seconds ≤ 14400
  pub rate_low : f.lt c.bloom_false_positive_rate one_thousandth ≡ false
  pub rate_high : f.lt one_tenth c.bloom_false_positive_rate ≡ false
  pub threads : 1 ≤ c.max_compaction_threads

-- A configuration passes exactly when it is in range, where a thread count has no upper end, and only
-- the thread count of what is returned may differ from it: it is cut to the parallelism, taken as a
-- u8, which makes it 0 where the parallelism is a multiple of 256.
pub validate_iff :
    (f : Floats) (parallelism : ℕ) (c c' : ConfigInfo)
    → (validate f parallelism c ≡ ok c') ↔ (
        InRange f c
        × (c' ≡ record c {
          max_compaction_threads = min c.max_compaction_threads (parallelism % 256);
        }))
unfolding validate
validate_iff f parallelism c c' = (λ h. ground arith, λ h. ground arith)

-- What passes on a machine of 1 to 255 processors is in range afterwards, with a thread count that is
-- at most the number of processors, as config.md asks.
pub validate-InRange :
    (f : Floats) (parallelism : ℕ) (c c' : ConfigInfo)
    → 1 ≤ parallelism
    → parallelism < 256
    → validate f parallelism c ≡ ok c'
    → InRange f c' × (c'.max_compaction_threads ≤ parallelism)
validate-InRange f parallelism c c' low high h =
    let (r, e) = (validate_iff f parallelism c c').0 h in
    rw e (
      record {
        ram_max_size_low = r.ram_max_size_low;
        ram_max_size_high = r.ram_max_size_high;
        ram_max_time_low = r.ram_max_time_low;
        ram_max_time_high = r.ram_max_time_high;
        target_chunks_low = r.target_chunks_low;
        target_chunks_high = r.target_chunks_high;
        interval_low = r.interval_low;
        interval_high = r.interval_high;
        rate_low = r.rate_low;
        rate_high = r.rate_high;
        threads = omega (arith, r.threads, low, high);
      },
      omega (arith, low, high),
    )
