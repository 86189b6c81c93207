-- ===== src/Service.antt =====
-- service.rs: `MyLsmDb` and the messages of contract.proto that its handlers take and give. A byte
-- string stands for a `bytes` field and for a `string`.
pub mod Metadata
pub mod Requests
pub mod Lookup
pub mod Effects
pub mod Batch
pub mod Start
pub mod Flushed
pub mod Disk
use rusty_swift_merge.Base.{ℕ, Bool, true, false, Option, List, if◌then◌else◌}
use rusty_swift_merge.Base.Outcome.{Outcome, ok, err, panic, out_of_fuel, map_err}
use rusty_swift_merge.Bytes.{Bytes}
use rusty_swift_merge.BTreeMap.{BTreeMap}
use rusty_swift_merge.Memtable.{Memtable, MemtableError, Exec}
use rusty_swift_merge.Lsm.{FileMap, LsmTreeError}

-- The arguments that `Status::invalid_argument` complains of.
pub data Argument : Type 0 where
  empty_key empty_value key_too_large value_too_large range_order : Argument

-- `Status::internal` is one of the others.
pub data Status : Type 0 where
  invalid_argument : Argument → Status
  lock_poisoned : Status
  db_error : MemtableError → Status
  disk_read_error : LsmTreeError → Status

-- The database: the memtable behind its lock, and the levels that the LSM reader has. The lock is
-- poisoned once a holder of its write guard has panicked.
pub record MyLsmDb : Type 0 where
  pub memtable : Memtable
  pub poisoned : Bool
  pub level_array : List FileMap

abbrev pub Handler {ℓ} : Type ℓ → Type ℓ
Handler A = MyLsmDb → Outcome Status A × MyLsmDb

abbrev pub panics {ℓ} : {A : Type ℓ} → Outcome MemtableError A → Bool
panics panic = true
panics (ok a) = false
panics (err e) = false
panics out_of_fuel = false

abbrev pub continue {ℓ κ} :
    {A : Type ℓ} {B : Type κ}
    → Outcome Status A
    → (A → MyLsmDb → Outcome Status B × MyLsmDb)
    → MyLsmDb
    → Outcome Status B × MyLsmDb
continue (ok a) f db = f a db
continue (err e) f db = (err e, db)
continue panic f db = (panic, db)
continue out_of_fuel f db = (out_of_fuel, db)

infixl 5 ◌>>=◌ ◌>>◌
abbrev pub ◌>>=◌ {ℓ κ} :
    {A : Type ℓ} {B : Type κ}
    → (MyLsmDb → Outcome Status A × MyLsmDb)
    → (A → MyLsmDb → Outcome Status B × MyLsmDb)
    → MyLsmDb
    → Outcome Status B × MyLsmDb
◌>>=◌ m f db = continue (m db).0 f (m db).1

abbrev pub ◌>>◌ {ℓ κ} :
    {A : Type ℓ} {B : Type κ}
    → (MyLsmDb → Outcome Status A × MyLsmDb)
    → (MyLsmDb → Outcome Status B × MyLsmDb)
    → MyLsmDb
    → Outcome Status B × MyLsmDb
m >> k = m >>= λ _. k

abbrev pub respond {ℓ} : {A : Type ℓ} → A → Handler A
respond a db = (ok a, db)

abbrev pub refuse {ℓ} : {A : Type ℓ} → Status → Handler A
refuse e db = (err e, db)

-- `?` on a result that is there already.
abbrev pub lift {ℓ} : {A : Type ℓ} → Outcome Status A → Handler A
lift r db = (r, db)

-- A call of the memtable under the write guard, which a panic poisons.
unfoldable pub call_mut {ℓ} : {A : Type ℓ} → Exec A → Handler A
call_mut call db =
    let r = call db.memtable in
    (map_err db_error r.0, record db { memtable = r.1; poisoned = panics r.0 })

-- A call under a read guard: the metrics have locks of their own, so the state may change all the
-- same. A panic does not poison.
unfoldable pub call {ℓ} : {A : Type ℓ} → Exec A → Handler A
call action db = let r = action db.memtable in (map_err db_error r.0, record db { memtable = r.1 })

-- `.map_err(|_| Status::internal("lock poisoned"))?`
unfoldable pub lock : Handler (Unit {0})
lock db = if db.poisoned then (err lock_poisoned, db) else (ok tt, db)

pub record TypeInfo : Type 0 where
  pub raw : Bytes
  -- the bits of an `i32`
  pub true_type : ℕ

-- A `map<string, TypeInfo>` as a request brings it: its entries, in the order in which the hash map
-- yields them.
pub record PutRequest : Type 0 where
  pub key : Bytes
  pub value : Bytes
  pub metadata : List (Bytes × TypeInfo)

pub record FilterParam : Type 0 where
  pub use_filter : Bool
  pub metadata_keys : List Bytes

pub record GetRequest : Type 0 where
  pub key : Bytes
  pub filter : Option FilterParam

pub record RangeRequest : Type 0 where
  pub start_key : Bytes
  pub end_key : Bytes
  pub filter : Option FilterParam

-- A map in a response, as its sorted entries.
pub record GetResponse : Type 0 where
  pub value : Option Bytes
  pub metadata : BTreeMap TypeInfo

pub record KeyValuePair : Type 0 where
  pub key : Bytes
  pub value : Bytes
  pub metadata : BTreeMap TypeInfo

pub record WriteMetrics : Type 0 where
  pub total_writes : ℕ
  pub ss_table_count : ℕ
  pub ss_table_merged : ℕ

pub record ReadStats : Type 0 where
  pub memtable_reads : ℕ
  pub lsm_tree_reads : ℕ
  pub total_misses : ℕ
