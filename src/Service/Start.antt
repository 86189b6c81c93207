-- ===== src/Service/Start.antt =====
-- main.rs: the memtable and the LSM reader that the server starts with, and what it then answers.
use rusty_swift_merge.Base.{
  ℕ, ◌+◌, ◌≡◌, refl, ap, ◌∙◌, arith, true, false, Option, some, List, length,
}
use rusty_swift_merge.Base.Outcome.{Outcome, ok, err, panic, out_of_fuel, map_err, ◌>>=◌}
use rusty_swift_merge.Bytes.{Bytes}
use rusty_swift_merge.BTreeMap.{BTreeMap, get}
use rusty_swift_merge.Entry.{TableEntry}
use rusty_swift_merge.Config.{ConfigInfo}
use rusty_swift_merge.Directory.{Directory}
use rusty_swift_merge.Memtable.{
  Memtable, MemMetricTracker, DiskTreeMetricTracker, MemtableError, Host, Io,
}
use rusty_swift_merge.Memtable.Ops.{ConfigSource, load_config, update_config}
use rusty_swift_merge.Memtable.Recovery.{blank, new, rebuild_memtable, replay, finish}
use rusty_swift_merge.Memtable.Durable.{IsLogged, rebuild_memtable-IsLogged}
use rusty_swift_merge.Lsm.{FileMap, LsmTreeError}
use rusty_swift_merge.Lsm.Load.{create_level_array}
use rusty_swift_merge.Service.{MyLsmDb, GetRequest}
use rusty_swift_merge.Service.Requests.{get_request}
use rusty_swift_merge.Service.Lookup.{response, get_request-response}

pub data StartError : Type 0 where
  memtable_failed : MemtableError → StartError
  reader_failed : LsmTreeError → StartError

-- The process exits where the memtable cannot be made. `l1` is what the memtable writes tables to;
-- `level_dirs` are the directories that the reader finds, with the times of creation.
unfoldable pub start :
    Host
    → Io
    → ConfigSource
    → Bytes
    → List (Bytes × Bytes)
    → MemMetricTracker
    → DiskTreeMetricTracker
    → List Directory
    → Outcome StartError MyLsmDb
start host io source wal l1 memory disk level_dirs =
    let made = new host io source (blank wal l1 memory disk io.now) in
    map_err memtable_failed made.0 >>= λ u.
    map_err reader_failed (create_level_array level_dirs) >>= λ level_array.
    ok (record { memtable = made.1; poisoned = false; level_array = level_array })

finish_keeps_locks :
    (size : ℕ) (r : Outcome MemtableError (Unit {0}) × BTreeMap (Option TableEntry)) (s : Memtable)
    → (finish size r s).1.metrics_poisoned ≡ s.metrics_poisoned
finish_keeps_locks size (ok u, m) s = refl
finish_keeps_locks size (err e, m) s = refl
finish_keeps_locks size (panic, m) s = refl
finish_keeps_locks size (out_of_fuel, m) s = refl

rebuild_memtable_keeps_locks :
    (wal : Bytes) (s : Memtable) → (rebuild_memtable wal s).1.metrics_poisoned ≡ s.metrics_poisoned
unfolding rebuild_memtable
rebuild_memtable_keeps_locks wal s =
    ground (arith, finish_keeps_locks (length wal) (replay (length wal) wal s.in_memory_repr) s)

-- After `Memtable::new` over a log, with the log on: the rebuilt memtable.
new_rebuilds :
    (host : Host) (io : Io) (source : ConfigSource) (s : Memtable) (c : ConfigInfo)
    → load_config host source ≡ ok c
    → c.wal_enabled ≡ true
    → new host io source s
      ≡ rebuild_memtable s.wal (record s { config = some c; flush_by = io.now + c.ram_max_time })
unfolding new update_config
new_rebuilds host io source s c h w = rw (new, update_config, h, w) refl

-- A server that starts over the log of a memtable whose log is that of its writes, with a configuration
-- that loads and has the log on, and over levels that load, starts, and answers a get as the memtable
-- did: from its slot of the key, or else from the levels.
pub start-get_request :
    (host : Host) (io : Io) (source : ConfigSource) (s : Memtable) (l1 : List (Bytes × Bytes))
    (memory : MemMetricTracker) (disk : DiskTreeMetricTracker) (level_dirs : List Directory)
    (g : GetRequest) (c : ConfigInfo) (levels : List FileMap)
    → IsLogged s
    → load_config host source ≡ ok c
    → c.wal_enabled ≡ true
    → create_level_array level_dirs ≡ ok levels
    → (db : MyLsmDb) × (start host io source s.wal l1 memory disk level_dirs ≡ ok db)
      × ((get_request g db).0 ≡ response g levels (get s.in_memory_repr g.key))
unfolding start blank
start-get_request host io source s l1 memory disk level_dirs g c levels h hc hw hl =
    let before = blank s.wal l1 memory disk io.now in
    let configured = record before { config = some c; flush_by = io.now + c.ram_max_time } in
    let e = new_rebuilds host io source before c hc hw in
    let (fine, same_map) = rebuild_memtable-IsLogged s configured h refl in
    let db : MyLsmDb = record {
      memtable = (new host io source before).1;
      poisoned = false;
      level_array = levels;
    } in
    (
      db,
      rw (ap (λ (r : Outcome MemtableError (Unit {0}) × Memtable). r.0) e ∙ fine, hl) refl,
      get_request-response g db refl (
            ap (λ (r : Outcome MemtableError (Unit {0}) × Memtable). r.1.metrics_poisoned) e
            ∙ rebuild_memtable_keeps_locks s.wal configured)
          ∙ ap (λ (m : BTreeMap (Option TableEntry)). response g levels (get m g.key))
              (ap (λ (r : Outcome MemtableError (Unit {0}) × Memtable). r.1.in_memory_repr) e
                ∙ same_map),
    )
