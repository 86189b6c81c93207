-- ===== src/Lib.antt =====
-- A verification library for SwiftMerge, a key-value store on an LSM tree.
--
-- The program. A write goes to a write-ahead log and to an in-memory map, the memtable
-- (switft-merge/src/memtable/mem.rs). A memtable that is too large or too old is flushed to an
-- SSTable, a file with a Bloom filter, a sparse index, a sorted data section and a footer. Reads that
-- miss the memtable go to the SSTables, level by level (switft-merge/src/lsm_tree/disk.rs).
-- Compaction joins the tables of a level to larger ones of the next level
-- (switft-merge/src/lsm_tree/compaction.rs). A gRPC service stands in front
-- (switft-merge/src/service.rs).
--
-- The files.
--   Base: the shared names, tests on numbers, lists, and `Outcome`, what a Rust call comes to.
--   Bytes: byte strings, little-endian integers, their order, UTF-8, and guarded reads at a cursor.
--   BTreeMap: the standard ordered map as its entries in order.
--   Floats: the f64 operations, a parameter of the model.
--   Entry: mem.rs, `TableEntry::serialize` and `deserialize`, `to_wal_entry`.
--   Config: mem.rs, `ConfigInfo::validate`.
--   Bloom: disk.rs, `BloomGenerator`.
--   Table: the SSTable format; Table/Writer is the part of mem.rs `Memtable::flush` that makes the
--     file's bytes, Table/Reader is disk.rs `TableReader`. The other children prove.
--   Memtable: mem.rs, the state; Memtable/Ops has its methods and those of `WalManager`,
--     Memtable/Recovery `rebuild_memtable` and `Memtable::new`. The other children prove.
--   Directory: the files of a directory and what the calls of tokio::fs do to it.
--   Lsm: disk.rs, `LsmTreeReader::read`; Lsm/Load is `create_level_array` and `reload`. The other
--     children prove.
--   Compaction: compaction.rs, reading and joining data sections; Compaction/Build is
--     `build_from_data_section`, Compaction/Files `CompactionUnit::compact`, Compaction/Units the
--     division of a level in `size_tier_compaction`, Compaction/Tier the rest of it with
--     `build_level_summary` and the turn of a level in `monitor`. The other children prove.
--   Service: service.rs, the database `MyLsmDb` and the messages; Service/Requests has the handlers,
--     Service/Metadata the conversion of metadata, Service/Start what main.rs starts with. The other
--     children prove.
--   Tests: test data, runs, and the theorems at concrete inputs.
--
-- The model. A fallible function returns an `Outcome`: a value, an `Err`, a panic, or `out_of_fuel`,
-- which only a loop of the model with too few rounds gives. A method that changes the memtable is an
-- action of `Exec`, which keeps the state that an `Err` or a panic leaves. Files are byte strings
-- inside the state; what the system answers (bytes taken by a write, failures, clocks) is the record
-- `Io`, what the machine and the libraries contribute is the record `Host`. A cursor into a buffer is
-- the rest of the buffer from it on. Integers of the formats wrap at their width where they are cast.
--
-- Fuel. The loops of `deserialize`, `rebuild_memtable`, `get_sparse_index`, `search`, `join_tables`,
-- `build_from_data_section` and `build_level_summary` run on fuel: the length of the bytes that they
-- read, or one more. Each round takes at least one byte, so that is enough. The passes of `compact` and
-- the division of a level run on the number of files, which every round makes smaller; the theorems
-- on these loops give their results, not only what holds if they return.
--
-- Parameters. `f64` arithmetic, `serde_json`, `available_parallelism`, the page size, the clock, and
-- what a failed join leaves in its output. No theorem assumes anything of them.
--
-- Not modelled. The arguments and the logger of the server, its gRPC plumbing, `health_check`, the
-- timer of `monitor`, the display of the LSM tree, locks, apart from the poisoned state of the
-- memtable's and of the metrics' locks, and failures of the file system in a compaction or a reload
-- other than a missing file and the end of a file. A file that a join has written is complete when it
-- is opened again: that the write may still be pending, as the file is dropped without a flush, is not
-- modelled.
pub mod Base
pub mod Bytes
pub mod BTreeMap
pub mod Entry
pub mod Floats
pub mod Directory
pub mod Config
pub mod Bloom
pub mod Table
pub mod Memtable
pub mod Compaction
pub mod Lsm
pub mod Service
pub mod Tests
