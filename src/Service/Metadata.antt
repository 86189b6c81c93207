-- ===== src/Service/Metadata.antt =====
-- service.rs: the metadata of a request as the memtable keeps it, and back.
pub mod Lookup
use rusty_swift_merge.Base.{
  ℕ, Bool, true, false, ◌||◌, Option, none, some, List, [], ◌∷◌, Ordering, ◌==◌, if◌then◌else◌,
}
use Prim.Native.Nat.Ordering.{lt, eq, gt}
use rusty_swift_merge.Bytes.{Bytes}
use rusty_swift_merge.Bytes.Order.{cmp}
use rusty_swift_merge.BTreeMap.{BTreeMap, insert}
use rusty_swift_merge.Entry.{
  TrueTypes, unspecified, bool, raw_bytes, string, uint32, uint64, int32, int64, float32, double,
  TypeInfoMetadata, TableEntry,
}
use rusty_swift_merge.Service.{TypeInfo, FilterParam}

-- `SupportedMetadataTypes::try_from`, and the match on it.
unfoldable pub true_type_of : ℕ → TrueTypes
true_type_of n =
    if n == 1
    then bool
    else if n == 2
    then raw_bytes
    else if n == 3
    then string
    else if n == 4
    then uint32
    else if n == 5
    then uint64
    else if n == 6
    then int32
    else if n == 7
    then int64
    else if n == 8
    then float32
    else if n == 9
    then double
    else unspecified

-- The match on `TrueTypes`, and `grpc_type as i32`.
unfoldable pub grpc_type : TrueTypes → ℕ
grpc_type unspecified = 0
grpc_type bool = 1
grpc_type raw_bytes = 2
grpc_type string = 3
grpc_type uint32 = 4
grpc_type uint64 = 5
grpc_type int32 = 6
grpc_type int64 = 7
grpc_type float32 = 8
grpc_type double = 9

-- The loop over the metadata of a request.
unfoldable pub internal_metadata :
    List (Bytes × TypeInfo) → BTreeMap TypeInfoMetadata → BTreeMap TypeInfoMetadata
internal_metadata [] md = md
internal_metadata ((key, meta) ∷ metadata) md =
    internal_metadata metadata
      (insert md key (record { raw = meta.raw; true_type = true_type_of meta.true_type }))

-- The loop over the metadata of an entry.
unfoldable pub insert_all : BTreeMap TypeInfoMetadata → BTreeMap TypeInfo → BTreeMap TypeInfo
insert_all [] m = m
insert_all ((key, meta) ∷ md) m =
    insert_all md (insert m key (record { raw = meta.raw; true_type = grpc_type meta.true_type }))

unfoldable pub grpc_metadata : TableEntry → BTreeMap TypeInfo
grpc_metadata entry = elim entry.meta_data [ none ↦ [] | some md ↦ insert_all md [] ]

unfoldable pub contains : List Bytes → Bytes → Bool
contains [] k = false
contains (j ∷ keys) k = elim (cmp j k) [ eq ↦ true | _ ↦ contains keys k ]

unfoldable pub retain : List Bytes → BTreeMap TypeInfo → BTreeMap TypeInfo
retain keys [] = []
retain keys ((k, v) ∷ m) =
    let rest = retain keys m in if contains keys k then (k, v) ∷ rest else rest

-- `retain`, if a filter is given and is to be used.
unfoldable pub apply_filter : Option FilterParam → BTreeMap TypeInfo → BTreeMap TypeInfo
apply_filter none m = m
apply_filter (some filter) m = if filter.use_filter then retain filter.metadata_keys m else m
