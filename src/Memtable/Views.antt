-- ===== src/Memtable/Views.antt =====
-- What `get` answers after a write, and what `range` returns.
use rusty_swift_merge.Base.{
  ◌≡◌, ◌≢◌, arith, Bool, true, false, Option, none, [], ◌∷◌, if◌then◌else◌,
}
use Prim.Native.Nat.Ordering.{lt, gt}
use rusty_swift_merge.Base.Outcome.{ok}
use rusty_swift_merge.Bytes.{Bytes}
use rusty_swift_merge.Bytes.Order.{cmp, cmp_refl, eq_of_cmp, gt_of_lt, lt_of_gt, lt_trans}
use rusty_swift_merge.BTreeMap.{BTreeMap, get, Above, IsSorted}
use rusty_swift_merge.BTreeMap.Laws.{get-Above, Above-trans}
use rusty_swift_merge.Entry.{TableEntry}
use rusty_swift_merge.Memtable.{Memtable}
use rusty_swift_merge.Memtable.Ops.{range_entries, range}

abbrev pub within : Bytes → Bytes → Bytes → Bool
within start end q = elim (cmp q start) [
  | lt ↦ false
  | _ ↦ elim (cmp q end) [ gt ↦ false | _ ↦ true ]
]

Above-range_entries :
    (b : Bytes) (m : BTreeMap (Option TableEntry)) (start end : Bytes)
    → Above b m
    → Above b (range_entries m start end)
unfolding range_entries
Above-range_entries b [] start end a = tt
Above-range_entries b ((k, v) ∷ m) start end a =
    ground (arith, Above-range_entries b m start end a.1)

pub range_entries-IsSorted :
    (m : BTreeMap (Option TableEntry)) (start end : Bytes)
    → IsSorted m
    → IsSorted (range_entries m start end)
unfolding range_entries
range_entries-IsSorted [] start end s = tt
range_entries-IsSorted ((k, v) ∷ m) start end s =
    ground (arith, range_entries-IsSorted m start end s.1, Above-range_entries k m start end s.0)

pub get-range_entries :
    (m : BTreeMap (Option TableEntry)) (start end q : Bytes)
    → IsSorted m
    → get (range_entries m start end) q ≡ (if within start end q then get m q else none)
unfolding range_entries get
get-range_entries [] start end q s = ground arith
get-range_entries ((k, v) ∷ m) start end q s = ground (
  arith,
  get-range_entries m start end q s.1,
  get-Above m q,
  Above-trans q k m,
  eq_of_cmp q k,
  gt_of_lt q k,
  lt_of_gt q k,
  cmp_refl q,
  lt_trans k q start,
  lt_trans q k start,
)

-- A range read with its bounds in order, on a memtable in order whose locks are not poisoned, succeeds.
-- The keys of what it returns ascend strictly, and they are, with their entries or tombstones, exactly
-- those of the memtable that are within both bounds.
pub range-within :
    (start end q : Bytes) (s : Memtable)
    → s.metrics_poisoned ≡ false
    → cmp start end ≢ gt
    → IsSorted s.in_memory_repr
    → (m : BTreeMap (Option TableEntry)) × ((range start end s).0 ≡ ok m)
      × IsSorted m
      × (get m q ≡ (if within start end q then get s.in_memory_repr q else none))
unfolding range
range-within start end q s p h sorted = (
  range_entries s.in_memory_repr start end,
  ground arith,
  range_entries-IsSorted s.in_memory_repr start end sorted,
  get-range_entries s.in_memory_repr start end q sorted,
)
