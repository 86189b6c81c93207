-- ===== src/Service/Effects.antt =====
-- What the handlers leave alone, what a delete hides, and what a range returns.
use rusty_swift_merge.Base.{
  ◌≡◌, ◌≢◌, refl, sym, ap, ◌∙◌, arith, Bool, true, false, Option, none, some, List, [], ◌∷◌,
  Ordering, if◌then◌else◌, All,
}
use Prim.Native.Nat.Ordering.{eq, gt}
use rusty_swift_merge.Base.Outcome.{ok}
use rusty_swift_merge.Bytes.{Bytes}
use rusty_swift_merge.Bytes.Order.{cmp, ◌≺◌, cmp_refl, eq_of_cmp}
use rusty_swift_merge.BTreeMap.{BTreeMap, get, Above, IsSorted}
use rusty_swift_merge.BTreeMap.Laws.{get-Above, Above-trans}
use rusty_swift_merge.Entry.{TableEntry}
use rusty_swift_merge.Memtable.{Host, Io}
use rusty_swift_merge.Memtable.Ops.{range, range_entries}
use rusty_swift_merge.Memtable.Views.{within, get-range_entries, range_entries-IsSorted}
use rusty_swift_merge.Memtable.Writes.{IsCalm}
use rusty_swift_merge.Service.{MyLsmDb, call, PutRequest, GetRequest, RangeRequest, KeyValuePair}
use rusty_swift_merge.Service.Metadata.{grpc_metadata}
use rusty_swift_merge.Service.Requests.{
  validate_put_request, entry_of_request, put_request, delete_request, no_value, found_in_memtable,
  get_request, range_results, check_order, range_request,
}
use rusty_swift_merge.Service.Lookup.{
  IsServing, response, lock_lem, get_request-response, put_request-Served, delete_request-Served,
  get_request-Served,
}

other_key :
    (g : GetRequest) (key : Bytes) (slot : Option TableEntry) (db : MyLsmDb)
    → cmp g.key key ≢ eq
    → (elim (cmp g.key key) [ eq ↦ some slot | _ ↦ get db.memtable.in_memory_repr g.key ])
      ≡ get db.memtable.in_memory_repr g.key
other_key g key slot db n = ground arith

-- A valid put to a serving database, where the log does not fail and no flush follows, leaves the
-- answer to a get of any other key as it was.
pub put_request-get_request_ne :
    (host : Host) (io : Io) (req : PutRequest) (g : GetRequest) (db : MyLsmDb) (s : IsServing db)
    → validate_put_request req ≡ ok tt
    → IsCalm io req.key (some (entry_of_request req)) db.memtable s.sound.config
    → cmp g.key req.key ≢ eq
    → (get_request g (put_request host io req db).1).0 ≡ (get_request g db).0
put_request-get_request_ne host io req g db s v calm n =
    get_request-Served g req.key (some (entry_of_request req)) db s (put_request host io req db)
      (put_request-Served host io req db s v calm)
    ∙ ap (λ (o : Option (Option TableEntry)). response g db.level_array o)
        (other_key g req.key _ db n)
    ∙ sym (get_request-response g db s.lock_whole s.sound.locks)

-- A delete on a serving database, where the log does not fail and no flush follows, succeeds, and hides
-- the key from a get, whatever the levels hold of it.
pub delete_request-get_request :
    (host : Host) (io : Io) (g : GetRequest) (db : MyLsmDb) (s : IsServing db)
    → IsCalm io g.key none db.memtable s.sound.config
    → ((delete_request host io g.key db).0 ≡ ok tt)
      × ((get_request g (delete_request host io g.key db).1).0 ≡ ok no_value)
unfolding found_in_memtable
delete_request-get_request host io g db s calm =
    let w = delete_request-Served host io g.key db s calm in
    (
      w.fine,
      get_request-Served g g.key none db s (delete_request host io g.key db) w
          ∙ ap
              (λ (o : Ordering).
                response g db.level_array
                  (elim o [ eq ↦ some none | _ ↦ get db.memtable.in_memory_repr g.key ]))
              (cmp_refl g.key),
    )

-- What a range answer says of a key: the first pair with it.
unfoldable pub find_pair : List KeyValuePair → Bytes → Option KeyValuePair
find_pair [] q = none
find_pair (p ∷ pairs) q = elim (cmp q p.key) [ eq ↦ some p | _ ↦ find_pair pairs q ]

abbrev pub pair_of : Bytes → Option (Option TableEntry) → Option KeyValuePair
pair_of q (some (some e)) = some (record { key = q; value = e.value; metadata = grpc_metadata e })
pair_of q (some none) = none
pair_of q none = none

find_pair-Above :
    (m : BTreeMap (Option TableEntry)) (q : Bytes)
    → Above q m
    → find_pair (range_results m) q ≡ none
unfolding find_pair range_results
find_pair-Above [] q a = refl
find_pair-Above ((k, none) ∷ m) q a = find_pair-Above m q a.1
find_pair-Above ((k, some e) ∷ m) q a = ground (arith, find_pair-Above m q a.1)

find_pair-range_results :
    (m : BTreeMap (Option TableEntry)) (q : Bytes)
    → IsSorted m
    → find_pair (range_results m) q ≡ pair_of q (get m q)
unfolding find_pair range_results get
find_pair-range_results [] q s = refl
find_pair-range_results ((k, none) ∷ m) q s =
    find_pair-range_results m q s.1
    ∙ ground (arith, get-Above m q, Above-trans q k m, eq_of_cmp q k)
find_pair-range_results ((k, some e) ∷ m) q s =
    ground (arith, find_pair-range_results m q s.1, get-Above m q, Above-trans q k m, eq_of_cmp q k)

check_order_fine : (a b : Bytes) → cmp a b ≢ gt → check_order a b ≡ ok tt
unfolding check_order
check_order_fine a b n = ground arith

range_called :
    (a b : Bytes) (db : MyLsmDb)
    → db.memtable.metrics_poisoned ≡ false
    → cmp a b ≢ gt
    → (call (range a b) db).0 ≡ ok (range_entries db.memtable.in_memory_repr a b)
unfolding call range
range_called a b db p n = ground arith

pick :
    (q : Bytes) (b : Bool) (o : Option (Option TableEntry))
    → pair_of q (if b then o else none) ≡ (if b then pair_of q o else none)
pick q true o = refl
pick q false o = refl

-- The pairs of an answer, by keys that ascend strictly.
abbrev pub Ascending : List KeyValuePair → Type 0
Ascending [] = Unit {0}
Ascending (p ∷ pairs) = All (λ (r : KeyValuePair). p.key ≺ r.key) pairs × Ascending pairs

range_results-Above :
    (b : Bytes) (m : BTreeMap (Option TableEntry))
    → Above b m
    → All (λ (r : KeyValuePair). b ≺ r.key) (range_results m)
unfolding range_results
range_results-Above b [] a = tt
range_results-Above b ((k, none) ∷ m) a = range_results-Above b m a.1
range_results-Above b ((k, some e) ∷ m) a = (a.0, range_results-Above b m a.1)

range_results-Ascending :
    (m : BTreeMap (Option TableEntry)) → IsSorted m → Ascending (range_results m)
unfolding range_results
range_results-Ascending [] s = tt
range_results-Ascending ((k, none) ∷ m) s = range_results-Ascending m s.1
range_results-Ascending ((k, some e) ∷ m) s =
    (range_results-Above k m s.0, range_results-Ascending m s.1)

-- A range request whose bounds are in order, to a serving database, succeeds. The keys of its answer
-- ascend strictly, and it has a pair for exactly the keys within both bounds that have an entry in the
-- memtable, with the value and the whole metadata of the entry: the filter of the request changes
-- nothing. Tombstones and tables on disk do not show.
pub range_request-within :
    (req : RangeRequest) (q : Bytes) (db : MyLsmDb) (s : IsServing db)
    → cmp req.start_key req.end_key ≢ gt
    → (pairs : List KeyValuePair) × ((range_request req db).0 ≡ ok pairs)
      × Ascending pairs
      × (find_pair pairs q ≡ (
          if within req.start_key req.end_key q
          then pair_of q (get db.memtable.in_memory_repr q)
          else none))
unfolding range_request
range_request-within req q db s h =
    let m = db.memtable.in_memory_repr in
    let sorted = range_entries-IsSorted m req.start_key req.end_key s.sound.sorted in
    (
      range_results (range_entries m req.start_key req.end_key),
      rw
          (
            check_order_fine req.start_key req.end_key h,
            lock_lem db s.lock_whole,
            range_called req.start_key req.end_key db s.sound.locks h,
          )
          refl,
      range_results-Ascending (range_entries m req.start_key req.end_key) sorted,
      find_pair-range_results (range_entries m req.start_key req.end_key) q sorted
          ∙ ap (λ (o : Option (Option TableEntry)). pair_of q o)
              (get-range_entries m req.start_key req.end_key q s.sound.sorted)
          ∙ pick q (within req.start_key req.end_key q) (get m q),
    )
