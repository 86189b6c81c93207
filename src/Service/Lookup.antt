-- ===== src/Service/Lookup.antt =====
-- What a get answers, in itself and after a put or a delete.
use rusty_swift_merge.Base.{
  ◌<◌, ◌≡◌, ◌↔◌, refl, ap, ◌∙◌, arith, false, Option, none, some, List, Ordering, length,
  if◌then◌else◌,
}
use Prim.Native.Nat.Ordering.{eq}
use rusty_swift_merge.Base.Outcome.{Outcome, ok, err}
use rusty_swift_merge.Bytes.{Bytes, u32_mod}
use rusty_swift_merge.Bytes.Order.{cmp, cmp_refl}
use rusty_swift_merge.BTreeMap.{BTreeMap, get, insert}
use rusty_swift_merge.Entry.{TableEntry}
use rusty_swift_merge.Memtable.{Memtable, Host, Io, MemtableError, missing_key}
use rusty_swift_merge.Memtable.Ops.{get_entry, put, delete}
use rusty_swift_merge.Memtable.Writes.{
  IsSound, IsCalm, Written, put-Written, delete-Written, get-insert, get_entry_lem,
}
use rusty_swift_merge.Lsm.{FileMap}
use rusty_swift_merge.Service.{
  Status, MyLsmDb, call_mut, lock, PutRequest, GetRequest, GetResponse, FilterParam,
}
use rusty_swift_merge.Service.Metadata.Lookup.{
  canonical, requested, map_or, allowed, get-grpc_metadata,
}
use rusty_swift_merge.Service.Requests.{
  validate_put_request, entry_of_request, put_request, delete_request, found_in_memtable,
  disk_answer, answer, get_request,
}

-- A put request passes exactly when key and value are not empty and fit their length prefixes.
pub validate_put_request_iff :
    (req : PutRequest)
    → (validate_put_request req ≡ ok tt) ↔ (
        (0 < length req.key)
        × (length req.key < u32_mod)
        × (0 < length req.value)
        × (length req.value < u32_mod))
unfolding validate_put_request
validate_put_request_iff req = (λ h. ground arith, λ h. ground arith)

-- A database whose locks are whole, over a sound memtable.
pub record IsServing (db : MyLsmDb) : Type 0 where
  pub sound : IsSound db.memtable
  pub lock_whole : db.poisoned ≡ false

-- The answer to a get, from the memtable's slot of the key and the levels.
abbrev pub response :
    GetRequest → List FileMap → Option (Option TableEntry) → Outcome Status GetResponse
response req levels none = disk_answer levels req.key
response req levels (some slot) = ok (found_in_memtable req.filter slot)

answer_lem :
    (req : GetRequest) (db : MyLsmDb) (slot : Option (Option TableEntry))
    (r : Outcome MemtableError (Option TableEntry))
    → r ≡ (elim slot [ none ↦ err missing_key | some v ↦ ok v ])
    → (answer req r db).0 ≡ response req db.level_array slot
unfolding answer
answer_lem req db none r e = rw e refl
answer_lem req db (some v) r e = rw e refl

pub lock_lem : (db : MyLsmDb) → db.poisoned ≡ false → lock db ≡ (ok tt, db)
unfolding lock
lock_lem db h = ground arith

pub get_request-response :
    (req : GetRequest) (db : MyLsmDb)
    → db.poisoned ≡ false
    → db.memtable.metrics_poisoned ≡ false
    → (get_request req db).0 ≡ response req db.level_array (get db.memtable.in_memory_repr req.key)
unfolding get_request
get_request-response req db h k = rw (lock_lem db h) (
    answer_lem req (record db { memtable = (get_entry req.key db.memtable).1 })
      (get db.memtable.in_memory_repr req.key) (get_entry req.key db.memtable).0
      (get_entry_lem req.key db.memtable k))

-- The memtable after a write that a handler makes, and the handler's outcome.
pub record Served (key : Bytes) (slot : Option TableEntry) (db : MyLsmDb)
    (r : Outcome Status (Unit {0}) × MyLsmDb) : Type 0 where
  pub fine : r.0 ≡ ok tt
  pub lock_whole : r.1.poisoned ≡ false
  pub locks : r.1.memtable.metrics_poisoned ≡ db.memtable.metrics_poisoned
  pub repr : r.1.memtable.in_memory_repr ≡ insert db.memtable.in_memory_repr key slot
  pub levels : r.1.level_array ≡ db.level_array

pub call_mut-Served :
    (key : Bytes) (slot : Option TableEntry) (db : MyLsmDb)
    (write : Memtable → Outcome MemtableError (Unit {0}) × Memtable)
    → Written key slot db.memtable (write db.memtable)
    → Served key slot db (call_mut write db)
unfolding call_mut
call_mut-Served key slot db write w = record {
  fine = rw w.fine refl;
  lock_whole = rw w.fine refl;
  locks = w.locks;
  repr = w.repr;
  levels = refl;
}

pub put_request-Served :
    (host : Host) (io : Io) (req : PutRequest) (db : MyLsmDb) (s : IsServing db)
    → validate_put_request req ≡ ok tt
    → IsCalm io req.key (some (entry_of_request req)) db.memtable s.sound.config
    → Served req.key (some (entry_of_request req)) db (put_request host io req db)
unfolding put_request
put_request-Served host io req db s v calm =
    rw (v, lock_lem db s.lock_whole)
      (call_mut-Served req.key (some (entry_of_request req)) db
        (put host io req.key (entry_of_request req))
        (put-Written host io req.key db.memtable s.sound (entry_of_request req) calm))

pub delete_request-Served :
    (host : Host) (io : Io) (key : Bytes) (db : MyLsmDb) (s : IsServing db)
    → IsCalm io key none db.memtable s.sound.config
    → Served key none db (delete_request host io key db)
unfolding delete_request
delete_request-Served host io key db s calm = rw (lock_lem db s.lock_whole) (
    call_mut-Served key none db (delete host io key)
      (delete-Written host io key db.memtable s.sound calm))

-- A get after such a write.
pub get_request-Served :
    (g : GetRequest) (key : Bytes) (slot : Option TableEntry) (db : MyLsmDb) (s : IsServing db)
    (r : Outcome Status (Unit {0}) × MyLsmDb)
    → Served key slot db r
    → (get_request g r.1).0
      ≡ response g db.level_array
          (elim (cmp g.key key) [ eq ↦ some slot | _ ↦ get db.memtable.in_memory_repr g.key ])
get_request-Served g key slot db s r w =
    get_request-response g r.1 w.lock_whole (w.locks ∙ s.sound.locks)
    ∙ ap (λ (l : List FileMap). response g l (get r.1.memtable.in_memory_repr g.key)) w.levels
    ∙ ap (λ (m : BTreeMap (Option TableEntry)). response g db.level_array (get m g.key)) w.repr
    ∙ ap (λ (o : Option (Option TableEntry)). response g db.level_array o)
        (get-insert db.memtable.in_memory_repr key g.key slot s.sound.sorted)

-- A valid put to a serving database, where the log does not fail and no flush follows, succeeds, and a
-- get of its key then answers its value and, at every metadata key that the filter lets through, what
-- the request said of it last, with numbers that name no type as 0.
pub put_request-get_request :
    (host : Host) (io : Io) (req : PutRequest) (filter : Option FilterParam) (db : MyLsmDb)
    (q : Bytes) (s : IsServing db)
    → validate_put_request req ≡ ok tt
    → IsCalm io req.key (some (entry_of_request req)) db.memtable s.sound.config
    → ((put_request host io req db).0 ≡ ok tt)
      × (response : GetResponse) × ((get_request
            (record { key = req.key; filter = filter })
            (put_request host io req db).1).0
          ≡ ok response)
      × (response.value ≡ some req.value)
      × (get response.metadata q
          ≡ (if allowed filter q then map_or canonical (requested req.metadata q) none else none))
unfolding entry_of_request found_in_memtable
put_request-get_request host io req filter db q s v calm =
    let w = put_request-Served host io req db s v calm in
    let g : GetRequest = record { key = req.key; filter = filter } in
    (
      w.fine,
      found_in_memtable filter (some (entry_of_request req)),
      get_request-Served g req.key (some (entry_of_request req)) db s (put_request host io req db) w
          ∙ ap
              (λ (o : Ordering). response g db.level_array (elim o [
                | eq ↦ some (some (entry_of_request req))
                | _ ↦ get db.memtable.in_memory_repr req.key
              ]))
              (cmp_refl req.key),
      refl,
      get-grpc_metadata filter req.value req.metadata q,
    )
