-- ===== src/Service/Batch.antt =====
-- What a batch leaves under every key: puts take precedence over deletes.
use rusty_swift_merge.Base.{
  ℕ, suc, ◌≡◌, refl, sym, subst, ap, ◌∙◌, arith, Bool, false, Option, none, some, List, [], ◌∷◌,
  if◌then◌else◌,
}
use Prim.Native.Nat.Ordering.{eq}
use rusty_swift_merge.Base.Outcome.{Outcome, ok}
use rusty_swift_merge.Bytes.{Bytes}
use rusty_swift_merge.Bytes.Order.{cmp, cmp_refl, eq_of_cmp}
use rusty_swift_merge.BTreeMap.{BTreeMap, get}
use rusty_swift_merge.Entry.{TableEntry}
use rusty_swift_merge.Config.{ConfigInfo}
use rusty_swift_merge.Memtable.{Memtable, MemtableError, Host, Io}
use rusty_swift_merge.Memtable.Ops.{put, delete}
use rusty_swift_merge.Memtable.Writes.{
  IsCalm, Written, Written-IsSound, put-Written, delete-Written, get-insert,
}
use rusty_swift_merge.Service.{Status, MyLsmDb, ◌>>=◌, call_mut, PutRequest}
use rusty_swift_merge.Service.Metadata.{contains}
use rusty_swift_merge.Service.Requests.{
  entry_of_request, remove, batch_puts, batch_deletes, batch_write,
}
use rusty_swift_merge.Service.Lookup.{IsServing}

-- The log does not fail and no flush follows, write by write.
abbrev pub CalmPuts : Host → (ℕ → Io) → ℕ → List PutRequest → Memtable → ConfigInfo → Type 0
CalmPuts host io i [] s c = Unit {0}
CalmPuts host io i (req ∷ puts) s c =
    IsCalm (io i) req.key (some (entry_of_request req)) s c
    × CalmPuts host io (suc i) puts (put host (io i) req.key (entry_of_request req) s).1 c

abbrev pub CalmDeletes : Host → (ℕ → Io) → ℕ → List Bytes → Memtable → ConfigInfo → Type 0
CalmDeletes host io i [] s c = Unit {0}
CalmDeletes host io i (key ∷ keys) s c =
    IsCalm (io i) key none s c × CalmDeletes host io (suc i) keys (delete host (io i) key s).1 c

-- The entry of the last put of a key.
unfoldable pub last_put : List PutRequest → Bytes → Option TableEntry
last_put [] q = none
last_put (req ∷ puts) q = elim (last_put puts q) [
  | some e ↦ some e
  | none ↦ elim (cmp q req.key) [ eq ↦ some (entry_of_request req) | _ ↦ none ]
]

-- The keys that are left to be deleted.
unfoldable pub left_keys : List PutRequest → List Bytes → List Bytes
left_keys [] keys = keys
left_keys (req ∷ puts) keys = left_keys puts (remove keys req.key)

abbrev pub put_slot : Option TableEntry → Option (Option TableEntry) → Option (Option TableEntry)
put_slot (some e) old = some (some e)
put_slot none old = old

-- The slot of a key after a batch: its last put, or else a tombstone if it is to be deleted.
abbrev pub batch_slot :
    List PutRequest → List Bytes → Bytes → Option (Option TableEntry) → Option (Option TableEntry)
batch_slot puts keys q old = put_slot (last_put puts q) (if contains keys q then some none else old)

contains-remove :
    (keys : List Bytes) (k q : Bytes)
    → contains (remove keys k) q ≡ (elim (cmp q k) [ eq ↦ false | _ ↦ contains keys q ])
unfolding contains remove
contains-remove [] k q = ground arith
contains-remove (j ∷ keys) k q =
    ground
      (arith, contains-remove keys k q, eq_of_cmp j k, eq_of_cmp q k, eq_of_cmp j q, cmp_refl q)

-- A run of writes under the lock.
record Ran {A : Type 0} (a : A) (db : MyLsmDb) (c : ConfigInfo)
    (slots : Bytes → Option (Option TableEntry)) (r : Outcome Status A × MyLsmDb) : Type 0 where
  fine : r.0 ≡ ok a
  serving : IsServing r.1
  config : serving.sound.config ≡ c
  slot : (q : Bytes) → get r.1.memtable.in_memory_repr q ≡ slots q
  levels : r.1.level_array ≡ db.level_array

-- The database after a write that was written.
abbrev with_memtable : MyLsmDb → Memtable → MyLsmDb
with_memtable db m = record db { memtable = m; poisoned = false }

call_mut-fine :
    (key : Bytes) (slot : Option TableEntry) (db : MyLsmDb)
    (write : Memtable → Outcome MemtableError (Unit {0}) × Memtable)
    → Written key slot db.memtable (write db.memtable)
    → call_mut write db ≡ (ok tt, with_memtable db (write db.memtable).1)
unfolding call_mut
call_mut-fine key slot db write w = rw w.fine refl

abbrev with_memtable-IsServing :
    (key : Bytes) (slot : Option TableEntry) (db : MyLsmDb)
    (r : Outcome MemtableError (Unit {0}) × Memtable)
    → IsServing db
    → Written key slot db.memtable r
    → IsServing (with_memtable db r.1)
with_memtable-IsServing key slot db r s w = record {
  sound = Written-IsSound key slot db.memtable r s.sound w;
  lock_whole = refl;
}

slot-Written :
    (key q : Bytes) (slot : Option TableEntry) (db : MyLsmDb)
    (r : Outcome MemtableError (Unit {0}) × Memtable)
    → IsServing db
    → Written key slot db.memtable r
    → get r.1.in_memory_repr q
      ≡ (elim (cmp q key) [ eq ↦ some slot | _ ↦ get db.memtable.in_memory_repr q ])
slot-Written key q slot db r s w =
    ap (λ (m : BTreeMap (Option TableEntry)). get m q) w.repr
    ∙ get-insert db.memtable.in_memory_repr key q slot s.sound.sorted

abbrev count_from : ℕ → List PutRequest → ℕ
count_from i [] = i
count_from i (req ∷ puts) = count_from (suc i) puts

put_slots :
    (q : Bytes) (req : PutRequest) (later : Option TableEntry) (old : Option (Option TableEntry))
    → put_slot later (elim (cmp q req.key) [ eq ↦ some (some (entry_of_request req)) | _ ↦ old ])
      ≡ put_slot
          (elim later [
            | some e ↦ some e
            | none ↦ elim (cmp q req.key) [ eq ↦ some (entry_of_request req) | _ ↦ none ]
          ])
          old
put_slots q req none old = ground arith
put_slots q req (some e) old = refl

batch_puts-Ran :
    (host : Host) (io : ℕ → Io) (puts : List PutRequest) (i : ℕ) (keys : List Bytes) (db : MyLsmDb)
    (s : IsServing db)
    → CalmPuts host io i puts db.memtable s.sound.config
    → Ran
        (count_from i puts, left_keys puts keys)
        db
        s.sound.config
        (λ q. put_slot (last_put puts q) (get db.memtable.in_memory_repr q))
        (batch_puts host io i puts keys db)
unfolding batch_puts last_put left_keys
batch_puts-Ran host io [] i keys db s calm = record {
  fine = refl;
  serving = s;
  config = refl;
  slot = λ q. refl;
  levels = refl;
}
batch_puts-Ran host io (req ∷ puts) i keys db s calm =
    let e = entry_of_request req in
    let r = put host (io i) req.key e db.memtable in
    let w = put-Written host (io i) req.key db.memtable s.sound e calm.0 in
    let db' = with_memtable db r.1 in
    let more =
      batch_puts-Ran host io puts (suc i) (remove keys req.key) db'
        (with_memtable-IsServing req.key (some e) db r s w) calm.1 in
    rw (call_mut-fine req.key (some e) db (put host (io i) req.key e) w, batch_puts)
      (record {
        fine = more.fine;
        serving = more.serving;
        config = more.config;
        slot = λ q.
            more.slot q
            ∙ ap (λ (o : Option (Option TableEntry)). put_slot (last_put puts q) o)
                (slot-Written req.key q (some e) db r s w)
            ∙ put_slots q req (last_put puts q) (get db.memtable.in_memory_repr q);
        levels = more.levels;
      })

batch_deletes-Ran :
    (host : Host) (io : ℕ → Io) (keys : List Bytes) (i : ℕ) (db : MyLsmDb) (s : IsServing db)
    → CalmDeletes host io i keys db.memtable s.sound.config
    → Ran tt db s.sound.config
        (λ q. if contains keys q then some none else get db.memtable.in_memory_repr q)
        (batch_deletes host io i keys db)
unfolding batch_deletes contains
batch_deletes-Ran host io [] i db s calm = record {
  fine = refl;
  serving = s;
  config = refl;
  slot = λ q. refl;
  levels = refl;
}
batch_deletes-Ran host io (key ∷ keys) i db s calm =
    let r = delete host (io i) key db.memtable in
    let w = delete-Written host (io i) key db.memtable s.sound calm.0 in
    let db' = with_memtable db r.1 in
    let more =
      batch_deletes-Ran host io keys (suc i) db' (with_memtable-IsServing key none db r s w)
        calm.1 in
    rw (call_mut-fine key none db (delete host (io i) key) w, batch_deletes)
      (record {
        fine = more.fine;
        serving = more.serving;
        config = more.config;
        slot = λ q.
            more.slot q
            ∙ ap (λ (o : Option (Option TableEntry)). if contains keys q then some none else o)
                (slot-Written key q none db r s w)
            ∙ ground (arith, eq_of_cmp q key, eq_of_cmp key q, cmp_refl q);
        levels = more.levels;
      })

abbrev unless_put : Option TableEntry → Bool → Bool
unless_put (some e) b = false
unless_put none b = b

contains-left_keys :
    (puts : List PutRequest) (keys : List Bytes) (q : Bytes)
    → contains (left_keys puts keys) q ≡ unless_put (last_put puts q) (contains keys q)
unfolding left_keys last_put
contains-left_keys [] keys q = refl
contains-left_keys (req ∷ puts) keys q =
    contains-left_keys puts (remove keys req.key) q
    ∙ ap (λ (b : Bool). unless_put (last_put puts q) b) (contains-remove keys req.key q)
    ∙ kept (last_put puts q) (contains keys q)
  where
    kept :
        (later : Option TableEntry) (b : Bool)
        → unless_put later (elim (cmp q req.key) [ eq ↦ false | _ ↦ b ])
          ≡ unless_put
              (elim later [
                | some e ↦ some e
                | none ↦ elim (cmp q req.key) [ eq ↦ some (entry_of_request req) | _ ↦ none ]
              ])
              b
    kept none b = ground arith
    kept (some e) b = refl

swap :
    (later : Option TableEntry) (b : Bool) (old : Option (Option TableEntry))
    → (if unless_put later b then some none else put_slot later old)
      ≡ put_slot later (if b then some none else old)
swap none b old = refl
swap (some e) b old = refl

batch_write_lem :
    (host : Host) (io : ℕ → Io) (puts : List PutRequest) (keys : List Bytes) (db : MyLsmDb)
    → db.poisoned ≡ false
    → batch_write host io puts keys db
      ≡ (batch_puts host io 0 puts keys >>= (λ left. batch_deletes host io left.0 left.1)) db
unfolding batch_write
batch_write_lem host io puts keys db h = simp h

-- A batch on a serving database, where the log never fails and no flush follows a write, succeeds and
-- leaves under every key the entry of its last put, or else a tombstone if it is among the keys to be
-- deleted, or else what was there. The order in which the deletes are made does not matter.
pub batch_write-batch_slot :
    (host : Host) (io : ℕ → Io) (puts : List PutRequest) (keys : List Bytes) (db : MyLsmDb)
    (q : Bytes) (s : IsServing db)
    → CalmPuts host io 0 puts db.memtable s.sound.config
    → CalmDeletes host io
        (count_from 0 puts)
        (left_keys puts keys)
        (batch_puts host io 0 puts keys db).1.memtable
        s.sound.config
    → ((batch_write host io puts keys db).0 ≡ ok tt)
      × (get (batch_write host io puts keys db).1.memtable.in_memory_repr q
          ≡ batch_slot puts keys q (get db.memtable.in_memory_repr q))
batch_write-batch_slot host io puts keys db q s calm calm' =
    let a = batch_puts-Ran host io puts 0 keys db s calm in
    let r = batch_puts host io 0 puts keys db in
    let b = batch_deletes-Ran host io (left_keys puts keys) (count_from 0 puts) r.1 a.serving (
      subst
        (λ (c : ConfigInfo).
          CalmDeletes host io (count_from 0 puts) (left_keys puts keys) r.1.memtable c)
        (sym a.config) calm') in
    rw (batch_write_lem host io puts keys db s.lock_whole, a.fine)
      (
        b.fine,
        b.slot q
            ∙ ap
                (λ (o : Option (Option TableEntry)).
                  if contains (left_keys puts keys) q then some none else o)
                (a.slot q)
            ∙ ap
                (λ (c : Bool).
                  if c
                  then some none
                  else put_slot (last_put puts q) (get db.memtable.in_memory_repr q))
                (contains-left_keys puts keys q)
            ∙ swap (last_put puts q) (contains keys q) (get db.memtable.in_memory_repr q),
      )
