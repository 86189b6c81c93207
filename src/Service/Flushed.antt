-- ===== src/Service/Flushed.antt =====
-- What a get answers after a put that flushed the memtable: the LSM reader is not reloaded.
use rusty_swift_merge.Base.{
  ℕ, ◌⊎◌, ◌≡◌, refl, sym, subst, ap, ◌∙◌, arith, Bool, true, false, Option, some, [], if◌then◌else◌,
}
use rusty_swift_merge.Base.Outcome.{Outcome, ok, err, panic, out_of_fuel, map_err}
use rusty_swift_merge.Bytes.{Bytes}
use rusty_swift_merge.BTreeMap.{BTreeMap, get}
use rusty_swift_merge.Entry.{TableEntry}
use rusty_swift_merge.Config.{ConfigInfo}
use rusty_swift_merge.Memtable.{
  Memtable, MemtableError, flush_err, modify, Host, Io, Exec, continue, ◌>>=◌, ◌>>◌,
}
use rusty_swift_merge.Memtable.Ops.{
  check, unwrap_config, write_table, clear, reset_state, flush_contents, flush, flush_and_count,
  manage_flush, should_flush, write_slot, put, lock_or_error, count_flush, is_empty,
}
use rusty_swift_merge.Memtable.Writes.{IsSound, write_slot-Written}
use rusty_swift_merge.Service.{Status, db_error, panics, MyLsmDb, call_mut, PutRequest, GetRequest}
use rusty_swift_merge.Service.Requests.{
  validate_put_request, entry_of_request, put_request, disk_answer, get_request,
}
use rusty_swift_merge.Service.Lookup.{IsServing, response, lock_lem, get_request-response}

-- A chain that succeeds passed its first part.
record Passed {A B : Type 0} (m : Exec A) (f : A → Exec B) (s : Memtable) : Type 0 where
  value : A
  first : (m s).0 ≡ ok value
  same : (m >>= f) s ≡ f value (m s).1

module _ {B : Type 0} where
  err_ne_ok : {x : MemtableError} {b : B} → Outcome.err x ≡ ok b → ⊥
  err_ne_ok e = cc

  panic_ne_ok : {b : B} → ◌≡◌ {A = Outcome MemtableError B} panic (ok b) → ⊥
  panic_ne_ok e = cc

  fuel_ne_ok : {b : B} → ◌≡◌ {A = Outcome MemtableError B} out_of_fuel (ok b) → ⊥
  fuel_ne_ok e = cc

module _ {A B : Type 0} where
  bind_ok :
      (m : Exec A) (f : A → Exec B) (s : Memtable) {b : B} → ((m >>= f) s).0 ≡ ok b → Passed m f s
  bind_ok m f s {b} e = by_outcome (m s).0 refl e
    where
      by_outcome :
          (r : Outcome MemtableError A)
          → (m s).0 ≡ r
          → (continue r f (m s).1).0 ≡ ok b
          → Passed m f s
      by_outcome (ok a) h e = record {
        value = a;
        first = h;
        same = ap (λ (r : Outcome MemtableError A). continue r f (m s).1) h;
      }
      by_outcome (err x) h e = absurd (err_ne_ok e)
      by_outcome panic h e = absurd (panic_ne_ok e)
      by_outcome out_of_fuel h e = absurd (fuel_ne_ok e)

-- An empty memtable with its locks whole.
abbrev IsFlushed : Memtable → Type 0
IsFlushed s = (s.in_memory_repr ≡ []) × (s.metrics_poisoned ≡ false)

reset_state-IsFlushed :
    (io : Io) (c : ConfigInfo) (s : Memtable)
    → (reset_state io c s).0 ≡ ok tt
    → IsFlushed (reset_state io c s).1
unfolding reset_state
reset_state-IsFlushed io c s e = ground arith

clear_and_reset-IsFlushed :
    (io : Io) (c : ConfigInfo) (s : Memtable)
    → ((clear io >> reset_state io c) s).0 ≡ ok tt
    → IsFlushed ((clear io >> reset_state io c) s).1
clear_and_reset-IsFlushed io c s e =
    let p = bind_ok (clear io) (λ u. reset_state io c) s e in
    rw p.same (
      reset_state-IsFlushed io c (clear io s).1
        (ap (λ (r : Outcome MemtableError (Unit {0}) × Memtable). r.0) (sym p.same) ∙ e))

outcome_at : {x y : Outcome MemtableError (Unit {0}) × Memtable} → x ≡ y → x.0 ≡ ok tt → y.0 ≡ ok tt
outcome_at p e = ap (λ (r : Outcome MemtableError (Unit {0}) × Memtable). r.0) (sym p) ∙ e

flush_contents-IsFlushed :
    (h : Host) (io : Io) (s : Memtable)
    → (flush_contents h io s).0 ≡ ok tt
    → IsFlushed (flush_contents h io s).1
unfolding flush_contents
flush_contents-IsFlushed h io s e =
    let p = bind_ok (check io.create_dirs) _ s e in
    let q = bind_ok unwrap_config _ (check io.create_dirs s).1 (outcome_at p.same e) in
    let r =
      bind_ok (write_table h io q.value) _ (unwrap_config (check io.create_dirs s).1).1
        (outcome_at (p.same ∙ q.same) e) in
    let whole = p.same ∙ q.same ∙ r.same in
    subst (λ (x : Outcome MemtableError (Unit {0}) × Memtable). IsFlushed x.1) (sym whole)
      (clear_and_reset-IsFlushed io q.value _ (outcome_at whole e))

flush-IsFlushed :
    (h : Host) (io : Io) (s : Memtable) → (flush h io s).0 ≡ ok tt → IsFlushed (flush h io s).1
unfolding flush
flush-IsFlushed h io s e = by_empty (is_empty s.in_memory_repr) refl
  where
    by_empty : (b : Bool) → is_empty s.in_memory_repr ≡ b → IsFlushed (flush h io s).1
    by_empty true q = absurd (
        err_ne_ok (
          ap (λ (b : Bool). (if b then (err flush_err, s) else flush_contents h io s).0) (sym q)
          ∙ e))
    by_empty false q =
        rw (flush, q)
          (flush_contents-IsFlushed h io s (
            ap (λ (b : Bool). (if b then (err flush_err, s) else flush_contents h io s).0) (sym q)
            ∙ e))

flush_and_count-IsFlushed :
    (h : Host) (io : Io) (s : Memtable)
    → (flush_and_count h io s).0 ≡ ok tt
    → IsFlushed (flush_and_count h io s).1
unfolding flush_and_count
flush_and_count-IsFlushed h io s e =
    let p = bind_ok (flush h io) (λ u. lock_or_error >> modify count_flush) s e in
    let f = flush-IsFlushed h io s p.first in
    let locked : (flush h io s).1.metrics_poisoned ≡ false = f.1 in
    rw (p.same, locked) (f.0, locked)

manage_flush-IsFlushed :
    (h : Host) (io : Io) (s : Memtable) (c : ConfigInfo)
    → s.config ≡ some c
    → should_flush io s c ≡ true
    → (manage_flush h io s).0 ≡ ok tt
    → IsFlushed (manage_flush h io s).1
unfolding manage_flush should_flush flush_and_count
manage_flush-IsFlushed h io s c hc hf e =
    let same : manage_flush h io s ≡ flush_and_count h io s = rw (hc, hf, manage_flush) refl in
    rw same (flush_and_count-IsFlushed h io s (outcome_at same e))

-- What a call under the write guard that succeeds comes to.
call_mut_ok :
    (write : Exec (Unit {0})) (db : MyLsmDb)
    → (call_mut write db).0 ≡ ok tt
    → ((write db.memtable).0 ≡ ok tt)
      × ((call_mut write db).1 ≡ record db { memtable = (write db.memtable).1; poisoned = false })
unfolding call_mut
call_mut_ok write db e = by_outcome (write db.memtable).0 refl e
  where
    by_outcome :
        (r : Outcome MemtableError (Unit {0}))
        → (write db.memtable).0 ≡ r
        → map_err db_error r ≡ ok tt
        → ((write db.memtable).0 ≡ ok tt)
          × ((call_mut write db).1
              ≡ record db { memtable = (write db.memtable).1; poisoned = false })
    by_outcome (ok u) h e = (
      h,
      ap
          (λ (r : Outcome MemtableError (Unit {0})). record db {
            memtable = (write db.memtable).1;
            poisoned = panics r;
          })
          h,
    )
    by_outcome (err x) h e = absurd (err_status e)
      where
        err_status : {y : Status} → err y ≡ ok (tt {0}) → ⊥
        err_status e = cc
    by_outcome panic h e = absurd (no_panic e)
      where
        no_panic : ◌≡◌ {A = Outcome Status (Unit {0})} panic (ok tt) → ⊥
        no_panic e = cc
    by_outcome out_of_fuel h e = absurd (no_fuel e)
      where
        no_fuel : ◌≡◌ {A = Outcome Status (Unit {0})} out_of_fuel (ok tt) → ⊥
        no_fuel e = cc

put-IsFlushed :
    (h : Host) (io : Io) (key : Bytes) (e : TableEntry) (s : Memtable) (i : IsSound s)
    → (i.config.wal_enabled ≡ false) ⊎ ((n : ℕ) × (io.wal_write ≡ some n))
    → should_flush io (write_slot io key (some e) s).1 i.config ≡ true
    → (put h io key e s).0 ≡ ok tt
    → IsFlushed (put h io key e s).1
unfolding put
put-IsFlushed h io key e s i log due fine =
    let w = write_slot-Written io key (some e) s i.config i.configured i.locks log in
    let same : put h io key e s ≡ manage_flush h io (write_slot io key (some e) s).1 =
      rw (put, w.fine) refl in
    rw same (
      manage_flush-IsFlushed h io (write_slot io key (some e) s).1 i.config
        (w.config ∙ i.configured) due (outcome_at same fine))

-- Where a valid put to a serving database is followed by a flush, and both succeed, every get then
-- answers what the levels have that the reader loaded before: the flushed entries, that of the put
-- among them, are not found until it is made to reload.
pub put_request_flushed :
    (host : Host) (io : Io) (req : PutRequest) (g : GetRequest) (db : MyLsmDb) (s : IsServing db)
    → validate_put_request req ≡ ok tt
    → (s.sound.config.wal_enabled ≡ false) ⊎ ((n : ℕ) × (io.wal_write ≡ some n))
    → should_flush io
        (write_slot io req.key (some (entry_of_request req)) db.memtable).1
        s.sound.config
      ≡ true
    → (put_request host io req db).0 ≡ ok tt
    → (get_request g (put_request host io req db).1).0 ≡ disk_answer db.level_array g.key
unfolding put_request get
put_request_flushed host io req g db s v log due fine =
    let e = entry_of_request req in
    let whole : put_request host io req db ≡ call_mut (put host io req.key e) db =
      rw (put_request, v, lock_lem db s.lock_whole) refl in
    let (fine', after) =
      call_mut_ok (put host io req.key e) db
        (ap (λ (r : Outcome Status (Unit {0}) × MyLsmDb). r.0) (sym whole) ∙ fine) in
    let f = put-IsFlushed host io req.key e db.memtable s.sound log due fine' in
    let db' : MyLsmDb = record db {
      memtable = (put host io req.key e db.memtable).1;
      poisoned = false;
    } in
    ap (λ (d : MyLsmDb). (get_request g d).0)
      (ap (λ (r : Outcome Status (Unit {0}) × MyLsmDb). r.1) whole ∙ after)
    ∙ get_request-response g db' refl f.1
    ∙ ap (λ (m : BTreeMap (Option TableEntry)). response g db.level_array (get m g.key)) f.0
