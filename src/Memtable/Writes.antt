-- ===== src/Memtable/Writes.antt =====
-- `put` and `delete` where nothing fails and no flush follows, and `get` after them.
use rusty_swift_merge.Base.{
  ℕ, ◌≡◌, ◌⊎◌, inl, inr, refl, sym, ap, ◌∙◌, arith, false, Option, none, some, Ordering,
}
use Prim.Native.Nat.Ordering.{lt, eq, gt}
use rusty_swift_merge.Base.Outcome.{Outcome, ok, err}
use rusty_swift_merge.Bytes.{Bytes}
use rusty_swift_merge.Bytes.Order.{cmp, cmp_refl, eq_of_cmp}
use rusty_swift_merge.BTreeMap.{BTreeMap, get, insert, IsSorted}
use rusty_swift_merge.BTreeMap.Laws.{get-insert_self, get-insert_ne, insert-IsSorted}
use rusty_swift_merge.Entry.{TableEntry}
use rusty_swift_merge.Config.{ConfigInfo}
use rusty_swift_merge.Memtable.{Memtable, MemtableError, missing_key, Host, Io, ◌>>=◌}
use rusty_swift_merge.Memtable.Ops.{
  write_slot, write_entry, should_flush, manage_flush, put, delete, get_entry,
}

-- A memtable in order, configured, with its locks whole.
pub record IsSound (s : Memtable) : Type 0 where
  pub config : ConfigInfo
  pub configured : s.config ≡ some config
  pub locks : s.metrics_poisoned ≡ false
  pub sorted : IsSorted s.in_memory_repr

-- The log is off or takes some of the entry, and no flush is due after the write.
pub record IsCalm (io : Io) (key : Bytes) (slot : Option TableEntry) (s : Memtable) (c : ConfigInfo)
    : Type 0 where
  pub log : (c.wal_enabled ≡ false) ⊎ ((n : ℕ) × (io.wal_write ≡ some n))
  pub no_flush : should_flush io (write_slot io key slot s).1 c ≡ false

-- What such a write leaves.
pub record Written (key : Bytes) (slot : Option TableEntry) (s : Memtable)
    (r : Outcome MemtableError (Unit {0}) × Memtable) : Type 0 where
  pub fine : r.0 ≡ ok tt
  pub config : r.1.config ≡ s.config
  pub locks : r.1.metrics_poisoned ≡ s.metrics_poisoned
  pub repr : r.1.in_memory_repr ≡ insert s.in_memory_repr key slot

pub write_slot-Written :
    (io : Io) (key : Bytes) (slot : Option TableEntry) (s : Memtable) (c : ConfigInfo)
    → s.config ≡ some c
    → s.metrics_poisoned ≡ false
    → (c.wal_enabled ≡ false) ⊎ ((n : ℕ) × (io.wal_write ≡ some n))
    → Written key slot s (write_slot io key slot s)
unfolding write_slot write_entry
write_slot-Written io key slot s c hc hp (inl off) = record {
  fine = ground arith;
  config = ground arith;
  locks = ground arith;
  repr = ground arith;
}
write_slot-Written io key slot s c hc hp (inr (n, hw)) = record {
  fine = ground arith;
  config = ground arith;
  locks = ground arith;
  repr = ground arith;
}

manage_flush-calm :
    (h : Host) (io : Io) (s : Memtable) (c : ConfigInfo)
    → s.config ≡ some c
    → should_flush io s c ≡ false
    → manage_flush h io s ≡ (ok tt, s)
unfolding manage_flush should_flush
manage_flush-calm h io s c hc hf = rw (hc, hf, manage_flush) refl

module _ (h : Host) (io : Io) (key : Bytes) (s : Memtable) (i : IsSound s) where
  write_then_no_flush :
      (slot : Option TableEntry)
      → IsCalm io key slot s i.config
      → Written key slot s ((write_slot io key slot >>= λ u. manage_flush h io) s)
  write_then_no_flush slot calm =
      let w = write_slot-Written io key slot s i.config i.configured i.locks calm.log in
      rw
        (
          w.fine,
          manage_flush-calm h io (write_slot io key slot s).1 i.config (w.config ∙ i.configured)
              calm.no_flush,
        )
        (record { fine = refl; config = w.config; locks = w.locks; repr = w.repr })

  pub put-Written :
      (e : TableEntry)
      → IsCalm io key (some e) s i.config
      → Written key (some e) s (put h io key e s)
  unfolding put
  put-Written e calm = write_then_no_flush (some e) calm

  pub delete-Written : IsCalm io key none s i.config → Written key none s (delete h io key s)
  unfolding delete
  delete-Written calm = write_then_no_flush none calm

-- The state after a write is sound again.
abbrev pub Written-IsSound :
    (key : Bytes) (slot : Option TableEntry) (s : Memtable)
    (r : Outcome MemtableError (Unit {0}) × Memtable)
    → IsSound s
    → Written key slot s r
    → IsSound r.1
Written-IsSound key slot s r i w = record {
  config = i.config;
  configured = w.config ∙ i.configured;
  locks = w.locks ∙ i.locks;
  sorted = rw w.repr (insert-IsSorted s.in_memory_repr key slot i.sorted);
}

ne_of_cmp : {q key : Bytes} {o : Ordering} → cmp q key ≡ o → (eq ≡ o → ⊥) → q ≡ key → ⊥
ne_of_cmp {q} {key} e n p = n (sym (ap (λ (t : Bytes). cmp q t) (sym p) ∙ cmp_refl q) ∙ e)

pub get-insert {ℓ} :
    {V : Type ℓ} (m : BTreeMap V) (key q : Bytes) (slot : V)
    → IsSorted m
    → get (insert m key slot) q ≡ (elim (cmp q key) [ eq ↦ some slot | _ ↦ get m q ])
get-insert m key q slot s = by_order (cmp q key) refl
  where
    by_order :
        (o : Ordering)
        → cmp q key ≡ o
        → get (insert m key slot) q ≡ elim o [ eq ↦ some slot | _ ↦ get m q ]
    by_order eq e = rw (eq_of_cmp q key e) (get-insert_self m key slot)
    by_order lt e = get-insert_ne m key q slot s (ne_of_cmp e (λ p. cc))
    by_order gt e = get-insert_ne m key q slot s (ne_of_cmp e (λ p. cc))

-- A key's slot in the map after a write of `key`.
abbrev pub slot_after : Bytes → Option TableEntry → Memtable → Bytes → Option (Option TableEntry)
slot_after key slot s q = elim (cmp q key) [ eq ↦ some slot | _ ↦ get s.in_memory_repr q ]

-- On a sound memtable, where the log does not fail and no flush is due after it, `put` succeeds, and
-- leaves in the memtable, at every key, what it had before, and the new entry at its own key.
pub put-slot_after :
    (h : Host) (io : Io) (key q : Bytes) (e : TableEntry) (s : Memtable) (i : IsSound s)
    → IsCalm io key (some e) s i.config
    → ((put h io key e s).0 ≡ ok tt)
      × (get (put h io key e s).1.in_memory_repr q ≡ slot_after key (some e) s q)
put-slot_after h io key q e s i calm =
    let w = put-Written h io key s i e calm in
    (w.fine, rw w.repr (get-insert s.in_memory_repr key q (some e) i.sorted))

-- What `get` returns where the lock is whole.
pub get_entry_lem :
    (key : Bytes) (s : Memtable)
    → s.metrics_poisoned ≡ false
    → ((get_entry key s).0
        ≡ (elim (get s.in_memory_repr key) [ none ↦ err missing_key | some v ↦ ok v ]))
unfolding get_entry
get_entry_lem key s h = ground arith
