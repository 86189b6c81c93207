-- ===== src/Memtable/Durable.antt =====
-- With the log on, the log that the memtable has written rebuilds the memtable.
use rusty_swift_merge.Base.{
  ℕ, ◌≤◌, ◌≡◌, refl, sym, ap, ◌∙◌, arith, Bool, true, false, ◌⊎◌, Option, none, some, List, [], ◌∷◌,
  ◌++◌, append-nil, length, length-append, le→ltb, take, All, All-append, ◌==◌, inl, inr,
}
use rusty_swift_merge.Base.Outcome.{Outcome, ok, err, panic, out_of_fuel}
use rusty_swift_merge.Bytes.{Bytes}
use rusty_swift_merge.BTreeMap.{BTreeMap, insert}
use rusty_swift_merge.Entry.{TableEntry, to_wal_entry, entry_of}
use rusty_swift_merge.Config.{ConfigInfo}
use rusty_swift_merge.Memtable.{Memtable, Host, Io, Exec, MemtableError, continue, ◌>>=◌, ◌>>◌}
use rusty_swift_merge.Memtable.Ops.{
  write_entry, clear, store_file, reset_state, write_table, flush_contents, flush, flush_and_count,
  manage_flush, write_slot, put, delete, check, unwrap_config, lock_or_error,
}
use rusty_swift_merge.Memtable.Recovery.{rebuild_memtable}
use rusty_swift_merge.Memtable.Replay.{
  Write, FitsWrite, log_of, length-to_wal_entry, apply_writes, replay-log_of, log_of-append,
  apply_writes-append,
}

-- The log is that of some writes that fit, and the map is what they build.
pub record IsLogged (s : Memtable) : Type 0 where
  pub writes : List Write
  pub fit : All FitsWrite writes
  pub logged : s.wal ≡ log_of writes
  pub built : s.in_memory_repr ≡ apply_writes [] writes

-- One write more, in the log and in the map.
IsLogged-write :
    (s s' : Memtable) (key : Bytes) (slot : Option TableEntry)
    → IsLogged s
    → FitsWrite (key, slot)
    → s'.wal ≡ s.wal ++ to_wal_entry key (entry_of slot)
    → s'.in_memory_repr ≡ insert s.in_memory_repr key slot
    → IsLogged s'
unfolding log_of apply_writes
IsLogged-write s s' key slot h fits w m = record {
  writes = h.writes ++ (key, slot) ∷ [];
  fit = All-append FitsWrite h.writes ((key, slot) ∷ []) h.fit (fits, tt);
  logged =
      w
      ∙ ap (λ (t : Bytes). t ++ to_wal_entry key (entry_of slot)) h.logged
      ∙ sym (
          log_of-append h.writes ((key, slot) ∷ [])
          ∙ ap (λ (t : Bytes). log_of h.writes ++ t)
              (append-nil (to_wal_entry key (entry_of slot))));
  built =
      m
      ∙ ap (λ (t : BTreeMap (Option TableEntry)). insert t key slot) h.built
      ∙ sym (apply_writes-append [] h.writes ((key, slot) ∷ []));
}

-- Nothing is in the log, nor in the map.
IsLogged-empty : (s : Memtable) → s.wal ≡ [] → s.in_memory_repr ≡ [] → IsLogged s
IsLogged-empty s w m = record {
  writes = [];
  fit = tt;
  logged = unfold log_of in w;
  built = unfold apply_writes in m;
}

-- A call that leaves log, map and size alone, or empties them.
abbrev pub Settles : Memtable → Memtable → Type 0
Settles s s' =
    ((s'.wal ≡ s.wal)
      × (s'.in_memory_repr ≡ s.in_memory_repr)
      × (s'.current_size_bytes ≡ s.current_size_bytes))
    ⊎ ((s'.wal ≡ []) × (s'.in_memory_repr ≡ []) × (s'.current_size_bytes ≡ 0))

Settles-trans : (s t u : Memtable) → Settles s t → Settles t u → Settles s u
Settles-trans s t u p q = ground arith

-- An action that settles, from every state and with every outcome.
abbrev pub IsSettling : {A : Type 0} → Exec A → Type 0
IsSettling m = (s : Memtable) → Settles s (m s).1

pub continue-IsSettling :
    {A B : Type 0} (r : Outcome MemtableError A) (f : A → Exec B) (s : Memtable)
    → ((a : A) → IsSettling (f a))
    → Settles s (continue r f s).1
continue-IsSettling (ok a) f s h = h a s
continue-IsSettling (err e) f s h = inl (refl, refl, refl)
continue-IsSettling panic f s h = inl (refl, refl, refl)
continue-IsSettling out_of_fuel f s h = inl (refl, refl, refl)

bind-IsSettling :
    {A B : Type 0} (m : Exec A) (f : A → Exec B)
    → IsSettling m
    → ((a : A) → IsSettling (f a))
    → IsSettling (m >>= f)
bind-IsSettling m f hm hf s =
    Settles-trans s (m s).1 (continue (m s).0 f (m s).1).1 (hm s)
      (continue-IsSettling (m s).0 f (m s).1 hf)

write_table-IsSettling : (h : Host) (io : Io) (c : ConfigInfo) → IsSettling (write_table h io c)
unfolding write_table store_file
write_table-IsSettling h io c s = ground arith

clear_and_reset-IsSettling : (io : Io) (c : ConfigInfo) → IsSettling (clear io >> reset_state io c)
unfolding clear reset_state
clear_and_reset-IsSettling io c s = ground arith

check-IsSettling : (fine : Bool) → IsSettling (check fine)
check-IsSettling fine s = ground arith

unwrap_config-IsSettling : IsSettling unwrap_config
unwrap_config-IsSettling s = ground arith

lock_or_error-IsSettling : IsSettling lock_or_error
lock_or_error-IsSettling s = ground arith

flush_contents-IsSettling : (h : Host) (io : Io) → IsSettling (flush_contents h io)
unfolding flush_contents
flush_contents-IsSettling h io =
    bind-IsSettling (check io.create_dirs) _ (check-IsSettling io.create_dirs) λ u.
      bind-IsSettling unwrap_config _ unwrap_config-IsSettling λ c.
        bind-IsSettling (write_table h io c) _ (write_table-IsSettling h io c)
          λ v. clear_and_reset-IsSettling io c

flush-IsSettling : (h : Host) (io : Io) → IsSettling (flush h io)
unfolding flush
flush-IsSettling h io s = ground (arith, flush_contents-IsSettling h io s)

flush_and_count-IsSettling : (h : Host) (io : Io) → IsSettling (flush_and_count h io)
unfolding flush_and_count
flush_and_count-IsSettling h io =
    bind-IsSettling (flush h io) _ (flush-IsSettling h io)
      λ u. bind-IsSettling lock_or_error _ lock_or_error-IsSettling λ v s. inl (refl, refl, refl)

pub manage_flush-IsSettling : (h : Host) (io : Io) → IsSettling (manage_flush h io)
unfolding manage_flush
manage_flush-IsSettling h io =
    bind-IsSettling unwrap_config _ unwrap_config-IsSettling
      λ c s. ground (arith, flush_and_count-IsSettling h io s)

IsLogged-Settles : (s s' : Memtable) → IsLogged s → Settles s s' → IsLogged s'
IsLogged-Settles s s' h (inl (w, m, z)) = record {
  writes = h.writes;
  fit = h.fit;
  logged = w ∙ h.logged;
  built = m ∙ h.built;
}
IsLogged-Settles s s' h (inr (w, m, z)) = IsLogged-empty s' w m

-- `File::write` takes an entry whole, or fails.
abbrev pub TakesWhole : Io → Bytes → Type 0
TakesWhole io entry = (io.wal_write ≡ none) ⊎ (io.wal_write ≡ some (length entry))

pub take-length {ℓ} : {A : Type ℓ} (xs : List A) → take (length xs) xs ≡ xs
take-length [] = refl
take-length (x ∷ xs) = ap (λ t. x ∷ t) (take-length xs)

-- With the log on, a write either fails and leaves log and map alone, or does both.
write_slot-cases :
    (io : Io) (key : Bytes) (slot : Option TableEntry) (s : Memtable) (c : ConfigInfo)
    → s.config ≡ some c
    → c.wal_enabled ≡ true
    → TakesWhole io (to_wal_entry key (entry_of slot))
    → Settles s (write_slot io key slot s).1
      ⊎ (((write_slot io key slot s).1.wal ≡ s.wal ++ to_wal_entry key (entry_of slot))
          × ((write_slot io key slot s).1.in_memory_repr ≡ insert s.in_memory_repr key slot))
unfolding write_slot write_entry
write_slot-cases io key slot s c hc hw whole =
    ground (arith, take-length (to_wal_entry key (entry_of slot)))

write_slot-IsLogged :
    (io : Io) (key : Bytes) (slot : Option TableEntry) (s : Memtable) (c : ConfigInfo)
    → s.config ≡ some c
    → c.wal_enabled ≡ true
    → TakesWhole io (to_wal_entry key (entry_of slot))
    → FitsWrite (key, slot)
    → IsLogged s
    → IsLogged (write_slot io key slot s).1
write_slot-IsLogged io key slot s c hc hw whole fits h =
    elim (write_slot-cases io key slot s c hc hw whole) [
      | inl same ↦ IsLogged-Settles s _ h same
      | inr (w, m) ↦ IsLogged-write s _ key slot h fits w m
    ]

-- With the log on, and log writes that are whole or fail, `put` of a key and an entry that fit
-- leaves a log that is that of the memtable, whatever it returns.
pub put-IsLogged :
    (h : Host) (io : Io) (key : Bytes) (e : TableEntry) (s : Memtable) (c : ConfigInfo)
    → s.config ≡ some c
    → c.wal_enabled ≡ true
    → TakesWhole io (to_wal_entry key (entry_of (some e)))
    → FitsWrite (key, some e)
    → IsLogged s
    → IsLogged (put h io key e s).1
unfolding put
put-IsLogged h io key e s c hc hw whole fits l =
    let w = write_slot io key (some e) s in
    IsLogged-Settles w.1 _ (write_slot-IsLogged io key (some e) s c hc hw whole fits l)
      (continue-IsSettling w.0 (λ u. manage_flush h io) w.1 (λ u. manage_flush-IsSettling h io))

-- With the log on, and log writes that are whole or fail, `delete` of a key that fits leaves a log
-- that is that of the memtable, whatever it returns.
pub delete-IsLogged :
    (h : Host) (io : Io) (key : Bytes) (s : Memtable) (c : ConfigInfo)
    → s.config ≡ some c
    → c.wal_enabled ≡ true
    → TakesWhole io (to_wal_entry key (entry_of none))
    → FitsWrite (key, none)
    → IsLogged s
    → IsLogged (delete h io key s).1
unfolding delete
delete-IsLogged h io key s c hc hw whole fits l =
    let w = write_slot io key none s in
    IsLogged-Settles w.1 _ (write_slot-IsLogged io key none s c hc hw whole fits l)
      (continue-IsSettling w.0 (λ u. manage_flush h io) w.1 (λ u. manage_flush-IsSettling h io))

length-log_of : (w : Write) (writes : List Write) → 8 ≤ length (log_of (w ∷ writes))
unfolding log_of
length-log_of (key, slot) writes = omega (
  arith,
  length-to_wal_entry key (entry_of slot),
  length-append (to_wal_entry key (entry_of slot)) (log_of writes),
)

nonzero : (n : ℕ) → 8 ≤ n → (n == 0) ≡ false
nonzero n h = ground arith

rebuild_memtable-log_of :
    (writes : List Write) (s : Memtable)
    → All FitsWrite writes
    → s.in_memory_repr ≡ []
    → ((rebuild_memtable (log_of writes) s).0 ≡ ok tt)
      × ((rebuild_memtable (log_of writes) s).1.in_memory_repr ≡ apply_writes [] writes)
unfolding rebuild_memtable
rebuild_memtable-log_of [] s h e = unfold log_of apply_writes in (refl, e)
rebuild_memtable-log_of (w ∷ writes) s h e =
    let size = length-log_of w writes in
    rw
      (
        nonzero (length (log_of (w ∷ writes))) size,
        le→ltb (length (log_of (w ∷ writes))) 4 (omega (arith, size)),
        e,
        replay-log_of (w ∷ writes) [] (length (log_of (w ∷ writes))) h (omega arith),
      )
      (refl, refl)

-- Rebuilding a memtable with an empty map from the log of a state whose log is that of its memtable
-- succeeds, with the map that the state had.
pub rebuild_memtable-IsLogged :
    (s : Memtable) (blank : Memtable)
    → IsLogged s
    → blank.in_memory_repr ≡ []
    → ((rebuild_memtable s.wal blank).0 ≡ ok tt)
      × ((rebuild_memtable s.wal blank).1.in_memory_repr ≡ s.in_memory_repr)
rebuild_memtable-IsLogged s blank h e =
    rw (h.logged, h.built) (rebuild_memtable-log_of h.writes blank h.fit e)
