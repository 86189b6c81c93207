-- ===== src/Memtable/Sizes.antt =====
-- The size that the memtable keeps of itself.
use rusty_swift_merge.Base.{
  ℕ, ◌+◌, ◌%◌, ◌≡◌, ◌⊎◌, inl, inr, refl, sym, ap, ◌∙◌, arith, Option, none, some, [], ◌∷◌, length,
}
use rusty_swift_merge.Bytes.{Bytes, u32_mod, as_u32}
use rusty_swift_merge.Bytes.Order.{eq_of_cmp}
use rusty_swift_merge.BTreeMap.{BTreeMap, get, insert}
use rusty_swift_merge.Entry.{TableEntry, to_wal_entry, entry_of}
use rusty_swift_merge.Memtable.{Memtable, Host, Io, MemtableError, continue}
use rusty_swift_merge.Base.Outcome.{Outcome}
use rusty_swift_merge.Memtable.Ops.{
  write_slot, write_entry, get_existing_entry_size, resize, put, delete, manage_flush,
}
use rusty_swift_merge.Memtable.Durable.{Settles, continue-IsSettling, manage_flush-IsSettling}

-- The bytes of the entries of a map, as the log and the data section of a table have them.
unfoldable pub entries_size : BTreeMap (Option TableEntry) → ℕ
entries_size [] = 0
entries_size ((key, slot) ∷ m) = length (to_wal_entry key (entry_of slot)) + entries_size m

-- The size that is kept is that of the map, up to the wrap of a u32.
abbrev pub IsSized : Memtable → Type 0
IsSized s = s.current_size_bytes ≡ entries_size s.in_memory_repr % u32_mod

abbrev or_zero : Option ℕ → ℕ
or_zero none = 0
or_zero (some n) = n

abbrev size_of : Bytes → Option (Option TableEntry) → Option ℕ
size_of key none = none
size_of key (some slot) = some (length (to_wal_entry key (entry_of slot)))

entries_size-insert :
    (m : BTreeMap (Option TableEntry)) (key : Bytes) (slot : Option TableEntry)
    → entries_size (insert m key slot) + or_zero (size_of key (get m key))
      ≡ entries_size m + length (to_wal_entry key (entry_of slot))
unfolding entries_size insert get
entries_size-insert [] key slot = omega arith
entries_size-insert ((k, v) ∷ m) key slot =
    ground (arith, entries_size-insert m key slot, eq_of_cmp key k)

resize_lem :
    (before after new : ℕ) (old : Option ℕ)
    → after + or_zero old ≡ before + new
    → resize (before % u32_mod) old (as_u32 new) ≡ after % u32_mod
unfolding resize
resize_lem before after new none h = omega arith
resize_lem before after new (some old) h = ground arith

get_existing_entry_size_lem :
    (s : Memtable) (key : Bytes)
    → get_existing_entry_size s key ≡ size_of key (get s.in_memory_repr key)
unfolding get_existing_entry_size
get_existing_entry_size_lem s key = by_slot (get s.in_memory_repr key)
  where
    by_slot :
        (o : Option (Option TableEntry))
        → (elim o [ none ↦ none | some v ↦ some (length (to_wal_entry key (entry_of v))) ])
          ≡ size_of key o
    by_slot none = refl
    by_slot (some v) = refl

IsSized-Settles : (s s' : Memtable) → IsSized s → Settles s s' → IsSized s'
IsSized-Settles s s' h (inl (w, m, z)) =
    z ∙ h ∙ ap (λ (t : BTreeMap (Option TableEntry)). entries_size t % u32_mod) (sym m)
IsSized-Settles s s' h (inr (w, m, z)) =
    z ∙ empty ∙ ap (λ (t : BTreeMap (Option TableEntry)). entries_size t % u32_mod) (sym m)
  where
    empty : 0 ≡ entries_size [] % u32_mod
    empty = unfold entries_size in refl

-- A write either fails before it changes map and size, or changes both.
write_slot-sizes :
    (io : Io) (key : Bytes) (slot : Option TableEntry) (s : Memtable)
    → let after = (write_slot io key slot s).1 in
      ((after.in_memory_repr ≡ s.in_memory_repr)
        × (after.current_size_bytes ≡ s.current_size_bytes))
      ⊎ ((after.in_memory_repr ≡ insert s.in_memory_repr key slot)
          × (after.current_size_bytes
              ≡ resize s.current_size_bytes
                  (get_existing_entry_size s key)
                  (as_u32 (length (to_wal_entry key (entry_of slot))))))
unfolding write_slot write_entry get_existing_entry_size
write_slot-sizes io key slot s = ground arith

write_slot-IsSized :
    (io : Io) (key : Bytes) (slot : Option TableEntry) (s : Memtable)
    → IsSized s
    → IsSized (write_slot io key slot s).1
write_slot-IsSized io key slot s h = elim (write_slot-sizes io key slot s) [
  | inl (m, z) ↦ z ∙ h ∙ ap (λ (t : BTreeMap (Option TableEntry)). entries_size t % u32_mod) (sym m)
  | inr (m, z) ↦
      let new = length (to_wal_entry key (entry_of slot)) in
      z
      ∙ ap (λ (o : Option ℕ). resize s.current_size_bytes o (as_u32 new))
          (get_existing_entry_size_lem s key)
      ∙ ap (λ (n : ℕ). resize n (size_of key (get s.in_memory_repr key)) (as_u32 new)) h
      ∙ resize_lem (entries_size s.in_memory_repr) (entries_size (insert s.in_memory_repr key slot))
          new (size_of key (get s.in_memory_repr key))
          (entries_size-insert s.in_memory_repr key slot)
      ∙ ap (λ (t : BTreeMap (Option TableEntry)). entries_size t % u32_mod) (sym m)
]

after_write-IsSized :
    (h : Host) (io : Io) (r : Outcome MemtableError (Unit {0})) (s : Memtable)
    → IsSized s
    → IsSized (continue r (λ u. manage_flush h io) s).1
after_write-IsSized h io r s k =
    IsSized-Settles s (continue r (λ u. manage_flush h io) s).1 k
      (continue-IsSettling r (λ u. manage_flush h io) s (λ u. manage_flush-IsSettling h io))

-- If the size that a memtable keeps is that of its entries, up to the wrap of a u32, then so it is
-- after a put and after a delete, whatever they return: where the log fails, where an entry is
-- replaced, and where a flush empties the memtable or fails on the way.
pub put_and_delete-IsSized :
    (h : Host) (io : Io) (key : Bytes) (e : TableEntry) (s : Memtable)
    → IsSized s
    → IsSized (put h io key e s).1 × IsSized (delete h io key s).1
unfolding put delete
put_and_delete-IsSized h io key e s z = (
  after_write-IsSized h io (write_slot io key (some e) s).0 (write_slot io key (some e) s).1
      (write_slot-IsSized io key (some e) s z),
  after_write-IsSized h io (write_slot io key none s).0 (write_slot io key none s).1
      (write_slot-IsSized io key none s z),
)
