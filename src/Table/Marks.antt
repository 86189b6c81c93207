-- ===== src/Table/Marks.antt =====
-- What the loop of `flush` leaves: the data section, its largest key, and marks that point into it.
use rusty_swift_merge.Base.{
  ℕ, ◌+◌, ◌≡◌, refl, sym, subst, ap, ◌∙◌, Bool, true, false, ◌&&◌, Option, List, [], ◌∷◌, ◌++◌,
  append_assoc, append-nil, length, ltb, ◌==◌, if◌then◌else◌, All, All-append,
}
use rusty_swift_merge.Bytes.{Bytes}
use rusty_swift_merge.BTreeMap.{BTreeMap}
use rusty_swift_merge.Entry.{TableEntry, to_wal_entry, wal_value, entry_of}
use rusty_swift_merge.Table.{encode_entry, encode_data}
use rusty_swift_merge.Table.Writer.{FlushLoop, flush_bytes, flush_entries, flush_start}
use rusty_swift_merge.Table.Index.{IsMark, encode_data-append}

-- The entries of a memtable as the data section holds them.
unfoldable pub raw_entries : BTreeMap (Option TableEntry) → BTreeMap Bytes
raw_entries [] = []
raw_entries ((key, value_opt) ∷ m) = (key, wal_value (entry_of value_opt)) ∷ raw_entries m

unfoldable pub last_key {ℓ} : {V : Type ℓ} → Bytes → BTreeMap V → Bytes
last_key k [] = k
last_key k ((key, value) ∷ m) = last_key key m

-- The loop's state after the entries `before` of the section `entries`.
pub record IsAfter (entries before : BTreeMap Bytes) (l : FlushLoop) : Type 0 where
  pub buffer : l.ss_table_buffer ≡ encode_data before
  pub marks : All (IsMark entries) l.sparse_index_array

optional_mark :
    (P : ℕ × Bytes → Type 0) (b : Bool) (mark : ℕ × Bytes)
    → P mark
    → All P (if b then mark ∷ [] else [])
optional_mark P true mark h = (h, tt)
optional_mark P false mark h = tt

encode_data_last :
    (before : BTreeMap Bytes) (key value : Bytes)
    → encode_data (before ++ (key, value) ∷ []) ≡ encode_data before ++ encode_entry key value
unfolding encode_data
encode_data_last before key value =
    encode_data-append before ((key, value) ∷ [])
    ∙ ap (λ (t : Bytes). encode_data before ++ t) (append-nil (encode_entry key value))

-- One round keeps it, with the entry's own bytes.
flush_bytes-IsAfter :
    (entries before after : BTreeMap Bytes) (key value : Bytes) (target : ℕ) (l : FlushLoop)
    → entries ≡ before ++ (key, value) ∷ after
    → IsAfter entries before l
    → IsAfter entries
        (before ++ (key, value) ∷ [])
        (flush_bytes target l key (encode_entry key value))
unfolding flush_bytes
flush_bytes-IsAfter entries before after key value target l splits h =
    let mark : IsMark entries (length l.ss_table_buffer, key) = record {
      before = before;
      value = value;
      after = after;
      splits = splits;
      offset = ap (λ (t : Bytes). length t) h.buffer;
    } in
    let full =
      ltb 0 l.block_bytes && ltb target (l.block_bytes + length (encode_entry key value)) in
    record {
      buffer = rw (encode_data_last before key value, h.buffer);
      marks =
          All-append (IsMark entries) _ _
            (All-append (IsMark entries) l.sparse_index_array _ h.marks (
              optional_mark (IsMark entries) (l.block_bytes == 0) (length l.ss_table_buffer, key)
                mark))
            (optional_mark (IsMark entries) full (length l.ss_table_buffer, key) mark);
    }

to_wal_entry-eq-encode_entry :
    (key : Bytes) (v : Option TableEntry)
    → to_wal_entry key (entry_of v) ≡ encode_entry key (wal_value (entry_of v))
unfolding to_wal_entry encode_entry
to_wal_entry-eq-encode_entry key v = refl

flush_entries-IsAfter :
    (entries before : BTreeMap Bytes) (m : BTreeMap (Option TableEntry)) (target : ℕ)
    (l : FlushLoop)
    → entries ≡ before ++ raw_entries m
    → IsAfter entries before l
    → IsAfter entries entries (flush_entries target l m)
unfolding flush_entries raw_entries
flush_entries-IsAfter entries before [] target l e h =
    subst (λ b. IsAfter entries b l) (sym (rw append-nil at e)) h
flush_entries-IsAfter entries before ((key, v) ∷ m) target l e h =
    flush_entries-IsAfter entries (before ++ (key, wal_value (entry_of v)) ∷ []) m target _
      (rw append_assoc e)
      (rw (to_wal_entry-eq-encode_entry key v) (
        flush_bytes-IsAfter entries before (raw_entries m) key (wal_value (entry_of v)) target l e
          h))

-- The marks of a flushed memtable all point into its data section.
pub flush_entries_lem :
    (m : BTreeMap (Option TableEntry)) (target : ℕ)
    → IsAfter (raw_entries m) (raw_entries m) (flush_entries target flush_start m)
flush_entries_lem m target =
    flush_entries-IsAfter (raw_entries m) [] m target flush_start refl
      (record { buffer = unfold encode_data in refl; marks = tt })

max_key-flush_entries :
    (m : BTreeMap (Option TableEntry)) (target : ℕ) (l : FlushLoop)
    → (flush_entries target l m).max_key ≡ last_key l.max_key m
unfolding flush_entries last_key flush_bytes
max_key-flush_entries [] target l = refl
max_key-flush_entries ((key, v) ∷ m) target l = max_key-flush_entries m target _

pub max_key_lem :
    (m : BTreeMap (Option TableEntry)) (target : ℕ)
    → (flush_entries target flush_start m).max_key ≡ last_key [] m
max_key_lem m target = max_key-flush_entries m target flush_start

-- Marks are only added behind those that are there.
sparse_index-flush_bytes :
    (key kv : Bytes) (target : ℕ) (l : FlushLoop) (mark : ℕ × Bytes) (index : List (ℕ × Bytes))
    → l.sparse_index_array ≡ mark ∷ index
    → (index' : List (ℕ × Bytes)) × ((flush_bytes target l key kv).sparse_index_array
        ≡ mark ∷ index')
unfolding flush_bytes
sparse_index-flush_bytes key kv target l mark index e =
    let added : List (ℕ × Bytes) = (length l.ss_table_buffer, key) ∷ [] in
    let first : List (ℕ × Bytes) = if l.block_bytes == 0 then added else [] in
    let full = ltb 0 l.block_bytes && ltb target (l.block_bytes + length kv) in
    let next : List (ℕ × Bytes) = if full then added else [] in
    ((index ++ first) ++ next, ap (λ (t : List (ℕ × Bytes)). (t ++ first) ++ next) e)

sparse_index-flush_entries :
    (m : BTreeMap (Option TableEntry)) (target : ℕ) (l : FlushLoop) (mark : ℕ × Bytes)
    (index : List (ℕ × Bytes))
    → l.sparse_index_array ≡ mark ∷ index
    → (index' : List (ℕ × Bytes)) × ((flush_entries target l m).sparse_index_array ≡ mark ∷ index')
unfolding flush_entries
sparse_index-flush_entries [] target l mark index e = (index, e)
sparse_index-flush_entries ((key, v) ∷ m) target l mark index e =
    let (index', e') =
      sparse_index-flush_bytes key (to_wal_entry key (entry_of v)) target l mark index e in
    sparse_index-flush_entries m target (flush_bytes target l key (to_wal_entry key (entry_of v)))
      mark index' e'

-- The first mark is that of the first entry.
pub sparse_index_first :
    (key : Bytes) (v : Option TableEntry) (m : BTreeMap (Option TableEntry)) (target : ℕ)
    → (index : List (ℕ × Bytes)) × ((flush_entries target flush_start
          ((key, v) ∷ m)).sparse_index_array
        ≡ (0, key) ∷ index)
unfolding flush_entries flush_bytes
sparse_index_first key v m target = sparse_index-flush_entries m target _ (0, key) [] refl
