-- ===== src/Memtable/Replay.antt =====
-- Replaying the log of some writes gives the map that they build.
use rusty_swift_merge.Base.{
  ℕ, zero, suc, ◌+◌, ◌≤◌, ◌<◌, ◌≡◌, refl, sym, ◌∙◌, arith, false, Option, none, some, List, [], ◌∷◌,
  ◌++◌, append_assoc, length, length-append, take-append, drop-append, All, ◌==◌, le→ltb, lt→leb,
}
use rusty_swift_merge.Base.Outcome.{ok}
use rusty_swift_merge.Bytes.{
  Bytes, u32_mod, as_u32, to_le_bytes, length-to_le_bytes, from_le_bytes-to_le_bytes,
}
use rusty_swift_merge.BTreeMap.{BTreeMap, insert}
use rusty_swift_merge.Entry.{TableEntry, WalEntry, wal_value, to_wal_entry, entry_of, serialize}
use rusty_swift_merge.Entry.RoundTrip.{Fits, deserialize-serialize, length-serialize}
use rusty_swift_merge.Memtable.Recovery.{
  slice_u32, is_tombstone_value, decode_value, replay_entry, replay,
}
use native.Mathlib.Nat.{mod-eq_of_lt}

-- One write: a key and what is put under it.
abbrev pub Write : Type 0
Write = Bytes × Option TableEntry

abbrev pub FitsSlot : Option TableEntry → Type 0
FitsSlot none = Unit {0}
FitsSlot (some e) = Fits e × (length (serialize e) < u32_mod)

-- A key that is not empty, and lengths that fit their prefixes.
abbrev pub FitsWrite : Write → Type 0
FitsWrite (key, slot) = (0 < length key) × (length key < u32_mod) × FitsSlot slot

unfoldable pub log_of : List Write → Bytes
log_of [] = []
log_of ((key, slot) ∷ writes) = to_wal_entry key (entry_of slot) ++ log_of writes

unfoldable pub apply_writes :
    BTreeMap (Option TableEntry) → List Write → BTreeMap (Option TableEntry)
apply_writes m [] = m
apply_writes m ((key, slot) ∷ writes) = apply_writes (insert m key slot) writes

is_tombstone_value-long : (bs : Bytes) → 2 ≤ length bs → is_tombstone_value bs ≡ false
unfolding is_tombstone_value
is_tombstone_value-long [] h = refl
is_tombstone_value-long (a ∷ []) h = absurd (omega arith)
is_tombstone_value-long (a ∷ b ∷ bs) h = refl

decode_value-wal_value :
    (slot : Option TableEntry) → FitsSlot slot → decode_value (wal_value (entry_of slot)) ≡ ok slot
unfolding decode_value wal_value
decode_value-wal_value none h = unfold is_tombstone_value in refl
decode_value-wal_value (some e) h = rw (
  is_tombstone_value-long (serialize e) (omega (arith, length-serialize e)),
  deserialize-serialize e h.0,
)

length-wal_value :
    (slot : Option TableEntry)
    → FitsSlot slot
    → (1 ≤ length (wal_value (entry_of slot))) × (length (wal_value (entry_of slot)) < u32_mod)
unfolding wal_value
length-wal_value none h = omega arith
length-wal_value (some e) h = omega (arith, length-serialize e, h.1)

slice_u32-append :
    (n : ℕ) (rest : Bytes) → n < u32_mod → slice_u32 (to_le_bytes 4 (as_u32 n) ++ rest) ≡ ok n
unfolding slice_u32
slice_u32-append n rest h = rw (
  mod-eq_of_lt h,
  le→ltb (length (to_le_bytes 4 n ++ rest)) 4
      (omega (arith, length-append (to_le_bytes 4 n) rest, length-to_le_bytes 4 n)),
  take-append 4 (to_le_bytes 4 n) rest (length-to_le_bytes 4 n),
  from_le_bytes-to_le_bytes 4 n h,
)

nonzero : (n : ℕ) → 0 < n → (n == 0) ≡ false
nonzero n h = ground arith

-- The loop's round on an entry with more log behind it.
replay_entry-parts :
    (key value rest : Bytes) (slot : Option TableEntry)
    → 0 < length key
    → length key < u32_mod
    → 1 ≤ length value
    → length value < u32_mod
    → decode_value value ≡ ok slot
    → replay_entry (
        to_le_bytes 4 (as_u32 (length key))
        ++ (key ++ (to_le_bytes 4 (as_u32 (length value)) ++ (value ++ rest))))
      ≡ ok (key, slot, rest)
unfolding replay_entry
replay_entry-parts key value rest slot hk hk' hv hv' d =
    let k4 = to_le_bytes 4 (as_u32 (length key)) in
    let v4 = to_le_bytes 4 (as_u32 (length value)) in
    let at_key = key ++ (v4 ++ (value ++ rest)) in
    let size : length (v4 ++ (value ++ rest)) ≡ 4 + (length value + length rest) = omega (
      arith,
      length-append v4 (value ++ rest),
      length-append value rest,
      length-to_le_bytes 4 (as_u32 (length value)),
    ) in
    rw (
      slice_u32-append (length key) at_key hk',
      nonzero (length key) hk,
      drop-append 4 k4 at_key (length-to_le_bytes 4 (as_u32 (length key))),
      lt→leb (length at_key) (length key)
          (omega (arith, length-append key (v4 ++ (value ++ rest)), size)),
      drop-append (length key) key (v4 ++ (value ++ rest)) refl,
      take-append (length key) key (v4 ++ (value ++ rest)) refl,
      lt→leb (length (v4 ++ (value ++ rest))) 4 (omega (arith, size)),
      drop-append 4 v4 (value ++ rest) (length-to_le_bytes 4 (as_u32 (length value))),
      take-append 4 v4 (value ++ rest) (length-to_le_bytes 4 (as_u32 (length value))),
      mod-eq_of_lt hv',
      from_le_bytes-to_le_bytes 4 (length value) hv',
      le→ltb (length (value ++ rest)) (length value) (omega (arith, length-append value rest)),
      take-append (length value) value rest refl,
      drop-append (length value) value rest refl,
      d,
    )

pub replay_entry-append :
    (key : Bytes) (slot : Option TableEntry) (rest : Bytes)
    → FitsWrite (key, slot)
    → replay_entry (to_wal_entry key (entry_of slot) ++ rest) ≡ ok (key, slot, rest)
unfolding to_wal_entry
replay_entry-append key slot rest h =
    let size = length-wal_value slot h.2 in
    simp append_assoc (
      replay_entry-parts key (wal_value (entry_of slot)) rest slot h.0 h.1 size.0 size.1
        (decode_value-wal_value slot h.2))

replay_step :
    (fuel : ℕ) (src : Bytes) (m : BTreeMap (Option TableEntry)) {key : Bytes}
    {slot : Option TableEntry} {rest : Bytes}
    → replay_entry src ≡ ok (key, slot, rest)
    → replay (suc fuel) src m ≡ replay fuel rest (insert m key slot)
unfolding replay
replay_step fuel [] m e = unfold replay_entry slice_u32 in cc
replay_step fuel (b ∷ bs) m e = rw (e, replay)

pub length-to_wal_entry : (key : Bytes) (entry : WalEntry) → 8 ≤ length (to_wal_entry key entry)
unfolding to_wal_entry
length-to_wal_entry key entry = simp (length-append, length-to_le_bytes) (omega arith)

-- The log of writes that fit, replayed onto a map with as much fuel as it has bytes, succeeds and
-- makes the changes of the writes to the map.
pub replay-log_of :
    (writes : List Write) (m : BTreeMap (Option TableEntry)) (fuel : ℕ)
    → All FitsWrite writes
    → length (log_of writes) ≤ fuel
    → replay fuel (log_of writes) m ≡ (ok tt, apply_writes m writes)
unfolding log_of apply_writes
replay-log_of [] m fuel h hf = unfold replay in refl
replay-log_of ((key, slot) ∷ writes) m zero h hf = absurd (
    omega (
      arith,
      length-to_wal_entry key (entry_of slot),
      length-append (to_wal_entry key (entry_of slot)) (log_of writes),
    ))
replay-log_of ((key, slot) ∷ writes) m (suc fuel) h hf =
    replay_step fuel _ m (replay_entry-append key slot (log_of writes) h.0)
    ∙ replay-log_of writes (insert m key slot) fuel h.1 (
        omega (
          arith,
          length-to_wal_entry key (entry_of slot),
          length-append (to_wal_entry key (entry_of slot)) (log_of writes),
        ))

pub log_of-append : (xs ys : List Write) → log_of (xs ++ ys) ≡ log_of xs ++ log_of ys
unfolding log_of
log_of-append [] ys = refl
log_of-append ((key, slot) ∷ xs) ys =
    rw (log_of-append xs ys)
      (sym (append_assoc (to_wal_entry key (entry_of slot)) (log_of xs) (log_of ys)))

pub apply_writes-append :
    (m : BTreeMap (Option TableEntry)) (xs ys : List Write)
    → apply_writes m (xs ++ ys) ≡ apply_writes (apply_writes m xs) ys
unfolding apply_writes
apply_writes-append m [] ys = refl
apply_writes-append m ((key, slot) ∷ xs) ys = apply_writes-append (insert m key slot) xs ys
