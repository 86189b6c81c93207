-- ===== src/Entry/RoundTrip.antt =====
-- `deserialize` reads back what `serialize` wrote.
use rusty_swift_merge.Base.{
  ℕ, zero, suc, ◌+◌, ◌≤◌, ◌<◌, ◌≡◌, refl, ap, ◌∙◌, arith, true, Option, none, some, [], ◌∷◌, ◌++◌,
  append_assoc, append-nil, length, length-append, take-append, drop-append, lt→leb,
}
use rusty_swift_merge.Base.Outcome.{ok}
use rusty_swift_merge.Bytes.{
  Bytes, u32_mod, as_u32, to_le_bytes, length-to_le_bytes, from_le_bytes-to_le_bytes,
}
use rusty_swift_merge.Bytes.Cursor.{read_u32, read_bytes-append, read_u32-append}
use rusty_swift_merge.Bytes.Utf8.{is_utf8}
use rusty_swift_merge.BTreeMap.{BTreeMap, insert, IsSorted}
use rusty_swift_merge.BTreeMap.Laws.{insert_last}
use rusty_swift_merge.Entry.{
  TrueTypes, unspecified, enum_variant_value, to_enum_varient, TypeInfoMetadata, TableEntry,
  malformed_data, no_key_len, key_too_short, no_byte_len, raw_too_short, no_true_type,
  value_too_short, serialize_type_info, serialize_meta_data, serialize_map, serialize, unwrap_utf8,
  deserialize_type_info, deserialize_meta_data, deserialize_flag, deserialize,
}
use native.Mathlib.Nat.{mod-eq_of_lt}

-- Every variant of `TrueTypes` is read back from its byte.
pub to_enum_varient-enum_variant_value :
    (t : TrueTypes) → to_enum_varient (enum_variant_value t ∷ []) ≡ t
unfolding to_enum_varient enum_variant_value
to_enum_varient-enum_variant_value unspecified = refl
to_enum_varient-enum_variant_value _ = refl

-- Lengths fit their prefixes, and a metadata key is a `String`.
abbrev pub FitsInfo : Bytes → TypeInfoMetadata → Type 0
FitsInfo key info = (length key < u32_mod) × (is_utf8 key ≡ true) × (length info.raw < u32_mod)

abbrev pub FitsMap : BTreeMap TypeInfoMetadata → Type 0
FitsMap [] = Unit {0}
FitsMap ((key, info) ∷ md) = FitsInfo key info × FitsMap md

abbrev pub FitsMetaData : Option (BTreeMap TypeInfoMetadata) → Type 0
FitsMetaData none = Unit {0}
FitsMetaData (some md) = IsSorted md × FitsMap md

abbrev pub Fits : TableEntry → Type 0
Fits e = (length e.value < u32_mod) × FitsMetaData e.meta_data

unwrap_utf8-ok : (key : Bytes) → is_utf8 key ≡ true → unwrap_utf8 key ≡ ok key
unfolding unwrap_utf8
unwrap_utf8-ok key h = rw h

deserialize_type_info-append :
    (key : Bytes) (info : TypeInfoMetadata) (rest : Bytes)
    → FitsInfo key info
    → deserialize_type_info (serialize_type_info key info ++ rest) ≡ ok (key, info, rest)
unfolding deserialize_type_info serialize_type_info
deserialize_type_info-append key info rest h = simp (
  append_assoc,
  read_u32-append (malformed_data no_key_len) (length key) h.0,
  read_bytes-append (malformed_data key_too_short) key,
  read_u32-append (malformed_data no_byte_len) (length info.raw) h.2,
  read_bytes-append (malformed_data raw_too_short) info.raw,
  read_bytes-append (malformed_data no_true_type) (enum_variant_value info.true_type ∷ []) rest,
  unwrap_utf8-ok key h.1,
  to_enum_varient-enum_variant_value,
)

-- One round of the loop, on any bytes that start with an entry.
deserialize_meta_data_step :
    (fuel : ℕ) (src : Bytes) (md : BTreeMap TypeInfoMetadata) {key : Bytes}
    {info : TypeInfoMetadata} {rest : Bytes}
    → deserialize_type_info src ≡ ok (key, info, rest)
    → deserialize_meta_data (suc fuel) src md ≡ deserialize_meta_data fuel rest (insert md key info)
unfolding deserialize_meta_data
deserialize_meta_data_step fuel [] md e = unfold deserialize_type_info read_u32 in cc
deserialize_meta_data_step fuel (b ∷ bs) md e = rw e

length-serialize_type_info :
    (key : Bytes) (info : TypeInfoMetadata) → 9 ≤ length (serialize_type_info key info)
unfolding serialize_type_info
length-serialize_type_info key info = simp (length-append, length-to_le_bytes) (omega arith)

deserialize_meta_data-serialize :
    (md acc : BTreeMap TypeInfoMetadata) (fuel : ℕ)
    → IsSorted (acc ++ md)
    → FitsMap md
    → length (serialize_meta_data md) ≤ fuel
    → deserialize_meta_data fuel (serialize_meta_data md) acc ≡ ok (acc ++ md)
unfolding serialize_meta_data
deserialize_meta_data-serialize [] acc fuel s h hf =
    rw append-nil (unfold deserialize_meta_data in refl)
deserialize_meta_data-serialize ((key, info) ∷ md) acc zero s h hf = absurd (
    omega (
      arith,
      length-serialize_type_info key info,
      length-append (serialize_type_info key info) (serialize_meta_data md),
    ))
deserialize_meta_data-serialize ((key, info) ∷ md) acc (suc fuel) s h hf =
    deserialize_meta_data_step fuel _ acc
      (deserialize_type_info-append key info (serialize_meta_data md) h.0)
    ∙ rw (insert_last acc key info md s) (
        deserialize_meta_data-serialize md (acc ++ (key, info) ∷ []) fuel (rw append_assoc s) h.1 (
          omega (
            arith,
            length-serialize_type_info key info,
            length-append (serialize_type_info key info) (serialize_meta_data md),
          ))
        ∙ ap ok (append_assoc acc ((key, info) ∷ []) md))

deserialize_flag-serialize_map :
    (value : Bytes) (m : Option (BTreeMap TypeInfoMetadata))
    → FitsMetaData m
    → deserialize_flag value (serialize_map m) ≡ ok (record { value = value; meta_data = m })
unfolding deserialize_flag serialize_map
deserialize_flag-serialize_map value none h = refl
deserialize_flag-serialize_map value (some md) h =
    rw (
      deserialize_meta_data-serialize md [] (length (serialize_meta_data md)) h.0 h.1 (omega arith))

length-serialize_map : (m : Option (BTreeMap TypeInfoMetadata)) → 1 ≤ length (serialize_map m)
unfolding serialize_map
length-serialize_map none = omega arith
length-serialize_map (some md) = omega arith

-- An encoded entry has five bytes at least, so it is no tombstone marker.
pub length-serialize : (e : TableEntry) → length e.value + 5 ≤ length (serialize e)
unfolding serialize
length-serialize e =
    simp (length-append, length-to_le_bytes) (omega (arith, length-serialize_map e.meta_data))

-- For a value, metadata keys and raw bytes whose lengths fit a u32, UTF-8 metadata keys and a
-- metadata map in order, `deserialize` returns the entry that `serialize` was given.
pub deserialize-serialize : (e : TableEntry) → Fits e → deserialize (serialize e) ≡ ok e
unfolding deserialize
deserialize-serialize e h =
    rw (lt→leb (length (serialize e)) 4 (omega (arith, length-serialize e))) (
      unfold serialize in
      rw
        (
          take-append 4 (to_le_bytes 4 (as_u32 (length e.value)))
              (e.value ++ serialize_map e.meta_data) (length-to_le_bytes 4 _),
          drop-append 4 (to_le_bytes 4 (as_u32 (length e.value)))
              (e.value ++ serialize_map e.meta_data) (length-to_le_bytes 4 _),
          mod-eq_of_lt h.0,
          from_le_bytes-to_le_bytes 4 (length e.value) h.0,
          read_bytes-append (malformed_data value_too_short) e.value (serialize_map e.meta_data),
        )
        (deserialize_flag-serialize_map e.value e.meta_data h.1))
