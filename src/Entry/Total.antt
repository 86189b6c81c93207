-- ===== src/Entry/Total.antt =====
-- `deserialize` ends on every input, well formed or not.
use rusty_swift_merge.Base.{
  ℕ, zero, suc, ◌+◌, ◌≤◌, ◌<◌, ◌≡◌, ◌≢◌, refl, arith, [], ◌∷◌, length, Bool-cases, inl, inr,
}
use rusty_swift_merge.Base.Outcome.{
  Outcome, ok, err, panic, out_of_fuel, ◌>>=◌, Ensures, Ensures-bind, Ensures-ok,
}
use rusty_swift_merge.Bytes.{Bytes}
use rusty_swift_merge.Bytes.Cursor.{read_bytes, read_u32, length-read_u32, length-read_bytes}
use rusty_swift_merge.Bytes.Utf8.{is_utf8}
use rusty_swift_merge.BTreeMap.{BTreeMap, insert}
use rusty_swift_merge.Entry.{
  to_enum_varient, TypeInfoMetadata, unwrap_utf8, DecodingError, malformed_data, no_key_len,
  key_too_short, no_byte_len, raw_too_short, no_true_type, deserialize_type_info,
  deserialize_meta_data, deserialize_flag, deserialize,
}

deserialize_type_info-ne-out_of_fuel : (src : Bytes) → deserialize_type_info src ≢ out_of_fuel
unfolding deserialize_type_info read_u32 read_bytes unwrap_utf8
deserialize_type_info-ne-out_of_fuel src e = ground arith

unwrap_utf8-takes : (key : Bytes) → Ensures (λ k. Unit {0}) (unwrap_utf8 key)
unfolding unwrap_utf8
unwrap_utf8-takes key = elim (Bool-cases (is_utf8 key)) [ inl e ↦ rw e tt | inr e ↦ rw e tt ]

abbrev Shorter : Bytes → Bytes × TypeInfoMetadata × Bytes → Type 0
Shorter src t = length t.2 < length src

deserialize_type_info-takes : (src : Bytes) → Ensures (Shorter src) (deserialize_type_info src)
unfolding deserialize_type_info
deserialize_type_info-takes src =
    Ensures-bind _ (Shorter src) _ _ (length-read_u32 (malformed_data no_key_len) src)
      λ (p : ℕ × Bytes) (hp : length src ≡ length p.1 + 4).
        Ensures-bind _ (Shorter src) _ _ (length-read_bytes (malformed_data key_too_short) p.0 p.1)
          λ (q : Bytes × Bytes) (hq : length p.1 ≡ length q.1 + p.0).
            Ensures-bind _ (Shorter src) _ _ (length-read_u32 (malformed_data no_byte_len) q.1)
              λ (r : ℕ × Bytes) (hr : length q.1 ≡ length r.1 + 4).
                Ensures-bind _ (Shorter src) _ _
                  (length-read_bytes (malformed_data raw_too_short) r.0 r.1)
                  λ (s : Bytes × Bytes) (hs : length r.1 ≡ length s.1 + r.0).
                    Ensures-bind _ (Shorter src) _ _
                      (length-read_bytes (malformed_data no_true_type) 1 s.1)
                      λ (t : Bytes × Bytes) (ht : length s.1 ≡ length t.1 + 1).
                        Ensures-bind {E = DecodingError} _ (Shorter src) _
                          (λ k. ok (k, record { raw = s.0; true_type = to_enum_varient t.0 }, t.1))
                          (unwrap_utf8-takes q.0) λ (k : Bytes) hk. omega arith

-- The rest of a round of the loop, after the entry.
abbrev continue :
    ℕ
    → BTreeMap TypeInfoMetadata
    → Bytes × TypeInfoMetadata × Bytes
    → Outcome DecodingError (BTreeMap TypeInfoMetadata)
continue fuel md t = deserialize_meta_data fuel t.2 (insert md t.0 t.1)

continue-ne-out_of_fuel :
    (fuel : ℕ) (md : BTreeMap TypeInfoMetadata) (src : Bytes)
    (m : Outcome DecodingError (Bytes × TypeInfoMetadata × Bytes))
    → deserialize_type_info src ≡ m
    → length src ≤ suc fuel
    → ((rest : Bytes) (md : BTreeMap TypeInfoMetadata)
        → length rest ≤ fuel
        → deserialize_meta_data fuel rest md ≢ out_of_fuel)
    → (m >>= continue fuel md) ≢ out_of_fuel
continue-ne-out_of_fuel fuel md src (ok (key, info, rest)) e h ih =
    ih rest (insert md key info)
      (omega (arith, Ensures-ok _ _ _ (deserialize_type_info-takes src) e))
continue-ne-out_of_fuel fuel md src (err x) e h ih = λ p. cc
continue-ne-out_of_fuel fuel md src panic e h ih = λ p. cc
continue-ne-out_of_fuel fuel md src out_of_fuel e h ih =
    λ p. deserialize_type_info-ne-out_of_fuel src e

deserialize_meta_data-ne-out_of_fuel :
    (fuel : ℕ) (src : Bytes) (md : BTreeMap TypeInfoMetadata)
    → length src ≤ fuel
    → deserialize_meta_data fuel src md ≢ out_of_fuel
unfolding deserialize_meta_data
deserialize_meta_data-ne-out_of_fuel fuel [] md h = λ e. cc
deserialize_meta_data-ne-out_of_fuel zero (b ∷ bs) md h = absurd (omega arith)
deserialize_meta_data-ne-out_of_fuel (suc fuel) (b ∷ bs) md h =
    continue-ne-out_of_fuel fuel md (b ∷ bs) (deserialize_type_info (b ∷ bs)) refl h
      (λ rest acc k. deserialize_meta_data-ne-out_of_fuel fuel rest acc k)

deserialize_flag-ne-out_of_fuel : (value rest : Bytes) → deserialize_flag value rest ≢ out_of_fuel
unfolding deserialize_flag
deserialize_flag-ne-out_of_fuel value [] e = cc
deserialize_flag-ne-out_of_fuel value (flag ∷ rest) e =
    ground (arith, deserialize_meta_data-ne-out_of_fuel (length rest) rest [] (omega arith))

-- On every byte string `deserialize` returns an entry, an error or a panic: its loop has the
-- rounds that it needs.
pub deserialize-ne-out_of_fuel : (bytes : Bytes) → deserialize bytes ≢ out_of_fuel
unfolding deserialize read_bytes
deserialize-ne-out_of_fuel bytes e = grind (arith, deserialize_flag-ne-out_of_fuel)
