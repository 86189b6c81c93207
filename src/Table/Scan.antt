-- ===== src/Table/Scan.antt =====
-- The loop of `search` over the entries of a data section with the footer behind them.
use rusty_swift_merge.Base.{
  ℕ, zero, suc, ◌+◌, ◌<◌, ◌≡◌, ◌≢◌, ◌⊎◌, inl, inr, refl, ap, arith, Option, none, some, [], ◌∷◌,
  ◌++◌, append_assoc, append-nil, Ordering, length, length-append, le→ltb,
}
use Prim.Native.Nat.Ordering.{lt, eq, gt}
use rusty_swift_merge.Base.Outcome.{Outcome, ok, err}
use rusty_swift_merge.Bytes.{Bytes, u32_mod, as_u32, to_le_bytes, length-to_le_bytes}
use rusty_swift_merge.Bytes.Order.{cmp, cmp_refl, eq_of_cmp, gt_of_lt, lt_of_gt}
use rusty_swift_merge.Bytes.Cursor.{read_bytes-append, read_u32-append, read_u32, read_bytes}
use rusty_swift_merge.BTreeMap.{BTreeMap, get}
use rusty_swift_merge.Table.{encode_entry, encode_data, encode_footer}
use rusty_swift_merge.Table.Reader.{TableError, unexpected_eof, read_entry, scan}

-- Lengths fit their prefixes.
abbrev pub FitsData : BTreeMap Bytes → Type 0
FitsData [] = Unit {0}
FitsData ((key, value) ∷ entries) =
    (length key < u32_mod) × (length value < u32_mod) × FitsData entries

-- Some key of the section is not below `q`, so that a search for `q` stops at it.
abbrev pub Covers : Bytes → BTreeMap Bytes → Type 0
Covers q [] = ⊥
Covers q ((key, value) ∷ entries) = (cmp key q ≢ lt) ⊎ Covers q entries

pub read_entry-append :
    (key value rest : Bytes)
    → length key < u32_mod
    → length value < u32_mod
    → read_entry (encode_entry key value ++ rest) ≡ ok (key, value, rest)
unfolding read_entry encode_entry
read_entry-append key value rest hk hv = simp (
  append_assoc,
  read_u32-append unexpected_eof (length key) hk,
  read_bytes-append unexpected_eof key,
  read_u32-append unexpected_eof (length value) hv,
  read_bytes-append unexpected_eof value,
)

pub length-encode_entry :
    (key value : Bytes) → length (encode_entry key value) ≡ length key + length value + 8
unfolding encode_entry
length-encode_entry key value = simp (length-append, length-to_le_bytes) (omega arith)

-- One round of the loop.
scan_step :
    (fuel : ℕ) (q key value rest : Bytes)
    → length key < u32_mod
    → length value < u32_mod
    → scan (suc fuel) q (encode_entry key value ++ rest)
      ≡ elim (cmp key q) [ eq ↦ ok (some value) | gt ↦ ok none | lt ↦ scan fuel q rest ]
unfolding scan
scan_step fuel q key value rest hk hv = rw (
  le→ltb (length (encode_entry key value ++ rest)) 4
      (omega (arith, length-append (encode_entry key value) rest, length-encode_entry key value)),
  read_entry-append key value rest hk hv,
)

Covers-tail :
    (q key value : Bytes) (entries : BTreeMap Bytes)
    → Covers q ((key, value) ∷ entries)
    → cmp key q ≡ lt
    → Covers q entries
Covers-tail q key value entries (inl n) e = absurd (n e)
Covers-tail q key value entries (inr c) e = c

-- Where the lengths fit their prefixes, some key is not below `q` and the fuel is more than the
-- bytes, the loop over a data section, whatever follows it, finds what `get` finds for `q` in the
-- section's entries.
pub scan-encode_data :
    (entries : BTreeMap Bytes) (fuel : ℕ) (q tail : Bytes)
    → FitsData entries
    → Covers q entries
    → length (encode_data entries ++ tail) < fuel
    → scan fuel q (encode_data entries ++ tail) ≡ ok (get entries q)
unfolding encode_data get
scan-encode_data [] fuel q tail h c hf = absurd c
scan-encode_data ((key, value) ∷ entries) zero q tail h c hf = elim hf [ ]
scan-encode_data ((key, value) ∷ entries) (suc fuel) q tail h c hf =
    let shape : (encode_entry key value ++ encode_data entries) ++ tail
        ≡ encode_entry key value ++ (encode_data entries ++ tail) =
      append_assoc (encode_entry key value) (encode_data entries) tail in
    rw (shape, scan_step fuel q key value (encode_data entries ++ tail) h.0 h.1)
      (round
        (λ e. scan-encode_data entries fuel q tail h.2 (Covers-tail q key value entries c e) (
          omega (
            arith,
            ap (λ (t : Bytes). length t) shape,
            length-append (encode_entry key value) (encode_data entries ++ tail),
            length-encode_entry key value,
          )))
        (cmp key q) refl)
  where
    round :
        (cmp key q ≡ lt → scan fuel q (encode_data entries ++ tail) ≡ ok (get entries q))
        → (o : Ordering) → cmp key q ≡ o
        → ◌≡◌ {A = Outcome TableError (Option Bytes)}
            (elim o [
              | eq ↦ ok (some value)
              | gt ↦ ok none
              | lt ↦ scan fuel q (encode_data entries ++ tail)
            ])
            (ok (elim (cmp q key) [ lt ↦ none | eq ↦ some value | gt ↦ get entries q ]))
    round ih eq e = ground (arith, eq_of_cmp key q e, cmp_refl q)
    round ih gt e = ground (arith, lt_of_gt key q e)
    round ih lt e = rw (gt_of_lt key q e) (ih e)

-- At the footer of a largest key of less than 2^32 bytes the loop takes the footer for one more entry,
-- and fails with an end of file.
pub scan_past_end :
    (max_key q : Bytes) (fuel : ℕ)
    → length max_key < u32_mod
    → scan (suc fuel) q (encode_footer max_key) ≡ err unexpected_eof
unfolding scan read_entry encode_footer
scan_past_end max_key q fuel h =
    let key : read_bytes unexpected_eof (length max_key) max_key ≡ ok (max_key, []) =
      rw append-nil at (read_bytes-append unexpected_eof max_key []) in
    rw
      (
        le→ltb (length (to_le_bytes 4 (as_u32 (length max_key)) ++ max_key)) 4 (
            omega (
              arith,
              length-append (to_le_bytes 4 (as_u32 (length max_key))) max_key,
              length-to_le_bytes 4 (as_u32 (length max_key)),
            )),
        read_u32-append unexpected_eof (length max_key) h max_key,
        key,
      )
      (unfold read_u32 in refl)
