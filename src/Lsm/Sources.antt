-- ===== src/Lsm/Sources.antt =====
-- The files that `flush` and `build_from_data_section` write are tables.
use rusty_swift_merge.Base.{
  ℕ, ◌≡◌, true, refl, subst, ap, Option, none, some, List, [], ◌∷◌, Ordering, map, length,
}
use Prim.Native.Nat.Ordering.{lt, eq, gt}
use rusty_swift_merge.Base.Outcome.{ok}
use rusty_swift_merge.Bytes.{Bytes}
use rusty_swift_merge.Bytes.Order.{cmp, eq_of_cmp}
use rusty_swift_merge.BTreeMap.{BTreeMap, get}
use rusty_swift_merge.Floats.{Floats}
use rusty_swift_merge.Bloom.{generate_filter, generate_filter_from_keys, probably_exist}
use rusty_swift_merge.Bloom.Sound.{Occurs, here, there, probably_exist-build_from_key_iter}
use rusty_swift_merge.Entry.{TableEntry, wal_value, entry_of}
use rusty_swift_merge.Table.{encode_data, assemble}
use rusty_swift_merge.Table.Writer.{flush_buffer}
use rusty_swift_merge.Table.Marks.{raw_entries, last_key}
use rusty_swift_merge.Table.Lookup.{
  FitsTable, flush_buffer_layout, stored, get-raw_entries, raw_entries-IsSorted,
  length-generate_filter,
}
use rusty_swift_merge.Compaction.Build.{build_from_data_section}
use rusty_swift_merge.Compaction.Rebuild.{
  FitsSection, filter_of, length-filter_of, build_from_data_section-eq-assemble,
}
use rusty_swift_merge.Lsm.Tables.{IsTable, section}

-- A key that the map has is among its keys.
module _ {ℓ} {A : Type ℓ} where
  nothing_there : {a : A} → none ≡ some a → ⊥
  nothing_there e = cc

  get-Occurs : (m : BTreeMap A) (q : Bytes) {a : A} → get m q ≡ some a → Occurs q (map (λ e. e.0) m)
  unfolding get
  get-Occurs [] q e = absurd (nothing_there e)
  get-Occurs ((k, b) ∷ m) q {a} e = by_order (cmp q k) refl e (get-Occurs m q)
    where
      by_order :
          (o : Ordering)
          → cmp q k ≡ o
          → (elim o [ lt ↦ none | eq ↦ some b | gt ↦ get m q ]) ≡ some a
          → (get m q ≡ some a → Occurs q (map (λ e. e.0) m))
          → Occurs q (k ∷ map (λ e. e.0) m)
      by_order lt c h more = absurd (nothing_there h)
      by_order eq c h more =
          subst (λ (j : Bytes). Occurs q (j ∷ map (λ e. e.0) m)) (eq_of_cmp q k c) here
      by_order gt c h more = there (more h)

-- The entries of the memtable are in its data section under their keys.
keys-raw_entries :
    (m : BTreeMap (Option TableEntry)) → map (λ e. e.0) (raw_entries m) ≡ map (λ e. e.0) m
unfolding raw_entries
keys-raw_entries [] = refl
keys-raw_entries ((k, v) ∷ m) = ap (λ (t : List Bytes). k ∷ t) (keys-raw_entries m)

module _ (f : Floats) (rate : ℕ) where
  generate_filter_finds :
      (m : BTreeMap (Option TableEntry)) (q v : Bytes)
      → get (raw_entries m) q ≡ some v
      → probably_exist (generate_filter f m rate) q ≡ true
  unfolding generate_filter
  generate_filter_finds m q v e =
      probably_exist-build_from_key_iter f (length m) rate (map (λ e. e.0) m) (
        subst (λ (keys : List Bytes). Occurs q keys) (keys-raw_entries m)
          (get-Occurs (raw_entries m) q e))

  filter_of_finds :
      (xs : BTreeMap Bytes) (q v : Bytes)
      → get xs q ≡ some v
      → probably_exist (filter_of f rate xs) q ≡ true
  unfolding generate_filter_from_keys
  filter_of_finds xs q v e =
      probably_exist-build_from_key_iter f (length (map (λ e. e.0) xs)) rate (map (λ e. e.0) xs)
        (get-Occurs xs q e)

  -- The file that a memtable is flushed to is a table of the memtable's entries.
  pub flush_buffer-IsTable :
      (page_size : ℕ) (k0 : Bytes) (v0 : Option TableEntry) (m : BTreeMap (Option TableEntry))
      → FitsTable page_size ((k0, v0) ∷ m)
      → (t : IsTable (flush_buffer f page_size rate ((k0, v0) ∷ m))) × ((q : Bytes)
          → get (section t) q ≡ stored (get ((k0, v0) ∷ m) q))
  unfolding raw_entries
  flush_buffer-IsTable page_size k0 v0 m fits =
      let (index, layout, marks, index_fits, key_fits) =
        flush_buffer_layout f page_size rate k0 v0 m fits in
      (
        record {
          filter = generate_filter f ((k0, v0) ∷ m) rate;
          k0 = k0;
          v0 = wal_value (entry_of v0);
          more = raw_entries m;
          index = index;
          size = length-generate_filter f ((k0, v0) ∷ m) rate;
          layout = layout;
          sorted = raw_entries-IsSorted ((k0, v0) ∷ m) fits.sorted;
          fits = fits.entries;
          section_fits = fits.section;
          index_fits = index_fits;
          max_key_fits = key_fits;
          marks = marks;
          no_false_negative = λ q v e. generate_filter_finds ((k0, v0) ∷ m) q v e;
        },
        λ q. get-raw_entries ((k0, v0) ∷ m) q,
      )

  -- The file that a merged data section is made to is a table of the section's entries.
  pub build_from_data_section-IsTable :
      (level : ℕ) (k0 v0 : Bytes) (m : BTreeMap Bytes)
      → FitsSection level ((k0, v0) ∷ m)
      → (content : Bytes) × (build_from_data_section f (encode_data ((k0, v0) ∷ m)) level rate
          ≡ ok content)
        × (t : IsTable content) × ((q : Bytes) → get (section t) q ≡ get ((k0, v0) ∷ m) q)
  build_from_data_section-IsTable level k0 v0 m h =
      let (index, e, marks, index_fits) =
        build_from_data_section-eq-assemble f level rate k0 v0 m h in
      (
        assemble (filter_of f rate ((k0, v0) ∷ m)) ((0, k0) ∷ index) (encode_data ((k0, v0) ∷ m))
            (last_key [] ((k0, v0) ∷ m)),
        e,
        record {
          filter = filter_of f rate ((k0, v0) ∷ m);
          k0 = k0;
          v0 = v0;
          more = m;
          index = index;
          size = length-filter_of f rate ((k0, v0) ∷ m);
          layout = refl;
          sorted = h.sorted;
          fits = h.entries;
          section_fits = h.section;
          index_fits = index_fits;
          max_key_fits = h.max_key;
          marks = marks;
          no_false_negative = λ q v e. filter_of_finds ((k0, v0) ∷ m) q v e;
        },
        λ q. refl,
      )
