-- ===== src/Table/Lookup.antt =====
-- `search` on a flushed file finds what the memtable held.
use rusty_swift_merge.Base.{
  ℕ, ◌*◌, ◌≤◌, ◌<◌, ◌≡◌, ◌≢◌, ◌⊎◌, inl, inr, refl, sym, subst, ap, ◌∙◌, arith, Option, none, some,
  List, [], ◌∷◌, ◌++◌, append_assoc, length, drop, drop-append, All, All-get_elem?, Ordering, map,
}
use Prim.Native.Nat.Ordering.{lt, eq, gt}
use rusty_swift_merge.Base.Outcome.{ok}
use rusty_swift_merge.Bytes.{Bytes, u32_mod, u64_mod}
use rusty_swift_merge.Bytes.Order.{cmp, ◌≺◌, eq_of_cmp, gt_of_lt, lt_trans}
use rusty_swift_merge.BTreeMap.{BTreeMap, get, Above, IsSorted}
use rusty_swift_merge.Floats.{Floats}
use rusty_swift_merge.Bloom.{generate_filter}
use rusty_swift_merge.Bloom.Sound.{length-build_from_key_iter}
use rusty_swift_merge.Entry.{TableEntry, wal_value, entry_of}
use rusty_swift_merge.Table.{encode_data, encode_index, encode_footer, assemble}
use rusty_swift_merge.Table.Writer.{flush_entries, flush_start, flush_buffer, page_per_block}
use rusty_swift_merge.Table.Reader.{TableReader, new, load_index, search, search_block, scan}
use rusty_swift_merge.Table.Layout.{drop_to_data, flush_buffer-eq-assemble}
use rusty_swift_merge.Table.Open.{opened, load_index-file, read_footer-file}
use rusty_swift_merge.Table.Scan.{FitsData, Covers, scan-encode_data}
use rusty_swift_merge.Table.Index.{
  IsMark, ◌≼◌, search_offset_hits, FitsIndex-of_marks, encode_data-append,
}
use rusty_swift_merge.Table.Marks.{
  raw_entries, last_key, IsAfter, flush_entries_lem, max_key_lem, sparse_index_first,
}

-- The marks before an entry that is not above `q` hold other keys.
get_after :
    (before : BTreeMap Bytes) (key value : Bytes) (after : BTreeMap Bytes) (q : Bytes)
    → IsSorted (before ++ (key, value) ∷ after)
    → key ≼ q
    → get (before ++ (key, value) ∷ after) q ≡ get ((key, value) ∷ after) q
unfolding get
get_after [] key value after q s le = refl
get_after ((k, v) ∷ before) key value after q s le =
    let below : k ≺ key = middle before s.0 in
    ground (
      arith,
      get_after before key value after q s.1 le,
      lt_trans k key q,
      eq_of_cmp key q,
      gt_of_lt k q,
      lt_case (cmp key q) refl le,
    )
  where
    middle : (m : BTreeMap Bytes) → Above k (m ++ (key, value) ∷ after) → k ≺ key
    middle [] a = a.0
    middle ((j, w) ∷ m) a = middle m a.1

    lt_case : (o : Ordering) → cmp key q ≡ o → cmp key q ≢ gt → (cmp key q ≡ lt) ⊎ (cmp key q ≡ eq)
    lt_case lt e n = inl e
    lt_case eq e n = inr e
    lt_case gt e n = absurd (n e)

IsSorted-after : (before after : BTreeMap Bytes) → IsSorted (before ++ after) → IsSorted after
IsSorted-after [] after s = s
IsSorted-after ((k, v) ∷ before) after s = IsSorted-after before after s.1

FitsData-after : (before after : BTreeMap Bytes) → FitsData (before ++ after) → FitsData after
FitsData-after [] after h = h
FitsData-after ((k, v) ∷ before) after h = FitsData-after before after h.2

Covers-last :
    (q k : Bytes) (v : Bytes) (m : BTreeMap Bytes)
    → cmp (last_key k m) q ≢ lt
    → Covers q ((k, v) ∷ m)
unfolding last_key
Covers-last q k v [] h = inl h
Covers-last q k v ((j, w) ∷ m) h = inr (Covers-last q j w m h)

last_key-append :
    (before : BTreeMap Bytes) (k0 key value : Bytes) (after : BTreeMap Bytes)
    → last_key k0 (before ++ (key, value) ∷ after) ≡ last_key key after
unfolding last_key
last_key-append [] k0 key value after = refl
last_key-append ((k, v) ∷ before) k0 key value after = last_key-append before k key value after

-- The scan from any mark that is not above `q` answers for the whole section.
scan_from_mark :
    (entries : BTreeMap Bytes) (mark : ℕ × Bytes) (q tail : Bytes) (fuel : ℕ)
    → IsMark entries mark
    → IsSorted entries
    → FitsData entries
    → mark.1 ≼ q
    → cmp (last_key [] entries) q ≢ lt
    → length (drop mark.0 (encode_data entries ++ tail)) < fuel
    → scan fuel q (drop mark.0 (encode_data entries ++ tail)) ≡ ok (get entries q)
scan_from_mark entries mark q tail fuel m s h le hi hf =
    let rest : BTreeMap Bytes = (mark.1, m.value) ∷ m.after in
    let there : drop mark.0 (encode_data entries ++ tail) ≡ encode_data rest ++ tail =
      rw (m.splits, encode_data-append m.before rest, append_assoc)
        (drop-append mark.0 (encode_data m.before) (encode_data rest ++ tail) (sym m.offset)) in
    let s' : IsSorted (m.before ++ rest) = subst IsSorted m.splits s in
    rw there (
      scan-encode_data rest fuel q tail (FitsData-after m.before rest (subst FitsData m.splits h))
        (Covers-last q mark.1 m.value m.after (λ p. hi (
          ap (λ (t : BTreeMap Bytes). cmp (last_key [] t) q) m.splits
          ∙ ap (λ (t : Bytes). cmp t q) (last_key-append m.before [] mark.1 m.value m.after)
          ∙ p)))
        (subst (λ (t : Bytes). length t < fuel) there hf)
      ∙ ap ok (
          sym (get_after m.before mark.1 m.value m.after q s' le)
          ∙ sym (ap (λ (t : BTreeMap Bytes). get t q) m.splits)))

-- `search` on an assembled file whose index starts at the first entry.
module _ (filter : Bytes) (size : length filter ≡ 1000) (k0 v0 : Bytes) (m : BTreeMap Bytes)
    (index : List (ℕ × Bytes)) where
  abbrev section : BTreeMap Bytes
  section = (k0, v0) ∷ m

  abbrev marks : List (ℕ × Bytes)
  marks = (0, k0) ∷ index

  abbrev table : ℕ → TableReader
  table created =
      opened filter marks (encode_data section) (last_key [] section) size created
        (last_key [] section)

  pub search_assembled :
      (created : ℕ) (q : Bytes)
      → All (IsMark section) marks
      → IsSorted section
      → FitsData section
      → k0 ≼ q
      → cmp (last_key [] section) q ≢ lt
      → search (table created) q ≡ ok (get section q)
  unfolding search search_block
  search_assembled created q all s h le hi =
      let (mark, e, j, g, le') = search_offset_hits 0 k0 index q le in
      rw
        (
          e,
          search_block,
          drop_to_data filter marks (encode_data section) (last_key [] section) size mark.0,
        )
        (scan_from_mark section mark q (encode_footer (last_key [] section)) _
          (All-get_elem? (IsMark section) marks j mark all g) s h le' hi (omega arith))

-- What the data section holds for a key of the memtable.
abbrev pub stored : Option (Option TableEntry) → Option Bytes
stored none = none
stored (some v) = some (wal_value (entry_of v))

pub get-raw_entries :
    (m : BTreeMap (Option TableEntry)) (q : Bytes) → get (raw_entries m) q ≡ stored (get m q)
unfolding get raw_entries
get-raw_entries [] q = refl
get-raw_entries ((k, v) ∷ m) q = ground (arith, get-raw_entries m q)

Above-raw_entries :
    (b : Bytes) (m : BTreeMap (Option TableEntry)) → Above b m → Above b (raw_entries m)
unfolding raw_entries
Above-raw_entries b [] s = tt
Above-raw_entries b ((k, v) ∷ m) s = (s.0, Above-raw_entries b m s.1)

pub raw_entries-IsSorted :
    (m : BTreeMap (Option TableEntry)) → IsSorted m → IsSorted (raw_entries m)
unfolding raw_entries
raw_entries-IsSorted [] s = tt
raw_entries-IsSorted ((k, v) ∷ m) s = (Above-raw_entries k m s.0, raw_entries-IsSorted m s.1)

last_key-raw_entries :
    (k : Bytes) (m : BTreeMap (Option TableEntry)) → last_key k (raw_entries m) ≡ last_key k m
unfolding last_key raw_entries
last_key-raw_entries k [] = refl
last_key-raw_entries k ((j, v) ∷ m) = last_key-raw_entries j m

-- A memtable in order whose file fits the fields of the format. The reader takes a footer of more
-- than 10000 bytes for none, so the largest key has 9996 bytes at most.
pub record FitsTable (page_size : ℕ) (m : BTreeMap (Option TableEntry)) : Type 0 where
  pub sorted : IsSorted m
  pub entries : FitsData (raw_entries m)
  pub section : length (encode_data (raw_entries m)) < u64_mod
  pub index :
      length
        (encode_index (flush_entries (page_size * page_per_block) flush_start m).sparse_index_array)
      < u32_mod
  pub max_key : length (last_key [] m) ≤ 9996

pub length-generate_filter :
    (f : Floats) (m : BTreeMap (Option TableEntry)) (rate : ℕ)
    → length (generate_filter f m rate) ≡ 1000
unfolding generate_filter
length-generate_filter f m rate = length-build_from_key_iter f (length m) rate (map (λ e. e.0) m)

-- The file of a memtable that is not empty has the layout of the format, and its index marks entries of
-- its section, the first one first.
pub flush_buffer_layout :
    (f : Floats) (page_size rate : ℕ) (k0 : Bytes) (v0 : Option TableEntry)
    (m : BTreeMap (Option TableEntry))
    → FitsTable page_size ((k0, v0) ∷ m)
    → (index : List (ℕ × Bytes)) × (flush_buffer f page_size rate ((k0, v0) ∷ m)
        ≡ assemble
            (generate_filter f ((k0, v0) ∷ m) rate)
            ((0, k0) ∷ index)
            (encode_data (raw_entries ((k0, v0) ∷ m)))
            (last_key [] (raw_entries ((k0, v0) ∷ m))))
      × All (IsMark (raw_entries ((k0, v0) ∷ m))) ((0, k0) ∷ index)
      × (length (encode_index ((0, k0) ∷ index)) < u32_mod)
      × (length (last_key [] (raw_entries ((k0, v0) ∷ m))) ≤ 9996)
flush_buffer_layout f page_size rate k0 v0 m fits =
    let whole : BTreeMap (Option TableEntry) = (k0, v0) ∷ m in
    let raw : BTreeMap Bytes = raw_entries whole in
    let filter = generate_filter f whole rate in
    let l = flush_entries (page_size * page_per_block) flush_start whole in
    let after : IsAfter raw raw l = flush_entries_lem whole (page_size * page_per_block) in
    let (ix, e) = sparse_index_first k0 v0 m (page_size * page_per_block) in
    let max_key : l.max_key ≡ last_key [] raw =
      max_key_lem whole (page_size * page_per_block) ∙ sym (last_key-raw_entries [] whole) in
    (
      ix,
      flush_buffer-eq-assemble f page_size rate whole
          ∙ ap (λ (t : List (ℕ × Bytes)). assemble filter t l.ss_table_buffer l.max_key) e
          ∙ ap (λ (t : Bytes). assemble filter ((0, k0) ∷ ix) t l.max_key) after.buffer
          ∙ ap (λ (t : Bytes). assemble filter ((0, k0) ∷ ix) (encode_data raw) t) max_key,
      subst (All (IsMark raw)) e after.marks,
      subst (λ (t : List (ℕ × Bytes)). length (encode_index t) < u32_mod) e fits.index,
      subst (λ (t : Bytes). length t ≤ 9996) (sym (last_key-raw_entries [] whole)) fits.max_key,
    )

-- Opening the file that a memtable which is not empty, in order, and fits the format was flushed to
-- succeeds, and a search for a key between its first and its largest key finds the bytes that the
-- memtable's entry has, or that there is none.
pub search-flush_buffer :
    (f : Floats) (page_size rate created : ℕ) (k0 : Bytes) (v0 : Option TableEntry)
    (m : BTreeMap (Option TableEntry)) (q : Bytes)
    → FitsTable page_size ((k0, v0) ∷ m)
    → k0 ≼ q
    → cmp (last_key [] ((k0, v0) ∷ m)) q ≢ lt
    → (t : TableReader) × (load_index (new (flush_buffer f page_size rate ((k0, v0) ∷ m)) created)
        ≡ ok t)
      × (search t q ≡ ok (stored (get ((k0, v0) ∷ m) q)))
unfolding raw_entries
search-flush_buffer f page_size rate created k0 v0 m q fits le hi =
    let whole : BTreeMap (Option TableEntry) = (k0, v0) ∷ m in
    let w0 : Bytes = wal_value (entry_of v0) in
    let raw : BTreeMap Bytes = (k0, w0) ∷ raw_entries m in
    let filter = generate_filter f whole rate in
    let size = length-generate_filter f whole rate in
    let (ix, file, all, index_fits, key_fits) = flush_buffer_layout f page_size rate k0 v0 m fits in
    (
      table filter size k0 w0 (raw_entries m) ix created,
      ap (λ (t : Bytes). load_index (new t created)) file
          ∙ load_index-file filter ((0, k0) ∷ ix) (encode_data raw) (last_key [] raw) size created
              (last_key [] raw)
              (FitsIndex-of_marks raw ((0, k0) ∷ ix) fits.entries fits.section all) index_fits
              (read_footer-file filter ((0, k0) ∷ ix) (encode_data raw) (last_key [] raw) size
                key_fits),
      search_assembled filter size k0 w0 (raw_entries m) ix created q all
            (raw_entries-IsSorted whole fits.sorted) fits.entries le
            (λ p. hi (ap (λ (t : Bytes). cmp t q) (sym (last_key-raw_entries [] whole)) ∙ p))
          ∙ ap ok (get-raw_entries whole q),
    )
