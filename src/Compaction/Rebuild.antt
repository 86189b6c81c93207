-- ===== src/Compaction/Rebuild.antt =====
-- The table that `build_from_data_section` makes: its index points into the data section, and a
-- search in it finds what the section holds.
use rusty_swift_merge.Base.{
  ℕ, zero, suc, ◌+◌, ◌-◌, ◌*◌, ◌≤◌, ◌<◌, ◌≡◌, ◌≢◌, refl, sym, ap, subst, ◌∙◌, arith, max, Bool,
  true, false, ◌||◌, List, [], ◌∷◌, ◌++◌, append_assoc, append-nil, map, length, length-append, leb,
  lt→ltb, if◌then◌else◌, All, All-append,
}
use Prim.Native.Nat.Ordering.{lt}
use native.Mathlib.Nat.{mod-eq_of_lt}
use rusty_swift_merge.Base.Outcome.{ok}
use rusty_swift_merge.Bytes.{Bytes, u32_mod, u64_mod, as_u64, length-to_le_bytes}
use rusty_swift_merge.Bytes.Order.{cmp}
use rusty_swift_merge.Bytes.Cursor.{read_u32, read_u32-append, read_bytes-append}
use rusty_swift_merge.BTreeMap.{BTreeMap, get, IsSorted}
use rusty_swift_merge.Floats.{Floats}
use rusty_swift_merge.Bloom.{generate_filter_from_keys}
use rusty_swift_merge.Bloom.Sound.{length-build_from_key_iter}
use rusty_swift_merge.Table.{encode_entry, encode_data, encode_index, encode_footer, assemble}
use rusty_swift_merge.Table.Reader.{TableReader, new, load_index, search}
use rusty_swift_merge.Table.Open.{FitsIndex, opened, load_index-file, read_footer-file}
use rusty_swift_merge.Table.Scan.{FitsData, length-encode_entry}
use rusty_swift_merge.Table.Index.{IsMark, ◌≼◌, encode_data-append, FitsIndex-of_marks}
use rusty_swift_merge.Table.Marks.{last_key}
use rusty_swift_merge.Table.Lookup.{search_assembled}
use rusty_swift_merge.Compaction.{io_error}
use rusty_swift_merge.Compaction.Build.{
  BuildLoop, build_start, parse_entry, is_empty, add_entry, build_loop, check_index,
  build_from_data_section,
}

parse_entry-append :
    (key value rest : Bytes)
    → length key < u32_mod
    → length value < u32_mod
    → parse_entry (encode_entry key value ++ rest) ≡ ok (key, value, rest)
unfolding parse_entry encode_entry
parse_entry-append key value rest hk hv = simp (
  append_assoc,
  read_u32-append io_error (length key) hk,
  read_bytes-append io_error key,
  read_u32-append io_error (length value) hv,
  read_bytes-append io_error value,
)

build_loop_step :
    (stride fuel : ℕ) (l : BuildLoop) (src : Bytes) {key value rest : Bytes}
    → parse_entry src ≡ ok (key, value, rest)
    → build_loop stride (suc fuel) l src
      ≡ build_loop stride fuel (add_entry stride l key (length src - length rest)) rest
unfolding build_loop
build_loop_step stride fuel l [] e = unfold parse_entry read_u32 in cc
build_loop_step stride fuel l (b ∷ bs) e = rw e

-- The loop's state after the entries, from the state `l`.
unfoldable pub add_entries : ℕ → BuildLoop → BTreeMap Bytes → BuildLoop
add_entries stride l [] = l
add_entries stride l ((key, value) ∷ xs) =
    add_entries stride (add_entry stride l key (length (encode_entry key value))) xs

build_loop-encode_data :
    (stride : ℕ) (xs : BTreeMap Bytes) (fuel : ℕ) (l : BuildLoop)
    → FitsData xs
    → length (encode_data xs) ≤ fuel
    → build_loop stride fuel l (encode_data xs) ≡ ok (add_entries stride l xs)
unfolding encode_data add_entries
build_loop-encode_data stride [] fuel l h hf = unfold build_loop in refl
build_loop-encode_data stride ((key, value) ∷ xs) zero l h hf = absurd (
    omega (
      arith,
      length-append (encode_entry key value) (encode_data xs),
      length-encode_entry key value,
    ))
build_loop-encode_data stride ((key, value) ∷ xs) (suc fuel) l h hf =
    let size = length-append (encode_entry key value) (encode_data xs) in
    build_loop_step stride fuel l _ (parse_entry-append key value (encode_data xs) h.0 h.1)
    ∙ build_loop-encode_data stride xs fuel _ h.2
        (omega (arith, size, length-encode_entry key value))
    ∙ ap (λ (n : ℕ). ok (add_entries stride (add_entry stride l key n) xs)) (omega (arith, size))

-- The state's marks point into the section `entries`, of which `before` has been passed.
record Passed (entries before : BTreeMap Bytes) (l : BuildLoop) : Type 0 where
  cursor : l.cursor ≡ length (encode_data before)
  marks : All (IsMark entries) l.sparse_index

optional_mark :
    (P : ℕ × Bytes → Type 0) (b : Bool) (mark : ℕ × Bytes)
    → P mark
    → All P (if b then mark ∷ [] else [])
optional_mark P true mark h = (h, tt)
optional_mark P false mark h = tt

encode_data_last :
    (before : BTreeMap Bytes) (key value : Bytes)
    → length (encode_data (before ++ (key, value) ∷ []))
      ≡ length (encode_data before) + length (encode_entry key value)
unfolding encode_data
encode_data_last before key value = omega (
  arith,
  ap (λ (t : Bytes). length t) (encode_data-append before ((key, value) ∷ [])),
  ap (λ (t : Bytes). length t) (append-nil (encode_entry key value)),
  length-append (encode_data before) (encode_entry key value ++ []),
)

add_entries-Passed :
    (stride : ℕ) (entries before after : BTreeMap Bytes) (l : BuildLoop)
    → length (encode_data entries) < u64_mod
    → entries ≡ before ++ after
    → Passed entries before l
    → Passed entries entries (add_entries stride l after)
unfolding add_entries
add_entries-Passed stride entries before [] l h e p =
    subst (λ (t : BTreeMap Bytes). Passed entries t l) (sym (e ∙ append-nil before)) p
add_entries-Passed stride entries before ((key, value) ∷ after) l h e p =
    let inside : length (encode_data before) ≤ length (encode_data entries) = omega (
      arith,
      ap (λ (t : BTreeMap Bytes). length (encode_data t)) e,
      ap (λ (t : Bytes). length t) (encode_data-append before ((key, value) ∷ after)),
      length-append (encode_data before) (encode_data ((key, value) ∷ after)),
    ) in
    add_entries-Passed stride entries (before ++ (key, value) ∷ []) after _ h
      (e ∙ sym (append_assoc before ((key, value) ∷ []) after))
      (unfold add_entry in
        record {
          cursor =
              ap (λ (n : ℕ). n + length (encode_entry key value)) p.cursor
              ∙ sym (encode_data_last before key value);
          marks = All-append (IsMark entries) l.sparse_index _ p.marks (
              optional_mark (IsMark entries) _ _ (record {
                before = before;
                value = value;
                after = after;
                splits = e;
                offset = mod-eq_of_lt (omega (arith, p.cursor, inside)) ∙ p.cursor;
              }));
        })

max_key-add_entries :
    (stride : ℕ) (xs : BTreeMap Bytes) (l : BuildLoop)
    → (add_entries stride l xs).max_key ≡ last_key l.max_key xs
unfolding add_entries add_entry last_key
max_key-add_entries stride [] l = refl
max_key-add_entries stride ((key, value) ∷ xs) l = max_key-add_entries stride xs _

bloom_keys-add_entries :
    (stride : ℕ) (xs : BTreeMap Bytes) (l : BuildLoop)
    → (add_entries stride l xs).bloom_keys ≡ l.bloom_keys ++ map (λ e. e.0) xs
unfolding add_entries add_entry
bloom_keys-add_entries stride [] l = sym (append-nil l.bloom_keys)
bloom_keys-add_entries stride ((key, value) ∷ xs) l =
    bloom_keys-add_entries stride xs _ ∙ append_assoc l.bloom_keys (key ∷ []) (map (λ e. e.0) xs)

sparse_index-add_entries :
    (stride : ℕ) (xs : BTreeMap Bytes) (l : BuildLoop) (mark : ℕ × Bytes) (index : List (ℕ × Bytes))
    → l.sparse_index ≡ mark ∷ index
    → (index' : List (ℕ × Bytes)) × ((add_entries stride l xs).sparse_index ≡ mark ∷ index')
unfolding add_entries add_entry
sparse_index-add_entries stride [] l mark index e = (index, e)
sparse_index-add_entries stride ((key, value) ∷ xs) l mark index e =
    let full = is_empty l.sparse_index || leb stride l.bytes_since_sparse_mark in
    let next : List (ℕ × Bytes) = if full then (as_u64 l.cursor, key) ∷ [] else [] in
    sparse_index-add_entries stride xs _ mark (index ++ next)
      (ap (λ (t : List (ℕ × Bytes)). t ++ next) e)

first_mark :
    (stride : ℕ) (key value : Bytes) (xs : BTreeMap Bytes)
    → (index : List (ℕ × Bytes)) × ((add_entries stride build_start
          ((key, value) ∷ xs)).sparse_index
        ≡ (0, key) ∷ index)
unfolding add_entries add_entry
first_mark stride key value xs = sparse_index-add_entries stride xs _ (0, key) [] refl

check_index-FitsIndex : (index : List (ℕ × Bytes)) → FitsIndex index → check_index index ≡ ok tt
unfolding check_index
check_index-FitsIndex [] h = refl
check_index-FitsIndex ((offset, key) ∷ index) h =
    rw (lt→ltb (length key) u32_mod h.1) (check_index-FitsIndex index h.2)

abbrev pub stride_of : ℕ → ℕ
stride_of level = 64 * 1024 * max 1 level

-- A section in order whose table fits the fields of the format, with a largest key that the reader
-- of the footer still takes.
pub record FitsSection (level : ℕ) (xs : BTreeMap Bytes) : Type 0 where
  pub sorted : IsSorted xs
  pub entries : FitsData xs
  pub section : length (encode_data xs) < u64_mod
  pub index :
      length (encode_index (add_entries (stride_of level) build_start xs).sparse_index) < u32_mod
  pub max_key : length (last_key [] xs) ≤ 9996

length-encode_footer : (max_key : Bytes) → length (encode_footer max_key) ≡ length max_key + 4
unfolding encode_footer
length-encode_footer max_key = simp (length-append, length-to_le_bytes) (omega arith)

abbrev pub filter_of : Floats → ℕ → BTreeMap Bytes → Bytes
filter_of f rate xs = generate_filter_from_keys f (map (λ e. e.0) xs) rate

-- The table of a section that is not empty: every mark is that of an entry, the first mark that of
-- the first entry.
pub build_from_data_section-eq-assemble :
    (f : Floats) (level rate : ℕ) (k0 v0 : Bytes) (m : BTreeMap Bytes)
    → FitsSection level ((k0, v0) ∷ m)
    → (index : List (ℕ × Bytes)) × (build_from_data_section f
          (encode_data ((k0, v0) ∷ m))
          level
          rate
        ≡ ok (
            assemble
              (filter_of f rate ((k0, v0) ∷ m))
              ((0, k0) ∷ index)
              (encode_data ((k0, v0) ∷ m))
              (last_key [] ((k0, v0) ∷ m))))
      × All (IsMark ((k0, v0) ∷ m)) ((0, k0) ∷ index)
      × (length (encode_index ((0, k0) ∷ index)) < u32_mod)
unfolding build_from_data_section
build_from_data_section-eq-assemble f level rate k0 v0 m h =
    let xs : BTreeMap Bytes = (k0, v0) ∷ m in
    let stride = stride_of level in
    let l = add_entries stride build_start xs in
    let (index, e) = first_mark stride k0 v0 m in
    let passed =
      add_entries-Passed stride xs [] xs build_start h.section refl
        (record { cursor = unfold encode_data in refl; marks = tt }) in
    let max_key : l.max_key ≡ last_key [] xs = max_key-add_entries stride xs build_start in
    let short : length l.max_key ≤ 9996 =
      subst (λ (t : Bytes). length t ≤ 9996) (sym max_key) h.max_key in
    let fits = FitsIndex-of_marks xs l.sparse_index h.entries h.section passed.marks in
    (
      index,
      rw
          (
            build_loop-encode_data stride xs (length (encode_data xs)) build_start h.entries
                (omega arith),
            check_index-FitsIndex l.sparse_index fits,
            lt→ltb (length l.max_key) u32_mod (omega (arith, short)),
            lt→ltb (length (encode_footer l.max_key)) u64_mod
                (omega (arith, short, length-encode_footer l.max_key)),
            lt→ltb (length (encode_index l.sparse_index)) u32_mod h.index,
            bloom_keys-add_entries stride xs build_start,
            max_key,
            e,
          )
          refl,
      subst (All (IsMark xs)) e passed.marks,
      subst (λ (t : List (ℕ × Bytes)). length (encode_index t) < u32_mod) e h.index,
    )

pub length-filter_of :
    (f : Floats) (rate : ℕ) (xs : BTreeMap Bytes) → length (filter_of f rate xs) ≡ 1000
unfolding generate_filter_from_keys
length-filter_of f rate xs = length-build_from_key_iter f _ rate (map (λ e. e.0) xs)

-- A table made from a data section in order that is not empty and fits opens, and a search for a key
-- between its first and its largest one finds what the section holds.
pub search-build_from_data_section :
    (f : Floats) (level rate created : ℕ) (k0 v0 : Bytes) (m : BTreeMap Bytes) (q : Bytes)
    → FitsSection level ((k0, v0) ∷ m)
    → k0 ≼ q
    → cmp (last_key [] ((k0, v0) ∷ m)) q ≢ lt
    → (file : Bytes) × (t : TableReader) × (build_from_data_section f
          (encode_data ((k0, v0) ∷ m))
          level
          rate
        ≡ ok file)
      × (load_index (new file created) ≡ ok t)
      × (search t q ≡ ok (get ((k0, v0) ∷ m) q))
search-build_from_data_section f level rate created k0 v0 m q h le hi =
    let xs : BTreeMap Bytes = (k0, v0) ∷ m in
    let filter = filter_of f rate xs in
    let size = length-filter_of f rate xs in
    let (index, e, marks, fits) = build_from_data_section-eq-assemble f level rate k0 v0 m h in
    (
      assemble filter ((0, k0) ∷ index) (encode_data xs) (last_key [] xs),
      opened filter ((0, k0) ∷ index) (encode_data xs) (last_key [] xs) size created
          (last_key [] xs),
      e,
      load_index-file filter ((0, k0) ∷ index) (encode_data xs) (last_key [] xs) size created
          (last_key [] xs) (FitsIndex-of_marks xs ((0, k0) ∷ index) h.entries h.section marks) fits
          (read_footer-file filter ((0, k0) ∷ index) (encode_data xs) (last_key [] xs) size
            h.max_key),
      search_assembled filter size k0 v0 m index created q marks h.sorted h.entries le hi,
    )
