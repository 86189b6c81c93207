-- ===== src/Lsm/Tables.antt =====
-- Files that hold a sorted section with its index and a filter that denies none of its keys: how such
-- a file is loaded, and that its table answers what the section holds.
use rusty_swift_merge.Base.{
  ℕ, ◌≤◌, ◌<◌, ◌≡◌, refl, arith, true, false, none, some, List, [], ◌∷◌, length, All,
}
use Prim.Native.Nat.Ordering.{lt, gt}
use rusty_swift_merge.Base.Outcome.{ok}
use rusty_swift_merge.Bytes.{Bytes, u32_mod, u64_mod}
use rusty_swift_merge.Bytes.Order.{cmp, ◌≺◌, cmp_refl, eq_of_cmp, gt_of_lt, lt_of_gt, lt_trans}
use rusty_swift_merge.BTreeMap.{BTreeMap, get, IsSorted}
use rusty_swift_merge.Bloom.{probably_exist}
use rusty_swift_merge.Table.{header_crc, encode_data, encode_index, assemble}
use rusty_swift_merge.Table.Reader.{TableReader, SsTableMetaData, new, generate_index, search}
use rusty_swift_merge.Table.Open.{opened, read_header-file, load_index-file, read_footer-file}
use rusty_swift_merge.Table.Scan.{FitsData}
use rusty_swift_merge.Table.Index.{IsMark, FitsIndex-of_marks}
use rusty_swift_merge.Table.Marks.{last_key}
use rusty_swift_merge.Table.Lookup.{search_assembled}
use rusty_swift_merge.Lsm.{LevelEntry, FileMap, in_range}
use rusty_swift_merge.Directory.{File, seconds, same}
use rusty_swift_merge.Lsm.Load.{add_reader, load_table, insert_reader}

-- A table with the entries `(k0, v0) ∷ more`.
pub record IsTable (content : Bytes) : Type 0 where
  pub filter : Bytes
  pub k0 : Bytes
  pub v0 : Bytes
  pub more : BTreeMap Bytes
  pub index : List (ℕ × Bytes)
  pub size : length filter ≡ 1000
  pub layout :
      content
      ≡ assemble filter
          ((0, k0) ∷ index)
          (encode_data ((k0, v0) ∷ more))
          (last_key [] ((k0, v0) ∷ more))
  pub sorted : IsSorted ((k0, v0) ∷ more)
  pub fits : FitsData ((k0, v0) ∷ more)
  pub section_fits : length (encode_data ((k0, v0) ∷ more)) < u64_mod
  pub index_fits : length (encode_index ((0, k0) ∷ index)) < u32_mod
  pub max_key_fits : length (last_key [] ((k0, v0) ∷ more)) ≤ 9996
  pub marks : All (IsMark ((k0, v0) ∷ more)) ((0, k0) ∷ index)
  -- The filter denies none of the keys.
  pub no_false_negative :
      (q v : Bytes) → get ((k0, v0) ∷ more) q ≡ some v → probably_exist filter q ≡ true

-- A key beyond the last one is not in the section.
get_past {ℓ} :
    {A : Type ℓ} (k : Bytes) (a : A) (m : BTreeMap A) (q : Bytes)
    → IsSorted ((k, a) ∷ m)
    → cmp q (last_key k m) ≡ gt
    → (k ≺ q) × (get m q ≡ none)
unfolding get last_key
get_past k a [] q s h = (lt_of_gt q k h, refl)
get_past k a ((j, b) ∷ m) q s h =
    let (below, rest) = get_past j b m q s.1 h in
    (lt_trans k j q s.0.0 below, rw (get, gt_of_lt j q below) rest)

crc_accepted : same header_crc header_crc ≡ true
unfolding cmp header_crc
crc_accepted = refl

module _ {content : Bytes} (t : IsTable content) where
  abbrev pub section : BTreeMap Bytes
  section = (t.k0, t.v0) ∷ t.more

  abbrev pub reader : ℕ → TableReader
  reader created =
      opened t.filter ((0, t.k0) ∷ t.index) (encode_data section) (last_key [] section) t.size
        created (last_key [] section)

  abbrev pub metadata : ℕ → SsTableMetaData
  metadata created = record {
    creation_timestamp = created;
    sparse_index = (0, t.k0) ∷ t.index;
    max_key = last_key [] section;
  }

  pub search-reader :
      (created : ℕ) (q : Bytes)
      → in_range (metadata created) q ≡ true
      → search (reader created) q ≡ ok (get section q)
  unfolding in_range
  search-reader created q h =
      search_assembled t.filter t.size t.k0 t.v0 t.more t.index created q t.marks t.sorted t.fits
        (λ e. not_below e (lt_of_gt t.k0 q e)) (λ e. not_above (gt_of_lt (last_key [] section) q e))
    where
      not_below : cmp t.k0 q ≡ gt → cmp q t.k0 ≡ lt → ⊥
      not_below e f = cc

      not_above : cmp q (last_key [] section) ≡ gt → ⊥
      not_above f = ground arith

  pub get-section_out :
      (created : ℕ) (q : Bytes) → in_range (metadata created) q ≡ false → get section q ≡ none
  unfolding in_range get last_key
  get-section_out created q h =
      ground
        (arith, get_past t.k0 t.v0 t.more q t.sorted, gt_of_lt t.k0 q, cmp_refl q, eq_of_cmp q t.k0)

  pub load_table-reader :
      (file : File) (file_map : FileMap)
      → file.content ≡ content
      → load_table file file_map
        ≡ ok (insert_reader file_map (metadata (seconds file)) (reader (seconds file)))
  unfolding load_table generate_index new add_reader
  load_table-reader file file_map e =
      rw
        (
          e,
          t.layout,
          read_header-file t.filter ((0, t.k0) ∷ t.index) (encode_data section)
              (last_key [] section) t.size (seconds file),
          crc_accepted,
          load_index-file t.filter ((0, t.k0) ∷ t.index) (encode_data section) (last_key [] section)
              t.size (seconds file) (last_key [] section)
              (FitsIndex-of_marks section ((0, t.k0) ∷ t.index) t.fits t.section_fits t.marks)
              t.index_fits
              (read_footer-file t.filter ((0, t.k0) ∷ t.index) (encode_data section)
                (last_key [] section) t.size t.max_key_fits),
        )
        refl

  -- The table as `create_level_array` enters it.
  abbrev pub level_entry : ℕ → LevelEntry
  level_entry created = (metadata created, reader created)
