-- ===== src/Compaction/Summary.antt =====
-- The key range that `build_level_summary` finds.
use rusty_swift_merge.Base.{
  ℕ, zero, suc, ◌≤◌, ◌≡◌, refl, arith, none, some, List, [], ◌∷◌, ◌++◌, length, length-append, All,
}
use rusty_swift_merge.Base.Outcome.{ok}
use rusty_swift_merge.Bytes.{Bytes}
use rusty_swift_merge.BTreeMap.{BTreeMap}
use rusty_swift_merge.Bloom.Sound.{Occurs, here, there}
use rusty_swift_merge.Table.{encode_data}
use rusty_swift_merge.Table.Index.{◌≼◌}
use rusty_swift_merge.Directory.{File, Directory, create_file, write_file}
use rusty_swift_merge.Compaction.{Section, ss_table}
use rusty_swift_merge.Compaction.Join.{
  At, behind-At, read_entry-At, entries_left, nothing_left, length_le_bytes,
}
use rusty_swift_merge.Compaction.Tables.{Holds, start-At}
use rusty_swift_merge.Compaction.Tier.{
  Range, key_range, level_range, bin_files, build_level_summary, summary_of, level_filter,
}
use rusty_swift_merge.Compaction.Files.{Machine}
use rusty_swift_merge.Compaction.Range.{
  Within, Attained, widen, widen_keeps, widen_covers, widen-Attained,
}

key_range-At :
    (fuel : ℕ) (s : Section) (range : Range) (xs : BTreeMap Bytes)
    → At s xs
    → length xs ≤ fuel
    → key_range fuel s range ≡ ok (widen range xs)
unfolding key_range
key_range-At zero s range [] h hf = rw (nothing_left s h, key_range) refl
key_range-At (suc fuel) s range [] h hf = rw (nothing_left s h, key_range) refl
key_range-At zero s range ((key, value) ∷ xs) h hf = absurd (omega arith)
key_range-At (suc fuel) s range ((key, value) ∷ xs) h hf =
    rw (entries_left s key value xs h, read_entry-At s key value xs h, key_range)
      (key_range-At fuel _ _ xs (behind-At s key value xs h) (omega arith))

-- The files of a directory hold these tables, in the same order.
pub data Listed : Directory → List (BTreeMap Bytes) → Type 0 where
  no_file : Listed [] []
  a_file :
      {name : Bytes} {f : File} {xs : BTreeMap Bytes} {dir : Directory}
      {tables : List (BTreeMap Bytes)}
      → Holds (ss_table f.content) xs
      → Listed dir tables
      → Listed ((name, f) ∷ dir) (xs ∷ tables)

-- `q` is a key of one of the tables.
pub record IsKey (tables : List (BTreeMap Bytes)) (q : Bytes) : Type 0 where
  pub value : Bytes
  pub table : BTreeMap Bytes
  pub listed : Occurs table tables
  pub entry : Occurs (q, value) table

abbrev widen_all : Range → List (BTreeMap Bytes) → Range
widen_all range [] = range
widen_all range (xs ∷ tables) = widen_all (widen range xs) tables

level_range-Listed :
    {dir : Directory} {tables : List (BTreeMap Bytes)}
    → Listed dir tables
    → (range : Range) → level_range dir range ≡ ok (widen_all range tables)
unfolding level_range
level_range-Listed no_file range = refl
level_range-Listed (a_file {name} {f} {xs} {dir} {tables} holds listed) range =
    let (tail, opens) = holds.opens name in
    let reads =
      key_range-At (length (encode_data xs ++ tail)) _ range xs (start-At xs tail holds.fits)
        (omega (arith, length_le_bytes xs, length-append (encode_data xs) tail)) in
    rw (opens, reads) (level_range-Listed listed (widen range xs))

widen_all_keeps :
    (tables : List (BTreeMap Bytes)) (range : Range) (q : Bytes)
    → Within q range
    → Within q (widen_all range tables)
widen_all_keeps [] range q h = h
widen_all_keeps (xs ∷ tables) range q h = widen_all_keeps tables _ q (widen_keeps xs range q h)

widen_all_covers :
    {q value : Bytes} {xs : BTreeMap Bytes} {tables : List (BTreeMap Bytes)}
    → Occurs xs tables
    → Occurs (q, value) xs
    → (range : Range) → Within q (widen_all range tables)
widen_all_covers {q} (here {xs}) o range = widen_all_keeps xs _ q (widen_covers o range)
widen_all_covers (there {x} {xs} later) o range = widen_all_covers later o _

widen_all-Attained :
    (P : Bytes → Type 0) (tables : List (BTreeMap Bytes)) (range : Range)
    → ((q : Bytes) → IsKey tables q → P q)
    → Attained P range.0 × Attained P range.1
    → Attained P (widen_all range tables).0 × Attained P (widen_all range tables).1
widen_all-Attained P [] range all h = h
widen_all-Attained P (xs ∷ tables) range all h =
    widen_all-Attained P tables _
      (λ q k.
        all q
          (record { value = k.value; table = k.table; listed = there k.listed; entry = k.entry }))
      (widen-Attained P xs range
        (λ q v o. all q (record { value = v; table = xs; listed = here; entry = o })) h)

-- Every key of the tables is from `low` to `high`.
abbrev pub AllWithin : Bytes → Bytes → List (BTreeMap Bytes) → Type 0
AllWithin low high = All (λ (table : BTreeMap Bytes).
    All (λ (entry : Bytes × Bytes). low ≼ entry.0 × entry.0 ≼ high) table)

All-Occurs : {A : Type 0} {P : A → Type 0} (xs : List A) → ((x : A) → Occurs x xs → P x) → All P xs
All-Occurs [] h = tt
All-Occurs (x ∷ xs) h = (h x here, All-Occurs xs (λ y o. h y (there o)))

-- The ends of a range, which are keys of the tables and have all the keys between them.
record Ends (tables : List (BTreeMap Bytes)) (found : Range) : Type 0 where
  low : Bytes
  high : Bytes
  ends : found ≡ (some low, some high)
  low_key : IsKey tables low
  high_key : IsKey tables high
  all_within : AllWithin low high tables

widened-Ends :
    (tables : List (BTreeMap Bytes)) (q : Bytes) (found : Range)
    → IsKey tables q
    → ((k : Bytes) → IsKey tables k → Within k found)
    → Attained (IsKey tables) found.0 × Attained (IsKey tables) found.1
    → Ends tables found
widened-Ends tables q (none, high) k h a = absurd (h q k).0
widened-Ends tables q (some low, none) k h a = absurd (h q k).1
widened-Ends tables q (some low, some high) k h a = record {
  low = low;
  high = high;
  ends = refl;
  low_key = a.0;
  high_key = a.1;
  all_within = All-Occurs tables (λ table listed. All-Occurs table (λ entry o.
      h entry.0 (record { value = entry.1; table = table; listed = listed; entry = o })));
}

-- `build_level_summary` with a next level whose files hold `tables`, which are not all empty: it
-- succeeds, and writes a summary of one range, whose ends are keys of the tables and which has every
-- key of every one of them within it.
pub build_level_summary_lem :
    (machine : Machine) (current dir : Directory) {tables : List (BTreeMap Bytes)} (q : Bytes)
    → Listed (bin_files dir) tables
    → IsKey tables q
    → (low : Bytes) × (high : Bytes) × (build_level_summary machine
          (record { current = current; next = some dir })
        ≡ (
          ok tt,
          record {
            current = current;
            next = some (
                write_file
                  (create_file (machine.clock level_filter) dir level_filter)
                  level_filter
                  (summary_of (some low, some high) (length (bin_files dir))));
          },
        ))
      × IsKey tables low
      × IsKey tables high
      × AllWithin low high tables
unfolding build_level_summary
build_level_summary_lem machine current dir {tables} q listed k =
    let e =
      widened-Ends tables q (widen_all (none, none) tables) k
        (λ j key. widen_all_covers key.listed key.entry (none, none))
        (widen_all-Attained (IsKey tables) tables (none, none) (λ j key. key) (tt, tt)) in
    (
      e.low,
      e.high,
      rw (level_range-Listed listed (none, none), e.ends, build_level_summary) refl,
      e.low_key,
      e.high_key,
      e.all_within,
    )
