-- ===== src/Tests/Reads.antt =====
-- The theorems on reads over the levels, at two tables of one level.
use rusty_swift_merge.Base.{
  ℕ, ◌≡◌, refl, arith, Option, none, some, [], ◌∷◌, replicate, length-replicate, inl, inr, ◌==◌,
  if◌then◌else◌,
}
use rusty_swift_merge.Base.Outcome.{ok}
use rusty_swift_merge.Bytes.{Bytes}
use rusty_swift_merge.Bytes.Order.{cmp}
use rusty_swift_merge.BTreeMap.{BTreeMap, get}
use rusty_swift_merge.Bloom.{probably_exist, all_zero}
use rusty_swift_merge.Bloom.Sound.{here, there}
use rusty_swift_merge.Table.{encode_data}
use rusty_swift_merge.Table.Open.{opened, get_bloom_filter-file}
use rusty_swift_merge.Table.Index.{IsMark}
use rusty_swift_merge.Table.Lookup.{search_assembled}
use rusty_swift_merge.Table.Marks.{last_key}
use rusty_swift_merge.Lsm.{LevelEntry, SearchResult, read, in_range}
use rusty_swift_merge.Lsm.Newest.{Serves, read_newest, read_missing}
use rusty_swift_merge.Tests.{key_a, key_b}

abbrev filter : Bytes
filter = replicate 1000 0

abbrev section : Bytes → BTreeMap Bytes
section v = (key_a, v) ∷ (key_b, v) ∷ []

-- A table of the keys `a` and `b`, both with value `v`, and the metadata that its index gives.
abbrev table : ℕ → Bytes → LevelEntry
table created v = (
  record { creation_timestamp = created; sparse_index = (0, key_a) ∷ []; max_key = key_b },
  opened filter ((0, key_a) ∷ []) (encode_data (section v)) key_b (length-replicate {A = ℕ} 1000 0)
      created key_b,
)

abbrev value_of : LevelEntry → Option Bytes
value_of t = if t.0.creation_timestamp == 9 then some (255 ∷ []) else some (7 ∷ [])

first_IsMark : (v : Bytes) → IsMark (section v) (0, key_a)
first_IsMark v = record {
  before = [];
  value = v;
  after = (key_b, v) ∷ [];
  splits = refl;
  offset = unfold encode_data in refl;
}

new_table-Serves : Serves key_a value_of (table 9 (255 ∷ []))
unfolding cmp in_range probably_exist all_zero
new_table-Serves = record {
  filter = filter;
  filter_read = λ within.
      get_bloom_filter-file filter ((0, key_a) ∷ []) (encode_data (section (255 ∷ []))) key_b
        (length-replicate {A = ℕ} 1000 0) _ refl;
  searched = λ within.
      unfold last_key get in
      search_assembled filter (length-replicate {A = ℕ} 1000 0) key_a (255 ∷ [])
        ((key_b, 255 ∷ []) ∷ []) [] 9 key_a (first_IsMark (255 ∷ []), tt) ((refl, tt), (tt, tt))
        (omega arith, omega arith, (omega arith, omega arith, tt)) (λ e. cc) (λ e. cc);
  ranged = λ e. cc;
  filtered = λ within e. cc;
}

old_table-Serves : Serves key_a value_of (table 5 (7 ∷ []))
unfolding cmp in_range probably_exist all_zero
old_table-Serves = record {
  filter = filter;
  filter_read = λ within.
      get_bloom_filter-file filter ((0, key_a) ∷ []) (encode_data (section (7 ∷ []))) key_b
        (length-replicate {A = ℕ} 1000 0) _ refl;
  searched = λ within.
      unfold last_key get in
      search_assembled filter (length-replicate {A = ℕ} 1000 0) key_a (7 ∷ [])
        ((key_b, 7 ∷ []) ∷ []) [] 5 key_a (first_IsMark (7 ∷ []), tt) ((refl, tt), (tt, tt))
        (omega arith, omega arith, (omega arith, omega arith, tt)) (λ e. cc) (λ e. cc);
  ranged = λ e. cc;
  filtered = λ within e. cc;
}

abbrev key_z : Bytes
key_z = 122 ∷ []

abbrev nothing : LevelEntry → Option Bytes
nothing t = none

-- The key is above the largest key of the table.
old_table-Serves-nothing : Serves key_z nothing (table 5 (7 ∷ []))
unfolding cmp in_range probably_exist all_zero
old_table-Serves-nothing = record {
  filter = filter;
  filter_read = λ e. cc;
  searched = λ e. cc;
  ranged = λ e. refl;
  filtered = λ within e. refl;
}

-- The older table comes first in the map; the first level is empty.
read_newest_example :
    (r : SearchResult) × (read ([] ∷ (table 5 (7 ∷ []) ∷ table 9 (255 ∷ []) ∷ []) ∷ []) key_a
      ≡ ok r)
    × (r.value ≡ some (255 ∷ []))
read_newest_example =
    read_newest key_a value_of ([] ∷ []) (table 5 (7 ∷ []) ∷ table 9 (255 ∷ []) ∷ []) []
      (table 9 (255 ∷ [])) (255 ∷ []) (tt, tt) (tt, tt) (old_table-Serves, (new_table-Serves, tt))
      (there here) refl (inr (inr (omega arith)), (inr (inl refl), tt))

read_missing_example :
    (r : SearchResult) × (read ((table 5 (7 ∷ []) ∷ []) ∷ []) key_z ≡ ok r) × (r.value ≡ none)
read_missing_example =
    read_missing key_z nothing ((table 5 (7 ∷ []) ∷ []) ∷ []) ((old_table-Serves-nothing, tt), tt)
      ((refl, tt), tt)
