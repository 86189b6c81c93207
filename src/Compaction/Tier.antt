-- ===== src/Compaction/Tier.antt =====
-- lsm_tree/compaction.rs: `CompactionCoordinator::size_tier_compaction`, `build_level_summary` and one
-- round of `monitor`, on the directory of a level and that of the next one.
use rusty_swift_merge.Base.{
  ℕ, zero, suc, ◌+◌, ◌-◌, ◌*◌, Bool, true, false, ◌||◌, Option, none, some, List, [], ◌∷◌, ◌++◌,
  length, map, replicate, ltb, leb, if◌then◌else◌,
}
use Prim.Native.Nat.Ordering.{lt, gt}
use rusty_swift_merge.Base.Outcome.{Outcome, ok, err, panic, out_of_fuel, ◌>>=◌ as and_then}
use rusty_swift_merge.Base.Action.{respond, ◌>>=◌, ◌>>◌}
use rusty_swift_merge.Bytes.{Bytes, to_le_bytes}
use rusty_swift_merge.Bytes.Order.{cmp}
use rusty_swift_merge.Bloom.{fnv_1a, bloom_filter_size}
use rusty_swift_merge.Directory.{
  File, Directory, find_file, remove_file, store_file, create_file, write_file, same, rsplit_dot,
  ends_with, bin, ss_table_file_ext, transition_merged_sstable_ext,
}
use rusty_swift_merge.Compaction.{
  CompactionError, io_error, Section, ss_table, read_data_section_entry, behind, to_data_section,
}
use rusty_swift_merge.Compaction.Units.{compaction_units}
use rusty_swift_merge.Compaction.Files.{Machine, compact}

-- The directory of the level, and that of the next one if it is there.
pub record Levels : Type 0 where
  pub current : Directory
  pub next : Option Directory

abbrev pub Tier {ℓ} : Type ℓ → Type ℓ
Tier A = Levels → Outcome CompactionError A × Levels

abbrev pub directory : Option Directory → Directory
directory none = []
directory (some dir) = dir

-- A failed unit is logged and passed over.
abbrev pub and_name :
    Outcome CompactionError Bytes
    → Outcome CompactionError (List Bytes)
    → Outcome CompactionError (List Bytes)
and_name (ok name) (ok names) = ok (name ∷ names)
and_name (err e) more = more
and_name panic more = panic
and_name out_of_fuel more = out_of_fuel
and_name (ok name) more = more

unfoldable pub compact_units : Machine → ℕ → ℕ → ℕ → List (List Bytes) → Tier (List Bytes)
compact_units machine output_level rate id [] = respond []
compact_units machine output_level rate id (unit ∷ units) = λ levels.
    let r = compact machine id output_level rate unit levels.current in
    let more =
      compact_units machine output_level rate (suc id) units (record levels { current = r.1 }) in
    (and_name r.0 more.0, more.1)

unfoldable pub create_next_level : Tier (Unit {0})
create_next_level levels = (ok tt, record levels { next = some (directory levels.next) })

unfoldable pub starts_with : Bytes → Bytes → Bool
starts_with name [] = true
starts_with [] (p ∷ pattern) = false
starts_with (b ∷ name) (p ∷ pattern) = elim (same (b ∷ []) (p ∷ [])) [
  | true ↦ starts_with name pattern
  | false ↦ false
]

-- `str::replace`, where so many bytes of the name belong to an occurrence that is replaced already.
unfoldable pub replace : Bytes → Bytes → ℕ → Bytes → Bytes
replace pattern by skip [] = []
replace pattern by (suc skip) (b ∷ name) = replace pattern by skip name
replace pattern by zero (b ∷ name) =
    let behind_it = replace pattern by (length pattern - 1) name in
    let later = replace pattern by zero name in
    if starts_with (b ∷ name) pattern then by ++ behind_it else b ∷ later

abbrev pub table_name : Bytes → Bytes
table_name = replace transition_merged_sstable_ext ss_table_file_ext 0

-- `rename` to the next level, where a file of that name is replaced.
unfoldable pub move_up : Bytes → Tier (Unit {0})
move_up name levels = elim (find_file levels.current name) [
  | none ↦ (err io_error, levels)
  | some file ↦ (
    ok tt,
    record levels {
      current = remove_file levels.current name;
      next = some (store_file (directory levels.next) (table_name name) file);
    },
  )
]

unfoldable pub promote : List Bytes → Tier (Unit {0})
promote [] = respond tt
promote (name ∷ compacted) = do move_up name; promote compacted

unfoldable pub bin_files : Directory → Directory
bin_files [] = []
bin_files ((name, file) ∷ dir) =
    let rest = bin_files dir in
    if ends_with name ss_table_file_ext then (name, file) ∷ rest else rest

abbrev pub lower : Option Bytes → Bytes → Option Bytes
lower none key = some key
lower (some current) key = elim (cmp key current) [ lt ↦ some key | _ ↦ some current ]

abbrev pub upper : Option Bytes → Bytes → Option Bytes
upper none key = some key
upper (some current) key = elim (cmp key current) [ gt ↦ some key | _ ↦ some current ]

abbrev pub Range : Type 0
Range = Option Bytes × Option Bytes

-- The loop over the entries of a table; a round takes eight bytes at least.
unfoldable pub key_range : ℕ → Section → Range → Outcome CompactionError Range
key_range zero s range = if ltb s.ptr s.size then out_of_fuel else ok range
key_range (suc fuel) s range = elim (ltb s.ptr s.size) [
  | false ↦ ok range
  | true ↦
      and_then (read_data_section_entry s.rest)
        (λ e. key_range fuel (behind s e.2) (lower range.0 e.0, upper range.1 e.0))
]

unfoldable pub level_range : Directory → Range → Outcome CompactionError Range
level_range [] range = ok range
level_range ((name, file) ∷ files) range =
    and_then (to_data_section name (ss_table file.content))
      (λ s. and_then (key_range (length s.rest) s range) (λ found. level_range files found))

unfoldable pub key_to_u64 : Option Bytes → ℕ
key_to_u64 none = 0
key_to_u64 (some key) = fnv_1a 14695981039346656037 key

abbrev pub summary_of : Range → ℕ → Bytes
summary_of range tables =
    to_le_bytes 8 (key_to_u64 range.0)
    ++ to_le_bytes 8 (key_to_u64 range.1)
    ++ replicate (bloom_filter_size * tables) 0

-- "level.filter"
abbrev pub level_filter : Bytes
level_filter = 108 ∷ 101 ∷ 118 ∷ 101 ∷ 108 ∷ 46 ∷ 102 ∷ 105 ∷ 108 ∷ 116 ∷ 101 ∷ 114 ∷ []

unfoldable pub build_level_summary : Machine → Tier (Unit {0})
build_level_summary machine levels = elim levels.next [
  | none ↦ (err io_error, levels)
  | some dir ↦ elim (level_range (bin_files dir) (none, none)) [
    | ok range ↦ (
      ok tt,
      record levels {
        next = some (
            write_file (create_file (machine.clock level_filter) dir level_filter) level_filter
              (summary_of range (length (bin_files dir))));
      },
    )
    | err e ↦ (err e, levels)
    | panic ↦ (panic, levels)
    | out_of_fuel ↦ (out_of_fuel, levels)
  ]
]

-- A level without tables has no summary.
unfoldable pub drop_empty_summary : Tier (Unit {0})
drop_empty_summary levels = elim (bin_files (directory levels.next)) [
  | [] ↦ (ok tt, record levels { next = some (remove_file (directory levels.next) level_filter) })
  | file ∷ files ↦ (ok tt, levels)
]

-- Where it succeeds, the functions that wait for the end of a compaction are called.
unfoldable pub size_tier_compaction : Machine → ℕ → ℕ → ℕ → List Bytes → Tier (Unit {0})
size_tier_compaction machine dir_level target_chunks rate table_names = do
  units ← λ levels. (compaction_units target_chunks table_names, levels)
  compacted ← compact_units machine (dir_level + 1) rate 0 units
  create_next_level
  promote compacted
  build_level_summary machine
  drop_empty_summary

-- `split('.').last()`
abbrev pub last_part : Bytes → Bytes
last_part name = elim (rsplit_dot name) [ none ↦ name | some (stem, ext) ↦ ext ]

-- `sort_by_key` with `Reverse`: newest first, a stable sort.
unfoldable pub insert_newest : Bytes × File → Directory → Directory
insert_newest t [] = t ∷ []
insert_newest t (u ∷ tables) =
    let rest = insert_newest t tables in
    if ltb t.1.created u.1.created then u ∷ rest else t ∷ u ∷ tables

unfoldable pub newest_first : Directory → Directory
newest_first [] = []
newest_first ((name, file) ∷ dir) =
    let rest = newest_first dir in
    if same (last_part name) bin then insert_newest (name, file) rest else rest

-- One level's turn in `monitor`, begun at the instant `now` and done at `later`: the deadline is set
-- anew whatever the compaction comes to.
unfoldable pub check_level : Machine → ℕ → ℕ → ℕ → ℕ → ℕ → ℕ → ℕ → Levels → ℕ × Levels
check_level machine now later compact_by interval dir_level target_chunks rate levels =
    let tables = map (λ e. e.0) (newest_first levels.current) in
    let r = size_tier_compaction machine dir_level target_chunks rate tables levels in
    if leb compact_by now || ltb (target_chunks * target_chunks) (length tables)
    then (later + interval, r.1)
    else (compact_by, levels)
