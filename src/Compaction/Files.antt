-- ===== src/Compaction/Files.antt =====
-- lsm_tree/compaction.rs: `CompactionUnit::compact` over the directory of a level.
use rusty_swift_merge.Base.{
  ℕ, zero, suc, ◌+◌, ◌/◌, ◌%◌, Option, none, some, List, [], ◌∷◌, ◌++◌, length, ltb, if◌then◌else◌,
}
use rusty_swift_merge.Base.Outcome.{Outcome, ok, err, panic, out_of_fuel}
use rusty_swift_merge.Base.Action.{respond, fail, ◌>>=◌, ◌>>◌}
use rusty_swift_merge.Bytes.{Bytes}
use rusty_swift_merge.Floats.{Floats}
use rusty_swift_merge.Directory.{
  File, Directory, find_file, remove_file, store_file, create_file, write_file, strip_suffix,
  ends_with, ss_table_file_ext, transition_merged_sstable_ext, drained_file_ext,
}
use rusty_swift_merge.Compaction.{
  CompactionError, io_error, TableType, ss_table, raw_data_section, join_tables,
}
use rusty_swift_merge.Compaction.Build.{build_from_data_section}

-- What the machine contributes: when a file of a name is created, and what a failed join leaves in it.
pub record Machine : Type 0 where
  pub floats : Floats
  pub clock : Bytes → ℕ
  pub torn : Bytes → Bytes

abbrev pub Step {ℓ} : Type ℓ → Type ℓ
Step A = Directory → Outcome CompactionError A × Directory

-- A number in decimal; `n + 1` is fuel enough.
unfoldable pub digits : ℕ → ℕ → Bytes
digits zero n = []
digits (suc fuel) n =
    let rest = digits fuel (n / 10) in
    if ltb n 10 then (48 + n) ∷ [] else rest ++ (48 + n % 10) ∷ []

abbrev pub decimal : ℕ → Bytes
decimal n = digits (suc n) n

-- "compaction_unit" and "_pass".
abbrev pub compaction_unit : Bytes
compaction_unit =
    99 ∷ 111 ∷ 109 ∷ 112 ∷ 97 ∷ 99 ∷ 116 ∷ 105 ∷ 111 ∷ 110 ∷ 95 ∷ 117 ∷ 110 ∷ 105 ∷ 116 ∷ []

abbrev pub pass_infix : Bytes
pass_infix = 95 ∷ 112 ∷ 97 ∷ 115 ∷ 115 ∷ []

-- `format!("compaction_unit{}_pass{}_{}.tmp", id, pass, pair_idx)`
unfoldable pub output_name : ℕ → ℕ → ℕ → Bytes
output_name id pass pair_idx =
    (compaction_unit ++ decimal id ++ pass_infix)
    ++ (decimal pass ++ 95 ∷ (decimal pair_idx ++ transition_merged_sstable_ext))

unfoldable pub open_file : Bytes → Step (Unit {0})
open_file name dir = elim (find_file dir name) [
  | none ↦ (err io_error, dir)
  | some file ↦ (ok tt, dir)
]

-- The old name is gone; a file under the new one is replaced.
unfoldable pub rename_file : Bytes → Bytes → Step (Unit {0})
rename_file source dest dir = elim (find_file dir source) [
  | none ↦ (err io_error, dir)
  | some file ↦ (ok tt, store_file (remove_file dir source) dest file)
]

abbrev pub content_of : Option File → Bytes
content_of none = []
content_of (some file) = file.content

-- `table_type_from_name`, with the file.
abbrev pub typed : Bytes → Bytes → TableType
typed name content =
    if ends_with name ss_table_file_ext then ss_table content else raw_data_section content

unfoldable pub table_of : Directory → Bytes → TableType
table_of dir name = typed name (content_of (find_file dir name))

-- The output is complete at once.
unfoldable pub write_joined : Machine → Bytes → Bytes → Bytes → Step (Unit {0})
write_joined machine left right out_name dir =
    elim (join_tables left (table_of dir left) right (table_of dir right)) [
      | ok joined ↦ (ok tt, write_file dir out_name joined)
      | err e ↦ (err e, write_file dir out_name (machine.torn out_name))
      | panic ↦ (panic, dir)
      | out_of_fuel ↦ (out_of_fuel, dir)
    ]

unfoldable pub mark_drained_file : Bytes → Step Bytes
mark_drained_file name dir = elim (strip_suffix name ss_table_file_ext) [
  | some base_name ↦
      (rename_file name (base_name ++ drained_file_ext) >> respond (base_name ++ drained_file_ext))
        dir
  | none ↦ (ok name, dir)
]

abbrev pub create : Machine → Bytes → Step (Unit {0})
create machine name dir = (ok tt, create_file (machine.clock name) dir name)

-- A pair is joined to a new file; the names under which its files are kept are returned.
unfoldable pub join_pair : Machine → Bytes → Bytes → Bytes → Step (Bytes × Bytes)
join_pair machine left right out_name = do
  open_file left
  open_file right
  create machine out_name
  write_joined machine left right out_name
  consumed_left ← mark_drained_file left
  consumed_right ← mark_drained_file right
  respond (consumed_left, consumed_right)

-- The files of the next pass, and those that this one consumed.
abbrev pub Pass : Type 0
Pass = List Bytes × List Bytes

-- The inner loop: pairs, and at the end an odd file, which is carried over.
unfoldable pub join_pairs : Machine → ℕ → ℕ → ℕ → List Bytes → Step Pass
join_pairs machine id pass pair_idx [] = respond ([], [])
join_pairs machine id pass pair_idx (odd_file ∷ []) = respond (odd_file ∷ [], [])
join_pairs machine id pass pair_idx (left ∷ right ∷ target_files) = do
  consumed ← join_pair machine left right (output_name id pass pair_idx)
  more ← join_pairs machine id pass (pair_idx + 1) target_files
  respond (output_name id pass pair_idx ∷ more.0, consumed.0 ∷ consumed.1 ∷ more.1)

-- The outer loop, down to one file. A pass over two files or more leaves fewer.
unfoldable pub passes : ℕ → Machine → ℕ → ℕ → List Bytes → Step Pass
passes fuel machine id pass [] = respond ([], [])
passes fuel machine id pass (name ∷ []) = respond (name ∷ [], [])
passes zero machine id pass (left ∷ right ∷ target_files) = λ dir. (out_of_fuel, dir)
passes (suc fuel) machine id pass (left ∷ right ∷ target_files) = do
  next_round ← join_pairs machine id pass 0 (left ∷ right ∷ target_files)
  result ← passes fuel machine id (pass + 1) next_round.0
  respond (result.0, next_round.1 ++ result.1)

-- `build_from_data_section` on a file: nothing is written before the last test has passed.
abbrev pub write_built : Bytes → Outcome CompactionError Bytes → Step (Unit {0})
write_built name (ok output) dir = (ok tt, write_file dir name output)
write_built name (err e) dir = (err e, dir)
write_built name panic dir = (panic, dir)
write_built name out_of_fuel dir = (out_of_fuel, dir)

unfoldable pub rebuild_file : Machine → ℕ → ℕ → Bytes → Step (Unit {0})
rebuild_file machine output_level rate name dir =
    write_built name
      (build_from_data_section machine.floats (content_of (find_file dir name)) output_level rate)
      dir

-- A consumed file that is missing is passed over.
unfoldable pub remove_consumed : List Bytes → Directory → Directory
remove_consumed [] dir = dir
remove_consumed (name ∷ consumed) dir = remove_consumed consumed (remove_file dir name)

abbrev pub finish : Machine → ℕ → ℕ → Pass → Step Bytes
finish machine output_level rate ([], consumed) = fail io_error
finish machine output_level rate (name ∷ more, consumed) = do
  open_file name
  rebuild_file machine output_level rate name
  λ dir. (ok name, remove_consumed consumed dir)

unfoldable pub compact : Machine → ℕ → ℕ → ℕ → List Bytes → Step Bytes
compact machine id output_level rate [] = fail io_error
compact machine id output_level rate (name ∷ target_files) = do
  result ← passes (length target_files) machine id 0 (name ∷ target_files)
  finish machine output_level rate result
