-- ===== src/Compaction/Promotion.antt =====
-- The order in which the tables of a level are compacted, and what the rename to the next level does.
use rusty_swift_merge.Base.{
  ℕ, ◌≤◌, ◌≡◌, refl, ap, ◌∙◌, arith, Bool, true, false, Option, none, some, [], ◌∷◌, ◌++◌,
  Bool-cases, inl, inr, All, ltb, if◌then◌else◌,
}
use mathlib.Core.List.{Perm}
use mathlib.Core.List.Perm
use rusty_swift_merge.Base.Outcome.{ok}
use rusty_swift_merge.Bytes.{Bytes}
use rusty_swift_merge.Directory.{File, Directory, same, bin, find_file, ss_table_file_ext}
use rusty_swift_merge.Directory.Laws.{
  find_file-store_file_ne, find_file-store_file_self, find_file-remove_file_ne,
  find_file-remove_file, same_self,
}
use rusty_swift_merge.Compaction.Files.{output_name}
use rusty_swift_merge.Compaction.TableNames.{
  IsTableName, IsTableName-last_part, last_part-IsTableName, output_stem, table_name-output,
}
use rusty_swift_merge.Compaction.Tier.{
  Levels, directory, move_up, last_part, insert_newest, newest_first,
}

-- What a level's directory holds under a name.
abbrev pub in_next : Levels → Bytes → Option File
in_next levels n = find_file (directory levels.next) n

-- Moving the output of a unit up, which is there as "<stem>.tmp", succeeds. It is gone from its level,
-- the next level has it as "<stem>.bin", whatever had that name before, and no other name of either
-- level changes.
pub move_up_replaces :
    (id pass pair_idx : ℕ) (n : Bytes) (levels : Levels) (file : File)
    → find_file levels.current (output_name id pass pair_idx) ≡ some file
    → same (output_name id pass pair_idx) n ≡ false
    → same (output_stem id pass pair_idx ++ ss_table_file_ext) n ≡ false
    → let after = move_up (output_name id pass pair_idx) levels in
      (after.0 ≡ ok tt)
      × (find_file after.1.current (output_name id pass pair_idx) ≡ none)
      × (in_next after.1 (output_stem id pass pair_idx ++ ss_table_file_ext) ≡ some file)
      × (find_file after.1.current n ≡ find_file levels.current n)
      × (in_next after.1 n ≡ in_next levels n)
unfolding move_up
move_up_replaces id pass pair_idx n levels file f h k =
    let name = output_name id pass pair_idx in
    let table = output_stem id pass pair_idx ++ ss_table_file_ext in
    rw (move_up, f, table_name-output id pass pair_idx)
      (
        refl,
        find_file-remove_file levels.current name name
            ∙ ap (λ (b : Bool). if b then none else find_file levels.current name) (same_self name),
        find_file-store_file_self (directory levels.next) table file,
        find_file-remove_file_ne levels.current name n h,
        find_file-store_file_ne (directory levels.next) table n file k,
      )

abbrev pub NewestFirst : Directory → Type 0
NewestFirst [] = Unit {0}
NewestFirst (t ∷ tables) = All (λ u. u.1.created ≤ t.1.created) tables × NewestFirst tables

All-weaken :
    (a b : ℕ) (tables : Directory)
    → a ≤ b
    → All (λ u. u.1.created ≤ a) tables
    → All (λ u. u.1.created ≤ b) tables
All-weaken a b [] h p = tt
All-weaken a b (u ∷ tables) h p = (omega (arith, p.0), All-weaken a b tables h p.1)

insert_newest-All :
    (bound : ℕ) (t : Bytes × File) (tables : Directory)
    → t.1.created ≤ bound
    → All (λ u. u.1.created ≤ bound) tables
    → All (λ u. u.1.created ≤ bound) (insert_newest t tables)
unfolding insert_newest
insert_newest-All bound t [] h p = (h, tt)
insert_newest-All bound t (u ∷ tables) h p = elim (Bool-cases (ltb t.1.created u.1.created)) [
  | inl older ↦ rw (insert_newest, older) (p.0, insert_newest-All bound t tables h p.1)
  | inr newer ↦ rw (insert_newest, newer) (h, p)
]

older_le : (a b : ℕ) → ltb a b ≡ true → a ≤ b
older_le a b h = ground arith

newer_le : (a b : ℕ) → ltb a b ≡ false → b ≤ a
newer_le a b h = ground arith

insert_newest-NewestFirst :
    (t : Bytes × File) (tables : Directory)
    → NewestFirst tables
    → NewestFirst (insert_newest t tables)
unfolding insert_newest
insert_newest-NewestFirst t [] h = (tt, tt)
insert_newest-NewestFirst t (u ∷ tables) h = elim (Bool-cases (ltb t.1.created u.1.created)) [
  | inl older ↦
      rw (insert_newest, older)
        (
          insert_newest-All u.1.created t tables (older_le t.1.created u.1.created older) h.0,
          insert_newest-NewestFirst t tables h.1,
        )
  | inr newer ↦
      let le = newer_le t.1.created u.1.created newer in
      rw (insert_newest, newer) ((le, All-weaken u.1.created t.1.created tables le h.0), h)
]

insert_newest-perm :
    (t : Bytes × File) (tables : Directory) → Perm (insert_newest t tables) (t ∷ tables)
unfolding insert_newest
insert_newest-perm t [] = Perm.rfl
insert_newest-perm t (u ∷ tables) = elim (Bool-cases (ltb t.1.created u.1.created)) [
  | inl older ↦
      rw (insert_newest, older)
        (Perm.trans (Perm.cons u (insert_newest-perm t tables)) (Perm.swap t u tables))
  | inr newer ↦ rw (insert_newest, newer) Perm.rfl
]

newest_first-NewestFirst : (dir : Directory) → NewestFirst (newest_first dir)
unfolding newest_first
newest_first-NewestFirst [] = tt
newest_first-NewestFirst ((name, file) ∷ dir) = elim (Bool-cases (same (last_part name) bin)) [
  | inl table ↦
      rw (newest_first, table)
        (insert_newest-NewestFirst (name, file) (newest_first dir) (newest_first-NewestFirst dir))
  | inr other ↦ rw (newest_first, other) (newest_first-NewestFirst dir)
]

-- The tables of a directory, in the order of the directory.
pub data Selects : Directory → Directory → Type 0 where
  nothing : Selects [] []
  a_table :
      {name : Bytes} {file : File} {dir tables : Directory}
      → IsTableName name
      → Selects dir tables
      → Selects ((name, file) ∷ dir) ((name, file) ∷ tables)
  another_file :
      {name : Bytes} {file : File} {dir tables : Directory}
      → ¬ (IsTableName name)
      → Selects dir tables
      → Selects ((name, file) ∷ dir) tables

record Ordered (dir out : Directory) : Type 0 where
  tables : Directory
  selects : Selects dir tables
  perm : Perm out tables

newest_first-Ordered : (dir : Directory) → Ordered dir (newest_first dir)
unfolding newest_first
newest_first-Ordered [] = record { tables = []; selects = nothing; perm = Perm.rfl }
newest_first-Ordered ((name, file) ∷ dir) =
    let o = newest_first-Ordered dir in
    elim (Bool-cases (same (last_part name) bin)) [
      | inl table ↦ record {
        tables = (name, file) ∷ o.tables;
        selects = a_table (IsTableName-last_part name table) o.selects;
        perm =
            rw (newest_first, table)
              (Perm.trans (insert_newest-perm (name, file) (newest_first dir))
                (Perm.cons (name, file) o.perm));
      }
      | inr other ↦ record {
        tables = o.tables;
        selects = another_file (λ t. not_both (last_part-IsTableName name t) other) o.selects;
        perm = rw (newest_first, other) o.perm;
      }
    ]
  where
    not_both : {b : Bool} → b ≡ true → b ≡ false → ⊥
    not_both e f = cc

-- What `monitor` hands to the compaction of a level is a rearrangement of the level's tables, which are
-- the files named "bin" or with the ending ".bin", each of them once and no other file, with the newest
-- ones first.
pub newest_first_lem :
    (dir : Directory)
    → (tables : Directory) × Selects dir tables
      × Perm (newest_first dir) tables
      × NewestFirst (newest_first dir)
newest_first_lem dir =
    let o = newest_first-Ordered dir in (o.tables, o.selects, o.perm, newest_first-NewestFirst dir)
