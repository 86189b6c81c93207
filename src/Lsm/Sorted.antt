-- ===== src/Lsm/Sorted.antt =====
-- Sorting the tables of a level by their age: what holds of all stays so, none is lost, and the
-- newest comes first.
use rusty_swift_merge.Base.{ℕ, ◌≤◌, ◌≡◌, ◌⊎◌, inl, inr, refl, [], ◌∷◌, All, ltb, tests, Bool-cases}
use rusty_swift_merge.Bloom.Sound.{Occurs, here, there}
use rusty_swift_merge.Lsm.{LevelEntry, FileMap, insert_table, sort_tables}

abbrev pub created : LevelEntry → ℕ
created t = t.0.creation_timestamp

All-insert_table :
    (P : LevelEntry → Type 0) (t : LevelEntry) (tables : FileMap)
    → P t
    → All P tables
    → All P (insert_table t tables)
unfolding insert_table
All-insert_table P t [] p q = (p, tt)
All-insert_table P t (u ∷ tables) p q = elim (Bool-cases (ltb (created t) (created u))) [
  | inl older ↦ rw (older, insert_table) (q.0, All-insert_table P t tables p q.1)
  | inr newer ↦ rw (newer, insert_table) (p, q)
]

pub All-sort_tables :
    (P : LevelEntry → Type 0) (tables : FileMap) → All P tables → All P (sort_tables tables)
unfolding sort_tables
All-sort_tables P [] p = tt
All-sort_tables P (t ∷ tables) p =
    All-insert_table P t (sort_tables tables) p.0 (All-sort_tables P tables p.1)

-- Newest first.
abbrev pub NewestFirst : FileMap → Type 0
NewestFirst [] = Unit {0}
NewestFirst (t ∷ tables) = All (λ u. created u ≤ created t) tables × NewestFirst tables

All-imp :
    (P Q : LevelEntry → Type 0) (tables : FileMap)
    → ((t : LevelEntry) → P t → Q t)
    → All P tables
    → All Q tables
All-imp P Q [] f p = tt
All-imp P Q (t ∷ tables) f p = (f t p.0, All-imp P Q tables f p.1)

insert_table-NewestFirst :
    (t : LevelEntry) (tables : FileMap) → NewestFirst tables → NewestFirst (insert_table t tables)
unfolding insert_table
insert_table-NewestFirst t [] h = (tt, tt)
insert_table-NewestFirst t (u ∷ tables) h = elim (Bool-cases (ltb (created t) (created u))) [
  | inl older ↦
      rw (older, insert_table)
        (
          All-insert_table (λ w. created w ≤ created u) t tables (omega tests) h.0,
          insert_table-NewestFirst t tables h.1,
        )
  | inr newer ↦
      rw (newer, insert_table)
        (
          (
            omega tests,
            All-imp (λ w. created w ≤ created u) (λ w. created w ≤ created t) tables
                (λ w p. omega tests) h.0,
          ),
          h,
        )
]

pub sort_tables-NewestFirst : (tables : FileMap) → NewestFirst (sort_tables tables)
unfolding sort_tables
sort_tables-NewestFirst [] = tt
sort_tables-NewestFirst (t ∷ tables) =
    insert_table-NewestFirst t (sort_tables tables) (sort_tables-NewestFirst tables)

Occurs-insert_table_self : (t : LevelEntry) (tables : FileMap) → Occurs t (insert_table t tables)
unfolding insert_table
Occurs-insert_table_self t [] = here
Occurs-insert_table_self t (u ∷ tables) = elim (Bool-cases (ltb (created t) (created u))) [
  | inl older ↦ rw (older, insert_table) (there (Occurs-insert_table_self t tables))
  | inr newer ↦ rw (newer, insert_table) here
]

Occurs-behind :
    {u w : LevelEntry} {tables more : FileMap}
    → (Occurs u tables → Occurs u more)
    → Occurs u (w ∷ tables)
    → Occurs u (w ∷ more)
Occurs-behind f here = here
Occurs-behind f (there o) = there (f o)

pub Occurs-cases :
    {u w : LevelEntry} {tables : FileMap} → Occurs u (w ∷ tables) → (u ≡ w) ⊎ Occurs u tables
Occurs-cases here = inl refl
Occurs-cases (there o) = inr o

Occurs-insert_table :
    (t u : LevelEntry) (tables : FileMap) → Occurs u tables → Occurs u (insert_table t tables)
unfolding insert_table
Occurs-insert_table t u [] o = elim o [ ]
Occurs-insert_table t u (w ∷ tables) o = elim (Bool-cases (ltb (created t) (created w))) [
  | inl older ↦ rw (older, insert_table) (Occurs-behind (Occurs-insert_table t u tables) o)
  | inr newer ↦ rw (newer, insert_table) (there o)
]

pub Occurs-sort_tables :
    {u : LevelEntry} {tables : FileMap} → Occurs u tables → Occurs u (sort_tables tables)
unfolding sort_tables
Occurs-sort_tables {u} (here {xs}) = Occurs-insert_table_self u (sort_tables xs)
Occurs-sort_tables {u} (there {x} {xs} o) =
    Occurs-insert_table x u (sort_tables xs) (Occurs-sort_tables o)
