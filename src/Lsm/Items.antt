-- ===== src/Lsm/Items.antt =====
-- The files of a level's directory, and what `create_level_array` loads of them.
use rusty_swift_merge.Base.{
  ◌≡◌, ◌⊎◌, inl, inr, refl, sym, subst, ap, ◌∙◌, true, false, Option, none, List, [], ◌∷◌, ◌++◌,
  append_assoc, append-nil, map, All,
}
use rusty_swift_merge.Base.Outcome.{ok}
use rusty_swift_merge.Bytes.{Bytes}
use rusty_swift_merge.BTreeMap.{get}
use rusty_swift_merge.Lsm.{LevelEntry, FileMap}
use rusty_swift_merge.Directory.{File, Directory, seconds}
use rusty_swift_merge.Lsm.Load.{
  is_bin, same_metadata, insert_reader, load_entry, load_level, create_level_array,
}
use rusty_swift_merge.Lsm.Tables.{IsTable, section, level_entry, load_table-reader}

-- A file of a directory: one that is passed over, or a table.
pub record Item : Type 0 where
  pub name : Bytes
  pub file : File
  pub reads : (is_bin name ≡ false) ⊎ ((is_bin name ≡ true) × IsTable file.content)

abbrev pub listing : List Item → Directory
listing items = map (λ i. (i.name, i.file)) items

-- What the table's section holds for a key.
abbrev pub value_in : Bytes → Item → Option Bytes
value_in q i = elim i.reads [ inl other ↦ none | inr (b, t) ↦ get (section t) q ]

unfoldable pub tables : List Item → FileMap
tables [] = []
tables (i ∷ items) = elim i.reads [
  | inl other ↦ tables items
  | inr (b, t) ↦ level_entry t (seconds i.file) ∷ tables items
]

-- No two tables of a level have the same metadata.
abbrev pub Distinct : FileMap → Type 0
Distinct [] = Unit {0}
Distinct (t ∷ ts) = All (λ u. same_metadata t.0 u.0 ≡ false) ts × Distinct ts

insert_reader_last :
    (file_map rest : FileMap) (t : LevelEntry)
    → Distinct (file_map ++ t ∷ rest)
    → insert_reader file_map t.0 t.1 ≡ file_map ++ t ∷ []
unfolding insert_reader
insert_reader_last [] rest t d = refl
insert_reader_last (u ∷ file_map) rest t d =
    rw (middle file_map d.0) (ap (λ (m : FileMap). u ∷ m) (insert_reader_last file_map rest t d.1))
  where
    middle :
        (ts : FileMap)
        → All (λ w. same_metadata u.0 w.0 ≡ false) (ts ++ t ∷ rest)
        → same_metadata u.0 t.0 ≡ false
    middle [] a = a.0
    middle (w ∷ ts) a = middle ts a.1

load_entry_passed :
    (name : Bytes) (file : File) (file_map : FileMap)
    → is_bin name ≡ false
    → load_entry (name, file) file_map ≡ ok file_map
unfolding load_entry
load_entry_passed name file file_map h = rw (h, load_entry) refl

load_entry_table :
    (name : Bytes) (file : File) (file_map : FileMap) (t : IsTable file.content)
    → is_bin name ≡ true
    → load_entry (name, file) file_map
      ≡ ok
          (insert_reader file_map (level_entry t (seconds file)).0 (level_entry t (seconds file)).1)
unfolding load_entry
load_entry_table name file file_map t h =
    rw (h, load_entry) (load_table-reader t file file_map refl)

pub reads_cases :
    (i : Item)
    → ((b : is_bin i.name ≡ false) × (i.reads ≡ inl b))
      ⊎ ((b : is_bin i.name ≡ true) × (t : IsTable i.file.content) × (i.reads ≡ inr (b, t)))
reads_cases i = split i.reads refl
  where
    split :
        (r : (is_bin i.name ≡ false) ⊎ ((is_bin i.name ≡ true) × IsTable i.file.content))
        → i.reads ≡ r
        → ((b : is_bin i.name ≡ false) × (i.reads ≡ inl b))
          ⊎ ((b : is_bin i.name ≡ true) × (t : IsTable i.file.content) × (i.reads ≡ inr (b, t)))
    split (inl b) e = inl (b, e)
    split (inr (b, t)) e = inr (b, t, e)

pub tables_passed :
    (i : Item) (items : List Item) {b : is_bin i.name ≡ false}
    → i.reads ≡ inl b
    → tables (i ∷ items) ≡ tables items
unfolding tables
tables_passed i items e = rw (e, tables) refl

pub tables_cons :
    (i : Item) (items : List Item) {b : is_bin i.name ≡ true} {t : IsTable i.file.content}
    → i.reads ≡ inr (b, t)
    → tables (i ∷ items) ≡ level_entry t (seconds i.file) ∷ tables items
unfolding tables
tables_cons i items e = rw (e, tables) refl

load_level-tables :
    (items : List Item) (file_map : FileMap)
    → Distinct (file_map ++ tables items)
    → load_level (listing items) file_map ≡ ok (file_map ++ tables items)
unfolding load_level
load_level-tables [] file_map d =
    unfold tables in ap (λ (m : FileMap). ok m) (sym (append-nil file_map))
load_level-tables (i ∷ items) file_map d = elim (reads_cases i) [
  | inl (b, e) ↦
      let same : tables (i ∷ items) ≡ tables items = tables_passed i items e in
      rw (load_entry_passed i.name i.file file_map b) (
        load_level-tables items file_map (subst (λ (m : FileMap). Distinct (file_map ++ m)) same d)
        ∙ ap (λ (m : FileMap). ok (file_map ++ m)) (sym same))
  | inr (b, t, e) ↦
      let new : LevelEntry = level_entry t (seconds i.file) in
      let more : tables (i ∷ items) ≡ new ∷ tables items = tables_cons i items e in
      let d' : Distinct (file_map ++ new ∷ tables items) =
        subst (λ (m : FileMap). Distinct (file_map ++ m)) more d in
      let whole : (file_map ++ new ∷ []) ++ tables items ≡ file_map ++ new ∷ tables items =
        append_assoc file_map (new ∷ []) (tables items) in
      rw
        (
          load_entry_table i.name i.file file_map t b,
          insert_reader_last file_map (tables items) new d',
        )
        (load_level-tables items (file_map ++ new ∷ []) (subst Distinct (sym whole) d')
          ∙ ap (λ (m : FileMap). ok m) whole
          ∙ ap (λ (m : FileMap). ok (file_map ++ m)) (sym more))
]

-- The levels that the directories are loaded to.
pub create_level_array-tables :
    (levels : List (List Item))
    → All (λ items. Distinct (tables items)) levels
    → create_level_array (map (λ items. listing items) levels)
      ≡ ok (map (λ items. tables items) levels)
unfolding create_level_array
create_level_array-tables [] d = refl
create_level_array-tables (items ∷ levels) d =
    rw (load_level-tables items [] d.0, create_level_array-tables levels d.1) refl
