-- ===== src/Lsm/Reload.antt =====
-- What a get finds on disk once `create_level_array` has gone through the directories.
use rusty_swift_merge.Base.{
  ℕ, ◌<◌, ◌≡◌, ◌⊎◌, inl, inr, refl, sym, subst, ap, ◌∙◌, Bool, true, false, Option, none, some,
  List, [], ◌∷◌, ◌++◌, map, All, Bool-cases,
}
use rusty_swift_merge.Base.Outcome.{Outcome, ok, err, panic, out_of_fuel}
use rusty_swift_merge.Bytes.{Bytes}
use rusty_swift_merge.BTreeMap.{get}
use rusty_swift_merge.Bloom.{probably_exist}
use rusty_swift_merge.Bloom.Sound.{Occurs, here, there}
use rusty_swift_merge.Table.{encode_data}
use rusty_swift_merge.Table.Open.{get_bloom_filter-file}
use rusty_swift_merge.Table.Reader.{search, TableError}
use rusty_swift_merge.Table.Marks.{last_key}
use rusty_swift_merge.Lsm.{LevelEntry, FileMap, SearchResult, in_range, read}
use rusty_swift_merge.Directory.{seconds}
use rusty_swift_merge.Lsm.Load.{is_bin, create_level_array}
use rusty_swift_merge.Lsm.Sorted.{created}
use rusty_swift_merge.Lsm.Newest.{Serves, Silent, Beaten, read_newest, read_missing}
use rusty_swift_merge.Lsm.Tables.{IsTable, section, level_entry, search-reader, get-section_out}
use rusty_swift_merge.Lsm.Items.{
  Item, listing, value_in, tables, Distinct, reads_cases, tables_passed, tables_cons,
  create_level_array-tables,
}

module _ (q : Bytes) where
  abbrev found : Bool → Outcome TableError (Option Bytes) → Option Bytes
  found true (ok v) = v
  found true (err e) = none
  found true panic = none
  found true out_of_fuel = none
  found false r = none

  -- What a table of a level answers.
  abbrev answer : LevelEntry → Option Bytes
  answer t = found (in_range t.0 q) (search t.1 q)

  answer-section :
      {content : Bytes} (t : IsTable content) (created : ℕ)
      → answer (level_entry t created) ≡ get (section t) q
  answer-section t created = elim (Bool-cases (in_range (level_entry t created).0 q)) [
    | inl within ↦ rw (within, search-reader t created q within) refl
    | inr out ↦ rw out (sym (get-section_out t created q out))
  ]

  table-Serves :
      {content : Bytes} (t : IsTable content) (created : ℕ)
      → Serves q answer (level_entry t created)
  table-Serves t created = record {
    filter = t.filter;
    filter_read = λ within.
        get_bloom_filter-file t.filter ((0, t.k0) ∷ t.index) (encode_data (section t))
          (last_key [] (section t)) t.size _ refl;
    searched = λ within.
        search-reader t created q within
        ∙ ap (λ (o : Option Bytes). ok o) (sym (answer-section t created));
    ranged = λ out. answer-section t created ∙ get-section_out t created q out;
    filtered = λ within denied. answer-section t created ∙ absent (get (section t) q) refl denied;
  }
    where
      absent :
          (o : Option Bytes)
          → get (section t) q ≡ o
          → probably_exist t.filter q ≡ false
          → get (section t) q ≡ none
      absent none e denied = e
      absent (some v) e denied = absurd (clash (t.no_false_negative q v e) denied)
        where
          clash : probably_exist t.filter q ≡ true → probably_exist t.filter q ≡ false → ⊥
          clash a b = cc

  value-answer :
      (i : Item) {b : is_bin i.name ≡ true} {t : IsTable i.file.content}
      → i.reads ≡ inr (b, t)
      → answer (level_entry t (seconds i.file)) ≡ value_in q i
  value-answer i {b} {t} e = answer-section t (seconds i.file) ∙ rw e refl

  -- What holds of every file holds of the tables.
  All-tables :
      (P : LevelEntry → Type 0) (Q : Item → Type 0)
      (step : (i : Item) (t : IsTable i.file.content)
        → answer (level_entry t (seconds i.file)) ≡ value_in q i
        → Q i
        → P (level_entry t (seconds i.file)))
      (items : List Item)
      → All Q items
      → All P (tables items)
  All-tables P Q step [] h = unfold tables in tt
  All-tables P Q step (i ∷ items) h = elim (reads_cases i) [
    | inl (b, e) ↦ subst (All P) (sym (tables_passed i items e)) (All-tables P Q step items h.1)
    | inr (b, t, e) ↦
        subst (All P) (sym (tables_cons i items e))
          (step i t (value-answer i e) h.0, All-tables P Q step items h.1)
  ]

  abbrev Anything : Item → Type 0
  Anything i = Unit {0}

  anything : (items : List Item) → All Anything items
  anything [] = tt
  anything (i ∷ items) = (tt, anything items)

  tables-Serves : (items : List Item) → All (Serves q answer) (tables items)
  tables-Serves items =
      All-tables (Serves q answer) Anything (λ i t e h. table-Serves t (seconds i.file)) items
        (anything items)

  value_passed : (i : Item) {b : is_bin i.name ≡ false} → i.reads ≡ inl b → value_in q i ≡ none
  value_passed i e = rw e refl

  -- A file of the directory that has the key is a table of the level that answers it.
  Occurs-tables :
      {i : Item} {items : List Item} (v : Bytes)
      → Occurs i items
      → value_in q i ≡ some v
      → (t : LevelEntry) × Occurs t (tables items)
        × (answer t ≡ some v)
        × (created t ≡ (seconds i.file))
  Occurs-tables {i} v (here {xs}) h = elim (reads_cases i) [
    | inl (b, e) ↦ absurd (no_value (value_passed i e))
    | inr (b, t, e) ↦ (
      level_entry t (seconds i.file),
      subst (λ (m : FileMap). Occurs (level_entry t (seconds i.file)) m) (sym (tables_cons i xs e))
          here,
      value-answer i e ∙ h,
      refl,
    )
  ]
    where
      no_value : value_in q i ≡ none → ⊥
      no_value n = cc
  Occurs-tables {i} v (there {x} {xs} o) h =
      let (t, in_tables, a, c) = Occurs-tables v o h in
      elim (reads_cases x) [
        | inl (b, e) ↦
            (t, subst (λ (m : FileMap). Occurs t m) (sym (tables_passed x xs e)) in_tables, a, c)
        | inr (b, u, e) ↦ (
          t,
          subst (λ (m : FileMap). Occurs t m) (sym (tables_cons x xs e)) (there in_tables),
          a,
          c,
        )
      ]

  All-Serves :
      (levels : List (List Item)) → All (All (Serves q answer)) (map (λ items. tables items) levels)
  All-Serves [] = tt
  All-Serves (items ∷ levels) = (tables-Serves items, All-Serves levels)

  abbrev pub Lacks : List Item → Type 0
  Lacks = All (λ i. value_in q i ≡ none)

  tables-Silent : (items : List Item) → Lacks items → Silent q answer (tables items)
  tables-Silent items h =
      All-tables (λ t. answer t ≡ none) (λ i. value_in q i ≡ none) (λ i t e n. e ∙ n) items h

  All-Silent :
      (levels : List (List Item))
      → All Lacks levels
      → All (Silent q answer) (map (λ items. tables items) levels)
  All-Silent [] h = tt
  All-Silent (items ∷ levels) h = (tables-Silent items h.0, All-Silent levels h.1)

  -- Every file lacks the key, or has `v` under it, or is older.
  abbrev pub Older : ℕ → Bytes → List Item → Type 0
  Older at v = All (λ i. (value_in q i ≡ none) ⊎ (value_in q i ≡ some v) ⊎ ((seconds i.file) < at))

  tables-Beaten :
      (items : List Item) (at : ℕ) (v : Bytes)
      → Older at v items
      → Beaten q answer at v (tables items)
  tables-Beaten items at v h =
      All-tables (λ t. (answer t ≡ none) ⊎ (answer t ≡ some v) ⊎ (created t < at))
        (λ i. (value_in q i ≡ none) ⊎ (value_in q i ≡ some v) ⊎ ((seconds i.file) < at))
        (λ i t e n. carry e n) items h
    where
      carry :
          {a b : Option Bytes} {c : Type 0}
          → a ≡ b
          → (b ≡ none) ⊎ (b ≡ some v) ⊎ c
          → (a ≡ none) ⊎ (a ≡ some v) ⊎ c
      carry e (inl n) = inl (e ∙ n)
      carry e (inr (inl n)) = inr (inl (e ∙ n))
      carry e (inr (inr n)) = inr (inr n)

  map-append :
      (before rest : List (List Item))
      → map (λ items. tables items) (before ++ rest)
        ≡ map (λ items. tables items) before ++ map (λ items. tables items) rest
  map-append [] rest = refl
  map-append (items ∷ before) rest =
      ap (λ (m : List FileMap). tables items ∷ m) (map-append before rest)

  -- Where every file with the extension "bin" is a table, no two tables of a level have the same
  -- metadata, the levels before `level` lack the key, a file of `level` has `v` under it, and every other
  -- file of `level` lacks it, or has `v` too, or was created in an earlier second, loading the levels succeeds, and a
  -- read of the key then succeeds and finds `v`.
  pub read-create_level_array :
      (before : List (List Item)) (level : List Item) (after : List (List Item)) (i : Item)
      (v : Bytes)
      → All (λ items. Distinct (tables items)) (before ++ level ∷ after)
      → All Lacks before
      → Occurs i level
      → value_in q i ≡ some v
      → Older (seconds i.file) v level
      → (levels : List FileMap) × (create_level_array
            (map (λ items. listing items) (before ++ level ∷ after))
          ≡ ok levels)
        × (r : SearchResult) × (read levels q ≡ ok r)
        × (r.value ≡ some v)
  read-create_level_array before level after i v d lacks o h older =
      let (t, in_tables, a, c) = Occurs-tables v o h in
      let (r, e, n) =
        read_newest q answer (map (λ items. tables items) before) (tables level)
          (map (λ items. tables items) after) t v (All-Serves before) (All-Silent before lacks)
          (tables-Serves level) in_tables a
          (subst (λ (at : ℕ). Beaten q answer at v (tables level)) (sym c)
            (tables-Beaten level (seconds i.file) v older)) in
      (
        map (λ items. tables items) (before ++ level ∷ after),
        create_level_array-tables (before ++ level ∷ after) d,
        r,
        ap (λ (l : List FileMap). read l q) (map-append before (level ∷ after)) ∙ e,
        n,
      )

  -- Where every file with the extension "bin" is a table, no two tables of a level have the same
  -- metadata, and no file has the key, loading the levels and a read of the key succeed, and the read
  -- finds nothing.
  pub read_missing-create_level_array :
      (items : List (List Item))
      → All (λ items. Distinct (tables items)) items
      → All Lacks items
      → (levels : List FileMap) × (create_level_array (map (λ items. listing items) items)
          ≡ ok levels)
        × (r : SearchResult) × (read levels q ≡ ok r)
        × (r.value ≡ none)
  read_missing-create_level_array items d lacks =
      let (r, e, n) =
        read_missing q answer (map (λ items. tables items) items) (All-Serves items)
          (All-Silent items lacks) in
      (map (λ items. tables items) items, create_level_array-tables items d, r, e, n)
