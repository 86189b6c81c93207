-- ===== src/Lsm/Newest.antt =====
-- What `read` finds: the newest value in the first level that has one.
use rusty_swift_merge.Base.{
  ℕ, ◌+◌, ◌%◌, ◌^◌, ◌≤◌, ◌<◌, ◌≡◌, ◌≢◌, ◌⊎◌, inl, inr, refl, sym, ap, ◌∙◌, arith, true, false,
  Option, none, some, List, [], ◌∷◌, ◌++◌, append-nil, All, Bool-cases,
}
use rusty_swift_merge.Base.Outcome.{Outcome, ok}
use rusty_swift_merge.Bytes.{Bytes}
use rusty_swift_merge.Bloom.{probably_exist}
use rusty_swift_merge.Bloom.Sound.{Occurs, here, there}
use rusty_swift_merge.Table.Reader.{get_bloom_filter, search}
use rusty_swift_merge.Lsm.Sorted.{
  created, All-sort_tables, NewestFirst, sort_tables-NewestFirst, Occurs-sort_tables, Occurs-cases,
}
use rusty_swift_merge.Lsm.{
  LsmTreeError, LevelEntry, FileMap, SearchResult, in_range, valid_tables, sort_tables,
  search_tables, read_levels, read,
}

module _ (key : Bytes) (answer : LevelEntry → Option Bytes) where
  -- What a table answers for the key: where the key is in range and the filter may have it, what a
  -- search finds; elsewhere nothing. A search for a key out of range is not asked for.
  pub record Serves (t : LevelEntry) : Type 0 where
    pub filter : Bytes
    pub filter_read : in_range t.0 key ≡ true → get_bloom_filter t.1 ≡ ok filter
    pub searched : in_range t.0 key ≡ true → search t.1 key ≡ ok (answer t)
    pub ranged : in_range t.0 key ≡ false → answer t ≡ none
    pub filtered : in_range t.0 key ≡ true → probably_exist filter key ≡ false → answer t ≡ none

  abbrev Answers : LevelEntry → Type 0
  Answers t = search t.1 key ≡ ok (answer t)

  -- Every table answers nothing, or `v`, or is older than `at`.
  abbrev pub Beaten : ℕ → Bytes → FileMap → Type 0
  Beaten at v = All (λ t. (answer t ≡ none) ⊎ (answer t ≡ some v) ⊎ (created t < at))

  abbrev pub Silent : FileMap → Type 0
  Silent = All (λ t. answer t ≡ none)

  -- What of a level is kept, over what holds of the tables that are left out.
  record Kept (tables : FileMap) (r : Outcome LsmTreeError FileMap) : Type 1 where
    kept : FileMap
    result : r ≡ ok kept
    serves : All Answers kept
    all : (P : LevelEntry → Type 0) → All P tables → All P kept
    loud : (t : LevelEntry) → Occurs t tables → answer t ≢ none → Occurs t kept

  keep_on :
      (t : LevelEntry) (tables : FileMap) {r : Outcome LsmTreeError FileMap} (k : Kept tables r)
      {r' : Outcome LsmTreeError FileMap}
      → answer t ≡ none
      → r' ≡ ok k.kept
      → Kept (t ∷ tables) r'
  keep_on t tables k silent e = record {
    kept = k.kept;
    result = e;
    serves = k.serves;
    all = λ P p. k.all P p.1;
    loud = λ u o l. skip u o l;
  }
    where
      skip : (u : LevelEntry) → Occurs u (t ∷ tables) → answer u ≢ none → Occurs u k.kept
      skip u here l = absurd (l silent)
      skip u (there o) l = k.loud u o l

  keep_with :
      (t : LevelEntry) (tables : FileMap) {r : Outcome LsmTreeError FileMap} (k : Kept tables r)
      {r' : Outcome LsmTreeError FileMap}
      → Answers t
      → r' ≡ ok (t ∷ k.kept)
      → Kept (t ∷ tables) r'
  keep_with t tables k s e = record {
    kept = t ∷ k.kept;
    result = e;
    serves = (s, k.serves);
    all = λ P p. (p.0, k.all P p.1);
    loud = λ u o l. take_over u o l;
  }
    where
      take_over : (u : LevelEntry) → Occurs u (t ∷ tables) → answer u ≢ none → Occurs u (t ∷ k.kept)
      take_over u here l = here
      take_over u (there o) l = there (k.loud u o l)

  valid_tables-Kept : (tables : FileMap) → All Serves tables → Kept tables (valid_tables tables key)
  unfolding valid_tables
  valid_tables-Kept [] h = record {
    kept = [];
    result = refl;
    serves = tt;
    all = λ P p. p;
    loud = λ t o l. o;
  }
  valid_tables-Kept (t ∷ tables) h =
      let k = valid_tables-Kept tables h.1 in
      let s : Serves t = h.0 in
      elim (Bool-cases (in_range t.0 key)) [
        | inr out ↦ keep_on t tables k (s.ranged out) (rw (out, valid_tables) k.result)
        | inl within ↦ elim (Bool-cases (probably_exist s.filter key)) [
          | inl may ↦
              keep_with t tables k (s.searched within)
                (rw (within, s.filter_read within, k.result, may, valid_tables) refl)
          | inr not ↦
              keep_on t tables k (s.filtered within not)
                (rw (within, s.filter_read within, k.result, not, valid_tables) refl)
        ]
      ]

  -- A search of one table, where its answer is known.
  search_step :
      (t : LevelEntry) (tables : FileMap) (n : ℕ)
      → Answers t
      → answer t ≡ none
      → search_tables (t ∷ tables) key n ≡ search_tables tables key ((n + 1) % 2 ^ 16)
  unfolding search_tables
  search_step t tables n s e = rw (s, e, search_tables) refl

  search_hit :
      (t : LevelEntry) (tables : FileMap) (n : ℕ) {v : Bytes}
      → Answers t
      → answer t ≡ some v
      → search_tables (t ∷ tables) key n ≡ ok (some v, (n + 1) % 2 ^ 16)
  unfolding search_tables
  search_hit t tables n s e = rw (s, e, search_tables) refl

  search_tables-Silent :
      (tables : FileMap) (n : ℕ)
      → All Answers tables
      → Silent tables
      → (k : ℕ) × (search_tables tables key n ≡ ok (none, k))
  search_tables-Silent [] n h q = (n, unfold search_tables in refl)
  search_tables-Silent (t ∷ tables) n h q =
      let (k, e) = search_tables-Silent tables ((n + 1) % 2 ^ 16) h.1 q.1 in
      (k, search_step t tables n h.0 q.0 ∙ e)

  first_answer :
      (tables : FileMap) (n : ℕ) (t : LevelEntry) (v : Bytes)
      → All Answers tables
      → NewestFirst tables
      → Beaten (created t) v tables
      → Occurs t tables
      → answer t ≡ some v
      → (k : ℕ) × (search_tables tables key n ≡ ok (some v, k))
  first_answer [] n t v h s b o e = elim o [ ]
  first_answer (u ∷ tables) n t v h s b o e = elim b.0 [
    | inl silent ↦ elim (Occurs-cases o) [
      | inl q ↦ absurd (loud q silent)
      | inr o' ↦
          let (k, r) = first_answer tables ((n + 1) % 2 ^ 16) t v h.1 s.1 b.1 o' e in
          (k, search_step u tables n h.0 silent ∙ r)
    ]
    | inr (inl same) ↦ ((n + 1) % 2 ^ 16, search_hit u tables n h.0 same)
    | inr (inr older) ↦ absurd (not_older (Occurs-cases o) older)
  ]
    where
      loud : t ≡ u → answer u ≡ none → ⊥
      loud q silent = cc

      within :
          {xs : FileMap} → Occurs t xs → All (λ w. created w ≤ created u) xs → created t ≤ created u
      within here q = q.0
      within (there o') q = within o' q.1

      not_older : (t ≡ u) ⊎ Occurs t tables → created u < created t → ⊥
      not_older (inl q) l = omega (arith, ap created q)
      not_older (inr o') l = omega (arith, within o' s.0)

  -- The levels before one, without an answer, are passed.
  read_levels-Silent :
      (before rest : List FileMap) (n m : ℕ)
      → All (All Serves) before
      → All Silent before
      → (n' : ℕ) × (m' : ℕ) × (read_levels (before ++ rest) key n m ≡ read_levels rest key n' m')
  unfolding read_levels
  read_levels-Silent [] rest n m h q = (n, m, refl)
  read_levels-Silent (level ∷ before) rest n m h q =
      let k = valid_tables-Kept level h.0 in
      let (n1, e) =
        search_tables-Silent (sort_tables k.kept) n (All-sort_tables Answers k.kept k.serves)
          (All-sort_tables (λ t. answer t ≡ none) k.kept (k.all (λ t. answer t ≡ none) q.0)) in
      let (n', m', r) = read_levels-Silent before rest n1 ((m + 1) % 2 ^ 8) h.1 q.1 in
      (n', m', rw (k.result, e, read_levels) r)

  read_levels-loud :
      (level : FileMap) (after : List FileMap) (t : LevelEntry) (v : Bytes) (n m : ℕ)
      → All Serves level
      → Beaten (created t) v level
      → Occurs t level
      → answer t ≡ some v
      → (r : SearchResult) × (read_levels (level ∷ after) key n m ≡ ok r) × (r.value ≡ some v)
  unfolding read_levels
  read_levels-loud level after t v n m h b o e =
      let k = valid_tables-Kept level h in
      let loud : answer t ≢ none = λ q. cc in
      let (n', r) =
        first_answer (sort_tables k.kept) n t v (All-sort_tables Answers k.kept k.serves)
          (sort_tables-NewestFirst k.kept) (All-sort_tables _ k.kept (k.all _ b))
          (Occurs-sort_tables (k.loud t o loud)) e in
      (
        record { value = some v; ss_tables_searched = n'; levels_searched = (m + 1) % 2 ^ 8 },
        rw (k.result, r, read_levels) refl,
        refl,
      )

  -- Where every table can be read, the levels before `level` have no answer for the key, and `t` is a
  -- table of `level` that answers `v`, while every other table there answers nothing, or `v` too, or is
  -- older than `t`, `read` succeeds and finds `v`.
  pub read_newest :
      (before : List FileMap) (level : FileMap) (after : List FileMap) (t : LevelEntry) (v : Bytes)
      → All (All Serves) before
      → All Silent before
      → All Serves level
      → Occurs t level
      → answer t ≡ some v
      → Beaten (created t) v level
      → (r : SearchResult) × (read (before ++ level ∷ after) key ≡ ok r) × (r.value ≡ some v)
  unfolding read
  read_newest before level after t v hb q h o e b =
      let (n, m, p) = read_levels-Silent before (level ∷ after) 0 0 hb q in
      let (r, s, f) = read_levels-loud level after t v n m h b o e in (r, p ∙ s, f)

  -- Where every table of every level can be read and none has an answer for the key, `read` succeeds
  -- without a value.
  pub read_missing :
      (levels : List FileMap)
      → All (All Serves) levels
      → All Silent levels
      → (r : SearchResult) × (read levels key ≡ ok r) × (r.value ≡ none)
  unfolding read
  read_missing levels h q =
      let (n, m, p) = read_levels-Silent levels [] 0 0 h q in
      (
        record { value = none; ss_tables_searched = n; levels_searched = m },
        ap (λ (l : List FileMap). read_levels l key 0 0) (sym (append-nil levels))
            ∙ p
            ∙ unfold read_levels in refl,
        refl,
      )
