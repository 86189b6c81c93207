-- ===== src/Compaction/Rounds.antt =====
-- A pass over the files of a unit: each pair gives the merge of its live entries, in order.
use rusty_swift_merge.Base.{
  ℕ, suc, ◌+◌, ◌*◌, ◌≤◌, ◌≡◌, ◌≢◌, ◌⊎◌, inl, inr, refl, sym, subst, ap, ap₂, ◌∙◌, arith, false,
  some, List, [], ◌∷◌, ◌++◌, map, length, All,
}
use rusty_swift_merge.Base.Outcome.{Outcome, ok}
use rusty_swift_merge.Bytes.{Bytes}
use rusty_swift_merge.BTreeMap.{get, IsSorted}
use rusty_swift_merge.Table.{encode_data}
use rusty_swift_merge.Directory.{File, Directory, same, find_file}
use rusty_swift_merge.Bloom.Sound.{here}
use rusty_swift_merge.Compaction.Fates.{
  Moved, made_now, Fate, as_before, Moved-later, Moved-both, Fate-both,
}
use rusty_swift_merge.Compaction.{CompactionError}
use rusty_swift_merge.Compaction.Merge.{
  live, merge, or_else, AllLive, live-AllLive, merge-AllLive, merge-IsSorted, live-IsSorted,
}
use rusty_swift_merge.Compaction.Tables.{Holds, raw-Holds}
use rusty_swift_merge.Compaction.Files.{Machine, Pass, typed, join_pair, join_pairs, output_name}
use rusty_swift_merge.Compaction.Names.{
  ending, ain, Kind, Kind-not_drained, Kind-not_output, output_not_drained, outputs_differ,
}
use rusty_swift_merge.Compaction.Pairs.{
  Source, Reads, Framed, DrainedOrOutput, PairJoined, join_pair-PairJoined, same_sym,
}
use rusty_swift_merge.Compaction.FirstLive.{
  first_live, Apart, live-FitsData, merge-FitsData, typed_output, or_else_assoc, get-live-merge,
  Kind-later,
}

module _ (machine : Machine) (id : ℕ) where
  -- A name of the next pass: an output from place `idx` on, or the odd file.
  abbrev pub Place : ℕ → ℕ → Source → Type 0
  Place pass idx s = ((j : ℕ) × (idx ≤ j) × (s.name ≡ output_name id pass j)) ⊎ Kind id pass s.name

  -- A file that a join has made.
  pub record Output (pass : ℕ) (dir : Directory) (s : Source) : Type 0 where
    pub file : File
    pub found : find_file dir s.name ≡ some file
    pub content : file.content ≡ encode_data s.entries
    pub all_live : AllLive s.entries
    pub sorted : IsSorted s.entries
    pub place : ℕ
    pub name_is : s.name ≡ output_name id pass place

  -- Two sources or more give an output first.
  abbrev pub StartsJoined : ℕ → Directory → List Source → List Source → Type 0
  StartsJoined pass dir (l ∷ r ∷ sources) [] = ⊥
  StartsJoined pass dir (l ∷ r ∷ sources) (s ∷ next) = Output pass dir s
  StartsJoined pass dir (l ∷ []) next = Unit {0}
  StartsJoined pass dir [] next = Unit {0}

  abbrev pub Inputs : ℕ → Directory → List Source → Type 0
  Inputs pass dir = All (λ s. Kind id pass s.name × Reads dir s)

  abbrev pub Untouched : ℕ → ℕ → List Source → Bytes → Type 0
  Untouched pass idx sources n =
      All (λ s. same s.name n ≡ false) sources
      × ((j : ℕ) → idx ≤ j → same (output_name id pass j) n ≡ false)

  -- What a pass over the sources leaves.
  pub record Passed (pass idx : ℕ) (dir : Directory) (sources : List Source)
      (r : Outcome CompactionError Pass × Directory) : Type 0 where
    pub next : List Source
    pub consumed : List Bytes
    pub fine : r.0 ≡ ok (map (λ s. s.name) next, consumed)
    pub places : All (Place pass idx) next
    pub reads : All (Reads r.1) next
    pub apart : Apart next
    pub joined : StartsJoined pass r.1 sources next
    pub names : (n : Bytes) → Untouched pass idx sources n → All (λ s. same s.name n ≡ false) next
    pub fewer : length next * 2 ≤ length sources + 1
    pub answers : (q : Bytes) → first_live next q ≡ first_live sources q
    pub kept : All (DrainedOrOutput id pass) consumed
    pub frame : Framed (Untouched pass idx sources) dir r.1
    pub fate : (n : Bytes) → Fate dir r.1 (map (λ s. s.name) next) consumed n
    pub moved : All (λ s. Moved r.1 (map (λ s. s.name) next) consumed s.name) sources

  pub Place-Kind : (pass idx : ℕ) (s : Source) → Place pass idx s → Kind id (suc pass) s.name
  Place-Kind pass idx s (inl (j, h, e)) = inr (pass, j, omega arith, e)
  Place-Kind pass idx s (inr k) = Kind-later id pass (suc pass) s.name (omega arith) k

  Reads-Framed :
      {Touched : Bytes → Type 0} {before after : Directory} (s : Source)
      → Framed Touched before after
      → Touched s.name
      → ending s.name ≢ ain
      → Reads before s
      → Reads after s
  Reads-Framed s f u d r = record {
    file = r.file;
    found = f s.name u d ∙ r.found;
    holds = r.holds;
    sorted = r.sorted;
  }

  abbrev pair_source : ℕ → ℕ → Source → Source → Source
  pair_source pass idx l r = record {
    name = output_name id pass idx;
    entries = merge (live l.entries) (live r.entries);
  }

  pair_source-Reads :
      (pass idx : ℕ) (dir : Directory) (l r : Source)
      {result : Outcome CompactionError (Bytes × Bytes) × Directory}
      → Reads dir l
      → Reads dir r
      → PairJoined id pass dir l r (output_name id pass idx) result
      → Reads result.1 (pair_source pass idx l r)
  pair_source-Reads pass idx dir l r lr rr p =
      let xs = merge (live l.entries) (live r.entries) in
      record {
        file = p.file;
        found = p.output;
        holds =
            subst (λ t. Holds t xs)
              (sym (
                ap (λ (c : Bytes). typed (output_name id pass idx) c) p.content
                ∙ typed_output id pass idx (encode_data xs)))
              (raw-Holds xs (
                merge-FitsData (live l.entries) (live r.entries)
                  (live-FitsData l.entries lr.holds.fits) (live-FitsData r.entries rr.holds.fits)));
        sorted =
            merge-IsSorted (live l.entries) (live r.entries) (live-IsSorted l.entries lr.sorted)
              (live-IsSorted r.entries rr.sorted);
      }

  Inputs-Framed :
      (pass idx : ℕ) (dir : Directory) (l r : Source)
      {result : Outcome CompactionError (Bytes × Bytes) × Directory} (sources : List Source)
      → PairJoined id pass dir l r (output_name id pass idx) result
      → All (λ t. same l.name t.name ≡ false) sources
      → All (λ t. same r.name t.name ≡ false) sources
      → Inputs pass dir sources
      → Inputs pass result.1 sources
  Inputs-Framed pass idx dir l r [] p la ra h = tt
  Inputs-Framed pass idx dir l r (s ∷ sources) p la ra h = (
    (
      h.0.0,
      Reads-Framed s p.frame
          (
            la.0,
            ra.0,
            same_sym s.name (output_name id pass idx) (Kind-not_output id pass idx s.name h.0.0),
          )
          (Kind-not_drained id pass s.name h.0.0) h.0.1,
    ),
    Inputs-Framed pass idx dir l r sources p la.1 ra.1 h.1,
  )

  places_from :
      (pass idx : ℕ) (next : List Source)
      → All (Place pass (idx + 1)) next
      → All (Place pass idx) next
  places_from pass idx [] h = tt
  places_from pass idx (s ∷ next) h = (earlier h.0, places_from pass idx next h.1)
    where
      earlier : Place pass (idx + 1) s → Place pass idx s
      earlier (inl (j, le, e)) = inl (j, omega arith, e)
      earlier (inr k) = inr k

  output-apart :
      (pass idx : ℕ) (next : List Source)
      → All (Place pass (idx + 1)) next
      → All (λ t. same (output_name id pass idx) t.name ≡ false) next
  output-apart pass idx [] h = tt
  output-apart pass idx (s ∷ next) h = (differs h.0, output-apart pass idx next h.1)
    where
      differs : Place pass (idx + 1) s → same (output_name id pass idx) s.name ≡ false
      differs (inl (j, le, e)) = rw e (outputs_differ id pass idx j (omega arith))
      differs (inr k) =
          same_sym s.name (output_name id pass idx) (Kind-not_output id pass idx s.name k)

  sources_not_output :
      (pass idx : ℕ) (dir : Directory) (sources : List Source)
      → Inputs pass dir sources
      → All (λ s. same s.name (output_name id pass idx) ≡ false) sources
  sources_not_output pass idx dir [] h = tt
  sources_not_output pass idx dir (s ∷ sources) h =
      (Kind-not_output id pass idx s.name h.0.0, sources_not_output pass idx dir sources h.1)

  Moved-behind :
      (after : Directory) (made consumed made' consumed' : List Bytes) (sources : List Source)
      → All (λ s. Moved after made' consumed' s.name) sources
      → All (λ s. Moved after (made ++ made') (consumed ++ consumed') s.name) sources
  Moved-behind after made consumed made' consumed' [] h = tt
  Moved-behind after made consumed made' consumed' (s ∷ sources) h =
      (Moved-later made consumed h.0, Moved-behind after made consumed made' consumed' sources h.1)

  pub join_pairs-Passed :
      (pass idx : ℕ) (dir : Directory) (sources : List Source)
      → Inputs pass dir sources
      → Apart sources
      → Passed pass idx dir sources (join_pairs machine id pass idx (map (λ s. s.name) sources) dir)
  unfolding join_pairs first_live
  join_pairs-Passed pass idx dir [] h a = record {
    names = λ n u. tt;
    next = [];
    consumed = [];
    fine = refl;
    places = tt;
    reads = tt;
    apart = tt;
    joined = tt;
    fewer = omega arith;
    answers = λ q. refl;
    kept = tt;
    frame = λ n u d. refl;
    fate = λ n. as_before refl;
    moved = tt;
  }
  join_pairs-Passed pass idx dir (s ∷ []) h a = record {
    names = λ n u. u.0;
    next = s ∷ [];
    consumed = [];
    fine = refl;
    places = (inr h.0.0, tt);
    reads = (h.0.1, tt);
    apart = (tt, tt);
    joined = tt;
    fewer = omega arith;
    answers = λ q. refl;
    kept = tt;
    frame = λ n u d. refl;
    fate = λ n. as_before refl;
    moved = (made_now here, tt);
  }
  join_pairs-Passed pass idx dir (l ∷ r ∷ sources) h a =
      let o = output_name id pass idx in
      let first = join_pair machine l.name r.name o dir in
      let p =
        join_pair-PairJoined machine id pass dir l r o h.0.0 h.1.0.0 h.0.1 h.1.0.1 a.0.0
          (Kind-not_output id pass idx l.name h.0.0) (Kind-not_output id pass idx r.name h.1.0.0)
          (output_not_drained id pass idx) in
      let h' = Inputs-Framed pass idx dir l r sources p a.0.1 a.1.0 h.1.1 in
      let m = join_pairs-Passed pass (idx + 1) first.1 sources h' a.1.1 in
      let s = pair_source pass idx l r in
      let untouched : Untouched pass (idx + 1) sources o = (
        sources_not_output pass idx first.1 sources h',
        λ j le. same_sym o (output_name id pass j) (outputs_differ id pass idx j (omega arith)),
      ) in
      rw (join_pairs, p.fine, m.fine)
        (record {
          next = s ∷ m.next;
          consumed = p.left_as ∷ p.right_as ∷ m.consumed;
          fine = refl;
          places = (inl (idx, omega arith, refl), places_from pass idx m.next m.places);
          reads = (
            Reads-Framed s m.frame untouched (output_not_drained id pass idx)
                (pair_source-Reads pass idx dir l r h.0.1 h.1.0.1 p),
            m.reads,
          );
          apart = (output-apart pass idx m.next m.places, m.apart);
          joined = record {
            file = p.file;
            found = m.frame o untouched (output_not_drained id pass idx) ∙ p.output;
            content = p.content;
            all_live =
                merge-AllLive (live l.entries) (live r.entries) (live-AllLive l.entries)
                  (live-AllLive r.entries);
            sorted = (pair_source-Reads pass idx dir l r h.0.1 h.1.0.1 p).sorted;
            place = idx;
            name_is = refl;
          };
          names = λ n u. (u.1 idx (omega arith), m.names n (u.0.1.1, λ j le. u.1 j (omega arith)));
          fewer = omega (arith, m.fewer);
          answers = λ q.
              ap₂ or_else (get-live-merge l.entries r.entries q h.0.1.sorted h.1.0.1.sorted)
                (m.answers q)
              ∙ or_else_assoc (get (live l.entries) q) (get (live r.entries) q)
                  (first_live sources q);
          kept = (p.left_name, (p.right_name, m.kept));
          frame = λ n u d.
              m.frame n (u.0.1.1, λ j le. u.1 j (omega arith)) d
              ∙ p.frame n (u.0.0, u.0.1.0, u.1 idx (omega arith)) d;
          fate = λ n. Fate-both (o ∷ []) (p.left_as ∷ p.right_as ∷ []) (p.fate n) (m.fate n);
          moved = (
            Moved-both (o ∷ []) (p.left_as ∷ p.right_as ∷ []) p.left_moved (m.fate l.name),
            (
              Moved-both (o ∷ []) (p.left_as ∷ p.right_as ∷ []) p.right_moved (m.fate r.name),
              Moved-behind _ (o ∷ []) (p.left_as ∷ p.right_as ∷ []) _ _ sources m.moved,
            ),
          );
        })
