-- ===== src/Compaction/Pairs.antt =====
-- One pair of files: what `join_pair` leaves in the directory.
use rusty_swift_merge.Base.{
  ℕ, ◌<◌, ◌≡◌, ◌≢◌, ◌⊎◌, inl, inr, refl, sym, subst, ap, ◌∙◌, Bool, Bool-cases, false, none, some,
  [], ◌∷◌, ◌++◌, if◌then◌else◌,
}
use rusty_swift_merge.Base.Outcome.{Outcome, ok}
use rusty_swift_merge.Bytes.{Bytes}
use rusty_swift_merge.BTreeMap.{BTreeMap, IsSorted}
use rusty_swift_merge.Table.{encode_data}
use rusty_swift_merge.Directory.{
  File, Directory, same, find_file, remove_file, store_file, create_file, write_file, strip_suffix,
  ss_table_file_ext, drained_file_ext,
}
use rusty_swift_merge.Directory.Laws.{
  find_file-store_file_ne, find_file-remove_file_ne, find_file-remove_file, same_self,
  find_file-create_file_ne, find_file-create_file_self, find_file-write_file_ne,
  find_file-write_file_self,
}
use rusty_swift_merge.Bloom.Sound.{here}
use rusty_swift_merge.Compaction.Fates.{
  Moved, made_now, kept, free, Fate, moved, as_before, Moved-later, Moved-both, Fate-both,
}
use rusty_swift_merge.Compaction.{CompactionError, join_tables}
use rusty_swift_merge.Compaction.Merge.{live, merge}
use rusty_swift_merge.Compaction.Tables.{Holds, join_tables-merge}
use rusty_swift_merge.Compaction.Files.{
  Machine, typed, table_of, open_file, rename_file, write_joined, mark_drained_file, join_pair,
  output_name,
}
use rusty_swift_merge.Compaction.Names.{
  ending, ain, ending_of_drained, ending_ne, Kind, Kind-not_drained, strip_suffix-append,
  strip_suffix_of_output, same_refl, same_ne, eq_of_same, ending_not_bin,
}

-- A file of a unit and the entries of its data section.
pub record Source : Type 0 where
  pub name : Bytes
  pub entries : BTreeMap Bytes

pub record Reads (dir : Directory) (s : Source) : Type 0 where
  pub file : File
  pub found : find_file dir s.name ≡ some file
  pub holds : Holds (typed s.name file.content) s.entries
  pub sorted : IsSorted s.entries

-- Nothing changed but the files `touched` and drained ones.
abbrev pub Framed : (Bytes → Type 0) → Directory → Directory → Type 0
Framed Untouched before after =
    (n : Bytes) → Untouched n → ending n ≢ ain → find_file after n ≡ find_file before n

-- A drained file, or the output of a pass before, which keeps its name.
abbrev pub DrainedOrOutput : ℕ → ℕ → Bytes → Type 0
DrainedOrOutput id pass name =
    (ending name ≡ ain) ⊎ ((p : ℕ) × (i : ℕ) × (p < pass) × (name ≡ output_name id p i))

pub record Marked (id pass : ℕ) (name : Bytes) (dir : Directory)
    (r : Outcome CompactionError Bytes × Directory) : Type 0 where
  pub kept_as : Bytes
  pub result : r.0 ≡ ok kept_as
  pub kind : DrainedOrOutput id pass kept_as
  pub frame : Framed (λ n. same name n ≡ false) dir r.1
  pub fate : (n : Bytes) → Fate dir r.1 [] (kept_as ∷ []) n
  pub itself : Moved r.1 [] (kept_as ∷ []) name

-- A rename takes the file from under its name.
rename-Moved :
    (dir : Directory) (name drained : Bytes) (file : File)
    → same drained name ≡ false
    → Moved (store_file (remove_file dir name) drained file) [] (drained ∷ []) name
rename-Moved dir name drained file h = free (
    find_file-store_file_ne (remove_file dir name) drained name file h
    ∙ find_file-remove_file dir name name
    ∙ ap (λ (b : Bool). if b then none else find_file dir name) (same_self name))

rename-Fate :
    (dir : Directory) (name drained : Bytes) (file : File) (n : Bytes)
    → Fate dir (store_file (remove_file dir name) drained file) [] (drained ∷ []) n
rename-Fate dir name drained file n = elim (Bool-cases (same drained n)) [
  | inl e ↦
      subst
        (λ (x : Bytes).
          Fate dir (store_file (remove_file dir name) drained file) [] (drained ∷ []) x)
        (eq_of_same drained n e) (moved (kept here))
  | inr u ↦ elim (Bool-cases (same name n)) [
    | inl e ↦ moved (
        free (
          find_file-store_file_ne (remove_file dir name) drained n file u
          ∙ find_file-remove_file dir name n
          ∙ ap (λ (b : Bool). if b then none else find_file dir n) e))
    | inr v ↦ as_before (
        find_file-store_file_ne (remove_file dir name) drained n file u
        ∙ find_file-remove_file_ne dir name n v)
  ]
]

mark_drained_file-Marked :
    (id pass : ℕ) (dir : Directory) (name : Bytes) {file : File}
    → Kind id pass name
    → find_file dir name ≡ some file
    → Marked id pass name dir (mark_drained_file name dir)
unfolding mark_drained_file rename_file
mark_drained_file-Marked id pass dir name (inr (p, i, h, e)) f =
    let not_bin : strip_suffix name ss_table_file_ext ≡ none =
      ap (λ (t : Bytes). strip_suffix t ss_table_file_ext) e ∙ strip_suffix_of_output id p i in
    rw (mark_drained_file, not_bin)
      (record {
        kept_as = name;
        result = refl;
        kind = inr (p, i, h, e);
        frame = λ n u d. refl;
        fate = λ n. as_before refl;
        itself = kept here;
      })
mark_drained_file-Marked id pass dir name {file} (inl (base, e)) f =
    let is_bin : strip_suffix name ss_table_file_ext ≡ some base =
      ap (λ (t : Bytes). strip_suffix t ss_table_file_ext) e ∙ strip_suffix-append base in
    let drained = base ++ drained_file_ext in
    rw (mark_drained_file, is_bin, rename_file, f)
      (record {
        kept_as = drained;
        result = refl;
        kind = inl (ending_of_drained base);
        frame = λ n u d.
            find_file-store_file_ne (remove_file dir name) drained n file
              (ending_ne drained n (λ same_ending. d (sym same_ending ∙ ending_of_drained base)))
            ∙ find_file-remove_file_ne dir name n u;
        fate = rename-Fate dir name drained file;
        itself = rename-Moved dir name drained file (
            ending_ne drained name (λ f.
              ending_not_bin base
                (sym (ending_of_drained base) ∙ f ∙ ap (λ (t : Bytes). ending t) e)));
      })

pub open_file_lem :
    (dir : Directory) (name : Bytes) {file : File}
    → find_file dir name ≡ some file
    → open_file name dir ≡ (ok tt, dir)
unfolding open_file
open_file_lem dir name f = rw (open_file, f) refl

write_joined_lem :
    (machine : Machine) (left right out_name : Bytes) (dir : Directory) {joined : Bytes}
    → join_tables left (table_of dir left) right (table_of dir right) ≡ ok joined
    → write_joined machine left right out_name dir ≡ (ok tt, write_file dir out_name joined)
unfolding write_joined
write_joined_lem machine left right out_name dir j = rw (write_joined, j) refl

table_of_lem :
    (dir : Directory) (name : Bytes) {file : File}
    → find_file dir name ≡ some file
    → table_of dir name ≡ typed name file.content
unfolding table_of
table_of_lem dir name f = rw (table_of, f) refl

-- What joining the pair leaves: the merge of the live entries under the output's name.
pub record PairJoined (id pass : ℕ) (dir : Directory) (l r : Source) (out_name : Bytes)
    (result : Outcome CompactionError (Bytes × Bytes) × Directory) : Type 0 where
  pub left_as : Bytes
  pub right_as : Bytes
  pub fine : result.0 ≡ ok (left_as, right_as)
  pub left_name : DrainedOrOutput id pass left_as
  pub right_name : DrainedOrOutput id pass right_as
  pub file : File
  pub output : find_file result.1 out_name ≡ some file
  pub content : file.content ≡ encode_data (merge (live l.entries) (live r.entries))
  pub frame :
      Framed
        (λ n. (same l.name n ≡ false) × (same r.name n ≡ false) × (same out_name n ≡ false))
        dir
        result.1
  pub fate : (n : Bytes) → Fate dir result.1 (out_name ∷ []) (left_as ∷ right_as ∷ []) n
  pub left_moved : Moved result.1 (out_name ∷ []) (left_as ∷ right_as ∷ []) l.name
  pub right_moved : Moved result.1 (out_name ∷ []) (left_as ∷ right_as ∷ []) r.name

pub same_sym : (a b : Bytes) → same a b ≡ false → same b a ≡ false
same_sym a b h = same_ne b a (λ e. clash (subst (λ (t : Bytes). same a t ≡ false) e h))
  where
    clash : same a a ≡ false → ⊥
    clash f = let t = same_refl a in cc

module _ (machine : Machine) (id pass : ℕ) (dir : Directory) (l r : Source) (out_name : Bytes)
    (lk : Kind id pass l.name) (rk : Kind id pass r.name) (lr : Reads dir l) (rr : Reads dir r)
    (apart : same l.name r.name ≡ false) (l_out : same l.name out_name ≡ false)
    (r_out : same r.name out_name ≡ false) (out_kept : ending out_name ≢ ain) where
  abbrev joined : Bytes
  joined = encode_data (merge (live l.entries) (live r.entries))

  abbrev created_dir : Directory
  created_dir = create_file (machine.clock out_name) dir out_name

  abbrev written_dir : Directory
  written_dir = write_file created_dir out_name joined

  abbrev left_marked : Outcome CompactionError Bytes × Directory
  left_marked = mark_drained_file l.name written_dir

  abbrev right_marked : Outcome CompactionError Bytes × Directory
  right_marked = mark_drained_file r.name left_marked.1

  created_frame : (n : Bytes) → same n out_name ≡ false → find_file created_dir n ≡ find_file dir n
  created_frame n h =
      find_file-create_file_ne (machine.clock out_name) dir out_name n (same_sym n out_name h)

  written_frame : (n : Bytes) → same n out_name ≡ false → find_file written_dir n ≡ find_file dir n
  written_frame n h =
      find_file-write_file_ne created_dir out_name n joined (same_sym n out_name h)
      ∙ created_frame n h

  written-Fate : (n : Bytes) → Fate dir written_dir (out_name ∷ []) [] n
  written-Fate n = elim (Bool-cases (same n out_name)) [
    | inl e ↦
        subst (λ (x : Bytes). Fate dir written_dir (out_name ∷ []) [] x)
          (sym (eq_of_same n out_name e)) (moved (made_now here))
    | inr u ↦ as_before (written_frame n u)
  ]

  joined_lem :
      join_tables l.name (table_of created_dir l.name) r.name (table_of created_dir r.name)
      ≡ ok joined
  joined_lem =
      rw
        (
          table_of_lem created_dir l.name (created_frame l.name l_out ∙ lr.found),
          table_of_lem created_dir r.name (created_frame r.name r_out ∙ rr.found),
        )
        (join_tables-merge l.name (typed l.name lr.file.content) l.entries r.name
          (typed r.name rr.file.content) r.entries lr.holds rr.holds)

  left_Marked : Marked id pass l.name written_dir left_marked
  left_Marked =
      mark_drained_file-Marked id pass written_dir l.name lk (written_frame l.name l_out ∙ lr.found)

  right_Marked : Marked id pass r.name left_marked.1 right_marked
  right_Marked = mark_drained_file-Marked id pass left_marked.1 r.name rk (
      left_Marked.frame r.name apart (Kind-not_drained id pass r.name rk)
      ∙ written_frame r.name r_out
      ∙ rr.found)

  join_pair_lem :
      join_pair machine l.name r.name out_name dir
      ≡ (ok (left_Marked.kept_as, right_Marked.kept_as), right_marked.1)
  unfolding join_pair
  join_pair_lem =
      rw
        (
          join_pair,
          open_file_lem dir l.name lr.found,
          open_file_lem dir r.name rr.found,
          write_joined_lem machine l.name r.name out_name created_dir joined_lem,
          left_Marked.result,
          right_Marked.result,
        )
        refl

  pub join_pair-PairJoined :
      PairJoined id pass dir l r out_name (join_pair machine l.name r.name out_name dir)
  join_pair-PairJoined =
      let (f0, found) = find_file-create_file_self (machine.clock out_name) dir out_name in
      rw join_pair_lem (record {
        left_as = left_Marked.kept_as;
        right_as = right_Marked.kept_as;
        fine = refl;
        left_name = left_Marked.kind;
        right_name = right_Marked.kind;
        file = record { content = joined; created = f0.created };
        output =
            right_Marked.frame out_name r_out out_kept
            ∙ left_Marked.frame out_name l_out out_kept
            ∙ find_file-write_file_self created_dir out_name joined found;
        content = refl;
        frame = λ n u d.
            right_Marked.frame n u.1 d
            ∙ left_Marked.frame n u.0 d
            ∙ written_frame n (same_sym out_name n u.2);
        fate = λ n.
            Fate-both (out_name ∷ []) [] (written-Fate n)
              (Fate-both [] (left_Marked.kept_as ∷ []) (left_Marked.fate n) (right_Marked.fate n));
        left_moved = Moved-later (out_name ∷ []) [] (
            Moved-both [] (left_Marked.kept_as ∷ []) left_Marked.itself (right_Marked.fate l.name));
        right_moved = Moved-later (out_name ∷ []) (left_Marked.kept_as ∷ []) right_Marked.itself;
      })
