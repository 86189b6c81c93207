-- ===== src/Compaction/Whole.antt =====
-- A whole unit: the file that `compact` leaves holds what the unit's files say, the first one first.
use rusty_swift_merge.Base.{
  ℕ, ◌≡◌, ◌≢◌, inl, inr, refl, sym, subst, ◌∙◌, arith, false, some, List, [], ◌∷◌, length, All,
}
use rusty_swift_merge.Base.Outcome.{Outcome, ok, err, panic, out_of_fuel}
use rusty_swift_merge.Base.Action.{◌>>◌}
use rusty_swift_merge.Bytes.{Bytes}
use rusty_swift_merge.BTreeMap.{BTreeMap, get, IsSorted}
use rusty_swift_merge.Table.{encode_data}
use rusty_swift_merge.Directory.{File, Directory, same, find_file, remove_file, write_file}
use rusty_swift_merge.Directory.Laws.{
  find_file-remove_file_ne, find_file-write_file_ne, find_file-write_file_self,
}
use rusty_swift_merge.Compaction.{CompactionError}
use rusty_swift_merge.Compaction.Build.{build_from_data_section}
use rusty_swift_merge.Compaction.Files.{
  Machine, passes, rebuild_file, write_built, remove_consumed, finish, compact, output_name,
}
use rusty_swift_merge.Compaction.Names.{ending, ain, Kind, Kind-not_output}
use rusty_swift_merge.Compaction.Pairs.{Source, open_file_lem, same_sym}
use rusty_swift_merge.Compaction.Fates.{Moved, Fate}
use rusty_swift_merge.Compaction.Cleared.{Cleared, after-Cleared}
use rusty_swift_merge.Compaction.FirstLive.{first_live, Apart}
use rusty_swift_merge.Compaction.Rounds.{Inputs}
use rusty_swift_merge.Compaction.Passes.{
  Spared, Finished, names_of, length-names_of, output_spared, passes-Finished,
}

-- What the last step makes of the outcome of `build_from_data_section`.
abbrev pub named : Bytes → Outcome CompactionError Bytes → Outcome CompactionError Bytes
named name (ok output) = ok name
named name (err e) = err e
named name panic = panic
named name out_of_fuel = out_of_fuel

abbrev pub built : Bytes → Outcome CompactionError Bytes → Bytes
built raw (ok output) = output
built raw (err e) = raw
built raw panic = raw
built raw out_of_fuel = raw

module _ (machine : Machine) (id : ℕ) where
  remove_consumed_lem :
      (consumed : List Bytes) (dir : Directory) (n : Bytes)
      → All (λ c. same c n ≡ false) consumed
      → find_file (remove_consumed consumed dir) n ≡ find_file dir n
  unfolding remove_consumed
  remove_consumed_lem [] dir n h = refl
  remove_consumed_lem (c ∷ consumed) dir n h =
      remove_consumed_lem consumed (remove_file dir c) n h.1 ∙ find_file-remove_file_ne dir c n h.0

  -- What the last step leaves of the one file that is left.
  record Rebuilt (name : Bytes) (raw : Bytes) (outcome : Outcome CompactionError Bytes)
      (consumed : List Bytes) (dir : Directory) (r : Outcome CompactionError Bytes × Directory)
      : Type 0 where
    fine : r.0 ≡ named name outcome
    file : File
    found : find_file r.1 name ≡ some file
    content : file.content ≡ built raw outcome
    frame :
        (n : Bytes)
        → same name n ≡ false
        → All (λ c. same c n ≡ false) consumed
        → find_file r.1 n ≡ find_file dir n
    cleared :
        (before : Directory) (sources : List Source)
        → ((n : Bytes) → Fate before dir (name ∷ []) consumed n)
        → All (λ s. Moved dir (name ∷ []) consumed s.name) sources
        → All (λ s. same name s.name ≡ false) sources
        → Cleared outcome before r.1 name sources

  finish-Rebuilt :
      (output_level rate : ℕ) (name raw : Bytes) (consumed : List Bytes) (dir : Directory)
      {file : File}
      → find_file dir name ≡ some file
      → file.content ≡ raw
      → All (λ c. same c name ≡ false) consumed
      → Rebuilt name raw
          (build_from_data_section machine.floats raw output_level rate)
          consumed
          dir
          (finish machine output_level rate (name ∷ [], consumed) dir)
  unfolding rebuild_file
  finish-Rebuilt output_level rate name raw consumed dir {file} found content apart =
      rw (open_file_lem dir name found, rebuild_file, found, content)
        (by_outcome (build_from_data_section machine.floats raw output_level rate))
    where
      by_outcome :
          (o : Outcome CompactionError Bytes)
          → Rebuilt name raw o consumed dir
              ((write_built name o >> λ d. (ok name, remove_consumed consumed d)) dir)
      by_outcome (ok output) = record {
        fine = refl;
        file = record { content = output; created = file.created };
        found =
            remove_consumed_lem consumed (write_file dir name output) name apart
            ∙ find_file-write_file_self dir name output found;
        content = refl;
        frame = λ n u c.
            remove_consumed_lem consumed (write_file dir name output) n c
            ∙ find_file-write_file_ne dir name n output u;
        cleared = after-Cleared name output consumed dir;
      }
      by_outcome (err e) = record {
        fine = refl;
        file = file;
        found = found;
        content = content;
        frame = λ n u c. refl;
        cleared = λ before sources f m u. tt;
      }
      by_outcome panic = record {
        fine = refl;
        file = file;
        found = found;
        content = content;
        frame = λ n u c. refl;
        cleared = λ before sources f m u. tt;
      }
      by_outcome out_of_fuel = record {
        fine = refl;
        file = file;
        found = found;
        content = content;
        frame = λ n u c. refl;
        cleared = λ before sources f m u. tt;
      }

  compact-Rebuilt :
      (output_level rate : ℕ) (dir : Directory) (l r : Source) (sources : List Source)
      → Inputs machine id 0 dir (l ∷ r ∷ sources)
      → Apart (l ∷ r ∷ sources)
      → (f : Finished machine id 0 dir
          (l ∷ r ∷ sources)
          (passes (length (names_of (r ∷ sources))) machine id 0 (names_of (l ∷ r ∷ sources)) dir))
        × Rebuilt f.last.name
            (encode_data f.last.entries)
            (build_from_data_section machine.floats (encode_data f.last.entries) output_level rate)
            f.consumed
            (passes
              (length (names_of (r ∷ sources)))
              machine
              id
              0
              (names_of (l ∷ r ∷ sources))
              dir).1
            (compact machine id output_level rate (names_of (l ∷ r ∷ sources)) dir)
  unfolding compact
  compact-Rebuilt output_level rate dir l r sources h a =
      let f =
        passes-Finished machine id (length (names_of (r ∷ sources))) 0 dir l r sources
          (omega (arith, length-names_of sources)) h a in
      (
        f,
        rw f.fine (
            finish-Rebuilt output_level rate f.last.name (encode_data f.last.entries) f.consumed _
              f.output.found f.output.content f.unconsumed),
      )

  not_output :
      (at j : ℕ) (dir : Directory) (name : Bytes) (sources : List Source)
      → name ≡ output_name id at j
      → Inputs machine id 0 dir sources
      → All (λ s. same name s.name ≡ false) sources
  not_output at j dir name [] e h = tt
  not_output at j dir name (s ∷ sources) e h = (
    subst (λ (x : Bytes). same x s.name ≡ false) (sym e)
        (same_sym s.name (output_name id at j) (never at j s.name h.0.0)),
    not_output at j dir name sources e h.1,
  )
    where
      never : (at j : ℕ) (name : Bytes) → Kind id 0 name → same name (output_name id at j) ≡ false
      never at j name (inl b) = Kind-not_output id at j name (inl b)
      never at j name (inr (p, i, l, e)) = absurd (omega arith)

  -- Compacting a unit of two files or more with different names, which are SSTables or outputs of an
  -- earlier pass, in ascending order, and can be read, leaves an output. It holds what
  -- `build_from_data_section` makes of a merged section, and the raw section where that fails; the
  -- outcome is its own. The merged section ascends, and has for every key what the first of the files
  -- with a live entry of it has, the first file being the newest. Where the build succeeds the output
  -- is all that is left: the files of the unit are gone, and under every other name there is no file, or
  -- the one that was there before.
  pub compact-first_live :
      (output_level rate : ℕ) (dir : Directory) (l r : Source) (sources : List Source)
      → Inputs machine id 0 dir (l ∷ r ∷ sources)
      → Apart (l ∷ r ∷ sources)
      → (merged : BTreeMap Bytes) × IsSorted merged
        × ((q : Bytes) → get merged q ≡ first_live (l ∷ r ∷ sources) q)
        × (name : Bytes) × ((compact machine id output_level rate
              (names_of (l ∷ r ∷ sources))
              dir).0
            ≡ named name
                (build_from_data_section machine.floats (encode_data merged) output_level rate))
        × (file : File) × (find_file
              (compact machine id output_level rate (names_of (l ∷ r ∷ sources)) dir).1
              name
            ≡ some file)
        × (file.content
            ≡ built
                (encode_data merged)
                (build_from_data_section machine.floats (encode_data merged) output_level rate))
        × Cleared
            (build_from_data_section machine.floats (encode_data merged) output_level rate)
            dir
            (compact machine id output_level rate (names_of (l ∷ r ∷ sources)) dir).1
            name
            (l ∷ r ∷ sources)
  compact-first_live output_level rate dir l r sources h a =
      let (f, b) = compact-Rebuilt output_level rate dir l r sources h a in
      (
        f.last.entries,
        f.output.sorted,
        f.answers,
        f.last.name,
        b.fine,
        b.file,
        b.found,
        b.content,
        b.cleared dir (l ∷ r ∷ sources) f.fate f.moved
            (not_output f.at f.output.place dir f.last.name (l ∷ r ∷ sources) f.output.name_is h),
      )

  -- Compacting such a unit leaves every file alone that is not one of the unit's, and whose name does
  -- not end in "tmp" or "ain", as those of intermediate and of drained files do.
  pub compact_spares :
      (output_level rate : ℕ) (dir : Directory) (l r : Source) (sources : List Source) (n : Bytes)
      → Inputs machine id 0 dir (l ∷ r ∷ sources)
      → Apart (l ∷ r ∷ sources)
      → Spared (l ∷ r ∷ sources) n
      → ending n ≢ ain
      → find_file (compact machine id output_level rate (names_of (l ∷ r ∷ sources)) dir).1 n
        ≡ find_file dir n
  compact_spares output_level rate dir l r sources n h a u d =
      let (f, b) = compact-Rebuilt output_level rate dir l r sources h a in
      b.frame n
        (subst (λ (name : Bytes). same name n ≡ false) (sym f.output.name_is)
          (output_spared machine id f.at f.output.place n u.1))
        (f.spared n u d)
      ∙ f.frame n u d
