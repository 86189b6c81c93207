-- ===== src/Compaction/Cleared.antt =====
-- What is left of the files of a unit when its consumed files have been removed.
use rusty_swift_merge.Base.{
  ◌≡◌, ◌⊎◌, inl, inr, refl, sym, subst, ap, ◌∙◌, Bool, false, none, List, [], ◌∷◌, All, Bool-cases,
  if◌then◌else◌,
}
use rusty_swift_merge.Base.Outcome.{Outcome, ok, err, panic, out_of_fuel}
use rusty_swift_merge.Bytes.{Bytes}
use rusty_swift_merge.Bloom.Sound.{Occurs, here, there}
use rusty_swift_merge.Directory.{Directory, same, find_file, remove_file, write_file}
use rusty_swift_merge.Directory.Laws.{
  find_file-remove_file, find_file-remove_file_ne, find_file-write_file_ne, same_self,
}
use rusty_swift_merge.Compaction.{CompactionError}
use rusty_swift_merge.Compaction.Files.{remove_consumed}
use rusty_swift_merge.Compaction.Names.{eq_of_same}
use rusty_swift_merge.Compaction.Fates.{Moved, made_now, kept, free, Fate, moved, as_before}
use rusty_swift_merge.Compaction.Pairs.{Source}

-- Under `n` there is no file, or the one that was there before.
abbrev pub Unmade : Directory → Directory → Bytes → Type 0
Unmade before after n = (find_file after n ≡ none) ⊎ (find_file after n ≡ find_file before n)

-- After a build that succeeds no name but the output's is new, and the files of the unit are gone.
abbrev pub Cleared :
    Outcome CompactionError Bytes → Directory → Directory → Bytes → List Source → Type 0
Cleared (ok output) before after name sources =
    ((n : Bytes) → (n ≡ name) ⊎ Unmade before after n)
    × All (λ s. find_file after s.name ≡ none) sources
Cleared (err e) before after name sources = Unit {0}
Cleared panic before after name sources = Unit {0}
Cleared out_of_fuel before after name sources = Unit {0}

remove_consumed-none :
    (consumed : List Bytes) (dir : Directory) (n : Bytes)
    → find_file dir n ≡ none
    → find_file (remove_consumed consumed dir) n ≡ none
unfolding remove_consumed
remove_consumed-none [] dir n h = h
remove_consumed-none (c ∷ consumed) dir n h =
    remove_consumed-none consumed (remove_file dir c) n (elim (Bool-cases (same c n)) [
      | inl e ↦
          find_file-remove_file dir c n ∙ ap (λ (b : Bool). if b then none else find_file dir n) e
      | inr u ↦ find_file-remove_file_ne dir c n u ∙ h
    ])

remove_consumed-Occurs :
    {n : Bytes} {consumed : List Bytes}
    → Occurs n consumed
    → (dir : Directory) → find_file (remove_consumed consumed dir) n ≡ none
unfolding remove_consumed
remove_consumed-Occurs {n} (here {xs}) dir = remove_consumed-none xs (remove_file dir n) n (
    find_file-remove_file dir n n
    ∙ ap (λ (b : Bool). if b then none else find_file dir n) (same_self n))
remove_consumed-Occurs (there {x} {xs} o) dir = remove_consumed-Occurs o (remove_file dir x)

remove_consumed-Unmade :
    (consumed : List Bytes) (dir : Directory) (n : Bytes)
    → Unmade dir (remove_consumed consumed dir) n
unfolding remove_consumed
remove_consumed-Unmade [] dir n = inr refl
remove_consumed-Unmade (c ∷ consumed) dir n = elim (Bool-cases (same c n)) [
  | inl e ↦ inl (
      remove_consumed-none consumed (remove_file dir c) n
        (find_file-remove_file dir c n ∙ ap (λ (b : Bool). if b then none else find_file dir n) e))
  | inr u ↦ elim (remove_consumed-Unmade consumed (remove_file dir c) n) [
    | inl gone ↦ inl gone
    | inr same_file ↦ inr (same_file ∙ find_file-remove_file_ne dir c n u)
  ]
]

only : {n x : Bytes} → Occurs n (x ∷ []) → n ≡ x
only (here {xs}) = refl
only (there {x} {xs} o) = elim o [ ]

module _ (name output : Bytes) (consumed : List Bytes) (dir : Directory) where
  abbrev after : Directory
  after = remove_consumed consumed (write_file dir name output)

  after-Unmade : (n : Bytes) → same name n ≡ false → Unmade dir after n
  after-Unmade n u = elim (remove_consumed-Unmade consumed (write_file dir name output) n) [
    | inl gone ↦ inl gone
    | inr same_file ↦ inr (same_file ∙ find_file-write_file_ne dir name n output u)
  ]

  after_none : (n : Bytes) → same name n ≡ false → find_file dir n ≡ none → find_file after n ≡ none
  after_none n u e = elim (after-Unmade n u) [ inl gone ↦ gone | inr same_file ↦ same_file ∙ e ]

  source_gone :
      (n : Bytes)
      → same name n ≡ false
      → Moved dir (name ∷ []) consumed n
      → find_file after n ≡ none
  source_gone n u (made_now o) =
      absurd (clash (subst (λ (x : Bytes). same name x ≡ false) (only o) u))
    where
      clash : same name name ≡ false → ⊥
      clash f = let t = same_self name in cc
  source_gone n u (kept o) = remove_consumed-Occurs o (write_file dir name output)
  source_gone n u (free e) = after_none n u e

  name-Unmade :
      (before : Directory) (n : Bytes)
      → Fate before dir (name ∷ []) consumed n
      → (n ≡ name) ⊎ Unmade before after n
  name-Unmade before n f = elim (Bool-cases (same name n)) [
    | inl e ↦ inl (sym (eq_of_same name n e))
    | inr u ↦ inr (by_fate u f)
  ]
    where
      by_fate : same name n ≡ false → Fate before dir (name ∷ []) consumed n → Unmade before after n
      by_fate u (moved m) = inl (source_gone n u m)
      by_fate u (as_before e) = elim (after-Unmade n u) [
        | inl gone ↦ inl gone
        | inr same_file ↦ inr (same_file ∙ e)
      ]

  pub after-Cleared :
      (before : Directory) (sources : List Source)
      → ((n : Bytes) → Fate before dir (name ∷ []) consumed n)
      → All (λ s. Moved dir (name ∷ []) consumed s.name) sources
      → All (λ s. same name s.name ≡ false) sources
      → Cleared (ok output) before after name sources
  after-Cleared before sources f m u = (λ n. name-Unmade before n (f n), all_gone sources m u)
    where
      all_gone :
          (sources : List Source)
          → All (λ s. Moved dir (name ∷ []) consumed s.name) sources
          → All (λ s. same name s.name ≡ false) sources
          → All (λ s. find_file after s.name ≡ none) sources
      all_gone [] m u = tt
      all_gone (s ∷ sources) m u = (source_gone s.name u.0 m.0, all_gone sources m.1 u.1)
