-- ===== src/Compaction/TableNames.antt =====
-- Which files of a level are its tables, and the names that merged files get as tables.
use rusty_swift_merge.Base.{
  ℕ, ◌≡◌, ◌≢◌, ◌⊎◌, inl, inr, refl, ap, ◌∙◌, arith, Bool, true, false, Option, none, some, [], ◌∷◌,
  ◌++◌, append_assoc, ◌==◌, if◌then◌else◌, Bool-cases, All, All-append,
}
use rusty_swift_merge.Bytes.{Bytes}
use rusty_swift_merge.Bytes.Order.{cmp}
use rusty_swift_merge.Directory.{
  same, rsplit_dot, bin, ss_table_file_ext, transition_merged_sstable_ext,
}
use rusty_swift_merge.Compaction.Files.{compaction_unit, pass_infix, decimal, output_name}
use rusty_swift_merge.Compaction.Names.{eq_of_same, same_ne, decimal_no}
use rusty_swift_merge.Compaction.Tier.{table_name, starts_with, replace, last_part}

-- "bin", or a name that ends in ".bin".
abbrev pub IsTableName : Bytes → Type 0
IsTableName name = (name ≡ bin) ⊎ ((base : Bytes) × (name ≡ base ++ ss_table_file_ext))

abbrev Splits : Bytes → Option (Bytes × Bytes) → Type 0
Splits name none = Unit {0}
Splits name (some (stem, ext)) = name ≡ stem ++ 46 ∷ ext

rsplit_dot-Splits : (name : Bytes) → Splits name (rsplit_dot name)
unfolding rsplit_dot
rsplit_dot-Splits [] = tt
rsplit_dot-Splits (b ∷ name) = step (rsplit_dot name) (rsplit_dot-Splits name)
  where
    step :
        (o : Option (Bytes × Bytes))
        → Splits name o
        → Splits (b ∷ name) (elim o [
          | some (stem, ext) ↦ some (b ∷ stem, ext)
          | none ↦ if b == 46 then some ([], name) else none
        ])
    step (some (stem, ext)) h = ap (λ (t : Bytes). b ∷ t) h
    step none h = elim (Bool-cases (b == 46)) [
      | inl dot ↦ rw dot (ap (λ (c : ℕ). c ∷ name) (is_dot dot))
      | inr other ↦ rw other tt
    ]
      where
        is_dot : (b == 46) ≡ true → b ≡ 46
        is_dot e = ground arith

pub IsTableName-last_part : (name : Bytes) → same (last_part name) bin ≡ true → IsTableName name
IsTableName-last_part name = by_split (rsplit_dot name) (rsplit_dot-Splits name)
  where
    by_split :
        (o : Option (Bytes × Bytes))
        → Splits name o
        → same (elim o [ none ↦ name | some (stem, ext) ↦ ext ]) bin ≡ true
        → IsTableName name
    by_split none h e = inl (eq_of_same name bin e)
    by_split (some (stem, ext)) h e =
        inr (stem, h ∙ ap (λ (t : Bytes). stem ++ 46 ∷ t) (eq_of_same ext bin e))

rsplit_dot-table : (base : Bytes) → rsplit_dot (base ++ ss_table_file_ext) ≡ some (base, bin)
unfolding rsplit_dot
rsplit_dot-table [] = refl
rsplit_dot-table (b ∷ base) = rw (rsplit_dot-table base) refl

pub last_part-IsTableName : (name : Bytes) → IsTableName name → same (last_part name) bin ≡ true
unfolding rsplit_dot cmp
last_part-IsTableName name (inl e) = rw e refl
last_part-IsTableName name (inr (base, e)) =
    ap (λ (o : Option (Bytes × Bytes)). same (elim o [ none ↦ name | some (stem, ext) ↦ ext ]) bin)
      (ap (λ (t : Bytes). rsplit_dot t) e ∙ rsplit_dot-table base)

-- The name of an output without its ending.
abbrev pub output_stem : ℕ → ℕ → ℕ → Bytes
output_stem id pass pair_idx =
    (compaction_unit ++ decimal id ++ pass_infix) ++ (decimal pass ++ 95 ∷ decimal pair_idx)

output_name-stem :
    (id pass j : ℕ) → output_name id pass j ≡ output_stem id pass j ++ transition_merged_sstable_ext
unfolding output_name
output_name-stem id pass j = simp append_assoc

abbrev has_dot : Bytes → Bool
has_dot [] = false
has_dot (b ∷ name) = if b == 46 then true else has_dot name

without_dot : (name : Bytes) → has_dot name ≡ false → All (λ b. b ≢ 46) name
without_dot [] h = tt
without_dot (b ∷ name) h = (λ e. no_head b name e h, without_dot name (behind_head b name h))
  where
    no_head : (b : ℕ) (name : Bytes) → b ≡ 46 → has_dot (b ∷ name) ≡ false → ⊥
    no_head b name e h = ground arith

    behind_head : (b : ℕ) (name : Bytes) → has_dot (b ∷ name) ≡ false → has_dot name ≡ false
    behind_head b name h = ground arith

no_dot : (id pass j : ℕ) → All (λ b. b ≢ 46) (output_stem id pass j)
no_dot id pass j =
    let p = λ (b : ℕ). b ≢ 46 in
    All-append p (compaction_unit ++ decimal id ++ pass_infix) (decimal pass ++ 95 ∷ decimal j)
      (All-append p compaction_unit (decimal id ++ pass_infix) (without_dot compaction_unit refl) (
        All-append p (decimal id) pass_infix (decimal_no 46 id (inl (omega arith)))
          (without_dot pass_infix refl)))
      (All-append p (decimal pass) (95 ∷ decimal j) (decimal_no 46 pass (inl (omega arith)))
        (omega arith, decimal_no 46 j (inl (omega arith))))

replace_extension :
    replace transition_merged_sstable_ext ss_table_file_ext 0 transition_merged_sstable_ext
    ≡ ss_table_file_ext
unfolding replace starts_with cmp
replace_extension = refl

replace-append :
    (base : Bytes)
    → All (λ b. b ≢ 46) base
    → replace transition_merged_sstable_ext ss_table_file_ext 0
        (base ++ transition_merged_sstable_ext)
      ≡ base ++ ss_table_file_ext
unfolding replace starts_with
replace-append [] h = replace_extension
replace-append (b ∷ base) h =
    rw (same_ne (b ∷ []) (46 ∷ []) (λ e. h.0 (head_eq e)), replace, starts_with)
      (ap (λ (t : Bytes). b ∷ t) (replace-append base h.1))
  where
    head_eq : b ∷ [] ≡ 46 ∷ [] → b ≡ 46
    head_eq e = cc

pub table_name-output :
    (id pass j : ℕ)
    → table_name (output_name id pass j) ≡ output_stem id pass j ++ ss_table_file_ext
table_name-output id pass j =
    ap (λ (t : Bytes). table_name t) (output_name-stem id pass j)
    ∙ replace-append (output_stem id pass j) (no_dot id pass j)
