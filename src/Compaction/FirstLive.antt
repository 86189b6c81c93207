-- ===== src/Compaction/FirstLive.antt =====
-- What a list of tables says of a key, and what merging two of them keeps of it.
use rusty_swift_merge.Base.{
  ℕ, ◌≤◌, ◌≡◌, inl, inr, refl, ap, ◌∙◌, arith, false, Option, none, some, List, [], ◌∷◌, All,
}
use rusty_swift_merge.Bytes.{Bytes}
use rusty_swift_merge.BTreeMap.{BTreeMap, get, IsSorted}
use rusty_swift_merge.Table.Scan.{FitsData}
use rusty_swift_merge.Directory.{same, ends_with}
use rusty_swift_merge.Compaction.{raw_data_section}
use rusty_swift_merge.Compaction.Merge.{
  live, merge, or_else, live-AllLive, merge-AllLive, live_again, live-IsSorted, get-merge,
}
use rusty_swift_merge.Compaction.Files.{typed, output_name}
use rusty_swift_merge.Compaction.Names.{Kind, strip_suffix_of_output}
use rusty_swift_merge.Compaction.Pairs.{Source}

pub live-FitsData : (xs : BTreeMap Bytes) → FitsData xs → FitsData (live xs)
unfolding live
live-FitsData [] h = tt
live-FitsData ((k, v) ∷ xs) h = ground (arith, live-FitsData xs h.2)

pub merge-FitsData : (xs ys : BTreeMap Bytes) → FitsData xs → FitsData ys → FitsData (merge xs ys)
unfolding merge
merge-FitsData [] ys p q = q
merge-FitsData ((k, v) ∷ xs) [] p q = p
merge-FitsData ((k, v) ∷ xs) ((j, w) ∷ ys) p q = ground (
  arith,
  merge-FitsData xs ((j, w) ∷ ys) p.2 q,
  merge-FitsData ((k, v) ∷ xs) ys p q.2,
  merge-FitsData xs ys p.2 q.2,
)

-- What a list of tables says of a key, the first one first, without the entries that are dropped.
unfoldable pub first_live : List Source → Bytes → Option Bytes
first_live [] q = none
first_live (s ∷ sources) q = or_else (get (live s.entries) q) (first_live sources q)

abbrev pub Apart : List Source → Type 0
Apart [] = Unit {0}
Apart (s ∷ sources) = All (λ t. same s.name t.name ≡ false) sources × Apart sources

pub typed_output :
    (id pass j : ℕ) (content : Bytes)
    → typed (output_name id pass j) content ≡ raw_data_section content
unfolding ends_with
typed_output id pass j content = rw (ends_with, strip_suffix_of_output id pass j) refl

pub or_else_assoc : (a b c : Option Bytes) → or_else (or_else a b) c ≡ or_else a (or_else b c)
or_else_assoc none b c = refl
or_else_assoc (some v) b c = refl

pub get-live-merge :
    (xs ys : BTreeMap Bytes) (q : Bytes)
    → IsSorted xs
    → IsSorted ys
    → get (live (merge (live xs) (live ys))) q ≡ or_else (get (live xs) q) (get (live ys) q)
get-live-merge xs ys q p r =
    ap (λ (m : BTreeMap Bytes). get m q)
      (live_again (merge (live xs) (live ys))
        (merge-AllLive (live xs) (live ys) (live-AllLive xs) (live-AllLive ys)))
    ∙ get-merge (live xs) (live ys) q (live-IsSorted xs p) (live-IsSorted ys r)

pub Kind-later : (id p pass : ℕ) (name : Bytes) → p ≤ pass → Kind id p name → Kind id pass name
Kind-later id p pass name h (inl b) = inl b
Kind-later id p pass name h (inr (o, i, l, e)) = inr (o, i, omega arith, e)
