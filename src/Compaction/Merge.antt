-- ===== src/Compaction/Merge.antt =====
-- What a merge of two data sections should be, on their entries: the live entries of both in order,
-- where the left one wins for equal keys.
use rusty_swift_merge.Base.{
  ◌≤◌, ◌≡◌, refl, sym, ap, arith, All, false, Option, none, some, [], ◌∷◌, length, if◌then◌else◌,
}
use Prim.Native.Nat.Ordering.{lt, eq, gt}
use rusty_swift_merge.Bytes.{Bytes}
use rusty_swift_merge.Bytes.Order.{cmp, cmp_refl, eq_of_cmp, gt_of_lt, lt_of_gt, lt_trans}
use rusty_swift_merge.BTreeMap.{BTreeMap, get, Above, IsSorted}
use rusty_swift_merge.BTreeMap.Laws.{Above-trans, get-Above}
use rusty_swift_merge.Compaction.{is_tombstone}

-- The entries that the reading loop does not skip.
unfoldable pub live : BTreeMap Bytes → BTreeMap Bytes
live [] = []
live ((key, value) ∷ entries) =
    if is_tombstone key value then live entries else (key, value) ∷ live entries

unfoldable pub merge : BTreeMap Bytes → BTreeMap Bytes → BTreeMap Bytes
merge [] ys = ys
merge ((k, v) ∷ xs) [] = (k, v) ∷ xs
merge ((k, v) ∷ xs) ((j, w) ∷ ys) = elim (cmp k j) [
  | lt ↦ (k, v) ∷ merge xs ((j, w) ∷ ys)
  | gt ↦ (j, w) ∷ merge ((k, v) ∷ xs) ys
  | eq ↦ (k, v) ∷ merge xs ys
]

abbrev pub or_else : Option Bytes → Option Bytes → Option Bytes
or_else none o = o
or_else (some v) o = some v

Above-merge : (b : Bytes) (xs ys : BTreeMap Bytes) → Above b xs → Above b ys → Above b (merge xs ys)
unfolding merge
Above-merge b [] ys p q = q
Above-merge b ((k, v) ∷ xs) [] p q = p
Above-merge b ((k, v) ∷ xs) ((j, w) ∷ ys) p q = ground (
  arith,
  Above-merge b xs ((j, w) ∷ ys) p.1 q,
  Above-merge b ((k, v) ∷ xs) ys p q.1,
  Above-merge b xs ys p.1 q.1,
)

pub merge-IsSorted : (xs ys : BTreeMap Bytes) → IsSorted xs → IsSorted ys → IsSorted (merge xs ys)
unfolding merge
merge-IsSorted [] ys p q = q
merge-IsSorted ((k, v) ∷ xs) [] p q = p
merge-IsSorted ((k, v) ∷ xs) ((j, w) ∷ ys) p q = ground (
  arith,
  merge-IsSorted xs ((j, w) ∷ ys) p.1 q,
  merge-IsSorted ((k, v) ∷ xs) ys p q.1,
  merge-IsSorted xs ys p.1 q.1,
  Above-merge k xs ((j, w) ∷ ys) p.0,
  Above-merge j ((k, v) ∷ xs) ys,
  Above-merge k xs ys p.0,
  Above-trans k j ys,
  Above-trans j k xs,
  lt_of_gt k j,
  eq_of_cmp k j,
)

or_else-none : (o : Option Bytes) → or_else o none ≡ o
or_else-none none = refl
or_else-none (some v) = refl

-- Looking a key up in a merge of sections with ascending keys asks the left one, then the right one.
pub get-merge :
    (xs ys : BTreeMap Bytes) (q : Bytes)
    → IsSorted xs
    → IsSorted ys
    → get (merge xs ys) q ≡ or_else (get xs q) (get ys q)
unfolding merge get
get-merge [] ys q p r = refl
get-merge ((k, v) ∷ xs) [] q p r = sym (or_else-none (get ((k, v) ∷ xs) q))
get-merge ((k, v) ∷ xs) ((j, w) ∷ ys) q p r = ground (
  arith,
  get-merge xs ((j, w) ∷ ys) q p.1 r,
  get-merge ((k, v) ∷ xs) ys q p r.1,
  get-merge xs ys q p.1 r.1,
  get-Above ys q,
  Above-trans q j ys,
  or_else-none (get xs q),
  lt_trans q k j,
  lt_trans q j k,
  lt_trans k j q,
  lt_trans j k q,
  lt_of_gt k j,
  lt_of_gt q k,
  lt_of_gt q j,
  gt_of_lt k j,
  gt_of_lt j q,
  gt_of_lt k q,
  eq_of_cmp k j,
  eq_of_cmp q k,
  eq_of_cmp q j,
  cmp_refl q,
)

Above-live : (b : Bytes) (xs : BTreeMap Bytes) → Above b xs → Above b (live xs)
unfolding live
Above-live b [] p = tt
Above-live b ((k, v) ∷ xs) p = ground (arith, Above-live b xs p.1)

pub live-IsSorted : (xs : BTreeMap Bytes) → IsSorted xs → IsSorted (live xs)
unfolding live
live-IsSorted [] p = tt
live-IsSorted ((k, v) ∷ xs) p = ground (arith, live-IsSorted xs p.1, Above-live k xs p.0)

pub length-live : (xs : BTreeMap Bytes) → length (live xs) ≤ length xs
unfolding live
length-live [] = omega arith
length-live ((k, v) ∷ xs) = ground (arith, length-live xs)

-- No entry is one that the reading loop skips.
abbrev pub AllLive : BTreeMap Bytes → Type 0
AllLive = All (λ e. is_tombstone e.0 e.1 ≡ false)

pub live-AllLive : (xs : BTreeMap Bytes) → AllLive (live xs)
unfolding live
live-AllLive [] = tt
live-AllLive ((k, v) ∷ xs) = ground (arith, live-AllLive xs)

pub merge-AllLive : (xs ys : BTreeMap Bytes) → AllLive xs → AllLive ys → AllLive (merge xs ys)
unfolding merge
merge-AllLive [] ys p q = q
merge-AllLive ((k, v) ∷ xs) [] p q = p
merge-AllLive ((k, v) ∷ xs) ((j, w) ∷ ys) p q = ground (
  arith,
  merge-AllLive xs ((j, w) ∷ ys) p.1 q,
  merge-AllLive ((k, v) ∷ xs) ys p q.1,
  merge-AllLive xs ys p.1 q.1,
)

pub live_again : (xs : BTreeMap Bytes) → AllLive xs → live xs ≡ xs
unfolding live
live_again [] p = refl
live_again ((k, v) ∷ xs) p = rw p.0 (ap (λ (m : BTreeMap Bytes). (k, v) ∷ m) (live_again xs p.1))
