-- ===== src/Compaction/Range.antt =====
-- How `build_level_summary` widens its key range by the keys of a table.
use rusty_swift_merge.Base.{◌≡◌, refl, Option, none, some, [], ◌∷◌, Ordering}
use Prim.Native.Nat.Ordering.{lt, eq, gt}
use rusty_swift_merge.Bytes.{Bytes}
use rusty_swift_merge.Bytes.Order.{cmp, cmp_refl, eq_of_cmp, lt_trans, lt_of_gt, gt_of_lt}
use rusty_swift_merge.BTreeMap.{BTreeMap}
use rusty_swift_merge.Bloom.Sound.{Occurs, here, there}
use rusty_swift_merge.Table.Index.{◌≼◌}
use rusty_swift_merge.Compaction.Tier.{Range, lower, upper}

-- A key is not under the lower end of a range, or not over the upper one; nothing is within an empty range.
abbrev pub FromLow : Option Bytes → Bytes → Type 0
FromLow none q = ⊥
FromLow (some low) q = low ≼ q

abbrev pub ToHigh : Option Bytes → Bytes → Type 0
ToHigh none q = ⊥
ToHigh (some high) q = q ≼ high

not_above_itself : (k : Bytes) → k ≼ k
not_above_itself k = λ above. absurd (cc (cmp_refl k, above))

lt_not_gt : (a b : Bytes) → cmp a b ≡ lt → a ≼ b
lt_not_gt a b e = λ above. absurd (cc (e, above))

lower_keeps : (low : Option Bytes) (k q : Bytes) → FromLow low q → FromLow (lower low k) q
lower_keeps none k q h = absurd h
lower_keeps (some l) k q h = by_order (cmp k l) refl
  where
    by_order :
        (o : Ordering)
        → cmp k l ≡ o
        → FromLow (elim o [ lt ↦ some k | eq ↦ some l | gt ↦ some l ]) q
    by_order lt e = λ above. h (gt_of_lt q l (lt_trans q k l (lt_of_gt k q above) e))
    by_order eq e = h
    by_order gt e = h

lower_own : (low : Option Bytes) (k : Bytes) → FromLow (lower low k) k
lower_own none k = not_above_itself k
lower_own (some l) k = by_order (cmp k l) refl
  where
    by_order :
        (o : Ordering)
        → cmp k l ≡ o
        → FromLow (elim o [ lt ↦ some k | eq ↦ some l | gt ↦ some l ]) k
    by_order lt e = not_above_itself k
    by_order eq e = rw (eq_of_cmp k l e) (not_above_itself l)
    by_order gt e = λ above. lt_not_gt l k (lt_of_gt k l e) above

upper_keeps : (high : Option Bytes) (k q : Bytes) → ToHigh high q → ToHigh (upper high k) q
upper_keeps none k q h = absurd h
upper_keeps (some l) k q h = by_order (cmp k l) refl
  where
    by_order :
        (o : Ordering) → cmp k l ≡ o → ToHigh (elim o [ lt ↦ some l | eq ↦ some l | gt ↦ some k ]) q
    by_order lt e = h
    by_order eq e = h
    by_order gt e = λ above. h (gt_of_lt l q (lt_trans l k q (lt_of_gt k l e) (lt_of_gt q k above)))

upper_own : (high : Option Bytes) (k : Bytes) → ToHigh (upper high k) k
upper_own none k = not_above_itself k
upper_own (some l) k = by_order (cmp k l) refl
  where
    by_order :
        (o : Ordering) → cmp k l ≡ o → ToHigh (elim o [ lt ↦ some l | eq ↦ some l | gt ↦ some k ]) k
    by_order lt e = λ above. lt_not_gt k l e above
    by_order eq e = rw (eq_of_cmp k l e) (not_above_itself l)
    by_order gt e = not_above_itself k

-- The ends of the range after the keys of a table.
abbrev pub widen : Range → BTreeMap Bytes → Range
widen range [] = range
widen range ((key, value) ∷ xs) = widen (lower range.0 key, upper range.1 key) xs

abbrev pub Within : Bytes → Range → Type 0
Within q range = FromLow range.0 q × ToHigh range.1 q

pub widen_keeps :
    (xs : BTreeMap Bytes) (range : Range) (q : Bytes) → Within q range → Within q (widen range xs)
widen_keeps [] range q h = h
widen_keeps ((key, value) ∷ xs) range q h =
    widen_keeps xs _ q (lower_keeps range.0 key q h.0, upper_keeps range.1 key q h.1)

pub widen_covers :
    {q value : Bytes} {xs : BTreeMap Bytes}
    → Occurs (q, value) xs
    → (range : Range) → Within q (widen range xs)
widen_covers {q} (here {xs}) range = widen_keeps xs _ q (lower_own range.0 q, upper_own range.1 q)
widen_covers (there {x} {xs} o) range = widen_covers o _

-- What holds of an end, if there is one.
abbrev pub Attained : (Bytes → Type 0) → Option Bytes → Type 0
Attained P none = Unit {0}
Attained P (some key) = P key

module _ (P : Bytes → Type 0) where
  lower-Attained :
      (low : Option Bytes) (k : Bytes) → Attained P low → P k → Attained P (lower low k)
  lower-Attained none k h p = p
  lower-Attained (some l) k h p = by_order (cmp k l)
    where
      by_order : (o : Ordering) → Attained P (elim o [ lt ↦ some k | eq ↦ some l | gt ↦ some l ])
      by_order lt = p
      by_order eq = h
      by_order gt = h

  upper-Attained :
      (high : Option Bytes) (k : Bytes) → Attained P high → P k → Attained P (upper high k)
  upper-Attained none k h p = p
  upper-Attained (some l) k h p = by_order (cmp k l)
    where
      by_order : (o : Ordering) → Attained P (elim o [ lt ↦ some l | eq ↦ some l | gt ↦ some k ])
      by_order lt = h
      by_order eq = h
      by_order gt = p

  pub widen-Attained :
      (xs : BTreeMap Bytes) (range : Range)
      → ((q value : Bytes) → Occurs (q, value) xs → P q)
      → Attained P range.0 × Attained P range.1
      → Attained P (widen range xs).0 × Attained P (widen range xs).1
  widen-Attained [] range all h = h
  widen-Attained ((key, value) ∷ xs) range all h =
      widen-Attained xs _ (λ q v o. all q v (there o))
        (
          lower-Attained range.0 key h.0 (all key value here),
          upper-Attained range.1 key h.1 (all key value here),
        )
