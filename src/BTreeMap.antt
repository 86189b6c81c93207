-- ===== src/BTreeMap.antt =====
-- `BTreeMap` keyed by `Vec<u8>` or `String`: the entries in iteration order.
pub mod Laws
use rusty_swift_merge.Base.{◌≡◌, arith, Option, none, some, List, [], ◌∷◌, Ordering}
use Prim.Native.Nat.Ordering.{lt, eq, gt}
use rusty_swift_merge.Bytes.{Bytes}
use rusty_swift_merge.Bytes.Order.{cmp, ◌≺◌}

abbrev pub BTreeMap {ℓ} : Type ℓ → Type ℓ
BTreeMap V = List (Bytes × V)

module _ {ℓ} {V : Type ℓ} where
  unfoldable pub get : BTreeMap V → Bytes → Option V
  get [] q = none
  get ((k, v) ∷ m) q = elim (cmp q k) [ lt ↦ none | eq ↦ some v | gt ↦ get m q ]

  unfoldable pub insert : BTreeMap V → Bytes → V → BTreeMap V
  insert [] q w = (q, w) ∷ []
  insert ((k, v) ∷ m) q w = elim (cmp q k) [
    | lt ↦ (q, w) ∷ (k, v) ∷ m
    | eq ↦ (q, w) ∷ m
    | gt ↦ (k, v) ∷ insert m q w
  ]

  -- Every key of the map is above `b`.
  abbrev pub Above : Bytes → BTreeMap V → Type 0
  Above b [] = Unit {0}
  Above b ((k, v) ∷ m) = b ≺ k × Above b m

  -- Keys ascend strictly: what the standard library keeps of every `BTreeMap`.
  abbrev pub IsSorted : BTreeMap V → Type 0
  IsSorted [] = Unit {0}
  IsSorted ((k, v) ∷ m) = Above k m × IsSorted m
