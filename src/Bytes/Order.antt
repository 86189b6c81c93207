-- ===== src/Bytes/Order.antt =====
-- The lexicographic order on byte strings, by which `Vec<u8>` and `String` keys compare.
use rusty_swift_merge.Base.{ℕ, compare, Ordering, ◌≡◌, refl, arith, List, [], ◌∷◌}
use Prim.Native.Nat.Ordering.{lt, eq, gt}

-- `Ord::cmp` on slices.
unfoldable pub cmp : List ℕ → List ℕ → Ordering
cmp [] [] = eq
cmp [] (y ∷ ys) = lt
cmp (x ∷ xs) [] = gt
cmp (x ∷ xs) (y ∷ ys) = elim (compare x y) [ lt ↦ lt | gt ↦ gt | eq ↦ cmp xs ys ]

infix 50 ◌≺◌
abbrev pub ◌≺◌ : List ℕ → List ℕ → Type 0
a ≺ b = cmp a b ≡ lt

pub cmp_refl : (a : List ℕ) → cmp a a ≡ eq
unfolding cmp
cmp_refl [] = refl
cmp_refl (x ∷ xs) = ground (arith, cmp_refl xs)

pub eq_of_cmp : (a b : List ℕ) → cmp a b ≡ eq → a ≡ b
unfolding cmp
eq_of_cmp [] [] h = refl
eq_of_cmp [] (y ∷ ys) h = cc
eq_of_cmp (x ∷ xs) [] h = cc
eq_of_cmp (x ∷ xs) (y ∷ ys) h = ground (arith, eq_of_cmp xs ys)

pub lt_of_gt : (a b : List ℕ) → cmp a b ≡ gt → cmp b a ≡ lt
unfolding cmp
lt_of_gt [] [] h = cc
lt_of_gt [] (y ∷ ys) h = cc
lt_of_gt (x ∷ xs) [] h = refl
lt_of_gt (x ∷ xs) (y ∷ ys) h = ground (arith, lt_of_gt xs ys)

pub gt_of_lt : (a b : List ℕ) → cmp a b ≡ lt → cmp b a ≡ gt
unfolding cmp
gt_of_lt [] [] h = cc
gt_of_lt [] (y ∷ ys) h = refl
gt_of_lt (x ∷ xs) [] h = cc
gt_of_lt (x ∷ xs) (y ∷ ys) h = ground (arith, gt_of_lt xs ys)

pub lt_trans : (a b c : List ℕ) → a ≺ b → b ≺ c → a ≺ c
unfolding cmp
lt_trans [] [] c h k = cc
lt_trans [] (y ∷ ys) [] h k = cc
lt_trans [] (y ∷ ys) (z ∷ zs) h k = refl
lt_trans (x ∷ xs) [] c h k = cc
lt_trans (x ∷ xs) (y ∷ ys) [] h k = cc
lt_trans (x ∷ xs) (y ∷ ys) (z ∷ zs) h k = ground (arith, lt_trans xs ys zs)
