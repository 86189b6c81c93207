-- ===== src/BTreeMap/Laws.antt =====
-- `get` after `insert`, and that `insert` keeps the keys ascending.
use rusty_swift_merge.Base.{◌++◌, ◌≡◌, ◌≢◌, refl, arith, none, some, [], ◌∷◌}
use rusty_swift_merge.Bytes.{Bytes}
use rusty_swift_merge.Bytes.Order.{◌≺◌, cmp_refl, eq_of_cmp, lt_of_gt, gt_of_lt, lt_trans}
use rusty_swift_merge.BTreeMap.{BTreeMap, get, insert, Above, IsSorted}

module _ {ℓ} {V : Type ℓ} where
  pub Above-trans : (a b : Bytes) (m : BTreeMap V) → a ≺ b → Above b m → Above a m
  Above-trans a b [] h s = tt
  Above-trans a b ((k, v) ∷ m) h s = (lt_trans a b k h s.0, Above-trans a b m h s.1)

  pub Above-insert :
      (b : Bytes) (m : BTreeMap V) (q : Bytes) (w : V) → b ≺ q → Above b m → Above b (insert m q w)
  unfolding insert
  Above-insert b [] q w h s = (h, tt)
  Above-insert b ((k, v) ∷ m) q w h s = ground (arith, Above-insert b m q w)

  pub insert-IsSorted : (m : BTreeMap V) (q : Bytes) (w : V) → IsSorted m → IsSorted (insert m q w)
  unfolding insert
  insert-IsSorted [] q w s = (tt, tt)
  insert-IsSorted ((k, v) ∷ m) q w s = ground (
    arith,
    insert-IsSorted m q w,
    Above-insert k m q w,
    Above-trans q k m,
    lt_of_gt q k,
    eq_of_cmp q k,
  )

  pub get-Above : (m : BTreeMap V) (q : Bytes) → Above q m → get m q ≡ none
  unfolding get
  get-Above [] q s = refl
  get-Above ((k, v) ∷ m) q s = ground arith

  pub get-insert_self : (m : BTreeMap V) (q : Bytes) (w : V) → get (insert m q w) q ≡ some w
  unfolding get insert
  get-insert_self [] q w = ground (arith, cmp_refl q)
  get-insert_self ((k, v) ∷ m) q w = ground (arith, cmp_refl q, get-insert_self m q w)

  pub get-insert_ne :
      (m : BTreeMap V) (q p : Bytes) (w : V) → IsSorted m → p ≢ q → get (insert m q w) p ≡ get m p
  unfolding get insert
  get-insert_ne [] q p w s n = ground (arith, eq_of_cmp p q)
  get-insert_ne ((k, v) ∷ m) q p w s n = ground (
    arith,
    get-insert_ne m q p w s.1,
    eq_of_cmp p q,
    eq_of_cmp q k,
    gt_of_lt p q,
    lt_of_gt p q,
    lt_trans p q k,
  )

  Above-middle :
      (b : Bytes) (m : BTreeMap V) (k : Bytes) (v : V) (n : BTreeMap V)
      → Above b (m ++ (k, v) ∷ n)
      → b ≺ k
  Above-middle b [] k v n s = s.0
  Above-middle b ((j, w) ∷ m) k v n s = Above-middle b m k v n s.1

  -- Inserting the keys in their order appends.
  pub insert_last :
      (m : BTreeMap V) (k : Bytes) (v : V) (n : BTreeMap V)
      → IsSorted (m ++ (k, v) ∷ n)
      → insert m k v ≡ m ++ (k, v) ∷ []
  unfolding insert
  insert_last [] k v n s = refl
  insert_last ((j, w) ∷ m) k v n s =
      ground (arith, gt_of_lt j k, Above-middle j m k v n s.0, insert_last m k v n s.1)
