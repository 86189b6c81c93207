-- ===== src/Table/Index.antt =====
-- The sparse index that `flush` writes, and what `search` finds in it.
use rusty_swift_merge.Base.{
  ℕ, zero, suc, ◌+◌, ◌<◌, ◌≡◌, ◌≢◌, ◌⊎◌, inl, inr, refl, sym, subst, ap, arith, none, some, List,
  [], ◌∷◌, ◌++◌, append_assoc, Ordering, length, length-append, get_elem?, All,
}
use Prim.Native.Nat.Ordering.{lt, eq, gt}
use rusty_swift_merge.Bytes.{Bytes, u32_mod, u64_mod}
use rusty_swift_merge.Bytes.Order.{cmp}
use rusty_swift_merge.BTreeMap.{BTreeMap}
use rusty_swift_merge.Table.{encode_entry, encode_data}
use rusty_swift_merge.Table.Reader.{
  Place, found, insert_at, binary_search, offset_at, search_offset,
}
use rusty_swift_merge.Table.Open.{FitsIndex}
use rusty_swift_merge.Table.Scan.{FitsData}

-- A mark of the index names an entry of the data section and where it starts.
pub record IsMark (entries : BTreeMap Bytes) (mark : ℕ × Bytes) : Type 0 where
  pub before : BTreeMap Bytes
  pub value : Bytes
  pub after : BTreeMap Bytes
  pub splits : entries ≡ before ++ (mark.1, value) ∷ after
  pub offset : mark.0 ≡ length (encode_data before)

-- Not above.
infix 50 ◌≼◌
abbrev pub ◌≼◌ : Bytes → Bytes → Type 0
a ≼ b = cmp a b ≢ gt

-- A mark not above `q` at place `j` of the index.
abbrev HitAt : List (ℕ × Bytes) → Bytes → ℕ → Type 0
HitAt index q j = (mark : ℕ × Bytes) × (get_elem? index j ≡ some mark) × mark.1 ≼ q

-- What `binary_search` from place `i` on answers: a place that holds `q`, or one behind a mark.
abbrev Hits : List (ℕ × Bytes) → Bytes → ℕ → Place → Type 0
Hits index q i (found n) = (j : ℕ) × (n ≡ i + j) × HitAt index q j
Hits index q i (insert_at n) = (j : ℕ) × (n ≡ i + suc j) × HitAt index q j

-- The same, or the very first place.
abbrev MayHit : List (ℕ × Bytes) → Bytes → ℕ → Place → Type 0
MayHit index q i (found n) = Hits index q i (found n)
MayHit index q i (insert_at n) = (n ≡ i) ⊎ Hits index q i (insert_at n)

later :
    (first : ℕ × Bytes) (index : List (ℕ × Bytes)) (q : Bytes) (i : ℕ) (p : Place)
    → first.1 ≼ q
    → MayHit index q (suc i) p
    → Hits (first ∷ index) q i p
later first index q i (found n) le (j, e, h) = (suc j, omega arith, h)
later first index q i (insert_at n) le (inl e) = (0, omega arith, (first, refl, le))
later first index q i (insert_at n) le (inr (j, e, h)) = (suc j, omega arith, h)

weaken :
    (index : List (ℕ × Bytes)) (q : Bytes) (i : ℕ) (p : Place)
    → Hits index q i p
    → MayHit index q i p
weaken index q i (found n) h = h
weaken index q i (insert_at n) h = inr h

binary_search-MayHit :
    (index : List (ℕ × Bytes)) (q : Bytes) (i : ℕ) → MayHit index q i (binary_search index q i)
unfolding binary_search
binary_search-MayHit [] q i = inl refl
binary_search-MayHit ((offset, key) ∷ index) q i =
    round (cmp key q) refl (binary_search-MayHit index q (suc i))
  where
    round :
        (o : Ordering)
        → cmp key q ≡ o
        → MayHit index q (suc i) (binary_search index q (suc i))
        → MayHit
            ((offset, key) ∷ index)
            q
            i
            (elim o [ lt ↦ binary_search index q (suc i) | eq ↦ found i | gt ↦ insert_at i ])
    round lt e ih =
        weaken ((offset, key) ∷ index) q i (binary_search index q (suc i))
          (later (offset, key) index q i (binary_search index q (suc i)) (λ p. cc) ih)
    round eq e ih = (0, omega arith, ((offset, key), refl, λ p. cc))
    round gt e ih = inl refl

binary_search-Hits :
    (offset : ℕ) (key : Bytes) (index : List (ℕ × Bytes)) (q : Bytes) (i : ℕ)
    → key ≼ q
    → Hits ((offset, key) ∷ index) q i (binary_search ((offset, key) ∷ index) q i)
unfolding binary_search
binary_search-Hits offset key index q i le = round (cmp key q) refl
  where
    round :
        (o : Ordering)
        → cmp key q ≡ o
        → Hits
            ((offset, key) ∷ index)
            q
            i
            (elim o [ lt ↦ binary_search index q (suc i) | eq ↦ found i | gt ↦ insert_at i ])
    round lt e = later (offset, key) index q i _ le (binary_search-MayHit index q (suc i))
    round eq e = (0, omega arith, ((offset, key), refl, le))
    round gt e = absurd (le e)

offset_at-some :
    (index : List (ℕ × Bytes)) (i j : ℕ) (mark : ℕ × Bytes)
    → i ≡ j
    → get_elem? index j ≡ some mark
    → offset_at index i ≡ some mark.0
offset_at-some index i j mark p e = rw (p, e, offset_at)

-- Where the first mark is not above `q`, `search` starts at some mark that is not above `q`.
pub search_offset_hits :
    (offset : ℕ) (key : Bytes) (index : List (ℕ × Bytes)) (q : Bytes)
    → key ≼ q
    → (mark : ℕ × Bytes) × (search_offset ((offset, key) ∷ index) q ≡ some mark.0)
      × (j : ℕ) × (get_elem? ((offset, key) ∷ index) j ≡ some mark)
      × mark.1 ≼ q
unfolding search_offset
search_offset_hits offset key index q le =
    round (binary_search ((offset, key) ∷ index) q 0) (binary_search-Hits offset key index q 0 le)
  where
    round :
        (p : Place)
        → Hits ((offset, key) ∷ index) q 0 p
        → (mark : ℕ × Bytes) × (elim p [
          | found i ↦ offset_at ((offset, key) ∷ index) i
          | insert_at zero ↦ none
          | insert_at (suc i) ↦ offset_at ((offset, key) ∷ index) i
        ]
            ≡ some mark.0)
          × (j : ℕ) × (get_elem? ((offset, key) ∷ index) j ≡ some mark)
          × mark.1 ≼ q
    round (found n) (j, e, (mark, g, le)) =
        (mark, offset_at-some ((offset, key) ∷ index) n j mark (omega arith) g, j, g, le)
    round (insert_at zero) (j, e, h) = absurd (omega arith)
    round (insert_at (suc n)) (j, e, (mark, g, le)) =
        (mark, offset_at-some ((offset, key) ∷ index) n j mark (omega arith) g, j, g, le)

pub encode_data-append :
    (xs ys : BTreeMap Bytes) → encode_data (xs ++ ys) ≡ encode_data xs ++ encode_data ys
unfolding encode_data
encode_data-append [] ys = refl
encode_data-append ((key, value) ∷ xs) ys =
    rw (encode_data-append xs ys)
      (sym (append_assoc (encode_entry key value) (encode_data xs) (encode_data ys)))

FitsData-middle :
    (before : BTreeMap Bytes) (key value : Bytes) (after : BTreeMap Bytes)
    → FitsData (before ++ (key, value) ∷ after)
    → length key < u32_mod
FitsData-middle [] key value after h = h.0
FitsData-middle ((k, v) ∷ before) key value after h = FitsData-middle before key value after h.2

-- Marks of a section that fits a u64 fit their fields.
pub FitsIndex-of_marks :
    (entries : BTreeMap Bytes) (index : List (ℕ × Bytes))
    → FitsData entries
    → length (encode_data entries) < u64_mod
    → All (IsMark entries) index
    → FitsIndex index
FitsIndex-of_marks entries [] h k marks = tt
FitsIndex-of_marks entries ((offset, key) ∷ index) h k (m, marks) = (
  omega (
    arith,
    m.offset,
    ap (λ (t : BTreeMap Bytes). length (encode_data t)) m.splits,
    ap (λ (t : Bytes). length t) (encode_data-append m.before ((key, m.value) ∷ m.after)),
    length-append (encode_data m.before) (encode_data ((key, m.value) ∷ m.after)),
  ),
  FitsData-middle m.before key m.value m.after (subst FitsData m.splits h),
  FitsIndex-of_marks entries index h k marks,
)
