-- ===== src/Compaction/Join.antt =====
-- `join_tables` writes the merge of the live entries of its inputs.
use rusty_swift_merge.Base.{
  ℕ, zero, suc, ◌+◌, ◌≤◌, ◌<◌, ◌≡◌, refl, sym, ap, ◌∙◌, arith, true, false, Option, none, some, [],
  ◌∷◌, ◌++◌, append_assoc, append-nil, Ordering, length, length-append, ltb, lt→ltb, le→ltb,
  Bool-cases, inl, inr, ◌⊎◌,
}
use Prim.Native.Nat.Ordering.{lt, eq, gt}
use rusty_swift_merge.Base.Outcome.{Outcome, ok}
use rusty_swift_merge.Bytes.{Bytes, u32_mod}
use rusty_swift_merge.Bytes.Order.{cmp}
use rusty_swift_merge.Bytes.Cursor.{read_u32-append, read_bytes-append}
use rusty_swift_merge.BTreeMap.{BTreeMap}
use rusty_swift_merge.Table.{encode_entry, encode_data}
use rusty_swift_merge.Table.Scan.{FitsData, length-encode_entry}
use rusty_swift_merge.Compaction.{
  CompactionError, io_error, Section, Pair, read_prefixed_bytes, read_data_section_entry,
  is_tombstone, behind, read_next, read_next_non_tombstone_entry, write_data_section_entry, drain,
  join_loop,
}
use rusty_swift_merge.Compaction.Merge.{live, merge}

read_data_section_entry-append :
    (key value rest : Bytes)
    → length key < u32_mod
    → length value < u32_mod
    → read_data_section_entry (encode_entry key value ++ rest) ≡ ok (key, value, rest)
unfolding read_data_section_entry read_prefixed_bytes encode_entry
read_data_section_entry-append key value rest hk hv = simp (
  append_assoc,
  read_u32-append io_error (length key) hk,
  read_bytes-append io_error key,
  read_u32-append io_error (length value) hv,
  read_bytes-append io_error value,
)

-- The entries `xs` are what is left of the section.
pub record At (s : Section) (xs : BTreeMap Bytes) : Type 0 where
  pub tail : Bytes
  pub rest : s.rest ≡ encode_data xs ++ tail
  pub size : s.size ≡ s.ptr + length (encode_data xs)
  pub fits : FitsData xs

abbrev pub FitsPair : Option Pair → Type 0
FitsPair none = Unit {0}
FitsPair (some (key, value)) = (length key < u32_mod) × (length value < u32_mod)

-- What is still to be written of an input: the entry in hand, and the live ones left.
abbrev pub pending : Option Pair → BTreeMap Bytes → BTreeMap Bytes
pending none xs = []
pending (some e) xs = e ∷ live xs

-- A read that leaves the section at `left`, with an entry in hand, of the live entries of `xs`.
pub record Reads (xs : BTreeMap Bytes) (r : Outcome CompactionError (Option Pair × Section))
    : Type 0 where
  pub entry : Option Pair
  pub next : Section
  pub left : BTreeMap Bytes
  pub result : r ≡ ok (entry, next)
  pub at : At next left
  pub fits : FitsPair entry
  pub same : pending entry left ≡ live xs

pub behind-At :
    (s : Section) (key value : Bytes) (xs : BTreeMap Bytes) (h : At s ((key, value) ∷ xs))
    → At (behind s (encode_data xs ++ h.tail)) xs
unfolding encode_data
behind-At s key value xs h = record {
  tail = h.tail;
  rest = refl;
  size =
      h.size
      ∙ omega (
        arith,
        ap (λ (t : Bytes). length t) h.rest,
        length-append (encode_entry key value) (encode_data xs),
        length-append (encode_entry key value ++ encode_data xs) h.tail,
        length-append (encode_data xs) h.tail,
      );
  fits = h.fits.2;
}

pub read_entry-At :
    (s : Section) (key value : Bytes) (xs : BTreeMap Bytes) (h : At s ((key, value) ∷ xs))
    → read_data_section_entry s.rest ≡ ok (key, value, encode_data xs ++ h.tail)
unfolding encode_data
read_entry-At s key value xs h =
    rw (h.rest, append_assoc)
      (read_data_section_entry-append key value (encode_data xs ++ h.tail) h.fits.0 h.fits.1)

pub entries_left :
    (s : Section) (key value : Bytes) (xs : BTreeMap Bytes)
    → At s ((key, value) ∷ xs)
    → ltb s.ptr s.size ≡ true
unfolding encode_data
entries_left s key value xs h = lt→ltb s.ptr s.size (
    omega (
      arith,
      h.size,
      length-append (encode_entry key value) (encode_data xs),
      length-encode_entry key value,
    ))

pub nothing_left : (s : Section) → At s [] → ltb s.ptr s.size ≡ false
unfolding encode_data
nothing_left s h = le→ltb s.ptr s.size (omega (arith, h.size))

read_next-Reads :
    (fuel : ℕ) (s : Section) (xs : BTreeMap Bytes)
    → At s xs
    → length xs ≤ fuel
    → Reads xs (read_next (suc fuel) s)
unfolding read_next live
read_next-Reads fuel s [] h hf = record {
  entry = none;
  next = s;
  left = [];
  result = rw (nothing_left s h, read_next) refl;
  at = h;
  fits = tt;
  same = refl;
}
read_next-Reads zero s ((key, value) ∷ xs) h hf = absurd (omega arith)
read_next-Reads (suc fuel) s ((key, value) ∷ xs) h hf =
    let s' = behind s (encode_data xs ++ h.tail) in
    let later = read_next-Reads fuel s' xs (behind-At s key value xs h) (omega arith) in
    elim (Bool-cases (is_tombstone key value)) [
      | inl dead ↦ record {
        entry = later.entry;
        next = later.next;
        left = later.left;
        result =
            rw (entries_left s key value xs h, read_entry-At s key value xs h, dead, read_next)
              later.result;
        at = later.at;
        fits = later.fits;
        same = rw dead later.same;
      }
      | inr alive ↦ record {
        entry = some (key, value);
        next = s';
        left = xs;
        result =
            rw (entries_left s key value xs h, read_entry-At s key value xs h, alive, read_next)
              refl;
        at = behind-At s key value xs h;
        fits = (h.fits.0, h.fits.1);
        same = rw alive refl;
      }
    ]

pub length_le_bytes : (xs : BTreeMap Bytes) → length xs ≤ length (encode_data xs)
unfolding encode_data
length_le_bytes [] = omega arith
length_le_bytes ((key, value) ∷ xs) = omega (
  arith,
  length_le_bytes xs,
  length-append (encode_entry key value) (encode_data xs),
  length-encode_entry key value,
)

pub read_next_non_tombstone_entry-Reads :
    (s : Section) (xs : BTreeMap Bytes) → At s xs → Reads xs (read_next_non_tombstone_entry s)
unfolding read_next_non_tombstone_entry
read_next_non_tombstone_entry-Reads s xs h = read_next-Reads (length s.rest) s xs h (
    omega (
      arith,
      length_le_bytes xs,
      ap (λ (t : Bytes). length t) h.rest,
      length-append (encode_data xs) h.tail,
    ))

write_pair :
    (dest : Bytes) (e : Pair)
    → FitsPair (some e)
    → write_data_section_entry dest e ≡ ok (dest ++ encode_entry e.0 e.1)
unfolding write_data_section_entry
write_pair dest (key, value) h =
    rw (lt→ltb (length key) u32_mod h.0, lt→ltb (length value) u32_mod h.1) refl

encode_pair :
    (dest : Bytes) (e : Pair) (xs : BTreeMap Bytes)
    → (dest ++ encode_entry e.0 e.1) ++ encode_data xs ≡ dest ++ encode_data (e ∷ xs)
unfolding encode_data
encode_pair dest (key, value) xs = append_assoc dest (encode_entry key value) (encode_data xs)

drain-pending :
    (fuel : ℕ) (e : Option Pair) (s : Section) (xs : BTreeMap Bytes) (dest : Bytes)
    → At s xs
    → FitsPair e
    → length (pending e xs) ≤ fuel
    → drain fuel e s dest ≡ ok (dest ++ encode_data (pending e xs))
unfolding drain
drain-pending fuel none s xs dest h f hf = unfold encode_data in ap ok (sym (append-nil dest))
drain-pending zero (some e) s xs dest h f hf = absurd (omega arith)
drain-pending (suc fuel) (some e) s xs dest h f hf =
    let r = read_next_non_tombstone_entry-Reads s xs h in
    rw (write_pair dest e f, r.result)
      (drain-pending fuel r.entry r.next r.left _ r.at r.fits
          (omega (arith, ap (λ (t : BTreeMap Bytes). length t) r.same))
        ∙ ap (λ (t : BTreeMap Bytes). ok ((dest ++ encode_entry e.0 e.1) ++ encode_data t)) r.same
        ∙ ap ok (encode_pair dest e (live xs)))

merge-nil : (xs : BTreeMap Bytes) → merge xs [] ≡ xs
unfolding merge
merge-nil [] = refl
merge-nil ((k, v) ∷ xs) = refl

merge-lt :
    (x y : Pair) (xs ys : BTreeMap Bytes)
    → cmp x.0 y.0 ≡ lt
    → merge (x ∷ xs) (y ∷ ys) ≡ x ∷ merge xs (y ∷ ys)
unfolding merge
merge-lt x y xs ys e = rw (e, merge) refl

merge-eq :
    (x y : Pair) (xs ys : BTreeMap Bytes)
    → cmp x.0 y.0 ≡ eq
    → merge (x ∷ xs) (y ∷ ys) ≡ x ∷ merge xs ys
unfolding merge
merge-eq x y xs ys e = rw (e, merge) refl

merge-gt :
    (x y : Pair) (xs ys : BTreeMap Bytes)
    → cmp x.0 y.0 ≡ gt
    → merge (x ∷ xs) (y ∷ ys) ≡ y ∷ merge (x ∷ xs) ys
unfolding merge
merge-gt x y xs ys e = rw (e, merge) refl

merge-none : (xs : BTreeMap Bytes) → merge [] xs ≡ xs
unfolding merge
merge-none xs = refl

-- An entry more, in front of what is written later.
written :
    (dest : Bytes) (e : Pair) {xs ys : BTreeMap Bytes} {r : Outcome CompactionError Bytes}
    → r ≡ ok ((dest ++ encode_entry e.0 e.1) ++ encode_data xs)
    → ys ≡ e ∷ xs
    → r ≡ ok (dest ++ encode_data ys)
written dest e {xs} {ys} h k =
    h
    ∙ ap ok (encode_pair dest e xs)
    ∙ ap (λ (t : BTreeMap Bytes). ok (dest ++ encode_data t)) (sym k)

Ordering-cases : (o : Ordering) → (o ≡ lt) ⊎ (o ≡ eq) ⊎ (o ≡ gt)
Ordering-cases lt = inl refl
Ordering-cases eq = inr (inl refl)
Ordering-cases gt = inr (inr refl)

pub join_loop-pending :
    (fuel : ℕ) (left : Option Pair) (l : Section) (xs : BTreeMap Bytes) (right : Option Pair)
    (r : Section) (ys : BTreeMap Bytes) (dest : Bytes)
    → At l xs
    → At r ys
    → FitsPair left
    → FitsPair right
    → length (pending left xs) + length (pending right ys) ≤ fuel
    → join_loop fuel left l right r dest
      ≡ ok (dest ++ encode_data (merge (pending left xs) (pending right ys)))
unfolding join_loop drain
join_loop-pending fuel none l xs right r ys dest hl hr fl fr hf =
    rw (merge-none, join_loop) (drain-pending fuel right r ys dest hr fr (omega arith))
join_loop-pending fuel (some left) l xs none r ys dest hl hr fl fr hf =
    rw (merge-nil, join_loop) (drain-pending fuel (some left) l xs dest hl fl (omega arith))
join_loop-pending zero (some left) l xs (some right) r ys dest hl hr fl fr hf = absurd (omega arith)
join_loop-pending (suc fuel) (some left) l xs (some right) r ys dest hl hr fl fr hf =
    let a = read_next_non_tombstone_entry-Reads l xs hl in
    let b = read_next_non_tombstone_entry-Reads r ys hr in
    let a_length : length (pending a.entry a.left) ≡ length (live xs) =
      ap (λ (t : BTreeMap Bytes). length t) a.same in
    let b_length : length (pending b.entry b.left) ≡ length (live ys) =
      ap (λ (t : BTreeMap Bytes). length t) b.same in
    elim (Ordering-cases (cmp left.0 right.0)) [
      | inl e ↦
          written dest left
            (rw (e, write_pair dest left fl, a.result, join_loop)
              (join_loop-pending fuel a.entry a.next a.left (some right) r ys _ a.at hr a.fits fr
                (omega (arith, a_length))))
            (merge-lt left right (live xs) (live ys) e
              ∙ ap (λ (t : BTreeMap Bytes). left ∷ merge t (right ∷ live ys)) (sym a.same))
      | inr (inl e) ↦
          written dest left
            (rw (e, write_pair dest left fl, a.result, b.result, join_loop)
              (join_loop-pending fuel a.entry a.next a.left b.entry b.next b.left _ a.at b.at a.fits
                b.fits (omega (arith, a_length, b_length))))
            (merge-eq left right (live xs) (live ys) e
              ∙ ap (λ (t : BTreeMap Bytes). left ∷ merge t (live ys)) (sym a.same)
              ∙ ap (λ (t : BTreeMap Bytes). left ∷ merge (pending a.entry a.left) t) (sym b.same))
      | inr (inr e) ↦
          written dest right
            (rw (e, write_pair dest right fr, b.result, join_loop)
              (join_loop-pending fuel (some left) l xs b.entry b.next b.left _ hl b.at fl b.fits
                (omega (arith, b_length))))
            (merge-gt left right (live xs) (live ys) e
              ∙ ap (λ (t : BTreeMap Bytes). right ∷ merge (left ∷ live xs) t) (sym b.same))
    ]
