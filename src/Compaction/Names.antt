-- ===== src/Compaction/Names.antt =====
-- The names that a compaction gives its files: they do not collide.
use rusty_swift_merge.Base.{
  ℕ, zero, suc, ◌+◌, ◌-◌, ◌*◌, ◌/◌, ◌%◌, ◌≤◌, ◌<◌, ◌≡◌, ◌≢◌, ◌⊎◌, inl, inr, refl, sym, ap, ap₂, ◌∙◌,
  arith, Bool, true, false, Option, none, some, [], ◌∷◌, ◌++◌, append_assoc, Ordering, length,
  length-append, drop, All, All-append, Bool-cases, ltb, if◌then◌else◌,
}
use Prim.Native.Nat.Ordering.{eq}
use rusty_swift_merge.Bytes.{Bytes}
use rusty_swift_merge.Bytes.Order.{cmp, cmp_refl, eq_of_cmp}
use rusty_swift_merge.Directory.{
  same, strip_suffix, ss_table_file_ext, transition_merged_sstable_ext, drained_file_ext,
}
use rusty_swift_merge.Compaction.Files.{digits, decimal, compaction_unit, pass_infix, output_name}

pub same_refl : (a : Bytes) → same a a ≡ true
same_refl a = by_order (cmp a a) (cmp_refl a)
  where
    by_order : (o : Ordering) → o ≡ eq → (elim o [ eq ↦ true | _ ↦ false ]) ≡ true
    by_order o e = rw e refl

pub eq_of_same : (a b : Bytes) → same a b ≡ true → a ≡ b
eq_of_same a b h = ground (arith, eq_of_cmp a b)

pub same_ne : (a b : Bytes) → a ≢ b → same a b ≡ false
same_ne a b n = ground (arith, eq_of_same a b)

-- The last three bytes.
unfoldable pub ending : Bytes → Bytes
ending name = drop (length name - 3) name

ending-cons : (b : ℕ) (name : Bytes) → 3 ≤ length name → ending (b ∷ name) ≡ ending name
unfolding ending
ending-cons b name h =
    let shift : suc (length name) - 3 ≡ suc (length name - 3) = omega arith in
    ap (λ (n : ℕ). drop n (b ∷ name)) shift

pub ending-append : (base ext : Bytes) → 3 ≤ length ext → ending (base ++ ext) ≡ ending ext
ending-append [] ext h = refl
ending-append (b ∷ base) ext h =
    ending-cons b (base ++ ext) (omega (arith, length-append base ext)) ∙ ending-append base ext h

abbrev pub ain : Bytes
ain = 97 ∷ 105 ∷ 110 ∷ []

abbrev pub tmp : Bytes
tmp = 116 ∷ 109 ∷ 112 ∷ []

abbrev ending_bin : Bytes
ending_bin = 98 ∷ 105 ∷ 110 ∷ []

ending_of_bin : (base : Bytes) → ending (base ++ ss_table_file_ext) ≡ ending_bin
ending_of_bin base = ending-append base ss_table_file_ext (omega arith) ∙ unfold ending in refl

pub ending_of_drained : (base : Bytes) → ending (base ++ drained_file_ext) ≡ ain
ending_of_drained base = ending-append base drained_file_ext (omega arith) ∙ unfold ending in refl

-- Decimal digits.
abbrev Digit : ℕ → Type 0
Digit d = (48 ≤ d) × (d < 58)

value_from : ℕ → Bytes → ℕ
value_from n [] = n
value_from n (d ∷ ds) = value_from (n * 10 + (d - 48)) ds

value_from_last :
    (n : ℕ) (ds : Bytes) (d : ℕ) → value_from n (ds ++ d ∷ []) ≡ value_from n ds * 10 + (d - 48)
unfolding value_from
value_from_last n [] d = refl
value_from_last n (e ∷ ds) d = value_from_last (n * 10 + (e - 48)) ds d

ltb→lt : (a b : ℕ) → ltb a b ≡ true → a < b
ltb→lt a b h = ground arith

ltb→le : (a b : ℕ) → ltb a b ≡ false → b ≤ a
ltb→le a b h = ground arith

digits_lem :
    (fuel n : ℕ) → n < fuel → (value_from 0 (digits fuel n) ≡ n) × All Digit (digits fuel n)
unfolding value_from digits
digits_lem zero n h = absurd (omega arith)
digits_lem (suc fuel) n h = elim (Bool-cases (ltb n 10)) [
  | inl small ↦
      let few = ltb→lt n 10 small in
      rw (digits, small) (omega arith, ((omega arith, omega arith), tt))
  | inr large ↦
      let many = ltb→le n 10 large in
      let (v, d) = digits_lem fuel (n / 10) (omega arith) in
      rw (digits, large)
        (
          value_from_last 0 (digits fuel (n / 10)) (48 + n % 10) ∙ omega (arith, v),
          All-append Digit (digits fuel (n / 10)) ((48 + n % 10) ∷ []) d
              ((omega arith, omega arith), tt),
        )
]

cons_eq : {x y : ℕ} {xs ys : Bytes} → x ∷ xs ≡ y ∷ ys → (x ≡ y) × (xs ≡ ys)
cons_eq e = (cc, cc)

-- What stands before the first byte `sep`.
split_at :
    (sep : ℕ) (xs ys r s : Bytes)
    → All (λ b. b ≢ sep) xs
    → All (λ b. b ≢ sep) ys
    → xs ++ sep ∷ r ≡ ys ++ sep ∷ s
    → (xs ≡ ys) × (r ≡ s)
split_at sep [] [] r s hx hy e = (refl, (cons_eq e).1)
split_at sep [] (y ∷ ys) r s hx hy e = absurd (hy.0 (sym (cons_eq e).0))
split_at sep (x ∷ xs) [] r s hx hy e = absurd (hx.0 (cons_eq e).0)
split_at sep (x ∷ xs) (y ∷ ys) r s hx hy e =
    let (h, more) = cons_eq e in
    let (a, b) = split_at sep xs ys r s hx.1 hy.1 more in
    (ap₂ (λ (c : ℕ) (t : Bytes). c ∷ t) h a, b)

append_cancel : (xs : Bytes) {r s : Bytes} → xs ++ r ≡ xs ++ s → r ≡ s
append_cancel [] e = e
append_cancel (x ∷ xs) e = append_cancel xs (cons_eq e).1

no-Digit : (sep : ℕ) (ds : Bytes) → sep < 48 ⊎ 58 ≤ sep → All Digit ds → All (λ b. b ≢ sep) ds
no-Digit sep [] h d = tt
no-Digit sep (b ∷ ds) h d = (λ e. clash h e, no-Digit sep ds h d.1)
  where
    clash : sep < 48 ⊎ 58 ≤ sep → b ≡ sep → ⊥
    clash (inl low) e = omega (arith, d.0.0)
    clash (inr high) e = omega (arith, d.0.1)

pub decimal_no : (sep n : ℕ) → sep < 48 ⊎ 58 ≤ sep → All (λ b. b ≢ sep) (decimal n)
decimal_no sep n h = no-Digit sep (decimal n) h (digits_lem (suc n) n (omega arith)).1

decimal_eq : {m n : ℕ} → decimal m ≡ decimal n → m ≡ n
decimal_eq {m} {n} e =
    sym (digits_lem (suc m) m (omega arith)).0
    ∙ ap (λ (t : Bytes). value_from 0 t) e
    ∙ (digits_lem (suc n) n (omega arith)).0

-- Names of different places in a compaction differ.
pub output_name_eq : (id p q i j : ℕ) → output_name id p i ≡ output_name id q j → (p ≡ q) × (i ≡ j)
unfolding output_name
output_name_eq id p q i j e =
    let (ps, rest) =
      split_at 95 (decimal p) (decimal q) _ _ (decimal_no 95 p (inr (omega arith)))
        (decimal_no 95 q (inr (omega arith)))
        (append_cancel (compaction_unit ++ decimal id ++ pass_infix) e) in
    let (is, none_left) =
      split_at 46 (decimal i) (decimal j) _ _ (decimal_no 46 i (inl (omega arith)))
        (decimal_no 46 j (inl (omega arith))) rest in
    (decimal_eq ps, decimal_eq is)

pub ending_of_output : (id p i : ℕ) → ending (output_name id p i) ≡ tmp
unfolding output_name
ending_of_output id p i =
    ap (λ (t : Bytes). ending t) whole
    ∙ ending-append
        (((compaction_unit ++ decimal id ++ pass_infix) ++ decimal p ++ 95 ∷ []) ++ decimal i)
        transition_merged_sstable_ext (omega arith)
    ∙ unfold ending in refl
  where
    whole :
        (compaction_unit ++ decimal id ++ pass_infix)
          ++ (decimal p ++ 95 ∷ (decimal i ++ transition_merged_sstable_ext))
        ≡ (((compaction_unit ++ decimal id ++ pass_infix) ++ decimal p ++ 95 ∷ []) ++ decimal i)
          ++ transition_merged_sstable_ext
    whole = simp append_assoc

-- A name with the suffix, and one that cannot have it.
pub strip_suffix-append :
    (base : Bytes) → strip_suffix (base ++ ss_table_file_ext) ss_table_file_ext ≡ some base
unfolding strip_suffix cmp
strip_suffix-append [] = refl
strip_suffix-append (b ∷ base) =
    rw
      (
        same_ne (b ∷ base ++ ss_table_file_ext) ss_table_file_ext
            (λ e. longer (ap (λ (t : Bytes). length t) e)),
        strip_suffix-append base,
      )
      refl
  where
    longer : length (b ∷ base ++ ss_table_file_ext) ≡ 4 → ⊥
    longer e = omega (arith, length-append base ss_table_file_ext)

some_eq : {a b : Bytes} → some a ≡ some b → a ≡ b
some_eq e = cc

strip_suffix-eq :
    (name base : Bytes)
    → strip_suffix name ss_table_file_ext ≡ some base
    → name ≡ base ++ ss_table_file_ext
unfolding strip_suffix cmp
strip_suffix-eq [] base e = absurd (nothing e)
  where
    nothing : none ≡ some base → ⊥
    nothing e = cc
strip_suffix-eq (b ∷ name) base e =
    step (same (b ∷ name) ss_table_file_ext) (strip_suffix name ss_table_file_ext) refl refl e
      (λ shorter h. strip_suffix-eq name shorter h)
  where
    nothing : none ≡ some base → ⊥
    nothing e = cc

    step :
        (s : Bool) (o : Option Bytes)
        → same (b ∷ name) ss_table_file_ext ≡ s
        → strip_suffix name ss_table_file_ext ≡ o
        → (if s then some [] else elim o [ none ↦ none | some shorter ↦ some (b ∷ shorter) ])
          ≡ some base
        → ((shorter : Bytes)
            → strip_suffix name ss_table_file_ext ≡ some shorter
            → name ≡ shorter ++ ss_table_file_ext)
        → b ∷ name ≡ base ++ ss_table_file_ext
    step true o h k e more =
        eq_of_same (b ∷ name) ss_table_file_ext h
        ∙ ap (λ (t : Bytes). t ++ ss_table_file_ext) (some_eq e)
    step false none h k e more = absurd (nothing e)
    step false (some shorter) h k e more =
        ap (λ (t : Bytes). b ∷ t) (more shorter k)
        ∙ ap (λ (t : Bytes). t ++ ss_table_file_ext) (some_eq e)

tmp-ne-bin : tmp ≡ ending_bin → ⊥
tmp-ne-bin e = omega (arith, (cons_eq e).0)

pub ending_ne : (a b : Bytes) → ending a ≢ ending b → same a b ≡ false
ending_ne a b n = same_ne a b (λ e. n (ap (λ (t : Bytes). ending t) e))

pub strip_suffix_of_output :
    (id p i : ℕ) → strip_suffix (output_name id p i) ss_table_file_ext ≡ none
strip_suffix_of_output id p i = by_result (strip_suffix (output_name id p i) ss_table_file_ext) refl
  where
    clash : (base : Bytes) → output_name id p i ≡ base ++ ss_table_file_ext → ⊥
    clash base e =
        tmp-ne-bin
          (sym (ending_of_output id p i) ∙ ap (λ (t : Bytes). ending t) e ∙ ending_of_bin base)

    by_result :
        (o : Option Bytes)
        → strip_suffix (output_name id p i) ss_table_file_ext ≡ o
        → strip_suffix (output_name id p i) ss_table_file_ext ≡ none
    by_result none e = e
    by_result (some base) e = absurd (clash base (strip_suffix-eq (output_name id p i) base e))

-- The names that the files of a unit have in a pass: SSTables, and outputs of the passes before.
abbrev pub Kind : ℕ → ℕ → Bytes → Type 0
Kind id pass name =
    ((base : Bytes) × (name ≡ base ++ ss_table_file_ext))
    ⊎ ((p : ℕ) × (i : ℕ) × (p < pass) × (name ≡ output_name id p i))

pub ending_not_bin : (base : Bytes) → ain ≡ ending (base ++ ss_table_file_ext) → ⊥
ending_not_bin base e = omega (arith, (cons_eq (e ∙ ending_of_bin base)).0)

pub Kind-not_drained : (id pass : ℕ) (name : Bytes) → Kind id pass name → ending name ≢ ain
Kind-not_drained id pass name (inl (base, e)) n =
    omega (arith, (cons_eq (sym (ending_of_bin base) ∙ ap (λ (t : Bytes). ending t) (sym e) ∙ n)).0)
Kind-not_drained id pass name (inr (p, i, h, e)) n =
    omega (
      arith,
      (cons_eq (sym (ending_of_output id p i) ∙ ap (λ (t : Bytes). ending t) (sym e) ∙ n)).0,
    )

pub Kind-not_output :
    (id pass j : ℕ) (name : Bytes) → Kind id pass name → same name (output_name id pass j) ≡ false
Kind-not_output id pass j name (inl (base, e)) = ending_ne name (output_name id pass j) (λ n.
    tmp-ne-bin (
      sym (ending_of_output id pass j)
      ∙ sym n
      ∙ ap (λ (t : Bytes). ending t) e
      ∙ ending_of_bin base))
Kind-not_output id pass j name (inr (p, i, h, e)) =
    same_ne name (output_name id pass j)
      (λ n. omega (arith, (output_name_eq id p pass i j (sym e ∙ n)).0))

pub output_not_drained : (id pass j : ℕ) → ending (output_name id pass j) ≢ ain
output_not_drained id pass j n = omega (arith, (cons_eq (sym (ending_of_output id pass j) ∙ n)).0)

pub outputs_differ :
    (id pass i j : ℕ) → i < j → same (output_name id pass i) (output_name id pass j) ≡ false
outputs_differ id pass i j h =
    same_ne (output_name id pass i) (output_name id pass j)
      (λ e. omega (arith, (output_name_eq id pass pass i j e).1))
