-- ===== src/Bloom/Bits.antt =====
-- Bits of the filter's array: what `set_bit` sets stays set.
use Prim.Native.Nat.{bit_and, bit_or}
use rusty_swift_merge.Base.{
  ℕ, zero, suc, ◌/◌, ◌%◌, ◌^◌, ◌<◌, ◌≡◌, refl, subst, ◌∙◌, arith, Bool, true, not, ◌&&◌, ◌||◌, none,
  some, inl, inr, length, get_elem?, set, ltb, ◌==◌, Option-cases, length-set, get_elem?-set_self,
  get_elem?-set_ne, get_elem?-lt, some-lt, All-get_elem?, All-set,
}
use rusty_swift_merge.Bytes.{Bytes, IsByte, IsBytes}
use rusty_swift_merge.Bloom.{set_bit, get_bit}
use native.Mathlib.Decide.{ℕ_discrete}

-- Over a small range, every value is checked by evaluation.
all_below : ℕ → (ℕ → Bool) → Bool
all_below zero p = true
all_below (suc n) p = p n && all_below n p

all_below→eq : (n : ℕ) (p : ℕ → Bool) (x : ℕ) → all_below n p ≡ true → x < n → p x ≡ true
unfolding all_below
all_below→eq zero p x h lt = absurd (omega arith)
all_below→eq (suc n) p x h lt = ground (arith, all_below→eq n p x)

abbrev or_table : ℕ → ℕ → Bool
or_table i b = ltb (bit_or b (2 ^ i)) 256 && not (bit_and (bit_or b (2 ^ i)) (2 ^ i) == 0)

or_table_holds : all_below 8 (λ i. all_below 256 (or_table i)) ≡ true
unfolding all_below
or_table_holds = refl

abbrev keep_table : ℕ → ℕ → ℕ → Bool
keep_table i j b = bit_and b (2 ^ j) == 0 || not (bit_and (bit_or b (2 ^ i)) (2 ^ j) == 0)

keep_table_holds : all_below 8 (λ i. all_below 8 (λ j. all_below 256 (keep_table i j))) ≡ true
unfolding all_below
keep_table_holds = refl

or_facts : (i b : ℕ) → i < 8 → b < 256 → or_table i b ≡ true
or_facts i b hi hb =
    all_below→eq 256 (or_table i) b
      (all_below→eq 8 (λ j. all_below 256 (or_table j)) i or_table_holds hi) hb

keep_facts : (i j b : ℕ) → i < 8 → j < 8 → b < 256 → keep_table i j b ≡ true
keep_facts i j b hi hj hb =
    all_below→eq 256 (keep_table i j) b
      (all_below→eq 8 (λ x. all_below 256 (keep_table i x)) j
        (all_below→eq 8 (λ y. all_below 8 (λ x. all_below 256 (keep_table y x))) i keep_table_holds
          hi)
        hj)
      hb

set_bit-none :
    (bitmap : Bytes) (i : ℕ) → get_elem? bitmap (i / 8) ≡ none → set_bit bitmap i ≡ bitmap
unfolding set_bit
set_bit-none bitmap i e = rw (e, set_bit)

set_bit-some :
    (bitmap : Bytes) (i slot : ℕ)
    → get_elem? bitmap (i / 8) ≡ some slot
    → set_bit bitmap i ≡ set bitmap (i / 8) (bit_or slot (2 ^ (i % 8)))
unfolding set_bit
set_bit-some bitmap i slot e = rw (e, set_bit)

get_bit-some :
    (bitmap : Bytes) (i slot : ℕ)
    → get_elem? bitmap (i / 8) ≡ some slot
    → get_bit bitmap i ≡ not (bit_and slot (2 ^ (i % 8)) == 0)
unfolding get_bit
get_bit-some bitmap i slot e = rw (e, get_bit)

get_elem?-get_bit :
    (bitmap : Bytes) (i : ℕ) (p : get_bit bitmap i ≡ true)
    → (slot : ℕ) × (get_elem? bitmap (i / 8) ≡ some slot)
unfolding get_bit
get_elem?-get_bit bitmap i p = ground arith

pub length-set_bit : (bitmap : Bytes) (i : ℕ) → length (set_bit bitmap i) ≡ length bitmap
length-set_bit bitmap i = elim (Option-cases (get_elem? bitmap (i / 8))) [
  | inl e ↦ rw (set_bit-none bitmap i e)
  | inr (slot, e) ↦
      rw (set_bit-some bitmap i slot e) (length-set bitmap (i / 8) (bit_or slot (2 ^ (i % 8))))
]

or_IsByte : (i b : ℕ) → i < 8 → b < 256 → IsByte (bit_or b (2 ^ i))
or_IsByte i b hi hb = ground (arith, or_facts i b hi hb)

pub set_bit-IsBytes : (bitmap : Bytes) (i : ℕ) → IsBytes bitmap → IsBytes (set_bit bitmap i)
set_bit-IsBytes bitmap i h = elim (Option-cases (get_elem? bitmap (i / 8))) [
  | inl e ↦ rw (set_bit-none bitmap i e) h
  | inr (slot, e) ↦ rw (set_bit-some bitmap i slot e) (
      All-set IsByte bitmap (i / 8) _ h
        (or_IsByte (i % 8) slot (omega arith) (All-get_elem? IsByte bitmap (i / 8) slot h e)))
]

-- A bit of the array that has been set reads as set.
pub get_bit-set_bit_self :
    (bitmap : Bytes) (i : ℕ)
    → IsBytes bitmap
    → i / 8 < length bitmap
    → get_bit (set_bit bitmap i) i ≡ true
get_bit-set_bit_self bitmap i h lt =
    let (slot, e) = get_elem?-lt bitmap (i / 8) lt in
    rw
      (
        set_bit-some bitmap i slot e,
        get_bit-some (set bitmap (i / 8) (bit_or slot (2 ^ (i % 8)))) i _
            (get_elem?-set_self bitmap (i / 8) (bit_or slot (2 ^ (i % 8))) lt),
      )
      (ground
        (arith, or_facts (i % 8) slot (omega arith) (All-get_elem? IsByte bitmap (i / 8) slot h e)))

-- Both bits in one byte, and in two.
keep_same :
    (bitmap : Bytes) (i j slot : ℕ)
    → IsBytes bitmap
    → get_elem? bitmap (i / 8) ≡ some slot
    → i / 8 ≡ j / 8
    → get_bit bitmap j ≡ true
    → get_bit (set bitmap (i / 8) (bit_or slot (2 ^ (i % 8)))) j ≡ true
keep_same bitmap i j slot h e q b =
    let e' : get_elem? bitmap (j / 8) ≡ some slot = rw (← q) e in
    let b' : not (bit_and slot (2 ^ (j % 8)) == 0) ≡ true =
      rw (get_bit-some bitmap j slot e') at b in
    rw
      (get_bit-some (set bitmap (i / 8) (bit_or slot (2 ^ (i % 8)))) j (bit_or slot (2 ^ (i % 8))) (
        subst
          (λ k.
            get_elem? (set bitmap (i / 8) (bit_or slot (2 ^ (i % 8)))) k
            ≡ some (bit_or slot (2 ^ (i % 8))))
          q
          (get_elem?-set_self bitmap (i / 8) (bit_or slot (2 ^ (i % 8)))
            (some-lt bitmap (i / 8) slot e))))
      (ground (
        arith,
        keep_facts (i % 8) (j % 8) slot (omega arith) (omega arith)
            (All-get_elem? IsByte bitmap (i / 8) slot h e),
      ))

keep_other :
    (bitmap : Bytes) (i j slot : ℕ)
    → ¬ (i / 8 ≡ j / 8)
    → get_bit bitmap j ≡ true
    → get_bit (set bitmap (i / 8) (bit_or slot (2 ^ (i % 8)))) j ≡ true
keep_other bitmap i j slot n b =
    let (other, e) = get_elem?-get_bit bitmap j b in
    rw
      (get_bit-some (set bitmap (i / 8) (bit_or slot (2 ^ (i % 8)))) j other
        (get_elem?-set_ne bitmap (i / 8) (j / 8) (bit_or slot (2 ^ (i % 8))) n ∙ e))
      (rw (get_bit-some bitmap j other e) at b)

-- Setting one bit clears no other.
pub get_bit-set_bit_keep :
    (bitmap : Bytes) (i j : ℕ)
    → IsBytes bitmap
    → get_bit bitmap j ≡ true
    → get_bit (set_bit bitmap i) j ≡ true
get_bit-set_bit_keep bitmap i j h b = elim (Option-cases (get_elem? bitmap (i / 8))) [
  | inl e ↦ rw (set_bit-none bitmap i e) b
  | inr (slot, e) ↦ rw (set_bit-some bitmap i slot e) (elim (ℕ_discrete (i / 8) (j / 8)) [
    | yes q ↦ keep_same bitmap i j slot h e q b
    | no n ↦ keep_other bitmap i j slot n b
  ])
]
