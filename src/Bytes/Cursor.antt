-- ===== src/Bytes/Cursor.antt =====
-- The guarded reads that the decoders make at a cursor into a buffer. The cursor is modelled by the
-- bytes from it on: `cursor + n > buffer.len()` says that fewer than `n` bytes are left.
use rusty_swift_merge.Base.{
  ℕ, ◌+◌, ◌%◌, ◌^◌, ◌<◌, ◌≡◌, refl, arith, ◌++◌, length, length-append, take, drop, take-append,
  drop-append, length-drop, Bool-cases, inl, inr, tests, ltb, le→ltb, if◌then◌else◌,
}
use rusty_swift_merge.Base.Outcome.{Outcome, ok, err, Ensures}
use rusty_swift_merge.Bytes.{
  Bytes, u32_mod, as_u32, to_le_bytes, from_le_bytes, length-to_le_bytes, from_le_bytes-to_le_bytes,
}
use native.Mathlib.Nat.{mod-eq_of_lt}

-- `if cursor + n > len { return Err(e) }`, then the slice `[cursor..cursor + n]`.
unfoldable pub read_bytes {ℓ} : {E : Type ℓ} → E → ℕ → Bytes → Outcome E (Bytes × Bytes)
read_bytes e n rest = if ltb (length rest) n then err e else ok (take n rest, drop n rest)

-- `if cursor + 4 > len { return Err(e) }`, then `u32::from_le_bytes` of the next four bytes.
unfoldable pub read_u32 {ℓ} : {E : Type ℓ} → E → Bytes → Outcome E (ℕ × Bytes)
read_u32 e rest =
    if ltb (length rest) 4 then err e else ok (from_le_bytes (take 4 rest), drop 4 rest)

-- The same with eight bytes.
unfoldable pub read_u64 {ℓ} : {E : Type ℓ} → E → Bytes → Outcome E (ℕ × Bytes)
read_u64 e rest =
    if ltb (length rest) 8 then err e else ok (from_le_bytes (take 8 rest), drop 8 rest)

module _ {ℓ} {E : Type ℓ} (e : E) where
  pub read_bytes-append : (xs rest : Bytes) → read_bytes e (length xs) (xs ++ rest) ≡ ok (xs, rest)
  unfolding read_bytes
  read_bytes-append xs rest = rw (
    le→ltb (length (xs ++ rest)) (length xs) (omega (arith, length-append xs rest)),
    take-append (length xs) xs rest refl,
    drop-append (length xs) xs rest refl,
  )

  pub read_bytes-append_of_length :
      (n : ℕ) (xs rest : Bytes) → length xs ≡ n → read_bytes e n (xs ++ rest) ≡ ok (xs, rest)
  unfolding read_bytes
  read_bytes-append_of_length n xs rest h = rw (
    le→ltb (length (xs ++ rest)) n (omega (arith, length-append xs rest)),
    take-append n xs rest h,
    drop-append n xs rest h,
  )

  pub read_u32-append :
      (n : ℕ)
      → n < u32_mod
      → (rest : Bytes) → read_u32 e (to_le_bytes 4 (as_u32 n) ++ rest) ≡ ok (n, rest)
  unfolding read_u32
  read_u32-append n h rest = rw (
    mod-eq_of_lt h,
    le→ltb (length (to_le_bytes 4 n ++ rest)) 4
        (omega (arith, length-append (to_le_bytes 4 n) rest, length-to_le_bytes 4 n)),
    take-append 4 (to_le_bytes 4 n) rest (length-to_le_bytes 4 n),
    drop-append 4 (to_le_bytes 4 n) rest (length-to_le_bytes 4 n),
    from_le_bytes-to_le_bytes 4 n h,
  )

  pub read_u64-append :
      (n : ℕ)
      → n < 2 ^ 64
      → (rest : Bytes) → read_u64 e (to_le_bytes 8 (n % 2 ^ 64) ++ rest) ≡ ok (n, rest)
  unfolding read_u64
  read_u64-append n h rest = rw (
    mod-eq_of_lt h,
    le→ltb (length (to_le_bytes 8 n ++ rest)) 8
        (omega (arith, length-append (to_le_bytes 8 n) rest, length-to_le_bytes 8 n)),
    take-append 8 (to_le_bytes 8 n) rest (length-to_le_bytes 8 n),
    drop-append 8 (to_le_bytes 8 n) rest (length-to_le_bytes 8 n),
    from_le_bytes-to_le_bytes 8 n h,
  )

  -- A read consumes its bytes.
  pub length-read_bytes :
      (n : ℕ) (src : Bytes) → Ensures (λ p. length src ≡ length p.1 + n) (read_bytes e n src)
  unfolding read_bytes
  length-read_bytes n src = elim (Bool-cases (ltb (length src) n)) [
    | inl short ↦ rw short tt
    | inr long ↦ rw long (omega (tests, length-drop n src))
  ]

  pub length-read_u32 : (src : Bytes) → Ensures (λ p. length src ≡ length p.1 + 4) (read_u32 e src)
  unfolding read_u32
  length-read_u32 src = elim (Bool-cases (ltb (length src) 4)) [
    | inl short ↦ rw short tt
    | inr long ↦ rw long (omega (tests, length-drop 4 src))
  ]

  pub length-read_u64 : (src : Bytes) → Ensures (λ p. length src ≡ length p.1 + 8) (read_u64 e src)
  unfolding read_u64
  length-read_u64 src = elim (Bool-cases (ltb (length src) 8)) [
    | inl short ↦ rw short tt
    | inr long ↦ rw long (omega (tests, length-drop 8 src))
  ]
