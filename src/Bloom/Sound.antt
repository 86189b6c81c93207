-- ===== src/Bloom/Sound.antt =====
-- The filter never denies a key that it was built from.
use rusty_swift_merge.Base.{
  ℕ, zero, suc, ◌/◌, ◌^◌, ◌<◌, ◌≡◌, refl, arith, max, Bool, true, false, not, ◌&&◌, List, [], ◌∷◌,
  ◌++◌, length, take, drop, replicate, take-append, drop-append, length-append, leb, ◌==◌,
  if◌then◌else◌,
}
use rusty_swift_merge.Bytes.{
  Bytes, IsBytes, to_le_bytes, from_le_bytes, length-to_le_bytes, from_le_bytes-to_le_bytes,
}
use rusty_swift_merge.Floats.{Floats}
use rusty_swift_merge.Bloom.{
  bloom_filter_size, bloom_m_bits, optimal_k, set_bit, get_bit, probe, set_probes, add_key_bits,
  add_keys, build_from_key_iter, all_zero, get_probes, probably_exist,
}
use rusty_swift_merge.Bloom.Bits.{
  length-set_bit, set_bit-IsBytes, get_bit-set_bit_self, get_bit-set_bit_keep,
}

-- A bit array of the length that the filters have.
pub record IsBitmap (bitmap : Bytes) : Type 0 where
  pub size : length bitmap ≡ 996
  pub bytes : IsBytes bitmap

set_bit-IsBitmap : (bitmap : Bytes) (i : ℕ) → IsBitmap bitmap → IsBitmap (set_bit bitmap i)
set_bit-IsBitmap bitmap i h = record {
  size = rw length-set_bit h.size;
  bytes = set_bit-IsBytes bitmap i h.bytes;
}

set_probes-IsBitmap :
    (n i : ℕ) (bitmap key : Bytes) → IsBitmap bitmap → IsBitmap (set_probes n i bitmap key)
unfolding set_probes
set_probes-IsBitmap zero i bitmap key h = h
set_probes-IsBitmap (suc n) i bitmap key h =
    set_probes-IsBitmap n (suc i) _ key (set_bit-IsBitmap bitmap (probe key i) h)

set_probes_keep :
    (n i : ℕ) (bitmap key : Bytes) (j : ℕ)
    → IsBitmap bitmap
    → get_bit bitmap j ≡ true
    → get_bit (set_probes n i bitmap key) j ≡ true
unfolding set_probes
set_probes_keep zero i bitmap key j h b = b
set_probes_keep (suc n) i bitmap key j h b =
    set_probes_keep n (suc i) _ key j (set_bit-IsBitmap bitmap (probe key i) h)
      (get_bit-set_bit_keep bitmap (probe key i) j h.bytes b)

probe-lt : (key : Bytes) (i : ℕ) → probe key i / 8 < 996
unfolding probe
probe-lt key i = omega arith

-- `get_probes` on any array that keeps the bits that `set_probes` has set.
get_probes_of_set :
    (n i : ℕ) (bitmap key bits : Bytes)
    → IsBitmap bitmap
    → ((j : ℕ) → get_bit (set_probes n i bitmap key) j ≡ true → get_bit bits j ≡ true)
    → get_probes n i bits key ≡ true
unfolding set_probes get_probes
get_probes_of_set zero i bitmap key bits h keep = refl
get_probes_of_set (suc n) i bitmap key bits h keep =
    rw
      (keep (probe key i) (
        set_probes_keep n (suc i) _ key (probe key i) (set_bit-IsBitmap bitmap (probe key i) h)
          (get_bit-set_bit_self bitmap (probe key i) h.bytes (rw h.size (probe-lt key i)))))
      (get_probes_of_set n (suc i) (set_bit bitmap (probe key i)) key bits
        (set_bit-IsBitmap bitmap (probe key i) h) keep)

add_keys_keep :
    (keys : List Bytes) (bitmap : Bytes) (k j : ℕ)
    → IsBitmap bitmap
    → get_bit bitmap j ≡ true
    → get_bit (add_keys bitmap k keys) j ≡ true
unfolding add_keys add_key_bits
add_keys_keep [] bitmap k j h b = b
add_keys_keep (key ∷ keys) bitmap k j h b =
    add_keys_keep keys _ k j (set_probes-IsBitmap k 0 bitmap key h)
      (set_probes_keep k 0 bitmap key j h b)

add_keys-IsBitmap :
    (keys : List Bytes) (bitmap : Bytes) (k : ℕ)
    → IsBitmap bitmap
    → IsBitmap (add_keys bitmap k keys)
unfolding add_keys add_key_bits
add_keys-IsBitmap [] bitmap k h = h
add_keys-IsBitmap (key ∷ keys) bitmap k h =
    add_keys-IsBitmap keys _ k (set_probes-IsBitmap k 0 bitmap key h)

-- `key` is one of `keys`, at a place that is known.
pub data Occurs {ℓ} {A : Type ℓ} (a : A) : List A → Type ℓ where
  here : {xs : List A} → Occurs a (a ∷ xs)
  there : {x : A} {xs : List A} → Occurs a xs → Occurs a (x ∷ xs)

get_probes-add_keys :
    {key : Bytes} {keys : List Bytes}
    → Occurs key keys
    → (bitmap : Bytes) (k : ℕ) → IsBitmap bitmap
    → get_probes k 0 (add_keys bitmap k keys) key ≡ true
unfolding add_keys add_key_bits
get_probes-add_keys {key} (here {xs}) bitmap k h = get_probes_of_set k 0 bitmap key _ h (λ j b.
    add_keys_keep xs (set_probes k 0 bitmap key) k j (set_probes-IsBitmap k 0 bitmap key h) b)
get_probes-add_keys (there {x} o) bitmap k h =
    get_probes-add_keys o (set_probes k 0 bitmap x) k (set_probes-IsBitmap k 0 bitmap x h)

replicate-IsBytes : (n : ℕ) → IsBytes (replicate n 0)
replicate-IsBytes zero = tt
replicate-IsBytes (suc n) = (omega arith, replicate-IsBytes n)

abbrev zeros : Bytes
zeros = replicate 996 0

zeros-IsBitmap : IsBitmap zeros
zeros-IsBitmap = record { size = refl; bytes = replicate-IsBytes 996 }

optimal_k-lt : (f : Floats) (n m rate : ℕ) → optimal_k f n m rate < 2 ^ 32
unfolding optimal_k
optimal_k-lt f n m rate = omega arith

probably_exist-header :
    (k : ℕ) (bits key : Bytes)
    → k < 2 ^ 32
    → get_probes k 0 bits key ≡ true
    → probably_exist (to_le_bytes 4 k ++ bits) key ≡ true
unfolding probably_exist
probably_exist-header k bits key h g =
    let taken : from_le_bytes (take 4 (to_le_bytes 4 k ++ bits)) ≡ k =
      rw (take-append 4 (to_le_bytes 4 k) bits (length-to_le_bytes 4 k))
        (from_le_bytes-to_le_bytes 4 k h) in
    let rest : drop 4 (to_le_bytes 4 k ++ bits) ≡ bits =
      drop-append 4 (to_le_bytes 4 k) bits (length-to_le_bytes 4 k) in
    rw (taken, rest)
      (any_branch (not (length (to_le_bytes 4 k ++ bits) == bloom_filter_size))
        (all_zero (to_le_bytes 4 k ++ bits)) (not (leb 2 k && leb k 30)) g)
  where
    any_branch :
        (a b c : Bool)
        → {d : Bool} → d ≡ true
        → (if a then true else if b then true else if c then true else d) ≡ true
    any_branch true b c e = refl
    any_branch false true c e = refl
    any_branch false false true e = refl
    any_branch false false false e = e

-- A filter built from some keys, whatever the rate and the number of keys that it was told, answers
-- that each of them may exist.
pub probably_exist-build_from_key_iter :
    (f : Floats) (key_count rate : ℕ) (keys : List Bytes) {key : Bytes}
    → Occurs key keys
    → probably_exist (build_from_key_iter f key_count rate keys) key ≡ true
unfolding build_from_key_iter
probably_exist-build_from_key_iter f key_count rate keys {key} o =
    probably_exist-header _ _ key (optimal_k-lt f _ bloom_m_bits rate)
      (get_probes-add_keys o zeros (optimal_k f (max key_count 1) bloom_m_bits rate) zeros-IsBitmap)

pub length-build_from_key_iter :
    (f : Floats) (key_count rate : ℕ) (keys : List Bytes)
    → length (build_from_key_iter f key_count rate keys) ≡ 1000
unfolding build_from_key_iter
length-build_from_key_iter f key_count rate keys =
    let k = optimal_k f (max key_count 1) bloom_m_bits rate in
    rw (length-append, length-to_le_bytes, (add_keys-IsBitmap keys zeros k zeros-IsBitmap).size)
