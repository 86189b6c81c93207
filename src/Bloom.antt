-- ===== src/Bloom.antt =====
-- lsm_tree/disk.rs: `BloomGenerator`, `hash_key`, `set_bit`, `get_bit`, `optimal_k`. A filter is its
-- block of 1000 bytes: `k` as a little-endian u32, then the bit array.
pub mod Bits
pub mod Sound
use Prim.Native.Nat.{bit_and, bit_or, bit_xor}
use rusty_swift_merge.Base.{
  ℕ, zero, suc, ◌+◌, ◌-◌, ◌*◌, ◌/◌, ◌%◌, ◌^◌, max, Bool, true, false, not, ◌&&◌, ◌||◌, Option, none,
  some, List, [], ◌∷◌, ◌++◌, map, length, get_elem?, set, take, drop, replicate, ltb, leb, ◌==◌,
  if◌then◌else◌,
}
use rusty_swift_merge.Bytes.{Bytes, u64_mod, as_u32, to_le_bytes, from_le_bytes}
use rusty_swift_merge.BTreeMap.{BTreeMap}
use rusty_swift_merge.Floats.{Floats, one_thousandth, one_hundredth, one_tenth, ln_2, two, sixteen}

abbrev pub bloom_filter_size : ℕ
bloom_filter_size = 1000

abbrev pub bloom_k_header_len : ℕ
bloom_k_header_len = 4

abbrev pub bloom_m_bits : ℕ
bloom_m_bits = (bloom_filter_size - bloom_k_header_len) * 8

-- The number of probes, from float arithmetic; a u32.
unfoldable pub optimal_k : Floats → ℕ → ℕ → ℕ → ℕ
optimal_k f n m_bits false_positive_rate =
    let m = f.from_usize m_bits in
    let nf = f.from_usize (max n 1) in
    let k_ideal = f.mul (f.div m nf) ln_2 in
    let p = f.clamp false_positive_rate one_thousandth one_tenth in
    let scale = f.sqrt (f.div one_hundredth p) in
    as_u32 (f.to_u32 (f.clamp (f.round (f.mul k_ideal scale)) two sixteen))

-- 64-bit FNV-1a from a start value.
unfoldable pub fnv_1a : ℕ → Bytes → ℕ
fnv_1a hash [] = hash
fnv_1a hash (b ∷ key) = fnv_1a (bit_xor hash b * 1099511628211 % u64_mod) key

unfoldable pub hash_key : Bytes → ℕ → ℕ
unfolding fnv_1a
hash_key key seed = fnv_1a (bit_xor 14695981039346656037 seed) key

-- A bit beyond the array is not set.
unfoldable pub set_bit : Bytes → ℕ → Bytes
set_bit bitmap bit_idx = elim (get_elem? bitmap (bit_idx / 8)) [
  | none ↦ bitmap
  | some slot ↦ set bitmap (bit_idx / 8) (bit_or slot (2 ^ (bit_idx % 8)))
]

unfoldable pub get_bit : Bytes → ℕ → Bool
get_bit bitmap bit_idx = elim (get_elem? bitmap (bit_idx / 8)) [
  | none ↦ false
  | some slot ↦ not (bit_and slot (2 ^ (bit_idx % 8)) == 0)
]

-- Probe `i` of a key, by double hashing with wrapping arithmetic.
unfoldable pub probe : Bytes → ℕ → ℕ
probe key i =
    let h1 = hash_key key 0 in
    let h2 = bit_or (hash_key key 1) 1 in (h1 + i * h2 % u64_mod) % u64_mod % bloom_m_bits

-- `for i in first..first + rounds { set_bit(bitmap, …) }`
unfoldable pub set_probes : ℕ → ℕ → Bytes → Bytes → Bytes
set_probes zero first bitmap key = bitmap
set_probes (suc rounds) first bitmap key =
    set_probes rounds (suc first) (set_bit bitmap (probe key first)) key

unfoldable pub add_key_bits : Bytes → ℕ → Bytes → Bytes
add_key_bits bitmap k key = set_probes k 0 bitmap key

unfoldable pub add_keys : Bytes → ℕ → List Bytes → Bytes
add_keys bitmap k [] = bitmap
add_keys bitmap k (key ∷ keys) = add_keys (add_key_bits bitmap k key) k keys

unfoldable pub build_from_key_iter : Floats → ℕ → ℕ → List Bytes → Bytes
build_from_key_iter f key_count bloom_false_positive_rate keys =
    let k = optimal_k f (max key_count 1) bloom_m_bits bloom_false_positive_rate in
    to_le_bytes 4 k ++ add_keys (replicate (bloom_filter_size - bloom_k_header_len) 0) k keys

unfoldable pub generate_filter {ℓ} : {V : Type ℓ} → Floats → BTreeMap V → ℕ → Bytes
generate_filter f m rate = build_from_key_iter f (length m) rate (map (λ e. e.0) m)

unfoldable pub generate_filter_from_keys : Floats → List Bytes → ℕ → Bytes
generate_filter_from_keys f keys rate = build_from_key_iter f (length keys) rate keys

unfoldable pub all_zero : Bytes → Bool
all_zero [] = true
all_zero (b ∷ bs) = b == 0 && all_zero bs

-- `for i in first..first + rounds { if !get_bit(bits, …) { return false } }`
unfoldable pub get_probes : ℕ → ℕ → Bytes → Bytes → Bool
get_probes zero first bits key = true
get_probes (suc rounds) first bits key =
    let rest = get_probes rounds (suc first) bits key in
    if get_bit bits (probe key first) then rest else false

unfoldable pub probably_exist : Bytes → Bytes → Bool
probably_exist bloom key =
    if not (length bloom == bloom_filter_size)
    then true
    else if all_zero bloom
    then true
    else let k = from_le_bytes (take bloom_k_header_len bloom) in
      if not (leb 2 k && leb k 30) then true else get_probes k 0 (drop bloom_k_header_len bloom) key
