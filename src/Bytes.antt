-- ===== src/Bytes.antt =====
-- Byte strings (`Vec<u8>`, `&[u8]`), the little-endian integers of the on-disk formats
-- (`to_le_bytes`, `from_le_bytes`), and the order of `Vec<u8>` and of `String`.
pub mod Order
pub mod Cursor
pub mod Utf8
use rusty_swift_merge.Base.{
  ℕ, zero, suc, ◌+◌, ◌*◌, ◌/◌, ◌%◌, ◌^◌, ◌<◌, ◌≡◌, refl, arith, List, [], ◌∷◌, ◌++◌, length, All,
}
use native.Mathlib.Nat.{pow-suc}

abbrev pub Bytes : Type 0
Bytes = List ℕ

abbrev pub IsByte : ℕ → Type 0
IsByte b = b < 256

abbrev pub IsBytes : Bytes → Type 0
IsBytes = All IsByte

abbrev pub u32_mod : ℕ
u32_mod = 2 ^ 32

abbrev pub u64_mod : ℕ
u64_mod = 2 ^ 64

-- `to_le_bytes` of an integer of `w` bytes.
unfoldable pub to_le_bytes : ℕ → ℕ → Bytes
to_le_bytes zero x = []
to_le_bytes (suc w) x = (x % 256) ∷ to_le_bytes w (x / 256)

unfoldable pub from_le_bytes : Bytes → ℕ
from_le_bytes [] = 0
from_le_bytes (b ∷ bs) = b + 256 * from_le_bytes bs

pub length-to_le_bytes : (w x : ℕ) → length (to_le_bytes w x) ≡ w
unfolding to_le_bytes
length-to_le_bytes zero x = refl
length-to_le_bytes (suc w) x = omega (arith, length-to_le_bytes w (x / 256))

pub to_le_bytes-IsBytes : (w x : ℕ) → IsBytes (to_le_bytes w x)
unfolding to_le_bytes
to_le_bytes-IsBytes zero x = tt
to_le_bytes-IsBytes (suc w) x = (omega arith, to_le_bytes-IsBytes w (x / 256))

pub from_le_bytes-to_le_bytes : (w x : ℕ) → x < 256 ^ w → from_le_bytes (to_le_bytes w x) ≡ x
unfolding to_le_bytes from_le_bytes
from_le_bytes-to_le_bytes zero x h = omega arith
from_le_bytes-to_le_bytes (suc w) x h =
    omega (arith, from_le_bytes-to_le_bytes w (x / 256) (omega (arith, pow-suc 256 w)))

pub from_le_bytes-lt : (bs : Bytes) → IsBytes bs → from_le_bytes bs < 256 ^ length bs
unfolding from_le_bytes
from_le_bytes-lt [] h = omega arith
from_le_bytes-lt (b ∷ bs) h = omega (arith, from_le_bytes-lt bs h.1, pow-suc 256 (length bs), h.0)

-- `x as u32`.
abbrev pub as_u32 : ℕ → ℕ
as_u32 x = x % u32_mod

-- `x as u64`.
abbrev pub as_u64 : ℕ → ℕ
as_u64 x = x % u64_mod
