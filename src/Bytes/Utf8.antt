-- ===== src/Bytes/Utf8.antt =====
-- `String::from_utf8`: which byte strings are UTF-8. A Rust `String` is modelled by its bytes.
use rusty_swift_merge.Base.{
  ℕ, zero, suc, Bool, true, false, ◌&&◌, List, [], ◌∷◌, ltb, leb, ◌==◌, if◌then◌else◌,
}

-- What a lead byte announces: how many bytes follow, and the range of the first of them.
record Lead : Type 0 where
  valid : Bool
  more : ℕ
  lo : ℕ
  hi : ℕ

lead : ℕ → Lead
lead b =
    if ltb b 0x80
    then record { valid = true; more = 0; lo = 0; hi = 0 }
    else if leb 0xC2 b && leb b 0xDF
    then record { valid = true; more = 1; lo = 0x80; hi = 0xBF }
    else if b == 0xE0
    then record { valid = true; more = 2; lo = 0xA0; hi = 0xBF }
    else if b == 0xED
    then record { valid = true; more = 2; lo = 0x80; hi = 0x9F }
    else if leb 0xE1 b && leb b 0xEF
    then record { valid = true; more = 2; lo = 0x80; hi = 0xBF }
    else if b == 0xF0
    then record { valid = true; more = 3; lo = 0x90; hi = 0xBF }
    else if leb 0xF1 b && leb b 0xF3
    then record { valid = true; more = 3; lo = 0x80; hi = 0xBF }
    else if b == 0xF4
    then record { valid = true; more = 3; lo = 0x80; hi = 0x8F }
    else record { valid = false; more = 0; lo = 0; hi = 0 }

-- `pending` bytes of a character are still to come, the next one between `lo` and `hi`.
utf8_from : ℕ → ℕ → ℕ → List ℕ → Bool
unfolding lead
utf8_from pending lo hi [] = pending == 0
utf8_from zero lo hi (b ∷ bs) =
    let l = lead b in let rest = utf8_from l.more l.lo l.hi bs in l.valid && rest
utf8_from (suc pending) lo hi (b ∷ bs) =
    let rest = utf8_from pending 0x80 0xBF bs in leb lo b && leb b hi && rest

unfoldable pub is_utf8 : List ℕ → Bool
unfolding utf8_from
is_utf8 bs = utf8_from 0 0 0 bs
