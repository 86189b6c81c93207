-- ===== src/Floats.antt =====
-- The `f64` operations that the program calls. A float is its 64-bit pattern; what the processor
-- makes of two patterns is a parameter of the model, and no theorem assumes anything of it.
use rusty_swift_merge.Base.{ℕ, Bool}

pub record Floats : Type 0 where
  -- `usize as f64`, saturating `f64 as u32`
  pub from_usize : ℕ → ℕ
  pub to_u32 : ℕ → ℕ
  pub mul : ℕ → ℕ → ℕ
  pub div : ℕ → ℕ → ℕ
  pub sqrt : ℕ → ℕ
  pub round : ℕ → ℕ
  pub clamp : ℕ → ℕ → ℕ → ℕ
  pub lt : ℕ → ℕ → Bool

-- The patterns of the literals.
abbrev pub one_thousandth : ℕ
one_thousandth = 0x3F50624DD2F1A9FC

abbrev pub one_hundredth : ℕ
one_hundredth = 0x3F847AE147AE147B

abbrev pub one_twentieth : ℕ
one_twentieth = 0x3FA999999999999A

abbrev pub one_tenth : ℕ
one_tenth = 0x3FB999999999999A

abbrev pub ln_2 : ℕ
ln_2 = 0x3FE62E42FEFA39EF

abbrev pub two : ℕ
two = 0x4000000000000000

abbrev pub sixteen : ℕ
sixteen = 0x4030000000000000
