-- ===== src/Compaction/Units.antt =====
-- lsm_tree/compaction.rs: how `size_tier_compaction` divides the tables of a level, newest first, into
-- the units that are compacted on their own.
use rusty_swift_merge.Base.{
  ℕ, zero, suc, ◌≤◌, ◌<◌, ◌≡◌, refl, ap, ◌∙◌, arith, true, false, List, [], ◌∷◌, ◌++◌, append_assoc,
  append-nil, length, take, drop, length-take, length-drop, All, leb, lt→leb, Bool-cases, inl, inr,
  if◌then◌else◌,
}
use rusty_swift_merge.Base.Outcome.{Outcome, ok, out_of_fuel, ◌>>=◌}
use rusty_swift_merge.Bytes.{Bytes}
use rusty_swift_merge.Compaction.{CompactionError}

-- The tail is a unit if it has a pair at least.
unfoldable pub tail_units : List Bytes → List (List Bytes)
tail_units remaining = if leb 2 (length remaining) then remaining ∷ [] else []

-- The loop over `i`, on the names from `i` on.
unfoldable pub unit_loop : ℕ → ℕ → List Bytes → Outcome CompactionError (List (List Bytes))
unit_loop zero target_chunks names =
    if leb target_chunks (length names) then out_of_fuel else ok (tail_units names)
unit_loop (suc fuel) target_chunks names = elim (leb target_chunks (length names)) [
  | true ↦ do
    units ← unit_loop fuel target_chunks (drop target_chunks names)
    ok (take target_chunks names ∷ units)
  | false ↦ ok (tail_units names)
]

-- With one chunk at least, every round takes a name.
unfoldable pub compaction_units : ℕ → List Bytes → Outcome CompactionError (List (List Bytes))
compaction_units target_chunks names = unit_loop (length names) target_chunks names

unfoldable pub flatten : List (List Bytes) → List Bytes
flatten [] = []
flatten (u ∷ units) = u ++ flatten units

-- What the units of some names should be.
pub record Divides (target : ℕ) (names : List Bytes)
    (r : Outcome CompactionError (List (List Bytes))) : Type 0 where
  pub units : List (List Bytes)
  pub left_over : List Bytes
  pub result : r ≡ ok units
  pub in_order : flatten units ++ left_over ≡ names
  pub sizes : All (λ u. (2 ≤ length u) × (length u ≤ target)) units
  pub left_size : length left_over < 2

leb→le : (a b : ℕ) → leb a b ≡ true → a ≤ b
leb→le a b h = ground arith

leb→lt : (a b : ℕ) → leb a b ≡ false → b < a
leb→lt a b h = ground arith

flatten_cons :
    (u : List Bytes) (units : List (List Bytes)) → flatten (u ∷ units) ≡ u ++ flatten units
unfolding flatten
flatten_cons u units = refl

take-drop : (n : ℕ) (xs : List Bytes) → take n xs ++ drop n xs ≡ xs
take-drop zero xs = refl
take-drop (suc n) [] = refl
take-drop (suc n) (x ∷ xs) = ap (λ (t : List Bytes). x ∷ t) (take-drop n xs)

tail-Divides :
    (target : ℕ) (names : List Bytes) {r : Outcome CompactionError (List (List Bytes))}
    → length names < target
    → r ≡ ok (tail_units names)
    → Divides target names r
unfolding tail_units
tail-Divides target names h e = elim (Bool-cases (leb 2 (length names))) [
  | inl pair ↦ record {
    units = names ∷ [];
    left_over = [];
    result = e ∙ rw pair refl;
    in_order = unfold flatten in append-nil (names ++ []) ∙ append-nil names;
    sizes = ((leb→le 2 (length names) pair, omega arith), tt);
    left_size = omega arith;
  }
  | inr few ↦ record {
    units = [];
    left_over = names;
    result = e ∙ rw few refl;
    in_order = unfold flatten in refl;
    sizes = tt;
    left_size = leb→lt 2 (length names) few;
  }
]

unit_loop-Divides :
    (fuel target : ℕ) (names : List Bytes)
    → 2 ≤ target
    → length names ≤ fuel
    → Divides target names (unit_loop fuel target names)
unfolding unit_loop
unit_loop-Divides zero target names h hf =
    tail-Divides target names (omega arith) (rw (lt→leb target (length names) (omega arith)) refl)
unit_loop-Divides (suc fuel) target names h hf = elim (Bool-cases (leb target (length names))) [
  | inl full ↦
      let more =
        unit_loop-Divides fuel target (drop target names) h
          (omega (arith, length-drop target names)) in
      record {
        units = take target names ∷ more.units;
        left_over = more.left_over;
        result = rw (full, more.result, unit_loop) refl;
        in_order =
            ap (λ (t : List Bytes). t ++ more.left_over)
              (flatten_cons (take target names) more.units)
            ∙ append_assoc (take target names) (flatten more.units) more.left_over
            ∙ ap (λ (t : List Bytes). take target names ++ t) more.in_order
            ∙ take-drop target names;
        sizes = (
          (
            omega (arith, length-take target names (leb→le target (length names) full)),
            omega (arith, length-take target names (leb→le target (length names) full)),
          ),
          more.sizes,
        );
        left_size = more.left_size;
      }
  | inr short ↦
      tail-Divides target names (leb→lt target (length names) short) (rw (short, unit_loop) refl)
]

-- With at least two chunks to a unit, the division succeeds: the units in their order, and the names
-- left over behind them, are the names of the level; a unit has at least two tables and at most
-- `target_chunks`, and fewer than two tables are left over.
pub compaction_units-Divides :
    (target : ℕ) (names : List Bytes)
    → 2 ≤ target
    → Divides target names (compaction_units target names)
unfolding compaction_units
compaction_units-Divides target names h =
    unit_loop-Divides (length names) target names h (omega arith)
