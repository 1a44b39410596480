-- ===== src/Def/Laws.antt =====
-- qmdb/src/def.rs: the height of the tree.
use native.Mathlib.Nat.{one-le-pow, le-div_iff_mul-le}
use qmdb.Common.{ℕ, zero, suc, ◌+◌, ◌-◌, ◌/◌, ◌^◌, ◌<◌, ◌≤◌, ◌≡◌, arith, ◌==◌, Bool-cases, inl, inr}
use qmdb.Def.{leading_zeros, calc_max_level, first_level_above_twig}

-- The number of digits, from the leading zeros.
leading_zeros_lem :
    (width n : ℕ)
    → 1 ≤ n
    → n < 2 ^ width
    → (leading_zeros width n < width)
      × (2 ^ (width - 1 - leading_zeros width n) ≤ n)
      × (n < 2 ^ (width - leading_zeros width n))
unfolding leading_zeros
leading_zeros_lem zero n pos h = absurd (omega arith)
leading_zeros_lem (suc width) n pos h = elim (Bool-cases (n / 2 ^ width == 0)) [
  | inl e ↦
      let ih = leading_zeros_lem width n pos (grind (arith, one-le-pow width 2)) in
      let low : suc width - 1 - (1 + leading_zeros width n) ≡ width - 1 - leading_zeros width n =
        omega arith in
      let high : suc width - (1 + leading_zeros width n) ≡ width - leading_zeros width n =
        omega arith in
      rw e (omega (arith, ih.0), rw low ih.1, rw high ih.2)
  | inr e ↦
      let low : suc width - 1 - 0 ≡ width = omega arith in
      let high : suc width - 0 ≡ suc width = omega arith in
      let full =
        (le-div_iff_mul-le {k = 2 ^ width} {x = 1} {y = n} (one-le-pow width 2 (omega arith))).0
          (ground arith) in
      rw e (omega arith, rw low (omega (arith, full)), rw high h)
]

-- With twigs up to number `youngest`, at least 1, the top level is the one at which the whole tree
-- hangs from one node, and the level below has two.
pub calc_max_level_lem :
    (youngest : ℕ)
    → 1 ≤ youngest
    → youngest < 2 ^ 64
    → let level = calc_max_level youngest in
      (first_level_above_twig ≤ level)
      × (2 ^ (level - first_level_above_twig) ≤ youngest)
      × (youngest < 2 ^ (level - first_level_above_twig + 1))
unfolding calc_max_level
calc_max_level_lem youngest pos h =
    let z = leading_zeros_lem 64 youngest pos h in
    let low : 13 + 63 - leading_zeros 64 youngest - 13 ≡ 64 - 1 - leading_zeros 64 youngest =
      omega (arith, z.0) in
    let high : 13 + 63 - leading_zeros 64 youngest - 13 + 1 ≡ 64 - leading_zeros 64 youngest =
      omega (arith, z.0) in
    (omega (arith, z.0), rw low z.1, rw high z.2)
