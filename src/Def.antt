-- ===== src/Def.antt =====
-- qmdb/src/def.rs: the constants that several parts share, and two functions on them.
pub mod Laws
use qmdb.Common.{
  ℕ, zero, suc, ◌+◌, ◌-◌, ◌*◌, ◌/◌, ◌%◌, ◌^◌, Bool, true, false, not, ◌||◌, ltb, ◌==◌,
  if◌then◌else◌,
}

abbrev pub entry_fixed_length : ℕ
entry_fixed_length = 1 + 3 + 1 + 32 + 8 + 8

-- Without the feature `tee_cipher`.
abbrev pub entry_base_length : ℕ
entry_base_length = entry_fixed_length

abbrev pub shard_count : ℕ
shard_count = 16

abbrev pub shard_div : ℕ
shard_div = 2 ^ 16 / shard_count

abbrev pub big_buf_size : ℕ
big_buf_size = 64 * 1024

abbrev pub first_level_above_twig : ℕ
first_level_above_twig = 13

abbrev pub twig_root_level : ℕ
twig_root_level = first_level_above_twig - 1

abbrev pub twig_shift : ℕ
twig_shift = 11

abbrev pub leaf_count_in_twig : ℕ
leaf_count_in_twig = 2 ^ twig_shift

abbrev pub twig_mask : ℕ
twig_mask = leaf_count_in_twig - 1

abbrev pub in_block_idx_bits : ℕ
in_block_idx_bits = 24

-- The signed parameters are read as unsigned ones, as the casts of the source do. The difference and
-- the products wrap around at 64 bits, as in a release build.
unfoldable pub is_compactible : ℕ → ℕ → ℕ → ℕ → ℕ → ℕ → Bool
is_compactible utilization_div utilization_ratio compact_thres active_count sn_start sn_end =
    let total_count = (sn_end + 2 ^ 64 - sn_start) % 2 ^ 64 in
    if ltb (total_count * utilization_ratio % 2 ^ 64) (active_count * utilization_div % 2 ^ 64)
      || ltb active_count compact_thres
    then false
    else true

-- `u64::leading_zeros`, by the number of digits, for a number below `2 ^ width`.
pub leading_zeros : ℕ → ℕ → ℕ
leading_zeros zero n = 0
leading_zeros (suc width) n =
    let rest = leading_zeros width n in if n / 2 ^ width == 0 then 1 + rest else 0

pub calc_max_level : ℕ → ℕ
unfolding leading_zeros
calc_max_level youngest_twig_id = first_level_above_twig + 63 - leading_zeros 64 youngest_twig_id
