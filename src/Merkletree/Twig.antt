-- ===== src/Merkletree/Twig.antt =====
-- qmdb/src/merkletree/twig.rs: the hash tree over the 2048 leaves of a twig, and the three levels
-- over its active bits. `none` is a panic or a loop cut short; Twig/Sync shows that there is none.
pub mod Sync
pub mod Rebuild
use qmdb.Common.{
  ℕ, zero, suc, ◌+◌, ◌-◌, ◌*◌, ◌/◌, ◌%◌, ◌^◌, List, [], ◌∷◌, Bool, true, false, ◌&&◌, Option, none,
  some, get_elem?, set, replicate, ltb, leb, ◌==◌, if◌then◌else◌, ◌>>=◌,
}
use qmdb.Def.{leaf_count_in_twig}
use qmdb.Extern.Sha2.{Sha256}
use qmdb.Utils.Hasher.{Hash32, zero_hash32, node_hash_inplace}

module _ (sha : Sha256) where
  -- The inner loop: one pair of children after another, from `j`.
  pub sync_pairs : ℕ → ℕ → ℕ → ℕ → ℕ → List Hash32 → Option (List Hash32)
  sync_pairs zero level base end_round j mtree = none
  sync_pairs (suc fuel) level base end_round j mtree = elim (leb j end_round && ltb (j + 1) base) [
    | true ↦ do
      left ← get_elem? mtree (base + j)
      right ← get_elem? mtree (base + j + 1)
      let node = node_hash_inplace sha level left right
      sync_pairs fuel level base end_round (j + 2) (set mtree ((base + j) / 2) node)
    | false ↦ some mtree
  ]

  -- The outer loop: one level after another, from the children at `base`.
  pub sync_levels : ℕ → ℕ → ℕ → ℕ → ℕ → List Hash32 → Option (List Hash32)
  sync_levels zero level base cur_start cur_end mtree = none
  sync_levels (suc fuel) level base cur_start cur_end mtree = elim (leb 2 base) [
    | true ↦ do
      let end_round = if cur_end % 2 == 1 then cur_end + 1 else cur_end
      mtree' ← sync_pairs base level base end_round (cur_start / 2 * 2) mtree
      sync_levels fuel (level + 1) (base / 2) (cur_start / 2) (cur_end / 2) mtree'
    | false ↦ some mtree
  ]

  pub sync_mtree : List Hash32 → ℕ → ℕ → Option (List Hash32)
  sync_mtree mtree start end = sync_levels 12 0 leaf_count_in_twig start end mtree
