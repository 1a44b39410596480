-- ===== src/Merkletree/NullTree.antt =====
-- The nodes of a tree without entries, of qmdb/src/merkletree/twig.rs.
use qmdb.Common.{ℕ, zero, suc, ◌+◌, ◌-◌, List, ◌++◌, Option, some, get_elem?, set, replicate, ◌>>=◌}
use qmdb.Def.{entry_base_length, first_level_above_twig, twig_root_level}
use qmdb.Extern.Byteorder.{ByteOrder}
use qmdb.Extern.Sha2.{Sha256}
use qmdb.Utils.Hasher.{Hash32, zero_hash32, hash2}
use qmdb.Entryfile.Entry.{null_entry, entry_hash}
use qmdb.Merkletree.Twig.{sync_mtree}
use qmdb.Merkletree.RightTree.{Twig, create_null_twig}

module _ (bo : ByteOrder) (sha : Sha256) where
  pub create_null_mt_for_twig : Option (List Hash32)
  unfolding null_entry entry_hash
  create_null_mt_for_twig = do
    e ← null_entry bo (replicate (entry_base_length + 8) 0)
    null_hash ← entry_hash bo sha e
    sync_mtree sha (replicate 2048 zero_hash32 ++ replicate 2048 null_hash) 0 2047

  -- The loop over the levels, with the number of those that are left.
  pub null_levels : ℕ → ℕ → List Hash32 → Option (List Hash32)
  null_levels zero i nodes = some nodes
  null_levels (suc count) i nodes = do
    below ← get_elem? nodes (i - 1)
    null_levels count (i + 1) (set nodes i (hash2 sha (i - 1) below below))

  pub create_null_node_in_higher_tree : Twig → Option (List Hash32)
  unfolding null_levels
  create_null_node_in_higher_tree null_twig =
      null_levels (64 - (first_level_above_twig + 1)) (first_level_above_twig + 1) (
        set (replicate 64 zero_hash32) first_level_above_twig
          (hash2 sha twig_root_level null_twig.twig_root null_twig.twig_root))

  unfoldable get_init_data : Option (List Hash32 × Twig × List Hash32)
  unfolding create_null_mt_for_twig create_null_node_in_higher_tree create_null_twig
  get_init_data = do
    null_mt_for_twig ← create_null_mt_for_twig
    root ← get_elem? null_mt_for_twig 1
    null_twig ← create_null_twig sha root
    nodes ← create_null_node_in_higher_tree null_twig
    some (null_mt_for_twig, null_twig, nodes)
