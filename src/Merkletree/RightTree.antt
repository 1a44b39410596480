-- ===== src/Merkletree/RightTree.antt =====
-- `Twig` of qmdb/src/merkletree/twig.rs: the three hash levels over the active bits of a twig, and
-- its root. `none` is a panic.
pub mod Laws
use qmdb.Common.{
  ℕ, zero, suc, ◌+◌, ◌*◌, List, [], ◌∷◌, Option, none, some, get_elem?, set, replicate, ◌>>=◌,
}
use qmdb.Extern.Sha2.{Sha256}
use qmdb.Utils.Hasher.{Hash32, zero_hash32, node_hash_inplace}
use qmdb.Merkletree.ActiveBits.{ActiveBits, get_bits}
use qmdb.Merkletree.ActiveBits

pub record Twig : Type 0 where
  pub active_bits_mtl1 : List Hash32
  pub active_bits_mtl2 : List Hash32
  pub active_bits_mtl3 : Hash32
  pub left_root : Hash32
  pub twig_root : Hash32

pub new : Twig
new = record {
  active_bits_mtl1 = replicate 4 zero_hash32;
  active_bits_mtl2 = replicate 2 zero_hash32;
  active_bits_mtl3 = zero_hash32;
  left_root = zero_hash32;
  twig_root = zero_hash32;
}

module _ (sha : Sha256) where
  -- The cell `pos` from pages `left` and `right`.
  hash_pages : Twig → ActiveBits → ℕ → ℕ → ℕ → Option Twig
  hash_pages t active_bits pos left right = do
    a ← get_bits active_bits left 32
    b ← get_bits active_bits right 32
    some (record t { active_bits_mtl1 = set t.active_bits_mtl1 pos (node_hash_inplace sha 8 a b) })

  pub sync_l1 : Twig → ℕ → ActiveBits → Option Twig
  unfolding hash_pages
  sync_l1 t zero active_bits = hash_pages t active_bits 0 0 1
  sync_l1 t (suc zero) active_bits = hash_pages t active_bits 1 2 3
  sync_l1 t (suc (suc zero)) active_bits = hash_pages t active_bits 2 4 5
  sync_l1 t (suc (suc (suc zero))) active_bits = hash_pages t active_bits 3 6 7
  sync_l1 t (suc (suc (suc (suc pos)))) active_bits = none

  hash_cells : Twig → ℕ → ℕ → ℕ → Option Twig
  hash_cells t pos left right = do
    a ← get_elem? t.active_bits_mtl1 left
    b ← get_elem? t.active_bits_mtl1 right
    some (record t { active_bits_mtl2 = set t.active_bits_mtl2 pos (node_hash_inplace sha 9 a b) })

  pub sync_l2 : Twig → ℕ → Option Twig
  unfolding hash_cells
  sync_l2 t zero = hash_cells t 0 0 1
  sync_l2 t (suc zero) = hash_cells t 1 2 3
  sync_l2 t (suc (suc pos)) = none

  pub sync_l3 : Twig → Option Twig
  sync_l3 t = do
    a ← get_elem? t.active_bits_mtl2 0
    b ← get_elem? t.active_bits_mtl2 1
    some (record t { active_bits_mtl3 = node_hash_inplace sha 10 a b })

  pub sync_top : Twig → Twig
  sync_top t = record t { twig_root = node_hash_inplace sha 11 t.left_root t.active_bits_mtl3 }

  -- The twig with no active leaf, over the given root of its left tree.
  unfoldable pub create_null_twig : Hash32 → Option Twig
  create_null_twig null_mt_for_twig = do
    t ← sync_l1 new 0 ActiveBits.new
    t ← sync_l1 t 1 ActiveBits.new
    t ← sync_l1 t 2 ActiveBits.new
    t ← sync_l1 t 3 ActiveBits.new
    t ← sync_l2 t 0
    t ← sync_l2 t 1
    t ← sync_l3 t
    some (sync_top (record t { left_root = null_mt_for_twig }))
