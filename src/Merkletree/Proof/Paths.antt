-- ===== src/Merkletree/Proof/Paths.antt =====
-- `get_left_path` and `get_right_path` of qmdb/src/merkletree/proof.rs. `none` is a panic, of the
-- closure that fetches a hash or of an index out of range.
pub mod Linked
pub mod Complete
use qmdb.Common.{
  ℕ, zero, suc, ◌+◌, ◌*◌, ◌/◌, ◌%◌, ◌^◌, List, [], ◌∷◌, Option, some, get_elem?, ◌==◌, ◌>>=◌,
  bit_and, bit_xor,
}
use qmdb.Def.{twig_mask}
use qmdb.Utils.Hasher.{Hash32}
use qmdb.Merkletree.ActiveBits.{ActiveBits, get_bits}
use qmdb.Merkletree.RightTree.{Twig}
use qmdb.Merkletree.Proof.{ProofNode}

-- The node of a place and its sibling, from the hashes at both.
unfoldable pub sibling_node : (ℕ → Option Hash32) → ℕ → Option ProofNode
sibling_node get_hash self_id = do
  let peer = bit_xor self_id 1
  s ← get_hash self_id
  p ← get_hash peer
  some (record { self_hash = s; peer_hash = p; peer_at_left = bit_and peer 1 == 0 })

pub left_nodes : (ℕ → Option Hash32) → ℕ → ℕ → ℕ → Option (List ProofNode)
unfolding sibling_node
left_nodes get_hash zero level n = some []
left_nodes get_hash (suc count) level n = do
  node ← sibling_node (λ id. get_hash (2048 / 2 ^ level + id)) (n / 2 ^ level)
  nodes ← left_nodes get_hash count (level + 1) n
  some (node ∷ nodes)

pub get_left_path : ℕ → (ℕ → Option Hash32) → Option (List ProofNode)
unfolding left_nodes
get_left_path sn get_hash = left_nodes get_hash 11 0 (bit_and sn twig_mask)

pub get_left_path_in_mem : List Hash32 → ℕ → Option (List ProofNode)
unfolding get_left_path
get_left_path_in_mem mt4twig sn = get_left_path sn (λ i. get_elem? mt4twig i)

pub get_right_path : Twig → ActiveBits → ℕ → Option (List ProofNode)
unfolding sibling_node
get_right_path twig active_bits sn = do
  let n = bit_and sn twig_mask
  r0 ← sibling_node (λ id. get_bits active_bits id 32) (n / 256)
  r1 ← sibling_node (λ id. get_elem? twig.active_bits_mtl1 id) (n / 512)
  r2 ← sibling_node (λ id. get_elem? twig.active_bits_mtl2 id) (n / 1024)
  some (r0 ∷ r1 ∷ r2 ∷ [])
