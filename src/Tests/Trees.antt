-- ===== src/Tests/Trees.antt =====
-- The hash tree of a twig, of qmdb/src/merkletree/twig.rs, and the paths taken from it.
use native.Mathlib.Nat.{pow-suc, pow-le-pow_right}
use qmdb.Common.{
  ℕ, suc, ◌+◌, ◌/◌, ◌%◌, ◌^◌, ◌<◌, ◌≡◌, ◌⊎◌, inl, inr, refl, sym, ◌∙◌, List, [], ◌∷◌, true, false,
  Bool-cases, some, ◌>>=◌, replicate, length, set, ◌==◌, if◌then◌else◌, arith, length-set,
  length-replicate, get_or-set_self, get_or-set_ne, get_or-replicate,
}
use qmdb.Utils.Hasher.{Hash32, zero_hash32, hash2, hash2x}
use qmdb.Merkletree.ActiveBits.{ActiveBits}
use qmdb.Merkletree.ActiveBits as Leaf
use qmdb.Merkletree.ActiveBits.Laws as LeafLaws
use qmdb.Merkletree.RightTree.{Twig, sync_l1, sync_l2, sync_l3, sync_top}
use qmdb.Merkletree.RightTree.Laws.{
  page, Level1, SyncsLevel1, sync_l1_lem, IsSynced, sync_levels-IsSynced,
}
use qmdb.Merkletree.Twig.{sync_mtree}
use qmdb.Merkletree.Twig.Sync.{node_at}
use qmdb.Merkletree.Twig.Rebuild.{Row, IsTree, sync_mtree-IsTree}
use qmdb.Merkletree.Proof.{ProofNode, check, ok}
use qmdb.Merkletree.Proof.Paths.{get_left_path_in_mem, get_right_path}
use qmdb.Merkletree.Proof.Paths.Complete.{Agrees, whole, paths-check}
use qmdb.Tests.Data.{zero_sha, node, zero_row, merkle-zero, zero_node}

-- A twig of zeros, and what becomes of leaf 5.
abbrev leaf5 : Hash32
leaf5 = replicate 32 5

new_row : ℕ → Hash32
new_row m = if m == 5 then leaf5 else zero_hash32

zeros : List Hash32
zeros = replicate 4096 zero_hash32

changed : List Hash32
unfolding zeros
changed = set zeros 2053 leaf5

size : length changed ≡ 4096
unfolding changed zeros
size = length-set (replicate 4096 zero_hash32) 2053 leaf5 ∙ length-replicate 4096 zero_hash32

other : (i : ℕ) → (i == 2053) ≡ false → node_at changed i ≡ zero_hash32
unfolding changed zeros
other i ne =
    get_or-set_ne (replicate 4096 zero_hash32) 2053 i leaf5 zero_hash32 (ground arith)
    ∙ zero_node 4096 i

leaves : (m : ℕ) → m < 2048 → node_at changed (2048 + m) ≡ new_row m
unfolding changed zeros new_row
leaves m h = elim (Bool-cases (m == 5)) [
  | inl e ↦
      let same : m ≡ 5 = ground arith in
      rw same (
        get_or-set_self (replicate 4096 zero_hash32) 2053 leaf5 zero_hash32
          (omega (arith, length-replicate 4096 zero_hash32)))
  | inr e ↦ rw e (other (2048 + m) (ground arith))
]

same_outside : (m : ℕ) → (m < 5) ⊎ (5 < m) → zero_row m ≡ new_row m
unfolding new_row
same_outside m h = elim (Bool-cases (m == 5)) [ inl e ↦ absurd (ground arith) | inr e ↦ rw e refl ]

sync_mtree-IsTree_example :
    (out : List Hash32) × (sync_mtree zero_sha changed 5 5 ≡ some out)
    × (length out ≡ 4096)
    × IsTree zero_sha out new_row
sync_mtree-IsTree_example =
    sync_mtree-IsTree zero_sha changed 5 5 zero_row new_row size (omega arith) outside leaves below
  where
    outside : (m : ℕ) → (m < 5) ⊎ (5 < m) → zero_row m ≡ new_row m
    outside m h = same_outside m h

    below : (p level : ℕ) → p < 11 → level + p ≡ 11 → Row zero_sha changed p zero_row level
    below p level h e m k =
        other (2 ^ p + m) (
          ground
            (arith, pow-suc 2 p, pow-le-pow_right {n = 2} (omega arith) {i = suc p} {j = 11} h))
        ∙ sym (merkle-zero level m)

abbrev twig : Twig
twig = record {
  active_bits_mtl1 = replicate 4 zero_hash32;
  active_bits_mtl2 = replicate 2 zero_hash32;
  active_bits_mtl3 = zero_hash32;
  left_root = zero_hash32;
  twig_root = zero_hash32;
}

bits_size : length Leaf.new.bytes ≡ 256
bits_size = LeafLaws.new-Holds.size

sync_l1_lem_example : SyncsLevel1 zero_sha twig Leaf.new 3 (sync_l1 zero_sha twig 3 Leaf.new)
sync_l1_lem_example = (sync_l1_lem zero_sha twig Leaf.new 3 bits_size refl).0 (omega arith)

-- The twig of zeros is synced: every digest is zero.
levels : (i : ℕ) → i < 4 → Level1 zero_sha twig Leaf.new i
unfolding hash2
levels i h = get_or-replicate 4 i zero_hash32

sync_levels-IsSynced_example :
    (t : Twig) × ((do
      t1 ← sync_l2 zero_sha twig 0
      t2 ← sync_l2 zero_sha t1 1
      t3 ← sync_l3 zero_sha t2
      some (sync_top zero_sha t3))
      ≡ some t)
    × IsSynced zero_sha t Leaf.new
    × (t.left_root ≡ zero_hash32)
sync_levels-IsSynced_example = sync_levels-IsSynced zero_sha twig Leaf.new refl refl levels

agrees : Agrees zero_sha zeros zero_row twig Leaf.new (node false) (node true ∷ []) zero_hash32
unfolding hash2 hash2x zeros
agrees = record {
  tree_size = length-replicate 4096 zero_hash32;
  tree = λ p level h e m k. zero_node 4096 (2 ^ p + m) ∙ sym (merkle-zero level m);
  bits_size = bits_size;
  synced = record {
    size1 = refl;
    size2 = refl;
    level1 = levels;
    level2 = λ i h. get_or-replicate 2 i zero_hash32;
    level3 = refl;
    top = refl;
  };
  left_is_top = sym (zero_node 4096 1);
  above = (refl, (refl, tt));
  reached = refl;
}

paths-check_example :
    (l : ProofNode) × (ls : List ProofNode) × (r : ProofNode) × (rs : List ProofNode)
    × (get_left_path_in_mem zeros 5000 ≡ some (l ∷ ls))
    × (get_right_path twig Leaf.new 5000 ≡ some (r ∷ rs))
    × (l.self_hash ≡ zero_row (5000 % 2048))
    × (r.self_hash ≡ page Leaf.new (5000 % 2048 / 256))
    × (check zero_sha (whole l ls r rs (node false) (node true ∷ []) 5000 zero_hash32) false
        ≡ ok (whole l ls r rs (node false) (node true ∷ []) 5000 zero_hash32))
paths-check_example =
    paths-check zero_sha zeros zero_row twig Leaf.new (node false) (node true ∷ []) zero_hash32 5000
      agrees
