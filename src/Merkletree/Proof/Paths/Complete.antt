-- ===== src/Merkletree/Proof/Paths/Complete.antt =====
-- qmdb/src/merkletree/proof.rs: the two paths of a twig, and `check` on the proof made of them.
use native.Mathlib.Nat.{pow-suc, pow-le-pow_right}
use qmdb.Common.{
  ℕ, suc, ◌+◌, ◌/◌, ◌%◌, ◌^◌, ◌≡◌, refl, ap, ap₂, ◌∙◌, sym, subst, List, [], ◌∷◌, false, some,
  get_elem?, bit_and, arith, length, get_elem?-eq-get_or,
}
use qmdb.Common.Bits.{bit_and-low}
use qmdb.Def.{twig_mask}
use qmdb.Extern.Sha2.{Sha256}
use qmdb.Utils.Hasher.{Hash32, hash2, zero_hash32}
use qmdb.Merkletree.ActiveBits.{ActiveBits, get_bits}
use qmdb.Merkletree.RightTree.{Twig}
use qmdb.Merkletree.RightTree.Laws.{page, cell1, cell2, IsSynced, get_bits-page, cells1, cells2}
use qmdb.Merkletree.Twig.Sync.{node_at}
use qmdb.Merkletree.Twig.Rebuild.{merkle, IsTree}
use qmdb.Merkletree.Proof.{ProofNode, ProofPath, check, ok}
use qmdb.Merkletree.Proof.Chain.{up, climb, Linked}
use qmdb.Merkletree.Proof.Check.{Parts, IsConsistent, check_iff, twig_top}
use qmdb.Merkletree.Proof.Paths.{get_left_path_in_mem, get_right_path}
use qmdb.Merkletree.Proof.Paths.Linked.{
  at_place, sibling_node-at_place, up-at_place, LeadsUp, get_left_path-LeadsUp,
}

module _ (sha : Sha256) where
  left_path :
      (mtree : List Hash32) (leaf : ℕ → Hash32) (sn : ℕ)
      → length mtree ≡ 4096
      → IsTree sha mtree leaf
      → LeadsUp sha 0 (leaf (sn % 2048)) (merkle sha leaf 11 0) (get_left_path_in_mem mtree sn)
  unfolding get_left_path_in_mem
  left_path mtree leaf sn size tree =
      get_left_path-LeadsUp sha leaf (λ i. get_elem? mtree i) sn
        (λ p level m h e k.
          get_elem?-eq-get_or mtree (2 ^ p + m) zero_hash32 (
            omega (
              arith,
              size,
              pow-suc 2 p,
              pow-le-pow_right {n = 2} (omega arith) {i = suc p} {j = 12} h,
            ))
          ∙ ap some (tree p level h e m k))

  right_path :
      (t : Twig) (ab : ActiveBits) (sn : ℕ)
      → length ab.bytes ≡ 256
      → IsSynced sha t ab
      → LeadsUp sha 8 (page ab (sn % 2048 / 256)) t.active_bits_mtl3 (get_right_path t ab sn)
  unfolding get_right_path
  right_path t ab sn size s =
      let n : bit_and sn twig_mask ≡ sn % 2048 = bit_and-low 11 sn in
      let r0 =
        sibling_node-at_place (λ id. get_bits ab id 32) (page ab) (sn % 2048 / 256) 8 (omega arith)
          (omega arith) (λ k h. get_bits-page sha ab k size h) in
      let r1 =
        sibling_node-at_place (λ id. get_elem? t.active_bits_mtl1 id) (cell1 t) (sn % 2048 / 512) 4
          (omega arith) (omega arith) (λ k h. cells1 sha t k s.size1 h) in
      let r2 =
        sibling_node-at_place (λ id. get_elem? t.active_bits_mtl2 id) (cell2 t) (sn % 2048 / 1024) 2
          (omega arith) (omega arith) (λ k h. cells2 sha t k s.size2 h) in
      let up0 : up sha 8 (page ab (sn % 2048 / 256)) (at_place (page ab) (sn % 2048 / 256))
          ≡ cell1 t (sn % 2048 / 512) =
        let half : sn % 2048 / 256 / 2 ≡ sn % 2048 / 512 = omega arith in
        up-at_place sha 8 (page ab) (sn % 2048 / 256) (omega arith)
        ∙ rw half (sym (s.level1 (sn % 2048 / 512) (omega arith))) in
      let up1 : up sha 9 (cell1 t (sn % 2048 / 512)) (at_place (cell1 t) (sn % 2048 / 512))
          ≡ cell2 t (sn % 2048 / 1024) =
        let half : sn % 2048 / 512 / 2 ≡ sn % 2048 / 1024 = omega arith in
        up-at_place sha 9 (cell1 t) (sn % 2048 / 512) (omega arith)
        ∙ rw half (sym (s.level2 (sn % 2048 / 1024) (omega arith))) in
      let up2 : up sha 10 (cell2 t (sn % 2048 / 1024)) (at_place (cell2 t) (sn % 2048 / 1024))
          ≡ t.active_bits_mtl3 =
        let half : sn % 2048 / 1024 / 2 ≡ 0 = omega arith in
        up-at_place sha 10 (cell2 t) (sn % 2048 / 1024) (omega arith) ∙ rw half (sym s.level3) in
      let above = ap (λ x. up sha 9 x (at_place (cell1 t) (sn % 2048 / 512))) up0 ∙ up1 in
      (
        at_place (page ab) (sn % 2048 / 256),
        at_place (cell1 t) (sn % 2048 / 512) ∷ at_place (cell2 t) (sn % 2048 / 1024) ∷ [],
        rw (n, r0, r1, r2) refl,
        (refl, (up0, (above, tt))),
        ap (λ x. up sha 10 x (at_place (cell2 t) (sn % 2048 / 1024))) above ∙ up2,
      )

-- A linked path, from the own hash of its first node.
from_own :
    (sha : Sha256) (level : ℕ) (h top : Hash32) (first : ProofNode) (rest : List ProofNode)
    → Linked sha level h (first ∷ rest)
    → climb sha level h (first ∷ rest) ≡ top
    → Linked sha level first.self_hash (first ∷ rest)
      × (climb sha level first.self_hash (first ∷ rest) ≡ top)
from_own sha level h top first rest l c =
    subst (λ x. Linked sha level x (first ∷ rest) × (climb sha level x (first ∷ rest) ≡ top)) (l.0)
      (l, c)

consistent :
    (sha : Sha256) (p : Parts) (twig left right : Hash32)
    → Linked sha 0 p.left.self_hash (p.left ∷ p.lefts)
      × (climb sha 0 p.left.self_hash (p.left ∷ p.lefts) ≡ left)
    → Linked sha 8 p.right.self_hash (p.right ∷ p.rights)
      × (climb sha 8 p.right.self_hash (p.right ∷ p.rights) ≡ right)
    → twig ≡ hash2 sha 11 left right
    → Linked sha 12 twig (p.upper ∷ p.uppers)
      × (climb sha 12 twig (p.upper ∷ p.uppers) ≡ p.root_hash)
    → IsConsistent sha p
consistent sha p twig left right l r top u =
    let same : twig ≡ twig_top sha p = top ∙ ap₂ (hash2 sha 11) (sym (l.1)) (sym (r.1)) in
    let upper =
      subst
        (λ x.
          Linked sha 12 x (p.upper ∷ p.uppers)
          × (climb sha 12 x (p.upper ∷ p.uppers) ≡ p.root_hash))
        same u in
    record {
      lefts_linked = l.0;
      rights_linked = r.0;
      uppers_linked = upper.0;
      root_reached = upper.1;
    }

abbrev pub whole :
    ProofNode
    → List ProofNode
    → ProofNode
    → List ProofNode
    → ProofNode
    → List ProofNode
    → ℕ
    → Hash32
    → ProofPath
whole l ls r rs upper uppers sn root_hash = record {
  left_of_twig = l ∷ ls;
  right_of_twig = r ∷ rs;
  upper_path = upper ∷ uppers;
  serial_num = sn;
  root = root_hash;
}

-- What the theorem below needs of a twig: its hash tree, its bits and its hashes agree, and the
-- upper path leads from its root to the root of the tree.
pub record Agrees (sha : Sha256) (mtree : List Hash32) (leaf : ℕ → Hash32) (t : Twig)
    (ab : ActiveBits) (upper : ProofNode) (uppers : List ProofNode) (root_hash : Hash32)
    : Type 0 where
  pub tree_size : length mtree ≡ 4096
  pub tree : IsTree sha mtree leaf
  pub bits_size : length ab.bytes ≡ 256
  pub synced : IsSynced sha t ab
  pub left_is_top : t.left_root ≡ node_at mtree 1
  pub above : Linked sha 12 t.twig_root (upper ∷ uppers)
  pub reached : climb sha 12 t.twig_root (upper ∷ uppers) ≡ root_hash

-- For a twig whose hash tree, active bits and hashes agree, and an upper path that leads from the
-- twig's root to the root, `get_left_path_in_mem` and `get_right_path` return paths for every
-- serial number; they start at the entry's leaf and at its page of active bits; and `check`
-- accepts the proof made of the two and the upper path.
pub paths-check :
    (sha : Sha256) (mtree : List Hash32) (leaf : ℕ → Hash32) (t : Twig) (ab : ActiveBits)
    (upper : ProofNode) (uppers : List ProofNode) (root_hash : Hash32) (sn : ℕ)
    → Agrees sha mtree leaf t ab upper uppers root_hash
    → (l : ProofNode) × (ls : List ProofNode) × (r : ProofNode) × (rs : List ProofNode)
      × (get_left_path_in_mem mtree sn ≡ some (l ∷ ls))
      × (get_right_path t ab sn ≡ some (r ∷ rs))
      × (l.self_hash ≡ leaf (sn % 2048))
      × (r.self_hash ≡ page ab (sn % 2048 / 256))
      × (check sha (whole l ls r rs upper uppers sn root_hash) false
          ≡ ok (whole l ls r rs upper uppers sn root_hash))
paths-check sha mtree leaf t ab upper uppers root_hash sn a =
    let (l, ls, left_runs, left_linked, left_top) =
      left_path sha mtree leaf sn a.tree_size a.tree in
    let (r, rs, right_runs, right_linked, right_top) =
      right_path sha t ab sn a.bits_size a.synced in
    let own_left =
      from_own sha 0 (leaf (sn % 2048)) t.left_root l ls left_linked (
        left_top ∙ sym (a.left_is_top ∙ a.tree 0 11 (omega arith) (omega arith) 0 (omega arith))) in
    let own_right =
      from_own sha 8 (page ab (sn % 2048 / 256)) t.active_bits_mtl3 r rs right_linked right_top in
    let top = a.synced.top in
    let p : Parts = record {
      left = l;
      lefts = ls;
      right = r;
      rights = rs;
      upper = upper;
      uppers = uppers;
      sn = sn;
      root_hash = root_hash;
    } in
    (
      l,
      ls,
      r,
      rs,
      left_runs,
      right_runs,
      sym (left_linked.0),
      sym (right_linked.0),
      (check_iff sha p).0 (
          consistent sha p t.twig_root t.left_root t.active_bits_mtl3 own_left own_right top
            (a.above, a.reached)),
    )
