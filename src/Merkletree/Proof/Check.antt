-- ===== src/Merkletree/Proof/Check.antt =====
-- `check` of qmdb/src/merkletree/proof.rs: what it accepts, and what it fills in.
use qmdb.Common.{
  ℕ, ◌-◌, ◌≡◌, refl, ap, ◌∙◌, sym, subst, List, ◌∷◌, true, false, Bool-cases, inl, inr, arith,
  if◌then◌else◌,
}
use qmdb.Common.Bytes.{bytes_eq, eq_of_bytes_eq, bytes_eq_refl}
use qmdb.Extern.Sha2.{Sha256}
use qmdb.Utils.Hasher.{Hash32, hash2}
use qmdb.Merkletree.Proof.{
  ProofNode, ProofPath, root_mismatch, ok, err, >>=-eq-ok, node_hash, check, chain_of, chain,
  enter_upper, left_mismatch, right_mismatch, upper_mismatch,
}
use qmdb.Merkletree.Proof.Chain.{
  up, climb, Linked, relink, chain-true, chain-false, chain-false_inv,
}

-- A path with all of its parts: no array is empty.
pub record Parts : Type 0 where
  pub left : ProofNode
  pub lefts : List ProofNode
  pub right : ProofNode
  pub rights : List ProofNode
  pub upper : ProofNode
  pub uppers : List ProofNode
  pub sn : ℕ
  pub root_hash : Hash32

abbrev pub path_of : Parts → ProofPath
path_of p = record {
  left_of_twig = p.left ∷ p.lefts;
  right_of_twig = p.right ∷ p.rights;
  upper_path = p.upper ∷ p.uppers;
  serial_num = p.sn;
  root = p.root_hash;
}

module _ (sha : Sha256) (p : Parts) where
  open p use {left, lefts, right, rights, upper, uppers, root_hash}

  abbrev pub left_top : Hash32
  left_top = climb sha 0 left.self_hash (left ∷ lefts)

  abbrev pub right_top : Hash32
  right_top = climb sha 8 right.self_hash (right ∷ rights)

  -- The root of the twig, and of the tree, that the two lowest hashes lead to.
  abbrev pub twig_top : Hash32
  twig_top = hash2 sha 11 left_top right_top

  abbrev pub tree_top : Hash32
  tree_top = climb sha 12 twig_top (upper ∷ uppers)

  -- Each node's own hash is the one that the nodes below it lead to, and the last is the root.
  pub record IsConsistent : Type 0 where
    pub lefts_linked : Linked sha 0 left.self_hash (left ∷ lefts)
    pub rights_linked : Linked sha 8 right.self_hash (right ∷ rights)
    pub uppers_linked : Linked sha 12 twig_top (upper ∷ uppers)
    pub root_reached : tree_top ≡ root_hash

  -- The climb from the twig's root is the same from the node that holds it.
  enter :
      (h : Hash32)
      → h ≡ upper.self_hash
      → climb sha 13 (up sha 12 h upper) uppers ≡ climb sha 13 (node_hash sha 12 upper) uppers
  enter h e = ap (λ x. climb sha 13 (up sha 12 x upper) uppers) e

  accepts : IsConsistent → check sha (path_of p) false ≡ ok (path_of p)
  unfolding check chain_of enter_upper
  accepts v =
      let same = v.uppers_linked.0 in
      let test : bytes_eq twig_top upper.self_hash ≡ true =
        rw same (bytes_eq_refl upper.self_hash) in
      let linked = subst (λ h. Linked sha 13 (up sha 12 h upper) uppers) same v.uppers_linked.1 in
      let last : bytes_eq (climb sha 13 (node_hash sha 12 upper) uppers) root_hash ≡ true =
        rw (sym (enter twig_top same) ∙ v.root_reached) (bytes_eq_refl root_hash) in
      rw
        (
          chain-false sha left_mismatch 0 left lefts v.lefts_linked.1,
          chain-false sha (λ level. right_mismatch (level - 8)) 8 right rights v.rights_linked.1,
          test,
          enter_upper,
        )
        (rw (chain-false sha upper_mismatch 12 upper uppers linked) (rw last refl))

  -- What a successful check, taken apart, says.
  from_upper :
      (h : Hash32) (nodes : List ProofNode) (res : Hash32)
      → h ≡ upper.self_hash
      → chain sha upper_mismatch false 12 upper uppers ≡ ok (nodes, res)
      → res ≡ root_hash
      → Linked sha 12 h (upper ∷ uppers) × (climb sha 12 h (upper ∷ uppers) ≡ root_hash)
  from_upper h nodes res same runs reached =
      let linked = chain-false_inv sha upper_mismatch 12 upper uppers nodes res runs in
      let top = chain-false sha upper_mismatch 12 upper uppers linked in
      (
        (same, subst (λ x. Linked sha 13 (up sha 12 x upper) uppers) (sym same) linked),
        enter h same ∙ ground (arith, top, runs, reached),
      )

  reaches :
      (res : Hash32) (a b : ProofPath)
      → (if bytes_eq res root_hash then ok a else err root_mismatch) ≡ ok b
      → res ≡ root_hash
  reaches res a b e = ground (arith, eq_of_bytes_eq res root_hash)

  accepts_inv : (q : ProofPath) → check sha (path_of p) false ≡ ok q → IsConsistent
  unfolding check chain_of enter_upper
  accepts_inv q e =
      let (l, runs_l, e1) = >>=-eq-ok (chain sha left_mismatch false 0 left lefts) _ e in
      let (r, runs_r, _) =
        >>=-eq-ok (chain sha (λ level. right_mismatch (level - 8)) false 8 right rights) _ e1 in
      let left_linked = chain-false_inv sha left_mismatch 0 left lefts l.0 l.1 runs_l in
      let right_linked =
        chain-false_inv sha (λ level. right_mismatch (level - 8)) 8 right rights r.0 r.1 runs_r in
      let entered =
        rw
          (
            chain-false sha left_mismatch 0 left lefts left_linked,
            chain-false sha (λ level. right_mismatch (level - 8)) 8 right rights right_linked,
          )
          at e in
      elim (Bool-cases (bytes_eq twig_top upper.self_hash)) [
        | inl test ↦
            let (u, runs_u, ends) =
              >>=-eq-ok (chain sha upper_mismatch false 12 upper uppers) _
                (rw (test, enter_upper) at entered) in
            let upper_parts =
              from_upper twig_top u.0 u.1 (eq_of_bytes_eq _ _ test) runs_u (reaches u.1 _ q ends) in
            record {
              lefts_linked = (refl, left_linked);
              rights_linked = (refl, right_linked);
              uppers_linked = upper_parts.0;
              root_reached = upper_parts.1;
            }
        | inr test ↦ cc (rw (test, enter_upper) at entered)
      ]

  abbrev pub completed : Parts
  completed = record p {
    lefts = relink sha 1 (node_hash sha 0 left) lefts;
    rights = relink sha 9 (node_hash sha 8 right) rights;
    upper = record upper { self_hash = twig_top };
    uppers = relink sha 13 (node_hash sha 12 (record upper { self_hash = twig_top })) uppers;
  }

  -- In complete mode the own hashes are ignored but for the two lowest, all others are filled in,
  -- and the only test is that the climb ends at the root.
  pub check-true :
      check sha (path_of p) true
      ≡ (if bytes_eq tree_top root_hash then ok (path_of completed) else err root_mismatch)
  unfolding check chain_of enter_upper
  check-true =
      rw
        (
          chain-true sha left_mismatch 0 left lefts,
          chain-true sha (λ level. right_mismatch (level - 8)) 8 right rights,
          chain-true sha upper_mismatch 12 (record upper { self_hash = twig_top }) uppers,
        )
        refl

  -- The check without completion accepts a consistent path and returns it as it was, and it
  -- accepts no other.
  pub check_iff :
      (IsConsistent → check sha (path_of p) false ≡ ok (path_of p))
      × ((q : ProofPath) → check sha (path_of p) false ≡ ok q → IsConsistent × (q ≡ path_of p))
  check_iff = (accepts, λ q e. let v = accepts_inv q e in (v, cc (accepts v)))
