-- ===== src/Merkletree/Proof/Chain.antt =====
-- qmdb/src/merkletree/proof.rs: one loop of `check`, against climbing from a hash along its peers.
use qmdb.Common.{
  ℕ, ◌+◌, ◌%◌, ◌^◌, ◌≡◌, refl, ap, sym, subst, List, [], ◌∷◌, true, false, Bool-cases, inl, inr,
  arith, map,
}
use qmdb.Common.Bytes.{bytes_eq, eq_of_bytes_eq, bytes_eq_refl}
use qmdb.Extern.Sha2.{Sha256}
use qmdb.Utils.Hasher.{Hash32, zero_hash32, hash2x}
use qmdb.Merkletree.Proof.{ProofNode, Error, ok, node_hash, chain, filled, >>=-eq-ok}

-- A node without the hash that a check can fill in.
abbrev pub bare : ProofNode → ProofNode
bare n = record n { self_hash = zero_hash32 }

module _ (sha : Sha256) where
  abbrev pub up : ℕ → Hash32 → ProofNode → Hash32
  up level h n = hash2x sha (level % 2 ^ 8) h n.peer_hash n.peer_at_left

  -- The hash reached from `h` over the nodes' peers.
  abbrev pub climb : ℕ → Hash32 → List ProofNode → Hash32
  climb level h [] = h
  climb level h (n ∷ ns) = climb (level + 1) (up level h n) ns

  -- Every node holds the hash that the climb reaches below it.
  abbrev pub Linked : ℕ → Hash32 → List ProofNode → Type 0
  Linked level h [] = Unit {0}
  Linked level h (n ∷ ns) = (h ≡ n.self_hash) × Linked (level + 1) (up level h n) ns

  abbrev pub relink : ℕ → Hash32 → List ProofNode → List ProofNode
  relink level h [] = []
  relink level h (n ∷ ns) = record n { self_hash = h } ∷ relink (level + 1) (up level h n) ns

  pub relink_of_Linked :
      (level : ℕ) (h : Hash32) (ns : List ProofNode) → Linked level h ns → relink level h ns ≡ ns
  relink_of_Linked level h [] l = refl
  relink_of_Linked level h (n ∷ ns) l =
      ground (arith, relink_of_Linked (level + 1) (up level h n) ns l.1)

  pub Linked-relink :
      (level : ℕ) (h : Hash32) (ns : List ProofNode) → Linked level h (relink level h ns)
  Linked-relink level h [] = tt
  Linked-relink level h (n ∷ ns) = (refl, Linked-relink (level + 1) (up level h n) ns)

  pub relink-bare :
      (level : ℕ) (h : Hash32) (ns : List ProofNode)
      → relink level h (map bare ns) ≡ relink level h ns
  relink-bare level h [] = refl
  relink-bare level h (n ∷ ns) =
      ap (◌∷◌ (record n { self_hash = h })) (relink-bare (level + 1) (up level h n) ns)

  pub climb-bare :
      (level : ℕ) (h : Hash32) (ns : List ProofNode)
      → climb level h (map bare ns) ≡ climb level h ns
  climb-bare level h [] = refl
  climb-bare level h (n ∷ ns) = climb-bare (level + 1) (up level h n) ns

  -- In complete mode the loop fills the nodes in and cannot fail.
  pub chain-true :
      (mismatch : ℕ → Error) (level : ℕ) (first : ProofNode) (rest : List ProofNode)
      → chain sha mismatch true level first rest
        ≡ ok (
          first ∷ relink (level + 1) (node_hash sha level first) rest,
          climb (level + 1) (node_hash sha level first) rest,
        )
  unfolding chain
  chain-true mismatch level first [] = refl
  chain-true mismatch level first (next ∷ rest) =
      rw (chain-true mismatch (level + 1) (filled true (node_hash sha level first) next) rest) refl

  -- Otherwise it changes nothing, and succeeds when the nodes are linked,
  pub chain-false :
      (mismatch : ℕ → Error) (level : ℕ) (first : ProofNode) (rest : List ProofNode)
      → Linked (level + 1) (node_hash sha level first) rest
      → chain sha mismatch false level first rest
        ≡ ok (first ∷ rest, climb (level + 1) (node_hash sha level first) rest)
  unfolding chain
  chain-false mismatch level first [] l = refl
  chain-false mismatch level first (next ∷ rest) l =
      let test : bytes_eq (node_hash sha level first) next.self_hash ≡ true =
        rw l.0 (bytes_eq_refl next.self_hash) in
      let linked = subst (λ h. Linked (level + 1 + 1) (up (level + 1) h next) rest) l.0 l.1 in
      rw (test, chain, chain-false mismatch (level + 1) next rest linked)
        (ap (λ h. ok (first ∷ next ∷ rest, climb (level + 1 + 1) (up (level + 1) h next) rest))
          (sym l.0))

  -- and only then.
  pub chain-false_inv :
      (mismatch : ℕ → Error) (level : ℕ) (first : ProofNode) (rest : List ProofNode)
      (nodes : List ProofNode) (top : Hash32)
      → chain sha mismatch false level first rest ≡ ok (nodes, top)
      → Linked (level + 1) (node_hash sha level first) rest
  unfolding chain
  chain-false_inv mismatch level first [] nodes top e = tt
  chain-false_inv mismatch level first (next ∷ rest) nodes top e =
      elim (Bool-cases (bytes_eq (node_hash sha level first) next.self_hash)) [
        | inl test ↦
            let same = eq_of_bytes_eq _ _ test in
            let (r, runs, _) =
              >>=-eq-ok (chain sha mismatch false (level + 1) next rest) _
                (rw (test, chain) at e) in
            let linked = chain-false_inv mismatch (level + 1) next rest r.0 r.1 runs in
            (
              same,
              subst (λ h. Linked (level + 1 + 1) (up (level + 1) h next) rest) (sym same) linked,
            )
        | inr test ↦ cc (rw (test, chain) at e)
      ]
