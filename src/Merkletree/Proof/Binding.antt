-- ===== src/Merkletree/Proof/Binding.antt =====
-- qmdb/src/merkletree/proof.rs: what a path that ends at a given root can prove.
use qmdb.Common.{
  ℕ, ◌+◌, ◌%◌, ◌^◌, ◌≡◌, ◌≢◌, ◌⊎◌, inl, inr, ◌∙◌, sym, List, [], ◌∷◌, ◌++◌, false, Bool-cases,
  arith, length, append-injective,
}
use qmdb.Common.Bytes.{bytes_eq, eq_of_bytes_eq, bytes_eq_refl}
use qmdb.Extern.Sha2.{Sha256}
use qmdb.Utils.Hasher.{Hash32, hash2, hash2x}
use qmdb.Merkletree.Proof.{ProofNode, ProofPath, ok, check}
use qmdb.Merkletree.Proof.Chain.{up, climb}
use qmdb.Merkletree.Proof.Check.{
  Parts, path_of, IsConsistent, left_top, right_top, twig_top, check_iff,
}

-- Two byte strings with one digest.
abbrev pub Collision : Sha256 → Type 0
Collision sha = (a : List ℕ) × (b : List ℕ) × (a ≢ b) × (sha.digest a ≡ sha.digest b)

-- Nodes with peers on the same sides, all of 32 bytes.
abbrev pub SameSides : List ProofNode → List ProofNode → Type 0
SameSides [] [] = Unit {0}
SameSides [] (m ∷ ms) = ⊥
SameSides (n ∷ ns) [] = ⊥
SameSides (n ∷ ns) (m ∷ ms) =
    (n.peer_at_left ≡ m.peer_at_left)
    × (length n.peer_hash ≡ 32)
    × (length m.peer_hash ≡ 32)
    × SameSides ns ms

module _ (sha : Sha256) where
  digest-injective : (a b : List ℕ) → sha.digest a ≡ sha.digest b → (a ≡ b) ⊎ Collision sha
  digest-injective a b e = elim (Bool-cases (bytes_eq a b)) [
    | inl test ↦ inl (eq_of_bytes_eq a b test)
    | inr test ↦ inr (a, b, (λ same. cc (bytes_eq_refl b)), e)
  ]

  hash2-injective :
      (level : ℕ) (a b c d : List ℕ)
      → length a ≡ length b
      → hash2 sha level a c ≡ hash2 sha level b d
      → ((a ≡ b) × (c ≡ d)) ⊎ Collision sha
  unfolding hash2
  hash2-injective level a b c d h e = elim (digest-injective (level ∷ a ++ c) (level ∷ b ++ d) e) [
    | inl same ↦ inl (append-injective a b c d h (ground arith))
    | inr clash ↦ inr clash
  ]

  up-injective :
      (level : ℕ) (h k : Hash32) (n m : ProofNode)
      → length h ≡ 32
      → length k ≡ 32
      → n.peer_at_left ≡ m.peer_at_left
      → length n.peer_hash ≡ 32
      → length m.peer_hash ≡ 32
      → up sha level h n ≡ up sha level k m
      → (h ≡ k) ⊎ Collision sha
  unfolding hash2x
  up-injective level h k n m lh lk side ln lm e = elim (Bool-cases m.peer_at_left) [
    | inl left ↦
        let both =
          hash2-injective (level % 2 ^ 8) n.peer_hash m.peer_hash h k (ln ∙ sym lm)
            (ground arith) in
        elim both [ inl same ↦ inl same.1 | inr clash ↦ inr clash ]
    | inr right ↦
        let both =
          hash2-injective (level % 2 ^ 8) h k n.peer_hash m.peer_hash (lh ∙ sym lk)
            (ground arith) in
        elim both [ inl same ↦ inl same.0 | inr clash ↦ inr clash ]
  ]

  length-hash2 : (level : ℕ) (a b : List ℕ) → length (hash2 sha level a b) ≡ 32
  unfolding hash2
  length-hash2 level a b = sha.length-digest (level ∷ a ++ b)

  length-up : (level : ℕ) (h : Hash32) (n : ProofNode) → length (up sha level h n) ≡ 32
  unfolding hash2x
  length-up level h n = ground (
    arith,
    length-hash2 (level % 2 ^ 8) n.peer_hash h,
    length-hash2 (level % 2 ^ 8) h n.peer_hash,
  )

  length-climb :
      (level : ℕ) (h : Hash32) (ns : List ProofNode)
      → length h ≡ 32
      → length (climb sha level h ns) ≡ 32
  length-climb level h [] l = l
  length-climb level h (n ∷ ns) l =
      length-climb (level + 1) (up sha level h n) ns (length-up level h n)

  climb-injective :
      (level : ℕ) (h k : Hash32) (ns ms : List ProofNode)
      → length h ≡ 32
      → length k ≡ 32
      → SameSides ns ms
      → climb sha level h ns ≡ climb sha level k ms
      → (h ≡ k) ⊎ Collision sha
  climb-injective level h k [] [] lh lk s e = inl e
  climb-injective level h k [] (m ∷ ms) lh lk s e = absurd s
  climb-injective level h k (n ∷ ns) [] lh lk s e = absurd s
  climb-injective level h k (n ∷ ns) (m ∷ ms) lh lk s e =
      elim (climb-injective (level + 1) (up sha level h n) (up sha level k m) ns ms
        (length-up level h n) (length-up level k m) s.3 e) [
          | inl same ↦ up-injective level h k n m lh lk s.0 s.1 s.2 same
          | inr clash ↦ inr clash
        ]

  -- Two accepted paths with the same root, for the same place in a tree of the same height, start
  -- from the same leaf and the same page of active bits, or they show a collision of the hash.
  pub check_binding :
      (p q : Parts) (p' q' : ProofPath)
      → check sha (path_of p) false ≡ ok p'
      → check sha (path_of q) false ≡ ok q'
      → p.root_hash ≡ q.root_hash
      → length p.left.self_hash ≡ 32
      → length q.left.self_hash ≡ 32
      → length p.right.self_hash ≡ 32
      → length q.right.self_hash ≡ 32
      → SameSides (p.left ∷ p.lefts) (q.left ∷ q.lefts)
      → SameSides (p.right ∷ p.rights) (q.right ∷ q.rights)
      → SameSides (p.upper ∷ p.uppers) (q.upper ∷ q.uppers)
      → ((p.left.self_hash ≡ q.left.self_hash) × (p.right.self_hash ≡ q.right.self_hash))
        ⊎ Collision sha
  check_binding p q p' q' ep eq same_root lp lq rp rq lefts rights uppers =
      elim (climb-injective 12 (twig_top sha p) (twig_top sha q) (p.upper ∷ p.uppers)
        (q.upper ∷ q.uppers) (length-hash2 11 _ _) (length-hash2 11 _ _) uppers
        ((vp.root_reached ∙ same_root) ∙ sym vq.root_reached)) [
          | inl twigs ↦ below twigs
          | inr clash ↦ inr clash
        ]
    where
      vp : IsConsistent sha p
      vp = ((check_iff sha p).1 p' ep).0

      vq : IsConsistent sha q
      vq = ((check_iff sha q).1 q' eq).0

      tops :
          (left_top sha p ≡ left_top sha q) × (right_top sha p ≡ right_top sha q)
          → ((p.left.self_hash ≡ q.left.self_hash) × (p.right.self_hash ≡ q.right.self_hash))
            ⊎ Collision sha
      tops t =
          elim (climb-injective 0 p.left.self_hash q.left.self_hash (p.left ∷ p.lefts)
            (q.left ∷ q.lefts) lp lq lefts t.0) [
              | inl left ↦
                  elim (climb-injective 8 p.right.self_hash q.right.self_hash (p.right ∷ p.rights)
                    (q.right ∷ q.rights) rp rq rights t.1) [
                      | inl right ↦ inl (left, right)
                      | inr clash ↦ inr clash
                    ]
              | inr clash ↦ inr clash
            ]

      below :
          twig_top sha p ≡ twig_top sha q
          → ((p.left.self_hash ≡ q.left.self_hash) × (p.right.self_hash ≡ q.right.self_hash))
            ⊎ Collision sha
      below twigs =
          elim (hash2-injective 11 (left_top sha p) (left_top sha q) (right_top sha p)
            (right_top sha q)
            (length-climb 0 _ (p.left ∷ p.lefts) lp ∙ sym (length-climb 0 _ (q.left ∷ q.lefts) lq))
            twigs) [ inl same ↦ tops same | inr clash ↦ inr clash ]
