-- ===== src/Merkletree/Proof/Paths/Linked.antt =====
-- qmdb/src/merkletree/proof.rs: the paths taken from a twig in agreement with its leaves and bits.
use native.Mathlib.Nat.{
  pow-suc, one-le-pow, div-eq_of_eq-mul_left, div-lt_iff_lt-mul, div-div-eq-div-mul,
}
use qmdb.Common.{
  ℕ, zero, suc, ◌+◌, ◌*◌, ◌/◌, ◌%◌, ◌^◌, ◌<◌, ◌≡◌, refl, ap, ◌∙◌, sym, subst, List, [], ◌∷◌, Option,
  some, ◌==◌, bit_and, bit_xor, arith, Bool-cases, inl, inr,
}
use qmdb.Common.Bits.{bit_xor-one, bit_and-low}
use qmdb.Def.{twig_mask}
use qmdb.Extern.Sha2.{Sha256}
use qmdb.Utils.Hasher.{Hash32, hash2, hash2x}
use qmdb.Merkletree.Twig.Rebuild.{merkle, merkle-step}
use qmdb.Merkletree.Proof.{ProofNode}
use qmdb.Merkletree.Proof.Chain.{up, climb, Linked}
use qmdb.Merkletree.Proof.Paths.{sibling_node, left_nodes, get_left_path}

-- The node of place `id` in a row of hashes `f`.
abbrev pub at_place : (ℕ → Hash32) → ℕ → ProofNode
at_place f id = record {
  self_hash = f id;
  peer_hash = f (bit_xor id 1);
  peer_at_left = bit_and (bit_xor id 1) 1 == 0;
}

pub sibling_node-at_place :
    (get_hash : ℕ → Option Hash32) (f : ℕ → Hash32) (id bound : ℕ)
    → id < bound
    → bound % 2 ≡ 0
    → ((k : ℕ) → k < bound → get_hash k ≡ some (f k))
    → sibling_node get_hash id ≡ some (at_place f id)
unfolding sibling_node
sibling_node-at_place get_hash f id bound lt even fetch =
    rw (fetch id lt, fetch (bit_xor id 1) (ground (arith, bit_xor-one id))) refl

pow_add : (a b : ℕ) → 2 ^ (a + b) ≡ 2 ^ a * 2 ^ b
pow_add zero b = let e : 0 + b ≡ b = omega arith in rw e (omega arith)
pow_add (suc a) b =
    let e : suc a + b ≡ suc (a + b) = omega arith in
    rw e (grind (arith, pow_add a b, pow-suc 2 (a + b), pow-suc 2 a))

-- The strides of the rows.
stride : (level p : ℕ) → level + p ≡ 11 → 2048 / 2 ^ level ≡ 2 ^ p
stride level p e =
    div-eq_of_eq-mul_left (one-le-pow level 2 (omega arith)) (rw (← pow_add p level, sum) refl)
  where
    sum : p + level ≡ 11
    sum = omega arith

place-lt : (level p n : ℕ) → level + p ≡ 11 → n < 2048 → n / 2 ^ level < 2 ^ p
place-lt level p n e h =
    (div-lt_iff_lt-mul (one-le-pow level 2 (omega arith))).1 (rw (← pow_add p level, eq) h)
  where
    eq : p + level ≡ 11
    eq = omega arith

next_place : (level n : ℕ) → n / 2 ^ level / 2 ≡ n / 2 ^ (level + 1)
next_place level n = div-div-eq-div-mul n (2 ^ level) 2 ∙ ap (λ (k : ℕ). n / k) double
  where
    double : 2 ^ level * 2 ≡ 2 ^ (level + 1)
    double = let e : level + 1 ≡ suc level = omega arith in rw e (omega (arith, pow-suc 2 level))

module _ (sha : Sha256) where
  -- One step up from a place joins its hash with its sibling's in the right order.
  pub up-at_place :
      (level : ℕ) (f : ℕ → Hash32) (id : ℕ)
      → level < 256
      → up sha level (f id) (at_place f id)
        ≡ hash2 sha level (f (2 * (id / 2))) (f (2 * (id / 2) + 1))
  unfolding hash2x
  up-at_place level f id h = elim (Bool-cases (id % 2 == 0)) [
    | inl even ↦
        let peer : bit_xor id 1 ≡ 2 * (id / 2) + 1 = ground (arith, bit_xor-one id) in
        let self : id ≡ 2 * (id / 2) = ground arith in
        ground (arith, bit_and-low 1 (bit_xor id 1), ap f peer, ap f self, small)
    | inr odd ↦
        let peer : bit_xor id 1 ≡ 2 * (id / 2) = ground (arith, bit_xor-one id) in
        let self : id ≡ 2 * (id / 2) + 1 = ground arith in
        ground (arith, bit_and-low 1 (bit_xor id 1), ap f peer, ap f self, small)
  ]
    where
      small : level % 2 ^ 8 ≡ level
      small = omega arith

  -- The path of a leaf: its own hash, linked up to the root of the rows.
  abbrev pub LeadsUp : ℕ → Hash32 → Hash32 → Option (List ProofNode) → Type 0
  LeadsUp level h top r =
      (first : ProofNode) × (rest : List ProofNode) × (r ≡ some (first ∷ rest))
      × Linked sha level h (first ∷ rest)
      × (climb sha level h (first ∷ rest) ≡ top)

  -- The left path over the rows of a hash tree.
  module _ (leaf : ℕ → Hash32) (get_hash : ℕ → Option Hash32) where
    abbrev pub Fetches : Type 0
    Fetches =
        (p level m : ℕ)
        → p < 12
        → level + p ≡ 11
        → m < 2 ^ p
        → get_hash (2 ^ p + m) ≡ some (merkle sha leaf level m)

    -- The nodes from a level on.
    abbrev places : ℕ → ℕ → ℕ → List ProofNode
    places zero level n = []
    places (suc count) level n =
        at_place (merkle sha leaf level) (n / 2 ^ level) ∷ places count (level + 1) n

    left_nodes-places :
        Fetches
        → (count level n : ℕ) → level + count ≡ 11
        → n < 2048
        → left_nodes get_hash count level n ≡ some (places count level n)
    unfolding left_nodes
    left_nodes-places fetch zero level n e h = refl
    left_nodes-places fetch (suc count) level n e h =
        let node =
          sibling_node-at_place (λ id. get_hash (2048 / 2 ^ level + id)) (merkle sha leaf level)
            (n / 2 ^ level) (2 ^ suc count) (place-lt level (suc count) n e h)
            (omega (arith, pow-suc 2 count))
            (λ k hk.
              ap (λ (s : ℕ). get_hash (s + k)) (stride level (suc count) e)
              ∙ fetch (suc count) level k (omega arith) e hk) in
        rw (node, left_nodes-places fetch count (level + 1) n (omega arith) h) refl

    places-Linked :
        (count level n : ℕ)
        → level + count ≡ 11
        → n < 2048
        → Linked sha level (merkle sha leaf level (n / 2 ^ level)) (places count level n)
          × (climb sha level (merkle sha leaf level (n / 2 ^ level)) (places count level n)
              ≡ merkle sha leaf 11 0)
    places-Linked zero level n e h =
        (tt, let top : level ≡ 11 = omega arith in rw top (ap (merkle sha leaf 11) (omega arith)))
    places-Linked (suc count) level n e h =
        let rest = places-Linked count (level + 1) n (omega arith) h in
        let place = next_place level n in
        let next : up sha level (merkle sha leaf level (n / 2 ^ level))
              (at_place (merkle sha leaf level) (n / 2 ^ level))
            ≡ merkle sha leaf (level + 1) (n / 2 ^ (level + 1)) =
          up-at_place level (merkle sha leaf level) (n / 2 ^ level) (omega arith)
          ∙ sym (merkle-step sha leaf level (n / 2 ^ level / 2))
          ∙ ap (merkle sha leaf (level + 1)) place in
        let above = places count (level + 1) n in
        (
          (refl, subst (λ x. Linked sha (level + 1) x above) (sym next) rest.0),
          ap (λ x. climb sha (level + 1) x above) next ∙ rest.1,
        )

    pub get_left_path-LeadsUp :
        (sn : ℕ)
        → Fetches
        → LeadsUp 0 (leaf (sn % 2048)) (merkle sha leaf 11 0) (get_left_path sn get_hash)
    unfolding get_left_path merkle
    get_left_path-LeadsUp sn fetch =
        let n : bit_and sn twig_mask ≡ sn % 2048 = bit_and-low 11 sn in
        let small : sn % 2048 < 2048 = omega arith in
        let whole : sn % 2048 / 2 ^ 0 ≡ sn % 2048 = omega arith in
        let linked = places-Linked 11 0 (sn % 2048) (omega arith) small in
        let found : left_nodes get_hash 11 0 (bit_and sn twig_mask)
            ≡ some (places 11 0 (sn % 2048)) =
          rw n (left_nodes-places fetch 11 0 (sn % 2048) (omega arith) small) in
        let (below, top) =
          subst
            (λ k.
              Linked sha 0 (leaf k) (places 11 0 (sn % 2048))
              × (climb sha 0 (leaf k) (places 11 0 (sn % 2048)) ≡ merkle sha leaf 11 0))
            whole linked in
        (at_place leaf (sn % 2048 / 2 ^ 0), places 10 1 (sn % 2048), found, below, top)
