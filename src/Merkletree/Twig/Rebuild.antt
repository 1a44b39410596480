-- ===== src/Merkletree/Twig/Rebuild.antt =====
-- `sync_mtree` of qmdb/src/merkletree/twig.rs: its levels, and the hash tree as a function of the
-- leaves.
use native.Mathlib.Nat.{pow-suc, one-le-pow}
use qmdb.Common.{
  ℕ, zero, suc, ◌+◌, ◌*◌, ◌/◌, ◌%◌, ◌^◌, ◌<◌, ◌≤◌, ◌≡◌, ◌⊎◌, inl, inr, refl, List, true, Option,
  some, length, leb, ◌==◌, if◌then◌else◌, arith, Bool-cases, ◌∙◌, ap₂, sym, ap,
}
use qmdb.Extern.Sha2.{Sha256}
use qmdb.Utils.Hasher.{Hash32, node_hash_inplace, hash2}
use qmdb.Merkletree.Twig.{sync_pairs, sync_levels, sync_mtree}
use qmdb.Merkletree.Twig.Sync.{node_at, paired, Pairs, sync_pairs-Pairs}

pow-le-pow : (a b : ℕ) → a ≤ b → 2 ^ a ≤ 2 ^ b
pow-le-pow a zero h = let e : a ≡ 0 = omega arith in rw e (omega arith)
pow-le-pow a (suc b) h = elim (Bool-cases (a == suc b)) [
  | inl e ↦ let same : a ≡ suc b = ground arith in rw same (omega arith)
  | inr e ↦ omega (arith, pow-suc 2 b, pow-le-pow a b (ground arith))
]

module _ (sha : Sha256) where
  -- Node `m` at a level over the given leaves.
  unfoldable pub merkle : (ℕ → Hash32) → ℕ → ℕ → Hash32
  merkle leaf zero m = leaf m
  merkle leaf (suc level) m =
      hash2 sha level (merkle leaf level (2 * m)) (merkle leaf level (2 * m + 1))

  pub merkle-next :
      (leaf : ℕ → Hash32) (level m : ℕ)
      → merkle leaf (level + 1) m
        ≡ node_hash_inplace sha level (merkle leaf level (2 * m)) (merkle leaf level (2 * m + 1))
  unfolding merkle hash2 node_hash_inplace
  merkle-next leaf level m = let e : level + 1 ≡ suc level = omega arith in rw e refl

  -- The row of `2 ^ p` nodes, which starts at index `2 ^ p`.
  abbrev pub Row : List Hash32 → ℕ → (ℕ → Hash32) → ℕ → Type 0
  Row mtree p leaf level = (m : ℕ) → m < 2 ^ p → node_at mtree (2 ^ p + m) ≡ merkle leaf level m

  pub merkle-step :
      (leaf : ℕ → Hash32) (level m : ℕ)
      → merkle leaf (level + 1) m
        ≡ hash2 sha level (merkle leaf level (2 * m)) (merkle leaf level (2 * m + 1))
  unfolding merkle
  merkle-step leaf level m = let e : level + 1 ≡ suc level = omega arith in rw e refl

  abbrev pub SameOutside : ℕ → ℕ → ℕ → (ℕ → Hash32) → (ℕ → Hash32) → Type 0
  SameOutside level start end old new =
      (m : ℕ) → (m < start) ⊎ (end < m) → merkle old level m ≡ merkle new level m

  module _ (old new : ℕ → Hash32) where
    same_above :
        (level start end : ℕ)
        → SameOutside level start end old new
        → SameOutside (level + 1) (start / 2) (end / 2) old new
    same_above level start end same m outside =
        merkle-next old level m
        ∙ ap₂ (node_hash_inplace sha level) (same (2 * m) (omega arith))
            (same (2 * m + 1) (omega arith))
        ∙ sym (merkle-next new level m)

    -- One level: the row above is that of the new leaves, higher rows stay.
    record Level (k level : ℕ) (mtree out : List Hash32) : Type 0 where
      size : length out ≡ length mtree
      row : Row out k new (level + 1)
      below : (i : ℕ) → 2 ^ suc k ≤ i → node_at out i ≡ node_at mtree i
      above : (i : ℕ) → i < 2 ^ k → node_at out i ≡ node_at mtree i

    pairs-Level :
        (k level start end : ℕ) (mtree out : List Hash32)
        → SameOutside level start end old new
        → Row mtree (suc k) new level
        → Row mtree k old (level + 1)
        → length out ≡ length mtree
        → ((i : ℕ)
            → node_at out i
              ≡ paired sha level
                  (2 ^ suc k)
                  (if end % 2 == 1 then end + 1 else end)
                  (start / 2 * 2)
                  mtree
                  i)
        → Level k level mtree out
    pairs-Level k level start end mtree out same row row_above size nodes = record {
      size = size;
      row = λ m h.
          let left : 2 * (2 ^ k + m) ≡ 2 ^ suc k + 2 * m = omega (arith, pow-suc 2 k) in
          let right : 2 * (2 ^ k + m) + 1 ≡ 2 ^ suc k + (2 * m + 1) = omega (arith, pow-suc 2 k) in
          let left_node = ap (node_at mtree) left ∙ row (2 * m) (omega (arith, pow-suc 2 k)) in
          let right_node =
            ap (node_at mtree) right ∙ row (2 * m + 1) (omega (arith, pow-suc 2 k)) in
          ground (
            arith,
            nodes (2 ^ k + m),
            pow-suc 2 k,
            left_node,
            right_node,
            row_above m h,
            merkle-next new level m,
            same_above level start end same m,
          );
      below = λ i h. ground (arith, nodes i);
      above = λ i h. ground (arith, nodes i, pow-suc 2 k);
    }

    abbrev Rows : List Hash32 → (ℕ → Hash32) → ℕ → ℕ → Type 0
    Rows mtree leaf k height = (p level : ℕ) → p < k → level + p ≡ height → Row mtree p leaf level

    pub record Synced (k level : ℕ) (mtree : List Hash32) (r : Option (List Hash32)) : Type 0 where
      pub out : List Hash32
      pub returns : r ≡ some out
      pub size : length out ≡ length mtree
      pub rows : Rows out new (suc k) (level + k)
      pub below : (i : ℕ) → 2 ^ k ≤ i → node_at out i ≡ node_at mtree i

    -- At the top row.
    top-Row :
        (mtree out : List Hash32) (k level : ℕ)
        → Row mtree k new level
        → ((i : ℕ) → 2 ^ k ≤ i → node_at out i ≡ node_at mtree i)
        → (p lev : ℕ) → p ≡ k
        → lev + p ≡ level + k
        → Row out p new lev
    top-Row mtree out k level row below p lev e h m hm =
        let same : lev ≡ level = omega arith in
        rw (e, same) (below (2 ^ k + m) (omega arith) ∙ row m (rw (← e) hm))

    Synced-step :
        (k level : ℕ) (mtree mid : List Hash32) (r r' : Option (List Hash32))
        → Row mtree (suc k) new level
        → Level k level mtree mid
        → Synced k (level + 1) mid r
        → r' ≡ r
        → Synced (suc k) level mtree r'
    Synced-step k level mtree mid r r' row one rest e = record {
      out = rest.out;
      returns = e ∙ rest.returns;
      size = rest.size ∙ one.size;
      rows = λ p lev h sum. elim (Bool-cases (p == suc k)) [
        | inl top ↦ top-Row mtree rest.out (suc k) level row below p lev (ground arith) sum
        | inr other ↦ rest.rows p lev (ground arith) (omega arith)
      ];
      below = below;
    }
      where
        below : (i : ℕ) → 2 ^ suc k ≤ i → node_at rest.out i ≡ node_at mtree i
        below i h = rest.below i (omega (arith, pow-suc 2 k)) ∙ one.below i h

    old-Rows :
        (k level : ℕ) (mtree mid : List Hash32)
        → Level k level mtree mid
        → Rows mtree old (suc k) (level + suc k)
        → Rows mid old k (level + 1 + k)
    old-Rows k level mtree mid one rows p lev h sum m hm =
        one.above (2 ^ p + m) (omega (arith, pow_mono p k h, pow-suc 2 p))
        ∙ rows p lev (omega arith) (omega arith) m hm
      where
        pow_mono : (a b : ℕ) → a < b → 2 ^ suc a ≤ 2 ^ b
        pow_mono a b g = pow-le-pow (suc a) b g

    module _ (k fuel level start end : ℕ) (mtree : List Hash32) where
      abbrev end_round : ℕ
      end_round = if end % 2 == 1 then end + 1 else end

      -- A round of the outer loop, given the rounds after it.
      levels_step :
          (r : Option (List Hash32))
          → r ≡ sync_pairs sha (2 ^ suc k) level (2 ^ suc k) end_round (start / 2 * 2) mtree
          → Pairs sha level (2 ^ suc k) end_round (start / 2 * 2) mtree r
          → SameOutside level start end old new
          → Row mtree (suc k) new level
          → Rows mtree old (suc k) (level + suc k)
          → ((mid : List Hash32)
              → Level k level mtree mid
              → Synced k
                  (level + 1)
                  mid
                  (sync_levels sha fuel (level + 1) (2 ^ k) (start / 2) (end / 2) mid))
          → Synced
              (suc k)
              level
              mtree
              (sync_levels sha (suc fuel) level (2 ^ suc k) start end mtree)
      levels_step r e pairs same row rows next =
          Synced-step k level mtree pairs.out _ _ row one (next pairs.out one) runs
        where
          one : Level k level mtree pairs.out
          one =
              pairs-Level k level start end mtree pairs.out same row
                (rows k (level + 1) (omega arith) (omega arith)) pairs.size pairs.nodes

          runs :
              sync_levels sha (suc fuel) level (2 ^ suc k) start end mtree
              ≡ sync_levels sha fuel (level + 1) (2 ^ k) (start / 2) (end / 2) pairs.out
          runs =
              let test : leb 2 (2 ^ suc k) ≡ true = ground (arith, pow-suc 2 k, one-le-pow k 2) in
              let half : 2 ^ suc k / 2 ≡ 2 ^ k = omega (arith, pow-suc 2 k) in
              unfold sync_levels in rw (test, sync_levels, sym e ∙ pairs.returns, half) refl

    pub sync_levels-Synced :
        (k fuel level start end : ℕ) (mtree : List Hash32)
        → k < fuel
        → start < 2 ^ k
        → SameOutside level start end old new
        → Row mtree k new level
        → Rows mtree old k (level + k)
        → 2 * 2 ^ k ≤ length mtree
        → Synced k level mtree (sync_levels sha fuel level (2 ^ k) start end mtree)
    unfolding sync_levels
    sync_levels-Synced k zero level start end mtree lt hs same row rows size = absurd (omega arith)
    sync_levels-Synced zero (suc fuel) level start end mtree lt hs same row rows size = record {
      out = mtree;
      returns = refl;
      size = refl;
      rows = λ p lev h sum. top-Row mtree mtree 0 level row (λ i _. refl) p lev (omega arith) sum;
      below = λ i h. refl;
    }
    sync_levels-Synced (suc k) (suc fuel) level start end mtree lt hs same row rows size =
        levels_step k fuel level start end mtree _ refl
          (sync_pairs-Pairs sha (2 ^ suc k) level (2 ^ suc k)
            (if end % 2 == 1 then end + 1 else end) (start / 2 * 2) mtree
            (omega (arith, pow-suc 2 k)) (omega arith) (omega arith)
            (omega (arith, one-le-pow (suc k) 2)) size)
          same row rows
          (λ mid one.
            sync_levels-Synced k fuel (level + 1) (start / 2) (end / 2) mid (omega arith)
              (omega (arith, pow-suc 2 k)) (same_above level start end same) one.row
              (old-Rows k level mtree mid one rows) (omega (arith, pow-suc 2 k, one.size)))

-- The whole tree of a twig: row `p` of the array is the hash tree's, for every level.
abbrev pub IsTree : Sha256 → List Hash32 → (ℕ → Hash32) → Type 0
IsTree sha mtree leaf = (p level : ℕ) → p < 12 → level + p ≡ 11 → Row sha mtree p leaf level

-- After the leaves from `start` to `end` of a tree were overwritten, `sync_mtree` returns, and the
-- array is then the hash tree of the new leaves at every level.
pub sync_mtree-IsTree :
    (sha : Sha256) (mtree : List Hash32) (start end : ℕ) (old new : ℕ → Hash32)
    → length mtree ≡ 4096
    → start < 2048
    → ((m : ℕ) → (m < start) ⊎ (end < m) → old m ≡ new m)
    → ((m : ℕ) → m < 2048 → node_at mtree (2048 + m) ≡ new m)
    → ((p level : ℕ) → p < 11 → level + p ≡ 11 → Row sha mtree p old level)
    → (out : List Hash32) × (sync_mtree sha mtree start end ≡ some out)
      × (length out ≡ 4096)
      × IsTree sha out new
unfolding sync_mtree merkle
sync_mtree-IsTree sha mtree start end old new size hs same leaves rows =
    let r =
      sync_levels-Synced sha old new 11 12 0 start end mtree (omega arith) hs same leaves rows
        (omega arith) in
    (r.out, r.returns, r.size ∙ size, r.rows)
