-- ===== src/Merkletree/Twig/Sync.antt =====
-- `sync_mtree` of qmdb/src/merkletree/twig.rs against the hash tree computed from the leaves.
use qmdb.Common.{
  ℕ, zero, suc, ◌+◌, ◌*◌, ◌/◌, ◌%◌, ◌<◌, ◌≤◌, ◌≡◌, inl, inr, refl, List, true, ◌&&◌, Option, some,
  set, get_or, length, ltb, leb, ◌==◌, if◌then◌else◌, arith, get_elem?-eq-get_or, length-set,
  get_or-set_self, get_or-set_ne, Bool-cases, ◌∙◌,
}
use qmdb.Extern.Sha2.{Sha256}
use qmdb.Utils.Hasher.{Hash32, zero_hash32, node_hash_inplace}
use qmdb.Merkletree.Twig.{sync_pairs}

abbrev pub node_at : List Hash32 → ℕ → Hash32
node_at mtree i = get_or mtree i zero_hash32

module _ (sha : Sha256) where
  -- What the inner loop leaves at an index of the level above.
  abbrev pub paired : ℕ → ℕ → ℕ → ℕ → List Hash32 → ℕ → Hash32
  paired level base end_round j mtree i =
      if (leb (base + j) (2 * i) && leb (2 * i) (base + end_round)) && ltb i base
      then node_hash_inplace sha level (node_at mtree (2 * i)) (node_at mtree (2 * i + 1))
      else node_at mtree i

  pub record Pairs (level base end_round j : ℕ) (mtree : List Hash32) (r : Option (List Hash32))
      : Type 0 where
    pub out : List Hash32
    pub returns : r ≡ some out
    pub size : length out ≡ length mtree
    pub nodes : (i : ℕ) → node_at out i ≡ paired level base end_round j mtree i

  node_at-set :
      (mtree : List Hash32) (i k : ℕ) (v : Hash32)
      → i < length mtree
      → node_at (set mtree i v) k ≡ (if k == i then v else node_at mtree k)
  node_at-set mtree i k v h = elim (Bool-cases (k == i)) [
    | inl e ↦
        let same : k ≡ i = ground arith in rw (e, same) (get_or-set_self mtree i v zero_hash32 h)
    | inr e ↦ rw e (get_or-set_ne mtree i k v zero_hash32 (ground arith))
  ]

  -- One round of the inner loop, and the rounds after it.
  step_nodes :
      (level base end_round j i : ℕ) (mtree : List Hash32)
      → base % 2 ≡ 0
      → j % 2 ≡ 0
      → (base + j) / 2 < length mtree
      → (leb j end_round && ltb (j + 1) base) ≡ true
      → paired level base end_round
          (j + 2)
          (set mtree
            ((base + j) / 2)
            (node_hash_inplace sha level (node_at mtree (base + j)) (node_at mtree (base + j + 1))))
          i
        ≡ paired level base end_round j mtree i
  step_nodes level base end_round j i mtree hb hj at go =
      let node =
        node_hash_inplace sha level (node_at mtree (base + j)) (node_at mtree (base + j + 1)) in
      ground (
        arith,
        node_at-set mtree ((base + j) / 2) i node at,
        node_at-set mtree ((base + j) / 2) (2 * i) node at,
        node_at-set mtree ((base + j) / 2) (2 * i + 1) node at,
      )

  pub sync_pairs-Pairs :
      (fuel level base end_round j : ℕ) (mtree : List Hash32)
      → base % 2 ≡ 0
      → j % 2 ≡ 0
      → j ≤ base
      → base < j + 2 * fuel
      → 2 * base ≤ length mtree
      → Pairs level base end_round j mtree (sync_pairs sha fuel level base end_round j mtree)
  unfolding sync_pairs
  sync_pairs-Pairs zero level base end_round j mtree hb hj le enough size = absurd (omega arith)
  sync_pairs-Pairs (suc fuel) level base end_round j mtree hb hj le enough size =
      elim (Bool-cases (leb j end_round && ltb (j + 1) base)) [
        | inr stop ↦ record {
          out = mtree;
          returns = rw (stop, sync_pairs) refl;
          size = refl;
          nodes = λ i. ground arith;
        }
        | inl go ↦
            let in_range : j + 1 < base = ground arith in
            let at : (base + j) / 2 < length mtree = omega arith in
            let node =
              node_hash_inplace sha level (node_at mtree (base + j))
                (node_at mtree (base + j + 1)) in
            let mtree' : List Hash32 = set mtree ((base + j) / 2) node in
            let ih =
              sync_pairs-Pairs fuel level base end_round (j + 2) mtree' hb (omega arith)
                (omega arith) (omega arith) (rw length-set size) in
            record {
              out = ih.out;
              returns =
                  rw
                    (
                      go,
                      sync_pairs,
                      get_elem?-eq-get_or mtree (base + j) zero_hash32 (omega arith),
                      get_elem?-eq-get_or mtree (base + j + 1) zero_hash32 (omega arith),
                    )
                    ih.returns;
              size = ih.size ∙ length-set mtree ((base + j) / 2) node;
              nodes = λ i. ih.nodes i ∙ step_nodes level base end_round j i mtree hb hj at go;
            }
      ]
