-- ===== src/Merkletree/RightTree/Laws.antt =====
-- `Twig` of qmdb/src/merkletree/twig.rs: its levels in agreement with the active bits.
use qmdb.Common.{
  ℕ, zero, suc, ◌+◌, ◌*◌, ◌-◌, ◌<◌, ◌≤◌, ◌≡◌, ◌≢◌, refl, List, [], ◌∷◌, Option, none, some, length,
  take, drop, get_elem?, get_or, set, arith, ap, sym, ◌>>=◌, get_or-set_self, get_or-set_ne,
  get_elem?-eq-get_or,
}
use qmdb.Extern.Sha2.{Sha256}
use qmdb.Utils.Hasher.{Hash32, zero_hash32, node_hash_inplace, hash2}
use qmdb.Merkletree.ActiveBits.{ActiveBits, get_bits}
use qmdb.Merkletree.RightTree.{Twig, hash_pages, hash_cells, sync_l1, sync_l2, sync_l3, sync_top}

-- Page `i` of 32 bytes.
abbrev pub page : ActiveBits → ℕ → Hash32
page ab i = take 32 (drop (i * 32) ab.bytes)

abbrev pub cell1 : Twig → ℕ → Hash32
cell1 t i = get_or t.active_bits_mtl1 i zero_hash32

abbrev pub cell2 : Twig → ℕ → Hash32
cell2 t i = get_or t.active_bits_mtl2 i zero_hash32

below_two : (P : ℕ → Type 0) → P 0 → P 1 → (i : ℕ) → i < 2 → P i
below_two P a b zero h = a
below_two P a b (suc zero) h = b
below_two P a b (suc (suc i)) h = absurd (omega arith)

module _ (sha : Sha256) where
  abbrev pub Level1 : Twig → ActiveBits → ℕ → Type 0
  Level1 t ab i = cell1 t i ≡ hash2 sha 8 (page ab (2 * i)) (page ab (2 * i + 1))

  abbrev pub Level2 : Twig → ℕ → Type 0
  Level2 t i = cell2 t i ≡ hash2 sha 9 (cell1 t (2 * i)) (cell1 t (2 * i + 1))

  abbrev pub Level3 : Twig → Type 0
  Level3 t = t.active_bits_mtl3 ≡ hash2 sha 10 (cell2 t 0) (cell2 t 1)

  abbrev pub Top : Twig → Type 0
  Top t = t.twig_root ≡ hash2 sha 11 t.left_root t.active_bits_mtl3

  -- What `sync_l1` does at a position.
  abbrev pub SyncsLevel1 : Twig → ActiveBits → ℕ → Option Twig → Type 0
  SyncsLevel1 t ab pos r =
      (t' : Twig) × (r ≡ some t')
      × Level1 t' ab pos
      × ((i : ℕ) → i ≢ pos → cell1 t' i ≡ cell1 t i)
      × (t'.active_bits_mtl2 ≡ t.active_bits_mtl2)

  pub get_bits-page :
      (ab : ActiveBits) (i : ℕ)
      → length ab.bytes ≡ 256
      → i < 8
      → get_bits ab i 32 ≡ some (page ab i)
  unfolding get_bits
  get_bits-page ab i h p =
      let width : (i + 1) * 32 - i * 32 ≡ 32 = omega arith in
      ground (arith, ap (λ (n : ℕ). take n (drop (i * 32) ab.bytes)) width)

  hash_pages_lem :
      (t : Twig) (ab : ActiveBits) (pos : ℕ)
      → length ab.bytes ≡ 256
      → length t.active_bits_mtl1 ≡ 4
      → pos < 4
      → SyncsLevel1 t ab pos (hash_pages sha t ab pos (2 * pos) (2 * pos + 1))
  unfolding hash_pages hash2 node_hash_inplace
  hash_pages_lem t ab pos h k p = (
    record t {
      active_bits_mtl1 =
          set t.active_bits_mtl1 pos
            (node_hash_inplace sha 8 (page ab (2 * pos)) (page ab (2 * pos + 1)));
    },
    rw (get_bits-page ab (2 * pos) h (omega arith), get_bits-page ab (2 * pos + 1) h (omega arith))
        refl,
    get_or-set_self t.active_bits_mtl1 pos _ zero_hash32 (omega arith),
    λ i ne. get_or-set_ne t.active_bits_mtl1 pos i _ zero_hash32 (λ e. ne (sym e)),
    refl,
  )

  -- `sync_l1` brings its cell up to date with the bits and leaves the others and the level above
  -- as they were; a position past the last cell panics.
  pub sync_l1_lem :
      (t : Twig) (ab : ActiveBits) (pos : ℕ)
      → length ab.bytes ≡ 256
      → length t.active_bits_mtl1 ≡ 4
      → (pos < 4 → SyncsLevel1 t ab pos (sync_l1 sha t pos ab))
        × (4 ≤ pos → sync_l1 sha t pos ab ≡ none)
  unfolding sync_l1
  sync_l1_lem t ab zero h k = (hash_pages_lem t ab 0 h k, λ p. absurd (omega arith))
  sync_l1_lem t ab (suc zero) h k = (hash_pages_lem t ab 1 h k, λ p. absurd (omega arith))
  sync_l1_lem t ab (suc (suc zero)) h k = (hash_pages_lem t ab 2 h k, λ p. absurd (omega arith))
  sync_l1_lem t ab (suc (suc (suc zero))) h k =
      (hash_pages_lem t ab 3 h k, λ p. absurd (omega arith))
  sync_l1_lem t ab (suc (suc (suc (suc pos)))) h k = (λ p. absurd (omega arith), λ p. refl)

  -- A twig whose hashes all agree with its active bits and its left root.
  pub record IsSynced (t : Twig) (ab : ActiveBits) : Type 0 where
    pub size1 : length t.active_bits_mtl1 ≡ 4
    pub size2 : length t.active_bits_mtl2 ≡ 2
    pub level1 : (i : ℕ) → i < 4 → Level1 t ab i
    pub level2 : (i : ℕ) → i < 2 → Level2 t i
    pub level3 : Level3 t
    pub top : Top t

  pub cells1 :
      (t : Twig) (i : ℕ)
      → length t.active_bits_mtl1 ≡ 4
      → i < 4
      → get_elem? t.active_bits_mtl1 i ≡ some (cell1 t i)
  cells1 t i h p = get_elem?-eq-get_or t.active_bits_mtl1 i zero_hash32 (omega arith)

  pub cells2 :
      (t : Twig) (i : ℕ)
      → length t.active_bits_mtl2 ≡ 2
      → i < 2
      → get_elem? t.active_bits_mtl2 i ≡ some (cell2 t i)
  cells2 t i h p = get_elem?-eq-get_or t.active_bits_mtl2 i zero_hash32 (omega arith)

  -- The twig after the levels above the cells have been brought up to date.
  abbrev finished : Twig → Twig
  finished t =
      let m2 =
        node_hash_inplace sha 9 (cell1 t 0) (cell1 t 1)
        ∷ node_hash_inplace sha 9 (cell1 t 2) (cell1 t 3)
        ∷ [] in
      let m3 = node_hash_inplace sha 10 (get_or m2 0 zero_hash32) (get_or m2 1 zero_hash32) in
      record t {
        active_bits_mtl2 = m2;
        active_bits_mtl3 = m3;
        twig_root = node_hash_inplace sha 11 t.left_root m3;
      }

  two_cells : (m : List Hash32) (a b : Hash32) → length m ≡ 2 → set (set m 0 a) 1 b ≡ a ∷ b ∷ []
  two_cells [] a b h = absurd (omega arith)
  two_cells (x ∷ []) a b h = absurd (omega arith)
  two_cells (x ∷ y ∷ []) a b h = refl
  two_cells (x ∷ y ∷ z ∷ m) a b h = absurd (omega arith)

  -- With the first level up to date, `sync_l2` at both cells, `sync_l3` and `sync_top` bring the
  -- whole twig into agreement with its active bits and its left root.
  pub sync_levels-IsSynced :
      (t : Twig) (ab : ActiveBits)
      → length t.active_bits_mtl1 ≡ 4
      → length t.active_bits_mtl2 ≡ 2
      → ((i : ℕ) → i < 4 → Level1 t ab i)
      → (t' : Twig) × ((do
        t1 ← sync_l2 sha t 0
        t2 ← sync_l2 sha t1 1
        t3 ← sync_l3 sha t2
        some (sync_top sha t3))
          ≡ some t')
        × IsSynced t' ab
        × (t'.left_root ≡ t.left_root)
  unfolding sync_l2 sync_l3 sync_top hash_cells
  sync_levels-IsSynced t ab h k cells = (
    finished t,
    ground (
      arith,
      cells1 t 0 h,
      cells1 t 1 h,
      cells1 t 2 h,
      cells1 t 3 h,
      two_cells t.active_bits_mtl2 (node_hash_inplace sha 9 (cell1 t 0) (cell1 t 1))
          (node_hash_inplace sha 9 (cell1 t 2) (cell1 t 3)) k,
    ),
    unfold hash2 node_hash_inplace in
        record {
          size1 = h;
          size2 = refl;
          level1 = cells;
          level2 = below_two (Level2 (finished t)) refl refl;
          level3 = refl;
          top = refl;
        },
    refl,
  )
