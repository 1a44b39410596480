-- ===== src/Utils/Hasher.antt =====
-- qmdb/src/utils/hasher.rs: the hashes of leaves and inner nodes.
use qmdb.Common.{ℕ, List, ◌∷◌, ◌++◌, Bool, replicate, if◌then◌else◌}
use qmdb.Extern.Sha2.{Sha256}

abbrev pub Hash32 : Type 0
Hash32 = List ℕ

abbrev pub zero_hash32 : Hash32
zero_hash32 = replicate 32 0

module _ (sha : Sha256) where
  unfoldable pub hash : List ℕ → Hash32
  hash a = sha.digest a

  unfoldable pub hash1 : ℕ → List ℕ → Hash32
  hash1 level a = sha.digest (level ∷ a)

  unfoldable pub hash2 : ℕ → List ℕ → List ℕ → Hash32
  hash2 children_level a b = sha.digest (children_level ∷ a ++ b)

  unfoldable pub hash2x : ℕ → List ℕ → List ℕ → Bool → Hash32
  hash2x children_level a b exchange_ab =
      if exchange_ab then hash2 children_level b a else hash2 children_level a b

  -- What the target, a 32-byte array, holds afterwards.
  unfoldable pub node_hash_inplace : ℕ → List ℕ → List ℕ → Hash32
  node_hash_inplace children_level src_a src_b = sha.digest (children_level ∷ src_a ++ src_b)
