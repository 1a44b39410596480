-- ===== src/Extern/Sha2.antt =====
-- The crate `sha2`: the digest of a byte string. Bytes are numbers.
use qmdb.Common.{
  ℕ, ◌≡◌, List, length, take, replicate, ◌++◌, length-replicate, length-take, length-append, arith,
}

pub record Sha256 : Type 0 where
  pub digest : List ℕ → List ℕ
  pub length-digest : (bz : List ℕ) → length (digest bz) ≡ 32

-- The first bytes of the input, padded: not a hash, but it meets the interface.
abbrev pub prefix_digest : List ℕ → List ℕ
prefix_digest bz = take 32 (bz ++ replicate 32 0)

pub length-prefix_digest : (bz : List ℕ) → length (prefix_digest bz) ≡ 32
length-prefix_digest bz = omega (
  arith,
  length-take 32 (bz ++ replicate 32 0),
  length-append bz (replicate 32 0),
  length-replicate {A = ℕ} 32 0,
)

abbrev pub prefix_sha : Sha256
prefix_sha = record { digest = prefix_digest; length-digest = length-prefix_digest }
