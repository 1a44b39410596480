-- ===== src/Tests/Data.antt =====
-- The inputs that the tests of qmdb/src and hpfile/src share.
use qmdb.Common.{ℕ, ◌≡◌, refl, zero, suc, [], ◌∷◌, Bool, true, false, replicate, get_or-replicate}
use qmdb.Extern.Sha2.{Sha256}
use qmdb.Utils.Hasher.{Hash32, zero_hash32, hash2}
use qmdb.Merkletree.Proof.{ProofNode}
use qmdb.Merkletree.Proof.Check.{Parts}
use qmdb.Merkletree.Twig.Sync.{node_at}
use qmdb.Merkletree.Twig.Rebuild.{merkle}

-- One digest for everything: not a hash, but it meets the interface.
abbrev pub zero_sha : Sha256
zero_sha = record { digest = λ bz. replicate 32 0; length-digest = λ bz. refl }

abbrev pub node : Bool → ProofNode
node at_left = record { self_hash = zero_hash32; peer_hash = zero_hash32; peer_at_left = at_left }

-- A path for serial number `sn` whose nodes all have their peer on the right, but for the first.
abbrev pub parts : Hash32 → Parts
parts leaf = record {
  left = record { self_hash = leaf; peer_hash = zero_hash32; peer_at_left = true };
  lefts = replicate 10 (node false);
  right = node false;
  rights = replicate 2 (node false);
  upper = node false;
  uppers = node false ∷ [];
  sn = 1;
  root_hash = zero_hash32;
}

abbrev pub zero_row : ℕ → Hash32
zero_row m = zero_hash32

pub merkle-zero : (level m : ℕ) → merkle zero_sha zero_row level m ≡ zero_hash32
unfolding merkle hash2
merkle-zero zero m = refl
merkle-zero (suc level) m = refl

pub zero_node : (n i : ℕ) → node_at (replicate n zero_hash32) i ≡ zero_hash32
zero_node n i = get_or-replicate n i zero_hash32
