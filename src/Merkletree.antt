-- ===== src/Merkletree.antt =====
-- qmdb/src/merkletree: twigs of 2048 leaves, the tree above them, and proofs.
pub mod Twig
pub mod ActiveBits
pub mod RightTree
pub mod Proof
pub mod NullTree
