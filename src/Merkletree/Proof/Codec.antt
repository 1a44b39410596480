-- ===== src/Merkletree/Proof/Codec.antt =====
-- `to_bytes`, `bytes_to_proof_path` and `check_proof` of qmdb/src/merkletree/proof.rs. Byte strings
-- are shorter than 2^31 * 32. The subtractions wrap around as in a release build: the count of upper
-- nodes of a short string is then negative, and the result is the error.
pub mod Roundtrip
use qmdb.Common.{
  ℕ, zero, suc, ◌+◌, ◌-◌, ◌/◌, ◌%◌, ◌^◌, List, [], ◌∷◌, ◌++◌, Bool, true, false, not, ◌||◌, length,
  take, drop, ltb, ◌==◌, if◌then◌else◌, bit_and,
}
use qmdb.Common.Bytes.{to_le_bytes}
use qmdb.Def.{first_level_above_twig}
use qmdb.Extern.Sha2.{Sha256}
use qmdb.Extern.Byteorder.{ByteOrder}
use qmdb.Utils.Hasher.{Hash32, zero_hash32}
use qmdb.Merkletree.Proof.{ProofNode, ProofPath, Result, ok, err, invalid_length, ◌>>=◌, check}

abbrev pub other_node_count : ℕ
other_node_count = 1 + 11 + 1 + 3 + 1

-- The own hash of the first node; the arrays are never empty.
abbrev pub first_hash : List ProofNode → Hash32
first_hash [] = []
first_hash (n ∷ ns) = n.self_hash

abbrev pub peers : List ProofNode → List ℕ
peers [] = []
peers (n ∷ ns) = n.peer_hash ++ peers ns

pub to_bytes : ProofPath → List ℕ
to_bytes p =
    to_le_bytes 8 p.serial_num
    ++ (first_hash p.left_of_twig
        ++ (peers p.left_of_twig
            ++ (first_hash p.right_of_twig
                ++ (peers p.right_of_twig ++ (peers p.upper_path ++ p.root)))))

-- Bit `shift` of the serial number.
abbrev pub side_of : ℕ → ℕ → Bool
side_of serial_num shift = bit_and (serial_num / 2 ^ (shift % 64)) 1 == 1

-- `count` nodes from the front of the bytes, and what follows them.
pub read_nodes : ℕ → ℕ → ℕ → List ℕ → List ProofNode × List ℕ
read_nodes zero shift serial_num bz = ([], bz)
read_nodes (suc count) shift serial_num bz =
    let (nodes, rest) = read_nodes count (shift + 1) serial_num (drop 32 bz) in
    let node : ProofNode = record {
      self_hash = zero_hash32;
      peer_hash = take 32 bz;
      peer_at_left = side_of serial_num shift;
    } in
    (node ∷ nodes, rest)

abbrev pub with_first : Hash32 → List ProofNode → List ProofNode
with_first h [] = []
with_first h (n ∷ ns) = record n { self_hash = h } ∷ ns

module _ (bo : ByteOrder) where
  -- The fields of a byte string of the right length, in order.
  pub read_path : ℕ → List ℕ → ProofPath
  read_path upper_count bz =
      let serial_num = bo.read_le (take 8 bz) in
      let b0 = drop 8 bz in
      let (left, b1) = read_nodes 11 0 serial_num (drop 32 b0) in
      let (right, b2) = read_nodes 3 8 serial_num (drop 32 b1) in
      let (upper, b3) = read_nodes upper_count (first_level_above_twig - 2) serial_num b2 in
      record {
        left_of_twig = with_first (take 32 b0) left;
        right_of_twig = with_first (take 32 b1) right;
        upper_path = upper;
        serial_num = serial_num;
        root = take 32 b3;
      }

  pub bytes_to_proof_path : List ℕ → Result ProofPath
  bytes_to_proof_path bz =
      let n = length bz - 8 in
      if ltb (length bz) 8 || (not (n % 32 == 0) || ltb (n / 32) other_node_count)
      then err (invalid_length (length bz))
      else ok (read_path (n / 32 - other_node_count) bz)

  pub check_proof : Sha256 → ProofPath → Result (List ℕ)
  check_proof sha path = do
    _ ← check sha path false
    let bz = to_bytes path
    path2 ← bytes_to_proof_path bz
    _ ← check sha path2 true
    ok bz
