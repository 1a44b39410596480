-- ===== src/Merkletree/Proof/Codec/Roundtrip.antt =====
-- qmdb/src/merkletree/proof.rs: a proof as bytes, and the proof that is read back from them.
use mathlib.Core.List.{append_assoc}
use qmdb.Common.{
  ℕ, suc, ◌+◌, ◌-◌, ◌*◌, ◌/◌, ◌^◌, ◌<◌, ◌≡◌, refl, ap, ap₂, ◌∙◌, List, [], ◌∷◌, ◌++◌, true, map,
  length, arith, length-append, take_prefix, drop_prefix, take_all,
}
use qmdb.Common.Bytes.{to_le_bytes, from_le_bytes-to_le_bytes, bytes_eq, bytes_eq_refl}
use qmdb.Extern.Sha2.{Sha256}
use qmdb.Extern.Byteorder.{ByteOrder}
use qmdb.Utils.Hasher.{hash2}
use qmdb.Merkletree.Proof.{ProofNode, ok, ◌>>=◌, check, node_hash}
use qmdb.Merkletree.Proof.Chain.{up, bare, climb, climb-bare, relink, relink-bare, relink_of_Linked}
use qmdb.Merkletree.Proof.Check.{
  Parts, path_of, IsConsistent, twig_top, tree_top, completed, check-true, check_iff,
}
use qmdb.Merkletree.Proof.Codec.{
  peers, to_bytes, side_of, read_nodes, read_path, bytes_to_proof_path, check_proof,
}

-- Peers of 32 bytes, each on the side that the serial number's bits say.
abbrev pub Sided : ℕ → ℕ → List ProofNode → Type 0
Sided serial_num shift [] = Unit {0}
Sided serial_num shift (n ∷ ns) =
    (length n.peer_hash ≡ 32)
    × (n.peer_at_left ≡ side_of serial_num shift)
    × Sided serial_num (shift + 1) ns

pub record IsWellFormed (p : Parts) : Type 0 where
  pub serial_fits : p.sn < 256 ^ 8
  pub left_size : length p.lefts ≡ 10
  pub right_size : length p.rights ≡ 2
  pub left_hash : length p.left.self_hash ≡ 32
  pub right_hash : length p.right.self_hash ≡ 32
  pub root_size : length p.root_hash ≡ 32
  pub left_sided : Sided p.sn 0 (p.left ∷ p.lefts)
  pub right_sided : Sided p.sn 8 (p.right ∷ p.rights)
  pub upper_sided : Sided p.sn 11 (p.upper ∷ p.uppers)

length-peers :
    (sn shift : ℕ) (ns : List ProofNode) → Sided sn shift ns → length (peers ns) ≡ 32 * length ns
length-peers sn shift [] s = refl
length-peers sn shift (n ∷ ns) s =
    omega (arith, length-append n.peer_hash (peers ns), length-peers sn (shift + 1) ns s.2, s.0)

read_nodes-peers :
    (ns : List ProofNode) (shift sn : ℕ) (rest : List ℕ)
    → Sided sn shift ns
    → read_nodes (length ns) shift sn (peers ns ++ rest) ≡ (map bare ns, rest)
unfolding read_nodes
read_nodes-peers [] shift sn rest s = refl
read_nodes-peers (n ∷ ns) shift sn rest s =
    rw
      (
        append_assoc n.peer_hash (peers ns) rest,
        take_prefix 32 n.peer_hash (peers ns ++ rest) s.0,
        drop_prefix 32 n.peer_hash (peers ns ++ rest) s.0,
        read_nodes-peers ns (shift + 1) sn rest s.2,
        s.1,
      )
      refl

read_exact :
    (count : ℕ) (ns : List ProofNode) (shift sn : ℕ) (rest : List ℕ)
    → length ns ≡ count
    → Sided sn shift ns
    → read_nodes count shift sn (peers ns ++ rest) ≡ (map bare ns, rest)
read_exact count ns shift sn rest e s = rw (← e) (read_nodes-peers ns shift sn rest s)

-- What the bytes keep of a path.
abbrev pub bared : Parts → Parts
bared p = record p {
  lefts = map bare p.lefts;
  rights = map bare p.rights;
  upper = bare p.upper;
  uppers = map bare p.uppers;
}

module _ (bo : ByteOrder) (p : Parts) (w : IsWellFormed p) where
  count : ℕ
  count = length (p.upper ∷ p.uppers)

  read_path-to_bytes : read_path bo count (to_bytes (path_of p)) ≡ path_of (bared p)
  unfolding read_path to_bytes count
  read_path-to_bytes =
      let e5 = peers (p.upper ∷ p.uppers) ++ p.root_hash in
      let e4 = peers (p.right ∷ p.rights) ++ e5 in
      let e3 = p.right.self_hash ++ e4 in
      let e2 = peers (p.left ∷ p.lefts) ++ e3 in
      let e1 = p.left.self_hash ++ e2 in
      let serial : bo.read_le (to_le_bytes 8 p.sn) ≡ p.sn =
        bo.read_le-bytes (to_le_bytes 8 p.sn) ∙ from_le_bytes-to_le_bytes 8 p.sn w.serial_fits in
      rw
        (
          take_prefix 8 (to_le_bytes 8 p.sn) e1 refl,
          drop_prefix 8 (to_le_bytes 8 p.sn) e1 refl,
          serial,
          take_prefix 32 p.left.self_hash e2 w.left_hash,
          drop_prefix 32 p.left.self_hash e2 w.left_hash,
          read_exact 11 (p.left ∷ p.lefts) 0 p.sn e3 (ap suc w.left_size) w.left_sided,
          take_prefix 32 p.right.self_hash e4 w.right_hash,
          drop_prefix 32 p.right.self_hash e4 w.right_hash,
          read_exact 3 (p.right ∷ p.rights) 8 p.sn e5 (ap suc w.right_size) w.right_sided,
          read_exact count (p.upper ∷ p.uppers) 11 p.sn p.root_hash refl w.upper_sided,
          take_all 32 p.root_hash (omega (arith, w.root_size)),
        )
        refl

  length-to_bytes : length (to_bytes (path_of p)) ≡ 8 + 32 * (17 + count)
  unfolding to_bytes count
  length-to_bytes =
      let e5 = peers (p.upper ∷ p.uppers) ++ p.root_hash in
      let e4 = peers (p.right ∷ p.rights) ++ e5 in
      let e3 = p.right.self_hash ++ e4 in
      let e2 = peers (p.left ∷ p.lefts) ++ e3 in
      let e1 = p.left.self_hash ++ e2 in
      omega (
        arith,
        length-append (to_le_bytes 8 p.sn) e1,
        length-append p.left.self_hash e2,
        length-append (peers (p.left ∷ p.lefts)) e3,
        length-append p.right.self_hash e4,
        length-append (peers (p.right ∷ p.rights)) e5,
        length-append (peers (p.upper ∷ p.uppers)) p.root_hash,
        length-peers p.sn 0 (p.left ∷ p.lefts) w.left_sided,
        length-peers p.sn 8 (p.right ∷ p.rights) w.right_sided,
        length-peers p.sn 11 (p.upper ∷ p.uppers) w.upper_sided,
        w.left_hash,
        w.right_hash,
        w.root_size,
        w.left_size,
        w.right_size,
      )

  -- Reading the bytes of a well-formed path gives the path without the hashes that a check can fill
  -- in. Well-formed: the peers, the two lowest own hashes and the root have 32 bytes, the serial
  -- number 64 bits, the two lower paths 11 and 3 nodes, the upper path at least one, and each peer
  -- stands at the side that its bit of the serial number says.
  pub bytes_to_proof_path-to_bytes :
      bytes_to_proof_path bo (to_bytes (path_of p)) ≡ ok (path_of (bared p))
  unfolding bytes_to_proof_path
  bytes_to_proof_path-to_bytes = ground (
    arith,
    length-to_bytes,
    read_path-to_bytes,
    ap (λ (k : ℕ). read_path bo k (to_bytes (path_of p))) counted,
  )
    where
      counted : (length (to_bytes (path_of p)) - 8) / 32 - 17 ≡ count
      counted = omega (arith, length-to_bytes)

  module _ (sha : Sha256) (v : IsConsistent sha p) where
    twigs : twig_top sha (bared p) ≡ twig_top sha p
    twigs =
        ap₂ (hash2 sha 11) (climb-bare sha 1 (node_hash sha 0 p.left) p.lefts)
          (climb-bare sha 9 (node_hash sha 8 p.right) p.rights)

    trees : tree_top sha (bared p) ≡ p.root_hash
    trees =
        climb-bare sha 13 _ p.uppers
        ∙ ap (λ h. climb sha 13 (up sha 12 h p.upper) p.uppers) twigs
        ∙ v.root_reached

    relinked : path_of (completed sha (bared p)) ≡ path_of p
    relinked =
        let lefts =
          relink-bare sha 1 (node_hash sha 0 p.left) p.lefts
          ∙ relink_of_Linked sha 1 _ p.lefts v.lefts_linked.1 in
        let rights =
          relink-bare sha 9 (node_hash sha 8 p.right) p.rights
          ∙ relink_of_Linked sha 9 _ p.rights v.rights_linked.1 in
        let upper = ap (λ h. record p.upper { self_hash = h }) (twigs ∙ v.uppers_linked.0) in
        let uppers =
          relink-bare sha 13 _ p.uppers
          ∙ ap (λ h. relink sha 13 (up sha 12 h p.upper) p.uppers) twigs
          ∙ relink_of_Linked sha 13 _ p.uppers v.uppers_linked.1 in
        λ i. record {
          left_of_twig = p.left ∷ lefts i;
          right_of_twig = p.right ∷ rights i;
          upper_path = upper i ∷ uppers i;
          serial_num = p.sn;
          root = p.root_hash;
        }

    check-bared : check sha (path_of (bared p)) true ≡ ok (path_of p)
    check-bared =
        let reached : bytes_eq (tree_top sha (bared p)) p.root_hash ≡ true =
          rw trees (bytes_eq_refl p.root_hash) in
        check-true sha (bared p) ∙ rw reached (ap ok relinked)

    -- A consistent path that is well-formed passes `check_proof`, double check included, which
    -- returns its bytes; and the path that is read back from them and completed is the one that was
    -- checked. Well-formed: the peers, the two lowest own hashes and the root have 32 bytes, the
    -- serial number 64 bits, the two lower paths 11 and 3 nodes, the upper path at least one, and
    -- each peer stands at the side that its bit of the serial number says.
    pub check_proof_lem :
        (check_proof bo sha (path_of p) ≡ ok (to_bytes (path_of p)))
        × ((bytes_to_proof_path bo (to_bytes (path_of p)) >>= λ q. check sha q true)
            ≡ ok (path_of p))
    unfolding check_proof
    check_proof_lem = (
      rw ((check_iff sha p).0 v, bytes_to_proof_path-to_bytes, check-bared) refl,
      rw (bytes_to_proof_path-to_bytes, check-bared) refl,
    )
