-- ===== src/Tests/Proofs.antt =====
-- Proof paths of qmdb/src/merkletree/proof.rs, checked, encoded and compared.
use qmdb.Common.{◌≡◌, ◌⊎◌, refl, ◌∷◌, true, false, replicate, arith, if◌then◌else◌}
use qmdb.Common.Bytes.{bytes_eq}
use qmdb.Extern.Byteorder.{plain_order}
use qmdb.Utils.Hasher.{Hash32, zero_hash32, hash2, hash2x}
use qmdb.Merkletree.Proof.{check, ok, err, root_mismatch, ◌>>=◌}
use qmdb.Merkletree.Proof.Check.{path_of, IsConsistent, check_iff, check-true, tree_top, completed}
use qmdb.Merkletree.Proof.Binding.{Collision, SameSides, check_binding}
use qmdb.Merkletree.Proof.Codec.{to_bytes, bytes_to_proof_path, check_proof}
use qmdb.Merkletree.Proof.Codec.Roundtrip.{
  IsWellFormed, bared, bytes_to_proof_path-to_bytes, check_proof_lem,
}
use qmdb.Tests.Data.{zero_sha, parts}

abbrev ones_hash : Hash32
ones_hash = replicate 32 1

consistent : (leaf : Hash32) → IsConsistent zero_sha (parts leaf)
unfolding hash2 hash2x
consistent leaf = record {
  lefts_linked =
      (refl, (refl, (refl, (refl, (refl, (refl, (refl, (refl, (refl, (refl, (refl, tt)))))))))));
  rights_linked = (refl, (refl, (refl, tt)));
  uppers_linked = (refl, (refl, tt));
  root_reached = refl;
}

well_formed : IsWellFormed (parts ones_hash)
well_formed = record {
  serial_fits = omega arith;
  left_size = refl;
  right_size = refl;
  left_hash = refl;
  right_hash = refl;
  root_size = refl;
  left_sided = (
    refl,
    refl,
    (
      refl,
      refl,
      (
        refl,
        refl,
        (
          refl,
          refl,
          (
            refl,
            refl,
            (refl, refl, (refl, refl, (refl, refl, (refl, refl, (refl, refl, (refl, refl, tt)))))),
          ),
        ),
      ),
    ),
  );
  right_sided = (refl, refl, (refl, refl, (refl, refl, tt)));
  upper_sided = (refl, refl, (refl, refl, tt));
}

check_iff_example :
    check zero_sha (path_of (parts ones_hash)) false ≡ ok (path_of (parts ones_hash))
check_iff_example = (check_iff zero_sha (parts ones_hash)).0 (consistent ones_hash)

check-true_example : check zero_sha (path_of (parts ones_hash)) true ≡ (
    if bytes_eq (tree_top zero_sha (parts ones_hash)) zero_hash32
    then ok (path_of (completed zero_sha (parts ones_hash)))
    else err root_mismatch)
check-true_example = check-true zero_sha (parts ones_hash)

same_left :
    SameSides
      ((parts ones_hash).left ∷ (parts ones_hash).lefts)
      ((parts zero_hash32).left ∷ (parts zero_hash32).lefts)
same_left = (
  refl,
  refl,
  refl,
  (
    refl,
    refl,
    refl,
    (
      refl,
      refl,
      refl,
      (
        refl,
        refl,
        refl,
        (
          refl,
          refl,
          refl,
          (
            refl,
            refl,
            refl,
            (
              refl,
              refl,
              refl,
              (refl, refl, refl, (refl, refl, refl, (refl, refl, refl, (refl, refl, refl, tt)))),
            ),
          ),
        ),
      ),
    ),
  ),
)

same_right :
    SameSides
      ((parts ones_hash).right ∷ (parts ones_hash).rights)
      ((parts zero_hash32).right ∷ (parts zero_hash32).rights)
same_right = (refl, refl, refl, (refl, refl, refl, (refl, refl, refl, tt)))

same_upper :
    SameSides
      ((parts ones_hash).upper ∷ (parts ones_hash).uppers)
      ((parts zero_hash32).upper ∷ (parts zero_hash32).uppers)
same_upper = (refl, refl, refl, (refl, refl, refl, tt))

check_binding_example :
    ((ones_hash ≡ zero_hash32) × (zero_hash32 ≡ zero_hash32)) ⊎ Collision zero_sha
check_binding_example =
    check_binding zero_sha (parts ones_hash) (parts zero_hash32) (path_of (parts ones_hash))
      (path_of (parts zero_hash32)) check_iff_ones check_iff_zeros refl refl refl refl refl
      same_left same_right same_upper
  where
    check_iff_ones :
        check zero_sha (path_of (parts ones_hash)) false ≡ ok (path_of (parts ones_hash))
    check_iff_ones = (check_iff zero_sha (parts ones_hash)).0 (consistent ones_hash)

    check_iff_zeros :
        check zero_sha (path_of (parts zero_hash32)) false ≡ ok (path_of (parts zero_hash32))
    check_iff_zeros = (check_iff zero_sha (parts zero_hash32)).0 (consistent zero_hash32)

bytes_to_proof_path-to_bytes_example :
    bytes_to_proof_path plain_order (to_bytes (path_of (parts ones_hash)))
    ≡ ok (path_of (bared (parts ones_hash)))
bytes_to_proof_path-to_bytes_example =
    bytes_to_proof_path-to_bytes plain_order (parts ones_hash) well_formed

check_proof_lem_example :
    (check_proof plain_order zero_sha (path_of (parts ones_hash))
      ≡ ok (to_bytes (path_of (parts ones_hash))))
    × ((bytes_to_proof_path plain_order (to_bytes (path_of (parts ones_hash))) >>= λ q.
          check zero_sha q true)
        ≡ ok (path_of (parts ones_hash)))
check_proof_lem_example =
    check_proof_lem plain_order (parts ones_hash) well_formed zero_sha (consistent ones_hash)
