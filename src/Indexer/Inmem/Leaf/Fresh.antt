-- ===== src/Indexer/Inmem/Leaf/Fresh.antt =====
-- The bytes that `create_leaf` and the split of `add_kv` of qmdb/src/indexer/inmem.rs write into a
-- new leaf.
use qmdb.Common.{
  ℕ, ◌+◌, ◌*◌, ◌%◌, ◌^◌, ◌<◌, ◌≤◌, ◌≡◌, refl, ap, sym, ◌∙◌, List, [], ◌∷◌, ◌++◌, some, length, take,
  drop, length-drop, length-take, take-append-drop, ◌>>=◌, >>=-then, arith,
}
use qmdb.Common.Bytes.{to_le_bytes, put, put-append}
use qmdb.Extern.Byteorder.{ByteOrder}
use qmdb.Indexer.Inmem.Leaf.{append, split_bytes}
use qmdb.Indexer.Inmem.Leaf.Shows.{Pair, pair_bytes, pairs_bytes, leaf_bytes, length-pairs_bytes}
use qmdb.Indexer.Inmem.Leaf.Writes.{put_part, write_pair}
use qmdb.Indexer.Inmem.Leaf.Laws.{append_lem}

module _ (bo : ByteOrder) (bz : List ℕ) (k v : ℕ) where
  -- One pair in an empty leaf.
  pub first_pair :
      14 ≤ length bz
      → (free : List ℕ) × (12 + length free + 2 ≡ length bz)
        × (put bz 0 (0 ∷ 0 ∷ []) ≡ some (leaf_bytes [] (drop 2 bz)))
        × (append bo (leaf_bytes [] (drop 2 bz)) k v ≡ some (leaf_bytes ((k, v) ∷ []) free))
  first_pair room =
      let rest = drop 2 bz in
      let size = length-drop 2 bz in
      let zeroed : put bz 0 (0 ∷ 0 ∷ []) ≡ some (leaf_bytes [] rest) =
        put-append [] bz (0 ∷ 0 ∷ []) 0 refl (omega (arith, room)) in
      (
        drop 12 rest,
        omega (arith, length-drop 12 rest, size),
        zeroed,
        append_lem bo [] k v rest (omega arith) (omega (arith, size, room)),
      )

  -- A pair in front of the others.
  pub moved_pairs :
      (after : List Pair)
      → length after + 1 < 2 ^ 16
      → 14 + length after * 12 ≤ length bz
      → (free : List ℕ) × (14 + length after * 12 + length free ≡ length bz)
        × (split_bytes bo bz (length after) k v (pairs_bytes after)
            ≡ some (leaf_bytes ((k, v) ∷ after) free))
  unfolding split_bytes
  moved_pairs after small room =
      let m = (1 + length after) % 2 ^ 16 in
      let front = to_le_bytes 2 m in
      let rest = drop 2 bz in
      let gap = take 12 rest in
      let behind = drop 12 rest in
      let moved = pairs_bytes after in
      let n = length moved in
      let count : m ≡ length ((k, v) ∷ after) = omega (arith, small) in
      let size = length-drop 2 bz in
      let size' = length-drop 12 rest in
      let free = drop n behind in
      let first : put bz 0 (bo.write_le 2 m) ≡ some (front ++ (gap ++ behind)) =
        ap (put bz 0) (bo.write_le-bytes 2 m)
        ∙ put-append [] bz front 0 refl (omega (arith, room))
        ∙ ap (λ t. some (front ++ t)) (sym (take-append-drop 12 rest)) in
      let wrote =
        write_pair bo front gap behind k v 2 refl
          (omega (arith, length-take 12 rest, size, room)) in
      let last : put (front ++ (pair_bytes (k, v) ++ behind)) 14 moved
          ≡ some (leaf_bytes ((k, v) ∷ after) free) =
        put_part (front ++ (pair_bytes (k, v) ++ behind)) (front ++ pair_bytes (k, v))
          (take n behind) free moved 14
          (ap (λ t. front ++ (pair_bytes (k, v) ++ t)) (sym (take-append-drop n behind))) refl
          (omega (arith, length-take n behind, length-pairs_bytes after, size, size', room))
        ∙ ap (λ (c : ℕ). some (to_le_bytes 2 c ++ (pair_bytes (k, v) ++ (moved ++ free)))) count in
      (
        free,
        omega (arith, length-drop n behind, length-pairs_bytes after, size, size', room),
        rw (first, ◌>>=◌)
            (>>=-then (put (front ++ (gap ++ behind)) 2 (bo.write_le 8 k))
                (λ (t : List ℕ). put t 8 (take 6 (to_le_bytes 8 v)))
                (λ (t : List ℕ). put t 14 moved) _ wrote
              ∙ last),
      )
