-- ===== src/Indexer/Inmem/Leaf/Laws.antt =====
-- `insert` and `remove` of a leaf of qmdb/src/indexer/inmem.rs against its list of pairs.
use mathlib.Core.List.{append_assoc, append-nil}
use qmdb.Common.{
  ℕ, ◌+◌, ◌-◌, ◌*◌, ◌%◌, ◌^◌, ◌<◌, ◌≤◌, ◌≡◌, ap, sym, ◌∙◌, List, [], ◌∷◌, ◌++◌, Option, some,
  length, take, drop, length-append, length-drop, length-take, take-append-drop, ◌>>=◌, >>=-then,
  arith,
}
use qmdb.Common.Bytes.{to_le_bytes, slice, slice_part, put}
use qmdb.Extern.Byteorder.{ByteOrder}
use qmdb.Indexer.Inmem.Leaf.{insert, append, remove}
use qmdb.Indexer.Inmem.Leaf.Shows.{
  Pair, pair_bytes, pairs_bytes, leaf_bytes, length-pairs_bytes, leaf_len_lem, around,
}
use qmdb.Indexer.Inmem.Leaf.Writes.{
  front, gap_made, put_part, put_count, two_parts, length_front, write_pair,
}

module _ (bo : ByteOrder) where
  pub insert_lem :
      (before after : List Pair) (k v : ℕ) (rest : List ℕ)
      → length (before ++ after) + 1 < 2 ^ 16
      → 12 ≤ length rest
      → insert bo (leaf_bytes (before ++ after) rest) (length before) k v
        ≡ some (leaf_bytes (before ++ (k, v) ∷ after) (drop 12 rest))
  unfolding insert front
  insert_lem before after k v rest small room =
      let all = before ++ after in
      let n = length all in
      let counted = leaf_len_lem bo all rest (omega (arith, small)) in
      let (gap, g, made) =
        gap_made bo before after rest (leaf_bytes all rest) (two_parts before after n rest) room in
      let behind = pairs_bytes after ++ drop 12 rest in
      let wrote =
        write_pair bo (front bo before after rest) gap behind k v (2 + length before * 12)
          (length_front before n) g in
      let count : length (before ++ (k, v) ∷ after) ≡ (n + 1) % 2 ^ 16 =
        omega (arith, small, length-append before ((k, v) ∷ after), length-append before after) in
      let m = (n + 1) % 2 ^ 16 in
      let rest' = drop 12 rest in
      let full = before ++ (k, v) ∷ after in
      let shown : front bo before after rest ++ (pair_bytes (k, v) ++ behind)
          ≡ to_le_bytes 2 n ++ (pairs_bytes full ++ rest') =
        sym (around before after (k, v) rest' n) in
      let last : put (front bo before after rest ++ (pair_bytes (k, v) ++ behind)) 0
            (bo.write_le 2 m)
          ≡ some (leaf_bytes full rest') =
        ap (put (front bo before after rest ++ (pair_bytes (k, v) ++ behind)) 0)
          (bo.write_le-bytes 2 m)
        ∙ ap (λ t. put t 0 (to_le_bytes 2 m)) shown
        ∙ put_count full n m rest'
        ∙ ap (λ (c : ℕ). some (to_le_bytes 2 c ++ (pairs_bytes full ++ rest'))) (sym count) in
      rw (insert, counted, ◌>>=◌, made)
        (>>=-then
            (put (front bo before after rest ++ (gap ++ behind)) (2 + length before * 12)
              (bo.write_le 8 k))
            (λ (t : List ℕ). put t (2 + length before * 12 + 6) (take 6 (to_le_bytes 8 v)))
            (λ (t : List ℕ). put t 0 (bo.write_le 2 m)) _ wrote
          ∙ last)

  pub append_lem :
      (ps : List Pair) (k v : ℕ) (rest : List ℕ)
      → length ps + 1 < 2 ^ 16
      → 12 ≤ length rest
      → append bo (leaf_bytes ps rest) k v ≡ some (leaf_bytes (ps ++ (k, v) ∷ []) (drop 12 rest))
  unfolding append
  append_lem ps k v rest small room =
      let whole = append-nil ps in
      ap (λ (m : Option ℕ). m >>= λ n. insert bo (leaf_bytes ps rest) n k v)
        (leaf_len_lem bo ps rest (omega (arith, small)))
      ∙ ap (λ qs. insert bo (leaf_bytes qs rest) (length ps) k v) (sym whole)
      ∙ insert_lem ps [] k v rest (omega (arith, small, ap length whole)) room

  pub remove_lem :
      (before after : List Pair) (p : Pair) (rest : List ℕ)
      → length (before ++ p ∷ after) < 2 ^ 16
      → (rest' : List ℕ) × (length rest' ≡ length rest + 12)
        × (remove bo (leaf_bytes (before ++ p ∷ after) rest) (length before)
            ≡ some (leaf_bytes (before ++ after) rest'))
  unfolding remove
  remove_lem before after p rest small =
      let all = before ++ p ∷ after in
      let n = length all in
      let front = to_le_bytes 2 n ++ pairs_bytes before in
      let moved = pairs_bytes after in
      let bytes = leaf_bytes all rest in
      let there = around before after p rest n in
      let size = length_front before n in
      let there' = there ∙ sym (append_assoc front (pair_bytes p) (moved ++ rest)) in
      let from : length (front ++ pair_bytes p) ≡ 2 + length before * 12 + 12 =
        omega (arith, size, length-append front (pair_bytes p)) in
      let count = length-append before (p ∷ after) in
      let taken : slice bytes (2 + length before * 12 + 12) (2 + n * 12) ≡ some moved =
        slice_part bytes (front ++ pair_bytes p) moved rest _ _ there' from
          (omega (arith, length-pairs_bytes after, count)) in
      let old = pair_bytes p ++ (moved ++ rest) in
      let rest' = drop (length moved) old in
      let put_back : put bytes (2 + length before * 12) moved ≡ some (front ++ (moved ++ rest')) =
        put_part bytes front (take (length moved) old) rest' moved _
          (there ∙ ap (λ t. front ++ t) (sym (take-append-drop (length moved) old))) size
          (omega (
            arith,
            length-take (length moved) old,
            length-append (pair_bytes p) (moved ++ rest),
            length-append moved rest,
          )) in
      let m = (n + 2 ^ 16 - 1) % 2 ^ 16 in
      let counted : m ≡ length (before ++ after) =
        omega (arith, small, count, length-append before after) in
      let shown : front ++ (moved ++ rest')
          ≡ to_le_bytes 2 n ++ (pairs_bytes (before ++ after) ++ rest') =
        sym (two_parts before after n rest') in
      (
        rest',
        omega (
          arith,
          length-drop (length moved) old,
          length-append (pair_bytes p) (moved ++ rest),
          length-append moved rest,
        ),
        rw (remove, leaf_len_lem bo all rest small, ◌>>=◌, taken)
            (rw put_back (
              ap (put (front ++ (moved ++ rest')) 0) (bo.write_le-bytes 2 m)
              ∙ ap (λ t. put t 0 (to_le_bytes 2 m)) shown
              ∙ put_count (before ++ after) n m rest'
              ∙ ap (λ (c : ℕ). some (to_le_bytes 2 c ++ (pairs_bytes (before ++ after) ++ rest')))
                  counted)),
      )
