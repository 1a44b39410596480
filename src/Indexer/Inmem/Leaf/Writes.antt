-- ===== src/Indexer/Inmem/Leaf/Writes.antt =====
-- What `insert`, `remove` and `change_value` of a leaf of qmdb/src/indexer/inmem.rs make of its
-- pairs.
use mathlib.Core.List.{append_assoc}
use qmdb.Common.{
  ℕ, ◌+◌, ◌*◌, ◌/◌, ◌≤◌, ◌≡◌, refl, ap, sym, ◌∙◌, List, [], ◌∷◌, ◌++◌, some, true, false, length,
  take, drop, take-append-drop, drop-add, drop_prefix, length-append, length-drop, length-take, ltb,
  Bool-cases, inl, inr, ◌>>=◌, arith,
}
use qmdb.Common.Bytes.{to_le_bytes, slice, slice_part, put, put-append}
use qmdb.Extern.Byteorder.{ByteOrder}
use qmdb.Indexer.Inmem.Leaf.{copy_within, change_value}
use qmdb.Indexer.Inmem.Leaf.Shows.{
  Pair, pair_bytes, pairs_bytes, leaf_bytes, length-pairs_bytes, pairs_bytes-append, around,
}

-- A write between what stands before and after it.
pub put_part :
    (bytes done old rest bz : List ℕ) (i : ℕ)
    → bytes ≡ done ++ (old ++ rest)
    → length done ≡ i
    → length bz ≡ length old
    → put bytes i bz ≡ some (done ++ (bz ++ rest))
put_part bytes done old rest bz i e h l =
    let fits : length bz ≤ length (old ++ rest) = omega (arith, length-append old rest) in
    rw e (
      put-append done (old ++ rest) bz i h fits
      ∙ ap some (
          append_assoc done bz (drop (length bz) (old ++ rest))
          ∙ ap (λ t. done ++ (bz ++ t)) (drop_prefix (length bz) old rest (sym l))))

-- The count is written last.
pub put_count :
    (ps : List Pair) (n m : ℕ) (rest : List ℕ)
    → put (to_le_bytes 2 n ++ (pairs_bytes ps ++ rest)) 0 (to_le_bytes 2 m)
      ≡ some (to_le_bytes 2 m ++ (pairs_bytes ps ++ rest))
put_count ps n m rest =
    put_part _ [] (to_le_bytes 2 n) (pairs_bytes ps ++ rest) (to_le_bytes 2 m) 0 refl refl refl

-- The pairs in two parts.
pub two_parts :
    (before after : List Pair) (n : ℕ) (rest : List ℕ)
    → to_le_bytes 2 n ++ (pairs_bytes (before ++ after) ++ rest)
      ≡ (to_le_bytes 2 n ++ pairs_bytes before) ++ (pairs_bytes after ++ rest)
two_parts before after n rest =
    rw (pairs_bytes-append before after, append_assoc (pairs_bytes before) (pairs_bytes after) rest)
      refl

pub length_front :
    (before : List Pair) (n : ℕ)
    → length (to_le_bytes 2 n ++ pairs_bytes before) ≡ 2 + length before * 12
length_front before n = omega (arith, length-pairs_bytes before)

pub same_count :
    (before after : List Pair) (p q : Pair)
    → length (before ++ p ∷ after) ≡ length (before ++ q ∷ after)
same_count before after p q =
    omega (arith, length-append before (p ∷ after), length-append before (q ∷ after))

module _ (bo : ByteOrder) where
  pub change_value_lem :
      (before after : List Pair) (k v w : ℕ) (rest : List ℕ)
      → change_value bo (leaf_bytes (before ++ (k, v) ∷ after) rest) (length before) w
        ≡ some (leaf_bytes (before ++ (k, w) ∷ after) rest)
  unfolding change_value
  change_value_lem before after k v w rest =
      let n = length (before ++ (k, v) ∷ after) in
      let front = to_le_bytes 2 n ++ pairs_bytes before in
      let behind = pairs_bytes after ++ rest in
      let there =
        around before after (k, v) rest n
        ∙ sym (append_assoc front (to_le_bytes 6 k) (to_le_bytes 6 v ++ behind)) in
      let size : length (front ++ to_le_bytes 6 k) ≡ 2 + length before * 12 + 6 =
        omega (arith, length_front before n, length-append front (to_le_bytes 6 k)) in
      put_part (leaf_bytes (before ++ (k, v) ∷ after) rest) (front ++ to_le_bytes 6 k)
        (to_le_bytes 6 v) behind (to_le_bytes 6 w) _ there size refl
      ∙ ap some (
          append_assoc front (to_le_bytes 6 k) (to_le_bytes 6 w ++ behind)
          ∙ sym (around before after (k, w) rest n)
          ∙ ap (λ (m : ℕ). to_le_bytes 2 m ++ (pairs_bytes (before ++ (k, w) ∷ after) ++ rest))
              (same_count before after (k, v) (k, w)))

  -- The key takes eight bytes, and the value then the last two of those and four more.
  pub write_pair :
      (front gap behind : List ℕ) (k v start : ℕ)
      → length front ≡ start
      → length gap ≡ 12
      → (put (front ++ (gap ++ behind)) start (bo.write_le 8 k) >>= λ bytes.
          put bytes (start + 6) (take 6 (to_le_bytes 8 v)))
        ≡ some (front ++ (pair_bytes (k, v) ++ behind))
  write_pair front gap behind k v start h g =
      let first : put (front ++ (gap ++ behind)) start (to_le_bytes 8 k)
          ≡ some (front ++ (to_le_bytes 8 k ++ (drop 8 gap ++ behind))) =
        put_part _ front (take 8 gap) (drop 8 gap ++ behind) (to_le_bytes 8 k) start
          (ap (λ t. front ++ (t ++ behind)) (sym (take-append-drop 8 gap))
            ∙ ap (λ t. front ++ t) (append_assoc (take 8 gap) (drop 8 gap) behind))
          h (omega (arith, length-take 8 gap)) in
      let middle = to_le_bytes 2 (k / 256 / 256 / 256 / 256 / 256 / 256) ++ drop 8 gap in
      let second : put (front ++ (to_le_bytes 8 k ++ (drop 8 gap ++ behind))) (start + 6)
            (to_le_bytes 6 v)
          ≡ some ((front ++ to_le_bytes 6 k) ++ (to_le_bytes 6 v ++ behind)) =
        put_part _ (front ++ to_le_bytes 6 k) middle behind (to_le_bytes 6 v) (start + 6)
          (sym (append_assoc front (to_le_bytes 6 k) (middle ++ behind)))
          (omega (arith, h, length-append front (to_le_bytes 6 k)))
          (omega (arith, length-drop 8 gap, g)) in
      rw (bo.write_le-bytes 8 k, first)
        (second ∙ ap some (append_assoc front (to_le_bytes 6 k) (to_le_bytes 6 v ++ behind)))

-- Twelve bytes are made free in front of the last pairs.
copied :
    (front : List ℕ) (after : List Pair) (rest : List ℕ) (start end : ℕ)
    → length front ≡ start
    → start + length after * 12 ≡ end
    → 12 ≤ length rest
    → copy_within (front ++ (pairs_bytes after ++ rest)) start end (start + 12)
      ≡ some (front ++ (take 12 (pairs_bytes after ++ rest) ++ (pairs_bytes after ++ drop 12 rest)))
copied front after rest start end h e room =
    let moved = pairs_bytes after in
    let size = length-pairs_bytes after in
    let bytes = front ++ (moved ++ rest) in
    let there : slice bytes start end ≡ some moved =
      slice_part bytes front moved rest start end refl h (omega (arith, size)) in
    let gap = take 12 (moved ++ rest) in
    let old = take (length moved) (drop 12 (moved ++ rest)) in
    let far : drop (length moved) (drop 12 (moved ++ rest)) ≡ drop 12 rest =
      sym (drop-add 12 (length moved) (moved ++ rest))
      ∙ ap (λ (n : ℕ). drop n (moved ++ rest)) (omega arith)
      ∙ drop-add (length moved) 12 (moved ++ rest)
      ∙ ap (drop 12) (drop_prefix (length moved) moved rest refl) in
    let parts : bytes ≡ (front ++ gap) ++ (old ++ drop 12 rest) =
      ap (λ t. front ++ t) (sym (take-append-drop 12 (moved ++ rest)))
      ∙ sym (append_assoc front gap (drop 12 (moved ++ rest)))
      ∙ ap (λ t. (front ++ gap) ++ t)
          (sym (take-append-drop (length moved) (drop 12 (moved ++ rest)))
            ∙ ap (λ t. old ++ t) far) in
    let whole = length-append moved rest in
    let at : length (front ++ gap) ≡ start + 12 =
      omega (arith, length-append front gap, length-take 12 (moved ++ rest), whole) in
    let same : length moved ≡ length old = omega (
      arith,
      length-take (length moved) (drop 12 (moved ++ rest)),
      length-drop 12 (moved ++ rest),
      whole,
    ) in
    rw there (
      put_part bytes (front ++ gap) old (drop 12 rest) moved (start + 12) parts at same
      ∙ ap some (append_assoc front gap (moved ++ drop 12 rest)))

module _ (bo : ByteOrder) (before after : List Pair) (rest : List ℕ) where
  abbrev pub all : List Pair
  all = before ++ after

  unfoldable pub front : List ℕ
  front = to_le_bytes 2 (length all) ++ pairs_bytes before

  -- The first step of `insert` leaves a gap of twelve bytes.
  pub gap_made :
      (bytes : List ℕ)
      → bytes ≡ front ++ (pairs_bytes after ++ rest)
      → 12 ≤ length rest
      → (gap : List ℕ) × (length gap ≡ 12)
        × (elim (ltb (2 + length before * 12) (2 + length all * 12)) [
          | true ↦
              copy_within bytes
                (2 + length before * 12)
                (2 + length all * 12)
                (2 + length before * 12 + 12)
          | false ↦ some bytes
        ]
            ≡ some (front ++ (gap ++ (pairs_bytes after ++ drop 12 rest))))
  unfolding front
  gap_made bytes e room =
      let start : ℕ = 2 + length before * 12 in
      let end : ℕ = 2 + length all * 12 in
      let count = length-append before after in
      elim (Bool-cases (ltb start end)) [
        | inl t ↦
            let size : length (take 12 (pairs_bytes after ++ rest)) ≡ 12 = omega (
              arith,
              length-take 12 (pairs_bytes after ++ rest),
              length-append (pairs_bytes after) rest,
            ) in
            (
              take 12 (pairs_bytes after ++ rest),
              size,
              rw (t, e)
                  (copied front after rest start end (length_front before (length all))
                    (omega (arith, count)) room),
            )
        | inr t ↦ none_behind after e (ground (arith, count)) t
      ]
    where
      none_behind :
          (after : List Pair)
          → bytes ≡ front ++ (pairs_bytes after ++ rest)
          → length after ≡ 0
          → ltb (2 + length before * 12) (2 + length all * 12) ≡ false
          → (gap : List ℕ) × (length gap ≡ 12)
            × (elim (ltb (2 + length before * 12) (2 + length all * 12)) [
              | true ↦
                  copy_within bytes
                    (2 + length before * 12)
                    (2 + length all * 12)
                    (2 + length before * 12 + 12)
              | false ↦ some bytes
            ]
                ≡ some (front ++ (gap ++ (pairs_bytes after ++ drop 12 rest))))
      none_behind [] e z t = (
        take 12 rest,
        omega (arith, length-take 12 rest),
        rw t (ap some (e ∙ ap (λ r. front ++ r) (sym (take-append-drop 12 rest)))),
      )
      none_behind (p ∷ ps) e z t = absurd (omega arith)
