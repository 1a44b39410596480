-- ===== src/Indexer/Inmem/Unit/Splitting.antt =====
-- `Unit::add_kv` of qmdb/src/indexer/inmem.rs at a full leaf with keys that are no less: the leaf is
-- split.
use mathlib.Core.List.{append_assoc}
use qmdb.Common.{
  ℕ, ◌+◌, ◌-◌, ◌*◌, ◌/◌, ◌%◌, ◌^◌, ◌<◌, ◌≡◌, refl, ap, sym, ◌∙◌, List, ◌∷◌, ◌++◌, Option, some,
  length, length-append, min, ◌==◌, ◌>>=◌, if◌then◌else◌, arith,
}
use qmdb.Common.Bytes.{to_le_bytes, slice, slice_part, put}
use qmdb.Extern.Byteorder.{ByteOrder}
use qmdb.Indexer.Inmem.BTree as BTree
use qmdb.Indexer.Inmem.BufList.{BufList, put_leaf}
use qmdb.Indexer.Inmem.BufList.Heap.{Written}
use qmdb.Indexer.Inmem.BufList.Room.{Written-IsReady}
use qmdb.Indexer.Inmem.BufList.Alloc.{Allocated, allocate_lem}
use qmdb.Indexer.Inmem.Leaf as Leaf
use qmdb.Indexer.Inmem.Leaf.Shows.{Pair, pairs_bytes, leaf_bytes, leaf_len_lem, length-pairs_bytes}
use qmdb.Indexer.Inmem.Leaf.Writes.{two_parts, length_front, put_count}
use qmdb.Indexer.Inmem.Leaf.Fresh.{moved_pairs}
use qmdb.Indexer.Inmem.Unit.{IndexUnit, split_leaf, move_pairs, counted}
use qmdb.Indexer.Inmem.Unit.Leaves.{LeafOf, slot_of}
use qmdb.Indexer.Inmem.Unit.Standing.{IsUnit}
use qmdb.Indexer.Inmem.Unit.Lookup.{Located}
use qmdb.Indexer.Inmem.Unit.Rewriting.{sized_leaf, written}
use qmdb.Indexer.Inmem.Unit.Parts.{few, bytes}
use qmdb.Indexer.Inmem.Unit.Cut.{front, behind, whole}

module _ (bo : ByteOrder) (u : IndexUnit) (ls : List LeafOf) (k v : ℕ) (inv : IsUnit u ls)
    (small : k < 2 ^ 56) (loc : Located k ls) (below_max : length loc.leaf.pairs + 3 < 2 ^ 16)
    (bufs : length u.buf_list.list + 1 < 2 ^ 32) where
  abbrev pub low : ℕ
  low = k % 2 ^ 48

  abbrev pub stay : List Pair
  stay = front bo u ls k v inv small loc

  abbrev pub go : List Pair
  go = behind bo u ls k v inv small loc

  pub parts : stay ++ go ≡ loc.leaf.pairs
  parts = whole bo u ls k v inv small loc

  abbrev pub room : ℕ
  room = 1 + length go + min (length go / 4) 2

  count : length loc.leaf.pairs ≡ length stay + length go
  count = omega (arith, ap length parts, length-append stay go)

  -- What the leaf that stays has behind its pairs.
  abbrev pub rest : List ℕ
  rest = pairs_bytes go ++ loc.leaf.free

  pub sized : length stay * 12 + length rest ≡ loc.leaf.cap * 12
  sized = omega (
    arith,
    count,
    length-append (pairs_bytes go) loc.leaf.free,
    length-pairs_bytes go,
    sized_leaf u ls k inv loc,
  )

  -- The leaf is written back with the pairs that stay.
  abbrev pub first :
      (bl : BufList) × Written u.buf_list bl (slot_of loc.leaf) (leaf_bytes stay rest)
  first = written u ls k inv loc stay rest sized

  pub a : Allocated bo room first.0
  a =
      allocate_lem bo room first.0 (Written-IsReady u.buf_list first.0 _ _ first.1 inv.ready)
        (omega (arith, count, below_max)) (omega (arith, (first.1).same_count, bufs))

  pub moved :
      (free : List ℕ) × (14 + length go * 12 + length free ≡ length a.s.bytes)
      × (Leaf.split_bytes bo a.s.bytes (length go) low v (pairs_bytes go)
          ≡ some (leaf_bytes ((low, v) ∷ go) free))
  moved =
      moved_pairs bo a.s.bytes low v go (omega (arith, count, below_max))
        (omega (arith, a.valid.sized, a.same_cap))

  pub new_sized : length ((low, v) ∷ go) * 12 + length moved.0 ≡ room * 12
  new_sized = omega (arith, moved.1, a.valid.sized, a.same_cap)

  abbrev pub at : ℕ
  at = 0 + length stay

  -- The unit after the split, with the new leaf's buffers.
  abbrev pub split_unit : BufList → IndexUnit
  split_unit bl2 =
      let u' : IndexUnit = record u { buf_list = bl2; temp_vec = pairs_bytes go } in
      if at == 0
      then record (counted u' (room - length go)) { bt = BTree.insert u.bt loc.leaf.key a.s.pos }
      else record (counted u' room) { bt = BTree.insert u.bt k a.s.pos }

  pub split_runs :
      (bl2 : BufList)
      → put_leaf a.bl' a.s.pos (leaf_bytes ((low, v) ∷ go) moved.0) ≡ some bl2
      → split_leaf bo at k low v (loc.leaf.key, loc.leaf.pos) (bytes bo u ls k v inv small loc) u
        ≡ some (split_unit bl2)
  unfolding split_leaf move_pairs
  split_runs bl2 p =
      let b = bytes bo u ls k v inv small loc in
      let n = length loc.leaf.pairs in
      let size = leaf_len_lem bo loc.leaf.pairs loc.leaf.free (few bo u ls k v inv small loc) in
      let split : b ≡ (to_le_bytes 2 n ++ pairs_bytes stay) ++ (pairs_bytes go ++ loc.leaf.free) =
        ap (λ t. to_le_bytes 2 n ++ (pairs_bytes t ++ loc.leaf.free)) (sym parts)
        ∙ two_parts stay go n loc.leaf.free in
      let left : n - at ≡ length go = omega (arith, count) in
      let tail : slice b (2 + 12 * at) (2 + 12 * at + 12 * length go) ≡ some (pairs_bytes go) =
        slice_part b (to_le_bytes 2 n ++ pairs_bytes stay) (pairs_bytes go) loc.leaf.free _ _ split
          (omega (arith, length_front stay n)) (omega (arith, length-pairs_bytes go)) in
      let index : at % 2 ^ 16 ≡ length stay = omega (arith, count, below_max) in
      let cut : put b 0 (bo.write_le 2 (at % 2 ^ 16)) ≡ some (leaf_bytes stay rest) =
        ap (λ t. put b 0 t) (bo.write_le-bytes 2 (at % 2 ^ 16) ∙ ap (to_le_bytes 2) index)
        ∙ ap (λ t. put t 0 (to_le_bytes 2 (length stay)))
            (split ∙ append_assoc (to_le_bytes 2 n) (pairs_bytes stay) rest)
        ∙ put_count stay n (length stay) rest in
      let move : move_pairs bo (length go) at k low v (loc.leaf.key, loc.leaf.pos) b u
          ≡ some (split_unit bl2) =
        rw (tail, ◌>>=◌, cut, (first.1).runs, a.runs, moved.2, p) refl in
      ap
        (λ (m : Option ℕ).
          m >>= λ n. move_pairs bo (n - at) at k low v (loc.leaf.key, loc.leaf.pos) b u)
        size
      ∙ ap (λ (c : ℕ). move_pairs bo c at k low v (loc.leaf.key, loc.leaf.pos) b u) left
      ∙ move
