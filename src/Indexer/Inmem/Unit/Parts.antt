-- ===== src/Indexer/Inmem/Unit/Parts.antt =====
-- The leaf of a key in a unit of qmdb/src/indexer/inmem.rs: its bytes, and an edit of its pairs among
-- all pairs of the unit.
use mathlib.Core.List.{append_assoc}
use qmdb.Common.{
  ℕ, ◌+◌, ◌%◌, ◌^◌, ◌<◌, ◌≡◌, ap, sym, ◌∙◌, List, ◌∷◌, ◌++◌, some, length, subst, arith,
}
use qmdb.Extern.Byteorder.{ByteOrder}
use qmdb.Indexer.Inmem.BTree.{last_of, last_upto}
use qmdb.Indexer.Inmem.BufList.{get_leaf}
use qmdb.Indexer.Inmem.BufList.Heap.{get_leaf_lem}
use qmdb.Indexer.Inmem.Leaf.Shows.{Pair, leaf_bytes, AllFit}
use qmdb.Indexer.Inmem.Leaf.Sorted.{IsSorted}
use qmdb.Indexer.Inmem.Unit.{IndexUnit, split_hi_lo}
use qmdb.Indexer.Inmem.Unit.Leaves.{
  LeafOf, slot_of, high, full, flat, Within, AllBelow, AllFrom, full-append,
}
use qmdb.Indexer.Inmem.Unit.Standing.{IsUnit, Stands}
use qmdb.Indexer.Inmem.Unit.Lookup.{Located, in_range}
use qmdb.Indexer.Inmem.Unit.Rewriting.{with_pairs, sized_leaf, own_leaf}
use qmdb.Indexer.Inmem.Unit.Pairs.{
  flat-Located, AllBelow-edit, AllFrom-edit, IsSorted-edit, AllFit-edit, AllBelow-change,
  AllFrom-change, IsSorted-change, AllFit-change,
}

module _ (bo : ByteOrder) (u : IndexUnit) (ls : List LeafOf) (k v : ℕ) (inv : IsUnit u ls)
    (small : k < 2 ^ 56) (loc : Located k ls) where
  pub own : Stands u.buf_list loc.leaf
  own = own_leaf u ls k inv loc

  abbrev pub bytes : List ℕ
  bytes = leaf_bytes loc.leaf.pairs loc.leaf.free

  abbrev pub low : ℕ
  low = k % 2 ^ 48

  pub few : length loc.leaf.pairs < 2 ^ 16
  few = omega (arith, sized_leaf u ls k inv loc, own.slot.small)

  pub found : last_upto u.bt (split_hi_lo k).0 k ≡ some (loc.leaf.key, loc.leaf.pos)
  found = ap (last_of (in_range k)) inv.tree ∙ loc.is_last

  pub got : get_leaf bo u.buf_list loc.leaf.pos ≡ some bytes
  got = get_leaf_lem bo u.buf_list (slot_of loc.leaf) own.slot own.holds

  -- The full key is the leaf's high bits and the low bits.
  pub joined : high loc.leaf.key + low ≡ k
  joined = omega (arith, loc.same_high)

  -- All pairs, from the parts of one leaf's pairs.
  pub around_pair :
      (before after : List Pair) (w : ℕ)
      → flat loc.front ++ (full loc.leaf.key (before ++ (low, w) ∷ after) ++ flat loc.back)
        ≡ (flat loc.front ++ full loc.leaf.key before)
          ++ (k, w) ∷ (full loc.leaf.key after ++ flat loc.back)
  around_pair before after w =
      let key = loc.leaf.key in
      let rest = full key after ++ flat loc.back in
      let same : ◌≡◌ {A = Pair} (high key + low, w) (k, w) = ap (λ (n : ℕ). (n, w)) joined in
      ap (λ t. flat loc.front ++ (t ++ flat loc.back)) (full-append key before ((low, w) ∷ after))
      ∙ ap (λ t. flat loc.front ++ t)
          (append_assoc (full key before) (full key ((low, w) ∷ after)) (flat loc.back))
      ∙ sym (append_assoc (flat loc.front) (full key before) ((high key + low, w) ∷ rest))
      ∙ ap (λ p. (flat loc.front ++ full key before) ++ p ∷ rest) same

  pub around_gap :
      (before after : List Pair)
      → flat loc.front ++ (full loc.leaf.key (before ++ after) ++ flat loc.back)
        ≡ (flat loc.front ++ full loc.leaf.key before) ++ (full loc.leaf.key after ++ flat loc.back)
  around_gap before after =
      let key = loc.leaf.key in
      ap (λ t. flat loc.front ++ (t ++ flat loc.back)) (full-append key before after)
      ∙ ap (λ t. flat loc.front ++ t)
          (append_assoc (full key before) (full key after) (flat loc.back))
      ∙ sym (append_assoc (flat loc.front) (full key before) (full key after ++ flat loc.back))

  -- An edit of the leaf's pairs.
  module _ (before after : List Pair) (free : List ℕ)
      (parts : loc.leaf.pairs ≡ before ++ (low, v) ∷ after) where
    pub old_parts :
        flat ls
        ≡ (flat loc.front ++ full loc.leaf.key before)
          ++ (k, v) ∷ (full loc.leaf.key after ++ flat loc.back)
    old_parts =
        flat-Located k ls loc
        ∙ ap (λ t. flat loc.front ++ (full loc.leaf.key t ++ flat loc.back)) parts
        ∙ around_pair before after v

    -- The pair is gone.
    pub gone-Within : Within (with_pairs loc.leaf (before ++ after) free) loc.bound
    gone-Within =
        let w = loc.within in
        let key = loc.leaf.key in
        let p : Pair = (high key + low, v) in
        let split = ap (full key) parts ∙ full-append key before ((low, v) ∷ after) in
        let joined_again = sym (full-append key before after) in
        record {
          key_below = w.key_below;
          from_key = subst (AllFrom key) joined_again (
              AllFrom-edit key (full key before) (full key after) p
                (subst (AllFrom key) split w.from_key));
          all_below = subst (AllBelow loc.bound) joined_again (
              AllBelow-edit loc.bound (full key before) (full key after) p
                (subst (AllBelow loc.bound) split w.all_below));
          sorted = IsSorted-edit before after (low, v) (subst IsSorted parts w.sorted);
          fits = AllFit-edit before after (low, v) (subst AllFit parts w.fits);
        }

    -- The pair has another value.
    pub changed-Within :
        (x : ℕ)
        → x < 2 ^ 48
        → Within (with_pairs loc.leaf (before ++ (low, x) ∷ after) free) loc.bound
    changed-Within x h =
        let w = loc.within in
        let key = loc.leaf.key in
        let split = ap (full key) parts ∙ full-append key before ((low, v) ∷ after) in
        let joined_again = sym (full-append key before ((low, x) ∷ after)) in
        record {
          key_below = w.key_below;
          from_key = subst (AllFrom key) joined_again (
              AllFrom-change key (high key + low) v x (full key before) (full key after)
                (subst (AllFrom key) split w.from_key));
          all_below = subst (AllBelow loc.bound) joined_again (
              AllBelow-change loc.bound (high key + low) v x (full key before) (full key after)
                (subst (AllBelow loc.bound) split w.all_below));
          sorted = IsSorted-change low v x before after (subst IsSorted parts w.sorted);
          fits = AllFit-change low v x before after h (subst AllFit parts w.fits);
        }
