-- ===== src/Indexer/Inmem/Unit/Rewriting.antt =====
-- A leaf of a unit of qmdb/src/indexer/inmem.rs is written back with other pairs.
use qmdb.Common.{
  ℕ, ◌+◌, ◌*◌, ◌^◌, ◌<◌, ◌≤◌, ◌≡◌, refl, ap, ◌∙◌, List, [], ◌∷◌, ◌++◌, subst, length, length-append,
  true, false, ◌==◌, arith,
}
use qmdb.Indexer.Inmem.BTree.{remove}
use qmdb.Indexer.Inmem.BufList.{BufList}
use qmdb.Indexer.Inmem.BufList.Heap.{IsSlot, Written, put_leaf_lem}
use qmdb.Indexer.Inmem.BufList.Room.{Written-Before, Written-IsReady}
use qmdb.Indexer.Inmem.Leaf.Shows.{Pair, leaf_bytes, pairs_bytes, length-pairs_bytes}
use qmdb.Indexer.Inmem.Unit.{IndexUnit}
use qmdb.Indexer.Inmem.Unit.Leaves.{
  LeafOf, slot_of, tree_of, Ordered, Within, Ordered-join, Ordered-le, Ordered-high,
}
use qmdb.Indexer.Inmem.Unit.Standing.{
  Stands, AllStand, ApartFrom, AllApart, IsUnit, AllStand-pull, AllStand-push, AllApart-pull,
  AllApart-push, Written-AllStand,
}
use qmdb.Indexer.Inmem.Unit.Lookup.{Located}

abbrev pub with_pairs : LeafOf → List Pair → List ℕ → LeafOf
with_pairs l pairs free = record l { pairs = pairs; free = free }

-- The length of the bytes of a leaf.
pub length-leaf_bytes :
    (ps : List Pair) (free : List ℕ)
    → length (leaf_bytes ps free) ≡ length ps * 12 + length free + 2
length-leaf_bytes ps free =
    omega (arith, length-append (pairs_bytes ps) free, length-pairs_bytes ps)

-- The tree forgets a leaf's pairs, so it stays when they change.
tree_of-middle :
    (f : List LeafOf) (l : LeafOf) (b : List LeafOf) (pairs : List Pair) (free : List ℕ)
    → tree_of (f ++ l ∷ b) ≡ tree_of (f ++ with_pairs l pairs free ∷ b)
tree_of-middle [] l b pairs free = refl
tree_of-middle (m ∷ f) l b pairs free =
    ap (λ t. (m.key, m.pos) ∷ t) (tree_of-middle f l b pairs free)

-- Without the leaf.
tree_of-remove :
    (lo hi : ℕ) (f : List LeafOf) (l : LeafOf) (b : List LeafOf)
    → Ordered lo f hi
    → hi ≤ l.key
    → remove (tree_of (f ++ l ∷ b)) l.key ≡ tree_of (f ++ b)
tree_of-remove lo hi [] l b o h =
    let same : (l.key == l.key) ≡ true = ground arith in rw (remove, same) refl
tree_of-remove lo hi (m ∷ f) l b (_, (n, w, o)) h =
    let other : (m.key == l.key) ≡ false = ground (arith, w.key_below, Ordered-le n f hi o) in
    rw (remove, other) (ap (λ t. (m.key, m.pos) ∷ t) (tree_of-remove n hi f l b o h))

module _ (u : IndexUnit) (ls : List LeafOf) (k : ℕ) (inv : IsUnit u ls) (loc : Located k ls) where
  stand : Stands u.buf_list loc.leaf × AllStand u.buf_list (loc.front ++ loc.back)
  stand =
      AllStand-pull u.buf_list loc.front loc.leaf loc.back
        (subst (AllStand u.buf_list) loc.parts inv.stand)

  pub own_leaf : Stands u.buf_list loc.leaf
  own_leaf = stand.0

  apart : ApartFrom (slot_of loc.leaf) (loc.front ++ loc.back) × AllApart (loc.front ++ loc.back)
  apart = AllApart-pull loc.front loc.leaf loc.back (subst AllApart loc.parts inv.apart)

  pub sized_leaf : length loc.leaf.pairs * 12 + length loc.leaf.free ≡ loc.leaf.cap * 12
  sized_leaf = omega (arith, length-leaf_bytes loc.leaf.pairs loc.leaf.free, own_leaf.slot.sized)

module _ (u : IndexUnit) (ls : List LeafOf) (k : ℕ) (inv : IsUnit u ls) (loc : Located k ls)
    (pairs : List Pair) (free : List ℕ)
    (sized : length pairs * 12 + length free ≡ loc.leaf.cap * 12) where
  abbrev new_leaf : LeafOf
  new_leaf = with_pairs loc.leaf pairs free

  new_slot : IsSlot (slot_of new_leaf)
  new_slot = record {
    sized = omega (arith, length-leaf_bytes pairs free, sized);
    small = (own_leaf u ls k inv loc).slot.small;
  }

  pub written : (bl : BufList) × Written u.buf_list bl (slot_of loc.leaf) (leaf_bytes pairs free)
  written =
      put_leaf_lem u.buf_list (slot_of loc.leaf) (own_leaf u ls k inv loc).slot
        (own_leaf u ls k inv loc).holds (leaf_bytes pairs free) new_slot

  others : AllStand written.0 (loc.front ++ loc.back)
  others =
      Written-AllStand u.buf_list written.0 (slot_of loc.leaf) (leaf_bytes pairs free)
        (loc.front ++ loc.back) written.1 (apart u ls k inv loc).0 (stand u ls k inv loc).1

  -- The unit with the leaf's new pairs.
  pub kept-IsUnit :
      (change_count : ℕ)
      → 0 < length pairs
      → Within new_leaf loc.bound
      → IsUnit
          (record u { change_count = change_count; buf_list = written.0 })
          (loc.front ++ new_leaf ∷ loc.back)
  kept-IsUnit change_count filled w = record {
    tree = inv.tree ∙ ap tree_of loc.parts ∙ tree_of-middle loc.front loc.leaf loc.back pairs free;
    ready = Written-IsReady u.buf_list written.0 _ _ written.1 inv.ready;
    stand =
        AllStand-push written.0 loc.front new_leaf loc.back
          (record {
            slot = new_slot;
            holds = (written.1).own;
            before =
                Written-Before u.buf_list written.0 (slot_of loc.leaf) (leaf_bytes pairs free)
                  (slot_of new_leaf) written.1 (own_leaf u ls k inv loc).before;
            filled = filled;
          })
          others;
    apart =
        AllApart-push loc.front new_leaf loc.back (apart u ls k inv loc).0 (apart u ls k inv loc).1;
    ordered =
        Ordered-join 0 loc.front (new_leaf ∷ loc.back) loc.low (2 ^ 56) loc.lower
          (loc.low_key, (loc.bound, w, loc.upper));
  }

  -- The unit without the leaf.
  pub dropped-IsUnit :
      (change_count : ℕ)
      → IsUnit
          (record u {
            change_count = change_count;
            buf_list = written.0;
            bt = remove u.bt loc.leaf.key;
          })
          (loc.front ++ loc.back)
  dropped-IsUnit change_count = record {
    tree =
        ap (λ t. remove t loc.leaf.key) (inv.tree ∙ ap tree_of loc.parts)
        ∙ tree_of-remove 0 loc.low loc.front loc.leaf loc.back loc.lower loc.low_key;
    ready = Written-IsReady u.buf_list written.0 _ _ written.1 inv.ready;
    stand = others;
    apart = (apart u ls k inv loc).1;
    ordered =
        Ordered-join 0 loc.front loc.back loc.bound (2 ^ 56)
          (Ordered-high 0 loc.front loc.low loc.bound
            (omega (arith, loc.low_key, loc.within.key_below)) loc.lower)
          loc.upper;
  }
