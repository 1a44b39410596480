-- ===== src/Indexer/Inmem/Unit/Adding.antt =====
-- `Unit::add_kv` of qmdb/src/indexer/inmem.rs when the pair gets a leaf of its own.
use qmdb.Common.{
  ℕ, ◌+◌, ◌%◌, ◌^◌, ◌<◌, ◌≤◌, ◌≡◌, refl, ap, ◌∙◌, List, [], ◌∷◌, ◌++◌, some, length, ◌>>=◌, arith,
}
use qmdb.Extern.Byteorder.{ByteOrder}
use qmdb.Indexer.Inmem.BTree as BTree
use qmdb.Indexer.Inmem.BufList.{create_leaf}
use qmdb.Indexer.Inmem.BufList.Alloc.{Allocated, allocate_lem}
use qmdb.Indexer.Inmem.Leaf.Shows.{Pair}
use qmdb.Indexer.Inmem.Leaf.Fresh.{first_pair}
use qmdb.Indexer.Inmem.Unit.{IndexUnit, add_leaf}
use qmdb.Indexer.Inmem.Unit.Leaves.{LeafOf, high, flat, flat-append, Within, Ordered, Ordered-join}
use qmdb.Indexer.Inmem.Unit.Standing.{IsUnit}
use qmdb.Indexer.Inmem.Unit.Fresh.{leaf_at, place, Placed-IsUnit, tree_of-insert}

module _ (bo : ByteOrder) (u : IndexUnit) (front back : List LeafOf) (k v key n lo : ℕ)
    (inv : IsUnit u (front ++ back)) (few : length u.buf_list.list + 1 < 2 ^ 32) (fits : v < 2 ^ 48)
    (joined : high key + k % 2 ^ 48 ≡ k) (from : key ≤ k) (to : k < n) (lower : Ordered 0 front lo)
    (at : lo ≤ key) (upper : Ordered n back (2 ^ 56)) where
  a : Allocated bo 8 u.buf_list
  a = allocate_lem bo 8 u.buf_list inv.ready (omega arith) few

  -- A new leaf with the pair alone, between the others.
  pub add_leaf_lem :
      (u' : IndexUnit) × (ls : List LeafOf) × (add_leaf bo key (k % 2 ^ 48) v u ≡ some u')
      × IsUnit u' ls
      × (flat ls ≡ flat front ++ (k, v) ∷ flat back)
  unfolding add_leaf create_leaf
  add_leaf_lem =
      let low = k % 2 ^ 48 in
      let pairs : List Pair = (low, v) ∷ [] in
      let (free, size, zeroed, written) =
        first_pair bo a.s.bytes low v (omega (arith, a.valid.sized, a.same_cap)) in
      let l = leaf_at bo 8 u.buf_list a key pairs free in
      let (bl2, p) =
        place bo 8 u.buf_list a (front ++ back) key pairs free inv.stand
          (omega (arith, size, a.valid.sized, a.same_cap)) (omega arith) in
      let u' : IndexUnit = record u {
        bt = BTree.insert u.bt key a.s.pos;
        buf_list = bl2;
        change_count = (u.change_count + 8 % 2 ^ 32) % 2 ^ 32;
      } in
      let within : Within l n = record {
        key_below = omega (arith, from, to);
        from_key = (omega (arith, joined, from), tt);
        all_below = (omega (arith, joined, to), tt);
        sorted = (tt, tt);
        fits = ((omega arith, fits), tt);
      } in
      (
        u',
        front ++ l ∷ back,
        rw (a.runs, ◌>>=◌, zeroed, written, p.runs) refl,
        Placed-IsUnit u' a.bl' front l back
            (ap (λ t. BTree.insert t key a.s.pos) inv.tree
              ∙ tree_of-insert 0 lo n (2 ^ 56) front l back lower at (omega (arith, from, to))
                  upper)
            p inv.apart
            (Ordered-join 0 front (l ∷ back) lo (2 ^ 56) lower (at, (n, within, upper))),
        flat-append front (l ∷ back) ∙ ap (λ (m : ℕ). flat front ++ (m, v) ∷ flat back) joined,
      )
