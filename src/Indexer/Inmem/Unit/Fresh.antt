-- ===== src/Indexer/Inmem/Unit/Fresh.antt =====
-- A new leaf in a unit of qmdb/src/indexer/inmem.rs.
use qmdb.Common.{
  ℕ, ◌+◌, ◌*◌, ◌^◌, ◌<◌, ◌≤◌, ◌≡◌, refl, ap, sym, List, [], ◌∷◌, ◌++◌, some, true, false, length,
  ltb, ◌==◌, arith,
}
use qmdb.Extern.Byteorder.{ByteOrder}
use qmdb.Indexer.Inmem.BTree.{insert}
use qmdb.Indexer.Inmem.BufList.{BufList, put_leaf}
use qmdb.Indexer.Inmem.BufList.Heap.{IsSlot, put_leaf_lem}
use qmdb.Indexer.Inmem.BufList.Room.{IsReady, Written-IsReady, Written-Before}
use qmdb.Indexer.Inmem.BufList.Alloc.{Allocated}
use qmdb.Indexer.Inmem.Leaf.Shows.{Pair, leaf_bytes}
use qmdb.Indexer.Inmem.Unit.{IndexUnit}
use qmdb.Indexer.Inmem.Unit.Leaves.{LeafOf, slot_of, tree_of, Ordered, Ordered-le}
use qmdb.Indexer.Inmem.Unit.Standing.{
  Stands, AllStand, ApartFrom, AllApart, IsUnit, AllStand-push, AllApart-push, Written-AllStand,
}
use qmdb.Indexer.Inmem.Unit.Rewriting.{length-leaf_bytes}

-- A new key comes between the keys of the leaves.
pub tree_of-insert :
    (lo hi n top : ℕ) (f : List LeafOf) (l : LeafOf) (b : List LeafOf)
    → Ordered lo f hi
    → hi ≤ l.key
    → l.key < n
    → Ordered n b top
    → insert (tree_of (f ++ b)) l.key l.pos ≡ tree_of (f ++ l ∷ b)
tree_of-insert lo hi n top [] l [] o h s p = refl
tree_of-insert lo hi n top [] l (m ∷ b) o h s (le, rest) =
    let before : ltb l.key m.key ≡ true = ground (arith, le) in rw (insert, before) refl
tree_of-insert lo hi n top (m ∷ f) l b (_, (c, w, o)) h s p =
    let behind = Ordered-le c f hi o in
    let after : ltb l.key m.key ≡ false = ground (arith, w.key_below, behind) in
    let other : (m.key == l.key) ≡ false = ground (arith, w.key_below, behind) in
    rw (insert, after, other)
      (ap (λ t. (m.key, m.pos) ∷ t) (tree_of-insert c hi n top f l b o h s p))

-- A leaf takes the place of one with its key.
pub tree_of-replace :
    (lo hi : ℕ) (f : List LeafOf) (old l : LeafOf) (b : List LeafOf)
    → Ordered lo f hi
    → hi ≤ old.key
    → l.key ≡ old.key
    → insert (tree_of (f ++ old ∷ b)) old.key l.pos ≡ tree_of (f ++ l ∷ b)
tree_of-replace lo hi [] old l b o h e =
    let before : ltb old.key old.key ≡ false = ground arith in
    let same : (old.key == old.key) ≡ true = ground arith in
    rw (insert, before, same) (ap (λ (k : ℕ). (k, l.pos) ∷ tree_of b) (sym e))
tree_of-replace lo hi (m ∷ f) old l b (_, (c, w, o)) h e =
    let behind = Ordered-le c f hi o in
    let after : ltb old.key m.key ≡ false = ground (arith, w.key_below, behind) in
    let other : (m.key == old.key) ≡ false = ground (arith, w.key_below, behind) in
    rw (insert, after, other) (ap (λ t. (m.key, m.pos) ∷ t) (tree_of-replace c hi f old l b o h e))

-- A new leaf is written, and the others are where they were.
pub record Placed (from bl : BufList) (l : LeafOf) (ls : List LeafOf) : Type 0 where
  pub runs : put_leaf from l.pos (leaf_bytes l.pairs l.free) ≡ some bl
  pub ready : IsReady bl
  pub stands : Stands bl l
  pub apart : ApartFrom (slot_of l) ls
  pub others : AllStand bl ls

module _ (bo : ByteOrder) (cap : ℕ) (bl : BufList) (a : Allocated bo cap bl) where
  moved : (ls : List LeafOf) → AllStand bl ls → AllStand a.bl' ls × ApartFrom a.s ls
  moved [] all = (tt, tt)
  moved (l ∷ ls) (st, all) =
      let ((holds, before), apart) = a.keeps (slot_of l) st.holds st.before in
      let (rest, aparts) = moved ls all in
      (
        (record { slot = st.slot; holds = holds; before = before; filled = st.filled }, rest),
        (apart, aparts),
      )

  -- The leaf at the allocated position.
  abbrev pub leaf_at : ℕ → List Pair → List ℕ → LeafOf
  leaf_at key pairs free = record {
    key = key;
    pos = a.s.pos;
    cap = a.s.cap;
    pairs = pairs;
    free = free;
  }

  pub place :
      (ls : List LeafOf) (key : ℕ) (pairs : List Pair) (free : List ℕ)
      → AllStand bl ls
      → length pairs * 12 + length free ≡ cap * 12
      → 0 < length pairs
      → (bl2 : BufList) × Placed a.bl' bl2 (leaf_at key pairs free) ls
  place ls key pairs free all sized filled =
      let l = leaf_at key pairs free in
      let bytes = leaf_bytes pairs free in
      let valid : IsSlot (slot_of l) = record {
        sized = omega (arith, length-leaf_bytes pairs free, sized, a.same_cap);
        small = a.valid.small;
      } in
      let (bl2, w) = put_leaf_lem a.bl' a.s a.valid a.own bytes valid in
      let (there, aparts) = moved ls all in
      (
        bl2,
        record {
          runs = w.runs;
          ready = Written-IsReady a.bl' bl2 a.s bytes w a.ready;
          stands = record {
            slot = valid;
            holds = w.own;
            before = Written-Before a.bl' bl2 a.s bytes (slot_of l) w a.mine;
            filled = filled;
          };
          apart = aparts;
          others = Written-AllStand a.bl' bl2 a.s bytes ls w aparts there;
        },
      )

-- The unit with a new leaf.
pub Placed-IsUnit :
    (u : IndexUnit) (from : BufList) (front : List LeafOf) (l : LeafOf) (back : List LeafOf)
    → u.bt ≡ tree_of (front ++ l ∷ back)
    → Placed from u.buf_list l (front ++ back)
    → AllApart (front ++ back)
    → Ordered 0 (front ++ l ∷ back) (2 ^ 56)
    → IsUnit u (front ++ l ∷ back)
Placed-IsUnit u from front l back tree p apart ordered = record {
  tree = tree;
  ready = p.ready;
  stand = AllStand-push u.buf_list front l back p.stands p.others;
  apart = AllApart-push front l back p.apart apart;
  ordered = ordered;
}
