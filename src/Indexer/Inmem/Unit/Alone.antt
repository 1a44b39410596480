-- ===== src/Indexer/Inmem/Unit/Alone.antt =====
-- `Unit::add_kv` of qmdb/src/indexer/inmem.rs when no leaf takes the pair: it gets its own.
use mathlib.Core.List.{append_assoc, append-nil}
use qmdb.Common.{
  ℕ, ◌+◌, ◌*◌, ◌%◌, ◌^◌, ◌<◌, ◌≡◌, refl, ap, ap₂, sym, ◌∙◌, List, [], ◌∷◌, ◌++◌, none, true, length,
  subst, ◌==◌, ◌>>=◌, arith,
}
use qmdb.Extern.Byteorder.{ByteOrder}
use qmdb.Indexer.Inmem.BTree.{last_of, last_upto}
use qmdb.Indexer.Inmem.Leaf.Shows.{Pair}
use qmdb.Indexer.Inmem.Leaf.Search.{seek_lem, seek_index-none}
use qmdb.Indexer.Inmem.Unit.{IndexUnit, add_at, add_kv, add_leaf, split_hi_lo}
use qmdb.Indexer.Inmem.Unit.Leaves.{
  LeafOf, high, flat, full, flat-append, AllBelow, AllFrom, AllFrom-le, flat-AllBelow, flat-AllFrom,
  Within, Ordered, Ordered-join, AllBelow-le,
}
use qmdb.Indexer.Inmem.Unit.Standing.{IsUnit}
use qmdb.Indexer.Inmem.Unit.Lookup.{Located, Missing, in_range, split_hi_lo_lem}
use qmdb.Indexer.Inmem.Unit.Rewriting.{with_pairs, own_leaf}
use qmdb.Indexer.Inmem.Unit.Parts.{few, got, bytes}
use qmdb.Indexer.Inmem.Unit.Cut.{front, behind, whole, front_below, front-Within}
use qmdb.Indexer.Inmem.Unit.Adding.{add_leaf_lem}
use qmdb.Indexer.Inmem.Unit.Inserting.{Added, is_full_lem, add_kv-at}

pub between : (n m : ℕ) (ps : List Pair) → AllFrom n ps → AllBelow m ps → 0 < length ps → n < m
between n m [] f b h = absurd (omega (arith, h))
between n m (p ∷ ps) f b h = omega (arith, f.0, b.0)

pub length-full : (key : ℕ) (ps : List Pair) → length (full key ps) ≡ length ps
length-full key [] = refl
length-full key (p ∷ ps) = omega (arith, length-full key ps)

module _ (bo : ByteOrder) (u : IndexUnit) (ls : List LeafOf) (k v : ℕ) (inv : IsUnit u ls)
    (small : k < 2 ^ 56) (fits : v < 2 ^ 48) (bufs : length u.buf_list.list + 1 < 2 ^ 32) where
  -- No leaf for the key.
  pub add_missing : Missing k ls → Added bo u ls k v
  unfolding add_kv
  add_missing mis =
      let inv' = subst (IsUnit u) mis.parts inv in
      let (u', leaves, runs, unit, is) =
        add_leaf_lem bo u mis.front mis.back k v (high k) (k + 1) (high k) inv' bufs fits
          (omega arith) (omega arith) (omega arith) mis.lower (omega arith) mis.upper in
      let no : last_upto u.bt (split_hi_lo k).0 k ≡ none =
        ap (last_of (in_range k)) inv.tree ∙ mis.no_last in
      let (hi, lo) = split_hi_lo_lem k small in
      record {
        result = u';
        leaves = leaves;
        before = flat mis.front;
        after = flat mis.back;
        runs = rw (add_kv, no) (ap₂ (λ (x y : ℕ). add_leaf bo x y v u) hi lo ∙ runs);
        unit = unit;
        was = ap flat mis.parts ∙ flat-append mis.front mis.back;
        is = is;
        lower =
            AllBelow-le (high k) k (flat mis.front) (omega arith)
              (flat-AllBelow 0 mis.front (high k) mis.lower);
        upper =
            AllFrom-le (k + 1) k (flat mis.back) (omega arith)
              (flat-AllFrom (k + 1) mis.back (2 ^ 56) mis.upper);
      }

  module _ (loc : Located k ls)
      (is_full : (2 + length loc.leaf.pairs * 12 == length (bytes bo u ls k v inv small loc))
        ≡ true) where
    -- All keys of a full leaf are lower.
    pub add_behind : behind bo u ls k v inv small loc ≡ [] → Added bo u ls k v
    unfolding add_at
    add_behind none_behind =
        let low = k % 2 ^ 48 in
        let ps = loc.leaf.pairs in
        let F = front bo u ls k v inv small loc in
        let same : F ≡ ps =
          sym (append-nil F)
          ∙ ap (λ t. F ++ t) (sym none_behind)
          ∙ whole bo u ls k v inv small loc in
        let below : AllBelow k (full loc.leaf.key ps) =
          subst (λ t. AllBelow k (full loc.leaf.key t)) same
            (front_below bo u ls k v inv small loc) in
        let filled = (own_leaf u ls k inv loc).filled in
        let under : loc.leaf.key < k =
          between loc.leaf.key k (full loc.leaf.key ps) loc.within.from_key below
            (omega (arith, filled, length-full loc.leaf.key ps)) in
        let within : Within loc.leaf k =
          subst (λ t. Within (with_pairs loc.leaf t loc.leaf.free) k) same
            (front-Within bo u ls k v inv small loc loc.leaf.free under) in
        let fronts = loc.front ++ loc.leaf ∷ [] in
        let again : ls ≡ fronts ++ loc.back =
          loc.parts ∙ sym (append_assoc loc.front (loc.leaf ∷ []) loc.back) in
        let ordered : Ordered 0 fronts k =
          Ordered-join 0 loc.front (loc.leaf ∷ []) loc.low k loc.lower
            (loc.low_key, (k, within, omega arith)) in
        let (u', leaves, runs, unit, is) =
          add_leaf_lem bo u fronts loc.back k v k loc.bound k (subst (IsUnit u) again inv) bufs fits
            (omega arith) (omega arith) loc.below_bound ordered (omega arith) loc.upper in
        let seek =
          seek_lem bo ps loc.leaf.free loc.within.fits (few bo u ls k v inv small loc) low in
        record {
          result = u';
          leaves = leaves;
          before = flat fronts;
          after = flat loc.back;
          runs =
              add_kv-at bo u ls k v inv small fits loc
              ∙ rw
                  (
                    got bo u ls k v inv small loc,
                    ◌>>=◌,
                    is_full_lem bo ps loc.leaf.free (few bo u ls k v inv small loc),
                    seek,
                    seek_index-none 0 low ps none_behind,
                    is_full,
                  )
                  runs;
          unit = unit;
          was = ap flat again ∙ flat-append fronts loc.back;
          is = is;
          lower = flat-AllBelow 0 fronts k ordered;
          upper =
              AllFrom-le loc.bound k (flat loc.back) (omega (arith, loc.below_bound))
                (flat-AllFrom loc.bound loc.back (2 ^ 56) loc.upper);
        }
