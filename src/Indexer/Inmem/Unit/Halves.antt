-- ===== src/Indexer/Inmem/Unit/Halves.antt =====
-- The leaves after `Unit::add_kv` of qmdb/src/indexer/inmem.rs split one.
use mathlib.Core.List.{append_assoc, append-nil}
use qmdb.Common.{
  ℕ, ◌+◌, ◌*◌, ◌%◌, ◌^◌, ◌<◌, ◌≡◌, inl, inr, refl, ap, ap₂, sym, ◌∙◌, List, [], ◌∷◌, ◌++◌, some,
  true, false, length, subst, ◌==◌, ◌>>=◌, Bool-cases, arith,
}
use qmdb.Extern.Byteorder.{ByteOrder}
use qmdb.Indexer.Inmem.BTree as BTree
use qmdb.Indexer.Inmem.BufList.{BufList, put_leaf}
use qmdb.Indexer.Inmem.BufList.Alloc.{Allocated}
use qmdb.Indexer.Inmem.Leaf.Shows.{Pair, leaf_bytes}
use qmdb.Indexer.Inmem.Leaf.Search.{seek_lem, seek_index-below}
use qmdb.Indexer.Inmem.Unit.{IndexUnit, add_at}
use qmdb.Indexer.Inmem.Unit.Leaves.{
  LeafOf, tree_of, high, flat, full, flat-append, Within, Ordered, Ordered-join, AllFrom,
}
use qmdb.Indexer.Inmem.Unit.Standing.{IsUnit}
use qmdb.Indexer.Inmem.Unit.Lookup.{Located, Within-le}
use qmdb.Indexer.Inmem.Unit.Rewriting.{with_pairs, kept-IsUnit, dropped-IsUnit}
use qmdb.Indexer.Inmem.Unit.Parts.{few, got, bytes, around_pair}
use qmdb.Indexer.Inmem.Unit.Cut.{
  was, lower, upper, together, from_parts, front_below, behind_from, same_full, front-Within,
  behind-Within,
}
use qmdb.Indexer.Inmem.Unit.Fresh.{leaf_at, place, Placed-IsUnit, tree_of-insert, tree_of-replace}
use qmdb.Indexer.Inmem.Unit.Alone.{between, length-full}
use qmdb.Indexer.Inmem.Unit.Inserting.{Added, is_full_lem, add_kv-at}
use qmdb.Indexer.Inmem.Unit.Splitting.{
  stay, go, rest, room, sized, first, a, moved, new_sized, at, split_unit, split_runs,
}

empty : (ps : List Pair) → length ps ≡ 0 → ps ≡ []
empty [] h = refl
empty (p ∷ ps) h = absurd (omega (arith, h))

module _ (bo : ByteOrder) (u : IndexUnit) (ls : List LeafOf) (k v : ℕ) (inv : IsUnit u ls)
    (small : k < 2 ^ 56) (loc : Located k ls) (below_max : length loc.leaf.pairs + 3 < 2 ^ 16)
    (bufs : length u.buf_list.list + 1 < 2 ^ 32) (fits : v < 2 ^ 48) where
  abbrev low : ℕ
  low = k % 2 ^ 48

  abbrev old_key : ℕ
  old_key = loc.leaf.key

  abbrev F : List Pair
  F = stay bo u ls k v inv small loc below_max bufs

  abbrev B : List Pair
  B = go bo u ls k v inv small loc below_max bufs

  abbrev index : ℕ
  index = at bo u ls k v inv small loc below_max bufs

  abbrev pairs : List Pair
  pairs = (low, v) ∷ B

  abbrev kept_free : List ℕ
  kept_free = rest bo u ls k v inv small loc below_max bufs

  abbrev new :
      Allocated bo
        (room bo u ls k v inv small loc below_max bufs)
        (first bo u ls k v inv small loc below_max bufs).0
  new = a bo u ls k v inv small loc below_max bufs

  abbrev free : List ℕ
  free = (moved bo u ls k v inv small loc below_max bufs).0

  -- The leaves after a split.
  pub record Halves : Type 0 where
    pub bl2 : BufList
    pub stored : put_leaf new.bl' new.s.pos (leaf_bytes pairs free) ≡ some bl2
    pub leaves : List LeafOf
    pub unit : IsUnit (split_unit bo u ls k v inv small loc below_max bufs bl2) leaves
    pub is :
        flat leaves
        ≡ (flat loc.front ++ full old_key F) ++ (k, v) ∷ (full old_key B ++ flat loc.back)

  abbrev leaf_with : ℕ → LeafOf
  leaf_with new_key =
      leaf_at bo (room bo u ls k v inv small loc below_max bufs)
        (first bo u ls k v inv small loc below_max bufs).0 new new_key pairs free

  -- Nothing stays: the new leaf takes the place of the old one.
  one_half : (index == 0) ≡ true → F ≡ [] → Halves
  one_half t none_stay =
      let u0 =
        dropped-IsUnit u ls k inv loc F kept_free (sized bo u ls k v inv small loc below_max bufs)
          0 in
      let (bl2, p) =
        place bo (room bo u ls k v inv small loc below_max bufs)
          (first bo u ls k v inv small loc below_max bufs).0 new (loc.front ++ loc.back) old_key
          pairs free u0.stand (new_sized bo u ls k v inv small loc below_max bufs) (omega arith) in
      let l = leaf_with old_key in
      let joined = together bo u ls k v inv small loc in
      let within : Within l loc.bound =
        behind-Within bo u ls k v inv small loc old_key l.pos l.cap free loc.at_most refl fits
          (omega (arith, joined, loc.at_most), (from_parts bo u ls k v inv small loc).1) in
      record {
        bl2 = bl2;
        stored = p.runs;
        leaves = loc.front ++ l ∷ loc.back;
        unit = rw t (
            Placed-IsUnit _ new.bl' loc.front l loc.back
              (ap (λ x. BTree.insert x old_key l.pos) (inv.tree ∙ ap tree_of loc.parts)
                ∙ tree_of-replace 0 loc.low loc.front loc.leaf l loc.back loc.lower loc.low_key
                    refl)
              p u0.apart
              (Ordered-join 0 loc.front (l ∷ loc.back) loc.low (2 ^ 56) loc.lower
                (loc.low_key, (loc.bound, within, loc.upper))));
        is =
            flat-append loc.front (l ∷ loc.back)
            ∙ ap (λ x. flat loc.front ++ (full old_key (x ++ pairs) ++ flat loc.back))
                (sym none_stay)
            ∙ around_pair bo u ls k v inv small loc F B v;
      }

  -- The old leaf keeps some pairs, and the new one stands behind it.
  two_halves : (index == 0) ≡ false → 0 < length F → Halves
  two_halves t some_stay =
      let joined = together bo u ls k v inv small loc in
      let under : old_key < k =
        between old_key k (full old_key F) (from_parts bo u ls k v inv small loc).0
          (front_below bo u ls k v inv small loc)
          (omega (arith, some_stay, length-full old_key F)) in
      let old = with_pairs loc.leaf F kept_free in
      let old_within : Within old k = front-Within bo u ls k v inv small loc kept_free under in
      let u0 =
        kept-IsUnit u ls k inv loc F kept_free (sized bo u ls k v inv small loc below_max bufs) 0
          some_stay (Within-le old k loc.bound (omega (arith, loc.below_bound)) old_within) in
      let fronts = loc.front ++ old ∷ [] in
      let again : loc.front ++ old ∷ loc.back ≡ fronts ++ loc.back =
        sym (append_assoc loc.front (old ∷ []) loc.back) in
      let ordered : Ordered 0 fronts k =
        Ordered-join 0 loc.front (old ∷ []) loc.low k loc.lower
          (loc.low_key, (k, old_within, omega arith)) in
      let u1 = subst (IsUnit _) again u0 in
      let (bl2, p) =
        place bo (room bo u ls k v inv small loc below_max bufs)
          (first bo u ls k v inv small loc below_max bufs).0 new (fronts ++ loc.back) k pairs free
          u1.stand (new_sized bo u ls k v inv small loc below_max bufs) (omega arith) in
      let l = leaf_with k in
      let high_k : high k + low ≡ k = omega arith in
      let shown : full old_key B ≡ full k B = same_full k old_key B (sym loc.same_high) in
      let within : Within l loc.bound =
        behind-Within bo u ls k v inv small loc k l.pos l.cap free (omega arith) (sym loc.same_high)
          fits
          (
            omega (arith, high_k),
            subst (AllFrom k) shown (behind_from bo u ls k v inv small loc),
          ) in
      record {
        bl2 = bl2;
        stored = p.runs;
        leaves = fronts ++ l ∷ loc.back;
        unit = rw t (
            Placed-IsUnit _ new.bl' fronts l loc.back
              (ap (λ x. BTree.insert x k l.pos) u1.tree
                ∙ tree_of-insert 0 k loc.bound (2 ^ 56) fronts l loc.back ordered (omega arith)
                    loc.below_bound loc.upper)
              p u1.apart
              (Ordered-join 0 fronts (l ∷ loc.back) k (2 ^ 56) ordered
                (omega arith, (loc.bound, within, loc.upper))));
        is =
            flat-append fronts (l ∷ loc.back)
            ∙ ap₂ (λ (x : List Pair) (y : ℕ). x ++ (y, v) ∷ (full k B ++ flat loc.back))
                (flat-append loc.front (old ∷ [])
                  ∙ ap (λ x. flat loc.front ++ x) (append-nil (full old_key F)))
                high_k
            ∙ ap (λ x. (flat loc.front ++ full old_key F) ++ (k, v) ∷ (x ++ flat loc.back))
                (sym shown);
      }

  halves : Halves
  halves = elim (Bool-cases (index == 0)) [
    | inl t ↦ one_half t (empty F (ground arith))
    | inr t ↦ two_halves t (ground arith)
  ]

  -- A full leaf is split.
  pub add_split :
      (p : Pair) (qs : List Pair)
      → B ≡ p ∷ qs
      → (2 + length loc.leaf.pairs * 12 == length (bytes bo u ls k v inv small loc)) ≡ true
      → Added bo u ls k v
  unfolding add_at
  add_split p qs some_go is_full =
      let few' = few bo u ls k v inv small loc in
      let h = halves in
      record {
        result = split_unit bo u ls k v inv small loc below_max bufs h.bl2;
        leaves = h.leaves;
        before = _;
        after = _;
        runs =
            add_kv-at bo u ls k v inv small fits loc
            ∙ rw
                (
                  got bo u ls k v inv small loc,
                  ◌>>=◌,
                  is_full_lem bo loc.leaf.pairs loc.leaf.free few',
                  seek_lem bo loc.leaf.pairs loc.leaf.free loc.within.fits few' low,
                  seek_index-below 0 low loc.leaf.pairs p qs some_go,
                  is_full,
                )
                (split_runs bo u ls k v inv small loc below_max bufs h.bl2 h.stored);
        unit = h.unit;
        was = was bo u ls k v inv small loc;
        is = h.is;
        lower = lower bo u ls k v inv small loc;
        upper = upper bo u ls k v inv small loc;
      }
