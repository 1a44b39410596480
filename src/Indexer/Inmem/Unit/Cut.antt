-- ===== src/Indexer/Inmem/Unit/Cut.antt =====
-- The place of a key among the pairs of its leaf in a unit of qmdb/src/indexer/inmem.rs.
use qmdb.Common.{
  ℕ, ◌+◌, ◌%◌, ◌^◌, ◌<◌, ◌≤◌, ◌≡◌, refl, ap, ap₂, sym, ◌∙◌, List, [], ◌∷◌, ◌++◌, subst, arith,
}
use qmdb.Extern.Byteorder.{ByteOrder}
use qmdb.Indexer.Inmem.Leaf.Shows.{Pair, AllFit}
use qmdb.Indexer.Inmem.Leaf.Sorted.{KeysFrom, IsSorted, below, above, below-above}
use qmdb.Indexer.Inmem.Leaf.Cut.{
  KeysBelow, below-KeysBelow, insert-IsSorted, IsSorted-split, AllFit-split, AllFit-join,
}
use qmdb.Indexer.Inmem.Unit.{IndexUnit}
use qmdb.Indexer.Inmem.Unit.Leaves.{
  LeafOf, high, full, flat, full-append, AllBelow, AllFrom, AllBelow-append, AllFrom-append,
  AllBelow-le, AllFrom-le, flat-AllBelow, flat-AllFrom, Within,
}
use qmdb.Indexer.Inmem.Unit.Standing.{IsUnit}
use qmdb.Indexer.Inmem.Unit.Lookup.{Located}
use qmdb.Indexer.Inmem.Unit.Rewriting.{with_pairs}
use qmdb.Indexer.Inmem.Unit.Pairs.{flat-Located}
use qmdb.Indexer.Inmem.Unit.Parts.{around_gap, joined}

AllBelow-split : (n : ℕ) (ps qs : List Pair) → AllBelow n (ps ++ qs) → AllBelow n ps × AllBelow n qs
AllBelow-split n [] qs a = (tt, a)
AllBelow-split n (p ∷ ps) qs a = let (b, c) = AllBelow-split n ps qs (a.1) in ((a.0, b), c)

AllFrom-split : (n : ℕ) (ps qs : List Pair) → AllFrom n (ps ++ qs) → AllFrom n ps × AllFrom n qs
AllFrom-split n [] qs a = (tt, a)
AllFrom-split n (p ∷ ps) qs a = let (b, c) = AllFrom-split n ps qs (a.1) in ((a.0, b), c)

full-AllBelow :
    (key low k : ℕ) (ps : List Pair)
    → high key + low ≡ k
    → KeysBelow low ps
    → AllBelow k (full key ps)
full-AllBelow key low k [] e b = tt
full-AllBelow key low k (p ∷ ps) e b = (omega (arith, e, b.0), full-AllBelow key low k ps e (b.1))

full-AllFrom :
    (key low k : ℕ) (ps : List Pair)
    → high key + low ≡ k
    → KeysFrom low ps
    → AllFrom k (full key ps)
full-AllFrom key low k [] e b = tt
full-AllFrom key low k (p ∷ ps) e b = (omega (arith, e, b.0), full-AllFrom key low k ps e (b.1))

-- Keys with the same high bits show the same pairs.
pub same_full : (key key' : ℕ) (ps : List Pair) → high key ≡ high key' → full key' ps ≡ full key ps
same_full key key' [] same = refl
same_full key key' (p ∷ ps) same =
    ap₂ (λ (n : ℕ) (t : List Pair). (n + p.0, p.1) ∷ t) (sym same) (same_full key key' ps same)

module _ (bo : ByteOrder) (u : IndexUnit) (ls : List LeafOf) (k v : ℕ) (inv : IsUnit u ls)
    (small : k < 2 ^ 56) (loc : Located k ls) where
  abbrev pub front : List Pair
  front = below (k % 2 ^ 48) loc.leaf.pairs

  abbrev pub behind : List Pair
  behind = above (k % 2 ^ 48) loc.leaf.pairs

  abbrev pub inserted : List Pair
  inserted = front ++ (k % 2 ^ 48, v) ∷ behind

  pub whole : front ++ behind ≡ loc.leaf.pairs
  whole = below-above (k % 2 ^ 48) loc.leaf.pairs

  pub together : high loc.leaf.key + k % 2 ^ 48 ≡ k
  together = joined bo u ls k v inv small loc

  pub was :
      flat ls
      ≡ (flat loc.front ++ full loc.leaf.key front) ++ (full loc.leaf.key behind ++ flat loc.back)
  was =
      flat-Located k ls loc
      ∙ ap (λ t. flat loc.front ++ (full loc.leaf.key t ++ flat loc.back)) (sym whole)
      ∙ around_gap bo u ls k v inv small loc front behind

  pub sorted : IsSorted inserted
  sorted = insert-IsSorted (k % 2 ^ 48) v loc.leaf.pairs loc.within.sorted

  pub front_below : AllBelow k (full loc.leaf.key front)
  front_below =
      full-AllBelow loc.leaf.key (k % 2 ^ 48) k front together
        (below-KeysBelow (k % 2 ^ 48) loc.leaf.pairs)

  pub behind_from : AllFrom k (full loc.leaf.key behind)
  behind_from =
      full-AllFrom loc.leaf.key (k % 2 ^ 48) k behind together
        ((IsSorted-split front ((k % 2 ^ 48, v) ∷ behind) sorted).1).0

  pub lower : AllBelow k (flat loc.front ++ full loc.leaf.key front)
  lower =
      AllBelow-append k (flat loc.front) (full loc.leaf.key front)
        (AllBelow-le loc.low k (flat loc.front) (omega (arith, loc.low_key, loc.at_most))
          (flat-AllBelow 0 loc.front loc.low loc.lower))
        front_below

  pub upper : AllFrom k (full loc.leaf.key behind ++ flat loc.back)
  upper = AllFrom-append k (full loc.leaf.key behind) (flat loc.back) behind_from (
      AllFrom-le loc.bound k (flat loc.back) (omega (arith, loc.below_bound))
        (flat-AllFrom loc.bound loc.back (2 ^ 56) loc.upper))

  split_full :
      full loc.leaf.key loc.leaf.pairs ≡ full loc.leaf.key front ++ full loc.leaf.key behind
  split_full = ap (full loc.leaf.key) (sym whole) ∙ full-append loc.leaf.key front behind

  pub from_parts :
      AllFrom loc.leaf.key (full loc.leaf.key front)
      × AllFrom loc.leaf.key (full loc.leaf.key behind)
  from_parts =
      AllFrom-split loc.leaf.key _ _ (subst (AllFrom loc.leaf.key) split_full loc.within.from_key)

  below_parts :
      AllBelow loc.bound (full loc.leaf.key front) × AllBelow loc.bound (full loc.leaf.key behind)
  below_parts =
      AllBelow-split loc.bound _ _ (subst (AllBelow loc.bound) split_full loc.within.all_below)

  fit_parts : AllFit front × AllFit behind
  fit_parts = AllFit-split front behind (subst AllFit (sym whole) loc.within.fits)

  -- The leaf with the pair in its place.
  pub inserted-Within :
      (free : List ℕ) → v < 2 ^ 48 → Within (with_pairs loc.leaf inserted free) loc.bound
  inserted-Within free fits =
      let key = loc.leaf.key in
      let again = sym (full-append key front ((k % 2 ^ 48, v) ∷ behind)) in
      record {
        key_below = loc.within.key_below;
        from_key = subst (AllFrom key) again (
            AllFrom-append key (full key front) _ from_parts.0
              (omega (arith, together, loc.at_most), from_parts.1));
        all_below = subst (AllBelow loc.bound) again (
            AllBelow-append loc.bound (full key front) _ below_parts.0
              (omega (arith, together, loc.below_bound), below_parts.1));
        sorted = sorted;
        fits = AllFit-join front _ fit_parts.0 ((omega arith, fits), fit_parts.1);
      }

  -- The two leaves of a split: what stays, and the pair with what moves. The new leaf has the key.
  pub front-Within : (free : List ℕ) → loc.leaf.key < k → Within (with_pairs loc.leaf front free) k
  front-Within free h = record {
    key_below = h;
    from_key = from_parts.0;
    all_below = front_below;
    sorted = (IsSorted-split front ((k % 2 ^ 48, v) ∷ behind) sorted).0;
    fits = fit_parts.0;
  }

  pub behind-Within :
      (key pos cap : ℕ) (free : List ℕ)
      → key ≤ k
      → high key ≡ high loc.leaf.key
      → v < 2 ^ 48
      → AllFrom key (full key ((k % 2 ^ 48, v) ∷ behind))
      → Within
          (record {
            key = key;
            pos = pos;
            cap = cap;
            pairs = (k % 2 ^ 48, v) ∷ behind;
            free = free;
          })
          loc.bound
  behind-Within key pos cap free h same fits from = record {
    key_below = omega (arith, h, loc.below_bound);
    from_key = from;
    all_below = (
      omega (arith, together, same, loc.below_bound),
      subst (AllBelow loc.bound) (same_full key loc.leaf.key behind same) below_parts.1,
    );
    sorted = (IsSorted-split front ((k % 2 ^ 48, v) ∷ behind) sorted).1;
    fits = ((omega arith, fits), fit_parts.1);
  }
