-- ===== src/Indexer/Inmem/Unit/Values.antt =====
-- `Unit::for_each_value` of qmdb/src/indexer/inmem.rs against all pairs of the unit.
use mathlib.Core.List.{append_assoc, append-nil}
use qmdb.Common.{
  ℕ, ◌+◌, ◌%◌, ◌^◌, ◌<◌, ◌≡◌, inl, inr, refl, ap, ap₂, ◌∙◌, List, [], ◌∷◌, ◌++◌, some, none, Bool,
  true, false, length, length-append, ltb, ◌==◌, if◌then◌else◌, ◌>>=◌, Bool-cases, arith,
}
use qmdb.Extern.Byteorder.{ByteOrder}
use qmdb.Indexer.Inmem.BTree.{last_of, last_upto}
use qmdb.Indexer.Inmem.Leaf.Shows.{Pair, leaf_bytes, AllFit, leaf_len_lem}
use qmdb.Indexer.Inmem.Leaf.Sorted.{IsSorted, KeysFrom}
use qmdb.Indexer.Inmem.Leaf.Search.{get_next}
use qmdb.Indexer.Inmem.Unit.{IndexUnit, for_each_value, values_from, split_hi_lo}
use qmdb.Indexer.Inmem.Unit.Leaves.{
  LeafOf, high, full, flat, flat-append, AllBelow, AllFrom, AllBelow-le, flat-AllBelow,
  flat-AllFrom,
}
use qmdb.Indexer.Inmem.Unit.Standing.{IsUnit}
use qmdb.Indexer.Inmem.Unit.Lookup.{lookup_lem, in_range, split_hi_lo_lem}
use qmdb.Indexer.Inmem.Unit.Pairs.{flat-Located}
use qmdb.Indexer.Inmem.Unit.Parts.{few, found, got, joined}

-- The values of a key, in their order.
abbrev pub values_of : ℕ → List Pair → List ℕ
values_of k [] = []
values_of k (p ∷ ps) = let later = values_of k ps in if p.0 == k then p.1 ∷ later else later

-- A callback sees values until it asks to stop.
abbrev pub until_stop : {A : Type 0} → (ℕ → A → A × Bool) → List ℕ → A → A
until_stop access [] a = a
until_stop access (v ∷ vs) a =
    let later = until_stop access vs (access v a).0 in
    if (access v a).1 then (access v a).0 else later

pub values_of-append :
    (k : ℕ) (ps qs : List Pair) → values_of k (ps ++ qs) ≡ values_of k ps ++ values_of k qs
values_of-append k [] qs = refl
values_of-append k (p ∷ ps) qs = elim (Bool-cases (p.0 == k)) [
  | inl t ↦ rw t (ap (λ vs. p.1 ∷ vs) (values_of-append k ps qs))
  | inr t ↦ rw t (values_of-append k ps qs)
]

values_of-AllBelow : (k : ℕ) (ps : List Pair) → AllBelow k ps → values_of k ps ≡ []
values_of-AllBelow k [] a = refl
values_of-AllBelow k (p ∷ ps) a =
    let other : (p.0 == k) ≡ false = ground (arith, a.0) in rw other (values_of-AllBelow k ps (a.1))

values_of-AllFrom : (k n : ℕ) (ps : List Pair) → k < n → AllFrom n ps → values_of k ps ≡ []
values_of-AllFrom k n [] h a = refl
values_of-AllFrom k n (p ∷ ps) h a =
    let other : (p.0 == k) ≡ false = ground (arith, a.0, h) in
    rw other (values_of-AllFrom k n ps h (a.1))

values_of-KeysFrom : (k n : ℕ) (ps : List Pair) → k < n → KeysFrom n ps → values_of k ps ≡ []
values_of-KeysFrom k n [] h a = refl
values_of-KeysFrom k n (p ∷ ps) h a =
    let other : (p.0 == k) ≡ false = ground (arith, a.0, h) in
    rw other (values_of-KeysFrom k n ps h (a.1))

values_of-full :
    (key low k : ℕ) (ps : List Pair)
    → high key + low ≡ k
    → values_of k (full key ps) ≡ values_of low ps
values_of-full key low k [] e = refl
values_of-full key low k (p ∷ ps) e = elim (Bool-cases (p.0 == low)) [
  | inl t ↦
      let same : (high key + p.0 == k) ≡ true = ground (arith, e) in
      rw (t, same) (ap (λ vs. p.1 ∷ vs) (values_of-full key low k ps e))
  | inr t ↦
      let other : (high key + p.0 == k) ≡ false = ground (arith, e) in
      rw (t, other) (values_of-full key low k ps e)
]

module _ (bo : ByteOrder) {A : Type 0} (access : ℕ → A → A × Bool) where
  -- The loop over one leaf.
  values_from_lem :
      (done left ps : List Pair) (rest : List ℕ) (low : ℕ) (x : A)
      → done ++ left ≡ ps
      → AllFit left
      → IsSorted left
      → values_from bo (length left) (length done) (leaf_bytes ps rest) low access x
        ≡ some (until_stop access (values_of low left) x)
  unfolding values_from
  values_from_lem done [] ps rest low x e f s = refl
  values_from_lem done (p ∷ left) ps rest low x e f s =
      let here = get_next bo done left ps p rest e (f.0) in
      let next : length (done ++ p ∷ []) ≡ length done + 1 =
        omega (arith, length-append done (p ∷ [])) in
      let again = append_assoc done (p ∷ []) left ∙ e in
      let later =
        λ (y : A). values_from_lem (done ++ p ∷ []) left ps rest low y again (f.1) (s.1) in
      elim (Bool-cases (ltb (p.0) low)) [
        | inl t ↦
            let other : (p.0 == low) ≡ false = ground arith in
            rw (values_from, here, ◌>>=◌, t, other) (rw next at later x)
        | inr t ↦ elim (Bool-cases (p.0 == low)) [
          | inl same ↦ elim (Bool-cases (access (p.1) x).1) [
            | inl stop ↦ rw (values_from, here, ◌>>=◌, t, same, stop) refl
            | inr on ↦
                rw (values_from, here, ◌>>=◌, t, same, on) (rw next at later (access (p.1) x).0)
          ]
          | inr other ↦
              let above : low < p.0 = ground arith in
              rw (values_from, here, ◌>>=◌, t, other, values_of-KeysFrom low (p.0) left above (s.0))
                refl
        ]
      ]

  -- On a unit with these leaves, `for_each_value` of a key of 56 bits gives the callback the values
  -- that the key has among all pairs of the unit, in their order, until it asks to stop.
  pub for_each_value_lem :
      (u : IndexUnit) (ls : List LeafOf) (k : ℕ) (x : A)
      → IsUnit u ls
      → k < 2 ^ 56
      → for_each_value bo k access u x ≡ some (until_stop access (values_of k (flat ls)) x)
  unfolding for_each_value
  for_each_value_lem u ls k x inv small = elim (lookup_lem k ls small inv.ordered) [
    | inr mis ↦
        let no : last_upto u.bt (split_hi_lo k).0 k ≡ none =
          ap (last_of (in_range k)) inv.tree ∙ mis.no_last in
        let none_front = values_of-AllBelow k (flat mis.front) (
          AllBelow-le (high k) k (flat mis.front) (omega arith)
            (flat-AllBelow 0 mis.front (high k) mis.lower)) in
        let none_back =
          values_of-AllFrom k (k + 1) (flat mis.back) (omega arith)
            (flat-AllFrom (k + 1) mis.back (2 ^ 56) mis.upper) in
        let nothing : values_of k (flat ls) ≡ [] =
          ap (values_of k) (ap flat mis.parts ∙ flat-append mis.front mis.back)
          ∙ values_of-append k (flat mis.front) (flat mis.back)
          ∙ ap₂ (λ (a b : List ℕ). a ++ b) none_front none_back in
        rw (for_each_value, no, nothing) refl
    | inl loc ↦
        let low = k % 2 ^ 48 in
        let ps = loc.leaf.pairs in
        let few' = few bo u ls k 0 inv small loc in
        let none_front = values_of-AllBelow k (flat loc.front) (
          AllBelow-le loc.low k (flat loc.front) (omega (arith, loc.low_key, loc.at_most))
            (flat-AllBelow 0 loc.front loc.low loc.lower)) in
        let none_back =
          values_of-AllFrom k loc.bound (flat loc.back) loc.below_bound
            (flat-AllFrom loc.bound loc.back (2 ^ 56) loc.upper) in
        let own : values_of k (flat ls) ≡ values_of low ps =
          ap (values_of k) (flat-Located k ls loc)
          ∙ values_of-append k (flat loc.front) (full loc.leaf.key ps ++ flat loc.back)
          ∙ ap (λ a. a ++ values_of k (full loc.leaf.key ps ++ flat loc.back)) none_front
          ∙ values_of-append k (full loc.leaf.key ps) (flat loc.back)
          ∙ ap (λ b. values_of k (full loc.leaf.key ps) ++ b) none_back
          ∙ append-nil (values_of k (full loc.leaf.key ps))
          ∙ values_of-full loc.leaf.key low k ps (joined bo u ls k 0 inv small loc) in
        rw
          (
            for_each_value,
            found bo u ls k 0 inv small loc,
            got bo u ls k 0 inv small loc,
            ◌>>=◌,
            leaf_len_lem bo ps loc.leaf.free few',
            (split_hi_lo_lem k small).1,
            own,
          )
          (values_from_lem [] ps ps loc.leaf.free low x refl loc.within.fits loc.within.sorted)
  ]
