-- ===== src/Indexer/Inmem/Unit/Pairs.antt =====
-- Where a key's pairs stand among all pairs of a unit of qmdb/src/indexer/inmem.rs.
use qmdb.Common.{
  ℕ, ◌+◌, ◌%◌, ◌^◌, ◌<◌, ◌≤◌, ◌≡◌, ◌⊎◌, inl, inr, ap, ap₂, ◌∙◌, List, [], ◌∷◌, ◌++◌, arith, subst,
}
use qmdb.Indexer.Inmem.Leaf.Shows.{Pair, AllFit}
use qmdb.Indexer.Inmem.Leaf.Sorted.{In, KeysFrom, IsSorted}
use qmdb.Indexer.Inmem.Unit.Leaves.{
  LeafOf, high, full, flat, AllBelow, AllFrom, flat-AllBelow, flat-AllFrom, flat-append,
}
use qmdb.Indexer.Inmem.Unit.Lookup.{Located, Missing}

pub In-append : (p : Pair) (ps qs : List Pair) → In p (ps ++ qs) → In p ps ⊎ In p qs
In-append p [] qs i = inr i
In-append p (q ∷ ps) qs (inl e) = inl (inl e)
In-append p (q ∷ ps) qs (inr i) = elim (In-append p ps qs i) [ inl a ↦ inl (inr a) | inr b ↦ inr b ]

pub In-AllBelow : (p : Pair) (n : ℕ) (ps : List Pair) → AllBelow n ps → In p ps → p.0 < n
In-AllBelow p n [] a i = absurd i
In-AllBelow p n (q ∷ ps) a (inl e) = omega (arith, a.0, ap (λ r. r.0) e)
In-AllBelow p n (q ∷ ps) a (inr i) = In-AllBelow p n ps (a.1) i

pub In-AllFrom : (p : Pair) (n : ℕ) (ps : List Pair) → AllFrom n ps → In p ps → n ≤ p.0
In-AllFrom p n [] a i = absurd i
In-AllFrom p n (q ∷ ps) a (inl e) = omega (arith, a.0, ap (λ r. r.0) e)
In-AllFrom p n (q ∷ ps) a (inr i) = In-AllFrom p n ps (a.1) i

-- The low 48 bits of a key are what its leaf has.
pub In-full :
    (k v key : ℕ) (ps : List Pair)
    → high key ≡ high k
    → AllFit ps
    → In (k, v) (full key ps)
    → In (k % 2 ^ 48, v) ps
In-full k v key [] h f i = i
In-full k v key (p ∷ ps) h f (inr i) = inr (In-full k v key ps h (f.1) i)
In-full k v key (p ∷ ps) h f (inl e) =
    let first : k ≡ high key + p.0 = ap (λ r. r.0) e in
    let second : v ≡ p.1 = ap (λ r. r.1) e in
    let low : k % 2 ^ 48 ≡ p.0 = omega (arith, (f.0).0) in
    inl (ap₂ (λ (a b : ℕ). (a, b)) low second)

module _ (k : ℕ) (ls : List LeafOf) where
  pub flat-Located :
      (loc : Located k ls)
      → flat ls ≡ flat loc.front ++ (full loc.leaf.key loc.leaf.pairs ++ flat loc.back)
  flat-Located loc = ap flat loc.parts ∙ flat-append loc.front (loc.leaf ∷ loc.back)

  -- A pair with the key stands in the leaf.
  pub In-leaf :
      (loc : Located k ls) (v : ℕ) → In (k, v) (flat ls) → In (k % 2 ^ 48, v) loc.leaf.pairs
  In-leaf loc v i =
      let i' = subst (In (k, v)) (flat-Located loc) i in
      elim (In-append (k, v) (flat loc.front) _ i') [
        | inl a ↦ absurd (
            omega (
              arith,
              In-AllBelow (k, v) loc.low (flat loc.front)
                  (flat-AllBelow 0 loc.front loc.low loc.lower) a,
              loc.low_key,
              loc.at_most,
            ))
        | inr j ↦ elim (In-append (k, v) (full loc.leaf.key loc.leaf.pairs) (flat loc.back) j) [
          | inl b ↦ In-full k v loc.leaf.key loc.leaf.pairs loc.same_high loc.within.fits b
          | inr c ↦ absurd (
              omega (
                arith,
                In-AllFrom (k, v) loc.bound (flat loc.back)
                    (flat-AllFrom loc.bound loc.back (2 ^ 56) loc.upper) c,
                loc.below_bound,
              ))
        ]
      ]

  -- Without a leaf there is none.
  pub not-In-Missing : (mis : Missing k ls) (v : ℕ) → In (k, v) (flat ls) → ⊥
  not-In-Missing mis v i =
      let i' = subst (In (k, v)) (ap flat mis.parts ∙ flat-append mis.front mis.back) i in
      elim (In-append (k, v) (flat mis.front) (flat mis.back) i') [
        | inl a ↦ omega (
          arith,
          In-AllBelow (k, v) (high k) (flat mis.front)
              (flat-AllBelow 0 mis.front (high k) mis.lower) a,
        )
        | inr b ↦ omega (
          arith,
          In-AllFrom (k, v) (k + 1) (flat mis.back)
              (flat-AllFrom (k + 1) mis.back (2 ^ 56) mis.upper) b,
        )
      ]

-- Parts of lists that satisfy the bounds satisfy them.
pub AllBelow-edit :
    (n : ℕ) (ps qs : List Pair) (p : Pair) → AllBelow n (ps ++ p ∷ qs) → AllBelow n (ps ++ qs)
AllBelow-edit n [] qs p a = a.1
AllBelow-edit n (r ∷ ps) qs p a = (a.0, AllBelow-edit n ps qs p (a.1))

pub AllFrom-edit :
    (n : ℕ) (ps qs : List Pair) (p : Pair) → AllFrom n (ps ++ p ∷ qs) → AllFrom n (ps ++ qs)
AllFrom-edit n [] qs p a = a.1
AllFrom-edit n (r ∷ ps) qs p a = (a.0, AllFrom-edit n ps qs p (a.1))

KeysFrom-edit :
    (n : ℕ) (ps qs : List Pair) (p : Pair) → KeysFrom n (ps ++ p ∷ qs) → KeysFrom n (ps ++ qs)
KeysFrom-edit n [] qs p a = a.1
KeysFrom-edit n (r ∷ ps) qs p a = (a.0, KeysFrom-edit n ps qs p (a.1))

pub IsSorted-edit : (ps qs : List Pair) (p : Pair) → IsSorted (ps ++ p ∷ qs) → IsSorted (ps ++ qs)
IsSorted-edit [] qs p s = s.1
IsSorted-edit (r ∷ ps) qs p s = (KeysFrom-edit (r.0) ps qs p (s.0), IsSorted-edit ps qs p (s.1))

pub AllFit-edit : (ps qs : List Pair) (p : Pair) → AllFit (ps ++ p ∷ qs) → AllFit (ps ++ qs)
AllFit-edit [] qs p f = f.1
AllFit-edit (r ∷ ps) qs p f = (f.0, AllFit-edit ps qs p (f.1))

-- So do lists with another pair of the same key.
pub AllBelow-change :
    (n k v w : ℕ) (ps qs : List Pair)
    → AllBelow n (ps ++ (k, v) ∷ qs)
    → AllBelow n (ps ++ (k, w) ∷ qs)
AllBelow-change n k v w [] qs a = a
AllBelow-change n k v w (r ∷ ps) qs a = (a.0, AllBelow-change n k v w ps qs (a.1))

pub AllFrom-change :
    (n k v w : ℕ) (ps qs : List Pair)
    → AllFrom n (ps ++ (k, v) ∷ qs)
    → AllFrom n (ps ++ (k, w) ∷ qs)
AllFrom-change n k v w [] qs a = a
AllFrom-change n k v w (r ∷ ps) qs a = (a.0, AllFrom-change n k v w ps qs (a.1))

KeysFrom-change :
    (n k v w : ℕ) (ps qs : List Pair)
    → KeysFrom n (ps ++ (k, v) ∷ qs)
    → KeysFrom n (ps ++ (k, w) ∷ qs)
KeysFrom-change n k v w [] qs a = a
KeysFrom-change n k v w (r ∷ ps) qs a = (a.0, KeysFrom-change n k v w ps qs (a.1))

pub IsSorted-change :
    (k v w : ℕ) (ps qs : List Pair) → IsSorted (ps ++ (k, v) ∷ qs) → IsSorted (ps ++ (k, w) ∷ qs)
IsSorted-change k v w [] qs s = s
IsSorted-change k v w (r ∷ ps) qs s =
    (KeysFrom-change (r.0) k v w ps qs (s.0), IsSorted-change k v w ps qs (s.1))

pub AllFit-change :
    (k v w : ℕ) (ps qs : List Pair)
    → w < 2 ^ 48
    → AllFit (ps ++ (k, v) ∷ qs)
    → AllFit (ps ++ (k, w) ∷ qs)
AllFit-change k v w [] qs h f = (((f.0).0, h), f.1)
AllFit-change k v w (r ∷ ps) qs h f = (f.0, AllFit-change k v w ps qs h (f.1))
