-- ===== src/Indexer/Inmem/Unit/Lookup.antt =====
-- Which leaf a key of a unit of qmdb/src/indexer/inmem.rs leads to.
use qmdb.Common.{
  ℕ, ◌+◌, ◌%◌, ◌^◌, ◌<◌, ◌≤◌, ◌≡◌, ◌⊎◌, inl, inr, refl, ap, List, [], ◌∷◌, ◌++◌, Bool, true, false,
  ◌&&◌, none, some, ltb, leb, Bool-cases, arith, min, max, subst,
}
use qmdb.Indexer.Inmem.BTree.{last_of}
use qmdb.Indexer.Inmem.Leaf.Shows.{Pair, AllFit}
use qmdb.Indexer.Inmem.Unit.{split_hi_lo}
use qmdb.Indexer.Inmem.Unit.Leaves.{
  LeafOf, tree_of, high, full, AllBelow, Within, Ordered, Ordered-split, AllBelow-le,
}

abbrev AllFail : (ℕ → Bool) → List LeafOf → Type 0
AllFail test [] = Unit {0}
AllFail test (l ∷ ls) = (test l.key ≡ false) × AllFail test ls

-- The last leaf whose key passes a test.
record Passes (test : ℕ → Bool) (ls : List LeafOf) : Type 0 where
  front : List LeafOf
  leaf : LeafOf
  back : List LeafOf
  parts : ls ≡ front ++ leaf ∷ back
  is_last : last_of test (tree_of ls) ≡ some (leaf.key, leaf.pos)
  passed : test leaf.key ≡ true
  later : AllFail test back

last_of_lem :
    (test : ℕ → Bool) (ls : List LeafOf)
    → Passes test ls ⊎ ((last_of test (tree_of ls) ≡ none) × AllFail test ls)
last_of_lem test [] = inr (refl, tt)
last_of_lem test (l ∷ ls) = elim (last_of_lem test ls) [
  | inl p ↦ inl (record {
    front = l ∷ p.front;
    leaf = p.leaf;
    back = p.back;
    parts = ap (◌∷◌ l) p.parts;
    is_last = rw (last_of, p.is_last) refl;
    passed = p.passed;
    later = p.later;
  })
  | inr (n, all) ↦ elim (Bool-cases (test l.key)) [
    | inl t ↦ inl (record {
      front = [];
      leaf = l;
      back = ls;
      parts = refl;
      is_last = rw (last_of, n, t) refl;
      passed = t;
      later = all;
    })
    | inr t ↦ inr (rw (last_of, n, t) refl, (t, all))
  ]
]

-- The test of a key's range.
abbrev pub in_range : ℕ → ℕ → Bool
in_range k j = leb (split_hi_lo k).0 j && leb j k

pub split_hi_lo_lem :
    (k : ℕ) → k < 2 ^ 56 → ((split_hi_lo k).0 ≡ high k) × ((split_hi_lo k).1 ≡ k % 2 ^ 48)
split_hi_lo_lem k h = omega arith

-- The leaf of a key: the pairs in front of it have lower keys, those behind it higher ones.
pub record Located (k : ℕ) (ls : List LeafOf) : Type 0 where
  pub front : List LeafOf
  pub leaf : LeafOf
  pub back : List LeafOf
  pub bound : ℕ
  pub low : ℕ
  pub parts : ls ≡ front ++ leaf ∷ back
  pub is_last : last_of (in_range k) (tree_of ls) ≡ some (leaf.key, leaf.pos)
  pub same_high : high leaf.key ≡ high k
  pub at_most : leaf.key ≤ k
  pub below_bound : k < bound
  pub lower : Ordered 0 front low
  pub low_key : low ≤ leaf.key
  pub within : Within leaf bound
  pub upper : Ordered bound back (2 ^ 56)

-- No leaf: the place for one.
pub record Missing (k : ℕ) (ls : List LeafOf) : Type 0 where
  pub front : List LeafOf
  pub back : List LeafOf
  pub parts : ls ≡ front ++ back
  pub no_last : last_of (in_range k) (tree_of ls) ≡ none
  pub lower : Ordered 0 front (high k)
  pub upper : Ordered (k + 1) back (2 ^ 56)

-- The leaves behind start above the key.
raised :
    (k m hi : ℕ) (ls : List LeafOf)
    → k < hi
    → k < 2 ^ 56
    → high k ≤ m
    → AllFail (in_range k) ls
    → Ordered m ls hi
    → Ordered (k + 1) ls hi
raised k m hi [] h s r f o = omega arith
raised k m hi (l ∷ ls) h s r f (le, rest) = (ground (arith, f.0), rest)

Ordered-max :
    (a b hi : ℕ) (ls : List LeafOf) → Ordered a ls hi → Ordered b ls hi → Ordered (max a b) ls hi
Ordered-max a b hi [] o p = omega (arith, o, p)
Ordered-max a b hi (l ∷ ls) (h, rest) (k, _) = (omega (arith, h, k), rest)

pub Within-le : (l : LeafOf) (n m : ℕ) → n ≤ m → Within l n → Within l m
Within-le l n m h w = record {
  key_below = omega (arith, h, w.key_below);
  from_key = w.from_key;
  all_below = AllBelow-le n m (full l.key l.pairs) h w.all_below;
  sorted = w.sorted;
  fits = w.fits;
}

module _ (k : ℕ) (small : k < 2 ^ 56) (ls : List LeafOf) (o : Ordered 0 ls (2 ^ 56)) where
  located : Passes (in_range k) ls → Located k ls
  located p =
      let (low, lower, rest) =
        Ordered-split 0 p.front (p.leaf ∷ p.back) (2 ^ 56)
          (subst (λ x. Ordered 0 x (2 ^ 56)) p.parts o) in
      let (low_key, (m, w, upper)) = rest in
      let range : (high k ≤ p.leaf.key) × (p.leaf.key ≤ k) = ground (arith, p.passed) in
      record {
        front = p.front;
        leaf = p.leaf;
        back = p.back;
        bound = max m (k + 1);
        low = low;
        parts = p.parts;
        is_last = p.is_last;
        same_high = omega (arith, range);
        at_most = range.1;
        below_bound = omega arith;
        lower = lower;
        low_key = low_key;
        within = Within-le p.leaf m (max m (k + 1)) (omega arith) w;
        upper = Ordered-max m (k + 1) (2 ^ 56) p.back upper (
            raised k m (2 ^ 56) p.back small small (omega (arith, range, w.key_below)) p.later
              upper);
      }

-- The pairs of a leaf stay below the next 16 high bits.
full-below_high :
    (key h : ℕ) (ps : List Pair) → AllFit ps → key < high h → AllBelow (high h) (full key ps)
full-below_high key h [] f l = tt
full-below_high key h (p ∷ ps) f l = (omega (arith, (f.0).0, l), full-below_high key h ps (f.1) l)

AllBelow-min : (n m : ℕ) (ps : List Pair) → AllBelow n ps → AllBelow m ps → AllBelow (min n m) ps
AllBelow-min n m [] a b = tt
AllBelow-min n m (p ∷ ps) a b = (omega (arith, a.0, b.0), AllBelow-min n m ps (a.1) (b.1))

missing :
    (k lo hi : ℕ) (ls : List LeafOf)
    → k < hi
    → k < 2 ^ 56
    → Ordered lo ls hi
    → lo ≤ high k
    → AllFail (in_range k) ls
    → (front back : List LeafOf) × (ls ≡ front ++ back)
      × Ordered lo front (high k)
      × Ordered (k + 1) back hi
missing k lo hi [] h s o l f = ([], [], refl, l, omega arith)
missing k lo hi (m ∷ ls) h s (le, (b, w, o)) l f = elim (Bool-cases (ltb m.key (high k))) [
  | inr t ↦ ([], m ∷ ls, refl, l, (ground (arith, f.0), (b, w, o)))
  | inl t ↦
      let below : m.key < high k = ground arith in
      let cut = min b (high k) in
      let w' : Within m cut = record {
        key_below = omega (arith, w.key_below, below);
        from_key = w.from_key;
        all_below =
            AllBelow-min b (high k) (full m.key m.pairs) w.all_below
              (full-below_high m.key k m.pairs w.fits below);
        sorted = w.sorted;
        fits = w.fits;
      } in
      let (front, back, parts, lower, upper) =
        missing k cut hi ls h s (lowered cut b hi ls (omega arith) o) (omega arith) (f.1) in
      (m ∷ front, back, ap (◌∷◌ m) parts, (le, (cut, w', lower)), upper)
]
  where
    lowered : (a b hi : ℕ) (ls : List LeafOf) → a ≤ b → Ordered b ls hi → Ordered a ls hi
    lowered a b hi [] h o = omega (arith, h, o)
    lowered a b hi (l ∷ ls) h (k, rest) = (omega (arith, h, k), rest)

-- A key leads to its leaf, or has none.
pub lookup_lem :
    (k : ℕ) (ls : List LeafOf) → k < 2 ^ 56 → Ordered 0 ls (2 ^ 56) → Located k ls ⊎ Missing k ls
lookup_lem k ls small o = elim (last_of_lem (in_range k) ls) [
  | inl p ↦ inl (located k small ls o p)
  | inr (n, f) ↦
      let (front, back, parts, lower, upper) =
        missing k 0 (2 ^ 56) ls small small o (omega arith) f in
      inr (record {
        front = front;
        back = back;
        parts = parts;
        no_last = n;
        lower = lower;
        upper = upper;
      })
]
