-- ===== src/Indexer/Inmem/Unit/Leaves.antt =====
-- The leaves of a unit of qmdb/src/indexer/inmem.rs, their order, and all pairs of the unit.
use qmdb.Common.{
  ℕ, ◌+◌, ◌*◌, ◌/◌, ◌^◌, ◌<◌, ◌≤◌, ◌≡◌, refl, ap, sym, ◌∙◌, List, [], ◌∷◌, ◌++◌, arith,
}
use mathlib.Core.List.{append_assoc}
use qmdb.Indexer.Inmem.BTree.{BTreeMap}
use qmdb.Indexer.Inmem.BufList.Heap.{Slot}
use qmdb.Indexer.Inmem.Leaf.Shows.{Pair, leaf_bytes, AllFit}
use qmdb.Indexer.Inmem.Leaf.Sorted.{IsSorted}

-- A leaf below its key in the tree, with its pairs and the free bytes behind them.
pub record LeafOf : Type 0 where
  pub key : ℕ
  pub pos : ℕ
  pub cap : ℕ
  pub pairs : List Pair
  pub free : List ℕ

abbrev pub slot_of : LeafOf → Slot
slot_of l = record { pos = l.pos; cap = l.cap; bytes = leaf_bytes l.pairs l.free }

abbrev pub tree_of : List LeafOf → BTreeMap
tree_of [] = []
tree_of (l ∷ ls) = (l.key, l.pos) ∷ tree_of ls

-- The high 16 of the 56 bits, in place.
abbrev pub high : ℕ → ℕ
high k = k / 2 ^ 48 * 2 ^ 48

-- Pairs with the full key of 56 bits.
abbrev pub full : ℕ → List Pair → List Pair
full key [] = []
full key (p ∷ ps) = (high key + p.0, p.1) ∷ full key ps

-- All pairs of a unit.
abbrev pub flat : List LeafOf → List Pair
flat [] = []
flat (l ∷ ls) = full l.key l.pairs ++ flat ls

abbrev pub AllBelow : ℕ → List Pair → Type 0
AllBelow n [] = Unit {0}
AllBelow n (p ∷ ps) = (p.0 < n) × AllBelow n ps

abbrev pub AllFrom : ℕ → List Pair → Type 0
AllFrom n [] = Unit {0}
AllFrom n (p ∷ ps) = (n ≤ p.0) × AllFrom n ps

-- The keys of a leaf lie between its key and a bound.
pub record Within (l : LeafOf) (bound : ℕ) : Type 0 where
  pub key_below : l.key < bound
  pub from_key : AllFrom l.key (full l.key l.pairs)
  pub all_below : AllBelow bound (full l.key l.pairs)
  pub sorted : IsSorted l.pairs
  pub fits : AllFit l.pairs

-- One leaf after the other, each with the range from its key to a bound that the next leaf's key
-- does not undercut.
abbrev pub Ordered : ℕ → List LeafOf → ℕ → Type 0
Ordered lo [] hi = lo ≤ hi
Ordered lo (l ∷ ls) hi = (lo ≤ l.key) × ((m : ℕ) × Within l m × Ordered m ls hi)

pub Ordered-le : (lo : ℕ) (ls : List LeafOf) (hi : ℕ) → Ordered lo ls hi → lo ≤ hi
Ordered-le lo [] hi o = o
Ordered-le lo (l ∷ ls) hi (h, (m, w, o)) = omega (arith, h, w.key_below, Ordered-le m ls hi o)

pub Ordered-split :
    (lo : ℕ) (xs ys : List LeafOf) (hi : ℕ)
    → Ordered lo (xs ++ ys) hi
    → (m : ℕ) × Ordered lo xs m × Ordered m ys hi
Ordered-split lo [] ys hi o = (lo, omega arith, o)
Ordered-split lo (l ∷ xs) ys hi (h, (m, w, o)) =
    let (n, a, b) = Ordered-split m xs ys hi o in (n, (h, (m, w, a)), b)

pub Ordered-join :
    (lo : ℕ) (xs ys : List LeafOf) (m hi : ℕ)
    → Ordered lo xs m
    → Ordered m ys hi
    → Ordered lo (xs ++ ys) hi
Ordered-join lo [] [] m hi a b = omega (arith, a, b)
Ordered-join lo [] (y ∷ ys) m hi a (h, rest) = (omega (arith, a, h), rest)
Ordered-join lo (l ∷ xs) ys m hi (h, (n, w, a)) b = (h, (n, w, Ordered-join n xs ys m hi a b))

pub AllBelow-le : (n m : ℕ) (ps : List Pair) → n ≤ m → AllBelow n ps → AllBelow m ps
AllBelow-le n m [] h a = tt
AllBelow-le n m (p ∷ ps) h a = (omega (arith, h, a.0), AllBelow-le n m ps h (a.1))

pub AllFrom-le : (n m : ℕ) (ps : List Pair) → m ≤ n → AllFrom n ps → AllFrom m ps
AllFrom-le n m [] h a = tt
AllFrom-le n m (p ∷ ps) h a = (omega (arith, h, a.0), AllFrom-le n m ps h (a.1))

pub AllBelow-append :
    (n : ℕ) (ps qs : List Pair) → AllBelow n ps → AllBelow n qs → AllBelow n (ps ++ qs)
AllBelow-append n [] qs a b = b
AllBelow-append n (p ∷ ps) qs a b = (a.0, AllBelow-append n ps qs (a.1) b)

pub AllFrom-append :
    (n : ℕ) (ps qs : List Pair) → AllFrom n ps → AllFrom n qs → AllFrom n (ps ++ qs)
AllFrom-append n [] qs a b = b
AllFrom-append n (p ∷ ps) qs a b = (a.0, AllFrom-append n ps qs (a.1) b)

pub flat-AllBelow : (lo : ℕ) (ls : List LeafOf) (hi : ℕ) → Ordered lo ls hi → AllBelow hi (flat ls)
flat-AllBelow lo [] hi o = tt
flat-AllBelow lo (l ∷ ls) hi (h, (m, w, o)) =
    AllBelow-append hi (full l.key l.pairs) (flat ls)
      (AllBelow-le m hi (full l.key l.pairs) (Ordered-le m ls hi o) w.all_below)
      (flat-AllBelow m ls hi o)

pub flat-AllFrom : (lo : ℕ) (ls : List LeafOf) (hi : ℕ) → Ordered lo ls hi → AllFrom lo (flat ls)
flat-AllFrom lo [] hi o = tt
flat-AllFrom lo (l ∷ ls) hi (h, (m, w, o)) =
    AllFrom-append lo (full l.key l.pairs) (flat ls)
      (AllFrom-le l.key lo (full l.key l.pairs) h w.from_key)
      (AllFrom-le m lo (flat ls) (omega (arith, h, w.key_below)) (flat-AllFrom m ls hi o))

pub flat-append : (xs ys : List LeafOf) → flat (xs ++ ys) ≡ flat xs ++ flat ys
flat-append [] ys = refl
flat-append (l ∷ xs) ys =
    ap (λ t. full l.key l.pairs ++ t) (flat-append xs ys)
    ∙ sym (append_assoc (full l.key l.pairs) (flat xs) (flat ys))

pub full-append : (key : ℕ) (ps qs : List Pair) → full key (ps ++ qs) ≡ full key ps ++ full key qs
full-append key [] qs = refl
full-append key (p ∷ ps) qs = ap (λ t. (high key + p.0, p.1) ∷ t) (full-append key ps qs)

pub Ordered-high :
    (lo : ℕ) (ls : List LeafOf) (hi hi' : ℕ) → hi ≤ hi' → Ordered lo ls hi → Ordered lo ls hi'
Ordered-high lo [] hi hi' h o = omega (arith, h, o)
Ordered-high lo (l ∷ ls) hi hi' h (k, (m, w, o)) = (k, (m, w, Ordered-high m ls hi hi' h o))
