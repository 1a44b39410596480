-- ===== src/Indexer/Inmem/Leaf/Cut.antt =====
-- The pairs of a sorted leaf of qmdb/src/indexer/inmem.rs around the place of a key.
use qmdb.Common.{ℕ, ◌<◌, ◌≤◌, ◌≡◌, ◌⊎◌, inl, inr, refl, List, [], ◌∷◌, ◌++◌, leb, Bool-cases, arith}
use qmdb.Indexer.Inmem.Leaf.Shows.{Pair, AllFit}
use qmdb.Indexer.Inmem.Leaf.Sorted.{KeysFrom, IsSorted, below, above}

abbrev pub KeysBelow : ℕ → List Pair → Type 0
KeysBelow n [] = Unit {0}
KeysBelow n (p ∷ ps) = (p.0 < n) × KeysBelow n ps

pub below-KeysBelow : (k : ℕ) (ps : List Pair) → KeysBelow k (below k ps)
below-KeysBelow k [] = tt
below-KeysBelow k (p ∷ ps) = elim (Bool-cases (leb k (p.0))) [
  | inl t ↦ rw t tt
  | inr t ↦ rw t (ground arith, below-KeysBelow k ps)
]

KeysFrom-le : (n m : ℕ) (ps : List Pair) → m ≤ n → KeysFrom n ps → KeysFrom m ps
KeysFrom-le n m [] h f = tt
KeysFrom-le n m (p ∷ ps) h f = (omega (arith, h, f.0), KeysFrom-le n m ps h (f.1))

KeysFrom-insert :
    (n k v : ℕ) (ps : List Pair)
    → n ≤ k
    → KeysFrom n ps
    → KeysFrom n (below k ps ++ (k, v) ∷ above k ps)
KeysFrom-insert n k v [] h f = (h, tt)
KeysFrom-insert n k v (p ∷ ps) h f = elim (Bool-cases (leb k (p.0))) [
  | inl t ↦ rw t (h, f)
  | inr t ↦ rw t (f.0, KeysFrom-insert n k v ps h (f.1))
]

-- A pair in its place.
pub insert-IsSorted :
    (k v : ℕ) (ps : List Pair) → IsSorted ps → IsSorted (below k ps ++ (k, v) ∷ above k ps)
insert-IsSorted k v [] s = (tt, tt)
insert-IsSorted k v (p ∷ ps) s = elim (Bool-cases (leb k (p.0))) [
  | inl t ↦
      let order : k ≤ p.0 = ground arith in rw t ((order, KeysFrom-le (p.0) k ps order (s.0)), s)
  | inr t ↦
      let order : p.0 ≤ k = ground arith in
      rw t (KeysFrom-insert (p.0) k v ps order (s.0), insert-IsSorted k v ps (s.1))
]

KeysFrom-front : (n : ℕ) (ps qs : List Pair) → KeysFrom n (ps ++ qs) → KeysFrom n ps
KeysFrom-front n [] qs f = tt
KeysFrom-front n (p ∷ ps) qs f = (f.0, KeysFrom-front n ps qs (f.1))

pub IsSorted-split : (ps qs : List Pair) → IsSorted (ps ++ qs) → IsSorted ps × IsSorted qs
IsSorted-split [] qs s = (tt, s)
IsSorted-split (p ∷ ps) qs s =
    let (a, b) = IsSorted-split ps qs (s.1) in ((KeysFrom-front (p.0) ps qs (s.0), a), b)

pub AllFit-split : (ps qs : List Pair) → AllFit (ps ++ qs) → AllFit ps × AllFit qs
AllFit-split [] qs f = (tt, f)
AllFit-split (p ∷ ps) qs f = let (a, b) = AllFit-split ps qs (f.1) in ((f.0, a), b)

pub AllFit-join : (ps qs : List Pair) → AllFit ps → AllFit qs → AllFit (ps ++ qs)
AllFit-join [] qs f g = g
AllFit-join (p ∷ ps) qs f g = (f.0, AllFit-join ps qs (f.1) g)

pub List-cases : (ps : List Pair) → (ps ≡ []) ⊎ ((p : Pair) × (qs : List Pair) × (ps ≡ p ∷ qs))
List-cases [] = inl refl
List-cases (p ∷ ps) = inr (p, ps, refl)
