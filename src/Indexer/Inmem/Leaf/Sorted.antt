-- ===== src/Indexer/Inmem/Leaf/Sorted.antt =====
-- Sorted lists of the pairs of a leaf of qmdb/src/indexer/inmem.rs, and the places in them.
use mathlib.Core.Option.{some-injective}
use qmdb.Common.{
  ℕ, ◌<◌, ◌≤◌, ◌≡◌, ◌⊎◌, inl, inr, refl, ap, List, [], ◌∷◌, ◌++◌, Option, none, some, ◌&&◌, ltb,
  leb, ◌==◌, if◌then◌else◌, Bool-cases, Option-cases, ◌>>=◌, sym, ◌∙◌, arith,
}
use qmdb.Indexer.Inmem.Leaf.Shows.{Pair}

abbrev pub KeysFrom : ℕ → List Pair → Type 0
KeysFrom n [] = Unit {0}
KeysFrom n (p ∷ ps) = (n ≤ p.0) × KeysFrom n ps

abbrev pub IsSorted : List Pair → Type 0
IsSorted [] = Unit {0}
IsSorted (p ∷ ps) = KeysFrom (p.0) ps × IsSorted ps

abbrev pub In : Pair → List Pair → Type 0
In p [] = ⊥
In p (q ∷ qs) = (p ≡ q) ⊎ In p qs

-- The pairs in front of the first key that is no less, and the others.
abbrev pub below : ℕ → List Pair → List Pair
below k [] = []
below k (p ∷ ps) = let rest = below k ps in if leb k (p.0) then [] else p ∷ rest

abbrev pub above : ℕ → List Pair → List Pair
above k [] = []
above k (p ∷ ps) = let rest = above k ps in if leb k (p.0) then p ∷ ps else rest

pub below-above : (k : ℕ) (ps : List Pair) → below k ps ++ above k ps ≡ ps
below-above k [] = refl
below-above k (p ∷ ps) = elim (Bool-cases (leb k (p.0))) [
  | inl t ↦ rw t refl
  | inr t ↦ rw t (ap (◌∷◌ p) (below-above k ps))
]

-- The first pair that is equal, as long as the keys are no greater.
abbrev pub locate : ℕ → ℕ → List Pair → Option (List Pair × List Pair)
locate k v [] = none
locate k v (p ∷ ps) =
    let rest : Option (List Pair × List Pair) = locate k v ps >>= λ r. some (p ∷ r.0, r.1) in
    if k == p.0 && v == p.1 then some ([], ps) else if ltb k (p.0) then none else rest

-- One step.
locate-cons :
    (k v : ℕ) (p : Pair) (ps before after : List Pair)
    → locate k v (p ∷ ps) ≡ some (before, after)
    → (((k, v) ≡ p) × (before ≡ []) × (after ≡ ps))
      ⊎ ((¬ ((k, v) ≡ p))
          × ((before' : List Pair) × (before ≡ p ∷ before')
              × (locate k v ps ≡ some (before', after))))
locate-cons k v p ps before after e = elim (Bool-cases (k == p.0 && v == p.1)) [
  | inl t ↦
      let e' : ◌≡◌ {A = Option (List Pair × List Pair)} (some ([], ps)) (some (before, after)) =
        rw t at e in
      inl (
        ground arith,
        ap (λ r. r.0) (sym (some-injective _ _ e')),
        ap (λ r. r.1) (sym (some-injective _ _ e')),
      )
  | inr t ↦ elim (Bool-cases (ltb k (p.0))) [
    | inl u ↦ absurd (cc (rw (t, u) at e))
    | inr u ↦ elim (Option-cases (locate k v ps)) [
      | inl n ↦ absurd (cc (rw (t, u, n) at e))
      | inr ((b, a), n) ↦
          let same = some-injective _ _ (rw (t, u, n) at e) in
          inr (
            λ q. ground arith,
            (b, ap (λ r. r.0) (sym same), n ∙ ap (λ x. some (b, x)) (ap (λ r. r.1) same)),
          )
    ]
  ]
]

-- It cuts the list around the pair.
pub locate-some :
    (k v : ℕ) (ps before after : List Pair)
    → locate k v ps ≡ some (before, after)
    → (ps ≡ before ++ (k, v) ∷ after) × (In (k, v) before → ⊥)
locate-some k v [] before after e = absurd (cc)
locate-some k v (p ∷ ps) before after e = elim (locate-cons k v p ps before after e) [
  | inl (q, b, a) ↦ rw (b, a) (ap (λ r. r ∷ ps) (sym q), λ i. i)
  | inr (n, (before', b, e')) ↦
      let (parts, absent) = locate-some k v ps before' after e' in
      rw b (ap (◌∷◌ p) parts, λ i. elim i [ inl q ↦ n q | inr r ↦ absent r ])
]

not-In-above : (k v n : ℕ) (ps : List Pair) → k < n → KeysFrom n ps → In (k, v) ps → ⊥
not-In-above k v n [] h f i = i
not-In-above k v n (p ∷ ps) h f (inl q) = omega (arith, ap (λ r. r.0) q, f.0)
not-In-above k v n (p ∷ ps) h f (inr i) = not-In-above k v n ps h (f.1) i

-- In a sorted list it finds every pair.
pub locate-none : (k v : ℕ) (ps : List Pair) → IsSorted ps → locate k v ps ≡ none → In (k, v) ps → ⊥
locate-none k v [] s e i = i
locate-none k v (p ∷ ps) s e i = elim (Bool-cases (k == p.0 && v == p.1)) [
  | inl t ↦ cc (rw t at e)
  | inr t ↦ elim (Bool-cases (ltb k (p.0))) [
    | inl u ↦ not-In-above k v (p.0) (p ∷ ps) (ground arith) (omega arith, s.0) i
    | inr u ↦ elim (Option-cases (locate k v ps)) [
      | inr (r, n) ↦ cc (rw (t, u, n) at e)
      | inl n ↦ elim i [
        | inl q ↦ ground (arith, ap (λ r. r.0) q, ap (λ r. r.1) q)
        | inr j ↦ locate-none k v ps (s.1) n j
      ]
    ]
  ]
]
