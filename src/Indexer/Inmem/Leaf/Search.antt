-- ===== src/Indexer/Inmem/Leaf/Search.antt =====
-- `seek`, `find_kv`, `erase` and `change` of a leaf of qmdb/src/indexer/inmem.rs.
use mathlib.Core.List.{append_assoc}
use qmdb.Common.{
  ℕ, ◌+◌, ◌^◌, ◌<◌, ◌≡◌, inl, inr, refl, ap, sym, ◌∙◌, List, [], ◌∷◌, ◌++◌, Option, none, some,
  ◌&&◌, length, length-append, ltb, leb, ◌==◌, if◌then◌else◌, Bool-cases, ◌>>=◌, arith,
}
use qmdb.Extern.Byteorder.{ByteOrder}
use qmdb.Indexer.Inmem.Leaf.{get, seek_from, seek, find_from, find_kv}
use qmdb.Indexer.Inmem.Leaf.Shows.{Pair, leaf_bytes, AllFit, Fits, get_lem, leaf_len_lem}
use qmdb.Indexer.Inmem.Leaf.Sorted.{below, above, locate}

-- The index of the first key that is no less.
abbrev pub seek_index : ℕ → ℕ → List Pair → Option ℕ
seek_index i k [] = none
seek_index i k (p ∷ ps) = let rest = seek_index (i + 1) k ps in if leb k (p.0) then some i else rest

abbrev pub find_index : ℕ → ℕ → ℕ → List Pair → Option ℕ
find_index i k v [] = none
find_index i k v (p ∷ ps) =
    let rest = find_index (i + 1) k v ps in
    if k == p.0 && v == p.1 then some i else if ltb k (p.0) then none else rest

-- They are the lengths of what stands in front.
pub seek_index-below :
    (i k : ℕ) (ps : List Pair) (p : Pair) (qs : List Pair)
    → above k ps ≡ p ∷ qs
    → seek_index i k ps ≡ some (i + length (below k ps))
seek_index-below i k [] p qs e = absurd (cc)
seek_index-below i k (q ∷ ps) p qs e = elim (Bool-cases (leb k (q.0))) [
  | inl t ↦ rw t (ap some (omega arith))
  | inr t ↦
      let ih = seek_index-below (i + 1) k ps p qs (rw t at e) in rw t (ih ∙ ap some (omega arith))
]

pub seek_index-none : (i k : ℕ) (ps : List Pair) → above k ps ≡ [] → seek_index i k ps ≡ none
seek_index-none i k [] e = refl
seek_index-none i k (q ∷ ps) e = elim (Bool-cases (leb k (q.0))) [
  | inl t ↦ absurd (cc (rw t at e))
  | inr t ↦ rw t (seek_index-none (i + 1) k ps (rw t at e))
]

find_index-locate :
    (i k v : ℕ) (ps : List Pair)
    → find_index i k v ps ≡ (locate k v ps >>= λ r. some (i + length (r.0)))
find_index-locate i k v [] = refl
find_index-locate i k v (p ∷ ps) = elim (Bool-cases (k == p.0 && v == p.1)) [
  | inl t ↦ rw t (ap some (omega arith))
  | inr t ↦ elim (Bool-cases (ltb k (p.0))) [
    | inl u ↦ rw (t, u) refl
    | inr u ↦ rw (t, u) (find_index-locate (i + 1) k v ps ∙ one_more (locate k v ps))
  ]
]
  where
    one_more :
        (r : Option (List Pair × List Pair))
        → (r >>= λ x. some (i + 1 + length (x.0))) ≡ (
            ◌>>=◌ {A = List Pair × List Pair}
              (r >>= λ x. some (p ∷ x.0, x.1))
              λ x. some (i + length (x.0)))
    one_more none = refl
    one_more (some x) = ap some (omega arith)

module _ (bo : ByteOrder) where
  -- Getting goes over the pairs one by one.
  pub get_next :
      (done left ps : List Pair) (p : Pair) (rest : List ℕ)
      → done ++ p ∷ left ≡ ps
      → Fits p
      → get bo (leaf_bytes ps rest) (length done) ≡ some p
  get_next done left ps p rest e f =
      ap (λ qs. get bo (leaf_bytes qs rest) (length done)) (sym e) ∙ get_lem bo done left p rest f

  seek_from_lem :
      (done left ps : List Pair) (rest : List ℕ) (k : ℕ)
      → done ++ left ≡ ps
      → AllFit left
      → seek_from bo (length left) (length done) (leaf_bytes ps rest) k
        ≡ some (seek_index (length done) k left)
  unfolding seek_from
  seek_from_lem done [] ps rest k e f = refl
  seek_from_lem done (p ∷ left) ps rest k e f =
      let here = get_next done left ps p rest e (f.0) in
      elim (Bool-cases (leb k (p.0))) [
        | inl t ↦ rw (seek_from, here, ◌>>=◌, t) refl
        | inr t ↦
            let ih =
              seek_from_lem (done ++ p ∷ []) left ps rest k (append_assoc done (p ∷ []) left ∙ e)
                (f.1) in
            let next : length (done ++ p ∷ []) ≡ length done + 1 =
              omega (arith, length-append done (p ∷ [])) in
            rw (seek_from, here, ◌>>=◌, t) (rw next at ih)
      ]

  find_from_lem :
      (done left ps : List Pair) (rest : List ℕ) (k v : ℕ)
      → done ++ left ≡ ps
      → AllFit left
      → find_from bo (length left) (length done) (leaf_bytes ps rest) k v
        ≡ some (find_index (length done) k v left)
  unfolding find_from
  find_from_lem done [] ps rest k v e f = refl
  find_from_lem done (p ∷ left) ps rest k v e f =
      let here = get_next done left ps p rest e (f.0) in
      elim (Bool-cases (k == p.0 && v == p.1)) [
        | inl t ↦ rw (find_from, here, ◌>>=◌, t) refl
        | inr t ↦ elim (Bool-cases (ltb k (p.0))) [
          | inl u ↦ rw (find_from, here, ◌>>=◌, t, u) refl
          | inr u ↦
              let ih =
                find_from_lem (done ++ p ∷ []) left ps rest k v
                  (append_assoc done (p ∷ []) left ∙ e) (f.1) in
              let next : length (done ++ p ∷ []) ≡ length done + 1 =
                omega (arith, length-append done (p ∷ [])) in
              rw (find_from, here, ◌>>=◌, t, u) (rw next at ih)
        ]
      ]

  module _ (ps : List Pair) (rest : List ℕ) (f : AllFit ps) (small : length ps < 2 ^ 16) where
    pub seek_lem : (k : ℕ) → seek bo (leaf_bytes ps rest) k ≡ some (seek_index 0 k ps)
    unfolding seek
    seek_lem k =
        ap (λ (m : Option ℕ). m >>= λ n. seek_from bo n 0 (leaf_bytes ps rest) k)
          (leaf_len_lem bo ps rest small)
        ∙ seek_from_lem [] ps ps rest k refl f

    pub find_kv_lem :
        (k v : ℕ)
        → find_kv bo (leaf_bytes ps rest) k v
          ≡ some (locate k v ps >>= λ r. some (0 + length (r.0)))
    unfolding find_kv
    find_kv_lem k v =
        ap (λ (m : Option ℕ). m >>= λ n. find_from bo n 0 (leaf_bytes ps rest) k v)
          (leaf_len_lem bo ps rest small)
        ∙ find_from_lem [] ps ps rest k v refl f
        ∙ ap some (find_index-locate 0 k v ps)
