-- ===== src/Indexer/Inmem/Leaf/Edits.antt =====
-- `erase` and `change` of a leaf of qmdb/src/indexer/inmem.rs: which pair they take, and when they
-- panic.
use qmdb.Common.{
  ℕ, ◌+◌, ◌^◌, ◌<◌, ◌≡◌, ◌⊎◌, inl, inr, refl, ap, List, ◌∷◌, ◌++◌, none, some, length, Option-cases,
  ◌>>=◌, arith,
}
use qmdb.Extern.Byteorder.{ByteOrder}
use qmdb.Indexer.Inmem.Leaf.{erase, change}
use qmdb.Indexer.Inmem.Leaf.Shows.{Pair, leaf_bytes, AllFit}
use qmdb.Indexer.Inmem.Leaf.Sorted.{IsSorted, In, locate, locate-some, locate-none}
use qmdb.Indexer.Inmem.Leaf.Writes.{change_value_lem}
use qmdb.Indexer.Inmem.Leaf.Laws.{remove_lem}
use qmdb.Indexer.Inmem.Leaf.Search.{find_kv_lem}

module _ (bo : ByteOrder) (ps : List Pair) (rest : List ℕ) (k v : ℕ) (f : AllFit ps)
    (small : length ps < 2 ^ 16) (sorted : IsSorted ps) where
  -- What `erase` and `change` make of a leaf with the pair: the pair goes, and its bytes are free;
  -- or its value changes.
  pub record Edited (new_v : ℕ) : Type 0 where
    pub before : List Pair
    pub after : List Pair
    pub free : List ℕ
    pub parts : ps ≡ before ++ (k, v) ∷ after
    pub first : In (k, v) before → ⊥
    pub erased : erase bo (leaf_bytes ps rest) k v ≡ some (leaf_bytes (before ++ after) free)
    pub freed : length free ≡ length rest + 12
    pub changed :
        change bo (leaf_bytes ps rest) k v new_v
        ≡ some (leaf_bytes (before ++ (k, new_v) ∷ after) rest)

  -- On a sorted leaf whose numbers fit their six bytes, `erase` and `change` find the first pair
  -- that is equal to the given one: `erase` takes it out and keeps the others in their order, with
  -- twelve more free bytes behind them, and `change` gives it the new value and keeps the rest of
  -- the leaf. When the leaf does not have the pair, both panic.
  pub edit_lem :
      (new_v : ℕ)
      → Edited new_v
        ⊎ ((In (k, v) ps → ⊥)
            × (erase bo (leaf_bytes ps rest) k v ≡ none)
            × (change bo (leaf_bytes ps rest) k v new_v ≡ none))
  unfolding erase change
  edit_lem new_v =
      let found = find_kv_lem bo ps rest f small k v in
      elim (Option-cases (locate k v ps)) [
        | inl n ↦ inr (locate-none k v ps sorted n, rw (found, n) refl, rw (found, n) refl)
        | inr ((before, after), l) ↦
            let (parts, first) = locate-some k v ps before after l in
            let at : 0 + length before ≡ length before = omega arith in
            let fits : length (before ++ (k, v) ∷ after) < 2 ^ 16 =
              omega (arith, ap length parts) in
            let (free, freed, removed) = remove_lem bo before after (k, v) rest fits in
            inl (record {
              before = before;
              after = after;
              free = free;
              parts = parts;
              first = first;
              erased = rw (found, l, ◌>>=◌, at, parts) removed;
              freed = freed;
              changed =
                  rw (found, l, ◌>>=◌, at, parts) (change_value_lem bo before after k v new_v rest);
            })
      ]
