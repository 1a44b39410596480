-- ===== src/Indexer/Inmem/Unit/Edits.antt =====
-- `Unit::erase_kv` and `Unit::change_kv` of qmdb/src/indexer/inmem.rs against all pairs of the unit.
use qmdb.Common.{
  ℕ, ◌+◌, ◌*◌, ◌%◌, ◌^◌, ◌<◌, ◌≡◌, ◌⊎◌, inl, inr, refl, ap, sym, ◌∙◌, List, [], ◌∷◌, ◌++◌, some,
  none, true, length, length-append, ◌==◌, ◌>>=◌, Bool-cases, arith,
}
use qmdb.Extern.Byteorder.{ByteOrder}
use qmdb.Indexer.Inmem.BTree as BTree
use qmdb.Indexer.Inmem.BTree.{last_of, last_upto}
use qmdb.Indexer.Inmem.Leaf as Leaf
use qmdb.Indexer.Inmem.Leaf.Shows.{Pair, leaf_len_lem}
use qmdb.Indexer.Inmem.Leaf.Sorted.{In}
use qmdb.Indexer.Inmem.Leaf.Edits.{Edited, edit_lem}
use qmdb.Indexer.Inmem.Unit.{IndexUnit, erase_kv, change_kv, split_hi_lo}
use qmdb.Indexer.Inmem.Unit.Leaves.{LeafOf, full, flat, flat-append}
use qmdb.Indexer.Inmem.Unit.Standing.{IsUnit}
use qmdb.Indexer.Inmem.Unit.Lookup.{Located, Missing, lookup_lem, in_range, split_hi_lo_lem}
use qmdb.Indexer.Inmem.Unit.Rewriting.{with_pairs, sized_leaf, written, kept-IsUnit, dropped-IsUnit}
use qmdb.Indexer.Inmem.Unit.Pairs.{In-leaf, not-In-Missing}
use qmdb.Indexer.Inmem.Unit.Parts.{
  few, found, bytes, got, around_pair, around_gap, old_parts, gone-Within, changed-Within,
}

none_left : (ps : List Pair) → (length ps == 0) ≡ true → ps ≡ []
none_left [] h = refl
none_left (p ∷ ps) h = ground arith

module _ (bo : ByteOrder) (u : IndexUnit) (ls : List LeafOf) (k v : ℕ) where
  -- The pair was there, and `erase_kv` took it out.
  pub record Erased : Type 0 where
    pub result : IndexUnit
    pub leaves : List LeafOf
    pub before : List Pair
    pub after : List Pair
    pub runs : erase_kv bo k v u ≡ some result
    pub unit : IsUnit result leaves
    pub was : flat ls ≡ before ++ (k, v) ∷ after
    pub is : flat leaves ≡ before ++ after

  -- The pair was there, and `change_kv` gave it another value.
  pub record Changed (new_v : ℕ) : Type 0 where
    pub result : IndexUnit
    pub leaves : List LeafOf
    pub before : List Pair
    pub after : List Pair
    pub runs : change_kv bo k v new_v u ≡ some result
    pub unit : IsUnit result leaves
    pub was : flat ls ≡ before ++ (k, v) ∷ after
    pub is : flat leaves ≡ before ++ (k, new_v) ∷ after

  module _ (inv : IsUnit u ls) (small : k < 2 ^ 56) (loc : Located k ls) where
    abbrev counter : ℕ
    counter = (u.change_count + 1 % 2 ^ 32) % 2 ^ 32

    -- The edit of the leaf, or why there is none.
    abbrev Edit : ℕ → Type 0
    Edit new_v =
        Edited bo loc.leaf.pairs loc.leaf.free (k % 2 ^ 48) v loc.within.fits
          (few bo u ls k v inv small loc) loc.within.sorted new_v

    erase_edited : Edit v → Erased
    unfolding erase_kv
    erase_edited e =
        let pairs = e.before ++ e.after in
        let count : length loc.leaf.pairs ≡ length pairs + 1 = omega (
          arith,
          ap length e.parts,
          length-append e.before ((k % 2 ^ 48, v) ∷ e.after),
          length-append e.before e.after,
        ) in
        let sized : length pairs * 12 + length e.free ≡ loc.leaf.cap * 12 =
          omega (arith, e.freed, count, sized_leaf u ls k inv loc) in
        let (bl, w) = written u ls k inv loc pairs e.free sized in
        let size =
          leaf_len_lem bo pairs e.free (omega (arith, count, few bo u ls k v inv small loc)) in
        let low = (split_hi_lo_lem k small).1 in
        let was = old_parts bo u ls k v inv small loc e.before e.after e.free e.parts in
        let gap = around_gap bo u ls k v inv small loc e.before e.after in
        elim (Bool-cases (length pairs == 0)) [
          | inl t ↦ record {
            result = record u {
              change_count = counter;
              buf_list = bl;
              bt = BTree.remove u.bt loc.leaf.key;
            };
            leaves = loc.front ++ loc.back;
            before = _;
            after = _;
            runs =
                rw
                  (
                    found bo u ls k v inv small loc,
                    ◌>>=◌,
                    got bo u ls k v inv small loc,
                    low,
                    e.erased,
                    w.runs,
                    size,
                    t,
                  )
                  refl;
            unit = dropped-IsUnit u ls k inv loc pairs e.free sized counter;
            was = was;
            is =
                flat-append loc.front loc.back
                ∙ ap (λ t. flat loc.front ++ (full loc.leaf.key t ++ flat loc.back))
                    (sym (none_left pairs t))
                ∙ gap;
          }
          | inr t ↦ record {
            result = record u { change_count = counter; buf_list = bl };
            leaves = loc.front ++ with_pairs loc.leaf pairs e.free ∷ loc.back;
            before = _;
            after = _;
            runs =
                rw
                  (
                    found bo u ls k v inv small loc,
                    ◌>>=◌,
                    got bo u ls k v inv small loc,
                    low,
                    e.erased,
                    w.runs,
                    size,
                    t,
                  )
                  refl;
            unit =
                kept-IsUnit u ls k inv loc pairs e.free sized counter (ground arith)
                  (gone-Within bo u ls k v inv small loc e.before e.after e.free e.parts);
            was = was;
            is = flat-append loc.front (with_pairs loc.leaf pairs e.free ∷ loc.back) ∙ gap;
          }
        ]

    change_edited : (new_v : ℕ) → new_v < 2 ^ 48 → Edit new_v → Changed new_v
    unfolding change_kv
    change_edited new_v h e =
        let pairs = e.before ++ (k % 2 ^ 48, new_v) ∷ e.after in
        let free = loc.leaf.free in
        let count : length loc.leaf.pairs ≡ length pairs = omega (
          arith,
          ap length e.parts,
          length-append e.before ((k % 2 ^ 48, v) ∷ e.after),
          length-append e.before ((k % 2 ^ 48, new_v) ∷ e.after),
        ) in
        let sized : length pairs * 12 + length free ≡ loc.leaf.cap * 12 =
          omega (arith, count, sized_leaf u ls k inv loc) in
        let (bl, w) = written u ls k inv loc pairs free sized in
        let low = (split_hi_lo_lem k small).1 in
        record {
          result = record u { change_count = counter; buf_list = bl };
          leaves = loc.front ++ with_pairs loc.leaf pairs free ∷ loc.back;
          before = _;
          after = _;
          runs =
              rw
                (
                  found bo u ls k v inv small loc,
                  ◌>>=◌,
                  got bo u ls k v inv small loc,
                  low,
                  e.changed,
                  w.runs,
                )
                refl;
          unit =
              kept-IsUnit u ls k inv loc pairs free sized counter
                (omega (arith, length-append e.before ((k % 2 ^ 48, new_v) ∷ e.after)))
                (changed-Within bo u ls k v inv small loc e.before e.after free e.parts new_v h);
          was = old_parts bo u ls k v inv small loc e.before e.after free e.parts;
          is =
              flat-append loc.front (with_pairs loc.leaf pairs free ∷ loc.back)
              ∙ around_pair bo u ls k v inv small loc e.before e.after new_v;
        }

    -- The leaf does not have the pair.
    erase_absent :
        Leaf.erase bo (bytes bo u ls k v inv small loc) (k % 2 ^ 48) v ≡ none
        → erase_kv bo k v u ≡ none
    unfolding erase_kv
    erase_absent n =
        let low = (split_hi_lo_lem k small).1 in
        rw (found bo u ls k v inv small loc, ◌>>=◌, got bo u ls k v inv small loc, low, n) refl

    change_absent :
        (new_v : ℕ)
        → Leaf.change bo (bytes bo u ls k v inv small loc) (k % 2 ^ 48) v new_v ≡ none
        → change_kv bo k v new_v u ≡ none
    unfolding change_kv
    change_absent new_v n =
        let low = (split_hi_lo_lem k small).1 in
        rw (found bo u ls k v inv small loc, ◌>>=◌, got bo u ls k v inv small loc, low, n) refl

  -- There is no leaf for the key.
  erase-Missing : IsUnit u ls → Missing k ls → erase_kv bo k v u ≡ none
  unfolding erase_kv
  erase-Missing inv mis =
      let no : last_upto u.bt (split_hi_lo k).0 k ≡ none =
        ap (last_of (in_range k)) inv.tree ∙ mis.no_last in
      rw (no, ◌>>=◌) refl

  change-Missing : (new_v : ℕ) → IsUnit u ls → Missing k ls → change_kv bo k v new_v u ≡ none
  unfolding change_kv
  change-Missing new_v inv mis =
      let no : last_upto u.bt (split_hi_lo k).0 k ≡ none =
        ap (last_of (in_range k)) inv.tree ∙ mis.no_last in
      rw (no, ◌>>=◌) refl

  -- On a unit with these leaves, `erase_kv` of a key of 56 bits either takes the pair out of all
  -- pairs of the unit, keeps the others in their order, and leaves a unit, without the leaf when
  -- that was its last pair; or the unit does not have the pair, and it panics.
  pub erase_kv_lem :
      IsUnit u ls → k < 2 ^ 56 → Erased ⊎ ((In (k, v) (flat ls) → ⊥) × (erase_kv bo k v u ≡ none))
  erase_kv_lem inv small = elim (lookup_lem k ls small inv.ordered) [
    | inr mis ↦ inr (not-In-Missing k ls mis v, erase-Missing inv mis)
    | inl loc ↦
        elim (edit_lem bo loc.leaf.pairs loc.leaf.free (k % 2 ^ 48) v loc.within.fits
          (few bo u ls k v inv small loc) loc.within.sorted v) [
            | inl e ↦ inl (erase_edited inv small loc e)
            | inr (out, n, _) ↦
                inr ((λ i. out (In-leaf k ls loc v i)), erase_absent inv small loc n)
          ]
  ]

  -- On a unit with these leaves, `change_kv` of a key of 56 bits to a value of 48 bits either gives
  -- the pair the new value, keeps its place and all other pairs, and leaves a unit; or the unit does
  -- not have the pair, and it panics.
  pub change_kv_lem :
      (new_v : ℕ)
      → IsUnit u ls
      → k < 2 ^ 56
      → new_v < 2 ^ 48
      → Changed new_v ⊎ ((In (k, v) (flat ls) → ⊥) × (change_kv bo k v new_v u ≡ none))
  change_kv_lem new_v inv small h = elim (lookup_lem k ls small inv.ordered) [
    | inr mis ↦ inr (not-In-Missing k ls mis v, change-Missing new_v inv mis)
    | inl loc ↦
        elim (edit_lem bo loc.leaf.pairs loc.leaf.free (k % 2 ^ 48) v loc.within.fits
          (few bo u ls k v inv small loc) loc.within.sorted new_v) [
            | inl e ↦ inl (change_edited inv small loc new_v h e)
            | inr (out, _, n) ↦
                inr ((λ i. out (In-leaf k ls loc v i)), change_absent inv small loc new_v n)
          ]
  ]
