-- ===== src/Indexer/Inmem/Unit/Additions.antt =====
-- `Unit::add_kv` of qmdb/src/indexer/inmem.rs against all pairs of the unit.
use qmdb.Common.{
  ℕ, ◌+◌, ◌*◌, ◌^◌, ◌<◌, inl, inr, List, [], ◌∷◌, ◌++◌, length, subst, Bool-cases, ◌==◌, arith,
}
use qmdb.Extern.Byteorder.{ByteOrder}
use qmdb.Indexer.Inmem.Leaf.Cut.{List-cases}
use qmdb.Indexer.Inmem.Unit.{IndexUnit}
use qmdb.Indexer.Inmem.Unit.Leaves.{LeafOf}
use qmdb.Indexer.Inmem.Unit.Standing.{IsUnit}
use qmdb.Indexer.Inmem.Unit.Lookup.{lookup_lem}
use qmdb.Indexer.Inmem.Unit.Parts.{bytes}
use qmdb.Indexer.Inmem.Unit.Cut.{behind}
use qmdb.Indexer.Inmem.Unit.Inserting.{Added, add_inside}
use qmdb.Indexer.Inmem.Unit.Alone.{add_missing, add_behind}
use qmdb.Indexer.Inmem.Unit.Halves.{add_split}

-- A split may give a leaf three more places than it had pairs, and a leaf has fewer than 2^16.
abbrev pub AllRoomy : List LeafOf → Type 0
AllRoomy [] = Unit {0}
AllRoomy (l ∷ ls) = (length l.pairs + 3 < 2 ^ 16) × AllRoomy ls

AllRoomy-at :
    (f : List LeafOf) (l : LeafOf) (b : List LeafOf)
    → AllRoomy (f ++ l ∷ b)
    → length l.pairs + 3 < 2 ^ 16
AllRoomy-at [] l b r = r.0
AllRoomy-at (m ∷ f) l b r = AllRoomy-at f l b (r.1)

module _ (bo : ByteOrder) (u : IndexUnit) (ls : List LeafOf) (k v : ℕ) where
  -- On a unit with these leaves, with a key of 56 bits, a value of 48 bits, less than 2^32 - 1
  -- buffers and fewer than 2^16 - 3 pairs in each leaf, `add_kv` puts the pair behind the pairs with
  -- lower keys and in front of the others, keeps those in their order, and leaves a unit: when no
  -- leaf takes the key, when the leaf has room, at its end or inside, and when it is full, with a
  -- new leaf behind it or a split.
  pub add_kv_lem :
      IsUnit u ls
      → k < 2 ^ 56
      → v < 2 ^ 48
      → length u.buf_list.list + 1 < 2 ^ 32
      → AllRoomy ls
      → Added bo u ls k v
  add_kv_lem inv small fits bufs roomy = elim (lookup_lem k ls small inv.ordered) [
    | inr mis ↦ add_missing bo u ls k v inv small fits bufs mis
    | inl loc ↦
        let max = AllRoomy-at loc.front loc.leaf loc.back (subst AllRoomy loc.parts roomy) in
        let size = length (bytes bo u ls k v inv small loc) in
        elim (Bool-cases (2 + length loc.leaf.pairs * 12 == size)) [
          | inr room ↦ add_inside bo u ls k v inv small fits loc room (omega (arith, max))
          | inl is_full ↦ elim (List-cases (behind bo u ls k v inv small loc)) [
            | inl none_behind ↦ add_behind bo u ls k v inv small fits bufs loc is_full none_behind
            | inr (p, qs, e) ↦ add_split bo u ls k v inv small loc max bufs fits p qs e is_full
          ]
        ]
  ]
