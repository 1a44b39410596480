-- ===== src/Indexer/Inmem/Unit/Inserting.antt =====
-- `Unit::add_kv` of qmdb/src/indexer/inmem.rs at a leaf with room for the pair.
use mathlib.Core.List.{append-nil}
use qmdb.Common.{
  ℕ, ◌+◌, ◌*◌, ◌%◌, ◌^◌, ◌<◌, ◌≤◌, ◌≡◌, inl, inr, refl, ap, ap₂, sym, ◌∙◌, List, [], ◌∷◌, ◌++◌,
  some, false, length, length-append, length-drop, drop, ◌==◌, ◌>>=◌, arith,
}
use qmdb.Extern.Byteorder.{ByteOrder}
use qmdb.Indexer.Inmem.Leaf as Leaf
use qmdb.Indexer.Inmem.Leaf.Shows.{Pair, leaf_bytes, leaf_len_lem}
use qmdb.Indexer.Inmem.Leaf.Laws.{insert_lem, append_lem}
use qmdb.Indexer.Inmem.Leaf.Search.{seek_lem, seek_index-below, seek_index-none}
use qmdb.Indexer.Inmem.Leaf.Cut.{List-cases}
use qmdb.Indexer.Inmem.Unit.{IndexUnit, add_at, add_kv}
use qmdb.Indexer.Inmem.Unit.Leaves.{LeafOf, flat, flat-append, AllBelow, AllFrom}
use qmdb.Indexer.Inmem.Unit.Standing.{IsUnit}
use qmdb.Indexer.Inmem.Unit.Lookup.{Located, split_hi_lo_lem}
use qmdb.Indexer.Inmem.Unit.Rewriting.{
  with_pairs, sized_leaf, written, kept-IsUnit, length-leaf_bytes,
}
use qmdb.Indexer.Inmem.Unit.Parts.{few, found, got, bytes, around_pair}
use qmdb.Indexer.Inmem.Unit.Cut.{front, behind, inserted, whole, was, lower, upper, inserted-Within}

-- The pair stands among the others, behind all lower keys and in front of all that are no less.
pub record Added (bo : ByteOrder) (u : IndexUnit) (ls : List LeafOf) (k v : ℕ) : Type 0 where
  pub result : IndexUnit
  pub leaves : List LeafOf
  pub before : List Pair
  pub after : List Pair
  pub runs : add_kv bo k v u ≡ some result
  pub unit : IsUnit result leaves
  pub was : flat ls ≡ before ++ after
  pub is : flat leaves ≡ before ++ (k, v) ∷ after
  pub lower : AllBelow k before
  pub upper : AllFrom k after

-- Whether a leaf is full.
pub is_full_lem :
    (bo : ByteOrder) (ps : List Pair) (free : List ℕ)
    → length ps < 2 ^ 16
    → Leaf.is_full bo (leaf_bytes ps free)
      ≡ some (2 + length ps * 12 == length (leaf_bytes ps free))
unfolding Leaf.is_full
is_full_lem bo ps free h = rw (leaf_len_lem bo ps free h) refl

module _ (bo : ByteOrder) (u : IndexUnit) (ls : List LeafOf) (k v : ℕ) (inv : IsUnit u ls)
    (small : k < 2 ^ 56) (fits : v < 2 ^ 48) (loc : Located k ls) where
  abbrev pub low : ℕ
  low = k % 2 ^ 48

  -- The call is what happens at the leaf.
  pub add_kv-at : add_kv bo k v u ≡ add_at bo k low v (loc.leaf.key, loc.leaf.pos) u
  unfolding add_kv
  add_kv-at =
      rw (add_kv, found bo u ls k v inv small loc)
        (ap (λ (n : ℕ). add_at bo k n v (loc.leaf.key, loc.leaf.pos) u) (split_hi_lo_lem k small).1)

  module _
      (room : (2 + length loc.leaf.pairs * 12 == length (bytes bo u ls k v inv small loc)) ≡ false)
      (below_max : length loc.leaf.pairs + 1 < 2 ^ 16) where
    abbrev b : List ℕ
    b = bytes bo u ls k v inv small loc

    abbrev ps : List Pair
    ps = inserted bo u ls k v inv small loc

    abbrev free : List ℕ
    free = drop 12 loc.leaf.free

    enough : 12 ≤ length loc.leaf.free
    enough =
        ground
          (arith, room, length-leaf_bytes loc.leaf.pairs loc.leaf.free, sized_leaf u ls k inv loc)

    parts : front bo u ls k v inv small loc ++ behind bo u ls k v inv small loc ≡ loc.leaf.pairs
    parts = whole bo u ls k v inv small loc

    one_more : length ps ≡ length loc.leaf.pairs + 1
    one_more = omega (
      arith,
      ap length parts,
      length-append (front bo u ls k v inv small loc) (behind bo u ls k v inv small loc),
      length-append (front bo u ls k v inv small loc) ((low, v) ∷ behind bo u ls k v inv small loc),
    )

    sized : length ps * 12 + length free ≡ loc.leaf.cap * 12
    sized = omega (arith, one_more, enough, length-drop 12 loc.leaf.free, sized_leaf u ls k inv loc)

    stored :
        Leaf.insert bo b (0 + length (front bo u ls k v inv small loc)) low v
        ≡ some (leaf_bytes ps free)
    stored =
        let at = length (front bo u ls k v inv small loc) in
        ap (λ (n : ℕ). Leaf.insert bo b n low v) (omega arith)
        ∙ ap
            (λ qs.
              Leaf.insert bo (leaf_bytes qs loc.leaf.free)
                (length (front bo u ls k v inv small loc)) low v)
            (sym parts)
        ∙ insert_lem bo (front bo u ls k v inv small loc) (behind bo u ls k v inv small loc) low v
            loc.leaf.free (omega (arith, ap length parts, below_max)) enough

    -- At the end.
    appended :
        behind bo u ls k v inv small loc ≡ [] → Leaf.append bo b low v ≡ some (leaf_bytes ps free)
    appended e =
        let F = front bo u ls k v inv small loc in
        let same : loc.leaf.pairs ≡ F = sym parts ∙ ap (λ t. F ++ t) e ∙ append-nil F in
        append_lem bo loc.leaf.pairs low v loc.leaf.free below_max enough
        ∙ ap₂ (λ (x y : List Pair). some (leaf_bytes (x ++ (low, v) ∷ y) free)) same (sym e)

    added :
        (count : ℕ)
        → add_kv bo k v u
          ≡ some (record u {
            change_count = count;
            buf_list = (written u ls k inv loc ps free sized).0;
          })
        → Added bo u ls k v
    added count runs = record {
      result = record u {
        change_count = count;
        buf_list = (written u ls k inv loc ps free sized).0;
      };
      leaves = loc.front ++ with_pairs loc.leaf ps free ∷ loc.back;
      before = _;
      after = _;
      runs = runs;
      unit =
          kept-IsUnit u ls k inv loc ps free sized count (omega (arith, one_more))
            (inserted-Within bo u ls k v inv small loc free fits);
      was = was bo u ls k v inv small loc;
      is =
          flat-append loc.front (with_pairs loc.leaf ps free ∷ loc.back)
          ∙ around_pair bo u ls k v inv small loc (front bo u ls k v inv small loc)
              (behind bo u ls k v inv small loc) v;
      lower = lower bo u ls k v inv small loc;
      upper = upper bo u ls k v inv small loc;
    }

    pub add_inside : Added bo u ls k v
    unfolding add_at
    add_inside =
        let full = is_full_lem bo loc.leaf.pairs loc.leaf.free (few bo u ls k v inv small loc) in
        let seek =
          seek_lem bo loc.leaf.pairs loc.leaf.free loc.within.fits (few bo u ls k v inv small loc)
            low in
        let here = got bo u ls k v inv small loc in
        let w = (written u ls k inv loc ps free sized).1 in
        elim (List-cases (behind bo u ls k v inv small loc)) [
          | inl e ↦ added ((u.change_count + 1 % 2 ^ 32) % 2 ^ 32) (
              add_kv-at
              ∙ rw
                  (
                    here,
                    ◌>>=◌,
                    full,
                    seek,
                    seek_index-none 0 low loc.leaf.pairs e,
                    room,
                    appended e,
                    w.runs,
                  )
                  refl)
          | inr (p, qs, e) ↦ added u.change_count (
              add_kv-at
              ∙ rw
                  (
                    here,
                    ◌>>=◌,
                    full,
                    seek,
                    seek_index-below 0 low loc.leaf.pairs p qs e,
                    room,
                    stored,
                    w.runs,
                  )
                  refl)
        ]
