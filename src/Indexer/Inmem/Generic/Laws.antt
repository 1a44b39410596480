-- ===== src/Indexer/Inmem/Generic/Laws.antt =====
-- `add_kv` and `key_exists` of InMemIndexerGeneric in qmdb/src/indexer/inmem.rs, over its units.
use qmdb.Common.{
  ℕ, zero, suc, ◌+◌, ◌-◌, ◌*◌, ◌/◌, ◌%◌, ◌^◌, ◌<◌, ◌≤◌, ◌≡◌, refl, ap, ◌∙◌, List, [], ◌∷◌, ◌++◌,
  some, Bool, true, false, ◌||◌, length, get_elem?, get_elem?-eq-get_or, get_or, get_elem?-set,
  ==_self, set, length-set, ◌==◌, ◌>>=◌, arith,
}
use qmdb.Common.Bytes.{slice}
use qmdb.Common.Slices.{slice-returns}
use qmdb.Def.{shard_div}
use qmdb.Extern.Byteorder.{ByteOrder}
use qmdb.Indexer.Inmem.Unit.{IndexUnit}
use qmdb.Indexer.Inmem.Unit.Leaves.{LeafOf, flat}
use qmdb.Indexer.Inmem.Unit.Standing.{IsUnit}
use qmdb.Indexer.Inmem.Unit.Additions.{AllRoomy, add_kv_lem}
use qmdb.Indexer.Inmem.Unit.Values.{values_of, values_of-append, until_stop, for_each_value_lem}
use qmdb.Indexer.Inmem.Generic.{InMemIndexer, get_inputs, add_kv, for_each_value, key_exists, len}

-- Something holds of each unit and its leaves.
abbrev pub Pairwise :
    (IndexUnit → List LeafOf → Type 0) → List IndexUnit → List (List LeafOf) → Type 0
Pairwise P [] [] = Unit {0}
Pairwise P [] (l ∷ ls) = ⊥
Pairwise P (u ∷ us) [] = ⊥
Pairwise P (u ∷ us) (l ∷ ls) = P u l × Pairwise P us ls

-- There is room for one more pair.
abbrev pub HasRoom : IndexUnit → List LeafOf → Type 0
HasRoom u ls = (length u.buf_list.list + 1 < 2 ^ 32) × AllRoomy ls

-- The unit at an index, with two facts.
Pairwise-get :
    (P Q : IndexUnit → List LeafOf → Type 0) (us : List IndexUnit) (ls : List (List LeafOf)) (i : ℕ)
    → Pairwise P us ls
    → Pairwise Q us ls
    → i < length us
    → (u : IndexUnit) × (l : List LeafOf) × (get_elem? us i ≡ some u) × P u l × Q u l
Pairwise-get P Q [] ls i p q h = absurd (omega (arith, h))
Pairwise-get P Q (u ∷ us) [] i p q h = absurd p
Pairwise-get P Q (u ∷ us) (l ∷ ls) zero p q h = (u, l, refl, p.0, q.0)
Pairwise-get P Q (u ∷ us) (l ∷ ls) (suc i) p q h =
    Pairwise-get P Q us ls i (p.1) (q.1) (omega (arith, h))

Pairwise-set :
    (P : IndexUnit → List LeafOf → Type 0) (us : List IndexUnit) (ls : List (List LeafOf)) (i : ℕ)
    (u : IndexUnit) (l : List LeafOf)
    → Pairwise P us ls
    → P u l
    → Pairwise P (set us i u) (set ls i l)
Pairwise-set P [] [] i u l p h = tt
Pairwise-set P [] (m ∷ ls) i u l p h = absurd p
Pairwise-set P (w ∷ us) [] i u l p h = absurd p
Pairwise-set P (w ∷ us) (m ∷ ls) zero u l p h = (h, p.1)
Pairwise-set P (w ∷ us) (m ∷ ls) (suc i) u l p h = (p.0, Pairwise-set P us ls i u l (p.1) h)

-- The callback of `key_exists`.
abbrev sees : ℕ → ℕ → Bool → Bool × Bool
sees pos v found = (found || v * 8 == pos, false)

stays_found : (pos : ℕ) (vs : List ℕ) → until_stop (sees pos) vs true ≡ true
stays_found pos [] = refl
stays_found pos (v ∷ vs) = stays_found pos vs

finds :
    (pos v : ℕ) (xs ys : List ℕ) (found : Bool)
    → (v * 8 == pos) ≡ true
    → until_stop (sees pos) (xs ++ v ∷ ys) found ≡ true
finds pos v [] ys true h = stays_found pos ys
finds pos v [] ys false h = rw h (stays_found pos ys)
finds pos v (x ∷ xs) ys found h = finds pos v xs ys (found || x * 8 == pos) h

module _ (bo : ByteOrder) (ix : InMemIndexer) (k80 : List ℕ) (long : 9 ≤ length k80)
    (some_units : 0 < length ix.units) where
  pub first_cut : (r : List ℕ) × (slice k80 0 2 ≡ some r) × (length r ≡ 2 - 0)
  first_cut = slice-returns k80 0 2 (omega arith) (omega (arith, long))

  pub key_cut : (r : List ℕ) × (slice k80 1 9 ≡ some r) × (length r ≡ 9 - 1)
  key_cut = slice-returns k80 1 9 (omega arith) long

  -- The unit of the key, and its key there.
  abbrev pub unit_of : ℕ
  unit_of = bo.read_be first_cut.0 % length ix.units

  abbrev pub key_of : ℕ
  key_of = bo.read_be key_cut.0 * 2 ^ 8 % 2 ^ 64 / 2 ^ 8

  get_inputs_lem :
      (units : List IndexUnit) (sizes : List ℕ) (v : ℕ)
      → length units ≡ length ix.units
      → v % 8 ≡ 0
      → get_inputs bo (record { units = units; sizes = sizes }) k80 v
        ≡ some (unit_of, key_of, v / 8)
  unfolding get_inputs
  get_inputs_lem units sizes v same aligned =
      let eight : (v % 8 == 0) ≡ true = ground (arith, aligned) in
      let units_there : (length ix.units == 0) ≡ false = ground (arith, some_units) in
      rw (first_cut.1, key_cut.1, ◌>>=◌, eight, same, units_there) refl

  -- On an indexer with at least one unit and a size for each 4096 units, all of them units with
  -- their leaves and with room, `add_kv` of a key of at least nine bytes with a file position that is a multiple of eight
  -- below 2^51 adds one to the size of the key's shard, leaves units, and `key_exists` then finds
  -- the position.
  pub key_exists-add_kv :
      (lss : List (List LeafOf)) (pos sn sn' : ℕ)
      → Pairwise IsUnit ix.units lss
      → Pairwise HasRoom ix.units lss
      → length ix.units ≤ length ix.sizes * shard_div
      → pos % 8 ≡ 0
      → pos < 2 ^ 51
      → (ix' : InMemIndexer) × (lss' : List (List LeafOf)) × (size : ℕ) × (add_kv bo k80 pos sn ix
          ≡ some ix')
        × Pairwise IsUnit ix'.units lss'
        × (len ix (unit_of / shard_div) ≡ some size)
        × (len ix' (unit_of / shard_div) ≡ some ((size + 1) % 2 ^ 64))
        × (key_exists bo k80 pos sn' ix' ≡ some true)
  unfolding add_kv len key_exists for_each_value
  key_exists-add_kv lss pos sn sn' units room enough aligned small =
      let inside : unit_of < length ix.units = omega (arith, some_units) in
      let (u, ls, there, is_unit, (bufs, roomy)) =
        Pairwise-get IsUnit HasRoom ix.units lss unit_of units room inside in
      let v = pos / 8 in
      let key_small : key_of < 2 ^ 56 = omega arith in
      let added = add_kv_lem bo u ls key_of v is_unit key_small (omega (arith, small)) bufs roomy in
      let shard = unit_of / shard_div in
      let size = get_or ix.sizes shard 0 in
      let sized : get_elem? ix.sizes shard ≡ some size =
        get_elem?-eq-get_or ix.sizes shard 0 (omega (arith, inside, enough)) in
      let units' = set ix.units unit_of added.result in
      let sizes' = set ix.sizes shard ((size + 1) % 2 ^ 64) in
      let there' : get_elem? units' unit_of ≡ some added.result =
        get_elem?-set ix.units unit_of unit_of added.result u there
        ∙ ap some (rw (==_self unit_of) refl) in
      let sized' : get_elem? sizes' shard ≡ some ((size + 1) % 2 ^ 64) =
        get_elem?-set ix.sizes shard shard ((size + 1) % 2 ^ 64) size sized
        ∙ ap some (rw (==_self shard) refl) in
      let values : values_of key_of (flat added.leaves)
          ≡ values_of key_of added.before ++ v ∷ values_of key_of added.after =
        ap (values_of key_of) added.is
        ∙ values_of-append key_of added.before ((key_of, v) ∷ added.after)
        ∙ ap (λ vs. values_of key_of added.before ++ vs) (rw (==_self key_of) refl) in
      let back : (v * 8 == pos) ≡ true = ground (arith, aligned) in
      let seen =
        for_each_value_lem bo (sees pos) added.result added.leaves key_of false added.unit
          key_small in
      (
        record { units = units'; sizes = sizes' },
        set lss unit_of added.leaves,
        size,
        rw (get_inputs_lem ix.units ix.sizes pos refl aligned, ◌>>=◌, there, added.runs, sized)
            refl,
        Pairwise-set IsUnit ix.units lss unit_of added.result added.leaves units added.unit,
        sized,
        sized',
        rw
            (
              get_inputs_lem units' sizes' 0 (length-set ix.units unit_of added.result) refl,
              ◌>>=◌,
              there',
            )
            (seen
              ∙ ap (λ vs. some (until_stop (sees pos) vs false)) values
              ∙ ap some (
                  finds pos v (values_of key_of added.before) (values_of key_of added.after) false
                    back)),
      )
