-- ===== src/Tests/Bitmaps.antt =====
-- The bitmaps of qmdb/src/utils/activebits.rs and qmdb/src/merkletree/twig.rs, and
-- qmdb/src/def.rs.
use qmdb.Common.{
  ◌+◌, ◌-◌, ◌^◌, ◌<◌, ◌≤◌, ◌≡◌, refl, true, false, some, none, ◌==◌, if◌then◌else◌, arith,
}
use qmdb.Extern.Dashmap.{DashMap, function_map}
use qmdb.Def.{is_compactible, calc_max_level, first_level_above_twig}
use qmdb.Def.Laws.{calc_max_level_lem}
use qmdb.Utils.ActiveBits.Segment.{Segment}
use qmdb.Utils.ActiveBits as Sparse
use qmdb.Utils.ActiveBits.Laws as SparseLaws
use qmdb.Merkletree.ActiveBits as Leaf
use qmdb.Merkletree.ActiveBits.Laws as LeafLaws

abbrev segments : DashMap Segment
segments = function_map Segment

set-Shows_example :
    (ab : Sparse.ActiveBits segments) × (Sparse.set segments (Sparse.with_capacity segments 8) 40000
      ≡ some ab)
    × SparseLaws.Shows segments ab (λ k. if k == 40000 then true else false)
set-Shows_example =
    SparseLaws.set-Shows segments (Sparse.with_capacity segments 8) (λ k. false) 40000
      (SparseLaws.with_capacity-Shows segments 8)

abbrev one : Sparse.ActiveBits segments
one =
    (SparseLaws.set-Shows segments (Sparse.with_capacity segments 8) (λ k. false) 40000
      (SparseLaws.with_capacity-Shows segments 8)).0

clear-Shows_example :
    (ab : Sparse.ActiveBits segments) × (Sparse.clear segments one 40000 ≡ some ab)
    × SparseLaws.Shows segments ab
        (λ k. if k == 40000 then false else if k == 40000 then true else false)
clear-Shows_example =
    SparseLaws.clear-Shows segments one (λ k. if k == 40000 then true else false) 40000
      ((SparseLaws.set-Shows segments (Sparse.with_capacity segments 8) (λ k. false) 40000
        (SparseLaws.with_capacity-Shows segments 8)).2)

get_bit-Holds_example : Leaf.get_bit Leaf.new 2047 ≡ some false
get_bit-Holds_example = LeafLaws.get_bit-Holds Leaf.new (λ n. false) LeafLaws.new-Holds 2047

set_bit-Holds_example :
    (ab : Leaf.ActiveBits) × (Leaf.set_bit Leaf.new 2047 ≡ some ab)
    × LeafLaws.Holds ab (λ k. if k == 2047 then true else false)
set_bit-Holds_example =
    (LeafLaws.set_bit-Holds Leaf.new (λ n. false) LeafLaws.new-Holds 2047).0 (omega arith)

-- The number that the guard of `set_bit` lets pass.
set_bit_at_2048 : Leaf.set_bit Leaf.new 2048 ≡ none
set_bit_at_2048 =
    (LeafLaws.set_bit-Holds Leaf.new (λ n. false) LeafLaws.new-Holds 2048).1 (omega arith)

clear_bit-Holds_example :
    (ab : Leaf.ActiveBits) × (Leaf.clear_bit Leaf.new 7 ≡ some ab)
    × LeafLaws.Holds ab (λ k. if k == 7 then false else false)
clear_bit-Holds_example =
    (LeafLaws.clear_bit-Holds Leaf.new (λ n. false) LeafLaws.new-Holds 7).0 (omega arith)

-- At the bound of the utilisation, and past it.
compacts : (is_compactible 10 7 3 70 0 100 ≡ true) × (is_compactible 10 7 3 71 0 100 ≡ false)
unfolding is_compactible
compacts = (refl, refl)

calc_max_level_lem_example :
    (first_level_above_twig ≤ calc_max_level 5)
    × (2 ^ (calc_max_level 5 - first_level_above_twig) ≤ 5)
    × (5 < 2 ^ (calc_max_level 5 - first_level_above_twig + 1))
calc_max_level_lem_example = calc_max_level_lem 5 (omega arith) (omega arith)
