-- ===== src/Tests/Lists.antt =====
-- The short list of qmdb/src/utils/shortlist.rs, and an aligned read of hpfile/src/lib.rs.
use qmdb.Common.{◌≡◌, refl, [], ◌∷◌, false, some, none, replicate, take, drop, if◌then◌else◌, arith}
use qmdb.Extern.Byteorder.{plain_order}
use qmdb.Utils.ShortList.{ShortList, array, append}
use qmdb.Utils.ShortList.Laws.{Holds, empty, mem, append-Holds}
use qmdb.Hpfile.{File, read_at_aligned}
use qmdb.Hpfile.Reads.{read_at_aligned_lem}

append-Holds_example :
    (l : ShortList) × (append plain_order (array 0 (replicate 14 0)) 70000 ≡ some l)
    × Holds l (if mem [] 70000 then [] else 70000 ∷ [])
append-Holds_example =
    append-Holds plain_order (array 0 (replicate 14 0)) [] 70000 (empty refl) (omega arith)

abbrev file : File
file = record { bytes = replicate 1100 3; cursor = 0; readonly = false }

read_at_aligned_lem_example :
    read_at_aligned file (replicate 300 0) 500 ≡ some (take 300 (drop 500 (replicate 1100 3)), 300)
read_at_aligned_lem_example =
    (read_at_aligned_lem file (replicate 300 0) 500 (omega arith) (omega arith)).0 (omega arith)

-- A slice of 1000 bytes from the middle of a block.
read_past_two_blocks : read_at_aligned file (replicate 1000 0) 30 ≡ none
read_past_two_blocks =
    (read_at_aligned_lem file (replicate 1000 0) 30 (omega arith) (omega arith)).1
      (λ e. omega (arith, e)) (omega arith)
