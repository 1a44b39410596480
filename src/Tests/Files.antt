-- ===== src/Tests/Files.antt =====
-- A file of hpfile/src/lib.rs with segments of eight bytes, and an append across their border.
use qmdb.Common.{ℕ, ◌≡◌, refl, List, [], ◌∷◌, false, some, if◌then◌else◌, ◌==◌, none, arith}
use qmdb.Extern.Dashmap.{DashMap, function_map}
use qmdb.Hpfile.{File, HpFile, append}
use qmdb.Hpfile.Append.{IsWellFormed, Appended, append_lem}

abbrev files : DashMap File
files = function_map File

abbrev segment : File
segment = record { bytes = 1 ∷ 2 ∷ 3 ∷ 4 ∷ []; cursor = 4; readonly = false }

abbrev file : HpFile files
file = record {
  segment_size = 8;
  buffer_size = 4;
  file_map = λ id. if id == 0 then some segment else none;
  largest_id = 0;
  latest_file_size = 6;
  file_size = 6;
  file_size_on_disk = 4;
  directio = false;
}

well_formed : IsWellFormed files file (5 ∷ 6 ∷ []) (1 ∷ 2 ∷ 3 ∷ 4 ∷ 5 ∷ 6 ∷ [])
well_formed = record {
  segment_fits = omega arith;
  nonempty = omega arith;
  latest = omega arith;
  size = refl;
  tail = record { f = segment; at_id = refl; writable = refl; at_end = refl; whole = refl };
  sized = refl;
  buffer_fits = omega arith;
}

append_lem_example :
    (file' : HpFile files) × (buffer : List ℕ) × (append files file (7 ∷ 8 ∷ 9 ∷ []) (5 ∷ 6 ∷ [])
      ≡ some (6, file', buffer))
    × Appended files file file' (7 ∷ 8 ∷ 9 ∷ []) (1 ∷ 2 ∷ 3 ∷ 4 ∷ 5 ∷ 6 ∷ []) buffer
append_lem_example =
    append_lem files file (7 ∷ 8 ∷ 9 ∷ []) (5 ∷ 6 ∷ []) (1 ∷ 2 ∷ 3 ∷ 4 ∷ 5 ∷ 6 ∷ []) well_formed
      (omega arith)
