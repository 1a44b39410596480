-- ===== src/Hpfile/PreReader.antt =====
-- `PreReader` and `read_at_with_pre_reader` of hpfile/src/lib.rs. `none` is a panic.
use qmdb.Common.{
  ℕ, ◌+◌, ◌-◌, ◌*◌, ◌/◌, ◌%◌, List, ◌++◌, ◌&&◌, Option, none, some, length, take, drop, replicate,
  min, ltb, leb, ◌==◌, if◌then◌else◌, ◌>>=◌,
}
use qmdb.Common.Bytes.{slice}
use qmdb.Extern.Dashmap.{DashMap}
use qmdb.Hpfile.{File, HpFile, io_blk_size, file_read_at, read_at_aligned}

abbrev pub pre_read_buf_size : ℕ
pre_read_buf_size = 512 * 1024

pub record PreReader : Type 0 where
  pub buffer : List ℕ
  pub file_id : ℕ
  pub start : ℕ
  pub end : ℕ

unfoldable pub new : PreReader
new = record { buffer = replicate pre_read_buf_size 0; file_id = 0; start = 0; end = 0 }

-- `access` gets the buffer, and returns it with the number of bytes read.
unfoldable pub fill_slice : PreReader → ℕ → ℕ → (List ℕ → List ℕ × ℕ) → PreReader
fill_slice pre_reader file_id start access =
    let (buffer, n) = access pre_reader.buffer in
    record { buffer = buffer; file_id = file_id; start = start; end = start + n }

-- The `n` bytes, where the buffer has them all.
unfoldable pub try_read : PreReader → ℕ → ℕ → ℕ → Option (List ℕ)
try_read pre_reader file_id start n =
    if (file_id == pre_reader.file_id && leb pre_reader.start start)
      && leb (start + n) pre_reader.end
    then slice pre_reader.buffer (start - pre_reader.start) (start - pre_reader.start + n)
    else none

module _ (dash : DashMap File) where
  -- The read of the file into the buffer, up to the end of the segment.
  unfoldable pub fill_from : HpFile dash → File → ℕ → List ℕ → List ℕ × ℕ
  unfolding file_read_at
  fill_from h f aligned_pos buffer =
      let end = min (length buffer) (h.segment_size - aligned_pos) in
      let (front, n) = file_read_at f (take end buffer) aligned_pos in (front ++ drop end buffer, n)

  -- The buffer, resized, after the read; the number of bytes; and the pre-reader.
  unfoldable pub read_at_with_pre_reader :
      HpFile dash → List ℕ → ℕ → ℕ → PreReader → Option (List ℕ × ℕ × PreReader)
  unfolding read_at_aligned fill_from
  read_at_with_pre_reader h buf num_bytes offset pre_reader =
      if h.segment_size == 0 then none else (do
        let rest = drop num_bytes buf
        let pos = offset % h.segment_size
        let file_id = offset / h.segment_size
        elim (try_read pre_reader file_id pos num_bytes) [
          | some bz ↦ some (bz ++ rest, num_bytes, pre_reader)
          | none ↦ do
            f ← dash.get h.file_map file_id
            if leb pre_read_buf_size num_bytes
                then none
                else if ltb h.segment_size (pos + num_bytes)
                then (do
                  let front = take num_bytes buf ++ replicate (num_bytes - length buf) 0
                  r ← read_at_aligned f front pos
                  some (r.0 ++ rest, r.1, pre_reader))
                else (do
                  let aligned_pos = pos / io_blk_size * io_blk_size
                  let filled = fill_slice pre_reader file_id aligned_pos (fill_from h f aligned_pos)
                  bz ← try_read filled file_id pos num_bytes
                  some (bz ++ rest, num_bytes, filled))
        ])
