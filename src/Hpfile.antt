-- ===== src/Hpfile.antt =====
-- `HPFile` of hpfile/src/lib.rs. A file of the operating system is its bytes and a cursor, and its
-- calls succeed; sizes and offsets are not negative. `none` is a panic, or the error of opening a
-- file that is not there. `new`, which reads a directory, is not modelled, nor is the branch of
-- `append` that finds a left-over file in place of the new one.
pub mod Reads
pub mod PreReader
pub mod Tail
pub mod Append
use qmdb.Common.{
  ℕ, zero, suc, ◌+◌, ◌-◌, ◌*◌, ◌/◌, ◌%◌, List, [], ◌∷◌, ◌++◌, Bool, true, false, not, ◌&&◌, Option,
  none, some, length, take, drop, replicate, min, ltb, leb, ◌==◌, if◌then◌else◌, ◌>>=◌,
}
use qmdb.Common.Bytes.{slice, put}
use qmdb.Extern.Dashmap.{DashMap}

abbrev pub io_blk_size : ℕ
io_blk_size = 512

-- A file handle and whether it was opened for reading only.
pub record File : Type 0 where
  pub bytes : List ℕ
  pub cursor : ℕ
  pub readonly : Bool

abbrev pub new_file : File
new_file = record { bytes = []; cursor = 0; readonly = false }

abbrev pub seek_end : File → File
seek_end f = record f { cursor = length f.bytes }

pub write_all : File → List ℕ → Option File
write_all f bz =
    if f.readonly
    then none
    else some (record f {
      bytes = take f.cursor f.bytes ++ (bz ++ drop (f.cursor + length bz) f.bytes);
      cursor = f.cursor + length bz;
    })

-- A read of the system into `bz`: the bytes from the offset, and the rest of `bz` as it was.
pub file_read_at : File → List ℕ → ℕ → List ℕ × ℕ
file_read_at f bz pos =
    let got = take (length bz) (drop pos f.bytes) in (got ++ drop (length got) bz, length got)

-- The part of the blocks read that goes to `bz`.
pub copy_part : List ℕ × ℕ → List ℕ → ℕ → Option (List ℕ × ℕ)
copy_part r bz copy_start = do
  let copy_len = min (r.1) (length bz)
  part ← slice (r.0) copy_start (copy_start + copy_len)
  some (part ++ drop copy_len bz, copy_len)

-- The alignment of the buffer in memory has no effect on what it holds.
pub read_at_aligned : File → List ℕ → ℕ → Option (List ℕ × ℕ)
unfolding file_read_at copy_part
read_at_aligned f bz offset =
    if ltb (2 * io_blk_size) (length bz)
    then none
    else let off_in_blk = offset % io_blk_size in
      let off_start = offset - off_in_blk in
      let size = if off_in_blk == 0 then io_blk_size else 2 * io_blk_size in
      copy_part (file_read_at f (replicate size 0) off_start) bz off_in_blk

module _ (dash : DashMap File) where
  pub record HpFile : Type 0 where
    pub segment_size : ℕ
    pub buffer_size : ℕ
    pub file_map : dash.Map
    pub largest_id : ℕ
    pub latest_file_size : ℕ
    pub file_size : ℕ
    pub file_size_on_disk : ℕ
    pub directio : Bool

  abbrev pub is_empty : HpFile → Bool
  is_empty h = h.segment_size == 0

  -- What `buffer.resize` appends when the last write of a segment is aligned.
  abbrev pub padding : ℕ → Bool → List ℕ
  padding n eof =
      let tail_len = n % io_blk_size in
      if eof && not (tail_len == 0) then replicate (io_blk_size - tail_len) 0 else []

  pub flush : HpFile → List ℕ → Bool → Option (HpFile × List ℕ)
  unfolding write_all
  flush h buffer eof = if is_empty h then some (h, buffer) else (do
    f ← dash.get h.file_map h.largest_id
    elim (length buffer == 0) [
      | true ↦ some (h, buffer)
      | false ↦ do
        let padded = buffer ++ padding (length buffer) eof
        f' ← write_all (seek_end f) padded
        some (
          record h {
            file_map = dash.insert h.file_map h.largest_id f';
            file_size_on_disk = h.file_size_on_disk + length padded;
          },
          [],
        )
    ])

  -- The bytes that go to the buffer, after a full one was written out.
  pub append_buffer : HpFile → List ℕ → List ℕ → Option (HpFile × List ℕ)
  unfolding write_all
  append_buffer h bz buffer = elim (ltb h.buffer_size (length buffer + length bz)) [
    | false ↦ some (h, buffer ++ bz)
    | true ↦ do
      let extra_bytes = length buffer + length bz - h.buffer_size
      let split_pos = length bz - extra_bytes
      let full = buffer ++ take split_pos bz
      f ← dash.get h.file_map h.largest_id
      f' ← write_all f full
      some (
        record h {
          file_map = dash.insert h.file_map h.largest_id f';
          file_size_on_disk = h.file_size_on_disk + length full;
        },
        drop split_pos bz,
      )
  ]

  -- The change to a new segment, which starts with zeros for the bytes past the end of the old.
  pub next_segment : HpFile → List ℕ → ℕ → Option (HpFile × List ℕ)
  unfolding flush
  next_segment h buffer overflow_byte_count = do
    r ← flush h buffer true
    old ← dash.get (r.0.file_map) h.largest_id
    let m =
        if h.directio
        then dash.insert (r.0.file_map) h.largest_id
            (record { bytes = old.bytes; cursor = 0; readonly = true })
        else r.0.file_map
    some (
      record (r.0) {
        file_map = dash.insert m (h.largest_id + 1) new_file;
        largest_id = h.largest_id + 1;
        latest_file_size = overflow_byte_count;
      },
      if overflow_byte_count == 0 then r.1 else replicate overflow_byte_count 0,
    )

  pub append : HpFile → List ℕ → List ℕ → Option (ℕ × HpFile × List ℕ)
  unfolding append_buffer next_segment
  append h bz buffer =
      if is_empty h
      then some (0, h, buffer)
      else if ltb h.buffer_size (length bz)
      then none
      else (do
        let start_pos = h.file_size
        let old_size = h.latest_file_size
        let grown = record h {
          latest_file_size = h.latest_file_size + length bz;
          file_size = h.file_size + length bz;
        }
        r ← append_buffer grown bz buffer
        elim (leb h.segment_size (old_size + length bz)) [
          | false ↦ some (start_pos, r.0, r.1)
          | true ↦ do
            q ← next_segment (r.0) (r.1) (old_size + length bz - h.segment_size)
            some (start_pos, q.0, q.1)
        ])

  unfoldable read_at : HpFile → List ℕ → ℕ → Option (List ℕ × ℕ)
  unfolding read_at_aligned
  read_at h bz offset = if h.segment_size == 0 then none else (do
    let pos = offset % h.segment_size
    f ← dash.get h.file_map (offset / h.segment_size)
    elim (h.directio && f.readonly) [
      | true ↦ read_at_aligned f bz pos
      | false ↦ some (file_read_at f bz pos)
    ])

  -- The loop of `truncate` that drops whole segments.
  pub drop_segments : ℕ → HpFile → ℕ → HpFile
  drop_segments zero h size = h
  drop_segments (suc fuel) h size =
      let rest =
        drop_segments fuel
          (record h {
            file_map = dash.remove h.file_map h.largest_id;
            largest_id = h.largest_id - 1;
          })
          size in
      if ltb size (h.largest_id * h.segment_size) then rest else h

  unfoldable truncate : HpFile → ℕ → Option HpFile
  unfolding drop_segments
  truncate h size = if is_empty h then some h else (do
    let h1 = drop_segments (suc h.largest_id) h size
    let remaining_size = size - h1.largest_id * h1.segment_size
    f ← dash.get h1.file_map h1.largest_id
    let cut = take remaining_size f.bytes ++ replicate (remaining_size - length f.bytes) 0
    some (record h1 {
      file_map =
          dash.insert h1.file_map h1.largest_id
            (record { bytes = cut; cursor = length cut; readonly = false });
      latest_file_size = remaining_size;
      file_size = size;
      file_size_on_disk = size;
    }))

  -- The segments with a number below `n` are dropped, where there are any.
  pub remove_below : dash.Map → ℕ → dash.Map
  remove_below m zero = m
  remove_below m (suc n) = dash.remove (remove_below m n) n

  unfoldable prune_head : HpFile → ℕ → HpFile
  unfolding remove_below
  prune_head h offset =
      if is_empty h
      then h
      else record h { file_map = remove_below h.file_map (offset / h.segment_size) }
