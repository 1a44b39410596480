-- ===== src/Hpfile/Append.antt =====
-- hpfile/src/lib.rs: `append`, against the bytes of each segment, written or still in the buffer.
use qmdb.Common.{
  ℕ, ◌+◌, ◌-◌, ◌*◌, ◌<◌, ◌≤◌, ◌≡◌, ◌⊎◌, refl, ◌∙◌, List, ◌++◌, false, Bool-cases, inl, inr, some,
  length, replicate, ltb, leb, ◌==◌, arith, length-append, length-replicate,
}
use qmdb.Extern.Dashmap.{DashMap}
use qmdb.Hpfile.Tail.{Tail, append_buffer_lem, next_segment_lem, rolled}
use qmdb.Hpfile.{File, HpFile, append}

module _ (dash : DashMap File) where
  -- A file between two calls, with the bytes of its last segment.
  pub record IsWellFormed (h : HpFile dash) (buffer all : List ℕ) : Type 0 where
    pub segment_fits : h.buffer_size ≤ h.segment_size
    pub nonempty : 0 < h.segment_size
    pub latest : h.latest_file_size < h.segment_size
    pub size : h.file_size ≡ h.largest_id * h.segment_size + h.latest_file_size
    pub tail : Tail dash h.file_map h.largest_id buffer all
    pub sized : length all ≡ h.latest_file_size
    pub buffer_fits : length buffer ≤ h.buffer_size

  -- What an append does to a file.
  pub record Appended (h h' : HpFile dash) (bz all buffer' : List ℕ) : Type 0 where
    pub all' : List ℕ
    pub well_formed : IsWellFormed h' buffer' all'
    pub grown : h'.file_size ≡ h.file_size + length bz
    -- The bytes are in the segment, written or in the buffer.
    pub stored :
        ((h'.largest_id ≡ h.largest_id) × (all' ≡ all ++ bz))
        ⊎ ((h'.largest_id ≡ h.largest_id + 1)
            × (f : File) × (pad : List ℕ) × (dash.get h'.file_map h.largest_id ≡ some f)
            × (f.bytes ≡ (all ++ bz) ++ pad))
    -- Earlier segments are as they were.
    pub kept : (j : ℕ) → j < h.largest_id → dash.get h'.file_map j ≡ dash.get h.file_map j

  -- In a well-formed file `append` of a slice no longer than the buffer returns the position where
  -- the file ended. The file is well-formed again and longer by the slice; the last segment's
  -- bytes, written or in the buffer, are followed by the slice, all of it in that segment, also
  -- where a new segment was begun; and the earlier segments are unchanged.
  pub append_lem :
      (h : HpFile dash) (bz buffer all : List ℕ)
      → IsWellFormed h buffer all
      → length bz ≤ h.buffer_size
      → (h' : HpFile dash) × (buffer' : List ℕ) × (append dash h bz buffer
          ≡ some (h.file_size, h', buffer'))
        × Appended h h' bz all buffer'
  unfolding append
  append_lem h bz buffer all w small =
      let open_file : (h.segment_size == 0) ≡ false = ground (arith, w.nonempty) in
      let fits : ltb h.buffer_size (length bz) ≡ false = ground (arith, small) in
      let grown : HpFile dash = record h {
        latest_file_size = h.latest_file_size + length bz;
        file_size = h.file_size + length bz;
      } in
      let (m1, d1, b1, runs, tail, short, others) =
        append_buffer_lem dash grown bz buffer all w.tail w.buffer_fits small in
      elim (Bool-cases (leb h.segment_size (h.latest_file_size + length bz))) [
        | inr e ↦ (
          record grown { file_map = m1; file_size_on_disk = d1 },
          b1,
          rw (append, open_file, fits, runs, e) refl,
          record {
            all' = all ++ bz;
            well_formed = record {
              segment_fits = w.segment_fits;
              nonempty = w.nonempty;
              latest = ground arith;
              size = omega (arith, w.size);
              tail = tail;
              sized = omega (arith, w.sized, length-append all bz);
              buffer_fits = short;
            };
            grown = refl;
            stored = inl (refl, refl);
            kept = λ j lt. others j (λ same. omega arith);
          },
        )
        | inl e ↦
            let over = h.latest_file_size + length bz - h.segment_size in
            let (m2, d2, b2, runs2, tail2, size2, old, others2) =
              next_segment_lem dash (record grown { file_map = m1; file_size_on_disk = d1 }) b1
                (all ++ bz) over open_file tail in
            (
              record grown {
                file_map = m2;
                file_size_on_disk = d2;
                largest_id = h.largest_id + 1;
                latest_file_size = over;
              },
              b2,
              rw (append, open_file, fits, runs, e, runs2) refl,
              record {
                all' = replicate over 0;
                well_formed = record {
                  segment_fits = w.segment_fits;
                  nonempty = w.nonempty;
                  latest = ground (arith, w.latest, w.segment_fits);
                  size =
                      rolled h.file_size h.largest_id h.segment_size h.latest_file_size (length bz)
                        w.size e;
                  tail = tail2;
                  sized = length-replicate {A = ℕ} over 0;
                  buffer_fits = ground (arith, size2, w.latest);
                };
                grown = refl;
                stored = inr (refl, old.0, old.1, old.2, old.3);
                kept = λ j lt.
                    others2 j (λ same. omega arith) (λ same. omega arith)
                    ∙ others j (λ same. omega arith);
              },
            )
      ]
