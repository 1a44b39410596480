-- ===== src/Hpfile/Tail.antt =====
-- hpfile/src/lib.rs: the segment that is written, its bytes in the file and in the buffer.
use mathlib.Core.List.{append_assoc, append-nil}
use qmdb.Common.{
  drop_all, ℕ, zero, suc, ◌+◌, ◌-◌, ◌*◌, ◌≤◌, ◌≡◌, ◌≢◌, refl, ap, ◌∙◌, sym, List, [], ◌∷◌, ◌++◌,
  true, false, Bool-cases, inl, inr, some, length, take, drop, replicate, ltb, leb, ◌==◌,
  if◌then◌else◌, arith, take_all, length-append, take-append-drop, length-drop, length-replicate,
}
use qmdb.Extern.Dashmap.{DashMap}
use qmdb.Hpfile.{
  File, new_file, seek_end, write_all, HpFile, padding, flush, append_buffer, next_segment,
}

-- A write at the end.
write_all-end :
    (f : File) (bz : List ℕ)
    → f.readonly ≡ false
    → f.cursor ≡ length f.bytes
    → write_all f bz ≡ some (record f { bytes = f.bytes ++ bz; cursor = f.cursor + length bz })
unfolding write_all
write_all-end f bz w c =
    let front : take f.cursor f.bytes ≡ f.bytes = take_all f.cursor f.bytes (omega (arith, c)) in
    let back : drop (f.cursor + length bz) f.bytes ≡ [] =
      drop_all (f.cursor + length bz) f.bytes (omega (arith, c)) in
    rw (w, front, back, append-nil bz) refl

rejoin : (a b c all : List ℕ) (n : ℕ) → a ++ b ≡ all → (a ++ (b ++ take n c)) ++ drop n c ≡ all ++ c
rejoin a b c all n e =
    ap (λ x. x ++ drop n c) (sym (append_assoc a b (take n c)) ∙ ap (λ x. x ++ take n c) e)
    ∙ append_assoc all (take n c) (drop n c)
    ∙ ap (λ x. all ++ x) (take-append-drop n c)

nil_of_length : (xs : List ℕ) → (length xs == 0) ≡ true → xs ≡ []
nil_of_length [] h = refl
nil_of_length (x ∷ xs) h = absurd (ground arith)

pub rolled :
    (size id segment latest n : ℕ)
    → size ≡ id * segment + latest
    → leb segment (latest + n) ≡ true
    → size + n ≡ (id + 1) * segment + (latest + n - segment)
rolled size id segment latest n e t =
    let product : (id + 1) * segment ≡ id * segment + segment = grind arith in
    ground (arith, product, e, t)

module _ (dash : DashMap File) where
  -- The segment that is written: its bytes and those of the buffer are `all`.
  pub record Tail (m : dash.Map) (id : ℕ) (buffer all : List ℕ) : Type 0 where
    pub f : File
    pub at_id : dash.get m id ≡ some f
    pub writable : f.readonly ≡ false
    pub at_end : f.cursor ≡ length f.bytes
    pub whole : f.bytes ++ buffer ≡ all

  abbrev pub Others : dash.Map → dash.Map → ℕ → Type 0
  Others m m' id = (j : ℕ) → j ≢ id → dash.get m' j ≡ dash.get m j

  -- The map after more bytes went into a segment.
  written-Tail :
      (m : dash.Map) (id : ℕ) (f : File) (bz buffer all : List ℕ)
      → f.readonly ≡ false
      → f.cursor ≡ length f.bytes
      → (f.bytes ++ bz) ++ buffer ≡ all
      → Tail
          (dash.insert m id (record f { bytes = f.bytes ++ bz; cursor = f.cursor + length bz }))
          id
          buffer
          all
  written-Tail m id f bz buffer all w c e = record {
    f = record f { bytes = f.bytes ++ bz; cursor = f.cursor + length bz };
    at_id = ground (
      arith,
      dash.get-insert m id (record f { bytes = f.bytes ++ bz; cursor = f.cursor + length bz }) id,
    );
    writable = w;
    at_end = omega (arith, length-append f.bytes bz, c);
    whole = e;
  }

  insert-Others : (m : dash.Map) (id : ℕ) (f : File) → Others m (dash.insert m id f) id
  insert-Others m id f j ne = elim (Bool-cases (id == j)) [
    | inl e ↦ absurd (ne (ground arith))
    | inr e ↦ dash.get-insert m id f j ∙ rw e refl
  ]

  pub append_buffer_lem :
      (h : HpFile dash) (bz buffer all : List ℕ)
      → Tail h.file_map h.largest_id buffer all
      → length buffer ≤ h.buffer_size
      → length bz ≤ h.buffer_size
      → (m' : dash.Map) × (d' : ℕ) × (buffer' : List ℕ) × (append_buffer dash h bz buffer
          ≡ some (record h { file_map = m'; file_size_on_disk = d' }, buffer'))
        × Tail m' h.largest_id buffer' (all ++ bz)
        × (length buffer' ≤ h.buffer_size)
        × Others h.file_map m' h.largest_id
  unfolding append_buffer
  append_buffer_lem h bz buffer all t fits small =
      elim (Bool-cases (ltb h.buffer_size (length buffer + length bz))) [
        | inr e ↦ (
          h.file_map,
          h.file_size_on_disk,
          buffer ++ bz,
          rw (append_buffer, e) refl,
          record {
            f = t.f;
            at_id = t.at_id;
            writable = t.writable;
            at_end = t.at_end;
            whole = sym (append_assoc t.f.bytes buffer bz) ∙ ap (λ x. x ++ bz) t.whole;
          },
          ground (arith, length-append buffer bz),
          λ j ne. refl,
        )
        | inl e ↦
            let split_pos = length bz - (length buffer + length bz - h.buffer_size) in
            let full = buffer ++ take split_pos bz in
            (
              dash.insert h.file_map h.largest_id
                  (record t.f { bytes = t.f.bytes ++ full; cursor = t.f.cursor + length full }),
              h.file_size_on_disk + length full,
              drop split_pos bz,
              rw (append_buffer, e, t.at_id, write_all-end t.f full t.writable t.at_end) refl,
              written-Tail h.file_map h.largest_id t.f full (drop split_pos bz) (all ++ bz)
                  t.writable t.at_end (rejoin t.f.bytes buffer bz all split_pos t.whole),
              ground (arith, length-drop split_pos bz),
              insert-Others h.file_map h.largest_id _,
            )
      ]

  flush_lem :
      (h : HpFile dash) (buffer all : List ℕ)
      → (h.segment_size == 0) ≡ false
      → Tail h.file_map h.largest_id buffer all
      → (m' : dash.Map) × (d' : ℕ) × (pad : List ℕ) × (flush dash h buffer true
          ≡ some (record h { file_map = m'; file_size_on_disk = d' }, []))
        × Tail m' h.largest_id [] (all ++ pad)
        × Others h.file_map m' h.largest_id
  unfolding flush
  flush_lem h buffer all nonempty t = elim (Bool-cases (length buffer == 0)) [
    | inl e ↦
        let nil = nil_of_length buffer e in
        (
          h.file_map,
          h.file_size_on_disk,
          [],
          rw (flush, nonempty, t.at_id, e, nil) refl,
          record {
            f = t.f;
            at_id = t.at_id;
            writable = t.writable;
            at_end = t.at_end;
            whole = ap (λ x. t.f.bytes ++ x) (sym nil) ∙ t.whole ∙ sym (append-nil all);
          },
          λ j ne. refl,
        )
    | inr e ↦
        let pad = padding dash (length buffer) true in
        let padded = buffer ++ pad in
        let f = seek_end t.f in
        (
          dash.insert h.file_map h.largest_id
              (record f { bytes = f.bytes ++ padded; cursor = f.cursor + length padded }),
          h.file_size_on_disk + length padded,
          pad,
          rw (flush, nonempty, t.at_id, e, write_all-end f padded t.writable refl) refl,
          written-Tail h.file_map h.largest_id f padded [] (all ++ pad) t.writable refl (
              append-nil (f.bytes ++ padded)
              ∙ sym (append_assoc t.f.bytes buffer pad)
              ∙ ap (λ x. x ++ pad) t.whole),
          insert-Others h.file_map h.largest_id _,
        )
  ]

  abbrev reopened : HpFile dash → dash.Map → File → dash.Map
  reopened h m old =
      if h.directio
      then dash.insert m h.largest_id (record { bytes = old.bytes; cursor = 0; readonly = true })
      else m

  reopened-Others :
      (h : HpFile dash) (m : dash.Map) (old : File) → Others m (reopened h m old) h.largest_id
  reopened-Others h m old = elim (Bool-cases h.directio) [
    | inl e ↦ rw e (insert-Others m h.largest_id _)
    | inr e ↦ rw e (λ j ne. refl)
  ]

  reopened-old :
      (h : HpFile dash) (m : dash.Map) (old : File)
      → dash.get m h.largest_id ≡ some old
      → (f : File) × (dash.get (reopened h m old) h.largest_id ≡ some f) × (f.bytes ≡ old.bytes)
  reopened-old h m old g = elim (Bool-cases h.directio) [
    | inl e ↦ (
      record { bytes = old.bytes; cursor = 0; readonly = true },
      rw e (
          ground (
            arith,
            dash.get-insert m h.largest_id
                (record { bytes = old.bytes; cursor = 0; readonly = true }) h.largest_id,
          )),
      refl,
    )
    | inr e ↦ (old, rw e g, refl)
  ]

  zeros : (n : ℕ) → (if n == 0 then [] else replicate n 0) ≡ replicate {A = ℕ} n 0
  zeros zero = refl
  zeros (suc n) = let e : (suc n == 0) ≡ false = ground arith in rw e refl

  -- The segment that is left behind has all of the bytes, and zeros after them; the new one
  -- consists of zeros.
  pub next_segment_lem :
      (h : HpFile dash) (buffer all : List ℕ) (overflow : ℕ)
      → (h.segment_size == 0) ≡ false
      → Tail h.file_map h.largest_id buffer all
      → (m' : dash.Map) × (d' : ℕ) × (buffer' : List ℕ) × (next_segment dash h buffer overflow
          ≡ some (
            record h {
              file_map = m';
              file_size_on_disk = d';
              largest_id = h.largest_id + 1;
              latest_file_size = overflow;
            },
            buffer',
          ))
        × Tail m' (h.largest_id + 1) buffer' (replicate overflow 0)
        × (length buffer' ≡ overflow)
        × ((old : File) × (pad : List ℕ) × (dash.get m' h.largest_id ≡ some old)
            × (old.bytes ≡ all ++ pad))
        × ((j : ℕ)
            → j ≢ h.largest_id
            → j ≢ h.largest_id + 1
            → dash.get m' j ≡ dash.get h.file_map j)
  unfolding next_segment
  next_segment_lem h buffer all overflow nonempty t =
      let (m1, d1, pad, runs, tail, others) = flush_lem h buffer all nonempty t in
      let m2 = reopened h m1 tail.f in
      let m3 = dash.insert m2 (h.largest_id + 1) new_file in
      let (old, at_old, same) = reopened-old h m1 tail.f tail.at_id in
      (
        m3,
        d1,
        replicate overflow 0,
        rw (next_segment, runs, tail.at_id, zeros overflow) refl,
        record {
          f = new_file;
          at_id = ground (arith, dash.get-insert m2 (h.largest_id + 1) new_file (h.largest_id + 1));
          writable = refl;
          at_end = refl;
          whole = refl;
        },
        length-replicate {A = ℕ} overflow 0,
        (
          old,
          pad,
          insert-Others m2 (h.largest_id + 1) new_file h.largest_id (λ e. omega (arith, e))
              ∙ at_old,
          same ∙ sym (append-nil tail.f.bytes) ∙ tail.whole,
        ),
        λ j ne ne'.
            insert-Others m2 (h.largest_id + 1) new_file j ne'
            ∙ reopened-Others h m1 tail.f j ne
            ∙ others j ne,
      )
