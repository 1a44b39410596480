-- ===== src/Hpfile/Reads.antt =====
-- hpfile/src/lib.rs: what aligned reads and the pre-reader give, against the bytes of the file.
use mathlib.Core.List.{append-nil}
use qmdb.Common.{
  ℕ, zero, suc, ◌+◌, ◌-◌, ◌*◌, ◌%◌, ◌<◌, ◌≤◌, ◌≡◌, ◌≢◌, refl, ap, ◌∙◌, sym, List, [], ◌∷◌, ◌++◌,
  true, false, ◌&&◌, none, some, length, take, drop, replicate, min, ltb, leb, ◌==◌, if◌then◌else◌,
  arith, length-take, length-drop, length-append, length-replicate, drop-add, drop_all,
}
use qmdb.Common.Bytes.{slice}
use qmdb.Hpfile.{File, io_blk_size, file_read_at, copy_part, read_at_aligned}

take-take : (n m : ℕ) (xs : List ℕ) → n ≤ m → take n (take m xs) ≡ take n xs
take-take zero m xs h = refl
take-take (suc n) zero xs h = absurd (omega arith)
take-take (suc n) (suc m) [] h = refl
take-take (suc n) (suc m) (x ∷ xs) h = ap (◌∷◌ x) (take-take n m xs (omega arith))

-- A window inside a prefix.
window-take :
    (o n m : ℕ) (xs : List ℕ) → o + n ≤ m → take n (drop o (take m xs)) ≡ take n (drop o xs)
window-take zero n m xs h = take-take n m xs (omega arith)
window-take (suc o) n zero xs h = absurd (omega arith)
window-take (suc o) n (suc m) [] h = refl
window-take (suc o) n (suc m) (x ∷ xs) h = window-take o n m xs (omega arith)

window-append :
    (o n : ℕ) (ys zs : List ℕ) → o + n ≤ length ys → take n (drop o (ys ++ zs)) ≡ take n (drop o ys)
window-append zero zero ys zs h = refl
window-append zero (suc n) [] zs h = absurd (omega arith)
window-append zero (suc n) (y ∷ ys) zs h = ap (◌∷◌ y) (window-append zero n ys zs (omega arith))
window-append (suc o) n [] zs h = absurd (omega arith)
window-append (suc o) n (y ∷ ys) zs h = window-append o n ys zs (omega arith)

-- The blocks that an aligned read asks for.
abbrev pub blocks : ℕ → ℕ
blocks offset = if offset % io_blk_size == 0 then io_blk_size else 2 * io_blk_size

-- A read into `size` bytes of which all are there, cut to a window.
read_window :
    (f : File) (start size o n : ℕ)
    → start + size ≤ length f.bytes
    → o + n ≤ size
    → slice ((file_read_at f (replicate size 0) start).0) o (o + n)
      ≡ some (take n (drop (start + o) f.bytes))
unfolding file_read_at
read_window f start size o n enough fits =
    let zeros : length (replicate {A = ℕ} size 0) ≡ size = length-replicate {A = ℕ} size 0 in
    let got = take (length (replicate {A = ℕ} size 0)) (drop start f.bytes) in
    let rest = drop (length got) (replicate {A = ℕ} size 0) in
    let room : leb o (o + n) && leb (o + n) (length (got ++ rest)) ≡ true = ground (
      arith,
      length-append got rest,
      length-take (length (replicate {A = ℕ} size 0)) (drop start f.bytes),
      length-drop start f.bytes,
      zeros,
    ) in
    let width : o + n - o ≡ n = omega arith in
    rw (room, width)
      (ap some (
        window-append o n got rest (
          omega (
            arith,
            length-take (length (replicate {A = ℕ} size 0)) (drop start f.bytes),
            length-drop start f.bytes,
            zeros,
          ))
        ∙ window-take o n (length (replicate {A = ℕ} size 0)) (drop start f.bytes)
            (omega (arith, zeros))
        ∙ ap (take n) (sym (drop-add start o f.bytes))))

read_count :
    (f : File) (start size : ℕ)
    → start + size ≤ length f.bytes
    → ((file_read_at f (replicate size 0) start).1 ≡ size)
      × (length ((file_read_at f (replicate size 0) start).0) ≡ size)
unfolding file_read_at
read_count f start size enough =
    let zeros = length-replicate {A = ℕ} size 0 in
    let got = take (length (replicate {A = ℕ} size 0)) (drop start f.bytes) in
    let one = length-take (length (replicate {A = ℕ} size 0)) (drop start f.bytes) in
    let two = length-drop start f.bytes in
    (
      omega (arith, one, two, zeros),
      omega (
        arith,
        length-append got (drop (length got) (replicate {A = ℕ} size 0)),
        length-drop (length got) (replicate {A = ℕ} size 0),
        one,
        two,
        zeros,
      ),
    )

copy_part_inside :
    (r : List ℕ × ℕ) (bz part : List ℕ) (o : ℕ)
    → min (r.1) (length bz) ≡ length bz
    → slice (r.0) o (o + length bz) ≡ some part
    → copy_part r bz o ≡ some (part, length bz)
unfolding copy_part
copy_part_inside r bz part o n e =
    rw (copy_part, n, e, drop_all (length bz) bz (omega arith), append-nil part) refl

copy_part_past :
    (r : List ℕ × ℕ) (bz : List ℕ) (o : ℕ)
    → min (r.1) (length bz) ≡ length bz
    → length (r.0) < o + length bz
    → copy_part r bz o ≡ none
unfolding copy_part
copy_part_past r bz o n past =
    let test : (leb o (o + length bz) && leb (o + length bz) (length (r.0))) ≡ false =
      ground arith in
    rw (copy_part, n, test) refl

module _ (f : File) (bz : List ℕ) (offset : ℕ) where
  abbrev pub in_block : ℕ
  in_block = offset % io_blk_size

  -- A read of at most two blocks, where the file has all of the blocks that are asked for, gives
  -- the bytes at the offset if they end inside these blocks; from the middle of a block, past the
  -- end of the second block, it panics.
  pub read_at_aligned_lem :
      length bz ≤ 1024
      → offset - in_block + blocks offset ≤ length f.bytes
      → (in_block + length bz ≤ blocks offset
          → read_at_aligned f bz offset ≡ some (take (length bz) (drop offset f.bytes), length bz))
        × (in_block ≢ 0 → 1024 < in_block + length bz → read_at_aligned f bz offset ≡ none)
  unfolding read_at_aligned
  read_at_aligned_lem small enough = (
    λ inside.
        let part = take (length bz) (drop (offset - in_block + in_block) f.bytes) in
        let place : offset - in_block + in_block ≡ offset = omega arith in
        rw (read_at_aligned, test)
          (copy_part_inside (file_read_at f (replicate (blocks offset) 0) (offset - in_block)) bz
              part in_block (ground (arith, count))
              (read_window f (offset - in_block) (blocks offset) in_block (length bz) enough inside)
            ∙ ap (λ (k : ℕ). some (take (length bz) (drop k f.bytes), length bz)) place),
    λ middle past.
        rw (read_at_aligned, test)
          (copy_part_past (file_read_at f (replicate (blocks offset) 0) (offset - in_block)) bz
            in_block (ground (arith, count)) (ground (arith, room, middle))),
  )
    where
      test : ltb (2 * io_blk_size) (length bz) ≡ false
      test = ground arith

      count : (file_read_at f (replicate (blocks offset) 0) (offset - in_block)).1 ≡ blocks offset
      count = (read_count f (offset - in_block) (blocks offset) enough).0

      room :
          length ((file_read_at f (replicate (blocks offset) 0) (offset - in_block)).0)
          ≡ blocks offset
      room = (read_count f (offset - in_block) (blocks offset) enough).1
