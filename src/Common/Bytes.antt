-- ===== src/Common/Bytes.antt =====
-- Byte strings: equality, the fixed-width encodings of Rust's `to_le_bytes` and `to_be_bytes`,
-- and ranges.
use native.Mathlib.Nat.{pow-suc}
use mathlib.Core.List.{append_assoc}
use qmdb.Common.{
  ℕ, zero, suc, ◌+◌, ◌-◌, ◌*◌, ◌/◌, ◌%◌, ◌^◌, ◌<◌, ◌≡◌, ◌↔◌, refl, ap, List, [], ◌∷◌, ◌++◌, Bool,
  true, false, ◌&&◌, Option, none, some, length, take, drop, leb, ◌==◌, if◌then◌else◌, arith,
  length-append, take-append_le, drop-append_le, Bool-cases, inl, inr, take_prefix, drop_prefix,
  drop-add, length-drop, sym, ◌≤◌, ◌∙◌,
}

abbrev pub bytes_eq : List ℕ → List ℕ → Bool
bytes_eq [] [] = true
bytes_eq [] (y ∷ ys) = false
bytes_eq (x ∷ xs) [] = false
bytes_eq (x ∷ xs) (y ∷ ys) = x == y && bytes_eq xs ys

pub eq_of_bytes_eq : (xs ys : List ℕ) → bytes_eq xs ys ≡ true → xs ≡ ys
eq_of_bytes_eq [] [] h = refl
eq_of_bytes_eq [] (y ∷ ys) h = cc
eq_of_bytes_eq (x ∷ xs) [] h = cc
eq_of_bytes_eq (x ∷ xs) (y ∷ ys) h = ground (arith, eq_of_bytes_eq xs ys)

pub bytes_eq_refl : (xs : List ℕ) → bytes_eq xs xs ≡ true
bytes_eq_refl [] = refl
bytes_eq_refl (x ∷ xs) = ground (arith, bytes_eq_refl xs)

pub bytes_eq_iff : (xs ys : List ℕ) → (bytes_eq xs ys ≡ true) ↔ (xs ≡ ys)
bytes_eq_iff xs ys = (eq_of_bytes_eq xs ys, λ e. rw e (bytes_eq_refl ys))

-- The lowest byte first.
abbrev pub to_le_bytes : ℕ → ℕ → List ℕ
to_le_bytes zero v = []
to_le_bytes (suc n) v = (v % 256) ∷ to_le_bytes n (v / 256)

abbrev pub from_le_bytes : List ℕ → ℕ
from_le_bytes [] = 0
from_le_bytes (x ∷ xs) = x + 256 * from_le_bytes xs

pub length-to_le_bytes : (n v : ℕ) → length (to_le_bytes n v) ≡ n
length-to_le_bytes zero v = refl
length-to_le_bytes (suc n) v = ap suc (length-to_le_bytes n (v / 256))

pub from_le_bytes-to_le_bytes : (n v : ℕ) → v < 256 ^ n → from_le_bytes (to_le_bytes n v) ≡ v
from_le_bytes-to_le_bytes zero v h = omega arith
from_le_bytes-to_le_bytes (suc n) v h =
    omega
      (arith, from_le_bytes-to_le_bytes n (v / 256) (omega (arith, pow-suc 256 n)), pow-suc 256 n)

-- The highest byte first.
abbrev pub to_be_bytes : ℕ → ℕ → List ℕ
to_be_bytes zero v = []
to_be_bytes (suc n) v = (v / 256 ^ n % 256) ∷ to_be_bytes n v

abbrev pub from_be_bytes : List ℕ → ℕ
from_be_bytes [] = 0
from_be_bytes (x ∷ xs) = x * 256 ^ length xs + from_be_bytes xs

pub length-to_be_bytes : (n v : ℕ) → length (to_be_bytes n v) ≡ n
length-to_be_bytes zero v = refl
length-to_be_bytes (suc n) v = ap suc (length-to_be_bytes n v)

-- `bz[start..end]`: `none` is the panic on a range that does not fit.
abbrev pub slice : List ℕ → ℕ → ℕ → Option (List ℕ)
slice bz start end =
    if leb start end && leb end (length bz) then some (take (end - start) (drop start bz)) else none

-- A slice of known bytes in a known place.
pub slice-append :
    (xs ys zs : List ℕ) (start end : ℕ)
    → length xs ≡ start
    → start + length ys ≡ end
    → slice (xs ++ (ys ++ zs)) start end ≡ some ys
slice-append xs ys zs start end hs he = ground (
  arith,
  length-append xs (ys ++ zs),
  length-append ys zs,
  drop_prefix start xs (ys ++ zs) hs,
  take_prefix (end - start) ys zs (omega arith),
)

-- `b[i..i + bz.len()].copy_from_slice(bz)`: `none` is the panic on a range that does not fit.
abbrev pub put : List ℕ → ℕ → List ℕ → Option (List ℕ)
put b i bz =
    if leb (i + length bz) (length b)
    then some (take i b ++ (bz ++ drop (i + length bz) b))
    else none

-- A write right after the bytes that are done.
pub put-append :
    (done rest bz : List ℕ) (i : ℕ)
    → length done ≡ i
    → length bz ≤ length rest
    → put (done ++ rest) i bz ≡ some ((done ++ bz) ++ drop (length bz) rest)
put-append done rest bz i h fits =
    let far : drop (i + length bz) (done ++ rest) ≡ drop (length bz) rest =
      drop-add i (length bz) (done ++ rest) ∙ ap (drop (length bz)) (drop_prefix i done rest h) in
    let room : leb (i + length bz) (length (done ++ rest)) ≡ true =
      ground (arith, length-append done rest) in
    rw (room, take_prefix i done rest h, far, append_assoc done bz (drop (length bz) rest)) refl

-- A buffer whose first bytes have been overwritten.
abbrev pub written : List ℕ → List ℕ → List ℕ
written b done = done ++ drop (length done) b

pub put-written :
    (b done bz : List ℕ) (i : ℕ)
    → length done ≡ i
    → i + length bz ≤ length b
    → put (written b done) i bz ≡ some (written b (done ++ bz))
put-written b done bz i h fits =
    put-append done (drop (length done) b) bz i h (omega (arith, length-drop (length done) b))
    ∙ ap (λ t. some ((done ++ bz) ++ t))
        (sym (drop-add (length done) (length bz) b)
          ∙ ap (λ (n : ℕ). drop n b) (sym (length-append done bz)))

pub slice_part :
    (bz xs ys zs : List ℕ) (start end : ℕ)
    → bz ≡ xs ++ (ys ++ zs)
    → length xs ≡ start
    → start + length ys ≡ end
    → slice bz start end ≡ some ys
slice_part bz xs ys zs start end e hs he = rw e (slice-append xs ys zs start end hs he)

-- A slice that fits is the same when more bytes follow.
pub slice_longer :
    (xs ys : List ℕ) (start end : ℕ) {r : List ℕ}
    → slice xs start end ≡ some r
    → slice (xs ++ ys) start end ≡ some r
slice_longer xs ys start end {r} h = elim (Bool-cases (leb start end && leb end (length xs))) [
  | inr t ↦ absurd (cc (rw t at h))
  | inl t ↦
      let still : (leb start end && leb end (length (xs ++ ys))) ≡ true =
        ground (arith, length-append xs ys) in
      let inside : end - start ≤ length (drop start xs) = ground (arith, length-drop start xs) in
      rw
        (
          still,
          drop-append_le start xs ys (ground arith),
          take-append_le (end - start) (drop start xs) ys inside,
        )
        (rw t at h)
]
