-- ===== src/Common/Slices.antt =====
-- Ranges of byte strings around a write.
use mathlib.Core.List.{append_assoc}
use mathlib.Core.Option.{some-injective}
use qmdb.Common.{
  ℕ, ◌+◌, ◌-◌, ◌≤◌, ◌≡◌, refl, ap, ap₂, sym, ◌∙◌, List, ◌++◌, ◌&&◌, some, true, false, length, take,
  drop, leb, length-append, length-drop, length-take, take-append_le, drop-append_le,
  take-append-drop, drop-add, drop_prefix, Bool-cases, inl, inr, arith,
}
use qmdb.Common.Bytes.{slice, slice_longer, slice_part, put}

-- What a slice that fits is.
pub slice_inside :
    (xs : List ℕ) (start end : ℕ) (r : List ℕ)
    → slice xs start end ≡ some r
    → (start ≤ end) × (end ≤ length xs) × (r ≡ take (end - start) (drop start xs))
slice_inside xs start end r h = elim (Bool-cases (leb start end && leb end (length xs))) [
  | inl t ↦ (ground arith, ground arith, sym (some-injective _ _ (rw t at h)))
  | inr t ↦ absurd (cc (rw t at h))
]

-- A slice in front of a cut.
slice_shorter :
    (xs ys : List ℕ) (start end : ℕ) (r : List ℕ)
    → end ≤ length xs
    → slice (xs ++ ys) start end ≡ some r
    → slice xs start end ≡ some r
slice_shorter xs ys start end r l h =
    let (order, _, is) = slice_inside (xs ++ ys) start end r h in
    let fits : (leb start end && leb end (length xs)) ≡ true = ground (arith, order, l) in
    let room : end - start ≤ length (drop start xs) =
      omega (arith, length-drop start xs, order, l) in
    rw fits (
      ap some (
        sym (take-append_le (end - start) (drop start xs) ys room)
        ∙ ap (take (end - start)) (sym (drop-append_le start xs ys (omega (arith, order, l))))
        ∙ sym is))

-- A slice behind a cut.
slice_behind :
    (xs ys : List ℕ) (start end : ℕ)
    → length xs ≤ start
    → start ≤ end
    → slice (xs ++ ys) start end ≡ slice ys (start - length xs) (end - length xs)
slice_behind xs ys start end l o =
    let a = start - length xs in
    let from : start ≡ length xs + a = omega arith in
    let far : drop start (xs ++ ys) ≡ drop a ys =
      ap (λ (n : ℕ). drop n (xs ++ ys)) from
      ∙ drop-add (length xs) a (xs ++ ys)
      ∙ ap (drop a) (drop_prefix (length xs) xs ys refl) in
    let size = length-append xs ys in
    elim (Bool-cases (leb start end && leb end (length (xs ++ ys)))) [
      | inl t ↦
          let same : end - length xs - a ≡ end - start = ground arith in
          let t' : (leb a (end - length xs) && leb (end - length xs) (length ys)) ≡ true =
            ground (arith, size) in
          rw (t, t', far, same) refl
      | inr t ↦
          let t' : (leb a (end - length xs) && leb (end - length xs) (length ys)) ≡ false =
            ground (arith, size) in
          rw (t, t') refl
    ]

-- What a write that fits gives.
pub put_inside :
    (b : List ℕ) (i : ℕ) (bz b' : List ℕ)
    → put b i bz ≡ some b'
    → (i + length bz ≤ length b) × (b' ≡ take i b ++ (bz ++ drop (i + length bz) b))
put_inside b i bz b' h = elim (Bool-cases (leb (i + length bz) (length b))) [
  | inl t ↦ (ground arith, sym (some-injective _ _ (rw t at h)))
  | inr t ↦ absurd (cc (rw t at h))
]

-- A write leaves what stands in front of it.
pub slice-put_front :
    (b b' bz : List ℕ) (i start end : ℕ) (r : List ℕ)
    → put b i bz ≡ some b'
    → end ≤ i
    → slice b start end ≡ some r
    → slice b' start end ≡ some r
slice-put_front b b' bz i start end r h l e =
    let (room, is) = put_inside b i bz b' h in
    let size : end ≤ length (take i b) = omega (arith, length-take i b, room) in
    let before =
      slice_shorter (take i b) (drop i b) start end r size (rw (take-append-drop i b) e) in
    rw is (slice_longer (take i b) _ start end before)

-- And what stands behind it.
pub slice-put_behind :
    (b b' bz : List ℕ) (i start end : ℕ)
    → put b i bz ≡ some b'
    → i + length bz ≤ start
    → start ≤ end
    → slice b' start end ≡ slice b start end
slice-put_behind b b' bz i start end h l o =
    let (room, is) = put_inside b i bz b' h in
    let n = i + length bz in
    let first : length (take i b ++ bz) ≡ n =
      omega (arith, length-append (take i b) bz, length-take i b, room) in
    let second : length (take n b) ≡ n = omega (arith, length-take n b, room) in
    let left =
      ap (λ x. slice x start end) (is ∙ sym (append_assoc (take i b) bz (drop n b)))
      ∙ slice_behind (take i b ++ bz) (drop n b) start end (omega (arith, first)) o in
    let right =
      ap (λ x. slice x start end) (sym (take-append-drop n b))
      ∙ slice_behind (take n b) (drop n b) start end (omega (arith, second)) o in
    left ∙ ap (λ (m : ℕ). slice (drop n b) (start - m) (end - m)) (first ∙ sym second) ∙ sym right

-- What was written is there.
pub slice-put_self :
    (b b' bz : List ℕ) (i : ℕ) → put b i bz ≡ some b' → slice b' i (i + length bz) ≡ some bz
slice-put_self b b' bz i h =
    let (room, is) = put_inside b i bz b' h in
    slice_part b' (take i b) bz (drop (i + length bz) b) i _ is
      (omega (arith, length-take i b, room)) refl

-- The bytes around a slice.
pub slice_cut :
    (b : List ℕ) (start end : ℕ) (r : List ℕ)
    → slice b start end ≡ some r
    → (b ≡ take start b ++ (r ++ drop end b))
      × (length (take start b) ≡ start)
      × (start + length r ≡ end)
slice_cut b start end r h =
    let (order, inside, is) = slice_inside b start end r h in
    let to : end ≡ start + (end - start) = omega (arith, order) in
    let rest : drop (end - start) (drop start b) ≡ drop end b =
      sym (drop-add start (end - start) b) ∙ ap (λ (n : ℕ). drop n b) (sym to) in
    let size : length (take (end - start) (drop start b)) ≡ end - start =
      omega (arith, length-take (end - start) (drop start b), length-drop start b, inside) in
    (
      sym (take-append-drop start b)
          ∙ ap (λ x. take start b ++ x)
              (sym (take-append-drop (end - start) (drop start b)) ∙ ap₂ ◌++◌ (sym is) rest),
      omega (arith, length-take start b, order, inside),
      omega (arith, ap length is, size, order),
    )

-- The two parts of a slice.
pub slice_first :
    (b : List ℕ) (start end : ℕ) (x y : List ℕ)
    → slice b start end ≡ some (x ++ y)
    → slice b start (start + length x) ≡ some x
slice_first b start end x y h =
    let (is, size, _) = slice_cut b start end (x ++ y) h in
    slice_part b (take start b) x (y ++ drop end b) _ _
      (is ∙ ap (λ t. take start b ++ t) (append_assoc x y (drop end b))) size refl

pub slice_second :
    (b : List ℕ) (start end : ℕ) (x y : List ℕ)
    → slice b start end ≡ some (x ++ y)
    → slice b (start + length x) end ≡ some y
slice_second b start end x y h =
    let (is, size, to) = slice_cut b start end (x ++ y) h in
    slice_part b (take start b ++ x) y (drop end b) _ _
      (is
        ∙ ap (λ t. take start b ++ t) (append_assoc x y (drop end b))
        ∙ sym (append_assoc (take start b) x (y ++ drop end b)))
      (omega (arith, size, length-append (take start b) x)) (omega (arith, to, length-append x y))

pub slice_joined :
    (b : List ℕ) (start middle end : ℕ) (x y : List ℕ)
    → slice b start middle ≡ some x
    → slice b middle end ≡ some y
    → slice b start end ≡ some (x ++ y)
slice_joined b start middle end x y h k =
    let (is, size, to) = slice_cut b start middle x h in
    let (is', size', to') = slice_cut b middle end y k in
    let same = drop_prefix middle (take middle b) (y ++ drop end b) size' in
    let rest : drop middle b ≡ y ++ drop end b = ap (drop middle) is' ∙ same in
    slice_part b (take start b) (x ++ y) (drop end b) _ _
      (is
        ∙ ap (λ t. take start b ++ t) (ap (λ t. x ++ t) rest ∙ sym (append_assoc x y (drop end b))))
      size (omega (arith, to, to', length-append x y))

-- A write that fits returns.
pub put-returns :
    (b : List ℕ) (i : ℕ) (bz : List ℕ)
    → i + length bz ≤ length b
    → put b i bz ≡ some (take i b ++ (bz ++ drop (i + length bz) b))
put-returns b i bz h = let t : leb (i + length bz) (length b) ≡ true = ground arith in rw t refl

pub length-put : (b : List ℕ) (i : ℕ) (bz b' : List ℕ) → put b i bz ≡ some b' → length b' ≡ length b
length-put b i bz b' h =
    let (room, is) = put_inside b i bz b' h in
    omega (
      arith,
      ap length is,
      length-append (take i b) (bz ++ drop (i + length bz) b),
      length-append bz (drop (i + length bz) b),
      length-take i b,
      length-drop (i + length bz) b,
      room,
    )

-- A slice that fits returns.
pub slice-returns :
    (b : List ℕ) (start end : ℕ)
    → start ≤ end
    → end ≤ length b
    → (r : List ℕ) × (slice b start end ≡ some r) × (length r ≡ end - start)
slice-returns b start end order inside =
    let t : (leb start end && leb end (length b)) ≡ true = ground arith in
    (
      take (end - start) (drop start b),
      rw t refl,
      omega (arith, length-take (end - start) (drop start b), length-drop start b),
    )
