-- ===== src/Utils/ShortList/Laws.antt =====
-- qmdb/src/utils/shortlist.rs: a short list against the list of its elements.
use mathlib.Core.List.{append_assoc}
use qmdb.Common.{
  ℕ, zero, suc, ◌+◌, ◌/◌, ◌%◌, ◌^◌, ◌<◌, ◌≡◌, refl, ap, sym, ◌∙◌, List, [], ◌∷◌, ◌++◌, Bool, true,
  false, ◌||◌, Option, some, length, drop, leb, length-append, length-drop, drop_all, get_elem?,
  ◌==◌, if◌then◌else◌, arith, ◌>>=◌, Bool-cases, inl, inr,
}
use qmdb.Common.Bytes.{to_le_bytes, to_be_bytes}
use qmdb.Extern.Byteorder.{ByteOrder}
use qmdb.Utils.ShortList.{
  ShortList, array, vector, element_count, low_bytes, get, has_from, push_array, append,
}

-- The list holds these elements, each of which fits seven bytes while they are in the array.
pub data Holds : ShortList → List ℕ → Type 0 where
  empty : {arr : List ℕ} → length arr ≡ 14 → Holds (array 0 arr) []
  one :
      {x : ℕ} {rest : List ℕ}
      → x < 2 ^ 56
      → length rest ≡ 7
      → Holds (array 1 (to_le_bytes 7 x ++ rest)) (x ∷ [])
  two :
      {x y : ℕ}
      → x < 2 ^ 56
      → y < 2 ^ 56
      → Holds (array 2 (to_le_bytes 7 x ++ to_be_bytes 7 y)) (x ∷ y ∷ [])
  many : {xs : List ℕ} → Holds (vector xs) xs

abbrev pub mem : List ℕ → ℕ → Bool
mem [] e = false
mem (x ∷ xs) e = x == e || mem xs e

drop_7 : (rest : List ℕ) → length rest ≡ 7 → drop 7 rest ≡ []
drop_7 rest h = drop_all 7 rest (omega (arith, h))

module _ (bo : ByteOrder) where
  low_first : (x b : ℕ) → x < 2 ^ 56 → low_bytes (bo.read_le (to_le_bytes 7 x ++ (b ∷ []))) ≡ x
  low_first x b h = rw (bo.read_le-bytes (to_le_bytes 7 x ++ (b ∷ []))) (omega arith)

  low_second : (y b : ℕ) → y < 2 ^ 56 → low_bytes (bo.read_be (b ∷ to_be_bytes 7 y)) ≡ y
  low_second y b h = rw (bo.read_be-bytes (b ∷ to_be_bytes 7 y)) (omega arith)

  get_first :
      (size x : ℕ) (rest : List ℕ)
      → x < 2 ^ 56
      → length rest ≡ 7
      → get bo (array size (to_le_bytes 7 x ++ rest)) 0 ≡ some x
  unfolding get
  get_first size x [] h l = absurd (omega arith)
  get_first size x (b ∷ rest) h l =
      let room : leb 8 (length (to_le_bytes 7 x ++ (b ∷ rest))) ≡ true = ground arith in
      rw (get, room) (ap some (low_first x b h))

  get_second :
      (size x y : ℕ)
      → y < 2 ^ 56
      → get bo (array size (to_le_bytes 7 x ++ to_be_bytes 7 y)) 1 ≡ some y
  unfolding get
  get_second size x y h = ap some (low_second y (x / 256 / 256 / 256 / 256 / 256 / 256 % 256) h)

  pub get-Holds :
      (l : ShortList) (xs : List ℕ) (i : ℕ)
      → Holds l xs
      → i < length xs
      → get bo l i ≡ get_elem? xs i
  unfolding get
  get-Holds l xs i (empty h) lt = absurd (omega arith)
  get-Holds l xs zero (one {x} {rest} h k) lt = get_first 1 x rest h k
  get-Holds l xs (suc i) (one {x} {rest} h k) lt = absurd (omega arith)
  get-Holds l xs zero (two {x} {y} h k) lt = get_first 2 x (to_be_bytes 7 y) h refl
  get-Holds l xs (suc zero) (two {x} {y} h k) lt = get_second 2 x y k
  get-Holds l xs (suc (suc i)) (two h k) lt = absurd (omega arith)
  get-Holds l xs i many lt = refl

  at_place : (a b : List ℕ) (v : ℕ) → get_elem? (a ++ (v ∷ b)) (length a) ≡ some v
  at_place [] b v = refl
  at_place (y ∷ a) b v = at_place a b v

  either_way :
      (b : Bool) (r : Option Bool) (m : Bool)
      → r ≡ some m
      → elim b [ true ↦ some true | false ↦ r ] ≡ some (b || m)
  either_way true r m h = refl
  either_way false r m h = h

  has_from_lem :
      (l : ShortList) (xs done rest : List ℕ) (e : ℕ)
      → Holds l xs
      → xs ≡ done ++ rest
      → has_from bo (length rest) (length done) l e ≡ some (mem rest e)
  unfolding has_from
  has_from_lem l xs done [] e h eq = refl
  has_from_lem l xs done (x ∷ rest) e h eq =
      let here : get bo l (length done) ≡ some x =
        get-Holds l xs (length done) h (rw eq (omega (arith, length-append done (x ∷ rest))))
        ∙ ap (λ ys. get_elem? ys (length done)) eq
        ∙ at_place done rest x in
      let next : length (done ++ (x ∷ [])) ≡ length done + 1 =
        omega (arith, length-append done (x ∷ [])) in
      let again =
        has_from_lem l xs (done ++ (x ∷ [])) rest e h
          (eq ∙ sym (append_assoc done (x ∷ []) rest)) in
      rw (has_from, here)
        (either_way (x == e) _ (mem rest e)
          (ap (λ (k : ℕ). has_from bo (length rest) k l e) (sym next) ∙ again))

  element_count-Holds : (l : ShortList) (xs : List ℕ) → Holds l xs → element_count l ≡ length xs
  element_count-Holds l xs (empty h) = refl
  element_count-Holds l xs (one h k) = refl
  element_count-Holds l xs (two h k) = refl
  element_count-Holds l xs many = refl

  found :
      (l : ShortList) (xs : List ℕ) (e : ℕ)
      → Holds l xs
      → has_from bo (element_count l) 0 l e ≡ some (mem xs e)
  found l xs e h = rw (element_count-Holds l xs h) (has_from_lem l xs [] xs e h refl)

  abbrev push : ShortList → ℕ → Option ShortList
  push l e = elim l [
    | array size arr ↦ push_array bo size arr e
    | vector v ↦ some (vector (v ++ (e ∷ [])))
  ]

  spilled :
      (a b : Option ℕ) (x y e : ℕ)
      → a ≡ some x
      → b ≡ some y
      → (do first ← a; second ← b; some (vector (first ∷ second ∷ e ∷ [])))
        ≡ some (vector (x ∷ y ∷ e ∷ []))
  spilled a b x y e ha hb = rw (ha, hb) refl

  pushed :
      (l : ShortList) (xs : List ℕ) (e : ℕ)
      → Holds l xs
      → e < 2 ^ 56
      → (l' : ShortList) × (push l e ≡ some l') × Holds l' (xs ++ (e ∷ []))
  unfolding push_array
  pushed l xs e (empty {arr} h) small =
      let room : leb (0 + 8) (length arr) ≡ true = ground arith in
      (
        array 1
            (to_le_bytes 7 e ++ ((e / 256 / 256 / 256 / 256 / 256 / 256 / 256 % 256) ∷ drop 8 arr)),
        rw (bo.write_le-bytes 8 e, room) refl,
        one small (omega (arith, length-drop 8 arr, h)),
      )
  pushed l xs e (one {x} {rest} h k) small =
      let room : leb (6 + 8) (length (to_le_bytes 7 x ++ rest)) ≡ true = ground arith in
      (
        array 2 (to_le_bytes 7 x ++ to_be_bytes 7 e),
        rw (bo.write_be-bytes 8 e, room, drop_7 rest k) refl,
        two h small,
      )
  pushed l xs e (two {x} {y} h k) small = (
    vector (x ∷ y ∷ e ∷ []),
    spilled _ _ x y e (get_first 2 x (to_be_bytes 7 y) h refl) (get_second 2 x y k),
    many,
  )
  pushed l xs e many small = (vector (xs ++ (e ∷ [])), refl, many)

  -- An append to a list that holds these elements, with a new one of less than 2^56, returns;
  -- the list then holds the elements as before if the new one was among them, and otherwise the
  -- elements followed by the new one, in the order of appending.
  pub append-Holds :
      (l : ShortList) (xs : List ℕ) (elem_new : ℕ)
      → Holds l xs
      → elem_new < 2 ^ 56
      → (l' : ShortList) × (append bo l elem_new ≡ some l')
        × Holds l' (if mem xs elem_new then xs else xs ++ (elem_new ∷ []))
  unfolding append
  append-Holds l xs e h small = elim (Bool-cases (mem xs e)) [
    | inl t ↦ (l, rw (append, found l xs e h, t) refl, rw t h)
    | inr t ↦
        let (l', runs, holds) = pushed l xs e h small in
        (l', rw (append, found l xs e h, t) runs, rw t holds)
  ]
