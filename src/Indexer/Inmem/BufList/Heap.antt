-- ===== src/Indexer/Inmem/BufList/Heap.antt =====
-- The leaves that stand in the buffers of a `BufList` of qmdb/src/indexer/inmem.rs.
use mathlib.Core.Option.{some-injective}
use qmdb.Common.{
  ℕ, ◌+◌, ◌*◌, ◌/◌, ◌%◌, ◌^◌, ◌<◌, ◌≤◌, ◌≡◌, ◌≢◌, ◌⊎◌, inl, inr, refl, ap, sym, ◌∙◌, List, ◌++◌,
  some, length, get_elem?, set, ◌>>=◌, arith, ==_iff, ==_self, ◌==◌, Bool-cases, get_elem?-set,
  if◌then◌else◌, length-set,
}
use qmdb.Common.Bytes.{slice, put, to_le_bytes}
use qmdb.Common.Slices.{
  slice_inside, slice_first, slice_second, slice_joined, slice-put_front, slice-put_behind,
  slice-put_self, length-put, put-returns,
}
use qmdb.Extern.Byteorder.{ByteOrder}
use qmdb.Indexer.Inmem.BufList.{BufList, range_of, get_leaf, put_leaf}

-- A leaf: its position, its capacity, and its bytes.
pub record Slot : Type 0 where
  pub pos : ℕ
  pub cap : ℕ
  pub bytes : List ℕ

abbrev pub start_of : Slot → ℕ
start_of s = s.pos % 2 ^ 32

abbrev pub end_of : Slot → ℕ
end_of s = s.pos % 2 ^ 32 + (s.cap * 12 + 4)

-- The bytes fit the capacity.
pub record IsSlot (s : Slot) : Type 0 where
  pub sized : length s.bytes ≡ s.cap * 12 + 2
  pub small : s.cap < 2 ^ 16

-- The buffers have it.
pub record Holds (bl : BufList) (s : Slot) : Type 0 where
  pub buf : List ℕ
  pub there : get_elem? bl.list (s.pos / 2 ^ 32) ≡ some buf
  pub shows : slice buf (start_of s) (end_of s) ≡ some (to_le_bytes 2 s.cap ++ s.bytes)

-- Two slots have no byte in common.
abbrev pub Apart : Slot → Slot → Type 0
Apart s t = (s.pos / 2 ^ 32 ≢ t.pos / 2 ^ 32) ⊎ ((end_of s ≤ start_of t) ⊎ (end_of t ≤ start_of s))

module _ (bo : ByteOrder) where
  pub get_leaf_lem :
      (bl : BufList) (s : Slot) → IsSlot s → Holds bl s → get_leaf bo bl s.pos ≡ some s.bytes
  unfolding get_leaf range_of
  get_leaf_lem bl s v h =
      let cap = to_le_bytes 2 s.cap in
      let first : slice h.buf (start_of s) (start_of s + 2) ≡ some cap =
        slice_first h.buf (start_of s) (end_of s) cap s.bytes h.shows in
      let second : slice h.buf (start_of s + 2) (end_of s) ≡ some s.bytes =
        slice_second h.buf (start_of s) (end_of s) cap s.bytes h.shows in
      let is : bo.read_le cap ≡ s.cap = rw (bo.read_le-bytes cap) (omega (arith, v.small)) in
      rw (h.there, first, ◌>>=◌, is) second

-- The slot with other bytes.
abbrev pub with_bytes : Slot → List ℕ → Slot
with_bytes s bytes = record s { bytes = bytes }

module _ (bl bl' : BufList) (s : Slot) (bytes : List ℕ) where
  -- A leaf was written back: it is there, and the leaves apart from it are still there.
  pub record Written : Type 0 where
    pub runs : put_leaf bl s.pos bytes ≡ some bl'
    pub own : Holds bl' (with_bytes s bytes)
    pub others : (t : Slot) → IsSlot t → Apart s t → Holds bl t → Holds bl' t
    pub same_offset : bl'.offset ≡ bl.offset
    pub same_count : length bl'.list ≡ length bl.list
    pub same_sizes :
        (j : ℕ) (b : List ℕ)
        → get_elem? bl.list j ≡ some b
        → (b' : List ℕ) × (get_elem? bl'.list j ≡ some b') × (length b' ≡ length b)

module _ (bl : BufList) (s : Slot) (v : IsSlot s) (h : Holds bl s) (bytes : List ℕ)
    (v' : IsSlot (with_bytes s bytes)) where
  room : s.pos % 2 ^ 32 + 2 + length bytes ≤ length h.buf
  room = omega (arith, v'.sized, (slice_inside h.buf (start_of s) (end_of s) _ h.shows).1)

  stored : (buf' : List ℕ) × (put h.buf (start_of s + 2) bytes ≡ some buf')
  stored = (_, put-returns h.buf (start_of s + 2) bytes room)

  result : BufList
  result = record bl { list = set bl.list (s.pos / 2 ^ 32) stored.0 }

  -- What stands in a buffer afterwards.
  buffer :
      (j : ℕ) (b : List ℕ)
      → get_elem? bl.list j ≡ some b
      → get_elem? result.list j ≡ some (if s.pos / 2 ^ 32 == j then stored.0 else b)
  unfolding result
  buffer j b e = get_elem?-set bl.list (s.pos / 2 ^ 32) j stored.0 b e

  size : length bytes ≡ s.cap * 12 + 2
  size = v'.sized

  own : Holds result (with_bytes s bytes)
  own =
      let cap = to_le_bytes 2 s.cap in
      let first =
        slice-put_front h.buf (stored.0) bytes (start_of s + 2) (start_of s) (start_of s + 2) cap
          (stored.1) (omega arith)
          (slice_first h.buf (start_of s) (end_of s) cap s.bytes h.shows) in
      let second = slice-put_self h.buf (stored.0) bytes (start_of s + 2) (stored.1) in
      let to : start_of s + 2 + length bytes ≡ end_of s = omega (arith, size) in
      record {
        buf = stored.0;
        there =
            buffer (s.pos / 2 ^ 32) h.buf h.there ∙ ap some (rw (==_self (s.pos / 2 ^ 32)) refl);
        shows =
            slice_joined (stored.0) (start_of s) (start_of s + 2) (end_of s) cap bytes first
              (ap (λ (n : ℕ). slice (stored.0) (start_of s + 2) n) (sym to) ∙ second);
      }

  other : (t : Slot) → IsSlot t → Apart s t → Holds bl t → Holds result t
  other t w apart g = elim (Bool-cases (s.pos / 2 ^ 32 == t.pos / 2 ^ 32)) [
    | inr n ↦ record {
      buf = g.buf;
      there = buffer (t.pos / 2 ^ 32) g.buf g.there ∙ ap some (rw n refl);
      shows = g.shows;
    }
    | inl y ↦
        let same = (==_iff (s.pos / 2 ^ 32) (t.pos / 2 ^ 32)).0 y in
        let one : h.buf ≡ g.buf =
          some-injective _ _ (sym h.there ∙ ap (get_elem? bl.list) same ∙ g.there) in
        let shows : slice h.buf (start_of t) (end_of t) ≡ some (to_le_bytes 2 t.cap ++ t.bytes) =
          rw one g.shows in
        record {
          buf = stored.0;
          there = buffer (t.pos / 2 ^ 32) g.buf g.there ∙ ap some (rw y refl);
          shows = elim apart [
            | inl d ↦ absurd (d same)
            | inr (inl behind) ↦
                slice-put_behind h.buf (stored.0) bytes (start_of s + 2) (start_of t) (end_of t)
                  (stored.1) (omega (arith, size)) (omega arith)
                ∙ shows
            | inr (inr front) ↦
                slice-put_front h.buf (stored.0) bytes (start_of s + 2) (start_of t) (end_of t) _
                  (stored.1) (omega arith) shows
          ];
        }
  ]

  sizes :
      (j : ℕ) (b : List ℕ)
      → get_elem? bl.list j ≡ some b
      → (b' : List ℕ) × (get_elem? result.list j ≡ some b') × (length b' ≡ length b)
  sizes j b e = elim (Bool-cases (s.pos / 2 ^ 32 == j)) [
    | inr n ↦ (b, buffer j b e ∙ ap some (rw n refl), refl)
    | inl y ↦
        let same = (==_iff (s.pos / 2 ^ 32) j).0 y in
        let one : h.buf ≡ b = some-injective _ _ (sym h.there ∙ ap (get_elem? bl.list) same ∙ e) in
        (
          stored.0,
          buffer j b e ∙ ap some (rw y refl),
          length-put h.buf (start_of s + 2) bytes _ stored.1 ∙ ap length one,
        )
  ]

  pub put_leaf_lem : (bl' : BufList) × Written bl bl' s bytes
  unfolding put_leaf result
  put_leaf_lem = (
    result,
    record {
      runs = rw (h.there, ◌>>=◌, stored.1) refl;
      own = own;
      others = other;
      same_offset = refl;
      same_count = length-set bl.list (s.pos / 2 ^ 32) stored.0;
      same_sizes = sizes;
    },
  )
