-- ===== src/Indexer/Inmem/BufList/Alloc.antt =====
-- `BufList::allocate` of qmdb/src/indexer/inmem.rs: a new leaf has its own bytes.
use native.Mathlib.Nat.{mod-eq_of_lt}
use mathlib.Core.Option.{some-injective}
use qmdb.Common.{
  ℕ, ◌+◌, ◌-◌, ◌*◌, ◌/◌, ◌%◌, ◌^◌, ◌<◌, ◌≤◌, ◌≡◌, inl, inr, refl, ap, sym, ◌∙◌, List, ◌++◌, some,
  true, length, get_elem?, get_elem?_inside, get_elem?-set, set, length-set, leb, ◌==◌, ==_iff,
  ==_self, Bool-cases, ◌>>=◌, bit_or, arith,
}
use qmdb.Common.Bits.{bit_or-fields}
use qmdb.Common.Bytes.{slice, put, to_le_bytes}
use qmdb.Common.Slices.{
  slice_joined, slice-put_front, slice-put_self, put-returns, length-put, slice-returns,
}
use qmdb.Extern.Byteorder.{ByteOrder}
use qmdb.Indexer.Inmem.BufList.{BufList, allocate}
use qmdb.Indexer.Inmem.BufList.Room.{IsReady, Before, Keeps, Roomy, make_room_lem}
use qmdb.Indexer.Inmem.BufList.Heap.{Slot, IsSlot, Holds, Apart, start_of, end_of}

-- A new leaf: its bytes are there, and it is apart from those that were allocated before, which
-- keep theirs.
pub record Allocated (bo : ByteOrder) (cap : ℕ) (bl : BufList) : Type 0 where
  pub s : Slot
  pub bl' : BufList
  pub runs : allocate bo cap bl ≡ some (s.pos, s.bytes, bl')
  pub same_cap : s.cap ≡ cap
  pub valid : IsSlot s
  pub own : Holds bl' s
  pub ready : IsReady bl'
  pub few : length bl'.list ≤ length bl.list + 1
  pub mine : Before bl' s
  pub keeps : (t : Slot) → Holds bl t → Before bl t → Keeps bl bl' t × Apart s t

module _ (bo : ByteOrder) (cap : ℕ) (bl : BufList) (r : IsReady bl) (cap_small : cap < 2 ^ 16)
    (few : length bl.list + 1 < 2 ^ 32) where
  roomy : (bl1 : BufList) × Roomy (cap * 12 + 4) bl r (omega arith) bl1
  roomy = make_room_lem (cap * 12 + 4) bl r (omega arith)

  bl1 : BufList
  bl1 = roomy.0

  last_buf : List ℕ
  last_buf = (roomy.1).ready.last_buf

  idx : ℕ
  idx = length bl1.list - 1

  capped : (buf : List ℕ) × (put last_buf bl1.offset (to_le_bytes 2 cap) ≡ some buf)
  unfolding bl1 last_buf
  capped =
      (_, put-returns last_buf bl1.offset (to_le_bytes 2 cap) (omega (arith, (roomy.1).enough)))

  cut :
      (bz : List ℕ) × (slice capped.0 (bl1.offset + 2) (bl1.offset + (cap * 12 + 4)) ≡ some bz)
      × (length bz ≡ bl1.offset + (cap * 12 + 4) - (bl1.offset + 2))
  unfolding bl1 last_buf
  cut = slice-returns capped.0 (bl1.offset + 2) (bl1.offset + (cap * 12 + 4)) (omega arith) (
      omega
        (arith, (roomy.1).enough, length-put last_buf bl1.offset (to_le_bytes 2 cap) _ capped.1))

  new_slot : Slot
  new_slot = record { pos = idx * 2 ^ 32 + bl1.offset; cap = cap; bytes = cut.0 }

  after : BufList
  after = record { list = set bl1.list idx capped.0; offset = bl1.offset + (cap * 12 + 4) }

  low : bl1.offset < 2 ^ 32
  unfolding bl1
  low = omega (arith, (roomy.1).ready.inside, (roomy.1).ready.short)

  places : (new_slot.pos / 2 ^ 32 ≡ idx) × (new_slot.pos % 2 ^ 32 ≡ bl1.offset)
  unfolding new_slot
  places = omega (arith, low)

  allocate_runs : allocate bo cap bl ≡ some (new_slot.pos, new_slot.bytes, after)
  unfolding allocate new_slot after idx bl1 capped last_buf
  allocate_runs =
      let fine : leb cap (2 ^ 16 - 1) ≡ true = ground arith in
      let word : bo.write_le 2 (cap % 2 ^ 16) ≡ to_le_bytes 2 cap =
        bo.write_le-bytes 2 (cap % 2 ^ 16) ∙ ap (to_le_bytes 2) (mod-eq_of_lt cap_small) in
      let pos : bit_or (idx * 2 ^ 32 % 2 ^ 64) bl1.offset ≡ idx * 2 ^ 32 + bl1.offset =
        ap (λ (n : ℕ). bit_or n bl1.offset) (omega (arith, (roomy.1).few, few))
        ∙ bit_or-fields 32 idx bl1.offset low in
      rw (fine, (roomy.1).runs, ◌>>=◌, (roomy.1).ready.has_last, word, capped.1, cut.1, pos) refl

  -- The others are still there, in front of the new one.
  kept : (t : Slot) → Holds bl1 t → Before bl1 t → Keeps bl1 after t × Apart new_slot t
  unfolding after new_slot bl1 idx last_buf roomy
  kept t h b =
      let count = length-set bl1.list idx capped.0 in
      let there = get_elem?-set bl1.list idx (t.pos / 2 ^ 32) capped.0 h.buf h.there in
      elim (Bool-cases (idx == t.pos / 2 ^ 32)) [
        | inr n ↦ (
          (
            record { buf = h.buf; there = there ∙ ap some (rw n refl); shows = h.shows },
            (omega (arith, count, b.0), λ e. absurd (ground (arith, count))),
          ),
          inl (λ e. ground (arith, places.0)),
        )
        | inl y ↦
            let same = (==_iff idx (t.pos / 2 ^ 32)).0 y in
            let front : end_of t ≤ bl1.offset = b.1 (sym same) in
            let one : h.buf ≡ last_buf =
              some-injective _ _
                (sym h.there ∙ ap (get_elem? bl1.list) (sym same) ∙ (roomy.1).ready.has_last) in
            let shows : slice last_buf (start_of t) (end_of t)
                ≡ some (to_le_bytes 2 t.cap ++ t.bytes) =
              ap (λ x. slice x (start_of t) (end_of t)) (sym one) ∙ h.shows in
            (
              (
                record {
                  buf = capped.0;
                  there = there ∙ ap some (rw y refl);
                  shows =
                      slice-put_front last_buf capped.0 (to_le_bytes 2 cap) bl1.offset (start_of t)
                        (end_of t) _ capped.1 front shows;
                },
                (omega (arith, count, b.0), λ e. omega (arith, front)),
              ),
              inr (inr (omega (arith, front, places.1))),
            )
      ]

  own_bytes :
      slice capped.0 bl1.offset (bl1.offset + (cap * 12 + 4)) ≡ some (to_le_bytes 2 cap ++ cut.0)
  own_bytes =
      slice_joined capped.0 bl1.offset (bl1.offset + 2) (bl1.offset + (cap * 12 + 4))
        (to_le_bytes 2 cap) cut.0
        (slice-put_self last_buf capped.0 (to_le_bytes 2 cap) bl1.offset capped.1) (cut.1)

  own_slot : Holds after new_slot
  unfolding after new_slot bl1 idx last_buf roomy
  own_slot =
      let within = get_elem?_inside bl1.list idx last_buf (roomy.1).ready.has_last in
      let there = get_elem?-set bl1.list idx idx capped.0 last_buf (roomy.1).ready.has_last in
      record {
        buf = capped.0;
        there = ap (get_elem? after.list) (places.0) ∙ there ∙ ap some (rw (==_self idx) refl);
        shows = rw (places.1) own_bytes;
      }

  -- On buffers that are ready, with less than 2^32 - 1 of them, `allocate` of fewer than 2^16 pairs
  -- gives a position and the bytes that stand there, leaves the buffers ready, adds at most one,
  -- and takes nothing away: a leaf that was allocated before keeps its bytes and has no byte in
  -- common with the new one.
  pub allocate_lem : Allocated bo cap bl
  unfolding after new_slot bl1 idx last_buf roomy
  allocate_lem =
      let count = length-set bl1.list idx capped.0 in
      let size = length-put last_buf bl1.offset (to_le_bytes 2 cap) _ capped.1 in
      record {
        s = new_slot;
        bl' = after;
        runs = allocate_runs;
        same_cap = refl;
        valid = record { sized = omega (arith, cut.2); small = cap_small };
        own = own_slot;
        ready = record {
          last_buf = capped.0;
          has_last =
              ap (get_elem? after.list) (ap (λ (n : ℕ). n - 1) count)
              ∙ get_elem?-set bl1.list idx idx capped.0 last_buf (roomy.1).ready.has_last
              ∙ ap some (rw (==_self idx) refl);
          inside = omega (arith, (roomy.1).enough, size);
          short = omega (arith, (roomy.1).ready.short, size);
        };
        few = omega (arith, count, (roomy.1).few);
        mine = (
          omega (
            arith,
            count,
            places.0,
            get_elem?_inside bl1.list idx last_buf (roomy.1).ready.has_last,
          ),
          λ e. omega (arith, places.1),
        );
        keeps = λ t h b. let (h1, b1) = (roomy.1).keeps t h b in kept t h1 b1;
      }
