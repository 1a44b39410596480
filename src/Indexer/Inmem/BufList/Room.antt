-- ===== src/Indexer/Inmem/BufList/Room.antt =====
-- Room for a new leaf in the buffers of a `BufList` of qmdb/src/indexer/inmem.rs.
use qmdb.Common.{
  ℕ, ◌+◌, ◌-◌, ◌/◌, ◌^◌, ◌<◌, ◌≤◌, ◌≡◌, inl, inr, refl, ap, ◌∙◌, List, [], ◌∷◌, ◌++◌, some, true,
  length, length-append, length-replicate, replicate, get_elem?, get_elem?-append_front,
  get_elem?-append_at, ltb, leb, max, Bool-cases, ◌>>=◌, arith,
}
use qmdb.Indexer.Inmem.BufList.{BufList, buf_size, make_room}
use qmdb.Indexer.Inmem.BufList.Heap.{Slot, Holds, Written, end_of}

-- The last buffer is there, the offset lies in it, and both parts of a position have 32 bits.
pub record IsReady (bl : BufList) : Type 0 where
  pub last_buf : List ℕ
  pub has_last : get_elem? bl.list (length bl.list - 1) ≡ some last_buf
  pub inside : bl.offset ≤ length last_buf
  pub short : length last_buf < 2 ^ 32

-- The slot was allocated before.
abbrev pub Before : BufList → Slot → Type 0
Before bl s =
    (s.pos / 2 ^ 32 < length bl.list) × (s.pos / 2 ^ 32 ≡ length bl.list - 1 → end_of s ≤ bl.offset)

-- A leaf that is written back changes neither.
pub Written-IsReady :
    (bl bl' : BufList) (s : Slot) (bytes : List ℕ)
    → Written bl bl' s bytes
    → IsReady bl
    → IsReady bl'
Written-IsReady bl bl' s bytes w r =
    let (buf, there, size) = w.same_sizes (length bl.list - 1) r.last_buf r.has_last in
    record {
      last_buf = buf;
      has_last = ap (λ (n : ℕ). get_elem? bl'.list (n - 1)) w.same_count ∙ there;
      inside = omega (arith, w.same_offset, size, r.inside);
      short = omega (arith, size, r.short);
    }

pub Written-Before :
    (bl bl' : BufList) (s : Slot) (bytes : List ℕ) (t : Slot)
    → Written bl bl' s bytes
    → Before bl t
    → Before bl' t
Written-Before bl bl' s bytes t w b = (
  omega (arith, w.same_count, b.0),
  λ e. omega (arith, w.same_offset, b.1 (e ∙ ap (λ (n : ℕ). n - 1) w.same_count)),
)

-- What holds of the leaves that are there goes on holding.
abbrev pub Keeps : BufList → BufList → Slot → Type 0
Keeps bl bl' t = Holds bl' t × Before bl' t

module _ (size : ℕ) (bl : BufList) (r : IsReady bl) (small : size < 2 ^ 21) where
  pub record Roomy (bl' : BufList) : Type 0 where
    pub runs : make_room size bl ≡ some bl'
    pub ready : IsReady bl'
    pub enough : bl'.offset + size ≤ length ready.last_buf
    pub few : length bl'.list ≤ length bl.list + 1
    pub keeps : (t : Slot) → Holds bl t → Before bl t → Keeps bl bl' t

  pub make_room_lem : (bl' : BufList) × Roomy bl'
  unfolding make_room
  make_room_lem = elim (Bool-cases (ltb (length r.last_buf) (bl.offset + size))) [
    | inr t ↦ (
      bl,
      record {
        runs = rw (make_room, r.has_last, ◌>>=◌, t) refl;
        ready = r;
        enough = ground arith;
        few = omega arith;
        keeps = λ s h b. (h, b);
      },
    )
    | inl t ↦
        let fresh : List ℕ = replicate (max buf_size size) 0 in
        let n : length fresh ≡ max buf_size size = length-replicate (max buf_size size) 0 in
        let fine : leb (max buf_size size) (2 ^ 32 - 1) ≡ true = ground arith in
        let count : length (bl.list ++ fresh ∷ []) ≡ length bl.list + 1 =
          omega (arith, length-append bl.list (fresh ∷ [])) in
        let at : length (bl.list ++ fresh ∷ []) - 1 ≡ length bl.list = omega (arith, count) in
        (
          record { list = bl.list ++ fresh ∷ []; offset = 0 },
          record {
            runs = rw (make_room, r.has_last, ◌>>=◌, t, fine) refl;
            ready = record {
              last_buf = fresh;
              has_last =
                  ap (get_elem? (bl.list ++ fresh ∷ [])) at ∙ get_elem?-append_at bl.list [] fresh;
              inside = omega arith;
              short = omega (arith, n);
            };
            enough = omega (arith, n);
            few = omega (arith, count);
            keeps = λ s h b. (
              record {
                buf = h.buf;
                there =
                    get_elem?-append_front bl.list (fresh ∷ []) (s.pos / 2 ^ 32) (b.0) ∙ h.there;
                shows = h.shows;
              },
              (omega (arith, count, b.0), λ e. absurd (omega (arith, count, b.0))),
            );
          },
        )
  ]
