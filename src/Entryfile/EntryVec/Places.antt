-- ===== src/Entryfile/EntryVec/Places.antt =====
-- `_add_entry` of qmdb/src/entryfile/entry.rs: where an entry is put.
use qmdb.Common.{
  ℕ, ◌+◌, ◌-◌, ◌*◌, ◌/◌, ◌%◌, ◌<◌, ◌≤◌, ◌≡◌, refl, List, [], ◌∷◌, ◌++◌, Bool-cases, inl, inr, none,
  some, length, get_elem?, set, ltb, arith, length-append, get_elem?_beyond,
}
use qmdb.Def.{big_buf_size}
use qmdb.Entryfile.EntryVec.{EntryVec, new_big_buf, add_position}

-- Between two calls the next position is in the last buffer or at its end.
pub record IsPlaced (v : EntryVec) : Type 0 where
  pub some_buffer : 0 < length v.buf_list
  pub from_last : (length v.buf_list - 1) * big_buf_size ≤ v.next_pos
  pub to_end : v.next_pos ≤ length v.buf_list * big_buf_size

-- In a vector whose next position lies in the last buffer or at its end, an entry of at most one
-- buffer gets a position, and the next position is then the end of the entry. If the last buffer
-- was not exactly full, the position names the last buffer of the new vector and the offset in it,
-- the entry ends inside it, and the next position lies in the last buffer or at its end again. If
-- it was exactly full, the position names a buffer that is not there, and the offset is 0.
pub add_position_lem :
    (v : EntryVec) (shard_id size : ℕ) (list : List ℕ)
    → IsPlaced v
    → 0 < size
    → size ≤ big_buf_size
    → get_elem? v.pos_list shard_id ≡ some list
    → (offset pos : ℕ) × (v' : EntryVec) × (add_position v shard_id size ≡ some (offset, v'))
      × (v'.pos_list ≡ set v.pos_list shard_id (list ++ (pos ∷ [])))
      × (v'.next_pos ≡ pos + size)
      × (v.next_pos < length v.buf_list * big_buf_size
          → (pos / big_buf_size ≡ length v'.buf_list - 1)
            × (pos % big_buf_size ≡ offset)
            × (offset + size ≤ big_buf_size)
            × IsPlaced v')
      × (v.next_pos ≡ length v.buf_list * big_buf_size
          → (get_elem? v'.buf_list (pos / big_buf_size) ≡ none) × (offset ≡ 0))
unfolding add_position
add_position_lem v shard_id size list w some_size fits g =
    elim (Bool-cases (ltb big_buf_size (v.next_pos % big_buf_size + size))) [
      | inr e ↦ (
        v.next_pos % big_buf_size,
        v.next_pos,
        record {
          buf_list = v.buf_list;
          pos_list = set v.pos_list shard_id (list ++ (v.next_pos ∷ []));
          next_pos = v.next_pos + size;
        },
        rw (add_position, g, e) refl,
        refl,
        refl,
        λ h. (
          omega (arith, w.from_last),
          refl,
          ground arith,
          record {
            some_buffer = w.some_buffer;
            from_last = omega (arith, w.from_last);
            to_end = ground (arith, w.from_last, w.some_buffer);
          },
        ),
        λ h. (
          get_elem?_beyond v.buf_list (v.next_pos / big_buf_size) (omega (arith, h)),
          omega (arith, h),
        ),
      )
      | inl e ↦ (
        0,
        length v.buf_list * big_buf_size,
        record {
          buf_list = v.buf_list ++ (new_big_buf ∷ []);
          pos_list = set v.pos_list shard_id (list ++ (length v.buf_list * big_buf_size ∷ []));
          next_pos = length v.buf_list * big_buf_size + size;
        },
        rw (add_position, g, e) refl,
        refl,
        refl,
        λ h. (
          omega (arith, length-append v.buf_list (new_big_buf ∷ [])),
          omega arith,
          omega (arith, fits),
          record {
            some_buffer = omega (arith, length-append v.buf_list (new_big_buf ∷ []));
            from_last = omega (arith, length-append v.buf_list (new_big_buf ∷ []));
            to_end = omega (arith, length-append v.buf_list (new_big_buf ∷ []));
          },
        ),
        λ h. absurd (ground (arith, h, fits)),
      )
    ]
