-- ===== src/Utils/BytesCache/Laws.antt =====
-- The cache of qmdb/src/utils/bytescache.rs gives back what was put into it.
use mathlib.Core.Option.{some-injective}
use qmdb.Common.{
  ℕ, zero, suc, ◌+◌, ◌-◌, ◌*◌, ◌%◌, ◌^◌, ◌<◌, ◌≤◌, ◌≡◌, inl, inr, refl, ap, sym, ◌∙◌, List, [], ◌∷◌,
  ◌++◌, Bool, true, false, some, length, length-append, length-replicate, length-take, length-set,
  get_elem?, get_elem?-eq-get_or, get_elem?-set, get_or, set, take, drop, drop_prefix, replicate,
  subst, bit_or, ltb, ◌==◌, ==_self, ◌>>=◌, Bool-cases, Option-cases, arith,
}
use qmdb.Common.Bits.{bit_or-fields}
use qmdb.Common.Slices.{put-returns, length-put}
use qmdb.Def.{big_buf_size}
use qmdb.Utils.BytesCache.{
  BytesCacheShard, new_cache_pos, make_cache_pos, split_cache_pos, allocate_big_buf, first_buf,
  next_buf, fill_shard, insert_pos, read_bytes_at, insert, lookup,
}

abbrev pub AllBig : List (List ℕ) → Type 0
AllBig [] = Unit {0}
AllBig (b ∷ bs) = (length b ≡ big_buf_size) × AllBig bs

AllBig-at :
    (bs : List (List ℕ)) (i : ℕ) (b : List ℕ)
    → AllBig bs
    → get_elem? bs i ≡ some b
    → length b ≡ big_buf_size
AllBig-at [] i b a e = absurd (cc)
AllBig-at (c ∷ bs) zero b a e = ap length (sym (some-injective _ _ e)) ∙ a.0
AllBig-at (c ∷ bs) (suc i) b a e = AllBig-at bs i b (a.1) e

AllBig-take : (n : ℕ) (bs : List (List ℕ)) → AllBig bs → AllBig (take n bs)
AllBig-take zero bs a = tt
AllBig-take (suc n) [] a = tt
AllBig-take (suc n) (b ∷ bs) a = (a.0, AllBig-take n bs (a.1))

AllBig-push :
    (bs : List (List ℕ)) (b : List ℕ) → AllBig bs → length b ≡ big_buf_size → AllBig (bs ++ b ∷ [])
AllBig-push [] b a h = (h, tt)
AllBig-push (c ∷ bs) b a h = (a.0, AllBig-push bs b (a.1) h)

AllBig-set :
    (bs : List (List ℕ)) (i : ℕ) (b : List ℕ)
    → AllBig bs
    → length b ≡ big_buf_size
    → AllBig (set bs i b)
AllBig-set [] i b a h = tt
AllBig-set (c ∷ bs) zero b a h = (h, a.1)
AllBig-set (c ∷ bs) (suc i) b a h = (a.0, AllBig-set bs i b (a.1) h)

abbrev AreBig : List ℕ × List (List ℕ) → Type 0
AreBig r = (length (r.0) ≡ big_buf_size) × AllBig (r.1)

-- A buffer of the full size, from the free ones or new.
allocate_big_buf_lem : (free : List (List ℕ)) → AllBig free → AreBig (allocate_big_buf free)
unfolding allocate_big_buf
allocate_big_buf_lem free a = elim (Option-cases (get_elem? free (length free - 1))) [
  | inl n ↦
      let fresh : allocate_big_buf free ≡ (replicate big_buf_size 0, free) =
        rw (allocate_big_buf, n) refl in
      subst AreBig (sym fresh) (length-replicate {A = ℕ} big_buf_size 0, a)
  | inr (b, e) ↦
      let taken : allocate_big_buf free ≡ (b, take (length free - 1) free) =
        rw (allocate_big_buf, e) refl in
      subst AreBig (sym taken)
        (AllBig-at free (length free - 1) b a e, AllBig-take (length free - 1) free a)
]

module _ {K : Type 0} where
  -- The last buffer is written, all have the full size, and the offset lies in it.
  pub record IsShard (s : BytesCacheShard K) : Type 0 where
    pub last : s.curr_buf_idx ≡ length s.buf_list - 1
    pub inside : s.curr_offset ≤ big_buf_size
    pub bufs : AllBig s.buf_list
    pub frees : AllBig s.free_list

  -- A shard with a buffer, and room in it.
  record HasBuf (s : BytesCacheShard K) (n : ℕ) : Type 0 where
    shard : IsShard s
    filled : 0 < length s.buf_list
    few : length s.buf_list ≤ n

  first_buf_lem : (s : BytesCacheShard K) → IsShard s → HasBuf (first_buf s) (length s.buf_list + 1)
  first_buf_lem s i = elim (Bool-cases (length s.buf_list == 0)) [
    | inr t ↦ rw t (record { shard = i; filled = ground arith; few = omega arith })
    | inl t ↦
        let (big, rest) = allocate_big_buf_lem s.free_list i.frees in
        let count = length-append s.buf_list ((allocate_big_buf s.free_list).0 ∷ []) in
        rw t (record {
          shard = record {
            last = ground (arith, count, i.last);
            inside = i.inside;
            bufs = AllBig-push s.buf_list _ i.bufs big;
            frees = rest;
          };
          filled = omega (arith, count);
          few = omega (arith, count);
        })
  ]

  next_buf_lem :
      (s : BytesCacheShard K) (size n : ℕ)
      → HasBuf s n
      → size ≤ big_buf_size
      → n + 1 < 2 ^ 32
      → HasBuf (next_buf size s) (n + 1) × ((next_buf size s).curr_offset + size ≤ big_buf_size)
  next_buf_lem s size n h fits small = elim (Bool-cases (ltb big_buf_size (s.curr_offset + size))) [
    | inr t ↦
        rw t
          (record { shard = h.shard; filled = h.filled; few = omega (arith, h.few) }, ground arith)
    | inl t ↦
        let (big, rest) = allocate_big_buf_lem s.free_list h.shard.frees in
        let count = length-append s.buf_list ((allocate_big_buf s.free_list).0 ∷ []) in
        rw t (
          record {
            shard = record {
              last = omega (arith, count, h.few, small);
              inside = omega arith;
              bufs = AllBig-push s.buf_list _ h.shard.bufs big;
              frees = rest;
            };
            filled = omega (arith, count);
            few = omega (arith, count, h.few);
          },
          omega (arith, fits),
        )
  ]

  -- The bytes stand at the place that a fill gives.
  record Filled (s0 : BytesCacheShard K) (bz : List ℕ) : Type 0 where
    idx : ℕ
    offset : ℕ
    result : BytesCacheShard K
    buf : List ℕ
    rest : List ℕ
    runs : fill_shard bz s0 ≡ some (idx, offset, result)
    shard : IsShard result
    there : get_elem? result.buf_list idx ≡ some buf
    shows : drop offset buf ≡ bz ++ rest
    low : offset ≤ big_buf_size
    small : idx + 1 < 2 ^ 32
    size : length buf ≡ big_buf_size

  fill_shard_lem :
      (s0 : BytesCacheShard K) (bz : List ℕ)
      → IsShard s0
      → length bz ≤ big_buf_size
      → length s0.buf_list + 2 < 2 ^ 32
      → Filled s0 bz
  unfolding fill_shard
  fill_shard_lem s0 bz i fits few =
      let s = next_buf (length bz) (first_buf s0) in
      let (h, room) =
        next_buf_lem (first_buf s0) (length bz) (length s0.buf_list + 1) (first_buf_lem s0 i) fits
          (omega (arith, few)) in
      let inside : s.curr_buf_idx < length s.buf_list = omega (arith, h.shard.last, h.filled) in
      let old = get_or s.buf_list s.curr_buf_idx [] in
      let there : get_elem? s.buf_list s.curr_buf_idx ≡ some old =
        get_elem?-eq-get_or s.buf_list s.curr_buf_idx [] inside in
      let big = AllBig-at s.buf_list s.curr_buf_idx old h.shard.bufs there in
      let front = take s.curr_offset old in
      let rest = drop (s.curr_offset + length bz) old in
      let wrote = put-returns old s.curr_offset bz (omega (arith, big, room)) in
      let buf = front ++ (bz ++ rest) in
      let whole : length buf ≡ big_buf_size = length-put old s.curr_offset bz buf wrote ∙ big in
      record {
        idx = s.curr_buf_idx;
        offset = s.curr_offset;
        result = record s {
          buf_list = set s.buf_list s.curr_buf_idx buf;
          curr_offset = (s.curr_offset + length bz % 2 ^ 32) % 2 ^ 32;
        };
        buf = buf;
        rest = rest;
        runs = rw (fill_shard, there, ◌>>=◌, wrote) refl;
        shard = record {
          last =
              h.shard.last ∙ ap (λ (n : ℕ). n - 1) (sym (length-set s.buf_list s.curr_buf_idx buf));
          inside = omega (arith, room);
          bufs = AllBig-set s.buf_list s.curr_buf_idx buf h.shard.bufs whole;
          frees = h.shard.frees;
        };
        there =
            get_elem?-set s.buf_list s.curr_buf_idx s.curr_buf_idx buf old there
            ∙ ap some (rw (==_self s.curr_buf_idx) refl);
        shows =
            drop_prefix s.curr_offset front (bz ++ rest)
              (omega (arith, length-take s.curr_offset old, big, h.shard.inside));
        low = h.shard.inside;
        small = omega (arith, inside, h.few, few);
        size = whole;
      }

  -- In a shard whose last buffer has a valid offset, all buffers having 64 KB, with less than
  -- 2^32 - 2 buffers, an insertion of at most 64 KB returns and leaves such a shard, and a lookup of
  -- the key then is a hit whose callback gets the bytes, with those behind them in the buffer. Every
  -- other shard stays as it was.
  pub lookup-insert :
      (eq : K → K → Bool) (shards : List (BytesCacheShard K)) (at : ℕ) (s : BytesCacheShard K)
      (k : K) (bz : List ℕ)
      → eq k k ≡ true
      → get_elem? shards at ≡ some s
      → IsShard s
      → length bz ≤ big_buf_size
      → length s.buf_list + 2 < 2 ^ 32
      → (s' : BytesCacheShard K) × (rest : List ℕ) × (insert eq k at bz shards
          ≡ some (set shards at s'))
        × IsShard s'
        × (lookup k at (λ bytes. bytes) (set shards at s') ≡ some (some (bz ++ rest)))
  unfolding insert insert_pos lookup read_bytes_at
  lookup-insert eq shards at s k bz same there i fits few =
      let f = fill_shard_lem s bz i fits few in
      let pos : make_cache_pos f.idx f.offset ≡ f.idx * 2 ^ 32 + f.offset =
        ap (λ (n : ℕ). bit_or n f.offset) (omega (arith, f.small))
        ∙ bit_or-fields 32 f.idx f.offset (omega (arith, f.low)) in
      let p = f.idx * 2 ^ 32 + f.offset in
      let s' = insert_pos eq k p f.result in
      let there' : get_elem? (set shards at s') at ≡ some s' =
        get_elem?-set shards at at s' s there ∙ ap some (rw (==_self at) refl) in
      let hit : (p == new_cache_pos) ≡ false = ground (arith, f.small, f.low) in
      let first : (split_cache_pos p).0 ≡ f.idx = omega (arith, f.low) in
      let second : (split_cache_pos p).1 ≡ f.offset = omega (arith, f.low) in
      let inside : ltb (length f.buf) f.offset ≡ false = ground (arith, f.size, f.low) in
      (
        s',
        f.rest,
        rw (there, ◌>>=◌, f.runs, pos) refl,
        record {
          last = f.shard.last;
          inside = f.shard.inside;
          bufs = f.shard.bufs;
          frees = f.shard.frees;
        },
        rw (lookup, read_bytes_at, there', ◌>>=◌, same, hit, first, second, f.there, inside)
            (ap (λ t. some (some t)) f.shows),
      )
