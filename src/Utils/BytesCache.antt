-- ===== src/Utils/BytesCache.antt =====
-- qmdb/src/utils/bytescache.rs: a sharded cache of byte strings in buffers of 64 KB. A lock is held
-- for one call. A shard's map takes its keys to positions; `none` is a panic. A callback gives a
-- result.
pub mod Laws
use qmdb.Common.{
  ℕ, ◌+◌, ◌-◌, ◌*◌, ◌/◌, ◌%◌, ◌^◌, List, [], ◌∷◌, ◌++◌, Bool, true, false, Option, none, some,
  length, get_elem?, set, take, drop, replicate, bit_or, ltb, ◌==◌, if◌then◌else◌, ◌>>=◌,
}
use qmdb.Common.Bytes.{put}
use qmdb.Def.{big_buf_size}

abbrev pub bytes_cache_shard_count : ℕ
bytes_cache_shard_count = 32

abbrev pub new_cache_pos : ℕ
new_cache_pos = 2 ^ 64 - 1

abbrev pub make_cache_pos : ℕ → ℕ → ℕ
make_cache_pos idx offset = bit_or (idx * 2 ^ 32 % 2 ^ 64) offset

abbrev pub split_cache_pos : ℕ → ℕ × ℕ
split_cache_pos pos = (pos / 2 ^ 32, pos * 2 ^ 32 % 2 ^ 64 / 2 ^ 32)

-- A buffer, and the free ones that are left.
unfoldable pub allocate_big_buf : List (List ℕ) → List ℕ × List (List ℕ)
allocate_big_buf free = elim (get_elem? free (length free - 1)) [
  | none ↦ (replicate big_buf_size 0, free)
  | some buf ↦ (buf, take (length free - 1) free)
]

module _ (K : Type 0) where
  pub record BytesCacheShard : Type 0 where
    pub pos_map : K → Option ℕ
    pub buf_list : List (List ℕ)
    pub free_list : List (List ℕ)
    pub curr_buf_idx : ℕ
    pub curr_offset : ℕ

module _ {K : Type 0} where
  unfoldable pub new_shard : BytesCacheShard K
  new_shard = record {
    pos_map = λ k. none;
    buf_list = [];
    free_list = [];
    curr_buf_idx = 0;
    curr_offset = 0;
  }

  unfoldable pub clear_shard : BytesCacheShard K → BytesCacheShard K
  clear_shard s =
      let free = s.free_list ++ s.buf_list in
      record {
        pos_map = λ k. none;
        buf_list = [];
        free_list = take (length free * 7 / 8) free;
        curr_buf_idx = 0;
        curr_offset = 0;
      }

  -- A buffer is pushed.
  abbrev pub push_buf : BytesCacheShard K → BytesCacheShard K
  push_buf s = record s {
    buf_list = s.buf_list ++ (allocate_big_buf s.free_list).0 ∷ [];
    free_list = (allocate_big_buf s.free_list).1;
  }

  abbrev pub first_buf : BytesCacheShard K → BytesCacheShard K
  first_buf s = if length s.buf_list == 0 then push_buf s else s

  abbrev pub next_buf : ℕ → BytesCacheShard K → BytesCacheShard K
  next_buf size s =
      let s' = push_buf s in
      if ltb big_buf_size (s.curr_offset + size)
      then record s' { curr_buf_idx = length s'.buf_list % 2 ^ 32 - 1; curr_offset = 0 }
      else s

  -- The place in the buffers, and the shard.
  unfoldable pub fill_shard : List ℕ → BytesCacheShard K → Option (ℕ × ℕ × BytesCacheShard K)
  fill_shard bz s0 = do
    let s = next_buf (length bz) (first_buf s0)
    buf ← get_elem? s.buf_list s.curr_buf_idx
    buf' ← put buf s.curr_offset bz
    some (
      s.curr_buf_idx,
      s.curr_offset,
      record s {
        buf_list = set s.buf_list s.curr_buf_idx buf';
        curr_offset = (s.curr_offset + length bz % 2 ^ 32) % 2 ^ 32;
      },
    )

  unfoldable pub contains : K → BytesCacheShard K → Bool
  contains k s = elim (s.pos_map k) [
    | none ↦ false
    | some pos ↦ if pos == new_cache_pos then false else true
  ]

  module _ {A : Type 0} where
    -- What the callback makes of the bytes from the position on; `none` inside is a miss.
    unfoldable pub read_bytes_at : K → (List ℕ → A) → BytesCacheShard K → Option (Option A)
    read_bytes_at k access s = elim (s.pos_map k) [
      | none ↦ some none
      | some pos ↦ if pos == new_cache_pos then some none else do
        buf ← get_elem? s.buf_list (split_cache_pos pos).0
        if ltb (length buf) (split_cache_pos pos).1
            then none
            else some (some (access (drop (split_cache_pos pos).1 buf)))
    ]

  module _ (eq : K → K → Bool) where
    unfoldable pub insert_pos : K → ℕ → BytesCacheShard K → BytesCacheShard K
    insert_pos k pos s = record s { pos_map = λ j. if eq k j then some pos else s.pos_map j }

    unfoldable pub allocate_shard : K → ℕ → BytesCacheShard K → Bool × BytesCacheShard K
    unfolding insert_pos
    allocate_shard k pos s = elim (s.pos_map k) [
      | some old ↦ (false, s)
      | none ↦ (true, insert_pos k pos s)
    ]

    -- The cache is the list of its shards.
    unfoldable pub insert :
        K → ℕ → List ℕ → List (BytesCacheShard K) → Option (List (BytesCacheShard K))
    unfolding fill_shard insert_pos
    insert k idx bz shards = do
      shard ← get_elem? shards idx
      filled ← fill_shard bz shard
      some (set shards idx (insert_pos k (make_cache_pos (filled.0) (filled.1)) (filled.2)))

    unfoldable pub insert_if_missing :
        K → ℕ → List ℕ → List (BytesCacheShard K) → Option (List (BytesCacheShard K))
    unfolding contains fill_shard insert_pos
    insert_if_missing k idx bz shards = do
      shard ← get_elem? shards idx
      elim (contains k shard) [
        | true ↦ some shards
        | false ↦ do
          filled ← fill_shard bz shard
          some (set shards idx (insert_pos k (make_cache_pos (filled.0) (filled.1)) (filled.2)))
      ]

    unfoldable pub allocate_if_missing :
        K → ℕ → ℕ → List (BytesCacheShard K) → Option (Bool × List (BytesCacheShard K))
    unfolding allocate_shard
    allocate_if_missing k idx pos shards = do
      shard ← get_elem? shards idx
      some ((allocate_shard k pos shard).0, set shards idx (allocate_shard k pos shard).1)

  unfoldable pub new : List (BytesCacheShard K)
  unfolding new_shard
  new = replicate bytes_cache_shard_count new_shard

  abbrev pub clear : List (BytesCacheShard K) → List (BytesCacheShard K)
  unfolding clear_shard
  clear [] = []
  clear (s ∷ shards) = clear_shard s ∷ clear shards

  unfoldable pub fill :
      ℕ → List ℕ → List (BytesCacheShard K) → Option (ℕ × ℕ × List (BytesCacheShard K))
  unfolding fill_shard
  fill idx bz shards = do
    shard ← get_elem? shards idx
    filled ← fill_shard bz shard
    some (filled.0, filled.1, set shards idx (filled.2))

  unfoldable pub lookup :
      {A : Type 0} → K → ℕ → (List ℕ → A) → List (BytesCacheShard K) → Option (Option A)
  unfolding read_bytes_at
  lookup k idx access shards = do shard ← get_elem? shards idx; read_bytes_at k access shard
