-- ===== src/Tests/Caches.antt =====
-- The cache of qmdb/src/utils/bytescache.rs with one empty shard.
use qmdb.Common.{ℕ, ◌≡◌, ◌==◌, Bool, refl, List, [], ◌∷◌, ◌++◌, some, set, arith}
use qmdb.Utils.BytesCache.{
  BytesCacheShard, new_shard, insert, lookup, make_cache_pos, split_cache_pos,
}
use qmdb.Utils.BytesCache.Laws.{IsShard, lookup-insert}

new_shard-IsShard : IsShard {K = ℕ} new_shard
unfolding new_shard
new_shard-IsShard = record { last = omega arith; inside = omega arith; bufs = tt; frees = tt }

abbrev shards : List (BytesCacheShard ℕ)
unfolding new_shard
shards = new_shard ∷ []

abbrev same_key : ℕ → ℕ → Bool
same_key j k = j == k

lookup-insert_example :
    (s' : BytesCacheShard ℕ) × (rest : List ℕ) × (insert same_key 5 0 (1 ∷ 2 ∷ 3 ∷ []) shards
      ≡ some (set shards 0 s'))
    × IsShard s'
    × (lookup 5 0 (λ bytes. bytes) (set shards 0 s') ≡ some (some ((1 ∷ 2 ∷ 3 ∷ []) ++ rest)))
unfolding new_shard
lookup-insert_example =
    lookup-insert same_key shards 0 new_shard 5 (1 ∷ 2 ∷ 3 ∷ []) refl refl new_shard-IsShard
      (omega arith) (omega arith)

-- As in the test of the source.
positions :
    (make_cache_pos 4660 22136 ≡ 20014547621496) × (split_cache_pos 20014547621496 ≡ (4660, 22136))
positions = (refl, refl)
