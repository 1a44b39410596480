-- ===== src/Updater/Kv/Laws.antt =====
-- qmdb/src/updater.rs: which entry `create_kv` takes for the one in front of the new key.
use qmdb.Common.{ℕ, ◌≡◌, List, [], ◌∷◌, true, false, ◌&&◌, Option, some}
use qmdb.Extern.Byteorder.{ByteOrder}
use qmdb.Extern.Sha2.{Sha256}
use qmdb.Utils.Hasher.{Hash32}
use qmdb.Entryfile.Entry.{next_key_hash as next_of, key_hash as key_hash_of}
use qmdb.Updater.Env.{Env}
use qmdb.Updater.Reading.{read_entry}
use qmdb.Updater.Kv.{Search, bytes_lt, is_some, one_loop, find_call}

module _ {S : Type 0} (env : Env S) (bo : ByteOrder) (sha : Sha256) (s : S)
    (key_hash : Hash32) where
  -- The entry at a position, with the interval from its key hash to its next one.
  pub record Shown (at : List ℕ × ℕ) (bz : List ℕ) : Type 0 where
    pub own : Hash32
    pub next : List ℕ
    pub at_pos : read_entry env bo s (at.1) ≡ some bz
    pub own_hash : key_hash_of bo sha bz ≡ some own
    pub next_hash : next_of bo bz ≡ some next

  -- The interval contains the hash.
  pub record Covers (at : List ℕ × ℕ) (bz : List ℕ) : Type 0 where
    pub shown : Shown at bz
    pub above : bytes_lt shown.own key_hash ≡ true
    pub below : bytes_lt key_hash shown.next ≡ true

  -- It does not.
  pub record Misses (at : List ℕ × ℕ) (bz : List ℕ) : Type 0 where
    pub shown : Shown at bz
    pub outside : (bytes_lt shown.own key_hash && bytes_lt key_hash shown.next) ≡ false

  abbrev pub AllMiss : List (List ℕ × ℕ) → Type 0
  AllMiss [] = Unit {0}
  AllMiss (at ∷ ps) = ((bz : List ℕ) × Misses at bz) × AllMiss ps

  abbrev loop : List (List ℕ × ℕ) → Search → Option Search
  loop = one_loop (find_call env bo sha s key_hash) (λ st. is_some st.found)
