-- ===== src/Updater/Kv/Deleting.antt =====
-- qmdb/src/updater.rs: which two entries `delete_kv` takes.
use qmdb.Common.{ℕ, ◌≡◌, List, [], ◌∷◌, true, false, ◌&&◌, Option, some}
use qmdb.Common.Bytes.{bytes_eq}
use qmdb.Extern.Byteorder.{ByteOrder}
use qmdb.Extern.Sha2.{Sha256}
use qmdb.Utils.Hasher.{Hash32}
use qmdb.Entryfile.Entry.{key as key_of, next_key_hash as next_of, serial_number as sn_of}
use qmdb.Updater.Env.{Env}
use qmdb.Updater.Reading.{read_entry}
use qmdb.Updater.Kv.{Deleted, Previous, is_some, one_loop, delete_call}

-- What the callback keeps.
abbrev pub State : Type 0
State = Option Deleted × Option Previous

module _ {S : Type 0} (env : Env S) (bo : ByteOrder) (sha : Sha256) (s : S) (key_hash : Hash32)
    (key : List ℕ) where
  -- The entry at a position has the key.
  pub record HasKey (at : List ℕ × ℕ) (d : Deleted) : Type 0 where
    pub bz : List ℕ
    pub own : List ℕ
    pub at_pos : read_entry env bo s (at.1) ≡ some bz
    pub own_key : key_of bo bz ≡ some own
    pub same : bytes_eq own key ≡ true
    pub own_sn : sn_of bo bz ≡ some d.sn
    pub own_next : next_of bo bz ≡ some d.next
    pub own_pos : d.pos ≡ at.1

  -- The key hash is the next one of the entry at a position.
  pub record LeadsTo (at : List ℕ × ℕ) (bz : List ℕ) : Type 0 where
    pub next : List ℕ
    pub at_pos : read_entry env bo s (at.1) ≡ some bz
    pub own_next : next_of bo bz ≡ some next
    pub same : bytes_eq next key_hash ≡ true

  -- Neither.
  pub record IsOther (at : List ℕ × ℕ) : Type 0 where
    pub bz : List ℕ
    pub own : List ℕ
    pub next : List ℕ
    pub at_pos : read_entry env bo s (at.1) ≡ some bz
    pub own_key : key_of bo bz ≡ some own
    pub other_key : bytes_eq own key ≡ false
    pub own_next : next_of bo bz ≡ some next
    pub other_next : bytes_eq next key_hash ≡ false

  abbrev pub AllOther : List (List ℕ × ℕ) → Type 0
  AllOther [] = Unit {0}
  AllOther (at ∷ ps) = IsOther at × AllOther ps

  abbrev call : List ℕ × ℕ → State → Option State
  call = delete_call env bo sha s key_hash key

  abbrev loop : List (List ℕ × ℕ) → State → Option State
  loop = one_loop call (λ r. is_some (r.0) && is_some (r.1))
