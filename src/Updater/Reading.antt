-- ===== src/Updater/Reading.antt =====
-- `read_entry` of qmdb/src/updater.rs.
pub mod Laws
use qmdb.Common.{
  ℕ, ◌-◌, List, ◌++◌, Bool, true, false, Option, none, some, length, take, replicate, ltb, ◌>>=◌,
}
use qmdb.Extern.Byteorder.{ByteOrder}
use qmdb.Entryfile.Entry.{from_bz}
use qmdb.Updater.Env.{Env}

abbrev pub default_entry_size : ℕ
default_entry_size = 300

-- `Vec::resize`.
abbrev pub resize : List ℕ → ℕ → ℕ → List ℕ
resize xs n v = take n xs ++ replicate (n - length xs) v

module _ {S : Type 0} (env : Env S) (bo : ByteOrder) (s : S) (file_pos : ℕ) where
  -- The second read, after the buffer got the size of the entry.
  pub read_again : List ℕ → ℕ → Option (List ℕ)
  read_again buf size = elim (ltb (length buf) size) [
    | true ↦ some ((env.read_file s file_pos (length buf)).0)
    | false ↦ some buf
  ]

  pub read_past_cache : Bool × Option (List ℕ) → Option (List ℕ)
  unfolding read_again
  read_past_cache (in_disk, some bz) = do e ← from_bz bo bz; some bz
  read_past_cache (false, none) = none
  read_past_cache (true, none) =
      let (buf, size) = env.read_file s file_pos default_entry_size in
      read_again (resize buf size 0) size

  -- The bytes that end up in `read_entry_buf`.
  unfoldable pub read_entry : Option (List ℕ)
  unfolding read_past_cache
  read_entry = elim (env.lookup s file_pos) [
    | some bz ↦ some bz
    | none ↦ read_past_cache (env.get_entry_bz_at s file_pos)
  ]
