-- ===== src/Updater/Reading/Laws.antt =====
-- qmdb/src/updater.rs: what `read_entry` finds in each of the three places.
use mathlib.Core.Option.{some-injective}
use qmdb.Common.{
  ℕ, ◌-◌, ◌≡◌, refl, ap, ◌>>=◌, List, ◌++◌, Bool, true, false, Option, none, some, length, take,
  replicate, ltb, arith, length-append, length-take, length-replicate,
}
use qmdb.Extern.Byteorder.{ByteOrder}
use qmdb.Entryfile.Entry.{from_bz}
use qmdb.Updater.Env.{Env}
use qmdb.Updater.Reading.{default_entry_size, resize, read_again, read_past_cache, read_entry}

length-resize : (xs : List ℕ) (n v : ℕ) → length (resize xs n v) ≡ n
length-resize xs n v = omega (
  arith,
  length-append (take n xs) (replicate (n - length xs) v),
  length-take n xs,
  length-replicate (n - length xs) v,
)

-- `read_entry` returns the bytes of the cache on a hit, and otherwise those of the buffer, when they
-- can be read as an entry, and panics when they cannot; from the file it returns what a read into 300 bytes gives, cut or filled up with zeros to the size of
-- the entry; and it panics when the entry is in none of the three.
pub read_entry_lem :
    {S : Type 0} (env : Env S) (bo : ByteOrder) (s : S) (file_pos : ℕ)
    → ((bz : List ℕ) → env.lookup s file_pos ≡ some bz → read_entry env bo s file_pos ≡ some bz)
      × (env.lookup s file_pos ≡ none
          → ((bz : List ℕ)
              → (env.get_entry_bz_at s file_pos).1 ≡ some bz
              → read_entry env bo s file_pos ≡ (from_bz bo bz >>= λ e. some bz))
            × (env.get_entry_bz_at s file_pos ≡ (false, none) → read_entry env bo s file_pos ≡ none)
            × ((buf : List ℕ) (size : ℕ)
                → env.get_entry_bz_at s file_pos ≡ (true, none)
                → env.read_file s file_pos default_entry_size ≡ (buf, size)
                → read_entry env bo s file_pos
                  ≡ some (take size buf ++ replicate (size - length buf) 0)))
unfolding read_entry read_past_cache read_again
read_entry_lem env bo s file_pos = (
  λ bz h. rw (read_entry, h) refl,
  λ h. (
    λ bz g. rw (read_entry, h) (past (env.get_entry_bz_at s file_pos) bz g),
    λ g. rw (read_entry, h, g) refl,
    λ buf size g r. rw (read_entry, h, g, r) (again buf size),
  ),
)
  where
    past :
        (r : Bool × Option (List ℕ)) (bz : List ℕ)
        → r.1 ≡ some bz
        → read_past_cache env bo s file_pos r ≡ (from_bz bo bz >>= λ e. some bz)
    past (in_disk, some x) bz g = ap (λ t. from_bz bo t >>= λ e. some t) (some-injective _ _ g)
    past (in_disk, none) bz g = absurd (cc)

    again :
        (buf : List ℕ) (size : ℕ)
        → read_again env bo s file_pos (resize buf size 0) size
          ≡ some (take size buf ++ replicate (size - length buf) 0)
    again buf size =
        let test : ltb (length (resize buf size 0)) size ≡ false =
          ground (arith, length-resize buf size 0) in
        rw (read_again, test) refl
