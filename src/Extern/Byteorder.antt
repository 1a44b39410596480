-- ===== src/Extern/Byteorder.antt =====
-- The crate `byteorder`: reading and writing integers of fixed width. Its documentation says that
-- `LittleEndian` puts the lowest byte first and `BigEndian` the highest.
use qmdb.Common.{ℕ, ◌≡◌, refl, List}
use qmdb.Common.Bytes.{to_le_bytes, from_le_bytes, to_be_bytes, from_be_bytes}

-- What a write puts into a slice of the width, and what a read makes of one.
pub record ByteOrder : Type 0 where
  pub write_le : ℕ → ℕ → List ℕ
  pub read_le : List ℕ → ℕ
  pub write_be : ℕ → ℕ → List ℕ
  pub read_be : List ℕ → ℕ
  pub write_le-bytes : (width v : ℕ) → write_le width v ≡ to_le_bytes width v
  pub read_le-bytes : (bz : List ℕ) → read_le bz ≡ from_le_bytes bz
  pub write_be-bytes : (width v : ℕ) → write_be width v ≡ to_be_bytes width v
  pub read_be-bytes : (bz : List ℕ) → read_be bz ≡ from_be_bytes bz

abbrev pub plain_order : ByteOrder
plain_order = record {
  write_le = to_le_bytes;
  read_le = from_le_bytes;
  write_be = to_be_bytes;
  read_be = from_be_bytes;
  write_le-bytes = λ width v. refl;
  read_le-bytes = λ bz. refl;
  write_be-bytes = λ width v. refl;
  read_be-bytes = λ bz. refl;
}
