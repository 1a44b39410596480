-- ===== src/Indexer/Inmem/BufList.antt =====
-- `BufList` of qmdb/src/indexer/inmem.rs: large buffers from which the leaves are cut. A position
-- is the index of a buffer and an offset in it, of 32 bits each; `none` is a panic.
pub mod Heap
pub mod Room
pub mod Alloc
use qmdb.Common.{
  ℕ, ◌+◌, ◌-◌, ◌*◌, ◌/◌, ◌%◌, ◌^◌, List, [], ◌∷◌, ◌++◌, true, false, not, Option, none, some,
  length, get_elem?, set, replicate, ltb, leb, max, bit_or, if◌then◌else◌, ◌>>=◌, ◌>>◌, assert,
}
use qmdb.Common.Bytes.{slice, put}
use qmdb.Extern.Byteorder.{ByteOrder}
use qmdb.Indexer.Inmem.Leaf.{kv_size, append}

abbrev pub buf_size : ℕ
buf_size = 1024 * 10 - 16

abbrev pub leaf_init_cap : ℕ
leaf_init_cap = 8

pub record BufList : Type 0 where
  pub list : List (List ℕ)
  pub offset : ℕ

unfoldable pub new : BufList
new = record { list = replicate buf_size 0 ∷ []; offset = 0 }

-- The buffer with its index.
abbrev pub last : List (List ℕ) → Option (ℕ × List ℕ)
last bufs = do buf ← get_elem? bufs (length bufs - 1); some (length bufs - 1, buf)

-- A new buffer when the last one has not enough room.
pub make_room : ℕ → BufList → Option BufList
make_room size bl = do
  l ← last bl.list
  elim (ltb (length (l.1)) (bl.offset + size)) [
    | true ↦ do
      assert (leb (max buf_size size) (2 ^ 32 - 1))
      some (record { list = bl.list ++ replicate (max buf_size size) 0 ∷ []; offset = 0 })
    | false ↦ some bl
  ]

-- What was written into a leaf through its reference stands in the buffer.
unfoldable pub put_leaf : BufList → ℕ → List ℕ → Option BufList
put_leaf bl pos bytes = do
  buf ← get_elem? bl.list (pos / 2 ^ 32)
  buf' ← put buf (pos % 2 ^ 32 + 2) bytes
  some (record bl { list = set bl.list (pos / 2 ^ 32) buf' })

module _ (bo : ByteOrder) where
  -- The position, the bytes after the capacity, and the buffers.
  unfoldable pub allocate : ℕ → BufList → Option (ℕ × List ℕ × BufList)
  unfolding make_room
  allocate cap bl = do
    assert (leb cap (2 ^ 16 - 1))
    let size = cap * kv_size + 4
    bl1 ← make_room size bl
    l ← last bl1.list
    buf ← put (l.1) bl1.offset (bo.write_le 2 (cap % 2 ^ 16))
    bz ← slice buf (bl1.offset + 2) (bl1.offset + size)
    some (
      bit_or (l.0 * 2 ^ 32 % 2 ^ 64) bl1.offset,
      bz,
      record { list = set bl1.list (l.0) buf; offset = bl1.offset + size },
    )

  -- The bytes of a leaf: its buffer, their start and their end.
  unfoldable pub range_of : BufList → ℕ → Option (List ℕ × ℕ × ℕ)
  range_of bl pos = do
    let offset = pos % 2 ^ 32
    buf ← get_elem? bl.list (pos / 2 ^ 32)
    cap ← slice buf offset (offset + 2)
    some (buf, offset + 2, offset + (bo.read_le cap * kv_size + 4))

  unfoldable pub get_leaf : BufList → ℕ → Option (List ℕ)
  unfolding range_of
  get_leaf bl pos = do r ← range_of bl pos; slice (r.0) (r.1) (r.2)

  unfoldable pub create_leaf : ℕ → ℕ → BufList → Option (ℕ × BufList)
  unfolding allocate put_leaf append
  create_leaf k v bl = do
    a ← allocate leaf_init_cap bl
    zeroed ← put (a.1) 0 (0 ∷ 0 ∷ [])
    leaf ← append bo zeroed k v
    bl1 ← put_leaf (a.2) (a.0) leaf
    some (a.0, bl1)
