-- ===== src/Utils/ActiveBits.antt =====
-- qmdb/src/utils/activebits.rs: a sparse bitmap in segments of 32768 bits. The calls are taken
-- one at a time; the atomics of a segment are plain numbers, and `none` is a panic.
pub mod Segment
pub mod Laws
use qmdb.Common.{ℕ, ◌*◌, ◌/◌, ◌%◌, Bool, false, Option, none, some, ◌>>=◌, if◌then◌else◌}
use qmdb.Extern.Dashmap.{DashMap}
use Segment.{u32_count}
use Segment

abbrev pub bit_count : ℕ
bit_count = 32 * u32_count

module _ (dash : DashMap Segment.Segment) where
  pub record ActiveBits : Type 0 where
    pub m : dash.Map

  pub with_capacity : ℕ → ActiveBits
  with_capacity n = record { m = dash.with_capacity n }

  pub get : ActiveBits → ℕ → Option Bool
  get ab n = elim (dash.get ab.m (n / bit_count)) [
    | some seg ↦ Segment.get seg (n % bit_count)
    | none ↦ some false
  ]

  pub set : ActiveBits → ℕ → Option ActiveBits
  set ab n = elim (dash.get ab.m (n / bit_count)) [
    | some seg ↦ do
      seg' ← Segment.set seg (n % bit_count)
      some (record { m = dash.insert ab.m (n / bit_count) seg' })
    | none ↦ do
      seg' ← Segment.set Segment.new (n % bit_count)
      some (record { m = dash.insert ab.m (n / bit_count) seg' })
  ]

  pub clear : ActiveBits → ℕ → Option ActiveBits
  clear ab n = elim (dash.get ab.m (n / bit_count)) [
    | some seg ↦ do
      (seg', need_remove) ← Segment.clear seg (n % bit_count)
      let m' = dash.insert ab.m (n / bit_count) seg'
      some (record { m = if need_remove then dash.remove m' (n / bit_count) else m' })
    | none ↦ some ab
  ]
