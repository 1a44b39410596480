-- ===== src/Utils/ChangeSet/Ordered.antt =====
-- The order of a sorted change set of qmdb/src/utils/changeset.rs, without the comparison of the
-- code: by shard, then by the bytes of the key hash, then by kind.
use Prim.Native.Nat.{Ordering}
use qmdb.Common.{
  ℕ, ◌+◌, ◌<◌, ◌≤◌, ◌≡◌, ◌⊎◌, inl, inr, ap₂, List, [], ◌∷◌, some, refl, Option-cases, arith,
}
use qmdb.Common.Bytes.{slice}
use qmdb.Utils.ChangeSet.{ChangeOp, bytes_cmp, compare_ops}
use qmdb.Utils.ChangeSet.Order.{NotAfter, IsSorted}

-- Byte strings that differ first at a byte which is lower in the one.
abbrev pub Lower : List ℕ → List ℕ → Type 0
Lower xs [] = ⊥
Lower [] (y ∷ ys) = Unit {0}
Lower (x ∷ xs) (y ∷ ys) = (x < y) ⊎ ((x ≡ y) × Lower xs ys)

-- Two operations in the order of their key hashes, and with one key hash in that of their kinds.
pub record HashOrder (bytes : List ℕ) (a b : ChangeOp) : Type 0 where
  pub hash_a : List ℕ
  pub hash_b : List ℕ
  pub shown_a : slice bytes a.key_hash_start (a.key_hash_start + 32) ≡ some hash_a
  pub shown_b : slice bytes b.key_hash_start (b.key_hash_start + 32) ≡ some hash_b
  pub ordered : Lower hash_a hash_b ⊎ ((hash_a ≡ hash_b) × (a.op_type ≤ b.op_type))

abbrev pub InOrder : List ℕ → ChangeOp → ChangeOp → Type 0
InOrder bytes a b = (a.shard_id < b.shard_id) ⊎ ((a.shard_id ≡ b.shard_id) × HashOrder bytes a b)

abbrev pub FirstInOrder : List ℕ → ChangeOp → List ChangeOp → Type 0
FirstInOrder bytes a [] = Unit {0}
FirstInOrder bytes a (b ∷ ops) = InOrder bytes a b

-- Each operation is in order with the one that follows it.
abbrev pub IsOrdered : List ℕ → List ChangeOp → Type 0
IsOrdered bytes [] = Unit {0}
IsOrdered bytes (a ∷ ops) = FirstInOrder bytes a ops × IsOrdered bytes ops

bytes_cmp-Lower : (xs ys : List ℕ) → bytes_cmp xs ys ≡ Ordering.lt → Lower xs ys
bytes_cmp-Lower [] [] e = absurd (cc)
bytes_cmp-Lower [] (y ∷ ys) e = tt
bytes_cmp-Lower (x ∷ xs) [] e = absurd (cc)
bytes_cmp-Lower (x ∷ xs) (y ∷ ys) e = elim (compare_cases x y) [
  | inl h ↦ inl h
  | inr (inl h) ↦ inr (h, bytes_cmp-Lower xs ys (ground (arith, e, h)))
  | inr (inr h) ↦ absurd (ground (arith, e, h))
]
  where
    compare_cases : (a b : ℕ) → (a < b) ⊎ ((a ≡ b) ⊎ (b < a))
    compare_cases a b = ground arith

bytes_cmp-eq : (xs ys : List ℕ) → bytes_cmp xs ys ≡ Ordering.eq → xs ≡ ys
bytes_cmp-eq [] [] e = refl
bytes_cmp-eq [] (y ∷ ys) e = absurd (cc)
bytes_cmp-eq (x ∷ xs) [] e = absurd (cc)
bytes_cmp-eq (x ∷ xs) (y ∷ ys) e =
    let same : x ≡ y = ground (arith, e) in
    ap₂ (λ (a : ℕ) (t : List ℕ). a ∷ t) same (bytes_cmp-eq xs ys (ground (arith, e, same)))

Ordering-cases : (o : Ordering) → (o ≡ Ordering.lt) ⊎ ((o ≡ Ordering.eq) ⊎ (o ≡ Ordering.gt))
Ordering-cases Ordering.lt = inl refl
Ordering-cases Ordering.eq = inr (inl refl)
Ordering-cases Ordering.gt = inr (inr refl)

apart : (m n : ℕ) → m ≤ n → (m < n) ⊎ (m ≡ n)
apart m n h = ground arith

module _ (bytes : List ℕ) where
  -- The comparison of the code gives that order.
  NotAfter-InOrder : (a b : ChangeOp) → NotAfter bytes a b → InOrder bytes a b
  unfolding compare_ops
  NotAfter-InOrder a b n =
      let not_behind : a.shard_id ≤ b.shard_id = ground (arith, n.compared, n.not_after) in
      elim (apart a.shard_id b.shard_id not_behind) [
        | inl h ↦ inl h
        | inr same ↦ elim (Option-cases (slice bytes a.key_hash_start (a.key_hash_start + 32))) [
          | inl e ↦ absurd (ground (arith, same, n.compared))
          | inr (x, ex) ↦
              elim (Option-cases (slice bytes b.key_hash_start (b.key_hash_start + 32))) [
                | inl e ↦ absurd (ground (arith, same, n.compared))
                | inr (y, ey) ↦ inr (
                  same,
                  record {
                    hash_a = x;
                    hash_b = y;
                    shown_a = ex;
                    shown_b = ey;
                    ordered = elim (Ordering-cases (bytes_cmp x y)) [
                      | inl c ↦ inl (bytes_cmp-Lower x y c)
                      | inr (inl c) ↦ inr (
                        bytes_cmp-eq x y c,
                        ground (arith, same, ex, ey, c, n.compared, n.not_after),
                      )
                      | inr (inr c) ↦
                          absurd (ground (arith, same, ex, ey, c, n.compared, n.not_after))
                    ];
                  },
                )
              ]
        ]
      ]

  pub IsSorted-IsOrdered : (ops : List ChangeOp) → IsSorted bytes ops → IsOrdered bytes ops
  IsSorted-IsOrdered [] s = tt
  IsSorted-IsOrdered (a ∷ []) s = (tt, tt)
  IsSorted-IsOrdered (a ∷ b ∷ ops) s =
      (NotAfter-InOrder a b (s.0), IsSorted-IsOrdered (b ∷ ops) (s.1))
