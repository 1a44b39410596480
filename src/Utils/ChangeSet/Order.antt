-- ===== src/Utils/ChangeSet/Order.antt =====
-- qmdb/src/utils/changeset.rs: the sort puts the operations in the order of shards, key hashes and
-- kinds.
use Prim.Native.Nat.{compare, Ordering}
use mathlib.Core.List.Perm
use mathlib.Core.List.{Perm}
use mathlib.Core.Option.{some-injective}
use qmdb.Common.{
  ℕ, ◌+◌, ◌≤◌, ◌≡◌, ◌≢◌, refl, sym, List, [], ◌∷◌, some, Option-cases, ◌⊎◌, inl, inr, ◌>>=◌,
  >>=-eq-some, arith,
}
use qmdb.Common.Bytes.{slice}
use qmdb.Utils.ChangeSet.{ChangeOp, bytes_cmp, compare_ops, insert_op, sort_ops}

abbrev flip : Ordering → Ordering
flip Ordering.lt = Ordering.gt
flip Ordering.eq = Ordering.eq
flip Ordering.gt = Ordering.lt

compare-flip : (a b : ℕ) → compare b a ≡ flip (compare a b)
compare-flip a b = ground arith

bytes_cmp-flip : (xs ys : List ℕ) → bytes_cmp ys xs ≡ flip (bytes_cmp xs ys)
bytes_cmp-flip [] [] = refl
bytes_cmp-flip [] (y ∷ ys) = refl
bytes_cmp-flip (x ∷ xs) [] = refl
bytes_cmp-flip (x ∷ xs) (y ∷ ys) = ground (arith, compare-flip x y, bytes_cmp-flip xs ys)

-- Every operation stands in this shard or a higher one.
abbrev pub AllFrom : ℕ → List ChangeOp → Type 0
AllFrom n [] = Unit {0}
AllFrom n (b ∷ ops) = (n ≤ b.shard_id) × AllFrom n ops

module _ (bytes : List ℕ) where
  compare_ops-flip :
      (a b : ChangeOp) (r : Ordering)
      → compare_ops bytes a b ≡ some r
      → compare_ops bytes b a ≡ some (flip r)
  unfolding compare_ops
  compare_ops-flip a b r e =
      elim (Option-cases (slice bytes a.key_hash_start (a.key_hash_start + 32))) [
        | inl n ↦ ground (arith, compare-flip a.shard_id b.shard_id)
        | inr (x, ex) ↦ elim (Option-cases (slice bytes b.key_hash_start (b.key_hash_start + 32))) [
          | inl n ↦ ground (arith, compare-flip a.shard_id b.shard_id)
          | inr (y, ey) ↦ ground (
            arith,
            compare-flip a.shard_id b.shard_id,
            bytes_cmp-flip x y,
            compare-flip a.op_type b.op_type,
          )
        ]
      ]

  -- The comparison returns and does not put `a` behind `b`.
  pub record NotAfter (a b : ChangeOp) : Type 0 where
    pub result : Ordering
    pub compared : compare_ops bytes a b ≡ some result
    pub not_after : result ≢ Ordering.gt

  abbrev pub Head : ChangeOp → List ChangeOp → Type 0
  Head a [] = Unit {0}
  Head a (b ∷ ops) = NotAfter a b

  -- No operation is behind its successor.
  abbrev pub IsSorted : List ChangeOp → Type 0
  IsSorted [] = Unit {0}
  IsSorted (a ∷ ops) = Head a ops × IsSorted ops

  -- The steps of an insertion.
  insert_op-cons :
      (a b : ChangeOp) (ops out : List ChangeOp)
      → insert_op bytes a (b ∷ ops) ≡ some out
      → (NotAfter a b × (out ≡ a ∷ b ∷ ops))
        ⊎ (NotAfter b a
            × ((rest : List ChangeOp) × (insert_op bytes a ops ≡ some rest) × (out ≡ b ∷ rest)))
  unfolding insert_op
  insert_op-cons a b ops out e =
      let (r, e1, h1) = >>=-eq-some (compare_ops bytes b a) _ e in by_case r e1 h1
    where
      by_case :
          (r : Ordering)
          → compare_ops bytes b a ≡ some r
          → elim r [
            | Ordering.lt ↦ (insert_op bytes a ops >>= λ rest. some (b ∷ rest))
            | Ordering.eq ↦ some (a ∷ b ∷ ops)
            | Ordering.gt ↦ some (a ∷ b ∷ ops)
          ]
            ≡ some out
          → (NotAfter a b × (out ≡ a ∷ b ∷ ops))
            ⊎ (NotAfter b a
                × ((rest : List ChangeOp) × (insert_op bytes a ops ≡ some rest) × (out ≡ b ∷ rest)))
      by_case Ordering.lt c h =
          let (rest, e2, h2) = >>=-eq-some (insert_op bytes a ops) _ h in
          inr (
            record { result = Ordering.lt; compared = c; not_after = λ q. cc },
            (rest, e2, sym (some-injective _ _ h2)),
          )
      by_case Ordering.eq c h = inl (
        record { result = _; compared = compare_ops-flip b a _ c; not_after = λ q. cc },
        sym (some-injective _ _ h),
      )
      by_case Ordering.gt c h = inl (
        record { result = _; compared = compare_ops-flip b a _ c; not_after = λ q. cc },
        sym (some-injective _ _ h),
      )

  insert_op-IsSorted :
      (a : ChangeOp) (ops out : List ChangeOp)
      → IsSorted ops
      → insert_op bytes a ops ≡ some out
      → IsSorted out × ((b : ChangeOp) → Head b ops → NotAfter b a → Head b out)
  unfolding insert_op
  insert_op-IsSorted a [] out s e = rw (sym (some-injective _ _ e)) ((tt, tt), λ b h n. n)
  insert_op-IsSorted a (b ∷ ops) out s e = elim (insert_op-cons a b ops out e) [
    | inl (n, o) ↦ rw o ((n, s), λ c h m. m)
    | inr (n, (rest, e2, o)) ↦
        let (sorted, head) = insert_op-IsSorted a ops rest (s.1) e2 in
        rw o ((head b (s.0) n, sorted), λ c h m. h)
  ]

  insert_op-Perm :
      (a : ChangeOp) (ops out : List ChangeOp)
      → insert_op bytes a ops ≡ some out
      → Perm (a ∷ ops) out
  unfolding insert_op
  insert_op-Perm a [] out e = rw (sym (some-injective _ _ e)) (Perm.refl _)
  insert_op-Perm a (b ∷ ops) out e = elim (insert_op-cons a b ops out e) [
    | inl (n, o) ↦ rw o (Perm.refl _)
    | inr (n, (rest, e2, o)) ↦
        rw o (Perm.trans (Perm.swap b a ops) (Perm.cons b (insert_op-Perm a ops rest e2)))
  ]

  -- The sort orders the operations, and loses none.
  pub sort_ops-IsSorted :
      (ops out : List ChangeOp) → sort_ops bytes ops ≡ some out → IsSorted out × Perm ops out
  unfolding sort_ops
  sort_ops-IsSorted [] out e = rw (sym (some-injective _ _ e)) (tt, Perm.refl [])
  sort_ops-IsSorted (a ∷ ops) out e =
      let (sorted, e1, h1) = >>=-eq-some (sort_ops bytes ops) _ e in
      let (s, p) = sort_ops-IsSorted ops sorted e1 in
      (
        (insert_op-IsSorted a sorted out s h1).0,
        Perm.trans (Perm.cons a p) (insert_op-Perm a sorted out h1),
      )

  NotAfter-shard : (a b : ChangeOp) → NotAfter a b → a.shard_id ≤ b.shard_id
  unfolding compare_ops
  NotAfter-shard a b n = ground (arith, n.compared, n.not_after)

  pub IsSorted-AllFrom :
      (n : ℕ) (a : ChangeOp) (ops : List ChangeOp)
      → n ≤ a.shard_id
      → IsSorted (a ∷ ops)
      → AllFrom n ops
  IsSorted-AllFrom n a [] h s = tt
  IsSorted-AllFrom n a (b ∷ ops) h s =
      let le : n ≤ b.shard_id = omega (arith, NotAfter-shard a b (s.0)) in
      (le, IsSorted-AllFrom n b ops le (s.1))
