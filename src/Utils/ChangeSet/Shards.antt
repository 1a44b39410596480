-- ===== src/Utils/ChangeSet/Shards.antt =====
-- qmdb/src/utils/changeset.rs: `run_in_shard` after `sort` runs the operations of the shard.
use mathlib.Core.Option.{some-injective}
use qmdb.Common.{
  ℕ, suc, ◌+◌, ◌-◌, ◌%◌, ◌^◌, ◌<◌, ◌≤◌, ◌≡◌, ◌≢◌, fun_ext, refl, ap, sym, ◌∙◌, List, [], ◌∷◌, some,
  length, get_elem?, set, get_elem?-set, drop, ◌==◌, if◌then◌else◌, Bool-cases, inl, inr, ◌>>=◌,
  >>=-eq-some, arith,
}
use qmdb.Utils.ChangeSet.{ChangeOp, Visit, visit_of, run_ops, run_while, mark, u32_max}
use qmdb.Utils.ChangeSet.Order.{IsSorted, AllFrom, IsSorted-AllFrom}

-- The operations of one shard, in their order.
abbrev pub of_shard : ℕ → List ChangeOp → List ChangeOp
of_shard shard_id [] = []
of_shard shard_id (op ∷ ops) =
    let rest = of_shard shard_id ops in if shard_id == op.shard_id then op ∷ rest else rest

-- The index of the first of them, counted from `idx`, or u32::MAX.
pub start_of : ℕ → ℕ → List ChangeOp → ℕ
start_of shard_id idx [] = u32_max
start_of shard_id idx (op ∷ ops) =
    let rest = start_of shard_id (idx + 1) ops in if shard_id == op.shard_id then idx else rest

pub mark_lem :
    (shard_id idx : ℕ) (ops : List ChangeOp) (starts counts starts' counts' : List ℕ) (v w : ℕ)
    → idx + length ops < u32_max
    → w + length ops < 2 ^ 32
    → get_elem? starts shard_id ≡ some v
    → get_elem? counts shard_id ≡ some w
    → mark idx ops starts counts ≡ some (starts', counts')
    → (get_elem? starts' shard_id ≡ some (if v == u32_max then start_of shard_id idx ops else v))
      × (get_elem? counts' shard_id ≡ some (w + length (of_shard shard_id ops)))
unfolding mark start_of
mark_lem shard_id idx [] starts counts starts' counts' v w h k ev ew e =
    let same = some-injective _ _ e in
    (
      ap (λ p. get_elem? (p.0) shard_id) (sym same) ∙ ev ∙ ap some (ground arith),
      ap (λ p. get_elem? (p.1) shard_id) (sym same) ∙ ew ∙ ap some (omega arith),
    )
mark_lem shard_id idx (op ∷ ops) starts counts starts' counts' v w h k ev ew e =
    let (count, e1, h1) = >>=-eq-some (get_elem? counts op.shard_id) _ e in
    let (start, e2, h2) = >>=-eq-some (get_elem? starts op.shard_id) _ h1 in
    let starts1 = if start == u32_max then set starts op.shard_id (idx % 2 ^ 32) else starts in
    let v1 : ℕ =
      if start == u32_max then if op.shard_id == shard_id then idx % 2 ^ 32 else v else v in
    let w1 : ℕ = if op.shard_id == shard_id then (count + 1) % 2 ^ 32 else w in
    let ev1 : get_elem? starts1 shard_id ≡ some v1 =
      ground (arith, get_elem?-set starts op.shard_id shard_id (idx % 2 ^ 32) v) in
    let ew1 = get_elem?-set counts op.shard_id shard_id ((count + 1) % 2 ^ 32) w ew in
    let same_start : op.shard_id ≡ shard_id → start ≡ v =
      λ q. some-injective _ _ (sym e2 ∙ ap (get_elem? starts) q ∙ ev) in
    let same_count : op.shard_id ≡ shard_id → count ≡ w =
      λ q. some-injective _ _ (sym e1 ∙ ap (get_elem? counts) q ∙ ew) in
    let small : w1 + length ops < 2 ^ 32 = ground arith in
    let ih =
      mark_lem shard_id (idx + 1) ops starts1 _ starts' counts' v1 w1 (omega arith) small ev1 ew1
        h2 in
    (ih.0 ∙ ap some (ground arith), ih.1 ∙ ap some (ground arith))

abbrev pub skip : ℕ → List ChangeOp → List ChangeOp
skip shard_id [] = []
skip shard_id (op ∷ ops) =
    let rest = skip shard_id ops in if shard_id == op.shard_id then op ∷ ops else rest

-- What stands from the start on.
pub drop_start :
    (shard_id idx : ℕ) (ops : List ChangeOp)
    → idx + length ops < u32_max
    → (start_of shard_id idx ops ≡ u32_max → of_shard shard_id ops ≡ [])
      × (start_of shard_id idx ops ≢ u32_max
          → (idx ≤ start_of shard_id idx ops)
            × (drop (start_of shard_id idx ops - idx) ops ≡ skip shard_id ops))
unfolding start_of
drop_start shard_id idx [] h = (λ e. refl, λ n. absurd (n refl))
drop_start shard_id idx (op ∷ ops) h = elim (Bool-cases (shard_id == op.shard_id)) [
  | inl t ↦
      let here : idx - idx ≡ 0 = omega arith in
      rw t (λ e. absurd (omega arith), λ n. (omega arith, rw here refl))
  | inr t ↦
      let ih = drop_start shard_id (idx + 1) ops (omega arith) in
      rw t (
        ih.0,
        λ n.
            let r = ih.1 n in
            let next : start_of shard_id (idx + 1) ops - idx
                ≡ suc (start_of shard_id (idx + 1) ops - (idx + 1)) =
              omega (arith, r.0) in
            (omega (arith, r.0), rw next (r.1)),
      )
]

none_above :
    (shard_id n : ℕ) (ops : List ChangeOp)
    → shard_id < n
    → AllFrom n ops
    → of_shard shard_id ops ≡ []
none_above shard_id n [] h a = refl
none_above shard_id n (op ∷ ops) h a = ground (arith, none_above shard_id n ops h (a.1))

module _ {S : Type 0} (bytes : List ℕ) (g : Visit → S → S) where
  -- Once the shard has started, the loop stops at its end.
  run_while_lem :
      (shard_id : ℕ) (ops : List ChangeOp) (s : S)
      → IsSorted bytes ops
      → AllFrom shard_id ops
      → run_while bytes shard_id g ops s ≡ run_ops bytes g (of_shard shard_id ops) s
  unfolding run_while run_ops
  run_while_lem shard_id [] s o a = refl
  run_while_lem shard_id (op ∷ ops) s o a = elim (Bool-cases (shard_id == op.shard_id)) [
    | inl t ↦
        rw (run_while, t)
          (ap (λ k. visit_of bytes op >>= k)
            (fun_ext λ v. run_while_lem shard_id ops (g v s) (o.1) (a.1)))
    | inr t ↦
        let above = IsSorted-AllFrom bytes op.shard_id op ops (omega arith) o in
        let none_left = none_above shard_id op.shard_id ops (ground (arith, a.0)) above in
        rw (run_while, t, none_left) refl
  ]

  pub run_skip :
      (shard_id : ℕ) (ops : List ChangeOp) (s : S)
      → IsSorted bytes ops
      → run_while bytes shard_id g (skip shard_id ops) s ≡ run_ops bytes g (of_shard shard_id ops) s
  unfolding run_while run_ops
  run_skip shard_id [] s o = refl
  run_skip shard_id (op ∷ ops) s o = elim (Bool-cases (shard_id == op.shard_id)) [
    | inl t ↦
        let from : shard_id ≤ op.shard_id = ground arith in
        let run =
          run_while_lem shard_id (op ∷ ops) s o
            (from, IsSorted-AllFrom bytes shard_id op ops from o) in
        rw t (rw t at run)
    | inr t ↦ rw t (run_skip shard_id ops s (o.1))
  ]
