-- ===== src/Updater/Tasks/Chain.antt =====
-- qmdb/src/updater.rs: in which order `run_task_with_ooo_id` runs the tasks that were announced.
use qmdb.Common.{
  ℕ, zero, suc, ◌<◌, ◌≡◌, refl, ap, ◌∙◌, sym, List, [], ◌∷◌, Bool-cases, inl, inr, Option, none,
  some, length, Option-cases, ◌==◌, ◌>>=◌, arith,
}
use qmdb.Updater.Tasks.{remove, step_forward}

-- The tasks `ids` run one after the other.
abbrev pub run_all : {U : Type 0} → (ℕ → U → Option U) → List ℕ → U → Option U
run_all run [] u = some u
run_all run (id ∷ ids) u = run id u >>= λ u1. run_all run ids u1

-- From `start` the map's links lead over `ids`, each of which is taken off, to `end`.
pub data Links : List (ℕ × ℕ) → ℕ → List ℕ → List (ℕ × ℕ) → ℕ → Type 0 where
  stop : {m : List (ℕ × ℕ)} {id : ℕ} → remove m id ≡ none → Links m id [] m id
  link :
      {m m' out : List (ℕ × ℕ)} {id next end : ℕ} {ids : List ℕ}
      → remove m id ≡ some (next, m')
      → Links m' next ids out end
      → Links m id (id ∷ ids) out end

length-remove :
    (m : List (ℕ × ℕ)) (id v : ℕ) (m' : List (ℕ × ℕ))
    → remove m id ≡ some (v, m')
    → length m ≡ suc (length m')
length-remove [] id v m' e = absurd (cc)
length-remove ((k, w) ∷ m) id v m' e = elim (Bool-cases (k == id)) [
  | inl t ↦ let same : m ≡ m' = cc (rw (remove, t) at e) in ap (λ x. suc (length x)) same
  | inr t ↦ elim (Option-cases (remove m id)) [
    | inl n ↦ absurd (cc (rw (remove, t, n) at e))
    | inr (q, h) ↦
        let rest : m' ≡ (k, w) ∷ q.1 = cc (rw (remove, t, h) at e) in
        rw rest (ap (λ x. suc x) (length-remove m id (q.0) (q.1) h))
  ]
]

after :
    {U R : Type 0} (r : Option U) (f g : U → Option R)
    → ((u : U) → f u ≡ g u)
    → (r >>= f) ≡ (r >>= g)
after none f g h = refl
after (some u) f g h = h u

>>=-assoc :
    {U R : Type 0} (r : Option U) (f : U → Option U) (g : U → Option R)
    → ((r >>= f) >>= g) ≡ (r >>= λ u. f u >>= g)
>>=-assoc none f g = refl
>>=-assoc (some u) f g = refl

step_forward-chain :
    {U : Type 0} (run : ℕ → U → Option U) (fuel : ℕ) (m : List (ℕ × ℕ)) (id : ℕ)
    → length m < fuel
    → (ids : List ℕ) × (out : List (ℕ × ℕ)) × (end : ℕ) × Links m id ids out end
      × ((u : U) → step_forward run fuel m id u ≡ (run_all run ids u >>= λ u1. some (u1, out, end)))
unfolding step_forward
step_forward-chain run zero m id h = absurd (omega arith)
step_forward-chain run (suc fuel) m id h = elim (Option-cases (remove m id)) [
  | inl n ↦ ([], m, id, stop n, λ u. rw (step_forward, n) refl)
  | inr (q, e) ↦
      let (ids, out, end, links, runs) =
        step_forward-chain run fuel (q.1) (q.0) (omega (arith, length-remove m id (q.0) (q.1) e)) in
      (
        id ∷ ids,
        out,
        end,
        link e links,
        λ u.
            rw (step_forward, e)
              (after (run id u) _ _ runs
                ∙ sym (>>=-assoc (run id u) (run_all run ids) (λ u1. some (u1, out, end)))),
      )
]

-- For every map there are the tasks that its links lead over from the next task, and the loop runs
-- these tasks, in this order and each of them once; it stops at a task that the map does not
-- have; and the rounds that it is given are enough.
pub step_forward_lem :
    {U : Type 0} (run : ℕ → U → Option U) (m : List (ℕ × ℕ)) (next_task_id : ℕ)
    → (ids : List ℕ) × (out : List (ℕ × ℕ)) × (end : ℕ) × Links m next_task_id ids out end
      × ((u : U)
          → step_forward run (suc (length m)) m next_task_id u
            ≡ (run_all run ids u >>= λ u1. some (u1, out, end)))
step_forward_lem run m next_task_id =
    step_forward-chain run (suc (length m)) m next_task_id (omega arith)
