-- ===== src/Tasks/Hub/Blocks.antt =====
-- Values by height: what the hub of qmdb/src/tasks/bptaskhub.rs keeps, as a list.
use qmdb.Common.{
  ℕ, ◌+◌, ◌≡◌, refl, List, [], ◌∷◌, Option, none, some, length, ◌==◌, if◌then◌else◌, Bool-cases,
  inl, inr, arith,
}

module _ {V : Type 0} where
  -- A list of values by height.
  abbrev pub lookup : ℕ → List (ℕ × V) → Option V
  lookup h [] = none
  lookup h ((k, b) ∷ rest) = if k == h then some b else lookup h rest

  abbrev pub remove : ℕ → List (ℕ × V) → List (ℕ × V)
  remove h [] = []
  remove h ((k, b) ∷ rest) = if k == h then rest else (k, b) ∷ remove h rest

  abbrev pub Distinct : List (ℕ × V) → Type 0
  Distinct [] = Unit {0}
  Distinct ((k, b) ∷ rest) = (lookup k rest ≡ none) × Distinct rest

  pub lookup-remove :
      (h k : ℕ) (bs : List (ℕ × V))
      → Distinct bs
      → lookup k (remove h bs) ≡ (if h == k then none else lookup k bs)
  lookup-remove h k [] d = ground arith
  lookup-remove h k ((j, b) ∷ rest) d = ground (arith, lookup-remove h k rest)

  lookup-remove_none :
      (h k : ℕ) (bs : List (ℕ × V)) → lookup k bs ≡ none → lookup k (remove h bs) ≡ none
  lookup-remove_none h k [] e = refl
  lookup-remove_none h k ((j, b) ∷ rest) e = ground (arith, lookup-remove_none h k rest)

  pub Distinct-remove : (h : ℕ) (bs : List (ℕ × V)) → Distinct bs → Distinct (remove h bs)
  Distinct-remove h [] d = tt
  Distinct-remove h ((j, b) ∷ rest) d = elim (Bool-cases (j == h)) [
    | inl e ↦ rw e (d.1)
    | inr e ↦ rw e (lookup-remove_none h j rest (d.0), Distinct-remove h rest (d.1))
  ]

  pub length-remove :
      (h : ℕ) (bs : List (ℕ × V)) (b : V)
      → lookup h bs ≡ some b
      → length bs ≡ length (remove h bs) + 1
  length-remove h [] b e = cc
  length-remove h ((j, c) ∷ rest) b e = ground (arith, length-remove h rest b)
