-- ===== src/Extern/Dashmap.antt =====
-- The crate `dashmap`: a concurrent map, here with `u64` keys.
use qmdb.Common.{ℕ, ◌≡◌, refl, Option, none, some, ◌==◌, if◌then◌else◌}

pub record DashMap (V : Type 0) : Type 1 where
  pub Map : Type 0
  pub with_capacity : ℕ → Map
  pub get : Map → ℕ → Option V
  pub insert : Map → ℕ → V → Map
  pub remove : Map → ℕ → Map
  pub get-with_capacity : (n k : ℕ) → get (with_capacity n) k ≡ none
  pub get-insert :
      (m : Map) (k : ℕ) (v : V) (j : ℕ)
      → get (insert m k v) j ≡ (if k == j then some v else get m j)
  pub get-remove : (m : Map) (k j : ℕ) → get (remove m k) j ≡ (if k == j then none else get m j)

-- Functions meet the interface.
abbrev pub function_map : (V : Type 0) → DashMap V
function_map V = record {
  Map = ℕ → Option V;
  with_capacity = λ n k. none;
  get = λ m k. m k;
  insert = λ m k v j. if k == j then some v else m j;
  remove = λ m k j. if k == j then none else m j;
  get-with_capacity = λ n k. refl;
  get-insert = λ m k v j. refl;
  get-remove = λ m k j. refl;
}
