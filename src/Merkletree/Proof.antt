-- ===== src/Merkletree/Proof.antt =====
-- qmdb/src/merkletree/proof.rs: the path of hashes from an entry to the root, and its check.
pub mod Chain
pub mod Check
pub mod Binding
pub mod Codec
pub mod Paths
use qmdb.Common.{
  ℕ, ◌+◌, ◌-◌, ◌%◌, ◌^◌, ◌≡◌, refl, List, [], ◌∷◌, Bool, true, false, ◌||◌, if◌then◌else◌,
}
use qmdb.Common.Bytes.{bytes_eq}
use qmdb.Def.{twig_root_level}
use qmdb.Extern.Sha2.{Sha256}
use qmdb.Utils.Hasher.{Hash32, zero_hash32, hash2, hash2x}

pub record ProofNode : Type 0 where
  pub self_hash : Hash32
  pub peer_hash : Hash32
  pub peer_at_left : Bool

-- `left_of_twig` has 11 nodes and `right_of_twig` three.
pub record ProofPath : Type 0 where
  pub left_of_twig : List ProofNode
  pub right_of_twig : List ProofNode
  pub upper_path : List ProofNode
  pub serial_num : ℕ
  pub root : Hash32

pub data Error : Type 0 where
  left_mismatch : ℕ → Error
  right_mismatch : ℕ → Error
  twig_top_mismatch : Error
  upper_mismatch : ℕ → Error
  root_mismatch : Error
  invalid_length : ℕ → Error
  panicked : Error

pub data Result (A : Type 0) : Type 0 where
  err : Error → Result A
  ok : A → Result A

-- The operator `?` of the source: an error ends the function.
infixl 5 ◌>>=◌
abbrev pub ◌>>=◌ : {A B : Type 0} → Result A → (A → Result B) → Result B
err reason >>= next = err reason
ok value >>= next = next value

pub >>=-eq-ok :
    {A B : Type 0} (first : Result A) (next : A → Result B) {value : B}
    → (first >>= next) ≡ ok value
    → (a : A) × (first ≡ ok a) × (next a ≡ ok value)
>>=-eq-ok (err reason) next e = cc
>>=-eq-ok (ok a) next e = (a, refl, e)

-- A node against the hash from below: completed by it, or compared with it.
abbrev pub meets : Bool → Hash32 → ProofNode → Bool
meets complete res node = complete || bytes_eq res node.self_hash

abbrev pub filled : Bool → Hash32 → ProofNode → ProofNode
filled complete res node = if complete then record node { self_hash = res } else node

module _ (sha : Sha256) where
  abbrev pub node_hash : ℕ → ProofNode → Hash32
  node_hash level node = hash2x sha (level % 2 ^ 8) node.self_hash node.peer_hash node.peer_at_left

  -- One of the three loops: `first` and the nodes above it, each level's hash put into or
  -- compared with the next node. The result has the nodes and the last level's hash.
  pub chain : (ℕ → Error) → Bool → ℕ → ProofNode → List ProofNode → Result (List ProofNode × Hash32)
  chain mismatch complete level first [] = ok (first ∷ [], node_hash level first)
  chain mismatch complete level first (next ∷ rest) =
      elim (meets complete (node_hash level first) next) [
        | true ↦ do
          (nodes, top) ←
              chain mismatch complete (level + 1) (filled complete (node_hash level first) next)
                rest
          ok (first ∷ nodes, top)
        | false ↦ err (mismatch level)
      ]

  -- An empty array has no first element.
  pub chain_of : (ℕ → Error) → Bool → ℕ → List ProofNode → Result (List ProofNode × Hash32)
  chain_of mismatch complete level [] = err panicked
  chain_of mismatch complete level (first ∷ rest) = chain mismatch complete level first rest

  -- The upper path, entered with the root of the twig.
  pub enter_upper : Bool → Hash32 → List ProofNode → Result (List ProofNode)
  enter_upper complete twig_root [] = err panicked
  enter_upper complete twig_root (first ∷ rest) =
      if meets complete twig_root first
      then ok (filled complete twig_root first ∷ rest)
      else err twig_top_mismatch

  -- The path with the hashes filled in, if `complete`, and the same path otherwise.
  pub check : ProofPath → Bool → Result ProofPath
  check path complete = do
    (left, leaf_mt_root) ← chain_of left_mismatch complete 0 path.left_of_twig
    (right, active_bits_mt_l3) ←
        chain_of (λ level. right_mismatch (level - 8)) complete 8 path.right_of_twig
    entered ← enter_upper complete (hash2 sha 11 leaf_mt_root active_bits_mt_l3) path.upper_path
    (upper, res) ← chain_of upper_mismatch complete twig_root_level entered
    (if bytes_eq res path.root
        then ok (record path { left_of_twig = left; right_of_twig = right; upper_path = upper })
        else err root_mismatch)
