-- ===== src/Merkletree/ActiveBits/Laws.antt =====
-- `ActiveBits` of qmdb/src/merkletree/twig.rs against a set of leaf numbers.
use qmdb.Common.{
  ℕ, ◌/◌, ◌%◌, ◌^◌, ◌<◌, ◌≤◌, ◌≡◌, ◌∙◌, Bool, true, false, not, none, some, length, get_elem?,
  get_or, set, ltb, ◌==◌, if◌then◌else◌, arith, bit_or, bit_and, get_elem?-eq-get_or,
  get_or-replicate, get_elem?_beyond, get_or-set_self, get_or-set_ne, length-set, length-replicate,
  Bool-cases, inl, inr, List,
}
use qmdb.Common.Bits.{
  bit_at, bit_not, bit_at-set, bit_at-clear, bit_or-lt, bit_and-lt, two-pow-lt, test_bit,
  bit_at-zero, bit_and-low,
}
use qmdb.Merkletree.ActiveBits.{ActiveBits, new, set_bit, clear_bit, get_bit}

abbrev byte_at : List ℕ → ℕ → ℕ
byte_at bz i = get_or bz i 0

-- The 256 bytes hold the set `s` of leaves.
pub record Holds (ab : ActiveBits) (s : ℕ → Bool) : Type 0 where
  pub size : length ab.bytes ≡ 256
  pub fits : (i : ℕ) → byte_at ab.bytes i < 2 ^ 8
  pub bits : (n : ℕ) → n < 2048 → not (bit_at (byte_at ab.bytes (n / 8)) (n % 8) == 0) ≡ s n

pub new-Holds : Holds new (λ n. false)
unfolding new
new-Holds = record {
  size = length-replicate {A = ℕ} 256 0;
  fits = λ i. omega (arith, get_or-replicate {A = ℕ} 256 i 0);
  bits = λ n h. ground (arith, get_or-replicate {A = ℕ} 256 (n / 8) 0, bit_at-zero (n % 8));
}

module _ (ab : ActiveBits) (s : ℕ → Bool) (v : Holds ab s) (n : ℕ) where
  loads : n < 2048 → get_elem? ab.bytes (n / 8) ≡ some (byte_at ab.bytes (n / 8))
  loads h = get_elem?-eq-get_or ab.bytes (n / 8) 0 (omega (arith, v.size))

  -- Reading a leaf's bit says whether it is in the set; at 2048 and beyond the call panics.
  pub get_bit-Holds : get_bit ab n ≡ (if ltb n 2048 then some (s n) else none)
  unfolding get_bit
  get_bit-Holds = elim (Bool-cases (ltb n 2048)) [
    | inl h ↦
        ground
          (arith, loads, bit_and-low 3 n, test_bit (byte_at ab.bytes (n / 8)) (n % 8), v.bits n)
    | inr h ↦ ground (arith, get_elem?_beyond ab.bytes (n / 8), v.size)
  ]

  -- The array with the byte of `n` replaced by one that differs in that bit only.
  replaced :
      (w : ℕ) (b : Bool)
      → n < 2048
      → w < 2 ^ 8
      → ((i : ℕ)
          → i < 8
          → bit_at w i
            ≡ (if i == n % 8 then (if b then 1 else 0) else bit_at (byte_at ab.bytes (n / 8)) i))
      → Holds (record { bytes = set ab.bytes (n / 8) w }) (λ k. if k == n then b else s k)
  replaced w b h fits bits = record {
    size = length-set ab.bytes (n / 8) w ∙ v.size;
    fits = λ i. ground (arith, at i, v.fits i);
    bits = λ k p. ground (arith, at (k / 8), bits (k % 8), v.bits k);
  }
    where
      at :
          (i : ℕ)
          → byte_at (set ab.bytes (n / 8) w) i ≡ (if i == n / 8 then w else byte_at ab.bytes i)
      at i = ground (
        arith,
        get_or-set_self ab.bytes (n / 8) w 0,
        get_or-set_ne ab.bytes (n / 8) i w 0,
        v.size,
      )

  -- `set_bit` adds its leaf and changes no other; at 2048 and beyond it panics.
  pub set_bit-Holds :
      (n < 2048
        → (ab' : ActiveBits) × (set_bit ab n ≡ some ab')
          × Holds ab' (λ k. if k == n then true else s k))
      × (2048 ≤ n → set_bit ab n ≡ none)
  unfolding set_bit
  set_bit-Holds = (
    λ h. (
      record { bytes = set ab.bytes (n / 8) (bit_or (byte_at ab.bytes (n / 8)) (2 ^ (n % 8))) },
      ground (arith, loads h, bit_and-low 3 n),
      replaced (bit_or (byte_at ab.bytes (n / 8)) (2 ^ (n % 8))) true h
          (bit_or-lt 8 _ _ (v.fits (n / 8)) (two-pow-lt (n % 8) 8 (omega arith)))
          (λ i p. bit_at-set (byte_at ab.bytes (n / 8)) (n % 8) i),
    ),
    λ h. ground (arith, get_elem?_beyond ab.bytes (n / 8), v.size),
  )

  -- `clear_bit` takes its leaf out and changes no other; at 2048 and beyond it panics.
  pub clear_bit-Holds :
      (n < 2048
        → (ab' : ActiveBits) × (clear_bit ab n ≡ some ab')
          × Holds ab' (λ k. if k == n then false else s k))
      × (2048 ≤ n → clear_bit ab n ≡ none)
  unfolding clear_bit
  clear_bit-Holds = (
    λ h. (
      record {
        bytes = set ab.bytes (n / 8) (bit_and (byte_at ab.bytes (n / 8)) (bit_not 8 (2 ^ (n % 8))));
      },
      ground (arith, loads h, bit_and-low 3 n),
      replaced (bit_and (byte_at ab.bytes (n / 8)) (bit_not 8 (2 ^ (n % 8)))) false h
          (bit_and-lt 8 _ _ (v.fits (n / 8)))
          (λ i p. bit_at-clear 8 (byte_at ab.bytes (n / 8)) (n % 8) i (omega arith) p),
    ),
    λ h. ground (arith, get_elem?_beyond ab.bytes (n / 8), v.size),
  )
