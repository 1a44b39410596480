-- ===== src/Common/Bits.antt =====
-- The bits of a number, and what `|`, `&` and `!` of fixed-width words do to them.
use Prim.Native.Nat.{digits, bitwise, differ, bit_and-bitwise, bit_or-bitwise, bit_xor-bitwise}
use native.Mathlib.Nat.{
  pow-suc, one-le-pow, mod-lt, mod-add-div, add-mul-mod_self_right, mod-eq_of_lt,
}
use qmdb.Common.{
  ℕ, zero, suc, ◌+◌, ◌-◌, ◌*◌, ◌/◌, ◌%◌, ◌^◌, ◌≤◌, ◌<◌, min, max, bit_and, bit_or, bit_xor, ◌≡◌,
  ◌≢◌, refl, ap, arith, ◌==◌, if◌then◌else◌, ◌∙◌, ap₂, sym,
}

module _ (z : ℕ → ℕ) (f : ℕ → ℕ → ℕ) where
  digits_enough : (n m a b : ℕ) → a ≤ n → a ≤ m → digits z f n a b ≡ digits z f m a b
  digits_enough zero zero a b p q = refl
  digits_enough zero (suc m) zero b p q = refl
  digits_enough zero (suc m) (suc a) b p q = absurd (omega arith)
  digits_enough (suc n) zero zero b p q = refl
  digits_enough (suc n) zero (suc a) b p q = absurd (omega arith)
  digits_enough (suc n) (suc m) zero b p q = refl
  digits_enough (suc n) (suc m) (suc a) b p q =
      rw (digits_enough n m (suc a / 2) (b / 2) (omega arith) (omega arith))

  bitwise_digit :
      (a b : ℕ)
      → bitwise z f (suc a) b ≡ bitwise z f (suc a / 2) (b / 2) * 2 + f (suc a % 2) (b % 2)
  bitwise_digit a b =
      omega (arith, digits_enough a (suc a / 2) (suc a / 2) (b / 2) (omega arith) (omega arith))

bit_or_digit : (a b : ℕ) → bit_or a b ≡ bit_or (a / 2) (b / 2) * 2 + max (a % 2) (b % 2)
bit_or_digit zero b = simp bit_or-bitwise (omega arith)
bit_or_digit (suc a) b = simp bit_or-bitwise (bitwise_digit (λ y. y) max a b)

bit_and_digit : (a b : ℕ) → bit_and a b ≡ bit_and (a / 2) (b / 2) * 2 + min (a % 2) (b % 2)
bit_and_digit zero b = simp bit_and-bitwise (omega arith)
bit_and_digit (suc a) b = simp bit_and-bitwise (bitwise_digit (λ y. 0) min a b)

-- Bit `i` of `a`, as 0 or 1.
abbrev pub bit_at : ℕ → ℕ → ℕ
bit_at a zero = a % 2
bit_at a (suc i) = bit_at (a / 2) i

pub bit_at-le-one : (a i : ℕ) → bit_at a i ≤ 1
bit_at-le-one a zero = omega arith
bit_at-le-one a (suc i) = bit_at-le-one (a / 2) i

pub bit_at-zero : (i : ℕ) → bit_at 0 i ≡ 0
bit_at-zero zero = refl
bit_at-zero (suc i) = bit_at-zero i

pub bit_at-bit_or : (a b i : ℕ) → bit_at (bit_or a b) i ≡ max (bit_at a i) (bit_at b i)
bit_at-bit_or a b zero = omega (arith, bit_or_digit a b)
bit_at-bit_or a b (suc i) =
    let e : bit_or a b / 2 ≡ bit_or (a / 2) (b / 2) = omega (arith, bit_or_digit a b) in
    rw e (bit_at-bit_or (a / 2) (b / 2) i)

pub bit_at-bit_and : (a b i : ℕ) → bit_at (bit_and a b) i ≡ min (bit_at a i) (bit_at b i)
bit_at-bit_and a b zero = omega (arith, bit_and_digit a b)
bit_at-bit_and a b (suc i) =
    let e : bit_and a b / 2 ≡ bit_and (a / 2) (b / 2) = omega (arith, bit_and_digit a b) in
    rw e (bit_at-bit_and (a / 2) (b / 2) i)

half-two-pow : (j : ℕ) → 2 ^ suc j / 2 ≡ 2 ^ j
half-two-pow j = omega (arith, pow-suc 2 j)

pub bit_at-two-pow : (j i : ℕ) → bit_at (2 ^ j) i ≡ (if i == j then 1 else 0)
bit_at-two-pow zero zero = refl
bit_at-two-pow zero (suc i) = bit_at-zero i ∙ ground arith
bit_at-two-pow (suc j) zero = ground (arith, pow-suc 2 j)
bit_at-two-pow (suc j) (suc i) = rw (half-two-pow j) (bit_at-two-pow j i ∙ ground arith)

-- A word with bit `j` set by `|`.
pub bit_at-set : (a j i : ℕ) → bit_at (bit_or a (2 ^ j)) i ≡ (if i == j then 1 else bit_at a i)
bit_at-set a j i = ground (arith, bit_at-bit_or a (2 ^ j) i, bit_at-two-pow j i, bit_at-le-one a i)

-- The complement of a `w`-bit word.
abbrev pub bit_not : ℕ → ℕ → ℕ
bit_not w m = 2 ^ w - 1 - m

bit_at-not : (w m i : ℕ) → m < 2 ^ w → i < w → bit_at (bit_not w m) i + bit_at m i ≡ 1
bit_at-not zero m i h p = absurd (omega arith)
bit_at-not (suc w) m zero h p = omega (arith, pow-suc 2 w, one-le-pow w 2)
bit_at-not (suc w) m (suc i) h p =
    let e : bit_not (suc w) m / 2 ≡ bit_not w (m / 2) =
      omega (arith, pow-suc 2 w, one-le-pow w 2) in
    rw e (bit_at-not w (m / 2) i (omega (arith, pow-suc 2 w)) (omega arith))

pub two-pow-lt : (j w : ℕ) → j < w → 2 ^ j < 2 ^ w
two-pow-lt j zero h = absurd (omega arith)
two-pow-lt zero (suc w) h = omega (arith, pow-suc 2 w, one-le-pow w 2)
two-pow-lt (suc j) (suc w) h = omega (arith, pow-suc 2 w, pow-suc 2 j, two-pow-lt j w (omega arith))

-- A `w`-bit word with bit `j` cleared by `& !mask`.
pub bit_at-clear :
    (w a j i : ℕ)
    → j < w
    → i < w
    → bit_at (bit_and a (bit_not w (2 ^ j))) i ≡ (if i == j then 0 else bit_at a i)
bit_at-clear w a j i h p = ground (
  arith,
  bit_at-bit_and a (bit_not w (2 ^ j)) i,
  bit_at-not w (2 ^ j) i (two-pow-lt j w h) p,
  bit_at-two-pow j i,
  bit_at-le-one a i,
)

bit_and-zero_fuel : (n x : ℕ) → x ≤ n → bit_and x 0 ≡ 0
bit_and-zero_fuel n zero h = refl
bit_and-zero_fuel zero (suc x) h = absurd (omega arith)
bit_and-zero_fuel (suc n) (suc x) h =
    omega (arith, bit_and_digit (suc x) 0, bit_and-zero_fuel n (suc x / 2) (omega arith))

bit_or-zero_fuel : (n x : ℕ) → x ≤ n → bit_or x 0 ≡ x
bit_or-zero_fuel n zero h = refl
bit_or-zero_fuel zero (suc x) h = absurd (omega arith)
bit_or-zero_fuel (suc n) (suc x) h =
    omega (arith, bit_or_digit (suc x) 0, bit_or-zero_fuel n (suc x / 2) (omega arith))

-- `x & (1 << j)` is the bit, in its place.
pub bit_and-two-pow : (a j : ℕ) → bit_and a (2 ^ j) ≡ bit_at a j * 2 ^ j
bit_and-two-pow a zero =
    omega (arith, bit_and_digit a 1, bit_and-zero_fuel (a / 2) (a / 2) (omega arith))
bit_and-two-pow a (suc j) =
    grind
      (arith, bit_and_digit a (2 ^ suc j), half-two-pow j, pow-suc 2 j, bit_and-two-pow (a / 2) j)

-- So the test `x & (1 << j) != 0` reads the bit.
pub test_bit : (a j : ℕ) → (bit_and a (2 ^ j) == 0) ≡ (bit_at a j == 0)
test_bit a j = ground (arith, bit_and-two-pow a j, bit_at-le-one a j, one-le-pow j 2)

pub bit_or-lt : (w a b : ℕ) → a < 2 ^ w → b < 2 ^ w → bit_or a b < 2 ^ w
bit_or-lt zero zero zero h k = omega arith
bit_or-lt zero zero (suc b) h k = absurd (omega arith)
bit_or-lt zero (suc a) b h k = absurd (omega arith)
bit_or-lt (suc w) a b h k = omega (
  arith,
  bit_or_digit a b,
  pow-suc 2 w,
  bit_or-lt w (a / 2) (b / 2) (omega (arith, pow-suc 2 w)) (omega (arith, pow-suc 2 w)),
)

pub bit_and-lt : (w a b : ℕ) → a < 2 ^ w → bit_and a b < 2 ^ w
bit_and-lt zero zero b h = omega (arith, bit_and-bitwise 0 b)
bit_and-lt zero (suc a) b h = absurd (omega arith)
bit_and-lt (suc w) a b h = omega (
  arith,
  bit_and_digit a b,
  pow-suc 2 w,
  bit_and-lt w (a / 2) (b / 2) (omega (arith, pow-suc 2 w)),
)

-- `(hi << k) | lo` is a sum when `lo` fits `k` bits.
pub bit_or-fields : (k hi lo : ℕ) → lo < 2 ^ k → bit_or (hi * 2 ^ k) lo ≡ hi * 2 ^ k + lo
bit_or-fields zero hi zero h =
    omega (arith, bit_or-zero_fuel (hi * 2 ^ 0) (hi * 2 ^ 0) (omega arith))
bit_or-fields zero hi (suc lo) h = absurd (omega arith)
bit_or-fields (suc k) hi lo h =
    let twice : hi * 2 ^ suc k ≡ 2 * (hi * 2 ^ k) =
      omega (arith, ap (λ (t : ℕ). hi * t) (pow-suc 2 k)) in
    let halves : hi * 2 ^ suc k / 2 ≡ hi * 2 ^ k = omega arith in
    omega (
      arith,
      bit_or_digit (hi * 2 ^ suc k) lo,
      ap (λ (t : ℕ). bit_or t (lo / 2)) halves,
      bit_or-fields k hi (lo / 2) (omega (arith, pow-suc 2 k)),
    )

bit_xor_digit : (a b : ℕ) → bit_xor a b ≡ bit_xor (a / 2) (b / 2) * 2 + differ (a % 2) (b % 2)
bit_xor_digit zero b = simp bit_xor-bitwise (omega arith)
bit_xor_digit (suc a) b = simp bit_xor-bitwise (bitwise_digit (λ y. y) differ a b)

differ-zero : (r : ℕ) → differ r 0 ≡ r
differ-zero zero = refl
differ-zero (suc r) = refl

bit_xor-zero_fuel : (n x : ℕ) → x ≤ n → bit_xor x 0 ≡ x
bit_xor-zero_fuel n zero h = refl
bit_xor-zero_fuel zero (suc x) h = absurd (omega arith)
bit_xor-zero_fuel (suc n) (suc x) h = omega (
  arith,
  bit_xor_digit (suc x) 0,
  bit_xor-zero_fuel n (suc x / 2) (omega arith),
  differ-zero (suc x % 2),
)

differ-one_cases : (r : ℕ) → r < 2 → differ r 1 + r ≡ 1
differ-one_cases zero h = refl
differ-one_cases (suc zero) h = refl
differ-one_cases (suc (suc r)) h = absurd (omega arith)

-- Toggling the lowest bit of an index gives its sibling.
pub bit_xor-one : (a : ℕ) → bit_xor a 1 ≡ (if a % 2 == 0 then a + 1 else a - 1)
bit_xor-one a = ground (
  arith,
  bit_xor_digit a 1,
  bit_xor-zero_fuel (a / 2) (a / 2) (omega arith),
  differ-one_cases (a % 2) (omega arith),
)

-- How many of the low `w` bits are set.
abbrev pub ones : ℕ → ℕ → ℕ
ones zero a = 0
ones (suc w) a = a % 2 + ones w (a / 2)

pub bit_at-le-ones : (w a i : ℕ) → i < w → bit_at a i ≤ ones w a
bit_at-le-ones zero a i h = elim h [ ]
bit_at-le-ones (suc w) a zero h = omega arith
bit_at-le-ones (suc w) a (suc i) h = omega (arith, bit_at-le-ones w (a / 2) i (omega arith))

pub ones-le : (w a : ℕ) → ones w a ≤ w
ones-le zero a = omega arith
ones-le (suc w) a = omega (arith, ones-le w (a / 2))

ones_eq : (w a b : ℕ) → ((i : ℕ) → i < w → bit_at a i ≡ bit_at b i) → ones w a ≡ ones w b
ones_eq zero a b e = refl
ones_eq (suc w) a b e =
    omega (arith, e 0 (omega arith), ones_eq w (a / 2) (b / 2) (λ i p. e (suc i) (omega arith)))

-- Words that differ in at most bit `j` differ in their counts by that bit.
pub ones_differ :
    (w a b j : ℕ)
    → j < w
    → ((i : ℕ) → i < w → i ≢ j → bit_at a i ≡ bit_at b i)
    → ones w a + bit_at b j ≡ ones w b + bit_at a j
ones_differ zero a b j h same = elim h [ ]
ones_differ (suc w) a b zero h same =
    let rest = ones_eq w (a / 2) (b / 2) (λ i p. same (suc i) (omega arith) (omega arith)) in
    omega arith
ones_differ (suc w) a b (suc j) h same = omega (
  arith,
  same 0 (omega arith) (omega arith),
  ones_differ w (a / 2) (b / 2) j (omega arith) (λ i p n. same (suc i) (omega arith) (omega arith)),
)

bit_and-fields : (k hi lo : ℕ) → lo < 2 ^ k → bit_and (hi * 2 ^ k + lo) (2 ^ k - 1) ≡ lo
bit_and-fields zero hi zero h =
    omega (arith, bit_and-zero_fuel (hi * 2 ^ 0 + 0) (hi * 2 ^ 0 + 0) (omega arith))
bit_and-fields zero hi (suc lo) h = absurd (omega arith)
bit_and-fields (suc k) hi lo h =
    let twice : hi * 2 ^ suc k ≡ 2 * (hi * 2 ^ k) =
      omega (arith, ap (λ (t : ℕ). hi * t) (pow-suc 2 k)) in
    let low : (2 ^ suc k - 1) / 2 ≡ 2 ^ k - 1 = omega (arith, pow-suc 2 k, one-le-pow k 2) in
    let high : (hi * 2 ^ suc k + lo) / 2 ≡ hi * 2 ^ k + lo / 2 = omega arith in
    omega (
      arith,
      bit_and_digit (hi * 2 ^ suc k + lo) (2 ^ suc k - 1),
      ap₂ bit_and high low,
      pow-suc 2 k,
      one-le-pow k 2,
      bit_and-fields k hi (lo / 2) (omega (arith, pow-suc 2 k)),
    )

-- `x & (2^k - 1)` is the remainder.
pub bit_and-low : (k a : ℕ) → bit_and a (2 ^ k - 1) ≡ a % 2 ^ k
bit_and-low k a =
    let split : a / 2 ^ k * 2 ^ k + a % 2 ^ k ≡ a = grind (arith, one-le-pow k 2) in
    ap (λ (t : ℕ). bit_and t (2 ^ k - 1)) (sym split)
    ∙ bit_and-fields k (a / 2 ^ k) (a % 2 ^ k) (grind (arith, one-le-pow k 2))

mod_halves : (n p : ℕ) → 1 ≤ p → n % (2 * p) ≡ n / 2 % p * 2 + n % 2
mod_halves n p h =
    let r = n / 2 % p in
    let q = n / 2 / p in
    let below : r < p = mod-lt (n / 2) h in
    let parts : n ≡ r * 2 + n % 2 + q * (2 * p) = grind (arith, mod-add-div (n / 2) p) in
    ap (λ (x : ℕ). x % (2 * p)) parts
    ∙ add-mul-mod_self_right (r * 2 + n % 2) q (2 * p)
    ∙ mod-eq_of_lt (omega (arith, below))

pub bit_and-ones : (k n : ℕ) → bit_and n (2 ^ k - 1) ≡ n % 2 ^ k
bit_and-ones zero n = omega (arith, bit_and-zero_fuel n n)
bit_and-ones (suc k) n =
    let one = one-le-pow k 2 (omega arith) in
    let half : (2 ^ suc k - 1) / 2 ≡ 2 ^ k - 1 = omega (arith, pow-suc 2 k, one) in
    let odd : (2 ^ suc k - 1) % 2 ≡ 1 = omega (arith, pow-suc 2 k, one) in
    let whole : 2 ^ suc k ≡ 2 * 2 ^ k = omega (arith, pow-suc 2 k) in
    omega (
      arith,
      bit_and_digit n (2 ^ suc k - 1),
      ap (bit_and (n / 2)) half,
      bit_and-ones k (n / 2),
      odd,
      mod_halves n (2 ^ k) one,
      ap (λ (x : ℕ). n % x) whole,
    )
