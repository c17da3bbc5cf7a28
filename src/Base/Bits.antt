-- ===== src/Base/Bits.antt =====
-- The bit operations at variables: one equation for the lowest digit, then `|` of disjoint fields,
-- the mask of low bits, and the two facts by which a comparison by `^` and `|` is read.
use Prim.Native.Nat.{ℕ, zero, suc, ◌+◌, ◌-◌, ◌*◌, ◌/◌, ◌%◌, ◌^◌, ◌≤◌, ◌<◌, min, max}
use Prim.Native.Nat.{bit_and, bit_or, bit_xor, digits, bitwise, differ}
use Prim.Native.Nat.{bit_and-bitwise, bit_or-bitwise, bit_xor-bitwise}
use mathlib.Core.Path.{◌≡◌, refl, ap}
use native.Mathlib.Nat.{pow-suc, one-le-pow, div-add-mod'}
use native.Mathlib.Omega.{arith}

-- A bit operation is the library's recursion on the digits, whose fuel does not matter once it covers
-- the number: so it is one on the halves, and one on the lowest digits.
module _ (empty : ℕ → ℕ) (digit : ℕ → ℕ → ℕ) where
  unfuel : (x y p q : ℕ) → x ≤ p → x ≤ q → digits empty digit p x y ≡ digits empty digit q x y
  unfuel zero y (suc p) (suc q) h k = refl
  unfuel zero y (suc p) zero h k = refl
  unfuel zero y zero (suc q) h k = refl
  unfuel zero y zero zero h k = refl
  unfuel (suc x) y (suc p) (suc q) h k =
      rw (unfuel (suc x / 2) (y / 2) p q (omega arith) (omega arith))
  unfuel (suc x) y (suc p) zero h k = absurd (omega (arith, k))
  unfuel (suc x) y zero q h k = absurd (omega (arith, h))

  module _ (op : ℕ → ℕ → ℕ) (means : (x y : ℕ) → op x y ≡ bitwise empty digit x y) where
    at_zero : (y : ℕ) → op zero y ≡ empty y
    at_zero y = means zero y

    on_halves : (x y : ℕ) → op (suc x) y ≡ op (suc x / 2) (y / 2) * 2 + digit (suc x % 2) (y % 2)
    on_halves x y =
        let h = suc x / 2 in
        let same : digits empty digit x h (y / 2) ≡ digits empty digit h h (y / 2) =
          unfuel h (y / 2) x h (omega arith) (omega arith) in
        omega (arith, means (suc x) y, means h (y / 2), same)

pub bit_xor_lowest : (x y : ℕ) → bit_xor x y ≡ bit_xor (x / 2) (y / 2) * 2 + differ (x % 2) (y % 2)
bit_xor_lowest zero y =
    let none_left = at_zero (λ t. t) differ bit_xor bit_xor-bitwise in
    omega (arith, none_left y, none_left (y / 2))
bit_xor_lowest (suc x) y = on_halves (λ t. t) differ bit_xor bit_xor-bitwise x y

pub bit_and_lowest : (x y : ℕ) → bit_and x y ≡ bit_and (x / 2) (y / 2) * 2 + min (x % 2) (y % 2)
bit_and_lowest zero y =
    let none_left = at_zero (λ t. 0) min bit_and bit_and-bitwise in
    omega (arith, none_left y, none_left (y / 2))
bit_and_lowest (suc x) y = on_halves (λ t. 0) min bit_and bit_and-bitwise x y

pub bit_or_lowest : (x y : ℕ) → bit_or x y ≡ bit_or (x / 2) (y / 2) * 2 + max (x % 2) (y % 2)
bit_or_lowest zero y =
    let none_left = at_zero (λ t. t) max bit_or bit_or-bitwise in
    omega (arith, none_left y, none_left (y / 2))
bit_or_lowest (suc x) y = on_halves (λ t. t) max bit_or bit_or-bitwise x y

double : (q k : ℕ) → q * 2 ^ suc k ≡ 2 * (q * 2 ^ k)
double q k = omega (arith, ap (λ (t : ℕ). q * t) (pow-suc 2 k))

bit_or-zero : (k a : ℕ) → a < 2 ^ k → bit_or a 0 ≡ a
bit_or-zero zero a h = rw (zero_of_lt_one a h) refl
  where
    zero_of_lt_one : (a : ℕ) → a < 2 ^ 0 → a ≡ 0
    zero_of_lt_one a h = omega arith
bit_or-zero (suc k) a h =
    omega
      (arith, bit_or_lowest a 0, pow-suc 2 k, bit_or-zero k (a / 2) (omega (arith, pow-suc 2 k)))

-- `(q << k) | r` is a sum where `r` fits in `k` bits and the rest in `w`.
pub bit_or_fields : (k w q r : ℕ) → q < 2 ^ w → r < 2 ^ k → bit_or (q * 2 ^ k) r ≡ q * 2 ^ k + r
bit_or_fields zero w q r hq hr = ground (arith, bit_or-zero w q)
bit_or_fields (suc k) w q r hq hr =
    ground
      (arith, bit_or_lowest (q * 2 ^ suc k) r, double q k, pow-suc 2 k, bit_or_fields k w q (r / 2))

bit_and-zero : (k a : ℕ) → a < 2 ^ k → bit_and a 0 ≡ 0
bit_and-zero zero a h = rw (zero_of_lt_one a h) refl
  where
    zero_of_lt_one : (a : ℕ) → a < 2 ^ 0 → a ≡ 0
    zero_of_lt_one a h = omega arith
bit_and-zero (suc k) a h =
    omega
      (arith, bit_and_lowest a 0, pow-suc 2 k, bit_and-zero k (a / 2) (omega (arith, pow-suc 2 k)))

bit_and_fields :
    (k w q r : ℕ) → q * 2 ^ k + r < 2 ^ w → r < 2 ^ k → bit_and (q * 2 ^ k + r) (2 ^ k - 1) ≡ r
bit_and_fields zero w q r hq hr = omega (arith, bit_and-zero w (q * 1 + r) hq)
bit_and_fields (suc k) w q r hq hr = ground (
  arith,
  bit_and_lowest (q * 2 ^ suc k + r) (2 ^ suc k - 1),
  double q k,
  pow-suc 2 k,
  one-le-pow k 2,
  bit_and_fields k w q (r / 2),
)

-- A mask of `k` low bits is the remainder by `2 ^ k`.
pub bit_and_mask : (k w a : ℕ) → a < 2 ^ w → bit_and a (2 ^ k - 1) ≡ a % 2 ^ k
bit_and_mask k w a h =
    ground
      (arith, one-le-pow k 2, div-add-mod' a (2 ^ k), bit_and_fields k w (a / 2 ^ k) (a % 2 ^ k))

pub bit_or-lt : (k a b : ℕ) → a < 2 ^ k → b < 2 ^ k → bit_or a b < 2 ^ k
bit_or-lt zero zero zero p q = omega arith
bit_or-lt zero zero (suc b) p q = absurd (omega arith)
bit_or-lt zero (suc a) b p q = absurd (omega arith)
bit_or-lt (suc k) a b p q = omega (
  arith,
  bit_or_lowest a b,
  pow-suc 2 k,
  bit_or-lt k (a / 2) (b / 2) (omega (arith, pow-suc 2 k)) (omega (arith, pow-suc 2 k)),
)

differ-lt : (x y : ℕ) → x < 2 → y < 2 → differ x y < 2
differ-lt zero y h k = k
differ-lt (suc x) zero h k = h
differ-lt (suc zero) (suc y) h k = omega arith
differ-lt (suc (suc x)) (suc y) h k = absurd (omega arith)

differ_self : (x : ℕ) → differ x x ≡ 0
differ_self zero = refl
differ_self (suc x) = differ_self x

differ-eq-zero : (x y : ℕ) → x < 2 → y < 2 → differ x y ≡ 0 → x ≡ y
differ-eq-zero zero y h k e = omega arith
differ-eq-zero (suc x) zero h k e = omega arith
differ-eq-zero (suc x) (suc y) h k e = omega arith

pub bit_xor-lt : (k a b : ℕ) → a < 2 ^ k → b < 2 ^ k → bit_xor a b < 2 ^ k
bit_xor-lt zero zero zero p q = omega arith
bit_xor-lt zero zero (suc b) p q = absurd (omega arith)
bit_xor-lt zero (suc a) b p q = absurd (omega arith)
bit_xor-lt (suc k) a b p q = omega (
  arith,
  bit_xor_lowest a b,
  pow-suc 2 k,
  differ-lt (a % 2) (b % 2) (omega arith) (omega arith),
  bit_xor-lt k (a / 2) (b / 2) (omega (arith, pow-suc 2 k)) (omega (arith, pow-suc 2 k)),
)

pub bit_xor_self : (k a : ℕ) → a < 2 ^ k → bit_xor a a ≡ 0
bit_xor_self zero zero p = refl
bit_xor_self zero (suc a) p = absurd (omega arith)
bit_xor_self (suc k) a p = omega (
  arith,
  bit_xor_lowest a a,
  differ_self (a % 2),
  bit_xor_self k (a / 2) (omega (arith, pow-suc 2 k)),
)

pub bit_xor-eq-zero : (k a b : ℕ) → a < 2 ^ k → b < 2 ^ k → bit_xor a b ≡ 0 → a ≡ b
bit_xor-eq-zero zero a b p q e = omega arith
bit_xor-eq-zero (suc k) a b p q e = omega (
  arith,
  bit_xor_lowest a b,
  differ-eq-zero (a % 2) (b % 2) (omega arith) (omega arith) (omega (arith, bit_xor_lowest a b)),
  bit_xor-eq-zero k (a / 2) (b / 2) (omega (arith, pow-suc 2 k)) (omega (arith, pow-suc 2 k))
      (omega (arith, bit_xor_lowest a b)),
)

pub bit_or-eq-zero : (k a b : ℕ) → a < 2 ^ k → b < 2 ^ k → bit_or a b ≡ 0 → (a ≡ 0) × (b ≡ 0)
bit_or-eq-zero zero a b p q e = omega arith
bit_or-eq-zero (suc k) a b p q e =
    let (x, y) =
      bit_or-eq-zero k (a / 2) (b / 2) (omega (arith, pow-suc 2 k)) (omega (arith, pow-suc 2 k))
        (omega (arith, bit_or_lowest a b)) in
    omega (arith, bit_or_lowest a b)

pub bit_or_comm : (k a b : ℕ) → a < 2 ^ k → b < 2 ^ k → bit_or a b ≡ bit_or b a
bit_or_comm zero zero zero p q = refl
bit_or_comm zero zero (suc b) p q = absurd (omega arith)
bit_or_comm zero (suc a) b p q = absurd (omega arith)
bit_or_comm (suc k) a b p q = omega (
  arith,
  bit_or_lowest a b,
  bit_or_lowest b a,
  bit_or_comm k (a / 2) (b / 2) (omega (arith, pow-suc 2 k)) (omega (arith, pow-suc 2 k)),
)

pub bit_and-le : (k a b : ℕ) → a < 2 ^ k → b < 2 ^ k → bit_and a b ≤ a
bit_and-le zero zero zero p q = omega arith
bit_and-le zero zero (suc b) p q = absurd (omega arith)
bit_and-le zero (suc a) b p q = absurd (omega arith)
bit_and-le (suc k) a b p q = omega (
  arith,
  bit_and_lowest a b,
  bit_and-le k (a / 2) (b / 2) (omega (arith, pow-suc 2 k)) (omega (arith, pow-suc 2 k)),
)

-- A conjunction has all its `k` bits set only if both sides have.
pub bit_and-eq-ones :
    (k a b : ℕ)
    → a < 2 ^ k
    → b < 2 ^ k
    → bit_and a b ≡ 2 ^ k - 1
    → (a ≡ 2 ^ k - 1) × (b ≡ 2 ^ k - 1)
bit_and-eq-ones zero a b p q e = omega arith
bit_and-eq-ones (suc k) a b p q e =
    let top =
      bit_and-le k (a / 2) (b / 2) (omega (arith, pow-suc 2 k)) (omega (arith, pow-suc 2 k)) in
    let (x, y) =
      bit_and-eq-ones k (a / 2) (b / 2) (omega (arith, pow-suc 2 k)) (omega (arith, pow-suc 2 k))
        (omega (arith, bit_and_lowest a b, pow-suc 2 k, one-le-pow k 2)) in
    omega (arith, bit_and_lowest a b, pow-suc 2 k, one-le-pow k 2)

pub bit_and_self : (k a : ℕ) → a < 2 ^ k → bit_and a a ≡ a
bit_and_self zero zero p = refl
bit_and_self zero (suc a) p = absurd (omega arith)
bit_and_self (suc k) a p =
    omega (arith, bit_and_lowest a a, bit_and_self k (a / 2) (omega (arith, pow-suc 2 k)))
