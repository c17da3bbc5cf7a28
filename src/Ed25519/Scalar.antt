-- ===== src/Ed25519/Scalar.antt =====
-- core/vl_ed25519.c: the scalars that scalar_is_reduced accepts.
use vecti_license.Base.{
  ℕ, zero, suc, ◌+◌, ◌*◌, ◌^◌, ◌<◌, ◌≤◌, ◌≡◌, arith, ltb, ap, true, false, Bool-cases, inl, inr,
}
use vecti_license.Base.{List, [], ◌∷◌, get_or, All}
use vecti_license.Base.Digits.{Below}
use vecti_license.Ed25519.{order, scalar_loop}
use native.Mathlib.Nat.{mul-le-mul_right, pow-suc}

-- The number that the first `n` bytes spell, least significant first
unfoldable pub le_value : List ℕ → ℕ → ℕ
le_value s zero = 0
le_value s (suc n) = le_value s n + get_or s n 0 * 256 ^ n

get_or-Below : (s : List ℕ) (i : ℕ) → All (Below 256) s → get_or s i 0 < 256
get_or-Below [] i h = omega arith
get_or-Below (x ∷ s) zero h = h.0
get_or-Below (x ∷ s) (suc i) h = get_or-Below s i h.1

le_value-lt : (s : List ℕ) (n : ℕ) → All (Below 256) s → le_value s n < 256 ^ n
unfolding le_value
le_value-lt s zero h = omega arith
le_value-lt s (suc n) h = omega (
  arith,
  le_value-lt s n h,
  mul-le-mul_right (256 ^ n) (top (get_or s n 0) (get_or-Below s n h)),
  pow-suc 256 n,
)
  where
    top : (d : ℕ) → d < 256 → d ≤ 255
    top d k = omega arith

digit_decides : (x y p r q : ℕ) → r < p → x < y → r + x * p < q + y * p
digit_decides x y p r q h k = omega (arith, mul-le-mul_right p (next x y k), one_more x p)
  where
    next : (x y : ℕ) → x < y → x + 1 ≤ y
    next x y h = omega arith

    one_more : (x p : ℕ) → (x + 1) * p ≡ x * p + p
    one_more x p = omega arith

pub scalar_loop-true :
    (s : List ℕ) (n : ℕ)
    → All (Below 256) s
    → scalar_loop s n ≡ true
    → le_value s n < le_value order n
unfolding scalar_loop le_value
scalar_loop-true s zero h run = cc
scalar_loop-true s (suc n) h run = elim (Bool-cases (ltb (get_or s n 0) (get_or order n 0))) [
  | inl below ↦ digit_decides _ _ (256 ^ n) _ _ (le_value-lt s n h) (ground arith)
  | inr above ↦ elim (Bool-cases (ltb (get_or order n 0) (get_or s n 0))) [
    | inl past ↦ absurd (clash (rw (above, past) at run))
    | inr same ↦
        let e : get_or s n 0 ≡ get_or order n 0 = ground arith in
        let rest = scalar_loop-true s n h (rw (above, same) at run) in
        omega (arith, rest, ap (λ d. d * 256 ^ n) e)
  ]
]
  where
    clash : false ≡ true → ⊥
    clash e = cc
