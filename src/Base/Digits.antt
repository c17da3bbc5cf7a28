-- ===== src/Base/Digits.antt =====
-- Numbers written in a base, most significant digit first.
use Prim.Native.Nat.{ℕ, suc, ◌+◌, ◌*◌, ◌<◌}
use mathlib.Core.Path.{◌≡◌, refl, ap, ap₂}
use mathlib.Core.List.{List, [], ◌∷◌, ◌++◌}
use native.Mathlib.Nat.{mul-le-mul_right}
use native.Mathlib.Decide.{dec_lt}
use native.Mathlib.Omega.{arith}
use vecti_license.Base.Lists.{length, All}

abbrev pub Below : ℕ → ℕ → Type 0
Below base d = d < base

-- The number that the digits continue, `acc` being what stands before them.
abbrev pub number_from : ℕ → ℕ → List ℕ → ℕ
number_from base acc [] = acc
number_from base acc (d ∷ ds) = number_from base (acc * base + d) ds

abbrev pub number : ℕ → List ℕ → ℕ
number base ds = number_from base 0 ds

module _ (base : ℕ) where
  number_from-append :
      (acc : ℕ) (xs ys : List ℕ)
      → number_from base acc (xs ++ ys) ≡ number_from base (number_from base acc xs) ys
  number_from-append acc [] ys = refl
  number_from-append acc (x ∷ xs) ys = number_from-append (acc * base + x) xs ys

  pub number-snoc : (xs : List ℕ) (d : ℕ) → number base (xs ++ d ∷ []) ≡ number base xs * base + d
  number-snoc xs d = number_from-append 0 xs (d ∷ [])

  pub split_digit :
      (a b x y : ℕ) → x < base → y < base → a * base + x ≡ b * base + y → (a ≡ b) × (x ≡ y)
  split_digit a b x y hx hy e = elim (dec_lt a b) [
    | yes less ↦ absurd (omega (arith, mul-le-mul_right {m = suc a} {n = b} base less))
    | no more ↦ elim (dec_lt b a) [
      | yes less ↦ absurd (omega (arith, mul-le-mul_right {m = suc b} {n = a} base less))
      | no less ↦ same (omega arith) e
    ]
  ]
    where
      same : a ≡ b → a * base + x ≡ b * base + y → (a ≡ b) × (x ≡ y)
      same p e = (p, omega (arith, ap (λ (t : ℕ). t * base) p))

  number_from-injective :
      (a b : ℕ) (xs ys : List ℕ)
      → All (Below base) xs
      → All (Below base) ys
      → length xs ≡ length ys
      → number_from base a xs ≡ number_from base b ys
      → (a ≡ b) × (xs ≡ ys)
  number_from-injective a b [] [] h k l e = (e, refl)
  number_from-injective a b [] (y ∷ ys) h k l e = absurd (omega arith)
  number_from-injective a b (x ∷ xs) [] h k l e = absurd (omega arith)
  number_from-injective a b (x ∷ xs) (y ∷ ys) h k l e =
      let (p, q) =
        number_from-injective (a * base + x) (b * base + y) xs ys h.1 k.1 (omega arith) e in
      let (r, s) = split_digit a b x y h.0 k.0 p in (r, ap₂ ◌∷◌ s q)

  -- Digit strings of one length that write the same number are the same.
  pub number-injective :
      (xs ys : List ℕ)
      → All (Below base) xs
      → All (Below base) ys
      → length xs ≡ length ys
      → number base xs ≡ number base ys
      → xs ≡ ys
  number-injective xs ys h k l e = (number_from-injective 0 0 xs ys h k l e).1
