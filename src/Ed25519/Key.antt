-- ===== src/Ed25519/Key.antt =====
-- core/vl_ed25519.c: the keys that unpackneg accepts.
use vecti_license.Base.{ℕ, zero, suc, ◌<◌, ◌≤◌, ◌≡◌, ◌≢◌, arith, ◌==◌, ◌!=◌, ap, ◌∙◌, Bool-cases}
use vecti_license.Base.{inl, inr, none, some, Option, List, [], ◌∷◌, take, set}
use vecti_license.Base.{length, length-set, All, take_all}
use vecti_license.Base.{sym}
use native.Mathlib.Decide.{ℕ_discrete}
use vecti_license.Base.Digits.{Below}
use vecti_license.Util.{ct_eq}
use vecti_license.Util.Equal.{ct_eq_decides}
use vecti_license.Ed25519.{
  Curve, identity, with_sign, eight_times, is_low_order, unless_low, unpackneg,
}

abbrev pub IsKeyBytes : List ℕ → Type 0
IsKeyBytes bs = (length bs ≡ 32) × All (Below 256) bs

-- What the copied code writes into its arrays of 32 bytes
pub record PacksBytes (curve : Curve) : Type 0 where
  pub packed : (p : curve.Point) → IsKeyBytes (curve.pack p)
  pub coordinate : (pk : List ℕ) → IsKeyBytes (curve.canonical_y pk)

-- The key is the canonical spelling of a point on the curve, and 8 times the point is not zero.
pub record IsStrongKey (curve : Curve) (pk : List ℕ) (a : curve.Point) : Type 0 where
  pub recovers : curve.recover pk ≡ some a
  pub is_canonical : with_sign (curve.canonical_y pk) pk ≡ pk
  pub large_order : curve.pack (eight_times curve a) ≢ identity

pub ct_eq-ne-zero :
    (xs ys : List ℕ)
    → All (Below 256) xs
    → All (Below 256) ys
    → 32 ≤ length xs
    → 32 ≤ length ys
    → ct_eq (some xs) (some ys) 32 ≢ 0
    → take 32 xs ≡ take 32 ys
ct_eq-ne-zero xs ys hx hy lx ly ne =
    let (same, other) = ct_eq_decides xs ys 32 hx hy lx ly in
    elim (ℕ_discrete (ct_eq (some xs) (some ys) 32) 1) [
      | yes one ↦ (same.0 one).1
      | no apart ↦ absurd (ne (other apart))
    ]

ct_eq-zero :
    (xs ys : List ℕ)
    → All (Below 256) xs
    → All (Below 256) ys
    → 32 ≤ length xs
    → 32 ≤ length ys
    → ct_eq (some xs) (some ys) 32 ≡ 0
    → take 32 xs ≢ take 32 ys
ct_eq-zero xs ys hx hy lx ly e same =
    let one = (ct_eq_decides xs ys 32 hx hy lx ly).0.1 (omega arith, same) in absurd (omega arith)

All-set : (xs : List ℕ) (i v : ℕ) → All (Below 256) xs → v < 256 → All (Below 256) (set xs i v)
All-set [] i v h k = tt
All-set (x ∷ xs) zero v h k = (k, h.1)
All-set (x ∷ xs) (suc i) v h k = (h.0, All-set xs i v h.1 k)

module _ (curve : Curve) where
  unless_low-some :
      (o : Option curve.Point) (a : curve.Point)
      → unless_low curve o ≡ some a
      → (o ≡ some a) × (is_low_order curve a ≡ 0)
  unfolding unless_low
  unless_low-some none a h = cc
  unless_low-some (some r) a h = elim (Bool-cases (is_low_order curve r != 0)) [
    | inl low ↦ let e : none ≡ some a = rw low at h in cc
    | inr strong ↦
        let e : some r ≡ some a = rw strong at h in
        let same : r ≡ a = cc in
        let zero_low : is_low_order curve r ≡ 0 = ground arith in
        (ap some same, rw same at zero_low)
  ]

  pub unpackneg-IsStrongKey :
      (pk : List ℕ) (a : curve.Point)
      → PacksBytes curve
      → IsKeyBytes pk
      → unpackneg curve pk ≡ some a
      → IsStrongKey curve pk a
  unfolding unpackneg is_low_order
  unpackneg-IsStrongKey pk a laws key h =
      let canon = curve.canonical_y pk in
      let spelt = with_sign canon pk in
      let long : length spelt ≡ 32 = length-set canon 31 _ ∙ (laws.coordinate pk).0 in
      let bytes : All (Below 256) spelt = All-set canon 31 _ (laws.coordinate pk).1 (omega arith) in
      elim (Bool-cases (ct_eq (some spelt) (some pk) 32 == 0)) [
        | inl differs ↦ let e : none ≡ some a = rw differs at h in cc
        | inr agrees ↦
            let same : ct_eq (some spelt) (some pk) 32 ≢ 0 = ground arith in
            let (found, strong) = unless_low-some (curve.recover pk) a (rw agrees at h) in
            let packed = laws.packed (eight_times curve a) in
            record {
              recovers = found;
              is_canonical =
                  sym (take_all 32 spelt (omega (arith, long)))
                  ∙ ct_eq-ne-zero spelt pk bytes key.1 (omega (arith, long)) (omega (arith, key.0))
                      same
                  ∙ take_all 32 pk (omega (arith, key.0));
              large_order = λ e.
                  ct_eq-zero (curve.pack (eight_times curve a)) identity packed.1 (omega arith)
                    (omega (arith, packed.0)) (omega arith) strong (ap (take 32) e);
            }
      ]
