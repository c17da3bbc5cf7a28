-- ===== src/Util/Equal.antt =====
-- core/vl_util.c: the constant-time compare decides equality.
use vecti_license.Base.{ℕ, zero, suc, ◌+◌, ◌-◌, ◌/◌, ◌%◌, ◌^◌, ◌<◌, ◌≤◌, ◌≢◌, ◌↔◌, bit_or, bit_xor}
use vecti_license.Base.{◌≡◌, refl, ap₂, arith, some, List, [], ◌∷◌, length, take, All}
use vecti_license.Base.{bit_and}
use vecti_license.Base.Bits.{
  bit_and_mask, bit_or-lt, bit_xor-lt, bit_or-eq-zero, bit_xor-eq-zero, bit_xor_self,
}
use vecti_license.Base.Digits.{Below}
use vecti_license.Util.{diff_loop, ct_eq}
use native.Mathlib.Decide.{ℕ_discrete}
use vecti_license.Base.{if◌then◌else◌, ◌==◌}
use vecti_license.Base.{cons_injective}

-- A round of the loop keeps a uint8_t, and adds a difference.
abbrev mixed : ℕ → ℕ → ℕ → ℕ
mixed d x y = bit_or d (bit_xor x y % 2 ^ 8) % 2 ^ 8

mixed_plain : (d x y : ℕ) → d < 256 → x < 256 → y < 256 → mixed d x y ≡ bit_or d (bit_xor x y)
mixed_plain d x y hd hx hy =
    let small : bit_xor x y < 256 = bit_xor-lt 8 x y hx hy in
    let same : bit_xor x y % 2 ^ 8 ≡ bit_xor x y = omega arith in
    rw same (omega (arith, bit_or-lt 8 d (bit_xor x y) hd small))

mixed-lt : (d x y : ℕ) → mixed d x y < 256
mixed-lt d x y = omega arith

mixed-eq-zero : (d x y : ℕ) → d < 256 → x < 256 → y < 256 → (mixed d x y ≡ 0) ↔ ((d ≡ 0) × (x ≡ y))
mixed-eq-zero d x y hd hx hy = (forth, back)
  where
    forth : mixed d x y ≡ 0 → (d ≡ 0) × (x ≡ y)
    forth e =
        let (p, q) =
          bit_or-eq-zero 8 d (bit_xor x y) hd (bit_xor-lt 8 x y hx hy)
            (rw (mixed_plain d x y hd hx hy) at e) in
        (p, bit_xor-eq-zero 8 x y hx hy q)

    back : (d ≡ 0) × (x ≡ y) → mixed d x y ≡ 0
    back (p, q) = rw (p, q, bit_xor_self 8 y hy) refl

-- The loop ends at zero exactly if it began there and the bytes agree.
diff_loop_lem :
    (n : ℕ) (pa pb : List ℕ) (d : ℕ)
    → d < 256
    → n ≤ length pa
    → n ≤ length pb
    → All (Below 256) pa
    → All (Below 256) pb
    → (diff_loop n pa pb d < 256)
      × ((diff_loop n pa pb d ≡ 0) ↔ ((d ≡ 0) × (take n pa ≡ take n pb)))
unfolding diff_loop
diff_loop_lem zero pa pb d hd ha hb ba bb = (hd, (λ e. (e, refl), λ p. p.0))
diff_loop_lem (suc n) [] pb d hd ha hb ba bb = absurd (omega arith)
diff_loop_lem (suc n) (x ∷ pa) [] d hd ha hb ba bb = absurd (omega arith)
diff_loop_lem (suc n) (x ∷ pa) (y ∷ pb) d hd ha hb ba bb =
    let (small, (forth, back)) =
      diff_loop_lem n pa pb (mixed d x y) (mixed-lt d x y) (omega arith) (omega arith) ba.1 bb.1 in
    let (split, join) = mixed-eq-zero d x y hd ba.0 bb.0 in
    (
      small,
      (
        (λ e. let (now, rest) = forth e in let (was, same) = split now in (was, ap₂ ◌∷◌ same rest)),
        (λ p. let (head, rest) = cons_injective p.1 in back (join (p.0, head), rest)),
      ),
    )

-- `(((uint32_t)diff - 1u) >> 8) & 1u` is 1 at 0 and 0 at the other bytes.
is_zero_bit :
    (d : ℕ) → d < 256 → bit_and ((d + 2 ^ 32 - 1) % 2 ^ 32 / 2 ^ 8) 1 ≡ (if d == 0 then 1 else 0)
is_zero_bit d h =
    rw (bit_and_mask 1 32 ((d + 2 ^ 32 - 1) % 2 ^ 32 / 2 ^ 8) (omega arith)) (ground arith)

-- For bytes, of which both pointers have at least `len`, the compare answers 1 if and only if `len`
-- is not 0 and the first `len` bytes agree; in every other case it answers 0.
pub ct_eq_decides :
    (pa pb : List ℕ) (len : ℕ)
    → All (Below 256) pa
    → All (Below 256) pb
    → len ≤ length pa
    → len ≤ length pb
    → ((ct_eq (some pa) (some pb) len ≡ 1) ↔ ((0 < len) × (take len pa ≡ take len pb)))
      × (ct_eq (some pa) (some pb) len ≢ 1 → ct_eq (some pa) (some pb) len ≡ 0)
unfolding ct_eq
ct_eq_decides pa pb len ba bb ha hb =
    let (small, (forth, back)) = diff_loop_lem len pa pb 0 (omega arith) ha hb ba bb in
    rw (is_zero_bit (diff_loop len pa pb 0) small) (elim (ℕ_discrete len 0) [
      | yes empty ↦ rw empty ((ground arith, ground arith), ground arith)
      | no many ↦ elim (ℕ_discrete (diff_loop len pa pb 0) 0) [
        | yes same ↦ ((λ _. (omega arith, (forth same).1), λ _. ground arith), ground arith)
        | no apart ↦
            ((λ e. absurd (ground arith), λ p. absurd (apart (back (refl, p.1)))), ground arith)
      ]
    ])
