-- ===== src/Ed25519/Tests.antt =====
-- core/vl_ed25519.c: the theorem at a concrete input, over stand-in curve operations.
use vecti_license.Base.{
  ℕ, ◌+◌, ◌<◌, ◌≡◌, ◌≢◌, refl, arith, some, [], ◌∷◌, replicate, take, drop, true, false,
}
use vecti_license.Hash.{Ctx, Words}
use vecti_license.Util.{ct_eq, diff_loop}
use vecti_license.Sha512.{initial}
use vecti_license.Ed25519.{
  order, scalar_loop, Curve, equation, ed25519_verify, unpackneg, unless_low, is_low_order,
}
use vecti_license.Ed25519.Key.{PacksBytes, IsStrongKey}
use vecti_license.Ed25519.Scalar.{le_value}
use vecti_license.Ed25519.Verify.{ed25519_verify_sound}

-- A point is a number, and every point packs to 32 zero bytes.
abbrev stand_in : Curve
stand_in = record {
  Point = ℕ;
  canonical_y = λ pk. replicate 32 5;
  recover = λ pk. some 7;
  reduce = λ h. take 32 h;
  scalarmult = λ p h. p;
  scalarbase = λ s. 1;
  add_points = λ p q. p + q;
  pack = λ p. replicate 32 0;
}

abbrev stack : Ctx Words
stack = record { state = initial; count = 9; buffer = replicate 128 0xaa; buffer_len = 3 }

-- The order itself is no scalar, and its predecessor is one.
order_refused : scalar_loop order 32 ≡ false
unfolding scalar_loop
order_refused = refl

predecessor_accepted : scalar_loop (0xec ∷ drop 1 order) 32 ≡ true
unfolding scalar_loop
predecessor_accepted = refl

zero_accepted :
    ed25519_verify stand_in stack
      (replicate 64 0)
      (some (replicate 64 0))
      (some (1 ∷ []))
      (some (replicate 32 5))
    ≢ 0
unfolding ed25519_verify scalar_loop equation ct_eq diff_loop unpackneg unless_low is_low_order
zero_accepted = omega arith

stand_in-PacksBytes : PacksBytes stand_in
stand_in-PacksBytes = record { packed = λ p. omega arith; coordinate = λ pk. omega arith }

ed25519_verify_sound_example :
    (le_value (replicate 32 0) 32 < le_value order 32)
    × (a : ℕ) × IsStrongKey stand_in (replicate 32 5) a
    × (replicate 32 0 ≡ replicate {A = ℕ} 32 0)
ed25519_verify_sound_example =
    ed25519_verify_sound stand_in stack (replicate 64 0) (replicate 64 0) (1 ∷ []) (replicate 32 5)
      stand_in-PacksBytes refl refl (omega arith) (omega arith) zero_accepted
