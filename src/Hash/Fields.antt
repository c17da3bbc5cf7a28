-- ===== src/Hash/Fields.antt =====
-- The big-endian fields that end a padded message.
use vecti_license.Base.{
  ℕ, zero, suc, ◌/◌, ◌^◌, ◌≡◌, refl, arith, length, length-append, bit_and, [], ◌∷◌,
}
use vecti_license.Hash.{length_field}

pub length-length_field : (n v : ℕ) → length (length_field n v) ≡ n
unfolding length_field
length-length_field zero v = refl
length-length_field (suc n) v = omega (
  arith,
  length-append (length_field n (v / 2 ^ 8)) (bit_and v 0xff ∷ []),
  length-length_field n (v / 2 ^ 8),
)
