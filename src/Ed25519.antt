-- ===== src/Ed25519.antt =====
-- core/vl_ed25519.c: vl_ed25519_verify and the test of its scalar, over the curve operations of
-- TweetNaCl that the same file holds a copy of.
pub mod Scalar
pub mod Key
pub mod Verify
mod Tests
use vecti_license.Base.{
  ℕ, zero, suc, ltb, ◌==◌, if◌then◌else◌, Bool, true, false, Option, none, some,
}
use vecti_license.Base.{
  List, [], ◌∷◌, take, drop, get_or, set, replicate, ◌^◌, ◌%◌, ◌!=◌, bit_and, bit_or,
}
use vecti_license.Util.{ct_eq}
use vecti_license.Hash.{Ctx, Words}
use vecti_license.Sha512.{sha512_init, sha512_update, sha512_final}

-- L, the order of the group, least significant byte first
abbrev pub order : List ℕ
order =
    0xed ∷ 0xd3 ∷ 0xf5 ∷ 0x5c ∷ 0x1a ∷ 0x63 ∷ 0x12 ∷ 0x58 ∷ 0xd6 ∷ 0x9c ∷ 0xf7 ∷ 0xa2 ∷ 0xde ∷ 0xf9
    ∷ 0xde ∷ 0x14 ∷ 0 ∷ 0 ∷ 0 ∷ 0 ∷ 0 ∷ 0 ∷ 0 ∷ 0 ∷ 0 ∷ 0 ∷ 0 ∷ 0 ∷ 0 ∷ 0 ∷ 0 ∷ 0x10 ∷ []

-- The loop of scalar_is_reduced, with `i` bytes still to compare, the most significant first
unfoldable pub scalar_loop : List ℕ → ℕ → Bool
scalar_loop s zero = false
scalar_loop s (suc i) =
    let rest = scalar_loop s i in
    if ltb (get_or s i 0) (get_or order i 0)
    then true
    else if ltb (get_or order i 0) (get_or s i 0)
    then false
    else rest

-- scalar_is_reduced(s)
abbrev pub scalar_is_reduced : List ℕ → Bool
scalar_is_reduced s = scalar_loop s 32

-- The copied library's operations. `canonical_y` is what pack25519 writes for the coordinate that
-- unpack25519 reads from a key; `recover` is the part of unpackneg that finds the negated point from
-- it, `none` where the key is on no point of the curve.
pub record Curve : Type 1 where
  pub Point : Type 0
  pub canonical_y : List ℕ → List ℕ
  pub recover : List ℕ → Option Point
  pub reduce : List ℕ → List ℕ
  pub scalarmult : Point → List ℕ → Point
  pub scalarbase : List ℕ → Point
  pub add_points : Point → Point → Point
  pub pack : Point → List ℕ

-- The packed identity of the group
abbrev pub identity : List ℕ
identity = 1 ∷ replicate 31 0

-- canon[31] |= p[31] & 0x80
abbrev pub with_sign : List ℕ → List ℕ → List ℕ
with_sign canon pk =
    set canon 31 (bit_or (get_or canon 31 0) (bit_and (get_or pk 31 0) 0x80 % 2 ^ 8) % 2 ^ 8)

module _ (curve : Curve) where
  -- add(t, t), three times
  abbrev pub eight_times : curve.Point → curve.Point
  eight_times p =
      let two = curve.add_points p p in
      let four = curve.add_points two two in curve.add_points four four

  -- is_low_order(p)
  unfoldable pub is_low_order : curve.Point → ℕ
  is_low_order p = ct_eq (some (curve.pack (eight_times p))) (some identity) 32

  -- The end of unpackneg
  unfoldable pub unless_low : Option curve.Point → Option curve.Point
  unless_low none = none
  unless_low (some r) = if is_low_order r != 0 then none else some r

  -- unpackneg(r, p): the negated point, `none` for -1
  unfoldable pub unpackneg : List ℕ → Option curve.Point
  unpackneg pk =
      if ct_eq (some (with_sign (curve.canonical_y pk) pk)) (some pk) 32 == 0
      then none
      else unless_low (curve.recover pk)

-- h = SHA-512(R || A || M), in the memory of `stack` and `out`
unfoldable pub challenge : Ctx Words → List ℕ → List ℕ → List ℕ → Option (List ℕ) → Option (List ℕ)
challenge stack out sig pk msg =
    (sha512_final
      (sha512_update
        (sha512_update (sha512_update (sha512_init (some stack)) (some (take 32 sig)))
          (some (take 32 pk)))
        msg)
      (some out)).0

abbrev pub bytes_of : Option (List ℕ) → List ℕ
bytes_of none = []
bytes_of (some h) = h

module _ (curve : Curve) where
  -- From the success of unpackneg on
  unfoldable pub equation :
      Ctx Words → List ℕ → List ℕ → List ℕ → Option (List ℕ) → Option curve.Point → ℕ
  equation stack out sig pk msg none = 0
  equation stack out sig pk msg (some q) =
      let h = curve.reduce (bytes_of (challenge stack out sig pk msg)) in
      let p = curve.add_points (curve.scalarmult q h) (curve.scalarbase (drop 32 sig)) in
      ct_eq (some sig) (some (curve.pack p)) 32

  -- vl_ed25519_verify; a NULL `msg` comes with the length 0.
  unfoldable pub ed25519_verify :
      Ctx Words → List ℕ → Option (List ℕ) → Option (List ℕ) → Option (List ℕ) → ℕ
  ed25519_verify stack out none msg pk = 0
  ed25519_verify stack out (some sig) msg none = 0
  ed25519_verify stack out (some sig) msg (some pk) =
      if scalar_is_reduced (drop 32 sig)
      then equation stack out sig pk msg (unpackneg curve pk)
      else 0
