-- ===== src/Ed25519/Verify.antt =====
-- core/vl_ed25519.c: what vl_ed25519_verify has established when it accepts.
use vecti_license.Base.{
  ℕ, zero, suc, ◌<◌, ◌≡◌, ◌≢◌, refl, arith, ap, ◌∙◌, Bool-cases, inl, inr, some, Option-cases,
}
use vecti_license.Base.{List, [], ◌∷◌, ◌++◌, take, drop, length, All}
use vecti_license.Base.Digits.{Below}
use vecti_license.Util.{ct_eq}
use vecti_license.Hash.{Ctx, Words}
use vecti_license.Sha512.{block_len, sha512_update, sha512_final}
use vecti_license.Sha512.Digest.{
  digest, sha512_init-Absorbed, sha512_update-Absorbed, sha512_final-digest,
}
use vecti_license.Ed25519.Key.{
  IsKeyBytes, PacksBytes, IsStrongKey, ct_eq-ne-zero, unpackneg-IsStrongKey,
}
use vecti_license.Ed25519.{unpackneg}
use vecti_license.Base.{take_all}
use vecti_license.Ed25519.Scalar.{le_value, scalar_loop-true}
use vecti_license.Ed25519.{order, scalar_loop, Curve, challenge, equation, ed25519_verify}

pub All-drop {ℓ} :
    {A : Type ℓ} (P : A → Type 0) (n : ℕ) (xs : List A) → All P xs → All P (drop n xs)
All-drop P zero xs h = h
All-drop P (suc n) [] h = h
All-drop P (suc n) (x ∷ xs) h = All-drop P n xs h.1

challenge-digest :
    (stack : Ctx Words) (out sig pk msg : List ℕ)
    → length stack.buffer ≡ block_len
    → challenge stack out sig pk (some msg) ≡ some (digest ((take 32 sig ++ take 32 pk) ++ msg))
unfolding challenge
challenge-digest stack out sig pk msg sized =
    let (c0, e0, h0) = sha512_init-Absorbed stack sized in
    let (c1, e1, h1) = sha512_update-Absorbed [] (take 32 sig) c0 h0 in
    let (c2, e2, h2) = sha512_update-Absorbed (take 32 sig) (take 32 pk) c1 h1 in
    let (c3, e3, h3) = sha512_update-Absorbed (take 32 sig ++ take 32 pk) msg c2 h2 in
    let r = some (take 32 sig) in
    let k = some (take 32 pk) in
    let m = some msg in
    ap (λ c. (sha512_final (sha512_update (sha512_update (sha512_update c r) k) m) (some out)).0) e0
    ∙ ap (λ c. (sha512_final (sha512_update (sha512_update c k) m) (some out)).0) e1
    ∙ ap (λ c. (sha512_final (sha512_update c m) (some out)).0) e2
    ∙ ap (λ c. (sha512_final c (some out)).0) e3
    ∙ ap (λ t. t.0) (sha512_final-digest ((take 32 sig ++ take 32 pk) ++ msg) c3 out h3)

module _ (curve : Curve) where
  -- If vl_ed25519_verify accepts a signature of 64 bytes under a key of 32, then its scalar is below
  -- the group's order; the key is the canonical spelling of a point of the curve that is not of
  -- order 1, 2, 4 or 8; and the first half of the signature is the packed point that the curve
  -- operations give for the SHA-512 digest of that half, the key and the message.
  pub ed25519_verify_sound :
      (stack : Ctx Words) (out sig msg pk : List ℕ)
      → PacksBytes curve
      → length stack.buffer ≡ block_len
      → length sig ≡ 64
      → All (Below 256) sig
      → IsKeyBytes pk
      → ed25519_verify curve stack out (some sig) (some msg) (some pk) ≢ 0
      → (le_value (drop 32 sig) 32 < le_value order 32)
        × (a : curve.Point) × IsStrongKey curve pk a
        × (take 32 sig
            ≡ curve.pack (
                curve.add_points
                  (curve.scalarmult a (curve.reduce (digest ((take 32 sig ++ take 32 pk) ++ msg))))
                  (curve.scalarbase (drop 32 sig))))
  unfolding ed25519_verify equation
  ed25519_verify_sound stack out sig msg pk laws sized long bytes key accepted =
      elim (Bool-cases (scalar_loop (drop 32 sig) 32)) [
        | inl reduced ↦ elim (Option-cases (unpackneg curve pk)) [
          | inl bad ↦ absurd (rw (reduced, ed25519_verify, bad, equation) at accepted refl)
          | inr (a, good) ↦ (
            scalar_loop-true (drop 32 sig) 32 (All-drop (Below 256) 32 sig bytes) reduced,
            a,
            unpackneg-IsStrongKey curve pk a laws key good,
            agrees laws long bytes (
                rw
                  (
                    reduced,
                    ed25519_verify,
                    good,
                    equation,
                    challenge-digest stack out sig pk msg sized,
                  )
                  at accepted),
          )
        ]
        | inr large ↦ absurd ((rw (large, ed25519_verify) at accepted) refl)
      ]
    where
      agrees :
          {p : curve.Point}
          → PacksBytes curve
          → length sig ≡ 64
          → All (Below 256) sig
          → ct_eq (some sig) (some (curve.pack p)) 32 ≢ 0
          → take 32 sig ≡ curve.pack p
      agrees {p} laws long bytes ne =
          ct_eq-ne-zero sig (curve.pack p) bytes (laws.packed p).1 (omega arith)
            (omega (arith, (laws.packed p).0)) ne
          ∙ take_all 32 (curve.pack p) (omega (arith, (laws.packed p).0))
