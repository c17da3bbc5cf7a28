-- ===== src/Core/Query.antt =====
-- core/vl_core.c: vl_has_feature and vl_posture.
mod Tests
use vecti_license.Base.{
  ℕ, ◌/◌, ◌^◌, ltb, if◌then◌else◌, Option, none, some, bit_and, ◌≡◌, ◌≢◌, refl,
}
use vecti_license.Api.{
  Status, ok, invalid_arg, platform, PostureState, unknown, Posture, Hal, License,
}

-- vl_has_feature
unfoldable pub has_feature : Option License → ℕ → ℕ
has_feature none bit = 0
has_feature (some lic) bit = if ltb 31 bit then 0 else bit_and (lic.features / 2 ^ bit) 1

abbrev pub nothing_known : Posture
nothing_known = record { secure_boot = unknown; flash_encryption = unknown }

module _ {W : Type 0} where
  -- From the return of hal->secure_posture on
  posture_answer : Status × Posture × W → Status × Option Posture × W
  posture_answer (ok, p, w) = (ok, some p, w)
  posture_answer (st, p, w) = (platform, some nothing_known, w)

  ask_posture : Option (Posture → W → Status × Posture × W) → W → Status × Option Posture × W
  ask_posture none w = (ok, some nothing_known, w)
  ask_posture (some secure_posture) w = posture_answer (secure_posture nothing_known w)

  -- vl_posture: the status, what `out` points to afterwards, and the world
  unfoldable pub posture : Option (Hal W) → Option Posture → W → Status × Option Posture × W
  unfolding ask_posture posture_answer
  posture hal none w = (invalid_arg, none, w)
  posture none (some out) w = (ok, some nothing_known, w)
  posture (some hal) (some out) w = ask_posture hal.secure_posture w

  answer-unknown :
      (got : Status × Posture × W)
      → (posture_answer got).0 ≢ ok
      → (posture_answer got).1 ≡ some nothing_known
  unfolding posture_answer
  answer-unknown (ok, p, w) bad = absurd (bad refl)
  answer-unknown (st, p, w) bad = refl

  -- If vl_posture fails with an output that is not NULL, then the output says that nothing is known,
  -- whatever it held and whatever the callback has written to it.
  posture_claims_nothing :
      (hal : Option (Hal W)) (out : Posture) (w : W)
      → (posture hal (some out) w).0 ≢ ok
      → (posture hal (some out) w).1 ≡ some nothing_known
  unfolding posture ask_posture
  posture_claims_nothing none out w bad = absurd (bad refl)
  posture_claims_nothing (some hal) out w bad = go hal.secure_posture bad
    where
      go :
          (o : Option (Posture → W → Status × Posture × W))
          → (ask_posture o w).0 ≢ ok
          → (ask_posture o w).1 ≡ some nothing_known
      go none wrong = absurd (wrong refl)
      go (some f) wrong = answer-unknown (f nothing_known w) wrong
