-- ===== src/Core/Verify.antt =====
-- core/vl_core.c: vl_verify, its argument checks and what it leaves in `*out`.
pub mod Monad
pub mod Steps
pub mod Accepts
mod Inversion
mod Current
mod Failures
pub mod Sound
pub mod Order
pub mod Complete
pub mod Authentic
pub mod Tests
use vecti_license.Base.{ℕ, ◌==◌, ◌&&◌, ◌||◌, if◌then◌else◌, Bool, true, false, Option, none, some}
use vecti_license.Base.{List, [], ◌∷◌, bit_and}
use vecti_license.Api.{
  Status, ok, invalid_arg, Hal, PubKey, Config, License, zero_license, flag_enforce_hwm,
}
use vecti_license.Core.Verify.Monad.{Outcome, pass, fail}
use vecti_license.Core.Verify.Steps.{Memory, checks}

abbrev pub is_set {ℓ} : {A : Type ℓ} → Option A → Bool
is_set none = false
is_set (some a) = true

abbrev pub has_keys : Option (List PubKey) → Bool
has_keys none = false
has_keys (some []) = false
has_keys (some (pk ∷ keys)) = true

-- memset(out, 0, sizeof *out)
abbrev pub cleared : Option License → Option License
cleared none = none
cleared (some lic) = some zero_license

-- *out = lic
abbrev pub stored : Option License → License → Option License
stored none lic = none
stored (some old) lic = some lic

module _ {W : Type 0} where
  -- 1. The checks of cfg and hal that return VL_ERR_INVALID_ARG
  unfoldable pub arguments_ok : Config → Hal W → Bool
  arguments_ok cfg hal =
      has_keys cfg.keys
      && is_set hal.read_id_segment
      && (bit_and cfg.flags flag_enforce_hwm == 0
          || (is_set hal.now_epoch && is_set hal.hwm_load && is_set hal.hwm_store))

  -- The end of the function: *out on success, and from `fail:` on
  unfoldable pub conclude : Option License → Outcome License × W → Status × Option License × W
  conclude out (pass lic, w) = (ok, stored out lic, w)
  conclude out (fail rc, w) = (rc, cleared out, w)

module _ {W : Type 0} (ed25519_verify : List ℕ → List ℕ → List ℕ → Bool) where
  -- vl_verify: the status, what `out` points to afterwards, and the world.
  unfoldable pub verify :
      Memory
      → Option (List ℕ)
      → Option Config
      → Option (Hal W)
      → Option License
      → W
      → Status × Option License × W
  verify mem (some blob) (some cfg) (some hal) out w =
      if arguments_ok cfg hal
      then conclude out (checks ed25519_verify mem blob cfg hal w)
      else (invalid_arg, cleared out, w)
  verify mem blob cfg hal out w = (invalid_arg, cleared out, w)
