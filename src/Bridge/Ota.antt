-- ===== src/Bridge/Ota.antt =====
-- bridge/vl_bridge_ota.h: an unlicensed device takes no updates. `Updater` is the VectiOTA library.
use vecti_license.Base.{ℕ, if◌then◌else◌, Bool, false, Option, none, some}
use vecti_license.Bridge.{LicenseObject, is_ok, feature}

pub record Updater (W : Type 0) : Type 0 where
  pub allow_firmware_updates : Bool → W → W
  pub allow_filesystem_updates : Bool → W → W
  pub allow_pull_mode : Bool → W → W

-- `allow` of licenseGateOta; `bit` is `none` for a negative featureBit.
unfoldable pub may_update : {W : Type 0} → Option ℕ → LicenseObject W → Bool
may_update none o = is_ok o
may_update (some bit) o = if is_ok o then feature bit o else false

module _ {W : Type 0} (updater : Updater W) where
  -- licenseGateOta
  unfoldable pub gate_ota : Option ℕ → Bool → LicenseObject W → W → W
  gate_ota bit gate_firmware o w =
      let allow = may_update bit o in
      let w1 = if gate_firmware then updater.allow_firmware_updates allow w else w in
      updater.allow_pull_mode allow (updater.allow_filesystem_updates allow w1)
