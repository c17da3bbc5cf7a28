-- ===== src/Bridge/Net.antt =====
-- bridge/vl_bridge_net.h: the class NetLicensePortal, which shows the device id in a captive portal and
-- picks up the key that is saved there. `Portal` is the VectiNet library.
pub mod Passes
mod Tests
use vecti_license.Base.{
  ℕ, ◌==◌, ◌||◌, ◌≡◌, ◌≢◌, ◌<◌, ◌≤◌, if◌then◌else◌, arith, refl, Bool, true, false, Option, none,
  some, List, [], ◌∷◌,
}
use vecti_license.Base.{◌++◌, length, Bool-cases, inl, inr, leb, ◌∙◌, ap}
use vecti_license.Base.Text.{codes, same_text}
use vecti_license.Api.{Hal}
use vecti_license.Core.Verify.Steps.{Memory}
use vecti_license.Bridge.{LicenseObject, device_id_text, submit, submit_if, bridge_blob_max}
use vecti_license.Bridge.Summary.{license_summary}

-- NetParamType and NetParam
pub data ParamType : Type 0 where
  display textarea : ParamType

pub record NetParam : Type 0 where
  pub key : List ℕ
  pub label : List ℕ
  pub kind : ParamType
  pub value : List ℕ
  pub hint : List ℕ

pub record Portal (W : Type 0) : Type 0 where
  pub add_parameter : NetParam → W → W
  pub param_value : List ℕ → W → List ℕ

-- The members of NetLicensePortal; its reference to the License is an argument.
pub record NetLicensePortal : Type 0 where
  pub prefix : List ℕ
  pub last : List ℕ

-- The constructor
abbrev pub new_portal : List ℕ → NetLicensePortal
new_portal prefix = record { prefix = prefix; last = [] }

module _ {W : Type 0} (portal : Portal W) where
  -- attach
  unfoldable pub attach :
      Memory → Option (Hal W) → NetLicensePortal → LicenseObject W → W → LicenseObject W × W
  attach mem hal p o w =
      let (o', w1) = device_id_text mem hal o w in
      let id : NetParam = record {
        key = p.prefix ++ codes "_id";
        label = codes "Device ID";
        kind = display;
        value = o'.devid;
        hint = codes "Send this to your supplier to get a licence key.";
      } in
      let state : NetParam = record {
        key = p.prefix ++ codes "_state";
        label = codes "Licence";
        kind = display;
        value = license_summary o' 96;
        hint = codes "As of the last restart.";
      } in
      let key : NetParam = record {
        key = p.prefix ++ codes "_key";
        label = codes "Licence key";
        kind = textarea;
        value = [];
        hint = codes "Paste the 160-character key here and press Save.";
      } in
      (o', portal.add_parameter key (portal.add_parameter state (portal.add_parameter id w1)))

  -- loop from the return of paramValue on
  unfoldable pub portal_seen :
      List ℕ → NetLicensePortal → LicenseObject W → Bool × NetLicensePortal × LicenseObject W
  portal_seen v p o =
      let (taken, o') = submit (some v) (length v) o in
      if length v == 0 || same_text v p.last
      then (false, p, o)
      else (taken, record p { last = v }, o')

  -- loop
  unfoldable pub portal_loop :
      NetLicensePortal → LicenseObject W → W → Bool × NetLicensePortal × LicenseObject W
  portal_loop p o w = portal_seen (portal.param_value (p.prefix ++ codes "_key") w) p o
