-- ===== src/Bridge/Dash.antt =====
-- bridge/vl_bridge_dash.h: the class DashLicenseCard, three cards of a dashboard. `Dash` is the
-- VectiDash library: the cards are its own, and are named.
use vecti_license.Base.{ℕ, ◌==◌, if◌then◌else◌, Bool, Option, some, List, [], length}
use vecti_license.Api.{
  Status, ok, invalid_arg, buffer_too_small, bad_format, bad_magic, bad_version, bad_family,
  unknown_key, bad_signature, device_mismatch, not_yet_valid, expired, revoked, clock_rollback,
  no_clock, platform, no_more_segments, not_found, internal, Hal,
}
use vecti_license.Core.Verify.Steps.{Memory}
use vecti_license.Bridge.{LicenseObject, is_ok, device_id_text, submit}
use vecti_license.Bridge.Summary.{license_summary}

-- _state, _id, _paste, and the colours that are used
pub data Card : Type 0 where
  state_card id_card paste_card : Card

pub data Color : Type 0 where
  success danger : Color

pub record Dash (W : Type 0) : Type 0 where
  pub set_tab : Card → List ℕ → W → W
  pub set_value : Card → List ℕ → W → W
  pub set_color : Card → Color → W → W
  -- _paste.onChange
  pub on_change : W → W
  pub add_card : Card → W → W

-- The members of DashLicenseCard that are not cards
pub record DashLicenseCard : Type 0 where
  pub tab : List ℕ
  pub shown : Status

-- The constructor
abbrev pub new_card : List ℕ → DashLicenseCard
new_card tab = record { tab = tab; shown = internal }

-- The number of a vl_status_t, without its sign
unfoldable pub number_of : Status → ℕ
number_of ok = 0
number_of invalid_arg = 1
number_of buffer_too_small = 2
number_of bad_format = 3
number_of bad_magic = 4
number_of bad_version = 5
number_of bad_family = 6
number_of unknown_key = 7
number_of bad_signature = 8
number_of device_mismatch = 9
number_of not_yet_valid = 10
number_of expired = 11
number_of revoked = 12
number_of clock_rollback = 13
number_of no_clock = 14
number_of platform = 15
number_of no_more_segments = 16
number_of not_found = 17
number_of internal = 18

module _ {W : Type 0} (dash : Dash W) where
  -- The callback of _paste.onChange
  abbrev pub pasted : List ℕ → LicenseObject W → Bool × LicenseObject W
  pasted payload o = submit (some payload) (length payload) o

  module _ (mem : Memory) (hal : Option (Hal W)) where
    -- _repaint
    unfoldable pub repaint :
        DashLicenseCard → LicenseObject W → W → DashLicenseCard × LicenseObject W × W
    repaint c o w =
        let w1 = dash.set_value state_card (license_summary o 96) w in
        let w2 = dash.set_color state_card (if is_ok o then success else danger) w1 in
        let (o', w3) = device_id_text mem hal o w2 in
        let w4 = dash.set_value id_card o'.devid w3 in
        let w5 = if is_ok o' then dash.set_value paste_card [] w4 else w4 in
        (record c { shown = o'.status }, o', w5)

    abbrev pub tabbed : List ℕ → W → W
    tabbed tab w =
        if length tab == 0
        then w
        else dash.set_tab paste_card tab (dash.set_tab id_card tab (dash.set_tab state_card tab w))

    -- attach
    unfoldable pub attach_card :
        DashLicenseCard → LicenseObject W → W → DashLicenseCard × LicenseObject W × W
    attach_card c o w =
        let w1 = tabbed c.tab w in
        let (o1, w2) = device_id_text mem hal o w1 in
        let w3 =
          dash.on_change (dash.set_value paste_card [] (dash.set_value id_card o1.devid w2)) in
        let (c', o2, w4) = repaint c o1 w3 in
        (c', o2, dash.add_card paste_card (dash.add_card id_card (dash.add_card state_card w4)))

    -- loop
    unfoldable pub card_loop :
        DashLicenseCard → LicenseObject W → W → DashLicenseCard × LicenseObject W × W
    card_loop c o w = if number_of c.shown == number_of o.status then (c, o, w) else repaint c o w
