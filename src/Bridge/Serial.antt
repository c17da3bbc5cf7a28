-- ===== src/Bridge/Serial.antt =====
-- bridge/vl_bridge_serial.h: the `license` command on a console. `Console` is the VectiSerial library,
-- `trim` the method of Arduino's String, and `Format` printf.
use vecti_license.Base.{
  ℕ, ◌==◌, ◌||◌, if◌then◌else◌, Bool, true, false, Option, none, some, List, [], ◌∷◌, ◌++◌, length,
  drop,
}
use vecti_license.Base.{bit_and}
use vecti_license.Base.Text.{codes, em_dash, Format, joined, same_text, starts_with}
use vecti_license.Api.{Hal, License, Config, checked_time, checked_hwm}
use vecti_license.Core.Verify.Steps.{Memory}
use vecti_license.Bridge.{LicenseObject, is_ok, license, device_id_text, submit, pump}
use vecti_license.Bridge.Summary.{license_summary, status_text}

-- The methods of VectiSerial, by their level
pub data Level : Type 0 where
  inf info warn debug err error : Level

pub record Console (W : Type 0) : Type 0 where
  pub say : Level → List ℕ → W → W
  pub trim : List ℕ → List ℕ

module _ {W : Type 0} (console : Console W) (fmt : Format) (mem : Memory)
    (hal : Option (Hal W)) where
  -- VectiSerial.inf("license: device id %s", lic.deviceId())
  unfoldable pub say_device_id : LicenseObject W → W → LicenseObject W × W
  say_device_id o w =
      let (o', w') = device_id_text mem hal o w in
      (o', console.say inf (codes "license: device id " ++ o'.devid) w')

  abbrev pub unless_checked : License → ℕ → Level → List ℕ → W → W
  unless_checked l bit level text w =
      if bit_and l.checked bit == 0 then console.say level text w else w

  -- licenseSerialStatus from the test of `l` on
  unfoldable pub say_license : Option License → W → W
  say_license none w = w
  say_license (some l) w =
      let fields = joined (
        codes "license: serial "
        ∷ fmt.decimal l.serial
        ∷ codes "  family "
        ∷ fmt.decimal l.family
        ∷ codes "  features 0x"
        ∷ fmt.hex8 l.features
        ∷ []) in
      let window = joined (
        codes "license: not_before "
        ∷ fmt.decimal l.not_before
        ∷ codes "  not_after "
        ∷ fmt.decimal l.not_after
        ∷ (if l.not_after == 0 then codes "  (perpetual)" else [])
        ∷ []) in
      let w1 = console.say inf window (console.say inf fields w) in
      let w2 =
        unless_checked l checked_time warn
          ((codes "license: validity window NOT checked "
            ++ (em_dash ++ codes " no clock on this device")))
          w1 in
      unless_checked l checked_hwm debug (codes "license: rollback high-water mark not enforced") w2

  -- licenseSerialStatus
  unfoldable pub serial_status : LicenseObject W → W → LicenseObject W × W
  serial_status o w =
      let w1 = console.say inf (codes "license: " ++ license_summary o 96) w in
      let (o', w2) = say_device_id o w1 in (o', say_license (license o') w2)

  -- The end of licenseSerialCommand, from the return of submit on
  unfoldable pub queued : Bool × LicenseObject W → W → LicenseObject W × W
  queued (true, o) w =
      (o, console.say info (codes "license: queued, verifying on the next loop()") w)
  queued (false, o) w = (
    o,
    console.say error
        ((codes "license: rejected " ++ (em_dash ++ codes " too long, or one is already queued")))
        w,
  )

  -- licenseSerialCommand from its argument on
  unfoldable pub serial_argument : List ℕ → LicenseObject W → W → LicenseObject W × W
  serial_argument arg o w =
      if length arg == 0 || same_text arg (codes "status")
      then serial_status o w
      else if same_text arg (codes "id")
      then say_device_id o w
      else if same_text arg (codes "help")
      then (
        o,
        console.say info
            ((codes "license: usage " ++ (em_dash ++ codes " license [status|id|<160-char key>]")))
            w,
      )
      else queued (submit (some arg) (length arg) o) w

  -- licenseSerialCommand
  unfoldable pub serial_command : List ℕ → LicenseObject W → W → Bool × LicenseObject W × W
  serial_command cmd o w =
      let c = console.trim cmd in
      let (o', w') = serial_argument (console.trim (drop 7 c)) o w in
      if starts_with (codes "license") c then (true, o', w') else (false, o, w)

  -- licenseSerialLoop from the return of pump on
  unfoldable pub pumped_out : Bool × LicenseObject W × W → LicenseObject W × W
  pumped_out (false, o, w) = (o, w)
  pumped_out (true, o, w) = if is_ok o then serial_status o w else (
    o,
    console.say err ((codes "license: rejected " ++ (em_dash ++ codes " ")) ++ status_text o) w,
  )

  -- licenseSerialLoop
  unfoldable pub serial_loop_task :
      (List ℕ → List ℕ → List ℕ → Bool) → Option Config → LicenseObject W → W → LicenseObject W × W
  serial_loop_task ed25519_verify cfg o w = pumped_out (pump ed25519_verify mem cfg hal o w)
