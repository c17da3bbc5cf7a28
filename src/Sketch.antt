-- ===== src/Sketch.antt =====
-- examples/esp32-arduino/esp32-arduino.ino: a sketch with the ESP32 platform, vecti::License and the four
-- adapters. `Arduino` is the core's calls and `Lib` the sibling libraries, all of them present.
pub mod Features
mod Tests
use vecti_license.Base.{
  ℕ, ◌==◌, ◌!=◌, ◌&&◌, ◌||◌, if◌then◌else◌, Bool, true, false, Option, none, some, List, [], ◌∷◌,
  ◌++◌,
}
use vecti_license.Base.{bit_and}
use vecti_license.Base.Text.{codes, em_dash, Format, joined}
use vecti_license.Api.{
  Status, ok, Hal, Config, License, Posture, PostureState, unknown, off, on, checked_time,
}
use vecti_license.Core.Verify.Steps.{Memory}
use vecti_license.Core.Messages.{status_str, version_str}
use vecti_license.Hal.Esp32.{Idf, esp32_hal}
use vecti_license.Bridge.{
  LicenseObject, new_object, set_on_result, is_ok, license, device_id_text, posture_of, begin, pump,
  license_of,
}
use vecti_license.Bridge.Serial.{Console, serial_command, serial_loop_task}
use vecti_license.Bridge.Net.{Portal, NetLicensePortal, new_portal, attach, portal_loop}
use vecti_license.Bridge.Dash.{Dash, DashLicenseCard, new_card, attach_card, card_loop, pasted}
use vecti_license.Bridge.Ota.{Updater, gate_ota}
use vecti_license.Gate.{gate_config}

-- What nvs_flash_init returns, as far as the sketch tells
pub data NvsErr : Type 0 where
  no_free_pages new_version_found other : NvsErr

-- The Arduino core and the NVS partition
pub record Arduino (W : Type 0) : Type 0 where
  -- Serial.begin, Serial.printf and Serial.println
  pub serial_begin : ℕ → W → W
  pub print : List ℕ → W → W
  pub delay : ℕ → W → W
  pub nvs_flash_init : W → NvsErr × W
  pub nvs_flash_erase : W → W
  pub on_message : W → W

pub record Libs (W : Type 0) : Type 0 where
  pub arduino : Arduino W
  pub idf : Idf W
  pub console : Console W
  pub portal : Portal W
  pub dash : Dash W
  pub updater : Updater W

-- VENDOR_KEYS and CFG: the key is the same placeholder as the gate's.
abbrev pub sketch_config : Config
sketch_config = record gate_config { family = 2; revoked_serials = some [] }

-- license, portal and card
pub record Sketch (W : Type 0) : Type 0 where
  pub object : LicenseObject W
  pub portal : NetLicensePortal
  pub card : DashLicenseCard

abbrev pub println : List ℕ → List ℕ
println text = text ++ 10 ∷ []

abbrev pub posture_word : PostureState → List ℕ
posture_word on = codes "on"
posture_word off = codes "OFF"
posture_word unknown = codes "unknown"

abbrev pub is_on : PostureState → Bool
is_on st = elim st [ on ↦ true | _ ↦ false ]

module _ {W : Type 0} (libs : Libs W) (fmt : Format) (before : List ℕ) (mem : Memory) where
  abbrev pub board : Option (Hal W)
  board = some (esp32_hal libs.idf before)

  -- reportPosture from the return of license->posture() on
  unfoldable pub say_posture : Posture × W → W
  say_posture (p, w) =
      let told = joined (
        codes "secure boot: "
        ∷ posture_word p.secure_boot
        ∷ codes ", flash encryption: "
        ∷ posture_word p.flash_encryption
        ∷ println []
        ∷ []) in
      let w1 = libs.arduino.print told w in
      if is_on p.secure_boot && is_on p.flash_encryption
      then w1
      else libs.arduino.print
          (println (
            joined (
              codes "WARNING: without Secure Boot v2 + Flash Encryption, "
              ∷ codes "anyone who can reflash this board can delete the "
              ∷ codes "licence check entirely. That is true of every software "
              ∷ codes "licensing scheme, not just this one."
              ∷ [])))
          w1

  -- reportPosture; `garbage` is the variable of License::posture before it.
  unfoldable pub report_posture : Posture → W → W
  report_posture garbage w = say_posture (posture_of mem board garbage w)

  -- onActivation
  unfoldable pub on_activation : Status → W → W
  on_activation ok w = libs.arduino.print (println (codes "licence accepted and stored")) w
  on_activation st w = libs.arduino.print (println (codes "licence refused: " ++ status_str st)) w

  -- The test of `err` in setup
  unfoldable pub nvs_ready : NvsErr × W → W
  nvs_ready (other, w) = w
  nvs_ready (err, w) = (libs.arduino.nvs_flash_init (libs.arduino.nvs_flash_erase w)).1

  -- The lines of setup about the licence
  unfoldable pub say_licence : Option License → W → W
  say_licence none w =
      libs.arduino.print
        (println (
          joined (
            codes "Send the device id above to your supplier, then paste "
            ∷ codes "the 160-character licence into the setup portal, the "
            ∷ codes "dashboard, or type: license <blob>"
            ∷ [])))
        w
  say_licence (some l) w =
      let w1 =
        libs.arduino.print
          (println (
            joined (
              codes "serial "
              ∷ fmt.decimal l.serial
              ∷ codes ", features 0x"
              ∷ fmt.hex8 l.features
              ∷ codes ", checked 0x"
              ∷ fmt.hex2 l.checked
              ∷ [])))
          w in
      if l.not_after != 0 && bit_and l.checked checked_time == 0
      then libs.arduino.print
          (println
            (codes "NOTE: expiry not enforced " ++ (em_dash ++ codes " no valid clock yet.")))
          w1
      else w1

  module _ (ed25519_verify : List ℕ → List ℕ → List ℕ → Bool) where
    -- setup from the return of begin on
    unfoldable pub greeted : Posture → Status × LicenseObject W × W → LicenseObject W × W
    greeted garbage (st, o, w) =
        let w1 = libs.arduino.print (println [] ++ println version_str) w in
        let (o', w2) = device_id_text mem board o w1 in
        let w3 = libs.arduino.print (println (codes "device id: " ++ o'.devid)) w2 in
        let w4 = libs.arduino.print (println (codes "licence:   " ++ status_str st)) w3 in
        (o', say_licence (license o') (report_posture garbage w4))

    -- The end of setup: the adapters
    unfoldable pub attached : LicenseObject W × W → Sketch W × W
    attached (o, w) =
        let p = new_portal (codes "vl") in
        let (o1, w1) = attach libs.portal mem board p o w in
        let (c, o2, w2) = attach_card libs.dash mem board (new_card []) o1 w1 in
        (record { object = o2; portal = p; card = c }, libs.arduino.on_message w2)

    -- setup; `stack` is the buffer of License::begin before the call.
    unfoldable pub setup : List ℕ → Posture → W → Sketch W × W
    setup stack garbage w =
        let w1 = libs.arduino.delay 200 (libs.arduino.serial_begin 115200 w) in
        let w2 = nvs_ready (libs.arduino.nvs_flash_init w1) in
        attached (
          greeted garbage (
            begin ed25519_verify mem (some sketch_config) board stack
              (set_on_result (some on_activation) new_object) w2))

    -- loop; what it does with its two features is left out in the source, too.
    unfoldable pub loop : Sketch W → W → Sketch W × W
    loop s w =
        let (pumped, o1, w1) = pump ed25519_verify mem (some sketch_config) board s.object w in
        let (taken, p, o2) = portal_loop libs.portal s.portal o1 w1 in
        let (c, o3, w2) = card_loop libs.dash mem board s.card o2 w1 in
        let (o4, w3) =
          serial_loop_task libs.console fmt mem board ed25519_verify (some sketch_config) o3 w2 in
        let w4 = gate_ota libs.updater (some 3) false o4 w3 in
        (record { object = o4; portal = p; card = c }, libs.arduino.delay 10 w4)

    -- The callback of VectiSerial.onMessage
    unfoldable pub message : List ℕ → Sketch W → W → Sketch W × W
    message cmd s w =
        let (handled, o, w') = serial_command libs.console fmt mem board cmd s.object w in
        (record s { object = o }, w')

    -- The callback of the card's _paste.onChange
    unfoldable pub card_pasted : List ℕ → Sketch W → W → Sketch W × W
    card_pasted payload s w = (record s { object = (pasted libs.dash payload s.object).1 }, w)
