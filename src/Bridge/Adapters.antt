-- ===== src/Bridge/Adapters.antt =====
-- bridge/vl_bridge_serial.h, vl_bridge_net.h and vl_bridge_dash.h: what the adapters do to the object
-- is what its methods do.
use vecti_license.Base.{
  ℕ, ◌==◌, ◌||◌, if◌then◌else◌, Bool, true, false, Option, some, List, ◌++◌, length, drop,
}
use vecti_license.Base.Text.{codes, Format, same_text, starts_with}
use vecti_license.Api.{Hal, Config}
use vecti_license.Core.Verify.Steps.{Memory}
use vecti_license.Bridge.{LicenseObject, is_ok, device_id_text, submit, pump}
use vecti_license.Bridge.Invariant.{Reachable, elsewhere, submitted, pumped_out, asked}
use vecti_license.Bridge.Serial.{
  Console, say_device_id, serial_status, queued, serial_argument, serial_command, serial_loop_task,
}
use vecti_license.Bridge.Serial.{pumped_out as report}
use vecti_license.Bridge.Net.{Portal, NetLicensePortal, attach, portal_seen, portal_loop}
use vecti_license.Bridge.Dash.{Dash, DashLicenseCard, number_of, repaint, attach_card, card_loop}

module _ {W : Type 0} (ed25519_verify : List ℕ → List ℕ → List ℕ → Bool) (mem : Memory)
    (cfg : Option Config) (hal : Option (Hal W)) where
  abbrev Reached : LicenseObject W × W → Type 0
  Reached r = Reachable ed25519_verify mem cfg hal r.0 r.1

  if-Reached :
      {A : Type 0} (P : A → Type 0) (b : Bool) (x y : A) → P x → P y → P (if b then x else y)
  if-Reached P true x y h k = h
  if-Reached P false x y h k = k

  module _ (console : Console W) (fmt : Format) where
    say_device_id-Reached :
        (o : LicenseObject W) (w : W)
        → Reached (o, w)
        → Reached (say_device_id console fmt mem hal o w)
    unfolding say_device_id
    say_device_id-Reached o w r =
        let (o', w') = device_id_text mem hal o w in elsewhere o' w' _ (asked o w r)

    serial_status-Reached :
        (o : LicenseObject W) (w : W)
        → Reached (o, w)
        → Reached (serial_status console fmt mem hal o w)
    unfolding serial_status
    serial_status-Reached o w r = elsewhere _ _ _ (say_device_id-Reached o _ (elsewhere o w _ r))

    queued-Reached :
        (r : Bool × LicenseObject W) (w : W)
        → Reached (r.1, w)
        → Reached (queued console fmt mem hal r w)
    unfolding queued
    queued-Reached (true, o) w h = elsewhere o w _ h
    queued-Reached (false, o) w h = elsewhere o w _ h

    serial_argument-Reached :
        (arg : List ℕ) (o : LicenseObject W) (w : W)
        → Reached (o, w)
        → Reached (serial_argument console fmt mem hal arg o w)
    unfolding serial_argument
    serial_argument-Reached arg o w r =
        if-Reached Reached (length arg == 0 || same_text arg (codes "status")) _ _
          (serial_status-Reached o w r)
          (if-Reached Reached (same_text arg (codes "id")) _ _ (say_device_id-Reached o w r) (
            if-Reached Reached (same_text arg (codes "help")) _ _ (elsewhere o w _ r) (
              queued-Reached (submit (some arg) (length arg) o) w
                (submitted (some arg) (length arg) o w r))))

    pub serial_command-Reached :
        (cmd : List ℕ) (o : LicenseObject W) (w : W)
        → Reached (o, w)
        → (let r = serial_command console fmt mem hal cmd o w in Reached (r.1, r.2))
    unfolding serial_command
    serial_command-Reached cmd o w r =
        if-Reached (λ (t : Bool × LicenseObject W × W). Reached (t.1, t.2))
          (starts_with (codes "license") (console.trim cmd)) _ _
          (serial_argument-Reached (console.trim (drop 7 (console.trim cmd))) o w r) r

    report-Reached :
        (r : Bool × LicenseObject W × W)
        → Reached (r.1, r.2)
        → Reached (report console fmt mem hal r)
    unfolding report
    report-Reached (false, o, w) h = h
    report-Reached (true, o, w) h =
        if-Reached Reached (is_ok o) _ _ (serial_status-Reached o w h) (elsewhere o w _ h)

    pub serial_loop_task-Reached :
        (o : LicenseObject W) (w : W)
        → Reached (o, w)
        → Reached (serial_loop_task console fmt mem hal ed25519_verify cfg o w)
    unfolding serial_loop_task
    serial_loop_task-Reached o w r =
        report-Reached (pump ed25519_verify mem cfg hal o w) (pumped_out o w r)

  module _ (portal : Portal W) where
    pub attach-Reached :
        (p : NetLicensePortal) (o : LicenseObject W) (w : W)
        → Reached (o, w)
        → Reached (attach portal mem hal p o w)
    unfolding attach
    attach-Reached p o w r =
        let (o', w') = device_id_text mem hal o w in elsewhere o' w' _ (asked o w r)

    pub portal_loop-Reached :
        (p : NetLicensePortal) (o : LicenseObject W) (w : W)
        → Reached (o, w)
        → Reached ((portal_loop portal p o w).2, w)
    unfolding portal_loop portal_seen
    portal_loop-Reached p o w r =
        let v = portal.param_value (p.prefix ++ codes "_key") w in
        if-Reached (λ (t : Bool × NetLicensePortal × LicenseObject W). Reached (t.2, w))
          (length v == 0 || same_text v p.last) _ _ r (submitted (some v) (length v) o w r)

  module _ (dash : Dash W) where
    pub repaint-Reached :
        (c : DashLicenseCard) (o : LicenseObject W) (w : W)
        → Reached (o, w)
        → (let t = repaint dash mem hal c o w in Reached (t.1, t.2))
    unfolding repaint
    repaint-Reached c o w r = elsewhere _ _ _ (asked o _ (elsewhere o w _ r))

    pub attach_card-Reached :
        (c : DashLicenseCard) (o : LicenseObject W) (w : W)
        → Reached (o, w)
        → (let t = attach_card dash mem hal c o w in Reached (t.1, t.2))
    unfolding attach_card
    attach_card-Reached c o w r =
        elsewhere _ _ _ (repaint-Reached c _ _ (elsewhere _ _ _ (asked o _ (elsewhere o w _ r))))

    pub card_loop-Reached :
        (c : DashLicenseCard) (o : LicenseObject W) (w : W)
        → Reached (o, w)
        → (let t = card_loop dash mem hal c o w in Reached (t.1, t.2))
    unfolding card_loop
    card_loop-Reached c o w r =
        if-Reached (λ (t : DashLicenseCard × LicenseObject W × W). Reached (t.1, t.2))
          (number_of c.shown == number_of o.status) _ _ r (repaint-Reached c o w r)
