-- ===== src/Sketch/Features.antt =====
-- examples/esp32-arduino/esp32-arduino.ino: the features of the sketch stand on an accepted licence.
use vecti_license.Base.{ℕ, ◌≡◌, ◌&&◌, refl, Bool, true, false, some, List, ltb}
use vecti_license.Base.Text.{Format}
use vecti_license.Api.{Status, ok, Posture}
use vecti_license.Core.Verify.Steps.{Memory}
use vecti_license.Core.Query.{has_feature}
use vecti_license.Bridge.{LicenseObject, new_object, is_ok, feature}
use vecti_license.Bridge.Invariant.{
  InForce, Reachable, made, elsewhere, begun, submitted, pumped_out, asked, hooked,
}
use vecti_license.Bridge.Invariant.Reached.{reachable-IsConsistent}
use vecti_license.Bridge.Net.{new_portal}
use vecti_license.Bridge.Dash.{new_card}
use vecti_license.Bridge.Adapters.{
  serial_command-Reached, serial_loop_task-Reached, attach-Reached, portal_loop-Reached,
  attach_card-Reached, card_loop-Reached,
}
use vecti_license.Base.{length, [], ◌<◌, ltb→lt}
use vecti_license.Base.Text.{codes}
use vecti_license.Sketch.{
  Libs, Sketch, sketch_config, board, on_activation, greeted, attached, setup, loop, message,
  card_pasted,
}

module _ {W : Type 0} (libs : Libs W) (fmt : Format) (before : List ℕ) (mem : Memory)
    (ed25519_verify : List ℕ → List ℕ → List ℕ → Bool) where
  -- The states of the sketch: setup, and then passes of loop, messages of the console and texts of
  -- the card in any order; `outside` is what other tasks and the hardware do to the world.
  pub data Runs : Sketch W → W → Type 0 where
    booted :
        (stack : List ℕ) (garbage : Posture) (w : W)
        → Runs
            (setup libs fmt before mem ed25519_verify stack garbage w).0
            (setup libs fmt before mem ed25519_verify stack garbage w).1
    looped :
        (s : Sketch W) (w : W)
        → Runs s w
        → Runs
            (loop libs fmt before mem ed25519_verify s w).0
            (loop libs fmt before mem ed25519_verify s w).1
    messaged :
        (cmd : List ℕ) (s : Sketch W) (w : W)
        → Runs s w
        → Runs
            (message libs fmt before mem ed25519_verify cmd s w).0
            (message libs fmt before mem ed25519_verify cmd s w).1
    pasted_in :
        (payload : List ℕ) (s : Sketch W) (w : W)
        → Runs s w
        → Runs (card_pasted libs fmt before mem ed25519_verify payload s w).0 w
    outside : (s : Sketch W) (w w' : W) → Runs s w → Runs s w'

  abbrev Reached : LicenseObject W → W → Type 0
  Reached o w = Reachable ed25519_verify mem (some sketch_config) (board libs fmt before mem) o w

  greeted-Reached :
      (garbage : Posture) (r : Status × LicenseObject W × W)
      → Reached r.1 r.2
      → Reached
          (greeted libs fmt before mem ed25519_verify garbage r).0
          (greeted libs fmt before mem ed25519_verify garbage r).1
  unfolding greeted
  greeted-Reached garbage (st, o, w) h = elsewhere _ _ _ (asked o _ (elsewhere o w _ h))

  attached-Reached :
      (r : LicenseObject W × W)
      → Reached r.0 r.1
      → Reached
          (attached libs fmt before mem ed25519_verify r).0.object
          (attached libs fmt before mem ed25519_verify r).1
  unfolding attached
  attached-Reached (o, w) h =
      let hal = board libs fmt before mem in
      elsewhere _ _ _ (
        attach_card-Reached ed25519_verify mem (some sketch_config) hal libs.dash (new_card []) _ _
          (attach-Reached ed25519_verify mem (some sketch_config) hal libs.portal
            (new_portal (codes "vl")) o w h))

  setup-Reached :
      (stack : List ℕ) (garbage : Posture) (w : W)
      → Reached
          (setup libs fmt before mem ed25519_verify stack garbage w).0.object
          (setup libs fmt before mem ed25519_verify stack garbage w).1
  unfolding setup
  setup-Reached stack garbage w = attached-Reached _ (
      greeted-Reached garbage _
        (begun stack _ _ (hooked (some (on_activation libs fmt before mem)) new_object _ (made _))))

  loop-Reached :
      (s : Sketch W) (w : W)
      → Reached s.object w
      → Reached
          (loop libs fmt before mem ed25519_verify s w).0.object
          (loop libs fmt before mem ed25519_verify s w).1
  unfolding loop
  loop-Reached s w h =
      let hal = board libs fmt before mem in
      elsewhere _ _ _ (
        serial_loop_task-Reached ed25519_verify mem (some sketch_config) hal libs.console fmt _ _ (
          card_loop-Reached ed25519_verify mem (some sketch_config) hal libs.dash s.card _ _ (
            portal_loop-Reached ed25519_verify mem (some sketch_config) hal libs.portal s.portal _ _
              (pumped_out s.object w h))))

  runs-Reached : (s : Sketch W) (w : W) → Runs s w → Reached s.object w
  unfolding message card_pasted
  runs-Reached s w (booted stack garbage v) = setup-Reached stack garbage v
  runs-Reached s w (looped t v r) = loop-Reached t v (runs-Reached t v r)
  runs-Reached s w (messaged cmd t v r) =
      serial_command-Reached ed25519_verify mem (some sketch_config) (board libs fmt before mem)
        libs.console fmt cmd t.object v (runs-Reached t v r)
  runs-Reached s w (pasted_in payload t v r) =
      submitted (some payload) (length payload) t.object v (runs-Reached t v r)
  runs-Reached s w (outside t v v' r) = elsewhere t.object v v' (runs-Reached t v r)

  -- After setup, and any sequence of passes of loop, console messages and texts pasted into the card:
  -- a feature that the sketch finds in license->feature(bit) is a feature of a licence that vl_verify
  -- has accepted under CFG on this board, and whose bytes blob() spells.
  pub sketch_feature-InForce :
      (bit : ℕ) (s : Sketch W) (w : W)
      → Runs s w
      → feature bit s.object ≡ true
      → InForce ed25519_verify mem
          (some sketch_config)
          (board libs fmt before mem)
          s.object.lic
          s.object.blob
        × (0 < has_feature (some s.object.lic) bit)
  sketch_feature-InForce bit s w r has =
      let held =
        reachable-IsConsistent ed25519_verify mem (some sketch_config) (board libs fmt before mem)
          s.object w (runs-Reached s w r) in
      let (licensed, bit_set) =
        and-eq-true (is_ok s.object) (ltb 0 (has_feature (some s.object.lic) bit)) has in
      (held.force (is_ok-eq s.object.status licensed), ltb→lt _ _ bit_set)
    where
      and-eq-true : (a b : Bool) → (a && b) ≡ true → (a ≡ true) × (b ≡ true)
      and-eq-true true b f = (refl, f)
      and-eq-true false b f = cc

      is_ok-eq : (st : Status) → ◌≡◌ {A = Bool} (elim st [ ok ↦ true | _ ↦ false ]) true → st ≡ ok
      is_ok-eq ok f = refl
      is_ok-eq st f = cc
