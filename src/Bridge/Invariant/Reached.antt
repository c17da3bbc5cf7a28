-- ===== src/Bridge/Invariant/Reached.antt =====
-- bridge/vl_bridge.h: every vecti::License that its methods lead to is consistent.
use vecti_license.Base.{ℕ, inl, refl, Bool, true, Option}
use vecti_license.Base.{List}
use vecti_license.Api.{Hal, Config}
use vecti_license.Core.Verify.Steps.{Memory}
use vecti_license.Bridge.{LicenseObject, clear, pump}
use vecti_license.Bridge.Invariant.{
  IsConsistent, Reachable, made, elsewhere, begun, activated, submitted, pumped_out, cleared, asked,
  hooked,
}
use vecti_license.Bridge.Invariant.Methods.{
  apply-IsConsistent, begin-IsConsistent, submit-IsConsistent, pump_if-IsConsistent,
  device_id_text-IsConsistent,
}

module _ {W : Type 0} (ed25519_verify : List ℕ → List ℕ → List ℕ → Bool) (mem : Memory)
    (cfg : Option Config) (hal : Option (Hal W)) where
  -- After any sequence of methods, from the constructor on: if the object says that it is licensed,
  -- then its licence is one that vl_verify has accepted under its configuration and platform, and its
  -- blob is the encoder's text of that licence's bytes; the inbox is terminated inside its 224 bytes;
  -- and the device id is empty or has 26 characters.
  pub reachable-IsConsistent :
      (o : LicenseObject W) (w : W)
      → Reachable ed25519_verify mem cfg hal o w
      → IsConsistent ed25519_verify mem cfg hal o
  unfolding pump clear
  reachable-IsConsistent o w (made v) = record {
    force = λ e. cc;
    inbox = record { sized = refl; closed = refl };
    named = inl refl;
  }
  reachable-IsConsistent o w (elsewhere p v v' r) = reachable-IsConsistent p v r
  reachable-IsConsistent o w (begun stack p v r) =
      begin-IsConsistent ed25519_verify mem cfg hal stack p v (reachable-IsConsistent p v r)
  reachable-IsConsistent o w (activated blob p v r) =
      apply-IsConsistent ed25519_verify mem cfg hal blob true p v (reachable-IsConsistent p v r)
  reachable-IsConsistent o w (submitted blob len p v r) =
      submit-IsConsistent ed25519_verify mem cfg hal blob len p (reachable-IsConsistent p v r)
  reachable-IsConsistent o w (pumped_out p v r) =
      pump_if-IsConsistent ed25519_verify mem cfg hal p.pending_flag p v
        (reachable-IsConsistent p v r)
  reachable-IsConsistent o w (cleared p v r) =
      let c = reachable-IsConsistent p v r in
      record { force = λ e. cc; inbox = c.inbox; named = c.named }
  reachable-IsConsistent o w (asked p v r) =
      device_id_text-IsConsistent ed25519_verify mem cfg hal p v (reachable-IsConsistent p v r)
  reachable-IsConsistent o w (hooked cb p v r) =
      let c = reachable-IsConsistent p v r in
      record { force = c.force; inbox = c.inbox; named = c.named }
