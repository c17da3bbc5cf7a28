-- ===== src/Bridge/Invariant.antt =====
-- bridge/vl_bridge.h: what holds of a vecti::License after any sequence of its methods.
pub mod Methods
pub mod Reached
use vecti_license.Base.{
  ℕ, ◌+◌, ◌<◌, ◌≤◌, ◌≡◌, ◌≢◌, ◌⊎◌, inl, inr, refl, sym, ap, ◌∙◌, subst, arith, Bool, true, false,
  Bool-cases, Option, none, some, Option-cases,
}
use vecti_license.Base.{
  List, [], length, take, set, get_or, leb, ◌==◌, ◌!=◌, ◌||◌, ==_iff, length-set, length-take,
  get_or-set_self, get_or-set_ne, get_or_beyond,
}
use vecti_license.Hash.{write_at}
use vecti_license.Hash.Stream.Buffer.{length-write_at}
use native.Mathlib.Nat.{zero-add}
use vecti_license.Base32.{base32_encode}
use vecti_license.Api.{
  Status, ok, platform, not_found, Hal, Config, License, zero_license, device_id_len,
  device_id_str_len,
}
use vecti_license.Core.Fingerprint.{encode_device_id, compute_fingerprint}
use vecti_license.Core.Verify.{verify}
use vecti_license.Core.Verify.Steps.{Memory}
use vecti_license.Core.Verify.Accepts.{Verified}
use vecti_license.Core.Verify.Sound.{verify_sound}
use vecti_license.Bridge.{
  LicenseObject, new_object, bridge_blob_max, license_of, text_of, canonical_loop, store_blob,
  submit_if, submit, set_on_result, encoded, identified, device_id_text, clear, persisted, applied,
  apply, activate, loaded, begin_from, begin, blob_loader, c_string, pumped, pump_if, pump,
}
use vecti_license.Bridge.Canonical.{canonical_loop_encodes}

-- The inbox is a buffer of 224 bytes with a NUL at its end: what reads it stops inside.
pub record IsTerminated (pending : List ℕ) : Type 0 where
  pub sized : length pending ≡ bridge_blob_max
  pub closed : get_or pending 223 1 ≡ 0

pub write_at-IsTerminated :
    (blob pending : List ℕ) (len : ℕ)
    → len < bridge_blob_max
    → IsTerminated pending
    → IsTerminated (set (write_at 0 (take len blob) pending) len 0)
write_at-IsTerminated blob pending len h t =
    let short = length-take len blob in
    let size = t.sized in
    let fits : 0 + length (take len blob) ≤ length pending = omega arith in
    let same = length-write_at 0 (take len blob) pending fits in
    let grown = length-set (write_at 0 (take len blob) pending) len 0 in
    record {
      sized = grown ∙ same ∙ t.sized;
      closed = elim (Bool-cases (len == 223)) [
        | inl e ↦
            let last : len ≡ 223 = (==_iff len 223).0 e in
            rw (← last) (get_or-set_self (write_at 0 (take len blob) pending) len 0 1 (omega arith))
        | inr e ↦
            let other : len ≢ 223 = λ eq. let is = (==_iff len 223).1 eq in cc in
            get_or-set_ne (write_at 0 (take len blob) pending) len 223 0 1 other
            ∙ rw (zero-add (length (take len blob)))
                (get_or_beyond (take len blob) pending 223 1 (omega arith))
            ∙ t.closed
      ];
    }

module _ {W : Type 0} (ed25519_verify : List ℕ → List ℕ → List ℕ → Bool) (mem : Memory)
    (cfg : Option Config) (hal : Option (Hal W)) where
  -- The licence in force is one that vl_verify has accepted, and the text that is kept of it is the
  -- encoding of its bytes.
  pub data InForce (lic : License) (blob : List ℕ) : Type 0 where
    in_force :
        (text : List ℕ) (c : Config) (h : Hal W) (w w' : W)
        → cfg ≡ some c
        → hal ≡ some h
        → (v : Verified ed25519_verify mem text c h lic w w')
        → base32_encode (some v.bin) (some 161) ≡ some blob
        → InForce lic blob

  pub record IsConsistent (o : LicenseObject W) : Type 0 where
    pub force : o.status ≡ ok → InForce o.lic o.blob
    pub inbox : IsTerminated o.pending
    pub named : (o.devid ≡ []) ⊎ (length o.devid ≡ device_id_str_len)

  -- The states that the methods lead to, in any order and with any arguments; `elsewhere` is what
  -- other tasks and the hardware do to the world between two calls.
  pub data Reachable : LicenseObject W → W → Type 0 where
    made : (w : W) → Reachable new_object w
    elsewhere : (o : LicenseObject W) (w w' : W) → Reachable o w → Reachable o w'
    begun :
        (stack : List ℕ) (o : LicenseObject W) (w : W)
        → Reachable o w
        → Reachable
            (begin ed25519_verify mem cfg hal stack o w).1
            (begin ed25519_verify mem cfg hal stack o w).2
    activated :
        (blob : Option (List ℕ)) (o : LicenseObject W) (w : W)
        → Reachable o w
        → Reachable
            (activate ed25519_verify mem cfg hal blob o w).1
            (activate ed25519_verify mem cfg hal blob o w).2
    submitted :
        (blob : Option (List ℕ)) (len : ℕ) (o : LicenseObject W) (w : W)
        → Reachable o w
        → Reachable (submit blob len o).1 w
    pumped_out :
        (o : LicenseObject W) (w : W)
        → Reachable o w
        → Reachable (pump ed25519_verify mem cfg hal o w).1 (pump ed25519_verify mem cfg hal o w).2
    cleared :
        (o : LicenseObject W) (w : W)
        → Reachable o w
        → Reachable (clear mem hal o w).1 (clear mem hal o w).2
    asked :
        (o : LicenseObject W) (w : W)
        → Reachable o w
        → Reachable (device_id_text mem hal o w).0 (device_id_text mem hal o w).1
    hooked :
        (cb : Option (Status → W → W)) (o : LicenseObject W) (w : W)
        → Reachable o w
        → Reachable (set_on_result cb o) w
