-- ===== src/Core/Verify/Failures.antt =====
-- core/vl_core.c: a step of vl_verify that jumps to `fail:` carries an error.
use vecti_license.Base.{ℕ, ◌!=◌, ◌&&◌, ◌≢◌, Bool, true, false, Option, none, some, List}
use vecti_license.Base.{if◌then◌else◌, ltb, bit_and, Option-cases, inl, inr}
use vecti_license.Base32.{base32_decode}
use vecti_license.Api.{Status, ok, bad_magic, bad_version, bad_family}
use vecti_license.Api.{bad_signature, device_mismatch, revoked, no_clock}
use vecti_license.Api.{Hal, Config, License, PubKey, blob_bin_len}
use vecti_license.Api.{checked_revocation}
use vecti_license.Api.{flag_enforce_hwm}
use vecti_license.Core.Verify.Monad.{Outcome, pass, fail, Step, require, continue}
use vecti_license.Core.Verify.Steps.{Memory, parse_payload, find_key, key_list, mark_checked}
use vecti_license.Core.Verify.Steps.{
  decode_step, known_key, header_step, revocation_step, signature_step,
}
use vecti_license.Core.Verify.Steps.{
  compare_device, device_step, mark_stored, compare_mark, check_window, clock_step,
}
use vecti_license.Core.Verify.Steps.{has_revocations, is_revoked, load_mark, store_mark, checks}

unfoldable pub IsError : {A : Type 0} → Outcome A → Type 0
IsError (pass a) = Unit
IsError (fail s) = s ≢ ok

if-IsError :
    {A : Type 0} (b : Bool) (s : Status) (o : Outcome A)
    → s ≢ ok
    → IsError o
    → IsError (if b then fail s else o)
unfolding IsError
if-IsError true s o bad rest = bad
if-IsError false s o bad rest = rest

require-IsError : {A : Type 0} (b : Bool) (s : Status) (a : A) → s ≢ ok → IsError (require b s a)
unfolding IsError
require-IsError true s a bad = tt
require-IsError false s a bad = bad

decode_step-IsError : (blob : List ℕ) → IsError (decode_step blob)
unfolding IsError decode_step
decode_step-IsError blob =
    elim (Option-cases (base32_decode (some blob) (some blob_bin_len) blob_bin_len)) [
      | inl e ↦ rw e (λ p. cc)
      | inr (bin, e) ↦ rw e tt
    ]

known_key-IsError : (o : Option PubKey) (lic : License) → IsError (known_key o lic)
unfolding IsError known_key
known_key-IsError none lic = λ e. cc
known_key-IsError (some pk) lic = tt

header_step-IsError : (cfg : Config) (bin : List ℕ) → IsError (header_step cfg bin)
unfolding header_step
header_step-IsError cfg bin =
    let lic = parse_payload bin in
    if-IsError _ bad_magic _ (λ e. cc)
      (if-IsError _ bad_version _ (λ e. cc)
        (if-IsError _ bad_family _ (λ e. cc)
          (known_key-IsError (find_key (key_list cfg.keys) lic.key_id) lic)))

revocation_step-IsError : (cfg : Config) (lic : License) → IsError (revocation_step cfg lic)
unfolding revocation_step IsError
revocation_step-IsError cfg lic = go (has_revocations cfg.revoked_serials)
  where
    go :
        (b : Bool)
        → IsError (
            if b
            then if is_revoked cfg.revoked_serials lic.serial
              then fail revoked
              else pass (mark_checked checked_revocation lic)
            else pass lic)
    go true = if-IsError (is_revoked cfg.revoked_serials lic.serial) revoked _ (λ e. cc) tt
    go false = tt

module _ {W : Type 0} where
  abbrev Fails : {A : Type 0} → Outcome A × W → Type 0
  Fails r = IsError r.0

  if-Fails :
      {A : Type 0} (b : Bool) (x y : Outcome A × W) → Fails x → Fails y → Fails (if b then x else y)
  unfolding IsError
  if-Fails true x y h k = h
  if-Fails false x y h k = k

  continue-Fails :
      {A B : Type 0} (r : Outcome A × W) (f : A → Step W B)
      → Fails r
      → ((a : A) (w : W) → Fails (f a w))
      → Fails (continue r f)
  unfolding IsError
  continue-Fails (pass a, w) f h k = k a w
  continue-Fails (fail s, w) f h k = h

  compare_device-Fails :
      (lic : License) (got : Status × Option (List ℕ) × W) → Fails (compare_device lic got)
  unfolding IsError compare_device
  compare_device-Fails lic (ok, fp, w) = require-IsError _ device_mismatch _ (λ e. cc)
  compare_device-Fails lic (st, fp, w) = λ e. cc

  mark_stored-Fails : (lic : License) (got : Status × W) → Fails (mark_stored lic got)
  unfolding IsError mark_stored
  mark_stored-Fails lic (ok, w) = tt
  mark_stored-Fails lic (st, w) = λ e. cc

  compare_mark-Fails :
      (hal : Hal W) (now : ℕ) (lic : License) (got : Status × ℕ × W)
      → Fails (compare_mark hal now lic got)
  unfolding IsError compare_mark
  compare_mark-Fails hal now lic (ok, mark, w) =
      if-Fails (ltb now mark) _ _ (λ e. cc)
        (if-Fails (ltb mark now) _ _ (mark_stored-Fails lic (store_mark hal.hwm_store now w)) tt)
  compare_mark-Fails hal now lic (st, mark, w) = λ e. cc

  check_window-Fails :
      (cfg : Config) (hal : Hal W) (lic : License) (got : Status × ℕ × W)
      → Fails (check_window cfg hal lic got)
  unfolding IsError check_window
  check_window-Fails cfg hal lic (ok, now, w) =
      if-Fails (lic.not_before != 0 && ltb now lic.not_before) _ _ (λ e. cc)
        (if-Fails (lic.not_after != 0 && ltb lic.not_after now) _ _ (λ e. cc)
          (if-Fails (bit_and cfg.flags flag_enforce_hwm != 0) _ _
            (compare_mark-Fails hal now _ (load_mark hal.hwm_load w)) tt))
  check_window-Fails cfg hal lic (st, now, w) = λ e. cc

  clock_step-Fails :
      (cfg : Config) (hal : Hal W) (lic : License) (w : W) → Fails (clock_step cfg hal lic w)
  unfolding IsError clock_step
  clock_step-Fails cfg hal lic w = elim (Option-cases hal.now_epoch) [
    | inl missing ↦ rw (missing, clock_step) (require-IsError _ no_clock lic (λ e. cc))
    | inr (read, there) ↦ rw (there, clock_step) (check_window-Fails cfg hal lic (read w))
  ]

  -- No path to `fail:` carries VL_OK.
  pub checks-Fails :
      (ed25519_verify : List ℕ → List ℕ → List ℕ → Bool) (mem : Memory) (blob : List ℕ)
      (cfg : Config) (hal : Hal W) (w : W)
      → Fails (checks ed25519_verify mem blob cfg hal w)
  unfolding checks signature_step device_step
  checks-Fails ed25519_verify mem blob cfg hal w =
      continue-Fails _ _ (decode_step-IsError blob) (λ bin w.
        continue-Fails _ _ (header_step-IsError cfg bin) (λ found w.
          continue-Fails _ _ (signature_step-IsError bin found) (λ signed w.
            continue-Fails _ _ (compare_device-Fails signed _) (λ bound w.
              continue-Fails _ _ (revocation_step-IsError cfg bound)
                (λ current w. clock_step-Fails cfg hal current w)))))
    where
      signature_step-IsError :
          (bin : List ℕ) (found : License × PubKey)
          → IsError (signature_step ed25519_verify bin found)
      signature_step-IsError bin (lic, pk) = require-IsError _ bad_signature _ (λ e. cc)
