-- ===== src/Core/Verify/Sound.antt =====
-- core/vl_core.c: what the return value of vl_verify means, and what is in `*out` then.
use vecti_license.Base.{
  ℕ, ◌≡◌, ◌≢◌, ap, sym, ◌∙◌, refl, Bool, Option, none, some, List, Bool-cases, inl, inr,
}
use vecti_license.Api.{zero_license, ok, invalid_arg, Hal, Config, License}
use vecti_license.Core.Verify.{verify, conclude, arguments_ok, cleared, stored}
use vecti_license.Core.Verify.Monad.{Outcome, pass, fail, continue-pass}
use vecti_license.Core.Verify.Steps.{
  Memory, checks, decode_step, header_step, signature_step, device_step,
}
use vecti_license.Core.Verify.Steps.{revocation_step}
use vecti_license.Core.Verify.Accepts.{Verified}
use vecti_license.Core.Verify.Inversion.{decode_step-pass, header_step-pass, signature_step-pass}
use vecti_license.Core.Verify.Inversion.{revocation_step-pass}
use vecti_license.Core.Verify.Current.{device_step-pass, clock_step-pass}
use vecti_license.Core.Verify.Failures.{IsError, checks-Fails}
use vecti_license.Api.{checked_signature, checked_device, device_id_len}
use vecti_license.Base.{subst}
use vecti_license.Util.{ct_eq}
use vecti_license.Core.Fingerprint.{compute_fingerprint}
use vecti_license.Core.Verify.Steps.{mark_checked, parse_payload}
use vecti_license.Core.Verify.Accepts.{NotRevoked, ClockAccepts}

invalid-ok : invalid_arg ≡ ok → ⊥
invalid-ok e = cc

conclude-ok :
    {W : Type 0} (out : Option License) (r : Outcome License × W) {out' : Option License} {w' : W}
    → IsError r.0
    → conclude out r ≡ (ok, out', w')
    → (lic : License) × (r ≡ (pass lic, w')) × (out' ≡ stored out lic)
unfolding conclude IsError
conclude-ok out (pass lic, w) honest h =
    (lic, ap (λ v. (pass lic, v)) (ap (λ r. r.2) h), sym (ap (λ r. r.1) h))
conclude-ok out (fail s, w) honest h = absurd (honest (ap (λ r. r.0) h))

module _ {W : Type 0} (ed25519_verify : List ℕ → List ℕ → List ℕ → Bool) (mem : Memory) where
  pub checks-Verified :
      (blob : List ℕ) (cfg : Config) (hal : Hal W) (lic : License) (w w' : W)
      → checks ed25519_verify mem blob cfg hal w ≡ (pass lic, w')
      → Verified ed25519_verify mem blob cfg hal lic w w'
  unfolding checks
  checks-Verified blob cfg hal lic w w' h =
      let (bin, w1, e1, h1) = continue-pass (decode_step blob, w) _ h in
      let (found, w2, e2, h2) = continue-pass (header_step cfg bin, w1) _ h1 in
      let (signed, w3, e3, h3) = continue-pass (signature_step ed25519_verify bin found, w2) _ h2 in
      let (bound, w4, e4, h4) = continue-pass (device_step mem hal signed w3) _ h3 in
      let (current, w5, e5, h5) = continue-pass (revocation_step cfg bound, w4) _ h4 in
      let (is_magic, is_version, is_family, trusted, is_key, parsed) =
        header_step-pass cfg bin found.0 found.1 (ap (λ r. r.0) e2) in
      let (holds, marked) =
        signature_step-pass ed25519_verify bin found.0 signed found.1 (ap (λ r. r.0) e3) in
      let (fp, computes, equal, marked') = device_step-pass mem hal signed bound w3 w4 e4 in
      let same : signed ≡ mark_checked checked_signature (parse_payload bin) =
        marked ∙ ap (mark_checked checked_signature) parsed in
      let worlds : w ≡ w3 = ap (λ r. r.1) e1 ∙ ap (λ r. r.1) e2 ∙ ap (λ r. r.1) e3 in
      record {
        bin = bin;
        decodes = decode_step-pass blob bin (ap (λ r. r.0) e1);
        is_magic = is_magic;
        is_version = is_version;
        is_family = is_family;
        pk = found.1;
        trusted = trusted;
        is_key = is_key;
        signed = holds;
        fingerprint = fp;
        enumerated = w4;
        computes =
            subst
              (λ v. compute_fingerprint mem.hash (some hal) (some mem.fingerprint) v ≡ (ok, fp, w4))
              (sym worlds) computes;
        is_device =
            subst (λ d. ct_eq fp (some d) device_id_len ≢ 0) (ap (λ l. l.device_id) same) equal;
        listed = current;
        not_revoked =
            subst (λ l. NotRevoked cfg.revoked_serials l current)
              (marked' ∙ ap (mark_checked checked_device) same)
              (revocation_step-pass cfg bound current (ap (λ r. r.0) e5));
        current =
            subst (λ v. ClockAccepts cfg hal current lic v w') (sym (ap (λ r. r.1) e5))
              (clock_step-pass cfg hal current lic w5 w' h5);
      }

  -- If vl_verify returns VL_OK, then the pointers were not NULL, the text decodes to a licence for
  -- this product, signed by a trusted key for this device, not revoked and current; and `*out` holds
  -- that licence.
  pub verify_sound :
      (blob : Option (List ℕ)) (cfg : Option Config) (hal : Option (Hal W))
      (out out' : Option License) (w w' : W)
      → verify ed25519_verify mem blob cfg hal out w ≡ (ok, out', w')
      → (text : List ℕ) × (c : Config) × (h : Hal W) × (lic : License) × (blob ≡ some text)
        × (cfg ≡ some c)
        × (hal ≡ some h)
        × (out' ≡ stored out lic)
        × Verified ed25519_verify mem text c h lic w w'
  unfolding verify
  verify_sound none cfg hal out out' w w' h = absurd (invalid-ok (ap (λ r. r.0) h))
  verify_sound (some blob) none hal out out' w w' h = absurd (invalid-ok (ap (λ r. r.0) h))
  verify_sound (some blob) (some cfg) none out out' w w' h = absurd (invalid-ok (ap (λ r. r.0) h))
  verify_sound (some blob) (some cfg) (some hal) out out' w w' h =
      elim (Bool-cases (arguments_ok cfg hal)) [
        | inl good ↦
            let (lic, passes, left) =
              conclude-ok out (checks ed25519_verify mem blob cfg hal w)
                (checks-Fails ed25519_verify mem blob cfg hal w) (rw (good, verify) at h) in
            (
              blob,
              cfg,
              hal,
              lic,
              refl,
              refl,
              refl,
              left,
              checks-Verified blob cfg hal lic w w' passes,
            )
        | inr bad ↦ absurd (invalid-ok (ap (λ r. r.0) (rw (bad, verify) at h)))
      ]

  conclude-error :
      (out : Option License) (r : Outcome License × W)
      → (conclude out r).0 ≢ ok
      → (conclude out r).1 ≡ cleared out
  unfolding conclude
  conclude-error out (pass lic, w) bad = absurd (bad refl)
  conclude-error out (fail s, w) bad = refl

  -- Whatever the arguments are, if vl_verify with an `out` that is not NULL returns anything but VL_OK,
  -- then `*out` is all zero: no licence of this or of an earlier call is left in it.
  pub verify_clears :
      (blob : Option (List ℕ)) (cfg : Option Config) (hal : Option (Hal W)) (old : License) (w : W)
      → (verify ed25519_verify mem blob cfg hal (some old) w).0 ≢ ok
      → (verify ed25519_verify mem blob cfg hal (some old) w).1 ≡ some zero_license
  unfolding verify
  verify_clears none cfg hal old w bad = refl
  verify_clears (some blob) none hal old w bad = refl
  verify_clears (some blob) (some cfg) none old w bad = refl
  verify_clears (some blob) (some cfg) (some hal) old w bad =
      elim (Bool-cases (arguments_ok cfg hal)) [
        | inl good ↦
            rw (good, verify)
              (conclude-error (some old) (checks ed25519_verify mem blob cfg hal w)
                (rw (good, verify) at bad))
        | inr wrong ↦ rw (wrong, verify) refl
      ]
