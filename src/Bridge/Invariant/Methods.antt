-- ===== src/Bridge/Invariant/Methods.antt =====
-- bridge/vl_bridge.h: every method keeps a vecti::License consistent.
use vecti_license.Base.{
  ℕ, ◌<◌, ◌≡◌, ◌≢◌, inl, inr, refl, sym, ap, subst, arith, Bool, true, false, Bool-cases, Option,
  none, some, Option-cases,
}
use vecti_license.Base.{List, [], length, take, leb, ◌==◌, ◌!=◌, ◌||◌}
use vecti_license.Base32.{base32_encode}
use vecti_license.Api.{
  Status, ok, platform, not_found, Hal, Config, License, zero_license, device_id_len,
  device_id_str_len,
}
use vecti_license.Core.Fingerprint.{encode_device_id, compute_fingerprint}
use vecti_license.Core.Verify.{verify}
use vecti_license.Core.Verify.Steps.{Memory}
use vecti_license.Core.Verify.Sound.{verify_sound}
use vecti_license.Bridge.{
  LicenseObject, bridge_blob_max, license_of, text_of, canonical_loop, store_blob, submit_if,
  submit, encoded, identified, device_id_text, persisted, applied, apply, loaded, begin_from, begin,
  blob_loader, c_string, pumped, pump_if,
}
use vecti_license.Bridge.Canonical.{canonical_loop_encodes}
use vecti_license.Bridge.Invariant.{write_at-IsTerminated, InForce, in_force, IsConsistent}

module _ {W : Type 0} (ed25519_verify : List ℕ → List ℕ → List ℕ → Bool) (mem : Memory)
    (cfg : Option Config) (hal : Option (Hal W)) where
  pub persisted_object :
      (o : LicenseObject W) (r : Status × W) → (persisted ed25519_verify mem cfg hal o r).1 ≡ o
  unfolding persisted
  persisted_object o (ok, w) = refl
  persisted_object o (st, w) = refl

  applied-IsConsistent :
      (blob : Option (List ℕ)) (persist : Bool) (o : LicenseObject W)
      (r : Status × Option License × W)
      → IsConsistent ed25519_verify mem cfg hal o
      → (r.0 ≡ ok
          → InForce ed25519_verify mem cfg hal (license_of r.1) (canonical_loop (text_of blob) []))
      → IsConsistent ed25519_verify mem cfg hal
          (applied ed25519_verify mem cfg hal blob persist o r).1
  unfolding applied
  applied-IsConsistent blob true o (ok, lic, w) c accepted =
      rw (persisted_object _ (store_blob hal (canonical_loop (text_of blob) []) w))
        (record { force = λ e. accepted refl; inbox = c.inbox; named = c.named })
  applied-IsConsistent blob false o (ok, lic, w) c accepted = record {
    force = λ e. accepted refl;
    inbox = c.inbox;
    named = c.named;
  }
  applied-IsConsistent blob persist o (st, lic, w) c accepted = record {
    force = λ e. absurd cc;
    inbox = c.inbox;
    named = c.named;
  }

  apply-InForce :
      (blob : Option (List ℕ)) (w : W)
      → let r = verify ed25519_verify mem blob cfg hal (some zero_license) w in
        r.0 ≡ ok
        → InForce ed25519_verify mem cfg hal (license_of r.1) (canonical_loop (text_of blob) [])
  apply-InForce blob w e =
      let r = verify ed25519_verify mem blob cfg hal (some zero_license) w in
      let (text, c, h, lic, is_text, is_cfg, is_hal, left, v) =
        verify_sound ed25519_verify mem blob cfg hal (some zero_license) r.1 w r.2
          (ap (λ st. (st, r.1, r.2)) e) in
      subst
        (λ x. InForce ed25519_verify mem cfg hal (license_of x) (canonical_loop (text_of blob) []))
        (sym left)
        (subst (λ b. InForce ed25519_verify mem cfg hal lic (canonical_loop (text_of b) []))
          (sym is_text)
          (in_force text c h w r.2 is_cfg is_hal v (canonical_loop_encodes text v.bin v.decodes).0))

  pub apply-IsConsistent :
      (blob : Option (List ℕ)) (persist : Bool) (o : LicenseObject W) (w : W)
      → IsConsistent ed25519_verify mem cfg hal o
      → IsConsistent ed25519_verify mem cfg hal
          (apply ed25519_verify mem cfg hal blob persist o w).1
  unfolding apply
  apply-IsConsistent blob persist o w c =
      applied-IsConsistent blob persist o
        (verify ed25519_verify mem blob cfg hal (some zero_license) w) c (apply-InForce blob w)

  -- A state that is not licensed, with the same inbox and the same id
  refused-IsConsistent :
      (o : LicenseObject W) (st : Status)
      → st ≢ ok
      → IsConsistent ed25519_verify mem cfg hal o
      → IsConsistent ed25519_verify mem cfg hal (record o { status = st })
  refused-IsConsistent o st bad c = record {
    force = λ e. absurd (bad e);
    inbox = c.inbox;
    named = c.named;
  }

  loaded-IsConsistent :
      (stack : List ℕ) (o : LicenseObject W) (r : Status × List ℕ × ℕ × W)
      → IsConsistent ed25519_verify mem cfg hal o
      → IsConsistent ed25519_verify mem cfg hal (loaded ed25519_verify mem cfg hal stack o r).1
  unfolding loaded
  loaded-IsConsistent stack o (ok, written, len, w) c = elim (Bool-cases (leb 161 len)) [
    | inl e ↦ rw e (refused-IsConsistent o platform (λ p. cc) c)
    | inr e ↦ rw e (apply-IsConsistent _ false o w c)
  ]
  loaded-IsConsistent stack o (st, written, len, w) c = refused-IsConsistent o st (λ p. cc) c

  pub begin-IsConsistent :
      (stack : List ℕ) (o : LicenseObject W) (w : W)
      → IsConsistent ed25519_verify mem cfg hal o
      → IsConsistent ed25519_verify mem cfg hal (begin ed25519_verify mem cfg hal stack o w).1
  unfolding begin begin_from
  begin-IsConsistent stack o w c = elim (Option-cases (blob_loader hal)) [
    | inl e ↦ rw e (refused-IsConsistent o not_found (λ p. cc) c)
    | inr (load, e) ↦ rw e (loaded-IsConsistent stack o (load 161 w) c)
  ]

  submit_if-IsConsistent :
      (flag : Bool) (blob : List ℕ) (len : ℕ) (o : LicenseObject W)
      → len < bridge_blob_max
      → IsConsistent ed25519_verify mem cfg hal o
      → IsConsistent ed25519_verify mem cfg hal (submit_if flag blob len o).1
  unfolding submit_if
  submit_if-IsConsistent true blob len o short c = c
  submit_if-IsConsistent false blob len o short c = record {
    force = c.force;
    inbox = write_at-IsTerminated blob o.pending len short c.inbox;
    named = c.named;
  }

  pub submit-IsConsistent :
      (blob : Option (List ℕ)) (len : ℕ) (o : LicenseObject W)
      → IsConsistent ed25519_verify mem cfg hal o
      → IsConsistent ed25519_verify mem cfg hal (submit blob len o).1
  unfolding submit
  submit-IsConsistent none len o c = c
  submit-IsConsistent (some blob) len o c =
      elim (Bool-cases (len == 0 || leb bridge_blob_max len)) [
        | inl e ↦ rw e c
        | inr e ↦ rw e (submit_if-IsConsistent o.pending_flag blob len o (ground arith) c)
      ]

  pub pump_if-IsConsistent :
      (flag : Bool) (o : LicenseObject W) (w : W)
      → IsConsistent ed25519_verify mem cfg hal o
      → IsConsistent ed25519_verify mem cfg hal (pump_if ed25519_verify mem cfg hal flag o w).1
  unfolding pump_if pumped
  pump_if-IsConsistent true o w c =
      let next = apply-IsConsistent (some (c_string o.pending)) true o w c in
      record {
        force = next.force;
        inbox = record { sized = refl; closed = refl };
        named = next.named;
      }
  pump_if-IsConsistent false o w c = c

  encode_device_id-size :
      (fp : Option (List ℕ)) {text : Option (List ℕ)}
      → encode_device_id fp (some 27) ≡ (ok, text)
      → length (text_of text) ≡ 26
  unfolding encode_device_id
  encode_device_id-size none e = cc
  encode_device_id-size (some fp) {text} e =
      elim (Option-cases (base32_encode (some (take device_id_len fp)) (some 27))) [
        | inl none_written ↦ cc (rw none_written at e)
        | inr (written, is) ↦
            let shown = rw is at e in
            elim (Bool-cases (length written != device_id_str_len)) [
              | inl bad ↦ cc (rw bad at shown)
              | inr good ↦
                  let same : some written ≡ text = ap (λ r. r.1) (rw good at shown) in
                  rw (← same) (ground arith)
            ]
      ]

  encoded-IsConsistent :
      (o : LicenseObject W) (w : W) (r : Status × Option (List ℕ))
      → IsConsistent ed25519_verify mem cfg hal o
      → (r.0 ≡ ok → length (text_of r.1) ≡ 26)
      → IsConsistent ed25519_verify mem cfg hal (encoded mem hal o w r).0
  unfolding encoded
  encoded-IsConsistent o w (ok, text) c size = record {
    force = c.force;
    inbox = c.inbox;
    named = inr (size refl);
  }
  encoded-IsConsistent o w (st, text) c size = record {
    force = c.force;
    inbox = c.inbox;
    named = inl refl;
  }

  identified-IsConsistent :
      (o : LicenseObject W) (r : Status × Option (List ℕ) × W)
      → IsConsistent ed25519_verify mem cfg hal o
      → IsConsistent ed25519_verify mem cfg hal (identified mem hal o r).0
  unfolding identified
  identified-IsConsistent o (ok, fp, w) c =
      encoded-IsConsistent o w (encode_device_id fp (some 27)) c
        (λ e. encode_device_id-size fp (ap (λ s. (s, (encode_device_id fp (some 27)).1)) e))
  identified-IsConsistent o (st, fp, w) c = record {
    force = c.force;
    inbox = c.inbox;
    named = inl refl;
  }

  pub device_id_text-IsConsistent :
      (o : LicenseObject W) (w : W)
      → IsConsistent ed25519_verify mem cfg hal o
      → IsConsistent ed25519_verify mem cfg hal (device_id_text mem hal o w).0
  unfolding device_id_text
  device_id_text-IsConsistent o w c = elim (Bool-cases (length o.devid == 0)) [
    | inl e ↦
        rw e
          (identified-IsConsistent o (compute_fingerprint mem.hash hal (some mem.fingerprint) w) c)
    | inr e ↦ rw e c
  ]
