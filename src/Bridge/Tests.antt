-- ===== src/Bridge/Tests.antt =====
-- bridge/vl_bridge.h: a device that stores its licence, and the theorems there.
use vecti_license.Base.{
  ℕ, ◌≡◌, refl, arith, true, false, Option, some, none, List, [], ◌∷◌, length, drop, replicate,
}
use vecti_license.Hash.{absorb, close, load_words, store_words, length_field}
use vecti_license.Util.{ct_eq, diff_loop, secure_wipe}
use vecti_license.Base32.{
  base32_decode, base32_encode, decode_loop, push_digit, b32_val, decode_finish,
}
use vecti_license.Base32.{absorb as absorb_value}
use vecti_license.Sha256.{sha256_init, sha256_update, sha256_final, compress}
use vecti_license.Api.{ok, Status, Hal, Config}
use vecti_license.Core.Fingerprint.{
  compute_fingerprint, fingerprint_with, fingerprint_end, segments_loop, absorb_segment,
}
use vecti_license.Core.Fingerprint.Tests.{two_segments}
use vecti_license.Core.Verify.{verify, conclude, arguments_ok}
use vecti_license.Core.Verify.Steps.{
  byte_at, rd_le32, parse_payload, find_key, on_list, is_revoked, signed_message,
}
use vecti_license.Core.Verify.Steps.{
  decode_step, known_key, header_step, revocation_step, compare_device, device_step,
}
use vecti_license.Core.Verify.Steps.{check_window, clock_step, signature_step, checks}
use vecti_license.Core.Verify.Tests.{memory, same_byte, vendor, blob}
use vecti_license.Bridge.{
  LicenseObject, new_object, bridge_blob_max, canonical_loop, submit, activate, applied, persisted,
  apply, begin, pump, notify,
}
use vecti_license.Base.{◌<◌, ◌≤◌, ◌++◌, if◌then◌else◌}
use vecti_license.Base.Text.{codes, copy_text}
use vecti_license.Api.{not_found}
use vecti_license.Core.Messages.{status_str}
use vecti_license.Bridge.{is_ok}
use vecti_license.Bridge.Summary.{append_why, license_summary, license_summary-fits}
use vecti_license.Bridge.Canonical.{canonical_loop_encodes}
use vecti_license.Bridge.Invariant.{IsConsistent, made, activated}
use vecti_license.Bridge.Invariant.Reached.{reachable-IsConsistent}
use vecti_license.Bridge.Inbox.{submit_then_pump}
use vecti_license.Bridge.Reboot.{begin_resumes}

-- The world is the stored text.
abbrev device : Hal (List ℕ)
device = record {
  read_id_segment = some (λ idx cap w. ((two_segments idx cap 0).0, w));
  now_epoch = some (λ w. (ok, 1000, w));
  hwm_load = none;
  hwm_store = none;
  blob_load = some (λ cap w. (ok, w, length w, w));
  blob_store = some (λ text w. (ok, text));
  secure_posture = none;
}

abbrev config : Config
config = record (vendor 9) { flags = 0 }

-- The licence as an operator may paste it: a space, then a lower-case letter
abbrev pasted : List ℕ
pasted = 32 ∷ b'a' ∷ drop 1 blob

-- Its 100 bytes
abbrev licence_bytes : List ℕ
licence_bytes =
    0x56
    ∷ 1
    ∷ 7
    ∷ 3
    ∷ 5
    ∷ 0
    ∷ 0
    ∷ 0x80
    ∷ 9
    ∷ 252
    ∷ 242
    ∷ 205
    ∷ 163
    ∷ 156
    ∷ 96
    ∷ 199
    ∷ 100
    ∷ 41
    ∷ 102
    ∷ 125
    ∷ 229
    ∷ 214
    ∷ 214
    ∷ 243
    ∷ 100
    ∷ 0
    ∷ 0
    ∷ 0
    ∷ 0x88
    ∷ 0x13
    ∷ 0
    ∷ 0
    ∷ 42
    ∷ 0
    ∷ 0
    ∷ 0
    ∷ 9
    ∷ replicate 63 0

pasted_decodes : base32_decode (some pasted) (some 100) 100 ≡ some licence_bytes
unfolding base32_decode decode_loop absorb_value push_digit b32_val decode_finish
pasted_decodes = refl

canonical_loop_encodes_example :
    (base32_encode (some licence_bytes) (some 161) ≡ some (canonical_loop pasted []))
    × (length (canonical_loop pasted []) ≡ 160)
    × (base32_decode (some (canonical_loop pasted [])) (some 100) 100 ≡ some licence_bytes)
canonical_loop_encodes_example = canonical_loop_encodes pasted licence_bytes pasted_decodes

-- Pasted into a new object, the licence is in force and its canonical text is stored.
activate-pasted :
    let (st, o, w) =
      activate same_byte memory (some config) (some device) (some pasted) new_object [] in
    (st ≡ ok) × (o.status ≡ ok) × (o.blob ≡ blob) × (w ≡ blob)
unfolding apply applied persisted canonical_loop verify conclude arguments_ok checks decode_step
    base32_decode decode_loop absorb_value push_digit b32_val decode_finish header_step
    parse_payload byte_at rd_le32 find_key known_key signature_step signed_message device_step
    compare_device compute_fingerprint fingerprint_with fingerprint_end segments_loop absorb_segment
    sha256_init sha256_update sha256_final compress absorb close load_words store_words length_field
    ct_eq diff_loop secure_wipe revocation_step is_revoked on_list clock_step check_window
activate-pasted = (refl, refl, refl, refl)

reachable-IsConsistent_example :
    IsConsistent same_byte memory
      (some config)
      (some device)
      (activate same_byte memory (some config) (some device) (some pasted) new_object []).1
reachable-IsConsistent_example =
    reachable-IsConsistent same_byte memory (some config) (some device)
      (activate same_byte memory (some config) (some device) (some pasted) new_object []).1
      (activate same_byte memory (some config) (some device) (some pasted) new_object []).2
      (activated (some pasted) new_object [] (made []))

abbrev short_text : List ℕ
short_text = b'A' ∷ b'R' ∷ b'0' ∷ []

submit_then_pump_example :
    (o1 : LicenseObject (List ℕ)) × (submit (some short_text) 3 new_object ≡ (true, o1))
    × ((other : Option (List ℕ)) (n : ℕ) → submit other n o1 ≡ (false, o1))
    × (pump same_byte memory (some config) (some device) o1 [] ≡ (
        let (st, o2, w') =
          activate same_byte memory (some config) (some device) (some short_text) o1 [] in
        (
          true,
          record o2 { pending = replicate bridge_blob_max 0; pending_flag = false },
          notify o2.on_result st w',
        )))
submit_then_pump_example =
    submit_then_pump same_byte memory (some config) (some device) short_text new_object []
      ((λ e. cc), ((λ e. cc), ((λ e. cc), tt))) (omega arith) (omega arith) refl refl

pasted_licensed :
    (activate same_byte memory (some config) (some device) (some pasted) new_object []).1.status
    ≡ ok
pasted_licensed = let (st, licensed, kept, stored) = activate-pasted in licensed

pasted_loads :
    ◌≡◌ {A = Status × List ℕ × ℕ × List ℕ}
      (ok, blob, 160, blob)
      (
        ok,
        (activate same_byte memory (some config) (some device) (some pasted) new_object []).1.blob,
        160,
        blob,
      )
pasted_loads = let (st, licensed, kept, stored) = activate-pasted in rw kept refl

begin_resumes_example :
    begin same_byte memory (some config) (some device) (replicate 161 0xcc) new_object blob
    ≡ apply same_byte memory (some config) (some device) (some pasted) false new_object blob
begin_resumes_example =
    begin_resumes same_byte memory (some config) (some device) pasted (replicate 161 0xcc)
      new_object new_object (λ cap w. (ok, w, length w, w)) [] blob blob pasted_licensed refl
      pasted_loads refl

summary_cut : license_summary {W = ℕ} new_object 20 ≡ codes "not licensed (no l)"
unfolding license_summary append_why copy_text status_str
summary_cut = refl

license_summary-fits_example :
    (length (license_summary {W = ℕ} new_object 64) < 64)
    × (64 ≤ 64
        → license_summary {W = ℕ} new_object 64 ≡ (
            if is_ok {W = ℕ} new_object
            then codes "licensed"
            else codes "not licensed (" ++ (status_str not_found ++ codes ")")))
license_summary-fits_example = license_summary-fits {W = ℕ} new_object 64 (omega arith)
