-- ===== src/Core/Verify/Authentic/Tests.antt =====
-- core/vl_core.c and core/vl_ed25519.c: the two together at a concrete licence, over stand-in curve
-- operations.
use vecti_license.Base.{ℕ, ◌≡◌, refl, arith, some, [], ◌∷◌, replicate}
use vecti_license.Hash.{absorb, close, load_words, store_words, length_field}
use vecti_license.Util.{ct_eq, diff_loop, secure_wipe}
use vecti_license.Base32.{base32_decode, decode_loop, push_digit, b32_val, decode_finish}
use vecti_license.Base32.{absorb as absorb_value}
use vecti_license.Sha256.{sha256_init, sha256_update, sha256_final, compress}
use vecti_license.Api.{ok, PubKey, zero_license}
use vecti_license.Core.Fingerprint.{
  compute_fingerprint, fingerprint_with, fingerprint_end, segments_loop, absorb_segment,
}
use vecti_license.Core.Verify.{verify, conclude, arguments_ok}
use vecti_license.Core.Verify.Steps.{
  key_list, byte_at, rd_le32, parse_payload, find_key, on_list, is_revoked, signed_message,
}
use vecti_license.Core.Verify.Steps.{
  decode_step, known_key, header_step, revocation_step, compare_device, device_step,
}
use vecti_license.Core.Verify.Steps.{
  mark_stored, compare_mark, check_window, clock_step, signature_step, checks,
}
use vecti_license.Sha512.{initial}
use vecti_license.Ed25519.{
  Curve, ed25519_verify, scalar_loop, equation, unpackneg, unless_low, is_low_order,
}
use vecti_license.Ed25519.Key.{PacksBytes}
use vecti_license.Core.Verify.Tests.{memory, board, vendor, blob, licence}
use vecti_license.Core.Verify.Authentic.{signature_check, IsAuthentic, verify-IsAuthentic}
use vecti_license.Hash.{Ctx, Words}
use mathlib.Core.List.{Memᴰ}

-- A point is a number, and every point packs to the same 32 bytes.
abbrev stand_in : Curve
stand_in = record {
  Point = ℕ;
  canonical_y = λ pk. 9 ∷ replicate 31 0;
  recover = λ pk. some 7;
  reduce = λ h. [];
  scalarmult = λ p h. p;
  scalarbase = λ s. 1;
  add_points = λ p q. 3;
  pack = λ p. 9 ∷ replicate 31 0;
}

stand_in-PacksBytes : PacksBytes stand_in
stand_in-PacksBytes = record { packed = λ p. omega arith; coordinate = λ pk. omega arith }

abbrev hash_stack : Ctx Words
hash_stack = record { state = initial; count = 0; buffer = replicate 128 0xaa; buffer_len = 0 }

accepted :
    verify
      (signature_check stand_in hash_stack (replicate 64 0))
      memory
      (some blob)
      (some (vendor 9))
      (some (board 1000))
      (some zero_license)
      0
    ≡ (ok, some licence, 1000)
unfolding verify conclude arguments_ok checks decode_step base32_decode decode_loop absorb_value
    push_digit b32_val decode_finish header_step parse_payload byte_at rd_le32 find_key known_key
    signature_step signed_message device_step compare_device compute_fingerprint fingerprint_with
    fingerprint_end segments_loop absorb_segment sha256_init sha256_update sha256_final compress
    absorb close load_words store_words length_field ct_eq diff_loop secure_wipe revocation_step
    is_revoked on_list clock_step check_window compare_mark mark_stored signature_check
    ed25519_verify scalar_loop equation unpackneg unless_low is_low_order
accepted = refl

verify-IsAuthentic_example :
    (pk : PubKey) × Memᴰ pk (key_list (vendor 9).keys) × IsAuthentic stand_in blob pk
verify-IsAuthentic_example =
    verify-IsAuthentic stand_in hash_stack (replicate 64 0) memory blob (vendor 9) (board 1000)
      (some zero_license) (some licence) 0 1000 stand_in-PacksBytes refl (omega arith) accepted
