-- ===== src/Gate/Tests.antt =====
-- examples/baremetal/vl_gate.c: a board that boots with a licence stored.
use vecti_license.Base.{ℕ, ◌≡◌, refl, ◌!=◌, true, some, List, [], ◌∷◌, replicate}
use vecti_license.Base.Text.{codes}
use vecti_license.Hash.{absorb, close, load_words, store_words, length_field}
use vecti_license.Util.{ct_eq, diff_loop, secure_wipe}
use vecti_license.Base32.{base32_decode, decode_loop, push_digit, b32_val, decode_finish}
use vecti_license.Base32.{absorb as absorb_value}
use vecti_license.Sha256.{sha256_init, sha256_update, sha256_final, compress}
use vecti_license.Core.Fingerprint.{
  compute_fingerprint, fingerprint_with, fingerprint_end, segments_loop, absorb_segment,
}
use vecti_license.Core.Verify.{verify, conclude, arguments_ok}
use vecti_license.Core.Verify.Steps.{byte_at, rd_le32, parse_payload, find_key, signed_message}
use vecti_license.Core.Verify.Steps.{
  decode_step, known_key, header_step, revocation_step, compare_device, device_step,
}
use vecti_license.Core.Verify.Steps.{clock_step, signature_step, checks}
use vecti_license.Core.Verify.Tests.{memory, same_byte}
use vecti_license.Core.Query.{has_feature}
use vecti_license.Gate.{
  Board, Gate, gate_config, gate_start, gate_allows, gate_init, init_with, all_same, uid_read,
  serial_read, board_segment,
}
use vecti_license.Gate.Allows.{Accepted, started, inited, gate_allows-Accepted}

-- The world is what has been printed last.
abbrev board : Board (List ℕ)
board = record {
  uid = 1 ∷ 2 ∷ 3 ∷ 4 ∷ 5 ∷ 6 ∷ 7 ∷ 8 ∷ 9 ∷ 10 ∷ 11 ∷ 12 ∷ [];
  serial = 1 ∷ 2 ∷ 3 ∷ 4 ∷ [];
  load_blob = λ w. (
    some (
        codes
          "AR0G20R5000003E3ENG4CB3MYNZPPX68VK8JAP80000000000002M00001R00000000000000000000000000000000000000000000000000000000000000000000000000000000000000000000000000000"),
    w,
  );
  save_blob = λ blob w. w;
  print = λ text w. text;
}

abbrev booted : Gate × List ℕ
booted = gate_init board same_byte memory gate_config (replicate 255 0) gate_start []

allows_feature : gate_allows 2 booted.0 ≡ true
unfolding init_with all_same uid_read serial_read board_segment has_feature verify conclude
    arguments_ok checks decode_step base32_decode decode_loop absorb_value push_digit b32_val
    decode_finish header_step parse_payload byte_at rd_le32 find_key known_key signature_step
    signed_message device_step compare_device compute_fingerprint fingerprint_with fingerprint_end
    segments_loop absorb_segment sha256_init sha256_update sha256_final compress absorb close
    load_words store_words length_field ct_eq diff_loop secure_wipe revocation_step clock_step
allows_feature = refl

gate_allows-Accepted_example :
    Accepted board same_byte memory gate_config (replicate 255 0) booted.0.license
    × ((has_feature (some booted.0.license) 2 != 0) ≡ true)
gate_allows-Accepted_example =
    gate_allows-Accepted board same_byte memory gate_config (replicate 255 0) 2 booted.0 booted.1
      (inited gate_start [] (started [])) allows_feature
