-- ===== src/Activate/Tests.antt =====
-- examples/posix/vl_activate.c: an activation on a machine whose files all read alike until one is
-- written.
use vecti_license.Base.{sym}
use vecti_license.Base.{ℕ, ◌≡◌, refl, arith, Bool, none, some, List, [], ◌∷◌, replicate}
use vecti_license.Hash.{absorb, close, load_words, store_words, length_field}
use vecti_license.Util.{ct_eq, diff_loop, secure_wipe}
use vecti_license.Base32.{base32_decode, decode_loop, push_digit, b32_val, decode_finish}
use vecti_license.Base32.{absorb as absorb_value}
use vecti_license.Sha256.{sha256_init, sha256_update, sha256_final, compress}
use vecti_license.Api.{zero_license}
use vecti_license.Core.Fingerprint.{
  compute_fingerprint, fingerprint_with, fingerprint_end, segments_loop, absorb_segment,
}
use vecti_license.Core.Verify.{verify, conclude, arguments_ok}
use vecti_license.Core.Verify.Steps.{
  byte_at, rd_le32, parse_payload, find_key, on_list, is_revoked, signed_message,
}
use vecti_license.Core.Verify.Steps.{
  decode_step, known_key, header_step, revocation_step, compare_device, device_step,
}
use vecti_license.Core.Verify.Steps.{
  mark_stored, compare_mark, check_window, clock_step, signature_step, checks,
}
use vecti_license.Base.{true, refl, length, Option, ap}
use vecti_license.Base.Text.{codes}
use vecti_license.Hal.{since_epoch}
use vecti_license.Hal.Posix.{Os}
use vecti_license.Hal.Posix.Text.{read_text_file, trim_loop}
use vecti_license.Hal.Posix.Interfaces.{
  mac_is_meaningful, is_skipped, iface_score, better, read_iface_mac, has_mac, is_eligible,
  pick_loop, picked, pick_iface,
}
use vecti_license.Hal.Posix.State.{state_path, file_written, epoch_of, posix_blob_store}
use vecti_license.Hal.Posix.Stored.{Keeps}
use vecti_license.Hal.Posix.Segments.{
  fgets, after_colon, skip_blanks, copy_value, serial_line, serial_loop, posix_ctx, posix_segment,
  chosen_iface, mac_segment, segment_out, read_machine_id, read_board_serial,
}
use vecti_license.Core.Verify.Tests.{memory}
use vecti_license.Core.Query.{posture}
use vecti_license.Api.{unknown}
use vecti_license.Activate.{
  Format, Stack, activate_main, run, is_quiet, choose, checked_blob, judged, kept, store_lines,
  banner, id_lines, posture_lines,
}
use vecti_license.Activate.Persists.{IsPlain}
use vecti_license.Activate.Activated.{Activated, activation_persists}

-- The world is what has been written last.
abbrev disk : Os (Option (List ℕ))
disk = record {
  read_file =
      λ path w. elim w [ none ↦ some (codes "02:42:ac:11:00:02\n") | some bytes ↦ some bytes ];
  list_dir = λ path w. some (codes "lo" ∷ codes "eth0" ∷ []);
  write_file = λ path bytes w. (some (length bytes, true), some bytes);
  time = λ w. since_epoch 1700000000;
}

disk-Keeps : Keeps disk
disk-Keeps path bytes w w' written =
    ap
      (λ (r : Option (ℕ × Bool) × Option (List ℕ)). elim (r.1) [
        | none ↦ some (codes "02:42:ac:11:00:02\n")
        | some got ↦ some got
      ])
      (sym written)

abbrev plain_format : Format
plain_format = record { decimal = λ n. n ∷ []; hex8 = λ n. n ∷ []; hex2 = λ n. n ∷ [] }

abbrev stack_of_main : Stack
stack_of_main = record {
  mem = memory;
  stored = replicate 161 0xcc;
  lic = zero_license;
  posture = record { secure_boot = unknown; flash_encryption = unknown };
}

-- Every signature is taken.
abbrev any_signature : List ℕ → List ℕ → List ℕ → Bool
any_signature sig msg key = true

abbrev pasted : List ℕ
pasted =
    codes
      "AR0G208D00001K9ZB1ZPKB9Y5QPDKRFD922FC2R000000000000EJ0R0003GE1R70W3GE1R70W3GE1R70W3GE1R70W3GE1R70W3GE1R70W3GE1R70W3GE1R70W3GE1R70W3GE1R70W3GE1R70W3GE1R70W3GE1R7"

pasted-IsPlain : IsPlain pasted
pasted-IsPlain = record { visible = omega arith; last = 159; size = refl; ends = refl }

activates :
    (activate_main plain_format any_signature stack_of_main disk
      (replicate 255 0)
      (codes "vl_activate")
      (pasted ∷ [])
      none).0
    ≡ 0
unfolding verify conclude arguments_ok checks decode_step base32_decode decode_loop absorb_value
    push_digit b32_val decode_finish header_step parse_payload byte_at rd_le32 find_key known_key
    signature_step signed_message device_step compare_device compute_fingerprint fingerprint_with
    fingerprint_end segments_loop absorb_segment sha256_init sha256_update sha256_final compress
    absorb close load_words store_words length_field ct_eq diff_loop secure_wipe revocation_step
    is_revoked on_list clock_step check_window compare_mark mark_stored activate_main run posix_ctx
    is_quiet choose checked_blob judged kept store_lines banner id_lines posture_lines posture
    posix_segment chosen_iface pick_iface picked pick_loop is_eligible is_skipped has_mac
    mac_is_meaningful read_iface_mac read_text_file trim_loop better iface_score mac_segment
    segment_out read_machine_id read_board_serial serial_loop fgets serial_line after_colon
    skip_blanks copy_value epoch_of posix_blob_store state_path file_written
activates = refl

activation_persists_example :
    Activated plain_format any_signature disk
      (replicate 255 0)
      stack_of_main
      pasted
      (activate_main plain_format any_signature stack_of_main disk
        (replicate 255 0)
        (codes "vl_activate")
        (pasted ∷ [])
        none).2
activation_persists_example =
    activation_persists plain_format any_signature disk (replicate 255 0) stack_of_main
      (codes "vl_activate") pasted none disk-Keeps pasted-IsPlain refl activates
