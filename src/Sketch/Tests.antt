-- ===== src/Sketch/Tests.antt =====
-- examples/esp32-arduino/esp32-arduino.ino: a board that boots with a licence in its NVS.
use vecti_license.Base.{ℕ, ◌≡◌, refl, Bool, some, List, [], ◌∷◌, replicate}
use vecti_license.Hash.{absorb, close, load_words, store_words, length_field}
use vecti_license.Util.{ct_eq, diff_loop, secure_wipe}
use vecti_license.Base32.{base32_decode, decode_loop, push_digit, b32_val, decode_finish}
use vecti_license.Base32.{absorb as absorb_value}
use vecti_license.Sha256.{sha256_init, sha256_update, sha256_final, compress}
use vecti_license.Core.Fingerprint.{
  compute_fingerprint, fingerprint_with, fingerprint_end, segments_loop, absorb_segment,
}
use vecti_license.Core.Verify.{verify, conclude, arguments_ok}
use vecti_license.Core.Verify.Steps.{
  byte_at, rd_le32, parse_payload, find_key, on_list, is_revoked, signed_message,
}
use vecti_license.Core.Verify.Steps.{
  decode_step, known_key, header_step, revocation_step, compare_device, device_step,
}
use vecti_license.Core.Verify.Steps.{
  mark_stored, compare_mark, check_window, clock_step, signature_step, checks,
}
use vecti_license.Base.{true, refl, ◌<◌}
use vecti_license.Base.Text.{codes, Format, copy_text}
use vecti_license.Base.Words.{le_bytes, be_bytes}
use vecti_license.Base32.{base32_encode, encode_loop, drain}
use vecti_license.Core.Fingerprint.{encode_device_id}
use vecti_license.Core.Messages.{status_str}
use vecti_license.Core.Query.{posture, has_feature}
use vecti_license.Core.Verify.Tests.{memory}
use vecti_license.Api.{Posture, unknown}
use vecti_license.Hal.Esp32.{
  esp_segment, mac_read, flash_id_read, esp_epoch, esp_blob_load, esp_blob_read, blob_got,
  esp_posture,
}
use vecti_license.Hal.Esp32.Tests.{Cells, idf}
use vecti_license.Bridge.{
  begin, begin_from, loaded, apply, applied, device_id_text, identified, encoded, posture_or,
  canonical_loop, feature,
}
use vecti_license.Bridge.Summary.{license_summary, append_why}
use vecti_license.Bridge.Net.{attach}
use vecti_license.Bridge.Dash.{attach_card, repaint}
use vecti_license.Bridge.Invariant.{InForce}
use vecti_license.Sketch.{
  Libs, Sketch, other, sketch_config, board, setup, greeted, attached, nvs_ready, say_posture,
  say_licence, report_posture,
}
use vecti_license.Sketch.Features.{booted, sketch_feature-InForce}

-- Libraries that leave the NVS alone
abbrev quiet : Libs Cells
quiet = record {
  arduino = record {
    serial_begin = λ n w. w;
    print = λ text w. w;
    delay = λ n w. w;
    nvs_flash_init = λ w. (other, w);
    nvs_flash_erase = λ w. w;
    on_message = λ w. w;
  };
  idf = idf;
  console = record { say = λ level text w. w; trim = λ s. s };
  portal = record { add_parameter = λ p w. w; param_value = λ key w. [] };
  dash = record {
    set_tab = λ c tab w. w;
    set_value = λ c text w. w;
    set_color = λ c color w. w;
    on_change = λ w. w;
    add_card = λ c w. w;
  };
  updater = record {
    allow_firmware_updates = λ allow w. w;
    allow_filesystem_updates = λ allow w. w;
    allow_pull_mode = λ allow w. w;
  };
}

abbrev plain_format : Format
plain_format = record { decimal = λ n. n ∷ []; hex8 = λ n. n ∷ []; hex2 = λ n. n ∷ [] }

-- Every signature is taken.
abbrev any_signature : List ℕ → List ℕ → List ℕ → Bool
any_signature sig msg key = true

abbrev no_posture : Posture
no_posture = record { secure_boot = unknown; flash_encryption = unknown }

abbrev flashed : Cells
flashed = (
  0,
  codes
      "AR0G20G600001AF7H567PTXMTW5FVG2X6E2RD00000000000000EJ0R0003GE1R70W3GE1R70W3GE1R70W3GE1R70W3GE1R70W3GE1R70W3GE1R70W3GE1R70W3GE1R70W3GE1R70W3GE1R70W3GE1R70W3GE1R7",
)

abbrev running : Sketch Cells × Cells
running =
    setup quiet plain_format (replicate 255 0) memory any_signature (replicate 161 0xcc) no_posture
      flashed

-- The licence has the feature of Modbus.
polls_modbus : feature 2 running.0.object ≡ true
unfolding verify conclude arguments_ok checks decode_step base32_decode decode_loop absorb_value
    push_digit b32_val decode_finish header_step parse_payload byte_at rd_le32 find_key known_key
    signature_step signed_message device_step compare_device compute_fingerprint fingerprint_with
    fingerprint_end segments_loop absorb_segment sha256_init sha256_update sha256_final compress
    absorb close load_words store_words length_field ct_eq diff_loop secure_wipe revocation_step
    is_revoked on_list clock_step check_window compare_mark mark_stored setup greeted attached
    nvs_ready say_posture say_licence report_posture attach attach_card repaint begin begin_from
    loaded apply applied device_id_text identified encoded encode_device_id base32_encode
    encode_loop drain posture_or posture esp_segment mac_read flash_id_read le_bytes be_bytes
    esp_epoch esp_blob_load esp_blob_read blob_got esp_posture license_summary append_why copy_text
    status_str canonical_loop has_feature
polls_modbus = refl

sketch_feature-InForce_example :
    InForce any_signature memory
      (some sketch_config)
      (board quiet plain_format (replicate 255 0) memory)
      running.0.object.lic
      running.0.object.blob
    × (0 < has_feature (some running.0.object.lic) 2)
sketch_feature-InForce_example =
    sketch_feature-InForce quiet plain_format (replicate 255 0) memory any_signature 2 running.0
      running.1 (booted (replicate 161 0xcc) no_posture flashed) polls_modbus
