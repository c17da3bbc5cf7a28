-- ===== src/Core/Verify/Tests.antt =====
-- core/vl_core.c: vl_verify on a concrete licence, and the theorems there.
use vecti_license.Base.{sym, ◌∙◌}
use vecti_license.Base.{ℕ, ◌≡◌, ◌≢◌, refl, arith, ◌==◌, Bool, none, some, List, [], ◌∷◌, replicate}
use vecti_license.Hash.{absorb, close, load_words, store_words, length_field}
use vecti_license.Util.{ct_eq, diff_loop, secure_wipe}
use vecti_license.Base32.{base32_decode, decode_loop, push_digit, b32_val, decode_finish}
use vecti_license.Base32.{absorb as absorb_value}
use vecti_license.Sha256.{sha256_init, sha256_update, sha256_final, compress}
use vecti_license.Api.{
  ok, bad_signature, expired, clock_rollback, Hal, PubKey, Config, License, zero_license,
}
use vecti_license.Core.Fingerprint.{
  compute_fingerprint, fingerprint_with, fingerprint_end, segments_loop, absorb_segment,
}
use vecti_license.Core.Fingerprint.Tests.{stack, two_segments}
use vecti_license.Core.Verify.{verify, conclude, arguments_ok, stored}
use vecti_license.Core.Verify.Steps.{
  Memory, byte_at, rd_le32, parse_payload, find_key, on_list, is_revoked, signed_message,
}
use vecti_license.Core.Verify.Steps.{
  decode_step, known_key, header_step, revocation_step, compare_device, device_step,
}
use vecti_license.Core.Verify.Steps.{
  mark_stored, compare_mark, check_window, clock_step, signature_step, checks,
}
use vecti_license.Core.Verify.Accepts.{Verified}
use vecti_license.Core.Verify.Monad.{pass}
use vecti_license.Core.Verify.Sound.{verify_sound, verify_clears, checks-Verified}
use vecti_license.Core.Verify.Complete.{HasDistinctIds, verify_complete}
use mathlib.Core.List.Memᴰ.{head, tail}
use vecti_license.Core.Verify.Order.{Signed, verify_calls_after_signature}

abbrev pub memory : Memory
memory = record { hash = stack; fingerprint = replicate 32 0xcc }

-- In place of the signature check: the signature's first byte is the key's.
abbrev pub same_byte : List ℕ → List ℕ → List ℕ → Bool
same_byte sig msg key = byte_at sig 0 == byte_at key 0

-- The world is the stored mark, which the calls of two_segments raise as well.
abbrev pub board : ℕ → Hal ℕ
board now = record {
  read_id_segment = some two_segments;
  now_epoch = some (λ w. (ok, now, w));
  hwm_load = some (λ w. (ok, w, w));
  hwm_store = some (λ epoch w. (ok, epoch));
  blob_load = none;
  blob_store = none;
  secure_posture = none;
}

abbrev pub vendor : ℕ → Config
vendor byte = record {
  keys = some (record { key_id = 7; key = byte ∷ replicate 31 0 } ∷ []);
  family = 3;
  revoked_serials = some (41 ∷ 43 ∷ []);
  flags = 2;
}

abbrev pub blob : List ℕ
blob =
    b'A' ∷ b'R' ∷ b'0' ∷ b'G' ∷ b'E' ∷ b'0' ∷ b'R' ∷ b'5' ∷ b'0' ∷ b'0' ∷ b'0' ∷ b'8' ∷ b'0' ∷ b'2'
    ∷ b'F' ∷ b'W' ∷ b'Y' ∷ b'B' ∷ b'6' ∷ b'T' ∷ b'7' ∷ b'7' ∷ b'3' ∷ b'0' ∷ b'R' ∷ b'X' ∷ b'J'
    ∷ b'2' ∷ b'J' ∷ b'S' ∷ b'K' ∷ b'X' ∷ b'W' ∷ b'Q' ∷ b'B' ∷ b'D' ∷ b'D' ∷ b'W' ∷ b'V' ∷ b'4'
    ∷ b'0' ∷ b'0' ∷ b'0' ∷ b'0' ∷ b'1' ∷ b'2' ∷ b'0' ∷ b'K' ∷ b'0' ∷ b'0' ∷ b'0' ∷ b'2' ∷ b'M'
    ∷ b'0' ∷ b'0' ∷ b'0' ∷ b'0' ∷ b'0' ∷ b'4' ∷ b'G' ∷ b'0' ∷ b'0' ∷ b'0' ∷ b'0' ∷ b'0' ∷ b'0'
    ∷ b'0' ∷ b'0' ∷ b'0' ∷ b'0' ∷ b'0' ∷ b'0' ∷ b'0' ∷ b'0' ∷ b'0' ∷ b'0' ∷ b'0' ∷ b'0' ∷ b'0'
    ∷ b'0' ∷ b'0' ∷ b'0' ∷ b'0' ∷ b'0' ∷ b'0' ∷ b'0' ∷ b'0' ∷ b'0' ∷ b'0' ∷ b'0' ∷ b'0' ∷ b'0'
    ∷ b'0' ∷ b'0' ∷ b'0' ∷ b'0' ∷ b'0' ∷ b'0' ∷ b'0' ∷ b'0' ∷ b'0' ∷ b'0' ∷ b'0' ∷ b'0' ∷ b'0'
    ∷ b'0' ∷ b'0' ∷ b'0' ∷ b'0' ∷ b'0' ∷ b'0' ∷ b'0' ∷ b'0' ∷ b'0' ∷ b'0' ∷ b'0' ∷ b'0' ∷ b'0'
    ∷ b'0' ∷ b'0' ∷ b'0' ∷ b'0' ∷ b'0' ∷ b'0' ∷ b'0' ∷ b'0' ∷ b'0' ∷ b'0' ∷ b'0' ∷ b'0' ∷ b'0'
    ∷ b'0' ∷ b'0' ∷ b'0' ∷ b'0' ∷ b'0' ∷ b'0' ∷ b'0' ∷ b'0' ∷ b'0' ∷ b'0' ∷ b'0' ∷ b'0' ∷ b'0'
    ∷ b'0' ∷ b'0' ∷ b'0' ∷ b'0' ∷ b'0' ∷ b'0' ∷ b'0' ∷ b'0' ∷ b'0' ∷ b'0' ∷ b'0' ∷ b'0' ∷ b'0'
    ∷ b'0' ∷ b'0' ∷ b'0' ∷ []

abbrev pub licence : License
licence = record {
  version = 1;
  key_id = 7;
  family = 3;
  features = 0x80000005;
  device_id =
      9 ∷ 252 ∷ 242 ∷ 205 ∷ 163 ∷ 156 ∷ 96 ∷ 199 ∷ 100 ∷ 41 ∷ 102 ∷ 125 ∷ 229 ∷ 214 ∷ 214 ∷ 243
      ∷ [];
  not_before = 100;
  not_after = 5000;
  serial = 42;
  checked = 31;
}

verify_accepts :
    verify same_byte memory (some blob) (some (vendor 9)) (some (board 1000)) (some zero_license) 0
    ≡ (ok, some licence, 1000)
unfolding verify conclude arguments_ok checks decode_step base32_decode decode_loop absorb_value
    push_digit b32_val decode_finish header_step parse_payload byte_at rd_le32 find_key known_key
    signature_step signed_message device_step compare_device compute_fingerprint fingerprint_with
    fingerprint_end segments_loop absorb_segment sha256_init sha256_update sha256_final compress
    absorb close load_words store_words length_field ct_eq diff_loop secure_wipe revocation_step
    is_revoked on_list clock_step check_window compare_mark mark_stored
verify_accepts = refl

verify_expired :
    verify same_byte memory (some blob) (some (vendor 9)) (some (board 5001)) (some licence) 0
    ≡ (expired, some zero_license, 3)
unfolding verify conclude arguments_ok checks decode_step base32_decode decode_loop absorb_value
    push_digit b32_val decode_finish header_step parse_payload byte_at rd_le32 find_key known_key
    signature_step signed_message device_step compare_device compute_fingerprint fingerprint_with
    fingerprint_end segments_loop absorb_segment sha256_init sha256_update sha256_final compress
    absorb close load_words store_words length_field ct_eq diff_loop secure_wipe revocation_step
    is_revoked on_list clock_step check_window compare_mark mark_stored
verify_expired = refl

verify_rolled_back :
    verify same_byte memory (some blob) (some (vendor 9)) (some (board 1000)) (some licence) 2000
    ≡ (clock_rollback, some zero_license, 2003)
unfolding verify conclude arguments_ok checks decode_step base32_decode decode_loop absorb_value
    push_digit b32_val decode_finish header_step parse_payload byte_at rd_le32 find_key known_key
    signature_step signed_message device_step compare_device compute_fingerprint fingerprint_with
    fingerprint_end segments_loop absorb_segment sha256_init sha256_update sha256_final compress
    absorb close load_words store_words length_field ct_eq diff_loop secure_wipe revocation_step
    is_revoked on_list clock_step check_window compare_mark mark_stored
verify_rolled_back = refl

verify_forged :
    verify same_byte memory (some blob) (some (vendor 8)) (some (board 1000)) (some licence) 0
    ≡ (bad_signature, some zero_license, 0)
unfolding verify conclude arguments_ok checks decode_step base32_decode decode_loop absorb_value
    push_digit b32_val decode_finish header_step parse_payload byte_at rd_le32 find_key known_key
    signature_step signed_message device_step compare_device compute_fingerprint fingerprint_with
    fingerprint_end segments_loop absorb_segment sha256_init sha256_update sha256_final compress
    absorb close load_words store_words length_field ct_eq diff_loop secure_wipe revocation_step
    is_revoked on_list clock_step check_window compare_mark mark_stored
verify_forged = refl

verify_sound_example :
    (text : List ℕ) × (c : Config) × (h : Hal ℕ) × (lic : License) × (some blob ≡ some text)
    × (some (vendor 9) ≡ some c)
    × (some (board 1000) ≡ some h)
    × (some licence ≡ stored (some zero_license) lic)
    × Verified same_byte memory text c h lic 0 1000
verify_sound_example =
    verify_sound same_byte memory (some blob) (some (vendor 9)) (some (board 1000))
      (some zero_license) (some licence) 0 1000 verify_accepts

is_expired : expired ≢ ok
is_expired e = cc

verify_clears_example :
    (verify same_byte memory (some blob) (some (vendor 9)) (some (board 5001)) (some licence) 0).1
    ≡ some zero_license
verify_clears_example =
    verify_clears same_byte memory (some blob) (some (vendor 9)) (some (board 5001)) licence 0
      (rw verify_expired is_expired)

-- The store at 1000 is seen in the world.
world_moves :
    (verify same_byte memory
      (some blob)
      (some (vendor 9))
      (some (board 1000))
      (some zero_license)
      0).2
    ≢ 0
world_moves = rw verify_accepts (omega arith)

verify_calls_after_signature_example : Signed same_byte blob (vendor 9)
verify_calls_after_signature_example =
    verify_calls_after_signature same_byte memory blob (vendor 9) (board 1000) (some zero_license) 0
      world_moves

checks_pass : checks same_byte memory blob (vendor 9) (board 1000) 0 ≡ (pass licence, 1000)
unfolding checks decode_step base32_decode decode_loop absorb_value push_digit b32_val decode_finish
    header_step parse_payload byte_at rd_le32 find_key known_key signature_step signed_message
    device_step compare_device compute_fingerprint fingerprint_with fingerprint_end segments_loop
    absorb_segment sha256_init sha256_update sha256_final compress absorb close load_words
    store_words length_field ct_eq diff_loop secure_wipe revocation_step is_revoked on_list
    clock_step check_window compare_mark mark_stored
checks_pass = refl

one_key : (k : PubKey) → HasDistinctIds (k ∷ [])
one_key k a b (head e) (head f) same = e ∙ sym f
one_key k a b (head e) (tail n) same = elim n [ ]
one_key k a b (tail m) n same = elim m [ ]

verify_complete_example :
    verify same_byte memory (some blob) (some (vendor 9)) (some (board 1000)) (some zero_license) 0
    ≡ (ok, some licence, 1000)
verify_complete_example =
    verify_complete same_byte memory blob (vendor 9) (board 1000) (some zero_license) licence 0 1000
      (unfold arguments_ok in refl) (one_key _)
      (checks-Verified same_byte memory blob (vendor 9) (board 1000) licence 0 1000 checks_pass)
