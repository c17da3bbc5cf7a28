-- ===== src/Core/Fingerprint.antt =====
-- vl_compute_fingerprint and vl_encode_device_id of core/vl_core.c.
pub mod Identity
pub mod World
pub mod Binding
pub mod DeviceId
pub mod Tests
use vecti_license.Base.{
  ℕ, zero, suc, ◌+◌, ◌%◌, ◌^◌, Option, none, some, List, [], ◌∷◌, Bool, true, false,
}
use vecti_license.Base.{ltb, ◌==◌, ◌!=◌, if◌then◌else◌, length, take}
use vecti_license.Util.{secure_wipe}
use vecti_license.Hash.{Ctx, Words}
use vecti_license.Sha256.{sha256_init, sha256_update, sha256_final}
use vecti_license.Base32.{base32_encode}
use vecti_license.Api.{
  Status, ok, invalid_arg, platform, buffer_too_small, no_more_segments, internal,
}
use vecti_license.Api.{Hal, Segment, id_segment_max, id_segment_count_max, fingerprint_len}
use vecti_license.Api.{device_id_len, device_id_str_len}

-- VL_FP_DOMAIN, "vectilicense:fingerprint:v1"
abbrev pub fp_domain : List ℕ
fp_domain =
    b'v' ∷ b'e' ∷ b'c' ∷ b't' ∷ b'i' ∷ b'l' ∷ b'i' ∷ b'c' ∷ b'e' ∷ b'n' ∷ b's' ∷ b'e' ∷ b':' ∷ b'f'
    ∷ b'i' ∷ b'n' ∷ b'g' ∷ b'e' ∷ b'r' ∷ b'p' ∷ b'r' ∷ b'i' ∷ b'n' ∷ b't' ∷ b':' ∷ b'v' ∷ b'1' ∷ []

-- One accepted segment: its length byte, then its bytes if there are any.
unfoldable pub absorb_segment : Option (Ctx Words) → Segment → Option (Ctx Words)
absorb_segment ctx seg =
    let counted = sha256_update ctx (some ((seg.len % 2 ^ 8) ∷ [])) in
    if ltb 0 seg.len then sha256_update counted (some (take seg.len seg.bytes)) else counted

module _ {W : Type 0} where
  -- The `for` loop, `left` rounds before VL_ID_SEGMENT_COUNT_MAX: the status with which it is left,
  -- the context, the number of accepted segments, and the world.
  unfoldable pub segments_loop :
      (ℕ → ℕ → W → Segment × W)
      → ℕ
      → ℕ
      → Option (Ctx Words)
      → ℕ
      → W
      → Status × Option (Ctx Words) × ℕ × W
  segments_loop read zero idx ctx accepted w = (ok, ctx, accepted, w)
  segments_loop read (suc left) idx ctx accepted w =
      let (seg, w') = read idx id_segment_max w in
      elim (seg.status) [
        | no_more_segments ↦ (ok, ctx, accepted, w')
        | ok ↦
            let rest =
              segments_loop read left (idx + 1) (absorb_segment ctx seg) (accepted + 1) w' in
            if ltb id_segment_max seg.len then (platform, ctx, accepted, w') else rest
        | other ↦ (other, ctx, accepted, w')
      ]

  -- The checks after the loop, the digest, and the wipe of the output on failure
  unfoldable pub fingerprint_end :
      Option (List ℕ) → Status × Option (Ctx Words) × ℕ × W → Status × Option (List ℕ) × W
  fingerprint_end out (ok, ctx, accepted, w) =
      if accepted == 0
      then (platform, secure_wipe out fingerprint_len, w)
      else (ok, (sha256_final ctx out).0, w)
  fingerprint_end out (rc, ctx, accepted, w) = (rc, secure_wipe out fingerprint_len, w)

  -- What `out_fingerprint` points to comes back beside the status. `stack` is the memory that the
  -- hash context is laid in.
  unfoldable pub fingerprint_with :
      Ctx Words
      → Option (ℕ → ℕ → W → Segment × W)
      → Option (List ℕ)
      → W
      → Status × Option (List ℕ) × W
  fingerprint_with stack none out w = (invalid_arg, out, w)
  fingerprint_with stack (some read) none w = (invalid_arg, none, w)
  fingerprint_with stack (some read) (some out) w =
      let ctx = sha256_update (sha256_init (some stack)) (some fp_domain) in
      fingerprint_end (some out) (segments_loop read id_segment_count_max 0 ctx 0 w)

  unfoldable pub compute_fingerprint :
      Ctx Words → Option (Hal W) → Option (List ℕ) → W → Status × Option (List ℕ) × W
  unfolding fingerprint_end segments_loop fingerprint_with
  compute_fingerprint stack none out w = (invalid_arg, out, w)
  compute_fingerprint stack (some hal) out w = fingerprint_with stack hal.read_id_segment out w

-- vl_encode_device_id: the status, and the text that was written. The output buffer is given by its
-- capacity.
unfoldable pub encode_device_id : Option (List ℕ) → Option ℕ → Status × Option (List ℕ)
encode_device_id none out = (invalid_arg, none)
encode_device_id (some fingerprint) none = (invalid_arg, none)
encode_device_id (some fingerprint) (some capacity) =
    if ltb capacity (device_id_str_len + 1)
    then (buffer_too_small, none)
    else elim (base32_encode (some (take device_id_len fingerprint)) (some capacity)) [
      | none ↦ (internal, none)
      | some text ↦
          if length text != device_id_str_len then (internal, some text) else (ok, some text)
    ]
