-- ===== src/Core/Fingerprint/Tests.antt =====
-- core/vl_core.c: the fingerprint of a platform with two segments, and the theorems there.
use vecti_license.Base.{
  ℕ, zero, suc, ◌≡◌, ◌≢◌, ◌⊎◌, refl, arith, some, List, [], ◌∷◌, ◌++◌, replicate, take, length,
}
use vecti_license.Hash.{Ctx, Words, absorb, close, load_words, store_words, length_field}
use vecti_license.Base32.{base32_decode}
use vecti_license.Util.{secure_wipe}
use vecti_license.Sha256.{sha256_init, sha256_update, sha256_final, compress, initial}
use vecti_license.Sha256.Digest.{digest}
use vecti_license.Api.{ok, platform, no_more_segments, Segment, id_segment_count_max}
use vecti_license.Core.Fingerprint.{
  fingerprint_with, fingerprint_end, segments_loop, absorb_segment, fp_domain, encode_device_id,
}
use vecti_license.Core.Fingerprint.Identity.{
  encode_segments, identity, fingerprint_result, FillsBuffer, fingerprint_refines,
}
use vecti_license.Core.Fingerprint.Binding.{fingerprint_binds}
use vecti_license.Core.Fingerprint.DeviceId.{encode_device_id_reads_back}

abbrev pub stack : Ctx Words
stack = record { state = initial; count = 9; buffer = replicate 64 0xaa; buffer_len = 3 }

-- A platform with the segments "AB" and "C"; the world counts its calls.
abbrev pub two_segments : ℕ → ℕ → ℕ → Segment × ℕ
two_segments zero capacity w =
    (record { status = ok; bytes = b'A' ∷ b'B' ∷ replicate 253 0; len = 2 }, suc w)
two_segments (suc zero) capacity w =
    (record { status = ok; bytes = b'C' ∷ replicate 254 0; len = 1 }, suc w)
two_segments (suc (suc idx)) capacity w =
    (record { status = no_more_segments; bytes = replicate 255 0; len = 0 }, suc w)

two_segments-FillsBuffer : FillsBuffer two_segments
two_segments-FillsBuffer zero w = refl
two_segments-FillsBuffer (suc zero) w = refl
two_segments-FillsBuffer (suc (suc idx)) w = refl

abbrev two_segments_digest : List ℕ
two_segments_digest =
    9 ∷ 252 ∷ 242 ∷ 205 ∷ 163 ∷ 156 ∷ 96 ∷ 199 ∷ 100 ∷ 41 ∷ 102 ∷ 125 ∷ 229 ∷ 214 ∷ 214 ∷ 243 ∷ 71
    ∷ 206 ∷ 210 ∷ 135 ∷ 77 ∷ 31 ∷ 234 ∷ 26 ∷ 4 ∷ 222 ∷ 183 ∷ 43 ∷ 200 ∷ 92 ∷ 149 ∷ 159 ∷ []

two_segments_run :
    fingerprint_with stack (some two_segments) (some (replicate 32 0xcc)) 0
    ≡ (ok, some two_segments_digest, 3)
unfolding fingerprint_with fingerprint_end segments_loop absorb_segment sha256_init sha256_update
    sha256_final compress absorb close load_words store_words length_field
two_segments_run = refl

no_segments_run :
    fingerprint_with stack (some (λ idx. two_segments (suc (suc idx)))) (some (replicate 32 0xcc)) 0
    ≡ (platform, some (replicate 32 0), 1)
unfolding fingerprint_with fingerprint_end segments_loop absorb_segment secure_wipe
no_segments_run = refl

fingerprint_refines_example :
    fingerprint_with stack (some two_segments) (some (replicate 32 0xcc)) 0
    ≡ fingerprint_result (identity two_segments id_segment_count_max 0 0)
fingerprint_refines_example =
    fingerprint_refines two_segments two_segments-FillsBuffer stack (replicate 32 0xcc) 0 refl refl

fingerprint_binds_example :
    let segs = (identity two_segments id_segment_count_max 0 0).1 in
    (segs ≡ segs)
    ⊎ ((fp_domain ++ encode_segments segs ≢ fp_domain ++ encode_segments segs)
        × (digest (fp_domain ++ encode_segments segs) ≡ digest (fp_domain ++ encode_segments segs)))
fingerprint_binds_example =
    fingerprint_binds two_segments two_segments two_segments-FillsBuffer two_segments-FillsBuffer
      stack (replicate 32 0xcc) two_segments_digest 0 0 3 3 refl refl two_segments_run
      two_segments_run

encode_device_id_reads_back_example :
    (text : List ℕ) × (encode_device_id (some two_segments_digest) (some 27) ≡ (ok, some text))
    × (length text ≡ 26)
    × (base32_decode (some text) (some 16) 16 ≡ some (take 16 two_segments_digest))
encode_device_id_reads_back_example =
    encode_device_id_reads_back two_segments_digest 27 (omega arith) refl (omega arith)
