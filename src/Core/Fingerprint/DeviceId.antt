-- ===== src/Core/Fingerprint/DeviceId.antt =====
-- core/vl_core.c: vl_encode_device_id writes the text that the licence's device id decodes from.
use vecti_license.Base.{
  ℕ, zero, suc, ◌+◌, ◌≤◌, ◌≡◌, refl, ap, arith, inr, some, List, [], ◌∷◌, All, length, take,
  length-take, >>=-eq-some, ltb, ◌!=◌, false,
}
use vecti_license.Base.Digits.{Below}
use vecti_license.Base32.{base32_encode, base32_decode, chars_of}
use vecti_license.Base32.RoundTrip.{base32_decode-base32_encode}
use vecti_license.Base32.Limits.{base32_encode_shape}
use vecti_license.Api.{ok, fingerprint_len, device_id_len, device_id_str_len}
use vecti_license.Core.Fingerprint.{encode_device_id}

All-take {ℓ} : {A : Type 0} (P : A → Type ℓ) (n : ℕ) (xs : List A) → All P xs → All P (take n xs)
All-take P zero xs h = tt
All-take P (suc n) [] h = tt
All-take P (suc n) (x ∷ xs) h = (h.0, All-take P n xs h.1)

-- For a fingerprint of 32 bytes and a buffer with room for 26 characters and the NUL, the call
-- succeeds, and its 26 characters decode to the first 16 bytes of the fingerprint.
pub encode_device_id_reads_back :
    (fingerprint : List ℕ) (capacity : ℕ)
    → All (Below 256) fingerprint
    → length fingerprint ≡ fingerprint_len
    → device_id_str_len + 1 ≤ capacity
    → (text : List ℕ) × (encode_device_id (some fingerprint) (some capacity) ≡ (ok, some text))
      × (length text ≡ device_id_str_len)
      × (base32_decode (some text) (some device_id_len) device_id_len
          ≡ some (take device_id_len fingerprint))
unfolding encode_device_id
encode_device_id_reads_back fingerprint capacity bytes size room =
    let id = take device_id_len fingerprint in
    let short : length id ≡ 16 = omega (arith, length-take device_id_len fingerprint, size) in
    let clean = All-take (Below 256) device_id_len fingerprint bytes in
    let needs : chars_of (length id) ≡ 26 = ap chars_of short in
    let (text, wrote, reads) = >>=-eq-some (base32_encode (some id) (some capacity)) _ (
      base32_decode-base32_encode id capacity 16 16 clean (omega arith) (omega arith) (omega arith)
        (inr (omega arith))) in
    let (count, fits, letters) = base32_encode_shape id capacity clean wrote in
    let sized : length text ≡ 26 = omega arith in
    let roomy : ltb capacity 27 ≡ false = ground arith in
    let exact : (length text != 26) ≡ false = ground arith in
    (text, rw (roomy, wrote, exact) refl, sized, reads)
