-- ===== src/Base32/Tests.antt =====
-- core/vl_base32.c: concrete runs, and the theorems at concrete inputs.
use vecti_license.Base.{ℕ, ◌≤◌, ◌≢◌, ◌≡◌, refl, arith, none, some, List, [], ◌∷◌}
use vecti_license.Base.{inr, length, ◌>>=◌, All}
use vecti_license.Base.Digits.{Below}
use vecti_license.Base32.{
  base32_encode, base32_decode, encode_loop, drain, b32_val, decode_loop, absorb,
}
use vecti_license.Base32.{push_digit, decode_finish, max_input}
use vecti_license.Base32.Alphabet.{symbols}
use vecti_license.Base32.RoundTrip.{base32_decode-base32_encode, base32_decode_canonical}
use vecti_license.Base32.Respelling.{
  Respelled, next, skips, finished, flipped, small, letter_o, dash, blank, newline,
  base32_decode_respelled,
}
use vecti_license.Base32.Limits.{base32_decode_bounds}

abbrev header : List ℕ
header = 0x56 ∷ 0x01 ∷ 0xff ∷ []

-- "AR0ZY", and the same as a customer may type it
abbrev header_text : List ℕ
header_text = b'A' ∷ b'R' ∷ b'0' ∷ b'Z' ∷ b'Y' ∷ []

abbrev typed : List ℕ
typed = b'a' ∷ b'r' ∷ b'-' ∷ b'O' ∷ b'z' ∷ 32 ∷ b'y' ∷ 10 ∷ []

encode_header : base32_encode (some header) (some 6) ≡ some header_text
unfolding base32_encode encode_loop drain
encode_header = refl

encode_no_room : base32_encode (some header) (some 5) ≡ none
unfolding base32_encode
encode_no_room = refl

decode_typed : base32_decode (some typed) (some 3) 3 ≡ some header
unfolding base32_decode decode_loop absorb push_digit b32_val decode_finish
decode_typed = refl

decode_dirty_padding :
    base32_decode (some (b'A' ∷ b'R' ∷ b'0' ∷ b'Z' ∷ b'Z' ∷ [])) (some 3) 3 ≡ none
unfolding base32_decode decode_loop absorb push_digit b32_val decode_finish
decode_dirty_padding = refl

decode_excluded_letter : base32_decode (some (b'u' ∷ b'0' ∷ [])) (some 3) 0 ≡ none
unfolding base32_decode decode_loop absorb push_digit b32_val
decode_excluded_letter = refl

base32_decode-base32_encode_example :
    (base32_encode (some header) (some 6) >>= λ text. base32_decode (some text) (some 3) 3)
    ≡ some header
base32_decode-base32_encode_example =
    base32_decode-base32_encode header 6 3 3 (omega arith) (omega arith) (omega arith) (omega arith)
      (inr refl)

base32_decode_canonical_example :
    (length header ≡ 3)
    × All (Below 256) header
    × (base32_encode (some header) (some 9) >>= symbols) ≡ symbols typed
base32_decode_canonical_example =
    base32_decode_canonical typed header 3 3 9 (omega arith) (omega arith) (omega arith)
      decode_typed

-- The small letters, the dash, O for 0, the blank and the newline
typed-Respelled : Respelled typed header_text
typed-Respelled = next (flipped (small b'A' (omega arith) (omega arith))) (
    next (flipped (small b'R' (omega arith) (omega arith))) (
      skips dash (
        next letter_o (
          next (flipped (small b'Z' (omega arith) (omega arith))) (
            skips blank (
              next (flipped (small b'Y' (omega arith) (omega arith))) (skips newline finished)))))))

base32_decode_respelled_example :
    base32_decode (some typed) (some 3) 3 ≡ base32_decode (some header_text) (some 3) 3
base32_decode_respelled_example =
    base32_decode_respelled typed header_text 3 3 (omega arith) (omega arith) typed-Respelled

base32_decode_bounds_example :
    (3 ≤ 3) × All (Below 256) header × (length typed ≤ max_input) × (symbols typed ≢ none)
base32_decode_bounds_example = base32_decode_bounds typed 3 3 decode_typed
