-- ===== src/Base32/Limits.antt =====
-- core/vl_base32.c: the bounds of the codec, and what it refuses.
use vecti_license.Base.{ℕ, ◌<◌, ◌≤◌, ◌≢◌}
use vecti_license.Base.{◌≡◌, refl, ◌∙◌, sym, ap, subst, arith, none, some, List, [], ◌∷◌}
use vecti_license.Base.{length, map, All}
use vecti_license.Base.{length-map}
use vecti_license.Base.Digits.{Below}
use vecti_license.Base32.{fresh, max_input, chars_of, alpha, encode_loop}
use vecti_license.Base32.{digit, b32_val, base32_encode, base32_decode}
use vecti_license.Base32.Alphabet.{symbols, symbols-small, b32_val-alpha}
use vecti_license.Base32.Decode.{digits_loop_run}
use vecti_license.Base32.Loop.{decode_finish-ok}
use vecti_license.Base32.RoundTrip.{decode_ok, fresh-IsDecoder, encoding-Encoded}

abbrev pub IsSignificant : ℕ → Type 0
IsSignificant c = (v : ℕ) × (b32_val c ≡ digit v) × (c ≡ alpha v)

map-alpha-IsSignificant : (vs : List ℕ) → All (Below 32) vs → All IsSignificant (map alpha vs)
map-alpha-IsSignificant [] h = tt
map-alpha-IsSignificant (v ∷ vs) h =
    ((v, b32_val-alpha v h.0, refl), map-alpha-IsSignificant vs h.1)

-- The text that the encoder writes for bytes has VL_BASE32_CHARS(in_len) characters, each one of the
-- alphabet in its own spelling, and leaves room for the NUL.
pub base32_encode_shape :
    (bs : List ℕ) (room : ℕ) {text : List ℕ}
    → All (Below 256) bs
    → base32_encode (some bs) (some room) ≡ some text
    → (length text ≡ chars_of (length bs)) × (length text < room) × All IsSignificant text
unfolding base32_encode
base32_encode_shape bs room {text} bytes run =
    let enc = encoding-Encoded bs bytes in
    let (same, limit, fits) = accepted in
    let size : length text ≡ length enc.values =
      ap length (sym same ∙ enc.spelled) ∙ length-map enc.values alpha in
    let count : length text ≡ chars_of (length bs) =
      omega (arith, size, enc.same_bits, enc.short, limit) in
    (
      count,
      omega (arith, count, fits),
      subst (All IsSignificant) (sym enc.spelled ∙ same)
          (map-alpha-IsSignificant enc.values enc.small),
    )
  where
    accepted : (encode_loop bs 0 0 [] ≡ text) × (length bs ≤ 512) × (chars_of (length bs) < room)
    accepted = ground arith

-- What the decoder accepts fits the output buffer, consists of bytes, and comes from a text of at
-- most 1024 characters in which every character is in the alphabet or ignored.
pub base32_decode_bounds :
    (s : List ℕ) (capacity expect : ℕ) {bs : List ℕ}
    → base32_decode (some s) (some capacity) expect ≡ some bs
    → (length bs ≤ capacity) × All (Below 256) bs × (length s ≤ max_input) × (symbols s ≢ none)
base32_decode_bounds s capacity expect {bs} run =
    let (vs, spelled, e, loop, finish, short) = decode_ok s capacity expect run in
    let (all, inside) =
      digits_loop_run capacity vs fresh fresh-IsDecoder (symbols-small s spelled) (omega arith)
        loop in
    let (out, clean, counts) = decode_finish-ok expect e all.valid finish in
    (
      subst (λ o. length o ≤ capacity) out inside,
      subst (All (Below 256)) out all.valid.bytes,
      short,
      λ missing. cc (spelled, missing),
    )
