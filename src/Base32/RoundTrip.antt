-- ===== src/Base32/RoundTrip.antt =====
-- core/vl_base32.c: the encoder and the decoder against each other.
use vecti_license.Base.{ℕ, ◌+◌, ◌*◌, ◌%◌, ◌^◌, ◌<◌, ◌≤◌, ◌⊎◌}
use vecti_license.Base.{◌≡◌, refl, ◌∙◌, sym, ap, subst, arith, some, List, [], inl, inr}
use vecti_license.Base.{length, ◌>>=◌, map, All, >>=-eq-some}
use native.Mathlib.Nat.{mod-lt, one-le-pow}
use vecti_license.Base.{length-map}
use vecti_license.Base.Digits.{Below, number, number-injective, split_digit}
use vecti_license.Base32.{Decoder, fresh, max_input, chars_of, alpha, encode_loop, decode_loop}
use vecti_license.Base32.{decode_finish, base32_encode, base32_decode}
use vecti_license.Base32.Alphabet.{symbols, symbols-small, symbols-alpha}
use vecti_license.Base32.Encode.{Encoded, encode_loop-Encoded}
use vecti_license.Base32.Decode.{
  IsDecoder, AbsorbsAll, digits_loop, digits_loop_total, digits_loop_run,
}
use vecti_license.Base32.Loop.{decode_loop-symbols, decode_loop-short, decode_finish-ok}
use vecti_license.Base32.Loop.{decode_finish-accepts}

pub fresh-IsDecoder : IsDecoder fresh
fresh-IsDecoder = record { bits_below = omega arith; word = omega arith; bytes = tt }

pub encoding-Encoded : (bs : List ℕ) → All (Below 256) bs → Encoded bs 0 0 (encode_loop bs 0 0 [])
encoding-Encoded bs bytes = encode_loop-Encoded bs 0 0 [] (omega arith) (omega arith) bytes tt

-- The encoder accepts up to 512 bytes and a buffer with room for the text and its NUL.
base32_encode-ok :
    (bs : List ℕ) (room : ℕ)
    → length bs ≤ 512
    → chars_of (length bs) < room
    → base32_encode (some bs) (some room) ≡ some (encode_loop bs 0 0 [])
unfolding base32_encode
base32_encode-ok bs room h k = ground arith

base32_decode-symbols :
    (s : List ℕ) (capacity expect : ℕ)
    → expect ≤ capacity
    → length s ≤ max_input
    → base32_decode (some s) (some capacity) expect
      ≡ ((symbols s >>= λ vs. digits_loop capacity vs fresh) >>= decode_finish expect)
unfolding base32_decode
base32_decode-symbols s capacity expect h k =
    rw (← decode_loop-symbols capacity 0 s fresh (omega arith)) (ground arith)

-- Where the bits left over are less than a digit, a text of values is the encoding of the bytes
-- that it decodes to.
values_unique :
    (bs vs text : List ℕ) (rest : ℕ)
    → Encoded bs 0 0 text
    → All (Below 32) vs
    → number 256 bs * 2 ^ rest ≡ number 32 vs
    → 8 * length bs + rest ≡ 5 * length vs
    → rest < 5
    → text ≡ map alpha vs
values_unique bs vs text rest e small same bits short =
    let pads : e.padding ≡ rest = omega (arith, e.same_bits, e.short) in
    e.spelled
    ∙ ap (map alpha) (
        number-injective 32 e.values vs e.small small (omega (arith, e.same_bits))
          (e.same_number ∙ ap (λ k. number 256 bs * 2 ^ k) pads ∙ same))

-- The decoder, having read the encoding of `bs`, holds `bs` and zeros.
reads_back :
    (bs text : List ℕ) (enc : Encoded bs 0 0 text) (e : Decoder)
    → All (Below 256) bs
    → AbsorbsAll fresh enc.values e
    → (e.out ≡ bs) × (e.buffer % 2 ^ e.bits ≡ 0) × (5 * e.chars ≡ 8 * length bs + enc.padding)
reads_back bs text enc e bytes run =
    let bits : e.bits ≡ enc.padding =
      omega (arith, run.same_bits, enc.same_bits, enc.short, run.valid.bits_below) in
    let size : length e.out ≡ length bs = omega (arith, run.same_bits, enc.same_bits) in
    let same : number 256 e.out * 2 ^ e.bits + e.buffer % 2 ^ e.bits
        ≡ number 256 bs * 2 ^ e.bits + 0 =
      run.same_number ∙ enc.same_number ∙ rw bits (omega arith) in
    let (numbers, clean) =
      split_digit (2 ^ e.bits) (number 256 e.out) (number 256 bs) (e.buffer % 2 ^ e.bits) 0
        (mod-lt e.buffer (one-le-pow e.bits 2 (omega arith))) (one-le-pow e.bits 2 (omega arith))
        same in
    (
      number-injective 256 e.out bs run.valid.bytes bytes size numbers,
      clean,
      omega (arith, run.counted, enc.same_bits),
    )

expected_counts :
    (expect chars n m padding : ℕ)
    → (expect ≡ 0) ⊎ (expect ≡ n)
    → m ≡ n
    → 5 * chars ≡ 8 * n + padding
    → padding < 5
    → n ≤ 512
    → (expect ≡ 0) ⊎ ((chars ≡ chars_of expect) × (m ≡ expect))
expected_counts expect chars n m padding (inl e) same count short h = inl e
expected_counts expect chars n m padding (inr e) same count short h = inr (omega arith, omega arith)

-- Up to 512 bytes, encoded into a buffer with room for the text and its NUL, come back from a
-- decoder that has room for them, whether it is told their number or not (0).
pub base32_decode-base32_encode :
    (bs : List ℕ) (room capacity expect : ℕ)
    → All (Below 256) bs
    → length bs ≤ 512
    → chars_of (length bs) < room
    → length bs ≤ capacity
    → (expect ≡ 0) ⊎ (expect ≡ length bs)
    → (base32_encode (some bs) (some room) >>= λ text.
        base32_decode (some text) (some capacity) expect)
      ≡ some bs
base32_decode-base32_encode bs room capacity expect bytes h fits k ex =
    let enc = encoding-Encoded bs bytes in
    let (e, run, all) =
      digits_loop_total capacity enc.values fresh fresh-IsDecoder enc.small
        (omega (arith, enc.same_bits, enc.short)) in
    let (out, clean, count) = reads_back bs (encode_loop bs 0 0 []) enc e bytes all in
    rw
      (
        base32_encode-ok bs room h fits,
        enc.spelled,
        base32_decode-symbols (map alpha enc.values) capacity expect (omega arith)
            (omega (arith, length-map enc.values alpha, enc.same_bits, enc.short)),
        symbols-alpha enc.values enc.small,
        run,
      )
      (decode_finish-accepts expect e all.valid clean (
          expected_counts expect e.chars (length bs) (length e.out) enc.padding ex (ap length out)
            count enc.short h)
        ∙ ap some out)

pub decode_ok :
    (s : List ℕ) (capacity expect : ℕ) {bs : List ℕ}
    → base32_decode (some s) (some capacity) expect ≡ some bs
    → (vs : List ℕ) × (symbols s ≡ some vs)
      × (e : Decoder) × (digits_loop capacity vs fresh ≡ some e)
      × (decode_finish expect e ≡ some bs)
      × (length s ≤ max_input)
unfolding base32_decode
decode_ok s capacity expect {bs} run =
    let guarded : (decode_loop capacity 0 s fresh >>= decode_finish expect) ≡ some bs =
      ground arith in
    let (e, loop, finish) =
      >>=-eq-some (decode_loop capacity 0 s fresh) (decode_finish expect) guarded in
    let short : length s ≤ max_input =
      omega (arith, decode_loop-short capacity 0 s fresh (omega arith) loop) in
    let spelled = rw (decode_loop-symbols capacity 0 s fresh (omega arith)) at loop in
    let (vs, values, digits) =
      >>=-eq-some (symbols s) (λ vs. digits_loop capacity vs fresh) spelled in
    (vs, values, e, digits, finish, short)

-- The text that such a decoder accepts, as values
pub decode_spells :
    (s bs : List ℕ) (capacity expect room : ℕ)
    → 0 < expect
    → expect ≤ 512
    → chars_of expect < room
    → base32_decode (some s) (some capacity) expect ≡ some bs
    → (vs : List ℕ) × (symbols s ≡ some vs)
      × All (Below 32) vs
      × (length vs ≡ chars_of expect)
      × (length bs ≡ expect)
      × All (Below 256) bs
      × (base32_encode (some bs) (some room) ≡ some (map alpha vs))
decode_spells s bs capacity expect room some_expected h fits run =
    let (vs, spelled, e, loop, finish, short) = decode_ok s capacity expect run in
    let small = symbols-small s spelled in
    let (all, inside) =
      digits_loop_run capacity vs fresh fresh-IsDecoder small (omega arith) loop in
    let (out, clean, counts) = decode_finish-ok expect e all.valid finish in
    let (chars, size) = counts (omega arith) in
    let bytes = subst (All (Below 256)) out all.valid.bytes in
    let same_size = ap length out in
    let text =
      values_unique bs vs (encode_loop bs 0 0 []) e.bits (encoding-Encoded bs bytes) small
        (ap (λ (o : List ℕ). number 256 o * 2 ^ e.bits) (sym out)
          ∙ omega (arith, clean, all.same_number))
        (omega (arith, all.same_bits, same_size))
        (omega (arith, all.same_bits, all.counted, chars, size)) in
    let matches : length bs ≡ expect = omega (arith, same_size, size) in
    (
      vs,
      spelled,
      small,
      omega (arith, all.counted, chars),
      matches,
      bytes,
      base32_encode-ok bs room (omega arith) (rw matches fits) ∙ ap some text,
    )

-- A decoder that is told to expect a number of bytes, 1 to 512, accepts a text only if it spells,
-- with no more than grouping, case and aliases to tell them apart, exactly what the encoder writes
-- for the bytes that come back, and these are as many as expected.
pub base32_decode_canonical :
    (s bs : List ℕ) (capacity expect room : ℕ)
    → 0 < expect
    → expect ≤ 512
    → chars_of expect < room
    → base32_decode (some s) (some capacity) expect ≡ some bs
    → (length bs ≡ expect)
      × All (Below 256) bs
      × (base32_encode (some bs) (some room) >>= symbols) ≡ symbols s
base32_decode_canonical s bs capacity expect room some_expected h fits run =
    let (vs, spelled, small, count, matches, bytes, text) =
      decode_spells s bs capacity expect room some_expected h fits run in
    (matches, bytes, rw (text, symbols-alpha vs small, spelled) refl)
