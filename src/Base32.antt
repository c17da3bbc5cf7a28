-- ===== src/Base32.antt =====
-- core/vl_base32.c and vl_base32.h: the Crockford base32 codec.
-- A byte is a number below 256 and a C string the list of its characters before the NUL.
-- A NULL pointer is `none`. An output buffer is given by its capacity; the list that comes back
-- is what was written to it, and its length the count that the C function returns.
pub mod Alphabet
mod Encode
mod Decode
mod Loop
pub mod Limits
mod Tests
pub mod RoundTrip
pub mod Respelling
use vecti_license.Base.{ℕ, zero, suc, ◌+◌, ◌-◌, ◌*◌, ◌/◌, ◌%◌, ◌^◌, bit_and, bit_or}
use vecti_license.Base.{Bool, true, false, ◌&&◌, ◌||◌, Option, none, some, List, [], ◌∷◌, ◌++◌}
use vecti_license.Base.{ltb, leb, ◌==◌, ◌!=◌, if◌then◌else◌, ◌>>=◌, length, get_or}

-- VL_BASE32_MAX_INPUT
abbrev pub max_input : ℕ
max_input = 1024

-- VL_BASE32_CHARS(n), in a 32-bit size_t
abbrev pub chars_of : ℕ → ℕ
chars_of n = (n * 8 + 4) % 2 ^ 32 / 5

-- ENC_ALPHA
abbrev pub enc_alpha : List ℕ
enc_alpha =
    b'0' ∷ b'1' ∷ b'2' ∷ b'3' ∷ b'4' ∷ b'5' ∷ b'6' ∷ b'7' ∷ b'8' ∷ b'9' ∷ b'A' ∷ b'B' ∷ b'C' ∷ b'D'
    ∷ b'E' ∷ b'F' ∷ b'G' ∷ b'H' ∷ b'J' ∷ b'K' ∷ b'M' ∷ b'N' ∷ b'P' ∷ b'Q' ∷ b'R' ∷ b'S' ∷ b'T'
    ∷ b'V' ∷ b'W' ∷ b'X' ∷ b'Y' ∷ b'Z' ∷ []

abbrev pub alpha : ℕ → ℕ
alpha v = get_or enc_alpha v 0

-- What `b32_val` answers: 0..31, -2 (grouping) or -1 (invalid).
pub data Value : Type 0 where
  digit : ℕ → Value
  grouping invalid : Value

-- A2V, the values of 'A'..'Z'; its -1 is `invalid`
abbrev pub letters : List Value
letters =
    digit 10
    ∷ digit 11
    ∷ digit 12
    ∷ digit 13
    ∷ digit 14
    ∷ digit 15
    ∷ digit 16
    ∷ digit 17
    ∷ digit 1
    ∷ digit 18
    ∷ digit 19
    ∷ digit 1
    ∷ digit 20
    ∷ digit 21
    ∷ digit 0
    ∷ digit 22
    ∷ digit 23
    ∷ digit 24
    ∷ digit 25
    ∷ digit 26
    ∷ invalid
    ∷ digit 27
    ∷ digit 28
    ∷ digit 29
    ∷ digit 30
    ∷ digit 31
    ∷ []

abbrev upper : ℕ → ℕ
upper c = if leb b'a' c && leb c b'z' then c - 32 else c

abbrev letter : ℕ → Value
letter c = if leb b'A' c && leb c b'Z' then get_or letters (c - b'A') invalid else invalid

unfoldable pub b32_val : ℕ → Value
b32_val c =
    if c == b'-' || (c == 32 || (c == 9 || (c == 13 || c == 10)))
    then grouping
    else if leb b'0' c && leb c b'9'
    then digit (c - b'0')
    else letter (upper c)

-- `while (bits >= 5)` of the encoder
unfoldable pub drain : ℕ → ℕ → List ℕ → ℕ × List ℕ
drain (suc (suc (suc (suc (suc bits))))) buffer out =
    drain bits buffer (out ++ alpha (bit_and (buffer / 2 ^ bits) 0x1f) ∷ [])
drain bits buffer out = (bits, out)

-- The `for` loop of the encoder, and the padding after it
unfoldable pub encode_loop : List ℕ → ℕ → ℕ → List ℕ → List ℕ
encode_loop [] buffer bits out =
    if ltb 0 bits then out ++ alpha (bit_and (buffer * 2 ^ (5 - bits) % 2 ^ 32) 0x1f) ∷ [] else out
encode_loop (byte ∷ rest) buffer bits out =
    let buffer' = bit_or (buffer * 2 ^ 8 % 2 ^ 32) byte in
    let (bits', out') = drain (bits + 8) buffer' out in encode_loop rest buffer' bits' out'

-- `none` is the return of -1.
unfoldable pub base32_encode : Option (List ℕ) → Option ℕ → Option (List ℕ)
base32_encode none out = none
base32_encode (some input) none = none
base32_encode (some input) (some capacity) =
    if ltb (max_input / 2) (length input)
    then none
    else if ltb capacity (chars_of (length input) + 1)
    then none
    else some (encode_loop input 0 0 [])

-- The locals of the decoder's loop; `out_idx` is the length of `out`.
pub record Decoder : Type 0 where
  pub buffer : ℕ
  pub bits : ℕ
  pub out : List ℕ
  pub chars : ℕ

abbrev pub fresh : Decoder
fresh = record { buffer = 0; bits = 0; out = []; chars = 0 }

-- The loop's body from `buffer = (buffer << 5) | v` on
unfoldable pub push_digit : ℕ → Decoder → ℕ → Option Decoder
push_digit capacity d v =
    let buffer' = bit_or (d.buffer * 2 ^ 5 % 2 ^ 32) v in
    let bits' = d.bits + 5 in
    if leb 8 bits'
    then if leb capacity (length d.out)
      then none
      else some (record {
        buffer = buffer';
        bits = bits' - 8;
        out = d.out ++ bit_and (buffer' / 2 ^ (bits' - 8)) 0xff ∷ [];
        chars = d.chars + 1;
      })
    else some (record d { buffer = buffer'; bits = bits'; chars = d.chars + 1 })

unfoldable pub absorb : ℕ → Decoder → Value → Option Decoder
absorb capacity d grouping = some d
absorb capacity d invalid = none
absorb capacity d (digit v) = push_digit capacity d v

-- `scanned` is the index of the loop, and the list what stands from it on.
unfoldable pub decode_loop : ℕ → ℕ → List ℕ → Decoder → Option Decoder
decode_loop capacity scanned [] d = some d
decode_loop capacity scanned (c ∷ rest) d =
    if leb max_input scanned
    then none
    else absorb capacity d (b32_val c) >>= decode_loop capacity (scanned + 1) rest

-- The checks after the loop: no padding bit is set, and the counts are those expected.
unfoldable pub decode_finish : ℕ → Decoder → Option (List ℕ)
decode_finish expect d =
    if ltb 0 d.bits && bit_and d.buffer (2 ^ d.bits - 1) != 0
    then none
    else if expect == 0
    then some d.out
    else if d.chars != chars_of expect
    then none
    else if length d.out != expect
    then none
    else some d.out

-- `none` is the return of -1; what a failed call left in the buffer is not modelled.
unfoldable pub base32_decode : Option (List ℕ) → Option ℕ → ℕ → Option (List ℕ)
base32_decode none out expect = none
base32_decode (some input) none expect = none
base32_decode (some input) (some capacity) expect =
    if expect != 0 && ltb capacity expect
    then none
    else decode_loop capacity 0 input fresh >>= decode_finish expect
