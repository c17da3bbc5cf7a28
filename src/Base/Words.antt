-- ===== src/Base/Words.antt =====
-- 32-bit words as four bytes, in both orders.
use Prim.Native.Nat.{ℕ, ◌+◌, ◌*◌, ◌/◌, ◌%◌, ◌^◌, ◌<◌, bit_and, bit_or}
use mathlib.Core.Path.{◌≡◌, ◌∙◌}
use mathlib.Core.List.{List, [], ◌∷◌}
use native.Mathlib.Nat.{div-le_self}
use native.Mathlib.Omega.{arith}
use vecti_license.Base.Bits.{bit_or_fields, bit_or_comm, bit_and_mask}

-- (uint8_t)(w & 0xff), (uint8_t)((w >> 8) & 0xff), ...
abbrev pub byte : ℕ → ℕ → ℕ
byte w k = bit_and (w / 2 ^ k) 0xff % 2 ^ 8

unfoldable pub le_bytes : ℕ → List ℕ
le_bytes w = byte w 0 ∷ byte w 8 ∷ byte w 16 ∷ byte w 24 ∷ []

unfoldable pub be_bytes : ℕ → List ℕ
be_bytes w = byte w 24 ∷ byte w 16 ∷ byte w 8 ∷ byte w 0 ∷ []

-- b0 | b1 << 8 | b2 << 16 | b3 << 24
abbrev pub le_word : ℕ → ℕ → ℕ → ℕ → ℕ
le_word b0 b1 b2 b3 = bit_or (bit_or (bit_or b0 (b1 * 2 ^ 8)) (b2 * 2 ^ 16)) (b3 * 2 ^ 24)

pub byte_lem : (w k : ℕ) → w < 2 ^ 32 → byte w k ≡ w / 2 ^ k % 256
byte_lem w k h = omega (arith, bit_and_mask 8 32 (w / 2 ^ k) (omega (arith, div-le_self w (2 ^ k))))

pub le_word_lem :
    (b0 b1 b2 b3 : ℕ)
    → b0 < 256
    → b1 < 256
    → b2 < 256
    → b3 < 256
    → le_word b0 b1 b2 b3 ≡ b0 + b1 * 2 ^ 8 + b2 * 2 ^ 16 + b3 * 2 ^ 24
le_word_lem b0 b1 b2 b3 h0 h1 h2 h3 =
    let low : bit_or b0 (b1 * 2 ^ 8) ≡ b1 * 2 ^ 8 + b0 =
      bit_or_comm 32 b0 (b1 * 2 ^ 8) (omega arith) (omega arith) ∙ bit_or_fields 8 8 b1 b0 h1 h0 in
    let mid : bit_or (b1 * 2 ^ 8 + b0) (b2 * 2 ^ 16) ≡ b2 * 2 ^ 16 + (b1 * 2 ^ 8 + b0) =
      bit_or_comm 32 (b1 * 2 ^ 8 + b0) (b2 * 2 ^ 16) (omega arith) (omega arith)
      ∙ bit_or_fields 16 8 b2 (b1 * 2 ^ 8 + b0) h2 (omega arith) in
    let top : bit_or (b2 * 2 ^ 16 + (b1 * 2 ^ 8 + b0)) (b3 * 2 ^ 24)
        ≡ b3 * 2 ^ 24 + (b2 * 2 ^ 16 + (b1 * 2 ^ 8 + b0)) =
      bit_or_comm 32 (b2 * 2 ^ 16 + (b1 * 2 ^ 8 + b0)) (b3 * 2 ^ 24) (omega arith) (omega arith)
      ∙ bit_or_fields 24 8 b3 (b2 * 2 ^ 16 + (b1 * 2 ^ 8 + b0)) h3 (omega arith) in
    rw (low, mid, top) (omega arith)

-- The bytes of a word, read back
pub le_word_bytes : (w : ℕ) → w < 2 ^ 32 → le_word (byte w 0) (byte w 8) (byte w 16) (byte w 24) ≡ w
le_word_bytes w h =
    le_word_lem (byte w 0) (byte w 8) (byte w 16) (byte w 24) (omega arith) (omega arith)
      (omega arith) (omega arith)
    ∙ omega (arith, byte_lem w 0 h, byte_lem w 8 h, byte_lem w 16 h, byte_lem w 24 h)
