-- ===== src/Base32/Loop.antt =====
-- The decoder of core/vl_base32.c on a text, reduced to the values that the text spells.
use vecti_license.Base.{ℕ, zero, suc, ◌+◌, ◌-◌, ◌%◌, ◌^◌, ◌≤◌, bit_and, ◌≢◌}
use vecti_license.Base.{◌≡◌, refl, ◌∙◌, arith, Option, none, some, List, [], ◌∷◌, inl, inr}
use vecti_license.Base.{length, leb, ltb, ◌!=◌, ◌&&◌, ◌⊎◌, Bool-cases, Option-cases, ◌>>=◌}
use vecti_license.Base.{>>=-eq-some, leb→le, leb-false→lt}
use mathlib.Core.Path.{ap, fun_ext}
use vecti_license.Base.Bits.{bit_and_mask}
use vecti_license.Base32.{Decoder, b32_val, absorb, push_digit}
use vecti_license.Base32.{decode_loop, decode_finish, max_input, chars_of}
use vecti_license.Base32.Alphabet.{Value-cases, symbols, add_symbol}
use vecti_license.Base32.Decode.{IsDecoder, digits_loop}

digits_after :
    (capacity v : ℕ) (m : Option (List ℕ)) (d : Decoder)
    → (push_digit capacity d v >>= λ e. m >>= λ vs. digits_loop capacity vs e)
      ≡ ((m >>= λ vs. some (v ∷ vs)) >>= λ vs. digits_loop capacity vs d)
unfolding digits_loop
digits_after capacity v none d = elim (Option-cases (push_digit capacity d v)) [
  | inl e ↦ rw e
  | inr (m, e) ↦ rw e
]
digits_after capacity v (some vs) d = refl

-- On a text within the limit, the loop runs over the values that the text spells.
pub decode_loop-symbols :
    (capacity scanned : ℕ) (s : List ℕ) (d : Decoder)
    → scanned + length s ≤ max_input
    → decode_loop capacity scanned s d ≡ (symbols s >>= λ vs. digits_loop capacity vs d)
unfolding decode_loop absorb symbols add_symbol
decode_loop-symbols capacity scanned [] d h = unfold digits_loop in refl
decode_loop-symbols capacity scanned (c ∷ s) d h = elim (Bool-cases (leb max_input scanned)) [
  | inl far ↦ absurd (omega (arith, leb→le max_input scanned far))
  | inr near ↦ elim (Value-cases (b32_val c)) [
    | inl (v, val) ↦
        rw (near, val)
          (ap (λ k. push_digit capacity d v >>= k)
              (fun_ext λ e. decode_loop-symbols capacity (scanned + 1) s e (omega arith))
            ∙ digits_after capacity v (symbols s) d)
    | inr (inl val) ↦ rw (near, val) (decode_loop-symbols capacity (scanned + 1) s d (omega arith))
    | inr (inr val) ↦ rw (near, val) refl
  ]
]

-- A text that the loop reads to its end is within the limit.
pub decode_loop-short :
    (capacity scanned : ℕ) (s : List ℕ) (d : Decoder) {e : Decoder}
    → scanned ≤ max_input
    → decode_loop capacity scanned s d ≡ some e
    → scanned + length s ≤ max_input
unfolding decode_loop
decode_loop-short capacity scanned [] d h run = omega arith
decode_loop-short capacity scanned (c ∷ s) d h run = elim (Bool-cases (leb max_input scanned)) [
  | inl far ↦ cc (rw far at run)
  | inr near ↦
      let (m, first, rest) = >>=-eq-some (absorb capacity d (b32_val c)) _ (rw near at run) in
      omega (
        arith,
        decode_loop-short capacity (scanned + 1) s m
            (omega (arith, leb-false→lt max_input scanned near)) rest,
      )
]

-- The guard on the padding bits is the remainder that they leave.
padding_test :
    (d : Decoder)
    → IsDecoder d
    → (ltb 0 d.bits && bit_and d.buffer (2 ^ d.bits - 1) != 0) ≡ (d.buffer % 2 ^ d.bits != 0)
padding_test d h = rw (bit_and_mask d.bits 32 d.buffer h.word) (go d.bits)
  where
    go : (bits : ℕ) → (ltb 0 bits && d.buffer % 2 ^ bits != 0) ≡ (d.buffer % 2 ^ bits != 0)
    go zero = ground arith
    go (suc k) = ground arith

-- What the checks after the loop establish.
pub decode_finish-ok :
    (expect : ℕ) (d : Decoder) {bs : List ℕ}
    → IsDecoder d
    → decode_finish expect d ≡ some bs
    → (d.out ≡ bs)
      × (d.buffer % 2 ^ d.bits ≡ 0)
      × (expect ≢ 0 → (d.chars ≡ chars_of expect) × (length d.out ≡ expect))
unfolding decode_finish
decode_finish-ok expect d h e = let run = rw (padding_test d h) at e in ground arith

pub decode_finish-accepts :
    (expect : ℕ) (d : Decoder)
    → IsDecoder d
    → d.buffer % 2 ^ d.bits ≡ 0
    → (expect ≡ 0) ⊎ ((d.chars ≡ chars_of expect) × (length d.out ≡ expect))
    → decode_finish expect d ≡ some d.out
unfolding decode_finish
decode_finish-accepts expect d h clean counts = rw (padding_test d h) (ground arith)
