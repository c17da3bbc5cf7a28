-- ===== src/Base32/Decode.antt =====
-- The decoder's loop as arithmetic: with the bits still in `buffer`, the bytes written so far are
-- the digits read so far, as one number.
use vecti_license.Base.{ℕ, zero, suc, ◌+◌, ◌-◌, ◌*◌, ◌/◌, ◌%◌, ◌^◌, ◌<◌, ◌≤◌, bit_and, bit_or}
use vecti_license.Base.{◌≡◌, refl, arith, Option, none, some, List, [], ◌∷◌, ◌++◌}
use vecti_license.Base.{length, length-append, All, All-append, ◌>>=◌}
use vecti_license.Base.{subst}
use native.Mathlib.Decide.{dec_lt}
use vecti_license.Base.Bits.{bit_or_fields, bit_and_mask}
use vecti_license.Base.Digits.{Below, number, number_from, number-snoc}
use vecti_license.Base32.{Decoder, push_digit}

pub record IsDecoder (d : Decoder) : Type 0 where
  pub bits_below : d.bits < 8
  pub word : d.buffer < 2 ^ 32
  pub bytes : All (Below 256) d.out

-- The number that the digits read so far write.
abbrev pub standing : Decoder → ℕ
standing d = number 256 d.out * 2 ^ d.bits + d.buffer % 2 ^ d.bits

shift_in : (b v : ℕ) → b < 2 ^ 32 → v < 32 → bit_or (b * 2 ^ 5 % 2 ^ 32) v ≡ b % 2 ^ 27 * 32 + v
shift_in b v hb hv =
    let e : b * 2 ^ 5 % 2 ^ 32 ≡ b % 2 ^ 27 * 2 ^ 5 = omega arith in
    rw e (bit_or_fields 5 27 (b % 2 ^ 27) v (omega arith) hv)

abbrev shifted : ℕ → ℕ → ℕ
shifted b v = b % 2 ^ 27 * 32 + v

standing_kept :
    (bits n b v : ℕ)
    → bits < 3
    → v < 32
    → n * 2 ^ (bits + 5) + shifted b v % 2 ^ (bits + 5) ≡ (n * 2 ^ bits + b % 2 ^ bits) * 32 + v
standing_kept zero n b v h hv = omega arith
standing_kept (suc zero) n b v h hv = omega arith
standing_kept (suc (suc zero)) n b v h hv = omega arith
standing_kept (suc (suc (suc k))) n b v h hv = absurd (omega arith)

standing_written :
    (k n b v : ℕ)
    → k < 5
    → v < 32
    → (n * 256 + shifted b v / 2 ^ k % 256) * 2 ^ k + shifted b v % 2 ^ k
      ≡ (n * 2 ^ (k + 3) + b % 2 ^ (k + 3)) * 32 + v
standing_written zero n b v h hv = omega arith
standing_written (suc zero) n b v h hv = omega arith
standing_written (suc (suc zero)) n b v h hv = omega arith
standing_written (suc (suc (suc zero))) n b v h hv = omega arith
standing_written (suc (suc (suc (suc zero)))) n b v h hv = omega arith
standing_written (suc (suc (suc (suc (suc k))))) n b v h hv = absurd (omega arith)

-- What one digit does to a decoder.
pub record Absorbs (d : Decoder) (v : ℕ) (d' : Decoder) : Type 0 where
  pub valid : IsDecoder d'
  pub same_number : standing d' ≡ standing d * 32 + v
  pub same_bits : 8 * length d'.out + d'.bits ≡ 8 * length d.out + d.bits + 5
  pub counted : d'.chars ≡ d.chars + 1

low_byte : (x k : ℕ) → x < 2 ^ 32 → bit_and (x / 2 ^ k) 0xff ≡ x / 2 ^ k % 256
low_byte x k h = bit_and_mask 8 32 (x / 2 ^ k) (omega arith)

-- The decoder after a digit, in plain arithmetic: with no byte complete, and with one.
abbrev kept : Decoder → ℕ → Decoder
kept d v = record d { buffer = shifted d.buffer v; bits = d.bits + 5; chars = d.chars + 1 }

abbrev written : Decoder → ℕ → Decoder
written d v = record {
  buffer = shifted d.buffer v;
  bits = d.bits - 3;
  out = d.out ++ (shifted d.buffer v / 2 ^ (d.bits - 3) % 256) ∷ [];
  chars = d.chars + 1;
}

kept-Absorbs : (d : Decoder) (v : ℕ) → IsDecoder d → v < 32 → d.bits < 3 → Absorbs d v (kept d v)
kept-Absorbs d v h hv small = record {
  valid = record { bits_below = omega arith; word = omega arith; bytes = h.bytes };
  same_number = standing_kept d.bits (number 256 d.out) d.buffer v small hv;
  same_bits = omega arith;
  counted = refl;
}

written-Absorbs :
    (d : Decoder) (v : ℕ) → IsDecoder d → v < 32 → 3 ≤ d.bits → Absorbs d v (written d v)
written-Absorbs d v h hv large = record {
  valid = record {
    bits_below = omega arith;
    word = omega arith;
    bytes = All-append (Below 256) d.out _ h.bytes (omega arith, tt);
  };
  same_number =
      rw (number-snoc 256 d.out (shifted d.buffer v / 2 ^ (d.bits - 3) % 256)) (
        rw refill at
          (standing_written (d.bits - 3) (number 256 d.out) d.buffer v (omega arith) hv));
  same_bits =
      omega (arith, length-append d.out ((shifted d.buffer v / 2 ^ (d.bits - 3) % 256) ∷ []));
  counted = refl;
}
  where
    refill : d.bits - 3 + 3 ≡ d.bits
    refill = omega arith

module _ (capacity : ℕ) (d : Decoder) (v : ℕ) (h : IsDecoder d) (hv : v < 32) where
  push_digit-kept : d.bits < 3 → push_digit capacity d v ≡ some (kept d v)
  unfolding push_digit
  push_digit-kept small = rw (shift_in d.buffer v h.word hv) (ground arith)

  push_digit-written :
      3 ≤ d.bits → length d.out < capacity → push_digit capacity d v ≡ some (written d v)
  unfolding push_digit
  push_digit-written large room =
      let e : d.bits + 5 - 8 ≡ d.bits - 3 = omega arith in
      rw
        (shift_in d.buffer v h.word hv, e, low_byte (shifted d.buffer v) (d.bits - 3) (omega arith))
        (ground arith)

  push_digit_full : 3 ≤ d.bits → capacity ≤ length d.out → push_digit capacity d v ≡ none
  unfolding push_digit
  push_digit_full large full = ground arith

-- What a run of digits does to a decoder.
pub record AbsorbsAll (d : Decoder) (vs : List ℕ) (d' : Decoder) : Type 0 where
  pub valid : IsDecoder d'
  pub same_number : standing d' ≡ number_from 32 (standing d) vs
  pub same_bits : 8 * length d'.out + d'.bits ≡ 8 * length d.out + d.bits + 5 * length vs
  pub counted : d'.chars ≡ d.chars + length vs

AbsorbsAll-cons :
    {d m e : Decoder} {v : ℕ} {vs : List ℕ}
    → Absorbs d v m
    → AbsorbsAll m vs e
    → AbsorbsAll d (v ∷ vs) e
AbsorbsAll-cons {d} {m} {e} {v} {vs} a r = record {
  valid = r.valid;
  same_number = subst (λ n. standing e ≡ number_from 32 n vs) a.same_number r.same_number;
  same_bits = omega (arith, a.same_bits, r.same_bits);
  counted = omega (arith, a.counted, r.counted);
}

unfoldable pub digits_loop : ℕ → List ℕ → Decoder → Option Decoder
digits_loop capacity [] d = some d
digits_loop capacity (v ∷ vs) d = push_digit capacity d v >>= digits_loop capacity vs

-- Where there is room for every byte that the digits complete, the loop ends normally.
pub digits_loop_total :
    (capacity : ℕ) (vs : List ℕ) (d : Decoder)
    → IsDecoder d
    → All (Below 32) vs
    → 8 * length d.out + d.bits + 5 * length vs < 8 * capacity + 8
    → (d' : Decoder) × (digits_loop capacity vs d ≡ some d') × AbsorbsAll d vs d'
unfolding digits_loop
digits_loop_total capacity [] d h hv room = (
  d,
  refl,
  record { valid = h; same_number = refl; same_bits = omega arith; counted = omega arith },
)
digits_loop_total capacity (v ∷ vs) d h hv room = elim (dec_lt d.bits 3) [
  | yes small ↦
      let a = kept-Absorbs d v h hv.0 small in
      let (e, run, r) = digits_loop_total capacity vs (kept d v) a.valid hv.1 (omega arith) in
      (e, rw (push_digit-kept capacity d v h hv.0 small) run, AbsorbsAll-cons a r)
  | no large ↦
      let a = written-Absorbs d v h hv.0 (omega arith) in
      let (e, run, r) =
        digits_loop_total capacity vs (written d v) a.valid hv.1 (omega (arith, a.same_bits)) in
      (
        e,
        rw (push_digit-written capacity d v h hv.0 (omega arith) (omega arith)) run,
        AbsorbsAll-cons a r,
      )
]

-- A run that ends normally has stayed inside the buffer, and done what its digits say.
pub digits_loop_run :
    (capacity : ℕ) (vs : List ℕ) (d : Decoder) {d' : Decoder}
    → IsDecoder d
    → All (Below 32) vs
    → length d.out ≤ capacity
    → digits_loop capacity vs d ≡ some d'
    → AbsorbsAll d vs d' × (length d'.out ≤ capacity)
unfolding digits_loop
digits_loop_run capacity [] d {d'} h hv room e =
    let same : d ≡ d' = cc in
    subst (λ x. AbsorbsAll d [] x × (length x.out ≤ capacity)) same
      (
        record { valid = h; same_number = refl; same_bits = omega arith; counted = omega arith },
        room,
      )
digits_loop_run capacity (v ∷ vs) d h hv room e = elim (dec_lt d.bits 3) [
  | yes small ↦
      let a = kept-Absorbs d v h hv.0 small in
      let run = rw (push_digit-kept capacity d v h hv.0 small) at e in
      let (r, inside) = digits_loop_run capacity vs (kept d v) a.valid hv.1 room run in
      (AbsorbsAll-cons a r, inside)
  | no large ↦ elim (dec_lt (length d.out) capacity) [
    | yes free ↦
        let a = written-Absorbs d v h hv.0 (omega arith) in
        let run = rw (push_digit-written capacity d v h hv.0 (omega arith) free) at e in
        let (r, inside) =
          digits_loop_run capacity vs (written d v) a.valid hv.1 (omega (arith, a.same_bits)) run in
        (AbsorbsAll-cons a r, inside)
    | no full ↦ cc (push_digit_full capacity d v h hv.0 (omega arith) (omega arith))
  ]
]
