-- ===== src/Base32/Encode.antt =====
-- The encoder as arithmetic: its text is the bytes as one number, shifted by the padding and
-- written in base 32.
use vecti_license.Base.{ℕ, zero, suc, ◌+◌, ◌-◌, ◌*◌, ◌/◌, ◌%◌, ◌^◌, ◌<◌, bit_and, bit_or}
use vecti_license.Base.{◌≡◌, refl, ap, ◌∙◌, arith, List, [], ◌∷◌, ◌++◌, inl, inr, map, subst}
use vecti_license.Base.{length, length-append, All, All-append, ltb, Bool-cases, if◌then◌else◌}
use vecti_license.Base.Bits.{bit_or_fields, bit_and_mask}
use vecti_license.Base.Digits.{Below, number, number_from, number-snoc}
use vecti_license.Base32.{alpha, drain, encode_loop}
use mathlib.Core.List.{map-append, append_assoc}
use vecti_license.Base.{sym}

-- The encoder's locals, `vs` being the values of the characters written so far.
pub record IsEncoder (buffer bits : ℕ) : Type 0 where
  pub bits_below : bits < 5
  pub word : buffer < 2 ^ 32

shift_byte : (b x : ℕ) → b < 2 ^ 32 → x < 256 → bit_or (b * 2 ^ 8 % 2 ^ 32) x ≡ b % 2 ^ 24 * 256 + x
shift_byte b x hb hx =
    let e : b * 2 ^ 8 % 2 ^ 32 ≡ b % 2 ^ 24 * 2 ^ 8 = omega arith in
    rw e (bit_or_fields 8 24 (b % 2 ^ 24) x (omega arith) hx)

low_five : (x k : ℕ) → x < 2 ^ 32 → bit_and (x / 2 ^ k) 0x1f ≡ x / 2 ^ k % 32
low_five x k h = bit_and_mask 5 32 (x / 2 ^ k) (omega arith)

-- The values that one byte adds to the text, by the number of bits that stood before it.
abbrev added : ℕ → ℕ → List ℕ
added bits x =
    if ltb bits 2
    then (x / 2 ^ (bits + 3) % 32) ∷ []
    else (x / 2 ^ (bits + 3) % 32) ∷ (x / 2 ^ (bits - 2) % 32) ∷ []

abbrev left : ℕ → ℕ
left bits = if ltb bits 2 then bits + 3 else bits - 2

emit_one : (vs : List ℕ) (a : ℕ) → map alpha vs ++ alpha a ∷ [] ≡ map alpha (vs ++ a ∷ [])
emit_one vs a = sym (map-append alpha vs (a ∷ []))

emit_two :
    (vs : List ℕ) (a b : ℕ)
    → (map alpha vs ++ alpha a ∷ []) ++ alpha b ∷ [] ≡ map alpha (vs ++ a ∷ b ∷ [])
emit_two vs a b =
    append_assoc (map alpha vs) (alpha a ∷ []) (alpha b ∷ [])
    ∙ sym (map-append alpha vs (a ∷ b ∷ []))

drain-added :
    (bits x : ℕ) (vs : List ℕ)
    → bits < 5
    → x < 2 ^ 32
    → drain (bits + 8) x (map alpha vs) ≡ (left bits, map alpha (vs ++ added bits x))
unfolding drain
drain-added zero x vs h hx = rw (low_five x 3 hx) (ap (λ l. (3, l)) (emit_one vs _))
drain-added (suc zero) x vs h hx = rw (low_five x 4 hx) (ap (λ l. (4, l)) (emit_one vs _))
drain-added (suc (suc zero)) x vs h hx =
    rw (low_five x 5 hx, low_five x 0 hx) (ap (λ l. (0, l)) (emit_two vs _ _))
drain-added (suc (suc (suc zero))) x vs h hx =
    rw (low_five x 6 hx, low_five x 1 hx) (ap (λ l. (1, l)) (emit_two vs _ _))
drain-added (suc (suc (suc (suc zero)))) x vs h hx =
    rw (low_five x 7 hx, low_five x 2 hx) (ap (λ l. (2, l)) (emit_two vs _ _))
drain-added (suc (suc (suc (suc (suc k))))) x vs h hx = absurd (omega arith)

abbrev joined : ℕ → ℕ → ℕ
joined b x = b % 2 ^ 24 * 256 + x

-- The number that the text so far and the bits behind it write.
abbrev weight : List ℕ → ℕ → ℕ → ℕ
weight vs b bits = number 32 vs * 2 ^ bits + b % 2 ^ bits

number-snoc_two :
    (vs : List ℕ) (a b : ℕ) → number 32 (vs ++ a ∷ b ∷ []) ≡ (number 32 vs * 32 + a) * 32 + b
number-snoc_two vs a b =
    ap (number 32) (sym (append_assoc vs (a ∷ []) (b ∷ [])))
    ∙ number-snoc 32 (vs ++ a ∷ []) b
    ∙ ap (λ (n : ℕ). n * 32 + b) (number-snoc 32 vs a)

weight-added :
    (bits b x : ℕ) (vs : List ℕ)
    → bits < 5
    → x < 256
    → weight (vs ++ added bits (joined b x)) (joined b x) (left bits) ≡ weight vs b bits * 256 + x
weight-added zero b x vs h hx = rw (number-snoc 32 vs (joined b x / 2 ^ 3 % 32)) (omega arith)
weight-added (suc zero) b x vs h hx = rw (number-snoc 32 vs (joined b x / 2 ^ 4 % 32)) (omega arith)
weight-added (suc (suc zero)) b x vs h hx =
    rw (number-snoc_two vs (joined b x / 2 ^ 5 % 32) (joined b x / 2 ^ 0 % 32)) (omega arith)
weight-added (suc (suc (suc zero))) b x vs h hx =
    rw (number-snoc_two vs (joined b x / 2 ^ 6 % 32) (joined b x / 2 ^ 1 % 32)) (omega arith)
weight-added (suc (suc (suc (suc zero)))) b x vs h hx =
    rw (number-snoc_two vs (joined b x / 2 ^ 7 % 32) (joined b x / 2 ^ 2 % 32)) (omega arith)
weight-added (suc (suc (suc (suc (suc k))))) b x vs h hx = absurd (omega arith)

-- `text` writes in base 32 the number `start` that `count` bits held, followed by the bytes `bs` and
-- by less than five bits of zeros.
pub record Encoded (bs : List ℕ) (start count : ℕ) (text : List ℕ) : Type 0 where
  pub values : List ℕ
  pub spelled : text ≡ map alpha values
  pub small : All (Below 32) values
  pub padding : ℕ
  pub short : padding < 5
  pub same_bits : 5 * length values ≡ count + 8 * length bs + padding
  pub same_number : number 32 values ≡ number_from 256 start bs * 2 ^ padding

abbrev last_value : ℕ → ℕ → ℕ
last_value b bits = b * 2 ^ (5 - bits) % 2 ^ 32 % 32

weight_padded :
    (bits b n : ℕ)
    → 0 < bits
    → bits < 5
    → n * 32 + last_value b bits ≡ (n * 2 ^ bits + b % 2 ^ bits) * 2 ^ (5 - bits)
weight_padded zero b n h k = absurd (omega arith)
weight_padded (suc zero) b n h k = omega arith
weight_padded (suc (suc zero)) b n h k = omega arith
weight_padded (suc (suc (suc zero))) b n h k = omega arith
weight_padded (suc (suc (suc (suc zero)))) b n h k = omega arith
weight_padded (suc (suc (suc (suc (suc i))))) b n h k = absurd (omega arith)

padding_written :
    (b bits : ℕ) (vs : List ℕ)
    → 0 < bits
    → encode_loop [] b bits (map alpha vs) ≡ map alpha (vs ++ last_value b bits ∷ [])
unfolding encode_loop
padding_written b bits vs h =
    rw (bit_and_mask 5 32 (b * 2 ^ (5 - bits) % 2 ^ 32) (omega arith))
      (ground (arith, emit_one vs (last_value b bits)))

encode_loop_end :
    (b bits : ℕ) (vs : List ℕ)
    → bits < 5
    → All (Below 32) vs
    → Encoded [] (weight vs b bits) (5 * length vs + bits) (encode_loop [] b bits (map alpha vs))
encode_loop_end b zero vs h small = record {
  values = vs;
  spelled = unfold encode_loop in refl;
  small = small;
  padding = 0;
  short = omega arith;
  same_bits = omega arith;
  same_number = omega arith;
}
encode_loop_end b (suc k) vs h small = record {
  values = vs ++ last_value b (suc k) ∷ [];
  spelled = padding_written b (suc k) vs (omega arith);
  small = All-append (Below 32) vs _ small (omega arith, tt);
  padding = 5 - suc k;
  short = omega arith;
  same_bits = omega (arith, length-append vs (last_value b (suc k) ∷ []));
  same_number = number-snoc 32 vs _ ∙ weight_padded (suc k) b (number 32 vs) (omega arith) h;
}

added-small : (bits x : ℕ) → All (Below 32) (added bits x)
added-small bits x = elim (Bool-cases (ltb bits 2)) [
  | inl few ↦ rw few (omega arith)
  | inr many ↦ rw many (omega arith)
]

length-added : (bits x : ℕ) → bits < 5 → 5 * length (added bits x) + left bits ≡ bits + 8
length-added bits x h = elim (Bool-cases (ltb bits 2)) [
  | inl few ↦ rw few (omega arith)
  | inr many ↦ rw many (ground arith)
]

left-lt : (bits : ℕ) → bits < 5 → left bits < 5
left-lt bits h = ground arith

Encoded-cons :
    {x start count start' count' : ℕ} {bs text : List ℕ}
    → start' ≡ start * 256 + x
    → count' ≡ count + 8
    → Encoded bs start' count' text
    → Encoded (x ∷ bs) start count text
Encoded-cons {x} {start} {count} {start'} {count'} {bs} p q r = record {
  values = r.values;
  spelled = r.spelled;
  small = r.small;
  padding = r.padding;
  short = r.short;
  same_bits = omega (arith, r.same_bits);
  same_number =
      subst (λ n. number 32 r.values ≡ number_from 256 n bs * 2 ^ r.padding) p r.same_number;
}

pub encode_loop-Encoded :
    (bs : List ℕ) (b bits : ℕ) (vs : List ℕ)
    → bits < 5
    → b < 2 ^ 32
    → All (Below 256) bs
    → All (Below 32) vs
    → Encoded bs (weight vs b bits) (5 * length vs + bits) (encode_loop bs b bits (map alpha vs))
unfolding encode_loop
encode_loop-Encoded [] b bits vs h hb bytes small = encode_loop_end b bits vs h small
encode_loop-Encoded (x ∷ bs) b bits vs h hb bytes small =
    rw (encode_loop, shift_byte b x hb bytes.0, drain-added bits (joined b x) vs h (omega arith))
      (Encoded-cons (weight-added bits b x vs h bytes.0)
        (omega
          (arith, length-append vs (added bits (joined b x)), length-added bits (joined b x) h))
        (encode_loop-Encoded bs (joined b x) (left bits) (vs ++ added bits (joined b x))
          (left-lt bits h) (omega arith) bytes.1
          (All-append (Below 32) vs _ small (added-small bits (joined b x)))))
