-- ===== src/Base32/Respelling.antt =====
-- core/vl_base32.c: the spellings of one text that the decoder does not tell apart.
use vecti_license.Base.{
  ℕ, ◌+◌, ◌≤◌, ◌≡◌, refl, sym, ◌∙◌, ap, arith, Bool, true, false, some, List, [], ◌∷◌, length, ltb,
  ◌==◌,
}
use vecti_license.Base.{==_iff, ◌||◌}
use vecti_license.Base.Table.{holds_below, holds_below_at}
use vecti_license.Base32.{Value, digit, grouping, invalid, b32_val, fresh, max_input, base32_decode}
use vecti_license.Base32.Alphabet.{symbols, add_symbol}
use vecti_license.Base32.Loop.{decode_loop-symbols}

-- Two characters that mean one digit: a letter in both cases, O and 0, I or L and 1.
pub data SameDigit : ℕ → ℕ → Type 0 where
  same : (c : ℕ) → SameDigit c c
  flipped : {c d : ℕ} → SameDigit c d → SameDigit d c
  chained : {c d e : ℕ} → SameDigit c d → SameDigit d e → SameDigit c e
  small : (c : ℕ) → b'A' ≤ c → c ≤ b'Z' → SameDigit c (c + 32)
  letter_o : SameDigit b'O' b'0'
  letter_i : SameDigit b'I' b'1'
  letter_l : SameDigit b'L' b'1'

-- The characters that group the others
pub data IsSpacing : ℕ → Type 0 where
  dash : IsSpacing b'-'
  blank : IsSpacing 32
  tab : IsSpacing 9
  carriage_return : IsSpacing 13
  newline : IsSpacing 10

-- Two texts that are the same but for grouping characters, anywhere and any number of them, and for
-- characters that mean one digit.
pub data Respelled : List ℕ → List ℕ → Type 0 where
  finished : Respelled [] []
  next : {c d : ℕ} {s t : List ℕ} → SameDigit c d → Respelled s t → Respelled (c ∷ s) (d ∷ t)
  skips : {c : ℕ} {s t : List ℕ} → IsSpacing c → Respelled s t → Respelled (c ∷ s) t
  adds : {c : ℕ} {s t : List ℕ} → IsSpacing c → Respelled s t → Respelled s (c ∷ t)

same_value : Value → Value → Bool
same_value (digit v) (digit w) = v == w
same_value grouping grouping = true
same_value invalid invalid = true
same_value x y = false

same_value→eq : (x y : Value) → same_value x y ≡ true → x ≡ y
unfolding same_value
same_value→eq (digit v) (digit w) e = ap digit ((==_iff v w).0 e)
same_value→eq (digit v) grouping e = cc
same_value→eq (digit v) invalid e = cc
same_value→eq grouping (digit w) e = cc
same_value→eq grouping grouping e = refl
same_value→eq grouping invalid e = cc
same_value→eq invalid (digit w) e = cc
same_value→eq invalid grouping e = cc
same_value→eq invalid invalid e = refl

small_table : holds_below (λ c. ltb c b'A' || same_value (b32_val c) (b32_val (c + 32))) 91 ≡ true
unfolding holds_below same_value b32_val
small_table = refl

b32_val-small : (c : ℕ) → b'A' ≤ c → c ≤ b'Z' → b32_val c ≡ b32_val (c + 32)
b32_val-small c low high =
    let capital : ltb c b'A' ≡ false = ground arith in
    same_value→eq _ _ (rw capital at (holds_below_at _ 91 small_table c (omega arith)))

b32_val-SameDigit : {c d : ℕ} → SameDigit c d → b32_val c ≡ b32_val d
unfolding b32_val
b32_val-SameDigit (same c) = refl
b32_val-SameDigit (flipped h) = sym (b32_val-SameDigit h)
b32_val-SameDigit (chained h k) = b32_val-SameDigit h ∙ b32_val-SameDigit k
b32_val-SameDigit (small c low high) = b32_val-small c low high
b32_val-SameDigit letter_o = refl
b32_val-SameDigit letter_i = refl
b32_val-SameDigit letter_l = refl

b32_val-IsSpacing : {c : ℕ} → IsSpacing c → b32_val c ≡ grouping
unfolding b32_val
b32_val-IsSpacing dash = refl
b32_val-IsSpacing blank = refl
b32_val-IsSpacing tab = refl
b32_val-IsSpacing carriage_return = refl
b32_val-IsSpacing newline = refl

symbols-Respelled : {s t : List ℕ} → Respelled s t → symbols s ≡ symbols t
unfolding symbols add_symbol
symbols-Respelled finished = refl
symbols-Respelled (next h r) = rw (b32_val-SameDigit h, symbols-Respelled r) refl
symbols-Respelled (skips h r) = rw (b32_val-IsSpacing h) (symbols-Respelled r)
symbols-Respelled (adds h r) = rw (b32_val-IsSpacing h) (symbols-Respelled r)

-- Two texts of up to 1024 characters decode alike if they differ only in grouping characters (dash,
-- blank, tab, carriage return, newline), in the case of letters, and in O for 0 and I or L for 1:
-- both to the same bytes, or neither.
pub base32_decode_respelled :
    (s t : List ℕ) (capacity expect : ℕ)
    → length s ≤ max_input
    → length t ≤ max_input
    → Respelled s t
    → base32_decode (some s) (some capacity) expect ≡ base32_decode (some t) (some capacity) expect
unfolding base32_decode
base32_decode_respelled s t capacity expect h k r = rw (
  decode_loop-symbols capacity 0 s fresh (omega arith),
  decode_loop-symbols capacity 0 t fresh (omega arith),
  symbols-Respelled r,
)
