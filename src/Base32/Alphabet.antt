-- ===== src/Base32/Alphabet.antt =====
-- The alphabet of core/vl_base32.c: what `b32_val` makes of a character.
use vecti_license.Base.{ℕ, ◌<◌, ◌≤◌, ◌≡◌, refl, arith, Bool, true, false, List, [], ◌∷◌}
use vecti_license.Base.{Option, none, some, ltb, ◌==◌, ltb→lt, map, Bool-cases}
use vecti_license.Base.{>>=-eq-some, subst, ◌⊎◌}
use vecti_license.Base.{inl, inr, All, ◌>>=◌}
use vecti_license.Base.Digits.{Below}
use vecti_license.Base.Table.{holds_below, holds_below_at}
use vecti_license.Base32.{Value, digit, grouping, invalid, b32_val, alpha}

is_small : Value → Bool
is_small (digit v) = ltb v 32
is_small grouping = true
is_small invalid = true

small_table : holds_below (λ c. is_small (b32_val c)) 256 ≡ true
unfolding holds_below is_small b32_val
small_table = refl

beyond_bytes : (c : ℕ) → 256 ≤ c → b32_val c ≡ invalid
unfolding b32_val
beyond_bytes c h = ground arith

-- A value is five bits wide.
pub b32_val-lt : (c : ℕ) {v : ℕ} → b32_val c ≡ digit v → v < 32
unfolding is_small
b32_val-lt c {v} e = elim (Bool-cases (ltb c 256)) [
  | inl byte ↦ ltb→lt v 32 (rw e at (holds_below_at _ 256 small_table c (ltb→lt c 256 byte)))
  | inr big ↦ cc (beyond_bytes c (ground arith))
]

reads_as : ℕ → Value → Bool
reads_as v (digit w) = w == v
reads_as v grouping = false
reads_as v invalid = false

alpha_table : holds_below (λ v. reads_as v (b32_val (alpha v))) 32 ≡ true
unfolding holds_below reads_as b32_val
alpha_table = refl

reads_as→eq : (v : ℕ) (x : Value) → reads_as v x ≡ true → x ≡ digit v
unfolding reads_as
reads_as→eq v (digit w) e = ground arith
reads_as→eq v grouping e = cc
reads_as→eq v invalid e = cc

-- The decoder reads what the encoder writes.
pub b32_val-alpha : (v : ℕ) → v < 32 → b32_val (alpha v) ≡ digit v
b32_val-alpha v h = reads_as→eq v _ (holds_below_at _ 32 alpha_table v h)

unfoldable pub add_symbol : Value → Option (List ℕ) → Option (List ℕ)
add_symbol grouping rest = rest
add_symbol invalid rest = none
add_symbol (digit v) rest = rest >>= λ vs. some (v ∷ vs)

-- The values that a text spells, its grouping characters left out; `none` where a character is
-- outside the alphabet.
unfoldable pub symbols : List ℕ → Option (List ℕ)
symbols [] = some []
symbols (c ∷ rest) = add_symbol (b32_val c) (symbols rest)

pub Value-cases : (x : Value) → ((v : ℕ) × (x ≡ digit v)) ⊎ ((x ≡ grouping) ⊎ (x ≡ invalid))
Value-cases (digit v) = inl (v, refl)
Value-cases grouping = inr (inl refl)
Value-cases invalid = inr (inr refl)

-- Every value that a text spells is five bits wide.
pub symbols-small : (s : List ℕ) {vs : List ℕ} → symbols s ≡ some vs → All (Below 32) vs
unfolding symbols add_symbol
symbols-small [] {vs} e = let same : [] ≡ vs = cc in subst (All (Below 32)) same tt
symbols-small (c ∷ s) {vs} e = elim (Value-cases (b32_val c)) [
  | inl (v, val) ↦
      let (ws, rest, whole) = >>=-eq-some (symbols s) _ (rw val at e) in
      let same : (v ∷ ws) ≡ vs = cc in
      subst (All (Below 32)) same (b32_val-lt c val, symbols-small s rest)
  | inr (inl val) ↦ symbols-small s (rw val at e)
  | inr (inr val) ↦ cc (rw val at e)
]

-- What the encoder writes for a list of values spells those values.
pub symbols-alpha : (vs : List ℕ) → All (Below 32) vs → symbols (map alpha vs) ≡ some vs
unfolding symbols add_symbol
symbols-alpha [] h = refl
symbols-alpha (v ∷ vs) h = rw (b32_val-alpha v h.0, symbols-alpha vs h.1)
