-- ===== src/Bridge/Canonical.antt =====
-- bridge/vl_bridge.h: the text that _apply keeps of an accepted blob.
use vecti_license.Base.{
  ℕ, ◌+◌, ◌≤◌, ◌≡◌, refl, ap, ◌∙◌, sym, arith, inl, inr, Bool, true, false, Bool-cases, ltb→lt,
  ltb-false→le, some,
}
use vecti_license.Base.{
  List, [], ◌∷◌, ◌++◌, map, length, ltb, ◌==◌, ◌&&◌, if◌then◌else◌, ==_iff, length-append,
  length-map, length-eq-zero, >>=-eq-some,
}
use vecti_license.Base.Table.{holds_below, holds_below_at}
use vecti_license.Base32.{
  Value, digit, grouping, invalid, b32_val, alpha, base32_decode, base32_encode,
}
use vecti_license.Base32.RoundTrip.{decode_spells, base32_decode-base32_encode}
use vecti_license.Base32.Alphabet.{symbols, add_symbol, Value-cases}
use vecti_license.Bridge.{is_grouping, fold_alias, upper_case, canonical_loop}
use mathlib.Core.List.{append_assoc, append-nil}

-- What the loop does to a character agrees with what the decoder makes of it.
agrees : ℕ → Value → Bool
agrees c (digit v) =
    (fold_alias (upper_case c) == alpha v) && (if is_grouping c then false else true)
agrees c grouping = is_grouping c
agrees c invalid = true

agrees_table : holds_below (λ c. agrees c (b32_val c)) 256 ≡ true
unfolding holds_below agrees b32_val
agrees_table = refl

beyond_bytes : (c : ℕ) → 256 ≤ c → b32_val c ≡ invalid
unfolding b32_val
beyond_bytes c h = ground arith

agrees_lem : (c : ℕ) → agrees c (b32_val c) ≡ true
unfolding agrees
agrees_lem c = elim (Bool-cases (ltb c 256)) [
  | inl byte ↦ holds_below_at _ 256 agrees_table c (ltb→lt c 256 byte)
  | inr big ↦ rw (beyond_bytes c (ground arith)) refl
]

and_not-eq-true :
    (a b : Bool) → (a && (if b then false else true)) ≡ true → (a ≡ true) × (b ≡ false)
and_not-eq-true true false e = (refl, refl)
and_not-eq-true true true e = cc
and_not-eq-true false b e = cc

digit_kept :
    (c v : ℕ)
    → b32_val c ≡ digit v
    → (fold_alias (upper_case c) ≡ alpha v) × (is_grouping c ≡ false)
unfolding agrees
digit_kept c v e =
    let (same, plain) =
      and_not-eq-true (fold_alias (upper_case c) == alpha v) (is_grouping c)
        (rw e at (agrees_lem c)) in
    let (eq, from_eq) = ==_iff (fold_alias (upper_case c)) (alpha v) in (eq same, plain)

grouping_dropped : (c : ℕ) → b32_val c ≡ grouping → is_grouping c ≡ true
unfolding agrees
grouping_dropped c e = rw e at (agrees_lem c)

canonical_loop-symbols :
    (s vs out : List ℕ)
    → symbols s ≡ some vs
    → length out + length vs ≤ 160
    → canonical_loop s out ≡ out ++ map alpha vs
unfolding canonical_loop symbols add_symbol
canonical_loop-symbols [] vs out e h = let same : [] ≡ vs = cc in rw (← same) (sym (append-nil out))
canonical_loop-symbols (c ∷ s) vs out e h = elim (Value-cases (b32_val c)) [
  | inl (v, val) ↦
      let (ws, rest, whole) = >>=-eq-some (symbols s) _ (rw val at e) in
      let same : (v ∷ ws) ≡ vs = cc in
      let count = ap length same in
      let (kept, plain) = digit_kept c v val in
      let inside : ltb (length out) 160 ≡ true = ground arith in
      let next =
        canonical_loop-symbols s ws (out ++ alpha v ∷ []) rest
          (omega (arith, length-append out (alpha v ∷ []))) in
      rw (plain, inside, kept, next, ← same) (append_assoc out (alpha v ∷ []) (map alpha ws))
  | inr (inl val) ↦
      let rest = canonical_loop-symbols s vs out (rw val at e) h in
      let dropped = grouping_dropped c val in
      elim (Bool-cases (ltb (length out) 160)) [
        | inl more ↦ rw (dropped, more) rest
        | inr full ↦
            let none_left : vs ≡ [] =
              length-eq-zero vs (omega (arith, ltb-false→le (length out) 160 full)) in
            rw (dropped, full, none_left) (sym (append-nil out))
      ]
  | inr (inr val) ↦ cc (rw val at e)
]

-- Whatever the spelling in which a licence of 100 bytes has been accepted, the text that is kept is
-- exactly what the encoder writes for those bytes, 160 characters, and it decodes alike.
pub canonical_loop_encodes :
    (s bin : List ℕ)
    → base32_decode (some s) (some 100) 100 ≡ some bin
    → (base32_encode (some bin) (some 161) ≡ some (canonical_loop s []))
      × (length (canonical_loop s []) ≡ 160)
      × (base32_decode (some (canonical_loop s [])) (some 100) 100 ≡ some bin)
canonical_loop_encodes s bin run =
    let (vs, spelled, small, count, matches, bytes, text) =
      decode_spells s bin 100 100 161 (omega arith) (omega arith) (omega arith) run in
    let same = canonical_loop-symbols s vs [] spelled (omega (arith, count)) in
    let back =
      base32_decode-base32_encode bin 161 100 100 bytes (omega (arith, matches))
        (rw matches (omega arith)) (omega (arith, matches)) (inr (sym matches)) in
    rw same (text, length-map vs alpha ∙ count, rw text at back)
