-- ===== src/Hal/Single.antt =====
-- hal/: a platform with one identity segment, and its fingerprint.
use vecti_license.Base.{
  ℕ, suc, ◌+◌, ◌-◌, ◌^◌, ◌<◌, ◌≤◌, ◌≡◌, ◌↔◌, ◌⊎◌, inl, inr, Bool-cases, ==_iff, ◌==◌, refl, ap, ◌∙◌,
  arith, some,
}
use vecti_license.Base.{
  List, [], ◌∷◌, ◌++◌, All, length, take, replicate, ltb, bit_or, bit_and, true, false,
}
use mathlib.Core.List.{append-nil}
use native.Mathlib.Nat.{one-le-pow}
use vecti_license.Base.Bits.{bit_or-eq-zero, bit_or-lt, bit_and-eq-ones, bit_and-le, bit_and_self}
use vecti_license.Base.Digits.{Below}
use vecti_license.Hash.{Ctx, Words}
use vecti_license.Sha256.{block_len}
use vecti_license.Sha256.Digest.{digest}
use vecti_license.Api.{Segment, ok, platform, no_more_segments, id_segment_max, fingerprint_len}
use vecti_license.Core.Fingerprint.{fp_domain, fingerprint_with}
use vecti_license.Core.Fingerprint.Identity.{
  encode_segments, identity, fingerprint_result, fingerprint_refines,
}
use vecti_license.Hal.{Answer, or_all, and_all, reader}

-- Every byte is `v`.
abbrev pub Constant : ℕ → List ℕ → Type 0
Constant v = All (λ x. x ≡ v)

pub or_all-eq-zero :
    (k : ℕ) (p : List ℕ) (any : ℕ)
    → any < 2 ^ k
    → All (Below (2 ^ k)) p
    → (or_all p any ≡ 0) ↔ ((any ≡ 0) × Constant 0 p)
or_all-eq-zero k [] any h b = ((λ e. (e, tt)), (λ c. c.0))
or_all-eq-zero k (x ∷ p) any h b =
    let (forth, back) = or_all-eq-zero k p (bit_or any x) (bit_or-lt k any x h b.0) b.1 in
    (
      (λ e.
          let (now, rest) = forth e in
          let (was, same) = bit_or-eq-zero k any x h b.0 now in (was, (same, rest))),
      (λ c. back (rw (c.0, c.1.0) refl, c.1.1)),
    )

pub and_all-eq-ones :
    (k : ℕ) (p : List ℕ) (all : ℕ)
    → all < 2 ^ k
    → All (Below (2 ^ k)) p
    → (and_all p all ≡ 2 ^ k - 1) ↔ ((all ≡ 2 ^ k - 1) × Constant (2 ^ k - 1) p)
and_all-eq-ones k [] all h b = ((λ e. (e, tt)), (λ c. c.0))
and_all-eq-ones k (x ∷ p) all h b =
    let low : bit_and all x < 2 ^ k = omega (arith, bit_and-le k all x h b.0) in
    let (forth, back) = and_all-eq-ones k p (bit_and all x) low b.1 in
    (
      (λ e.
          let (now, rest) = forth e in
          let (was, same) = bit_and-eq-ones k all x h b.0 now in (was, (same, rest))),
      (λ c. back (rw (c.0, c.1.0) (bit_and_self k (2 ^ k - 1) (omega (arith, h))), c.1.1)),
    )

-- A bus that answers with nothing: every word of `k` bits 0, or every one all ones
abbrev pub IsBlank : ℕ → List ℕ → Type 0
IsBlank k p = Constant 0 p ⊎ Constant (2 ^ k - 1) p

-- The two tests for it, in the order in which they are made
pub IsBlank-cases :
    (k : ℕ) (p : List ℕ)
    → All (Below (2 ^ k)) p
    → (IsBlank k p × ((or_all p 0 == 0) ≡ true))
      ⊎ (IsBlank k p × ((or_all p 0 == 0) ≡ false) × ((and_all p (2 ^ k - 1) == 2 ^ k - 1) ≡ true))
      ⊎ (¬ IsBlank k p
          × ((or_all p 0 == 0) ≡ false)
          × ((and_all p (2 ^ k - 1) == 2 ^ k - 1) ≡ false))
IsBlank-cases k p b =
    let (zeros, from_zeros) = or_all-eq-zero k p 0 (omega (arith, one-le-pow k 2)) b in
    let (ones, from_ones) = and_all-eq-ones k p (2 ^ k - 1) (omega (arith, one-le-pow k 2)) b in
    let (any0, any1) = ==_iff (or_all p 0) 0 in
    let (all0, all1) = ==_iff (and_all p (2 ^ k - 1)) (2 ^ k - 1) in
    elim (Bool-cases (or_all p 0 == 0)) [
      | inl e ↦ inl (inl (zeros (any0 e)).1, e)
      | inr e ↦ inr (elim (Bool-cases (and_all p (2 ^ k - 1) == 2 ^ k - 1)) [
        | inl f ↦ inl (inr (ones (all0 f)).1, e, f)
        | inr f ↦ inr (
          (λ blank. elim blank [
            | inl z ↦ let clash = any1 (from_zeros (refl, z)) in cc
            | inr o ↦ let clash = all1 (from_ones (refl, o)) in cc
          ]),
          e,
          f,
        )
      ])
    ]

-- What a callback with one segment does for a buffer of 255 bytes
pub record Reports (read : ℕ → ℕ → List ℕ → ℕ → Answer) (before seg : List ℕ) : Type 0 where
  pub keeps : (idx : ℕ) → length (read idx id_segment_max before 0).1 ≡ id_segment_max
  pub out : List ℕ
  pub first : read 0 id_segment_max before 0 ≡ (ok, out, length seg)
  pub holds : take (length seg) out ≡ seg
  pub fits : length seg ≤ id_segment_max
  pub ends : (read 1 id_segment_max before 0).0 ≡ no_more_segments

module _ {W : Type 0} (read : ℕ → ℕ → W → Segment × W) (left idx : ℕ) (w : W) where
  pub identity_ends :
      (read idx id_segment_max w).0.status ≡ no_more_segments
      → identity read (suc left) idx w ≡ (ok, [], (read idx id_segment_max w).1)
  unfolding identity
  identity_ends e = rw (e, identity) refl

  pub identity_fails :
      (read idx id_segment_max w).0.status ≡ platform
      → identity read (suc left) idx w ≡ (platform, [], (read idx id_segment_max w).1)
  unfolding identity
  identity_fails e = rw (e, identity) refl

  pub identity_goes_on :
      (read idx id_segment_max w).0.status ≡ ok
      → (read idx id_segment_max w).0.len ≤ id_segment_max
      → let rest = identity read left (idx + 1) (read idx id_segment_max w).1 in
        let seg = (read idx id_segment_max w).0 in
        identity read (suc left) idx w ≡ (rest.0, take seg.len seg.bytes ∷ rest.1, rest.2)
  unfolding identity
  identity_goes_on e short =
      let fits : ltb id_segment_max (read idx id_segment_max w).0.len ≡ false =
        ground (arith, short) in
      rw (e, identity, fits) refl

module _ {W : Type 0} (read : ℕ → ℕ → List ℕ → ℕ → Answer) (before : List ℕ) where
  identity-Reports :
      (left : ℕ) (seg : List ℕ) (w : W)
      → Reports read before seg
      → identity (reader read before) (suc (suc left)) 0 w ≡ (ok, seg ∷ [], w)
  identity-Reports left seg w r =
      let short : (read 0 id_segment_max before 0).2 ≤ id_segment_max = rw r.first r.fits in
      identity_goes_on (reader read before) (suc left) 0 w (ap (λ a. a.0) r.first) short
      ∙ rw (identity_ends (reader read before) left 1 w r.ends, r.first, r.holds) refl

  -- The fingerprint of such a platform
  pub fingerprint-Reports :
      (seg : List ℕ) (stack : Ctx Words) (out : List ℕ) (w : W)
      → Reports read before seg
      → length stack.buffer ≡ block_len
      → length out ≡ fingerprint_len
      → fingerprint_with stack (some (reader read before)) (some out) w
        ≡ (ok, some (digest (fp_domain ++ (length seg ∷ seg))), w)
  unfolding fingerprint_result encode_segments
  fingerprint-Reports seg stack out w r sized room =
      fingerprint_refines (reader read before) (λ idx v. r.keeps idx) stack out w sized room
      ∙ ap fingerprint_result (identity-Reports 62 seg w r)
      ∙ ap (λ t. (ok, some (digest (fp_domain ++ (length seg ∷ t))), w)) (append-nil seg)

  -- A platform that cannot read its identity has none.
  pub fingerprint-unreadable :
      (stack : Ctx Words) (out : List ℕ) (w : W)
      → ((idx : ℕ) → length (read idx id_segment_max before 0).1 ≡ id_segment_max)
      → (read 0 id_segment_max before 0).0 ≡ platform
      → length stack.buffer ≡ block_len
      → length out ≡ fingerprint_len
      → fingerprint_with stack (some (reader read before)) (some out) w
        ≡ (platform, some (replicate 32 0), w)
  unfolding fingerprint_result
  fingerprint-unreadable stack out w keeps bad sized room =
      fingerprint_refines (reader read before) (λ idx v. keeps idx) stack out w sized room
      ∙ ap fingerprint_result (identity_fails (reader read before) 63 0 w bad)

  -- Both: a platform with `k`-bit words whose blank id is an error.
  pub fingerprint-IsBlank :
      (k : ℕ) (words seg : List ℕ) (stack : Ctx Words) (out : List ℕ) (w : W)
      → ((idx : ℕ) → length (read idx id_segment_max before 0).1 ≡ id_segment_max)
      → (IsBlank k words × ((read 0 id_segment_max before 0).0 ≡ platform))
        ⊎ (¬ IsBlank k words × Reports read before seg)
      → length stack.buffer ≡ block_len
      → length out ≡ fingerprint_len
      → (IsBlank k words
          × (fingerprint_with stack (some (reader read before)) (some out) w
              ≡ (platform, some (replicate 32 0), w)))
        ⊎ (¬ IsBlank k words
            × (fingerprint_with stack (some (reader read before)) (some out) w
                ≡ (ok, some (digest (fp_domain ++ (length seg ∷ seg))), w)))
  fingerprint-IsBlank k words seg stack out w keeps (inl (blank, bad)) sized room =
      inl (blank, fingerprint-unreadable stack out w keeps bad sized room)
  fingerprint-IsBlank k words seg stack out w keeps (inr (shown, r)) sized room =
      inr (shown, fingerprint-Reports seg stack out w r sized room)
