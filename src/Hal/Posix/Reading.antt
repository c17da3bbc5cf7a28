-- ===== src/Hal/Posix/Reading.antt =====
-- hal/posix/vl_hal_posix.c: the end of read_id_segment, which Linux and macOS share, and what the
-- enumeration makes of the segments.
use vecti_license.Base.{
  ℕ, suc, ◌≡◌, ◌≤◌, refl, ap, ◌∙◌, arith, inl, inr, ◌⊎◌, Bool-cases, Option, some, none,
}
use vecti_license.Base.{
  List, ◌∷◌, length, drop, take, replicate, take-append_exact, ltb, ltb-false→le, ltb→lt, false,
  ◌+◌,
}
use vecti_license.Hash.{write_at}
use vecti_license.Hash.Stream.Buffer.{length-write_at}
use vecti_license.Api.{Status, ok, platform, buffer_too_small, Segment, id_segment_max}
use vecti_license.Core.Fingerprint.Identity.{identity, fingerprint_result}
use vecti_license.Hal.Single.{identity_goes_on}
use vecti_license.Hal.Posix.Segments.{segment_out}

-- The statuses with which an identity of this platform fails
abbrev pub Failing : Status → Type 0
Failing st = (st ≡ platform) ⊎ (st ≡ buffer_too_small)

-- A text that has been read and fits a segment
abbrev pub Fits : Option (List ℕ) → List ℕ → Type 0
Fits text s = (text ≡ some s) × (length s ≤ id_segment_max)

pub segment_out-cases :
    (before : List ℕ) (text : Option (List ℕ))
    → ((s : List ℕ) × Fits text s
        × (segment_out id_segment_max before text
            ≡ record { status = ok; bytes = write_at 0 s before; len = length s }))
      ⊎ (((s : List ℕ) → ¬ Fits text s) × Failing (segment_out id_segment_max before text).status)
unfolding segment_out
segment_out-cases before none = inr ((λ s f. let (e, short) = f in cc), inl refl)
segment_out-cases before (some s) = elim (Bool-cases (ltb id_segment_max (length s))) [
  | inl long ↦ inr (
    (λ t f.
        let same : s ≡ t = cc f.0 in
        let short = f.1 in omega (arith, ap length same, ltb→lt _ _ long, short)),
    rw long (inr refl),
  )
  | inr short ↦ inl (s, (refl, ground arith), rw short refl)
]

pub segment_out-Fits :
    (before : List ℕ) (text : Option (List ℕ)) (s : List ℕ)
    → Fits text s
    → segment_out id_segment_max before text
      ≡ record { status = ok; bytes = write_at 0 s before; len = length s }
unfolding segment_out
segment_out-Fits before text s (e, short) =
    let room : ltb id_segment_max (length s) ≡ false = ground arith in
    rw (e, segment_out, room) refl

pub length-segment_out :
    (before : List ℕ) (text : Option (List ℕ))
    → length before ≡ id_segment_max
    → length (segment_out id_segment_max before text).bytes ≡ id_segment_max
unfolding segment_out
length-segment_out before none full = full
length-segment_out before (some s) full = elim (Bool-cases (ltb id_segment_max (length s))) [
  | inl long ↦ rw long full
  | inr short ↦
      rw short (length-write_at 0 s before (omega (arith, full, ltb-false→le _ _ short)) ∙ full)
]

pub failed_result :
    {W : Type 0} (r : Status × List (List ℕ) × W)
    → Failing r.0
    → Failing (fingerprint_result r).0 × ((fingerprint_result r).1 ≡ some (replicate 32 0))
unfolding fingerprint_result
failed_result (platform, segs, w) e = (inl refl, refl)
failed_result (buffer_too_small, segs, w) e = (inr refl, refl)
failed_result (st, segs, w) e = absurd (elim e [ inl p ↦ cc | inr p ↦ cc ])

module _ {W : Type 0} (read : ℕ → ℕ → W → Segment × W) where
  pub identity-Failing :
      (left idx : ℕ) (w : W)
      → Failing (read idx id_segment_max w).0.status
      → Failing (identity read (suc left) idx w).0
  unfolding identity
  identity-Failing left idx w (inl e) = inl (rw (e, identity) refl)
  identity-Failing left idx w (inr e) = inr (rw (e, identity) refl)

  -- A segment whose text fits is the next of the identity.
  pub identity_reads :
      (left idx : ℕ) (w w' : W) (s before : List ℕ)
      → (read idx id_segment_max w
          ≡ (record { status = ok; bytes = write_at 0 s before; len = length s }, w'))
      → length s ≤ id_segment_max
      → let rest = identity read left (idx + 1) w' in
        identity read (suc left) idx w ≡ (rest.0, s ∷ rest.1, rest.2)
  identity_reads left idx w w' s before e short =
      let goes =
        identity_goes_on read left idx w (ap (λ r. r.0.status) e)
          (rw (ap (λ r. r.0.len) e) short) in
      let front : take (length s) (write_at 0 s before) ≡ s =
        take-append_exact (length s) s (drop (0 + length s) before) refl in
      goes ∙ rw (e, front) refl
