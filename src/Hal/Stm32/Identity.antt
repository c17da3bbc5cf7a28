-- ===== src/Hal/Stm32/Identity.antt =====
-- hal/stm32/vl_hal_stm32.c: a device's fingerprint is the digest of its id, and a bus that answers
-- with nothing has none.
use vecti_license.Base.{ℕ, zero, suc, ◌^◌, ◌≡◌, ◌⊎◌, inl, inr, refl, ap, ◌∙◌, arith, true, some}
use vecti_license.Base.{
  List, [], ◌∷◌, ◌++◌, All, length, drop, replicate, ◌!=◌, drop-drop, length-append, length-drop,
}
use vecti_license.Base.Words.{le_bytes}
use vecti_license.Base.Digits.{Below}
use vecti_license.Hash.{Ctx, Words}
use vecti_license.Sha256.{block_len}
use vecti_license.Sha256.Digest.{digest}
use vecti_license.Api.{ok, platform, fingerprint_len, id_segment_max}
use vecti_license.Core.Fingerprint.{fp_domain, fingerprint_with}
use vecti_license.Hal.{or_all, and_all, reader}
use vecti_license.Hal.Single.{IsBlank, IsBlank-cases, Reports, fingerprint-IsBlank}
use vecti_license.Hal.Stm32.{stm32_segment, uid_loop, uid_answer}

-- The three words, and the bytes that they are sent as
abbrev pub uid_words : (ℕ → ℕ) → List ℕ
uid_words uid = uid 0 ∷ uid 1 ∷ uid 2 ∷ []

abbrev pub uid_bytes : (ℕ → ℕ) → List ℕ
uid_bytes uid = le_bytes (uid 0) ++ (le_bytes (uid 1) ++ le_bytes (uid 2))

uid_loop_lem :
    (uid : ℕ → ℕ) (out : List ℕ)
    → uid_loop uid 3 0 out 0 0xffffffff
      ≡ (uid_bytes uid ++ drop 12 out, or_all (uid_words uid) 0, and_all (uid_words uid) 0xffffffff)
unfolding uid_loop le_bytes
uid_loop_lem uid out = rw (drop-drop 4 4 out, drop-drop 4 8 out) refl

length-uid_bytes : (uid : ℕ → ℕ) → length (uid_bytes uid) ≡ 12
unfolding le_bytes
length-uid_bytes uid = refl

segment_lem :
    (uid : ℕ → ℕ) (before : List ℕ)
    → stm32_segment uid 0 id_segment_max before 0
      ≡ uid_answer
          (
            uid_bytes uid ++ drop 12 before,
            or_all (uid_words uid) 0,
            and_all (uid_words uid) 0xffffffff,
          )
          0
unfolding stm32_segment
segment_lem uid before = ap (λ t. uid_answer t 0) (uid_loop_lem uid before)

-- What one call does with the buffer of a segment
segment_cases :
    (uid : ℕ → ℕ) (before : List ℕ)
    → All (Below (2 ^ 32)) (uid_words uid)
    → (IsBlank 32 (uid_words uid)
        × (stm32_segment uid 0 id_segment_max before 0
            ≡ (platform, replicate 12 0 ++ drop 12 before, 0)))
      ⊎ (¬ IsBlank 32 (uid_words uid)
          × (stm32_segment uid 0 id_segment_max before 0
              ≡ (ok, uid_bytes uid ++ drop 12 before, 12)))
unfolding uid_answer le_bytes
segment_cases uid before b = elim (IsBlank-cases 32 (uid_words uid) b) [
  | inl (blank, e) ↦ inl (blank, segment_lem uid before ∙ rw e refl)
  | inr (inl (blank, e, f)) ↦ inl (blank, segment_lem uid before ∙ rw (e, f) refl)
  | inr (inr (shown, e, f)) ↦ inr (shown, segment_lem uid before ∙ rw (e, f) refl)
]

segment_keeps :
    (uid : ℕ → ℕ) (before : List ℕ) (idx : ℕ)
    → All (Below (2 ^ 32)) (uid_words uid)
    → length before ≡ id_segment_max
    → length (stm32_segment uid idx id_segment_max before 0).1 ≡ id_segment_max
unfolding stm32_segment
segment_keeps uid before (suc idx) b sized =
    let other : (suc idx != 0) ≡ true = ground arith in rw (other, stm32_segment) sized
segment_keeps uid before zero b sized = elim (segment_cases uid before b) [
  | inl (blank, e) ↦ ap (λ a. length a.1) e ∙ omega (arith, length-drop 12 before)
  | inr (shown, e) ↦
      ap (λ a. length a.1) e
      ∙ length-append (uid_bytes uid) (drop 12 before)
      ∙ omega (arith, length-drop 12 before, length-uid_bytes uid)
]

segment-Reports :
    (uid : ℕ → ℕ) (before : List ℕ)
    → All (Below (2 ^ 32)) (uid_words uid)
    → length before ≡ id_segment_max
    → (IsBlank 32 (uid_words uid) × ((stm32_segment uid 0 id_segment_max before 0).0 ≡ platform))
      ⊎ (¬ IsBlank 32 (uid_words uid) × Reports (stm32_segment uid) before (uid_bytes uid))
unfolding le_bytes stm32_segment
segment-Reports uid before b full = elim (segment_cases uid before b) [
  | inl (blank, e) ↦ inl (blank, ap (λ a. a.0) e)
  | inr (shown, e) ↦ inr (
    shown,
    record {
      keeps = λ idx. segment_keeps uid before idx b full;
      out = uid_bytes uid ++ drop 12 before;
      first = e;
      holds = refl;
      fits = omega arith;
      ends = refl;
    },
  )
]

-- On an STM32 whose id words are 32 bits wide: if the three words are all 0 or all ones, the
-- fingerprint fails with VL_ERR_PLATFORM and is wiped; otherwise it is the SHA-256 digest of the
-- domain string, the length 12 and the words' bytes, least significant first.
stm32_fingerprint :
    {W : Type 0} (uid : ℕ → ℕ) (before : List ℕ) (stack : Ctx Words) (out : List ℕ) (w : W)
    → All (Below (2 ^ 32)) (uid_words uid)
    → length before ≡ id_segment_max
    → length stack.buffer ≡ block_len
    → length out ≡ fingerprint_len
    → let print = fingerprint_with stack (some (reader (stm32_segment uid) before)) (some out) w in
      (IsBlank 32 (uid_words uid) × (print ≡ (platform, some (replicate 32 0), w)))
      ⊎ (¬ IsBlank 32 (uid_words uid)
          × (print ≡ (ok, some (digest (fp_domain ++ (12 ∷ uid_bytes uid))), w)))
unfolding le_bytes
stm32_fingerprint uid before stack out w b full =
    fingerprint-IsBlank (stm32_segment uid) before 32 (uid_words uid) (uid_bytes uid) stack out w
      (λ idx. segment_keeps uid before idx b full) (segment-Reports uid before b full)
