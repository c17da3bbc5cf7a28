-- ===== src/Hal/Rp2040/Identity.antt =====
-- hal/rp2040/vl_hal_rp2040.c: the fingerprint of a board.
use vecti_license.Base.{
  ℕ, zero, suc, ◌+◌, ◌^◌, ◌≡◌, ◌⊎◌, inl, inr, refl, ap, ◌∙◌, arith, true, some,
}
use vecti_license.Base.{List, ◌∷◌, ◌++◌, All, length, drop, replicate, ◌!=◌, take-append_exact}
use vecti_license.Base.Digits.{Below}
use vecti_license.Hash.{Ctx, Words, write_at}
use vecti_license.Hash.Stream.Buffer.{length-write_at}
use vecti_license.Sha256.{block_len}
use vecti_license.Sha256.Digest.{digest}
use vecti_license.Api.{ok, platform, fingerprint_len, id_segment_max}
use vecti_license.Core.Fingerprint.{fp_domain, fingerprint_with}
use vecti_license.Hal.{reader}
use vecti_license.Hal.Single.{IsBlank, IsBlank-cases, Reports, fingerprint-IsBlank}
use vecti_license.Hal.Rp2040.{board_id_len, rp2040_segment}

segment_cases :
    (id before : List ℕ)
    → All (Below (2 ^ 8)) id
    → (IsBlank 8 id × (rp2040_segment id 0 id_segment_max before 0 ≡ (platform, before, 0)))
      ⊎ (¬ IsBlank 8 id
          × (rp2040_segment id 0 id_segment_max before 0 ≡ (ok, write_at 0 id before, 8)))
unfolding rp2040_segment
segment_cases id before b = elim (IsBlank-cases 8 id b) [
  | inl (blank, e) ↦ inl (blank, rw e refl)
  | inr (inl (blank, e, f)) ↦ inl (blank, rw (e, f) refl)
  | inr (inr (shown, e, f)) ↦ inr (shown, rw (e, f) refl)
]

segment_keeps :
    (id before : List ℕ) (idx : ℕ)
    → All (Below (2 ^ 8)) id
    → length id ≡ board_id_len
    → length before ≡ id_segment_max
    → length (rp2040_segment id idx id_segment_max before 0).1 ≡ id_segment_max
unfolding rp2040_segment
segment_keeps id before (suc idx) b eight full =
    let other : (suc idx != 0) ≡ true = ground arith in rw (other, rp2040_segment) full
segment_keeps id before zero b eight full = elim (segment_cases id before b) [
  | inl (blank, e) ↦ ap (λ a. length a.1) e ∙ full
  | inr (shown, e) ↦
      ap (λ a. length a.1) e ∙ length-write_at 0 id before (omega (arith, eight, full)) ∙ full
]

segment-Reports :
    (id before : List ℕ)
    → All (Below (2 ^ 8)) id
    → length id ≡ board_id_len
    → length before ≡ id_segment_max
    → (IsBlank 8 id × ((rp2040_segment id 0 id_segment_max before 0).0 ≡ platform))
      ⊎ (¬ IsBlank 8 id × Reports (rp2040_segment id) before id)
unfolding rp2040_segment
segment-Reports id before b eight full = elim (segment_cases id before b) [
  | inl (blank, e) ↦ inl (blank, ap (λ a. a.0) e)
  | inr (shown, e) ↦ inr (
    shown,
    record {
      keeps = λ idx. segment_keeps id before idx b eight full;
      out = write_at 0 id before;
      first = e ∙ rw eight refl;
      holds = take-append_exact (length id) id (drop (0 + length id) before) refl;
      fits = omega (arith, eight);
      ends = refl;
    },
  )
]

-- On an RP2040 with a board id of 8 bytes: if they are all 0 or all 0xff, the fingerprint fails with
-- VL_ERR_PLATFORM and is wiped; otherwise it is the SHA-256 digest of the domain string, the length 8
-- and the id.
rp2040_fingerprint :
    {W : Type 0} (id before : List ℕ) (stack : Ctx Words) (out : List ℕ) (w : W)
    → All (Below (2 ^ 8)) id
    → length id ≡ board_id_len
    → length before ≡ id_segment_max
    → length stack.buffer ≡ block_len
    → length out ≡ fingerprint_len
    → let print = fingerprint_with stack (some (reader (rp2040_segment id) before)) (some out) w in
      (IsBlank 8 id × (print ≡ (platform, some (replicate 32 0), w)))
      ⊎ (¬ IsBlank 8 id × (print ≡ (ok, some (digest (fp_domain ++ (length id ∷ id))), w)))
rp2040_fingerprint id before stack out w b eight full =
    fingerprint-IsBlank (rp2040_segment id) before 8 id id stack out w
      (λ idx. segment_keeps id before idx b eight full) (segment-Reports id before b eight full)
