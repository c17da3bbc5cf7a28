-- ===== src/Core/Fingerprint/World.antt =====
-- core/vl_core.c: what vl_compute_fingerprint leaves alone is what the platform's callback leaves alone.
use vecti_license.Base.{
  ℕ, zero, suc, ◌+◌, ◌≡◌, ltb, ◌==◌, if◌then◌else◌, Bool, true, false, Option, some, List,
}
use vecti_license.Hash.{Ctx, Words}
use vecti_license.Sha256.{sha256_init, sha256_update}
use vecti_license.Api.{Status, ok, platform, no_more_segments, Segment, Hal, id_segment_max}
use vecti_license.Api.{id_segment_count_max}
use vecti_license.Core.Fingerprint.{
  fp_domain, absorb_segment, segments_loop, fingerprint_end, fingerprint_with, compute_fingerprint,
}

module _ {W : Type 0} (P : W → Type 0) where
  if-keeps :
      {A : Type 0} (b : Bool) (x y : A) (f : A → W) → P (f x) → P (f y) → P (f (if b then x else y))
  if-keeps true x y f h k = h
  if-keeps false x y f h k = k

  segments_loop-keeps :
      (read : ℕ → ℕ → W → Segment × W)
      → ((idx cap : ℕ) (w : W) → P w → P (read idx cap w).1)
      → (left idx : ℕ) (ctx : Option (Ctx Words)) (accepted : ℕ) (w : W) → P w
      → P (segments_loop read left idx ctx accepted w).3
  unfolding segments_loop
  segments_loop-keeps read keeps zero idx ctx accepted w h = h
  segments_loop-keeps read keeps (suc left) idx ctx accepted w h =
      let (seg, w') = read idx id_segment_max w in
      let now : P w' = keeps idx id_segment_max w h in
      let later =
        segments_loop-keeps read keeps left (idx + 1) (absorb_segment ctx seg) (accepted + 1) w'
          now in
      elim (seg.status)
        as (λ st. P (
          let r : Status × Option (Ctx Words) × ℕ × W = elim st [
            | no_more_segments ↦ (ok, ctx, accepted, w')
            | ok ↦
                let rest =
                  segments_loop read left (idx + 1) (absorb_segment ctx seg) (accepted + 1) w' in
                if ltb id_segment_max seg.len then (platform, ctx, accepted, w') else rest
            | other ↦ (other, ctx, accepted, w')
          ] in
          r.3)) [
            | no_more_segments ↦ now
            | ok ↦
                if-keeps (ltb id_segment_max seg.len) _ _
                  (λ (r : Status × Option (Ctx Words) × ℕ × W). r.3) now later
            | other ↦ now
          ]

  fingerprint_end-keeps :
      (out : Option (List ℕ)) (r : Status × Option (Ctx Words) × ℕ × W)
      → P r.3
      → P (fingerprint_end out r).2
  unfolding fingerprint_end
  fingerprint_end-keeps out (ok, ctx, accepted, w) h =
      if-keeps (accepted == 0) _ _ (λ (r : Status × Option (List ℕ) × W). r.2) h h
  fingerprint_end-keeps out (rc, ctx, accepted, w) h = h

  pub compute_fingerprint-keeps :
      (stack : Ctx Words) (hal : Hal W) (read : ℕ → ℕ → W → Segment × W) (out : List ℕ) (w : W)
      → hal.read_id_segment ≡ some read
      → ((idx cap : ℕ) (w : W) → P w → P (read idx cap w).1)
      → P w
      → P (compute_fingerprint stack (some hal) (some out) w).2
  unfolding compute_fingerprint fingerprint_with
  compute_fingerprint-keeps stack hal read out w there keeps h =
      rw (there, fingerprint_with)
        (let ctx = sha256_update (sha256_init (some stack)) (some fp_domain) in
          fingerprint_end-keeps (some out) (segments_loop read id_segment_count_max 0 ctx 0 w)
            (segments_loop-keeps read keeps id_segment_count_max 0 ctx 0 w h))
