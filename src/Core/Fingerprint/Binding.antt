-- ===== src/Core/Fingerprint/Binding.antt =====
-- The identity of a device is bound by its fingerprint: the encoding of the segments is unambiguous.
use vecti_license.Base.{ℕ, some, List, [], ◌∷◌, ◌++◌, ◌≢◌}
use vecti_license.Base.{◌≡◌, refl, sym, ap, ap₂, ◌∙◌, inl, inr, ◌⊎◌, cons_injective, take, drop}
use vecti_license.Base.{take-append_exact, drop-append_exact, length}
use vecti_license.Hash.{Ctx, Words}
use vecti_license.Sha256.{block_len}
use vecti_license.Sha256.Digest.{digest}
use vecti_license.Api.{Status, ok, platform, Segment, id_segment_count_max, fingerprint_len}
use vecti_license.Core.Fingerprint.{fp_domain, fingerprint_with}
use vecti_license.Core.Fingerprint.Identity.{
  encode_segments, identity, FillsBuffer, fingerprint_refines,
}
use vecti_license.Core.Fingerprint.Identity.{fingerprint_result}
use mathlib.Core.List.{List-discrete}
use native.Mathlib.Decide.{ℕ_discrete}

append_injective :
    (xs ys us vs : List ℕ) → length xs ≡ length ys → xs ++ us ≡ ys ++ vs → (xs ≡ ys) × (us ≡ vs)
append_injective xs ys us vs e same = (
  sym (take-append_exact (length ys) xs us e)
      ∙ ap (take (length ys)) same
      ∙ take-append_exact (length ys) ys vs refl,
  sym (drop-append_exact (length ys) xs us e)
      ∙ ap (drop (length ys)) same
      ∙ drop-append_exact (length ys) ys vs refl,
)

-- Two lists of segments are told apart by their encoding, wherever the boundaries lie.
pub encode_segments-injective :
    (xs ys : List (List ℕ)) → encode_segments xs ≡ encode_segments ys → xs ≡ ys
unfolding encode_segments
encode_segments-injective [] [] e = refl
encode_segments-injective [] (y ∷ ys) e = cc
encode_segments-injective (x ∷ xs) [] e = cc
encode_segments-injective (x ∷ xs) (y ∷ ys) e =
    let (sizes, rest) = cons_injective e in
    let (heads, tails) =
      append_injective x y (encode_segments xs) (encode_segments ys) sizes rest in
    ap₂ ◌∷◌ heads (encode_segments-injective xs ys tails)

result-ok :
    {W : Type 0} (st : Status) (segs : List (List ℕ)) (w v : W) (fp : List ℕ)
    → fingerprint_result (st, segs, w) ≡ (ok, some fp, v)
    → (st ≡ ok) × (digest (fp_domain ++ encode_segments segs) ≡ fp) × (segs ≢ [])
unfolding fingerprint_result
result-ok ok [] w v fp e = absurd (clash (ap (λ r. r.0) e))
  where
    clash : ¬ (platform ≡ ok)
    clash p = cc
result-ok ok (s ∷ ss) w v fp e =
    let shown : some (digest (fp_domain ++ encode_segments (s ∷ ss))) ≡ some fp = ap (λ r. r.1) e in
    (refl, cc, λ p. cc)
result-ok st segs w v fp e = let bad = ap (λ r. r.0) e in (cc, cc, cc)

module _ {W : Type 0} (here there : ℕ → ℕ → W → Segment × W) (here_fills : FillsBuffer here)
    (there_fills : FillsBuffer there) where
  -- Two platforms whose fingerprints are both computed and come out equal report the same segments,
  -- or else they exhibit two different messages with one SHA-256 digest.
  pub fingerprint_binds :
      (stack : Ctx Words) (out fp : List ℕ) (w w' v v' : W)
      → length stack.buffer ≡ block_len
      → length out ≡ fingerprint_len
      → fingerprint_with stack (some here) (some out) w ≡ (ok, some fp, v)
      → fingerprint_with stack (some there) (some out) w' ≡ (ok, some fp, v')
      → let mine = (identity here id_segment_count_max 0 w).1 in
        let theirs = (identity there id_segment_count_max 0 w').1 in
        (mine ≡ theirs)
        ⊎ ((fp_domain ++ encode_segments mine ≢ fp_domain ++ encode_segments theirs)
            × (digest (fp_domain ++ encode_segments mine)
                ≡ digest (fp_domain ++ encode_segments theirs)))
  fingerprint_binds stack out fp w w' v v' sized room ran ran' =
      let mine = identity here id_segment_count_max 0 w in
      let theirs = identity there id_segment_count_max 0 w' in
      let shown =
        (result-ok mine.0 mine.1 mine.2 v fp
          (sym (fingerprint_refines here here_fills stack out w sized room) ∙ ran)).1 in
      let shown' =
        (result-ok theirs.0 theirs.1 theirs.2 v' fp
          (sym (fingerprint_refines there there_fills stack out w' sized room) ∙ ran')).1 in
      elim (List-discrete (List-discrete ℕ_discrete) mine.1 theirs.1) [
        | yes same ↦ inl same
        | no apart ↦ inr (
          (λ e. apart (
              encode_segments-injective mine.1 theirs.1
                (append_injective fp_domain fp_domain _ _ refl e).1)),
          shown ∙ sym shown',
        )
      ]
