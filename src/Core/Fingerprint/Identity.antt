-- ===== src/Core/Fingerprint/Identity.antt =====
-- vl_compute_fingerprint hashes exactly the identity that the platform reports.
use vecti_license.Base.{ℕ, zero, suc, ◌+◌, ◌%◌, ◌^◌, ◌≤◌, Option, some, List, [], ◌∷◌, ◌++◌}
use vecti_license.Base.{
  ◌≡◌, refl, sym, ap, ◌∙◌, arith, inl, inr, Bool-cases, ap₂, length-eq-zero, drop_all, subst, false,
}
use vecti_license.Base.{
  ltb, ◌==◌, if◌then◌else◌, length, take, length-take, replicate, ltb-false→le,
}
use vecti_license.Util.{secure_wipe}
use vecti_license.Hash.{Ctx, Words}
use vecti_license.Sha256.{block_len}
use vecti_license.Sha256.Digest.{digest, Absorbed, sha256_init-Absorbed, sha256_update-Absorbed}
use vecti_license.Sha256.Digest.{sha256_final-digest}
use vecti_license.Api.{Status, ok, platform, no_more_segments, Segment}
use vecti_license.Api.{id_segment_max, id_segment_count_max, fingerprint_len}
use vecti_license.Core.Fingerprint.{fp_domain, absorb_segment, segments_loop, fingerprint_end}
use vecti_license.Core.Fingerprint.{fingerprint_with}
use native.Mathlib.Nat.{zero-add}
use mathlib.Core.List.{append_assoc, append-nil}

-- A segment on the wire: one length byte, then the bytes.
unfoldable pub encode_segments : List (List ℕ) → List ℕ
encode_segments [] = []
encode_segments (s ∷ ss) = length s ∷ (s ++ encode_segments ss)

module _ {W : Type 0} where
  -- The identity that a platform reports in at most `left` calls from `idx` on: the status with which
  -- the enumeration ends (`ok` at the end of the list), the segments, and the world after it.
  unfoldable pub identity : (ℕ → ℕ → W → Segment × W) → ℕ → ℕ → W → Status × List (List ℕ) × W
  identity read zero idx w = (ok, [], w)
  identity read (suc left) idx w =
      let (seg, w') = read idx id_segment_max w in
      elim (seg.status) [
        | no_more_segments ↦ (ok, [], w')
        | ok ↦
            let (st, segs, w'') = identity read left (idx + 1) w' in
            if ltb id_segment_max seg.len
            then (platform, [], w')
            else (st, take seg.len seg.bytes ∷ segs, w'')
        | other ↦ (other, [], w')
      ]

  -- The fingerprint that an identity stands for.
  unfoldable pub fingerprint_result : Status × List (List ℕ) × W → Status × Option (List ℕ) × W
  fingerprint_result (ok, [], w) = (platform, some (replicate 32 0), w)
  fingerprint_result (ok, s ∷ ss, w) =
      (ok, some (digest (fp_domain ++ encode_segments (s ∷ ss))), w)
  fingerprint_result (rc, segs, w) = (rc, some (replicate 32 0), w)

  -- The buffer of a segment has 255 bytes, whatever the platform wrote to it.
  abbrev pub FillsBuffer : (ℕ → ℕ → W → Segment × W) → Type 0
  FillsBuffer read = (idx : ℕ) (w : W) → length (read idx id_segment_max w).0.bytes ≡ id_segment_max

absorb_segment-Absorbed :
    (msg : List ℕ) (ctx : Ctx Words) (seg : Segment)
    → Absorbed msg ctx
    → length seg.bytes ≡ id_segment_max
    → seg.len ≤ id_segment_max
    → (ctx' : Ctx Words) × (absorb_segment (some ctx) seg ≡ some ctx')
      × Absorbed (msg ++ (length (take seg.len seg.bytes) ∷ take seg.len seg.bytes)) ctx'
unfolding absorb_segment
absorb_segment-Absorbed msg ctx seg h filled short =
    let held = take seg.len seg.bytes in
    let byte : seg.len % 2 ^ 8 ≡ length (take seg.len seg.bytes) =
      omega (arith, length-take seg.len seg.bytes, filled, short) in
    let (c1, s1, h1) = sha256_update-Absorbed msg ((seg.len % 2 ^ 8) ∷ []) ctx h in
    elim (Bool-cases (ltb 0 seg.len)) [
      | inl many ↦
          let (c2, s2, h2) = sha256_update-Absorbed _ (take seg.len seg.bytes) c1 h1 in
          (
            c2,
            rw (s1, many) s2,
            subst (λ m. Absorbed m c2)
                (append_assoc msg ((seg.len % 2 ^ 8) ∷ []) held ∙ ap (λ n. msg ++ (n ∷ held)) byte)
                h2,
          )
      | inr empty ↦
          let nothing : held ≡ [] =
            length-eq-zero held
              (omega (arith, length-take seg.len seg.bytes, ltb-false→le 0 seg.len empty)) in
          (
            c1,
            rw (s1, empty) refl,
            subst (λ m. Absorbed m c1) (ap₂ (λ n t. msg ++ (n ∷ t)) byte (sym nothing)) h1,
          )
    ]

-- What the loop has done when it is left, beside the identity that it has read.
record Reads {W : Type 0} (msg : List ℕ) (accepted : ℕ) (got : Status × List (List ℕ) × W)
    (left : Status × Option (Ctx Words) × ℕ × W) : Type 0 where
  ctx : Ctx Words
  returns : left ≡ (got.0, some ctx, accepted + length got.1, got.2)
  absorbed : Absorbed (msg ++ encode_segments got.1) ctx

wiped_output :
    (out : List ℕ)
    → length out ≡ fingerprint_len
    → secure_wipe (some out) 32 ≡ some (replicate 32 0)
unfolding secure_wipe
wiped_output out room = rw (drop_all 32 out (omega arith)) refl

suc_is_positive : (n : ℕ) → (suc n == 0) ≡ false
suc_is_positive n = ground arith

finishes :
    {W : Type 0} (out : List ℕ)
    → length out ≡ fingerprint_len
    → (st : Status) (segs : List (List ℕ)) (w : W) (ctx : Ctx Words)
    → Absorbed (fp_domain ++ encode_segments segs) ctx
    → fingerprint_end (some out) (st, some ctx, 0 + length segs, w)
      ≡ fingerprint_result (st, segs, w)
unfolding fingerprint_end fingerprint_result
finishes out room ok [] w ctx h = ap (λ o. (platform, o, w)) (wiped_output out room)
finishes out room ok (s ∷ ss) w ctx h =
    rw
      (
        zero-add,
        suc_is_positive (length ss),
        sha256_final-digest (fp_domain ++ encode_segments (s ∷ ss)) ctx out h,
      )
      refl
finishes out room st segs w ctx h = ap (λ o. (st, o, w)) (wiped_output out room)

module _ {W : Type 0} (read : ℕ → ℕ → W → Segment × W) (fills : FillsBuffer read) where
  Reads-nothing :
      (msg : List ℕ) (ctx : Ctx Words) (accepted : ℕ) (st : Status) (w : W)
      → Absorbed msg ctx
      → Reads msg accepted (st, [], w) (st, some ctx, accepted, w)
  unfolding encode_segments
  Reads-nothing msg ctx accepted st w h = record {
    ctx = ctx;
    returns = ap (λ n. (st, some ctx, n, w)) (omega arith);
    absorbed = subst (λ m. Absorbed m ctx) (sym (append-nil msg)) h;
  }

  Reads-more :
      (msg s : List ℕ) (accepted : ℕ) (st : Status) (segs : List (List ℕ)) (w : W)
      (left : Status × Option (Ctx Words) × ℕ × W)
      → Reads (msg ++ (length s ∷ s)) (accepted + 1) (st, segs, w) left
      → Reads msg accepted (st, s ∷ segs, w) left
  unfolding encode_segments
  Reads-more msg s accepted st segs w left r = record {
    ctx = r.ctx;
    returns = r.returns ∙ ap (λ n. (st, some r.ctx, n, w)) (omega arith);
    absorbed = subst (λ m. Absorbed m r.ctx) (append_assoc msg (length s ∷ s) _) r.absorbed;
  }

  segments_loop-Reads :
      (left idx : ℕ) (msg : List ℕ) (ctx : Ctx Words) (accepted : ℕ) (w : W)
      → Absorbed msg ctx
      → Reads msg accepted
          (identity read left idx w)
          (segments_loop read left idx (some ctx) accepted w)
  unfolding segments_loop identity
  segments_loop-Reads zero idx msg ctx accepted w h = Reads-nothing msg ctx accepted ok w h
  segments_loop-Reads (suc left) idx msg ctx accepted w h =
      go (λ m c n a. segments_loop-Reads left (idx + 1) m c n w' a) seg.status refl
    where
      seg : Segment
      seg = (read idx id_segment_max w).0

      w' : W
      w' = (read idx id_segment_max w).1

      go :
          ((m : List ℕ) (c : Ctx Words) (n : ℕ)
            → Absorbed m c
            → Reads m n
                (identity read left (idx + 1) w')
                (segments_loop read left (idx + 1) (some c) n w'))
          → (st : Status) → seg.status ≡ st
          → Reads msg accepted
              (identity read (suc left) idx w)
              (segments_loop read (suc left) idx (some ctx) accepted w)
      go ih no_more_segments e =
          rw (e, segments_loop, identity) (Reads-nothing msg ctx accepted ok w' h)
      go ih ok e = elim (Bool-cases (ltb id_segment_max seg.len)) [
        | inl long ↦
            rw (e, segments_loop, identity, long) (Reads-nothing msg ctx accepted platform w' h)
        | inr short ↦
            let (c, step, held) =
              absorb_segment-Absorbed msg ctx seg h (fills idx w) (ltb-false→le _ seg.len short) in
            rw (e, segments_loop, identity, short, step)
              (Reads-more msg (take seg.len seg.bytes) accepted _ _ _ _
                (ih _ c (accepted + 1) held))
      ]
      go ih other e = rw (e, segments_loop, identity) (Reads-nothing msg ctx accepted _ w' h)

  -- On a HAL whose segments come in the 255-byte buffer, and for a 32-byte output, the fingerprint
  -- is the SHA-256 digest of the domain string and the length-prefixed segments; where the
  -- enumeration fails, or yields nothing, the status says so and the output is 32 zero bytes.
  pub fingerprint_refines :
      (stack : Ctx Words) (out : List ℕ) (w : W)
      → length stack.buffer ≡ block_len
      → length out ≡ fingerprint_len
      → fingerprint_with stack (some read) (some out) w
        ≡ fingerprint_result (identity read id_segment_count_max 0 w)
  unfolding fingerprint_with fingerprint_result fingerprint_end
  fingerprint_refines stack out w sized room =
      let (c0, begun, empty) = sha256_init-Absorbed stack sized in
      let (c1, step, domain) = sha256_update-Absorbed [] fp_domain c0 empty in
      let r = segments_loop-Reads id_segment_count_max 0 fp_domain c1 0 w domain in
      rw (begun, step, r.returns)
        (finishes out room _ (identity read id_segment_count_max 0 w).1 _ r.ctx r.absorbed)
