-- ===== src/Hal/Nxp/Identity.antt =====
-- hal/nxp/vl_hal_nxp.c: the fingerprint of each family.
use vecti_license.Base.{
  ℕ, zero, suc, ◌^◌, ◌≤◌, ◌≡◌, ltb, true, false, ◌⊎◌, inl, inr, refl, ap, ◌∙◌, arith, true, some,
}
use vecti_license.Base.{
  List, ◌∷◌, ◌++◌, All, All-append, length, drop, replicate, ◌!=◌, drop-drop, length-append,
  length-drop, length-replicate, take-append_exact, drop-append_exact,
}
use native.Mathlib.Nat.{zero-add}
use vecti_license.Base.Words.{be_bytes}
use vecti_license.Base.Digits.{Below}
use vecti_license.Hash.{Ctx, Words}
use vecti_license.Sha256.{block_len}
use vecti_license.Sha256.Digest.{digest}
use vecti_license.Api.{ok, platform, fingerprint_len, id_segment_max}
use vecti_license.Core.Fingerprint.{fp_domain, fingerprint_with}
use vecti_license.Hal.{reader}
use vecti_license.Hal.Single.{IsBlank, IsBlank-cases, Reports, fingerprint-IsBlank}
use vecti_license.Hal.Nxp.{
  Family, kinetis_uidh, kinetis, imxrt, Registers, nxp_id_len, put_all, nxp_answer, nxp_segment,
}

-- The id as bytes
abbrev pub nxp_bytes : Family → Registers → List ℕ
nxp_bytes kinetis_uidh r =
    be_bytes r.uidh ++ (be_bytes r.uidmh ++ (be_bytes r.uidml ++ be_bytes r.uidl))
nxp_bytes kinetis r = be_bytes r.uidmh ++ (be_bytes r.uidml ++ be_bytes r.uidl)
nxp_bytes imxrt r = be_bytes r.cfg0 ++ be_bytes r.cfg1

length-nxp_bytes :
    (family : Family) (r : Registers) → length (nxp_bytes family r) ≡ nxp_id_len family
unfolding be_bytes
length-nxp_bytes kinetis_uidh r = refl
length-nxp_bytes kinetis r = refl
length-nxp_bytes imxrt r = refl

be_bytes-Below : (w : ℕ) → All (Below (2 ^ 8)) (be_bytes w)
unfolding be_bytes
be_bytes-Below w = (omega arith, (omega arith, (omega arith, (omega arith, tt))))

and_then : (w : ℕ) (p : List ℕ) → All (Below (2 ^ 8)) p → All (Below (2 ^ 8)) (be_bytes w ++ p)
and_then w p h = All-append (Below (2 ^ 8)) (be_bytes w) p (be_bytes-Below w) h

nxp_bytes-Below : (family : Family) (r : Registers) → All (Below (2 ^ 8)) (nxp_bytes family r)
nxp_bytes-Below kinetis_uidh r =
    and_then r.uidh _ (and_then r.uidmh _ (and_then r.uidml _ (be_bytes-Below r.uidl)))
nxp_bytes-Below kinetis r = and_then r.uidmh _ (and_then r.uidml _ (be_bytes-Below r.uidl))
nxp_bytes-Below imxrt r = and_then r.cfg0 _ (be_bytes-Below r.cfg1)

put_all_lem :
    (family : Family) (r : Registers) (out : List ℕ)
    → put_all family r out ≡ (nxp_id_len family, nxp_bytes family r ++ drop (nxp_id_len family) out)
unfolding be_bytes
put_all_lem kinetis_uidh r out = rw (drop-drop 4 4 out, drop-drop 4 8 out, drop-drop 4 12 out) refl
put_all_lem kinetis r out = rw (drop-drop 4 4 out, drop-drop 4 8 out) refl
put_all_lem imxrt r out = rw (drop-drop 4 4 out) refl

id_len_fits : (family : Family) → nxp_id_len family ≤ 16
id_len_fits kinetis_uidh = omega arith
id_len_fits kinetis = omega arith
id_len_fits imxrt = omega arith

module _ (family : Family) (r : Registers) (before : List ℕ) where
  segment_lem :
      nxp_segment family r 0 id_segment_max before 0
      ≡ nxp_answer (nxp_id_len family, nxp_bytes family r ++ drop (nxp_id_len family) before) 0
  unfolding nxp_segment
  segment_lem =
      let fits : ltb id_segment_max (nxp_id_len family) ≡ false =
        ground (arith, id_len_fits family) in
      rw fits (ap (λ t. nxp_answer t 0) (put_all_lem family r before))

  -- What one call does with the buffer of a segment
  segment_cases :
      (IsBlank 8 (nxp_bytes family r)
        × (nxp_segment family r 0 id_segment_max before 0
            ≡ (platform, replicate (nxp_id_len family) 0 ++ drop (nxp_id_len family) before, 0)))
      ⊎ (¬ IsBlank 8 (nxp_bytes family r)
          × (nxp_segment family r 0 id_segment_max before 0
              ≡ (ok, nxp_bytes family r ++ drop (nxp_id_len family) before, nxp_id_len family)))
  unfolding nxp_answer
  segment_cases =
      let front =
        take-append_exact (nxp_id_len family) (nxp_bytes family r) (drop (nxp_id_len family) before)
          (length-nxp_bytes family r) in
      let back =
        drop-append_exact (nxp_id_len family) (nxp_bytes family r) (drop (nxp_id_len family) before)
          (length-nxp_bytes family r) in
      let count = length-replicate {A = ℕ} (nxp_id_len family) 0 in
      elim (IsBlank-cases 8 (nxp_bytes family r) (nxp_bytes-Below family r)) [
        | inl (blank, e) ↦
            inl (blank, segment_lem ∙ rw (front, e, count, zero-add (nxp_id_len family), back) refl)
        | inr (inl (blank, e, f)) ↦
            inl (
              blank,
              segment_lem ∙ rw (front, e, f, count, zero-add (nxp_id_len family), back) refl,
            )
        | inr (inr (shown, e, f)) ↦ inr (shown, segment_lem ∙ rw (front, e, f) refl)
      ]

  segment_keeps :
      (idx : ℕ)
      → length before ≡ id_segment_max
      → length (nxp_segment family r idx id_segment_max before 0).1 ≡ id_segment_max
  unfolding nxp_segment
  segment_keeps (suc idx) sized =
      let other : (suc idx != 0) ≡ true = ground arith in rw (other, nxp_segment) sized
  segment_keeps zero sized = elim segment_cases [
    | inl (blank, e) ↦
        ap (λ a. length a.1) e
        ∙ length-append (replicate (nxp_id_len family) 0) (drop (nxp_id_len family) before)
        ∙ omega (
          arith,
          length-drop (nxp_id_len family) before,
          length-replicate {A = ℕ} (nxp_id_len family) 0,
          id_len_fits family,
        )
    | inr (shown, e) ↦
        ap (λ a. length a.1) e
        ∙ length-append (nxp_bytes family r) (drop (nxp_id_len family) before)
        ∙ omega (
          arith,
          length-drop (nxp_id_len family) before,
          length-nxp_bytes family r,
          id_len_fits family,
        )
  ]

  segment-Reports :
      length before ≡ id_segment_max
      → (IsBlank 8 (nxp_bytes family r)
          × ((nxp_segment family r 0 id_segment_max before 0).0 ≡ platform))
        ⊎ (¬ IsBlank 8 (nxp_bytes family r)
            × Reports (nxp_segment family r) before (nxp_bytes family r))
  unfolding nxp_segment
  segment-Reports full = elim segment_cases [
    | inl (blank, e) ↦ inl (blank, ap (λ a. a.0) e)
    | inr (shown, e) ↦ inr (
      shown,
      record {
        keeps = λ idx. segment_keeps idx full;
        out = nxp_bytes family r ++ drop (nxp_id_len family) before;
        first = e ∙ rw (length-nxp_bytes family r) refl;
        holds =
            take-append_exact (length (nxp_bytes family r)) (nxp_bytes family r)
              (drop (nxp_id_len family) before) refl;
        fits = omega (arith, length-nxp_bytes family r, id_len_fits family);
        ends = refl;
      },
    )
  ]

-- On each NXP family: if the id's bytes are all 0 or all 0xff, the fingerprint fails with
-- VL_ERR_PLATFORM and is wiped; otherwise it is the SHA-256 digest of the domain string, the id's
-- length and its registers' bytes, in the order of the callback, most significant first.
pub nxp_fingerprint :
    {W : Type 0} (family : Family) (r : Registers) (before : List ℕ) (stack : Ctx Words)
    (out : List ℕ) (w : W)
    → length before ≡ id_segment_max
    → length stack.buffer ≡ block_len
    → length out ≡ fingerprint_len
    → let print =
        fingerprint_with stack (some (reader (nxp_segment family r) before)) (some out) w in
      (IsBlank 8 (nxp_bytes family r) × (print ≡ (platform, some (replicate 32 0), w)))
      ⊎ (¬ IsBlank 8 (nxp_bytes family r)
          × (print ≡ (
            ok,
            some (digest (fp_domain ++ (length (nxp_bytes family r) ∷ nxp_bytes family r))),
            w,
          )))
nxp_fingerprint family r before stack out w full =
    fingerprint-IsBlank (nxp_segment family r) before 8 (nxp_bytes family r) (nxp_bytes family r)
      stack out w (λ idx. segment_keeps family r before idx full)
      (segment-Reports family r before full)
