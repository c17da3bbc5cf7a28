-- ===== src/Hal/Posix/Identity.antt =====
-- hal/posix/vl_hal_posix.c on Linux: the fingerprint of a machine.
use vecti_license.Base.{
  ℕ, zero, suc, ◌≡◌, ◌≤◌, refl, ap, subst, ◌∙◌, sym, arith, inl, inr, ◌⊎◌, Option-cases, some, none,
}
use vecti_license.Base.{List, [], ◌∷◌, ◌++◌, length, replicate}
use vecti_license.Hash.{Ctx, Words}
use vecti_license.Sha256.{block_len}
use vecti_license.Sha256.Digest.{digest}
use vecti_license.Api.{ok, platform, id_segment_max, fingerprint_len}
use vecti_license.Core.Fingerprint.{fp_domain, fingerprint_with}
use vecti_license.Core.Fingerprint.Identity.{
  encode_segments, identity, fingerprint_result, FillsBuffer, fingerprint_refines,
}
use vecti_license.Hal.Single.{identity_ends}
use vecti_license.Hal.Posix.{Os, PosixCtx}
use vecti_license.Hal.Posix.Segments.{
  id_buf_size, read_machine_id, read_board_serial, mac_segment, chosen_iface, segment_out,
  posix_segment,
}
use vecti_license.Hal.Posix.Reading.{
  Failing, Fits, segment_out-cases, length-segment_out, failed_result, identity-Failing,
  identity_reads,
}

-- What a Linux machine with an interface `iface` reports
pub record Readable {W : Type 0} (os : Os W) (c : PosixCtx) (w : W) : Type 0 where
  pub iface : List ℕ
  pub mac : List ℕ
  pub machine : List ℕ
  pub chosen : chosen_iface os c.iface w ≡ some iface
  pub mac_fits : Fits (mac_segment os iface w) mac
  pub machine_fits : Fits (read_machine_id os id_buf_size w) machine
  pub serial_fits : length (read_board_serial os id_buf_size w) ≤ id_segment_max

module _ {W : Type 0} (os : Os W) (before : List ℕ) where
  first_read :
      (c : PosixCtx) (w : W) (iface : List ℕ)
      → chosen_iface os c.iface w ≡ some iface
      → posix_segment os before 0 id_segment_max (c, w) ≡ (
        segment_out id_segment_max before (mac_segment os iface w),
        (record c { iface = iface }, w),
      )
  unfolding posix_segment
  first_read c w iface e = rw (e, posix_segment) refl

  first_fails :
      (c : PosixCtx) (w : W)
      → chosen_iface os c.iface w ≡ none
      → (posix_segment os before 0 id_segment_max (c, w)).0.status ≡ platform
  unfolding posix_segment segment_out
  first_fails c w e = rw (e, posix_segment) refl

  segment-FillsBuffer : length before ≡ id_segment_max → FillsBuffer (posix_segment os before)
  unfolding posix_segment
  segment-FillsBuffer full zero (c, w) = elim (Option-cases (chosen_iface os c.iface w)) [
    | inl e ↦ rw (e, posix_segment) (length-segment_out before none full)
    | inr (iface, e) ↦
        rw (e, posix_segment) (length-segment_out before (mac_segment os iface w) full)
  ]
  segment-FillsBuffer full (suc zero) (c, w) =
      length-segment_out before (read_machine_id os id_buf_size w) full
  segment-FillsBuffer full (suc (suc zero)) (c, w) =
      length-segment_out before (some (read_board_serial os id_buf_size w)) full
  segment-FillsBuffer full (suc (suc (suc idx))) (c, w) = full

  -- The segments from the second on, at a machine whose id can be read
  later_identity :
      (c : PosixCtx) (w : W)
      → ((id : List ℕ) × Fits (read_machine_id os id_buf_size w) id
          × (length (read_board_serial os id_buf_size w) ≤ id_segment_max)
          × (identity (posix_segment os before) 63 1 (c, w)
              ≡ (ok, id ∷ read_board_serial os id_buf_size w ∷ [], (c, w))))
        ⊎ (((id : List ℕ)
              → Fits (read_machine_id os id_buf_size w) id
              → ¬ (length (read_board_serial os id_buf_size w) ≤ id_segment_max))
            × Failing (identity (posix_segment os before) 63 1 (c, w)).0)
  unfolding posix_segment
  later_identity c w =
      let read = posix_segment os before in
      let serial = read_board_serial os id_buf_size w in
      elim (segment_out-cases before (read_machine_id os id_buf_size w)) [
        | inr (none_fits, fails) ↦
            inr ((λ id f short. none_fits id f), identity-Failing read 62 1 (c, w) fails)
        | inl (id, fits, e) ↦
            let goes =
              identity_reads read 62 1 (c, w) (c, w) id before (ap (λ s. (s, (c, w))) e) fits.1 in
            elim (segment_out-cases before (some serial)) [
              | inr (none_fits, fails) ↦ inr (
                (λ id' f short. none_fits serial (refl, short)),
                subst Failing (sym (ap (λ r. r.0) goes)) (identity-Failing read 61 2 (c, w) fails),
              )
              | inl (s, fits', e') ↦
                  let same : serial ≡ s = cc fits'.0 in
                  let goes2 =
                    identity_reads read 61 2 (c, w) (c, w) s before (ap (λ s. (s, (c, w))) e')
                      fits'.1 in
                  let ends = identity_ends read 60 3 (c, w) refl in
                  inl (
                    id,
                    fits,
                    omega (arith, ap length same, fits'.1),
                    goes ∙ rw (goes2, ends, same) refl,
                  )
            ]
      ]

  posix_identity :
      (c : PosixCtx) (w : W)
      → ((r : Readable os c w) × (identity (posix_segment os before) 64 0 (c, w) ≡ (
        ok,
        r.mac ∷ r.machine ∷ read_board_serial os id_buf_size w ∷ [],
        (record c { iface = r.iface }, w),
      )))
        ⊎ (¬ Readable os c w × Failing (identity (posix_segment os before) 64 0 (c, w)).0)
  posix_identity c w =
      let read = posix_segment os before in
      elim (Option-cases (chosen_iface os c.iface w)) [
        | inl e ↦ inr (
          (λ r. let chosen = r.chosen in cc),
          identity-Failing read 63 0 (c, w) (inl (first_fails c w e)),
        )
        | inr (iface, e) ↦
            let c' : PosixCtx = record c { iface = iface } in
            let first = first_read c w iface e in
            elim (segment_out-cases before (mac_segment os iface w)) [
              | inr (none_fits, fails) ↦ inr (
                (λ r.
                    let same : r.iface ≡ iface = cc r.chosen in
                    none_fits r.mac (subst (λ i. Fits (mac_segment os i w) r.mac) same r.mac_fits)),
                identity-Failing read 63 0 (c, w)
                    (subst Failing (sym (ap (λ s. s.0.status) first)) fails),
              )
              | inl (mac, fits, out) ↦
                  let goes =
                    identity_reads read 63 0 (c, w) (c', w) mac before
                      (first ∙ ap (λ s. (s, (c', w))) out) fits.1 in
                  elim (later_identity c' w) [
                    | inr (missing, fails) ↦ inr (
                      (λ r. missing r.machine r.machine_fits r.serial_fits),
                      subst Failing (sym (ap (λ r. r.0) goes)) fails,
                    )
                    | inl (id, machine, serial, rest) ↦ inl (
                      record {
                        iface = iface;
                        mac = mac;
                        machine = id;
                        chosen = e;
                        mac_fits = fits;
                        machine_fits = machine;
                        serial_fits = serial;
                      },
                      goes ∙ rw rest refl,
                    )
                  ]
            ]
      ]

  -- On Linux: if an interface with a MAC address and a machine id are found, and they and the board
  -- serial have at most 255 bytes, then the fingerprint is the SHA-256 digest of the domain string and
  -- these three length-prefixed segments, and the platform keeps the interface; otherwise it fails
  -- with VL_ERR_PLATFORM or VL_ERR_BUFFER_TOO_SMALL and is wiped.
  pub posix_fingerprint :
      (stack : Ctx Words) (out : List ℕ) (c : PosixCtx) (w : W)
      → length before ≡ id_segment_max
      → length stack.buffer ≡ block_len
      → length out ≡ fingerprint_len
      → let print = fingerprint_with stack (some (posix_segment os before)) (some out) (c, w) in
        ((r : Readable os c w) × (print ≡ (
          ok,
          some (
              digest (
                fp_domain
                ++ encode_segments (r.mac ∷ r.machine ∷ read_board_serial os id_buf_size w ∷ []))),
          (record c { iface = r.iface }, w),
        )))
        ⊎ (¬ Readable os c w × Failing print.0 × (print.1 ≡ some (replicate 32 0)))
  unfolding fingerprint_result
  posix_fingerprint stack out c w full sized room =
      let refined =
        fingerprint_refines (posix_segment os before) (segment-FillsBuffer full) stack out (c, w)
          sized room in
      elim (posix_identity c w) [
        | inl (r, reports) ↦ inl (r, refined ∙ ap fingerprint_result reports)
        | inr (bad, fails) ↦
            let (st, wiped) =
              failed_result (identity (posix_segment os before) 64 0 (c, w)) fails in
            inr (bad, subst Failing (sym (ap (λ r. r.0) refined)) st, ap (λ r. r.1) refined ∙ wiped)
      ]
