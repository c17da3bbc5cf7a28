-- ===== src/Hal/Posix/MacOs/Identity.antt =====
-- hal/posix/vl_hal_posix.c on macOS: the fingerprint of a machine.
use vecti_license.Base.{ℕ, zero, suc, ◌≡◌, refl, ap, subst, ◌∙◌, sym, inl, inr, ◌⊎◌, some}
use vecti_license.Base.{List, [], ◌∷◌, ◌++◌, length, replicate}
use vecti_license.Hash.{Ctx, Words}
use vecti_license.Sha256.{block_len}
use vecti_license.Sha256.Digest.{digest}
use vecti_license.Api.{ok, id_segment_max, fingerprint_len}
use vecti_license.Core.Fingerprint.{fp_domain, fingerprint_with}
use vecti_license.Core.Fingerprint.Identity.{
  encode_segments, identity, fingerprint_result, FillsBuffer, fingerprint_refines,
}
use vecti_license.Hal.Single.{identity_ends}
use vecti_license.Hal.Posix.{PosixCtx}
use vecti_license.Hal.Posix.Segments.{id_buf_size, segment_out}
use vecti_license.Hal.Posix.Reading.{
  Failing, Fits, segment_out-cases, segment_out-Fits, length-segment_out, failed_result,
  identity-Failing, identity_reads,
}
use vecti_license.Hal.Posix.MacOs.{
  Interface, MacOs, asked_iface, interface_mac, read_platform_uuid, mac_os_segment,
}
use vecti_license.Hal.Posix.MacOs.Interfaces.{First, interface_mac-cases}

-- What a machine reports: the address of the first entry that shows one, and the UUID
pub record Reports {W : Type 0} (mac_os : MacOs W) (c : PosixCtx) (w : W) : Type 0 where
  pub entries : List Interface
  pub mac : List ℕ
  pub uuid : List ℕ
  pub listed : mac_os.interfaces w ≡ some entries
  pub first : First (asked_iface c.iface) entries mac
  pub uuid_fits : Fits (read_platform_uuid mac_os id_buf_size w) uuid

module _ {W : Type 0} (mac_os : MacOs W) (before : List ℕ) where
  segment-FillsBuffer : length before ≡ id_segment_max → FillsBuffer (mac_os_segment mac_os before)
  unfolding mac_os_segment
  segment-FillsBuffer full zero (c, w) =
      length-segment_out before (interface_mac mac_os (asked_iface c.iface) id_buf_size w) full
  segment-FillsBuffer full (suc zero) (c, w) =
      length-segment_out before (read_platform_uuid mac_os id_buf_size w) full
  segment-FillsBuffer full (suc (suc idx)) (c, w) = full

  uuid_identity :
      (c : PosixCtx) (w : W)
      → ((uuid : List ℕ) × Fits (read_platform_uuid mac_os id_buf_size w) uuid
          × (identity (mac_os_segment mac_os before) 63 1 (c, w) ≡ (ok, uuid ∷ [], (c, w))))
        ⊎ (((uuid : List ℕ) → ¬ Fits (read_platform_uuid mac_os id_buf_size w) uuid)
            × Failing (identity (mac_os_segment mac_os before) 63 1 (c, w)).0)
  unfolding mac_os_segment
  uuid_identity c w =
      let read = mac_os_segment mac_os before in
      elim (segment_out-cases before (read_platform_uuid mac_os id_buf_size w)) [
        | inr (none_fits, fails) ↦ inr (none_fits, identity-Failing read 62 1 (c, w) fails)
        | inl (uuid, fits, e) ↦
            let goes =
              identity_reads read 62 1 (c, w) (c, w) uuid before (ap (λ s. (s, (c, w))) e) fits.1 in
            inl (uuid, fits, goes ∙ rw (identity_ends read 61 2 (c, w) refl) refl)
      ]

  mac_os_identity :
      (c : PosixCtx) (w : W)
      → ((r : Reports mac_os c w) × (identity (mac_os_segment mac_os before) 64 0 (c, w)
            ≡ (ok, r.mac ∷ r.uuid ∷ [], (c, w))))
        ⊎ (¬ Reports mac_os c w × Failing (identity (mac_os_segment mac_os before) 64 0 (c, w)).0)
  unfolding mac_os_segment segment_out
  mac_os_identity c w =
      let read = mac_os_segment mac_os before in
      elim (interface_mac-cases mac_os (asked_iface c.iface) w) [
        | inr (missing, e) ↦ inr (
          (λ r. missing r.entries r.mac r.listed r.first),
          identity-Failing read 63 0 (c, w) (inl (rw e refl)),
        )
        | inl (entries, mac, listed, first, fits) ↦
            let goes =
              identity_reads read 63 0 (c, w) (c, w) mac before
                (ap (λ s. (s, (c, w)))
                  (segment_out-Fits before
                    (interface_mac mac_os (asked_iface c.iface) id_buf_size w) mac fits))
                fits.1 in
            elim (uuid_identity c w) [
              | inr (missing, fails) ↦ inr (
                (λ r. missing r.uuid r.uuid_fits),
                subst Failing (sym (ap (λ r. r.0) goes)) fails,
              )
              | inl (uuid, uuid_fits, rest) ↦ inl (
                record {
                  entries = entries;
                  mac = mac;
                  uuid = uuid;
                  listed = listed;
                  first = first;
                  uuid_fits = uuid_fits;
                },
                goes ∙ rw rest refl,
              )
            ]
      ]

  -- On macOS: if an interface of the asked name, or without one of a name in "en", has a hardware
  -- address of six bytes that are not all 0, and the platform has a UUID of 1 to 255 bytes, then the
  -- fingerprint is the SHA-256 digest of the domain string and two length-prefixed segments, the
  -- spelled address of the first such interface and the UUID; otherwise it fails with
  -- VL_ERR_PLATFORM or VL_ERR_BUFFER_TOO_SMALL and is wiped.
  pub mac_os_fingerprint :
      (stack : Ctx Words) (out : List ℕ) (c : PosixCtx) (w : W)
      → length before ≡ id_segment_max
      → length stack.buffer ≡ block_len
      → length out ≡ fingerprint_len
      → let print =
          fingerprint_with stack (some (mac_os_segment mac_os before)) (some out) (c, w) in
        ((r : Reports mac_os c w) × (print
            ≡ (ok, some (digest (fp_domain ++ encode_segments (r.mac ∷ r.uuid ∷ []))), (c, w))))
        ⊎ (¬ Reports mac_os c w × Failing print.0 × (print.1 ≡ some (replicate 32 0)))
  unfolding fingerprint_result
  mac_os_fingerprint stack out c w full sized room =
      let refined =
        fingerprint_refines (mac_os_segment mac_os before) (segment-FillsBuffer full) stack out
          (c, w) sized room in
      elim (mac_os_identity c w) [
        | inl (r, reports) ↦ inl (r, refined ∙ ap fingerprint_result reports)
        | inr (bad, fails) ↦
            let (st, wiped) =
              failed_result (identity (mac_os_segment mac_os before) 64 0 (c, w)) fails in
            inr (bad, subst Failing (sym (ap (λ r. r.0) refined)) st, ap (λ r. r.1) refined ∙ wiped)
      ]
