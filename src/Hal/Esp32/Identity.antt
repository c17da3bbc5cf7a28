-- ===== src/Hal/Esp32/Identity.antt =====
-- hal/esp32/vl_hal_esp32.c: the fingerprint of an ESP32.
use vecti_license.Base.{
  ℕ, zero, suc, ◌+◌, ◌≡◌, ◌≢◌, refl, ap, ◌∙◌, arith, inl, inr, ◌⊎◌, Bool-cases, some,
}
use vecti_license.Base.{List, [], ◌∷◌, ◌++◌, length, drop, replicate, take-append_exact, ◌==◌, ◌||◌}
use vecti_license.Base.Words.{le_bytes, be_bytes}
use vecti_license.Hash.{Ctx, Words, write_at}
use vecti_license.Hash.Stream.Buffer.{length-write_at}
use vecti_license.Sha256.{block_len}
use vecti_license.Sha256.Digest.{digest}
use vecti_license.Api.{Status, ok, platform, id_segment_max, fingerprint_len}
use vecti_license.Core.Fingerprint.{fp_domain, fingerprint_with}
use vecti_license.Core.Fingerprint.Identity.{
  encode_segments, identity, fingerprint_result, FillsBuffer, fingerprint_refines,
}
use vecti_license.Hal.Single.{identity_ends, identity_fails, identity_goes_on}
use vecti_license.Hal.Esp32.{Idf, EspErr, esp_ok, chip_bytes, mac_read, flash_id_read, esp_segment}

length-mac_read :
    (out : List ℕ) (r : EspErr × List ℕ)
    → length out ≡ 255
    → length r.1 ≡ 6
    → length (mac_read out r).bytes ≡ 255
unfolding mac_read
length-mac_read out (esp_ok, mac) full six =
    length-write_at 0 mac out (omega (arith, full, six)) ∙ full
length-mac_read out (err, mac) full six = full

length-flash_id_read :
    (out : List ℕ) (r : EspErr × ℕ) → length out ≡ 255 → length (flash_id_read out r).bytes ≡ 255
unfolding flash_id_read be_bytes
length-flash_id_read out (esp_ok, id) full = elim (Bool-cases (id == 0 || id == 0x00FFFFFF)) [
  | inl e ↦ rw e full
  | inr e ↦ rw e (length-write_at 0 (be_bytes id) out (omega (arith, full)) ∙ full)
]
length-flash_id_read out (err, id) full = full

-- A flash chip that answers with an id
abbrev pub Answers : EspErr × ℕ → Type 0
Answers r = (r.0 ≡ esp_ok) × (r.1 ≢ 0) × (r.1 ≢ 0x00FFFFFF)

mac_read-cases :
    (out : List ℕ) (r : EspErr × List ℕ)
    → ((r.0 ≡ esp_ok)
        × (mac_read out r ≡ record { status = ok; bytes = write_at 0 r.1 out; len = 6 }))
      ⊎ ((r.0 ≢ esp_ok) × ((mac_read out r).status ≡ platform))
unfolding mac_read
mac_read-cases out (esp_ok, mac) = inl (refl, refl)
mac_read-cases out (err, mac) = inr ((λ e. cc), refl)

flash_id_read-cases :
    (out : List ℕ) (r : EspErr × ℕ)
    → (Answers r
        × (flash_id_read out r
            ≡ record { status = ok; bytes = write_at 0 (be_bytes r.1) out; len = 4 }))
      ⊎ (¬ Answers r × ((flash_id_read out r).status ≡ platform))
unfolding flash_id_read
flash_id_read-cases out (esp_ok, id) = elim (Bool-cases (id == 0 || id == 0x00FFFFFF)) [
  | inl e ↦ inr (λ a. let (fine, nz, nf) = a in ground arith, rw e refl)
  | inr e ↦ inl ((refl, λ z. ground arith, λ z. ground arith), rw e refl)
]
flash_id_read-cases out (err, id) = inr ((λ a. cc a.0), refl)

failed_result :
    {W : Type 0} (r : Status × List (List ℕ) × W)
    → r.0 ≡ platform
    → fingerprint_result r ≡ (platform, some (replicate 32 0), r.2)
unfolding fingerprint_result
failed_result (platform, segs, w) e = refl
failed_result (st, segs, w) e = cc

module _ {W : Type 0} (idf : Idf W) (before : List ℕ) where
  -- What the platform reports, and how the enumeration ends
  esp_identity :
      (w : W)
      → length (idf.efuse_mac w).1 ≡ 6
      → let segs =
          (idf.efuse_mac w).1
          ∷ chip_bytes (idf.chip_info w)
          ∷ be_bytes (idf.flash_read_id w).1
          ∷ [] in
        (((idf.efuse_mac w).0 ≡ esp_ok)
          × Answers (idf.flash_read_id w)
          × (identity (esp_segment idf before) 64 0 w ≡ (ok, segs, w)))
        ⊎ (¬ (((idf.efuse_mac w).0 ≡ esp_ok) × Answers (idf.flash_read_id w))
            × ((identity (esp_segment idf before) 64 0 w).0 ≡ platform))
  unfolding esp_segment be_bytes le_bytes
  esp_identity w six =
      let read = esp_segment idf before in
      elim (mac_read-cases before (idf.efuse_mac w)) [
        | inr (bad, fails) ↦ inr ((λ a. bad a.0), ap (λ r. r.0) (identity_fails read 63 0 w fails))
        | inl (fine, mac) ↦
            let goes0 =
              identity_goes_on read 63 0 w (ap (λ s. s.status) mac)
                (rw (ap (λ s. s.len) mac) (omega arith)) in
            let goes1 = identity_goes_on read 62 1 w refl (omega arith) in
            elim (flash_id_read-cases before (idf.flash_read_id w)) [
              | inr (bad, fails) ↦ inr (
                (λ a. bad a.1),
                ap (λ r. r.0) goes0
                    ∙ ap (λ r. r.0) goes1
                    ∙ ap (λ r. r.0) (identity_fails read 61 2 w fails),
              )
              | inl (answers, id) ↦
                  let goes2 =
                    identity_goes_on read 61 2 w (ap (λ s. s.status) id)
                      (rw (ap (λ s. s.len) id) (omega arith)) in
                  let third : identity read 62 2 w
                      ≡ (ok, be_bytes (idf.flash_read_id w).1 ∷ [], w) =
                    goes2 ∙ rw (identity_ends read 60 3 w refl, id) refl in
                  let second : identity read 63 1 w ≡ (
                    ok,
                    chip_bytes (idf.chip_info w) ∷ be_bytes (idf.flash_read_id w).1 ∷ [],
                    w,
                  ) =
                    goes1 ∙ ap (λ r. (r.0, chip_bytes (idf.chip_info w) ∷ r.1, r.2)) third in
                  let front =
                    take-append_exact 6 (idf.efuse_mac w).1
                      (drop (0 + length (idf.efuse_mac w).1) before) six in
                  inl (fine, answers, goes0 ∙ rw (second, mac, front) refl)
            ]
      ]

  segment-FillsBuffer :
      length before ≡ id_segment_max
      → ((w : W) → length (idf.efuse_mac w).1 ≡ 6)
      → FillsBuffer (esp_segment idf before)
  unfolding esp_segment le_bytes
  segment-FillsBuffer full six zero w = length-mac_read before (idf.efuse_mac w) full (six w)
  segment-FillsBuffer full six (suc zero) w =
      length-write_at 0 (chip_bytes (idf.chip_info w)) before (omega (arith, full)) ∙ full
  segment-FillsBuffer full six (suc (suc zero)) w =
      length-flash_id_read before (idf.flash_read_id w) full
  segment-FillsBuffer full six (suc (suc (suc idx))) w = full

  -- On an ESP32 whose MAC address has 6 bytes: if the MAC address can be read and the flash chip answers
  -- with an id that is not 0 and not 0x00FFFFFF, the fingerprint is the SHA-256 digest of the domain
  -- string and the three length-prefixed segments, MAC address, chip information and flash id;
  -- otherwise it fails with VL_ERR_PLATFORM and is wiped.
  pub esp_fingerprint :
      (stack : Ctx Words) (out : List ℕ) (w : W)
      → length before ≡ id_segment_max
      → ((v : W) → length (idf.efuse_mac v).1 ≡ 6)
      → length stack.buffer ≡ block_len
      → length out ≡ fingerprint_len
      → let print = fingerprint_with stack (some (esp_segment idf before)) (some out) w in
        let segs =
          (idf.efuse_mac w).1
          ∷ chip_bytes (idf.chip_info w)
          ∷ be_bytes (idf.flash_read_id w).1
          ∷ [] in
        (((idf.efuse_mac w).0 ≡ esp_ok)
          × Answers (idf.flash_read_id w)
          × (print ≡ (ok, some (digest (fp_domain ++ encode_segments segs)), w)))
        ⊎ (¬ (((idf.efuse_mac w).0 ≡ esp_ok) × Answers (idf.flash_read_id w))
            × (print.0 ≡ platform)
            × (print.1 ≡ some (replicate 32 0)))
  unfolding fingerprint_result
  esp_fingerprint stack out w full six sized room =
      let refined =
        fingerprint_refines (esp_segment idf before) (segment-FillsBuffer full six) stack out w
          sized room in
      elim (esp_identity w (six w)) [
        | inl (fine, answers, reports) ↦
            inl (fine, answers, refined ∙ ap fingerprint_result reports)
        | inr (bad, fails) ↦
            let failed = failed_result (identity (esp_segment idf before) 64 0 w) fails in
            inr (bad, ap (λ r. r.0) (refined ∙ failed), ap (λ r. r.1) (refined ∙ failed))
      ]
