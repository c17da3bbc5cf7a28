-- ===== src/Hal/Esp32/Tests.antt =====
-- hal/esp32/vl_hal_esp32.c: an ESP32 whose NVS is two cells.
use vecti_license.Base.{
  ℕ, ◌+◌, ◌<◌, ◌≡◌, ◌≢◌, ◌⊎◌, refl, sym, ap, ◌∙◌, true, false, some, none, List, [], ◌∷◌, ◌++◌,
  length, replicate,
}
use vecti_license.Base.Words.{be_bytes}
use vecti_license.Sha256.Digest.{digest}
use vecti_license.Api.{ok, platform}
use vecti_license.Core.Fingerprint.{fp_domain, fingerprint_with}
use vecti_license.Core.Fingerprint.Identity.{encode_segments}
use vecti_license.Core.Fingerprint.Tests.{stack}
use vecti_license.Hal.{since_epoch}
use vecti_license.Hal.Esp32.{
  Idf, EspErr, esp_ok, chip_bytes, esp_segment, esp_commit, esp_write, esp_hwm_load, esp_hwm_store,
  esp_blob_store,
}
use vecti_license.Hal.Esp32.Identity.{Answers, esp_fingerprint}
use vecti_license.Hal.Esp32.Stored.{Committed, Persists, esp_hwm_store_loads}

-- The world is the number and the text in the NVS.
abbrev pub Cells : Type 0
Cells = ℕ × List ℕ

abbrev pub idf : Idf Cells
idf = record {
  efuse_mac = λ w. (esp_ok, 1 ∷ 2 ∷ 3 ∷ 4 ∷ 5 ∷ 6 ∷ []);
  chip_info = λ w. record { model = 1; cores = 2; revision = 300; features = 0x12 };
  flash_read_id = λ w. (esp_ok, 0x204016);
  time = λ w. since_epoch 1700000000;
  nvs_open = λ writing w. (esp_ok, 1, w);
  nvs_close = λ h w. w;
  nvs_commit = λ h w. (esp_ok, w);
  nvs_get_u32 = λ h w. (esp_ok, w.0);
  nvs_set_u32 = λ h value w. (esp_ok, (value, w.1));
  nvs_get_str = λ h cap w. (esp_ok, w.1 ++ 0 ∷ [], length w.1 + 1);
  nvs_set_str = λ h text w. (esp_ok, (w.0, text));
  secure_boot = none;
  flash_encryption = some (λ w. true);
}

marks_persist :
    (value h : ℕ) (w w' : Cells)
    → Committed idf (λ k. idf.nvs_set_u32 k value) w
    → idf.nvs_open false w ≡ (esp_ok, h, w')
    → idf.nvs_get_u32 h w' ≡ (esp_ok, value)
marks_persist value h w w' (k, v, v1, v2, set, done, closed) opened =
    let first : value ≡ v1.0 = ap (λ (r : EspErr × Cells). r.1.0) set in
    let second : v1.0 ≡ v2.0 = ap (λ (r : EspErr × Cells). r.1.0) done in
    let third : w.0 ≡ v2.0 = ap (λ (r : Cells). r.0) closed in
    let fourth : w.0 ≡ w'.0 = ap (λ (r : EspErr × ℕ × Cells). r.2.0) opened in
    ap (λ (m : ℕ). (esp_ok, m)) (sym fourth ∙ third ∙ sym second ∙ sym first)

texts_persist :
    (text : List ℕ) (h cap : ℕ) (w w' : Cells)
    → Committed idf (λ k. idf.nvs_set_str k text) w
    → idf.nvs_open false w ≡ (esp_ok, h, w')
    → length text < cap
    → idf.nvs_get_str h cap w' ≡ (esp_ok, text ++ 0 ∷ [], length text + 1)
texts_persist text h cap w w' (k, v, v1, v2, set, done, closed) opened room =
    let first : text ≡ v1.1 = ap (λ (r : EspErr × Cells). r.1.1) set in
    let second : v1.1 ≡ v2.1 = ap (λ (r : EspErr × Cells). r.1.1) done in
    let third : w.1 ≡ v2.1 = ap (λ (r : Cells). r.1) closed in
    let fourth : w.1 ≡ w'.1 = ap (λ (r : EspErr × ℕ × Cells). r.2.1) opened in
    ap (λ (t : List ℕ). (esp_ok, t ++ 0 ∷ [], length t + 1))
      (sym fourth ∙ third ∙ sym second ∙ sym first)

idf-Persists : Persists idf
idf-Persists = record { marks = marks_persist; texts = texts_persist }

abbrev blank : Cells
blank = (0, [])

stores_mark : esp_hwm_store idf 1000 blank ≡ (ok, (1000, []))
unfolding esp_write esp_commit
stores_mark = refl

esp_hwm_store_loads_example :
    ((esp_ok ≡ esp_ok) × (esp_hwm_load idf (1000, []) ≡ (ok, 1000, (1000, []))))
    ⊎ ((esp_ok ≢ esp_ok) × (esp_hwm_load idf (1000, []) ≡ (ok, 0, (1000, []))))
esp_hwm_store_loads_example = esp_hwm_store_loads idf 1000 blank (1000, []) idf-Persists stores_mark

abbrev short_text : List ℕ
short_text = b'A' ∷ b'R' ∷ b'0' ∷ []

stores_text : esp_blob_store idf short_text blank ≡ (ok, (0, short_text))
unfolding esp_blob_store esp_write esp_commit
stores_text = refl

esp_fingerprint_example :
    let print =
      fingerprint_with stack
        (some (esp_segment idf (replicate 255 0)))
        (some (replicate 32 0xcc))
        blank in
    let segs =
      (idf.efuse_mac blank).1
      ∷ chip_bytes (idf.chip_info blank)
      ∷ be_bytes (idf.flash_read_id blank).1
      ∷ [] in
    (((idf.efuse_mac blank).0 ≡ esp_ok)
      × Answers (idf.flash_read_id blank)
      × (print ≡ (ok, some (digest (fp_domain ++ encode_segments segs)), blank)))
    ⊎ (¬ (((idf.efuse_mac blank).0 ≡ esp_ok) × Answers (idf.flash_read_id blank))
        × (print.0 ≡ platform)
        × (print.1 ≡ some (replicate 32 0)))
esp_fingerprint_example =
    esp_fingerprint idf (replicate 255 0) stack (replicate 32 0xcc) blank refl (λ v. refl) refl refl
