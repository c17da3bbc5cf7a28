-- ===== src/Hal/Esp32/Stored.antt =====
-- hal/esp32/vl_hal_esp32.c: what the stores commit is what the loads find.
use vecti_license.Base.{
  ℕ, ◌+◌, ◌-◌, ◌<◌, ◌≡◌, ◌≢◌, refl, sym, ap, ◌∙◌, arith, inl, inr, ◌⊎◌, true, false, Bool-cases,
  List, [], ◌∷◌, ◌++◌, length, ltb, ◌==◌,
}
use vecti_license.Api.{ok, platform, not_found}
use vecti_license.Hal.Esp32.{
  Idf, EspErr, esp_ok, status_of, mark_got, blob_got, esp_mark_load, esp_hwm_load, esp_commit,
  esp_write, esp_hwm_store, esp_blob_read, esp_blob_load, esp_blob_store,
}

-- A write to `h` that was committed and closed
abbrev pub Committed : {W : Type 0} → Idf W → (ℕ → W → EspErr × W) → W → Type 0
Committed {W = W} idf set w' =
    (h : ℕ) × (w : W) × (w1 : W) × (w2 : W) × (set h w ≡ (esp_ok, w1))
    × (idf.nvs_commit h w1 ≡ (esp_ok, w2))
    × (w' ≡ idf.nvs_close h w2)

-- NVS returns the number and the string that were last committed to their keys.
pub record Persists {W : Type 0} (idf : Idf W) : Type 0 where
  pub marks :
      (value h : ℕ) (w w' : W)
      → Committed idf (λ k. idf.nvs_set_u32 k value) w
      → idf.nvs_open false w ≡ (esp_ok, h, w')
      → idf.nvs_get_u32 h w' ≡ (esp_ok, value)
  pub texts :
      (text : List ℕ) (h cap : ℕ) (w w' : W)
      → Committed idf (λ k. idf.nvs_set_str k text) w
      → idf.nvs_open false w ≡ (esp_ok, h, w')
      → length text < cap
      → idf.nvs_get_str h cap w' ≡ (esp_ok, text ++ 0 ∷ [], length text + 1)

EspErr-cases : (err : EspErr) → (err ≡ esp_ok) ⊎ ((err ≢ esp_ok) × (status_of err ≡ platform))
EspErr-cases esp_ok = inl refl
EspErr-cases err = inr ((λ e. cc), refl)

module _ {W : Type 0} (idf : Idf W) where
  esp_commit-Committed :
      (set : ℕ → W → EspErr × W) (h : ℕ) (w : W) (r : EspErr × W) {w' : W}
      → set h w ≡ r
      → esp_commit idf h r ≡ (ok, w')
      → Committed idf set w'
  unfolding esp_commit
  esp_commit-Committed set h w (esp_ok, w1) did e = elim (EspErr-cases (idf.nvs_commit h w1).0) [
    | inl fine ↦ (
      h,
      w,
      w1,
      (idf.nvs_commit h w1).1,
      did,
      ap (λ err. (err, (idf.nvs_commit h w1).1)) fine,
      sym (ap (λ t. t.1) e),
    )
    | inr (bad, fails) ↦ cc (sym fails ∙ ap (λ t. t.0) e)
  ]
  esp_commit-Committed set h w (err, w1) did e = cc

  esp_write-Committed :
      (set : ℕ → W → EspErr × W) (r : EspErr × ℕ × W) {w' : W}
      → esp_write idf set r ≡ (ok, w')
      → Committed idf set w'
  unfolding esp_write
  esp_write-Committed set (esp_ok, h, w) e = esp_commit-Committed set h w (set h w) refl e
  esp_write-Committed set (err, h, w) e = cc

  no_namespace :
      (r : EspErr × ℕ × W)
      → r.0 ≢ esp_ok
      → (esp_mark_load idf r ≡ (ok, 0, r.2))
        × ((cap : ℕ) → esp_blob_read idf cap r ≡ (not_found, [], 0, r.2))
  unfolding esp_mark_load esp_blob_read
  no_namespace (esp_ok, h, w) bad = absurd (bad refl)
  no_namespace (err, h, w) bad = (refl, λ cap. refl)

  -- After hwm_store has returned VL_OK, hwm_load returns the value where the namespace can be opened for
  -- reading, and where it cannot it returns VL_OK with the mark 0.
  pub esp_hwm_store_loads :
      (value : ℕ) (w w' : W)
      → Persists idf
      → esp_hwm_store idf value w ≡ (ok, w')
      → let (err, h, v) = idf.nvs_open false w' in
        ((err ≡ esp_ok) × (esp_hwm_load idf w' ≡ (ok, value, idf.nvs_close h v)))
        ⊎ ((err ≢ esp_ok) × (esp_hwm_load idf w' ≡ (ok, 0, v)))
  unfolding esp_mark_load mark_got
  esp_hwm_store_loads value w w' p e =
      let written = esp_write-Committed (λ k. idf.nvs_set_u32 k value) (idf.nvs_open true w) e in
      let (err, h, v) = idf.nvs_open false w' in
      elim (EspErr-cases err) [
        | inl fine ↦
            let opened : idf.nvs_open false w' ≡ (esp_ok, h, v) = ap (λ x. (x, h, v)) fine in
            inl (
              fine,
              ap (esp_mark_load idf) opened
                  ∙ ap (λ r. let (st, mark) = mark_got r in (st, mark, idf.nvs_close h v))
                      (p.marks value h w' v written opened),
            )
        | inr (bad, fails) ↦ inr (bad, (no_namespace (idf.nvs_open false w') bad).0)
      ]

  -- After blob_store has returned VL_OK, blob_load into a buffer with room returns the text, its NUL and
  -- its length where the namespace can be opened for reading, and VL_ERR_NOT_FOUND where it cannot.
  esp_blob_store_loads :
      (text : List ℕ) (cap : ℕ) (w w' : W)
      → Persists idf
      → length text < cap
      → esp_blob_store idf text w ≡ (ok, w')
      → let (err, h, v) = idf.nvs_open false w' in
        ((err ≡ esp_ok)
          × (esp_blob_load idf cap w' ≡ (ok, text ++ 0 ∷ [], length text, idf.nvs_close h v)))
        ⊎ ((err ≢ esp_ok) × (esp_blob_load idf cap w' ≡ (not_found, [], 0, v)))
  unfolding esp_blob_store esp_blob_load esp_blob_read blob_got
  esp_blob_store_loads text cap w w' p room e =
      let (err, h, v) = idf.nvs_open false w' in
      let some_room : (cap == 0) ≡ false = ground (arith, room) in
      elim (Bool-cases (ltb 160 (length text))) [
        | inl long ↦ cc (rw (long, esp_blob_store) at e)
        | inr short ↦
            let written =
              esp_write-Committed (λ k. idf.nvs_set_str k text) (idf.nvs_open true w)
                (rw (short, esp_blob_store) at e) in
            elim (EspErr-cases err) [
              | inl fine ↦
                  let opened : idf.nvs_open false w' ≡ (esp_ok, h, v) = ap (λ x. (x, h, v)) fine in
                  let got = p.texts text h cap w' v written opened room in
                  let some_length : (length text + 1 == 0) ≡ false = ground arith in
                  let back : length text + 1 - 1 ≡ length text = omega arith in
                  inl (
                    fine,
                    rw (some_room, esp_blob_load)
                        (ap (esp_blob_read idf cap) opened
                          ∙ ap
                              (λ r.
                                let (st, t, len) = blob_got r in (st, t, len, idf.nvs_close h v))
                              got
                          ∙ rw (some_length, back) refl),
                  )
              | inr (bad, fails) ↦ inr (
                bad,
                rw (some_room, esp_blob_load) ((no_namespace (idf.nvs_open false w') bad).1 cap),
              )
            ]
      ]
