-- ===== src/Hal/Esp32.antt =====
-- hal/esp32/vl_hal_esp32.c. ESP-IDF is a parameter: `Idf` is what its calls answer and do to the
-- world `W`. `secure_boot` and `flash_encryption` are `none` where the headers are missing.
pub mod Identity
pub mod Stored
pub mod Tests
use vecti_license.Base.{
  ℕ, zero, suc, ◌+◌, ◌-◌, ◌%◌, ◌^◌, ◌==◌, ◌||◌, if◌then◌else◌, ltb, Bool, true, false,
}
use vecti_license.Base.{Option, none, some, List, [], ◌∷◌, ◌++◌, length, take}
use vecti_license.Base.Words.{byte, le_bytes, be_bytes}
use vecti_license.Hash.{write_at}
use vecti_license.Api.{
  Status, ok, platform, no_clock, invalid_arg, not_found, buffer_too_small, no_more_segments,
  blob_str_len, Posture, PostureState, unknown, off, on, Hal, Segment,
}
use vecti_license.Hal.{Time, before_epoch, since_epoch}

-- The esp_err_t values that the file tells apart
pub data EspErr : Type 0 where
  esp_ok nvs_not_found nvs_invalid_length other_err : EspErr

-- The members of esp_chip_info_t that are read
pub record ChipInfo : Type 0 where
  pub model : ℕ
  pub cores : ℕ
  pub revision : ℕ
  pub features : ℕ

-- The calls of ESP-IDF; a handle is a number, and the namespace and the keys are fixed by the file.
pub record Idf (W : Type 0) : Type 0 where
  pub efuse_mac : W → EspErr × List ℕ
  pub chip_info : W → ChipInfo
  pub flash_read_id : W → EspErr × ℕ
  pub time : W → Time
  -- nvs_open, for writing if `true`
  pub nvs_open : Bool → W → EspErr × ℕ × W
  pub nvs_close : ℕ → W → W
  pub nvs_commit : ℕ → W → EspErr × W
  pub nvs_get_u32 : ℕ → W → EspErr × ℕ
  pub nvs_set_u32 : ℕ → ℕ → W → EspErr × W
  -- nvs_get_str with the capacity: what is written, and *len after it
  pub nvs_get_str : ℕ → ℕ → W → EspErr × List ℕ × ℕ
  pub nvs_set_str : ℕ → List ℕ → W → EspErr × W
  pub secure_boot : Option (W → Bool)
  pub flash_encryption : Option (W → Bool)

-- VL_EPOCH_SANE_MIN
abbrev pub epoch_sane_min : ℕ
epoch_sane_min = 1577836800

-- The eight bytes of case 1
abbrev pub chip_bytes : ChipInfo → List ℕ
chip_bytes info =
    info.model % 2 ^ 8
    ∷ info.cores % 2 ^ 8
    ∷ byte (info.revision % 2 ^ 16) 0
    ∷ byte (info.revision % 2 ^ 16) 8
    ∷ le_bytes (info.features % 2 ^ 32)

-- case 0, from the return of esp_efuse_mac_get_default on
unfoldable pub mac_read : List ℕ → EspErr × List ℕ → Segment
mac_read out (esp_ok, mac) = record { status = ok; bytes = write_at 0 mac out; len = 6 }
mac_read out (err, mac) = record { status = platform; bytes = out; len = 0 }

-- case 2, from the return of esp_flash_read_id on
unfoldable pub flash_id_read : List ℕ → EspErr × ℕ → Segment
flash_id_read out (esp_ok, id) =
    if id == 0 || id == 0x00FFFFFF
    then record { status = platform; bytes = out; len = 0 }
    else record { status = ok; bytes = write_at 0 (be_bytes id) out; len = 4 }
flash_id_read out (err, id) = record { status = platform; bytes = out; len = 0 }

-- `if (cap < n) return VL_ERR_BUFFER_TOO_SMALL;`
abbrev pub with_room : ℕ → ℕ → List ℕ → Segment → Segment
with_room n cap out seg =
    if ltb cap n then record { status = buffer_too_small; bytes = out; len = 0 } else seg

-- now_epoch from the return of time(NULL) on
unfoldable pub esp_epoch : {W : Type 0} → Time → W → Status × ℕ × W
esp_epoch (before_epoch t) w = (no_clock, 0, w)
esp_epoch (since_epoch t) w =
    if ltb t epoch_sane_min
    then (no_clock, 0, w)
    else if ltb 0xFFFFFFFF t
    then (platform, 0, w)
    else (ok, t, w)

-- (err == ESP_OK) ? VL_OK : VL_ERR_PLATFORM
abbrev pub status_of : EspErr → Status
status_of err = elim err [ esp_ok ↦ ok | _ ↦ platform ]

-- hwm_load from the return of nvs_get_u32 on
unfoldable pub mark_got : EspErr × ℕ → Status × ℕ
mark_got (nvs_not_found, mark) = (ok, 0)
mark_got (err, mark) = (status_of err, mark)

-- blob_load from the return of nvs_get_str on: `len` counts the NUL.
unfoldable pub blob_got : EspErr × List ℕ × ℕ → Status × List ℕ × ℕ
blob_got (nvs_not_found, text, len) = (not_found, [], 0)
blob_got (nvs_invalid_length, text, len) = (buffer_too_small, [], 0)
blob_got (esp_ok, text, len) = if len == 0 then (platform, [], 0) else (ok, text, len - 1)
blob_got (other_err, text, len) = (platform, [], 0)

-- esp_secure_boot_enabled() ? VL_POSTURE_ON : VL_POSTURE_OFF, where the call is there
abbrev pub answer_of : {W : Type 0} → Option (W → Bool) → W → PostureState
answer_of none w = unknown
answer_of (some enabled) w = if enabled w then on else off

module _ {W : Type 0} (idf : Idf W) where
  -- read_id_segment; `out` is the caller's buffer.
  unfoldable pub esp_segment : List ℕ → ℕ → ℕ → W → Segment × W
  esp_segment out zero cap w = (with_room 6 cap out (mac_read out (idf.efuse_mac w)), w)
  esp_segment out (suc zero) cap w =
      let bytes = write_at 0 (chip_bytes (idf.chip_info w)) out in
      (with_room 8 cap out (record { status = ok; bytes = bytes; len = 8 }), w)
  esp_segment out (suc (suc zero)) cap w =
      (with_room 4 cap out (flash_id_read out (idf.flash_read_id w)), w)
  esp_segment out idx cap w = (record { status = no_more_segments; bytes = out; len = 0 }, w)

  -- now_epoch with its pointer not NULL
  abbrev pub esp_now_epoch : W → Status × ℕ × W
  esp_now_epoch w = esp_epoch (idf.time w) w

  -- hwm_load from the return of nvs_begin on
  unfoldable pub esp_mark_load : EspErr × ℕ × W → Status × ℕ × W
  esp_mark_load (esp_ok, h, w) =
      let (st, mark) = mark_got (idf.nvs_get_u32 h w) in (st, mark, idf.nvs_close h w)
  esp_mark_load (err, h, w) = (ok, 0, w)

  -- hwm_load with its pointer not NULL
  abbrev pub esp_hwm_load : W → Status × ℕ × W
  esp_hwm_load w = esp_mark_load (idf.nvs_open false w)

  -- `if (err == ESP_OK) err = nvs_commit(h); nvs_close(h);`, and the status
  unfoldable pub esp_commit : ℕ → EspErr × W → Status × W
  esp_commit h (esp_ok, w) =
      let (err, w') = idf.nvs_commit h w in (status_of err, idf.nvs_close h w')
  esp_commit h (err, w) = (platform, idf.nvs_close h w)

  -- From the return of nvs_begin for writing on, `set` being the nvs_set call
  unfoldable pub esp_write : (ℕ → W → EspErr × W) → EspErr × ℕ × W → Status × W
  esp_write set (esp_ok, h, w) = esp_commit h (set h w)
  esp_write set (err, h, w) = (platform, w)

  -- hwm_store
  abbrev pub esp_hwm_store : ℕ → W → Status × W
  esp_hwm_store value w = esp_write (λ h. idf.nvs_set_u32 h value) (idf.nvs_open true w)

  -- blob_load from the return of nvs_begin on
  unfoldable pub esp_blob_read : ℕ → EspErr × ℕ × W → Status × List ℕ × ℕ × W
  esp_blob_read cap (esp_ok, h, w) =
      let (st, text, len) = blob_got (idf.nvs_get_str h cap w) in (st, text, len, idf.nvs_close h w)
  esp_blob_read cap (err, h, w) = (not_found, [], 0, w)

  -- blob_load with its pointers not NULL
  unfoldable pub esp_blob_load : ℕ → W → Status × List ℕ × ℕ × W
  esp_blob_load cap w =
      if cap == 0 then (invalid_arg, [], 0, w) else esp_blob_read cap (idf.nvs_open false w)

  -- blob_store with `blob` not NULL, of `length blob` characters
  unfoldable pub esp_blob_store : List ℕ → W → Status × W
  esp_blob_store blob w =
      if ltb blob_str_len (length blob)
      then (buffer_too_small, w)
      else esp_write (λ h. idf.nvs_set_str h blob) (idf.nvs_open true w)

  -- secure_posture with its pointer not NULL
  unfoldable pub esp_posture : Posture → W → Status × Posture × W
  esp_posture out w = (
    ok,
    record {
      secure_boot = answer_of idf.secure_boot w;
      flash_encryption = answer_of idf.flash_encryption w;
    },
    w,
  )

  -- g_hal of vl_hal_esp32
  abbrev pub esp32_hal : List ℕ → Hal W
  esp32_hal before = record {
    read_id_segment = some (esp_segment before);
    now_epoch = some esp_now_epoch;
    hwm_load = some esp_hwm_load;
    hwm_store = some esp_hwm_store;
    blob_load = some esp_blob_load;
    blob_store = some esp_blob_store;
    secure_posture = some esp_posture;
  }
