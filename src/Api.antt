-- ===== src/Api.antt =====
-- include/vectilicense/vectilicense.h: statuses, sizes, the platform callbacks (HAL), the
-- configuration and the licence.
use vecti_license.Base.{ℕ, ◌+◌, Option, List, replicate}

-- vl_status_t
pub data Status : Type 0 where
  ok invalid_arg buffer_too_small bad_format bad_magic bad_version bad_family unknown_key : Status
  bad_signature device_mismatch not_yet_valid expired revoked clock_rollback no_clock : Status
  platform no_more_segments not_found internal : Status

-- The sizes and constants of the format
abbrev pub magic : ℕ
magic = 0x56

abbrev pub format_version : ℕ
format_version = 1

abbrev pub payload_len : ℕ
payload_len = 36

abbrev pub sig_len : ℕ
sig_len = 64

abbrev pub blob_bin_len : ℕ
blob_bin_len = payload_len + sig_len

abbrev pub blob_str_len : ℕ
blob_str_len = 160

abbrev pub fingerprint_len : ℕ
fingerprint_len = 32

abbrev pub device_id_len : ℕ
device_id_len = 16

abbrev pub device_id_str_len : ℕ
device_id_str_len = 26

abbrev pub id_segment_max : ℕ
id_segment_max = 255

abbrev pub id_segment_count_max : ℕ
id_segment_count_max = 64

-- vl_posture_state_t, vl_posture_t
pub data PostureState : Type 0 where
  unknown off on : PostureState

pub record Posture : Type 0 where
  pub secure_boot : PostureState
  pub flash_encryption : PostureState

-- What `read_id_segment` leaves behind: its status, the 255-byte buffer after the call, and *out_len.
pub record Segment : Type 0 where
  pub status : Status
  pub bytes : List ℕ
  pub len : ℕ

-- vl_hal_t. The callbacks act on whatever `ctx` points to and on the hardware, here a world `W`; a
-- NULL member is `none`.
pub record Hal (W : Type 0) : Type 0 where
  -- idx, then the capacity of the buffer
  pub read_id_segment : Option (ℕ → ℕ → W → Segment × W)
  -- the status and *out_epoch
  pub now_epoch : Option (W → Status × ℕ × W)
  pub hwm_load : Option (W → Status × ℕ × W)
  pub hwm_store : Option (ℕ → W → Status × W)
  -- the capacity; then the status, what was written and *out_len
  pub blob_load : Option (ℕ → W → Status × List ℕ × ℕ × W)
  pub blob_store : Option (List ℕ → W → Status × W)
  -- the posture that *out holds before, then after the call
  pub secure_posture : Option (Posture → W → Status × Posture × W)

-- vl_pubkey_t
pub record PubKey : Type 0 where
  pub key_id : ℕ
  pub key : List ℕ

-- VL_FLAG_*: bit 0 and bit 1 of `flags`
abbrev pub flag_require_clock : ℕ
flag_require_clock = 1

abbrev pub flag_enforce_hwm : ℕ
flag_enforce_hwm = 2

-- vl_config_t; a pointer with its count is a list, `none` for NULL.
pub record Config : Type 0 where
  pub keys : Option (List PubKey)
  pub family : ℕ
  pub revoked_serials : Option (List ℕ)
  pub flags : ℕ

-- VL_CHECKED_*
abbrev pub checked_signature : ℕ
checked_signature = 1

abbrev pub checked_device : ℕ
checked_device = 2

abbrev pub checked_time : ℕ
checked_time = 4

abbrev pub checked_revocation : ℕ
checked_revocation = 8

abbrev pub checked_hwm : ℕ
checked_hwm = 16

-- vl_license_t
pub record License : Type 0 where
  pub version : ℕ
  pub key_id : ℕ
  pub family : ℕ
  pub features : ℕ
  pub device_id : List ℕ
  pub not_before : ℕ
  pub not_after : ℕ
  pub serial : ℕ
  pub checked : ℕ

-- memset(&lic, 0, sizeof lic)
abbrev pub zero_license : License
zero_license = record {
  version = 0;
  key_id = 0;
  family = 0;
  features = 0;
  device_id = replicate device_id_len 0;
  not_before = 0;
  not_after = 0;
  serial = 0;
  checked = 0;
}
