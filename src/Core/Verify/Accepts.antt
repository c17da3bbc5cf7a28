-- ===== src/Core/Verify/Accepts.antt =====
-- core/vl_core.c: what vl_verify promises of a licence that it accepts, without its order of steps.
use vecti_license.Base.{ℕ, ◌<◌, ◌≤◌, ◌≡◌, ◌≢◌, ◌⊎◌, Bool, true, Option, none, some, List, [], drop}
use vecti_license.Base.{bit_and}
use vecti_license.Util.{ct_eq}
use vecti_license.Base32.{base32_decode}
use vecti_license.Api.{
  ok, Hal, Config, License, PubKey, blob_bin_len, payload_len, device_id_len, magic,
}
use vecti_license.Api.{format_version, flag_require_clock, flag_enforce_hwm, Status}
use vecti_license.Api.{
  checked_signature, checked_device, checked_time, checked_revocation, checked_hwm,
}
use vecti_license.Core.Fingerprint.{compute_fingerprint}
use vecti_license.Core.Verify.Steps.{
  Memory, byte_at, parse_payload, mark_checked, key_list, signed_message,
}
use mathlib.Core.List.{Memᴰ}

abbrev pub deny_list : Option (List ℕ) → List ℕ
deny_list none = []
deny_list (some serials) = serials

-- A zero end of the validity window is open.
abbrev pub InWindow : License → ℕ → Type 0
InWindow lic now =
    ((lic.not_before ≡ 0) ⊎ (lic.not_before ≤ now)) × ((lic.not_after ≡ 0) ⊎ (now ≤ lic.not_after))

-- No serial on a deny-list that is there, and the bit that says it was looked at.
pub data NotRevoked (serials : Option (List ℕ)) (lic lic' : License) : Type 0 where
  no_list : deny_list serials ≡ [] → lic' ≡ lic → NotRevoked serials lic lic'
  not_listed :
      deny_list serials ≢ []
      → ¬ Memᴰ lic.serial (deny_list serials)
      → lic' ≡ mark_checked checked_revocation lic
      → NotRevoked serials lic lic'

module _ {W : Type 0} where
  -- The stored mark is not ahead of the clock, and is the clock's time afterwards.
  pub data MarkAccepts (hal : Hal W) (now : ℕ) (w w' : W) : Type 0 where
    at_mark :
        (load : W → Status × ℕ × W)
        → hal.hwm_load ≡ some load
        → load w ≡ (ok, now, w')
        → MarkAccepts hal now w w'
    past_mark :
        (load : W → Status × ℕ × W) (store : ℕ → W → Status × W) (mark : ℕ) (v : W)
        → hal.hwm_load ≡ some load
        → hal.hwm_store ≡ some store
        → load w ≡ (ok, mark, v)
        → mark < now
        → store now v ≡ (ok, w')
        → MarkAccepts hal now w w'

  -- The clock accepts `lic` and turns it into `lic'`, the world from `w` into `w'`.
  pub data ClockAccepts (cfg : Config) (hal : Hal W) (lic lic' : License) (w w' : W) : Type 0 where
    no_reading :
        hal.now_epoch ≡ none
        → bit_and cfg.flags flag_require_clock ≡ 0
        → lic' ≡ lic
        → w' ≡ w
        → ClockAccepts cfg hal lic lic' w w'
    window_only :
        (now_epoch : W → Status × ℕ × W) (now : ℕ)
        → hal.now_epoch ≡ some now_epoch
        → now_epoch w ≡ (ok, now, w')
        → InWindow lic now
        → bit_and cfg.flags flag_enforce_hwm ≡ 0
        → lic' ≡ mark_checked checked_time lic
        → ClockAccepts cfg hal lic lic' w w'
    window_and_mark :
        (now_epoch : W → Status × ℕ × W) (now : ℕ) (v : W)
        → hal.now_epoch ≡ some now_epoch
        → now_epoch w ≡ (ok, now, v)
        → InWindow lic now
        → bit_and cfg.flags flag_enforce_hwm ≢ 0
        → MarkAccepts hal now v w'
        → lic' ≡ mark_checked checked_hwm (mark_checked checked_time lic)
        → ClockAccepts cfg hal lic lic' w w'

  -- The text of `blob` is a licence for this product, signed by one of the vendor's keys for this
  -- device, not revoked, and current; `lic` is what it says.
  pub record Verified (ed25519_verify : List ℕ → List ℕ → List ℕ → Bool) (mem : Memory)
      (blob : List ℕ) (cfg : Config) (hal : Hal W) (lic : License) (w w' : W) : Type 0 where
    pub bin : List ℕ
    pub decodes : base32_decode (some blob) (some blob_bin_len) blob_bin_len ≡ some bin
    pub is_magic : byte_at bin 0 ≡ magic
    pub is_version : byte_at bin 1 ≡ format_version
    pub is_family : byte_at bin 3 ≡ cfg.family
    pub pk : PubKey
    pub trusted : Memᴰ pk (key_list cfg.keys)
    pub is_key : pk.key_id ≡ byte_at bin 2
    pub signed : ed25519_verify (drop payload_len bin) (signed_message bin) pk.key ≡ true
    pub fingerprint : Option (List ℕ)
    pub enumerated : W
    pub computes :
        compute_fingerprint mem.hash (some hal) (some mem.fingerprint) w
        ≡ (ok, fingerprint, enumerated)
    pub is_device : ct_eq fingerprint (some (parse_payload bin).device_id) device_id_len ≢ 0
    pub listed : License
    pub not_revoked :
        NotRevoked cfg.revoked_serials
          (mark_checked checked_device (mark_checked checked_signature (parse_payload bin)))
          listed
    pub current : ClockAccepts cfg hal listed lic enumerated w'
