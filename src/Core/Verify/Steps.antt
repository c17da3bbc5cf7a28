-- ===== src/Core/Verify/Steps.antt =====
-- core/vl_core.c: the numbered steps of vl_verify, from the decoder to the high-water mark, with
-- find_key, is_revoked and rd_le32.
use vecti_license.Base.{
  ℕ, zero, suc, ◌+◌, ◌*◌, ◌^◌, ◌==◌, ◌!=◌, ltb, ◌&&◌, if◌then◌else◌, Bool, true, false,
}
use vecti_license.Base.{Option, none, some, List, [], ◌∷◌, ◌++◌, bit_and, bit_or, take, drop}
use vecti_license.Hash.{Ctx, Words}
use vecti_license.Util.{ct_eq}
use vecti_license.Base32.{base32_decode}
use vecti_license.Api.{Status, ok, bad_format, bad_magic, bad_version, bad_family, unknown_key}
use vecti_license.Api.{bad_signature, device_mismatch, revoked, no_clock, platform, not_yet_valid}
use vecti_license.Api.{expired, clock_rollback}
use vecti_license.Api.{magic, format_version, payload_len, blob_bin_len, device_id_len}
use vecti_license.Api.{Hal, PubKey, Config, License, flag_require_clock, flag_enforce_hwm}
use vecti_license.Api.{
  checked_signature, checked_device, checked_time, checked_revocation, checked_hwm,
}
use vecti_license.Core.Fingerprint.{compute_fingerprint}
use vecti_license.Core.Verify.Monad.{Outcome, pass, fail, Step, ◌>>=◌, give, require}

-- The stack memory that vl_verify lets the fingerprint use: the hash context and the 32 bytes.
pub record Memory : Type 0 where
  pub hash : Ctx Words
  pub fingerprint : List ℕ

-- p[i]; the decoder has filled every byte that is read, so the 0 past the end is not met.
unfoldable pub byte_at : List ℕ → ℕ → ℕ
byte_at [] i = 0
byte_at (b ∷ p) zero = b
byte_at (b ∷ p) (suc i) = byte_at p i

-- rd_le32(p + offset)
unfoldable pub rd_le32 : List ℕ → ℕ → ℕ
rd_le32 p i =
    bit_or (bit_or (bit_or (byte_at p i) (byte_at p (1 + i) * 2 ^ 8)) (byte_at p (2 + i) * 2 ^ 16))
      (byte_at p (3 + i) * 2 ^ 24)

-- The fields of the licence, from the decoded payload
unfoldable pub parse_payload : List ℕ → License
parse_payload bin = record {
  version = byte_at bin 1;
  key_id = byte_at bin 2;
  family = byte_at bin 3;
  features = rd_le32 bin 4;
  device_id = take device_id_len (drop 8 bin);
  not_before = rd_le32 bin 24;
  not_after = rd_le32 bin 28;
  serial = rd_le32 bin 32;
  checked = 0;
}

-- lic.checked |= bit
abbrev pub mark_checked : ℕ → License → License
mark_checked bit lic = record lic { checked = bit_or lic.checked bit }

-- The loop of find_key over cfg->keys
unfoldable pub find_key : List PubKey → ℕ → Option PubKey
find_key [] id = none
find_key (pk ∷ keys) id = let rest = find_key keys id in if pk.key_id == id then some pk else rest

-- cfg->keys with its count, which the argument checks have found not to be NULL
abbrev pub key_list : Option (List PubKey) → List PubKey
key_list none = []
key_list (some keys) = keys

-- The loop of is_revoked over cfg->revoked_serials
unfoldable pub on_list : List ℕ → ℕ → Bool
on_list [] serial = false
on_list (s ∷ serials) serial =
    let rest = on_list serials serial in if s == serial then true else rest

abbrev pub has_revocations : Option (List ℕ) → Bool
has_revocations none = false
has_revocations (some []) = false
has_revocations (some (s ∷ serials)) = true

-- is_revoked(cfg, serial)
unfoldable pub is_revoked : Option (List ℕ) → ℕ → Bool
is_revoked none serial = false
is_revoked (some serials) serial = on_list serials serial

-- VL_SIGN_PREFIX, a zero byte, and the payload
abbrev pub sign_prefix : List ℕ
sign_prefix =
    b'v' ∷ b'e' ∷ b'c' ∷ b't' ∷ b'i' ∷ b'l' ∷ b'i' ∷ b'c' ∷ b'e' ∷ b'n' ∷ b's' ∷ b'e' ∷ b':' ∷ b'v'
    ∷ b'1' ∷ []

unfoldable pub signed_message : List ℕ → List ℕ
signed_message bin = sign_prefix ++ 0 ∷ take payload_len bin

-- 2. The decoder, and the length that it must report
unfoldable pub decode_step : List ℕ → Outcome (List ℕ)
decode_step blob = decoded (base32_decode (some blob) (some blob_bin_len) blob_bin_len)
  where
    decoded : Option (List ℕ) → Outcome (List ℕ)
    decoded none = fail bad_format
    decoded (some bin) = pass bin

unfoldable pub known_key : Option PubKey → License → Outcome (License × PubKey)
known_key none lic = fail unknown_key
known_key (some pk) lic = pass (lic, pk)

-- 2. The header fields, up to the key
unfoldable pub header_step : Config → List ℕ → Outcome (License × PubKey)
header_step cfg bin =
    let lic = parse_payload bin in
    if byte_at bin 0 != magic
    then fail bad_magic
    else if byte_at bin 1 != format_version
    then fail bad_version
    else if lic.family != cfg.family
    then fail bad_family
    else known_key (find_key (key_list cfg.keys) lic.key_id) lic

-- 3. Signature
unfoldable pub signature_step :
    (List ℕ → List ℕ → List ℕ → Bool) → List ℕ → License × PubKey → Outcome License
signature_step ed25519_verify bin (lic, pk) =
    require (ed25519_verify (drop payload_len bin) (signed_message bin) pk.key) bad_signature
      (mark_checked checked_signature lic)

-- 5. Revocation
unfoldable pub revocation_step : Config → License → Outcome License
revocation_step cfg lic =
    if has_revocations cfg.revoked_serials
    then if is_revoked cfg.revoked_serials lic.serial
      then fail revoked
      else pass (mark_checked checked_revocation lic)
    else pass lic

module _ {W : Type 0} where
  -- 4. Device binding, from the return of vl_compute_fingerprint on
  unfoldable pub compare_device : License → Status × Option (List ℕ) × W → Outcome License × W
  compare_device lic (ok, fp, w) = (
    require (ct_eq fp (some lic.device_id) device_id_len != 0) device_mismatch
        (mark_checked checked_device lic),
    w,
  )
  compare_device lic (rc, fp, w) = (fail rc, w)

  unfoldable pub device_step : Memory → Hal W → License → Step W License
  device_step mem hal lic w =
      compare_device lic (compute_fingerprint mem.hash (some hal) (some mem.fingerprint) w)

  -- A call of a callback that the argument checks have found not to be NULL
  abbrev pub load_mark : Option (W → Status × ℕ × W) → W → Status × ℕ × W
  load_mark none w = (platform, 0, w)
  load_mark (some load) w = load w

  abbrev pub store_mark : Option (ℕ → W → Status × W) → ℕ → W → Status × W
  store_mark none now w = (platform, w)
  store_mark (some store) now w = store now w

  unfoldable pub mark_stored : License → Status × W → Outcome License × W
  mark_stored lic (ok, w) = (pass lic, w)
  mark_stored lic (st, w) = (fail platform, w)

  unfoldable pub compare_mark : Hal W → ℕ → License → Status × ℕ × W → Outcome License × W
  compare_mark hal now lic (ok, mark, w) =
      if ltb now mark
      then (fail clock_rollback, w)
      else if ltb mark now
      then mark_stored lic (store_mark hal.hwm_store now w)
      else (pass lic, w)
  compare_mark hal now lic (st, mark, w) = (fail platform, w)

  -- 6. The validity window and the high-water mark, from the return of now_epoch on
  unfoldable pub check_window : Config → Hal W → License → Status × ℕ × W → Outcome License × W
  check_window cfg hal lic (ok, now, w) =
      if lic.not_before != 0 && ltb now lic.not_before
      then (fail not_yet_valid, w)
      else if lic.not_after != 0 && ltb lic.not_after now
      then (fail expired, w)
      else if bit_and cfg.flags flag_enforce_hwm != 0
      then compare_mark hal now (mark_checked checked_hwm (mark_checked checked_time lic))
          (load_mark hal.hwm_load w)
      else (pass (mark_checked checked_time lic), w)
  check_window cfg hal lic (st, now, w) = (fail platform, w)

  unfoldable pub clock_step : Config → Hal W → License → Step W License
  clock_step cfg hal lic w = elim (hal.now_epoch) [
    | none ↦ (require (bit_and cfg.flags flag_require_clock == 0) no_clock lic, w)
    | some now_epoch ↦ check_window cfg hal lic (now_epoch w)
  ]

  module _ (ed25519_verify : List ℕ → List ℕ → List ℕ → Bool) where
    -- Steps 2 to 6 in the order of the code
    unfoldable pub checks : Memory → List ℕ → Config → Hal W → Step W License
    checks mem blob cfg hal = do
      bin ← give (decode_step blob)
      found ← give (header_step cfg bin)
      signed ← give (signature_step ed25519_verify bin found)
      bound ← device_step mem hal signed
      current ← give (revocation_step cfg bound)
      clock_step cfg hal current
