-- ===== src/Core/Messages.antt =====
-- core/vl_core.c: vl_status_str and vl_version_str.
use vecti_license.Base.{ℕ, List}
use vecti_license.Base.Text.{codes}
use vecti_license.Api.{
  Status, ok, invalid_arg, buffer_too_small, bad_format, bad_magic, bad_version, bad_family,
  unknown_key, bad_signature, device_mismatch, not_yet_valid, expired, revoked, clock_rollback,
  no_clock, platform, no_more_segments, not_found, internal,
}

-- vl_status_str; the default of its switch is for numbers that are no vl_status_t.
unfoldable pub status_str : Status → List ℕ
status_str ok = codes "ok"
status_str invalid_arg = codes "invalid argument"
status_str buffer_too_small = codes "output buffer too small"
status_str bad_format = codes "licence blob is malformed"
status_str bad_magic = codes "not a VectiLicense blob"
status_str bad_version = codes "licence format is newer than this firmware"
status_str bad_family = codes "licence is for a different product"
status_str unknown_key = codes "licence signed by an unknown key"
status_str bad_signature = codes "signature did not verify"
status_str device_mismatch = codes "licence is for a different device"
status_str not_yet_valid = codes "licence is not valid yet"
status_str expired = codes "licence has expired"
status_str revoked = codes "licence has been revoked"
status_str clock_rollback = codes "clock is behind the recorded high-water mark"
status_str no_clock = codes "no clock available to check the validity window"
status_str platform = codes "platform callback failed"
status_str no_more_segments = codes "no more identity segments"
status_str not_found = codes "no licence stored"
status_str internal = codes "internal error"

-- vl_version_str
abbrev pub version_str : List ℕ
version_str = codes "vectilicense/1.0.0"
