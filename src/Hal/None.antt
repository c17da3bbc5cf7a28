-- ===== src/Hal/None.antt =====
-- hal/none/vl_hal_none.c: the stub, which has no identity.
use vecti_license.Base.{ℕ, ◌≡◌, refl, length, List, some, none, replicate}
use vecti_license.Hash.{Ctx, Words}
use vecti_license.Sha256.{block_len}
use vecti_license.Api.{platform, Hal, fingerprint_len, id_segment_max}
use vecti_license.Core.Fingerprint.{fingerprint_with}
use vecti_license.Hal.{Answer, reader}
use vecti_license.Hal.Single.{fingerprint-unreadable}

-- read_id_segment
unfoldable pub none_segment : ℕ → ℕ → List ℕ → ℕ → Answer
none_segment idx cap out len = (platform, out, len)

-- g_hal of vl_hal_none
abbrev pub none_hal : {W : Type 0} → List ℕ → Hal W
none_hal before = record {
  read_id_segment = some (reader none_segment before);
  now_epoch = none;
  hwm_load = none;
  hwm_store = none;
  blob_load = none;
  blob_store = none;
  secure_posture = none;
}

-- On the stub every fingerprint fails with VL_ERR_PLATFORM and leaves 32 zeros.
none_fingerprint :
    {W : Type 0} (before : List ℕ) (stack : Ctx Words) (out : List ℕ) (w : W)
    → length before ≡ id_segment_max
    → length stack.buffer ≡ block_len
    → length out ≡ fingerprint_len
    → fingerprint_with stack (some (reader none_segment before)) (some out) w
      ≡ (platform, some (replicate 32 0), w)
unfolding none_segment
none_fingerprint before stack out w full =
    fingerprint-unreadable none_segment before stack out w (λ idx. full) refl
