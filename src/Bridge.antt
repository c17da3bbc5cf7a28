-- ===== src/Bridge.antt =====
-- bridge/vl_bridge.h: the class vecti::License that the bridges share. `_cfg` and `_hal` never change
-- and are parameters; the state is a record, and a method returns the state and the world after it.
-- A char buffer that only this class writes as a text is the text before its NUL; the inbox, which
-- takes bytes from anywhere, is the whole buffer.
pub mod Canonical
pub mod Invariant
pub mod Inbox
pub mod Reboot
pub mod Summary
pub mod Serial
pub mod Ota
pub mod Net
pub mod Dash
pub mod Adapters
mod Tests
use vecti_license.Base.{ℕ, zero, suc, ◌+◌, ◌-◌, ◌==◌, ◌&&◌, ◌||◌, if◌then◌else◌, ltb, leb}
use vecti_license.Base.{Bool, true, false, Option, none, some, List, [], ◌∷◌, ◌++◌}
use vecti_license.Base.{length, take, replicate, set}
use vecti_license.Hash.{write_at}
use vecti_license.Util.{secure_wipe}
use vecti_license.Api.{
  Status, ok, not_found, platform, blob_str_len, device_id_str_len, Hal, Config,
}
use vecti_license.Api.{License, zero_license, Posture, unknown, fingerprint_len}
use vecti_license.Core.Fingerprint.{compute_fingerprint, encode_device_id}
use vecti_license.Core.Verify.{verify}
use vecti_license.Core.Verify.Steps.{Memory}
use vecti_license.Core.Query.{has_feature, posture}

-- VL_BRIDGE_BLOB_MAX
abbrev pub bridge_blob_max : ℕ
bridge_blob_max = 224

-- What a pointer to a char buffer is read as: the characters before the first NUL
abbrev pub c_string : List ℕ → List ℕ
c_string [] = []
c_string (c ∷ p) = let rest = c_string p in if c == 0 then [] else c ∷ rest

-- The members of vecti::License that change
pub record LicenseObject (W : Type 0) : Type 0 where
  pub status : Status
  pub id_status : Status
  pub lic : License
  pub devid : List ℕ
  pub blob : List ℕ
  pub pending : List ℕ
  pub pending_flag : Bool
  -- _onResult with its _onResultCtx
  pub on_result : Option (Status → W → W)

-- The constructor
abbrev pub new_object : {W : Type 0} → LicenseObject W
new_object = record {
  status = not_found;
  id_status = ok;
  lic = zero_license;
  devid = [];
  blob = [];
  pending = replicate bridge_blob_max 0;
  pending_flag = false;
  on_result = none;
}

-- c == '-' || c == ' ' || c == '\t' || c == '\r' || c == '\n'
abbrev pub is_grouping : ℕ → Bool
is_grouping c = c == b'-' || (c == 32 || (c == 9 || (c == 13 || c == 10)))

-- The character that is kept for `c`
abbrev pub upper_case : ℕ → ℕ
upper_case c = if leb b'a' c && leb c b'z' then c - b'a' + b'A' else c

abbrev pub fold_alias : ℕ → ℕ
fold_alias c = if c == b'I' || c == b'L' then b'1' else if c == b'O' then b'0' else c

-- The loop of _apply: `*p && n < VL_BLOB_STR_LEN` over the text, `out` being _blob[0..n)
unfoldable pub canonical_loop : List ℕ → List ℕ → List ℕ
canonical_loop [] out = out
canonical_loop (c ∷ rest) out =
    let out' = if is_grouping c then out else out ++ fold_alias (upper_case c) ∷ [] in
    let done = canonical_loop rest out' in if ltb (length out) blob_str_len then done else out

abbrev pub text_of : Option (List ℕ) → List ℕ
text_of none = []
text_of (some text) = text

abbrev pub license_of : Option License → License
license_of none = zero_license
license_of (some lic) = lic

module _ {W : Type 0} where
  -- ok(), license(), feature(bit), checked()
  abbrev pub is_ok : LicenseObject W → Bool
  is_ok o = elim (o.status) [ ok ↦ true | _ ↦ false ]

  abbrev pub license : LicenseObject W → Option License
  license o = if is_ok o then some o.lic else none

  abbrev pub feature : ℕ → LicenseObject W → Bool
  feature bit o = is_ok o && ltb 0 (has_feature (some o.lic) bit)

  abbrev pub checked : LicenseObject W → ℕ
  checked o = if is_ok o then o.lic.checked else 0

  -- submit(blob, len) from the test of _pending_flag on
  unfoldable pub submit_if : Bool → List ℕ → ℕ → LicenseObject W → Bool × LicenseObject W
  submit_if true blob len o = (false, o)
  submit_if false blob len o = (
    true,
    record o { pending = set (write_at 0 (take len blob) o.pending) len 0; pending_flag = true },
  )

  -- submit(blob, len): `blob` is what the pointer points to
  unfoldable pub submit : Option (List ℕ) → ℕ → LicenseObject W → Bool × LicenseObject W
  submit none len o = (false, o)
  submit (some blob) len o =
      if len == 0 || leb bridge_blob_max len
      then (false, o)
      else submit_if o.pending_flag blob len o

  -- submit(blob), with strlen
  abbrev pub submit_text : Option (List ℕ) → LicenseObject W → Bool × LicenseObject W
  submit_text none o = (false, o)
  submit_text (some text) o = submit (some text) (length text) o

  -- onResult(cb, ctx)
  abbrev pub set_on_result : Option (Status → W → W) → LicenseObject W → LicenseObject W
  set_on_result cb o = record o { on_result = cb }

  abbrev pub notify : Option (Status → W → W) → Status → W → W
  notify none st w = w
  notify (some cb) st w = cb st w

  -- Where there is a platform and it has a blob_store: hal->blob_store(hal->ctx, blob, n)
  abbrev pub store_blob : Option (Hal W) → List ℕ → W → Status × W
  store_blob none blob w = (ok, w)
  store_blob (some hal) blob w = elim (hal.blob_store) [
    | none ↦ (ok, w)
    | some store ↦ store blob w
  ]

  -- _hal->blob_load, where both pointers are there
  abbrev pub blob_loader : Option (Hal W) → Option (ℕ → W → Status × List ℕ × ℕ × W)
  blob_loader none = none
  blob_loader (some hal) = hal.blob_load

module _ {W : Type 0} (mem : Memory) (hal : Option (Hal W)) where
  -- From the return of vl_compute_fingerprint, then of vl_encode_device_id, on
  unfoldable pub encoded : LicenseObject W → W → Status × Option (List ℕ) → LicenseObject W × W
  encoded o w (ok, text) = (record o { id_status = ok; devid = text_of text }, w)
  encoded o w (st, text) = (record o { id_status = st; devid = [] }, w)

  unfoldable pub identified : LicenseObject W → Status × Option (List ℕ) × W → LicenseObject W × W
  identified o (ok, fp, w) = encoded o w (encode_device_id fp (some (device_id_str_len + 1)))
  identified o (st, fp, w) = (record o { id_status = st; devid = [] }, w)

  -- deviceId(); the text that it returns is the member `devid` afterwards.
  unfoldable pub device_id_text : LicenseObject W → W → LicenseObject W × W
  device_id_text o w =
      if length o.devid == 0
      then identified o (compute_fingerprint mem.hash hal (some mem.fingerprint) w)
      else (o, w)

  -- clear()
  unfoldable pub clear : LicenseObject W → W → Status × LicenseObject W × W
  clear o w =
      let o' = record o { status = not_found; lic = zero_license; blob = [] } in
      let (st, w') = store_blob hal [] w in (st, o', w')

  -- posture() from the return of vl_posture on; `garbage` is the variable before it.
  unfoldable pub posture_or : Posture → Status × Option Posture × W → Posture × W
  posture_or garbage (ok, none, w) = (garbage, w)
  posture_or garbage (ok, some p, w) = (p, w)
  posture_or garbage (st, p, w) = (record { secure_boot = unknown; flash_encryption = unknown }, w)

  -- posture()
  abbrev pub posture_of : Posture → W → Posture × W
  posture_of garbage w = posture_or garbage (posture hal (some garbage) w)

module _ {W : Type 0} (ed25519_verify : List ℕ → List ℕ → List ℕ → Bool) (mem : Memory)
    (cfg : Option Config) (hal : Option (Hal W)) where
  -- The end of _apply: a licence that cannot be stored is VL_ERR_PLATFORM, and in force.
  unfoldable pub persisted : LicenseObject W → Status × W → Status × LicenseObject W × W
  persisted o (ok, w) = (ok, o, w)
  persisted o (st, w) = (platform, o, w)

  -- _apply from the return of vl_verify on
  unfoldable pub applied :
      Option (List ℕ)
      → Bool
      → LicenseObject W
      → Status × Option License × W
      → Status × LicenseObject W × W
  applied blob persist o (ok, lic, w) =
      let o' = record o {
        lic = license_of lic;
        status = ok;
        blob = canonical_loop (text_of blob) [];
      } in
      if persist then persisted o' (store_blob hal o'.blob w) else (ok, o', w)
  applied blob persist o (st, lic, w) =
      (st, record o { status = st; lic = zero_license; blob = [] }, w)

  -- _apply(blob, persist); `blob` is the text, `none` for NULL.
  unfoldable pub apply : Option (List ℕ) → Bool → LicenseObject W → W → Status × LicenseObject W × W
  apply blob persist o w =
      applied blob persist o (verify ed25519_verify mem blob cfg hal (some zero_license) w)

  -- activate(blob)
  abbrev pub activate : Option (List ℕ) → LicenseObject W → W → Status × LicenseObject W × W
  activate blob o w = apply blob true o w

  -- begin() from the return of blob_load on: `buf` holds what the platform has written over the stack.
  unfoldable pub loaded :
      List ℕ → LicenseObject W → Status × List ℕ × ℕ × W → Status × LicenseObject W × W
  loaded stack o (ok, written, len, w) =
      let stored = apply (some (c_string (set (write_at 0 written stack) len 0))) false o w in
      if leb (blob_str_len + 1) len then (platform, record o { status = platform }, w) else stored
  loaded stack o (st, written, len, w) = (st, record o { status = st }, w)

  -- begin() where `_hal && _hal->blob_load`, and where not
  unfoldable pub begin_from :
      Option (ℕ → W → Status × List ℕ × ℕ × W)
      → List ℕ
      → LicenseObject W
      → W
      → Status × LicenseObject W × W
  begin_from none stack o w = (not_found, record o { status = not_found }, w)
  begin_from (some load) stack o w = loaded stack o (load (blob_str_len + 1) w)

  -- begin(); `stack` is the 161 bytes of buf before the call.
  unfoldable pub begin : List ℕ → LicenseObject W → W → Status × LicenseObject W × W
  begin stack o w = begin_from (blob_loader hal) stack o w

  -- pump() from the return of activate on
  unfoldable pub pumped : Status × LicenseObject W × W → Bool × LicenseObject W × W
  pumped (st, o, w) = (
    true,
    record o { pending = replicate bridge_blob_max 0; pending_flag = false },
    notify o.on_result st w,
  )

  -- pump(), by the value of _pending_flag
  unfoldable pub pump_if : Bool → LicenseObject W → W → Bool × LicenseObject W × W
  pump_if true o w = pumped (activate (some (c_string o.pending)) o w)
  pump_if false o w = (false, o, w)

  -- pump()
  unfoldable pub pump : LicenseObject W → W → Bool × LicenseObject W × W
  pump o w = pump_if o.pending_flag o w
