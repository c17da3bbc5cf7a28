-- ===== src/Activate.antt =====
-- examples/posix/vl_activate.c: the command that activates a host. What it prints comes back as a text
-- beside the exit code and the world; `Format` is what printf makes of a number.
pub mod Persists
pub mod Activated
mod Tests
use vecti_license.Base.{
  ℕ, ◌+◌, ◌==◌, ◌!=◌, ◌&&◌, if◌then◌else◌, Bool, true, false, Option, none, some, List, [], ◌∷◌,
  ◌++◌, bit_and,
}
use vecti_license.Base.Text.{codes, em_dash, same_text, joined}
pub use vecti_license.Base.Text.{Format}
use vecti_license.Api.{
  Status, ok, Hal, Config, License, PostureState, Posture, unknown, off, on, device_id_str_len,
}
use vecti_license.Api.{
  checked_signature, checked_device, checked_time, checked_revocation, checked_hwm, blob_str_len,
}
use vecti_license.Core.Fingerprint.{compute_fingerprint, encode_device_id}
use vecti_license.Core.Verify.{verify}
use vecti_license.Core.Verify.Steps.{Memory}
use vecti_license.Core.Query.{has_feature, posture}
use vecti_license.Core.Messages.{status_str, version_str}
use vecti_license.Hash.{write_at}
use vecti_license.Hal.Posix.{Os}
use vecti_license.Hal.Posix.Segments.{posix_ctx, posix_hal}
use vecti_license.Bridge.{c_string, license_of, text_of}
use vecti_license.Gate.{gate_config}

-- VENDOR_KEYS and CFG: the key is the same placeholder as the gate's.
abbrev pub activate_config : Config
activate_config = record gate_config { family = 1; revoked_serials = some [] }

-- A line and its end
abbrev pub line : List ℕ → List ℕ
line text = text ++ 10 ∷ []

-- print_device_id from the return of vl_encode_device_id on
unfoldable pub id_text : Status × Option (List ℕ) → List ℕ
id_text (ok, text) =
    line (codes "device id: " ++ text_of text)
    ++ line (codes "           send those 26 characters to your vendor")
id_text (st, text) = line (codes "device id: unavailable")

-- print_device_id from the return of vl_compute_fingerprint on
unfoldable pub id_lines : {W : Type 0} → Status × Option (List ℕ) × W → List ℕ × W
id_lines (ok, fp, w) = (id_text (encode_device_id fp (some (device_id_str_len + 1))), w)
id_lines (st, fp, w) = (line (codes "device id: unavailable (" ++ (status_str st ++ codes ")")), w)

-- (lic->checked & bit) ? "+" : "-"
abbrev pub mark : License → ℕ → List ℕ
mark lic bit = if bit_and lic.checked bit != 0 then codes "+" else codes "-"

abbrev pub feature_name : License → ℕ → List ℕ → List ℕ
feature_name lic bit name = if has_feature (some lic) bit != 0 then name else []

-- The line of print_licence that says what was checked
unfoldable pub checked_line : License → List ℕ
checked_line lic = line (
    joined (
      codes "  checked     signature"
      ∷ mark lic checked_signature
      ∷ codes " device"
      ∷ mark lic checked_device
      ∷ codes " time"
      ∷ mark lic checked_time
      ∷ codes " revocation"
      ∷ mark lic checked_revocation
      ∷ codes " rollback"
      ∷ mark lic checked_hwm
      ∷ []))

abbrev pub expiry_ignored : License → Bool
expiry_ignored lic = bit_and lic.checked checked_time == 0 && lic.not_after != 0

-- print_licence
unfoldable pub licence_lines : Format → License → List ℕ
licence_lines fmt lic = joined (
    line (codes "  serial      " ++ fmt.decimal lic.serial)
    ∷ line (codes "  key id      " ++ fmt.decimal lic.key_id)
    ∷ codes "  features    0x"
    ∷ fmt.hex8 lic.features
    ∷ codes "  ["
    ∷ feature_name lic 0 (codes " base")
    ∷ feature_name lic 1 (codes " analytics")
    ∷ feature_name lic 2 (codes " export")
    ∷ feature_name lic 3 (codes " multiuser")
    ∷ line (codes " ]")
    ∷ line (codes "  not before  " ++ fmt.decimal lic.not_before)
    ∷ (if lic.not_after != 0
        then line (codes "  not after   " ++ fmt.decimal lic.not_after)
        else line (codes "  not after   never (perpetual)"))
    ∷ checked_line lic
    ∷ (if expiry_ignored lic
        then line (codes "  NOTE: this licence has an expiry that was NOT enforced.")
        else [])
    ∷ [])

-- state[p]
abbrev pub state_name : PostureState → List ℕ
state_name unknown = codes "unknown"
state_name off = codes "off"
state_name on = codes "on"

abbrev pub is_on : PostureState → Bool
is_on st = elim st [ on ↦ true | _ ↦ false ]

-- print_posture from the return of vl_posture on; `garbage` is the variable before it.
unfoldable pub posture_lines : {W : Type 0} → Posture → Status × Option Posture × W → List ℕ × W
posture_lines garbage (st, out, w) =
    let p : Posture = elim out [ none ↦ garbage | some told ↦ told ] in
    (
      line (
            codes "platform: secure boot "
            ++ (state_name p.secure_boot
                ++ (codes ", flash encryption " ++ state_name p.flash_encryption)))
          ++ (if is_on p.secure_boot
              then []
              else line (codes "          without a verified boot chain a licence check is a")
                ++ line (
                    (codes "          speed bump, not a boundary "
                      ++ (em_dash ++ codes " see docs/THREAT_MODEL.md")))),
      w,
    )

-- What `blob` points to: argv[1], `stored`, or NULL
pub data Chosen : Type 0 where
  argument : List ℕ → Chosen
  from_store : List ℕ → Chosen
  nothing : Chosen

-- The stack memory of main: that of vl_verify, `stored`, `lic` and the posture
pub record Stack : Type 0 where
  pub mem : Memory
  pub stored : List ℕ
  pub lic : License
  pub posture : Posture

-- argc > 1 && strcmp(argv[1], "--status") == 0
unfoldable pub is_quiet : List (List ℕ) → Bool
is_quiet [] = false
is_quiet (arg ∷ args) = same_text arg (codes "--status")

-- The member blob_store, where the blob is argv[1] and not `stored`
abbrev pub storer : {W : Type 0} → Chosen → Hal W → Option (List ℕ → W → Status × W)
storer (argument text) hal = hal.blob_store
storer (from_store text) hal = none
storer nothing hal = none

abbrev pub text_chosen : Chosen → Option (List ℕ)
text_chosen (argument text) = some text
text_chosen (from_store text) = some text
text_chosen nothing = none

-- From the return of blob_store on
unfoldable pub store_lines : {W : Type 0} → Status × W → List ℕ × W
store_lines (ok, w) = (line (codes "  stored, this device will not ask again"), w)
store_lines (st, w) = (line (codes "  WARNING: verified but could not be stored"), w)

-- The end of main, after print_licence
unfoldable pub kept : {W : Type 0} → Option (List ℕ → W → Status × W) → List ℕ → W → List ℕ × W
kept none text w = ([], w)
kept (some store) text w = store_lines (store text w)

-- From the return of blob_load on: `stored` holds what the platform has written over the stack.
unfoldable pub chosen_from : {W : Type 0} → List ℕ → Status × List ℕ × ℕ × W → Chosen × W
chosen_from stored (ok, written, len, w) = (from_store (c_string (write_at 0 written stored)), w)
chosen_from stored (st, written, len, w) = (nothing, w)

-- The branch of main that looks for a stored licence
unfoldable pub look_up :
    {W : Type 0} → Option (ℕ → W → Status × List ℕ × ℕ × W) → List ℕ → W → Chosen × W
look_up none stored w = (nothing, w)
look_up (some load) stored w = chosen_from stored (load (blob_str_len + 1) w)

-- The choice of the blob; `args` is argv[1] and so on.
unfoldable pub choose : {W : Type 0} → Hal W → List (List ℕ) → List ℕ → W → Chosen × W
choose hal [] stored w = look_up hal.blob_load stored w
choose hal (arg ∷ args) stored w =
    let found = look_up hal.blob_load stored w in
    if is_quiet (arg ∷ args) then found else (argument arg, w)

module _ {W : Type 0} (fmt : Format) (ed25519_verify : List ℕ → List ℕ → List ℕ → Bool)
    (stack : Stack) (name : List ℕ) where
  -- What main prints first, unless it is quiet
  unfoldable pub banner : Hal W → W → List ℕ × W
  banner hal w =
      let (id, w1) =
        id_lines (compute_fingerprint stack.mem.hash (some hal) (some stack.mem.fingerprint) w) in
      let (platform, w2) =
        posture_lines stack.posture (posture (some hal) (some stack.posture) w1) in
      (joined (line (line version_str) ∷ id ∷ platform ∷ line [] ∷ []), w2)

  -- main from the return of vl_verify on
  unfoldable pub judged : Hal W → Chosen → Status × Option License × W → ℕ × List ℕ × W
  judged hal blob (ok, lic, w) =
      let (said, w') = kept (storer blob hal) (text_of (text_chosen blob)) w in
      (0, joined (line (codes "LICENSED") ∷ licence_lines fmt (license_of lic) ∷ said ∷ []), w')
  judged hal blob (st, lic, w) = (1, line (codes "REFUSED: " ++ status_str st), w)

  -- main from the test of blob == NULL on
  unfoldable pub checked_blob : Hal W → Chosen × W → ℕ × List ℕ × W
  checked_blob hal (nothing, w) =
      (1, line (codes "no licence stored. Run: " ++ (name ++ codes " <blob>")), w)
  checked_blob hal (blob, w) = judged hal blob (
      verify ed25519_verify stack.mem (text_chosen blob) (some activate_config) (some hal)
        (some stack.lic) w)

  -- main with its platform not NULL: the exit code, the output, and the world
  unfoldable pub run : Hal W → List (List ℕ) → W → ℕ × List ℕ × W
  run hal args w =
      let (said, w1) = if is_quiet args then ([], w) else banner hal w in
      let (code, more, w2) = checked_blob hal (choose hal args stack.stored w1) in
      (code, said ++ more, w2)

-- main on Linux, with its arguments `name` and `args`; its message on stderr is left out.
unfoldable pub activate_main :
    {W : Type 0}
    → Format
    → (List ℕ → List ℕ → List ℕ → Bool)
    → Stack
    → Os W
    → List ℕ
    → List ℕ
    → List (List ℕ)
    → W
    → ℕ × List ℕ × W
activate_main fmt ed25519_verify stack os segment name args w =
    elim (posix_ctx none (some (codes "./vl-state"))) [
      | none ↦ (2, [], w)
      | some ctx ↦
          let (code, said, after) =
            run fmt ed25519_verify stack name (posix_hal os segment) args (ctx, w) in
          (code, said, after.1)
    ]
