-- ===== src/Gate.antt =====
-- examples/baremetal/vl_gate.c: a product's gate around the library, with its own identity. `Board` is
-- the product's code and memory: what is read at its two addresses, and the board_* calls on the world.
pub mod Allows
mod Tests
use vecti_license.Base.{
  ℕ, zero, suc, ◌==◌, ◌!=◌, ◌||◌, ◌&&◌, if◌then◌else◌, ltb, Bool, true, false, Option, none, some,
  List, [], ◌∷◌, replicate, take, bit_and,
}
use vecti_license.Base.Text.{codes}
use vecti_license.Hash.{write_at}
use vecti_license.Api.{
  Status, ok, platform, not_found, buffer_too_small, no_more_segments, Segment, Hal, Config,
  License, zero_license, checked_time,
}
use vecti_license.Core.Fingerprint.{compute_fingerprint, encode_device_id}
use vecti_license.Core.Verify.{verify}
use vecti_license.Core.Verify.Steps.{Memory}
use vecti_license.Core.Query.{has_feature}
use vecti_license.Core.Messages.{status_str}
use vecti_license.Transport.Line.{Line, line_push, line_reset}
use vecti_license.Bridge.{c_string, license_of}

pub record Board (W : Type 0) : Type 0 where
  -- the bytes from MY_UID_BASE and from MY_SERIAL_ADDR on
  pub uid : List ℕ
  pub serial : List ℕ
  -- board_load_blob: the text, `none` for 0
  pub load_blob : W → Option (List ℕ) × W
  pub save_blob : List ℕ → W → W
  pub print : List ℕ → W → W

-- VENDOR_KEYS and CFG
abbrev pub gate_config : Config
gate_config = record {
  keys = some (
      record {
        key_id = 1;
        key =
            0x70 ∷ 0x7d ∷ 0xec ∷ 0x62 ∷ 0x84 ∷ 0xba ∷ 0x43 ∷ 0x82 ∷ 0x4f ∷ 0x75 ∷ 0x22 ∷ 0xc2 ∷ 0x10
            ∷ 0xb3 ∷ 0x6b ∷ 0x13 ∷ 0x15 ∷ 0x2b ∷ 0xfe ∷ 0x56 ∷ 0xdb ∷ 0xf7 ∷ 0xbc ∷ 0xad ∷ 0x1d
            ∷ 0xf0 ∷ 0xc9 ∷ 0x7a ∷ 0xf6 ∷ 0xc8 ∷ 0x0d ∷ 0xe9 ∷ [];
      }
      ∷ []);
  family = 3;
  revoked_serials = none;
  flags = 0;
}

-- all_same
unfoldable pub all_same : List ℕ → ℕ → Bool
all_same [] v = true
all_same (x ∷ p) v = let rest = all_same p v in if x != v then false else rest

-- case 0 of board_read_id_segment from the read on
unfoldable pub uid_read : List ℕ → List ℕ → Segment
uid_read uid out =
    if all_same uid 0x00 || all_same uid 0xFF
    then record { status = platform; bytes = write_at 0 uid out; len = 0 }
    else record { status = ok; bytes = write_at 0 uid out; len = 12 }

-- case 1 from the read on
unfoldable pub serial_read : List ℕ → List ℕ → Segment
serial_read serial out =
    if all_same serial 0xFF
    then record { status = ok; bytes = write_at 0 serial out; len = 0 }
    else record { status = ok; bytes = write_at 0 serial out; len = 4 }

-- g_license, g_status and g_rx
pub record Gate : Type 0 where
  pub license : License
  pub status : Status
  pub rx : Line

-- The static storage at power-up
abbrev pub gate_start : Gate
gate_start = record {
  license = zero_license;
  status = not_found;
  rx = record { buf = replicate 201 0; len = 0; ready = false; overflow = false };
}

abbrev pub line_of : Option Line → Line → Line
line_of none old = old
line_of (some l) old = l

abbrev pub is_licensed : Status → Bool
is_licensed st = elim st [ ok ↦ true | _ ↦ false ]

-- gate_allows(feature_bit), gate_licensed() and gate_expiry_enforced()
abbrev pub gate_allows : ℕ → Gate → Bool
gate_allows bit g = is_licensed g.status && has_feature (some g.license) bit != 0

abbrev pub gate_licensed : Gate → Bool
gate_licensed g = is_licensed g.status

abbrev pub gate_expiry_enforced : Gate → Bool
gate_expiry_enforced g = is_licensed g.status && bit_and g.license.checked checked_time != 0

module _ {W : Type 0} (board : Board W) where
  -- board_read_id_segment
  unfoldable pub board_segment : List ℕ → ℕ → ℕ → W → Segment × W
  board_segment out zero cap w = (
    if ltb cap 12
        then record { status = buffer_too_small; bytes = out; len = 0 }
        else uid_read (take 12 board.uid) out,
    w,
  )
  board_segment out (suc zero) cap w = (
    if ltb cap 4
        then record { status = buffer_too_small; bytes = out; len = 0 }
        else serial_read (take 4 board.serial) out,
    w,
  )
  board_segment out idx cap w = (record { status = no_more_segments; bytes = out; len = 0 }, w)

  -- BOARD_HAL
  abbrev pub board_hal : List ℕ → Hal W
  board_hal before = record {
    read_id_segment = some (board_segment before);
    now_epoch = none;
    hwm_load = none;
    hwm_store = none;
    blob_load = none;
    blob_store = none;
    secure_posture = none;
  }

  -- gate_device_id: the status and the text in `out`, of which `capacity` characters are there
  unfoldable pub gate_device_id : Memory → List ℕ → ℕ → W → Status × Option (List ℕ) × W
  gate_device_id mem before capacity w =
      encoded (compute_fingerprint mem.hash (some (board_hal before)) (some mem.fingerprint) w)
    where
      encoded : Status × Option (List ℕ) × W → Status × Option (List ℕ) × W
      encoded (ok, fp, v) = let (st, text) = encode_device_id fp (some capacity) in (st, text, v)
      encoded (st, fp, v) = (st, none, v)

  module _ (ed25519_verify : List ℕ → List ℕ → List ℕ → Bool) (mem : Memory) (cfg : Config)
      (before : List ℕ) where
    -- g_status = vl_verify(blob, &CFG, &BOARD_HAL, &g_license)
    abbrev pub gate_verify : List ℕ → Gate → W → Status × Option License × W
    gate_verify blob g w =
        verify ed25519_verify mem (some blob) (some cfg) (some (board_hal before)) (some g.license)
          w

    -- gate_init from the return of board_load_blob on
    unfoldable pub init_with : Gate → Option (List ℕ) × W → Gate × W
    init_with g (none, w) = (record g { status = not_found }, w)
    init_with g (some blob, w) =
        let (st, lic, w') = gate_verify blob g w in
        (record g { status = st; license = license_of lic }, board.print (status_str st) w')

    -- gate_init
    abbrev pub gate_init : Gate → W → Gate × W
    gate_init g w = init_with g (board.load_blob w)

    -- What gate_uart_rx does with the world after vl_verify
    unfoldable pub announce : Status → List ℕ → W → W
    announce ok blob w = board.print (codes "licensed") (board.save_blob blob w)
    announce st blob w = board.print (status_str st) w

    -- gate_uart_rx from the return of vl_line_push on
    unfoldable pub received : Gate → W → Status × Option Line → ℕ × Gate × W
    received g w (ok, rx) =
        let line = line_of rx g.rx in
        let blob = c_string line.buf in
        let (st, lic, w') = gate_verify blob g w in
        (
          1,
          record {
            license = license_of lic;
            status = st;
            rx = line_of (line_reset (some line)) line;
          },
          announce st blob w',
        )
    received g w (st, rx) = (0, record g { rx = line_of rx g.rx }, w)

    -- gate_uart_rx
    abbrev pub gate_uart_rx : ℕ → Gate → W → ℕ × Gate × W
    gate_uart_rx ch g w = received g w (line_push (some g.rx) ch)
