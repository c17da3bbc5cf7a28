-- ===== src/Hal/Posix/Segments.antt =====
-- hal/posix/vl_hal_posix.c: the three identity segments of a Linux machine, and the constructor
-- vl_hal_posix.
use vecti_license.Base.{ℕ, zero, suc, ◌==◌, ◌||◌, if◌then◌else◌, ltb, leb}
use vecti_license.Base.{Option, none, some, List, [], ◌∷◌, length}
use vecti_license.Hash.{write_at}
use vecti_license.Api.{Status, ok, platform, no_more_segments, buffer_too_small, Segment, Hal}
use vecti_license.Hal.Posix.{Os, PosixCtx}
use vecti_license.Base.Text.{codes}
use vecti_license.Hal.Posix.Text.{starts_with, read_text_file}
use vecti_license.Hal.Posix.Interfaces.{pick_iface, read_iface_mac}
use vecti_license.Hal.Posix.State.{
  posix_now_epoch, posix_hwm_load, posix_hwm_store, posix_blob_load, posix_blob_store,
}

-- fgets(line, 256, f): at most `room` more characters, up to a newline and with it; then what is left
-- of the file
unfoldable pub fgets : ℕ → List ℕ → List ℕ × List ℕ
fgets zero file = ([], file)
fgets (suc room) [] = ([], [])
fgets (suc room) (c ∷ file) =
    let (line, rest) = fgets room file in if c == 10 then (c ∷ [], file) else (c ∷ line, rest)

-- strchr(line, ':') + 1
unfoldable pub after_colon : List ℕ → Option (List ℕ)
after_colon [] = none
after_colon (c ∷ line) = let rest = after_colon line in if c == b':' then some line else rest

-- while (*colon == ' ' || *colon == '\t') colon++;
unfoldable pub skip_blanks : List ℕ → List ℕ
skip_blanks [] = []
skip_blanks (c ∷ line) = let rest = skip_blanks line in if c == 32 || c == 9 then rest else c ∷ line

-- The copy of the value, up to `cap` characters
unfoldable pub copy_value : ℕ → List ℕ → List ℕ
copy_value zero line = []
copy_value (suc cap) [] = []
copy_value (suc cap) (c ∷ line) =
    let rest = copy_value cap line in if c == 10 || c == 13 then [] else c ∷ rest

-- What a string function sees of a line
abbrev pub before_nul : List ℕ → List ℕ
before_nul [] = []
before_nul (c ∷ s) = let rest = before_nul s in if c == 0 then [] else c ∷ rest

-- The value of a line that is a serial, `none` where the loop continues
unfoldable pub serial_line : ℕ → List ℕ → Option (List ℕ)
serial_line cap line =
    if starts_with (codes "Serial") line
    then elim (after_colon line) [
      | none ↦ none
      | some value ↦ some (copy_value cap (skip_blanks value))
    ]
    else none

-- The loop over the lines of /proc/cpuinfo: every round but the last takes a character at least, so
-- the length of the file is fuel enough.
unfoldable pub serial_loop : ℕ → ℕ → List ℕ → List ℕ
serial_loop zero cap file = []
serial_loop (suc fuel) cap [] = []
serial_loop (suc fuel) cap (c ∷ file) =
    let (line, rest) = fgets 255 (c ∷ file) in
    let later = serial_loop fuel cap rest in
    elim (serial_line cap (before_nul line)) [ none ↦ later | some value ↦ value ]

-- sizeof buf
abbrev pub id_buf_size : ℕ
id_buf_size = 256

-- The end of read_id_segment: `none` is a return of VL_ERR_PLATFORM, `out` the caller's buffer.
unfoldable pub segment_out : ℕ → List ℕ → Option (List ℕ) → Segment
segment_out cap out none = record { status = platform; bytes = out; len = 0 }
segment_out cap out (some text) =
    if ltb cap (length text)
    then record { status = buffer_too_small; bytes = out; len = 0 }
    else record { status = ok; bytes = write_at 0 text out; len = length text }

module _ {W : Type 0} (os : Os W) where
  -- read_machine_id, `none` for -1
  unfoldable pub read_machine_id : ℕ → W → Option (List ℕ)
  read_machine_id cap w =
      first (read_text_file os (codes "/etc/machine-id") cap w)
        (read_text_file os (codes "/var/lib/dbus/machine-id") cap w)
    where
      filled : Option (List ℕ) → Option (List ℕ)
      filled none = none
      filled (some id) = if ltb 0 (length id) then some id else none

      first : Option (List ℕ) → Option (List ℕ) → Option (List ℕ)
      first id other = elim (filled id) [ none ↦ filled other | some text ↦ some text ]

  -- read_board_serial: the text in `out`
  unfoldable pub read_board_serial : ℕ → W → List ℕ
  read_board_serial cap w =
      or_uuid (from_cpuinfo (os.read_file (codes "/proc/cpuinfo") w))
        (read_text_file os (codes "/sys/class/dmi/id/product_uuid") cap w)
    where
      from_cpuinfo : Option (List ℕ) → List ℕ
      from_cpuinfo none = []
      from_cpuinfo (some file) = serial_loop (length file) cap file

      or_uuid : List ℕ → Option (List ℕ) → List ℕ
      or_uuid [] none = []
      or_uuid [] (some uuid) = uuid
      or_uuid (c ∷ serial) uuid = c ∷ serial

  -- case 0 from the test of c->iface on, its interface chosen
  unfoldable pub mac_segment : List ℕ → W → Option (List ℕ)
  mac_segment iface w = filled (read_iface_mac os iface 256 w)
    where
      filled : Option (List ℕ) → Option (List ℕ)
      filled none = none
      filled (some mac) = if length mac == 0 then none else some mac

  -- The interface that case 0 uses, which it keeps in c->iface
  unfoldable pub chosen_iface : List ℕ → W → Option (List ℕ)
  chosen_iface [] w = pick_iface os 64 w
  chosen_iface (n ∷ iface) w = some (n ∷ iface)

  -- read_id_segment; `before` is the caller's buffer.
  unfoldable pub posix_segment : List ℕ → ℕ → ℕ → PosixCtx × W → Segment × (PosixCtx × W)
  posix_segment before zero cap (c, w) = elim (chosen_iface c.iface w) [
    | none ↦ (segment_out cap before none, (c, w))
    | some iface ↦ (segment_out cap before (mac_segment iface w), (record c { iface = iface }, w))
  ]
  posix_segment before (suc zero) cap (c, w) =
      (segment_out cap before (read_machine_id id_buf_size w), (c, w))
  posix_segment before (suc (suc zero)) cap (c, w) =
      (segment_out cap before (some (read_board_serial id_buf_size w)), (c, w))
  posix_segment before idx cap (c, w) =
      (record { status = no_more_segments; bytes = before; len = 0 }, (c, w))

  -- The callbacks of g_hal_template, over g_ctx and the world
  abbrev pub with_ctx : {A : Type 0} → (PosixCtx → W → A × W) → PosixCtx × W → A × (PosixCtx × W)
  with_ctx f (c, w) = let (a, w') = f c w in (a, (c, w'))

  abbrev pub with_ctx_mark :
      (PosixCtx → W → Status × ℕ × W) → PosixCtx × W → Status × ℕ × (PosixCtx × W)
  with_ctx_mark f (c, w) = let (st, mark, w') = f c w in (st, mark, (c, w'))

  abbrev pub with_ctx_blob :
      (PosixCtx → W → Status × List ℕ × ℕ × W) → PosixCtx × W → Status × List ℕ × ℕ × (PosixCtx × W)
  with_ctx_blob f (c, w) = let (st, text, len, w') = f c w in (st, text, len, (c, w'))

  -- g_hal
  abbrev pub posix_hal : List ℕ → Hal (PosixCtx × W)
  posix_hal before = record {
    read_id_segment = some (posix_segment before);
    now_epoch = some (with_ctx_mark (posix_now_epoch os));
    hwm_load = some (with_ctx_mark (posix_hwm_load os));
    hwm_store = some (λ value. with_ctx (λ c w. posix_hwm_store os c value w));
    blob_load = some (λ cap. with_ctx_blob (λ c w. posix_blob_load os c cap w));
    blob_store = some (λ blob. with_ctx (λ c w. posix_blob_store os c blob w));
    secure_posture = none;
  }

-- vl_hal_posix: g_ctx after the call, `none` where it returns NULL
abbrev pub named_iface : Option (List ℕ) → List ℕ
named_iface none = []
named_iface (some iface) = iface

abbrev pub state_base : Option (List ℕ) → List ℕ
state_base none = codes "/var/lib/vectilicense/state"
state_base (some []) = codes "/var/lib/vectilicense/state"
state_base (some (c ∷ path)) = c ∷ path

unfoldable pub posix_ctx : Option (List ℕ) → Option (List ℕ) → Option PosixCtx
posix_ctx iface path =
    if leb 64 (length (named_iface iface))
    then none
    else if leb 192 (length (state_base path))
    then none
    else some (record { iface = named_iface iface; state = state_base path })
