-- ===== src/Hal/Posix/State.antt =====
-- hal/posix/vl_hal_posix.c: the clock, and the high-water mark and the blob in files.
use vecti_license.Base.{ℕ, ◌+◌, ◌-◌, ◌==◌, ◌!=◌, ◌||◌, if◌then◌else◌, ltb, Bool, true, false}
use vecti_license.Base.{Option, none, some, List, [], ◌∷◌, ◌++◌, length}
use vecti_license.Base.Words.{le_bytes, le_word}
use vecti_license.Api.{
  Status, ok, platform, no_clock, invalid_arg, not_found, buffer_too_small, blob_str_len,
}
use vecti_license.Hal.{Time, before_epoch, since_epoch}
use vecti_license.Hal.Posix.{Os, PosixCtx}
use vecti_license.Base.Text.{codes}
use vecti_license.Hal.Posix.Text.{read_text_file}

-- VL_POSIX_PATH_MAX + 8, the size of `path`
abbrev pub path_size : ℕ
path_size = 200

-- state_path(suffix, path, sizeof path), `none` for -1
unfoldable pub state_path : PosixCtx → List ℕ → Option (List ℕ)
state_path c suffix =
    if length c.state == 0 || ltb path_size (length c.state + length suffix + 1)
    then none
    else some (c.state ++ suffix)

-- The word in the four bytes that hwm_load has read
unfoldable pub mark_of : List ℕ → Status × ℕ
mark_of (b0 ∷ b1 ∷ b2 ∷ b3 ∷ []) = (ok, le_word b0 b1 b2 b3)
mark_of raw = (platform, 0)

-- hwm_load from the return of read_text_file on
unfoldable pub mark_read : Option (List ℕ) → Status × ℕ
mark_read none = (ok, 0)
mark_read (some raw) = if length raw != 4 then (platform, 0) else mark_of raw

-- blob_load from the return of read_text_file on
unfoldable pub blob_read : Option (List ℕ) → Status × List ℕ × ℕ
blob_read none = (not_found, [], 0)
blob_read (some text) =
    if length text == 0 then (not_found, [], 0) else (ok, text ++ 0 ∷ [], length text)

-- From the return of fopen(path, "wb") on, `len` being the number of bytes to write
unfoldable pub file_written : {W : Type 0} → ℕ → Option (ℕ × Bool) × W → Status × W
file_written len (none, w) = (platform, w)
file_written len (some (n, true), w) = if n != len then (platform, w) else (ok, w)
file_written len (some (n, false), w) = (platform, w)

-- now_epoch from the return of time(NULL) on
unfoldable pub epoch_of : {W : Type 0} → Time → W → Status × ℕ × W
epoch_of (before_epoch t) w = (no_clock, 0, w)
epoch_of (since_epoch t) w = if ltb 0xFFFFFFFF t then (no_clock, 0, w) else (ok, t, w)

module _ {W : Type 0} (os : Os W) (c : PosixCtx) where
  -- now_epoch with its pointer not NULL
  abbrev pub posix_now_epoch : W → Status × ℕ × W
  posix_now_epoch w = epoch_of (os.time w) w

  -- hwm_load with its pointer not NULL, which it clears first
  unfoldable pub posix_hwm_load : W → Status × ℕ × W
  posix_hwm_load w = elim (state_path c (codes ".hwm")) [
    | none ↦ (platform, 0, w)
    | some path ↦ let (st, mark) = mark_read (read_text_file os path 4 w) in (st, mark, w)
  ]

  -- hwm_store
  unfoldable pub posix_hwm_store : ℕ → W → Status × W
  posix_hwm_store value w = elim (state_path c (codes ".hwm")) [
    | none ↦ (platform, w)
    | some path ↦ file_written 4 (os.write_file path (le_bytes value) w)
  ]

  -- blob_load with its pointers not NULL
  unfoldable pub posix_blob_load : ℕ → W → Status × List ℕ × ℕ × W
  posix_blob_load cap w =
      let loaded : Status × List ℕ × ℕ = elim (state_path c (codes ".blob")) [
        | none ↦ (platform, [], 0)
        | some path ↦ blob_read (read_text_file os path (cap - 1) w)
      ] in
      let (st, text, len) = loaded in
      if ltb cap 2 then (invalid_arg, [], 0, w) else (st, text, len, w)

  -- blob_store with `blob` not NULL, of `length blob` characters
  unfoldable pub posix_blob_store : List ℕ → W → Status × W
  posix_blob_store blob w =
      let stored : Status × W = elim (state_path c (codes ".blob")) [
        | none ↦ (platform, w)
        | some path ↦ file_written (length blob) (os.write_file path blob w)
      ] in
      if ltb blob_str_len (length blob) then (buffer_too_small, w) else stored
