-- ===== src/Hal/Rp2040.antt =====
-- hal/rp2040/vl_hal_rp2040.c: the board id, and the licence state in one page of flash. The pico-sdk
-- is a parameter: `Sdk` is what its calls do to the world `W` and what the mapped flash reads as. The
-- Cortex-M is little-endian; 3 bytes of padding bring the record to 176.
pub mod Identity
pub mod Record
pub mod Stored
mod Tests
use vecti_license.Base.{
  ℕ, zero, suc, ◌+◌, ◌*◌, ◌-◌, ◌^◌, ◌==◌, ◌!=◌, ◌&&◌, ◌||◌, if◌then◌else◌, ltb, leb,
}
use vecti_license.Base.{Bool, true, false, Option, none, some, List, [], ◌∷◌, ◌++◌}
use vecti_license.Base.{length, take, drop, replicate, set, get_or}
use vecti_license.Base.Words.{le_bytes, le_word}
use vecti_license.Hash.{write_at}
use vecti_license.Api.{
  Status, ok, internal, invalid_arg, not_found, no_more_segments, buffer_too_small, platform,
  blob_str_len, Hal,
}
use vecti_license.Hal.{Answer, reader, or_all, and_all}

-- PICO_UNIQUE_BOARD_ID_SIZE_BYTES
abbrev pub board_id_len : ℕ
board_id_len = 8

-- read_id_segment, with its pointers not NULL; `id` is what pico_get_unique_board_id fills in.
unfoldable pub rp2040_segment : List ℕ → ℕ → ℕ → List ℕ → ℕ → Answer
rp2040_segment id idx cap out len =
    if idx != 0
    then (no_more_segments, out, len)
    else if ltb cap board_id_len
    then (buffer_too_small, out, len)
    else if or_all id 0 == 0
    then (platform, out, len)
    else if and_all id 0xff == 0xff
    then (platform, out, len)
    else (ok, write_at 0 id out, board_id_len)

-- VL_RP_MAGIC
abbrev pub rp_magic : ℕ
rp_magic = 0x564C3031

-- vl_rp_record_t, with its padding
pub record RpRecord : Type 0 where
  pub magic : ℕ
  pub hwm : ℕ
  pub blob_len : ℕ
  pub blob : List ℕ
  pub padding : List ℕ

-- The record at `p`, and back
abbrev word_at : List ℕ → ℕ → ℕ
word_at p i = le_word (get_or p i 0) (get_or p (1 + i) 0) (get_or p (2 + i) 0) (get_or p (3 + i) 0)

abbrev pub record_of : List ℕ → RpRecord
record_of p = record {
  magic = word_at p 0;
  hwm = word_at p 4;
  blob_len = word_at p 8;
  blob = take 161 (drop 12 p);
  padding = take 3 (drop 173 p);
}

abbrev pub record_bytes : RpRecord → List ℕ
record_bytes rec =
    le_bytes rec.magic ++ (le_bytes rec.hwm ++ (le_bytes rec.blob_len ++ (rec.blob ++ rec.padding)))

-- memset(rec, 0, sizeof *rec); rec->magic = VL_RP_MAGIC
abbrev pub empty_record : RpRecord
empty_record = record {
  magic = rp_magic;
  hwm = 0;
  blob_len = 0;
  blob = replicate 161 0;
  padding = replicate 3 0;
}

-- rec->blob[VL_BLOB_STR_LEN] = '\0'
abbrev pub close_blob : RpRecord → RpRecord
close_blob rec = record rec { blob = set rec.blob blob_str_len 0 }

-- record_read from the memcpy on
unfoldable pub checked_record : RpRecord → RpRecord
checked_record rec =
    if rec.magic != rp_magic || ltb blob_str_len rec.blob_len
    then close_blob empty_record
    else close_blob rec

-- record_read, from the memory at the flash offset
unfoldable pub record_read : List ℕ → RpRecord
record_read p = checked_record (record_of p)

-- page[], as record_write fills it
abbrev pub page_of : RpRecord → List ℕ
page_of rec = write_at 0 (record_bytes rec) (replicate 256 0xff)

-- memcmp(a, b, n) == 0, over lists of that length
unfoldable pub same_memory : List ℕ → List ℕ → Bool
same_memory [] [] = true
same_memory (x ∷ a) (y ∷ b) = x == y && same_memory a b
same_memory a b = false

-- blob_load from the record: its status, what is written to `out`, and *out_len
unfoldable pub rp_blob_answer : ℕ → RpRecord → Status × List ℕ × ℕ
rp_blob_answer cap rec =
    if cap == 0
    then (invalid_arg, [], 0)
    else if rec.blob_len == 0
    then (not_found, [], 0)
    else if ltb cap (rec.blob_len + 1)
    then (buffer_too_small, [], 0)
    else (ok, take rec.blob_len rec.blob ++ 0 ∷ [], rec.blob_len)

-- The calls of the pico-sdk, and the memory at XIP_BASE + VL_HAL_RP2040_FLASH_OFFSET
pub record Sdk (W : Type 0) : Type 0 where
  pub save_and_disable_interrupts : W → ℕ × W
  pub restore_interrupts : ℕ → W → W
  pub flash_range_erase : W → W
  pub flash_range_program : List ℕ → W → W
  pub xip : W → List ℕ

module _ {W : Type 0} (sdk : Sdk W) where
  -- record_write
  unfoldable pub record_write : RpRecord → W → Status × W
  record_write rec w =
      let page = page_of rec in
      let (irq, w1) = sdk.save_and_disable_interrupts w in
      let w2 = sdk.flash_range_program page (sdk.flash_range_erase w1) in
      let w3 = sdk.restore_interrupts irq w2 in
      if ltb 256 (length (record_bytes rec))
      then (internal, w)
      else if same_memory (take 256 (sdk.xip w3)) page
      then (ok, w3)
      else (platform, w3)

  -- hwm_load with its pointer not NULL
  abbrev pub rp_hwm_load : W → Status × ℕ × W
  rp_hwm_load w = (ok, (record_read (sdk.xip w)).hwm, w)

  unfoldable pub rp_hwm_store : ℕ → W → Status × W
  rp_hwm_store value w =
      let rec = record_read (sdk.xip w) in
      if rec.hwm == value then (ok, w) else record_write (record rec { hwm = value }) w

  -- blob_load with its pointers not NULL
  abbrev pub rp_blob_load : ℕ → W → Status × List ℕ × ℕ × W
  rp_blob_load cap w =
      let (st, text, len) = rp_blob_answer cap (record_read (sdk.xip w)) in (st, text, len, w)

  -- blob_store with `blob` not NULL, of `length blob` characters
  unfoldable pub rp_blob_store : List ℕ → W → Status × W
  rp_blob_store blob w =
      let rec = record_read (sdk.xip w) in
      if ltb blob_str_len (length blob)
      then (buffer_too_small, w)
      else record_write
          (record rec { blob = write_at 0 blob (replicate 161 0); blob_len = length blob }) w

  -- g_hal of vl_hal_rp2040
  abbrev pub rp2040_hal : List ℕ → List ℕ → Hal W
  rp2040_hal id before = record {
    read_id_segment = some (reader (rp2040_segment id) before);
    now_epoch = none;
    hwm_load = some rp_hwm_load;
    hwm_store = some rp_hwm_store;
    blob_load = some rp_blob_load;
    blob_store = some rp_blob_store;
    secure_posture = none;
  }
