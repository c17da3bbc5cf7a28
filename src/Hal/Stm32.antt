-- ===== src/Hal/Stm32.antt =====
-- hal/stm32/vl_hal_stm32.c: the 96-bit device id. `uid` is vl_uid_word, which reads the hardware.
pub mod Identity
mod Tests
use vecti_license.Base.{
  ℕ, zero, suc, ◌+◌, ◌*◌, ◌^◌, ◌==◌, ◌!=◌, ltb, ◌||◌, if◌then◌else◌, none, some,
}
use vecti_license.Base.{List, replicate, bit_and, bit_or}
use vecti_license.Base.Words.{le_bytes}
use vecti_license.Hash.{write_at}
use vecti_license.Api.{Status, ok, no_more_segments, buffer_too_small, platform, Hal}
use vecti_license.Hal.{Answer, reader}

-- VL_STM32_UID_LEN
abbrev pub stm32_uid_len : ℕ
stm32_uid_len = 12

-- The loop over the words, `left` of them to come
pub uid_loop : (ℕ → ℕ) → ℕ → ℕ → List ℕ → ℕ → ℕ → List ℕ × ℕ × ℕ
uid_loop uid zero i out all_or all_and = (out, all_or, all_and)
uid_loop uid (suc left) i out all_or all_and =
    let w = uid i in
    uid_loop uid left (i + 1) (write_at (i * 4) (le_bytes w) out) (bit_or all_or w)
      (bit_and all_and w)

pub uid_answer : List ℕ × ℕ × ℕ → ℕ → Answer
uid_answer (out, all_or, all_and) len =
    if all_or == 0 || all_and == 0xffffffff
    then (platform, write_at 0 (replicate stm32_uid_len 0) out, len)
    else (ok, out, stm32_uid_len)

-- read_id_segment, with its pointers not NULL
unfoldable pub stm32_segment : (ℕ → ℕ) → ℕ → ℕ → List ℕ → ℕ → Answer
unfolding uid_loop uid_answer
stm32_segment uid idx cap out len =
    if idx != 0
    then (no_more_segments, out, len)
    else if ltb cap stm32_uid_len
    then (buffer_too_small, out, len)
    else uid_answer (uid_loop uid 3 0 out 0 0xffffffff) len

-- g_hal of vl_hal_stm32
abbrev pub stm32_hal : {W : Type 0} → (ℕ → ℕ) → List ℕ → Hal W
stm32_hal uid before = record {
  read_id_segment = some (reader (stm32_segment uid) before);
  now_epoch = none;
  hwm_load = none;
  hwm_store = none;
  blob_load = none;
  blob_store = none;
  secure_posture = none;
}
