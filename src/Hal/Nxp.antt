-- ===== src/Hal/Nxp.antt =====
-- hal/nxp/vl_hal_nxp.c: the unique-id registers of the three families, `Registers` being what they
-- read as.
pub mod Identity
mod Tests
use vecti_license.Base.{ℕ, ◌+◌, ◌^◌, ◌==◌, ◌!=◌, ltb, ◌||◌, if◌then◌else◌, none, some}
use vecti_license.Base.{List, [], ◌∷◌, length, take, replicate}
use vecti_license.Base.Words.{be_bytes}
use vecti_license.Hash.{write_at}
use vecti_license.Api.{ok, no_more_segments, buffer_too_small, platform, Hal}
use vecti_license.Hal.{Answer, reader, or_all, and_all}

-- VL_NXP_KINETIS with and without SIM_UIDH_UID_MASK, VL_NXP_IMXRT
pub data Family : Type 0 where
  kinetis_uidh kinetis imxrt : Family

-- The registers that the callback reads
pub record Registers : Type 0 where
  pub uidh : ℕ
  pub uidmh : ℕ
  pub uidml : ℕ
  pub uidl : ℕ
  pub cfg0 : ℕ
  pub cfg1 : ℕ

-- VL_NXP_ID_LEN
abbrev pub nxp_id_len : Family → ℕ
nxp_id_len kinetis_uidh = 16
nxp_id_len kinetis = 12
nxp_id_len imxrt = 8

-- n += put_be32(out + n, word)
abbrev pub put_be32 : ℕ → ℕ × List ℕ → ℕ × List ℕ
put_be32 word (n, out) = (n + 4, write_at n (be_bytes word) out)

-- The calls of put_be32: n and the buffer after them
abbrev pub put_all : Family → Registers → List ℕ → ℕ × List ℕ
put_all kinetis_uidh r out =
    put_be32 r.uidl (put_be32 r.uidml (put_be32 r.uidmh (put_be32 r.uidh (0, out))))
put_all kinetis r out = put_be32 r.uidl (put_be32 r.uidml (put_be32 r.uidmh (0, out)))
put_all imxrt r out = put_be32 r.cfg1 (put_be32 r.cfg0 (0, out))

unfoldable pub nxp_answer : ℕ × List ℕ → ℕ → Answer
nxp_answer (n, out) len =
    if or_all (take n out) 0 == 0 || and_all (take n out) 0xff == 0xff
    then (platform, write_at 0 (replicate n 0) out, len)
    else (ok, out, n)

-- read_id_segment, with its pointers not NULL
unfoldable pub nxp_segment : Family → Registers → ℕ → ℕ → List ℕ → ℕ → Answer
nxp_segment family r idx cap out len =
    if idx != 0
    then (no_more_segments, out, len)
    else if ltb cap (nxp_id_len family)
    then (buffer_too_small, out, len)
    else nxp_answer (put_all family r out) len

-- g_hal of vl_hal_nxp
abbrev pub nxp_hal : {W : Type 0} → Family → Registers → List ℕ → Hal W
nxp_hal family r before = record {
  read_id_segment = some (reader (nxp_segment family r) before);
  now_epoch = none;
  hwm_load = none;
  hwm_store = none;
  blob_load = none;
  blob_store = none;
  secure_posture = none;
}
