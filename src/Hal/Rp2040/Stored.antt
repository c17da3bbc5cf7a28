-- ===== src/Hal/Rp2040/Stored.antt =====
-- hal/rp2040/vl_hal_rp2040.c: what the stores leave is what the loads find.
use vecti_license.Base.{
  ℕ, ◌+◌, ◌^◌, ◌<◌, ◌≤◌, ◌≡◌, refl, sym, ap, ◌∙◌, arith, inl, inr, false, Bool-cases,
}
use vecti_license.Base.{
  List, [], ◌∷◌, ◌++◌, All, length, drop, replicate, ltb, ◌==◌, if◌then◌else◌, ==_iff,
  take-append_exact, get_or_beyond,
}
use vecti_license.Base.Digits.{Below}
use vecti_license.Hash.{write_at}
use vecti_license.Hash.Stream.Buffer.{length-write_at}
use vecti_license.Api.{ok, not_found}
use vecti_license.Hal.Rp2040.{
  record_read, Sdk, rp_hwm_load, rp_hwm_store, rp_blob_answer, rp_blob_load, rp_blob_store,
}
use vecti_license.Hal.Rp2040.Record.{IsRecord, record_read-IsRecord, record_write_reads}
use native.Mathlib.Nat.{zero-add}

-- The flash is memory: at least a page of it can be read, and it reads as bytes.
abbrev pub IsMapped : {W : Type 0} → Sdk W → Type 0
IsMapped {W = W} sdk = (w : W) → (256 ≤ length (sdk.xip w)) × All (Below 256) (sdk.xip w)

module _ {W : Type 0} (sdk : Sdk W) where
  stored-IsRecord : (w : W) → IsMapped sdk → IsRecord (record_read (sdk.xip w))
  stored-IsRecord w m =
      let (long, bytes) = m w in record_read-IsRecord (sdk.xip w) (omega (arith, long)) bytes

  hwm_store_writes :
      (value : ℕ) (w : W) {w' : W}
      → IsMapped sdk
      → value < 2 ^ 32
      → rp_hwm_store sdk value w ≡ (ok, w')
      → record_read (sdk.xip w') ≡ record (record_read (sdk.xip w)) { hwm = value }
  unfolding rp_hwm_store
  hwm_store_writes value w {w'} m h e =
      let rec = record_read (sdk.xip w) in
      let r = stored-IsRecord w m in
      elim (Bool-cases (rec.hwm == value)) [
        | inl same ↦
            let unmoved : w ≡ w' = ap (λ t. t.1) (rw same at e) in
            let is : rec.hwm ≡ value = (==_iff rec.hwm value).0 same in
            ap (λ v. record_read (sdk.xip v)) (sym unmoved) ∙ ap (λ x. record rec { hwm = x }) is
        | inr other ↦
            record_write_reads sdk (record rec { hwm = value }) w
              (record {
                is_magic = r.is_magic;
                mark = h;
                short = r.short;
                sized = r.sized;
                closed = r.closed;
                padded = r.padded;
              })
              (rw other at e)
      ]

  -- After hwm_store has returned VL_OK for a 32-bit value, whether it wrote or found the value there,
  -- hwm_load returns the value, and blob_load answers as before.
  pub hwm_store_loads :
      (value cap : ℕ) (w w' : W)
      → IsMapped sdk
      → value < 2 ^ 32
      → rp_hwm_store sdk value w ≡ (ok, w')
      → (rp_hwm_load sdk w' ≡ (ok, value, w'))
        × (let (st, text, len, v) = rp_blob_load sdk cap w in
            rp_blob_load sdk cap w' ≡ (st, text, len, w'))
  unfolding rp_blob_answer
  hwm_store_loads value cap w w' m h e =
      let after = hwm_store_writes value w m h e in
      (
        ap (λ rec. (ok, rec.hwm, w')) after,
        ap (λ rec. let (st, text, len) = rp_blob_answer cap rec in (st, text, len, w')) after,
      )

  blob_store_writes :
      (text : List ℕ) (w : W) {w' : W}
      → IsMapped sdk
      → rp_blob_store sdk text w ≡ (ok, w')
      → (length text ≤ 160)
        × (record_read (sdk.xip w') ≡ record (record_read (sdk.xip w)) {
          blob_len = length text;
          blob = write_at 0 text (replicate 161 0);
        })
  unfolding rp_blob_store
  blob_store_writes text w {w'} m e =
      let rec = record_read (sdk.xip w) in
      let r = stored-IsRecord w m in
      elim (Bool-cases (ltb 160 (length text))) [
        | inl long ↦ cc (rw long at e)
        | inr fits ↦
            let short : length text ≤ 160 = ground arith in
            let room : 0 + length text ≤ length (replicate {A = ℕ} 161 0) = omega arith in
            (
              short,
              record_write_reads sdk
                  (record rec { blob_len = length text; blob = write_at 0 text (replicate 161 0) })
                  w
                  (record {
                    is_magic = r.is_magic;
                    mark = r.mark;
                    short = short;
                    sized = length-write_at 0 text (replicate 161 0) room;
                    closed =
                        rw (zero-add (length text))
                          (get_or_beyond text (replicate 161 0) 160 1 short);
                    padded = r.padded;
                  })
                  (rw fits at e),
            )
      ]

  -- After blob_store has returned VL_OK, blob_load into a buffer with room returns the text, its NUL
  -- and its length, or VL_ERR_NOT_FOUND if the text was empty; and hwm_load answers as before.
  pub blob_store_loads :
      (text : List ℕ) (cap : ℕ) (w w' : W)
      → IsMapped sdk
      → length text < cap
      → rp_blob_store sdk text w ≡ (ok, w')
      → (rp_blob_load sdk cap w' ≡ (
          if length text == 0
          then (not_found, [], 0, w')
          else (ok, text ++ 0 ∷ [], length text, w')))
        × (rp_hwm_load sdk w' ≡ (ok, (rp_hwm_load sdk w).1, w'))
  unfolding rp_blob_answer
  blob_store_loads text cap w w' m h e =
      let (short, after) = blob_store_writes text w m e in
      let room : (cap == 0) ≡ false = ground arith in
      let fits : ltb cap (length text + 1) ≡ false = ground arith in
      let front =
        take-append_exact (length text) text (drop (0 + length text) (replicate 161 0)) refl in
      (
        ap (λ rec. let (st, written, len) = rp_blob_answer cap rec in (st, written, len, w')) after
            ∙ elim (Bool-cases (length text == 0)) [
              | inl empty ↦ rw (room, empty) refl
              | inr full ↦ rw (room, full, fits, front) refl
            ],
        ap (λ rec. (ok, rec.hwm, w')) after,
      )
