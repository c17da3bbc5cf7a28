-- ===== src/Hal/Rp2040/Tests.antt =====
-- hal/rp2040/vl_hal_rp2040.c: a flash that is a list of bytes.
use vecti_license.Base.{◌^◌, ◌<◌, ◌≤◌, ltb, leb, take, drop, length, All}
use vecti_license.Base.Digits.{Below}
use vecti_license.Base.{
  ◌==◌, if◌then◌else◌, zero, suc, ap, ℕ, ◌≡◌, ◌⊎◌, refl, arith, some, List, [], ◌∷◌, ◌++◌,
  replicate,
}
use vecti_license.Api.{ok}
use vecti_license.Api.{not_found}
use vecti_license.Hal.Rp2040.{
  record_read, checked_record, same_memory, Sdk, record_write, rp_hwm_load, rp_hwm_store,
  rp_blob_load, rp_blob_store,
}
use vecti_license.Hal.Rp2040.Stored.{IsMapped, hwm_store_loads, blob_store_loads}

-- The world is what has been programmed last; the mapped flash is its first 256 bytes as bytes.
abbrev as_byte : ℕ → ℕ
as_byte b = if ltb b 256 then b else 0

abbrev page_bytes : ℕ → List ℕ → List ℕ
page_bytes zero p = []
page_bytes (suc n) [] = 0xff ∷ page_bytes n []
page_bytes (suc n) (b ∷ p) = as_byte b ∷ page_bytes n p

abbrev sdk : Sdk (List ℕ)
sdk = record {
  save_and_disable_interrupts = λ w. (0, w);
  restore_interrupts = λ irq w. w;
  flash_range_erase = λ w. replicate 256 0xff;
  flash_range_program = λ page w. page;
  xip = page_bytes 256;
}

length-page_bytes : (n : ℕ) (p : List ℕ) → length (page_bytes n p) ≡ n
length-page_bytes zero p = refl
length-page_bytes (suc n) [] = ap suc (length-page_bytes n [])
length-page_bytes (suc n) (b ∷ p) = ap suc (length-page_bytes n p)

page_bytes-Below : (n : ℕ) (p : List ℕ) → All (Below 256) (page_bytes n p)
page_bytes-Below zero p = tt
page_bytes-Below (suc n) [] = (omega arith, page_bytes-Below n [])
page_bytes-Below (suc n) (b ∷ p) = (ground arith, page_bytes-Below n p)

sdk-IsMapped : IsMapped sdk
sdk-IsMapped w = let size = length-page_bytes 256 w in (omega arith, page_bytes-Below 256 w)

abbrev marked : List ℕ
marked = (rp_hwm_store sdk 1000 []).1

stores_mark : rp_hwm_store sdk 1000 [] ≡ (ok, marked)
unfolding rp_hwm_store record_read checked_record record_write same_memory
    vecti_license.Base.Words.le_bytes
stores_mark = refl

hwm_store_loads_example :
    (rp_hwm_load sdk marked ≡ (ok, 1000, marked))
    × (let (st, text, len, v) = rp_blob_load sdk 161 [] in
        rp_blob_load sdk 161 marked ≡ (st, text, len, marked))
hwm_store_loads_example =
    hwm_store_loads sdk 1000 161 [] marked sdk-IsMapped (omega arith) stores_mark

abbrev short_text : List ℕ
short_text = b'A' ∷ b'R' ∷ b'0' ∷ []

abbrev filed : List ℕ
filed = (rp_blob_store sdk short_text []).1

stores_text : rp_blob_store sdk short_text [] ≡ (ok, filed)
unfolding rp_blob_store record_read checked_record record_write same_memory
    vecti_license.Base.Words.le_bytes
stores_text = refl

blob_store_loads_example :
    (rp_blob_load sdk 161 filed ≡ (
      if length short_text == 0
      then (not_found, [], 0, filed)
      else (ok, short_text ++ 0 ∷ [], length short_text, filed)))
    × (rp_hwm_load sdk filed ≡ (ok, (rp_hwm_load sdk []).1, filed))
blob_store_loads_example =
    blob_store_loads sdk short_text 161 [] filed sdk-IsMapped (omega arith) stores_text
