-- ===== src/Hal/Stm32/Tests.antt =====
-- hal/stm32/vl_hal_stm32.c: a device with an id, and one whose bus answers with nothing.
use vecti_license.Base.{ℕ, ◌≡◌, ◌⊎◌, refl, arith, some, List, [], ◌∷◌, ◌++◌, replicate}
use vecti_license.Api.{ok, platform}
use vecti_license.Hal.Stm32.{stm32_segment}

abbrev some_uid : ℕ → ℕ
some_uid i = 0x04030201

reads_some_uid :
    stm32_segment some_uid 0 13 (replicate 13 0xcc) 0
    ≡ (ok, 1 ∷ 2 ∷ 3 ∷ 4 ∷ 1 ∷ 2 ∷ 3 ∷ 4 ∷ 1 ∷ 2 ∷ 3 ∷ 4 ∷ 0xcc ∷ [], 12)
unfolding stm32_segment vecti_license.Base.Words.le_bytes
reads_some_uid = refl

reads_no_uid :
    stm32_segment (λ i. 0xffffffff) 0 13 (replicate 13 0xcc) 0
    ≡ (platform, replicate 12 0 ++ 0xcc ∷ [], 0)
unfolding stm32_segment vecti_license.Base.Words.le_bytes
reads_no_uid = refl
