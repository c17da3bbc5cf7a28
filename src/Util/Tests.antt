-- ===== src/Util/Tests.antt =====
-- core/vl_util.c: concrete runs, and the theorem at a concrete input.
use vecti_license.Base.{ℕ, ◌≡◌, ◌≢◌, ◌↔◌, ◌<◌, refl, arith, some, List, [], ◌∷◌, take}
use vecti_license.Util.{ct_eq, diff_loop, secure_wipe}
use vecti_license.Util.Equal.{ct_eq_decides}

ct_eq_prefix : ct_eq (some (1 ∷ 2 ∷ 3 ∷ [])) (some (1 ∷ 2 ∷ 4 ∷ [])) 2 ≡ 1
unfolding ct_eq diff_loop
ct_eq_prefix = refl

secure_wipe_prefix : secure_wipe (some (7 ∷ 8 ∷ 9 ∷ [])) 2 ≡ some (0 ∷ 0 ∷ 9 ∷ [])
unfolding secure_wipe
secure_wipe_prefix = refl

abbrev left : List ℕ
left = 1 ∷ 2 ∷ 3 ∷ []

abbrev right : List ℕ
right = 1 ∷ 2 ∷ 4 ∷ []

ct_eq_decides_example :
    ((ct_eq (some left) (some right) 3 ≡ 1) ↔ ((0 < 3) × (take 3 left ≡ take 3 right)))
    × (ct_eq (some left) (some right) 3 ≢ 1 → ct_eq (some left) (some right) 3 ≡ 0)
ct_eq_decides_example =
    ct_eq_decides left right 3 (omega arith) (omega arith) (omega arith) (omega arith)
