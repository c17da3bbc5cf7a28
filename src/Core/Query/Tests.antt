-- ===== src/Core/Query/Tests.antt =====
-- core/vl_core.c: vl_has_feature at a high bit and past the last one.
use vecti_license.Base.{◌≡◌, refl, some}
use vecti_license.Api.{zero_license}
use vecti_license.Core.Query.{has_feature}

feature_31 : has_feature (some (record zero_license { features = 0x80000000 })) 31 ≡ 1
unfolding has_feature
feature_31 = refl

feature_32 : has_feature (some (record zero_license { features = 0x80000000 })) 32 ≡ 0
unfolding has_feature
feature_32 = refl
