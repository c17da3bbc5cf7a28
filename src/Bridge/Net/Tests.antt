-- ===== src/Bridge/Net/Tests.antt =====
-- bridge/vl_bridge_net.h: a portal in which a key has been saved.
use vecti_license.Base.{ℕ, ◌≡◌, refl, true, false, some, List}
use vecti_license.Base.Text.{codes}
use vecti_license.Bridge.{LicenseObject, new_object, submit, submit_if}
use vecti_license.Bridge.Net.{Portal, NetLicensePortal, new_portal, portal_loop, portal_seen}
use vecti_license.Bridge.Net.Passes.{latest, passes, portal_hands_once}
use vecti_license.Base.{◌≢◌, ◌⊎◌, [], ◌∷◌}

-- The world is the saved key.
abbrev saved_key : Portal (List ℕ)
saved_key = record { add_parameter = λ p w. w; param_value = λ key w. w }

abbrev portal : NetLicensePortal
portal = new_portal (codes "vl")

abbrev busy : LicenseObject (List ℕ)
busy = record new_object { pending_flag = true }

-- The inbox is taken, so the key is refused, and it is not offered again to a free one.
key_lost : (portal_loop saved_key portal busy (codes "AR0")).0 ≡ false
unfolding portal_loop portal_seen submit submit_if
key_lost = refl

abbrev free : LicenseObject (List ℕ)
free = new_object

-- A pass over an empty portal, one that sees the key while the inbox is taken, and one after the key
-- has been deleted; the next sees the key again.
abbrev history : List (LicenseObject (List ℕ) × List ℕ)
history = (free, []) ∷ (busy, codes "AR0") ∷ (free, []) ∷ []

portal_hands_once_example :
    ((codes "AR0" ≢ [])
      × (codes "AR0" ≢ codes "AR0")
      × (portal_loop saved_key (passes saved_key portal history) free (codes "AR0") ≡ (
        (submit (some (codes "AR0")) 3 free).0,
        record portal { last = codes "AR0" },
        (submit (some (codes "AR0")) 3 free).1,
      )))
    ⊎ (((codes "AR0" ≡ []) ⊎ (codes "AR0" ≡ codes "AR0"))
        × (portal_loop saved_key (passes saved_key portal history) free (codes "AR0")
            ≡ (false, passes saved_key portal history, free)))
unfolding latest
portal_hands_once_example = portal_hands_once saved_key (codes "vl") history free (codes "AR0")
