-- ===== src/Hal/Posix/MacOs/Tests.antt =====
-- hal/posix/vl_hal_posix.c on macOS: a machine with a loopback and two interfaces, the first of them
-- without an address.
use vecti_license.Base.{ℕ, ◌≡◌, ◌⊎◌, refl, some, none, List, [], ◌∷◌, ◌++◌, replicate}
use vecti_license.Base.Text.{codes}
use vecti_license.Sha256.Digest.{digest}
use vecti_license.Api.{ok}
use vecti_license.Core.Fingerprint.{fp_domain, fingerprint_with}
use vecti_license.Core.Fingerprint.Identity.{encode_segments}
use vecti_license.Core.Fingerprint.Tests.{stack}
use vecti_license.Hal.Posix.{PosixCtx}
use vecti_license.Hal.Posix.Reading.{Failing}
use vecti_license.Hal.Posix.MacOs.{
  Interface, MacOs, text, colons, is_named, link_text, entry_text, interface_loop, mac_os_segment,
}
use vecti_license.Hal.Posix.MacOs.Identity.{Reports, mac_os_fingerprint}

abbrev interfaces : List Interface
interfaces =
    record { name = codes "lo0"; link = some [] }
    ∷ record { name = codes "en0"; link = some (replicate 6 0) }
    ∷ record { name = codes "en1"; link = some (0x02 ∷ 0x42 ∷ 0xac ∷ 0x11 ∷ 0 ∷ 0xff ∷ []) }
    ∷ []

abbrev mac_book : MacOs ℕ
mac_book = record {
  interfaces = λ w. some interfaces;
  platform_uuid = λ w. text (λ cap. some (codes "5F2C"));
}

abbrev ctx : PosixCtx
ctx = record { iface = []; state = codes "/tmp/state" }

finds_second : interface_loop none interfaces ≡ some (codes "02:42:ac:11:00:ff")
unfolding interface_loop entry_text is_named link_text colons
finds_second = refl

mac_os_fingerprint_example :
    let print =
      fingerprint_with stack
        (some (mac_os_segment mac_book (replicate 255 0)))
        (some (replicate 32 0xcc))
        (ctx, 0) in
    ((r : Reports mac_book ctx 0) × (print
        ≡ (ok, some (digest (fp_domain ++ encode_segments (r.mac ∷ r.uuid ∷ []))), (ctx, 0))))
    ⊎ (¬ Reports mac_book ctx 0 × Failing print.0 × (print.1 ≡ some (replicate 32 0)))
mac_os_fingerprint_example =
    mac_os_fingerprint mac_book (replicate 255 0) stack (replicate 32 0xcc) ctx 0 refl refl refl
